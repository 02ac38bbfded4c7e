-- ===== src/Handler/Tests.antt =====
-- handler.go on concrete inputs.
use Prim.Native.String.{◌++◌}
use go_openbmclapi.Prelude.{
  ℕ, ◌≡◌, refl, String, Bool, true, false, Option, some, List, [], ◌∷◌, ◌==◌, if◌then◌else◌,
}
use go_openbmclapi.Prelude.Int.{ℤ, pos}
use go_openbmclapi.Prelude.Eq.{string_eq}
use go_openbmclapi.Cluster.KeepAlive.{Counters}
use go_openbmclapi.Handler.{Serve, serves, breaks, not_exist, Request, check_query_sign}
use go_openbmclapi.Handler.Routes.{RouteRequest, Gate, route, measure}
use go_openbmclapi.Handler.Signature.{check_query_sign-shifted}

abbrev request : Request
request = record { wants_empty = false; stat_only = false; downloads = true; random = 5 }

abbrev no_hits : Counters
no_hits = record {
  hits = 0;
  hbts = 0;
  last_hits = 0;
  last_hbts = 0;
  stat_only_hits = 0;
  stat_only_hbts = 0;
}

-- Only the last of three storages has the file.
abbrev last_serves : ℕ → Serve
last_serves i = if i == 2 then serves (pos 7) else breaks not_exist

abbrev three_weights : List ℕ
three_weights = 4 ∷ 1 ∷ 1 ∷ []

-- A parser that takes every expiry for the time 9.
abbrev at_nine : String → Option ℤ
at_nine e = some (pos 9)

abbrev as_is : String → String
as_is s = s

first_link : check_query_sign at_nine as_is false "kabcd" ("c" ++ "d") (pos 5) "ab" "k" ≡ true
unfolding check_query_sign
first_link = refl

check_query_sign-shifted_example :
    check_query_sign at_nine as_is false "kabcd" "d" (pos 5) ("ab" ++ "c") "k" ≡ true
check_query_sign-shifted_example =
    check_query_sign-shifted at_nine as_is "kabcd" "c" "d" (pos 5) (pos 9) "ab" "k" first_link refl
      refl refl

-- Every path is one under /measure/, for a size of 10.
abbrev is_measure : String → String → Bool
is_measure path prefix = string_eq.test prefix "/measure/"

abbrev behind : String → String → String
behind path prefix = "10"

abbrev no_bytes : String → List ℕ
no_bytes text = []

abbrev ten : String → Option ℤ
ten text = some (pos 10)

abbrev gate : Gate
gate = record {
  skip_signature_check = false;
  secret = "k";
  should_enable = true;
  has_dashboard = true;
  now = pos 5;
}

abbrev measure_request : RouteRequest
measure_request = record {
  is_get_or_head = true;
  raw_path = "/measure/10";
  url_path = "/measure/10";
  s = "k/measure/10d";
  e = "d";
}

is_measured :
    route is_measure behind no_bytes ten as_is at_nine as_is gate measure_request ≡ measure (pos 10)
unfolding route check_query_sign
is_measured = refl
