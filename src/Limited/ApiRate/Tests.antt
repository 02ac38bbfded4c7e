-- ===== src/Limited/ApiRate/Tests.antt =====
-- limited/api_rate.go: the request limits on concrete inputs.
use native.Mathlib.Omega.{arith}
use go_openbmclapi.Prelude.{◌≡◌, ◌≢◌, refl, false, none, some, [], ◌∷◌}
use go_openbmclapi.Prelude.Int.{pos}
use go_openbmclapi.Prelude.Eq.{string_eq}
use go_openbmclapi.Prelude.GoMap.{make, table, lookup, find}
use go_openbmclapi.Limited.ApiRate.{RateLimit, LimitSet, tried, panicked, counter, try}
use go_openbmclapi.Limited.ApiRate.Stages.{InQuota}
use go_openbmclapi.Limited.ApiRate.Admission.{try_answer}
use go_openbmclapi.Limited.ApiRate.Periods.{tries, tries-eq-spare, try_panics}
use go_openbmclapi.Limited.ApiRate.Cleaning.{ticks, ticks-clean_count}
use go_openbmclapi.Limited.ApiRate.Middle.{
  ApiRateMiddleWare, Request, Reply, request_id, serve_middle, set_of,
}
use go_openbmclapi.Limited.ApiRate.Serving.{serve_middle-uncharged}

abbrev two_a_minute : RateLimit
two_a_minute = record { per_min = pos 2; per_hour = pos 10 }

abbrev minute_only : RateLimit
minute_only = record { per_min = pos 1; per_hour = pos 0 }

abbrev fresh : LimitSet
fresh = record { limit = two_a_minute; clean_count = 1; access_min = make; access_hour = make }

-- Two requests of "a" were counted, which is all of the minute.
abbrev used_up : LimitSet
used_up = record fresh {
  access_min = table (("a", pos 2) ∷ []);
  access_hour = table (("a", pos 2) ∷ []);
}

abbrev no_hour : LimitSet
no_hour = record fresh { limit = minute_only; access_min = table (("a", pos 1) ∷ []) }

-- A set whose clean count has wrapped around.
abbrev wrapped : LimitSet
wrapped = record fresh { clean_count = 0 }

fresh-InQuota : InQuota fresh "a" 0 0
unfolding counter lookup
fresh-InQuota = record {
  hour_at = refl;
  min_at = refl;
  hour_small = omega arith;
  min_small = omega arith;
  hour_limit = omega arith;
  min_limit = omega arith;
}

try_answer_example : (try fresh "a").0 ≡ tried (pos 9) (pos 1) (pos 1)
try_answer_example = try_answer fresh "a" 0 0 fresh-InQuota refl

used_up-InQuota : InQuota used_up "a" 2 2
unfolding counter lookup find
used_up-InQuota = record {
  hour_at = refl;
  min_at = refl;
  hour_small = omega arith;
  min_small = omega arith;
  hour_limit = omega arith;
  min_limit = omega arith;
}

wrapped-InQuota : InQuota wrapped "a" 0 0
unfolding counter lookup
wrapped-InQuota = record {
  hour_at = refl;
  min_at = refl;
  hour_small = omega arith;
  min_small = omega arith;
  hour_limit = omega arith;
  min_limit = omega arith;
}

one : fresh.clean_count ≢ 0
one e = omega (arith, e)

tries-eq-spare_example : tries 5 fresh "a" ≡ 2
tries-eq-spare_example =
    tries-eq-spare 5 fresh "a" 0 0 fresh-InQuota refl one (omega arith) (omega arith)

try_panics_example :
    ((try no_hour "a").0 ≡ panicked) × (counter (try no_hour "a").1.access_min "a" ≡ pos 2)
unfolding counter lookup find
try_panics_example = try_panics no_hour "a" 1 refl refl refl (omega arith) (omega arith)

abbrev middle_ware : ApiRateMiddleWare
middle_ware = record { annoy_set = fresh; logged_set = fresh; start_at = 0; count = 0 }

abbrev busy : ApiRateMiddleWare
busy = record middle_ware { annoy_set = used_up }

ticks-clean_count_example :
    ((ticks 61 middle_ware).count ≡ 0) × ((ticks 61 middle_ware).logged_set.clean_count ≡ 65598)
ticks-clean_count_example = ticks-clean_count 61 middle_ware refl refl

abbrev from_a : Request
from_a = record { skip_value = false; logged = none; real_ip = "a"; remote_host = "b" }

abbrev ok_reply : Reply
ok_reply = record { status = some 200; skip = false }

abbrev moved : Reply
moved = record { status = some 302; skip = false }

serve_middle-uncharged_example :
    (counter (set_of (serve_middle middle_ware from_a 0 moved).1 from_a).access_hour "a"
      ≡ counter fresh.access_hour "a")
    × (counter (set_of (serve_middle middle_ware from_a 0 moved).1 from_a).access_min "a"
        ≡ counter fresh.access_min "a")
unfolding request_id
serve_middle-uncharged_example =
    serve_middle-uncharged middle_ware from_a 0 0 0 moved fresh-InQuota refl one refl "a" refl refl
