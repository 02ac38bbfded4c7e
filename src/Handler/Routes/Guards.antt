-- ===== src/Handler/Routes/Guards.antt =====
-- What a request must have to be served a file or a measurement.
use go_openbmclapi.Prelude.{
  ℕ, ◌≡◌, String, Bool, true, ◌||◌, Option, none, some, List, if◌then◌else◌,
}
use go_openbmclapi.Prelude.Int.{ℤ, pos, ltb_ℤ, ◌≤ℤ◌}
use go_openbmclapi.Utils.Encoding.{is_hex}
use go_openbmclapi.Handler.{check_query_sign}
use go_openbmclapi.Handler.Routes.{
  Route, bad_measure_size, download, measure, RouteRequest, Gate, is_signed,
}

module _ (has_prefix : String → String → Bool) (behind : String → String → String)
    (bytes : String → List ℕ) (atoi : String → Option ℤ) (version : String → String)
    (parse36 : String → Option ℤ) (digest : String → String) (g : Gate) (r : RouteRequest) where
  abbrev signed : String → Bool
  signed = is_signed has_prefix behind bytes atoi version parse36 digest g r

  -- A file is served only for a hexadecimal hash that is signed, and while the cluster is to be enabled; a
  -- measurement only for a signed path and a size from 0 to 200; both only for GET and HEAD.
  unfoldable pub IsGuarded : Route → Type 0
  IsGuarded (download hash) =
      (r.is_get_or_head ≡ true)
      × (is_hex (bytes hash) ≡ true)
      × (check_query_sign parse36 digest g.skip_signature_check r.s r.e g.now hash g.secret ≡ true)
      × (g.should_enable ≡ true)
  IsGuarded (measure n) =
      (r.is_get_or_head ≡ true)
      × (check_query_sign parse36 digest g.skip_signature_check r.s r.e g.now r.url_path g.secret
          ≡ true)
      × (pos 0 ≤ℤ n)
      × (n ≤ℤ pos 200)
  IsGuarded _ = Unit

  sized : Option ℤ → Route
  sized none = bad_measure_size
  sized (some n) = if ltb_ℤ n (pos 0) || ltb_ℤ (pos 200) n then bad_measure_size else measure n
