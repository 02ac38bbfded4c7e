-- ===== src/Handler/Routes.antt =====
-- handler.go: Cluster.ServeHTTP, which tells the requests of a mirror apart. The functions of package
-- strings and strconv are parameters: `has_prefix s p` is HasPrefix, `behind s p` is s[len(p):].
pub mod Guards
use go_openbmclapi.Prelude.{
  ℕ, String, Bool, true, false, ◌&&◌, ◌||◌, not, Option, none, some, List, [], ◌∷◌, if◌then◌else◌,
}
use go_openbmclapi.Prelude.Int.{ℤ, pos, ltb_ℤ}
use go_openbmclapi.Prelude.Eq.{string_eq}
use go_openbmclapi.Utils.Encoding.{is_hex}
use go_openbmclapi.Handler.{check_query_sign}

pub data Route : Type 0 where
  method_not_allowed no_hash bad_signature not_enabled bad_measure_size : Route
  download : String → Route
  measure : ℤ → Route
  api_v0 api_v1 robots no_dashboard dashboard_page to_dashboard hijacked not_found : Route

-- The parts of a request that the routes look at: the method, the escaped path and the path, and the
-- values "s" and "e" of the query.
pub record RouteRequest : Type 0 where
  pub is_get_or_head : Bool
  pub raw_path : String
  pub url_path : String
  pub s : String
  pub e : String

-- What the cluster decides by: SkipSignatureCheck, the secret, shouldEnable, Dashboard.Enable, the time in
-- milliseconds.
pub record Gate : Type 0 where
  pub skip_signature_check : Bool
  pub secret : String
  pub should_enable : Bool
  pub has_dashboard : Bool
  pub now : ℤ

module _ (has_prefix : String → String → Bool) (behind : String → String → String)
    (bytes : String → List ℕ) (atoi : String → Option ℤ) (version : String → String)
    (parse36 : String → Option ℤ) (digest : String → String) where
  abbrev pub is_signed : Gate → RouteRequest → String → Bool
  is_signed g r text =
      check_query_sign parse36 digest g.skip_signature_check r.s r.e g.now text g.secret

  -- /download/
  unfoldable pub route_download : Gate → RouteRequest → String → Route
  route_download g r hash =
      if not r.is_get_or_head
      then method_not_allowed
      else if not (is_hex (bytes hash))
      then no_hash
      else if not (is_signed g r hash)
      then bad_signature
      else if not g.should_enable
      then not_enabled
      else download hash

  -- /measure/
  unfoldable pub route_measure : Gate → RouteRequest → String → Route
  route_measure g r size =
      if not r.is_get_or_head
      then method_not_allowed
      else if not (is_signed g r r.url_path)
      then bad_signature
      else (elim (atoi size) [
        | none ↦ bad_measure_size
        | some n ↦ if ltb_ℤ n (pos 0) || ltb_ℤ (pos 200) n then bad_measure_size else measure n
      ])

  -- /api/; `version` is the text up to the next slash.
  unfoldable pub route_api : String → Route
  route_api rest =
      if string_eq.test (version rest) "v0"
      then api_v0
      else if string_eq.test (version rest) "v1"
      then api_v1
      else not_found

  unfoldable pub route : Gate → RouteRequest → Route
  unfolding route_download route_measure route_api
  route g r =
      if has_prefix r.raw_path "/download/"
      then route_download g r (behind r.raw_path "/download/")
      else if has_prefix r.raw_path "/measure/"
      then route_measure g r (behind r.raw_path "/measure/")
      else if has_prefix r.raw_path "/api/"
      then route_api (behind r.raw_path "/api/")
      else if string_eq.test r.raw_path "/robots.txt"
      then robots
      else if has_prefix r.raw_path "/dashboard/"
      then (if g.has_dashboard then dashboard_page else no_dashboard)
      else if string_eq.test r.raw_path "/" || string_eq.test r.raw_path "/dashboard"
      then to_dashboard
      else if has_prefix r.raw_path "/bmclapi/"
      then hijacked
      else not_found
