-- ===== src/Handler/Signature.antt =====
-- The signature of a link does not tell where the hash ends.
use Prim.Native.String.{◌++◌}
use text.Mathlib.TextLemmas.{append_assoc}
use go_openbmclapi.Prelude.{
  ◌≡◌, ap, String, true, false, Option, some, arith, Option-cases, inl, inr,
}
use go_openbmclapi.Prelude.Int.{ℤ, ltb_ℤ}
use go_openbmclapi.Prelude.Eq.{string_eq}
use go_openbmclapi.Handler.{check_query_sign}

-- A signature that checkQuerySign accepts for a hash and an expiry that begins with some text, it also
-- accepts for the hash with that text behind it and the rest of the expiry, if that rest is an expiry
-- that has not passed.
pub check_query_sign-shifted :
    (parse36 : String → Option ℤ) (digest : String → String) (s text e : String) (now before : ℤ)
    (hash secret : String)
    → check_query_sign parse36 digest false s (text ++ e) now hash secret ≡ true
    → string_eq.test e "" ≡ false
    → parse36 e ≡ some before
    → ltb_ℤ before now ≡ false
    → check_query_sign parse36 digest false s e now (hash ++ text) secret ≡ true
unfolding check_query_sign
check_query_sign-shifted parse36 digest s text e now before hash secret h some_e parsed not_passed =
    elim (Option-cases (parse36 (text ++ e))) [
      | inl no_expiry ↦ ground (arith, h, no_expiry)
      | inr (until, expiry) ↦ ground (
        arith,
        h,
        some_e,
        parsed,
        not_passed,
        expiry,
        ap (λ (t : String). digest (secret ++ t)) (append_assoc hash text e),
      )
    ]
