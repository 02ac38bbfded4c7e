-- ===== src/Prelude/Eq.antt =====
-- Go's `==` on the comparable types that the program uses as map keys.
use text.Mathlib.TextEquality.{eq_iff}
use text.Mathlib.Text.{◌==◌ as same_text}
use go_openbmclapi.Prelude.{
  ℕ, String, ◌≡◌, refl, ◌↔◌, Bool, true, ◌&&◌, arith, ==_iff, ◌==◌ as same_nat,
}

-- A test for the keys of a map, which agrees with equality.
pub record Eq {ℓ} (K : Type ℓ) : Type ℓ where
  pub test : K → K → Bool
  pub agrees : (j k : K) → (test j k ≡ true) ↔ (j ≡ k)

-- Keys with two parts are equal where both parts are.
abbrev pub same_pair {ℓ κ} : {A : Type ℓ} {B : Type κ} → Eq A → Eq B → A × B → A × B → Bool
same_pair d e p q = d.test p.0 q.0 && e.test p.1 q.1

pub same_pair-agrees {ℓ κ} :
    {A : Type ℓ} {B : Type κ} (d : Eq A) (e : Eq B) (p q : A × B)
    → (same_pair d e p q ≡ true) ↔ (p ≡ q)
same_pair-agrees d e p q = ground (arith, d.agrees p.0 q.0, e.agrees p.1 q.1)

instance abbrev pub string_eq : Eq String
string_eq = record { test = same_text; agrees = eq_iff }

-- A [2]string, or a struct of two comparable fields.
instance abbrev pub pair_eq {ℓ κ} : {A : Type ℓ} {B : Type κ} ⦃d : Eq A⦄ ⦃e : Eq B⦄ → Eq (A × B)
pair_eq ⦃d⦄ ⦃e⦄ = record { test = same_pair d e; agrees = same_pair-agrees d e }

instance abbrev pub nat_eq : Eq ℕ
nat_eq = record { test = same_nat; agrees = ==_iff }

infix 50 ◌==◌
abbrev pub ◌==◌ {ℓ} : {K : Type ℓ} ⦃e : Eq K⦄ → K → K → Bool
◌==◌ ⦃e⦄ j k = e.test j k

pub ==-self {ℓ} : {K : Type ℓ} ⦃e : Eq K⦄ (k : K) → (k == k) ≡ true
==-self ⦃e⦄ k = (e.agrees k k).1 refl
