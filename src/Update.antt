-- ===== src/Update.antt =====
-- update/checker.go: the order of release versions.
pub mod Tests
use go_openbmclapi.Prelude.{ℕ, ◌≡◌, ◌≢◌, ◌⊎◌, ◌↔◌, refl, Bool, true, false, ◌&&◌, ◌||◌, arith}
use go_openbmclapi.Prelude.Int.{ℤ, pos, ltb_ℤ, eqb_ℤ, pos_part, neg_part}

pub record ReleaseVersion : Type 0 where
  pub major : ℤ
  pub minor : ℤ
  pub patch : ℤ
  pub build : ℤ

pub less : ReleaseVersion → ReleaseVersion → Bool
less v w =
    ltb_ℤ v.major w.major
    || (eqb_ℤ v.major w.major
        && (ltb_ℤ v.minor w.minor
            || (eqb_ℤ v.minor w.minor
                && (ltb_ℤ v.patch w.patch || (eqb_ℤ v.patch w.patch && ltb_ℤ v.build w.build)))))

-- A first component that decides, and a rest that is asked where it is equal.
first_or :
    (a b c : ℤ) (r s t : Bool)
    → (r ≡ true → s ≡ true → t ≡ true)
    → ltb_ℤ a b || (eqb_ℤ a b && r) ≡ true
    → ltb_ℤ b c || (eqb_ℤ b c && s) ≡ true
    → ltb_ℤ a c || (eqb_ℤ a c && t) ≡ true
first_or a b c false false t f p q = ground arith
first_or a b c false true t f p q = ground arith
first_or a b c true false t f p q = ground arith
first_or a b c true true t f p q = rw (f refl refl) (ground arith)

build_less : (a b c : ℤ) → ltb_ℤ a b ≡ true → ltb_ℤ b c ≡ true → ltb_ℤ a c ≡ true
build_less a b c p q = ground arith

-- If a version is before a second and the second before a third, the first is before the third.
pub less_trans : (u v w : ReleaseVersion) → less u v ≡ true → less v w ≡ true → less u w ≡ true
unfolding less
less_trans u v w = first_or u.major v.major w.major _ _ _ (
    first_or u.minor v.minor w.minor _ _ _
      (first_or u.patch v.patch w.patch _ _ _ (build_less u.build v.build w.build)))

-- Two versions of which neither is before the other are equal in all four numbers.
pub less_trichotomy : (v w : ReleaseVersion) → less v w ≡ false → less w v ≡ false → v ≡ w
unfolding less
less_trichotomy v w a b = ground arith

-- No version is before itself.
pub less_irrefl : (v : ReleaseVersion) → less v v ≡ false
unfolding less
less_irrefl v = ground arith
