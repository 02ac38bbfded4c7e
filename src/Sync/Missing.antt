-- ===== src/Sync/Missing.antt =====
-- How many storages the map of missing files names for a hash.
use mathlib.Core.List.{Perm, filter}
use mathlib.Core.List.Perm
use mathlib.Core.Bool.{Bool-discrete}
use go_openbmclapi.Prelude.{
  ℕ, ◌+◌, ◌≡◌, ◌∙◌, ap, sym, refl, String, Bool, true, false, ◌||◌, none, some, List, [], ◌∷◌, ◌++◌,
  arith, if◌then◌else◌, length, length-append, Perm-length, Option-cases, inl, inr, All,
}
use go_openbmclapi.Prelude.Int.{ℤ, pos, eqb_ℤ}
use go_openbmclapi.Prelude.Eq.{string_eq}
use go_openbmclapi.Prelude.GoMap.{make, lookup, lookup-insert}
use go_openbmclapi.Sync.{
  FileInfo, Storage, size_map, MissingMap, add_missing, check_one, Checked, check_loop,
  check_file_for, Report, report_of, reports, add_reports,
}

unfoldable pub targets_count : String → MissingMap → ℕ
targets_count h m = elim (lookup m h) [ none ↦ 0 | some t ↦ length t.targets ]

abbrev pub one_if : Bool → ℕ
one_if b = if b then 1 else 0

pub count : String → List Report → ℕ
count h [] = 0
count h ((i, f) ∷ rs) = one_if (string_eq.test f.hash h) + count h rs

add_missing-count :
    (sto : ℕ) (f : FileInfo) (m : MissingMap) (h : String)
    → targets_count h (add_missing sto f m) ≡ targets_count h m + one_if (string_eq.test f.hash h)
unfolding targets_count add_missing
add_missing-count sto f m h = elim (Option-cases (lookup m f.hash)) [
  | inl new ↦ ground (
    arith,
    new,
    string_eq.agrees f.hash h,
    lookup-insert m f.hash h (record { info = f; targets = sto ∷ [] }),
  )
  | inr (t, old) ↦ ground (
    arith,
    old,
    string_eq.agrees f.hash h,
    lookup-insert m f.hash h (record t { targets = t.targets ++ sto ∷ [] }),
    length-append t.targets (sto ∷ []),
  )
]

pub add_reports-count :
    (rs : List Report) (m : MissingMap) (h : String)
    → targets_count h (add_reports rs m) ≡ targets_count h m + count h rs
unfolding add_reports count
add_reports-count [] m h = omega arith
add_reports-count ((i, f) ∷ rs) m h =
    omega (arith, add_reports-count rs (add_missing i f m) h, add_missing-count i f m h)

count-filter :
    (h : String) (rs : List Report)
    → count h rs
      ≡ length (filter (λ (r : Report). Bool-discrete (string_eq.test r.1.hash h) true) rs)
unfolding count
count-filter h [] = refl
count-filter h ((i, f) ∷ rs) = ground (arith, count-filter h rs)

-- The order of the reports does not matter to the numbers.
pub Perm-count : (h : String) {rs ss : List Report} → Perm rs ss → count h rs ≡ count h ss
Perm-count h {rs} {ss} p =
    count-filter h rs
    ∙ (Perm-length (Perm.filter (λ (r : Report). Bool-discrete (string_eq.test r.1.hash h) true) p)
        ∙ sym (count-filter h ss))

-- A storage seems to hold a file that is empty, or that its walk finds with the right size; a storage
-- whose walk fails reports nothing, and so seems to hold every file.
unfoldable pub seems_to_hold : Storage → FileInfo → Bool
seems_to_hold sto f = elim sto.walk [
  | none ↦ true
  | some walk ↦ eqb_ℤ f.size (pos 0) || (elim (lookup (size_map walk make) f.hash) [
    | none ↦ false
    | some size ↦ eqb_ℤ size f.size
  ])
]

unfoldable pub lacking : List Storage → FileInfo → ℕ
lacking [] f = 0
lacking (sto ∷ stos) f = (if seems_to_hold sto f then 0 else 1) + lacking stos f

-- The other files have another hash.
abbrev pub Others : FileInfo → List FileInfo → Type 0
Others f = All (λ (g : FileInfo). string_eq.test g.hash f.hash ≡ false)

-- The file is in the list, and no other one of its hash.
pub data Sole (f : FileInfo) : List FileInfo → Type 0 where
  here : {fs : List FileInfo} → Others f fs → Sole f (f ∷ fs)
  there :
      {g : FileInfo} {fs : List FileInfo}
      → string_eq.test g.hash f.hash ≡ false
      → Sole f fs
      → Sole f (g ∷ fs)

count-append : (h : String) (rs ss : List Report) → count h (rs ++ ss) ≡ count h rs + count h ss
unfolding count
count-append h [] ss = omega arith
count-append h ((i, f) ∷ rs) ss = omega (arith, count-append h rs ss)

-- A light check that is not interrupted.
module _ (ended : FileInfo → Bool × Bool) (never : (f : FileInfo) → ended f ≡ (false, false))
    (i : ℕ) where
  abbrev loop : Storage → List (String × ℤ) → List FileInfo → Checked
  loop sto walk fs = check_loop false sto (size_map walk make) ended fs

  loop-Others :
      (sto : Storage) (walk : List (String × ℤ)) (f : FileInfo) (fs : List FileInfo)
      → Others f fs
      → count f.hash (report_of i (some (loop sto walk fs))) ≡ 0
  unfolding count check_loop check_one
  loop-Others sto walk f [] o = refl
  loop-Others sto walk f (g ∷ fs) o = ground (arith, never g, loop-Others sto walk f fs o.1, o.0)

  loop-count :
      (sto : Storage) (walk : List (String × ℤ)) (f : FileInfo) (fs : List FileInfo)
      → sto.walk ≡ some walk
      → Sole f fs
      → count f.hash (report_of i (some (loop sto walk fs)))
        ≡ (if seems_to_hold sto f then 0 else 1)
  unfolding count check_loop check_one seems_to_hold
  loop-count sto walk f [] e s = elim s [ ]
  loop-count sto walk f (_ ∷ fs) e (here o) =
      ground (arith, never f, e, loop-Others sto walk f fs o, string_eq.agrees f.hash f.hash)
  loop-count sto walk f (g ∷ fs) e (there ne s) =
      ground (arith, never g, e, loop-count sto walk f fs e s)

  walked :
      (sto : Storage) (walk : List (String × ℤ)) (fs : List FileInfo)
      → sto.walk ≡ some walk
      → check_file_for false ended fs sto ≡ some (loop sto walk fs)
  unfolding check_file_for
  walked sto walk fs e = ground (arith, e)

  check_file_for-count :
      (sto : Storage) (f : FileInfo) (fs : List FileInfo)
      → Sole f fs
      → count f.hash (report_of i (check_file_for false ended fs sto))
        ≡ (if seems_to_hold sto f then 0 else 1)
  unfolding check_file_for
  check_file_for-count sto f fs s = elim (Option-cases sto.walk) [
    | inl failed ↦ unfold seems_to_hold count in ground (arith, failed)
    | inr (walk, e) ↦
        ap (λ c. count f.hash (report_of i c)) (walked sto walk fs e) ∙ loop-count sto walk f fs e s
  ]

pub reports-count :
    (ended : FileInfo → Bool × Bool) (never : (f : FileInfo) → ended f ≡ (false, false)) (i : ℕ)
    (stos : List Storage) (f : FileInfo) (fs : List FileInfo)
    → Sole f fs
    → count f.hash (reports false ended fs i stos) ≡ lacking stos f
unfolding reports lacking
reports-count ended never i [] f fs s = unfold count in refl
reports-count ended never i (sto ∷ stos) f fs s = omega (
  arith,
  reports-count ended never (i + 1) stos f fs s,
  check_file_for-count ended never i sto f fs s,
  count-append f.hash (report_of i (check_file_for false ended fs sto))
      (reports false ended fs (i + 1) stos),
)
