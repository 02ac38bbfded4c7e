-- ===== src/Sync/Fileset.antt =====
-- The file set that SetFilesetByExists makes.
use mathlib.Core.List.{Perm}
use go_openbmclapi.Prelude.{
  ℕ, ◌≤◌, ◌<◌, ◌≡◌, ap, refl, String, Bool, true, false, ◌||◌, Option, none, some, List, [], ◌∷◌,
  arith, ltb, if◌then◌else◌, length, Option-cases, inl, inr, All,
}
use go_openbmclapi.Prelude.Int.{ℤ}
use go_openbmclapi.Prelude.Eq.{string_eq}
use go_openbmclapi.Prelude.GoMap.{GoMap, make, lookup, insert, lookup-make}
use go_openbmclapi.Sync.{
  FileInfo, Fileset, Storage, size_map, Targets, MissingMap, check_one, check_loop, check_file_for,
  Report, reports, some_good, add_reports, check_files, keep_existing, fileset_is,
  set_fileset_by_exists,
}
use go_openbmclapi.Sync.Missing.{
  targets_count, add_reports-count, Perm-count, seems_to_hold, lacking, Others, Sole, here, there,
  reports-count,
}

pub on_some_storage : List Storage → FileInfo → Bool
on_some_storage [] f = false
on_some_storage (sto ∷ stos) f = seems_to_hold sto f || on_some_storage stos f

lacking-le : (stos : List Storage) (f : FileInfo) → lacking stos f ≤ length stos
unfolding lacking
lacking-le [] f = omega arith
lacking-le (sto ∷ stos) f = ground (arith, lacking-le stos f)

lacking-ltb :
    (stos : List Storage) (f : FileInfo)
    → ltb (lacking stos f) (length stos) ≡ on_some_storage stos f
unfolding lacking on_some_storage
lacking-ltb [] f = refl
lacking-ltb (sto ∷ stos) f = ground (arith, lacking-le stos f, lacking-ltb stos f)

-- Each file's hash is its own.
unfoldable pub Distinct : List FileInfo → Type 0
Distinct [] = Unit
Distinct (f ∷ fs) = Others f fs × Distinct fs

-- The file set of a list of files, later ones over earlier ones.
pub fileset_of : List FileInfo → Fileset → Fileset
fileset_of [] fileset = fileset
fileset_of (f ∷ fs) fileset = fileset_of fs (insert fileset f.hash f.size)

pub existing : List Storage → List FileInfo → List FileInfo
existing stos [] = []
existing stos (f ∷ fs) =
    let rest = existing stos fs in if on_some_storage stos f then f ∷ rest else rest

keep_existing-existing :
    (m : MissingMap) (stos : List Storage) (fs : List FileInfo) (fileset : Fileset)
    → 0 < length stos
    → All (λ (f : FileInfo). targets_count f.hash m ≡ lacking stos f) fs
    → keep_existing m (length stos) fs fileset ≡ fileset_of (existing stos fs) fileset
unfolding keep_existing fileset_of existing targets_count
keep_existing-existing m stos [] fileset p a = refl
keep_existing-existing m stos (f ∷ fs) fileset p a = elim (Option-cases (lookup m f.hash)) [
  | inl new ↦ ground (
    arith,
    new,
    lacking-ltb stos f,
    keep_existing-existing m stos fs (insert fileset f.hash f.size) p a.1,
    a.0,
  )
  | inr (t, at) ↦ ground (
    arith,
    at,
    lacking-ltb stos f,
    keep_existing-existing m stos fs (insert fileset f.hash f.size) p a.1,
    keep_existing-existing m stos fs fileset p a.1,
    a.0,
  )
]

differ :
    (g f : FileInfo) → string_eq.test f.hash g.hash ≡ false → string_eq.test g.hash f.hash ≡ false
differ g f h = ground (arith, string_eq.agrees f.hash g.hash, string_eq.agrees g.hash f.hash)

lift-Sole :
    (g : FileInfo) (whole fs : List FileInfo)
    → Others g fs
    → All (λ (f : FileInfo). Sole f whole) fs
    → All (λ (f : FileInfo). Sole f (g ∷ whole)) fs
lift-Sole g whole [] o a = tt
lift-Sole g whole (f ∷ fs) o a = (there (differ g f o.0) a.0, lift-Sole g whole fs o.1 a.1)

Distinct-Sole : (fs : List FileInfo) → Distinct fs → All (λ (f : FileInfo). Sole f fs) fs
unfolding Distinct
Distinct-Sole [] d = tt
Distinct-Sole (g ∷ fs) d = (here d.0, lift-Sole g fs fs d.0 (Distinct-Sole fs d.1))

unfoldable pub any_walk : List Storage → Bool
any_walk [] = false
any_walk (sto ∷ stos) = (elim sto.walk [ none ↦ false | some _ ↦ true ]) || any_walk stos

any_walk-length : (stos : List Storage) → any_walk stos ≡ true → 0 < length stos
unfolding any_walk
any_walk-length [] w = ground arith
any_walk-length (sto ∷ stos) w = omega arith

abbrev target_number : Option Targets → ℕ
target_number none = 0
target_number (some t) = length t.targets

module _ (schedule : List Report → List Report)
    (permutes : (rs : List Report) → Perm (schedule rs) rs) (ended : FileInfo → Bool × Bool)
    (never : (f : FileInfo) → ended f ≡ (false, false)) where
  not_stopped :
      (sto : Storage) (sizes : GoMap String ℤ) (fs : List FileInfo)
      → (check_loop false sto sizes ended fs).interrupted ≡ false
  unfolding check_loop check_one
  not_stopped sto sizes [] = refl
  not_stopped sto sizes (f ∷ fs) = ground (arith, never f, not_stopped sto sizes fs)

  some_good-any :
      (stos : List Storage) (fs : List FileInfo) → some_good false ended fs stos ≡ any_walk stos
  unfolding some_good any_walk check_file_for
  some_good-any [] fs = refl
  some_good-any (sto ∷ stos) fs = elim (Option-cases sto.walk) [
    | inl bad ↦ ground (arith, bad, some_good-any stos fs)
    | inr (walk, good) ↦ ground (arith, good, not_stopped sto (size_map walk make) fs)
  ]

  counted :
      (stos : List Storage) (whole fs : List FileInfo)
      → All (λ (f : FileInfo). Sole f whole) fs
      → All
          (λ (f : FileInfo).
            targets_count f.hash (add_reports (schedule (reports false ended whole 0 stos)) make)
            ≡ lacking stos f)
          fs
  counted stos whole [] a = tt
  counted stos whole (f ∷ fs) a = (
    unfold targets_count in
        omega (
          arith,
          add_reports-count (schedule (reports false ended whole 0 stos)) make f.hash,
          Perm-count f.hash (permutes (reports false ended whole 0 stos)),
          reports-count ended never 0 stos f whole a.0,
          ap target_number (lookup-make f.hash),
        ),
    counted stos whole fs a.1,
  )

-- SetFilesetByExists, its context never done, over files each with a hash of its own and storages of
-- which at least one can be walked, makes the file set of exactly the files that some storage seems to
-- hold, with their sizes, in whatever order the storages' goroutines report. A storage seems to hold a
-- file that is empty, a file that its walk finds with the size of the list, and, when its walk fails,
-- every file.
pub set_fileset_by_exists-existing :
    (schedule : List Report → List Report) (permutes : (rs : List Report) → Perm (schedule rs) rs)
    (ended : FileInfo → Bool × Bool) (never : (f : FileInfo) → ended f ≡ (false, false))
    (files : List FileInfo) (stos : List Storage)
    → Distinct files
    → any_walk stos ≡ true
    → set_fileset_by_exists schedule false ended files stos
      ≡ fileset_is (fileset_of (existing stos files) make)
unfolding set_fileset_by_exists check_files
set_fileset_by_exists-existing schedule permutes ended never files stos d w = ground (
  arith,
  some_good-any schedule permutes ended never stos files,
  w,
  keep_existing-existing (add_reports (schedule (reports false ended files 0 stos)) make) stos files
      make (any_walk-length stos w)
      (counted schedule permutes ended never stos files files (Distinct-Sole files d)),
)
