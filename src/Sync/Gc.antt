-- ===== src/Sync/Gc.antt =====
-- sync.go: the garbage collection of a storage.
pub mod Sweep
use go_openbmclapi.Prelude.{
  ℕ, ◌≡◌, refl, String, Bool, true, false, not, Option, none, some, List, [], ◌∷◌, arith,
  if◌then◌else◌,
}
use go_openbmclapi.Prelude.Int.{ℤ}
use go_openbmclapi.Prelude.Eq.{string_eq}
use go_openbmclapi.Sync.{Fileset, cached_file_size}

-- The files of a storage.
abbrev pub Contents : Type 0
Contents = List (String × ℤ)

-- What Remove leaves.
unfoldable pub remove : String → Contents → Contents
remove hash [] = []
remove hash ((h, size) ∷ rest) =
    let left = remove hash rest in if string_eq.test h hash then left else (h, size) ∷ left

-- _, ok := cr.CachedFileSize(hash)
unfoldable pub is_listed : Fileset → String → Bool
unfolding cached_file_size
is_listed fileset hash = elim (cached_file_size fileset hash) [ none ↦ false | some _ ↦ true ]

-- gcFor: `walk` is what WalkDir visits; `syncing` says of each visited file whether a sync runs at it, and
-- `removes` whether s.Remove works for it: where it fails the file stays, and the walk goes on.
unfoldable pub gc_for : Fileset → (String → Bool) → (String → Bool) → Contents → Contents → Contents
unfolding is_listed remove
gc_for fileset syncing removes [] contents = contents
gc_for fileset syncing removes ((hash, size) ∷ walk) contents =
    let removed = gc_for fileset syncing removes walk (remove hash contents) in
    let kept = gc_for fileset syncing removes walk contents in
    if syncing hash
    then contents
    else if is_listed fileset hash
    then kept
    else if removes hash
    then removed
    else kept
