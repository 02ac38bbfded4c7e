-- ===== src/Database/Memory/Files.antt =====
-- The file records: a write that is skipped because nothing changed cannot be told from one that is not.
use go_openbmclapi.Prelude.{
  ◌∙◌, ◌≡◌, ◌≢◌, refl, String, true, some, List, [], ◌∷◌, arith, if◌then◌else◌, All, Option-cases,
  inl, inr,
}
use go_openbmclapi.Prelude.Int.{ℤ, eqb_ℤ}
use go_openbmclapi.Prelude.Eq.{string_eq, ◌==◌, ==-self}
use go_openbmclapi.Prelude.GoMap.{
  lookup, IsMade, lookup-delete, lookup-assign, assign-made, assign-IsMade, delete-IsMade,
}
use go_openbmclapi.Database.{ok, err, err_not_found, FileRecord}
use go_openbmclapi.Database.Memory.{
  MemoryDb, get_file_record, set_file_record, remove_file_record, same_file,
}
use go_openbmclapi.Database.Memory.Frame.{perform-Frame}
use go_openbmclapi.Database.Memory.Calls.{
  Call, cleans, sets_file, removes_file, adds_jti, perform, run,
}

eq_of_eqb : (a b : ℤ) → eqb_ℤ a b ≡ true → a ≡ b
eq_of_eqb a b h = ground arith

eq_of_same_file : (a b : FileRecord) → same_file a b ≡ true → a ≡ b
eq_of_same_file a b h =
    ground (
      arith,
      string_eq.agrees a.path b.path,
      string_eq.agrees a.hash b.hash,
      eq_of_eqb a.size b.size,
    )

-- In a database with a table of files, SetFileRecord succeeds, the record is then stored under its
-- path, and every other path is as before, also where the write is skipped because an equal record
-- is stored.
pub lookup-set_file_record :
    (m : MemoryDb) (r : FileRecord) (path : String)
    → IsMade m.file_records
    → ((set_file_record r m).0 ≡ ok tt)
      × (lookup (set_file_record r m).1.file_records path
          ≡ (if r.path == path then some r else lookup m.file_records path))
unfolding set_file_record
lookup-set_file_record m r path made =
    let (t, q) = assign-made m.file_records r.path r made in
    elim (Option-cases (lookup m.file_records r.path)) [
      | inl new ↦ ground (arith, new, q, lookup-assign m.file_records t r.path path r q)
      | inr (old, found) ↦ ground (
        arith,
        found,
        q,
        lookup-assign m.file_records t r.path path r q,
        string_eq.agrees r.path path,
        eq_of_same_file old r,
      )
    ]

-- The calls that change what is stored at a path.
abbrev pub SparesFile : String → Call → Type 0
SparesFile path cleans = ⊥
SparesFile path (removes_file p) = p ≢ path
SparesFile path (sets_file r) = r.path ≢ path
SparesFile path _ = Unit

set_file_record-IsMade :
    (m : MemoryDb) (r : FileRecord)
    → IsMade m.file_records
    → IsMade (set_file_record r m).1.file_records
unfolding set_file_record
set_file_record-IsMade m r made =
    let (t, q) = assign-made m.file_records r.path r made in
    ground (arith, q, assign-IsMade m.file_records t r.path r q)

perform-file :
    (hash : String → String) (c : Call) (m : MemoryDb) (path : String)
    → SparesFile path c
    → IsMade m.file_records
    → IsMade (perform hash c m).1.file_records
      × (lookup (perform hash c m).1.file_records path ≡ lookup m.file_records path)
unfolding perform remove_file_record
perform-file hash cleans m path spares made = absurd spares
perform-file hash (removes_file p) m path spares made = ground (
  arith,
  delete-IsMade m.file_records p made,
  lookup-delete m.file_records p path,
  string_eq.agrees p path,
)
perform-file hash (sets_file r) m path spares made = (
  set_file_record-IsMade m r made,
  ground (arith, lookup-set_file_record m r path made, string_eq.agrees r.path path),
)
perform-file hash (adds_jti j e) m path spares made =
    ground (arith, perform-Frame hash (adds_jti j e) m)
perform-file hash c m path spares made = ground (arith, perform-Frame hash c m)

run-file :
    (hash : String → String) (cs : List Call) (m : MemoryDb) (path : String)
    → All (SparesFile path) cs
    → IsMade m.file_records
    → lookup (run hash cs m).file_records path ≡ lookup m.file_records path
unfolding run
run-file hash [] m path spares made = refl
run-file hash (c ∷ cs) m path spares made =
    let step = perform-file hash c m path spares.0 made in
    run-file hash cs (perform hash c m).1 path spares.1 step.0 ∙ step.1

-- In a database with a table of files, a record that SetFileRecord stored is what GetFileRecord answers
-- for its path, after any calls that neither set nor remove a file at that path.
pub get_file_record-set :
    (hash : String → String) (cs : List Call) (m : MemoryDb) (r : FileRecord)
    → IsMade m.file_records
    → All (SparesFile r.path) cs
    → (get_file_record r.path (run hash cs (set_file_record r m).1)).0 ≡ ok r
unfolding get_file_record
get_file_record-set hash cs m r made spares = ground (
  arith,
  run-file hash cs (set_file_record r m).1 r.path spares (set_file_record-IsMade m r made),
  lookup-set_file_record m r r.path made,
  ==-self r.path,
)

-- After RemoveFileRecord of a path, GetFileRecord answers ErrNotFound for it and what it answered
-- before for every other path.
pub get_file_record-remove :
    (m : MemoryDb) (p path : String)
    → (get_file_record path (remove_file_record p m).1).0
      ≡ (if p == path then err err_not_found else (get_file_record path m).0)
unfolding get_file_record remove_file_record
get_file_record-remove m p path =
    ground (arith, lookup-delete m.file_records p path, string_eq.agrees p path)
