-- ===== src/Sync/Gc/Sweep.antt =====
-- What the garbage collection leaves in a storage.
use go_openbmclapi.Prelude.{
  ◌≡◌, ◌∙◌, sym, refl, String, Bool, true, false, ◌||◌, not, [], ◌∷◌, arith, if◌then◌else◌, All,
}
use go_openbmclapi.Prelude.Int.{ℤ}
use go_openbmclapi.Prelude.Eq.{string_eq}
use go_openbmclapi.Sync.{Fileset}
use go_openbmclapi.Sync.Gc.{Contents, remove, is_listed, gc_for}

-- The files that the file set lists.
unfoldable pub listed : Fileset → Contents → Contents
listed fileset [] = []
listed fileset ((h, size) ∷ rest) =
    let left = listed fileset rest in if is_listed fileset h then (h, size) ∷ left else left

-- The files that the file set lists, and those that the storage cannot remove.
unfoldable pub left_over : Fileset → (String → Bool) → Contents → Contents
left_over fileset removes [] = []
left_over fileset removes ((h, size) ∷ rest) =
    let left = left_over fileset removes rest in
    if is_listed fileset h || not (removes h) then (h, size) ∷ left else left

module _ (fileset : Fileset) where
  listed-remove :
      (hash : String) (contents : Contents)
      → is_listed fileset hash ≡ false
      → listed fileset (remove hash contents) ≡ listed fileset contents
  unfolding listed remove
  listed-remove hash [] out = refl
  listed-remove hash ((h, size) ∷ rest) out =
      ground (arith, out, string_eq.agrees h hash, listed-remove hash rest out)

  gc_for-listed :
      (syncing removes : String → Bool) (walk contents : Contents)
      → listed fileset (gc_for fileset syncing removes walk contents) ≡ listed fileset contents
  unfolding gc_for
  gc_for-listed syncing removes [] contents = refl
  gc_for-listed syncing removes ((hash, size) ∷ walk) contents = ground (
    arith,
    listed-remove hash contents,
    gc_for-listed syncing removes walk contents,
    gc_for-listed syncing removes walk (remove hash contents),
  )

  visited : Contents → String → Bool
  visited [] hash = false
  visited ((h, size) ∷ walk) hash = string_eq.test h hash || visited walk hash

  -- What is left after the files of the walk.
  remaining : (String → Bool) → Contents → Contents → Contents
  remaining removes walk [] = []
  remaining removes walk ((h, size) ∷ rest) =
      let left = remaining removes walk rest in
      if is_listed fileset h || not (removes h) || not (visited walk h)
      then (h, size) ∷ left
      else left

  remaining-removed :
      (removes : String → Bool) (hash : String) (size : ℤ) (walk contents : Contents)
      → is_listed fileset hash ≡ false
      → removes hash ≡ true
      → remaining removes walk (remove hash contents)
        ≡ remaining removes ((hash, size) ∷ walk) contents
  unfolding remaining remove visited
  remaining-removed removes hash size walk [] out can = refl
  remaining-removed removes hash size walk ((h, n) ∷ rest) out can = ground (
    arith,
    out,
    string_eq.agrees h hash,
    string_eq.agrees hash h,
    can,
    remaining-removed removes hash size walk rest out can,
  )

  remaining-kept :
      (removes : String → Bool) (hash : String) (size : ℤ) (walk contents : Contents)
      → is_listed fileset hash || not (removes hash) ≡ true
      → remaining removes walk contents ≡ remaining removes ((hash, size) ∷ walk) contents
  unfolding remaining visited
  remaining-kept removes hash size walk [] known = refl
  remaining-kept removes hash size walk ((h, n) ∷ rest) known =
      ground
        (arith, known, string_eq.agrees hash h, remaining-kept removes hash size walk rest known)

  remaining-none :
      (removes : String → Bool) (contents : Contents) → remaining removes [] contents ≡ contents
  unfolding remaining visited
  remaining-none removes [] = refl
  remaining-none removes ((h, n) ∷ rest) = ground (arith, remaining-none removes rest)

  remaining-all :
      (removes : String → Bool) (walk contents : Contents)
      → All (λ (p : String × ℤ). visited walk p.0 ≡ true) contents
      → remaining removes walk contents ≡ left_over fileset removes contents
  unfolding remaining left_over
  remaining-all removes walk [] a = refl
  remaining-all removes walk ((h, n) ∷ rest) a =
      ground (arith, a.0, remaining-all removes walk rest a.1)

  visited-later :
      (h : String) (n : ℤ) (walk contents : Contents)
      → All (λ (p : String × ℤ). visited walk p.0 ≡ true) contents
      → All (λ (p : String × ℤ). visited ((h, n) ∷ walk) p.0 ≡ true) contents
  unfolding visited
  visited-later h n walk [] a = tt
  visited-later h n walk ((g, m) ∷ rest) a = (ground (arith, a.0), visited-later h n walk rest a.1)

  visited_self : (walk : Contents) → All (λ (p : String × ℤ). visited walk p.0 ≡ true) walk
  unfolding visited
  visited_self [] = tt
  visited_self ((h, n) ∷ walk) =
      (ground (arith, string_eq.agrees h h), visited-later h n walk walk (visited_self walk))

  gc_for-remaining :
      (syncing removes : String → Bool) (walk contents : Contents)
      → ((hash : String) → syncing hash ≡ false)
      → gc_for fileset syncing removes walk contents ≡ remaining removes walk contents
  unfolding gc_for
  gc_for-remaining syncing removes [] contents never = sym (remaining-none removes contents)
  gc_for-remaining syncing removes ((hash, size) ∷ walk) contents never = ground (
    arith,
    never hash,
    remaining-removed removes hash size walk contents,
    remaining-kept removes hash size walk contents,
    gc_for-remaining syncing removes walk contents never,
    gc_for-remaining syncing removes walk (remove hash contents) never,
  )

-- A garbage collection never removes a file that the file set lists, at whatever point a sync
-- interrupts it.
pub gc_for-keeps :
    (fileset : Fileset) (syncing removes : String → Bool) (walk contents : Contents)
    → listed fileset (gc_for fileset syncing removes walk contents) ≡ listed fileset contents
gc_for-keeps fileset syncing removes walk contents =
    gc_for-listed fileset syncing removes walk contents

-- A garbage collection that no sync interrupts, and whose walk visits every file of the storage, leaves
-- exactly the files that the file set lists and those for which the storage's Remove fails.
pub gc_for-sweeps :
    (fileset : Fileset) (syncing removes : String → Bool) (contents : Contents)
    → ((hash : String) → syncing hash ≡ false)
    → gc_for fileset syncing removes contents contents ≡ left_over fileset removes contents
gc_for-sweeps fileset syncing removes contents never =
    gc_for-remaining fileset syncing removes contents contents never
    ∙ remaining-all fileset removes contents contents (visited_self fileset contents)
