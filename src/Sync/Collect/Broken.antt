-- ===== src/Sync/Collect/Broken.antt =====
-- The storages that the messages of a sync name as failed.
use go_openbmclapi.Prelude.{
  ℕ, ◌≤◌, ◌<◌, ◌≡◌, Bool, false, ◌||◌, List, [], ◌∷◌, arith, leb, if◌then◌else◌, length, none, some,
}
use go_openbmclapi.Sync.Collect.{is_broken, note_failures, all_collected, all_broken, collect}

-- No storage stands twice in the list.
unfoldable pub Once : List ℕ → Type 0
Once [] = Unit
Once (s ∷ rest) = (is_broken rest s ≡ false) × Once rest

-- Some message names the storage.
unfoldable pub is_named : List (List ℕ) → ℕ → Bool
is_named [] s = false
is_named (failures ∷ msgs) s = is_broken failures s || is_named msgs s

add_failures : List ℕ → List ℕ → List ℕ
add_failures broken [] = broken
add_failures broken (s ∷ failures) =
    let old = add_failures broken failures in
    let new = add_failures (s ∷ broken) failures in if is_broken broken s then old else new

add_messages : List ℕ → List (List ℕ) → List ℕ
add_messages broken [] = broken
add_messages broken (failures ∷ msgs) = add_messages (add_failures broken failures) msgs

add_failures-length :
    (broken failures : List ℕ) → length broken ≤ length (add_failures broken failures)
unfolding add_failures
add_failures-length broken [] = omega arith
add_failures-length broken (s ∷ failures) =
    ground (arith, add_failures-length broken failures, add_failures-length (s ∷ broken) failures)

add_messages-length :
    (broken : List ℕ) (msgs : List (List ℕ)) → length broken ≤ length (add_messages broken msgs)
unfolding add_messages
add_messages-length broken [] = omega arith
add_messages-length broken (failures ∷ msgs) = omega (
  arith,
  add_failures-length broken failures,
  add_messages-length (add_failures broken failures) msgs,
)

add_failures-Once : (broken failures : List ℕ) → Once broken → Once (add_failures broken failures)
unfolding add_failures Once
add_failures-Once broken [] once = once
add_failures-Once broken (s ∷ failures) once =
    ground
      (arith, once, add_failures-Once broken failures once, add_failures-Once (s ∷ broken) failures)

add_messages-Once :
    (broken : List ℕ) (msgs : List (List ℕ)) → Once broken → Once (add_messages broken msgs)
unfolding add_messages
add_messages-Once broken [] once = once
add_messages-Once broken (failures ∷ msgs) once =
    add_messages-Once (add_failures broken failures) msgs (add_failures-Once broken failures once)

add_failures-names :
    (broken failures : List ℕ) (s : ℕ)
    → is_broken (add_failures broken failures) s ≡ (is_broken broken s || is_broken failures s)
unfolding add_failures is_broken
add_failures-names broken [] s = ground arith
add_failures-names broken (t ∷ failures) s =
    ground (arith, add_failures-names broken failures s, add_failures-names (t ∷ broken) failures s)

add_messages-names :
    (broken : List ℕ) (msgs : List (List ℕ)) (s : ℕ)
    → is_broken (add_messages broken msgs) s ≡ (is_broken broken s || is_named msgs s)
unfolding add_messages is_named
add_messages-names broken [] s = ground arith
add_messages-names broken (failures ∷ msgs) s = ground (
  arith,
  add_failures-names broken failures s,
  add_messages-names (add_failures broken failures) msgs s,
)

module _ (st_len : ℕ) where
  note_failures-add :
      (broken failures : List ℕ)
      → length broken < st_len
      → note_failures st_len broken failures ≡ (
          if leb st_len (length (add_failures broken failures))
          then none
          else some (add_failures broken failures))
  unfolding note_failures add_failures
  note_failures-add broken [] lt = ground arith
  note_failures-add broken (s ∷ failures) lt = ground (
    arith,
    note_failures-add broken failures lt,
    note_failures-add (s ∷ broken) failures,
    add_failures-length (s ∷ broken) failures,
  )

  collect-add :
      (broken : List ℕ) (msgs : List (List ℕ))
      → length broken < st_len
      → collect st_len broken (length msgs) msgs
        ≡ (if leb st_len (length (add_messages broken msgs)) then all_broken else all_collected)
  unfolding collect add_messages
  collect-add broken [] lt = ground arith
  collect-add broken (failures ∷ msgs) lt = ground (
    arith,
    note_failures-add broken failures lt,
    collect-add (add_failures broken failures) msgs,
    add_messages-length (add_failures broken failures) msgs,
  )

named_once : (msgs : List (List ℕ)) (s : ℕ) → is_broken (add_messages [] msgs) s ≡ is_named msgs s
unfolding is_broken
named_once msgs s = ground (arith, add_messages-names [] msgs s)

-- The loop that collects a message for every missing file ends with "All storages are broken" if the
-- messages name as many different storages as there are, and otherwise after the last message: `bs` are
-- the named storages, each once.
pub collect-broken :
    (st_len : ℕ) (msgs : List (List ℕ))
    → 0 < st_len
    → (bs : List ℕ) × Once bs
      × ((s : ℕ) → is_broken bs s ≡ is_named msgs s)
      × (collect st_len [] (length msgs) msgs
          ≡ (if leb st_len (length bs) then all_broken else all_collected))
collect-broken st_len msgs pos = (
  add_messages [] msgs,
  add_messages-Once [] msgs (unfold Once in tt),
  named_once msgs,
  collect-add st_len [] msgs pos,
)
