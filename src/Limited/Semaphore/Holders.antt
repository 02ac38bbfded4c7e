-- ===== src/Limited/Semaphore/Holders.antt =====
-- The semaphore as its users see it: places taken by connections that are open.
use go_openbmclapi.Prelude.{
  ℕ, zero, suc, ◌+◌, ◌-◌, ◌≡◌, ◌≤◌, ◌<◌, refl, Bool, true, false, Option, none, some, List, [], ◌∷◌,
  arith, ◌==◌, if◌then◌else◌, Bool-cases, Option-cases, ◌∙◌, inl, inr,
}
use go_openbmclapi.Prelude.Int.{ℤ, pos, pos_part, ◌<ℤ◌}
use go_openbmclapi.Limited.Semaphore.{
  new_semaphore, done, blocks, Chan, Semaphore, len, acquire, release, acquire_times, wait,
  close_once,
}

-- Wait succeeds exactly on a semaphore that nobody holds, and leaves it full.
acquire_times-done :
    (n : ℕ) (c : Chan)
    → c.used + n ≤ c.room
    → acquire_times n (some c) ≡ done (some (record c { used = c.used + n }))
unfolding acquire_times acquire
acquire_times-done zero c h = ground arith
acquire_times-done (suc n) c h =
    ground (arith, acquire_times-done n (record c { used = c.used + 1 }))

acquire_times-blocks :
    (n : ℕ) (c : Chan) → c.used ≤ c.room → c.room < c.used + n → acquire_times n (some c) ≡ blocks
unfolding acquire_times acquire
acquire_times-blocks zero c h k = absurd (omega arith)
acquire_times-blocks (suc n) c h k =
    ground (arith, acquire_times-blocks n (record c { used = c.used + 1 }))

-- On a semaphore that holds no more than its capacity, Wait takes every place if none is taken, and
-- otherwise blocks.
pub wait_lem :
    (c : Chan)
    → c.used ≤ c.room
    → wait (some c) ≡ (if c.used == 0 then done (some (record c { used = c.room })) else blocks)
unfolding wait
wait_lem c h = ground (arith, acquire_times-done c.room c, acquire_times-blocks c.room c)

-- The users of a semaphore: for each reader or connection made so far, whether it is closed.
pub record System : Type 0 where
  pub sem : Semaphore
  pub closed : List Bool

unfoldable pub count_open : List Bool → ℕ
count_open [] = 0
count_open (true ∷ xs) = count_open xs
count_open (false ∷ xs) = count_open xs + 1

-- What goes on: a new user is let in or refused a place by its operator's error, and a user closes.
pub data Event : Type 0 where
  opens fails : Event
  closes : ℕ → Event

unfoldable pub get_closed : List Bool → ℕ → Bool
get_closed [] i = true
get_closed (b ∷ xs) zero = b
get_closed (b ∷ xs) (suc i) = get_closed xs i

unfoldable pub set_closed : List Bool → ℕ → List Bool
set_closed [] i = []
set_closed (b ∷ xs) zero = true ∷ xs
set_closed (b ∷ xs) (suc i) = b ∷ set_closed xs i

-- One event; `none` where it would have to wait.
unfoldable pub happen : Event → System → Option System
unfolding set_closed get_closed
happen opens s = elim (acquire s.sem) [
  | done sem' ↦ some (record { sem = sem'; closed = false ∷ s.closed })
  | _ ↦ none
]
happen fails s = elim (acquire s.sem) [
  | done sem' ↦ elim (release sem') [ done sem'' ↦ some (record s { sem = sem'' }) | _ ↦ none ]
  | _ ↦ none
]
happen (closes i) s = elim (close_once (get_closed s.closed i) s.sem) [
  | done (_, sem') ↦ some (record { sem = sem'; closed = set_closed s.closed i })
  | _ ↦ none
]

count_open-set_closed :
    (xs : List Bool) (i : ℕ)
    → count_open xs
      ≡ (if get_closed xs i then count_open (set_closed xs i) else count_open (set_closed xs i) + 1)
unfolding count_open get_closed set_closed
count_open-set_closed [] i = refl
count_open-set_closed (true ∷ xs) zero = refl
count_open-set_closed (false ∷ xs) zero = refl
count_open-set_closed (true ∷ xs) (suc i) = ground (arith, count_open-set_closed xs i)
count_open-set_closed (false ∷ xs) (suc i) = ground (arith, count_open-set_closed xs i)

-- A semaphore of a positive size counts the users that are open, and they are never too many.
abbrev pub IsCounted : System → Chan → Type 0
IsCounted s c = (s.sem ≡ some c) × (c.used ≡ count_open s.closed) × (c.used ≤ c.room)

pub happen-IsCounted :
    (e : Event) (s t : System) (c : Chan)
    → IsCounted s c
    → happen e s ≡ some t
    → (d : Chan) × IsCounted t d × (d.room ≡ c.room)
unfolding happen acquire release close_once count_open
happen-IsCounted opens s t c h e = (record c { used = c.used + 1 }, ground arith, refl)
happen-IsCounted fails s t c h e = (c, ground arith, refl)
happen-IsCounted (closes i) s t c h e = elim (Bool-cases (get_closed s.closed i)) [
  | inl shut ↦ (c, ground (arith, count_open-set_closed s.closed i), refl)
  | inr open' ↦
      (record c { used = c.used - 1 }, ground (arith, count_open-set_closed s.closed i), refl)
]

-- Every event in turn; `none` if one of them would have to wait.
unfoldable pub history : List Event → System → Option System
history [] s = some s
history (e ∷ es) s = elim (happen e s) [ none ↦ none | some t ↦ history es t ]

history-IsCounted :
    (es : List Event) (s t : System) (c : Chan)
    → IsCounted s c
    → history es s ≡ some t
    → (d : Chan) × IsCounted t d × (d.room ≡ c.room)
unfolding history
history-IsCounted [] s t c h e = (c, ground arith, refl)
history-IsCounted (ev ∷ es) s t c h e = elim (Option-cases (happen ev s)) [
  | inl q ↦ absurd (ground (arith, q))
  | inr (u, q) ↦
      let (d, counted, same) = happen-IsCounted ev s u c h q in
      let (f, counted', same') = history-IsCounted es u t d counted (ground (arith, q)) in
      (f, counted', same' ∙ same)
]

abbrev pub start : ℤ → System
start size = record { sem = new_semaphore size; closed = [] }

-- Let a semaphore of a positive size serve any sequence of users that open, fail to open, or close
-- (once or many times), none of which has to wait. Then the users that are open are at most the
-- size, and the semaphore's length is their number.
pub open_bounded :
    (size : ℤ) (es : List Event) (t : System)
    → pos 0 <ℤ size
    → history es (start size) ≡ some t
    → (count_open t.closed ≤ pos_part size) × (len t.sem ≡ count_open t.closed)
unfolding new_semaphore len count_open
open_bounded size es t p e =
    let first : Chan = record { used = 0; room = pos_part size } in
    let (d, counted, same) = history-IsCounted es (start size) t first (ground arith) e in
    ground (arith, counted, same)

get_closed-set_closed : (xs : List Bool) (i : ℕ) → get_closed (set_closed xs i) i ≡ true
unfolding get_closed set_closed
get_closed-set_closed [] i = refl
get_closed-set_closed (b ∷ xs) zero = refl
get_closed-set_closed (b ∷ xs) (suc i) = get_closed-set_closed xs i

set_closed_id : (xs : List Bool) (i : ℕ) → get_closed xs i ≡ true → set_closed xs i ≡ xs
unfolding get_closed set_closed
set_closed_id [] i h = refl
set_closed_id (b ∷ xs) zero h = cc
set_closed_id (b ∷ xs) (suc i) h = cc (set_closed_id xs i h)

-- If a semaphore counts exactly its open users, a close of any user succeeds without a wait, and a
-- second close of the same user changes nothing.
pub close_never_waits :
    (i : ℕ) (s : System) (c : Chan)
    → IsCounted s c
    → (t : System) × (happen (closes i) s ≡ some t) × (happen (closes i) t ≡ some t)
unfolding happen close_once release
close_never_waits i s c h = elim (Bool-cases (get_closed s.closed i)) [
  | inl shut ↦ (
    s,
    ground (arith, set_closed_id s.closed i shut),
    ground (arith, set_closed_id s.closed i shut),
  )
  | inr open' ↦
      let again = get_closed-set_closed s.closed i in
      let t : System = record {
        sem = some (record c { used = c.used - 1 });
        closed = set_closed s.closed i;
      } in
      (
        t,
        ground (arith, count_open-set_closed s.closed i),
        ground (arith, again, set_closed_id t.closed i again),
      )
]
