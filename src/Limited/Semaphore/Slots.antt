-- ===== src/Limited/Semaphore/Slots.antt =====
-- limited/util.go: BufSlots, a fixed set of numbered buffers. A slot is its number; the buffer of
-- 512 KiB behind it is not modelled. `free` is the closure that Alloc returns: once-only.
use mathlib.Core.List.{Perm, perm_middle, append_assoc, append-nil}
use mathlib.Core.List.Perm
use go_openbmclapi.Prelude.{
  ℕ, zero, suc, ◌+◌, ◌≡◌, refl, ap, ◌∙◌, Bool, true, false, Option, none, some, List, [], ◌∷◌, ◌++◌,
  arith, ltb, if◌then◌else◌, length, length-append, Perm-length,
}

-- The channel holds the slots that are free, the oldest first; its capacity is `size`.
pub record BufSlots : Type 0 where
  pub size : ℕ
  pub ready : List ℕ

-- The slots 0 to n - 1 in this order.
unfoldable pub slots_from : ℕ → ℕ → List ℕ
slots_from i zero = []
slots_from i (suc n) = i ∷ slots_from (i + 1) n

unfoldable pub new_buf_slots : ℕ → BufSlots
unfolding slots_from
new_buf_slots size = record { size = size; ready = slots_from 0 size }

unfoldable pub len : BufSlots → ℕ
len s = length s.ready

unfoldable pub cap : BufSlots → ℕ
cap s = s.size

-- Alloc: a slot; no slot where the context is done (and wins the select); or a wait.
pub data Alloc : Type 0 where
  slot : ℕ → BufSlots → Alloc
  cancelled : Alloc
  waits : Alloc

unfoldable pub alloc_ready : Bool → Bool → List ℕ → ℕ → Alloc
alloc_ready false first [] size = waits
alloc_ready true first [] size = cancelled
alloc_ready false first (i ∷ rest) size = slot i (record { size = size; ready = rest })
alloc_ready true first (i ∷ rest) size =
    if first then slot i (record { size = size; ready = rest }) else cancelled

unfoldable pub alloc : Bool → Bool → BufSlots → Alloc
unfolding alloc_ready
alloc is_done first s = alloc_ready is_done first s.ready s.size

-- The closure of a slot that has not run yet: s.c <- slot; none where the channel is full.
unfoldable pub free : ℕ → BufSlots → Option BufSlots
free i s =
    if ltb (length s.ready) s.size then some (record s { ready = s.ready ++ i ∷ [] }) else none

-- The slots, and those that are lent out: each was allocated and its closure has not run.
pub record Lending : Type 0 where
  pub slots : BufSlots
  pub lent : List ℕ

pub data Use : Lending → Lending → Type 0 where
  allocates :
      (l : Lending) (is_done first : Bool) (i : ℕ) (s : BufSlots)
      → alloc is_done first l.slots ≡ slot i s
      → Use l (record { slots = s; lent = i ∷ l.lent })
  frees :
      (l : Lending) (before after : List ℕ) (i : ℕ) (s : BufSlots)
      → l.lent ≡ before ++ i ∷ after
      → free i l.slots ≡ some s
      → Use l (record { slots = s; lent = before ++ after })

-- No slot is lost or lent twice: free and lent slots together are always the same.
pub all_slots : Lending → List ℕ
all_slots l = l.slots.ready ++ l.lent

alloc_cases :
    (is_done first : Bool) (ready : List ℕ) (size i : ℕ) (s : BufSlots)
    → alloc_ready is_done first ready size ≡ slot i s
    → (ready ≡ i ∷ s.ready) × (s.size ≡ size)
unfolding alloc_ready
alloc_cases false first [] size i s h = cc
alloc_cases true first [] size i s h = cc
alloc_cases false first (j ∷ rest) size i s h = ground arith
alloc_cases true first (j ∷ rest) size i s h = ground arith

freed :
    (i : ℕ) (b s : BufSlots) → free i b ≡ some s → (s.ready ≡ b.ready ++ i ∷ []) × (s.size ≡ b.size)
unfolding free
freed i b s h = ground arith

pub Use-perm :
    {l m : Lending} → Use l m → Perm (all_slots m) (all_slots l) × (m.slots.size ≡ l.slots.size)
unfolding all_slots alloc
Use-perm (allocates l is_done first i s e) =
    let (taken, same) = alloc_cases is_done first l.slots.ready l.slots.size i s e in
    (rw taken (perm_middle s.ready l.lent), same)
Use-perm (frees l before after i s lent e) =
    let (given, same) = freed i l.slots s e in
    (
      rw (given, lent, append_assoc l.slots.ready (i ∷ []) (before ++ after))
          (Perm.append_left l.slots.ready (Perm.symm (perm_middle before after))),
      same,
    )

pub data Uses (l : Lending) : Lending → Type 0 where
  unused : Uses l l
  then_use : {m n : Lending} → Uses l m → Use m n → Uses l n

abbrev pub fresh_slots : ℕ → Lending
fresh_slots n = record { slots = new_buf_slots n; lent = [] }

Uses-perm :
    {l m : Lending} → Uses l m → Perm (all_slots m) (all_slots l) × (m.slots.size ≡ l.slots.size)
Uses-perm unused = (Perm.rfl, refl)
Uses-perm (then_use us u) =
    let (p, e) = Use-perm u in let (q, f) = Uses-perm us in (Perm.trans p q, e ∙ f)

fresh_all : (n : ℕ) → all_slots (fresh_slots n) ≡ slots_from 0 n
unfolding all_slots new_buf_slots
fresh_all n = append-nil (slots_from 0 n)

-- After any sequence of Alloc calls and of frees of lent slots on n new slots, the free and the
-- lent slots together are the slots 0 to n - 1, each exactly once: none is lost or lent twice.
pub slots_conserved :
    (n : ℕ) (l : Lending) → Uses (fresh_slots n) l → Perm (l.slots.ready ++ l.lent) (slots_from 0 n)
unfolding all_slots
slots_conserved n l us = Perm.trans (Uses-perm us).0 (rw (fresh_all n) Perm.rfl)

length-slots_from : (i n : ℕ) → length (slots_from i n) ≡ n
unfolding slots_from
length-slots_from i zero = refl
length-slots_from i (suc n) = ap suc (length-slots_from (i + 1) n)

slots_size : (n : ℕ) → (fresh_slots n).slots.size ≡ n
unfolding new_buf_slots
slots_size n = refl

-- After any sequence of Alloc calls and of frees on n new slots, the free of a lent slot finds room
-- in the channel.
pub free_never_waits :
    (n : ℕ) (l : Lending) (i : ℕ) (before after : List ℕ)
    → Uses (fresh_slots n) l
    → l.lent ≡ before ++ i ∷ after
    → (s : BufSlots) × (free i l.slots ≡ some s)
unfolding free
free_never_waits n l i before after us lent =
    let total = Perm-length (slots_conserved n l us) in
    let own = (Uses-perm us).1 in
    (
      record l.slots { ready = l.slots.ready ++ i ∷ [] },
      ground (
        arith,
        total,
        own,
        slots_size n,
        length-slots_from 0 n,
        length-append l.slots.ready l.lent,
        lent,
        length-append before (i ∷ after),
      ),
    )
