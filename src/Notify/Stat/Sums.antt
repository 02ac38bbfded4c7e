-- ===== src/Notify/Stat/Sums.antt =====
-- Sums of the statistics, modulo the word sizes.
use native.Mathlib.Nat.{add-zero}
use go_openbmclapi.Prelude.{ℕ, zero, suc, sym, ◌∙◌, ◌+◌, ◌≤◌, ◌<◌, ◌≡◌, refl, arith}
use go_openbmclapi.Notify.Stat.{StatInstData, no_data, add, Slots, no_slots, add_up}

-- Both counts are within their words.
pub record IsWord (d : StatInstData) : Type 0 where
  pub hits : d.hits < 0x100000000
  pub bytes : d.bytes < 0x10000000000000000

pub add_assoc : (a b c : StatInstData) → add (add a b) c ≡ add a (add b c)
unfolding add
add_assoc a b c = ground arith

pub add-no_data : (a : StatInstData) → IsWord a → add a no_data ≡ a
unfolding add
add-no_data a h = ground arith

pub no_data-add : (a : StatInstData) → IsWord a → add no_data a ≡ a
unfolding add
no_data-add a h = ground arith

pub add-IsWord : (a b : StatInstData) → IsWord (add a b)
unfolding add
add-IsWord a b = record { hits = omega arith; bytes = omega arith }

pub no_data-IsWord : IsWord no_data
no_data-IsWord = record { hits = omega arith; bytes = omega arith }

pub add_up-IsWord :
    (inst : StatInstData) (n : ℕ) (s : Slots) → IsWord inst → IsWord (add_up inst n s)
unfolding add_up
add_up-IsWord inst zero s h = h
add_up-IsWord inst (suc n) s h = add-IsWord (add_up inst n s) (s n)

pub add_up-add :
    (inst : StatInstData) (n : ℕ) (s : Slots)
    → IsWord inst
    → add_up inst n s ≡ add inst (add_up no_data n s)
unfolding add_up
add_up-add inst zero s h = sym (add-no_data inst h)
add_up-add inst (suc n) s h = rw (add_up-add inst n s h) (add_assoc inst (add_up no_data n s) (s n))

-- Sums see only the slots below.
pub add_up-congr :
    (inst : StatInstData) (n : ℕ) (s t : Slots)
    → ((i : ℕ) → i < n → s i ≡ t i)
    → add_up inst n s ≡ add_up inst n t
unfolding add_up
add_up-congr inst zero s t h = refl
add_up-congr inst (suc n) s t h =
    cc (add_up-congr inst n s t (λ i lt. h i (omega arith)), h n (omega arith))

-- Empty slots at the end add nothing.
pub add_up_empty :
    (inst : StatInstData) (k n : ℕ) (s : Slots)
    → IsWord inst
    → ((i : ℕ) → k ≤ i → i < k + n → s i ≡ no_data)
    → add_up inst (k + n) s ≡ add_up inst k s
unfolding add_up
add_up_empty inst k zero s h e = rw add-zero
add_up_empty inst k (suc n) s h e =
    let step : k + suc n ≡ suc (k + n) = omega arith in
    rw (step, e (k + n) (omega arith) (omega arith))
      (add-no_data _ (add_up-IsWord inst (k + n) s h)
        ∙ add_up_empty inst k n s h (λ i a b. e i a (omega arith)))

pub add_up_none : (inst : StatInstData) (n : ℕ) → IsWord inst → add_up inst n no_slots ≡ inst
unfolding add_up
add_up_none inst zero h = refl
add_up_none inst (suc n) h = rw (add_up_none inst n h) (add-no_data inst h)
