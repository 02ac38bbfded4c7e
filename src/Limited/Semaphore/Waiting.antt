-- ===== src/Limited/Semaphore/Waiting.antt =====
-- WaitWithContext keeps what it has taken when its context ends.
use go_openbmclapi.Prelude.{
  ℕ, zero, suc, ◌+◌, ◌≤◌, ◌<◌, ◌≡◌, Bool, true, false, some, arith, ap, sym, ◌∙◌,
}
use go_openbmclapi.Limited.Semaphore.{
  done, Chan, acquire_with_context, acquire_with_notify, wait_times, wait_with_context,
}

wait_times_keeps :
    (k n i : ℕ) (cancelled first : ℕ → Bool) (c : Chan)
    → k < n
    → c.used + k ≤ c.room
    → ((j : ℕ) → j < i + k → cancelled j ≡ false)
    → cancelled (i + k) ≡ true
    → first (i + k) ≡ false
    → wait_times n i cancelled first (some c) ≡ done (false, some (record c { used = c.used + k }))
unfolding wait_times acquire_with_context acquire_with_notify
wait_times_keeps zero zero i cancelled first c lt room before at loses = ground arith
wait_times_keeps (suc k) zero i cancelled first c lt room before at loses = ground arith
wait_times_keeps zero (suc n) i cancelled first c lt room before at loses =
    let here : i + 0 ≡ i = omega arith in
    let at' : cancelled i ≡ true = ap cancelled (sym here) ∙ at in
    let no' : first i ≡ false = ap first (sym here) ∙ loses in ground (arith, at', no')
wait_times_keeps (suc k) (suc n) i cancelled first c lt room before at loses =
    let next : i + suc k ≡ i + 1 + k = omega arith in
    let now : cancelled i ≡ false = before i (omega arith) in
    let rest =
      wait_times_keeps k n (i + 1) cancelled first (record c { used = c.used + 1 }) (omega arith)
        (omega arith) (λ j lt'. before j (omega arith)) (ap cancelled (sym next) ∙ at)
        (ap first (sym next) ∙ loses) in
    ground (arith, now, rest)

-- If the context of WaitWithContext is done at the k-th select, and not before, while there is room for the k
-- places before it, the call returns false and keeps all k places: they are not released.
pub cancelled_wait_keeps :
    (k : ℕ) (cancelled first : ℕ → Bool) (c : Chan)
    → k < c.room
    → c.used + k ≤ c.room
    → ((j : ℕ) → j < k → cancelled j ≡ false)
    → cancelled k ≡ true
    → first k ≡ false
    → wait_with_context cancelled first (some c)
      ≡ done (false, some (record c { used = c.used + k }))
unfolding wait_with_context
cancelled_wait_keeps k cancelled first c lt room before at loses =
    let here : 0 + k ≡ k = omega arith in
    wait_times_keeps k c.room 0 cancelled first c lt room (λ j lt'. before j (omega arith))
      (ap cancelled here ∙ at) (ap first here ∙ loses)
