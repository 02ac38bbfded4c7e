-- ===== src/Limited/Listener/Places.antt =====
-- The places that Accept and DialContext take of their controller.
use go_openbmclapi.Prelude.{
  ◌+◌, ◌≡◌, Bool, true, false, ◌&&◌, ◌||◌, not, some, arith, ltb, inl, inr, Bool-cases,
}
use go_openbmclapi.Limited.Semaphore.{Wait, done, blocks, Chan, acquire_with_notify, release}
use go_openbmclapi.Limited.Rate.{
  RateController, Opened, opened, err_closed, err_operator, do_operator,
}
use go_openbmclapi.Limited.Listener.{LimitedListener, accept}

-- A connection takes one place; an error of the listener or the dialer behind, and a controller that
-- gives up (with the outcome `given_up`), take none.
abbrev pub outcome :
    Bool → Bool → Bool → Opened → RateController → Chan → Wait (Opened × RateController)
outcome true true gives_up given_up l c =
    done (opened, record l { sem = some (record c { used = c.used + 1 }) })
outcome true false gives_up given_up l c = done (err_operator, l)
outcome false works true given_up l c = done (given_up, l)
outcome false works false given_up l c = blocks

given_back : (l : RateController) (c : Chan) → l.sem ≡ some c → record l { sem = some c } ≡ l
given_back l c e = rw (← e)

-- The select takes a place if there is one and the notifier is not ready or loses.
abbrev pub takes : Chan → Bool → Bool → Bool
takes c notified first = ltb c.used c.room && (not notified || first)

one_back : (c : Chan) → release (some (record c { used = c.used + 1 })) ≡ done (some c)
unfolding release
one_back c = ground arith

-- Accept on a controller with a semaphore opens one connection, which takes one place, if a place is free and the listener
-- behind has a connection; its error leaves the controller as it was; a closed controller may give up instead, and
-- does if no place is free; otherwise Accept waits for a place.
pub accept-outcome :
    (first accepted : Bool) (l : LimitedListener) (c : Chan)
    → l.controller.sem ≡ some c
    → accept first accepted l
      ≡ outcome
          (takes c l.controller.closed first)
          accepted
          l.controller.closed
          err_closed
          l.controller
          c
unfolding accept do_operator acquire_with_notify
accept-outcome first true l c e = elim (Bool-cases l.controller.closed) [
  | inl shut ↦ ground (arith, shut, e)
  | inr open' ↦ ground (arith, open', e)
]
accept-outcome first false l c e = elim (Bool-cases l.controller.closed) [
  | inl shut ↦ ground (arith, shut, e, one_back c, given_back l.controller c e)
  | inr open' ↦ ground (arith, open', e, one_back c, given_back l.controller c e)
]
