-- ===== src/Limited/Listener.antt =====
-- limited/limited_conn.go: the listener and the dialer, which open their connections through a
-- RateController.
pub mod Places
pub mod Tests
use go_openbmclapi.Prelude.{ℕ, Bool, true, false, Option, none, some, ◌≡◌}
use go_openbmclapi.Prelude.Int.{ℤ}
use go_openbmclapi.Limited.Semaphore.{Wait}
use go_openbmclapi.Limited.Conn.{Error}
use go_openbmclapi.Limited.Rate.{
  RateController, Opened, new_rate_controller, close, do_operator, do_with_context,
}

pub record LimitedListener : Type 0 where
  pub controller : RateController

unfoldable pub new_limited_listener : ℤ → ℤ → ℤ → LimitedListener
new_limited_listener max_conn read_rate write_rate = record {
  controller = new_rate_controller max_conn read_rate write_rate;
}

-- `inner` is what the listener behind answers to its Close.
unfoldable pub listener_close : Option Error → LimitedListener → Option Error × LimitedListener
listener_close inner l = (inner, record { controller = close l.controller })

-- `accepted` says whether the listener behind has a connection, or an error.
unfoldable pub accept : Bool → Bool → LimitedListener → Wait (Opened × RateController)
unfolding do_operator
accept first accepted l = do_operator first accepted l.controller

-- A dialer without one behind it uses net.Dialer.
pub record LimitedDialer : Type 0 where
  pub default_dialer : Bool
  pub controller : RateController

unfoldable pub new_limited_dialer : Bool → ℤ → ℤ → ℤ → LimitedDialer
new_limited_dialer is_nil max_conn read_rate write_rate = record {
  default_dialer = is_nil;
  controller = new_rate_controller max_conn read_rate write_rate;
}

unfoldable pub dial_context : Bool → Bool → Bool → LimitedDialer → Wait (Opened × RateController)
unfolding do_with_context
dial_context cancelled first dialed d = do_with_context cancelled first dialed d.controller
