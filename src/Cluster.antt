-- ===== src/Cluster.antt =====
-- cluster.go: the life cycle of a cluster, which is enabled and disabled at the centre server.
-- Every function here holds the cluster's lock. The channels that tell of the cluster's disabling are
-- numbered in the order in which they are made, and so are those of WaitForEnable, and the intervals of
-- the keep-alive.
pub mod Channels
pub mod Sound
pub mod Lost
pub mod KeepAlive
pub mod Tests
use go_openbmclapi.Prelude.{
  ℕ, zero, suc, ◌+◌, String, Bool, true, false, ◌&&◌, not, Option, none, some, List, [], ◌∷◌, ◌++◌,
  ltb, leb, ◌==◌, if◌then◌else◌,
}
use go_openbmclapi.Prelude.Int.{ℤ, pos, eqb_ℤ}

pub record Cluster : Type 0 where
  pub enabled : Bool
  pub should_enable : Bool
  -- whether cr.socket is not nil
  pub has_socket : Bool
  pub reconnect_count : ℕ
  -- the channel `disabled`, the number of such channels made, and those that have been closed
  pub disabled : ℕ
  pub disabled_made : ℕ
  pub disabled_closed : List ℕ
  -- the same for the channels of WaitForEnable
  pub wait_enable : List ℕ
  pub waits_made : ℕ
  pub waits_closed : List ℕ
  -- the interval that cancelKeepalive ends, the number of intervals started, and those ended
  pub cancel_keepalive : Option ℕ
  pub intervals_made : ℕ
  pub intervals_ended : List ℕ
  -- the files removed from the storages
  pub removed : List String

-- NewCluster makes a closed `disabled`.
unfoldable pub new_cluster : Cluster
new_cluster = record {
  enabled = false;
  should_enable = false;
  has_socket = false;
  reconnect_count = 0;
  disabled = 0;
  disabled_made = 1;
  disabled_closed = 0 ∷ [];
  wait_enable = [];
  waits_made = 0;
  waits_closed = [];
  cancel_keepalive = none;
  intervals_made = 0;
  intervals_ended = [];
  removed = [];
}

unfoldable pub is_in : ℕ → List ℕ → Bool
is_in c [] = false
is_in c (d ∷ l) = let rest = is_in c l in if d == c then true else rest

-- close(ch); none is the panic of a second close.
unfoldable pub close : ℕ → List ℕ → Option (List ℕ)
unfolding is_in
close c closed = if is_in c closed then none else some (c ∷ closed)

unfoldable pub close_all : List ℕ → List ℕ → Option (List ℕ)
unfolding close
close_all [] closed = some closed
close_all (c ∷ cs) closed = elim (close c closed) [
  | none ↦ none
  | some closed_now ↦ close_all cs closed_now
]

pub data Outcome : Type 0 where
  -- the returned Boolean is true where the call has worked
  returns : Bool → Cluster → Outcome
  exits : Outcome
  -- the panics: a use of the nil socket, and a second close of a channel
  nil_socket : Outcome
  closes_again : Outcome

-- WaitForEnable: none is the channel that is always closed.
unfoldable pub wait_for_enable : Cluster → Option ℕ × Cluster
wait_for_enable s = if s.enabled then (none, s) else (
  some s.waits_made,
  record s { wait_enable = s.wait_enable ++ s.waits_made ∷ []; waits_made = s.waits_made + 1 },
)

-- Connect: whether the token and the options are had, and whether both dials succeed.
unfoldable pub connect : Bool → Bool → Cluster → Outcome
connect ready dials s =
    if s.has_socket
    then returns true s
    else if not ready
    then exits
    else returns dials (record s { reconnect_count = 0; has_socket = true })

-- The acknowledgement of the centre server: none at all, an error, with the file that it says has a
-- wrong hash, or a Boolean.
pub data Ack : Type 0 where
  not_sent timed_out : Ack
  refused : Option String → Ack
  acked : Bool → Ack

abbrev pub remove_bad : Option String → Cluster → Cluster
remove_bad none s = s
remove_bad (some hash) s = record s { removed = hash ∷ s.removed }

-- From cr.reconnectCount = 0 on.
unfoldable pub set_enabled : Cluster → Outcome
unfolding close_all
set_enabled s = elim (close_all s.wait_enable s.waits_closed) [
  | none ↦ closes_again
  | some closed ↦ returns true (record s {
    reconnect_count = 0;
    disabled = s.disabled_made;
    disabled_made = s.disabled_made + 1;
    enabled = true;
    waits_closed = closed;
    wait_enable = [];
    cancel_keepalive = some s.intervals_made;
    intervals_made = s.intervals_made + 1;
  })
]

unfoldable pub on_enable_ack : Ack → Cluster → Outcome
unfolding set_enabled
on_enable_ack not_sent s = returns false s
on_enable_ack timed_out s = returns false s
on_enable_ack (refused bad) s = returns false (remove_bad bad s)
on_enable_ack (acked true) s = set_enabled s
on_enable_ack (acked false) s = returns false s

-- Enable; `connected` is cr.socket.IO().Connected(). An extra Enable gives no error.
unfoldable pub enable : ℤ → Bool → Ack → Cluster → Outcome
unfolding on_enable_ack
enable max_reconnect_count connected ack s =
    if s.enabled
    then returns true s
    else if s.has_socket && not connected && eqb_ℤ max_reconnect_count (pos 0)
    then exits
    else if not s.has_socket
    then nil_socket
    else on_enable_ack ack (record s { should_enable = true })

unfoldable pub cancel_interval : Cluster → Cluster
cancel_interval s = elim s.cancel_keepalive [
  | none ↦ s
  | some k ↦ record s { intervals_ended = k ∷ s.intervals_ended; cancel_keepalive = none }
]

-- disconnected
unfoldable pub disconnected : Cluster → Bool × Cluster
unfolding cancel_interval
disconnected s =
    if s.enabled then (false, record s { enabled = false }) else (true, cancel_interval s)

abbrev pub is_acked : Ack → Bool
is_acked (acked b) = b
is_acked not_sent = false
is_acked timed_out = false
is_acked (refused bad) = false

unfoldable pub close_disabled : Ack → Cluster → Outcome
unfolding close
close_disabled ack s = elim (close s.disabled s.disabled_closed) [
  | none ↦ closes_again
  | some closed ↦
      returns (is_acked ack)
        (record s { enabled = false; has_socket = false; disabled_closed = closed })
]

-- disable
unfoldable pub disable : Ack → Cluster → Outcome
unfolding cancel_interval close_disabled
disable ack s =
    if not s.enabled
    then returns false s
    else if not s.has_socket
    then returns false (cancel_interval s)
    else close_disabled ack (cancel_interval s)

-- Disable
unfoldable pub disable_for_good : Ack → Cluster → Outcome
unfolding disable
disable_for_good ack s = disable ack (record s { should_enable = false })

-- The calls that the program makes in any order.
pub data Call : Type 0 where
  wait : Call
  connects : Bool → Bool → Call
  enables : ℤ → Bool → Ack → Call
  disconnects : Call
  disables : Bool → Ack → Call

-- `disables true` is Disable, `disables false` is disable.
unfoldable pub call : Call → Cluster → Outcome
unfolding wait_for_enable connect enable disconnected disable_for_good
call wait s = returns true (wait_for_enable s).1
call (connects ready dials) s = connect ready dials s
call (enables max connected ack) s = enable max connected ack s
call disconnects s = returns (disconnected s).0 (disconnected s).1
call (disables true ack) s = disable_for_good ack s
call (disables false ack) s = disable ack s

unfoldable pub calls : List Call → Cluster → Outcome
unfolding call
calls [] s = returns true s
calls (c ∷ cs) s = elim (call c s) [
  | returns b t ↦ calls cs t
  | exits ↦ exits
  | nil_socket ↦ nil_socket
  | closes_again ↦ closes_again
]
