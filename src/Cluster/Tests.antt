-- ===== src/Cluster/Tests.antt =====
-- cluster.go on concrete inputs.
use go_openbmclapi.Prelude.{
  ◌+◌, ◌≢◌, ◌≡◌, refl, Bool, true, false, none, some, List, [], ◌∷◌, arith,
}
use go_openbmclapi.Prelude.Int.{pos}
use go_openbmclapi.Cluster.{
  Cluster, new_cluster, is_in, returns, acked, enable, disconnected, Call, wait, connects, enables,
  disconnects, disables, calls,
}
use go_openbmclapi.Cluster.Channels.{AreOpen, AreClosed, IsSound, EndsSound}
use go_openbmclapi.Cluster.Sound.{calls-EndsSound, enable-releases}
use go_openbmclapi.Cluster.Lost.{EndsLost, disconnected-leaks}
use go_openbmclapi.Cluster.KeepAlive.{Counters, Round, not_sent, accepted, packet, keep_alives}
use go_openbmclapi.Cluster.KeepAlive.Reported.{Agrees, plus, all_counted, keep_alives-conserve}
use go_openbmclapi.Cluster.KeepAlive.Failures.{ticks, three_fail, is_reconnect, ticks-reconnect}

abbrev a_day : List Call
a_day =
    wait
    ∷ connects true true
    ∷ enables (pos 5) true (acked true)
    ∷ disables false (acked true)
    ∷ disconnects
    ∷ wait
    ∷ []

calls-EndsSound_example : EndsSound (calls a_day new_cluster)
calls-EndsSound_example = calls-EndsSound a_day

-- A connected cluster, for whose enabling one request waits.
abbrev waiting : Cluster
waiting = record {
  enabled = false;
  should_enable = false;
  has_socket = true;
  reconnect_count = 0;
  disabled = 0;
  disabled_made = 1;
  disabled_closed = 0 ∷ [];
  wait_enable = 0 ∷ [];
  waits_made = 1;
  waits_closed = [];
  cancel_keepalive = none;
  intervals_made = 0;
  intervals_ended = [];
  removed = [];
}

waiting-IsSound : IsSound waiting
unfolding IsSound AreOpen is_in
waiting-IsSound =
    ((λ e. ground (arith, e)), omega arith, (omega arith, tt), (omega arith, refl, refl, tt), tt)

enable-releases_example :
    (t : Cluster) × (enable (pos 5) true (acked true) waiting ≡ returns true t)
    × (t.enabled ≡ true)
    × (t.disabled ≡ waiting.disabled_made)
    × (t.disabled_made ≡ waiting.disabled_made + 1)
    × (t.disabled ≢ waiting.disabled)
    × (is_in t.disabled t.disabled_closed ≡ false)
    × AreClosed t.waits_closed (0 ∷ [])
    × (t.wait_enable ≡ [])
enable-releases_example = enable-releases (pos 5) waiting waiting-IsSound refl refl

abbrev working : Cluster
working = record waiting {
  enabled = true;
  disabled = 1;
  disabled_made = 2;
  wait_enable = [];
  cancel_keepalive = some 0;
  intervals_made = 1;
}

working-IsSound : IsSound working
unfolding IsSound AreOpen is_in
working-IsSound = ((λ e. refl), omega arith, (omega arith, tt), tt, tt)

abbrev reenabled : List Call
reenabled = enables (pos 5) true (acked true) ∷ disables false (acked true) ∷ []

disconnected-leaks_example :
    ((disconnected working).0 ≡ false)
    × ((disconnected working).1.cancel_keepalive ≡ some 0)
    × EndsLost 1 (calls reenabled (disconnected working).1)
disconnected-leaks_example = disconnected-leaks working reenabled working-IsSound refl

abbrev ten_hits : Counters
ten_hits = record {
  hits = 10;
  hbts = 1000;
  last_hits = 4;
  last_hbts = 400;
  stat_only_hits = 1;
  stat_only_hbts = 50;
}

abbrev two_rounds : List Round
two_rounds = ((false, 7) ∷ [], not_sent, []) ∷ ((true, 9) ∷ [], accepted true, (false, 3) ∷ []) ∷ []

keep_alives-conserve_example :
    Agrees
      (plus (packet (keep_alives two_rounds ten_hits).1) (keep_alives two_rounds ten_hits).0)
      (plus (packet ten_hits) (all_counted two_rounds))
keep_alives-conserve_example = keep_alives-conserve two_rounds ten_hits

one_is_left : (packet (keep_alives two_rounds ten_hits).1).0 ≡ 1
unfolding packet keep_alives
one_is_left = refl

abbrev some_failures : List Bool
some_failures = false ∷ false ∷ true ∷ false ∷ false ∷ false ∷ []

ticks-reconnect_example : is_reconnect (ticks some_failures 0) ≡ three_fail some_failures
ticks-reconnect_example = ticks-reconnect some_failures
