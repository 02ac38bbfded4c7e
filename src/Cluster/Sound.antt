-- ===== src/Cluster/Sound.antt =====
-- No sequence of calls closes a channel twice.
use mathlib.Core.Path.{subst}
use go_openbmclapi.Prelude.{
  if-holds, ℕ, ◌+◌, ◌≡◌, ◌≢◌, sym, refl, inl, inr, Bool, true, false, Option, none, some, List, [],
  ◌∷◌, arith, Option-cases, ◌&&◌, not,
}
use go_openbmclapi.Prelude.Int.{ℤ, pos, eqb_ℤ}
use go_openbmclapi.Cluster.{
  Cluster, new_cluster, is_in, close, close_all, Outcome, returns, exits, nil_socket, closes_again,
  wait_for_enable, connect, Ack, not_sent, timed_out, refused, acked, is_acked, set_enabled,
  on_enable_ack, enable, cancel_interval, disconnected, close_disabled, disable, disable_for_good,
  Call, wait, connects, enables, disconnects, disables, call, calls,
}
use go_openbmclapi.Cluster.Channels.{
  AreOpen, AreClosed, IsSound, EndsSound, AreMade-more, new_is_open, AreOpen-add, close_all-works,
}

new_cluster-IsSound : IsSound new_cluster
unfolding IsSound new_cluster AreOpen is_in
new_cluster-IsSound = (λ e. ground (arith, e), omega arith, (omega arith, tt), tt, tt)

wait_for_enable-IsSound : (s : Cluster) → IsSound s → IsSound (wait_for_enable s).1
unfolding wait_for_enable
wait_for_enable-IsSound s ok =
    if-holds (λ (r : Option ℕ × Cluster). IsSound r.1) s.enabled (λ on. ok)
      (λ off.
        unfold IsSound in
        (
          ok.0,
          ok.1,
          ok.2,
          AreOpen-add s.waits_made s.waits_closed s.wait_enable ok.4 ok.3,
          AreMade-more s.waits_made s.waits_closed ok.4,
        ))

connect-IsSound : (ready dials : Bool) (s : Cluster) → IsSound s → EndsSound (connect ready dials s)
unfolding connect EndsSound
connect-IsSound ready dials s ok =
    if-holds EndsSound s.has_socket (λ has. ok)
      (λ none_set. if-holds EndsSound (not ready) (λ no. tt) (λ yes. unfold IsSound in ok))

abbrev pub enabled_with : List ℕ → Cluster → Cluster
enabled_with closed s = record s {
  reconnect_count = 0;
  disabled = s.disabled_made;
  disabled_made = s.disabled_made + 1;
  enabled = true;
  waits_closed = closed;
  wait_enable = [];
  cancel_keepalive = some s.intervals_made;
  intervals_made = s.intervals_made + 1;
}

pub set_enabled-works :
    (s : Cluster) (closed : List ℕ)
    → close_all s.wait_enable s.waits_closed ≡ some closed
    → set_enabled s ≡ returns true (enabled_with closed s)
unfolding set_enabled
set_enabled-works s closed e = ground (arith, e)

set_enabled-IsSound : (s : Cluster) → IsSound s → EndsSound (set_enabled s)
unfolding IsSound
set_enabled-IsSound s (is_open, made, all, waits, all_waits) =
    let (closed, e, ok, in_after, more) =
      close_all-works s.waits_made s.wait_enable s.waits_closed waits all_waits in
    subst EndsSound (sym (set_enabled-works s closed e)) (
      unfold EndsSound AreOpen in
      (
        (λ _. new_is_open s.disabled_made s.disabled_closed all),
        omega arith,
        AreMade-more s.disabled_made s.disabled_closed all,
        tt,
        ok,
      ))

on_enable_ack-IsSound : (ack : Ack) (s : Cluster) → IsSound s → EndsSound (on_enable_ack ack s)
unfolding on_enable_ack EndsSound IsSound
on_enable_ack-IsSound not_sent s ok = ok
on_enable_ack-IsSound timed_out s ok = ok
on_enable_ack-IsSound (refused none) s ok = ok
on_enable_ack-IsSound (refused (some hash)) s ok = ok
on_enable_ack-IsSound (acked true) s ok = set_enabled-IsSound s ok
on_enable_ack-IsSound (acked false) s ok = ok

cancel_interval-IsSound : (s : Cluster) → IsSound s → IsSound (cancel_interval s)
unfolding cancel_interval
cancel_interval-IsSound s ok = elim (Option-cases s.cancel_keepalive) [
  | inl gone ↦ rw gone (unfold IsSound in ok)
  | inr (k, at) ↦ rw at (unfold IsSound in ok)
]

enable-IsSound :
    (max : ℤ) (connected : Bool) (ack : Ack) (s : Cluster)
    → IsSound s
    → EndsSound (enable max connected ack s)
unfolding enable EndsSound
enable-IsSound max connected ack s ok =
    if-holds EndsSound s.enabled (λ on. ok)
      (λ off.
        if-holds EndsSound (s.has_socket && not connected && eqb_ℤ max (pos 0)) (λ ends. tt)
          (λ stays.
            if-holds EndsSound (not s.has_socket) (λ no. tt)
              (λ has.
                on_enable_ack-IsSound ack (record s { should_enable = true })
                  (unfold IsSound in ok))))

disconnected-IsSound : (s : Cluster) → IsSound s → IsSound (disconnected s).1
unfolding disconnected
disconnected-IsSound s ok =
    if-holds (λ (r : Bool × Cluster). IsSound r.1) s.enabled
      (λ on. unfold IsSound in ((λ e. ground (arith, e)), ok.1, ok.2, ok.3, ok.4))
      (λ off. cancel_interval-IsSound s ok)

pub close_disabled-works :
    (ack : Ack) (s : Cluster)
    → is_in s.disabled s.disabled_closed ≡ false
    → close_disabled ack s
      ≡ returns (is_acked ack) (record s {
        enabled = false;
        has_socket = false;
        disabled_closed = s.disabled ∷ s.disabled_closed;
      })
unfolding close_disabled close
close_disabled-works ack s open_yet = ground (arith, open_yet)

close_disabled-IsSound :
    (ack : Ack) (s : Cluster) → s.enabled ≡ true → IsSound s → EndsSound (close_disabled ack s)
unfolding IsSound
close_disabled-IsSound ack s on ok =
    subst EndsSound (sym (close_disabled-works ack s (ok.0 on)))
      (unfold EndsSound in ((λ e. ground (arith, e)), ok.1, (ok.1, ok.2), ok.3, ok.4))

pub cancel_interval-enabled : (s : Cluster) → (cancel_interval s).enabled ≡ s.enabled
unfolding cancel_interval
cancel_interval-enabled s = elim (Option-cases s.cancel_keepalive) [
  | inl gone ↦ rw gone refl
  | inr (k, at) ↦ rw at refl
]

disable-IsSound : (ack : Ack) (s : Cluster) → IsSound s → EndsSound (disable ack s)
unfolding disable
disable-IsSound ack s ok =
    if-holds EndsSound (not s.enabled) (λ off. unfold EndsSound in ok)
      (λ on.
        if-holds EndsSound (not s.has_socket)
          (λ no. unfold EndsSound in cancel_interval-IsSound s ok)
          (λ has.
            close_disabled-IsSound ack (cancel_interval s)
              (ground (arith, on, cancel_interval-enabled s)) (cancel_interval-IsSound s ok)))

call-EndsSound : (c : Call) (s : Cluster) → IsSound s → EndsSound (call c s)
unfolding call disable_for_good
call-EndsSound wait s ok = unfold EndsSound in wait_for_enable-IsSound s ok
call-EndsSound (connects ready dials) s ok = connect-IsSound ready dials s ok
call-EndsSound (enables max connected ack) s ok = enable-IsSound max connected ack s ok
call-EndsSound disconnects s ok = unfold EndsSound in disconnected-IsSound s ok
call-EndsSound (disables true ack) s ok =
    disable-IsSound ack (record s { should_enable = false }) (unfold IsSound in ok)
call-EndsSound (disables false ack) s ok = disable-IsSound ack s ok

abbrev pub after : List Call → Outcome → Outcome
after cs (returns b t) = calls cs t
after cs exits = exits
after cs nil_socket = nil_socket
after cs closes_again = closes_again

after-EndsSound :
    (cs : List Call) (o : Outcome)
    → ((t : Cluster) → IsSound t → EndsSound (calls cs t))
    → EndsSound o
    → EndsSound (after cs o)
unfolding EndsSound
after-EndsSound cs (returns b t) rest ok = rest t ok
after-EndsSound cs exits rest ok = tt
after-EndsSound cs nil_socket rest ok = tt
after-EndsSound cs closes_again rest ok = ok

calls_from-EndsSound : (cs : List Call) (s : Cluster) → IsSound s → EndsSound (calls cs s)
unfolding calls
calls_from-EndsSound [] s ok = unfold EndsSound in ok
calls_from-EndsSound (c ∷ cs) s ok =
    after-EndsSound cs (call c s) (calls_from-EndsSound cs) (call-EndsSound c s ok)

-- After any calls on a new cluster, no channel has been closed a second time, and the state is sound:
-- the channel `disabled` of an enabled cluster is open, the waiting channels of WaitForEnable are open
-- and each stands once.
pub calls-EndsSound : (cs : List Call) → EndsSound (calls cs new_cluster)
calls-EndsSound cs = calls_from-EndsSound cs new_cluster new_cluster-IsSound

-- Enable, in a sound state that is not enabled and whose socket is connected, when the centre server
-- acknowledges it with true: the cluster is enabled; its channel `disabled` is the one that is made next,
-- and so another one than before, and is open; every channel that waits for the enabling is closed, and
-- none waits any more.
pub enable-releases :
    (max : ℤ) (s : Cluster)
    → IsSound s
    → s.enabled ≡ false
    → s.has_socket ≡ true
    → (t : Cluster) × (enable max true (acked true) s ≡ returns true t)
      × (t.enabled ≡ true)
      × (t.disabled ≡ s.disabled_made)
      × (t.disabled_made ≡ s.disabled_made + 1)
      × (t.disabled ≢ s.disabled)
      × (is_in t.disabled t.disabled_closed ≡ false)
      × AreClosed t.waits_closed s.wait_enable
      × (t.wait_enable ≡ [])
unfolding enable on_enable_ack set_enabled IsSound
enable-releases max s ok off has =
    let (closed, e, all, in_closed, more) =
      close_all-works s.waits_made s.wait_enable s.waits_closed ok.3 ok.4 in
    (
      enabled_with closed (record s { should_enable = true }),
      ground (arith, off, has, e),
      refl,
      refl,
      refl,
      (λ same. omega (arith, same, ok.1)),
      new_is_open s.disabled_made s.disabled_closed ok.2,
      in_closed,
      refl,
    )
