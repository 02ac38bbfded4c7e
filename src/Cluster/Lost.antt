-- ===== src/Cluster/Lost.antt =====
-- The channel `disabled` of a cluster that loses its connection.
use mathlib.Core.Path.{subst}
use go_openbmclapi.Prelude.{
  sym, Bool-cases, ℕ, ◌<◌, ◌≡◌, Bool, true, false, Option, none, some, List, [], ◌∷◌, arith, ◌==◌,
  if-holds, Option-cases, ◌&&◌, not, inl, inr,
}
use go_openbmclapi.Prelude.Int.{ℤ, pos, eqb_ℤ}
use go_openbmclapi.Cluster.{
  Cluster, is_in, close, close_all, Outcome, returns, exits, nil_socket, closes_again,
  wait_for_enable, connect, Ack, not_sent, timed_out, refused, acked, set_enabled, on_enable_ack,
  enable, cancel_interval, disconnected, close_disabled, disable, disable_for_good, Call, wait,
  connects, enables, disconnects, disables, call, calls,
}
use go_openbmclapi.Cluster.Sound.{
  set_enabled-works, close_disabled-works, cancel_interval-enabled, after,
}
use go_openbmclapi.Cluster.Channels.{IsSound}

-- The channel is open, and it is not the one that a disabling closes.
unfoldable pub IsLost : ℕ → Cluster → Type 0
IsLost d s =
    (d < s.disabled_made)
    × (is_in d s.disabled_closed ≡ false)
    × (s.enabled ≡ true → (s.disabled == d) ≡ false)

-- Wherever the calls end, the channel is open.
unfoldable pub EndsLost : ℕ → Outcome → Type 0
unfolding IsLost
EndsLost d (returns b s) = IsLost d s
EndsLost d exits = Unit
EndsLost d nil_socket = Unit
EndsLost d closes_again = Unit

set_enabled-again :
    (s : Cluster) → close_all s.wait_enable s.waits_closed ≡ none → set_enabled s ≡ closes_again
unfolding set_enabled
set_enabled-again s again = ground (arith, again)

close_disabled-again :
    (ack : Ack) (s : Cluster)
    → is_in s.disabled s.disabled_closed ≡ true
    → close_disabled ack s ≡ closes_again
unfolding close_disabled close
close_disabled-again ack s again = ground (arith, again)

enabled-IsLost : (s : Cluster) → IsSound s → s.enabled ≡ true → IsLost s.disabled (disconnected s).1
unfolding disconnected IsSound IsLost
enabled-IsLost s ok on = rw on (ok.1, ok.0 on, (λ e. ground (arith, e)))

module _ (d : ℕ) where
  disconnected-IsLost : (s : Cluster) → IsLost d s → IsLost d (disconnected s).1
  unfolding disconnected IsLost cancel_interval
  disconnected-IsLost s l =
      if-holds (λ (r : Bool × Cluster). IsLost d r.1) s.enabled
        (λ on. (l.0, l.1, (λ e. ground (arith, e))))
        (λ off. elim (Option-cases s.cancel_keepalive) [
          | inl gone ↦ rw gone l
          | inr (k, at) ↦ rw at l
        ])

  set_enabled-IsLost : (s : Cluster) → IsLost d s → EndsLost d (set_enabled s)
  set_enabled-IsLost s l = elim (Option-cases (close_all s.wait_enable s.waits_closed)) [
    | inl again ↦ subst (EndsLost d) (sym (set_enabled-again s again)) (unfold EndsLost in tt)
    | inr (closed, e) ↦
        subst (EndsLost d) (sym (set_enabled-works s closed e))
          (unfold EndsLost IsLost in (omega (arith, l.0), l.1, (λ _. ground (arith, l.0))))
  ]

  on_enable_ack-IsLost : (ack : Ack) (s : Cluster) → IsLost d s → EndsLost d (on_enable_ack ack s)
  unfolding on_enable_ack EndsLost IsLost
  on_enable_ack-IsLost not_sent s l = l
  on_enable_ack-IsLost timed_out s l = l
  on_enable_ack-IsLost (refused none) s l = l
  on_enable_ack-IsLost (refused (some hash)) s l = l
  on_enable_ack-IsLost (acked true) s l = set_enabled-IsLost s l
  on_enable_ack-IsLost (acked false) s l = l

  enable-IsLost :
      (max : ℤ) (connected : Bool) (ack : Ack) (s : Cluster)
      → IsLost d s
      → EndsLost d (enable max connected ack s)
  unfolding enable EndsLost
  enable-IsLost max connected ack s l =
      if-holds (EndsLost d) s.enabled (λ on. l)
        (λ off.
          if-holds (EndsLost d) (s.has_socket && not connected && eqb_ℤ max (pos 0)) (λ ends. tt)
            (λ stays.
              if-holds (EndsLost d) (not s.has_socket) (λ no. tt)
                (λ has.
                  on_enable_ack-IsLost ack (record s { should_enable = true })
                    (unfold IsLost in l))))

  cancel_interval-IsLost : (s : Cluster) → IsLost d s → IsLost d (cancel_interval s)
  unfolding cancel_interval IsLost
  cancel_interval-IsLost s l = elim (Option-cases s.cancel_keepalive) [
    | inl gone ↦ rw gone l
    | inr (k, at) ↦ rw at l
  ]

  close_disabled-IsLost :
      (ack : Ack) (s : Cluster) → s.enabled ≡ true → IsLost d s → EndsLost d (close_disabled ack s)
  close_disabled-IsLost ack s on l = elim (Bool-cases (is_in s.disabled s.disabled_closed)) [
    | inl again ↦
        subst (EndsLost d) (sym (close_disabled-again ack s again)) (unfold EndsLost in tt)
    | inr works ↦ subst (EndsLost d) (sym (close_disabled-works ack s works)) (
        unfold EndsLost IsLost is_in in
        (l.0, ground (arith, l.1, l.2 on), (λ e. ground (arith, e))))
  ]

  disable-IsLost : (ack : Ack) (s : Cluster) → IsLost d s → EndsLost d (disable ack s)
  unfolding disable
  disable-IsLost ack s l =
      if-holds (EndsLost d) (not s.enabled) (λ off. unfold EndsLost in l)
        (λ on.
          if-holds (EndsLost d) (not s.has_socket)
            (λ no. unfold EndsLost in cancel_interval-IsLost s l)
            (λ has.
              close_disabled-IsLost ack (cancel_interval s)
                (ground (arith, on, cancel_interval-enabled s)) (cancel_interval-IsLost s l)))

  wait_for_enable-IsLost : (s : Cluster) → IsLost d s → IsLost d (wait_for_enable s).1
  unfolding wait_for_enable IsLost
  wait_for_enable-IsLost s l =
      if-holds (λ (r : Option ℕ × Cluster). IsLost d r.1) s.enabled (λ on. l) (λ off. l)

  connect-IsLost :
      (ready dials : Bool) (s : Cluster) → IsLost d s → EndsLost d (connect ready dials s)
  unfolding connect EndsLost
  connect-IsLost ready dials s l =
      if-holds (EndsLost d) s.has_socket (λ has. l)
        (λ none_set. if-holds (EndsLost d) (not ready) (λ no. tt) (λ yes. unfold IsLost in l))

  call-EndsLost : (c : Call) (s : Cluster) → IsLost d s → EndsLost d (call c s)
  unfolding call disable_for_good
  call-EndsLost wait s l = unfold EndsLost in wait_for_enable-IsLost s l
  call-EndsLost (connects ready dials) s l = connect-IsLost ready dials s l
  call-EndsLost (enables max connected ack) s l = enable-IsLost max connected ack s l
  call-EndsLost disconnects s l = unfold EndsLost in disconnected-IsLost s l
  call-EndsLost (disables true ack) s l =
      disable-IsLost ack (record s { should_enable = false }) (unfold IsLost in l)
  call-EndsLost (disables false ack) s l = disable-IsLost ack s l

  after-EndsLost :
      (cs : List Call) (o : Outcome)
      → ((t : Cluster) → IsLost d t → EndsLost d (calls cs t))
      → EndsLost d o
      → EndsLost d (after cs o)
  unfolding EndsLost
  after-EndsLost cs (returns b t) rest l = rest t l
  after-EndsLost cs exits rest l = tt
  after-EndsLost cs nil_socket rest l = tt
  after-EndsLost cs closes_again rest l = tt

  calls-EndsLost : (cs : List Call) (s : Cluster) → IsLost d s → EndsLost d (calls cs s)
  unfolding calls
  calls-EndsLost [] s l = unfold EndsLost in l
  calls-EndsLost (c ∷ cs) s l =
      after-EndsLost cs (call c s) (calls-EndsLost cs) (call-EndsLost c s l)

-- When the connection of an enabled cluster is lost, in a sound state, `disconnected` answers false and
-- leaves its keep-alive interval running, and its channel `disabled` stays open for ever: whatever calls
-- follow, it is open where they end, and never again the channel that a disabling closes.
pub disconnected-leaks :
    (s : Cluster) (cs : List Call)
    → IsSound s
    → s.enabled ≡ true
    → ((disconnected s).0 ≡ false)
      × ((disconnected s).1.cancel_keepalive ≡ s.cancel_keepalive)
      × EndsLost s.disabled (calls cs (disconnected s).1)
unfolding disconnected
disconnected-leaks s cs ok on = (
  ground (arith, on),
  ground (arith, on),
  calls-EndsLost s.disabled cs (disconnected s).1 (enabled-IsLost s ok on),
)
