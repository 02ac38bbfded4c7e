-- ===== src/Cluster/Channels.antt =====
-- The channels of the life cycle: none is closed twice, and Enable releases those who wait.
use go_openbmclapi.Prelude.{
  ℕ, ◌+◌, ◌<◌, ◌≡◌, refl, true, false, some, List, [], ◌∷◌, ◌++◌, arith, ◌==◌, All,
}
use go_openbmclapi.Cluster.{
  Cluster, is_in, close, close_all, Outcome, returns, exits, nil_socket, closes_again,
}

-- Each of the channels is made, and each is open and stands once.
unfoldable pub AreOpen : ℕ → List ℕ → List ℕ → Type 0
AreOpen made closed [] = Unit
AreOpen made closed (c ∷ cs) =
    (c < made) × (is_in c closed ≡ false) × (is_in c cs ≡ false) × AreOpen made closed cs

abbrev pub AreMade : ℕ → List ℕ → Type 0
AreMade made = All (λ (c : ℕ). c < made)

-- While the cluster is enabled its `disabled` is open; those of WaitForEnable that are to be closed are
-- open; and every channel that stands somewhere has been made.
unfoldable pub IsSound : Cluster → Type 0
IsSound s =
    (s.enabled ≡ true → is_in s.disabled s.disabled_closed ≡ false)
    × (s.disabled < s.disabled_made)
    × AreMade s.disabled_made s.disabled_closed
    × AreOpen s.waits_made s.waits_closed s.wait_enable
    × AreMade s.waits_made s.waits_closed

unfoldable pub EndsSound : Outcome → Type 0
unfolding IsSound
EndsSound (returns b s) = IsSound s
EndsSound exits = Unit
EndsSound nil_socket = Unit
EndsSound closes_again = ⊥

pub AreMade-more : (made : ℕ) (cs : List ℕ) → AreMade made cs → AreMade (made + 1) cs
AreMade-more made [] a = tt
AreMade-more made (c ∷ cs) a = (omega (arith, a.0), AreMade-more made cs a.1)

pub new_is_open : (made : ℕ) (cs : List ℕ) → AreMade made cs → is_in made cs ≡ false
unfolding is_in
new_is_open made [] a = refl
new_is_open made (c ∷ cs) a = ground (arith, a.0, new_is_open made cs a.1)

is_in-last :
    (c d : ℕ) (cs : List ℕ) → is_in c cs ≡ false → (d == c) ≡ false → is_in c (cs ++ d ∷ []) ≡ false
unfolding is_in
is_in-last c d [] a ne = ground (arith, ne)
is_in-last c d (b ∷ cs) a ne = ground (arith, a, is_in-last c d cs, ne)

pub AreOpen-add :
    (made : ℕ) (closed cs : List ℕ)
    → AreMade made closed
    → AreOpen made closed cs
    → AreOpen (made + 1) closed (cs ++ made ∷ [])
unfolding AreOpen
AreOpen-add made closed [] all a =
    (omega arith, new_is_open made closed all, unfold is_in in refl, tt)
AreOpen-add made closed (c ∷ cs) all a = (
  omega (arith, a.0),
  a.1,
  is_in-last c made cs a.2 (ground (arith, a.0)),
  AreOpen-add made closed cs all a.3,
)

AreOpen-close :
    (made c : ℕ) (closed cs : List ℕ)
    → is_in c cs ≡ false
    → AreOpen made closed cs
    → AreOpen made (c ∷ closed) cs
unfolding AreOpen
AreOpen-close made c closed [] out a = tt
AreOpen-close made c closed (d ∷ cs) out a = (
  a.0,
  unfold is_in in ground (arith, a.1, out),
  a.2,
  AreOpen-close made c closed cs (unfold is_in in ground (arith, out)) a.3,
)

-- The channels are closed, and nothing else but what was.
abbrev pub AreClosed : List ℕ → List ℕ → Type 0
AreClosed closed = All (λ (c : ℕ). is_in c closed ≡ true)

pub close_all-works :
    (made : ℕ) (cs closed : List ℕ)
    → AreOpen made closed cs
    → AreMade made closed
    → (after : List ℕ) × (close_all cs closed ≡ some after)
      × AreMade made after
      × AreClosed after cs
      × ((d : ℕ) → is_in d closed ≡ true → is_in d after ≡ true)
unfolding close_all close AreOpen
close_all-works made [] closed a all = (closed, refl, all, tt, λ d h. h)
close_all-works made (c ∷ cs) closed a all =
    let (after, e, ok, in_after, more) =
      close_all-works made cs (c ∷ closed) (AreOpen-close made c closed cs a.2 a.3) (a.0, all) in
    (
      after,
      ground (arith, a.1, e),
      ok,
      (more c (unfold is_in in ground arith), in_after),
      λ d h. more d (unfold is_in in ground (arith, h)),
    )
