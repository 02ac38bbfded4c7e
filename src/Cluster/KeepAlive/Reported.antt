-- ===== src/Cluster/KeepAlive/Reported.antt =====
-- Each hit is reported once.
use go_openbmclapi.Prelude.{
  ℕ, ◌+◌, ◌%◌, ◌≡◌, refl, Bool, true, false, List, [], ◌∷◌, arith, if◌then◌else◌,
}
use go_openbmclapi.Cluster.KeepAlive.{
  Counters, Served, count_served, count_all, Answer, not_sent, timed_out, refused, accepted, packet,
  settle, keep_alive, Round, keep_alives,
}

-- The requests and the bytes that count for the keep-alive.
unfoldable pub counted : List Served → ℕ × ℕ
counted [] = (0, 0)
counted ((stat_only, size) ∷ rest) =
    let later = counted rest in if stat_only then later else (later.0 + 1, later.1 + size)

-- Both counts agree, as far as their bits go.
abbrev pub Agrees : ℕ × ℕ → ℕ × ℕ → Type 0
Agrees p q =
    (p.0 % 0x100000000 ≡ q.0 % 0x100000000)
    × (p.1 % 0x10000000000000000 ≡ q.1 % 0x10000000000000000)

abbrev pub plus : ℕ × ℕ → ℕ × ℕ → ℕ × ℕ
plus p q = (p.0 + q.0, p.1 + q.1)

count_served-hits :
    (stat_only : Bool) (size : ℕ) (c : Counters)
    → (packet (count_served (stat_only, size) c)).0 % 0x100000000
      ≡ ((packet c).0 + (if stat_only then 0 else 1)) % 0x100000000
unfolding packet count_served
count_served-hits true size c = omega arith
count_served-hits false size c = omega arith

count_served-bytes :
    (stat_only : Bool) (size : ℕ) (c : Counters)
    → (packet (count_served (stat_only, size) c)).1 % 0x10000000000000000
      ≡ ((packet c).1 + (if stat_only then 0 else size)) % 0x10000000000000000
unfolding packet count_served
count_served-bytes true size c = omega arith
count_served-bytes false size c = omega arith

count_all-Agrees :
    (l : List Served) (c : Counters) → Agrees (packet (count_all l c)) (plus (packet c) (counted l))
unfolding count_all counted
count_all-Agrees [] c = (omega arith, omega arith)
count_all-Agrees ((true, size) ∷ l) c =
    let (hits, bytes) = count_all-Agrees l (count_served (true, size) c) in
    (
      omega (arith, hits, count_served-hits true size c),
      omega (arith, bytes, count_served-bytes true size c),
    )
count_all-Agrees ((false, size) ∷ l) c =
    let (hits, bytes) = count_all-Agrees l (count_served (false, size) c) in
    (
      omega (arith, hits, count_served-hits false size c),
      omega (arith, bytes, count_served-bytes false size c),
    )

-- Requests do not touch what the last packet has left.
count_all-last :
    (l : List Served) (c : Counters)
    → ((count_all l c).last_hits ≡ c.last_hits) × ((count_all l c).last_hbts ≡ c.last_hbts)
unfolding count_all count_served
count_all-last [] c = (refl, refl)
count_all-last ((true, size) ∷ l) c = count_all-last l _
count_all-last ((false, size) ∷ l) c = count_all-last l _

-- An accepted packet takes off what it reports.
settle-Agrees :
    (sent c : Counters)
    → c.last_hits ≡ sent.last_hits
    → c.last_hbts ≡ sent.last_hbts
    → Agrees (plus (packet (settle sent c)) (packet sent)) (packet c)
unfolding packet settle
settle-Agrees sent c h b = (omega (arith, h), omega (arith, b))

unfoldable pub all_counted : List Round → ℕ × ℕ
unfolding counted
all_counted [] = (0, 0)
all_counted ((before, answer, meanwhile) ∷ rounds) =
    plus (plus (counted before) (counted meanwhile)) (all_counted rounds)

-- The hits of one round: those served before, those served meanwhile, and those that a packet takes off.
round-accepted :
    (stays : Bool) (meanwhile : List Served) (c : Counters)
    → Agrees
        (plus (packet (keep_alive (accepted stays) meanwhile c).counters) (packet c))
        (plus (packet c) (counted meanwhile))
unfolding keep_alive
round-accepted stays meanwhile c =
    let (h, b) = count_all-last meanwhile c in
    let (hits, bytes) = settle-Agrees c (count_all meanwhile c) h b in
    let (all_hits, all_bytes) = count_all-Agrees meanwhile c in
    (omega (arith, hits, all_hits), omega (arith, bytes, all_bytes))

abbrev Conserves : List Round → Counters → Type 0
Conserves rounds c =
    Agrees (plus (packet (keep_alives rounds c).1) (keep_alives rounds c).0)
      (plus (packet c) (all_counted rounds))

unaccepted :
    (before meanwhile : List Served) (answer : Answer) (rounds : List Round) (c : Counters)
    → Conserves rounds (count_all meanwhile (count_all before c))
    → Agrees
        (plus
          (packet (keep_alives rounds (count_all meanwhile (count_all before c))).1)
          (keep_alives rounds (count_all meanwhile (count_all before c))).0)
        (plus (packet c) (all_counted ((before, answer, meanwhile) ∷ rounds)))
unfolding all_counted
unaccepted before meanwhile answer rounds c (hits, bytes) =
    let (before_hits, before_bytes) = count_all-Agrees before c in
    let (mean_hits, mean_bytes) = count_all-Agrees meanwhile (count_all before c) in
    (omega (arith, hits, before_hits, mean_hits), omega (arith, bytes, before_bytes, mean_bytes))

-- Over any rounds of the keep-alive, whatever the centre server answers to each packet, what the accepted
-- packets have reported and what the next packet would report are together what a packet would have
-- reported in the beginning and the requests served since that count for the keep-alive: no hit and no
-- byte is lost or reported twice. Hits are counted modulo 2^32 and bytes modulo 2^64.
pub keep_alives-conserve :
    (rounds : List Round) (c : Counters)
    → Agrees
        (plus (packet (keep_alives rounds c).1) (keep_alives rounds c).0)
        (plus (packet c) (all_counted rounds))
unfolding keep_alives keep_alive all_counted
keep_alives-conserve [] c = (omega arith, omega arith)
keep_alives-conserve ((before, not_sent, meanwhile) ∷ rounds) c =
    unaccepted before meanwhile not_sent rounds c
      (keep_alives-conserve rounds (count_all meanwhile (count_all before c)))
keep_alives-conserve ((before, timed_out, meanwhile) ∷ rounds) c =
    unaccepted before meanwhile timed_out rounds c
      (keep_alives-conserve rounds (count_all meanwhile (count_all before c)))
keep_alives-conserve ((before, refused bad, meanwhile) ∷ rounds) c =
    unaccepted before meanwhile (refused bad) rounds c
      (keep_alives-conserve rounds (count_all meanwhile (count_all before c)))
keep_alives-conserve ((before, accepted stays, meanwhile) ∷ rounds) c =
    let (hits, bytes) =
      keep_alives-conserve rounds
        (keep_alive (accepted stays) meanwhile (count_all before c)).counters in
    let (before_hits, before_bytes) = count_all-Agrees before c in
    let (mean_hits, mean_bytes) = round-accepted stays meanwhile (count_all before c) in
    (omega (arith, hits, before_hits, mean_hits), omega (arith, bytes, before_bytes, mean_bytes))
