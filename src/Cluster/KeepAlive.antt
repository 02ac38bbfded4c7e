-- ===== src/Cluster/KeepAlive.antt =====
-- cluster.go: the keep-alive packets, their counters of hits, and the interval that sends them.
-- A counter of 32 or 64 bits is kept as the number of its bits, which wraps around.
pub mod Reported
pub mod Failures
use go_openbmclapi.Prelude.{
  ℕ, suc, ◌+◌, ◌-◌, ◌%◌, String, Bool, true, false, not, Option, none, some, List, [], ◌∷◌, ltb,
  if◌then◌else◌,
}
use go_openbmclapi.Prelude.Int.{ℤ, pos, negsuc, eqb_ℤ}
use go_openbmclapi.Cluster.{
  Ack, Cluster, Outcome, returns, exits, nil_socket, closes_again, disable, connect, enable,
}

abbrev pub add32 : ℕ → ℕ → ℕ
add32 a b = (a + b) % 0x100000000

abbrev pub sub32 : ℕ → ℕ → ℕ
sub32 a b = (a + (0x100000000 - b % 0x100000000)) % 0x100000000

abbrev pub add64 : ℕ → ℕ → ℕ
add64 a b = (a + b) % 0x10000000000000000

abbrev pub sub64 : ℕ → ℕ → ℕ
sub64 a b = (a + (0x10000000000000000 - b % 0x10000000000000000)) % 0x10000000000000000

-- stats.hits and stats.bts, lastHits and lastHbts, statOnlyHits and statOnlyHbts.
pub record Counters : Type 0 where
  pub hits : ℕ
  pub hbts : ℕ
  pub last_hits : ℕ
  pub last_hbts : ℕ
  pub stat_only_hits : ℕ
  pub stat_only_hbts : ℕ

-- A served request: whether it is left out of the keep-alive, and its bytes.
abbrev pub Served : Type 0
Served = Bool × ℕ

-- The counting of a served request in handleDownload.
unfoldable pub count_served : Served → Counters → Counters
count_served (stat_only, size) c =
    let counted = record c { hits = add32 c.hits 1; hbts = add64 c.hbts size } in
    if stat_only
    then record counted {
      stat_only_hits = add32 c.stat_only_hits 1;
      stat_only_hbts = add64 c.stat_only_hbts size;
    }
    else counted

unfoldable pub count_all : List Served → Counters → Counters
unfolding count_served
count_all [] c = c
count_all (s ∷ rest) c = count_all rest (count_served s c)

-- What the centre server answers to a keep-alive packet: nothing, or nothing in time; an error, with the
-- file that it says has a wrong hash; or a value, which is false where it drops the cluster.
pub data Answer : Type 0 where
  not_sent timed_out : Answer
  refused : Option String → Answer
  accepted : Bool → Answer

-- The hits and bytes that a packet reports.
unfoldable pub packet : Counters → ℕ × ℕ
packet c = (
  sub32 (sub32 c.hits c.last_hits) c.stat_only_hits,
  sub64 (sub64 c.hbts c.last_hbts) c.stat_only_hbts,
)

-- The counters after an accepted packet; `sent` are those that it was made from.
unfoldable pub settle : Counters → Counters → Counters
settle sent c = record c {
  last_hits = sent.hits;
  last_hbts = sent.hbts;
  stat_only_hits = sub32 c.stat_only_hits sent.stat_only_hits;
  stat_only_hbts = sub64 c.stat_only_hbts sent.stat_only_hbts;
}

-- What KeepAlive does: its status, the report if the server has accepted it, the file that is removed,
-- and the counters.
pub record Kept : Type 0 where
  pub status : ℤ
  pub reported : Option (ℕ × ℕ)
  pub removes : Option String
  pub counters : Counters

-- KeepAlive; `meanwhile` are the requests served while it waits for the answer.
unfoldable pub keep_alive : Answer → List Served → Counters → Kept
unfolding packet settle count_all
keep_alive not_sent meanwhile c = record {
  status = pos 1;
  reported = none;
  removes = none;
  counters = count_all meanwhile c;
}
keep_alive timed_out meanwhile c = record {
  status = pos 1;
  reported = none;
  removes = none;
  counters = count_all meanwhile c;
}
keep_alive (refused bad) meanwhile c = record {
  status = pos 1;
  reported = none;
  removes = bad;
  counters = count_all meanwhile c;
}
keep_alive (accepted stays) meanwhile c = record {
  status = (if stays then pos 0 else negsuc 0);
  reported = some (packet c);
  removes = none;
  counters = settle c (count_all meanwhile c);
}

-- A round of the interval: the requests served before the packet, and while it waits, and the answer.
abbrev pub Round : Type 0
Round = List Served × Answer × List Served

-- What the accepted packets of the rounds report, added up, and the counters after them.
unfoldable pub keep_alives : List Round → Counters → (ℕ × ℕ) × Counters
unfolding keep_alive count_all
keep_alives [] c = ((0, 0), c)
keep_alives ((before, answer, meanwhile) ∷ rounds) c =
    let kept = keep_alive answer meanwhile (count_all before c) in
    let (later, end) = keep_alives rounds kept.counters in
    elim kept.reported [
      | none ↦ (later, end)
      | some (hits, bytes) ↦ ((hits + later.0, bytes + later.1), end)
    ]

-- What the interval does after a packet: it goes on with the new failedCount, it has ended, the program
-- exits, or it reconnects.
pub data Tick : Type 0 where
  goes_on : ℕ → Tick
  has_ended kicked reconnects : Tick

abbrev pub max_fail_count : ℕ
max_fail_count = 3

-- The callback of the interval: `live` says that the interval's context has not ended. The packet's own
-- context has been cancelled when its error is looked at, so that every failure is counted.
unfoldable pub tick : ℤ → Bool → ℕ → Tick
tick status live failed_count =
    if eqb_ℤ status (pos 0)
    then goes_on 0
    else if eqb_ℤ status (negsuc 0)
    then kicked
    else if not live
    then has_ended
    else if ltb (failed_count + 1) max_fail_count
    then goes_on (failed_count + 1)
    else reconnects

-- The reconnection: disable, Connect and Enable.
unfoldable pub reconnect : Ack → Bool → Bool → ℤ → Bool → Ack → Cluster → Outcome
unfolding disable connect enable
reconnect disable_ack ready dials max connected enable_ack s = elim (disable disable_ack s) [
  | returns b t ↦ (elim (connect ready dials t) [
    | returns true u ↦ (elim (enable max connected enable_ack u) [
      | returns true v ↦ returns true v
      | returns false v ↦ exits
      | exits ↦ exits
      | nil_socket ↦ nil_socket
      | closes_again ↦ closes_again
    ])
    | returns false u ↦ exits
    | exits ↦ exits
    | nil_socket ↦ nil_socket
    | closes_again ↦ closes_again
  ])
  | exits ↦ exits
  | nil_socket ↦ nil_socket
  | closes_again ↦ closes_again
]
