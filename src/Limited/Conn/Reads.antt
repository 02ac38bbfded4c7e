-- ===== src/Limited/Conn/Reads.antt =====
-- Read: what is asked of the reader behind, and what comes back.
use go_openbmclapi.Prelude.{
  ℕ, ◌≤◌, ◌≡◌, Bool, true, false, Option, none, some, List, arith, leb, ◌==◌, Bool-cases, inl, inr,
  length,
}
use go_openbmclapi.Prelude.Int.{ℤ, pos, pos_part, leb_ℤ, ◌≤ℤ◌}
use go_openbmclapi.Limited.Semaphore.{Semaphore}
use go_openbmclapi.Limited.Rate.{
  RateController, pre_read, grant_read, start_read, avg_rate, at_most,
}
use go_openbmclapi.Limited.Conn.{Error, Times, Clock, gives_up, Source, read}

-- What io.Reader promises of its count.
pub record IsReader (s : Source) : Type 0 where
  pub no_more : (len : ℕ) → length (s len).0 ≤ len

grant_read-nat :
    (n least : ℕ) (l : RateController)
    → l.min_read_rate ≡ pos least
    → (m : ℕ) × ((grant_read (pos n) l).0 ≡ pos m) × (m ≤ n)
unfolding grant_read
grant_read-nat n least l e =
    (pos_part (grant_read (pos n) l).0, ground (arith, e), ground (arith, e))

avg_nat :
    (rate : ℤ) (s : Semaphore) (n : ℕ)
    → pos 0 ≤ℤ rate
    → (m : ℕ) × (at_most (pos n) (avg_rate rate s) ≡ pos m) × (m ≤ n)
unfolding avg_rate
avg_nat rate s n h = (pos_part (at_most (pos n) (avg_rate rate s)), ground arith, ground arith)

-- A least rate that is not negative keeps every grant a length within the buffer.
pub pre_read-nat :
    (len now least : ℕ) (l : RateController)
    → l.min_read_rate ≡ pos least
    → (m : ℕ) × ((pre_read (pos len) now l).0 ≡ pos m) × (m ≤ len)
unfolding pre_read
pre_read-nat len now least l e = elim (Bool-cases (leb_ℤ l.read_rate (pos 0))) [
  | inl free ↦ (len, ground (arith, free), omega arith)
  | inr limited ↦
      let (k, at, le) = avg_nat l.read_rate l.sem len (ground arith) in
      let (m, got, le') = grant_read-nat k least (start_read now l) (ground (arith, e)) in
      elim (Bool-cases (len == 0)) [
        | inl empty ↦ (len, ground (arith, empty), omega arith)
        | inr more ↦ (m, ground (arith, limited, more, at, got), omega arith)
      ]
]

-- Read returns, with at most `len` bytes.
abbrev pub returns_at_most : ℕ → Option ((List ℕ × Option Error) × Times × RateController) → Bool
returns_at_most len none = false
returns_at_most len (some ((got, _), _, _)) = leb (length got) len

-- If the connection never returns more bytes than it is asked for, and the least read rate is a natural
-- number, a read returns at most as many bytes as its buffer holds.
pub read_bounded :
    (len least : ℕ) (c : Clock) (s : Source) (t : Times) (l : RateController)
    → IsReader s
    → l.min_read_rate ≡ pos least
    → returns_at_most len (read len c s t l) ≡ true
unfolding read
read_bounded len least c s t l ok e =
    let (m, at, le) = pre_read-nat len c.grant_at least l e in
    elim (Bool-cases (gives_up t c.wait_at)) [
      | inl late ↦ rw (late, read) (ground arith)
      | inr go ↦ rw (go, at) (ground (arith, ok.no_more m, le))
    ]
