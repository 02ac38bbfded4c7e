-- ===== src/Limited/Conn.antt =====
-- limited/limited_conn.go: LimitedReader, LimitedWriter and LimitedConn. The bytes of a buffer are
-- the numbers of a list. What lies outside is an argument: the clock, the reader or writer behind,
-- and the controller, which other connections use between two calls.
pub mod Deliver
pub mod Reads
pub mod ReadFrom
pub mod Tests
use go_openbmclapi.Prelude.{
  ℕ, zero, suc, ◌+◌, ◌-◌, ◌≡◌, Bool, true, false, Option, none, some, List, [], ◌∷◌, ◌++◌, arith,
  ltb, leb, ◌==◌, if◌then◌else◌, length, take, drop,
}
use go_openbmclapi.Prelude.Int.{ℤ, pos, negsuc, pos_part, ltb_ℤ, leb_ℤ, sub_int64}
use go_openbmclapi.Limited.Rate.{RateController, pre_read, after_read, pre_write}

-- The errors of the writer or reader behind are numbered.
pub data Error : Type 0 where
  err_deadline_exceeded : Error
  other : ℕ → Error

pub record Result : Type 0 where
  pub n : ℕ
  pub error : Option Error

-- The times that a connection keeps: 0 is the zero time, which stands for none.
pub record Times : Type 0 where
  pub after : ℕ
  pub deadline : ℕ

-- The clock when the wait begins, when the controller is asked, and when the next wait is set.
pub record Clock : Type 0 where
  pub wait_at : ℕ
  pub grant_at : ℕ
  pub set_at : ℕ

-- A LimitedConn gives up where its deadline comes before the end of the wait. A LimitedReader and a
-- LimitedWriter have no deadline, which is the deadline 0 here: they always wait.
unfoldable pub gives_up : Times → ℕ → Bool
gives_up t now =
    if t.after == 0
    then false
    else if leb t.after now
    then false
    else if t.deadline == 0
    then false
    else ltb t.deadline t.after

-- dur > 0: now.Add(dur), or else the zero time.
abbrev pub next_after : ℤ → ℕ → ℕ
next_after dur now = if ltb_ℤ (pos 0) dur then now + pos_part dur else 0

-- The reader behind: given the length of its buffer, what it reads and its error.
abbrev pub Source : Type 0
Source = ℕ → List ℕ × Option Error

-- Read(buf): the bytes read, the error, the times and the controller; none is the panic of `buf[:m]`
-- for a negative m. `len` is len(buf).
unfoldable pub read :
    ℕ
    → Clock
    → Source
    → Times
    → RateController
    → Option ((List ℕ × Option Error) × Times × RateController)
unfolding gives_up
read len clock source t l =
    if gives_up t clock.wait_at
    then some (([], some err_deadline_exceeded), t, l)
    else (let (m, l1) = pre_read (pos len) clock.grant_at l in
        let (got, e) = source (pos_part m) in
        let (dur, l2) =
          after_read (pos (length got)) (sub_int64 m (pos (length got))) clock.set_at l1 in
        if ltb_ℤ m (pos 0)
        then none
        else some ((got, e), record t { after = next_after dur clock.set_at }, l2))

-- The writer behind at its i-th call: of the bytes it is given, how many it takes, and its error.
abbrev pub Sink : Type 0
Sink = ℕ → List ℕ → ℕ × Option Error

-- What surrounds a Write: the clock and the controller's other users in the i-th round, and the
-- writer behind.
pub record World : Type 0 where
  pub clock : ℕ → Clock
  pub others : ℕ → RateController → RateController
  pub sink : Sink

-- What a Write has done when it returns: its result, and the bytes that the writer behind has taken.
pub record Written : Type 0 where
  pub result : Result
  pub taken : List ℕ

-- After a write of the chunk: the rest is written unless there is an error.
abbrev pub after_chunk :
    ℕ → List ℕ → List ℕ → ℕ × Option Error → (ℕ → List ℕ → Option Written) → Option Written
after_chunk n taken chunk (n0, none) go_on = go_on (n + n0) (taken ++ take n0 chunk)
after_chunk n taken chunk (n0, some e) go_on =
    some (record { result = record { n = n + n0; error = some e }; taken = taken ++ take n0 chunk })

-- The loop of Write; `n` bytes of the buffer are written. The fuel bounds the rounds: none is a loop
-- that has not ended by then.
pub write_loop : ℕ → ℕ → World → List ℕ → ℕ → List ℕ → Times → RateController → Option Written
write_loop zero i w buf n taken t l =
    if ltb n (length buf)
    then none
    else some (record { result = record { n = n; error = none }; taken = taken })
write_loop (suc fuel) i w buf n taken t l0 =
    let l = w.others i l0 in
    let c = w.clock i in
    let granted = pre_write (pos (length buf - n)) c.grant_at l in
    let m = granted.0.0 in
    let t' = record t { after = next_after granted.0.1 c.set_at } in
    let chunk = take (pos_part m) (drop n buf) in
    let idle = write_loop fuel (i + 1) w buf n taken t' granted.1 in
    let write =
      after_chunk n taken chunk (w.sink i chunk)
        (λ n' taken'. write_loop fuel (i + 1) w buf n' taken' t' granted.1) in
    if ltb n (length buf)
    then (if gives_up t c.wait_at
        then some (record {
          result = record { n = n; error = some err_deadline_exceeded };
          taken = taken;
        })
        else if ltb_ℤ (pos 0) m
        then write
        else idle)
    else some (record { result = record { n = n; error = none }; taken = taken })

-- Write(buf): an empty buffer goes straight through.
pub write : ℕ → World → List ℕ → Times → RateController → Option Written
unfolding write_loop
write fuel w [] t l =
    let (n0, e) = w.sink 0 [] in some (record { result = record { n = n0; error = e }; taken = [] })
write fuel w (b ∷ buf) t l = write_loop fuel 0 w (b ∷ buf) 0 [] t l
