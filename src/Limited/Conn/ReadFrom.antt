-- ===== src/Limited/Conn/ReadFrom.antt =====
-- limited/limited_conn.go: the loops of readFrom, which leave the copying to the connection, and
-- the close and the deadlines of the limited things. What the connection's own ReadFrom, Close and
-- SetDeadline answer is an argument.
pub mod Copies
use go_openbmclapi.Prelude.{
  ℕ, zero, suc, ◌+◌, ◌-◌, ◌≡◌, Bool, true, false, Option, none, some, List, [], ◌∷◌, ltb, leb, ◌==◌,
  if◌then◌else◌,
}
use go_openbmclapi.Prelude.Int.{ℤ, pos, negsuc, pos_part, ltb_ℤ, leb_ℤ, sub_int64}
use go_openbmclapi.Limited.Semaphore.{Wait, done, blocks, panics, close_once}
use go_openbmclapi.Limited.Rate.{RateController, pre_write}
use go_openbmclapi.Limited.Conn.{
  Error, err_deadline_exceeded, Result, Times, Clock, gives_up, next_after, Source, Written, World,
  read, write,
}

-- What rf.ReadFrom(lr) does at its i-th call, with n bytes copied before and lr.N = m: how many it
-- copies, what is left of lr.N, and its error.
pub record Copied : Type 0 where
  pub n0 : ℕ
  pub unread : ℕ
  pub error : Option Error

abbrev pub ReaderFrom : Type 0
ReaderFrom = ℕ → ℕ → ℕ → Copied

-- After a copy: an error, or a source that gave less than was asked for, ends the loop.
abbrev pub after_copy : ℕ → ℤ → Copied → (ℕ → ℤ → Option Result) → Option Result
after_copy n remain c go_on = elim c.error [
  | some e ↦ some (record { n = n + c.n0; error = some e })
  | none ↦
      if ltb 0 c.unread
      then some (record { n = n + c.n0; error = none })
      else go_on (n + c.n0) (sub_int64 remain (pos c.n0))
]

-- The loop of LimitedConn.readFrom; the fuel bounds the rounds, and none is a loop that has not
-- ended by then. A LimitedWriter has the deadline 0.
pub read_from_loop : ℕ → ℕ → World → ReaderFrom → ℤ → ℕ → Times → RateController → Option Result
read_from_loop zero i w rf remain0 n t l = none
read_from_loop (suc fuel) i w rf remain0 n t l0 =
    let l = w.others i l0 in
    let c = w.clock i in
    let remain = if leb_ℤ remain0 (pos 0) then l.min_write_rate else remain0 in
    let granted = pre_write remain c.grant_at l in
    let m = granted.0.0 in
    let t' = record t { after = next_after granted.0.1 c.set_at } in
    let idle = read_from_loop fuel (i + 1) w rf remain n t' granted.1 in
    let copy =
      after_copy n remain (rf i n (pos_part m))
        (λ n' remain'. read_from_loop fuel (i + 1) w rf remain' n' t' granted.1) in
    if gives_up t c.wait_at
    then some (record { n = n; error = some err_deadline_exceeded })
    else if ltb_ℤ (pos 0) m
    then copy
    else idle

-- `remain` is what utils.GetReaderRemainSize gives.
pub conn_read_from : ℕ → World → ReaderFrom → ℤ → Times → RateController → Option Result
unfolding read_from_loop
conn_read_from fuel w rf remain t l = read_from_loop fuel 0 w rf remain 0 t l

-- A LimitedReader and a LimitedWriter keep one time, and no deadline.
abbrev pub no_deadline : ℕ → Times
no_deadline after = record { after = after; deadline = 0 }

pub writer_read_from : ℕ → World → ReaderFrom → ℤ → ℕ → RateController → Option Result
unfolding read_from_loop
writer_read_from fuel w rf remain after l =
    read_from_loop fuel 0 w rf remain 0 (no_deadline after) l

pub reader_read :
    ℕ
    → Clock
    → Source
    → ℕ
    → RateController
    → Option ((List ℕ × Option Error) × Times × RateController)
reader_read len clock source after l = read len clock source (no_deadline after) l

pub writer_write : ℕ → World → List ℕ → ℕ → RateController → Option Written
writer_write fuel w buf after l = write fuel w buf (no_deadline after) l

-- closed.CompareAndSwap(false, true), and the release of the controller's place.
unfoldable pub release_once : Bool → RateController → Wait (Bool × RateController)
release_once closed l = elim (close_once closed l.sem) [
  | done (c, s) ↦ done (c, record l { sem = s })
  | blocks ↦ blocks
  | panics ↦ panics
]

abbrev and_answer :
    Option Error → Wait (Bool × RateController) → Wait (Option Error × Bool × RateController)
and_answer e (done (c, l)) = done (e, c, l)
and_answer e blocks = blocks
and_answer e panics = panics

-- `inner` is the error of the reader's own Close; a reader that is no io.Closer has none.
pub reader_close :
    Bool → Option (Option Error) → RateController → Wait (Option Error × Bool × RateController)
unfolding release_once
reader_close closed none l = and_answer none (release_once closed l)
reader_close closed (some inner) l = and_answer inner (release_once closed l)

pub writer_close :
    Bool → Option (Option Error) → RateController → Wait (Option Error × Bool × RateController)
unfolding release_once
writer_close closed none l = and_answer none (release_once closed l)
writer_close closed (some inner) l = and_answer inner (release_once closed l)

pub conn_close : Bool → Option Error → RateController → Wait (Option Error × Bool × RateController)
unfolding release_once
conn_close closed inner l = and_answer inner (release_once closed l)

-- What a LimitedConn keeps besides its connection and its controller.
pub record LimitedConn : Type 0 where
  pub closed : Bool
  pub reading : Times
  pub writing : Times

pub set_read_deadline : ℕ → Option Error → LimitedConn → Option Error × LimitedConn
set_read_deadline t inner c = (inner, record c { reading = record c.reading { deadline = t } })

pub set_write_deadline : ℕ → Option Error → LimitedConn → Option Error × LimitedConn
set_write_deadline t inner c = (inner, record c { writing = record c.writing { deadline = t } })

-- SetDeadline: the answers of the connection to its write deadline and to its read deadline.
pub set_deadline : ℕ → Option Error → Option Error → LimitedConn → Option Error × LimitedConn
unfolding set_read_deadline set_write_deadline
set_deadline t at_write at_read c =
    let (err1, c1) = set_write_deadline t at_write c in
    let (err2, c2) = set_read_deadline t at_read c1 in
    (elim err1 [ some e ↦ some e | none ↦ err2 ], c2)
