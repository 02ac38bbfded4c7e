-- ===== src/Limited/Rate.antt =====
-- limited/limited_conn.go: RateController, its rates, and what it grants to reads and writes.
-- A time is nanoseconds since Go's zero time, which is 0; a clock reading is an argument, and each
-- method holds its lock throughout. An int of the source wraps around at 64 bits.
pub mod PreRead
pub mod PreWrite
use go_openbmclapi.Prelude.{
  ℕ, ◌+◌, ◌-◌, ◌/◌, ◌≡◌, refl, Bool, true, false, Option, none, some, arith, ltb, leb, ◌==◌,
  if◌then◌else◌,
}
use go_openbmclapi.Prelude.Int.{ℤ, pos, negsuc, pos_part, ltb_ℤ, leb_ℤ, add_int64, sub_int64}
use go_openbmclapi.Limited.Semaphore
use go_openbmclapi.Limited.Semaphore.{
  Semaphore, new_semaphore, len, Wait, done, blocks, panics, acquire_with_notify,
  acquire_with_context, release,
}

pub record RateController : Type 0 where
  pub sem : Semaphore
  pub read_rate : ℤ
  pub min_read_rate : ℤ
  pub write_rate : ℤ
  pub min_write_rate : ℤ
  pub closed : Bool
  pub last_read : ℕ
  pub pre_read_count : ℤ
  pub read_count : ℤ
  pub last_write : ℕ
  pub wrote_count : ℤ

pub new_rate_controller : ℤ → ℤ → ℤ → RateController
new_rate_controller max_conn read_rate write_rate = record {
  sem = new_semaphore max_conn;
  read_rate = read_rate;
  min_read_rate = pos 256;
  write_rate = write_rate;
  min_write_rate = pos 256;
  closed = false;
  last_read = 0;
  pre_read_count = pos 0;
  read_count = pos 0;
  last_write = 0;
  wrote_count = pos 0;
}

pub set_read_rate : ℤ → RateController → RateController
set_read_rate rate l =
    if ltb_ℤ (pos 0) rate
    then (if ltb_ℤ rate l.min_read_rate
        then record l { read_rate = rate; min_read_rate = rate }
        else record l { read_rate = rate })
    else record l { read_rate = rate }

pub set_write_rate : ℤ → RateController → RateController
set_write_rate rate l =
    if ltb_ℤ (pos 0) rate
    then (if ltb_ℤ rate l.min_write_rate
        then record l { write_rate = rate; min_write_rate = rate }
        else record l { write_rate = rate })
    else record l { write_rate = rate }

pub set_min_read_rate : ℤ → RateController → RateController
set_min_read_rate rate l = record l { min_read_rate = rate }

pub set_min_write_rate : ℤ → RateController → RateController
set_min_write_rate rate l = record l { min_write_rate = rate }

abbrev pub second : ℤ
second = pos 1000000000

-- now.Sub(t): a Duration, which stops at the ends of int64.
unfoldable pub since : ℕ → ℕ → ℤ
since now t =
    if leb t now
    then (if ltb (now - t) 0x8000000000000000 then pos (now - t) else pos 0x7fffffffffffffff)
    else if leb (t - now) 0x8000000000000000
    then negsuc (t - now - 1)
    else negsuc 0x7fffffffffffffff

-- time.Second - now.Sub(last): what is left of the second that began at `last`.
unfoldable pub rest_of_second : ℕ → ℕ → ℤ
unfolding since
rest_of_second now last = sub_int64 second (since now last)

-- The rate's share of one connection; the rate is positive here.
unfoldable pub avg_rate : ℤ → Semaphore → ℤ
avg_rate rate s = if ltb 0 (len s) then pos (pos_part rate / len s) else rate

abbrev pub at_most : ℤ → ℤ → ℤ
at_most n top = if ltb_ℤ top n then top else n

-- After the count's reset: `n` is no longer than the share.
unfoldable pub grant_read : ℤ → RateController → ℤ × RateController
grant_read n l =
    if leb_ℤ l.read_rate l.pre_read_count
    then (at_most l.min_read_rate n, l)
    else (n, record l { pre_read_count = add_int64 l.pre_read_count n })

abbrev pub start_read : ℕ → RateController → RateController
start_read now l =
    if leb_ℤ (rest_of_second now l.last_read) (pos 0)
    then record l { last_read = now; pre_read_count = pos 0; read_count = pos 0 }
    else l

unfoldable pub pre_read : ℤ → ℕ → RateController → ℤ × RateController
pre_read n now l =
    if leb_ℤ n (pos 0)
    then (n, l)
    else if leb_ℤ l.read_rate (pos 0)
    then (n, l)
    else grant_read (at_most n (avg_rate l.read_rate l.sem)) (start_read now l)

-- The time to wait after a read of `n` bytes, `less` fewer than were granted.
unfoldable pub after_read : ℤ → ℤ → ℕ → RateController → ℤ × RateController
after_read n0 less now l =
    if leb_ℤ l.read_rate (pos 0)
    then (pos 0, l)
    else (let avg = avg_rate l.read_rate l.sem in
        let n = at_most (if ltb_ℤ n0 (pos 0) then pos 0 else n0) avg in
        let diff = rest_of_second now l.last_read in
        let l' =
          (if leb_ℤ diff (pos 0)
            then record l { last_read = now; pre_read_count = pos 0; read_count = n }
            else record l {
              pre_read_count = sub_int64 l.pre_read_count less;
              read_count = add_int64 l.read_count n;
            }) in
        if leb_ℤ avg n
        then (second, l')
        else if leb_ℤ l.read_rate l'.read_count
        then (diff, l')
        else (pos 0, l'))

-- A write that is charged; `n` bytes are asked for.
unfoldable pub charge_write : ℤ → RateController → (ℤ × ℤ) × RateController
charge_write n l =
    if ltb_ℤ l.write_rate n
    then ((l.write_rate, second), record l { wrote_count = add_int64 l.wrote_count l.write_rate })
    else ((n, pos 0), record l { wrote_count = add_int64 l.wrote_count n })

unfoldable pub pre_write : ℤ → ℕ → RateController → (ℤ × ℤ) × RateController
pre_write n now l =
    if leb_ℤ n (pos 0)
    then ((n, pos 0), l)
    else if leb_ℤ l.write_rate (pos 0)
    then ((n, pos 0), l)
    else (let diff = rest_of_second now l.last_write in
        if leb_ℤ diff (pos 0)
        then charge_write n (record l { last_write = now; wrote_count = pos 0 })
        else if leb_ℤ l.write_rate l.wrote_count
        then ((at_most l.min_write_rate n, diff), l)
        else charge_write n l)

-- Close makes the operations that wait for a place give up.
pub close : RateController → RateController
close l = record l { closed = true }

-- What Do, DoReader and DoWriter give: the limited thing, an error, or a wait.
pub data Opened : Type 0 where
  opened : Opened
  err_closed err_operator err_cancelled : Opened

abbrev after_operator : Bool → RateController → Semaphore → Wait (Opened × RateController)
after_operator true l s = done (opened, record l { sem = s })
after_operator false l s = elim (release s) [
  | done s' ↦ done (err_operator, record l { sem = s' })
  | blocks ↦ blocks
  | panics ↦ panics
]

-- Do, DoReader and DoWriter: `first` is the choice of the select, `operator` whether the operator
-- has no error.
unfoldable pub do_operator : Bool → Bool → RateController → Wait (Opened × RateController)
do_operator first operator l = elim (acquire_with_notify l.closed first l.sem) [
  | done (true, s) ↦ after_operator operator l s
  | done (false, s) ↦ done (err_closed, l)
  | blocks ↦ blocks
  | panics ↦ panics
]

-- DoWithContext: the context is done if the caller has cancelled it or the controller is closed.
unfoldable pub do_with_context :
    Bool → Bool → Bool → RateController → Wait (Opened × RateController)
do_with_context cancelled first operator l = elim (acquire_with_context cancelled first l.sem) [
  | done (true, s) ↦ after_operator operator l s
  | done (false, s) ↦ done (err_cancelled, l)
  | blocks ↦ blocks
  | panics ↦ panics
]
