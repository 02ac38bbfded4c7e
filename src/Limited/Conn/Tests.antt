-- ===== src/Limited/Conn/Tests.antt =====
-- limited/limited_conn.go: grants, reads and writes on concrete inputs.
use Prim.Native.Nat.{min}
use go_openbmclapi.Prelude.{
  ℕ, ◌≡◌, ◌≤◌, ◌<◌, ◌+◌, ◌-◌, ◌*◌, ◌⊎◌, refl, Bool, true, false, Option, none, some, List, [], ◌∷◌,
  arith, length, length-take, take, leb, if◌then◌else◌,
}
use go_openbmclapi.Prelude.Int.{
  ℤ, pos, negsuc, pos_part, ltb_ℤ, leb_ℤ, ◌≤ℤ◌, ◌<ℤ◌, sub_int64, wrap64,
}
use go_openbmclapi.Limited.Rate.{RateController, rest_of_second, since}
use go_openbmclapi.Limited.Rate.PreWrite.{Limits, granted_in_all, second_bounded}
use go_openbmclapi.Limited.Conn.{Times, World, Sink, Source, Written, write}
use go_openbmclapi.Limited.Conn.Deliver.{IsWriter, KeepsLimits, write_delivers}
use go_openbmclapi.Limited.Conn.ReadFrom.{ReaderFrom, conn_read_from}
use go_openbmclapi.Limited.Conn.ReadFrom.Copies.{IsCopying, read_from_copies}
use go_openbmclapi.Limited.Conn.Reads.{IsReader}

-- 1000 bytes a second; the second has just begun and 999 bytes are charged.
abbrev limiting : RateController
limiting = record {
  sem = some (record { used = 2; room = 8 });
  read_rate = pos 1000;
  min_read_rate = pos 256;
  write_rate = pos 1000;
  min_write_rate = pos 256;
  closed = false;
  last_read = 0;
  pre_read_count = pos 0;
  read_count = pos 0;
  last_write = 0;
  wrote_count = pos 999;
}

limiting-Limits : Limits limiting 1000 256 999
limiting-Limits = record {
  rate_at = refl;
  least_at = refl;
  count_at = refl;
  rate_pos = omega arith;
  rate_small = omega arith;
  count_small = omega arith;
}

second_bounded_example : granted_in_all ((700, 5) ∷ (700, 6) ∷ []) limiting + 999 ≤ 2512
unfolding rest_of_second since sub_int64 wrap64 go_openbmclapi.Prelude.Int.◌-ℤ◌
second_bounded_example =
    second_bounded ((700, 5) ∷ (700, 6) ∷ []) limiting 1000 256 999 limiting-Limits
      (omega arith, refl, (omega arith, refl, tt))

-- One byte a second for two connections.
abbrev crowded : RateController
crowded = record limiting { read_rate = pos 1; min_read_rate = pos 1 }

abbrev takes_all : Sink
takes_all i p = (length p, none)

takes_all-IsWriter : IsWriter takes_all
takes_all-IsWriter = record { no_more = λ i p. omega arith; all_or_error = λ i p e. refl }

abbrev alone : World
alone = record {
  clock = λ i. record { wait_at = i; grant_at = i; set_at = i };
  others = λ i l. l;
  sink = takes_all;
}

alone-KeepsLimits : KeepsLimits alone 1000 256
alone-KeepsLimits = record { keeps = λ i l count lim. record { count = count; limits = lim } }

abbrev no_times : Times
no_times = record { after = 0; deadline = 0 }

abbrev all_written : Written
all_written = record { result = record { n = 3; error = none }; taken = 7 ∷ 8 ∷ 9 ∷ [] }

write_delivers_example : write 3 alone (7 ∷ 8 ∷ 9 ∷ []) no_times limiting ≡ some all_written
write_delivers_example =
    write_delivers alone 7 (8 ∷ 9 ∷ []) no_times limiting 1000 256 999 takes_all-IsWriter
      (λ j p. refl) alone-KeepsLimits (omega arith) limiting-Limits refl

abbrev gives_one : Source
gives_one k = (take k (7 ∷ []), none)

gives_one-IsReader : IsReader gives_one
gives_one-IsReader = record { no_more = λ k. omega (arith, length-take {A = ℕ} k (7 ∷ [])) }

-- A source of 700 bytes, whose size was told wrong.
abbrev copies_700 : ReaderFrom
copies_700 i n m = record { n0 = min m (700 - n); unread = m - min m (700 - n); error = none }

copies_700-IsCopying : IsCopying copies_700 700
copies_700-IsCopying = record {
  copies = λ i n m. refl;
  leaves = λ i n m. refl;
  no_error = λ i n m. refl;
}

read_from_copies_example :
    conn_read_from 701 alone copies_700 (pos 300) no_times limiting
    ≡ some (record { n = 700; error = none })
read_from_copies_example =
    read_from_copies alone copies_700 300 700 no_times limiting 1000 256 999 copies_700-IsCopying
      alone-KeepsLimits (omega arith) (omega arith) (omega arith) limiting-Limits refl
