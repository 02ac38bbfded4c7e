-- ===== src/Limited/Listener/Tests.antt =====
-- limited/limited_conn.go: Accept on a concrete controller.
use go_openbmclapi.Prelude.{false, some}
use go_openbmclapi.Prelude.Int.{pos}
use go_openbmclapi.Limited.Semaphore.{Chan}
use go_openbmclapi.Limited.Rate.{RateController}
use go_openbmclapi.Limited.Listener.{LimitedListener}

abbrev one_of_two : Chan
one_of_two = record { used = 1; room = 2 }

abbrev at_rest : RateController
at_rest = record {
  sem = some one_of_two;
  read_rate = pos 0;
  min_read_rate = pos 256;
  write_rate = pos 0;
  min_write_rate = pos 256;
  closed = false;
  last_read = 0;
  pre_read_count = pos 0;
  read_count = pos 0;
  last_write = 0;
  wrote_count = pos 0;
}

abbrev listener : LimitedListener
listener = record { controller = at_rest }
