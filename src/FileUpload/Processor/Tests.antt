-- ===== src/FileUpload/Processor/Tests.antt =====
-- Runs of a small processor.
use microservices_base.Prelude.{◌≡◌, refl, false, true, some, List, [], ◌∷◌}
use microservices_base.Prelude.Int.{pos, ltb_ℤ}
use microservices_base.Prelude.Word.{wrap64}
use microservices_base.FileUpload.Processor.{
  Task, Config, Event, registering, submitting, sending, starting, stopping, taking, looking,
  waking, quitting, finishing, new_processor, calculate_retry_delay, double_delay,
}

abbrev small : Config
small = record {
  workers = pos 1;
  queue_size = pos 1;
  max_retries = pos 3;
  retry_base_delay = pos 5;
}

abbrev scan : Task
scan = record {
  id = "a";
  task_type = "virus_scan";
  payload = "";
  priority = pos 0;
  retries = pos 0;
  max_retry = pos 0;
  created_at = pos 0;
  error = "";
}

-- The second task fills the queue while the first waits to be tried again.
abbrev busy_day : List Event
busy_day =
    registering "virus_scan"
    ∷ starting
    ∷ submitting (pos 1) scan
    ∷ sending 0 false false
    ∷ taking 0
    ∷ looking 0
    ∷ finishing 0 (some "timeout")
    ∷ submitting (pos 2) scan
    ∷ sending 1 false false
    ∷ waking 0
    ∷ stopping
    ∷ quitting 0
    ∷ []

delay_run : calculate_retry_delay 3 (new_processor small) ≡ pos 40
unfolding calculate_retry_delay double_delay new_processor wrap64
delay_run = refl

-- A long row of failures with a base of one second: the delay wraps around.
delay_negative :
    ltb_ℤ
      (calculate_retry_delay 34
        (new_processor (record small { retry_base_delay = pos 1000000000 })))
      (pos 0)
    ≡ true
unfolding calculate_retry_delay double_delay new_processor wrap64
delay_negative = refl
