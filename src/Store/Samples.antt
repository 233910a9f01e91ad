-- ===== src/Store/Samples.antt =====
-- Data for the tests of the store of src/recallpack/storage.py and of what uses it.
use recallpack.Base.{some}
use recallpack.Library.{Library}
use recallpack.Memory.{ObserveRequest}
use recallpack.Store.Rows.{Draw}

abbrev pub library : Library
library = record {
  sha256_of_json = λ j. "hash";
  sha256_of_text = λ t. t;
  canonical_utc_timestamp = λ t. some t;
  duration_ms = λ a b. 0;
  re_sub = λ pattern replacement t. t;
  float_of_int = λ i. 0;
}

abbrev pub request : ObserveRequest
request = record {
  project_id = "p";
  session_id = "s";
  event_id = "x";
  sequence_no = 1;
  actor = "user";
  kind = "message";
  observed_at = "t0";
  text = "retry twice";
}

abbrev pub draw : Draw
draw = record {
  event_id = "e1";
  lease_token = "l1";
  run_id = "r1";
  memory_id = "m1";
  utc_now = "t1";
}

abbrev pub draw_again : Draw
draw_again = record {
  event_id = "e2";
  lease_token = "l2";
  run_id = "r2";
  memory_id = "m2";
  utc_now = "t2";
}
