-- ===== src/Dlq/Tests.antt =====
-- The dead-letter daemon on concrete letters, and its theorems there.
use nervous_bus.Prelude.{
  ℕ, ◌+◌, ◌*◌, ◌≤◌, String, ◌≡◌, refl, true, false, none, some, List, [], ◌∷◌, All, length, str_eq,
  take_chars, arith, ltb, if◌then◌else◌,
}
use nervous_bus.Dlq.Rows.{Row, find_row, insert_or_ignore, update_where}
use nervous_bus.Dlq.Insert.{
  Entry, State, Moment, archive_quarantined, archive_if_dead, is_non_retryable, dead_letter_row,
  insert_dead_letter,
}
use nervous_bus.Dlq.Retry.{
  World, exited, get_pending_retries, set_failed, mark_retry_failed, settle, retry_event,
  read_outcome, is_unknown, retry_one, retry_all, retry_round, retry_rounds,
}
use nervous_bus.Dlq.Rounds.{IsSound, IsValid}
use nervous_bus.Dlq.Budget.{length-retry_rounds, IsDeliverable, retry_round-IsDeliverable}
use nervous_bus.Dlq.Inserted.{letter_line, insert_dead_letter-IsValid}
use nervous_bus.Dlq.Summary.{
  Tracker, letter, publish, run, reported, lost, count_in, Asked, letters, run-accounted, Op,
}
use nervous_bus.Dlq.Sink.{
  Files, jsonl_path_for_day, append_jsonl, IsFirst, FilesBelow, jsonl_path_for_day_lem,
  append_jsonl-FilesBelow, AppendsTo,
}
use nervous_bus.Dlq.Consumer.{StreamEntry, Parsed, envelope, Surroundings, Daemon, drain}
use nervous_bus.Dlq.Delivery.{Sinks, sunk, acked_of, HasRow, drain_lem}

abbrev dumps : Entry → String
dumps e = "{}"

abbrev moment : Moment
moment = record { now = 100; later = 101; writable = true; db_ok = true }

abbrev violation : Entry
violation = record {
  fields =
      ("id", "a1")
      ∷ ("original_type", "kb.entry.v1")
      ∷ ("failure_reason", "schema_violation")
      ∷ ("original_payload_excerpt", "{}")
      ∷ [];
  created_at = some 100;
}

abbrev late : Entry
late = record {
  fields =
      ("id", "b2")
      ∷ ("original_type", "kb.entry.v1")
      ∷ ("failure_reason", "consumer_timeout")
      ∷ ("original_payload_excerpt", "{}")
      ∷ [];
  created_at = some 100;
}

abbrev nameless : Entry
nameless = record { fields = ("failure_reason", "consumer_timeout") ∷ []; created_at = none }

abbrev empty : State
empty = record { rows = []; archive = []; published = [] }

abbrev late_row : Row
late_row = record {
  id = "b2";
  event_type = "kb.entry.v1";
  source = "";
  failure_reason = "consumer_timeout";
  violation_detail = "";
  original_payload = "{}";
  retry_count = 0;
  last_error = none;
  created_at = 100;
  next_retry_at = some 130;
  resolved_at = none;
  quarantined_at = none;
}

insert-late : (insert_dead_letter dumps moment late empty).rows ≡ late_row ∷ []
unfolding insert_dead_letter dead_letter_row archive_if_dead insert_or_ignore
insert-late = refl

insert-violation :
    ((insert_dead_letter dumps moment violation empty).archive
      ≡ letter_line dumps moment violation ∷ [])
    × (get_pending_retries 500 (insert_dead_letter dumps moment violation empty).rows ≡ [])
unfolding insert_dead_letter dead_letter_row archive_if_dead archive_quarantined insert_or_ignore
    get_pending_retries
insert-violation = (refl, refl)

-- A world where each call fails, one after the other.
abbrev failing : ℕ → World
failing now = record {
  started = now;
  clock = λ r. now;
  is_json = λ p. true;
  reply = λ n. exited 1 "refused" "";
  writable = true;
}

abbrev one_late : State
one_late = record { rows = late_row ∷ []; archive = []; published = [] }

-- Thirty seconds, five minutes and thirty minutes: three calls, and no fourth.
retry-exhausts :
    let s =
      retry_rounds
        (failing 130 ∷ failing 131 ∷ failing 430 ∷ failing 2230 ∷ failing 9000 ∷ [])
        one_late in
    (length s.published ≡ 3)
    × (s.rows
        ≡ record late_row { retry_count = 3; last_error = some "refused"; next_retry_at = none }
          ∷ [])
unfolding retry_rounds retry_round retry_all retry_one get_pending_retries is_unknown retry_event
    read_outcome settle mark_retry_failed set_failed update_where take_chars
retry-exhausts = (refl, refl)

unknown-spellings : (is_unknown " Unknown\n" ≡ true) × (is_unknown "kb.unknown" ≡ false)
unfolding is_unknown
unknown-spellings = (refl, refl)

late-IsSound : IsSound late_row
unfolding is_non_retryable
late-IsSound = ground arith

one_late-IsValid : IsValid one_late
unfolding find_row
one_late-IsValid = record { unique = (refl, tt); sound = (late-IsSound, tt) }

insert_dead_letter-IsValid_example : IsValid (insert_dead_letter dumps moment violation one_late)
insert_dead_letter-IsValid_example =
    insert_dead_letter-IsValid dumps moment violation one_late one_late-IsValid

abbrev one_nameless : State
one_nameless = record {
  rows = record late_row { id = ""; next_retry_at = none } ∷ [];
  archive = [];
  published = [];
}

length-retry_rounds_example :
    IsValid (retry_rounds (failing 130 ∷ failing 430 ∷ []) one_late)
    × (length (retry_rounds (failing 130 ∷ failing 430 ∷ []) one_late).published ≤ 0 + 3 * 1)
length-retry_rounds_example =
    length-retry_rounds (failing 130 ∷ failing 430 ∷ []) one_late one_late-IsValid

retry_round-IsDeliverable_example :
    All (IsDeliverable (failing 130)) (retry_round (failing 130) one_late).published
retry_round-IsDeliverable_example =
    retry_round-IsDeliverable (failing 130) one_late one_late-IsValid tt

abbrev fresh : Tracker
fresh = record { counts = []; since_start_total = 5; window_start = 0 }

abbrev traffic : List Op
traffic =
    letter "a" "r"
    ∷ letter "b" "r"
    ∷ letter "a" "r"
    ∷ publish true 10
    ∷ letter "b" ""
    ∷ publish false 20
    ∷ letter "a" "r"
    ∷ []

abbrev on_a : Asked
on_a c r = str_eq c "a"

run-accounted_example :
    let (t', sent') = run traffic (fresh, []) in
    reported on_a sent' + lost on_a traffic fresh + count_in on_a t'.counts
    ≡ reported on_a [] + count_in on_a [] + letters on_a traffic
run-accounted_example = run-accounted on_a traffic fresh []

-- Two full files, and no third one.
abbrev full_day : Files
full_day n = if ltb n 2 then some 60 else none

jsonl_path_for_day_lem_example :
    (k : ℕ) × (jsonl_path_for_day 9 full_day 50 ≡ some k) × IsFirst full_day 50 0 k
jsonl_path_for_day_lem_example =
    jsonl_path_for_day_lem full_day 9 2 50 (omega arith) (omega arith) refl

full_day-FilesBelow : FilesBelow (50 + 20) full_day
full_day-FilesBelow n size e = ground arith

append_jsonl-FilesBelow_example :
    (files' : Files) × (append_jsonl 9 50 15 full_day ≡ some files')
    × ((k : ℕ) × AppendsTo 50 15 full_day files' k)
    × FilesBelow (50 + 20) files'
append_jsonl-FilesBelow_example =
    append_jsonl-FilesBelow full_day 9 2 50 15 20 (omega arith) (omega arith) refl (omega arith)
      (omega arith) full_day-FilesBelow

abbrev two_entries : List StreamEntry
two_entries =
    record { id = "1-0"; fields = ("event_id", "e1") ∷ ("_raw", "x") ∷ [] }
    ∷ record { id = "2-0"; fields = ("event_id", "e2") ∷ ("_raw", "x") ∷ [] }
    ∷ []

-- The sink refuses the second entry.
abbrev flaky : StreamEntry → Surroundings
flaky e = record { moment = moment; sink_ok = str_eq e.id "1-0"; ack_ok = true }

abbrev loads : String → Parsed
loads raw = envelope none []

abbrev idle : Daemon
idle = record { db = empty; sink = []; tracker = fresh; acked = [] }

drain_lem_example :
    let d' = drain dumps loads flaky two_entries idle in
    Sinks dumps loads flaky
      (acked_of dumps loads flaky two_entries)
      (sunk dumps loads flaky two_entries)
      idle
      d'
    × All (HasRow dumps loads flaky d') two_entries
drain_lem_example = drain_lem dumps loads flaky two_entries idle
