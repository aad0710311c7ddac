-- ===== src/Dlq/Retry.antt =====
-- `get_pending_retries`, `mark_retry_success`, `mark_abandoned`, `mark_retry_failed`,
-- `_retry_event` and one round of `retry_worker` of adapters/dlq/dlq.py.
use nervous_bus.Prelude.{
  ℕ, ◌+◌, String, Bool, true, false, none, some, List, [], ◌∷◌, ◌++◌, ◌&&◌, not, map, Dict, keep,
  length, leb, ltb, str_eq, is_none, take_chars, codes, strip, upper, codes_eq, if◌then◌else◌,
}
use nervous_bus.Dlq.Rows.{Row, update_where}
use nervous_bus.Dlq.Insert.{State, is_non_retryable, archive_line, archive_quarantined}

-- How `subprocess.run(["nervous", "publish", …])` ends.
pub data Outcome : Type 0 where
  exited : (code : ℕ) → (stderr stdout : String) → Outcome
  timed_out : Outcome
  not_found : Outcome
  crashed : String → Outcome

-- The surroundings of a round: the times at which a row is handled and the round begins, which
-- payloads `json.loads` takes, how the n-th call of the CLI ends, and whether the archive can be
-- written.
pub record World : Type 0 where
  pub started : ℕ
  pub clock : Row → ℕ
  pub is_json : String → Bool
  pub reply : ℕ → Outcome
  pub writable : Bool

-- The WHERE clause of `get_pending_retries`.
unfoldable pub is_pending : ℕ → Row → Bool
unfolding is_non_retryable
is_pending now r =
    is_none r.resolved_at
    && not (is_non_retryable r.failure_reason)
    && elim r.next_retry_at [ none ↦ false | some t ↦ leb t now ]
    && ltb r.retry_count 3

unfoldable pub get_pending_retries : ℕ → List Row → List Row
unfolding is_pending
get_pending_retries now rows = keep (is_pending now) rows

unfoldable pub set_success : ℕ → Row → Row
set_success now r = record r { resolved_at = some now; last_error = none }

unfoldable pub set_abandoned : ℕ → String → Row → Row
set_abandoned now reason r = record r {
  quarantined_at = some now;
  resolved_at = some now;
  last_error = some (take_chars 500 reason);
  next_retry_at = none;
}

-- `RETRY_BACKOFF[k]`, for an index within the list
abbrev pub backoff : ℕ → ℕ
backoff k = if ltb k 1 then 30 else if ltb k 2 then 300 else 1800

unfoldable pub set_failed : ℕ → String → ℕ → Row → Row
set_failed now error retry_count r =
    let next_retry = retry_count + 1 in
    record r {
      retry_count = next_retry;
      last_error = some (take_chars 500 error);
      next_retry_at = if ltb next_retry 3 then some (now + backoff next_retry) else none;
    }

unfoldable pub mark_retry_success : ℕ → String → State → State
mark_retry_success now i s = record s { rows = update_where i (set_success now) s.rows }

-- The columns that `get_pending_retries` selects, as the entry that is archived.
unfoldable pub selected : Row → Dict String
selected r =
    ("id", r.id)
    ∷ ("event_type", r.event_type)
    ∷ ("original_payload", r.original_payload)
    ∷ ("failure_reason", r.failure_reason)
    ∷ []

unfoldable pub mark_abandoned : Bool → ℕ → Row → String → State → State
mark_abandoned writable now r reason s =
    let line = archive_line (selected r) none r.id reason now now in
    let s' = archive_quarantined writable line s in
    record s' { rows = update_where r.id (set_abandoned now reason) s'.rows }

unfoldable pub mark_retry_failed : ℕ → String → String → ℕ → State → State
mark_retry_failed now i error retry_count s = record s {
  rows = update_where i (set_failed now error retry_count) s.rows;
}

-- `a or b`
abbrev pub or_else : String → String → String
or_else a b = if str_eq a "" then b else a

-- What `_retry_event` makes of the end of the call: success, or an error text.
unfoldable pub read_outcome : Outcome → Bool × String
read_outcome (exited code stderr stdout) =
    if ltb 0 code
    then (false, take_chars 500 (or_else stderr (or_else stdout "non-zero exit")))
    else (true, "")
read_outcome timed_out = (false, "timeout after 10s")
read_outcome not_found = (false, "'nervous' CLI not found in PATH")
read_outcome (crashed e) = (false, take_chars 500 e)

-- The call is the n-th of the daemon, for n calls before it.
unfoldable pub retry_event : World → Row → State → (Bool × String) × State
retry_event w r s =
    let call : String × String = (or_else r.event_type "bus.dead_letter", r.original_payload) in
    (read_outcome (w.reply (length s.published)), record s { published = s.published ++ call ∷ [] })

-- `event_type.strip().upper() == "UNKNOWN"`, on ASCII text
unfoldable pub is_unknown : String → Bool
unfolding strip upper codes_eq
is_unknown t = codes_eq (map upper (strip (codes t))) (codes "UNKNOWN")

unfoldable pub settle : ℕ → Row → (Bool × String) × State → State
settle now r ((true, error), s) = mark_retry_success now r.id s
settle now r ((false, error), s) = mark_retry_failed now r.id error r.retry_count s

-- The body of the loop over the pending entries.
unfoldable pub retry_one : World → Row → State → State
retry_one w r s =
    if is_unknown r.event_type
    then mark_abandoned w.writable (w.clock r) r "unknown_event_type" s
    else if not (w.is_json r.original_payload)
    then mark_abandoned w.writable (w.clock r) r "invalid_payload_json" s
    else settle (w.clock r) r (retry_event w r s)

unfoldable pub retry_all : World → List Row → State → State
retry_all w [] s = s
retry_all w (r ∷ rs) s = retry_all w rs (retry_one w r s)

-- One round of `retry_worker`.
unfoldable pub retry_round : World → State → State
retry_round w s = retry_all w (get_pending_retries w.started s.rows) s

-- The daemon's rounds, each in its own surroundings.
unfoldable pub retry_rounds : List World → State → State
retry_rounds [] s = s
retry_rounds (w ∷ ws) s = retry_rounds ws (retry_round w s)
