-- ===== src/Dlq/Consumer.antt =====
-- `_merge_fields`, `process_entry` and the two loops over entries of `consumer_group_worker` in
-- adapters/dlq/dlq.py: an entry of the stream is persisted first and acknowledged after.
use nervous_bus.Prelude.{
  String, Bool, true, false, Option, none, some, List, [], ◌∷◌, ◌++◌, Dict, lookup, insert, str_eq,
  if◌then◌else◌,
}
use nervous_bus.Dlq.Insert.{Entry, State, Moment, get_or_else, update, insert_dead_letter}
use nervous_bus.Dlq.Summary.{Tracker, record_letter}

-- An entry of nbus:bus.dead_letter.
pub record StreamEntry : Type 0 where
  pub id : String
  pub fields : Dict String

-- What `json.loads(raw)` and the reads of the envelope give: an exception, an envelope whose `data`
-- cannot be merged, or the envelope's id and data.
pub data Parsed : Type 0 where
  unreadable unmergeable : Parsed
  envelope : Option String → Dict String → Parsed

-- The surroundings of one entry: the clock, the archive and the table, and whether the JSONL sink can
-- be written and XACK succeeds.
pub record Surroundings : Type 0 where
  pub moment : Moment
  pub sink_ok : Bool
  pub ack_ok : Bool

pub record Daemon : Type 0 where
  pub db : State
  pub sink : List Entry
  pub tracker : Tracker
  pub acked : List String

-- `if to not in merged and from in merged: merged[to] = merged[from]`
unfoldable pub fill_from : String → String → Dict String → Dict String
fill_from to from merged = elim (lookup to merged) [
  | some v ↦ merged
  | none ↦ elim (lookup from merged) [ none ↦ merged | some v ↦ insert to v merged ]
]

-- An id that is `None` is left out of the dict.
unfoldable pub merged_id : StreamEntry → Option String → Dict String
merged_id e envelope_id =
    if str_eq (get_or_else "_raw" e.fields "") ""
    then ("id", e.id) ∷ []
    else if str_eq (get_or_else "event_id" e.fields "") ""
    then elim envelope_id [ none ↦ [] | some i ↦ ("id", i) ∷ [] ]
    else ("id", get_or_else "event_id" e.fields "") ∷ []

unfoldable pub merge_with : StreamEntry → Option String → Dict String → Dict String
unfolding fill_from
merge_with e envelope_id letter =
    let base = merged_id e envelope_id ++ ("source", get_or_else "source" e.fields "") ∷ [] in
    fill_from "original_type" "channel" (fill_from "failure_reason" "reason" (update base letter))

module _ (dumps : Entry → String) (loads : String → Parsed) (env : StreamEntry → Surroundings) where
  unfoldable pub merge_fields : StreamEntry → Option (Dict String)
  merge_fields e = elim (loads (get_or_else "_raw" e.fields "")) [
    | unreadable ↦ some (merge_with e none e.fields)
    | unmergeable ↦ none
    | envelope i letter ↦ some (merge_with e i letter)
  ]

  -- `merged.setdefault("created_at", time.time())`
  unfoldable pub stamped : StreamEntry → Dict String → Entry
  stamped e merged = record { fields = merged; created_at = some (env e).moment.now }

  unfoldable pub persist : StreamEntry → Entry → Daemon → Bool × Daemon
  persist e letter d =
      let db = insert_dead_letter dumps (env e).moment letter d.db in
      if (env e).sink_ok
      then (
        true,
        record d {
          db = db;
          sink = d.sink ++ letter ∷ [];
          tracker =
              record_letter (get_or_else "original_type" letter.fields "unknown")
                (get_or_else "failure_reason" letter.fields "unknown") d.tracker;
        },
      )
      else (false, record d { db = db })

  unfoldable pub process_merged : StreamEntry → Option (Dict String) → Daemon → Bool × Daemon
  process_merged e none d = (false, d)
  process_merged e (some merged) d = persist e (stamped e merged) d

  -- `process_entry`: false where it raises.
  unfoldable pub process_entry : StreamEntry → Daemon → Bool × Daemon
  process_entry e d = process_merged e (merge_fields e) d

  -- `r.xack(DLQ_STREAM, group, entry_id)`, after a call that did not raise: false where this or that
  -- raises.
  unfoldable pub ack_if : StreamEntry → Bool × Daemon → Bool × Daemon
  ack_if e (true, d) =
      if (env e).ack_ok then (true, record d { acked = d.acked ++ e.id ∷ [] }) else (false, d)
  ack_if e (false, d) = (false, d)

  -- The loop over the entries that were read: an exception leaves its entry pending.
  unfoldable pub drain : List StreamEntry → Daemon → Daemon
  drain [] d = d
  drain (e ∷ es) d = drain es (ack_if e (process_entry e d)).1

  -- The loop over the entries that were reclaimed: an exception ends the sweep.
  unfoldable pub reclaim : List StreamEntry → Daemon → Daemon
  reclaim [] d = d
  reclaim (e ∷ es) d =
      let (done, d') = ack_if e (process_entry e d) in
      let rest = reclaim es d' in if done then rest else d'

  unfoldable pub outcome_of : StreamEntry → Option (Dict String) → Option Entry
  outcome_of e none = none
  outcome_of e (some merged) = if (env e).sink_ok then some (stamped e merged) else none

  -- The letter of an entry whose processing does not raise.
  unfoldable pub outcome : StreamEntry → Option Entry
  outcome e = outcome_of e (merge_fields e)
