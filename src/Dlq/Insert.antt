-- ===== src/Dlq/Insert.antt =====
-- `archive_quarantined`, `insert_dead_letter` and `_merge_fields` of adapters/dlq/dlq.py: how a
-- dead letter gets its row, and how one that can never be delivered is archived first.
use nervous_bus.Prelude.{
  ℕ, ◌+◌, String, Bool, Option, none, some, List, [], ◌∷◌, ◌++◌, ◌&&◌, ◌||◌, not, Dict, lookup,
  insert, str_eq, one_of, or_default, if◌then◌else◌,
}
use nervous_bus.Dlq.Rows.{Row, insert_or_ignore}

-- A dead letter as `process_entry` hands it on. The values of its keys are texts; the time of
-- `setdefault("created_at", …)` is a field of its own.
pub record Entry : Type 0 where
  pub fields : Dict String
  pub created_at : Option ℕ

-- One line of the quarantine archive.
pub record ArchiveLine : Type 0 where
  pub fields : Dict String
  pub created_at : ℕ
  pub quarantined_at : ℕ

-- The database, the archive file, and the calls of `nervous publish`.
pub record State : Type 0 where
  pub rows : List Row
  pub archive : List ArchiveLine
  pub published : List (String × String)

-- What a call reads from its surroundings: the clock, twice, and whether the archive can be
-- written.
pub record Moment : Type 0 where
  pub now : ℕ
  pub later : ℕ
  pub writable : Bool
  pub db_ok : Bool

abbrev pub retry_backoff : List ℕ
retry_backoff = 30 ∷ 300 ∷ 1800 ∷ []

abbrev pub non_retryable_reasons : List String
non_retryable_reasons =
    "schema_violation" ∷ "malformed_json" ∷ "missing_type" ∷ "missing_required_field" ∷ []

unfoldable pub is_non_retryable : String → Bool
unfolding one_of
is_non_retryable reason = one_of reason non_retryable_reasons

-- `d.get(k) or e`
unfoldable pub get_or_else : String → Dict String → String → String
unfolding lookup
get_or_else k d e = elim (lookup k d) [ none ↦ e | some v ↦ if str_eq v "" then e else v ]

-- `{**base, **over}`
unfoldable pub update : Dict String → Dict String → Dict String
unfolding insert
update base [] = base
update base ((k, v) ∷ over) = update (insert k v base) over

-- The keys of the entry come last, so they win over the header of the line.
unfoldable pub archive_line : Dict String → Option ℕ → String → String → ℕ → ℕ → ArchiveLine
unfolding update
archive_line entry stamp event_id reason created_at quarantined_at = record {
  fields = update (("id", event_id) ∷ ("failure_reason", reason) ∷ []) entry;
  created_at = or_default stamp created_at;
  quarantined_at = quarantined_at;
}

-- A write that fails is logged and otherwise ignored.
unfoldable pub archive_quarantined : Bool → ArchiveLine → State → State
archive_quarantined writable line s =
    if writable then record s { archive = s.archive ++ line ∷ [] } else s

unfoldable pub archive_if_dead : Option ℕ → Bool → ArchiveLine → State → State
archive_if_dead none writable line s = s
archive_if_dead (some t) writable line s = archive_quarantined writable line s

module _ (dumps : Entry → String) where
  -- The row that `insert_dead_letter` builds.
  unfoldable pub dead_letter_row : Moment → Entry → Row
  unfolding get_or_else is_non_retryable
  dead_letter_row m entry =
      let event_id = get_or_else "id" entry.fields (get_or_else "event_id" entry.fields "") in
      let reason = get_or_else "failure_reason" entry.fields "unknown" in
      let dead = is_non_retryable reason && not (str_eq event_id "") in
      record {
        id = event_id;
        event_type =
            get_or_else "original_type" entry.fields
              (get_or_else "event_type" entry.fields "unknown");
        source = get_or_else "source" entry.fields "";
        failure_reason = reason;
        violation_detail = get_or_else "schema_violation_detail" entry.fields "";
        original_payload = get_or_else "original_payload_excerpt" entry.fields (dumps entry);
        retry_count = 0;
        last_error = none;
        created_at = m.now;
        next_retry_at =
            if dead
            then none
            else if is_non_retryable reason || str_eq event_id ""
            then none
            else some (m.now + 30);
        resolved_at = if dead then some m.later else none;
        quarantined_at = if dead then some m.later else none;
      }

  -- The archive is written before the row is. An INSERT that fails is logged and otherwise ignored.
  unfoldable pub insert_dead_letter : Moment → Entry → State → State
  insert_dead_letter m entry s =
      let row = dead_letter_row m entry in
      let line =
        archive_line entry.fields entry.created_at row.id row.failure_reason m.now m.later in
      let s' = archive_if_dead row.quarantined_at m.writable line s in
      record s' { rows = if m.db_ok then insert_or_ignore row s'.rows else s'.rows }
