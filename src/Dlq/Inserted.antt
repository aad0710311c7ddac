-- ===== src/Dlq/Inserted.antt =====
-- Persisting a dead letter: its row, the rows of the others, its line in the archive.
use nervous_bus.Prelude.{
  ℕ, ◌+◌, String, ◌≡◌, refl, Bool, true, false, Option, none, some, List, [], ◌∷◌, ◌++◌, All, Dict,
  lookup, insert, lookup-insert, first_some, str_eq, eq_iff, arith, inl, inr, Bool-cases, ◌&&◌,
  ◌||◌, not, ◌∙◌, sym, and_false, if_both, first_some-none, if◌then◌else◌,
}
use nervous_bus.Dlq.Rows.{
  Row, find_row, insert_or_ignore, find_row-insert, insert-UniqueIds, UniqueIds,
}
use nervous_bus.Dlq.Insert.{
  Entry, ArchiveLine, State, Moment, is_non_retryable, get_or_else, update, archive_line,
  archive_quarantined, archive_if_dead, dead_letter_row, insert_dead_letter,
}
use nervous_bus.Dlq.Retry.{selected, mark_abandoned}
use nervous_bus.Dlq.Rounds.{IsSound, IsValid}

-- A dict has each key once.
abbrev pub UniqueKeys : Dict String → Type 0
UniqueKeys [] = Unit
UniqueKeys ((k, v) ∷ d) = (lookup k d ≡ none) × UniqueKeys d

pub lookup-update :
    (k : String) (base over : Dict String)
    → UniqueKeys over
    → lookup k (update base over) ≡ first_some (lookup k over) (lookup k base)
unfolding lookup update
lookup-update k base [] h = refl
lookup-update k base ((j, v) ∷ over) h = elim (Bool-cases (str_eq j k)) [
  | inl e ↦
      ground
        (arith, lookup-update k (insert j v base) over h.1, lookup-insert j k v base, eq_iff j k)
  | inr e ↦ ground (arith, lookup-update k (insert j v base) over h.1, lookup-insert j k v base)
]

All-insert :
    (P : Row → Type 0) (r : Row) (rows : List Row)
    → P r
    → All P rows
    → All P (insert_or_ignore r rows)
unfolding insert_or_ignore
All-insert P r [] h a = (h, tt)
All-insert P r (q ∷ rows) h a = elim (Bool-cases (str_eq q.id r.id)) [
  | inl e ↦ rw e a
  | inr e ↦ rw e (a.0, All-insert P r rows h a.1)
]

rows-archive_if_dead :
    (dead : Option ℕ) (writable : Bool) (line : ArchiveLine) (s : State)
    → (archive_if_dead dead writable line s).rows ≡ s.rows
unfolding archive_if_dead archive_quarantined
rows-archive_if_dead none writable line s = refl
rows-archive_if_dead (some t) true line s = refl
rows-archive_if_dead (some t) false line s = refl

-- The archived line of a dead letter.
abbrev pub letter_line : (Entry → String) → Moment → Entry → ArchiveLine
letter_line dumps m entry =
    let row = dead_letter_row dumps m entry in
    archive_line entry.fields entry.created_at row.id row.failure_reason m.now m.later

module _ (dumps : Entry → String) (m : Moment) (entry : Entry) where
  rows-insert_dead_letter :
      (s : State)
      → (insert_dead_letter dumps m entry s).rows
        ≡ (if m.db_ok then insert_or_ignore (dead_letter_row dumps m entry) s.rows else s.rows)
  unfolding insert_dead_letter
  rows-insert_dead_letter s = rw rows-archive_if_dead

  row-IsSound : IsSound (dead_letter_row dumps m entry)
  unfolding dead_letter_row
  row-IsSound = ground arith

  -- Inserting a dead letter keeps the table valid: one row for each id, and each row sound.
  pub insert_dead_letter-IsValid :
      (s : State) → IsValid s → IsValid (insert_dead_letter dumps m entry s)
  insert_dead_letter-IsValid s v = record {
    unique =
        rw (rows-insert_dead_letter s)
          (if_both UniqueIds m.db_ok (insert-UniqueIds _ s.rows v.unique) v.unique);
    sound =
        rw (rows-insert_dead_letter s)
          (if_both (All IsSound) m.db_ok (All-insert IsSound _ s.rows row-IsSound v.sound) v.sound);
  }

  -- After an insertion the row of each id is the row that was there before. Only the letter's own
  -- id, if it had no row, gets the new one, unless the INSERT fails: a second delivery of a letter
  -- changes no row.
  pub find_row-insert_dead_letter :
      (s : State) (j : String)
      → let row = dead_letter_row dumps m entry in
        find_row j (insert_dead_letter dumps m entry s).rows
        ≡ first_some (find_row j s.rows) (if m.db_ok && str_eq row.id j then some row else none)
  find_row-insert_dead_letter s j = elim (Bool-cases m.db_ok) [
    | inl e ↦ rw (rows-insert_dead_letter s, e) (find_row-insert j _ s.rows)
    | inr e ↦ rw (rows-insert_dead_letter s, e) (sym (first_some-none (find_row j s.rows)))
  ]

  abbrev pub IsDead : Type 0
  IsDead =
      let row = dead_letter_row dumps m entry in
      (is_non_retryable row.failure_reason && not (str_eq row.id "")) ≡ true

  row_when_dead :
      let row = dead_letter_row dumps m entry in
      let dead = is_non_retryable row.failure_reason && not (str_eq row.id "") in
      (row.quarantined_at ≡ (if dead then some m.later else none))
      × (row.resolved_at ≡ (if dead then some m.later else none))
      × (row.next_retry_at ≡ (
          if dead
          then none
          else if is_non_retryable row.failure_reason || str_eq row.id ""
          then none
          else some (m.now + 30)))
  unfolding dead_letter_row
  row_when_dead = (refl, refl, refl)

  -- A letter that can never be delivered, and has an id, gets a row that is terminal and never
  -- scheduled, and its line stands in the archive: all that the letter says, and its id and reason
  -- where it does not say them. This holds while the archive file can be written.
  pub insert_dead_letter-archives :
      (s : State)
      → m.writable ≡ true
      → UniqueKeys entry.fields
      → IsDead
      → let row = dead_letter_row dumps m entry in
        let s' = insert_dead_letter dumps m entry s in
        (s'.archive ≡ s.archive ++ letter_line dumps m entry ∷ [])
        × (row.quarantined_at ≡ some m.later)
        × (row.resolved_at ≡ some m.later)
        × (row.next_retry_at ≡ none)
        × ((k : String)
            → lookup k (letter_line dumps m entry).fields
              ≡ first_some
                  (lookup k entry.fields)
                  (lookup k (("id", row.id) ∷ ("failure_reason", row.failure_reason) ∷ [])))
  unfolding insert_dead_letter archive_if_dead archive_quarantined archive_line
  insert_dead_letter-archives s w u dead =
      let e = row_when_dead.0 ∙ rw dead in
      (
        rw (e, w),
        e,
        row_when_dead.1 ∙ rw dead,
        row_when_dead.2 ∙ rw dead,
        λ k. lookup-update k _ entry.fields u,
      )

get_or_else_missing :
    (k : String) (d : Dict String) (e : String) → lookup k d ≡ none → get_or_else k d e ≡ e
unfolding get_or_else
get_or_else_missing k d e h = rw (h, get_or_else)

id_anonymous :
    (dumps : Entry → String) (m : Moment) (entry : Entry)
    → lookup "id" entry.fields ≡ none
    → lookup "event_id" entry.fields ≡ none
    → (dead_letter_row dumps m entry).id ≡ ""
unfolding dead_letter_row
id_anonymous dumps m entry a b =
    get_or_else_missing "id" entry.fields _ a ∙ get_or_else_missing "event_id" entry.fields "" b

-- A second letter without an id changes no row: the first one has taken the empty key, and the
-- letter is left to the JSONL sink alone.
pub insert_dead_letter_anonymous :
    (dumps : Entry → String) (m : Moment) (entry : Entry) (s : State) (r : Row)
    → lookup "id" entry.fields ≡ none
    → lookup "event_id" entry.fields ≡ none
    → find_row "" s.rows ≡ some r
    → (j : String) → find_row j (insert_dead_letter dumps m entry s).rows ≡ find_row j s.rows
insert_dead_letter_anonymous dumps m entry s r a b e j =
    rw (find_row-insert_dead_letter dumps m entry s j, id_anonymous dumps m entry a b)
      (elim (Bool-cases (str_eq "" j)) [
        | inl o ↦ let same : "" ≡ j = (eq_iff "" j).0 o in rw (← same, e)
        | inr o ↦ rw (o, and_false m.db_ok) (first_some-none (find_row j s.rows))
      ])

-- The reason for which `retry_worker` abandons a row is not what the archive records: the row's own
-- reason comes last in the line, and wins.
pub mark_abandoned-failure_reason :
    (now : ℕ) (r : Row) (reason : String) (s : State)
    → (line : ArchiveLine) × ((mark_abandoned true now r reason s).archive ≡ s.archive ++ line ∷ [])
      × (lookup "failure_reason" line.fields ≡ some r.failure_reason)
unfolding mark_abandoned archive_quarantined archive_line selected update lookup insert
mark_abandoned-failure_reason now r reason s =
    (archive_line (selected r) none r.id reason now now, refl, refl)
