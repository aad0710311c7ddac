-- ===== src/Dlq/Rounds.antt =====
-- What a round of `retry_worker` does to the table: each pending row is rewritten once, by how its
-- own call ended, and the table keeps its invariant.
use nervous_bus.Prelude.{
  ℕ, ◌≤◌, ◌<◌, String, ◌≡◌, refl, Bool, true, false, none, some, List, [], ◌∷◌, All, keep, is_some,
  str_eq, eq_iff, eq_refl, length, inl, inr, Bool-cases, arith, if◌then◌else◌, not,
}
use nervous_bus.Dlq.Rows.{
  Row, find_row, update_where, UniqueIds, find_row-update_where_ne, update_where_absent,
  update_where-UniqueIds,
}
use nervous_bus.Dlq.Insert.{State, is_non_retryable, archive_quarantined}
use nervous_bus.Dlq.Retry.{
  World, is_pending, get_pending_retries, set_success, set_abandoned, set_failed, is_unknown,
  mark_retry_success, mark_retry_failed, mark_abandoned, settle, retry_event, retry_one, retry_all,
  retry_round, read_outcome,
}

-- What holds of a row in the table at all times.
pub record IsSound (r : Row) : Type 0 where
  pub terminal : is_some r.quarantined_at ≡ true → is_some r.resolved_at ≡ true
  pub unscheduled : is_some r.quarantined_at ≡ true → is_some r.next_retry_at ≡ false
  pub tries_left : is_some r.next_retry_at ≡ true → r.retry_count < 3
  pub retryable : is_some r.next_retry_at ≡ true → is_non_retryable r.failure_reason ≡ false
  pub tried : r.retry_count ≤ 3

pub record IsValid (s : State) : Type 0 where
  pub unique : UniqueIds s.rows
  pub sound : All IsSound s.rows

-- The change that the end of a call makes to the row.
abbrev pub settled : ℕ → Row → Bool × String → Row → Row
settled now p (ok, error) = if ok then set_success now else set_failed now error p.retry_count

-- The change that the loop makes to a pending row.
unfoldable pub retried : World → Row → State → Row → Row
retried w p s =
    if is_unknown p.event_type
    then set_abandoned (w.clock p) "unknown_event_type"
    else if not (w.is_json p.original_payload)
    then set_abandoned (w.clock p) "invalid_payload_json"
    else settled (w.clock p) p (read_outcome (w.reply (length s.published)))

rows-mark_abandoned :
    (writable : Bool) (now : ℕ) (p : Row) (reason : String) (s : State)
    → (mark_abandoned writable now p reason s).rows
      ≡ update_where p.id (set_abandoned now reason) s.rows
unfolding mark_abandoned archive_quarantined
rows-mark_abandoned true now p reason s = refl
rows-mark_abandoned false now p reason s = refl

rows-settle :
    (now : ℕ) (p : Row) (ok : Bool) (error : String) (s : State)
    → (settle now p ((ok, error), s)).rows ≡ update_where p.id (settled now p (ok, error)) s.rows
unfolding settle mark_retry_success mark_retry_failed
rows-settle now p true error s = refl
rows-settle now p false error s = refl

-- One entry rewrites the row of its id, and no other.
pub rows-retry_one :
    (w : World) (p : Row) (s : State)
    → (retry_one w p s).rows ≡ update_where p.id (retried w p s) s.rows
unfolding retry_one retried retry_event
rows-retry_one w p s = elim (Bool-cases (is_unknown p.event_type)) [
  | inl e ↦ rw e (rows-mark_abandoned w.writable (w.clock p) p "unknown_event_type" s)
  | inr e ↦ elim (Bool-cases (w.is_json p.original_payload)) [
    | inl j ↦ rw (e, j) (rows-settle _ _ _ _ _)
    | inr j ↦ rw (e, j) (rows-mark_abandoned w.writable (w.clock p) p "invalid_payload_json" s)
  ]
]

id-retried : (w : World) (p : Row) (s : State) (r : Row) → (retried w p s r).id ≡ r.id
unfolding retried set_success set_abandoned set_failed
id-retried w p s r = ground arith

-- The pending entries are rows of the table, at most one for each id.
abbrev Tracks : List Row → List Row → Type 0
Tracks rows ps = All (λ p. find_row p.id rows ≡ some p) ps

find_row-of_keep :
    (f : Row → Bool) (i : String) (rs : List Row)
    → find_row i rs ≡ none
    → find_row i (keep f rs) ≡ none
unfolding find_row
find_row-of_keep f i [] h = refl
find_row-of_keep f i (r ∷ rs) h = ground (arith, find_row-of_keep f i rs)

keep-UniqueIds : (f : Row → Bool) (rs : List Row) → UniqueIds rs → UniqueIds (keep f rs)
keep-UniqueIds f [] h = tt
keep-UniqueIds f (r ∷ rs) h =
    ground (arith, keep-UniqueIds f rs h.1, find_row-of_keep f r.id rs h.0)

Tracks-cons :
    (r : Row) (rs ps : List Row) → find_row r.id rs ≡ none → Tracks rs ps → Tracks (r ∷ rs) ps
unfolding find_row
Tracks-cons r rs [] h t = tt
Tracks-cons r rs (p ∷ ps) h t = ground (arith, eq_iff r.id p.id, Tracks-cons r rs ps h t.1)

Tracks-keep : (f : Row → Bool) (rs : List Row) → UniqueIds rs → Tracks rs (keep f rs)
Tracks-keep f [] h = tt
Tracks-keep f (r ∷ rs) h = elim (Bool-cases (f r)) [
  | inl e ↦ rw e (
    unfold find_row in rw (eq_refl r.id) refl,
    Tracks-cons r rs (keep f rs) h.0 (Tracks-keep f rs h.1),
  )
  | inr e ↦ rw e (Tracks-cons r rs (keep f rs) h.0 (Tracks-keep f rs h.1))
]

Tracks-update_where :
    (i : String) (f : Row → Row) (same : (r : Row) → (f r).id ≡ r.id) (rows ps : List Row)
    → find_row i ps ≡ none
    → Tracks rows ps
    → Tracks (update_where i f rows) ps
unfolding find_row
Tracks-update_where i f same rows [] h t = tt
Tracks-update_where i f same rows (p ∷ ps) h t = ground (
  arith,
  eq_iff p.id i,
  eq_iff i p.id,
  find_row-update_where_ne i p.id f same rows,
  Tracks-update_where i f same rows ps,
)

All-update_where :
    (P : Row → Type 0) (i : String) (f : Row → Row) (p : Row) (rows : List Row)
    → UniqueIds rows
    → find_row i rows ≡ some p
    → P (f p)
    → All P rows
    → All P (update_where i f rows)
unfolding find_row update_where
All-update_where P i f p [] u e h a = tt
All-update_where P i f p (r ∷ rows) u e h a = elim (Bool-cases (str_eq r.id i)) [
  | inl same ↦
      let t : r ≡ p = ground arith in
      let absent : find_row i rows ≡ none = ground (arith, eq_iff r.id i) in
      rw (same, update_where_absent i f rows absent) (rw t h, a.1)
  | inr other ↦ rw other (a.0, All-update_where P i f p rows u.1 (ground arith) h a.1)
]

abbrev Pending : ℕ → List Row → Type 0
Pending now ps = All (λ p. is_pending now p ≡ true) ps

Pending-keep : (now : ℕ) (rs : List Row) → Pending now (keep (is_pending now) rs)
Pending-keep now [] = tt
Pending-keep now (r ∷ rs) = ground (arith, Pending-keep now rs)

retried-IsSound :
    (w : World) (p : Row) (s : State)
    → is_pending w.started p ≡ true
    → IsSound p
    → IsSound (retried w p s p)
unfolding retried is_pending set_success set_abandoned set_failed
retried-IsSound w p s h v = ground arith

retry_one-IsValid :
    (w : World) (p : Row) (s : State)
    → is_pending w.started p ≡ true
    → find_row p.id s.rows ≡ some p
    → IsSound p
    → IsValid s
    → IsValid (retry_one w p s)
retry_one-IsValid w p s h e v valid = record {
  unique =
      rw (rows-retry_one w p s)
        (update_where-UniqueIds p.id (retried w p s) (id-retried w p s) s.rows valid.unique);
  sound = rw (rows-retry_one w p s) (
      All-update_where IsSound p.id (retried w p s) p s.rows valid.unique e
        (retried-IsSound w p s h v) valid.sound);
}

find_row-All :
    (P : Row → Type 0) (i : String) (p : Row) (rows : List Row)
    → find_row i rows ≡ some p
    → All P rows
    → P p
unfolding find_row
find_row-All P i p [] e a = ground arith
find_row-All P i p (r ∷ rows) e a = elim (Bool-cases (str_eq r.id i)) [
  | inl same ↦ let t : r ≡ p = ground arith in rw (← t) a.0
  | inr other ↦ find_row-All P i p rows (ground arith) a.1
]

Tracks-retry_one :
    (w : World) (p : Row) (s : State) (ps : List Row)
    → find_row p.id ps ≡ none
    → Tracks s.rows ps
    → Tracks (retry_one w p s).rows ps
Tracks-retry_one w p s ps h t =
    rw (rows-retry_one w p s)
      (Tracks-update_where p.id (retried w p s) (id-retried w p s) s.rows ps h t)

-- An induction over the pending entries, for what one entry keeps.
module _ (P : State → Type 0) (w : World)
    (step : (p : Row) (s : State)
      → is_pending w.started p ≡ true
      → find_row p.id s.rows ≡ some p
      → IsValid s
      → P s
      → P (retry_one w p s)) where
  retry_all_keeps :
      (ps : List Row) (s : State)
      → Pending w.started ps
      → UniqueIds ps
      → Tracks s.rows ps
      → IsValid s
      → P s
      → IsValid (retry_all w ps s) × P (retry_all w ps s)
  unfolding retry_all
  retry_all_keeps [] s d u t v h = (v, h)
  retry_all_keeps (p ∷ ps) s d u t v h =
      retry_all_keeps ps (retry_one w p s) d.1 u.1 (Tracks-retry_one w p s ps u.0 t.1)
        (retry_one-IsValid w p s d.0 t.0 (find_row-All IsSound p.id p s.rows t.0 v.sound) v)
        (step p s d.0 t.0 v h)

  pub retry_round_keeps :
      (s : State) → IsValid s → P s → IsValid (retry_round w s) × P (retry_round w s)
  unfolding retry_round get_pending_retries
  retry_round_keeps s v h =
      retry_all_keeps (keep (is_pending w.started) s.rows) s (Pending-keep w.started s.rows)
        (keep-UniqueIds (is_pending w.started) s.rows v.unique)
        (Tracks-keep (is_pending w.started) s.rows v.unique) v h
