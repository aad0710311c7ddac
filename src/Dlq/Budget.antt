-- ===== src/Dlq/Budget.antt =====
-- How often `retry_worker` calls `nervous publish`, and with what.
use nervous_bus.Prelude.{
  ℕ, ◌+◌, ◌-◌, ◌*◌, ◌≤◌, String, ◌≡◌, refl, Bool, true, false, none, some, List, [], ◌∷◌, ◌++◌, All,
  is_some, str_eq, eq_iff, length, length-append, inl, inr, Bool-cases, arith, if◌then◌else◌,
}
use native.Mathlib.Nat.{le_refl}
use nervous_bus.Dlq.Rows.{Row, find_row, update_where, UniqueIds, update_where_absent}
use nervous_bus.Dlq.Insert.{State, archive_quarantined}
use nervous_bus.Dlq.Retry.{
  World, or_else, is_pending, set_success, set_abandoned, set_failed, is_unknown,
  mark_retry_success, mark_retry_failed, mark_abandoned, settle, retry_event, retry_one,
  retry_round, retry_rounds,
}
use nervous_bus.Dlq.Rounds.{IsValid, retried, rows-retry_one, retry_round_keeps}

-- The calls that a row can still cause: none once it is resolved.
pub cost : Row → ℕ
cost r = if is_some r.resolved_at then 0 else 3 - r.retry_count

pub budget : List Row → ℕ
budget [] = 0
budget (r ∷ rs) = cost r + budget rs

budget-update_where :
    (i : String) (f : Row → Row) (p : Row) (rows : List Row)
    → UniqueIds rows
    → find_row i rows ≡ some p
    → budget (update_where i f rows) + cost p ≡ budget rows + cost (f p)
unfolding budget find_row update_where
budget-update_where i f p [] u e = ground arith
budget-update_where i f p (r ∷ rows) u e = elim (Bool-cases (str_eq r.id i)) [
  | inl same ↦
      let t : r ≡ p = ground arith in
      let absent : find_row i rows ≡ none = ground (arith, eq_iff r.id i) in
      rw (same, update_where_absent i f rows absent) (rw t (omega arith))
  | inr other ↦ rw other (omega (arith, budget-update_where i f p rows u.1 (ground arith)))
]

-- The calls that one entry makes.
calls : World → Row → ℕ
calls w p = if is_unknown p.event_type then 0 else if w.is_json p.original_payload then 1 else 0

published-mark_abandoned :
    (writable : Bool) (now : ℕ) (p : Row) (reason : String) (s : State)
    → (mark_abandoned writable now p reason s).published ≡ s.published
unfolding mark_abandoned archive_quarantined
published-mark_abandoned true now p reason s = refl
published-mark_abandoned false now p reason s = refl

published-settle :
    (now : ℕ) (p : Row) (ok : Bool) (error : String) (s : State)
    → (settle now p ((ok, error), s)).published ≡ s.published
unfolding settle mark_retry_success mark_retry_failed
published-settle now p true error s = refl
published-settle now p false error s = refl

-- One entry calls the CLI once with its type and payload, or is abandoned without a call.
published-retry_one :
    (w : World) (p : Row) (s : State)
    → (retry_one w p s).published ≡ (
        if is_unknown p.event_type
        then s.published
        else if w.is_json p.original_payload
        then s.published ++ (or_else p.event_type "bus.dead_letter", p.original_payload) ∷ []
        else s.published)
unfolding retry_one retry_event
published-retry_one w p s = elim (Bool-cases (is_unknown p.event_type)) [
  | inl e ↦ rw e (published-mark_abandoned _ _ _ _ _)
  | inr e ↦ elim (Bool-cases (w.is_json p.original_payload)) [
    | inl j ↦ rw (e, j) (published-settle _ _ _ _ _)
    | inr j ↦ rw (e, j) (published-mark_abandoned _ _ _ _ _)
  ]
]

length-published-retry_one :
    (w : World) (p : Row) (s : State)
    → length (retry_one w p s).published ≡ length s.published + calls w p
unfolding calls
length-published-retry_one w p s = rw (published-retry_one w p s) (
    ground (
      arith,
      length-append s.published ((or_else p.event_type "bus.dead_letter", p.original_payload) ∷ []),
    ))

-- A call costs its row one of its tries.
cost-retried :
    (w : World) (p : Row) (s : State)
    → is_pending w.started p ≡ true
    → calls w p + cost (retried w p s p) ≤ cost p
unfolding cost calls retried is_pending set_success set_abandoned set_failed
cost-retried w p s h = ground arith

abbrev Spent : ℕ → State → Type 0
Spent n s = length s.published + budget s.rows ≤ n

retry_one-Spent :
    (n : ℕ) (w : World) (p : Row) (s : State)
    → is_pending w.started p ≡ true
    → find_row p.id s.rows ≡ some p
    → IsValid s
    → Spent n s
    → Spent n (retry_one w p s)
retry_one-Spent n w p s h e v b = rw (rows-retry_one w p s) (
    omega (
      arith,
      length-published-retry_one w p s,
      cost-retried w p s h,
      budget-update_where p.id (retried w p s) p s.rows v.unique e,
    ))

pub retry_rounds-Spent :
    (n : ℕ) (ws : List World) (s : State)
    → IsValid s
    → Spent n s
    → IsValid (retry_rounds ws s) × Spent n (retry_rounds ws s)
unfolding retry_rounds
retry_rounds-Spent n [] s v b = (v, b)
retry_rounds-Spent n (w ∷ ws) s v b =
    let (v', b') = retry_round_keeps (Spent n) w (retry_one-Spent n w) s v b in
    retry_rounds-Spent n ws (retry_round w s) v' b'

budget-le : (rows : List Row) → budget rows ≤ 3 * length rows
unfolding budget cost
budget-le [] = omega arith
budget-le (r ∷ rows) = ground (arith, budget-le rows)

-- However many rounds the retry worker makes and however the calls end, it keeps the table valid,
-- and it calls the publishing CLI at most three times for each row.
pub length-retry_rounds :
    (ws : List World) (s : State)
    → IsValid s
    → IsValid (retry_rounds ws s)
      × (length (retry_rounds ws s).published ≤ length s.published + 3 * length s.rows)
length-retry_rounds ws s v =
    let r = retry_rounds-Spent (length s.published + budget s.rows) ws s v (le_refl _) in
    (r.0, omega (arith, r.1, budget-le s.rows))

-- What may be republished: the payload is JSON, and the type is not UNKNOWN.
pub record IsDeliverable (w : World) (call : String × String) : Type 0 where
  pub json : w.is_json call.1 ≡ true
  pub known : is_unknown call.0 ≡ false

All-append :
    (P : String × String → Type 0) (xs ys : List (String × String))
    → All P xs
    → All P ys
    → All P (xs ++ ys)
All-append P [] ys h k = k
All-append P (x ∷ xs) ys h k = (h.0, All-append P xs ys h.1 k)

known-or_else :
    (t : String) → is_unknown t ≡ false → is_unknown (or_else t "bus.dead_letter") ≡ false
known-or_else t h = elim (Bool-cases (str_eq t "")) [
  | inl e ↦ rw e (unfold is_unknown in refl)
  | inr e ↦ rw e h
]

retry_one-IsDeliverable :
    (w : World) (p : Row) (s : State)
    → All (IsDeliverable w) s.published
    → All (IsDeliverable w) (retry_one w p s).published
retry_one-IsDeliverable w p s h =
    rw (published-retry_one w p s) (elim (Bool-cases (is_unknown p.event_type)) [
      | inl e ↦ rw e h
      | inr e ↦ elim (Bool-cases (w.is_json p.original_payload)) [
        | inl j ↦
            rw (e, j)
              (All-append (IsDeliverable w) _ _ h
                (record { json = j; known = known-or_else p.event_type e }, tt))
        | inr j ↦ rw (e, j) h
      ]
    ])

-- A round of the retry worker republishes no payload that is not JSON and no type that is UNKNOWN.
pub retry_round-IsDeliverable :
    (w : World) (s : State)
    → IsValid s
    → All (IsDeliverable w) s.published
    → All (IsDeliverable w) (retry_round w s).published
retry_round-IsDeliverable w s v h =
    (retry_round_keeps (λ t. All (IsDeliverable w) t.published) w
      (λ p t _ _ _. retry_one-IsDeliverable w p t) s v h).1
