-- ===== src/Dlq/Counts.antt =====
-- `get_counts` and `get_unresolved` of adapters/dlq/dlq.py, and the limit of `GET /dlq`.
use nervous_bus.Prelude.{
  ℕ, ◌+◌, ◌≤◌, ◌≡◌, true, Option, none, some, List, [], ◌∷◌, ◌&&◌, All, keep, count, length, take,
  is_some, is_none, ltb, arith, Bool-cases, inl, inr, if◌then◌else◌,
}
use nervous_bus.Dlq.Rows.{Row}
use nervous_bus.Dlq.Rounds.{IsSound}

pub record Counts : Type 0 where
  pub total : ℕ
  pub quarantined_total : ℕ
  pub retried_ok_total : ℕ
  pub pending_total : ℕ

unfoldable pub get_counts : List Row → Counts
get_counts rows = record {
  total = length rows;
  quarantined_total = count (λ r. is_some r.quarantined_at) rows;
  retried_ok_total = count (λ r. is_some r.resolved_at && is_none r.quarantined_at) rows;
  pending_total = count (λ r. is_none r.resolved_at) rows;
}

-- ORDER BY created_at DESC
unfoldable pub insert_newest : Row → List Row → List Row
insert_newest r [] = r ∷ []
insert_newest r (q ∷ rs) =
    if ltb r.created_at q.created_at then q ∷ insert_newest r rs else r ∷ q ∷ rs

unfoldable pub newest_first : List Row → List Row
newest_first [] = []
newest_first (r ∷ rs) = insert_newest r (newest_first rs)

unfoldable pub get_unresolved : ℕ → List Row → List Row
get_unresolved limit rows = take limit (newest_first (keep (λ r. is_none r.resolved_at) rows))

-- The limit of `do_GET`: `none` where the parameter is no number.
unfoldable pub http_limit : Option ℕ → ℕ
http_limit none = 50
http_limit (some n) = if ltb n 1 then 1 else if ltb 500 n then 500 else n

-- In a table of sound rows the three terminal counters add up to the total.
pub get_counts_total :
    (rows : List Row)
    → All IsSound rows
    → let c = get_counts rows in
      c.quarantined_total + c.retried_ok_total + c.pending_total ≡ c.total
unfolding get_counts
get_counts_total [] h = omega arith
get_counts_total (r ∷ rows) h = ground (arith, get_counts_total rows h.1, h.0.terminal)

abbrev pub IsNewestFirst : List Row → Type 0
IsNewestFirst [] = Unit
IsNewestFirst (r ∷ rs) = All (λ q. q.created_at ≤ r.created_at) rs × IsNewestFirst rs

All-insert_newest :
    (P : Row → Type 0) (r : Row) (rs : List Row) → P r → All P rs → All P (insert_newest r rs)
unfolding insert_newest
All-insert_newest P r [] h a = (h, tt)
All-insert_newest P r (q ∷ rs) h a = elim (Bool-cases (ltb r.created_at q.created_at)) [
  | inl e ↦ rw e (a.0, All-insert_newest P r rs h a.1)
  | inr e ↦ rw e (h, a)
]

All-newest_first : (P : Row → Type 0) (rs : List Row) → All P rs → All P (newest_first rs)
unfolding newest_first
All-newest_first P [] a = tt
All-newest_first P (r ∷ rs) a =
    All-insert_newest P r (newest_first rs) a.0 (All-newest_first P rs a.1)

All-take : (P : Row → Type 0) (n : ℕ) (rs : List Row) → All P rs → All P (take n rs)
All-take P ℕ.zero rs a = tt
All-take P (ℕ.suc n) [] a = tt
All-take P (ℕ.suc n) (r ∷ rs) a = (a.0, All-take P n rs a.1)

All-le_trans :
    (a b : ℕ) (rs : List Row)
    → a ≤ b
    → All (λ q. q.created_at ≤ a) rs
    → All (λ q. q.created_at ≤ b) rs
All-le_trans a b [] h k = tt
All-le_trans a b (r ∷ rs) h k = (omega (arith, k.0), All-le_trans a b rs h k.1)

insert_newest-IsNewestFirst :
    (r : Row) (rs : List Row) → IsNewestFirst rs → IsNewestFirst (insert_newest r rs)
unfolding insert_newest
insert_newest-IsNewestFirst r [] h = (tt, tt)
insert_newest-IsNewestFirst r (q ∷ rs) h = elim (Bool-cases (ltb r.created_at q.created_at)) [
  | inl e ↦ rw e (
    All-insert_newest (λ p. p.created_at ≤ q.created_at) r rs (ground arith) h.0,
    insert_newest-IsNewestFirst r rs h.1,
  )
  | inr e ↦
      let le : q.created_at ≤ r.created_at = ground arith in
      rw e ((le, All-le_trans q.created_at r.created_at rs le h.0), h)
]

newest_first-IsNewestFirst : (rs : List Row) → IsNewestFirst (newest_first rs)
unfolding newest_first
newest_first-IsNewestFirst [] = tt
newest_first-IsNewestFirst (r ∷ rs) =
    insert_newest-IsNewestFirst r (newest_first rs) (newest_first-IsNewestFirst rs)

take-IsNewestFirst : (n : ℕ) (rs : List Row) → IsNewestFirst rs → IsNewestFirst (take n rs)
take-IsNewestFirst ℕ.zero rs h = tt
take-IsNewestFirst (ℕ.suc n) [] h = tt
take-IsNewestFirst (ℕ.suc n) (r ∷ rs) h =
    (All-take (λ q. q.created_at ≤ r.created_at) n rs h.0, take-IsNewestFirst n rs h.1)

abbrev pub IsOpen : Row → Type 0
IsOpen r = is_none r.resolved_at ≡ true

All-keep-IsOpen : (rs : List Row) → All IsOpen (keep (λ r. is_none r.resolved_at) rs)
All-keep-IsOpen [] = tt
All-keep-IsOpen (r ∷ rs) = elim (Bool-cases (is_none r.resolved_at)) [
  | inl e ↦ rw e (e, All-keep-IsOpen rs)
  | inr e ↦ rw e (All-keep-IsOpen rs)
]

length-take-le : (n : ℕ) (rs : List Row) → length (take n rs) ≤ n
length-take-le ℕ.zero rs = omega arith
length-take-le (ℕ.suc n) [] = omega arith
length-take-le (ℕ.suc n) (r ∷ rs) = omega (arith, length-take-le n rs)

http_limit-le : (asked : Option ℕ) → http_limit asked ≤ 500
unfolding http_limit
http_limit-le asked = ground arith

-- `GET /dlq` returns unresolved rows alone, newest first, and at most 500 of them,
-- whatever limit is asked for.
pub get_unresolved_lem :
    (asked : Option ℕ) (rows : List Row)
    → let found = get_unresolved (http_limit asked) rows in
      (length found ≤ 500) × All IsOpen found × IsNewestFirst found
unfolding get_unresolved http_limit
get_unresolved_lem asked rows =
    let found = newest_first (keep (λ r. is_none r.resolved_at) rows) in
    (
      omega (arith, length-take-le (http_limit asked) found, http_limit-le asked),
      All-take IsOpen (http_limit asked) _ (All-newest_first IsOpen _ (All-keep-IsOpen rows)),
      take-IsNewestFirst (http_limit asked) _ (newest_first-IsNewestFirst _),
    )
