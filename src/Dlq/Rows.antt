-- ===== src/Dlq/Rows.antt =====
-- The table `dead_letters` of adapters/dlq/dlq.py, and the SQL statements that its functions run:
-- INSERT OR IGNORE on the primary key, UPDATE … WHERE id=?, and a SELECT by a test.
use nervous_bus.Prelude.{
  ℕ, String, ◌≡◌, refl, Bool, Option, none, some, List, [], ◌∷◌, str_eq, eq_iff, first_some, arith,
  if◌then◌else◌,
}

-- Times are in seconds; NULL is `none`.
pub record Row : Type 0 where
  pub id : String
  pub event_type : String
  pub source : String
  pub failure_reason : String
  pub violation_detail : String
  pub original_payload : String
  pub retry_count : ℕ
  pub last_error : Option String
  pub created_at : ℕ
  pub next_retry_at : Option ℕ
  pub resolved_at : Option ℕ
  pub quarantined_at : Option ℕ

-- SELECT … WHERE id=?
unfoldable pub find_row : String → List Row → Option Row
find_row i [] = none
find_row i (r ∷ rs) = if str_eq r.id i then some r else find_row i rs

-- INSERT OR IGNORE
unfoldable pub insert_or_ignore : Row → List Row → List Row
insert_or_ignore r [] = r ∷ []
insert_or_ignore r (q ∷ rs) = if str_eq q.id r.id then q ∷ rs else q ∷ insert_or_ignore r rs

-- UPDATE … WHERE id=?
unfoldable pub update_where : String → (Row → Row) → List Row → List Row
update_where i f [] = []
update_where i f (r ∷ rs) = (if str_eq r.id i then f r else r) ∷ update_where i f rs

-- PRIMARY KEY
abbrev pub UniqueIds : List Row → Type 0
UniqueIds [] = Unit
UniqueIds (r ∷ rs) = (find_row r.id rs ≡ none) × UniqueIds rs

module _ (i j : String) (f : Row → Row) (same : (r : Row) → (f r).id ≡ r.id) where
  pub find_row-update_where_ne :
      (rs : List Row) → str_eq i j ≡ Bool.false → find_row j (update_where i f rs) ≡ find_row j rs
  unfolding find_row update_where
  find_row-update_where_ne [] h = refl
  find_row-update_where_ne (r ∷ rs) h = ground (
    arith,
    find_row-update_where_ne rs h,
    same r,
    eq_iff r.id i,
    eq_iff r.id j,
    eq_iff i j,
    eq_iff (f r).id j,
  )

  pub find_row-update_where-none :
      (rs : List Row) → find_row j rs ≡ none → find_row j (update_where i f rs) ≡ none
  unfolding find_row update_where
  find_row-update_where-none [] h = refl
  find_row-update_where-none (r ∷ rs) h = ground (
    arith,
    find_row-update_where-none rs,
    same r,
    eq_iff r.id i,
    eq_iff r.id j,
    eq_iff (f r).id j,
  )

pub update_where_absent :
    (i : String) (f : Row → Row) (rs : List Row) → find_row i rs ≡ none → update_where i f rs ≡ rs
unfolding find_row update_where
update_where_absent i f [] h = refl
update_where_absent i f (r ∷ rs) h = ground (arith, update_where_absent i f rs)

pub update_where-UniqueIds :
    (i : String) (f : Row → Row) (same : (r : Row) → (f r).id ≡ r.id) (rs : List Row)
    → UniqueIds rs
    → UniqueIds (update_where i f rs)
unfolding update_where
update_where-UniqueIds i f same [] h = tt
update_where-UniqueIds i f same (r ∷ rs) h = ground (
  arith,
  update_where-UniqueIds i f same rs h.1,
  find_row-update_where-none i r.id f same rs h.0,
  same r,
)

-- A row that is there is kept, whatever is inserted.
pub find_row-insert :
    (j : String) (r : Row) (rs : List Row)
    → find_row j (insert_or_ignore r rs)
      ≡ first_some (find_row j rs) (if str_eq r.id j then some r else none)
unfolding find_row insert_or_ignore
find_row-insert j r [] = refl
find_row-insert j r (q ∷ rs) =
    ground (arith, find_row-insert j r rs, eq_iff q.id r.id, eq_iff q.id j, eq_iff r.id j)

pub insert-UniqueIds : (r : Row) (rs : List Row) → UniqueIds rs → UniqueIds (insert_or_ignore r rs)
unfolding insert_or_ignore find_row
insert-UniqueIds r [] h = (refl, tt)
insert-UniqueIds r (q ∷ rs) h = ground (
  arith,
  insert-UniqueIds r rs h.1,
  find_row-insert q.id r rs,
  eq_iff q.id r.id,
  eq_iff r.id q.id,
)
