-- ===== src/Dlq/Delivery.antt =====
-- At-least-once delivery of dead letters: what is acknowledged is in the sink and has its row.
use nervous_bus.Prelude.{
  String, ◌≡◌, refl, sym, Bool, true, false, ◌&&◌, Option, none, some, List, [], ◌∷◌, ◌++◌, All,
  Dict, is_some, first_some, str_eq, eq_refl, arith, Bool-cases, inl, inr, if◌then◌else◌,
}
use mathlib.Core.List.{append_assoc, append-nil}
use nervous_bus.Dlq.Rows.{Row, find_row}
use nervous_bus.Dlq.Insert.{Entry, dead_letter_row}
use nervous_bus.Dlq.Inserted.{find_row-insert_dead_letter}
use nervous_bus.Dlq.Consumer.{
  StreamEntry, Parsed, Surroundings, Daemon, merge_fields, stamped, persist, process_merged,
  process_entry, ack_if, drain, outcome_of, outcome,
}

module _ (dumps : Entry → String) (loads : String → Parsed) (env : StreamEntry → Surroundings) where
  -- The id of an entry with a letter is acknowledged if XACK succeeds.
  abbrev pub acks : StreamEntry → Option Entry → List String
  acks e none = []
  acks e (some l) = if (env e).ack_ok then e.id ∷ [] else []

  abbrev pub letters_of : Option Entry → List Entry
  letters_of none = []
  letters_of (some l) = l ∷ []

  -- The ids of the entries that are acknowledged, of those whose processing does not raise.
  unfoldable pub acked_of : List StreamEntry → List String
  acked_of [] = []
  acked_of (e ∷ es) = acks e (outcome dumps loads env e) ++ acked_of es

  -- The letters of the entries whose processing does not raise.
  unfoldable pub sunk : List StreamEntry → List Entry
  sunk [] = []
  sunk (e ∷ es) = letters_of (outcome dumps loads env e) ++ sunk es

  abbrev step : StreamEntry → Daemon → Daemon
  step e d = (ack_if dumps loads env e (process_entry dumps loads env e d)).1

  abbrev pub Sinks : List String → List Entry → Daemon → Daemon → Type 0
  Sinks ids letters d d' = (d'.acked ≡ d.acked ++ ids) × (d'.sink ≡ d.sink ++ letters)

  merged-Sinks :
      (e : StreamEntry) (o : Option (Dict String)) (d : Daemon)
      → Sinks
          (acks e (outcome_of dumps loads env e o))
          (letters_of (outcome_of dumps loads env e o))
          d
          (ack_if dumps loads env e (process_merged dumps loads env e o d)).1
  unfolding outcome_of process_merged persist ack_if
  merged-Sinks e none d = (sym (append-nil d.acked), sym (append-nil d.sink))
  merged-Sinks e (some m) d = elim (Bool-cases (env e).sink_ok) [
    | inl k ↦ elim (Bool-cases (env e).ack_ok) [
      | inl a ↦ rw (k, a) (refl, refl)
      | inr a ↦ rw (k, a) (sym (append-nil d.acked), refl)
    ]
    | inr k ↦ rw k (sym (append-nil d.acked), sym (append-nil d.sink))
  ]

  step-Sinks :
      (e : StreamEntry) (d : Daemon)
      → Sinks
          (acks e (outcome dumps loads env e))
          (letters_of (outcome dumps loads env e))
          d
          (step e d)
  unfolding outcome process_entry
  step-Sinks e d = merged-Sinks e (merge_fields dumps loads env e) d

  Sinks-trans :
      (i j : List String) (k l : List Entry) (a b c : Daemon)
      → Sinks i k a b
      → Sinks j l b c
      → Sinks (i ++ j) (k ++ l) a c
  Sinks-trans i j k l a b c p q = (simp (q.0, p.0, append_assoc), simp (q.1, p.1, append_assoc))

  drain-Sinks :
      (es : List StreamEntry) (d : Daemon)
      → Sinks (acked_of es) (sunk es) d (drain dumps loads env es d)
  unfolding sunk acked_of drain
  drain-Sinks [] d = (sym (append-nil d.acked), sym (append-nil d.sink))
  drain-Sinks (e ∷ es) d =
      let o = outcome dumps loads env e in
      Sinks-trans (acks e o) (acked_of es) (letters_of o) (sunk es) d (step e d)
        (drain dumps loads env es (step e d)) (step-Sinks e d) (drain-Sinks es (step e d))

  -- A row that is there stays there.
  abbrev HasId : String → Daemon → Type 0
  HasId i d = is_some (find_row i d.db.rows) ≡ true

  is_some-first_some :
      (i : String) (a b : Option Row) → is_some a ≡ true → is_some (first_some a b) ≡ true
  is_some-first_some i a b h = ground arith

  merged-HasId :
      (i : String) (e : StreamEntry) (o : Option (Dict String)) (d : Daemon)
      → HasId i d
      → HasId i (ack_if dumps loads env e (process_merged dumps loads env e o d)).1
  unfolding process_merged persist ack_if
  merged-HasId i e none d h = h
  merged-HasId i e (some m) d h = elim (Bool-cases (env e).sink_ok) [
    | inl k ↦ elim (Bool-cases (env e).ack_ok) [
      | inl a ↦ rw (k, a, find_row-insert_dead_letter dumps) (is_some-first_some i _ _ h)
      | inr a ↦ rw (k, a, find_row-insert_dead_letter dumps) (is_some-first_some i _ _ h)
    ]
    | inr k ↦ rw (k, find_row-insert_dead_letter dumps) (is_some-first_some i _ _ h)
  ]

  drain-HasId :
      (i : String) (es : List StreamEntry) (d : Daemon)
      → HasId i d
      → HasId i (drain dumps loads env es d)
  unfolding drain process_entry
  drain-HasId i [] d h = h
  drain-HasId i (e ∷ es) d h =
      drain-HasId i es (step e d) (merged-HasId i e (merge_fields dumps loads env e) d h)

  -- The letter of an entry that was processed has a row, if its INSERT did not fail.
  abbrev pub HasRowIf : Bool → String → Daemon → Type 0
  HasRowIf true i d = HasId i d
  HasRowIf false i d = Unit

  abbrev pub HasRowOf : Daemon → StreamEntry → Option Entry → Type 0
  HasRowOf d e none = Unit
  HasRowOf d e (some l) =
      HasRowIf (env e).moment.db_ok (dead_letter_row dumps (env e).moment l).id d

  abbrev pub HasRow : Daemon → StreamEntry → Type 0
  HasRow d e = HasRowOf d e (outcome dumps loads env e)

  HasRowIf-true : (b : Bool) (i : String) (d : Daemon) → (b ≡ true → HasId i d) → HasRowIf b i d
  HasRowIf-true true i d h = h refl
  HasRowIf-true false i d h = tt

  row_of :
      (d : Daemon) (e : StreamEntry) (o : Option Entry)
      → ((l : Entry)
          → o ≡ some l
          → (env e).moment.db_ok ≡ true
          → HasId (dead_letter_row dumps (env e).moment l).id d)
      → HasRowOf d e o
  row_of d e none h = tt
  row_of d e (some l) h = HasRowIf-true (env e).moment.db_ok _ d (h l refl)

  first_some_new :
      (i : String) (a : Option Row) (r : Row) (b : Bool)
      → b ≡ true
      → is_some (first_some a (if b && str_eq i i then some r else none)) ≡ true
  first_some_new i a r b h = rw (h, eq_refl i) (ground arith)

  merged-HasRow :
      (e : StreamEntry) (o : Option (Dict String)) (d : Daemon) (l : Entry)
      → outcome_of dumps loads env e o ≡ some l
      → (env e).moment.db_ok ≡ true
      → HasId
          (dead_letter_row dumps (env e).moment l).id
          (ack_if dumps loads env e (process_merged dumps loads env e o d)).1
  unfolding outcome_of process_merged persist ack_if
  merged-HasRow e none d l h ok = cc
  merged-HasRow e (some m) d l h ok = elim (Bool-cases (env e).sink_ok) [
    | inl k ↦
        let same : stamped dumps loads env e m ≡ l = ground arith in
        let new =
          first_some_new (dead_letter_row dumps (env e).moment l).id
            (find_row (dead_letter_row dumps (env e).moment l).id d.db.rows)
            (dead_letter_row dumps (env e).moment l) (env e).moment.db_ok ok in
        elim (Bool-cases (env e).ack_ok) [
          | inl a ↦ rw (k, a, same, find_row-insert_dead_letter dumps) new
          | inr a ↦ rw (k, a, same, find_row-insert_dead_letter dumps) new
        ]
    | inr k ↦ ground arith
  ]

  drain-HasRow : (es : List StreamEntry) (d : Daemon) → All (HasRow (drain dumps loads env es d)) es
  unfolding drain process_entry outcome
  drain-HasRow [] d = tt
  drain-HasRow (e ∷ es) d = (
    row_of (drain dumps loads env es (step e d)) e (outcome dumps loads env e) (λ l h ok.
        drain-HasId (dead_letter_row dumps (env e).moment l).id es (step e d)
          (merged-HasRow e (merge_fields dumps loads env e) d l h ok)),
    drain-HasRow es (step e d),
  )

  -- Only entries whose processing does not raise are acknowledged, in order, and all of them for which
  -- XACK succeeds: their letters are the ones appended to the sink, and each of them whose INSERT did
  -- not fail has its row. The others stay pending.
  pub drain_lem :
      (es : List StreamEntry) (d : Daemon)
      → let d' = drain dumps loads env es d in
        Sinks (acked_of es) (sunk es) d d' × All (HasRow d') es
  drain_lem es d = (drain-Sinks es d, drain-HasRow es d)
