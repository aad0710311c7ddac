-- ===== src/Bundler/Accounts.antt =====
-- What one entry of a stream adds to the windows of adapters/pattern-bundler: proofs about Loop.
use nervous_bus.Prelude.{
  ℕ, ◌+◌, ◌≡◌, refl, ap, ◌∙◌, String, str_append, Bool, true, Option, none, some, Bool-cases, inl,
  inr, Dict, lookup, insert, lookup-insert, sum_values, sum_values-insert, arith, eq_refl, one_of,
}
use nervous_bus.Bundler.Window.{
  Config, Window, fresh, count_error, ingest, ingest_log, is_error, Entry,
}
use nervous_bus.Bundler.Loop.{
  BusEntry, not_json, not_object, event, Moment, Core, set_up, set_up_if, ready, change_found,
  change_window, take_event, take_bus, log_channel, take_log,
}

abbrev pub count_of : Window → ℕ
count_of w = w.count

abbrev pub total : Core → ℕ
total c = sum_values count_of c.windows

abbrev IsOpen : String → Core → Type 0
IsOpen key c = (w : Window) × (lookup key c.windows ≡ some w)

abbrev pub Answers : Moment → Type 0
Answers m = (channel : String) → (m.loads channel ≡ true) × (m.inits channel ≡ true)

lookup-insert_same : (k : String) (v : Window) (d : Dict Window) → lookup k (insert k v d) ≡ some v
lookup-insert_same k v d = lookup-insert k k v d ∙ rw (eq_refl k) refl

sum_values-opened :
    (key : String) (w : Window) (d : Dict Window)
    → lookup key d ≡ none
    → w.count ≡ 0
    → sum_values count_of (insert key w d) ≡ sum_values count_of d
sum_values-opened key w d h z = omega (arith, z, rw h at (sum_values-insert count_of key w d))

module _ (cfg : Config) (m : Moment) (key channel source : String) (c : Core) where
  windows-set_up :
      (inits : Bool)
      → (set_up cfg m key channel source inits c).0.windows
        ≡ insert key (fresh cfg m.now channel source) c.windows
  unfolding set_up
  windows-set_up inits = elim (Bool-cases (one_of channel c.known)) [
    | inl e ↦ rw e refl
    | inr e ↦ elim (Bool-cases (m.loads channel)) [
      | inl l ↦ rw (e, l) refl
      | inr l ↦ rw (e, l) refl
    ]
  ]

  set_up-answers : m.loads channel ≡ true → (set_up cfg m key channel source true c).1 ≡ true
  unfolding set_up
  set_up-answers l = elim (Bool-cases (one_of channel c.known)) [
    | inl e ↦ rw e refl
    | inr e ↦ rw (e, l) refl
  ]

  set_up_if_lem :
      (inits : Bool) (o : Option Window)
      → lookup key c.windows ≡ o
      → IsOpen key (set_up_if cfg m key channel source inits c o).0
        × (total (set_up_if cfg m key channel source inits c o).0 ≡ total c)
  unfolding set_up_if
  set_up_if_lem inits none h = rw (windows-set_up inits) (
    (fresh cfg m.now channel source, lookup-insert_same key _ c.windows),
    sum_values-opened key (fresh cfg m.now channel source) c.windows h (unfold fresh in refl),
  )
  set_up_if_lem inits (some w) h = ((w, h), refl)

  set_up_if-answers :
      (o : Option Window)
      → m.loads channel ≡ true
      → (set_up_if cfg m key channel source true c o).1 ≡ true
  unfolding set_up_if
  set_up_if-answers none l = set_up-answers l
  set_up_if-answers (some w) l = refl

  ready_lem :
      (inits : Bool)
      → IsOpen key (ready cfg m key channel source inits c).0
        × (total (ready cfg m key channel source inits c).0 ≡ total c)
  unfolding ready
  ready_lem inits = set_up_if_lem inits (lookup key c.windows) refl

  ready-answers : m.loads channel ≡ true → (ready cfg m key channel source true c).1 ≡ true
  unfolding ready
  ready-answers l = set_up_if-answers (lookup key c.windows) l

total-change_window :
    (key : String) (f : Window → Window) (c : Core)
    → IsOpen key c
    → ((w : Window) → count_of (f w) ≡ count_of w + 1)
    → total (change_window key f c) ≡ total c + 1
unfolding change_window change_found
total-change_window key f c (w, h) g =
    rw h (omega (arith, g w, rw h at (sum_values-insert count_of key (f w) c.windows)))

count-ingest : (raw : String) (w : Window) → count_of (ingest raw w) ≡ count_of w + 1
unfolding ingest
count-ingest raw w = refl

count-ingest_log :
    (dumps : Entry → String) (e : Entry) (w : Window)
    → count_of (ingest_log dumps e w) ≡ count_of w + 1
unfolding ingest_log ingest count_error
count-ingest_log dumps e w = elim (Bool-cases (is_error e)) [
  | inl h ↦ rw h refl
  | inr h ↦ rw h refl
]

abbrev pub weight : BusEntry → ℕ
weight not_json = 0
weight not_object = 0
weight (event channel raw) = 1

module _ (cfg : Config) (m : Moment) (a : Answers m) where
  total-take_event :
      (channel raw : String) (c : Core) → total (take_event cfg m channel raw c).0 ≡ total c + 1
  unfolding take_event
  total-take_event channel raw c =
      let key = str_append "bus:" channel in
      let r = ready_lem cfg m key channel "bus" c true in
      rw ((a channel).1, ready-answers cfg m key channel "bus" c (a channel).0)
        (total-change_window key (ingest raw) (ready cfg m key channel "bus" true c).0 r.0
            (count-ingest raw)
          ∙ ap (λ n. n + 1) r.1)

  pub total-take_bus : (e : BusEntry) (c : Core) → total (take_bus cfg m e c).0 ≡ total c + weight e
  unfolding take_bus
  total-take_bus not_json c = omega arith
  total-take_bus not_object c = omega arith
  total-take_bus (event channel raw) c = total-take_event channel raw c

  pub total-take_log : (e : Entry) (c : Core) → total (take_log cfg m e c).0 ≡ total c + 1
  unfolding take_log
  total-take_log e c =
      let channel = log_channel e in
      let key = str_append "logs:" channel in
      let r = ready_lem cfg m key channel "logs" c true in
      rw (ready-answers cfg m key channel "logs" c (a channel).0) (
        total-change_window key (ingest_log m.dumps e) (ready cfg m key channel "logs" true c).0 r.0
          (count-ingest_log m.dumps e)
        ∙ ap (λ n. n + 1) r.1)
