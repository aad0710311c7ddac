-- ===== src/Recorder/Accounts.antt =====
-- The segmenter of adapters/reflex-recorder/segment.py loses no event: what is ingested is counted
-- in the run of its key, and ticks and the shutdown close the runs they should.
use nervous_bus.Prelude.{
  ℕ, ◌+◌, ◌≡◌, refl, ap, ◌∙◌, String, Bool, false, List, [], ◌∷◌, ◌++◌, Dict, lookup, insert,
  sum_values, weigh, sum_values-insert, sum_values-erase, str_eq, arith, if◌then◌else◌, if_same,
  count, Bool-cases, Option-cases, inl, inr, is_empty, if_both, not, ◌&&◌,
}
use nervous_bus.Recorder.Keys.{Activity, RunKey, compute_run_key}
use nervous_bus.Recorder.Segment.{
  Host, OpenRun, Payload, Segmenter, Reason, Call, fold, to_closed_payload, close_found, close_run,
  new_run, run_for, fold_into, ingest_key, ingest, is_ended, close_each, idle_runs, tick, shutdown,
  step, steps, empty_segmenter,
}
use nervous_bus.Recorder.Chain.{
  IsValid, step-IsValid, empty-IsValid, fold_into-IsValid, run_for_lem, close_run-IsValid,
}

-- The events of a key that a run holds.
abbrev pub events_of : String → OpenRun → ℕ
events_of key r = if str_eq r.run_key key then r.event_count else 0

abbrev pub closed_events : String → List Payload → ℕ
closed_events key [] = 0
closed_events key (p ∷ ps) = events_of key p.run + closed_events key ps

abbrev pub events_held : String → Segmenter → ℕ
events_held key s = closed_events key s.closed + sum_values (events_of key) s.runs

closed_events-append :
    (key : String) (ps : List Payload) (p : Payload)
    → closed_events key (ps ++ p ∷ []) ≡ closed_events key ps + events_of key p.run
closed_events-append key [] p = omega arith
closed_events-append key (q ∷ ps) p = omega (arith, closed_events-append key ps p)

-- Whether a call brings an event of the key: no empty key is recorded.
abbrev pub brings : String → Call → Bool
brings key (Call.ingested ulid a now) =
    not (is_empty (compute_run_key a).key) && str_eq (compute_run_key a).key key
brings key (Call.ticked now) = false
brings key Call.stopped = false

module _ (key : String) (h : Host) where
  close_run-held :
      (k at : String) (reason : Reason) (s : Segmenter)
      → IsValid [] s
      → events_held key (close_run h k at reason s) ≡ events_held key s
  unfolding close_run close_found to_closed_payload
  close_run-held k at reason s v = elim (Option-cases (lookup k s.runs)) [
    | inl e ↦ rw e refl
    | inr (r, e) ↦
        rw (e, closed_events-append key s.closed (to_closed_payload h r at reason))
          (omega (arith, rw e at (sum_values-erase (events_of key) k s.runs v.unique)))
  ]

  close_each-held :
      (reason : Reason) (d : Dict OpenRun) (s : Segmenter)
      → IsValid [] s
      → events_held key (close_each h reason d s) ≡ events_held key s
  unfolding close_each
  close_each-held reason [] s v = refl
  close_each-held reason ((k, r) ∷ d) s v =
      close_each-held reason d _ (close_run-IsValid h k _ reason s v)
      ∙ close_run-held k _ reason s v

  events_of-fold :
      (r : OpenRun) (a : Activity) (now : ℕ)
      → events_of key (fold h r a now) ≡ (if str_eq r.run_key key then 1 else 0) + events_of key r
  unfolding fold
  events_of-fold r a now = elim (Bool-cases (str_eq r.run_key key)) [
    | inl e ↦ rw e (omega arith)
    | inr e ↦ rw e (omega arith)
  ]

  module _ (k : RunKey) (ulid : String) (a : Activity) (now : ℕ) where
    events_of-run_for :
        (s : Segmenter)
        → events_of key (run_for h k ulid a now s) ≡ weigh (events_of key) (lookup k.key s.runs)
    unfolding run_for new_run
    events_of-run_for s = elim (Option-cases (lookup k.key s.runs)) [
      | inl e ↦ rw e (if_same (str_eq k.key key) 0)
      | inr (r, e) ↦ rw e refl
    ]

    fold_into-held :
        (s : Segmenter)
        → IsValid [] s
        → events_held key (fold_into h k ulid a now s)
          ≡ (if str_eq k.key key then 1 else 0) + events_held key s
    unfolding fold_into
    fold_into-held s v =
        let run = run_for h k ulid a now s in
        let new = events_of-fold run a now in
        let one : String → ℕ = λ x. if str_eq x key then 1 else 0 in
        let same = ap one (run_for_lem h k ulid a now s v).0 in
        let sum = sum_values-insert (events_of key) k.key (fold h run a now) s.runs in
        let held : closed_events key s.closed
              + sum_values (events_of key) (insert k.key (fold h run a now) s.runs)
            ≡ (if str_eq k.key key then 1 else 0) + events_held key s =
          omega (arith, new, same, sum, events_of-run_for s) in
        held

    ingest_key-held :
        (s : Segmenter)
        → IsValid [] s
        → events_held key (ingest_key h k ulid a now s)
          ≡ (if str_eq k.key key then 1 else 0) + events_held key s
    unfolding ingest_key
    ingest_key-held s v =
        let folded = fold_into-held s v in
        if_both (λ s'. events_held key s' ≡ (if str_eq k.key key then 1 else 0) + events_held key s)
          (is_ended a)
          (close_run-held k.key _ Reason.ended _ (fold_into-IsValid h k ulid a now s v) ∙ folded)
          folded

  step-held :
      (c : Call) (s : Segmenter)
      → IsValid [] s
      → events_held key (step h c s) ≡ (if brings key c then 1 else 0) + events_held key s
  unfolding step ingest tick shutdown
  step-held (Call.ingested ulid a now) s v = elim (Bool-cases (is_empty (compute_run_key a).key)) [
    | inl e ↦ rw e (omega arith)
    | inr e ↦ rw e (ingest_key-held (compute_run_key a) ulid a now s v)
  ]
  step-held (Call.ticked now) s v =
      omega (arith, close_each-held Reason.idle_timeout (idle_runs h now s.runs) s v)
  step-held Call.stopped s v = omega (arith, close_each-held Reason.recorder_shutdown s.runs s v)

  steps-held :
      (cs : List Call) (s : Segmenter)
      → IsValid [] s
      → events_held key (steps h cs s) ≡ count (brings key) cs + events_held key s
  unfolding steps
  steps-held [] s v = omega arith
  steps-held (c ∷ cs) s v =
      omega (arith, steps-held cs (step h c s) (step-IsValid h c s v), step-held c s v)

  -- No event is lost or counted twice: after any calls from the start, the runs of a key, closed and
  -- open, hold as many events as activities of that key came in. The empty key is never recorded.
  pub steps-accounted :
      (cs : List Call)
      → closed_events key (steps h cs empty_segmenter).closed
          + sum_values (events_of key) (steps h cs empty_segmenter).runs
        ≡ count (brings key) cs
  steps-accounted cs = omega (arith, steps-held cs empty_segmenter empty-IsValid)
