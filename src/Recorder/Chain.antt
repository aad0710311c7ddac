-- ===== src/Recorder/Chain.antt =====
-- The segmenter of adapters/reflex-recorder/segment.py over any sequence of its calls: the open runs
-- stay well formed and each run continues the last closed one of its key.
use nervous_bus.Prelude.{
  ℕ, ◌≡◌, refl, sym, subst, ◌∙◌, String, Option, some, List, [], ◌∷◌, Dict, lookup, lookup-insert,
  lookup-erase-some, lookup-insert-some, HasUniqueKeys, insert_unique, erase_unique, str_eq,
  if◌then◌else◌, Option-cases, inl, inr, is_empty, if_both,
}
use mathlib.Core.List.{reverse}
use mathlib.Core.Option.{none-ne-some}
use mathlib.Mathlib.Data.List.Basic.{reverse-concat'}
use nervous_bus.Recorder.Keys.{Activity, RunKey, compute_run_key}
use nervous_bus.Recorder.Segment.{
  Host, OpenRun, Payload, Segmenter, Reason, Call, fold, to_closed_payload, close_found, close_run,
  new_run, run_for, fold_into, ingest_key, ingest, is_ended, close_each, idle_runs, tick, shutdown,
  step, steps, empty_segmenter,
}

-- The identifier of the latest closed run of a key, the payloads with the newest first, and where there
-- is none the one that is given for the key.
abbrev pub last_id : Dict String → String → List Payload → Option String
last_id b k [] = lookup k b
last_id b k (p ∷ ps) = if str_eq p.run.run_key k then some p.run.run_id else last_id b k ps

-- Each closed run continues the one of its key that was closed last before it.
abbrev pub IsChained : Dict String → List Payload → Type 0
IsChained b [] = Unit
IsChained b (p ∷ ps) = (p.run.continues_run_id ≡ last_id b p.run.run_key ps) × IsChained b ps

pub record IsValid (b : Dict String) (s : Segmenter) : Type 0 where
  pub unique : HasUniqueKeys s.runs
  pub open_key : (k : String) (r : OpenRun) → lookup k s.runs ≡ some r → r.run_key ≡ k
  pub open_continues :
      (k : String) (r : OpenRun)
      → lookup k s.runs ≡ some r
      → r.continues_run_id ≡ last_id b k (reverse s.closed)
  pub closed_id : (k : String) → lookup k s.last_closed_id ≡ last_id b k (reverse s.closed)
  pub chained : IsChained b (reverse s.closed)

module _ {b : Dict String} (h : Host) (key at : String) (reason : Reason) (s : Segmenter)
    (v : IsValid b s) where
  closed_newest :
      (r : OpenRun)
      → reverse (close_found h key at reason (some r) s).closed
        ≡ to_closed_payload h r at reason ∷ reverse s.closed
  unfolding close_found
  closed_newest r = reverse-concat' s.closed (to_closed_payload h r at reason)

  module _ (r : OpenRun) (e : lookup key s.runs ≡ some r) where
    last_id-closing :
        (k : String)
        → last_id b k (reverse (close_found h key at reason (some r) s).closed)
          ≡ (if str_eq key k then some r.run_id else last_id b k (reverse s.closed))
    unfolding to_closed_payload
    last_id-closing k = rw (closed_newest r, v.open_key key r e) refl

    close_found-continues :
        (k : String) (r' : OpenRun)
        → lookup k (close_found h key at reason (some r) s).runs ≡ some r'
        → r'.continues_run_id
          ≡ last_id b k (reverse (close_found h key at reason (some r) s).closed)
    unfolding close_found
    close_found-continues k r' e' =
        let left = lookup-erase-some key k r' s.runs e' in
        rw (last_id-closing k, left.0) (v.open_continues k r' left.1)

    close_found-IsValid : IsValid b (close_found h key at reason (some r) s)
    unfolding close_found to_closed_payload
    close_found-IsValid = record {
      unique = erase_unique key s.runs v.unique;
      open_key = λ k r' e'. v.open_key k r' (lookup-erase-some key k r' s.runs e').1;
      open_continues = close_found-continues;
      closed_id = λ k.
          lookup-insert key k r.run_id s.last_closed_id
          ∙ rw (v.closed_id k) (sym (last_id-closing k));
      chained =
          rw (closed_newest r) (rw (v.open_key key r e) (v.open_continues key r e), v.chained);
    }

pub close_run-IsValid :
    {b : Dict String} (h : Host) (key at : String) (reason : Reason) (s : Segmenter)
    → IsValid b s
    → IsValid b (close_run h key at reason s)
unfolding close_run
close_run-IsValid h key at reason s v = elim (Option-cases (lookup key s.runs)) [
  | inl e ↦ rw e (unfold close_found in v)
  | inr (r, e) ↦ rw e (close_found-IsValid h key at reason s v r e)
]

module _ {b : Dict String} (h : Host) (k : RunKey) (ulid : String) (a : Activity) (now : ℕ) where
  module _ (s : Segmenter) (v : IsValid b s) where
    pub run_for_lem :
        ((run_for h k ulid a now s).run_key ≡ k.key)
        × ((run_for h k ulid a now s).continues_run_id ≡ last_id b k.key (reverse s.closed))
    unfolding run_for
    run_for_lem = elim (Option-cases (lookup k.key s.runs)) [
      | inl e ↦ rw e (unfold new_run in (refl, v.closed_id k.key))
      | inr (r, e) ↦ rw e (v.open_key k.key r e, v.open_continues k.key r e)
    ]

    fold_into-open :
        (j : String) (r : OpenRun)
        → lookup j (fold_into h k ulid a now s).runs ≡ some r
        → (r.run_key ≡ j) × (r.continues_run_id ≡ last_id b j (reverse s.closed))
    unfolding fold_into
    fold_into-open j r e =
        elim (lookup-insert-some k.key j (fold h (run_for h k ulid a now s) a now) r s.runs e) [
          | inl (same, is) ↦
              subst (λ i. (r.run_key ≡ i) × (r.continues_run_id ≡ last_id b i (reverse s.closed)))
                same
                (subst
                  (λ (x : OpenRun).
                    (x.run_key ≡ k.key) × (x.continues_run_id ≡ last_id b k.key (reverse s.closed)))
                  is (unfold fold in run_for_lem))
          | inr (other, there) ↦ (v.open_key j r there, v.open_continues j r there)
        ]

    pub fold_into-IsValid : IsValid b (fold_into h k ulid a now s)
    unfolding fold_into
    fold_into-IsValid = record {
      unique = insert_unique k.key (fold h (run_for h k ulid a now s) a now) s.runs v.unique;
      open_key = λ j r e. (fold_into-open j r e).0;
      open_continues = λ j r e. (fold_into-open j r e).1;
      closed_id = v.closed_id;
      chained = v.chained;
    }

    ingest_key-IsValid : IsValid b (ingest_key h k ulid a now s)
    unfolding ingest_key
    ingest_key-IsValid =
        if_both (IsValid b) (is_ended a)
          (close_run-IsValid h k.key _ Reason.ended _ fold_into-IsValid) fold_into-IsValid

ingest-IsValid :
    {b : Dict String} (h : Host) (ulid : String) (a : Activity) (now : ℕ) (s : Segmenter)
    → IsValid b s
    → IsValid b (ingest h ulid a now s)
unfolding ingest
ingest-IsValid {b = b} h ulid a now s v =
    if_both (IsValid b) (is_empty (compute_run_key a).key) v
      (ingest_key-IsValid h (compute_run_key a) ulid a now s v)

close_each-IsValid :
    {b : Dict String} (h : Host) (reason : Reason) (d : Dict OpenRun) (s : Segmenter)
    → IsValid b s
    → IsValid b (close_each h reason d s)
unfolding close_each
close_each-IsValid h reason [] s v = v
close_each-IsValid h reason ((k, r) ∷ d) s v =
    close_each-IsValid h reason d _ (close_run-IsValid h k _ reason s v)

pub step-IsValid :
    {b : Dict String} (h : Host) (c : Call) (s : Segmenter) → IsValid b s → IsValid b (step h c s)
unfolding step tick shutdown
step-IsValid h (Call.ingested ulid a now) s v = ingest-IsValid h ulid a now s v
step-IsValid h (Call.ticked now) s v =
    close_each-IsValid h Reason.idle_timeout (idle_runs h now s.runs) s v
step-IsValid h Call.stopped s v = close_each-IsValid h Reason.recorder_shutdown s.runs s v

pub steps-IsValid :
    {b : Dict String} (h : Host) (cs : List Call) (s : Segmenter)
    → IsValid b s
    → IsValid b (steps h cs s)
unfolding steps
steps-IsValid h [] s v = v
steps-IsValid h (c ∷ cs) s v = steps-IsValid h cs (step h c s) (step-IsValid h c s v)

-- The segmenter at the start of the recorder: the last closed runs of the keys come from the store.
unfoldable pub restored : Dict String → Segmenter
restored b = record { runs = []; last_closed_id = b; closed = [] }

pub restored-IsValid : (b : Dict String) → IsValid b (restored b)
unfolding lookup restored
restored-IsValid b = record {
  unique = tt;
  open_key = λ k r e. absurd (none-ne-some r e);
  open_continues = λ k r e. absurd (none-ne-some r e);
  closed_id = λ k. refl;
  chained = tt;
}

pub empty-IsValid : IsValid [] empty_segmenter
unfolding restored
empty-IsValid = restored-IsValid []

-- Whatever calls the recorder makes from its start, each run that closes carries as continues_run_id
-- the identifier of the run of the same key that closed last before it, for whatever reason. Where none
-- has closed since the start, it carries the one restored from the store for the key, or none.
pub steps-IsChained :
    (b : Dict String) (h : Host) (cs : List Call)
    → IsChained b (reverse (steps h cs (restored b)).closed)
steps-IsChained b h cs = (steps-IsValid h cs (restored b) (restored-IsValid b)).chained
