-- ===== src/Recorder/Closing.antt =====
-- Which runs a tick and the shutdown of adapters/reflex-recorder/segment.py close, and what they
-- hand on.
use nervous_bus.Prelude.{
  ℕ, ◌≡◌, refl, sym, ap, subst, ◌∙◌, String, false, Option, none, some, List, [], ◌∷◌, ◌++◌, Dict,
  lookup, erase, lookup-erase, HasUniqueKeys, all_absent, is_some, str_eq, eq_iff, eq_refl, arith,
  if◌then◌else◌, if_same, if_both, Bool-cases, inl, inr,
}
use mathlib.Core.List.{append-nil, append_assoc}
use mathlib.Core.Option.{none-ne-some}
use nervous_bus.Recorder.Segment.{
  Host, OpenRun, Payload, Segmenter, Reason, to_closed_payload, close_found, close_run, close_each,
  idle_runs, is_idle, tick, shutdown,
}
use nervous_bus.Recorder.Chain.{IsValid}

-- What closing each run of a table hands on, in its order.
abbrev pub payloads : Host → Reason → Dict OpenRun → List Payload
payloads h reason [] = []
payloads h reason ((k, r) ∷ d) =
    to_closed_payload h r (h.now_utc r.last_event_ts) reason ∷ payloads h reason d

-- Each entry of `d` is the one that `runs` has for its key.
abbrev AllIn : Dict OpenRun → Dict OpenRun → Type 0
AllIn [] runs = Unit
AllIn ((k, r) ∷ d) runs = (lookup k runs ≡ some r) × AllIn d runs

other_key :
    (k j : String) (r : OpenRun) (d : Dict OpenRun)
    → lookup k ((j, r) ∷ d) ≡ none
    → (str_eq j k ≡ false) × (lookup k d ≡ none)
unfolding lookup
other_key k j r d h = elim (Bool-cases (str_eq j k)) [
  | inl e ↦ absurd (none-ne-some r (sym (rw e at h)))
  | inr e ↦ (e, rw e at h)
]

AllIn-erase :
    (k : String) (d runs : Dict OpenRun) → lookup k d ≡ none → AllIn d runs → AllIn d (erase k runs)
AllIn-erase k [] runs h a = tt
AllIn-erase k ((j, r) ∷ d) runs h a =
    let o = other_key k j r d h in
    (
      lookup-erase k j runs ∙ ground (arith, o.0, a.0, eq_iff k j, eq_iff j k),
      AllIn-erase k d runs o.1 a.1,
    )

AllIn-cons :
    (k : String) (v : OpenRun) (d runs : Dict OpenRun)
    → lookup k d ≡ none
    → AllIn d runs
    → AllIn d ((k, v) ∷ runs)
unfolding lookup
AllIn-cons k v [] runs h a = tt
AllIn-cons k v ((j, r) ∷ d) runs h a =
    let o = other_key k j r d h in
    (ground (arith, o.0, a.0, eq_iff k j, eq_iff j k), AllIn-cons k v d runs o.1 a.1)

AllIn-self : (d : Dict OpenRun) → HasUniqueKeys d → AllIn d d
unfolding lookup
AllIn-self [] u = tt
AllIn-self ((k, v) ∷ d) u = (rw (eq_refl k) refl, AllIn-cons k v d d u.0 (AllIn-self d u.1))

-- Taking out one key and then those of `d` takes out them all.
removed :
    (j k : String) (r : OpenRun) (d runs : Dict OpenRun)
    → ◌≡◌ {A = Option OpenRun}
        (if is_some (lookup j d) then none else lookup j (erase k runs))
        (if is_some (lookup j ((k, r) ∷ d)) then none else lookup j runs)
unfolding lookup
removed j k r d runs = rw (lookup-erase k j runs) (elim (Bool-cases (str_eq k j)) [
  | inl e ↦ rw e (if_same (is_some (lookup j d)) none)
  | inr e ↦ rw e refl
])

module _ (h : Host) (reason : Reason) where
  close_each-step :
      (k : String) (r : OpenRun) (d : Dict OpenRun) (s : Segmenter)
      → lookup k s.runs ≡ some r
      → close_each h reason ((k, r) ∷ d) s
        ≡ close_each h reason d (close_found h k (h.now_utc r.last_event_ts) reason (some r) s)
  unfolding close_run close_each
  close_each-step k r d s e =
      ap
        (λ (o : Option OpenRun).
          close_each h reason d (close_found h k (h.now_utc r.last_event_ts) reason o s))
        e

  close_each-closed :
      (d : Dict OpenRun) (s : Segmenter)
      → AllIn d s.runs
      → HasUniqueKeys d
      → (close_each h reason d s).closed ≡ s.closed ++ payloads h reason d
  unfolding close_found
  close_each-closed [] s a u = unfold close_each in sym (append-nil s.closed)
  close_each-closed ((k, r) ∷ d) s a u =
      let at = h.now_utc r.last_event_ts in
      ap (λ (t : Segmenter). t.closed) (close_each-step k r d s a.0)
      ∙ close_each-closed d (close_found h k at reason (some r) s) (AllIn-erase k d s.runs u.0 a.1)
          u.1
      ∙ append_assoc s.closed (to_closed_payload h r at reason ∷ []) (payloads h reason d)

  close_each-runs :
      (j : String) (d : Dict OpenRun) (s : Segmenter)
      → AllIn d s.runs
      → HasUniqueKeys d
      → lookup j (close_each h reason d s).runs
        ≡ (if is_some (lookup j d) then none else lookup j s.runs)
  close_each-runs j [] s a u = unfold lookup in unfold close_each in refl
  close_each-runs j ((k, r) ∷ d) s a u =
      let at = h.now_utc r.last_event_ts in
      let s' = close_found h k at reason (some r) s in
      let rest =
        close_each-runs j d s' (unfold close_found in AllIn-erase k d s.runs u.0 a.1) u.1 in
      ap (λ (t : Segmenter). lookup j t.runs) (close_each-step k r d s a.0)
      ∙ rest
      ∙ (unfold close_found in removed j k r d s.runs)

abbrev pub fresh_run : Host → ℕ → Option OpenRun → Option OpenRun
fresh_run h now none = none
fresh_run h now (some r) = if is_idle h now r then none else some r

abbrev idle_run : Host → ℕ → Option OpenRun → Option OpenRun
idle_run h now none = none
idle_run h now (some r) = if is_idle h now r then some r else none

none_left : (o : Option OpenRun) → (if is_some o then none else o) ≡ none
none_left none = refl
none_left (some r) = refl

module _ (h : Host) (now : ℕ) where
  lookup-idle_runs :
      (j : String) (d : Dict OpenRun)
      → HasUniqueKeys d
      → lookup j (idle_runs h now d) ≡ idle_run h now (lookup j d)
  unfolding lookup idle_runs
  lookup-idle_runs j [] u = refl
  lookup-idle_runs j ((k, r) ∷ d) u = elim (Bool-cases (is_idle h now r)) [
    | inl i ↦ rw i (elim (Bool-cases (str_eq k j)) [
      | inl e ↦ rw (e, i) refl
      | inr e ↦ rw e (lookup-idle_runs j d u.1)
    ])
    | inr i ↦ rw i (elim (Bool-cases (str_eq k j)) [
      | inl e ↦
          rw (e, i)
            (lookup-idle_runs j d u.1
              ∙ ap (idle_run h now) (subst (λ x. lookup x d ≡ none) ((eq_iff k j).0 e) u.0))
      | inr e ↦ rw e (lookup-idle_runs j d u.1)
    ])
  ]

  idle_runs_unique : (d : Dict OpenRun) → HasUniqueKeys d → HasUniqueKeys (idle_runs h now d)
  unfolding idle_runs
  idle_runs_unique [] u = tt
  idle_runs_unique ((k, r) ∷ d) u =
      let rest = idle_runs_unique d u.1 in
      if_both HasUniqueKeys (is_idle h now r)
        (lookup-idle_runs k d u.1 ∙ ap (idle_run h now) u.0, rest) rest

  idle_runs-AllIn : (d runs : Dict OpenRun) → AllIn d runs → AllIn (idle_runs h now d) runs
  unfolding idle_runs
  idle_runs-AllIn [] runs a = tt
  idle_runs-AllIn ((k, r) ∷ d) runs a =
      let rest = idle_runs-AllIn d runs a.1 in
      if_both (λ e. AllIn e runs) (is_idle h now r) (a.0, rest) rest

  fresh_or_idle :
      (o : Option OpenRun) → (if is_some (idle_run h now o) then none else o) ≡ fresh_run h now o
  fresh_or_idle none = refl
  fresh_or_idle (some r) = elim (Bool-cases (is_idle h now r)) [
    | inl e ↦ rw e refl
    | inr e ↦ rw e refl
  ]

  -- A tick closes the runs that had no event within the idle timeout, and no other: a run that is
  -- not idle stays as it is, an idle one is gone, and the payloads handed on are, in order, those of
  -- the idle runs, each ended at its last event.
  pub tick_lem :
      {b : Dict String} (s : Segmenter)
      → IsValid b s
      → ((tick h now s).closed
          ≡ s.closed ++ payloads h Reason.idle_timeout (idle_runs h now s.runs))
        × ((j : String) → lookup j (tick h now s).runs ≡ fresh_run h now (lookup j s.runs))
  unfolding tick
  tick_lem s v =
      let a = idle_runs-AllIn s.runs s.runs (AllIn-self s.runs v.unique) in
      let u = idle_runs_unique s.runs v.unique in
      (
        close_each-closed h Reason.idle_timeout (idle_runs h now s.runs) s a u,
        λ j.
            close_each-runs h Reason.idle_timeout j (idle_runs h now s.runs) s a u
            ∙ rw (lookup-idle_runs j s.runs v.unique) (fresh_or_idle (lookup j s.runs)),
      )

-- The shutdown leaves no run open, and hands on one payload for each that was, ended at its last
-- event.
pub shutdown_lem :
    {b : Dict String} (h : Host) (s : Segmenter)
    → IsValid b s
    → ((shutdown h s).runs ≡ [])
      × ((shutdown h s).closed ≡ s.closed ++ payloads h Reason.recorder_shutdown s.runs)
unfolding shutdown
shutdown_lem h s v =
    let a = AllIn-self s.runs v.unique in
    (
      all_absent (close_each h Reason.recorder_shutdown s.runs s).runs (λ j.
          close_each-runs h Reason.recorder_shutdown j s.runs s a v.unique
          ∙ none_left (lookup j s.runs)),
      close_each-closed h Reason.recorder_shutdown s.runs s a v.unique,
    )
