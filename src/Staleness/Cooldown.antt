-- ===== src/Staleness/Cooldown.antt =====
-- The alerts of adapters/staleness/monitor.py over its runs: proofs about Run.
use nervous_bus.Prelude.{
  ℕ, ◌+◌, ◌≤◌, ◌≡◌, refl, sym, ap, subst, ◌∙◌, String, Bool, true, false, Option, none, some,
  is_some, All, if_both, List, [], ◌∷◌, ◌++◌, ◌&&◌, not, or_default, ltb, Dict, lookup,
  lookup-insert, str_eq, eq_iff, arith, if◌then◌else◌, Bool-cases, inl, inr, both_true, and_false,
}
use mathlib.Core.Bool.{false≢true}
use nervous_bus.Staleness.Cadence.{Stream, Settings, Result, evaluate_stream}
use nervous_bus.Staleness.Run.{
  Baseline, no_baseline, last_alert, set_alert, set_latest, save_latest, Alert, is_due, is_stale,
  after_alert, alert_one, sweep, loaded, run, Tick, runs,
}

-- When the channel was last alerted, after these alerts.
abbrev pub last_after : String → ℕ → List Alert → ℕ
last_after ch last [] = last
last_after ch last (a ∷ as') = last_after ch (if str_eq a.channel ch then a.at else last) as'

-- The alerts of the channel stand a cooldown apart, the first one from the last alert before.
abbrev pub IsFarFrom : Bool → ℕ → ℕ → ℕ → Type 0
IsFarFrom true cool last at = last + cool ≤ at
IsFarFrom false cool last at = Unit

abbrev pub IsSpaced : String → ℕ → ℕ → List Alert → Type 0
IsSpaced ch cool last [] = Unit
IsSpaced ch cool last (a ∷ as') =
    IsFarFrom (str_eq a.channel ch) cool last a.at
    × IsSpaced ch cool (if str_eq a.channel ch then a.at else last) as'

-- A run that reads and writes its file and has an answer for every stream.
abbrev pub IsWhole : Tick → Type 0
IsWhole t = (t.loads ≡ true) × (t.saves ≡ true) × All (λ o. is_some o ≡ true) t.streams

not_before : (a b : ℕ) → not (ltb a b) ≡ true → b ≤ a
not_before a b h = ground arith

module _ (ch : String) where
  last_after-append :
      (xs ys : List Alert) (last : ℕ)
      → last_after ch last (xs ++ ys) ≡ last_after ch (last_after ch last xs) ys
  last_after-append [] ys last = refl
  last_after-append (x ∷ xs) ys last =
      last_after-append xs ys (if str_eq x.channel ch then x.at else last)

  IsSpaced-append :
      (cool : ℕ) (xs ys : List Alert) (last : ℕ)
      → IsSpaced ch cool last xs
      → IsSpaced ch cool (last_after ch last xs) ys
      → IsSpaced ch cool last (xs ++ ys)
  IsSpaced-append cool [] ys last a b = b
  IsSpaced-append cool (x ∷ xs) ys last a b =
      (a.0, IsSpaced-append cool xs ys (if str_eq x.channel ch then x.at else last) a.1 b)

  last_alert-set_alert :
      (r : String) (now : ℕ) (d : Dict Baseline)
      → last_alert ch (set_alert r now d) ≡ (if str_eq r ch then now else last_alert ch d)
  unfolding last_alert set_alert
  last_alert-set_alert r now d =
      let b : Baseline = record (or_default (lookup r d) no_baseline) {
        last_alert_at = some now;
      } in
      elim (Bool-cases (str_eq r ch)) [
        | inl e ↦ rw (lookup-insert r ch b d, e) refl
        | inr e ↦ rw (lookup-insert r ch b d, e) refl
      ]

  last_alert-set_latest :
      (now : ℕ) (r : Result) (d : Dict Baseline)
      → last_alert ch (set_latest now r d) ≡ last_alert ch d
  unfolding last_alert set_latest
  last_alert-set_latest now r d =
      let b : Baseline = record (or_default (lookup r.channel d) no_baseline) {
        latest = some r;
        updated_at = some now;
      } in
      elim (Bool-cases (str_eq r.channel ch)) [
        | inl e ↦
            rw (lookup-insert r.channel ch b d, e)
              (ap (λ (x : String). or_default (or_default (lookup x d) no_baseline).last_alert_at 0)
                ((eq_iff r.channel ch).0 e))
        | inr e ↦ rw (lookup-insert r.channel ch b d, e) refl
      ]

  last_alert-save_latest :
      (now : ℕ) (rs : List Result) (d : Dict Baseline)
      → last_alert ch (save_latest now rs d) ≡ last_alert ch d
  unfolding save_latest
  last_alert-save_latest now [] d = refl
  last_alert-save_latest now (r ∷ rs) d =
      last_alert-save_latest now rs (set_latest now r d) ∙ last_alert-set_latest now r d

  module _ (c : Settings) (publish : String → Bool) (now : ℕ) where
    alert_one-last :
        (r : Result) (d : Dict Baseline)
        → last_alert ch (alert_one c publish now r d).0
          ≡ last_after ch (last_alert ch d) (alert_one c publish now r d).1
    unfolding alert_one after_alert
    alert_one-last r d =
        elim (Bool-cases (is_due c now r d && (publish r.channel && not c.dry_run))) [
          | inl e ↦ rw e (last_alert-set_alert r.channel now d)
          | inr e ↦ rw e refl
        ]

    far_if :
        (b : Bool) (last at : ℕ)
        → (b ≡ true → last + c.alert_cooldown ≤ at)
        → IsFarFrom b c.alert_cooldown last at
    far_if true last at h = h refl
    far_if false last at h = tt

    due_far :
        (r : Result) (d : Dict Baseline)
        → is_due c now r d ≡ true
        → IsFarFrom (str_eq r.channel ch) c.alert_cooldown (last_alert ch d) now
    unfolding is_due
    due_far r d h = far_if (str_eq r.channel ch) (last_alert ch d) now (λ e.
        let past = both_true (is_stale r.verdict) _ h in
        let same : last_alert r.channel d ≡ last_alert ch d =
          ap (λ (x : String). last_alert x d) ((eq_iff r.channel ch).0 e) in
        not_before now (last_alert ch d + c.alert_cooldown) (rw same at past.1))

    alert_one-IsSpaced :
        (r : Result) (d : Dict Baseline)
        → IsSpaced ch c.alert_cooldown (last_alert ch d) (alert_one c publish now r d).1
    unfolding alert_one after_alert
    alert_one-IsSpaced r d =
        elim (Bool-cases (is_due c now r d && (publish r.channel && not c.dry_run))) [
          | inl e ↦ rw e (due_far r d (both_true (is_due c now r d) _ e).0, tt)
          | inr e ↦ rw e tt
        ]

    sweep-last :
        (ss : List (Option Stream)) (d : Dict Baseline)
        → last_alert ch (sweep c publish now ss d).baselines
          ≡ last_after ch (last_alert ch d) (sweep c publish now ss d).sent
    unfolding sweep
    sweep-last [] d = refl
    sweep-last (none ∷ ss) d = refl
    sweep-last (some s ∷ ss) d =
        let one = alert_one c publish now (evaluate_stream c now s) d in
        let rest = (sweep c publish now ss one.0).sent in
        sweep-last ss one.0
        ∙ ap (λ (l : ℕ). last_after ch l rest) (alert_one-last (evaluate_stream c now s) d)
        ∙ sym (last_after-append one.1 rest (last_alert ch d))

    sweep-IsSpaced :
        (ss : List (Option Stream)) (d : Dict Baseline)
        → IsSpaced ch c.alert_cooldown (last_alert ch d) (sweep c publish now ss d).sent
    unfolding sweep
    sweep-IsSpaced [] d = tt
    sweep-IsSpaced (none ∷ ss) d = tt
    sweep-IsSpaced (some s ∷ ss) d =
        let r = evaluate_stream c now s in
        let one = alert_one c publish now r d in
        let rest = (sweep c publish now ss one.0).sent in
        IsSpaced-append c.alert_cooldown one.1 rest (last_alert ch d) (alert_one-IsSpaced r d) (
          subst (λ (l : ℕ). IsSpaced ch c.alert_cooldown l rest) (alert_one-last r d)
            (sweep-IsSpaced ss one.0))

    sweep_done :
        (ss : List (Option Stream)) (d : Dict Baseline)
        → All (λ o. is_some o ≡ true) ss
        → (sweep c publish now ss d).done ≡ true
    unfolding sweep
    sweep_done [] d a = refl
    sweep_done (none ∷ ss) d a = absurd (false≢true a.0)
    sweep_done (some s ∷ ss) d a =
        sweep_done ss (alert_one c publish now (evaluate_stream c now s) d).0 a.1

  run-last :
      (c : Settings) (t : Tick) (d : Dict Baseline)
      → IsWhole t
      → last_alert ch (run c t d).0 ≡ last_after ch (last_alert ch d) (run c t d).1
  unfolding run loaded
  run-last c t d (l, s, a) =
      let w = sweep c t.publish t.now t.streams d in
      rw (l, s, sweep_done c t.publish t.now t.streams d a)
        (last_alert-save_latest t.now w.results w.baselines
          ∙ sweep-last c t.publish t.now t.streams d)

  run-IsSpaced :
      (c : Settings) (t : Tick) (d : Dict Baseline)
      → IsWhole t
      → IsSpaced ch c.alert_cooldown (last_alert ch d) (run c t d).1
  unfolding run loaded
  run-IsSpaced c t d (l, s, a) = rw l (sweep-IsSpaced c t.publish t.now t.streams d)

  -- Alerts on a channel do not storm: over any runs with one setting that read and write the file of
  -- baselines and have an answer from Redis for every stream, whatever they find and whether or not an
  -- alert can be published, two published alerts on a channel are at least the cooldown apart, and the
  -- first is a cooldown after the last alert of the file.
  pub runs-IsSpaced :
      (c : Settings) (ts : List Tick) (d : Dict Baseline)
      → All IsWhole ts
      → IsSpaced ch c.alert_cooldown (last_alert ch d) (runs c ts d).1
  unfolding runs
  runs-IsSpaced c [] d a = tt
  runs-IsSpaced c (t ∷ ts) d (w, a) =
      let one = run c t d in
      let rest = (runs c ts one.0).1 in
      IsSpaced-append c.alert_cooldown one.1 rest (last_alert ch d) (run-IsSpaced c t d w) (
        subst (λ (l : ℕ). IsSpaced ch c.alert_cooldown l rest) (run-last c t d w)
          (runs-IsSpaced c ts one.0 a))

dry_alert :
    (c : Settings) (publish : String → Bool) (now : ℕ) (r : Result) (d : Dict Baseline)
    → c.dry_run ≡ true
    → alert_one c publish now r d ≡ (d, [])
unfolding alert_one after_alert
dry_alert c publish now r d h =
    rw (h, and_false (publish r.channel), and_false (is_due c now r d)) refl

dry_sweep :
    (c : Settings) (publish : String → Bool) (now : ℕ) (ss : List (Option Stream))
    (d : Dict Baseline)
    → c.dry_run ≡ true
    → ((sweep c publish now ss d).sent ≡ []) × ((sweep c publish now ss d).baselines ≡ d)
unfolding sweep
dry_sweep c publish now [] d h = (refl, refl)
dry_sweep c publish now (none ∷ ss) d h = (refl, refl)
dry_sweep c publish now (some s ∷ ss) d h =
    rw (dry_alert c publish now (evaluate_stream c now s) d h) (dry_sweep c publish now ss d h)

-- A dry run that can read the file of baselines publishes nothing and starts no cooldown, so that the
-- next real run is as free to alert on each channel as before.
pub run_dry :
    (c : Settings) (t : Tick) (d : Dict Baseline) (ch : String)
    → c.dry_run ≡ true
    → t.loads ≡ true
    → ((run c t d).1 ≡ []) × (last_alert ch (run c t d).0 ≡ last_alert ch d)
unfolding run loaded
run_dry c t d ch h l =
    let w = sweep c t.publish t.now t.streams d in
    let quiet = dry_sweep c t.publish t.now t.streams d h in
    rw l (
      quiet.0,
      if_both (λ (x : Dict Baseline). last_alert ch x ≡ last_alert ch d) (w.done && t.saves)
          (last_alert-save_latest ch t.now w.results w.baselines ∙ ap (last_alert ch) quiet.1) refl,
    )
