-- ===== src/CiWatch/Quiet.antt =====
-- adapters/ci-watch/watch.py: how often a workflow is published and a bead is filed for it.
use nervous_bus.Prelude.{
  ℕ, ◌+◌, ◌<◌, ◌≡◌, ◌∙◌, refl, sym, ap, String, true, false, none, some, List, [], ◌∷◌, ◌⊎◌, inl,
  inr, All, Dict, lookup, insert, lookup-insert, eq_refl, leb, or_default, and_false, arith,
  Bool-cases,
}
use nervous_bus.CiWatch.Runs.{
  Verdict, green, red, skipped, no_runs, pending, Run, Entry, Computed, is_red, verdict_of,
  compute_workflow_state, compute_workflow_state_verdict,
}
use nervous_bus.CiWatch.Pass.{
  Surroundings, Outcome, verdict_eq, same_state, reminder_due, reason_for, publish_event,
  payload_for, notified_at, settle, no_entry, is_pending, observe,
}

-- One workflow over several polls.
unfoldable pub observe_polls : String → List (Surroundings × List Run) → Outcome → Outcome
observe_polls key [] o = o
observe_polls key ((w, rs) ∷ ps) o = observe_polls key ps (observe w key rs o)

-- The entry of a workflow says a verdict and the time of the last notice.
unfoldable pub Notified : ℕ → Verdict → String → Outcome → Type 0
Notified t v key o =
    (e : Entry) × (lookup key o.state ≡ some e) × (e.state ≡ some v) × (e.last_notified_at ≡ some t)

-- A poll within a day of a time that finds the same verdict, or a run that is not done.
unfoldable pub QuietPoll : ℕ → Verdict → Surroundings × List Run → Type 0
QuietPoll t v (w, rs) = (w.now < t + 86400) × ((verdict_of rs ≡ v) ⊎ (verdict_of rs ≡ pending))

pub verdict_eq_refl : (v : Verdict) → verdict_eq v v ≡ true
unfolding verdict_eq
verdict_eq_refl green = refl
verdict_eq_refl red = refl
verdict_eq_refl skipped = refl
verdict_eq_refl no_runs = refl
verdict_eq_refl pending = refl

pub lookup_inserted :
    (key : String) (e : Entry) (d : Dict Entry) → lookup key (insert key e d) ≡ some e
lookup_inserted key e d = lookup-insert key key e d ∙ rw (eq_refl key) refl

no_reason :
    (now t : ℕ) (v : Verdict) (e : Entry)
    → now < t + 86400
    → e.state ≡ some v
    → e.last_notified_at ≡ some t
    → reason_for now v e ≡ none
unfolding reason_for same_state reminder_due
no_reason now t v e b h k =
    let f : leb (t + 86400) now ≡ false = ground (arith, b) in
    rw (h, k, verdict_eq_refl v, f, and_false (is_red v)) refl

pub observe_pending :
    (w : Surroundings) (key : String) (rs : List Run) (o : Outcome)
    → verdict_of rs ≡ pending
    → observe w key rs o ≡ o
unfolding observe is_pending
observe_pending w key rs o h =
    let prior = or_default (lookup key o.state) no_entry in
    rw (compute_workflow_state_verdict rs prior ∙ h) refl

pub observe_settled :
    (w : Surroundings) (key : String) (rs : List Run) (o : Outcome) (e : Entry)
    → lookup key o.state ≡ some e
    → is_pending (verdict_of rs) ≡ false
    → observe w key rs o ≡ settle w key e (compute_workflow_state rs e) o
unfolding observe
observe_settled w key rs o e h k =
    rw (h, ap is_pending (compute_workflow_state_verdict rs e) ∙ k) refl

Silent : ℕ → Verdict → String → Outcome → Outcome → Type 0
Silent t v key o o' = (o'.published ≡ o.published) × Notified t v key o'

settle_quiet :
    (t : ℕ) (v : Verdict) (w : Surroundings) (key : String) (e : Entry) (c : Computed) (o : Outcome)
    → c.state ≡ v
    → reason_for w.now c.state e ≡ none
    → e.last_notified_at ≡ some t
    → Silent t v key o (settle w key e c o)
unfolding settle Silent Notified payload_for publish_event notified_at
settle_quiet t v w key e c o s r n = rw r (refl, (_, lookup_inserted key _ o.state, ap some s, n))

pub pending_inv : (v : Verdict) → is_pending v ≡ true → v ≡ pending
unfolding is_pending
pending_inv pending h = refl
pending_inv green h = absurd (ground (arith, h))
pending_inv red h = absurd (ground (arith, h))
pending_inv skipped h = absurd (ground (arith, h))
pending_inv no_runs h = absurd (ground (arith, h))

-- The verdict of a poll that is not pending is the one expected.
pub settled_verdict : (v u : Verdict) → (u ≡ v) ⊎ (u ≡ pending) → is_pending u ≡ false → u ≡ v
unfolding is_pending
settled_verdict v u (inl h) k = h
settled_verdict v u (inr h) k = let f : true ≡ false = sym (ap is_pending h) ∙ k in absurd cc

observe_quiet :
    (t : ℕ) (v : Verdict) (w : Surroundings) (key : String) (rs : List Run) (o : Outcome)
    → Notified t v key o
    → QuietPoll t v (w, rs)
    → Silent t v key o (observe w key rs o)
unfolding Silent Notified QuietPoll
observe_quiet t v w key rs o n q = elim (Bool-cases (is_pending (verdict_of rs))) [
  | inl k ↦ rw (observe_pending w key rs o (pending_inv (verdict_of rs) k)) (refl, n)
  | inr k ↦
      let (e, l, st, at) = n in
      let u = settled_verdict v (verdict_of rs) q.1 k in
      let c = compute_workflow_state rs e in
      let s : c.state ≡ v = compute_workflow_state_verdict rs e ∙ u in
      let r : reason_for w.now c.state e ≡ none =
        no_reason w.now t c.state e q.0 (st ∙ ap some (sym s)) at in
      rw (observe_settled w key rs o e l k) (settle_quiet t v w key e c o s r at)
]

-- No spam: once a workflow was published with a verdict, polls within a day of it that find the same
-- verdict or a run that is not done publish nothing for it, however many they are.
pub observe_polls_quiet :
    (t : ℕ) (v : Verdict) (key : String) (ps : List (Surroundings × List Run)) (o : Outcome)
    → Notified t v key o
    → All (QuietPoll t v) ps
    → (observe_polls key ps o).published ≡ o.published
unfolding observe_polls Silent
observe_polls_quiet t v key [] o n q = refl
observe_polls_quiet t v key ((w, rs) ∷ ps) o n (q, qs) =
    let (e, n') = observe_quiet t v w key rs o n q in
    observe_polls_quiet t v key ps (observe w key rs o) n' qs ∙ e
