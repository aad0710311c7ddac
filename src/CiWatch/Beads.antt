-- ===== src/CiWatch/Beads.antt =====
-- adapters/ci-watch/watch.py: the beads filed for a red workflow, and what a dry run leaves.
use nervous_bus.Prelude.{
  ◌≤◌, ◌≡◌, ◌∙◌, refl, sym, ap, String, true, false, Option, none, some, List, ◌∷◌, ◌⊎◌, lookup,
  leb, le→leb,
}
use nervous_bus.CiWatch.Runs.{
  red, pending, Run, Entry, Computed, is_red, verdict_of, compute_workflow_state,
  compute_workflow_state_verdict,
}
use nervous_bus.CiWatch.Pass.{
  Surroundings, Outcome, Payload, same_state, reason_for, open_bead, files, should_file, bead_after,
  publish_event, payload_for, filed_after, file_triage_bead, settle, is_pending, observe,
}
use nervous_bus.CiWatch.Quiet.{lookup_inserted, verdict_eq_refl, observe_settled}

-- The entry of a workflow names a bead.
unfoldable pub HasBead : String → String → Outcome → Type 0
HasBead b key o = (e : Entry) × (lookup key o.state ≡ some e) × (e.bead_id ≡ some b)

-- A poll that finds the workflow red, or a run that is not done, while the bead is open.
unfoldable pub RedPoll : String → Surroundings × List Run → Type 0
RedPoll b (w, rs) = (w.bead_is_open b ≡ true) × ((verdict_of rs ≡ red) ⊎ (verdict_of rs ≡ pending))

OneBead : String → String → Outcome → Outcome → Type 0
OneBead b key o o' = (o'.filed ≡ o.filed) × HasBead b key o'

settle_files :
    (w : Surroundings) (key : String) (e : Entry) (c : Computed) (o : Outcome)
    → w.dry_run ≡ false
    → c.state ≡ red
    → open_bead w.bead_is_open e.bead_id ≡ none
    → 2 ≤ c.consecutive_failures
    → ((settle w key e c o).filed ≡ key ∷ o.filed)
      × ((e' : Entry) × (lookup key (settle w key e c o).state ≡ some e')
          × (e'.bead_id ≡ w.create_bead key))
unfolding settle files bead_after filed_after is_red should_file file_triage_bead
settle_files w key e c o d s b n =
    let f : leb 2 c.consecutive_failures ≡ true = le→leb 2 c.consecutive_failures n in
    rw (b, s, f, d) (refl, (_, lookup_inserted key _ o.state, refl))

-- A poll, not dry, that finds the second red run in a row of a workflow whose entry names no open bead
-- files one for it, and the entry then names what the filing returned.
pub observe_files :
    (w : Surroundings) (key : String) (rs : List Run) (o : Outcome) (e : Entry)
    → w.dry_run ≡ false
    → lookup key o.state ≡ some e
    → open_bead w.bead_is_open e.bead_id ≡ none
    → verdict_of rs ≡ red
    → 2 ≤ (compute_workflow_state rs e).consecutive_failures
    → ((observe w key rs o).filed ≡ key ∷ o.filed)
      × ((e' : Entry) × (lookup key (observe w key rs o).state ≡ some e')
          × (e'.bead_id ≡ w.create_bead key))
unfolding is_pending
observe_files w key rs o e d l b v n =
    let c = compute_workflow_state rs e in
    let s : c.state ≡ red = compute_workflow_state_verdict rs e ∙ v in
    let k : is_pending (verdict_of rs) ≡ false = ap is_pending v ∙ refl in
    rw (observe_settled w key rs o e l k) (settle_files w key e c o d s b n)

publish_dry :
    (w : Surroundings) (p : Option Payload) (ps : List Payload)
    → w.dry_run ≡ true
    → publish_event w p ps ≡ ps
unfolding publish_event
publish_dry w none ps d = refl
publish_dry w (some p) ps d = rw d refl

settle_dry :
    (w : Surroundings) (key : String) (e : Entry) (c : Computed) (o : Outcome)
    → w.dry_run ≡ true
    → ((settle w key e c o).published ≡ o.published)
      × ((e' : Entry) × (lookup key (settle w key e c o).state ≡ some e')
          × (e'.state ≡ some c.state))
unfolding settle
settle_dry w key e c o d = (publish_dry w _ o.published d, (_, lookup_inserted key _ o.state, refl))

settle_unchanged :
    (w : Surroundings) (key : String) (e : Entry) (c : Computed) (o : Outcome)
    → e.state ≡ some c.state
    → is_red c.state ≡ false
    → (settle w key e c o).published ≡ o.published
unfolding settle reason_for same_state payload_for publish_event
settle_unchanged w key e c o h r = rw (h, verdict_eq_refl c.state, r) refl

-- A dry run uses up a change of state: after a dry poll that finds a workflow not red, a real poll
-- that finds the same verdict publishes nothing for it.
pub observe_after_dry :
    (w w' : Surroundings) (key : String) (rs rs' : List Run) (o : Outcome) (e : Entry)
    → w.dry_run ≡ true
    → lookup key o.state ≡ some e
    → is_pending (verdict_of rs) ≡ false
    → is_red (verdict_of rs) ≡ false
    → verdict_of rs' ≡ verdict_of rs
    → (observe w' key rs' (observe w key rs o)).published ≡ o.published
observe_after_dry w w' key rs rs' o e d l k r v =
    let c = compute_workflow_state rs e in
    let (p, (e₁, l₁, h)) = settle_dry w key e c o d in
    let o₁ = settle w key e c o in
    let c₁ = compute_workflow_state rs' e₁ in
    let v₁ = compute_workflow_state_verdict rs' e₁ ∙ v in
    let same : e₁.state ≡ some c₁.state =
      h ∙ ap some (compute_workflow_state_verdict rs e ∙ sym v₁) in
    rw (observe_settled w key rs o e l k, observe_settled w' key rs' o₁ e₁ l₁ (ap is_pending v ∙ k))
      (settle_unchanged w' key e₁ c₁ o₁ same (ap is_red v₁ ∙ r) ∙ p)
