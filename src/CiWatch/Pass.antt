-- ===== src/CiWatch/Pass.antt =====
-- adapters/ci-watch/watch.py: `run_pipeline_pass`, what a poll does for every workflow.
use nervous_bus.Prelude.{
  ℕ, ◌+◌, String, Bool, true, false, Option, none, some, List, [], ◌∷◌, ◌&&◌, ◌||◌, not, Dict,
  lookup, insert, str_append, leb, or_default, if◌then◌else◌,
}
use nervous_bus.CiWatch.Runs.{
  Verdict, green, red, skipped, no_runs, pending, Run, Entry, Computed, Group, is_red, is_ignored,
  group_runs, compute_workflow_state,
}

pub data Reason : Type 0 where
  transition persistent_red_reminder : Reason

pub record Payload : Type 0 where
  pub key : String
  pub state : Verdict
  pub prev_state : Option Verdict
  pub red_since : Option ℕ
  pub consecutive_failures : ℕ
  pub reason : Reason
  pub bead_id : Option String

-- What a pass meets: the time, which beads are open, the id a new bead is given, none where filing
-- fails, and the sampled runs and the default branch of a repository.
pub record Surroundings : Type 0 where
  pub now : ℕ
  pub dry_run : Bool
  pub bead_is_open : String → Bool
  pub create_bead : String → Option String
  pub default_branch : String → Option String
  pub fetch_runs : String → List Run

-- The state file, and what was published and filed, the latest first.
pub record Outcome : Type 0 where
  pub state : Dict Entry
  pub published : List Payload
  pub filed : List String

pub record Repo : Type 0 where
  pub repo : String
  pub ignore_workflows : List String
  pub branches : List String

unfoldable pub verdict_eq : Verdict → Verdict → Bool
verdict_eq green green = true
verdict_eq red red = true
verdict_eq skipped skipped = true
verdict_eq no_runs no_runs = true
verdict_eq pending pending = true
verdict_eq _ _ = false

-- The state before is "unknown" where none is kept, which no verdict equals.
unfoldable pub same_state : Verdict → Option Verdict → Bool
same_state v none = false
same_state v (some u) = verdict_eq v u

unfoldable pub reminder_due : ℕ → Option ℕ → Bool
reminder_due now none = true
reminder_due now (some at) = leb (at + 86400) now

unfoldable pub reason_for : ℕ → Verdict → Entry → Option Reason
reason_for now cur prior =
    if not (same_state cur prior.state)
    then some transition
    else if is_red cur && reminder_due now prior.last_notified_at
    then some persistent_red_reminder
    else none

-- A bead that is closed is forgotten.
unfoldable pub open_bead : (String → Bool) → Option String → Option String
open_bead is_open none = none
open_bead is_open (some b) = if is_open b then some b else none

unfoldable pub red_long : ℕ → Option ℕ → Bool
red_long now none = false
red_long now (some since) = leb (since + 21600) now

unfoldable pub should_file : ℕ → Computed → Bool
should_file now c = leb 2 c.consecutive_failures || red_long now c.red_since

-- Whether the pass asks for a bead.
unfoldable pub files : Surroundings → Computed → Option String → Bool
files w c (some b) = false
files w c none = is_red c.state && should_file w.now c

-- A dry run files nothing.
unfoldable pub file_triage_bead : Surroundings → String → Option String
file_triage_bead w key = if w.dry_run then none else w.create_bead key

unfoldable pub bead_after : Surroundings → String → Computed → Option String → Option String
bead_after w key c bead =
    if files w c bead then file_triage_bead w key else if is_red c.state then bead else none

unfoldable pub publish_event : Surroundings → Option Payload → List Payload → List Payload
publish_event w none ps = ps
publish_event w (some p) ps = if w.dry_run then ps else p ∷ ps

unfoldable pub payload_for :
    Option Reason → String → Computed → Entry → Option String → Option Payload
payload_for none key c prior bead = none
payload_for (some reason) key c prior bead = some (record {
  key = key;
  state = c.state;
  prev_state = prior.state;
  red_since = c.red_since;
  consecutive_failures = c.consecutive_failures;
  reason = reason;
  bead_id = bead;
})

-- Whether or not the event reached the bus.
unfoldable pub notified_at : Surroundings → Option Reason → Option ℕ → Option ℕ
notified_at w none at = at
notified_at w (some reason) at = if w.dry_run then at else some w.now

unfoldable pub filed_after : Surroundings → String → Bool → List String → List String
filed_after w key true fs = if w.dry_run then fs else key ∷ fs
filed_after w key false fs = fs

-- A workflow whose newest run is not pending.
unfoldable pub settle : Surroundings → String → Entry → Computed → Outcome → Outcome
settle w key prior c o =
    let reason = reason_for w.now c.state prior in
    let bead = open_bead w.bead_is_open prior.bead_id in
    let bead' = bead_after w key c bead in
    record {
      state =
          insert key
            (record {
              state = some c.state;
              run_url = c.run_url;
              head_sha = c.head_sha;
              consecutive_failures = c.consecutive_failures;
              red_since = c.red_since;
              bead_id = bead';
              last_notified_at = notified_at w reason prior.last_notified_at;
            })
            o.state;
      published = publish_event w (payload_for reason key c prior bead') o.published;
      filed = filed_after w key (files w c bead) o.filed;
    }

abbrev pub no_entry : Entry
no_entry = record {
  state = none;
  run_url = none;
  head_sha = none;
  consecutive_failures = 0;
  red_since = none;
  bead_id = none;
  last_notified_at = none;
}

unfoldable pub is_pending : Verdict → Bool
is_pending pending = true
is_pending v = false

unfoldable pub observe : Surroundings → String → List Run → Outcome → Outcome
observe w key rs o =
    let prior = or_default (lookup key o.state) no_entry in
    let c = compute_workflow_state rs prior in
    if is_pending c.state then o else settle w key prior c o

unfoldable pub state_key : String → String → String → String
state_key repo workflow branch =
    str_append repo (str_append "|" (str_append workflow (str_append "|" branch)))

unfoldable pub observe_all : Surroundings → List String → Repo → List Group → Outcome → Outcome
observe_all w ignored r [] o = o
observe_all w ignored r ((workflow, branch, rs) ∷ gs) o =
    if is_ignored workflow ignored r.ignore_workflows
    then observe_all w ignored r gs o
    else observe_all w ignored r gs (observe w (state_key r.repo workflow branch) rs o)

-- The branches of the roster, else the default branch, else none.
unfoldable pub branches_of : Surroundings → Repo → List String → List String
branches_of w r (b ∷ bs) = b ∷ bs
branches_of w r [] = only (w.default_branch r.repo)
  where
    only : Option String → List String
    only none = []
    only (some b) = b ∷ []

unfoldable pub run_repo : Surroundings → List String → Repo → List String → Outcome → Outcome
run_repo w ignored r [] o = o
run_repo w ignored r (b ∷ bs) o =
    observe_all w ignored r (group_runs (w.fetch_runs r.repo) (b ∷ bs)) o

unfoldable pub run_pipeline_pass : Surroundings → List String → List Repo → Outcome → Outcome
run_pipeline_pass w ignored [] o = o
run_pipeline_pass w ignored (r ∷ rs) o =
    run_pipeline_pass w ignored rs (run_repo w ignored r (branches_of w r r.branches) o)
