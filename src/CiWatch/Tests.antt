-- ===== src/CiWatch/Tests.antt =====
-- adapters/ci-watch run on small inputs.
use nervous_bus.Prelude.{
  starts_with, ◌≡◌, refl, true, false, none, some, List, [], ◌∷◌, inl, lookup, codes_eq, strip,
  drop_spaces, is_space, lower, one_of, arith,
}
use nervous_bus.CiWatch.Runs.{
  green, red, Run, Entry, Streak, classify_run, group_runs, compute_workflow_state,
  compute_workflow_state-Streak, is_red, verdict_of, red_run, count_red, collect, sort_groups,
  add_run, newest_first, insert_newest, is_ignored, any_pattern, contains,
}
use nervous_bus.CiWatch.Pass.{Surroundings, Outcome, no_entry}
use nervous_bus.CiWatch.Quiet.{observe_polls, Notified, QuietPoll, observe_polls_quiet}

abbrev run : Run
run = record {
  workflow_name = "Tests";
  head_branch = "main";
  conclusion = some "failure";
  updated_at = 50;
  url = "u";
  head_sha = "s";
  database_id = some 7;
}

abbrev older : Run
older = record run { conclusion = some " Success "; updated_at = 40 }

abbrev reds : List Run
reds = run ∷ record run { updated_at = 45 } ∷ older ∷ []

abbrev around : Surroundings
around = record {
  now = 100;
  dry_run = false;
  bead_is_open = λ b. true;
  create_bead = λ k. some "b1";
  default_branch = λ r. some "main";
  fetch_runs = λ r. older ∷ run ∷ record run { head_branch = "dev" } ∷ [];
}

abbrev entry : Entry
entry = record no_entry { state = some red; bead_id = some "b1"; last_notified_at = some 90 }

abbrev kept : Outcome
kept = record { state = ("k", entry) ∷ []; published = []; filed = [] }

abbrev unfiled : Entry
unfiled = record entry { bead_id = none }

abbrev fresh : Outcome
fresh = record { state = ("k", unfiled) ∷ []; published = []; filed = [] }

grouped :
    group_runs (older ∷ run ∷ record run { head_branch = "dev" } ∷ []) ("main" ∷ [])
    ≡ ("Tests", "main", run ∷ older ∷ []) ∷ []
unfolding group_runs collect sort_groups add_run newest_first insert_newest one_of
grouped = refl

classified : classify_run (some " Success ") ≡ green
unfolding classify_run codes_eq strip drop_spaces is_space lower verdict_of
classified = refl

ignored : is_ignored "CodeQL Analysis" ("codeql" ∷ []) [] ≡ true
unfolding is_ignored any_pattern contains starts_with lower
ignored = refl

compute_workflow_state-Streak_example :
    Streak (compute_workflow_state reds no_entry).consecutive_failures reds
compute_workflow_state-Streak_example = compute_workflow_state-Streak reds no_entry

two_red : (compute_workflow_state reds no_entry).consecutive_failures ≡ 2
unfolding compute_workflow_state count_red red_run is_red classify_run codes_eq strip drop_spaces
    is_space lower verdict_of
two_red = refl

observe_polls_quiet_example :
    (observe_polls "k" ((around, reds) ∷ (record around { now = 5000 }, reds) ∷ []) kept).published
    ≡ []
unfolding Notified QuietPoll lookup classify_run codes_eq strip drop_spaces is_space lower
    verdict_of
observe_polls_quiet_example =
    observe_polls_quiet 90 red "k" ((around, reds) ∷ (record around { now = 5000 }, reds) ∷ []) kept
      (entry, refl, refl, refl) ((omega arith, inl refl), ((omega arith, inl refl), tt))
