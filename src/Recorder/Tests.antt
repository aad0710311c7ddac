-- ===== src/Recorder/Tests.antt =====
-- The recorder on concrete activities, and its theorems there.
use nervous_bus.Prelude.{
  Dict, ◌+◌, ◌≡◌, refl, String, false, none, some, List, [], ◌∷◌, ◌++◌, lookup, sum_values, count,
  or_text, join, split, begin_with,
}
use mathlib.Core.List.{reverse}
use nervous_bus.Recorder.Keys.{
  Activity, conversation_of, extract_worktree_slug, compute_run_key, reconstruct_worktree_path,
  after_prefix, last_anchor, later, ends_in_z, cut_fraction, ts_to_str,
}
use nervous_bus.Recorder.Paths.{
  free_of, read_key, read_key-compute_run_key, reconstruct_worktree_path_lem,
}
use nervous_bus.Recorder.Enrich.{
  derive_bead_id, starts_with_any, bead_of_branch, bead_after, bead_if, looks_like_bead_id, has_two,
  first_text, are_bead_segments, is_short_id, is_project_part, all_alnum, is_lower, is_digit,
}
use nervous_bus.Recorder.Skills.{Reading, features_from_events}
use nervous_bus.Recorder.Segment.{
  Host, Reason, Call, tick, idle_runs, shutdown, steps, empty_segmenter,
}
use nervous_bus.Recorder.Chain.{IsChained, restored, steps-IsChained, steps-IsValid, empty-IsValid}
use nervous_bus.Recorder.Accounts.{closed_events, events_of, brings, steps-accounted}
use nervous_bus.Recorder.Closing.{payloads, fresh_run, tick_lem, shutdown_lem}
use nervous_bus.Recorder.Features.{
  IsBalanced, dispatch_of, features_from_events-IsBalanced, dispatch_calls, dispatch_calls,
}

abbrev blank : Activity
blank = record {
  event = some "tool_call";
  ts = some "2026-06-13T05:09:49.544Z";
  time = none;
  conversation_id = some "c1";
  session_id = some "s1";
  agent_id = none;
  project = some "bus";
  agent_kind = none;
  worktree = none;
  cwd = some "/home/x/data/worktrees/bus/slug/src";
  git_branch = none;
  tool_name = some "Agent";
  model = none;
  input_tokens = none;
  output_tokens = none;
  cache_read_tokens = none;
  cache_write_tokens = none;
  tool_is_error = false;
  tool_error_type = none;
  tool_summary = none;
}

abbrev last_word : Activity
last_word = record blank { event = some "ended" }

abbrev in_tree : Activity
in_tree = record blank { cwd = some "/home/x/bus/.claude/worktrees/slug/src" }

abbrev reading : Reading
reading = record {
  parse = λ s. none;
  search_skill = λ s. none;
  search_field = λ k s. none;
  skill_files = λ s. [];
}

abbrev host : Host
host = record { idle_timeout = 900; now_utc = λ t. "now"; git = λ path. none; reading = reading }

-- One run that ends, its continuation that falls idle, and a run of a worktree that stays open.
abbrev calls : List Call
calls =
    Call.ingested "u1" blank 10
    ∷ Call.ingested "u2" last_word 20
    ∷ Call.ingested "u3" blank 30
    ∷ Call.ticked 931
    ∷ Call.ingested "u4" in_tree 940
    ∷ []

ts_to_str-fraction : ts_to_str "2026-06-13T05:09:49.544Z" ≡ "2026-06-13T05:09:49Z"
unfolding ts_to_str cut_fraction ends_in_z split begin_with
ts_to_str-fraction = refl

derive_bead_id-loom : derive_bead_id (some "loom/loom-yluar") ≡ some "loom-yluar"
unfolding derive_bead_id starts_with_any after_prefix bead_of_branch bead_after bead_if
    looks_like_bead_id split begin_with has_two first_text are_bead_segments is_short_id
    is_project_part all_alnum is_lower is_digit
derive_bead_id-loom = refl

derive_bead_id-worktree : derive_bead_id (some "worktree-agent-a3f12") ≡ none
unfolding derive_bead_id starts_with_any after_prefix bead_of_branch bead_after bead_if
    looks_like_bead_id split begin_with has_two first_text are_bead_segments is_short_id
    is_project_part all_alnum is_lower is_digit
derive_bead_id-worktree = refl

read_key-compute_run_key_example :
    read_key (compute_run_key in_tree).key
    ≡ (conversation_of in_tree, extract_worktree_slug in_tree)
unfolding conversation_of free_of or_text
read_key-compute_run_key_example = read_key-compute_run_key in_tree refl

reconstruct_worktree_path_lem_example :
    reconstruct_worktree_path blank "slug" ≡ some "/home/x/data/worktrees/bus/slug"
unfolding join split begin_with last_anchor later
reconstruct_worktree_path_lem_example =
    reconstruct_worktree_path_lem blank ("" ∷ "home" ∷ "x" ∷ []) "slug" ("src" ∷ []) "data"
      (some "bus") refl refl refl refl

abbrev earlier : Dict String
earlier = ("c1", "run0") ∷ []

steps-IsChained_example : IsChained earlier (reverse (steps host calls (restored earlier)).closed)
steps-IsChained_example = steps-IsChained earlier host calls

steps-accounted_example :
    closed_events "c1" (steps host calls empty_segmenter).closed
      + sum_values (events_of "c1") (steps host calls empty_segmenter).runs
    ≡ count (brings "c1") calls
steps-accounted_example = steps-accounted "c1" host calls

tick_lem_example :
    ((tick host 931 (steps host calls empty_segmenter)).closed
      ≡ (steps host calls empty_segmenter).closed
        ++ payloads host Reason.idle_timeout
            (idle_runs host 931 (steps host calls empty_segmenter).runs))
    × ((j : String)
        → lookup j (tick host 931 (steps host calls empty_segmenter)).runs
          ≡ fresh_run host 931 (lookup j (steps host calls empty_segmenter).runs))
tick_lem_example =
    tick_lem host 931 (steps host calls empty_segmenter)
      (steps-IsValid host calls empty_segmenter empty-IsValid)

shutdown_lem_example :
    ((shutdown host (steps host calls empty_segmenter)).runs ≡ [])
    × ((shutdown host (steps host calls empty_segmenter)).closed
        ≡ (steps host calls empty_segmenter).closed
          ++ payloads host Reason.recorder_shutdown (steps host calls empty_segmenter).runs)
shutdown_lem_example =
    shutdown_lem host (steps host calls empty_segmenter)
      (steps-IsValid host calls empty_segmenter empty-IsValid)

features_from_events-IsBalanced_example :
    ((dispatch_of (features_from_events reading (blank ∷ in_tree ∷ []))).total
      ≡ dispatch_calls (blank ∷ in_tree ∷ []))
    × IsBalanced (dispatch_of (features_from_events reading (blank ∷ in_tree ∷ [])))
features_from_events-IsBalanced_example =
    features_from_events-IsBalanced reading (blank ∷ in_tree ∷ [])
