-- ===== src/Recorder/Segment.antt =====
-- adapters/reflex-recorder/segment.py: the open runs and how they close. A time is a number of
-- units of the clock; the identifiers of runs are drawn from outside.
use nervous_bus.Prelude.{
  ℕ, ◌+◌, ◌-◌, String, Bool, Option, none, some, List, [], ◌∷◌, ◌++◌, str_eq, ltb, or_default,
  first_some, is_empty, or_text, Dict, lookup, insert, erase, and_then, if◌then◌else◌,
}
use nervous_bus.Recorder.Keys.{
  Activity, Kind, RunKey, compute_run_key, reconstruct_worktree_path, ts_to_str, some_text,
}
use nervous_bus.Recorder.Enrich.{
  Git, Tokens, Totals, no_tokens, add_to, fold_token_features, finalize_token_features,
  derive_git_branch, derive_bead_id, is_tool_call,
}
use nervous_bus.Recorder.Skills.{Reading, Usage, no_usage, fold_skill_features}

-- What the recorder meets outside: the timeout it is started with, how a time is written, git, and
-- the reading of summaries.
pub record Host : Type 0 where
  pub idle_timeout : ℕ
  pub now_utc : ℕ → String
  pub git : Git
  pub reading : Reading

pub record OpenRun : Type 0 where
  pub run_id : String
  pub run_key : String
  pub run_key_kind : Kind
  pub project : String
  pub agent_kind : String
  pub host_conversation_id : String
  pub session_id : String
  pub agent_id : String
  pub started : String
  pub last_event_ts : ℕ
  pub event_count : ℕ
  pub tool_histogram : Dict ℕ
  pub worktree_slug : Option String
  pub worktree : Option String
  pub git_branch : Option String
  pub continues_run_id : Option String
  pub last_cwd : Option String
  pub tokens : Tokens
  pub usage : Usage

-- the first text that is there and not empty
unfoldable pub truthy : Option String → Option String
truthy none = none
truthy (some s) = some_text s

unfoldable pub count_tool : Activity → Option String → Dict ℕ → Dict ℕ
unfolding add_to
count_tool a none d = d
count_tool a (some tool) d = if is_tool_call a then add_to tool 1 d else d

unfoldable pub fold : Host → OpenRun → Activity → ℕ → OpenRun
unfolding truthy count_tool
fold h r a now = record r {
  event_count = r.event_count + 1;
  last_event_ts = now;
  git_branch = first_some (truthy r.git_branch) (first_some (truthy a.git_branch) r.git_branch);
  last_cwd = first_some (truthy a.cwd) r.last_cwd;
  tool_histogram = count_tool a (truthy a.tool_name) r.tool_histogram;
  tokens = fold_token_features r.tokens a;
  usage = fold_skill_features h.reading r.usage a;
}

pub data Reason : Type 0 where
  ended idle_timeout recorder_shutdown : Reason

-- The payload of bus.agent.run.closed: the run as it closed, and what is derived at its end. The
-- fields for labels are empty at this point.
pub record Payload : Type 0 where
  pub run : OpenRun
  pub ended : String
  pub close_reason : Reason
  pub git_branch : Option String
  pub bead_id : Option String
  pub features : Totals

unfoldable pub branch_of : Host → OpenRun → Option String
unfolding truthy
branch_of h r = first_some (truthy r.git_branch) (derive_git_branch h.git r.worktree r.last_cwd)

unfoldable pub to_closed_payload : Host → OpenRun → String → Reason → Payload
unfolding branch_of
to_closed_payload h r at reason =
    let branch = branch_of h r in
    record {
      run = r;
      ended = at;
      close_reason = reason;
      git_branch = branch;
      bead_id = derive_bead_id branch;
      features = finalize_token_features r.tokens;
    }

-- `closed` are the payloads that the callback was given, in order.
pub record Segmenter : Type 0 where
  pub runs : Dict OpenRun
  pub last_closed_id : Dict String
  pub closed : List Payload

unfoldable pub close_found :
    Host → String → String → Reason → Option OpenRun → Segmenter → Segmenter
close_found h key at reason none s = s
close_found h key at reason (some r) s = record {
  runs = erase key s.runs;
  last_closed_id = insert key r.run_id s.last_closed_id;
  closed = s.closed ++ to_closed_payload h r at reason ∷ [];
}

unfoldable pub close_run : Host → String → String → Reason → Segmenter → Segmenter
unfolding close_found
close_run h key at reason s = close_found h key at reason (lookup key s.runs) s

unfoldable pub event_ts : Activity → String
event_ts a = ts_to_str (or_text (or_default a.ts "") (or_default a.time ""))

unfoldable pub new_run : Host → RunKey → String → Option String → Activity → ℕ → OpenRun
unfolding event_ts
new_run h k ulid continues a now = record {
  run_id = ulid;
  run_key = k.key;
  run_key_kind = k.kind;
  project = or_default a.project "unknown";
  agent_kind = or_default a.agent_kind "host_claude_code";
  host_conversation_id = or_default a.conversation_id "";
  session_id = or_default a.session_id "";
  agent_id = or_default a.agent_id "";
  started = or_text (event_ts a) (h.now_utc now);
  last_event_ts = now;
  event_count = 0;
  tool_histogram = [];
  worktree_slug = k.slug;
  worktree = and_then (truthy k.slug) (λ slug. reconstruct_worktree_path a slug);
  git_branch = none;
  continues_run_id = continues;
  last_cwd = none;
  tokens = no_tokens;
  usage = no_usage;
}

unfoldable pub run_for : Host → RunKey → String → Activity → ℕ → Segmenter → OpenRun
unfolding new_run
run_for h k ulid a now s =
    or_default (lookup k.key s.runs) (new_run h k ulid (lookup k.key s.last_closed_id) a now)

unfoldable pub fold_into : Host → RunKey → String → Activity → ℕ → Segmenter → Segmenter
unfolding run_for fold
fold_into h k ulid a now s = record s {
  runs = insert k.key (fold h (run_for h k ulid a now s) a now) s.runs;
}

unfoldable pub is_ended : Activity → Bool
is_ended a = str_eq (or_default a.event "") "ended"

unfoldable pub ingest_key : Host → RunKey → String → Activity → ℕ → Segmenter → Segmenter
unfolding fold_into close_run is_ended
ingest_key h k ulid a now s =
    let s' = fold_into h k ulid a now s in
    if is_ended a
    then close_run h k.key (or_text (event_ts a) (h.now_utc now)) Reason.ended s'
    else s'

-- `ulid` is the identifier that `_ulid` would give to a new run.
unfoldable pub ingest : Host → String → Activity → ℕ → Segmenter → Segmenter
unfolding ingest_key compute_run_key
ingest h ulid a now s =
    let k = compute_run_key a in if is_empty k.key then s else ingest_key h k ulid a now s

unfoldable pub is_idle : Host → ℕ → OpenRun → Bool
is_idle h now r = ltb r.last_event_ts (now - h.idle_timeout)

unfoldable pub idle_runs : Host → ℕ → Dict OpenRun → Dict OpenRun
unfolding is_idle
idle_runs h now [] = []
idle_runs h now ((k, r) ∷ d) =
    let rest = idle_runs h now d in if is_idle h now r then (k, r) ∷ rest else rest

unfoldable pub close_each : Host → Reason → Dict OpenRun → Segmenter → Segmenter
unfolding close_run
close_each h reason [] s = s
close_each h reason ((k, r) ∷ d) s =
    close_each h reason d (close_run h k (h.now_utc r.last_event_ts) reason s)

unfoldable pub tick : Host → ℕ → Segmenter → Segmenter
unfolding close_each idle_runs
tick h now s = close_each h Reason.idle_timeout (idle_runs h now s.runs) s

unfoldable pub shutdown : Host → Segmenter → Segmenter
unfolding close_each
shutdown h s = close_each h Reason.recorder_shutdown s.runs s

-- The calls that the recorder makes.
pub data Call : Type 0 where
  ingested : (ulid : String) (a : Activity) (now : ℕ) → Call
  ticked : (now : ℕ) → Call
  stopped : Call

unfoldable pub step : Host → Call → Segmenter → Segmenter
unfolding ingest tick shutdown
step h (Call.ingested ulid a now) s = ingest h ulid a now s
step h (Call.ticked now) s = tick h now s
step h Call.stopped s = shutdown h s

unfoldable pub steps : Host → List Call → Segmenter → Segmenter
steps h [] s = s
steps h (c ∷ cs) s = steps h cs (step h c s)

abbrev pub empty_segmenter : Segmenter
empty_segmenter = record { runs = []; last_closed_id = []; closed = [] }
