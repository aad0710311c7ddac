-- ===== src/Recorder/Skills.antt =====
-- adapters/reflex-recorder/skill_usage.py: skill loads and dispatches of an activity, folded into
-- the features of its run. The tree that a skill was read from is left out, which no feature holds.
use nervous_bus.Prelude.{
  ℕ, ◌+◌, String, Option, none, some, List, [], ◌∷◌, str_eq, one_of, ◌||◌, or_default, first_some,
  or_text, Dict, lookup, insert, if◌then◌else◌,
}
use nervous_bus.Recorder.Keys.{Activity, some_text}
use nervous_bus.Recorder.Enrich.{add_to, is_tool_call}

-- `json.loads` of a summary, `none` if it is no object (its fields are texts), and the regular
-- expressions on a summary.
pub record Reading : Type 0 where
  pub parse : String → Option (Dict String)
  pub search_skill : String → Option String
  pub search_field : String → String → Option String
  pub skill_files : String → List String

pub data State : Type 0 where
  explicit missing unknown : State

pub data Signal : Type 0 where
  skill : (name mechanism : String) → Signal
  dispatch :
      (model : Option String) (model_state : State) (subagent_type : Option String)
      (subagent_type_state : State) (isolation : Option String)
      → Signal
  workflow : Signal

unfoldable pub tri_known : Option String → State → Option String × State
tri_known none otherwise = (none, otherwise)
tri_known (some v) otherwise = (some v, State.explicit)

unfoldable pub non_empty : Option String → Option String
non_empty none = none
non_empty (some s) = some_text s

-- `_tri`
unfoldable pub tri : Reading → Option (Dict String) → String → String → Option String × State
unfolding tri_known non_empty
tri r (some fields) summary key = tri_known (non_empty (lookup key fields)) State.missing
tri r none summary key = tri_known (r.search_field key summary) State.unknown

unfoldable pub skill_name : Reading → Option (Dict String) → String → Option String
unfolding non_empty
skill_name r none summary = r.search_skill summary
skill_name r (some fields) summary =
    first_some (non_empty (lookup "skill" fields)) (r.search_skill summary)

unfoldable pub skill_signals : Option String → List Signal
skill_signals none = []
skill_signals (some name) = Signal.skill name "skill_tool" ∷ []

unfoldable pub dispatch_signal :
    Option String × State → Option String × State → Option String × State → Signal
dispatch_signal (model, model_state) (sub, sub_state) (iso, iso_state) =
    Signal.dispatch model model_state sub sub_state iso

-- one signal for each name, in the order of the first mentions
unfoldable pub file_reads : List String → List String → List Signal
file_reads seen [] = []
file_reads seen (name ∷ names) =
    let rest = file_reads (name ∷ seen) names in
    if one_of name seen then rest else Signal.skill name "file_read" ∷ rest

unfoldable pub signals_of : Reading → String → String → List Signal
unfolding skill_signals skill_name dispatch_signal tri file_reads
signals_of r tool summary =
    let parsed = r.parse summary in
    if str_eq tool "Skill"
    then skill_signals (non_empty (skill_name r parsed summary))
    else if str_eq tool "Agent" || str_eq tool "Task"
    then dispatch_signal (tri r parsed summary "model") (tri r parsed summary "subagent_type")
        (tri r parsed summary "isolation")
      ∷ []
    else if str_eq tool "Workflow"
    then Signal.workflow ∷ []
    else file_reads [] (r.skill_files summary)

unfoldable pub extract_signals : Reading → Activity → List Signal
unfolding signals_of
extract_signals r a =
    if is_tool_call a
    then signals_of r (or_default a.tool_name "") (or_default a.tool_summary "")
    else []

pub record Dispatch : Type 0 where
  pub total : ℕ
  pub by_model : Dict ℕ
  pub by_subagent_type : Dict ℕ
  pub model_missing : ℕ
  pub model_unknown : ℕ
  pub isolated : ℕ

abbrev pub no_dispatch : Dispatch
no_dispatch = record {
  total = 0;
  by_model = [];
  by_subagent_type = [];
  model_missing = 0;
  model_unknown = 0;
  isolated = 0;
}

pub record Usage : Type 0 where
  pub skills : Dict (Dict ℕ)
  pub dispatch : Option Dispatch
  pub workflow_calls : ℕ

abbrev pub no_usage : Usage
no_usage = record { skills = []; dispatch = none; workflow_calls = 0 }

unfoldable pub count_model : Option String → State → Dispatch → Dispatch
unfolding add_to
count_model model State.explicit d = record d {
  by_model = add_to (or_default model "") 1 d.by_model;
}
count_model model State.missing d = record d { model_missing = d.model_missing + 1 }
count_model model State.unknown d = record d { model_unknown = d.model_unknown + 1 }

unfoldable pub unnamed : State → String
unnamed State.missing = "default"
unnamed State.explicit = "unknown"
unnamed State.unknown = "unknown"

unfoldable pub subagent_name : Option String → State → String
unfolding unnamed
subagent_name sub state = or_text (or_default sub "") (unnamed state)

unfoldable pub count_dispatch :
    Option String → State → Option String → State → Option String → Dispatch → Dispatch
unfolding count_model add_to subagent_name
count_dispatch model model_state sub sub_state iso d =
    let m = count_model model model_state (record d { total = d.total + 1 }) in
    record m {
      by_subagent_type = add_to (subagent_name sub sub_state) 1 m.by_subagent_type;
      isolated = if str_eq (or_default iso "") "worktree" then m.isolated + 1 else m.isolated;
    }

unfoldable pub fold_signal : Usage → Signal → Usage
unfolding count_dispatch add_to
fold_signal u (Signal.skill name mechanism) = record u {
  skills = insert name (add_to mechanism 1 (or_default (lookup name u.skills) [])) u.skills;
}
fold_signal u (Signal.dispatch model model_state sub sub_state iso) = record u {
  dispatch =
      some (count_dispatch model model_state sub sub_state iso (or_default u.dispatch no_dispatch));
}
fold_signal u Signal.workflow = record u { workflow_calls = u.workflow_calls + 1 }

unfoldable pub fold_signals : Usage → List Signal → Usage
fold_signals u [] = u
fold_signals u (s ∷ ss) = fold_signals (fold_signal u s) ss

unfoldable pub fold_skill_features : Reading → Usage → Activity → Usage
unfolding fold_signals extract_signals
fold_skill_features r u a = fold_signals u (extract_signals r a)

-- `features_from_events`, on the payloads that could be read.
unfoldable pub fold_all : Reading → Usage → List Activity → Usage
fold_all r u [] = u
fold_all r u (a ∷ as') = fold_all r (fold_skill_features r u a) as'

unfoldable pub features_from_events : Reading → List Activity → Usage
unfolding fold_all
features_from_events r as' = fold_all r no_usage as'
