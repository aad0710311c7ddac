-- ===== src/Recorder/Features.antt =====
-- The dispatch counts of adapters/reflex-recorder/skill_usage.py agree with one another.
use nervous_bus.Prelude.{
  ℕ, ◌+◌, ◌≤◌, ◌≡◌, String, Option, none, some, List, [], ◌∷◌, Dict, lookup, sum_values,
  sum_values-insert, or_default, arith, str_eq, eq_iff, refl, ap, one_of, Bool, true, false, ◌&&◌,
  ◌||◌, if_both, Bool-cases, Option-cases, if◌then◌else◌, inl, inr,
}
use nervous_bus.Recorder.Keys.{Activity}
use nervous_bus.Recorder.Enrich.{add_to, is_tool_call}
use nervous_bus.Recorder.Skills.{
  Reading, State, Signal, Dispatch, Usage, no_dispatch, no_usage, count_model, count_dispatch,
  fold_signal, fold_signals, fold_all, features_from_events, fold_skill_features, extract_signals,
  subagent_name, file_reads, skill_signals, signals_of, dispatch_signal, skill_name, non_empty,
}

-- The number that a tally counts in all.
abbrev pub tallied : Dict ℕ → ℕ
tallied d = sum_values (λ n. n) d

tallied-add_to : (k : String) (n : ℕ) (d : Dict ℕ) → tallied (add_to k n d) ≡ tallied d + n
unfolding add_to
tallied-add_to k n d =
    let change = sum_values-insert (λ m. m) k (or_default (lookup k d) 0 + n) d in
    elim (Option-cases (lookup k d)) [
      | inl e ↦ rw e (omega (arith, rw e at change))
      | inr (m, e) ↦ rw e (omega (arith, rw e at change))
    ]

-- Every dispatch has its model named, missing or unknown, and one type of subagent.
pub record IsBalanced (d : Dispatch) : Type 0 where
  pub models : d.total ≡ tallied d.by_model + d.model_missing + d.model_unknown
  pub subagents : d.total ≡ tallied d.by_subagent_type
  pub worktrees : d.isolated ≤ d.total

isolated_le :
    (iso : Option String) (d : Dispatch)
    → IsBalanced d
    → (if str_eq (or_default iso "") "worktree" then d.isolated + 1 else d.isolated) ≤ d.total + 1
isolated_le iso d b = elim (Bool-cases (str_eq (or_default iso "") "worktree")) [
  | inl e ↦ rw e (omega (arith, b.worktrees))
  | inr e ↦ rw e (omega (arith, b.worktrees))
]

count_dispatch-IsBalanced :
    (model sub iso : Option String) (m s : State) (d : Dispatch)
    → IsBalanced d
    → IsBalanced (count_dispatch model m sub s iso d)
unfolding count_dispatch count_model
count_dispatch-IsBalanced model sub iso State.explicit s d b = record {
  models = omega (arith, b.models, tallied-add_to (or_default model "") 1 d.by_model);
  subagents = omega (arith, b.subagents, tallied-add_to (subagent_name sub s) 1 d.by_subagent_type);
  worktrees = isolated_le iso d b;
}
count_dispatch-IsBalanced model sub iso State.missing s d b = record {
  models = omega (arith, b.models);
  subagents = omega (arith, b.subagents, tallied-add_to (subagent_name sub s) 1 d.by_subagent_type);
  worktrees = isolated_le iso d b;
}
count_dispatch-IsBalanced model sub iso State.unknown s d b = record {
  models = omega (arith, b.models);
  subagents = omega (arith, b.subagents, tallied-add_to (subagent_name sub s) 1 d.by_subagent_type);
  worktrees = isolated_le iso d b;
}

no_dispatch-IsBalanced : IsBalanced no_dispatch
no_dispatch-IsBalanced = record {
  models = omega arith;
  subagents = omega arith;
  worktrees = omega arith;
}

abbrev pub dispatch_of : Usage → Dispatch
dispatch_of u = or_default u.dispatch no_dispatch

fold_signal-IsBalanced :
    (u : Usage) (s : Signal)
    → IsBalanced (dispatch_of u)
    → IsBalanced (dispatch_of (fold_signal u s))
unfolding fold_signal
fold_signal-IsBalanced u (Signal.skill name mechanism) b = b
fold_signal-IsBalanced u (Signal.dispatch model m sub s iso) b =
    count_dispatch-IsBalanced model sub iso m s (dispatch_of u) b
fold_signal-IsBalanced u Signal.workflow b = b

fold_signals-IsBalanced :
    (u : Usage) (ss : List Signal)
    → IsBalanced (dispatch_of u)
    → IsBalanced (dispatch_of (fold_signals u ss))
unfolding fold_signals
fold_signals-IsBalanced u [] b = b
fold_signals-IsBalanced u (s ∷ ss) b =
    fold_signals-IsBalanced (fold_signal u s) ss (fold_signal-IsBalanced u s b)

fold_all-IsBalanced :
    (r : Reading) (u : Usage) (as' : List Activity)
    → IsBalanced (dispatch_of u)
    → IsBalanced (dispatch_of (fold_all r u as'))
unfolding fold_all fold_skill_features
fold_all-IsBalanced r u [] b = b
fold_all-IsBalanced r u (a ∷ as') b =
    fold_all-IsBalanced r (fold_skill_features r u a) as'
      (fold_signals-IsBalanced u (extract_signals r a) b)

-- The signals of a list that are dispatches.
abbrev dispatches_in : List Signal → ℕ
dispatches_in [] = 0
dispatches_in (Signal.skill name mechanism ∷ ss) = dispatches_in ss
dispatches_in (Signal.dispatch model m sub s iso ∷ ss) = 1 + dispatches_in ss
dispatches_in (Signal.workflow ∷ ss) = dispatches_in ss

total-count_dispatch :
    (model sub iso : Option String) (m s : State) (d : Dispatch)
    → (count_dispatch model m sub s iso d).total ≡ d.total + 1
unfolding count_dispatch count_model
total-count_dispatch model sub iso State.explicit s d = refl
total-count_dispatch model sub iso State.missing s d = refl
total-count_dispatch model sub iso State.unknown s d = refl

total-fold_signals :
    (u : Usage) (ss : List Signal)
    → (dispatch_of (fold_signals u ss)).total ≡ (dispatch_of u).total + dispatches_in ss
unfolding fold_signals fold_signal
total-fold_signals u [] = omega arith
total-fold_signals u (Signal.skill name mechanism ∷ ss) =
    total-fold_signals (fold_signal u (Signal.skill name mechanism)) ss
total-fold_signals u (Signal.dispatch model m sub s iso ∷ ss) = omega (
  arith,
  total-fold_signals (fold_signal u (Signal.dispatch model m sub s iso)) ss,
  total-count_dispatch model sub iso m s (dispatch_of u),
)
total-fold_signals u (Signal.workflow ∷ ss) = total-fold_signals (fold_signal u Signal.workflow) ss

-- A call of one of the tools that dispatch an agent.
abbrev pub is_dispatch : Activity → Bool
is_dispatch a =
    is_tool_call a
    && (str_eq (or_default a.tool_name "") "Agent" || str_eq (or_default a.tool_name "") "Task")

abbrev pub dispatch_calls : List Activity → ℕ
dispatch_calls [] = 0
dispatch_calls (a ∷ as') = (if is_dispatch a then 1 else 0) + dispatch_calls as'

dispatches_in-file_reads : (seen names : List String) → dispatches_in (file_reads seen names) ≡ 0
unfolding file_reads
dispatches_in-file_reads seen [] = refl
dispatches_in-file_reads seen (n ∷ names) =
    if_both (λ (ss : List Signal). dispatches_in ss ≡ 0) (one_of n seen)
      (dispatches_in-file_reads (n ∷ seen) names) (dispatches_in-file_reads (n ∷ seen) names)

dispatches_in-skill_signals : (o : Option String) → dispatches_in (skill_signals o) ≡ 0
unfolding skill_signals
dispatches_in-skill_signals none = refl
dispatches_in-skill_signals (some name) = refl

skill_only :
    (tool : String)
    → str_eq tool "Skill" ≡ true
    → (str_eq tool "Agent" || str_eq tool "Task") ≡ false
skill_only tool h =
    ap (λ (t : String). str_eq t "Agent" || str_eq t "Task") ((eq_iff tool "Skill").0 h)

dispatches_in-signals_of :
    (r : Reading) (tool summary : String)
    → dispatches_in (signals_of r tool summary)
      ≡ (if str_eq tool "Agent" || str_eq tool "Task" then 1 else 0)
unfolding signals_of dispatch_signal
dispatches_in-signals_of r tool summary = elim (Bool-cases (str_eq tool "Skill")) [
  | inl e ↦
      rw (e, skill_only tool e)
        (dispatches_in-skill_signals (non_empty (skill_name r (r.parse summary) summary)))
  | inr e ↦ elim (Bool-cases (str_eq tool "Agent" || str_eq tool "Task")) [
    | inl k ↦ rw (e, k) (omega arith)
    | inr k ↦
        rw (e, k)
          (if_both (λ (ss : List Signal). dispatches_in ss ≡ 0) (str_eq tool "Workflow") refl
            (dispatches_in-file_reads [] (r.skill_files summary)))
  ]
]

dispatches_in-extract_signals :
    (r : Reading) (a : Activity)
    → dispatches_in (extract_signals r a) ≡ (if is_dispatch a then 1 else 0)
unfolding extract_signals
dispatches_in-extract_signals r a = elim (Bool-cases (is_tool_call a)) [
  | inl e ↦
      rw e (dispatches_in-signals_of r (or_default a.tool_name "") (or_default a.tool_summary ""))
  | inr e ↦ rw e refl
]

total-fold_all :
    (r : Reading) (u : Usage) (as' : List Activity)
    → (dispatch_of (fold_all r u as')).total ≡ (dispatch_of u).total + dispatch_calls as'
unfolding fold_all fold_skill_features
total-fold_all r u [] = omega arith
total-fold_all r u (a ∷ as') = omega (
  arith,
  total-fold_all r (fold_signals u (extract_signals r a)) as',
  total-fold_signals u (extract_signals r a),
  dispatches_in-extract_signals r a,
)

-- Over the events of a run whose summaries hold texts, the dispatches counted are the calls of Agent
-- and Task: each is counted once by its model (a named one, missing or unknown) and once by its type of
-- subagent, and no more dispatches are isolated than there are.
pub features_from_events-IsBalanced :
    (r : Reading) (as' : List Activity)
    → ((dispatch_of (features_from_events r as')).total ≡ dispatch_calls as')
      × IsBalanced (dispatch_of (features_from_events r as'))
unfolding features_from_events
features_from_events-IsBalanced r as' = (
  omega (arith, total-fold_all r no_usage as'),
  fold_all-IsBalanced r no_usage as' no_dispatch-IsBalanced,
)
