-- ===== src/CiWatch/Runs.antt =====
-- adapters/ci-watch/watch.py: the runs of a workflow and the verdict on them. Times are in seconds,
-- parsed.
use nervous_bus.Prelude.{
  starts_with, ℕ, suc, ◌+◌, ◌≤◌, ◌≡◌, refl, String, Bool, true, false, Option, none, some, List, [],
  ◌∷◌, ◌++◌, ◌&&◌, ◌||◌, map, codes, codes_eq, strip, lower, str_eq, one_of, ltb, leb, ◌==◌,
  or_default, length, take, drop, All, arith, if◌then◌else◌, Bool-cases, inl, inr, subst,
}

pub data Verdict : Type 0 where
  green red skipped no_runs pending : Verdict

pub record Run : Type 0 where
  pub workflow_name : String
  pub head_branch : String
  pub conclusion : Option String
  pub updated_at : ℕ
  pub url : String
  pub head_sha : String
  pub database_id : Option ℕ

-- What is kept of a workflow on a branch between polls.
pub record Entry : Type 0 where
  pub state : Option Verdict
  pub run_url : Option String
  pub head_sha : Option String
  pub consecutive_failures : ℕ
  pub red_since : Option ℕ
  pub bead_id : Option String
  pub last_notified_at : Option ℕ

pub record Computed : Type 0 where
  pub state : Verdict
  pub run_url : Option String
  pub head_sha : Option String
  pub database_id : Option ℕ
  pub consecutive_failures : ℕ
  pub red_since : Option ℕ

unfoldable pub classify_run : Option String → Verdict
classify_run conclusion =
    let c = map lower (strip (codes (or_default conclusion ""))) in
    if codes_eq c []
    then pending
    else if codes_eq c (codes "success")
    then green
    else if codes_eq c (codes "skipped")
    then skipped
    else red

unfoldable pub is_red : Verdict → Bool
is_red red = true
is_red v = false

-- `pat in name`
unfoldable pub contains : List ℕ → List ℕ → Bool
contains [] pat = starts_with [] pat
contains (c ∷ s) pat = starts_with (c ∷ s) pat || contains s pat

unfoldable pub any_pattern : List ℕ → List String → Bool
any_pattern name [] = false
any_pattern name (p ∷ ps) = contains name (map lower (codes p)) || any_pattern name ps

unfoldable pub is_ignored : String → List String → List String → Bool
is_ignored workflow global_ignore repo_ignore =
    any_pattern (map lower (codes workflow)) (global_ignore ++ repo_ignore)

-- A group: a workflow, a branch and its runs.
abbrev pub Group : Type 0
Group = String × String × List Run

unfoldable pub add_run : String → Run → List Group → List Group
add_run workflow r [] = (workflow, r.head_branch, r ∷ []) ∷ []
add_run workflow r ((w, b, rs) ∷ gs) =
    if str_eq w workflow && str_eq b r.head_branch
    then (w, b, rs ++ (r ∷ [])) ∷ gs
    else (w, b, rs) ∷ add_run workflow r gs

-- The newest first; runs of one time keep their order.
unfoldable pub insert_newest : Run → List Run → List Run
insert_newest r [] = r ∷ []
insert_newest r (r' ∷ rs) =
    let rest = insert_newest r rs in
    if leb r'.updated_at r.updated_at then r ∷ r' ∷ rs else r' ∷ rest

unfoldable pub newest_first : List Run → List Run
newest_first [] = []
newest_first (r ∷ rs) = insert_newest r (newest_first rs)

unfoldable pub collect : List String → List Run → List Group → List Group
collect branches [] gs = gs
collect branches (r ∷ rs) gs =
    if one_of r.head_branch branches
    then collect branches rs
        (add_run (if str_eq r.workflow_name "" then "unknown" else r.workflow_name) r gs)
    else collect branches rs gs

unfoldable pub sort_groups : List Group → List Group
sort_groups [] = []
sort_groups ((w, b, rs) ∷ gs) = (w, b, newest_first rs) ∷ sort_groups gs

unfoldable pub group_runs : List Run → List String → List Group
group_runs rs branches = sort_groups (collect branches rs [])

unfoldable pub red_run : Run → Bool
red_run r = is_red (classify_run r.conclusion)

-- The loop over the group: how many runs it counts and the time of the last of them.
unfoldable pub count_red : List Run → ℕ × Option ℕ → ℕ × Option ℕ
count_red [] acc = acc
count_red (r ∷ rs) acc =
    let rest = count_red rs (acc.0 + 1, some r.updated_at) in if red_run r then rest else acc

-- A streak that fills the sample keeps an earlier start.
unfoldable pub earlier : Option ℕ → Option ℕ → Option ℕ
earlier (some p) (some c) = if ltb p c then some p else some c
earlier prior cur = cur

unfoldable pub compute_workflow_state : List Run → Entry → Computed
compute_workflow_state [] prior = record {
  state = no_runs;
  run_url = prior.run_url;
  head_sha = prior.head_sha;
  database_id = none;
  consecutive_failures = 0;
  red_since = none;
}
compute_workflow_state (top ∷ rs) prior =
    let counted = count_red (top ∷ rs) (0, none) in
    record {
      state = classify_run top.conclusion;
      run_url = some top.url;
      head_sha = some top.head_sha;
      database_id = top.database_id;
      consecutive_failures = counted.0;
      red_since =
          (if red_run top
            then (if counted.0 == length (top ∷ rs)
                then earlier prior.red_since counted.1
                else counted.1)
            else none);
    }

pub IsRed : Run → Type 0
IsRed r = red_run r ≡ true

-- The runs from a position on start with one that is not red, if there are any.
pub StopsRed : List Run → Type 0
StopsRed [] = Unit
StopsRed (r ∷ rs) = red_run r ≡ false

-- What the counted failures are.
unfoldable pub Streak : ℕ → List Run → Type 0
Streak n rs = (n ≤ length rs) × All IsRed (take n rs) × StopsRed (drop n rs)

count_red-Streak :
    (rs : List Run) (k : ℕ) (o : Option ℕ)
    → (n : ℕ) × ((count_red rs (k, o)).0 ≡ k + n) × Streak n rs
unfolding count_red Streak StopsRed IsRed
count_red-Streak [] k o = (0, omega arith, (omega arith, tt, tt))
count_red-Streak (r ∷ rs) k o = elim (Bool-cases (red_run r)) [
  | inl e ↦
      let (n, p, s) = count_red-Streak rs (k + 1) (some r.updated_at) in
      (suc n, rw e (omega (arith, p)), (omega (arith, s.0), (e, s.1), s.2))
  | inr e ↦ (0, rw e (omega arith), (omega arith, tt, e))
]

-- The failures counted of a group are its longest leading streak of red runs: that many runs at the
-- head are red, and the next one, if any, is not.
pub compute_workflow_state-Streak :
    (rs : List Run) (prior : Entry)
    → Streak (compute_workflow_state rs prior).consecutive_failures rs
unfolding compute_workflow_state Streak StopsRed
compute_workflow_state-Streak [] prior = (omega arith, tt, tt)
compute_workflow_state-Streak (r ∷ rs) prior =
    let (n, p, s) = count_red-Streak (r ∷ rs) 0 none in
    let e : n ≡ (count_red (r ∷ rs) (0, none)).0 = omega (arith, p) in
    subst (λ m. Streak m (r ∷ rs)) e s

-- The verdict on a group is that on its newest run.
unfoldable pub verdict_of : List Run → Verdict
verdict_of [] = no_runs
verdict_of (top ∷ rs) = classify_run top.conclusion

pub compute_workflow_state_verdict :
    (rs : List Run) (prior : Entry) → (compute_workflow_state rs prior).state ≡ verdict_of rs
unfolding compute_workflow_state verdict_of
compute_workflow_state_verdict [] prior = refl
compute_workflow_state_verdict (r ∷ rs) prior = refl
