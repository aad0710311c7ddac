-- ===== src/Train/Select.antt =====
-- tools/maintenance-train/selector.py: which open beads a run takes up. Ages are in seconds, and a
-- bead dated after the present has age 0.
use nervous_bus.Prelude.{
  starts_with, ℕ, ◌-◌, String, Bool, false, Option, none, some, List, [], ◌∷◌, ◌&&◌, ◌||◌, not, map,
  codes, codes_eq, lower, str_eq, one_of, ltb, leb, ◌==◌, is_none, Dict, lookup, if◌then◌else◌,
}

pub record Issue : Type 0 where
  pub project : String
  pub id : String
  pub title : String
  pub priority : ℕ
  pub issue_type : String
  pub created_at : Option ℕ
  pub notes : String
  pub labels : List String
  pub estimated_minutes : Option ℕ
  pub blocked : Bool

pub record Candidate : Type 0 where
  pub bead_id : String
  pub priority : ℕ
  pub reason : String
  pub repo : String
  pub age : ℕ

pub record RepoConfig : Type 0 where
  pub path : String
  pub gh_repo : String

-- The regular expressions on titles, and what git and gh answer.
pub record Surroundings : Type 0 where
  pub now : ℕ
  pub mentions_dependabot : String → Bool
  pub ci_red_repo : String → Option String
  pub gh_issue_repo : String → Option String
  pub max_estimate_minutes : ℕ
  pub repo_is_dirty : String → Bool
  pub repo_has_open_train_pr : String → Bool
  pub skip_dirty_check : Bool
  pub skip_pr_check : Bool

unfoldable pub has_label : List ℕ → List String → Bool
has_label l [] = false
has_label l (x ∷ xs) = codes_eq (map lower (codes x)) l || has_label l xs

unfoldable pub short_estimate : Surroundings → Option ℕ → Bool
short_estimate w none = false
short_estimate w (some est) = leb est w.max_estimate_minutes

unfoldable pub classify : Surroundings → Issue → Option String
classify w r =
    if starts_with (codes r.title) (codes "CI red:")
    then some "ci-watch"
    else if starts_with (codes r.title) (codes "gh-issue:")
    then some "github-relay"
    else if w.mentions_dependabot r.title || w.mentions_dependabot r.notes
    then some "dependabot"
    else if has_label (codes "maintenance") r.labels || has_label (codes "chore") r.labels
    then some "labelled"
    else if str_eq r.issue_type "chore" && short_estimate w r.estimated_minutes
    then some "estimated-chore"
    else none

unfoldable pub first_repo : Option String → Option String → String → String
first_repo (some repo) o project = repo
first_repo none (some repo) project = repo
first_repo none none project = project

unfoldable pub resolve_repo : Surroundings → String → String → String
resolve_repo w project title = first_repo (w.ci_red_repo title) (w.gh_issue_repo title) project

unfoldable pub age_of : ℕ → Option ℕ → ℕ
age_of now none = 0
age_of now (some created) = now - created

unfoldable pub candidate_for :
    Surroundings → Issue → Option String → List Candidate → List Candidate
candidate_for w r none cs = cs
candidate_for w r (some reason) cs =
    record {
      bead_id = r.id;
      priority = r.priority;
      reason = reason;
      repo = resolve_repo w r.project r.title;
      age = age_of w.now r.created_at;
    }
    ∷ cs

-- Blocked beads, beads of no class and beads of a repository without configuration are passed over.
unfoldable pub candidates : Surroundings → Dict RepoConfig → List Issue → List Candidate
candidates w cfg [] = []
candidates w cfg (r ∷ rs) =
    let rest = candidates w cfg rs in
    if r.blocked
    then rest
    else if is_none (lookup (resolve_repo w r.project r.title) cfg)
    then rest
    else candidate_for w r (classify w r) rest

-- `rank_key`: whether the first comes before the second or ranks with it.
unfoldable pub ranks_before : Candidate → Candidate → Bool
ranks_before c c' = ltb c.priority c'.priority || c.priority == c'.priority && leb c'.age c.age

unfoldable pub insert_ranked : Candidate → List Candidate → List Candidate
insert_ranked c [] = c ∷ []
insert_ranked c (c' ∷ cs) =
    let rest = insert_ranked c cs in if ranks_before c c' then c ∷ c' ∷ cs else c' ∷ rest

unfoldable pub ranked : List Candidate → List Candidate
ranked [] = []
ranked (c ∷ cs) = insert_ranked c (ranked cs)

-- What the configuration of a repository says of it; a repository without one counts as unfit.
unfoldable pub is_fit : Surroundings → Option RepoConfig → Bool
is_fit w none = false
is_fit w (some cfg) =
    (w.skip_dirty_check || not (w.repo_is_dirty cfg.path))
    && (w.skip_pr_check || not (w.repo_has_open_train_pr cfg.gh_repo))

-- The loop over the ranked candidates: `room` picks are left, and `seen` are the repositories picked
-- or excluded so far.
unfoldable pub pick_from :
    Surroundings → Dict RepoConfig → ℕ → List String → List Candidate → List Candidate
pick_from w cfg room seen [] = []
pick_from w cfg room seen (c ∷ cs) =
    let known = one_of c.repo seen in
    let fits = not known && is_fit w (lookup c.repo cfg) in
    let rest =
      pick_from w cfg (if fits then room - 1 else room) (if known then seen else c.repo ∷ seen)
        cs in
    if room == 0 then [] else if fits then c ∷ rest else rest

unfoldable pub select : Surroundings → Dict RepoConfig → ℕ → List Issue → List Candidate
select w cfg max_repos rows = pick_from w cfg max_repos [] (ranked (candidates w cfg rows))
