-- ===== src/Train/Tests.antt =====
-- tools/maintenance-train run on a small table of beads.
use nervous_bus.Prelude.{
  starts_with, ◌≡◌, refl, true, false, none, some, List, [], ◌∷◌, String, Dict, lookup, codes_eq,
  lower, one_of,
}
use nervous_bus.Train.Select.{
  Issue, Candidate, RepoConfig, Surroundings, select, candidates, candidate_for, classify,
  has_label, short_estimate, resolve_repo, first_repo, age_of, ranked, insert_ranked, ranks_before,
  pick_from, is_fit,
}

abbrev around : Surroundings
around = record {
  now = 100;
  mentions_dependabot = λ t. false;
  ci_red_repo = λ t. none;
  gh_issue_repo = λ t. none;
  max_estimate_minutes = 60;
  repo_is_dirty = λ p. false;
  repo_has_open_train_pr = λ r. false;
  skip_dirty_check = false;
  skip_pr_check = false;
}

abbrev chore : Issue
chore = record {
  project = "bus";
  id = "b1";
  title = "tidy";
  priority = 2;
  issue_type = "task";
  created_at = some 40;
  notes = "";
  labels = "Chore" ∷ [];
  estimated_minutes = none;
  blocked = false;
}

abbrev issues : List Issue
issues =
    chore
    ∷ record chore { id = "b2"; priority = 1 }
    ∷ record chore { id = "b3"; blocked = true }
    ∷ record chore { id = "b4"; project = "web"; created_at = some 10 }
    ∷ record chore { id = "b5"; project = "none" }
    ∷ []

abbrev configs : Dict RepoConfig
configs =
    ("bus", record { path = "/bus"; gh_repo = "o/bus" })
    ∷ ("web", record { path = "/web"; gh_repo = "o/web" })
    ∷ []

abbrev ids : List Candidate → List String
ids [] = []
ids (c ∷ cs) = c.bead_id ∷ ids cs

selected : ids (select around configs 3 issues) ≡ "b2" ∷ "b4" ∷ []
unfolding select candidates candidate_for classify starts_with has_label short_estimate resolve_repo
    first_repo age_of ranked insert_ranked ranks_before pick_from is_fit lookup one_of codes_eq
    lower
selected = refl
