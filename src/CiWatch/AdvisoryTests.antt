-- ===== src/CiWatch/AdvisoryTests.antt =====
-- The dependabot pass of adapters/ci-watch on small inputs, and its theorems there.
use nervous_bus.Prelude.{
  ◌≤◌, ◌≡◌, refl, false, some, List, [], ◌∷◌, ◌&&◌, not, ◌==◌, lookup, All, codes_eq, str_strip,
  lstrip, rstrip, rstrip_step, is_space, lower, one_of,
}
use nervous_bus.CiWatch.Dependabot.{
  Alert, Fetched, Surroundings, run_dependabot_pass, critical_ids, add_critical, add_member, place,
  has_severity,
}
use nervous_bus.CiWatch.Advisories.{asked, is_known, passes, passes_once}
use nervous_bus.CiWatch.Backlog.{gives_counts, pass_failed}

abbrev alerts : List Alert
alerts =
    record { severity = some "Critical "; ghsa_id = some "GHSA-b" }
    ∷ record { severity = some "critical"; ghsa_id = some "GHSA-a" }
    ∷ record { severity = some "low"; ghsa_id = some "GHSA-c" }
    ∷ record { severity = some "critical"; ghsa_id = some "GHSA-b" }
    ∷ []

critical_ids-alerts : critical_ids alerts ≡ "GHSA-a" ∷ "GHSA-b" ∷ []
unfolding critical_ids add_critical add_member place has_severity codes_eq str_strip lstrip rstrip
    rstrip_step is_space lower one_of
critical_ids-alerts = refl

abbrev around : Surroundings
around = record {
  now = 100;
  dry_run = false;
  fetch = λ repo. Fetched.fetched alerts;
  create_bead = λ repo id. some id;
}

abbrev offline : Surroundings
offline = record around { fetch = λ repo. Fetched.failed "403" }

passes_once_example :
    (asked "o/r" "GHSA-a" (passes ((around, "o/r" ∷ []) ∷ (around, "o/r" ∷ []) ∷ []) []) ≤ 1)
    × ((is_known "o/r" "GHSA-a" []
          && not (
              asked "o/r" "GHSA-a" (passes ((around, "o/r" ∷ []) ∷ (around, "o/r" ∷ []) ∷ []) [])
              == 0))
        ≡ false)
passes_once_example =
    passes_once "o/r" "GHSA-a" ((around, "o/r" ∷ []) ∷ (around, "o/r" ∷ []) ∷ []) []
      (refl, (refl, tt))

pass_failed_example :
    (lookup "o/r" (run_dependabot_pass offline ("o/r" ∷ []) []).state ≡ lookup "o/r" [])
    × (asked "o/r" "GHSA-a" (run_dependabot_pass offline ("o/r" ∷ []) []).requested ≡ 0)
    × All (λ x. gives_counts "o/r" x ≡ false) (run_dependabot_pass offline ("o/r" ∷ []) []).results
pass_failed_example = pass_failed "o/r" offline "403" ("o/r" ∷ []) [] "GHSA-a" refl
