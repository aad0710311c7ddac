-- ===== src/CiWatch/Dependabot.antt =====
-- adapters/ci-watch/watch.py: `run_dependabot_pass` and `build_dependabot_signal`. What gh answers for a
-- repository and the beads that bd creates are functions.
use nervous_bus.Prelude.{
  ℕ, String, Bool, true, false, Option, none, some, List, [], ◌∷◌, ◌++◌, ◌&&◌, not, map, codes,
  codes_eq, lower, str_strip, is_empty, or_default, or_text, ◌==◌, Dict, lookup, insert, one_of,
  count, keep, if◌then◌else◌, split,
}
use text.Mathlib.Text.{is_lt}
use Prim.Native.String.{compare}

pub record Alert : Type 0 where
  pub severity : Option String
  pub ghsa_id : Option String

pub record Counts : Type 0 where
  pub critical : ℕ
  pub high : ℕ
  pub moderate : ℕ
  pub low : ℕ

unfoldable pub has_severity : String → Alert → Bool
unfolding str_strip
has_severity s a = codes_eq (map lower (codes (str_strip (or_default a.severity "")))) (codes s)

unfoldable pub summarize_severity : List Alert → Counts
unfolding has_severity
summarize_severity alerts = record {
  critical = count (has_severity "critical") alerts;
  high = count (has_severity "high") alerts;
  moderate = count (has_severity "moderate") alerts;
  low = count (has_severity "low") alerts;
}

unfoldable pub counts_eq : Counts → Counts → Bool
counts_eq a b =
    a.critical == b.critical && (a.high == b.high && (a.moderate == b.moderate && a.low == b.low))

-- A set of texts is the list of its members in order, each once.
unfoldable pub place : String → List String → List String
place x [] = x ∷ []
place x (y ∷ ys) = let rest = place x ys in if is_lt (compare x y) then x ∷ y ∷ ys else y ∷ rest

unfoldable pub add_member : String → List String → List String
unfolding place
add_member x xs = if one_of x xs then xs else place x xs

unfoldable pub union : List String → List String → List String
unfolding add_member
union [] ys = ys
union (x ∷ xs) ys = add_member x (union xs ys)

unfoldable pub add_critical : Bool → Option String → List String → List String
unfolding add_member
add_critical false id ids = ids
add_critical true none ids = ids
add_critical true (some id) ids = if is_empty id then ids else add_member id ids

unfoldable pub critical_ids : List Alert → List String
unfolding add_critical has_severity
critical_ids [] = []
critical_ids (a ∷ as') = add_critical (has_severity "critical" a) a.ghsa_id (critical_ids as')

pub record Entry : Type 0 where
  pub counts : Option Counts
  pub known_critical_ghsa_ids : List String
  pub updated_at : ℕ

pub data Fetched : Type 0 where
  failed : (error : String) → Fetched
  fetched : (alerts : List Alert) → Fetched

pub data Reason : Type 0 where
  first_seen transition : Reason

pub record Payload : Type 0 where
  pub repo : String
  pub counts : Counts
  pub prev : Option Counts
  pub reason : Reason
  pub new_critical_ghsa_ids : List String

pub record Result : Type 0 where
  pub repo : String
  pub counts : Option Counts
  pub error : Option String
  pub new_critical_ghsa_ids : List String
  pub bead_ids : List String
  pub transitioned : Bool

pub record Surroundings : Type 0 where
  pub now : ℕ
  pub dry_run : Bool
  pub fetch : String → Fetched
  pub create_bead : String → String → Option String

-- The state file, the advisories that beads were asked for, what was published, and the results.
pub record Pass : Type 0 where
  pub state : Dict Entry
  pub requested : List (String × String)
  pub published : List Payload
  pub results : List Result

unfoldable pub reason_for : Option Counts → Counts → Option Reason
unfolding counts_eq
reason_for none counts = some Reason.first_seen
reason_for (some prev) counts = if counts_eq prev counts then none else some Reason.transition

unfoldable pub publish :
    String → Counts → Option Counts → List String → Option Reason → List Payload
publish repo counts prev new none = []
publish repo counts prev new (some reason) =
    record {
      repo = repo;
      counts = counts;
      prev = prev;
      reason = reason;
      new_critical_ghsa_ids = new;
    }
    ∷ []

abbrev pub is_transition : Option Reason → Bool
is_transition none = false
is_transition (some Reason.first_seen) = false
is_transition (some Reason.transition) = true

unfoldable pub requests : String → List String → List (String × String)
requests repo [] = []
requests repo (i ∷ is) = (repo, i) ∷ requests repo is

unfoldable pub bead_of : Option String → List String
bead_of none = []
bead_of (some b) = if is_empty b then [] else b ∷ []

unfoldable pub beads : (String → Option String) → List String → List String
unfolding bead_of
beads create [] = []
beads create (i ∷ is) = bead_of (create i) ++ beads create is

abbrev pub no_entry : Entry
no_entry = record { counts = none; known_critical_ghsa_ids = []; updated_at = 0 }

unfoldable pub prior_of : String → Dict Entry → Entry
prior_of repo state = or_default (lookup repo state) no_entry

unfoldable pub settle_repo : Surroundings → String → List Alert → Pass → Pass
unfolding prior_of critical_ids union requests publish reason_for beads summarize_severity
settle_repo w repo alerts o =
    let prior = prior_of repo o.state in
    let counts = summarize_severity alerts in
    let critical = critical_ids alerts in
    let new = keep (λ i. not (one_of i prior.known_critical_ghsa_ids)) critical in
    let reason = reason_for prior.counts counts in
    record {
      state =
          if w.dry_run
          then o.state
          else insert repo
              (record {
                counts = some counts;
                known_critical_ghsa_ids = union critical prior.known_critical_ghsa_ids;
                updated_at = w.now;
              })
              o.state;
      requested = o.requested ++ (if w.dry_run then [] else requests repo new);
      published =
          o.published ++ (if w.dry_run then [] else publish repo counts prior.counts new reason);
      results =
          o.results
          ++ record {
            repo = repo;
            counts = some counts;
            error = none;
            new_critical_ghsa_ids = new;
            bead_ids = if w.dry_run then [] else beads (w.create_bead repo) new;
            transitioned = is_transition reason;
          }
            ∷ [];
    }

unfoldable pub take_repo : Surroundings → String → Fetched → Pass → Pass
unfolding settle_repo
take_repo w repo (Fetched.failed error) o = record o {
  results =
      o.results
      ++ record {
        repo = repo;
        counts = none;
        error = some error;
        new_critical_ghsa_ids = [];
        bead_ids = [];
        transitioned = false;
      }
        ∷ [];
}
take_repo w repo (Fetched.fetched alerts) o = settle_repo w repo alerts o

unfoldable pub take_repos : Surroundings → List String → Pass → Pass
unfolding take_repo
take_repos w [] o = o
take_repos w (r ∷ rs) o = take_repos w rs (take_repo w r (w.fetch r) o)

unfoldable pub run_dependabot_pass : Surroundings → List String → Dict Entry → Pass
unfolding take_repos
run_dependabot_pass w roster state =
    take_repos w roster (record { state = state; requested = []; published = []; results = [] })

-- The signal of a repository: counts, or an error, never both.
pub data Signal : Type 0 where
  counted : (counts : Counts) (updated_at : ℕ) → Signal
  unknown : (error : String) → Signal

unfoldable pub after_slash : List String → String
after_slash [] = ""
after_slash (p ∷ []) = p
after_slash (p ∷ q ∷ qs) = q

-- `repo.split("/", 1)[-1]`, of a name with one slash at most
unfoldable pub basename : String → String
unfolding after_slash split
basename repo = after_slash (split b'/' repo)

unfoldable pub signal_of : ℕ → Option Counts → Option String → Signal
signal_of now (some counts) error = Signal.counted counts now
signal_of now none error = Signal.unknown (or_text (or_default error "") "unknown error")

unfoldable pub build_dependabot_signal : ℕ → List Result → Dict Signal → Dict Signal
unfolding signal_of basename
build_dependabot_signal now [] out = out
build_dependabot_signal now (r ∷ rs) out =
    build_dependabot_signal now rs (insert (basename r.repo) (signal_of now r.counts r.error) out)
