-- ===== src/CiWatch/Backlog.antt =====
-- What the dependabot pass of adapters/ci-watch/watch.py does when gh fails, and on the first poll of a
-- repository: proofs about Dependabot.
use nervous_bus.Prelude.{
  ◌≡◌, refl, sym, ap, ◌∙◌, String, Bool, true, false, none, List, [], ◌∷◌, ◌++◌, ◌&&◌, not, Dict,
  lookup, lookup-insert, one_of, keep, str_eq, eq_iff, Bool-cases, inl, inr, arith, is_some, All,
  and_false,
}
use mathlib.Core.Bool.{false≢true}
use nervous_bus.CiWatch.Dependabot.{
  Alert, Entry, Fetched, Pass, Result, Surroundings, prior_of, critical_ids, requests, settle_repo,
  take_repo, take_repos, run_dependabot_pass,
}
use nervous_bus.CiWatch.Advisories.{asked, asked-append, asked-requests, entry_after, new_ids}

abbrev has_failed : Fetched → Bool
has_failed (Fetched.failed e) = true
has_failed (Fetched.fetched as') = false

-- A result that gives counts for the repository.
abbrev pub gives_counts : String → Result → Bool
gives_counts r x = str_eq x.repo r && is_some x.counts

record IsUntouched (r : String) (o o' : Pass) : Type 0 where
  same_entry : lookup r o'.state ≡ lookup r o.state
  same_asked : (i : String) → asked r i o'.requested ≡ asked r i o.requested
  unknown :
      All (λ x. gives_counts r x ≡ false) o.results → All (λ x. gives_counts r x ≡ false) o'.results

All-snoc :
    (p : Result → Bool) (xs : List Result) (y : Result)
    → p y ≡ false
    → All (λ x. p x ≡ false) xs
    → All (λ x. p x ≡ false) (xs ++ y ∷ [])
All-snoc p [] y h a = (h, tt)
All-snoc p (x ∷ xs) y h a = (a.0, All-snoc p xs y h a.1)

module _ (r : String) (w : Surroundings) where
  other_entry :
      (s : String) (as' : List Alert) (o : Pass)
      → str_eq s r ≡ false
      → lookup r (settle_repo w s as' o).state ≡ lookup r o.state
  unfolding settle_repo
  other_entry s as' o e = elim (Bool-cases w.dry_run) [
    | inl d ↦ rw d refl
    | inr d ↦ rw (d, lookup-insert s r (entry_after w s as' o) o.state, e) refl
  ]

  other_asked :
      (s : String) (as' : List Alert) (o : Pass)
      → str_eq s r ≡ false
      → (i : String) → asked r i (settle_repo w s as' o).requested ≡ asked r i o.requested
  unfolding settle_repo
  other_asked s as' o e i =
      let new = new_ids w s as' o in
      let none_for_r = rw e at (asked-requests r i s new) in
      elim (Bool-cases w.dry_run) [
        | inl d ↦ rw d (omega (arith, asked-append r i o.requested []))
        | inr d ↦ rw d (omega (arith, asked-append r i o.requested (requests s new), none_for_r))
      ]

  other-IsUntouched :
      (s : String) (as' : List Alert) (o : Pass)
      → str_eq s r ≡ false
      → IsUntouched r o (settle_repo w s as' o)
  other-IsUntouched s as' o e = record {
    same_entry = other_entry s as' o e;
    same_asked = other_asked s as' o e;
    unknown = λ a. unfold settle_repo in All-snoc (gives_counts r) o.results _ (rw e refl) a;
  }

  failed-IsUntouched :
      (s error : String) (o : Pass) → IsUntouched r o (take_repo w s (Fetched.failed error) o)
  unfolding take_repo
  failed-IsUntouched s error o = record {
    same_entry = refl;
    same_asked = λ i. refl;
    unknown = λ a. All-snoc (gives_counts r) o.results _ (and_false (str_eq s r)) a;
  }

  one-IsUntouched :
      (error : String) (s : String) (f : Fetched) (o : Pass)
      → w.fetch r ≡ Fetched.failed error
      → w.fetch s ≡ f
      → IsUntouched r o (take_repo w s f o)
  one-IsUntouched error s (Fetched.failed e) o h hs = failed-IsUntouched s e o
  one-IsUntouched error s (Fetched.fetched as') o h hs = elim (Bool-cases (str_eq s r)) [
    | inl e ↦ absurd (
        false≢true (
          sym (ap has_failed hs)
          ∙ ap (λ (x : String). has_failed (w.fetch x)) ((eq_iff s r).0 e)
          ∙ ap has_failed h))
    | inr e ↦ unfold take_repo in other-IsUntouched s as' o e
  ]

  all-IsUntouched :
      (error : String) (rs : List String) (o : Pass)
      → w.fetch r ≡ Fetched.failed error
      → IsUntouched r o (take_repos w rs o)
  unfolding take_repos
  all-IsUntouched error [] o h = record {
    same_entry = refl;
    same_asked = λ i. refl;
    unknown = λ a. a;
  }
  all-IsUntouched error (s ∷ rs) o h =
      let first = one-IsUntouched error s (w.fetch s) o h refl in
      let rest = all-IsUntouched error rs (take_repo w s (w.fetch s) o) h in
      record {
        same_entry = rest.same_entry ∙ first.same_entry;
        same_asked = λ i. rest.same_asked i ∙ first.same_asked i;
        unknown = λ a. rest.unknown (first.unknown a);
      }

  -- A failure of gh is never taken for an absence of alerts: the entry of a repository whose alerts
  -- cannot be read stays as it is, no bead is asked for it, and no result of the pass gives counts
  -- for it.
  pub pass_failed :
      (error : String) (roster : List String) (state : Dict Entry) (i : String)
      → w.fetch r ≡ Fetched.failed error
      → (lookup r (run_dependabot_pass w roster state).state ≡ lookup r state)
        × (asked r i (run_dependabot_pass w roster state).requested ≡ 0)
        × All (λ x. gives_counts r x ≡ false) (run_dependabot_pass w roster state).results
  unfolding run_dependabot_pass
  pass_failed error roster state i h =
      let start : Pass = record { state = state; requested = []; published = []; results = [] } in
      let u = all-IsUntouched error roster start h in (u.same_entry, u.same_asked i, u.unknown tt)

keep_all : (xs : List String) → keep (λ x. not (one_of x [])) xs ≡ xs
unfolding one_of
keep_all [] = refl
keep_all (x ∷ xs) = ap (λ ys. x ∷ ys) (keep_all xs)

-- On its first real poll a repository is asked a bead for each of its open critical advisories, and
-- not only for those that appear later.
pub first_poll_requests :
    (w : Surroundings) (repo : String) (state : Dict Entry) (alerts : List Alert)
    → w.dry_run ≡ false
    → w.fetch repo ≡ Fetched.fetched alerts
    → lookup repo state ≡ none
    → (run_dependabot_pass w (repo ∷ []) state).requested ≡ requests repo (critical_ids alerts)
unfolding run_dependabot_pass take_repos take_repo settle_repo prior_of
first_poll_requests w repo state alerts d f h = rw (f, d, h, keep_all (critical_ids alerts)) refl
