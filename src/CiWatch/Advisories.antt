-- ===== src/CiWatch/Advisories.antt =====
-- The beads that the dependabot pass of adapters/ci-watch/watch.py asks for: proofs about Dependabot.
use nervous_bus.Prelude.{
  ℕ, ◌+◌, ◌≤◌, ◌≡◌, refl, sym, ap, subst, ◌∙◌, String, Bool, true, false, Option, none, some, List,
  [], ◌∷◌, ◌++◌, ◌&&◌, ◌||◌, not, is_empty, or_default, Dict, lookup, lookup-insert, one_of, count,
  keep, str_eq, eq_iff, eq_refl, if◌then◌else◌, Bool-cases, inl, inr, if_both, if_same, ◌==◌, arith,
}
use text.Mathlib.Text.{is_lt}
use Prim.Native.String.{compare}
use nervous_bus.CiWatch.Dependabot.{
  Alert, Entry, Fetched, Pass, Surroundings, no_entry, prior_of, place, add_member, union,
  add_critical, critical_ids, summarize_severity, has_severity, requests, settle_repo, take_repo,
  take_repos, run_dependabot_pass,
}

-- how often an advisory stands in a list
abbrev pub times : String → List String → ℕ
times i xs = count (λ x. str_eq i x) xs

abbrev one : Bool → ℕ
one true = 1
one false = 0

module _ (i : String) where
  times-place :
      (x : String) (xs : List String)
      → times i (place x xs) ≡ (if str_eq i x then 1 else 0) + times i xs
  unfolding place
  times-place x [] = refl
  times-place x (y ∷ ys) = elim (Bool-cases (is_lt (compare x y))) [
    | inl e ↦ rw e refl
    | inr e ↦ rw e (omega (arith, times-place x ys))
  ]

  absent_times : (xs : List String) → one_of i xs ≡ false → times i xs ≡ 0
  unfolding one_of
  absent_times [] h = refl
  absent_times (x ∷ xs) h = ground (arith, h, absent_times xs)

  one_of-place :
      (x : String) (xs : List String) → one_of i (place x xs) ≡ (str_eq i x || one_of i xs)
  unfolding place one_of
  one_of-place x [] = ground arith
  one_of-place x (y ∷ ys) = elim (Bool-cases (is_lt (compare x y))) [
    | inl e ↦ rw e refl
    | inr e ↦ rw (e, one_of-place x ys) (ground arith)
  ]

  one_of-add_member :
      (x : String) (xs : List String) → one_of i (add_member x xs) ≡ (str_eq i x || one_of i xs)
  unfolding add_member
  one_of-add_member x xs = elim (Bool-cases (one_of x xs)) [
    | inl e ↦ elim (Bool-cases (str_eq i x)) [
      | inl q ↦ rw (e, q) (ap (λ (y : String). one_of y xs) ((eq_iff i x).0 q) ∙ e)
      | inr q ↦ rw (e, q) refl
    ]
    | inr e ↦ rw e (one_of-place x xs)
  ]

  add_member-once : (x : String) (xs : List String) → times i xs ≤ 1 → times i (add_member x xs) ≤ 1
  unfolding add_member
  add_member-once x xs h = elim (Bool-cases (one_of x xs)) [
    | inl e ↦ rw e h
    | inr e ↦ elim (Bool-cases (str_eq i x)) [
      | inl q ↦
          let absent = ap (λ (y : String). one_of y xs) ((eq_iff i x).0 q) ∙ e in
          rw (e, times-place x xs, q) (omega (arith, absent_times xs absent))
      | inr q ↦ rw (e, times-place x xs, q) (omega (arith, h))
    ]
  ]

  one_of-union : (xs ys : List String) → one_of i (union xs ys) ≡ (one_of i xs || one_of i ys)
  unfolding union one_of
  one_of-union [] ys = refl
  one_of-union (x ∷ xs) ys =
      one_of-add_member x (union xs ys) ∙ rw (one_of-union xs ys) (ground arith)

  add_critical-once :
      (b : Bool) (id : Option String) (ids : List String)
      → times i ids ≤ 1
      → times i (add_critical b id ids) ≤ 1
  unfolding add_critical
  add_critical-once false id ids h = h
  add_critical-once true none ids h = h
  add_critical-once true (some id) ids h =
      if_both (λ xs. times i xs ≤ 1) (is_empty id) h (add_member-once id ids h)

  critical_ids-once : (as' : List Alert) → times i (critical_ids as') ≤ 1
  unfolding critical_ids
  critical_ids-once [] = omega arith
  critical_ids-once (a ∷ as') =
      add_critical-once (has_severity "critical" a) a.ghsa_id (critical_ids as')
        (critical_ids-once as')

  times-keep :
      (p : String → Bool) (xs : List String) → times i (keep p xs) ≡ (if p i then times i xs else 0)
  times-keep p [] = sym (if_same (p i) 0)
  times-keep p (x ∷ xs) = elim (Bool-cases (str_eq i x)) [
    | inl q ↦
        let e : p x ≡ p i = ap p (sym ((eq_iff i x).0 q)) in
        elim (Bool-cases (p i)) [
          | inl t ↦ rw (e, t, q) (omega (arith, rw t at (times-keep p xs)))
          | inr t ↦ rw (e, t) (rw t at (times-keep p xs))
        ]
    | inr q ↦ elim (Bool-cases (p x)) [
      | inl t ↦ rw (t, q) (ground (arith, times-keep p xs))
      | inr t ↦ rw (t, q) (ground (arith, times-keep p xs))
    ]
  ]

-- how often a bead was asked for an advisory of a repository
abbrev pub asked : String → String → List (String × String) → ℕ
asked r i [] = 0
asked r i ((s, j) ∷ rest) = (if str_eq s r && str_eq i j then 1 else 0) + asked r i rest

abbrev pub is_known : String → String → Dict Entry → Bool
is_known r i state = one_of i (or_default (lookup r state) no_entry).known_critical_ghsa_ids

abbrev pub new_ids : Surroundings → String → List Alert → Pass → List String
new_ids w s as' o =
    keep (λ i. not (one_of i (prior_of s o.state).known_critical_ghsa_ids)) (critical_ids as')

abbrev pub entry_after : Surroundings → String → List Alert → Pass → Entry
entry_after w s as' o = record {
  counts = some (summarize_severity as');
  known_critical_ghsa_ids = union (critical_ids as') (prior_of s o.state).known_critical_ghsa_ids;
  updated_at = w.now;
}

one_more :
    (known critical : Bool) (n : ℕ)
    → n ≤ 1
    → (critical ≡ false → n ≡ 0)
    → (if not known then n else 0) + one known ≤ one (critical || known)
one_more true true n h z = omega arith
one_more true false n h z = omega arith
one_more false true n h z = omega (arith, h)
one_more false false n h z = omega (arith, z refl)

module _ (r i : String) where
  pub asked-append :
      (xs ys : List (String × String)) → asked r i (xs ++ ys) ≡ asked r i xs + asked r i ys
  asked-append [] ys = omega arith
  asked-append ((s, j) ∷ xs) ys = omega (arith, asked-append xs ys)

  pub asked-requests :
      (s : String) (is : List String)
      → asked r i (requests s is) ≡ (if str_eq s r then times i is else 0)
  unfolding requests
  asked-requests s [] = sym (if_same (str_eq s r) 0)
  asked-requests s (j ∷ is) = elim (Bool-cases (str_eq s r)) [
    | inl e ↦ rw e (ap (λ n. (if str_eq i j then 1 else 0) + n) (rw e at (asked-requests s is)))
    | inr e ↦ rw e (omega (arith, rw e at (asked-requests s is)))
  ]

-- What a real pass adds to the requests is not known before and known after it.
settled_self :
    (i : String) (w : Surroundings) (s : String) (as' : List Alert) (o : Pass)
    → w.dry_run ≡ false
    → asked s i (settle_repo w s as' o).requested + one (is_known s i o.state)
      ≤ asked s i o.requested + one (is_known s i (settle_repo w s as' o).state)
unfolding settle_repo prior_of
settled_self i w s as' o h =
    let new = new_ids w s as' o in
    let known = (prior_of s o.state).known_critical_ghsa_ids in
    let critical = critical_ids as' in
    let for_s =
      rw (eq_refl s, times-keep i (λ j. not (one_of j known)) critical) at
        (asked-requests s i s new) in
    let more =
      one_more (one_of i known) (one_of i critical) (times i critical) (critical_ids-once i as')
        (absent_times i critical) in
    rw
      (
        h,
        lookup-insert s s (entry_after w s as' o) o.state,
        eq_refl s,
        one_of-union i critical known,
      )
      (omega (arith, asked-append s i o.requested (requests s new), for_s, more))

module _ (r i : String) where
  settled_other :
      (w : Surroundings) (s : String) (as' : List Alert) (o : Pass)
      → w.dry_run ≡ false
      → str_eq s r ≡ false
      → asked r i (settle_repo w s as' o).requested + one (is_known r i o.state)
        ≤ asked r i o.requested + one (is_known r i (settle_repo w s as' o).state)
  unfolding settle_repo
  settled_other w s as' o h e =
      let new = new_ids w s as' o in
      let none_for_r = rw e at (asked-requests r i s new) in
      rw (h, lookup-insert s r (entry_after w s as' o) o.state, e)
        (omega (arith, asked-append r i o.requested (requests s new), none_for_r))

  settled :
      (w : Surroundings) (s : String) (as' : List Alert) (o : Pass)
      → w.dry_run ≡ false
      → asked r i (settle_repo w s as' o).requested + one (is_known r i o.state)
        ≤ asked r i o.requested + one (is_known r i (settle_repo w s as' o).state)
  settled w s as' o h = elim (Bool-cases (str_eq s r)) [
    | inl e ↦
        subst
          (λ (x : String).
            asked x i (settle_repo w s as' o).requested + one (is_known x i o.state)
            ≤ asked x i o.requested + one (is_known x i (settle_repo w s as' o).state))
          ((eq_iff s r).0 e) (settled_self i w s as' o h)
    | inr e ↦ settled_other w s as' o h e
  ]

  taken :
      (w : Surroundings) (s : String) (f : Fetched) (o : Pass)
      → w.dry_run ≡ false
      → asked r i (take_repo w s f o).requested + one (is_known r i o.state)
        ≤ asked r i o.requested + one (is_known r i (take_repo w s f o).state)
  unfolding take_repo
  taken w s (Fetched.failed error) o h = omega arith
  taken w s (Fetched.fetched as') o h = settled w s as' o h

  all_taken :
      (w : Surroundings) (rs : List String) (o : Pass)
      → w.dry_run ≡ false
      → asked r i (take_repos w rs o).requested + one (is_known r i o.state)
        ≤ asked r i o.requested + one (is_known r i (take_repos w rs o).state)
  unfolding take_repos
  all_taken w [] o h = omega arith
  all_taken w (s ∷ rs) o h =
      omega (arith, taken w s (w.fetch s) o h, all_taken w rs (take_repo w s (w.fetch s) o) h)

-- Passes one after the other, each on the state that the last one saved.
unfoldable pub passes : List (Surroundings × List String) → Dict Entry → List (String × String)
passes [] state = []
passes ((w, roster) ∷ ps) state =
    let pass = run_dependabot_pass w roster state in pass.requested ++ passes ps pass.state

abbrev pub AreReal : List (Surroundings × List String) → Type 0
AreReal [] = Unit
AreReal ((w, roster) ∷ ps) = (w.dry_run ≡ false) × AreReal ps

one_le : (b : Bool) → one b ≤ 1
one_le true = omega arith
one_le false = omega arith

module _ (r i : String) where
  passes_bounded :
      (ps : List (Surroundings × List String)) (state : Dict Entry)
      → AreReal ps
      → asked r i (passes ps state) + one (is_known r i state) ≤ 1
  unfolding passes run_dependabot_pass
  passes_bounded [] state a = omega (arith, one_le (is_known r i state))
  passes_bounded ((w, roster) ∷ ps) state a =
      let start : Pass = record { state = state; requested = []; published = []; results = [] } in
      let pass = take_repos w roster start in
      omega (
        arith,
        asked-append r i pass.requested (passes ps pass.state),
        all_taken r i w roster start a.0,
        passes_bounded ps pass.state a.1,
      )

  -- Over any real passes, from any state, a bead is asked for at most once for each advisory of a
  -- repository, however often its alert comes, goes and comes back, and not at all if the state knew
  -- it.
  pub passes_once :
      (ps : List (Surroundings × List String)) (state : Dict Entry)
      → AreReal ps
      → (asked r i (passes ps state) ≤ 1)
        × ((is_known r i state && not (asked r i (passes ps state) == 0)) ≡ false)
  passes_once ps state a = (
    omega (arith, passes_bounded ps state a),
    elim (Bool-cases (is_known r i state)) [
      | inl e ↦
          let none_asked : asked r i (passes ps state) ≡ 0 =
            omega (arith, ap one e, passes_bounded ps state a) in
          rw (e, none_asked) refl
      | inr e ↦ rw e refl
    ],
  )
