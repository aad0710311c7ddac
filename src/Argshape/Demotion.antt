-- ===== src/Argshape/Demotion.antt =====
-- A demoted fix of adapters/argshape/core.py is never applied again, and no correction is made while
-- the breaker is open.
use nervous_bus.Prelude.{
  ℕ, ◌≡◌, refl, sym, ap, ◌∙◌, String, Bool, true, false, Option, none, some, List, [], ◌∷◌, ◌++◌,
  ◌&&◌, not, inl, inr, eq_iff, eq_refl, keep, if◌then◌else◌, Bool-cases, if_both, both_true, arith,
  is_some, All, and_false,
}
use mathlib.Core.Bool.{false≢true}
use nervous_bus.Argshape.Fixes.{
  Fix, FixKey, FixKind, Source, Spec, Config, Query, key_eq, kind_eq, update_fix, find_fix, add_fix,
  count_fix, new_fix, fix_eligible, best_fix,
}
use nervous_bus.Argshape.Choice.{All-IsRow, best_fix_lem}
use nervous_bus.Argshape.Outcomes.{
  Applied, Store, Op, set_demoted, demote, demote_all, count_applied, count_ok, update_each,
  record_applied, revert, register_optout, settle_row, settle_found, settle_applied, check_breaker,
  mark_not_run, set_where, put_demoted, step, steps, is_related, all_tokens, latest, is_recent,
  find_pending,
}

kind_eq_lem : (a b : FixKind) → kind_eq a b ≡ true → a ≡ b
unfolding kind_eq
kind_eq_lem a b h = ground arith

kind_eq_self : (a : FixKind) → kind_eq a a ≡ true
unfolding kind_eq
kind_eq_self a = ground arith

key_eq_lem : (a b : FixKey) → key_eq a b ≡ true → a ≡ b
unfolding key_eq
key_eq_lem a b h =
    let h0 = both_true _ _ h in
    let h1 = both_true _ _ h0.1 in
    let h2 = both_true _ _ h1.1 in
    let h3 = both_true _ _ h2.1 in
    λ i. record {
      scope = (eq_iff a.scope b.scope).0 h0.0 i;
      ctx = (eq_iff a.ctx b.ctx).0 h1.0 i;
      kind = kind_eq_lem a.kind b.kind h2.0 i;
      bad = (eq_iff a.bad b.bad).0 h3.0 i;
      good = (eq_iff a.good b.good).0 h3.1 i;
    }

key_eq_self : (a : FixKey) → key_eq a a ≡ true
unfolding key_eq
key_eq_self a =
    rw (eq_refl a.scope, eq_refl a.ctx, eq_refl a.bad, eq_refl a.good, kind_eq_self a.kind) refl

-- The table has the key, and each of its rows under the key is demoted.
abbrev pub IsOut : FixKey → List Fix → Type 0
IsOut k fixes =
    (is_some (find_fix k fixes) ≡ true) × All (λ x. (key_eq x.key k && not x.demoted) ≡ false) fixes

-- An update that leaves keys alone and takes no demotion back.
record IsTame (f : Fix → Fix) : Type 0 where
  same_key : (x : Fix) → (f x).key ≡ x.key
  stays : (x : Fix) → x.demoted ≡ true → (f x).demoted ≡ true

out_of : (c d e : Bool) → (d ≡ true → e ≡ true) → (c && not d) ≡ false → (c && not e) ≡ false
out_of false d e h a = refl
out_of true true e h a = rw (h refl) refl
out_of true false e h a = absurd (false≢true (sym a))

count_fix-IsTame : (source : Source) (session : String) → IsTame (count_fix source session)
unfolding count_fix
count_fix-IsTame source session = record { same_key = λ x. refl; stays = λ x h. h }

count_applied-IsTame : IsTame count_applied
unfolding count_applied
count_applied-IsTame = record { same_key = λ x. refl; stays = λ x h. h }

count_ok-IsTame : IsTame count_ok
unfolding count_ok
count_ok-IsTame = record { same_key = λ x. refl; stays = λ x h. h }

set_demoted-IsTame : IsTame set_demoted
unfolding set_demoted
set_demoted-IsTame = record { same_key = λ x. refl; stays = λ x h. refl }

module _ (k : FixKey) where
  found_same :
      (x y : Fix) (o o' : Option Fix)
      → y.key ≡ x.key
      → is_some o' ≡ is_some o
      → is_some (if key_eq y.key k then some y else o')
        ≡ is_some (if key_eq x.key k then some x else o)
  found_same x y o o' e h =
      ap (λ (j : FixKey). is_some (if key_eq j k then some y else o')) e
      ∙ elim (Bool-cases (key_eq x.key k)) [ inl c ↦ rw c refl | inr c ↦ rw c h ]

  still_out :
      (x y : Fix)
      → y.key ≡ x.key
      → (x.demoted ≡ true → y.demoted ≡ true)
      → (key_eq x.key k && not x.demoted) ≡ false
      → (key_eq y.key k && not y.demoted) ≡ false
  still_out x y e stays h =
      ap (λ (j : FixKey). key_eq j k && not y.demoted) e
      ∙ out_of (key_eq x.key k) x.demoted y.demoted stays h

  find_fix-update :
      (j : FixKey) (f : Fix → Fix) (xs : List Fix)
      → IsTame f
      → is_some (find_fix k (update_fix j f xs)) ≡ is_some (find_fix k xs)
  unfolding find_fix update_fix
  find_fix-update j f [] t = refl
  find_fix-update j f (x ∷ xs) t =
      let e = if_both (λ (y : Fix). y.key ≡ x.key) (key_eq x.key j) (t.same_key x) refl in
      found_same x (if key_eq x.key j then f x else x) (find_fix k xs)
        (find_fix k (update_fix j f xs)) e (find_fix-update j f xs t)

  update_fix-All :
      (j : FixKey) (f : Fix → Fix) (xs : List Fix)
      → IsTame f
      → All (λ x. (key_eq x.key k && not x.demoted) ≡ false) xs
      → All (λ x. (key_eq x.key k && not x.demoted) ≡ false) (update_fix j f xs)
  unfolding update_fix
  update_fix-All j f [] t a = tt
  update_fix-All j f (x ∷ xs) t a = (
    if_both (λ (y : Fix). (key_eq y.key k && not y.demoted) ≡ false) (key_eq x.key j)
        (still_out x (f x) (t.same_key x) (t.stays x) a.0) a.0,
    update_fix-All j f xs t a.1,
  )

  found_append :
      (y : Fix) (xs : List Fix)
      → is_some (find_fix k xs) ≡ true
      → is_some (find_fix k (xs ++ y ∷ [])) ≡ true
  unfolding find_fix
  found_append y [] h = absurd (false≢true h)
  found_append y (x ∷ xs) h = elim (Bool-cases (key_eq x.key k)) [
    | inl e ↦ rw e refl
    | inr e ↦ rw e (found_append y xs (rw e at h))
  ]

  All-append :
      (y : Fix) (xs : List Fix)
      → key_eq y.key k ≡ false
      → All (λ x. (key_eq x.key k && not x.demoted) ≡ false) xs
      → All (λ x. (key_eq x.key k && not x.demoted) ≡ false) (xs ++ y ∷ [])
  All-append y [] e a = (rw e refl, tt)
  All-append y (x ∷ xs) e a = (a.0, All-append y xs e a.1)

  other_key :
      (j : FixKey) (source : Source) (session : String) (xs : List Fix)
      → is_some (find_fix j xs) ≡ false
      → is_some (find_fix k xs) ≡ true
      → key_eq (new_fix j source session).key k ≡ false
  unfolding new_fix
  other_key j source session xs absent there = elim (Bool-cases (key_eq j k)) [
    | inl e ↦ absurd (
        false≢true
          (sym absent ∙ ap (λ (i : FixKey). is_some (find_fix i xs)) (key_eq_lem j k e) ∙ there))
    | inr e ↦ e
  ]

  update_fix-IsOut :
      (j : FixKey) (f : Fix → Fix) (xs : List Fix)
      → IsTame f
      → IsOut k xs
      → IsOut k (update_fix j f xs)
  update_fix-IsOut j f xs t o = (find_fix-update j f xs t ∙ o.0, update_fix-All j f xs t o.1)

  update_each-IsOut :
      (f : Fix → Fix) (js : List FixKey) (xs : List Fix)
      → IsTame f
      → IsOut k xs
      → IsOut k (update_each f js xs)
  unfolding update_each
  update_each-IsOut f [] xs t o = o
  update_each-IsOut f (j ∷ js) xs t o =
      update_each-IsOut f js (update_fix j f xs) t (update_fix-IsOut j f xs t o)

  -- a row is appended under another key only
  append-IsOut :
      (y : Fix) (xs : List Fix) → key_eq y.key k ≡ false → IsOut k xs → IsOut k (xs ++ y ∷ [])
  append-IsOut y xs e o = (found_append y xs o.0, All-append y xs e o.1)

  add_fix-IsOut :
      (j : FixKey) (source : Source) (session : String) (xs : List Fix)
      → IsOut k xs
      → IsOut k (add_fix j source session xs)
  unfolding add_fix
  add_fix-IsOut j source session xs o = elim (Bool-cases (is_some (find_fix j xs))) [
    | inl e ↦
        rw e (update_fix-IsOut j (count_fix source session) xs (count_fix-IsTame source session) o)
    | inr e ↦
        rw e (append-IsOut (new_fix j source session) xs (other_key j source session xs e o.0) o)
  ]

  demote-IsOut : (j : FixKey) (s : Store) → IsOut k s.fixes → IsOut k (demote j s).fixes
  unfolding demote
  demote-IsOut j s o =
      if_both (λ (t : Store). IsOut k t.fixes) (kind_eq j.kind FixKind.shape) o
        (update_fix-IsOut j set_demoted s.fixes set_demoted-IsTame o)

  demote_all-IsOut :
      (js : List FixKey) (s : Store) → IsOut k s.fixes → IsOut k (demote_all js s).fixes
  unfolding demote_all
  demote_all-IsOut [] s o = o
  demote_all-IsOut (j ∷ js) s o = demote_all-IsOut js (demote j s) (demote-IsOut j s o)

  check_breaker-IsOut :
      (cfg : Config) (now : ℕ) (s : Store)
      → IsOut k s.fixes
      → IsOut k (check_breaker cfg now s).fixes
  unfolding check_breaker
  check_breaker-IsOut cfg now s o = if_both (λ (t : Store). IsOut k t.fixes) _ o o

  settle_row-IsOut :
      (failure : Option (List String)) (r : Applied) (s : Store)
      → IsOut k s.fixes
      → IsOut k (settle_row failure r s).fixes
  unfolding settle_row
  settle_row-IsOut none r s o = update_each-IsOut count_ok r.fixes s.fixes count_ok-IsTame o
  settle_row-IsOut (some rejected) r s o =
      demote_all-IsOut (keep (is_related (all_tokens rejected)) r.fixes) s o

  settle_found-IsOut :
      (cfg : Config) (failure : Option (List String)) (now : ℕ) (o : Option Applied) (s : Store)
      → IsOut k s.fixes
      → IsOut k (settle_found cfg failure now o s).fixes
  unfolding settle_found
  settle_found-IsOut cfg failure now none s o = o
  settle_found-IsOut cfg failure now (some r) s o =
      check_breaker-IsOut cfg now (settle_row failure r s) (settle_row-IsOut failure r s o)

  revert-IsOut : (r : Option Applied) (s : Store) → IsOut k s.fixes → IsOut k (revert r s).fixes
  unfolding revert
  revert-IsOut none s o = o
  revert-IsOut (some r) s o = demote_all-IsOut r.fixes s o

  mark_not_run-IsOut :
      (id : String) (s : Store) → IsOut k s.fixes → IsOut k (mark_not_run id s).fixes
  unfolding mark_not_run
  mark_not_run-IsOut id s o = if_both (λ (t : Store). IsOut k t.fixes) _ o o

  -- The operator's promotions leave the fix out.
  abbrev pub Spares : Op → Type 0
  Spares (Op.ordered matches false) = matches k ≡ false
  Spares (Op.ordered matches true) = Unit
  Spares (Op.added j source session) = Unit
  Spares (Op.applied_to id session now js) = Unit
  Spares (Op.settled id failure now) = Unit
  Spares (Op.opted_out session now) = Unit
  Spares (Op.refused id) = Unit

  put_out :
      (matches : FixKey → Bool) (value : Bool) (x : Fix)
      → Spares (Op.ordered matches value)
      → (key_eq x.key k && not x.demoted) ≡ false
      → (key_eq (if matches x.key then put_demoted value x else x).key k
          && not (if matches x.key then put_demoted value x else x).demoted)
        ≡ false
  unfolding put_demoted
  put_out matches true x h a = elim (Bool-cases (matches x.key)) [
    | inl e ↦ rw e (and_false (key_eq x.key k))
    | inr e ↦ rw e a
  ]
  put_out matches false x h a = elim (Bool-cases (matches x.key)) [
    | inr e ↦ rw e a
    | inl e ↦ elim (Bool-cases (key_eq x.key k)) [
      | inr other ↦ rw (e, other) refl
      | inl same ↦ absurd (false≢true (sym h ∙ sym (ap matches (key_eq_lem x.key k same)) ∙ e))
    ]
  ]

  set_where-IsOut :
      (matches : FixKey → Bool) (value : Bool) (xs : List Fix)
      → Spares (Op.ordered matches value)
      → All (λ x. (key_eq x.key k && not x.demoted) ≡ false) xs
      → (is_some (find_fix k (set_where matches value xs)) ≡ is_some (find_fix k xs))
        × All (λ x. (key_eq x.key k && not x.demoted) ≡ false) (set_where matches value xs)
  unfolding set_where find_fix
  set_where-IsOut matches value [] h a = (refl, tt)
  set_where-IsOut matches value (x ∷ xs) h a =
      let ih = set_where-IsOut matches value xs h a.1 in
      (
        found_same x (if matches x.key then put_demoted value x else x) (find_fix k xs)
            (find_fix k (set_where matches value xs))
            (if_both (λ (y : Fix). y.key ≡ x.key) (matches x.key) (unfold put_demoted in refl) refl)
            ih.0,
        (put_out matches value x h a.0, ih.1),
      )

  step-IsOut :
      (cfg : Config) (op : Op) (s : Store)
      → Spares op
      → IsOut k s.fixes
      → IsOut k (step cfg op s).fixes
  unfolding step record_applied settle_applied register_optout
  step-IsOut cfg (Op.added j source session) s h o = add_fix-IsOut j source session s.fixes o
  step-IsOut cfg (Op.applied_to id session now js) s h o =
      update_each-IsOut count_applied js s.fixes count_applied-IsTame o
  step-IsOut cfg (Op.settled id failure now) s h o =
      settle_found-IsOut cfg failure now (find_pending id s.applied) s o
  step-IsOut cfg (Op.opted_out session now) s h o =
      revert-IsOut (latest (keep (is_recent session now) s.applied)) s o
  step-IsOut cfg (Op.refused id) s h o = mark_not_run-IsOut id s o
  step-IsOut cfg (Op.ordered matches value) s h o =
      let w = set_where-IsOut matches value s.fixes h o.1 in (w.0 ∙ o.0, w.1)

  steps-IsOut :
      (cfg : Config) (ops : List Op) (s : Store)
      → All Spares ops
      → IsOut k s.fixes
      → IsOut k (steps cfg ops s).fixes
  unfolding steps
  steps-IsOut cfg [] s h o = o
  steps-IsOut cfg (op ∷ ops) s h o =
      steps-IsOut cfg ops (step cfg op s) h.1 (step-IsOut cfg op s h.0 o)

  eligible_out :
      (f : Fix) (spec : Option Spec) (cfg : Config)
      → fix_eligible f spec cfg ≡ true
      → (key_eq f.key k && not f.demoted) ≡ false
      → key_eq f.key k ≡ false
  unfolding fix_eligible
  eligible_out f spec cfg h still =
      let live = (both_true (not f.demoted) _ h).0 in
      elim (Bool-cases (key_eq f.key k)) [
        | inl e ↦ absurd (false≢true (sym still ∙ rw (e, live) refl))
        | inr e ↦ e
      ]

  demoted_rows :
      (xs : List Fix)
      → All (λ x. (key_eq x.key k && not x.demoted) ≡ false) (update_fix k set_demoted xs)
  unfolding update_fix set_demoted
  demoted_rows [] = tt
  demoted_rows (x ∷ xs) = (
    elim (Bool-cases (key_eq x.key k)) [ inl e ↦ rw (e, e) refl | inr e ↦ rw (e, e) refl ],
    demoted_rows xs,
  )

  demote_self :
      (s : Store)
      → kind_eq k.kind FixKind.shape ≡ false
      → is_some (find_fix k s.fixes) ≡ true
      → IsOut k (demote k s).fixes
  unfolding demote
  demote_self s e h =
      rw e (find_fix-update k set_demoted s.fixes set_demoted-IsTame ∙ h, demoted_rows s.fixes)

  -- A demotion stands until the operator takes it back: once a fix of the table is demoted, then whatever
  -- is learned, applied, settled or reverted after it, and whatever the operator demotes, or promotes of
  -- other fixes, best_fix chooses it for no query, no help text and no settings.
  pub demoted_forever :
      (cfg : Config) (ops : List Op) (s : Store) (q : Query) (spec : Option Spec) (cfg' : Config)
      (f : Fix)
      → kind_eq k.kind FixKind.shape ≡ false
      → is_some (find_fix k s.fixes) ≡ true
      → All Spares ops
      → best_fix q spec cfg' (steps cfg ops (demote k s)).fixes ≡ some f
      → key_eq f.key k ≡ false
  demoted_forever cfg ops s q spec cfg' f e h spared b =
      let fixes = (steps cfg ops (demote k s)).fixes in
      let chosen = best_fix_lem q spec cfg' fixes f b in
      let out = steps-IsOut cfg ops (demote k s) spared (demote_self s e h) in
      let still =
        All-IsRow (λ x. (key_eq x.key k && not x.demoted) ≡ false) f fixes out.1 chosen.0 in
      eligible_out f spec cfg' chosen.2 still
