-- ===== src/Argshape/Golden.antt =====
-- The golden rule of adapters/argshape/core.py: proofs about Plan.
use nervous_bus.Prelude.{
  ◌≡◌, refl, String, Bool, true, false, Option, none, some, List, [], ◌∷◌, ◌&&◌, not, ◌⊎◌, inl, inr,
  str_eq, eq_iff, Bool-cases, is_empty, ◌||◌, both_true, All,
}
use mathlib.Core.Bool.{false≢true}
use nervous_bus.Argshape.Fixes.{
  Config, Fix, FixKind, Spec, Query, Mode, is_asked, kind_eq, fix_eligible, best_fix,
}
use nervous_bus.Argshape.Choice.{IsRow, best_fix_lem}
use nervous_bus.Argshape.Edits.{Edit}
use nervous_bus.Argshape.Plan.{
  Word, Known, Place, Verdict, begins, flag_edit, flag_query, flag_verdict, is_correct, is_suspect,
  key_token, plan_flags, rejected,
}

abbrev pub IsAmong : String × Word → List (String × Word) → Type 0
IsAmong x [] = ⊥
IsAmong x (y ∷ ys) = (y ≡ x) ⊎ IsAmong x ys

-- What stands behind the correction of an option by a fix: the option was rejected by this build and
-- stands unquoted, and the fix is a row of the table for it that is not demoted.
pub record IsLicence (k : Known) (p : Place) (opt : String) (w : Word) (f : Fix) (e : Edit)
    : Type 0 where
  pub edit : e ≡ flag_edit opt w f
  pub written : begins w.raw opt ≡ true
  pub unquoted : w.quoted ≡ false
  pub may_correct : p.mode ≡ Mode.correct
  pub was_rejected : rejected k p.bin_key p.ctx FixKind.flag (key_token opt) ≡ true
  pub for_it : f.key.bad ≡ key_token opt
  pub learned : IsRow f k.store.fixes
  pub trusted : f.demoted ≡ false

abbrev pub IsLicensed : Known → Place → List (String × Word) → Verdict → Type 0
IsLicensed k p ws (Verdict.advised token) = Unit
IsLicensed k p ws (Verdict.corrected f e) =
    (opt : String) × (w : Word) × IsAmong (opt, w) ws × IsLicence k p opt w f e

IsLicensed-more :
    (k : Known) (p : Place) (x : String × Word) (ws : List (String × Word)) (v : Verdict)
    → IsLicensed k p ws v
    → IsLicensed k p (x ∷ ws) v
IsLicensed-more k p x ws (Verdict.advised token) l = tt
IsLicensed-more k p x ws (Verdict.corrected f e) (opt, w, i, rest) = (opt, w, inr i, rest)

All-more :
    (k : Known) (p : Place) (x : String × Word) (ws : List (String × Word)) (vs : List Verdict)
    → All (IsLicensed k p ws) vs
    → All (IsLicensed k p (x ∷ ws)) vs
All-more k p x ws [] a = tt
All-more k p x ws (v ∷ vs) a = (IsLicensed-more k p x ws v a.0, All-more k p x ws vs a.1)

correct_lem : (m : Mode) → is_correct m ≡ true → m ≡ Mode.correct
correct_lem Mode.off h = absurd (false≢true h)
correct_lem Mode.observe h = absurd (false≢true h)
correct_lem Mode.advise h = absurd (false≢true h)
correct_lem Mode.correct h = refl

asked_bad : (q : Query) (f : Fix) → is_asked q f ≡ true → f.key.bad ≡ q.bad
unfolding is_asked
asked_bad q f h =
    let in_scope = both_true (str_eq f.key.scope q.scope) _ h in
    let in_ctx = both_true (str_eq f.key.ctx q.ctx || is_empty f.key.ctx) _ in_scope.1 in
    let of_kind = both_true (kind_eq f.key.kind q.kind) _ in_ctx.1 in
    (eq_iff f.key.bad q.bad).0 of_kind.1

is_false : (b : Bool) → not b ≡ true → b ≡ false
is_false true h = absurd (false≢true h)
is_false false h = refl

eligible_live :
    (f : Fix) (spec : Option Spec) (cfg : Config)
    → fix_eligible f spec cfg ≡ true
    → f.demoted ≡ false
unfolding fix_eligible
eligible_live f spec cfg h = is_false f.demoted (both_true _ _ h).0

module _ (k : Known) (p : Place) (args : List Word) (opt : String) (w : Word) where
  suspect_rejected :
      is_suspect k p args opt ≡ true
      → rejected k p.bin_key p.ctx FixKind.flag (key_token opt) ≡ true
  unfolding is_suspect
  suspect_rejected h = (both_true _ _ h).1

  licence :
      (f : Fix)
      → is_suspect k p args opt ≡ true
      → best_fix (flag_query p opt) p.spec k.cfg k.store.fixes ≡ some f
      → (is_correct p.mode && (begins w.raw opt && not w.quoted)) ≡ true
      → IsLicence k p opt w f (flag_edit opt w f)
  unfolding flag_query
  licence f h b e =
      let chosen = best_fix_lem (flag_query p opt) p.spec k.cfg k.store.fixes f b in
      let tests = both_true (is_correct p.mode) _ e in
      let word = both_true (begins w.raw opt) (not w.quoted) tests.1 in
      record {
        edit = refl;
        written = word.0;
        unquoted = is_false w.quoted word.1;
        may_correct = correct_lem p.mode tests.0;
        was_rejected = suspect_rejected h;
        for_it = asked_bad (flag_query p opt) f chosen.1;
        learned = chosen.0;
        trusted = eligible_live f p.spec k.cfg chosen.2;
      }

  flag_verdict-IsLicensed :
      (ws : List (String × Word)) (o : Option Fix)
      → is_suspect k p args opt ≡ true
      → best_fix (flag_query p opt) p.spec k.cfg k.store.fixes ≡ o
      → IsLicensed k p ((opt, w) ∷ ws) (flag_verdict p.mode opt w o)
  unfolding flag_verdict
  flag_verdict-IsLicensed ws none h b = tt
  flag_verdict-IsLicensed ws (some f) h b =
      elim (Bool-cases (is_correct p.mode && (begins w.raw opt && not w.quoted))) [
        | inl e ↦ rw e (opt, w, inl refl, licence f h b e)
        | inr e ↦ rw e tt
      ]

-- The golden rule: an option is only ever replaced if this build of the binary has rejected exactly
-- that option (a number counting for all), by the replacement of a fix that was learned for it and is
-- not demoted, where it stands unquoted in the command, and in the mode that corrects.
pub plan_flags-IsLicensed :
    (k : Known) (p : Place) (args : List Word) (ws : List (String × Word))
    → All (IsLicensed k p ws) (plan_flags k p args ws)
unfolding plan_flags
plan_flags-IsLicensed k p args [] = tt
plan_flags-IsLicensed k p args ((opt, w) ∷ ws) =
    let rest = All-more k p (opt, w) ws _ (plan_flags-IsLicensed k p args ws) in
    elim (Bool-cases (is_suspect k p args opt)) [
      | inl e ↦ rw e (flag_verdict-IsLicensed k p args opt w ws _ e refl, rest)
      | inr e ↦ rw e rest
    ]
