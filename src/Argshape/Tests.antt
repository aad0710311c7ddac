-- ===== src/Argshape/Tests.antt =====
-- The corrections on concrete tables and commands, and their theorems there.
use nervous_bus.Prelude.{
  str_eq, ◌≡◌, refl, true, false, none, some, List, [], ◌∷◌, inl, ◌&&◌, All, arith, codes,
}
use nervous_bus.Argshape.Fixes.{
  Config, Fix, FixKey, FixKind, Mode, Query, Source, kind_eq, key_eq, find_fix, update_fix,
  is_asked, sort_fixes, insert_fix, sorts_before, source_rank, fix_eligible, fits_spec,
  is_confirmed, agree_on, unambiguous, best_fix, add_fix, seen_in, count_fix, better_source,
}
use nervous_bus.Argshape.Choice.{IsRow, other_good, best_fix_lem}
use nervous_bus.Argshape.Outcomes.{
  set_where, Applied, Outcome, Store, Op, demote, set_demoted, step, steps, breaker_open,
}
use nervous_bus.Argshape.Demotion.{demoted_forever}
use nervous_bus.Argshape.Edits.{
  Edit, apply_edits, apply_each, apply_edit, sort_edits, insert_edit, replaced, apply_edits_lem,
}
use nervous_bus.Argshape.Plan.{Word, Known, Place, plan_flags, plan_segment}
use nervous_bus.Argshape.Golden.{IsLicensed, plan_flags-IsLicensed}
use nervous_bus.Argshape.Breaker.{IsAdvice, plan_segment-open}

abbrev limit_key : FixKey
limit_key = record { scope = "b"; ctx = ""; kind = FixKind.flag; bad = "--limt"; good = "--limit" }

abbrev list_key : FixKey
list_key = record limit_key { good = "--list" }

abbrev limit_fix : Fix
limit_fix = record {
  key = limit_key;
  source = Source.tool_hint;
  n = 1;
  sessions = [];
  n_applied = 0;
  n_ok = 0;
  n_bad = 0;
  demoted = false;
}

abbrev list_fix : Fix
list_fix = record limit_fix { key = list_key }

abbrev cfg : Config
cfg = record {
  mode = Mode.correct;
  bins = [];
  sql = Mode.correct;
  min_pair_sessions = 2;
  breaker_window = 86400;
  breaker_min_applied = 2;
  breaker_fail_ratio = 500;
}

abbrev query : Query
query = record { scope = "b"; ctx = ""; kind = FixKind.flag; bad = "--limt" }

best_fix-ambiguous : best_fix query none cfg (limit_fix ∷ list_fix ∷ []) ≡ none
unfolding best_fix is_asked kind_eq sort_fixes insert_fix sorts_before source_rank fix_eligible
    fits_spec is_confirmed agree_on unambiguous
best_fix-ambiguous = refl

best_fix-one : best_fix query none cfg (limit_fix ∷ []) ≡ some limit_fix
unfolding best_fix is_asked kind_eq sort_fixes insert_fix sorts_before source_rank fix_eligible
    fits_spec is_confirmed agree_on unambiguous
best_fix-one = refl

best_fix_lem_example :
    IsRow limit_fix (limit_fix ∷ [])
    × (is_asked query limit_fix ≡ true)
    × (fix_eligible limit_fix none cfg ≡ true)
    × All
        (λ x. (is_asked query x && (fix_eligible x none cfg && other_good "--limit" x)) ≡ false)
        (limit_fix ∷ [])
best_fix_lem_example = best_fix_lem query none cfg (limit_fix ∷ []) limit_fix best_fix-one

abbrev rows : List Applied
rows =
    record {
      tool_use_id = "t1";
      session = "s";
      ts = 10;
      fixes = [];
      outcome = some Outcome.reverted;
    }
    ∷ record {
      tool_use_id = "t2";
      session = "s";
      ts = 20;
      fixes = [];
      outcome = some Outcome.fail_related;
    }
    ∷ []

abbrev store : Store
store = record {
  fixes = limit_fix ∷ list_fix ∷ [];
  applied = rows;
  shapes = [];
  shape_off = [];
  breaker_until = 0;
}

abbrev ops : List Op
ops =
    Op.added limit_key Source.tool_hint "s2" ∷ Op.ordered (λ k. str_eq k.bad "--nothing") false ∷ []

best_fix-after :
    best_fix query none cfg (steps cfg ops (demote limit_key store)).fixes ≡ some list_fix
unfolding best_fix is_asked kind_eq sort_fixes insert_fix sorts_before source_rank fix_eligible
    fits_spec is_confirmed agree_on unambiguous steps step add_fix demote set_demoted update_fix
    find_fix key_eq count_fix seen_in better_source set_where
best_fix-after = refl

demoted_forever_example : key_eq list_key limit_key ≡ false
demoted_forever_example =
    demoted_forever limit_key cfg ops store query none cfg list_fix (unfold kind_eq in refl)
      (unfold find_fix in unfold key_eq in unfold kind_eq in refl) (tt, (refl, tt)) best_fix-after

-- `rg --limt 5 -n x` with two corrections, at 3 and at 12
abbrev edits : List Edit
edits =
    record { start = 3; end = 9; replacement = codes "--limit" }
    ∷ record { start = 12; end = 14; replacement = codes "-N" }
    ∷ []

apply_edits-two : apply_edits edits (codes "rg --limt 5 -n x") ≡ codes "rg --limit 5 -N x"
unfolding apply_edits apply_each apply_edit sort_edits insert_edit
apply_edits-two = refl

apply_edits_lem_example :
    apply_edits edits (codes "rg --limt 5 -n x")
    ≡ replaced (sort_edits edits) (codes "rg --limt 5 -n x") 16
unfolding sort_edits insert_edit
apply_edits_lem_example =
    apply_edits_lem edits (codes "rg --limt 5 -n x")
      (omega arith, omega arith, (inl (omega arith), tt), (omega arith, omega arith, tt, tt))

abbrev known : Known
known = record {
  get_spec = λ bin ctx. none;
  rejects = record { bin_key = "b"; ctx = ""; kind = FixKind.flag; token = "--limt" } ∷ [];
  store = record store { fixes = limit_fix ∷ []; breaker_until = 100 };
  cfg = cfg;
  now = 50;
}

abbrev place : Place
place = record { bin_key = "b"; ctx = ""; spec = none; mode = Mode.correct }

abbrev word : Word
word = record {
  raw = "--limt";
  value = "--limt";
  start = 3;
  end = 9;
  quoted = false;
  dynamic = false;
}

plan_flags-IsLicensed_example :
    All
      (IsLicensed known place (("--limt", word) ∷ []))
      (plan_flags known place (word ∷ []) (("--limt", word) ∷ []))
plan_flags-IsLicensed_example =
    plan_flags-IsLicensed known place (word ∷ []) (("--limt", word) ∷ [])

plan_segment-open_example : All IsAdvice (plan_segment known "rg" "b" (word ∷ []))
plan_segment-open_example =
    plan_segment-open known "rg" "b" (word ∷ []) (unfold breaker_open in refl)
