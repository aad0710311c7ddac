-- ===== src/Argshape/Outcomes.antt =====
-- adapters/argshape/core.py: what becomes of corrections, `record_applied`, `register_optout`,
-- `_settle_applied`, `_demote` and `_check_breaker`. The tokens that a failure rejected
-- (`errclass.classify`) and the clock are arguments.
use nervous_bus.Prelude.{
  ℕ, ◌+◌, ◌*◌, String, Bool, true, false, Option, none, some, List, [], ◌∷◌, ◌++◌, ◌&&◌, ◌||◌, not,
  map, str_eq, ltb, leb, is_some, is_none, split, codes, codes_eq, lower, length, keep, count,
  if◌then◌else◌,
}
use nervous_bus.Argshape.Fixes.{
  Config, Fix, FixKey, FixKind, Source, Mode, lower_mode, kind_eq, update_fix, add_fix, non_empty,
}

pub data Outcome : Type 0 where
  succeeded fail_related fail_other reverted not_run : Outcome

pub record Applied : Type 0 where
  pub tool_use_id : String
  pub session : String
  pub ts : ℕ
  pub fixes : List FixKey
  pub outcome : Option Outcome

-- `shapes` and the meta rows shape_off are keyed by connection and column.
pub record Store : Type 0 where
  pub fixes : List Fix
  pub applied : List Applied
  pub shapes : List (String × String)
  pub shape_off : List (String × String)
  pub breaker_until : ℕ

unfoldable pub same_shape : String → String → String × String → Bool
same_shape conn col (c, d) = str_eq c conn && str_eq d col

unfoldable pub set_demoted : Fix → Fix
set_demoted x = record x { demoted = true; n_bad = x.n_bad + 1 }

unfoldable pub demote : FixKey → Store → Store
unfolding kind_eq set_demoted update_fix same_shape
demote k s =
    if kind_eq k.kind FixKind.shape
    then record s {
      shapes = keep (λ c. not (same_shape k.scope k.ctx c)) s.shapes;
      shape_off = (k.scope, k.ctx) ∷ s.shape_off;
    }
    else record s { fixes = update_fix k set_demoted s.fixes }

unfoldable pub demote_all : List FixKey → Store → Store
unfolding demote
demote_all [] s = s
demote_all (k ∷ ks) s = demote_all ks (demote k s)

unfoldable pub count_applied : Fix → Fix
count_applied x = record x { n_applied = x.n_applied + 1 }

unfoldable pub count_ok : Fix → Fix
count_ok x = record x { n_ok = x.n_ok + 1 }

unfoldable pub update_each : (Fix → Fix) → List FixKey → List Fix → List Fix
unfolding update_fix
update_each f [] fixes = fixes
update_each f (k ∷ ks) fixes = update_each f ks (update_fix k f fixes)

unfoldable pub set_outcome : String → Outcome → List Applied → List Applied
set_outcome id o [] = []
set_outcome id o (r ∷ rs) =
    (if str_eq r.tool_use_id id then record r { outcome = some o } else r) ∷ set_outcome id o rs

-- `INSERT OR REPLACE INTO applied`, and the counts of the fixes
unfoldable pub record_applied : String → String → ℕ → List FixKey → Store → Store
unfolding update_each count_applied
record_applied id session now ks s = record s {
  applied =
      keep (λ r. not (str_eq r.tool_use_id id)) s.applied
      ++ record { tool_use_id = id; session = session; ts = now; fixes = ks; outcome = none } ∷ [];
  fixes = update_each count_applied ks s.fixes;
}

-- outcomes that `register_optout` may still revert
unfoldable pub is_live : Option Outcome → Bool
is_live none = true
is_live (some Outcome.succeeded) = true
is_live _ = false

unfoldable pub is_recent : String → ℕ → Applied → Bool
unfolding is_live
is_recent session now r = str_eq r.session session && (ltb now (r.ts + 600) && is_live r.outcome)

-- `ORDER BY ts DESC LIMIT 1`
unfoldable pub later_row : Applied → Option Applied → Applied
later_row r none = r
later_row r (some q) = if ltb r.ts q.ts then q else r

unfoldable pub latest : List Applied → Option Applied
unfolding later_row
latest [] = none
latest (r ∷ rs) = some (later_row r (latest rs))

unfoldable pub revert : Option Applied → Store → Store
unfolding demote_all set_outcome
revert none s = s
revert (some r) s =
    let s' = demote_all r.fixes s in
    record s' { applied = set_outcome r.tool_use_id Outcome.reverted s'.applied }

unfoldable pub register_optout : String → ℕ → Store → Store
unfolding revert latest is_recent
register_optout session now s = revert (latest (keep (is_recent session now) s.applied)) s

-- `toks`: the rejected tokens, and the lower case of their last parts
unfoldable pub last_text : List String → String
last_text [] = ""
last_text (t ∷ []) = t
last_text (t ∷ u ∷ us) = last_text (u ∷ us)

unfoldable pub lower_text : String → List ℕ
lower_text s = map lower (codes s)

unfoldable pub all_tokens : List String → List (List ℕ)
unfolding last_text lower_text split
all_tokens [] = []
all_tokens (t ∷ ts) = codes t ∷ lower_text (last_text (split b'.' t)) ∷ all_tokens ts

unfoldable pub among : List ℕ → List (List ℕ) → Bool
among t [] = false
among t (u ∷ us) = codes_eq t u || among t us

unfoldable pub is_related : List (List ℕ) → FixKey → Bool
unfolding among lower_text
is_related toks k =
    among (codes k.good) toks || (among (lower_text k.good) toks || among (codes k.bad) toks)

unfoldable pub is_bad_outcome : Option Outcome → Bool
is_bad_outcome (some Outcome.fail_related) = true
is_bad_outcome (some Outcome.reverted) = true
is_bad_outcome _ = false

unfoldable pub in_window : ℕ → ℕ → Applied → Bool
in_window now window r = ltb now (r.ts + window) && is_some r.outcome

unfoldable pub breaker_open : ℕ → Store → Bool
breaker_open now s = ltb now s.breaker_until

unfoldable pub is_tripped : Config → List Applied → Bool
unfolding is_bad_outcome
is_tripped cfg rows =
    leb cfg.breaker_min_applied (length rows)
    && leb (cfg.breaker_fail_ratio * length rows)
        (1000 * count (λ r. is_bad_outcome r.outcome) rows)

unfoldable pub check_breaker : Config → ℕ → Store → Store
unfolding is_tripped in_window breaker_open
check_breaker cfg now s =
    if is_tripped cfg (keep (in_window now cfg.breaker_window) s.applied)
      && not (breaker_open now s)
    then record s { breaker_until = now + cfg.breaker_window }
    else s

unfoldable pub find_pending : String → List Applied → Option Applied
find_pending id [] = none
find_pending id (r ∷ rs) =
    let rest = find_pending id rs in
    if str_eq r.tool_use_id id && is_none r.outcome then some r else rest

-- `none` for the failure is a success.
unfoldable pub settle_row : Option (List String) → Applied → Store → Store
unfolding all_tokens is_related demote_all set_outcome update_each count_ok
settle_row none r s = record s {
  fixes = update_each count_ok r.fixes s.fixes;
  applied = set_outcome r.tool_use_id Outcome.succeeded s.applied;
}
settle_row (some rejected) r s =
    let related = keep (is_related (all_tokens rejected)) r.fixes in
    let s' = demote_all related s in
    record s' {
      applied =
          set_outcome r.tool_use_id
            (if non_empty related then Outcome.fail_related else Outcome.fail_other) s'.applied;
    }

unfoldable pub settle_found : Config → Option (List String) → ℕ → Option Applied → Store → Store
unfolding settle_row check_breaker
settle_found cfg failure now none s = s
settle_found cfg failure now (some r) s = check_breaker cfg now (settle_row failure r s)

unfoldable pub settle_applied : Config → String → Option (List String) → ℕ → Store → Store
unfolding settle_found find_pending
settle_applied cfg id failure now s = settle_found cfg failure now (find_pending id s.applied) s

-- The harness never ran the command.
unfoldable pub mark_not_run : String → Store → Store
unfolding find_pending set_outcome
mark_not_run id s =
    if is_some (find_pending id s.applied)
    then record s { applied = set_outcome id Outcome.not_run s.applied }
    else s

-- A mode while the breaker is open, as in `plan`.
unfoldable pub planned_mode : Mode → ℕ → Store → Mode
unfolding breaker_open lower_mode
planned_mode mode now s = if breaker_open now s then lower_mode mode Mode.advise else mode

unfoldable pub put_demoted : Bool → Fix → Fix
put_demoted value x = record x { demoted = value; n_bad = if value then x.n_bad else 0 }

-- `cmd_set_demoted`: the operator's demote (true) and promote (false), on the rows that its WHERE clause
-- matches by name or scope, and by the token.
unfoldable pub set_where : (FixKey → Bool) → Bool → List Fix → List Fix
unfolding put_demoted
set_where matches value [] = []
set_where matches value (x ∷ xs) =
    (if matches x.key then put_demoted value x else x) ∷ set_where matches value xs

-- The operations on the table of fixes: those of the hooks and the operator's.
pub data Op : Type 0 where
  added : (k : FixKey) (source : Source) (session : String) → Op
  applied_to : (id session : String) (now : ℕ) (ks : List FixKey) → Op
  settled : (id : String) (failure : Option (List String)) (now : ℕ) → Op
  opted_out : (session : String) (now : ℕ) → Op
  refused : (id : String) → Op
  ordered : (matches : FixKey → Bool) (value : Bool) → Op

unfoldable pub step : Config → Op → Store → Store
unfolding add_fix record_applied settle_applied register_optout mark_not_run set_where
step cfg (Op.added k source session) s = record s { fixes = add_fix k source session s.fixes }
step cfg (Op.applied_to id session now ks) s = record_applied id session now ks s
step cfg (Op.settled id failure now) s = settle_applied cfg id failure now s
step cfg (Op.opted_out session now) s = register_optout session now s
step cfg (Op.refused id) s = mark_not_run id s
step cfg (Op.ordered matches value) s = record s { fixes = set_where matches value s.fixes }

unfoldable pub steps : Config → List Op → Store → Store
unfolding step
steps cfg [] s = s
steps cfg (o ∷ os) s = steps cfg os (step cfg o s)
