-- ===== src/Argshape/Fixes.antt =====
-- adapters/argshape/store.py and core.py: the modes, the table of fixes, which of them may be applied,
-- and how outcomes change the table. Times are in seconds; the share at which the breaker opens is
-- in thousandths.
use nervous_bus.Prelude.{
  ℕ, ◌+◌, String, Bool, true, false, Option, none, some, List, [], ◌∷◌, ◌++◌, ◌&&◌, ◌||◌, not,
  str_eq, ltb, leb, ◌==◌, is_some, is_empty, one_of, split, Dict, lookup, length, last_n, keep,
  if◌then◌else◌,
}

-- `MODES`, in order
pub data Mode : Type 0 where
  off observe advise correct : Mode

unfoldable pub mode_rank : Mode → ℕ
mode_rank Mode.off = 0
mode_rank Mode.observe = 1
mode_rank Mode.advise = 2
mode_rank Mode.correct = 3

-- `min(a, b, key=rank.get)`
unfoldable pub lower_mode : Mode → Mode → Mode
unfolding mode_rank
lower_mode a b = if ltb (mode_rank b) (mode_rank a) then b else a

pub record Config : Type 0 where
  pub mode : Mode
  pub bins : Dict Mode
  pub sql : Mode
  pub min_pair_sessions : ℕ
  pub breaker_window : ℕ
  pub breaker_min_applied : ℕ
  pub breaker_fail_ratio : ℕ

unfoldable pub lower_if : Option Mode → Mode → Mode
unfolding lower_mode
lower_if none mode = mode
lower_if (some m) mode = lower_mode mode m

unfoldable pub effective_mode : Config → String → Bool → Mode
unfolding lower_if lower_mode
effective_mode cfg name sql =
    let mode = if is_empty name then cfg.mode else lower_if (lookup name cfg.bins) cfg.mode in
    if sql then lower_mode mode cfg.sql else mode

pub record Spec : Type 0 where
  pub opts : Dict Bool
  pub subcmds : List String

pub data FixKind : Type 0 where
  flag subcmd column shape : FixKind

unfoldable pub kind_eq : FixKind → FixKind → Bool
kind_eq FixKind.flag FixKind.flag = true
kind_eq FixKind.subcmd FixKind.subcmd = true
kind_eq FixKind.column FixKind.column = true
kind_eq FixKind.shape FixKind.shape = true
kind_eq _ _ = false

pub data Source : Type 0 where
  tool_hint pg_hint spec_unique catalog shaped session_pair : Source

-- The primary key of a fix; `good` is no blank text.
pub record FixKey : Type 0 where
  pub scope : String
  pub ctx : String
  pub kind : FixKind
  pub bad : String
  pub good : String

pub record Fix : Type 0 where
  pub key : FixKey
  pub source : Source
  pub n : ℕ
  pub sessions : List String
  pub n_applied : ℕ
  pub n_ok : ℕ
  pub n_bad : ℕ
  pub demoted : Bool

unfoldable pub key_eq : FixKey → FixKey → Bool
unfolding kind_eq
key_eq a b =
    str_eq a.scope b.scope
    && (str_eq a.ctx b.ctx
        && (kind_eq a.kind b.kind && (str_eq a.bad b.bad && str_eq a.good b.good)))

-- `UPDATE fixes SET … WHERE` the whole key
unfoldable pub update_fix : FixKey → (Fix → Fix) → List Fix → List Fix
update_fix k f [] = []
update_fix k f (x ∷ xs) = (if key_eq x.key k then f x else x) ∷ update_fix k f xs

unfoldable pub find_fix : FixKey → List Fix → Option Fix
find_fix k [] = none
find_fix k (x ∷ xs) = if key_eq x.key k then some x else find_fix k xs

unfoldable pub seen_in : String → List String → List String
seen_in session sessions =
    if is_empty session || one_of session sessions
    then sessions
    else last_n 20 (sessions ++ session ∷ [])

unfoldable pub better_source : Source → Source → Source
better_source Source.tool_hint old = Source.tool_hint
better_source _ old = old

unfoldable pub count_fix : Source → String → Fix → Fix
unfolding seen_in better_source
count_fix source session x = record x {
  n = x.n + 1;
  sessions = seen_in session x.sessions;
  source = better_source source x.source;
}

unfoldable pub new_fix : FixKey → Source → String → Fix
unfolding seen_in
new_fix k source session = record {
  key = k;
  source = source;
  n = 1;
  sessions = seen_in session [];
  n_applied = 0;
  n_ok = 0;
  n_bad = 0;
  demoted = false;
}

unfoldable pub add_fix : FixKey → Source → String → List Fix → List Fix
unfolding find_fix update_fix count_fix new_fix
add_fix k source session fixes =
    if is_some (find_fix k fixes)
    then update_fix k (count_fix source session) fixes
    else fixes ++ new_fix k source session ∷ []

-- `fix["good"].split()[0]`
unfoldable pub first_word : List String → String
first_word [] = ""
first_word (w ∷ ws) = if is_empty w then first_word ws else w

abbrev pub has_opt : String → Spec → Bool
has_opt o spec = is_some (lookup o spec.opts)

abbrev pub non_empty {ℓ} : {A : Type ℓ} → List A → Bool
non_empty [] = false
non_empty (x ∷ xs) = true

unfoldable pub fits_spec : FixKey → Option Spec → Bool
unfolding kind_eq first_word split
fits_spec k none = true
fits_spec k (some spec) =
    not (
      kind_eq k.kind FixKind.flag
      && non_empty spec.opts
      && (has_opt k.bad spec || not (has_opt (first_word (split b' ' k.good)) spec)))
    && not (
        kind_eq k.kind FixKind.subcmd && non_empty spec.subcmds && not (one_of k.good spec.subcmds))

unfoldable pub corroborated : FixKey → Option Spec → Bool
corroborated k none = false
corroborated k (some spec) = has_opt k.good spec && not (has_opt k.bad spec)

unfoldable pub is_confirmed : Source → Fix → Option Spec → Config → Bool
unfolding corroborated
is_confirmed Source.session_pair x spec cfg =
    leb cfg.min_pair_sessions (length x.sessions) || corroborated x.key spec
is_confirmed _ x spec cfg = leb 1 x.n

unfoldable pub fix_eligible : Fix → Option Spec → Config → Bool
unfolding fits_spec is_confirmed
fix_eligible x spec cfg =
    not x.demoted
    && (not (ltb x.n_ok x.n_bad && ltb 0 x.n_bad)
        && (fits_spec x.key spec && is_confirmed x.source x spec cfg))

-- What `best_fix` is asked for.
pub record Query : Type 0 where
  pub scope : String
  pub ctx : String
  pub kind : FixKind
  pub bad : String

unfoldable pub is_asked : Query → Fix → Bool
unfolding kind_eq
is_asked q x =
    str_eq x.key.scope q.scope
    && ((str_eq x.key.ctx q.ctx || is_empty x.key.ctx)
        && (kind_eq x.key.kind q.kind && str_eq x.key.bad q.bad))

unfoldable pub source_rank : Source → ℕ
source_rank Source.tool_hint = 0
source_rank Source.pg_hint = 0
source_rank Source.spec_unique = 1
source_rank Source.catalog = 1
source_rank Source.shaped = 1
source_rank Source.session_pair = 2

-- whether `y` sorts strictly before `x`: its own context first, then its source, then its count
unfoldable pub sorts_before : String → Fix → Fix → Bool
unfolding source_rank
sorts_before ctx y x =
    let here : Fix → ℕ = λ z. if str_eq z.key.ctx ctx then 0 else 1 in
    ltb (here y) (here x)
    || (here y == here x
        && (ltb (source_rank y.source) (source_rank x.source)
            || (source_rank y.source == source_rank x.source && ltb x.n y.n)))

unfoldable pub insert_fix : String → Fix → List Fix → List Fix
insert_fix ctx x [] = x ∷ []
insert_fix ctx x (y ∷ ys) =
    let rest = insert_fix ctx x ys in if sorts_before ctx y x then y ∷ rest else x ∷ y ∷ ys

unfoldable pub sort_fixes : String → List Fix → List Fix
unfolding insert_fix
sort_fixes ctx [] = []
sort_fixes ctx (x ∷ xs) = insert_fix ctx x (sort_fixes ctx xs)

-- whether all of them have the same replacement
unfoldable pub agree_on : String → List Fix → Bool
agree_on good [] = true
agree_on good (x ∷ xs) = str_eq x.key.good good && agree_on good xs

-- Two eligible replacements are an ambiguity, and no fix is chosen.
unfoldable pub unambiguous : List Fix → Option Fix
unfolding agree_on
unambiguous [] = none
unambiguous (x ∷ xs) = if agree_on x.key.good xs then some x else none

unfoldable pub best_fix : Query → Option Spec → Config → List Fix → Option Fix
unfolding is_asked sort_fixes fix_eligible unambiguous
best_fix q spec cfg fixes =
    unambiguous (keep (λ x. fix_eligible x spec cfg) (sort_fixes q.ctx (keep (is_asked q) fixes)))
