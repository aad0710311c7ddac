-- ===== src/Argshape/Plan.antt =====
-- adapters/argshape/core.py: `option_words`, `positionals`, `context` and the part of `plan` that
-- corrects the options and the subcommand of one simple command. What the line parser found is an
-- argument; the SQL part of `plan` is left out.
use nervous_bus.Prelude.{
  ℕ, zero, suc, ◌+◌, String, Bool, true, false, Option, none, some, List, [], ◌∷◌, ◌++◌, ◌&&◌, ◌||◌,
  not, str_eq, str_append, leb, ◌==◌, is_some, is_empty, or_default, one_of, split, codes,
  starts_with, lookup, length, if◌then◌else◌,
}
use nervous_bus.Argshape.Fixes.{
  Config, Fix, FixKind, Mode, Query, Spec, kind_eq, best_fix, effective_mode,
}
use nervous_bus.Argshape.Edits.{Edit}
use nervous_bus.Argshape.Outcomes.{Store, planned_mode}

pub record Word : Type 0 where
  pub raw : String
  pub value : String
  pub start : ℕ
  pub end : ℕ
  pub quoted : Bool
  pub dynamic : Bool

unfoldable pub begins : String → String → Bool
unfolding starts_with
begins s p = starts_with (codes s) (codes p)

-- `v.split("=", 1)[0]`, and whether there is a `=`
unfoldable pub head_text : List String → String
head_text [] = ""
head_text (p ∷ ps) = p

unfoldable pub has_more : List String → Bool
has_more [] = false
has_more (p ∷ []) = false
has_more (p ∷ q ∷ ps) = true

unfoldable pub has_equals : String → Bool
unfolding has_more split
has_equals v = has_more (split b'=' v)

unfoldable pub before_equals : String → String
unfolding head_text split
before_equals v = head_text (split b'=' v)

-- whether the help says that the option takes an argument
unfoldable pub takes_arg : Option Spec → String → Bool
takes_arg none name = false
takes_arg (some spec) name = or_default (lookup name spec.opts) false

unfoldable pub option_name : String → String
unfolding begins before_equals
option_name v = if begins v "--" then before_equals v else v

unfoldable pub is_option : Word → Bool
unfolding begins
is_option w = begins w.value "-" && (not (str_eq w.value "-") && not w.dynamic)

unfoldable pub skips_next : Option Spec → String → String → Bool
unfolding takes_arg has_equals
skips_next spec name v = takes_arg spec name && not (has_equals v)

-- Names and words of the options, up to `--`; `skip` is set after an option with an argument.
unfoldable pub options_from : Option Spec → Bool → List Word → List (String × Word)
unfolding is_option option_name skips_next
options_from spec skip [] = []
options_from spec true (w ∷ ws) = options_from spec false ws
options_from spec false (w ∷ ws) =
    let name = option_name w.value in
    let rest = options_from spec (is_option w && skips_next spec name w.value) ws in
    if str_eq w.value "--" then [] else if is_option w then (name, w) ∷ rest else rest

unfoldable pub option_words : Option Spec → List Word → List (String × Word)
unfolding options_from
option_words spec args = options_from spec false args

unfoldable pub is_dashed : Word → Bool
unfolding begins
is_dashed w = begins w.value "-" && not (str_eq w.value "-")

unfoldable pub positionals_from : Option Spec → Bool → List Word → List Word
unfolding is_dashed before_equals skips_next
positionals_from spec skip [] = []
positionals_from spec true (w ∷ ws) = positionals_from spec false ws
positionals_from spec false (w ∷ ws) =
    let rest =
      positionals_from spec (is_dashed w && skips_next spec (before_equals w.value) w.value) ws in
    if str_eq w.value "--" then [] else if is_dashed w then rest else w ∷ rest

unfoldable pub positionals : Option Spec → List Word → List Word
unfolding positionals_from
positionals spec args = positionals_from spec false args

-- What is known of a binary's builds: the help texts, and the tokens that a build rejected.
pub record Reject : Type 0 where
  pub bin_key : String
  pub ctx : String
  pub kind : FixKind
  pub token : String

pub record Known : Type 0 where
  pub get_spec : String → String → Option Spec
  pub rejects : List Reject
  pub store : Store
  pub cfg : Config
  pub now : ℕ

unfoldable pub rejected_in : List Reject → String → String → FixKind → String → Bool
unfolding kind_eq
rejected_in [] bin ctx kind token = false
rejected_in (r ∷ rs) bin ctx kind token =
    (str_eq r.bin_key bin
      && ((str_eq r.ctx ctx || is_empty r.ctx) && (kind_eq r.kind kind && str_eq r.token token)))
    || rejected_in rs bin ctx kind token

unfoldable pub rejected : Known → String → String → FixKind → String → Bool
unfolding rejected_in
rejected w bin ctx kind token = rejected_in w.rejects bin ctx kind token

-- `^-\d+$`
unfoldable pub all_digits : List ℕ → Bool
all_digits [] = true
all_digits (c ∷ cs) = leb b'0' c && leb c b'9' && all_digits cs

unfoldable pub is_dash_number : List ℕ → Bool
unfolding all_digits
is_dash_number [] = false
is_dash_number (c ∷ []) = false
is_dash_number (c ∷ d ∷ ds) = c == b'-' && all_digits (d ∷ ds)

unfoldable pub numeric_opt : String → Bool
unfolding is_dash_number
numeric_opt s = is_dash_number (codes s)

unfoldable pub has_other : String → List (String × Word) → Bool
has_other opt [] = false
has_other opt ((name, w) ∷ ws) = not (str_eq name opt) || has_other opt ws

-- `_numeric_invalid_context`
unfoldable pub numeric_invalid_context : List Word → String → Bool
unfolding has_other option_words positionals
numeric_invalid_context args opt =
    has_other opt (option_words none args) || leb 2 (length (positionals none args))

-- `good.replace("#", digits)`, on code points
unfoldable pub fill_number : List ℕ → List ℕ → List ℕ
fill_number digits [] = []
fill_number digits (c ∷ cs) = (if c == b'#' then digits else c ∷ []) ++ fill_number digits cs

unfoldable pub tail_codes : List ℕ → List ℕ
tail_codes [] = []
tail_codes (c ∷ cs) = cs

unfoldable pub render : Bool → String → String → List ℕ
unfolding fill_number tail_codes
render number opt good =
    if number then fill_number (tail_codes (codes opt)) (codes good) else codes good

unfoldable pub key_token : String → String
unfolding numeric_opt
key_token opt = if numeric_opt opt then "-#" else opt

-- A correction, by the fix it applies, or an advice.
pub data Verdict : Type 0 where
  corrected : (fix : Fix) (edit : Edit) → Verdict
  advised : (token : String) → Verdict

abbrev pub is_correct : Mode → Bool
is_correct Mode.correct = true
is_correct _ = false

unfoldable pub flag_edit : String → Word → Fix → Edit
unfolding render numeric_opt
flag_edit opt w f = record {
  start = w.start;
  end = w.start + length (codes opt);
  replacement = render (numeric_opt opt) opt f.key.good;
}

unfoldable pub flag_verdict : Mode → String → Word → Option Fix → Verdict
unfolding flag_edit begins
flag_verdict mode opt w none = Verdict.advised opt
flag_verdict mode opt w (some f) =
    if is_correct mode && (begins w.raw opt && not w.quoted)
    then Verdict.corrected f (flag_edit opt w f)
    else Verdict.advised opt

-- One simple command: its binary and arguments, and where its help is found.
pub record Place : Type 0 where
  pub bin_key : String
  pub ctx : String
  pub spec : Option Spec
  pub mode : Mode

unfoldable pub flag_query : Place → String → Query
unfolding key_token
flag_query p opt = record {
  scope = p.bin_key;
  ctx = p.ctx;
  kind = FixKind.flag;
  bad = key_token opt;
}

-- Whether a word is looked at further: a number that is valid here is not, nor an option that this
-- build has not rejected.
unfoldable pub is_suspect : Known → Place → List Word → String → Bool
unfolding rejected key_token numeric_opt numeric_invalid_context
is_suspect k p args opt =
    not (numeric_opt opt && not (numeric_invalid_context args opt))
    && rejected k p.bin_key p.ctx FixKind.flag (key_token opt)

unfoldable pub plan_flags : Known → Place → List Word → List (String × Word) → List Verdict
unfolding is_suspect flag_verdict best_fix flag_query
plan_flags k p args [] = []
plan_flags k p args ((opt, w) ∷ ws) =
    let rest = plan_flags k p args ws in
    if is_suspect k p args opt
    then flag_verdict p.mode opt w (best_fix (flag_query p opt) p.spec k.cfg k.store.fixes) ∷ rest
    else rest

unfoldable pub subcmd_query : Place → Word → Query
subcmd_query p w = record { scope = p.bin_key; ctx = ""; kind = FixKind.subcmd; bad = w.value }

unfoldable pub subcmd_edit : Word → Fix → Edit
subcmd_edit w f = record { start = w.start; end = w.end; replacement = codes f.key.good }

-- An advice on a subcommand is given when the help lists subcommands.
unfoldable pub has_subcmds : Option Spec → Bool
has_subcmds none = false
has_subcmds (some spec) = not (length spec.subcmds == 0)

unfoldable pub advice : Option Spec → Word → List Verdict
unfolding has_subcmds
advice root w = if has_subcmds root then Verdict.advised w.value ∷ [] else []

unfoldable pub subcmd_verdict : Mode → Option Spec → Word → Option Fix → List Verdict
unfolding subcmd_edit advice
subcmd_verdict mode root w none = advice root w
subcmd_verdict mode root w (some f) =
    if is_correct mode && not w.quoted
    then Verdict.corrected f (subcmd_edit w f) ∷ []
    else advice root w

unfoldable pub plan_subcmd : Known → Place → List Word → List Verdict
unfolding rejected subcmd_verdict best_fix subcmd_query
plan_subcmd k p [] = []
plan_subcmd k p (w ∷ ws) =
    let root = k.get_spec p.bin_key "" in
    if rejected k p.bin_key "" FixKind.subcmd w.value
    then subcmd_verdict p.mode root w (best_fix (subcmd_query p w) root k.cfg k.store.fixes)
    else []

-- `context`: the path of subcommands that the help texts know, two levels at most.
unfoldable pub join_ctx : String → String → String
join_ctx ctx sub = if is_empty ctx then sub else str_append ctx (str_append " " sub)

unfoldable pub knows_subcmd : Option Spec → String → Bool
knows_subcmd none sub = false
knows_subcmd (some spec) sub = one_of sub spec.subcmds

unfoldable pub context_from : ℕ → (String → Option Spec) → String → Option Spec → List Word → String
unfolding knows_subcmd join_ctx
context_from zero get ctx cur pos = ctx
context_from (suc n) get ctx cur [] = ctx
context_from (suc n) get ctx cur (w ∷ ws) =
    let next = join_ctx ctx w.value in
    let deeper = context_from n get next (get next) ws in
    if knows_subcmd cur w.value then (if is_some (get next) then deeper else next) else ctx

unfoldable pub context : Known → String → List Word → String
unfolding context_from positionals
context k bin args =
    let root = k.get_spec bin "" in context_from 2 (k.get_spec bin) "" root (positionals root args)

unfoldable pub spec_at : Option Spec → Option Spec → Option Spec
spec_at none root = root
spec_at (some spec) root = some spec

abbrev pub is_active : Mode → Bool
is_active Mode.off = false
is_active Mode.observe = false
is_active Mode.advise = true
is_active Mode.correct = true

unfoldable pub plan_at : Known → Place → List Word → List Verdict
unfolding plan_flags plan_subcmd option_words positionals
plan_at k p args =
    if is_active p.mode
    then plan_flags k p args (option_words p.spec args)
      ++ plan_subcmd k p (positionals (k.get_spec p.bin_key "") args)
    else []

-- The mode of a binary, lowered while the breaker is open.
unfoldable pub mode_of : Known → String → Mode
unfolding effective_mode planned_mode
mode_of k base =
    effective_mode (record k.cfg { mode = planned_mode k.cfg.mode k.now k.store }) base false

unfoldable pub plan_segment : Known → (base bin : String) → List Word → List Verdict
unfolding plan_at context spec_at mode_of
plan_segment k base bin args =
    let ctx = context k bin args in
    plan_at k
      (record {
        bin_key = bin;
        ctx = ctx;
        spec = spec_at (k.get_spec bin ctx) (k.get_spec bin "");
        mode = mode_of k base;
      })
      args
