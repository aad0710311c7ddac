-- ===== src/Recorder/Enrich.antt =====
-- adapters/reflex-recorder/enrich.py: the branch and the bead of a run, and its token counts.
-- Branches are one line of ASCII, as git prints them. A rate stays the pair of its numerator and
-- denominator, before its rounding to four places.
use nervous_bus.Prelude.{
  ℕ, ◌+◌, String, Bool, true, false, Option, none, some, List, [], ◌∷◌, ◌&&◌, ◌||◌, not, str_eq,
  str_append, ltb, leb, or_default, first_some, is_empty, is_some, or_text, str_strip, split,
  length, codes, Dict, lookup, insert, erase, if◌then◌else◌,
}
use nervous_bus.Recorder.Keys.{Activity, after_prefix}

-- What `git -C path rev-parse --abbrev-ref HEAD` prints; `none` if it fails or times out.
abbrev pub Git : Type 0
Git = String → Option String

unfoldable pub branch_name : Option String → Option String
unfolding str_strip
branch_name none = none
branch_name (some out) =
    let branch = str_strip out in
    if is_empty branch then none else if str_eq branch "HEAD" then none else some branch

unfoldable pub git_branch_at : Git → Option String → Option String
unfolding branch_name
git_branch_at git none = none
git_branch_at git (some path) = if is_empty path then none else branch_name (git path)

unfoldable pub derive_git_branch : Git → Option String → Option String → Option String
unfolding git_branch_at
derive_git_branch git worktree_path cwd =
    first_some (git_branch_at git worktree_path) (git_branch_at git cwd)

unfoldable pub is_digit : ℕ → Bool
is_digit c = leb b'0' c && leb c b'9'

unfoldable pub is_lower : ℕ → Bool
is_lower c = leb b'a' c && leb c b'z'

unfoldable pub all_alnum : List ℕ → Bool
unfolding is_digit is_lower
all_alnum [] = true
all_alnum (c ∷ cs) = (is_lower c || is_digit c) && all_alnum cs

-- `^[a-z0-9]{3,6}$`
unfoldable pub is_short_id : List ℕ → Bool
is_short_id cs = all_alnum cs && leb 3 (length cs) && leb (length cs) 6

-- `^[a-z][a-z0-9]*$`
unfoldable pub is_project_part : List ℕ → Bool
is_project_part [] = false
is_project_part (c ∷ cs) = is_lower c && all_alnum cs

-- the segments, of which the last is the short id and at least one stands before it
unfoldable pub are_bead_segments : List String → Bool
are_bead_segments [] = false
are_bead_segments (last ∷ []) = is_short_id (codes last)
are_bead_segments (p ∷ q ∷ ps) = is_project_part (codes p) && are_bead_segments (q ∷ ps)

unfoldable pub has_two : List String → Bool
has_two [] = false
has_two (p ∷ []) = false
has_two (p ∷ q ∷ ps) = true

unfoldable pub first_text : List String → String
first_text [] = ""
first_text (p ∷ ps) = p

unfoldable pub looks_like_bead_id : String → Bool
unfolding split has_two first_text are_bead_segments
looks_like_bead_id s =
    let segments = split b'-' (first_text (split b'.' s)) in
    not (has_two (split b'/' s)) && (has_two segments && are_bead_segments segments)

abbrev pub non_bead_branch_prefixes : List String
non_bead_branch_prefixes =
    "main" ∷ "master" ∷ "HEAD" ∷ "worktree-" ∷ "feat/" ∷ "fix/" ∷ "chore/" ∷ "task/" ∷ "ci-"
    ∷ "salvage/" ∷ "exec/" ∷ []

unfoldable pub starts_with_any : List String → String → Bool
starts_with_any [] s = false
starts_with_any (p ∷ ps) s = is_some (after_prefix p s) || starts_with_any ps s

unfoldable pub bead_if : String → Option String
bead_if s = if looks_like_bead_id s then some s else none

-- The first prefix that fits decides, whatever follows it.
unfoldable pub bead_after : Option String → Option String → Option String → String → Option String
bead_after (some s) deer_flow deer branch = bead_if s
bead_after none (some s) deer branch = bead_if s
bead_after none none (some s) branch = bead_if s
bead_after none none none branch = bead_if branch

unfoldable pub bead_of_branch : String → Option String
unfolding bead_after
bead_of_branch s =
    bead_after (after_prefix "loom/" s) (after_prefix "deer-flow/" s) (after_prefix "deer/" s) s

unfoldable pub derive_bead_id : Option String → Option String
unfolding bead_of_branch starts_with_any
derive_bead_id none = none
derive_bead_id (some branch) =
    if is_empty branch || starts_with_any non_bead_branch_prefixes branch
    then none
    else bead_of_branch branch

-- The numbers of `features` by their keys, and the two keys that hold tallies.
pub record Tokens : Type 0 where
  pub counters : Dict ℕ
  pub models_seen : Dict ℕ

abbrev pub no_tokens : Tokens
no_tokens = record { counters = []; models_seen = [] }

-- `d[k] = d.get(k, 0) + n`
unfoldable pub add_to : String → ℕ → Dict ℕ → Dict ℕ
add_to k n d = insert k (or_default (lookup k d) 0 + n) d

unfoldable pub add_if_present : String → Option ℕ → Dict ℕ → Dict ℕ
unfolding add_to
add_if_present k none d = d
add_if_present k (some n) d = add_to k n d

unfoldable pub add_text : Option String → Dict ℕ → Dict ℕ
unfolding add_to
add_text none d = d
add_text (some k) d = if is_empty k then d else add_to k 1 d

unfoldable pub error_key : Option String → String
error_key t = str_append "tool_error_" (or_text (or_default t "") "error")

unfoldable pub is_tool_call : Activity → Bool
is_tool_call a = str_eq (or_default a.event "") "tool_call"

unfoldable pub count_calls : Activity → Dict ℕ → Dict ℕ
unfolding is_tool_call add_to error_key
count_calls a d =
    let d' = if is_tool_call a then add_to "tool_calls" 1 d else d in
    if a.tool_is_error
    then add_to (error_key a.tool_error_type) 1 (add_to "tool_errors" 1 d')
    else d'

unfoldable pub count_tokens : Activity → Dict ℕ → Dict ℕ
unfolding add_if_present
count_tokens a d = add_if_present "tokens_cache_write" a.cache_write_tokens (
    add_if_present "tokens_cache_read" a.cache_read_tokens (
      add_if_present "tokens_output_total" a.output_tokens
        (add_if_present "tokens_input_total" a.input_tokens d)))

unfoldable pub fold_token_features : Tokens → Activity → Tokens
unfolding count_calls count_tokens add_text
fold_token_features f a = record {
  counters = count_calls a (count_tokens a f.counters);
  models_seen = add_text a.model f.models_seen;
}

-- What is computed when the run closes. `tool_error_rate` takes the place of a counter of that name.
pub record Totals : Type 0 where
  pub counters : Dict ℕ
  pub models_seen : Dict ℕ
  pub cache_hit_rate : Option (ℕ × ℕ)
  pub primary_model : Option String
  pub tool_error_rate : Option (ℕ × ℕ)

unfoldable pub rate : ℕ → ℕ → Option (ℕ × ℕ)
rate n d = if ltb 0 d then some (n, d) else none

-- `max(d, key=d.get)`: the first of the largest
unfoldable pub larger : String × ℕ → Option (String × ℕ) → Option (String × ℕ)
larger (k, n) none = some (k, n)
larger (k, n) (some (j, m)) = if ltb n m then some (j, m) else some (k, n)

unfoldable pub largest : Dict ℕ → Option (String × ℕ)
unfolding larger
largest [] = none
largest (e ∷ d) = larger e (largest d)

unfoldable pub name_of : Option (String × ℕ) → Option String
name_of none = none
name_of (some (k, n)) = some k

unfoldable pub finalize_token_features : Tokens → Totals
unfolding rate largest name_of
finalize_token_features f =
    let get : String → ℕ = λ k. or_default (lookup k f.counters) 0 in
    record {
      counters =
          if ltb 0 (get "tool_calls") then erase "tool_error_rate" f.counters else f.counters;
      models_seen = f.models_seen;
      cache_hit_rate = rate (get "tokens_cache_read") (get "tokens_cache_write");
      primary_model = name_of (largest f.models_seen);
      tool_error_rate = rate (get "tool_errors") (get "tool_calls");
    }
