-- ===== src/Recorder/Keys.antt =====
-- adapters/reflex-recorder/segment.py: the key of the run that an activity belongs to, and the path
-- of its worktree. A field that is there holds a text.
use nervous_bus.Prelude.{
  ℕ, zero, suc, ◌+◌, String, Bool, false, Option, none, some, List, [], ◌∷◌, str_eq, str_append,
  or_default, first_some, is_empty, or_text, str_strip, split, join, take, and_then, if◌then◌else◌,
}

-- The fields of a bus.agent.activity event that the recorder reads.
pub record Activity : Type 0 where
  pub event : Option String
  pub ts : Option String
  pub time : Option String
  pub conversation_id : Option String
  pub session_id : Option String
  pub agent_id : Option String
  pub project : Option String
  pub agent_kind : Option String
  pub worktree : Option String
  pub cwd : Option String
  pub git_branch : Option String
  pub tool_name : Option String
  pub model : Option String
  pub input_tokens : Option ℕ
  pub output_tokens : Option ℕ
  pub cache_read_tokens : Option ℕ
  pub cache_write_tokens : Option ℕ
  pub tool_is_error : Bool
  pub tool_error_type : Option String
  pub tool_summary : Option String

-- `s[len(p):]` if `s` starts with `p`
unfoldable pub after_prefix : String → String → Option String
after_prefix String.[] s = some s
after_prefix (String.◌∷◌ a p) String.[] = none
after_prefix (String.◌∷◌ a p) (String.◌∷◌ c s) =
    if str_eq (String.◌∷◌ a String.[]) (String.◌∷◌ c String.[]) then after_prefix p s else none

-- `s[s.find(p) + len(p):]`, if `p` occurs in `s`
unfoldable pub after_first : String → String → Option String
after_first p String.[] = after_prefix p ""
after_first p (String.◌∷◌ c s) = first_some (after_prefix p (String.◌∷◌ c s)) (after_first p s)

abbrev pub some_text : String → Option String
some_text s = if is_empty s then none else some s

unfoldable pub first_part : List String → String
first_part [] = ""
first_part (p ∷ ps) = p

unfoldable pub slug_of_cwd : String → Option String
unfolding after_first first_part split
slug_of_cwd cwd =
    and_then (after_first ".claude/worktrees/" cwd)
      (λ after. some_text (first_part (split b'/' after)))

unfoldable pub extract_worktree_slug : Activity → Option String
unfolding slug_of_cwd str_strip
extract_worktree_slug a =
    first_some (some_text (str_strip (or_default a.worktree "")))
      (slug_of_cwd (or_default a.cwd ""))

-- `[i for i, seg in enumerate(parts) if seg == "worktrees"][-1]`
unfoldable pub later : Bool → Option ℕ → Option ℕ
later here none = if here then some 0 else none
later here (some i) = some (suc i)

unfoldable pub last_anchor : List String → Option ℕ
unfolding later
last_anchor [] = none
last_anchor (p ∷ ps) = later (str_eq p "worktrees") (last_anchor ps)

-- whether `i < len(parts) and parts[i] == s`
unfoldable pub part_is : List String → ℕ → String → Bool
part_is [] i s = false
part_is (p ∷ ps) zero s = str_eq p s
part_is (p ∷ ps) (suc i) s = part_is ps i s

unfoldable pub is_retired : List String → ℕ → Bool
is_retired parts zero = false
is_retired parts (suc w) = part_is parts w ".claude"

unfoldable pub root_at : List String → String → ℕ → Option String
unfolding part_is join
root_at parts slug i = if part_is parts i slug then some (join "/" (take (suc i) parts)) else none

unfoldable pub root_near : List String → String → Bool → ℕ → Option String
unfolding root_at
root_near parts slug retired w =
    if retired
    then first_some (root_at parts slug (w + 1)) (root_at parts slug (w + 2))
    else first_some (root_at parts slug (w + 2)) (root_at parts slug (w + 1))

unfoldable pub root_in : List String → String → Option String
unfolding last_anchor root_near is_retired
root_in parts slug = and_then (last_anchor parts) (λ w. root_near parts slug (is_retired parts w) w)

unfoldable pub reconstruct_worktree_path : Activity → String → Option String
unfolding root_in split
reconstruct_worktree_path a slug =
    let cwd = or_default a.cwd "" in
    if is_empty cwd then none else if is_empty slug then none else root_in (split b'/' cwd) slug

pub data Kind : Type 0 where
  session worktree : Kind

pub record RunKey : Type 0 where
  pub key : String
  pub kind : Kind
  pub slug : Option String

unfoldable pub conversation_of : Activity → String
conversation_of a = or_text (or_default a.conversation_id "") (or_default a.session_id "")

unfoldable pub key_for : String → Option String → RunKey
key_for conv none = record { key = conv; kind = Kind.session; slug = none }
key_for conv (some s) = record {
  key = str_append conv (str_append "#" s);
  kind = Kind.worktree;
  slug = some s;
}

unfoldable pub compute_run_key : Activity → RunKey
unfolding extract_worktree_slug conversation_of key_for
compute_run_key a = key_for (conversation_of a) (extract_worktree_slug a)

-- `_ts_to_str`
unfoldable pub ends_in_z : String → Bool
ends_in_z String.[] = false
ends_in_z (String.◌∷◌ c s) = if is_empty s then str_eq (String.◌∷◌ c s) "Z" else ends_in_z s

unfoldable pub cut_fraction : String → List String → String
cut_fraction s [] = s
cut_fraction s (base ∷ []) = s
cut_fraction s (base ∷ rest ∷ more) = if ends_in_z s then str_append base "Z" else s

unfoldable pub ts_to_str : String → String
unfolding split cut_fraction ends_in_z
ts_to_str s = cut_fraction s (split b'.' s)
