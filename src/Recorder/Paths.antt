-- ===== src/Recorder/Paths.antt =====
-- What adapters/reflex-recorder/segment.py makes of an activity's texts: run keys can be read back,
-- and the path of a worktree is a part of the working directory.
use nervous_bus.Prelude.{
  ℕ, suc, ◌+◌, ◌≡◌, refl, ap, ◌∙◌, Bool, true, false, ◌&&◌, not, Option, none, some, List, [], ◌∷◌,
  ◌++◌, String, str_append, str_eq, eq_refl, length-append, ◌==◌, arith, if◌then◌else◌, split, join,
  take, length, is_empty, is_none, or_default, and_then,
}
use nervous_bus.Recorder.Keys.{
  Activity, conversation_of, extract_worktree_slug, key_for, compute_run_key, part_is, root_at,
  root_near, root_in, last_anchor, later, is_retired, reconstruct_worktree_path,
}
use Prim.Native.Char.{Char, code}
use text.Mathlib.TextLemmas.{cons-append, nil-append}

unfoldable pub free_of : ℕ → String → Bool
free_of x String.[] = true
free_of x (String.◌∷◌ c s) = not (code c == x) && free_of x s

-- A key read at its first `#`.
unfoldable pub cons_left : Char → String × Option String → String × Option String
cons_left c (s, slug) = (String.◌∷◌ c s, slug)

unfoldable pub read_key : String → String × Option String
unfolding cons_left
read_key String.[] = ("", none)
read_key (String.◌∷◌ c s) =
    let rest = read_key s in if code c == b'#' then ("", some s) else cons_left c rest

-- One step of reading, on a character that is no `#`.
read_key-step :
    (c : Char) (s : String) (r : String × Option String)
    → not (code c == b'#') ≡ true
    → read_key s ≡ r
    → read_key (String.◌∷◌ c s) ≡ cons_left c r
unfolding read_key
read_key-step c s r h e = ground (arith, e)

free_head :
    (c : Char) (s : String) → free_of b'#' (String.◌∷◌ c s) ≡ true → not (code c == b'#') ≡ true
unfolding free_of
free_head c s h = ground arith

free_tail : (c : Char) (s : String) → free_of b'#' (String.◌∷◌ c s) ≡ true → free_of b'#' s ≡ true
unfolding free_of
free_tail c s h = ground arith

read_key-hash : (slug : String) → read_key (str_append "#" slug) ≡ ("", some slug)
unfolding read_key
read_key-hash slug = let c : Char = "#" in rw (cons-append c "" slug, nil-append slug) refl

read_key-worktree :
    (conv slug : String)
    → free_of b'#' conv ≡ true
    → read_key (str_append conv (str_append "#" slug)) ≡ (conv, some slug)
read_key-worktree String.[] slug h = rw (nil-append (str_append "#" slug)) (read_key-hash slug)
read_key-worktree (String.◌∷◌ c s) slug h = rw (cons-append c s (str_append "#" slug)) (
    read_key-step c _ _ (free_head c s h) (read_key-worktree s slug (free_tail c s h))
    ∙ (unfold cons_left in refl))

read_key-session : (conv : String) → free_of b'#' conv ≡ true → read_key conv ≡ (conv, none)
read_key-session String.[] h = unfold read_key in refl
read_key-session (String.◌∷◌ c s) h =
    read_key-step c _ _ (free_head c s h) (read_key-session s (free_tail c s h))
    ∙ (unfold cons_left in refl)

read_key-key_for :
    (conv : String) (slug : Option String)
    → free_of b'#' conv ≡ true
    → read_key (key_for conv slug).key ≡ (conv, slug)
unfolding key_for
read_key-key_for conv none h = read_key-session conv h
read_key-key_for conv (some slug) h = read_key-worktree conv slug h

-- The key of a run tells which conversation and which worktree it is about: if the conversation's id
-- has no `#`, the key cut at its first `#` gives both back, so that two activities share a run only
-- if they share the conversation and the worktree.
pub read_key-compute_run_key :
    (a : Activity)
    → free_of b'#' (conversation_of a) ≡ true
    → read_key (compute_run_key a).key ≡ (conversation_of a, extract_worktree_slug a)
unfolding compute_run_key
read_key-compute_run_key a h = read_key-key_for (conversation_of a) (extract_worktree_slug a) h

part_is-skip :
    (xs ys : List String) (i j : ℕ) (s : String)
    → j ≡ length xs + i
    → part_is (xs ++ ys) j s ≡ part_is ys i s
unfolding part_is
part_is-skip [] ys i j s e = let e' : j ≡ i = omega (arith, e) in rw e' refl
part_is-skip (x ∷ xs) ys i j s e =
    let e' : j ≡ suc (length xs + i) = omega (arith, e) in
    rw e' (part_is-skip xs ys i (length xs + i) s refl)

take-skip :
    (xs ys : List String) (i j : ℕ) → j ≡ length xs + i → take j (xs ++ ys) ≡ xs ++ take i ys
take-skip [] ys i j e = let e' : j ≡ i = omega (arith, e) in rw e' refl
take-skip (x ∷ xs) ys i j e =
    let e' : j ≡ suc (length xs + i) = omega (arith, e) in
    rw e' (ap (λ zs. x ∷ zs) (take-skip xs ys i (length xs + i) refl))

root_at-skip :
    (xs ys : List String) (slug : String) (i j : ℕ)
    → j ≡ length xs + i
    → root_at (xs ++ ys) slug j
      ≡ (if part_is ys i slug then some (join "/" (xs ++ take (suc i) ys)) else none)
unfolding root_at
root_at-skip xs ys slug i j e =
    rw (part_is-skip xs ys i j slug e, take-skip xs ys (suc i) (suc j) (omega (arith, e))) refl

last_anchor-skip :
    (xs : List String) (root : String) (post : List String)
    → last_anchor post ≡ none
    → last_anchor (xs ++ root ∷ "worktrees" ∷ post) ≡ some (suc (length xs))
unfolding last_anchor later
last_anchor-skip [] root post h = rw h refl
last_anchor-skip (x ∷ xs) root post h = rw (last_anchor-skip xs root post h) refl

is_retired-skip :
    (xs : List String) (root : String) (post : List String)
    → is_retired (xs ++ root ∷ post) (suc (length xs)) ≡ str_eq root ".claude"
unfolding is_retired
is_retired-skip xs root post =
    part_is-skip xs (root ∷ post) 0 (length xs) ".claude" (omega arith) ∙ (unfold part_is in refl)

has_two_parts :
    (cwd : String) (xs : List String) (root : String) (post : List String)
    → split b'/' cwd ≡ xs ++ root ∷ "worktrees" ∷ post
    → is_empty cwd ≡ false
unfolding split
has_two_parts String.[] xs root post h =
    let one : List String = "" ∷ [] in
    let e : length one ≡ length (xs ++ root ∷ "worktrees" ∷ post) = ap length h in
    absurd (omega (arith, e, length-append {0} xs (root ∷ "worktrees" ∷ post)))
has_two_parts (String.◌∷◌ c s) xs root post h = refl

-- the directory of the project, in the layout that has one
abbrev pub project_part : Option String → List String
project_part none = []
project_part (some project) = project ∷ []

module _ (a : Activity) (xs : List String) (slug : String) (rest : List String) where
  reconstruct_lem :
      (root : String) (post : List String)
      → split b'/' (or_default a.cwd "") ≡ xs ++ root ∷ "worktrees" ∷ post
      → last_anchor post ≡ none
      → is_empty slug ≡ false
      → reconstruct_worktree_path a slug
        ≡ root_near (xs ++ root ∷ "worktrees" ∷ post) slug (str_eq root ".claude") (suc (length xs))
  unfolding reconstruct_worktree_path root_in and_then
  reconstruct_lem root post h none_later n =
      rw
        (
          has_two_parts _ xs root post h,
          n,
          h,
          last_anchor-skip xs root post none_later,
          is_retired-skip xs root ("worktrees" ∷ post),
        )
        refl

  -- Both layouts of the host's worktrees resolve, wherever else the slug occurs in the path: under
  -- <root>/worktrees/<project>/<slug>, the root being no .claude, and under
  -- <root>/.claude/worktrees/<slug>, with no project, the path of the worktree is the working
  -- directory up to the slug, if no directory below is named worktrees.
  pub reconstruct_worktree_path_lem :
      (root : String) (project : Option String)
      → split b'/' (or_default a.cwd "")
        ≡ xs ++ root ∷ "worktrees" ∷ (project_part project ++ slug ∷ rest)
      → last_anchor (project_part project ++ slug ∷ rest) ≡ none
      → str_eq root ".claude" ≡ is_none project
      → is_empty slug ≡ false
      → reconstruct_worktree_path a slug
        ≡ some (join "/" (xs ++ root ∷ "worktrees" ∷ (project_part project ++ slug ∷ [])))
  unfolding root_near part_is
  reconstruct_worktree_path_lem root none h later c n =
      rw
        (
          reconstruct_lem root (slug ∷ rest) h later n,
          c,
          root_at-skip xs (root ∷ "worktrees" ∷ slug ∷ rest) slug 2 (suc (length xs) + 1)
              (omega arith),
          eq_refl slug,
        )
        refl
  reconstruct_worktree_path_lem root (some project) h later c n =
      rw
        (
          reconstruct_lem root (project ∷ slug ∷ rest) h later n,
          c,
          root_at-skip xs (root ∷ "worktrees" ∷ project ∷ slug ∷ rest) slug 3 (suc (length xs) + 2)
              (omega arith),
          eq_refl slug,
        )
        refl
