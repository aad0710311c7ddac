-- ===== src/Mirror/Tail.antt =====
-- adapters/redis-mirror/mirror.py: `TailReader`, which follows the log across its rotations. A file is
-- its lines and a position is a number of them: the writers append whole lines.
use nervous_bus.Prelude.{
  ℕ, ◌+◌, ◌≢◌, Bool, false, Option, none, some, List, [], ◌∷◌, ◌++◌, ◌==◌, ltb, length, drop, strip,
  if◌then◌else◌,
}

abbrev pub Line : Type 0
Line = List ℕ

-- The log's path leads to the file of an inode; a file that is open stays readable when the path
-- leads elsewhere.
pub record Disk : Type 0 where
  pub path : Option ℕ
  pub content : ℕ → List Line

-- The open file and the position in it, and what is kept of them for a restart.
pub record Reader : Type 0 where
  pub fp : Option (ℕ × ℕ)
  pub inode : Option ℕ
  pub offset : ℕ
  pub saved : Option (Option ℕ × ℕ)

-- Lines are stripped, and blank ones dropped.
unfoldable pub push : Line → List Line → List Line
push [] ls = ls
push (c ∷ cs) ls = (c ∷ cs) ∷ ls

unfoldable pub clean : List Line → List Line
clean [] = []
clean (l ∷ ls) = push (strip l) (clean ls)

unfoldable pub drain : Disk → ℕ × ℕ → List Line
drain d (i, p) = clean (drop p (d.content i))

-- The position after reading on to the end.
unfoldable pub end_position : Disk → ℕ × ℕ → ℕ
end_position d (i, p) = p + length (drop p (d.content i))

unfoldable pub same_inode : ℕ → Option ℕ → Bool
same_inode i none = false
same_inode i (some j) = i == j

unfoldable pub open_at : Option ℕ → Reader → Reader
open_at none s = record s { fp = none; inode = none }
open_at (some i) s = record s {
  fp = some (i, if same_inode i s.inode then s.offset else 0);
  inode = some i;
}

unfoldable pub open_log : Disk → Reader → Reader
open_log d s = open_at d.path s

unfoldable pub removed : Option (ℕ × ℕ) → Disk → Reader → List Line × Reader
removed none d s = ([], s)
removed (some h) d s = (drain d h, record s { fp = none })

unfoldable pub present : ℕ → Option (ℕ × ℕ) → Disk → Reader → List Line × Reader
present i none d s = ([], record s { fp = some (i, 0); inode = some i; offset = 0 })
present i (some (j, p)) d s =
    if same_inode i s.inode
    then ([], record s { fp = some (j, if ltb (length (d.content i)) p then 0 else p) })
    else (drain d (j, p), record s { fp = some (i, 0); inode = some i; offset = 0 })

unfoldable pub on_path : Option ℕ → Disk → Reader → List Line × Reader
on_path none d s = removed s.fp d s
on_path (some i) d s = present i s.fp d s

unfoldable pub check_rotation : Disk → Reader → List Line × Reader
check_rotation d s = on_path d.path d s

unfoldable pub save_if : List Line → ℕ → Reader → Reader
save_if [] p s = s
save_if (l ∷ ls) p s = record s { offset = p; saved = some (s.inode, p) }

unfoldable pub read_on : Option (ℕ × ℕ) → List Line → Disk → Reader → List Line × Reader
read_on none tail d s = (tail, s)
read_on (some (i, p)) tail d s =
    let out = tail ++ drain d (i, p) in
    let q = end_position d (i, p) in (out, save_if out q (record s { fp = some (i, q) }))

unfoldable pub read_open : Option (ℕ × ℕ) → Disk → Reader → List Line × Reader
read_open none d s = ([], open_log d s)
read_open (some h) d s = let r = check_rotation d s in read_on r.1.fp r.0 d r.1

unfoldable pub read_new_lines : Disk → Reader → List Line × Reader
read_new_lines d s = read_open s.fp d s

-- The writers between two readings: lines appended to the log, and perhaps one rotation to a new file
-- with lines of its own.
pub record Round : Type 0 where
  pub before : List Line
  pub rotation : Option (ℕ × List Line)

unfoldable pub append_to : ℕ → List Line → Disk → Disk
append_to i ls d = record d { content = λ j. if j == i then d.content j ++ ls else d.content j }

unfoldable pub rotate_to : Option (ℕ × List Line) → Disk → Disk
rotate_to none d = d
rotate_to (some (k, ls)) d = record {
  path = some k;
  content = λ j. if j == k then ls else d.content j;
}

unfoldable pub current : ℕ → Option (ℕ × List Line) → ℕ
current i none = i
current i (some (k, ls)) = k

unfoldable pub later : Option (ℕ × List Line) → List Line
later none = []
later (some (k, ls)) = ls

unfoldable pub written : Round → List Line
written r = r.before ++ later r.rotation

-- What the reader delivers over a sequence of rounds, a reading after each, the log being at an inode.
unfoldable pub follow : ℕ → List Round → Disk → Reader → List Line
follow i [] d s = []
follow i (r ∷ rs) d s =
    let d' = rotate_to r.rotation (append_to i r.before d) in
    let out = read_new_lines d' s in out.0 ++ follow (current i r.rotation) rs d' out.1

unfoldable pub all_written : List Round → List Line
all_written [] = []
all_written (r ∷ rs) = written r ++ all_written rs

-- A new file has another inode than the one that is open.
unfoldable pub FreshRotation : ℕ → Option (ℕ × List Line) → Type 0
FreshRotation i none = Unit
FreshRotation i (some (k, ls)) = k ≢ i

unfoldable pub Fresh : ℕ → List Round → Type 0
Fresh i [] = Unit
Fresh i (r ∷ rs) = FreshRotation i r.rotation × Fresh (current i r.rotation) rs

abbrev pub log_at : ℕ → (ℕ → List Line) → Disk
log_at i f = record { path = some i; content = f }

abbrev pub reader_at : ℕ → ℕ → ℕ → Option (Option ℕ × ℕ) → Reader
reader_at i p offset saved = record {
  fp = some (i, p);
  inode = some i;
  offset = offset;
  saved = saved;
}
