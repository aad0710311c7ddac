-- ===== src/Dlq/Sink.antt =====
-- `_jsonl_path_for_day`, `append_jsonl` and `prune_old_jsonl` of adapters/dlq/dlq.py: the JSONL
-- files of a day, which roll over to a numbered file once one is full.
use nervous_bus.Prelude.{
  ℕ, zero, suc, ◌+◌, ◌*◌, ◌≤◌, ◌<◌, ◌≡◌, refl, ◌≢◌, sym, ap, subst, Bool, true, false, Option, none,
  some, List, [], ◌∷◌, ltb, ◌==◌, ==_iff, is_none, arith, Bool-cases, Option-cases, inl, inr,
  if◌then◌else◌,
}

-- The sizes of a day's files: 0 is the base name, n is the file with suffix n, and `none` is a file
-- that does not exist.
abbrev pub Files : Type 0
Files = ℕ → Option ℕ

-- The loop that looks for the first number without a file, from n on.
unfoldable pub first_missing : Files → ℕ → ℕ → Option ℕ
first_missing files zero n = none
first_missing files (suc fuel) n =
    let rest = first_missing files fuel (n + 1) in if is_none (files n) then some n else rest

-- `not p.exists() or p.stat().st_size < max_bytes`
unfoldable pub has_room : Files → ℕ → ℕ → Bool
has_room files max_bytes n = elim (files n) [ none ↦ true | some size ↦ ltb size max_bytes ]

-- The candidates from n on, `left` of them after it; the last stands where none has room.
unfoldable pub pick : Files → ℕ → ℕ → ℕ → ℕ
pick files max_bytes zero n = n
pick files max_bytes (suc left) n =
    let rest = pick files max_bytes left (n + 1) in if has_room files max_bytes n then n else rest

unfoldable pub jsonl_path_for_day : ℕ → Files → ℕ → Option ℕ
jsonl_path_for_day fuel files max_bytes = elim (first_missing files fuel 1) [
  | none ↦ none
  | some last ↦ some (pick files max_bytes last 0)
]

unfoldable pub grow : Files → ℕ → ℕ → Files
grow files k bytes n =
    if n == k then some (elim (files n) [ none ↦ bytes | some size ↦ size + bytes ]) else files n

-- `append_jsonl`, of a line of so many bytes
unfoldable pub append_jsonl : ℕ → ℕ → ℕ → Files → Option Files
append_jsonl fuel max_bytes bytes files = elim (jsonl_path_for_day fuel files max_bytes) [
  | none ↦ none
  | some k ↦ some (grow files k bytes)
]

-- `prune_old_jsonl` on the modification times: the files that stay, and the number removed.
unfoldable pub prune_old_jsonl : ℕ → ℕ → List ℕ → List ℕ × ℕ
prune_old_jsonl now retention_days [] = ([], 0)
prune_old_jsonl now retention_days (mtime ∷ files) =
    let (kept, removed) = prune_old_jsonl now retention_days files in
    if ltb (mtime + retention_days * 86400) now
    then (kept, removed + 1)
    else (mtime ∷ kept, removed)

first_missing_found :
    (files : Files) (fuel n k : ℕ)
    → n ≤ k
    → k < n + fuel
    → files k ≡ none
    → (m : ℕ) × (first_missing files fuel n ≡ some m) × (files m ≡ none) × (n ≤ m)
unfolding first_missing
first_missing_found files zero n k a b e = absurd (omega arith)
first_missing_found files (suc fuel) n k a b e = elim (Option-cases (files n)) [
  | inl here ↦ (n, rw here, here, omega arith)
  | inr (size, there) ↦
      let ne : n ≢ k = λ p. cc in
      let ih = first_missing_found files fuel (n + 1) k (omega arith) (omega arith) e in
      (ih.0, rw there (ih.1), ih.2, omega (arith, ih.3))
]

has_room_new :
    (files : Files) (max_bytes n : ℕ) → files n ≡ none → has_room files max_bytes n ≡ true
unfolding has_room
has_room_new files max_bytes n e = rw (e, has_room)

-- The first candidate with room, if the last one does not exist.
abbrev pub IsFirst : Files → ℕ → ℕ → ℕ → Type 0
IsFirst files max_bytes n k =
    (has_room files max_bytes k ≡ true)
    × ((j : ℕ) → n ≤ j → j < k → has_room files max_bytes j ≡ false)

pick-IsFirst :
    (files : Files) (max_bytes left n : ℕ)
    → files (n + left) ≡ none
    → IsFirst files max_bytes n (pick files max_bytes left n)
unfolding pick
pick-IsFirst files max_bytes zero n e =
    let e' : files n ≡ none = subst (λ m. files m ≡ none) (omega arith) e in
    (has_room_new files max_bytes n e', λ j a b. absurd (omega arith))
pick-IsFirst files max_bytes (suc left) n e =
    let ih =
      pick-IsFirst files max_bytes left (n + 1) (subst (λ m. files m ≡ none) (omega arith) e) in
    elim (Bool-cases (has_room files max_bytes n)) [
      | inl room ↦ rw room (room, λ j a b. absurd (omega arith))
      | inr full ↦ rw full (
        ih.0,
        λ j a b. elim (Bool-cases (j == n)) [
          | inl here ↦
              subst (λ m. has_room files max_bytes m ≡ false) (sym ((==_iff j n).0 here)) full
          | inr later ↦ ih.1 j (ground arith) b
        ],
      )
    ]

-- As soon as the files of a day end somewhere below the fuel, a file to append to is found. It is
-- the first of them that is missing or below the cap: every file before it is full.
pub jsonl_path_for_day_lem :
    (files : Files) (fuel last max_bytes : ℕ)
    → 1 ≤ last
    → last ≤ fuel
    → files last ≡ none
    → (k : ℕ) × (jsonl_path_for_day fuel files max_bytes ≡ some k) × IsFirst files max_bytes 0 k
unfolding jsonl_path_for_day
jsonl_path_for_day_lem files fuel last max_bytes a b e =
    let f = first_missing_found files fuel 1 last a (omega arith) e in
    (
      pick files max_bytes f.0 0,
      rw (f.1, jsonl_path_for_day),
      pick-IsFirst files max_bytes f.0 0 (subst (λ m. files m ≡ none) (omega arith) f.2),
    )

-- No file is larger than the cap and one more line.
abbrev pub FilesBelow : ℕ → Files → Type 0
FilesBelow bound files = (n size : ℕ) → files n ≡ some size → size < bound

grow-FilesBelow :
    (files : Files) (k bytes line max_bytes : ℕ)
    → bytes ≤ line
    → 0 < max_bytes
    → has_room files max_bytes k ≡ true
    → FilesBelow (max_bytes + line) files
    → FilesBelow (max_bytes + line) (grow files k bytes)
unfolding grow has_room
grow-FilesBelow files k bytes line max_bytes a p room below n size e = elim (Bool-cases (n == k)) [
  | inr other ↦ below n size (ground arith)
  | inl here ↦
      let same : n ≡ k = (==_iff n k).0 here in
      elim (Option-cases (files k)) [
        | inl fresh ↦ ground (arith, ap files same)
        | inr (old, there) ↦ ground (arith, ap files same)
      ]
]

-- The bytes of a file, none where it does not exist.
abbrev pub size_of : Option ℕ → ℕ
size_of none = 0
size_of (some size) = size

-- The append went to file k: it had room, it has grown by the bytes, no other file has changed.
abbrev pub AppendsTo : ℕ → ℕ → Files → Files → ℕ → Type 0
AppendsTo max_bytes bytes files files' k =
    (has_room files max_bytes k ≡ true)
    × (files' k ≡ some (size_of (files k) + bytes))
    × ((j : ℕ) → j ≢ k → files' j ≡ files j)

grow-AppendsTo :
    (files : Files) (k bytes max_bytes : ℕ)
    → has_room files max_bytes k ≡ true
    → AppendsTo max_bytes bytes files (grow files k bytes) k
unfolding grow
grow-AppendsTo files k bytes max_bytes room = (
  room,
  elim (Option-cases (files k)) [
    | inl e ↦ rw ((==_iff k k).1 refl, e) (ap some (omega arith))
    | inr (size, e) ↦ rw ((==_iff k k).1 refl, e) refl
  ],
  λ j ne. elim (Bool-cases (j == k)) [ inl e ↦ absurd (ne ((==_iff j k).0 e)) | inr e ↦ rw e refl ],
)

-- An append goes to one file, which has room: that file grows by the bytes of the line and no other
-- changes, so no file outgrows the cap by more than a line. It does succeed as soon as the files of the
-- day end below the fuel.
pub append_jsonl-FilesBelow :
    (files : Files) (fuel last max_bytes bytes line : ℕ)
    → 1 ≤ last
    → last ≤ fuel
    → files last ≡ none
    → bytes ≤ line
    → 0 < max_bytes
    → FilesBelow (max_bytes + line) files
    → (files' : Files) × (append_jsonl fuel max_bytes bytes files ≡ some files')
      × ((k : ℕ) × AppendsTo max_bytes bytes files files' k)
      × FilesBelow (max_bytes + line) files'
unfolding append_jsonl
append_jsonl-FilesBelow files fuel last max_bytes bytes line a b e c p below =
    let f = jsonl_path_for_day_lem files fuel last max_bytes a b e in
    (
      grow files f.0 bytes,
      rw (f.1, append_jsonl),
      (f.0, grow-AppendsTo files f.0 bytes max_bytes f.2.0),
      grow-FilesBelow files f.0 bytes line max_bytes c p f.2.0 below,
    )
