-- ===== src/Mirror/Follow.antt =====
-- adapters/redis-mirror/mirror.py: `TailReader` delivers every line of the log once and in order.
use mathlib.Core.List.{append-nil}
use nervous_bus.Prelude.{
  ℕ, ◌+◌, ◌≡◌, ◌≢◌, ◌≤◌, ◌∙◌, refl, sym, ap, true, false, Option, none, some, List, [], ◌∷◌, ◌++◌,
  ◌==◌, ltb, length, drop, strip, arith, if◌then◌else◌, length-append, length-drop, subst,
}
use nervous_bus.Mirror.Tail.{
  Line, Disk, Reader, push, clean, drain, end_position, same_inode, present, on_path,
  check_rotation, save_if, read_on, read_open, read_new_lines, Round, append_to, rotate_to, current,
  later, written, follow, all_written, FreshRotation, Fresh, log_at, reader_at,
}

push-append : (l : Line) (xs ys : List Line) → push l xs ++ ys ≡ push l (xs ++ ys)
unfolding push
push-append [] xs ys = refl
push-append (c ∷ cs) xs ys = refl

clean-append : (xs ys : List Line) → clean (xs ++ ys) ≡ clean xs ++ clean ys
unfolding clean
clean-append [] ys = refl
clean-append (l ∷ xs) ys =
    ap (push (strip l)) (clean-append xs ys) ∙ sym (push-append (strip l) (clean xs) (clean ys))

drop-append : (xs ys : List Line) → drop (length xs) (xs ++ ys) ≡ ys
drop-append [] ys = refl
drop-append (x ∷ xs) ys = drop-append xs ys

eq_true : (i : ℕ) → (i == i) ≡ true
eq_true i = ground arith

eq_false : (k i : ℕ) → k ≢ i → (k == i) ≡ false
eq_false k i h = ground (arith, h)

-- A reader that knows its file, at a position, whatever it has kept for a restart.
Standing : ℕ → ℕ → Reader → Type 0
Standing i p s = (offset : ℕ) × (saved : Option (Option ℕ × ℕ)) × (s ≡ reader_at i p offset saved)

save_if-Standing :
    (ls : List Line) (q i p o : ℕ) (sv : Option (Option ℕ × ℕ))
    → Standing i p (save_if ls q (reader_at i p o sv))
unfolding save_if Standing
save_if-Standing [] q i p o sv = (o, sv, refl)
save_if-Standing (l ∷ ls) q i p o sv = (q, some (some i, q), refl)

ends : (n : ℕ) (ls : List Line) → n ≤ length ls → n + length (drop n ls) ≡ length ls
ends n ls h = omega (arith, length-drop n ls)

check_same :
    (i n o : ℕ) (sv : Option (Option ℕ × ℕ)) (f : ℕ → List Line)
    → n ≤ length (f i)
    → check_rotation (log_at i f) (reader_at i n o sv) ≡ ([], reader_at i n o sv)
unfolding check_rotation on_path present same_inode
check_same i n o sv f h =
    let e : ltb (length (f i)) n ≡ false = ground (arith, h) in rw (eq_true i, e) refl

check_rotated :
    (i k n o : ℕ) (sv : Option (Option ℕ × ℕ)) (f : ℕ → List Line)
    → k ≢ i
    → check_rotation (log_at k f) (reader_at i n o sv) ≡ (clean (drop n (f i)), reader_at k 0 0 sv)
unfolding check_rotation on_path present same_inode drain
check_rotated i k n o sv f h = rw (eq_false k i h) refl

read_same :
    (i n o : ℕ) (sv : Option (Option ℕ × ℕ)) (f : ℕ → List Line)
    → n ≤ length (f i)
    → ((read_new_lines (log_at i f) (reader_at i n o sv)).0 ≡ clean (drop n (f i)))
      × Standing i (length (f i)) (read_new_lines (log_at i f) (reader_at i n o sv)).1
unfolding read_new_lines read_open read_on drain end_position
read_same i n o sv f h = rw (check_same i n o sv f h) (
  refl,
  subst
      (λ p. Standing i p (
        save_if (clean (drop n (f i))) (n + length (drop n (f i)))
          (reader_at i (n + length (drop n (f i))) o sv)))
      (ends n (f i) h)
      (save_if-Standing (clean (drop n (f i))) (n + length (drop n (f i))) i
        (n + length (drop n (f i))) o sv),
)

read_rotated :
    (i k n o : ℕ) (sv : Option (Option ℕ × ℕ)) (f : ℕ → List Line)
    → k ≢ i
    → ((read_new_lines (log_at k f) (reader_at i n o sv)).0 ≡ clean (drop n (f i)) ++ clean (f k))
      × Standing k (length (f k)) (read_new_lines (log_at k f) (reader_at i n o sv)).1
unfolding read_new_lines read_open read_on drain end_position
read_rotated i k n o sv f h = rw (check_rotated i k n o sv f h) (
  refl,
  subst
      (λ p. Standing k p (
        save_if (clean (drop n (f i)) ++ clean (f k)) (0 + length (f k))
          (reader_at k (0 + length (f k)) 0 sv)))
      (omega arith)
      (save_if-Standing (clean (drop n (f i)) ++ clean (f k)) (0 + length (f k)) k
        (0 + length (f k)) 0 sv),
)

-- One reading after one round, from the end of the log.
RoundRead : ℕ → List Line → Option (ℕ × List Line) → Disk → Reader → Type 0
RoundRead i xs rot d s =
    let d' = rotate_to rot (append_to i xs d) in
    let out = read_new_lines d' s in
    (f : ℕ → List Line) × (d' ≡ log_at (current i rot) f)
    × (out.0 ≡ clean (xs ++ later rot))
    × Standing (current i rot) (length (f (current i rot))) out.1

read_round :
    (i : ℕ) (xs : List Line) (rot : Option (ℕ × List Line)) (f : ℕ → List Line) (o : ℕ)
    (sv : Option (Option ℕ × ℕ))
    → FreshRotation i rot
    → RoundRead i xs rot (log_at i f) (reader_at i (length (f i)) o sv)
unfolding RoundRead rotate_to append_to current later FreshRotation
read_round i xs none f o sv h =
    let g : ℕ → List Line = λ j. if j == i then f j ++ xs else f j in
    let e : g i ≡ f i ++ xs = rw (eq_true i) refl in
    let (a, b) =
      read_same i (length (f i)) o sv g
        (subst (λ l. length (f i) ≤ length l) (sym e) (omega (arith, length-append (f i) xs))) in
    (
      g,
      refl,
      a
          ∙ ap (λ l. clean (drop (length (f i)) l)) e
          ∙ ap clean (drop-append (f i) xs ∙ sym (append-nil xs)),
      b,
    )
read_round i xs (some (k, ls)) f o sv h =
    let g : ℕ → List Line = λ j. if j == k then ls else if j == i then f j ++ xs else f j in
    let e : g i ≡ f i ++ xs = rw (eq_false i k (λ p. h (sym p)), eq_true i) refl in
    let e' : g k ≡ ls = rw (eq_true k) refl in
    let (a, b) = read_rotated i k (length (f i)) o sv g h in
    (
      g,
      refl,
      a
          ∙ ap (λ l. clean (drop (length (f i)) l) ++ clean (g k)) e
          ∙ ap (λ l. clean (drop (length (f i)) (f i ++ xs)) ++ clean l) e'
          ∙ ap (λ l. clean l ++ clean ls) (drop-append (f i) xs)
          ∙ sym (clean-append xs ls),
      b,
    )

-- Every line that is written is delivered exactly once and in order, stripped and without the blank
-- ones: a reader that is at the end of the log delivers, over any number of rounds with at most one
-- rotation to a new file between two readings, just what was written.
pub follow_lem :
    (i : ℕ) (rs : List Round) (f : ℕ → List Line) (o : ℕ) (sv : Option (Option ℕ × ℕ))
    → Fresh i rs
    → follow i rs (log_at i f) (reader_at i (length (f i)) o sv) ≡ clean (all_written rs)
unfolding follow all_written Fresh clean written RoundRead Standing
follow_lem i [] f o sv h = refl
follow_lem i (r ∷ rs) f o sv (h, hs) =
    let (g, e, a, (o', sv', b)) = read_round i r.before r.rotation f o sv h in
    let i' = current i r.rotation in
    let d' = rotate_to r.rotation (append_to i r.before (log_at i f)) in
    let s' = (read_new_lines d' (reader_at i (length (f i)) o sv)).1 in
    ap (λ x. x ++ follow i' rs d' s') a
    ∙ ap (λ y. clean (r.before ++ later r.rotation) ++ y)
        (ap (λ d. follow i' rs d s') e
          ∙ ap (follow i' rs (log_at i' g)) b
          ∙ follow_lem i' rs g o' sv' hs)
    ∙ sym (clean-append (r.before ++ later r.rotation) (all_written rs))
