-- ===== src/Argshape/Edits.antt =====
-- The end of `plan` of adapters/argshape/core.py, where the corrections of a command are applied
-- from the right to the left. A command is the list of its code points.
use nervous_bus.Prelude.{
  ◌<◌, ◌⊎◌, inl, inr, All, Bool-cases, if_both, ltb→lt, ℕ, ◌≤◌, ◌≡◌, refl, sym, ap, ◌∙◌, List, [],
  ◌∷◌, ◌++◌, take, drop, length, ltb, if◌then◌else◌, arith, zero, suc,
}
use mathlib.Core.List.{append_assoc, append-nil}

pub record Edit : Type 0 where
  pub start : ℕ
  pub end : ℕ
  pub replacement : List ℕ

-- `sorted(edits, key=lambda e: e[0], reverse=True)`
unfoldable pub insert_edit : Edit → List Edit → List Edit
insert_edit e [] = e ∷ []
insert_edit e (f ∷ fs) =
    let rest = insert_edit e fs in if ltb e.start f.start then f ∷ rest else e ∷ f ∷ fs

unfoldable pub sort_edits : List Edit → List Edit
unfolding insert_edit
sort_edits [] = []
sort_edits (e ∷ es) = insert_edit e (sort_edits es)

unfoldable pub apply_edit : Edit → List ℕ → List ℕ
apply_edit e text = take e.start text ++ (e.replacement ++ drop e.end text)

unfoldable pub apply_each : List Edit → List ℕ → List ℕ
unfolding apply_edit
apply_each [] text = text
apply_each (e ∷ es) text = apply_each es (apply_edit e text)

unfoldable pub apply_edits : List Edit → List ℕ → List ℕ
unfolding apply_each sort_edits
apply_edits es text = apply_each (sort_edits es) text

-- Replacing all places at once, of the text as it was: the stretches between the edits are kept.
abbrev pub replaced : List Edit → List ℕ → ℕ → List ℕ
replaced [] text upto = take upto text
replaced (e ∷ es) text upto =
    replaced es text e.start ++ (e.replacement ++ drop e.end (take upto text))

-- The last place first, each one ending before the one to its right begins.
abbrev pub AreApart : List Edit → ℕ → Type 0
AreApart [] upto = Unit
AreApart (e ∷ es) upto = (e.start ≤ e.end) × (e.end ≤ upto) × AreApart es e.start

take-take_append :
    (n m : ℕ) (xs ys : List ℕ) → n ≤ m → m ≤ length xs → take n (take m xs ++ ys) ≡ take n xs
take-take_append zero m xs ys h l = refl
take-take_append (suc n) zero xs ys h l = absurd (omega (arith, h))
take-take_append (suc n) (suc m) [] ys h l = absurd (omega (arith, l))
take-take_append (suc n) (suc m) (x ∷ xs) ys h l =
    ap (λ zs. x ∷ zs) (take-take_append n m xs ys (omega (arith, h)) (omega (arith, l)))

drop-take_append :
    (n m : ℕ) (xs ys : List ℕ)
    → n ≤ m
    → m ≤ length xs
    → drop n (take m xs ++ ys) ≡ drop n (take m xs) ++ ys
drop-take_append zero m xs ys h l = refl
drop-take_append (suc n) zero xs ys h l = absurd (omega (arith, h))
drop-take_append (suc n) (suc m) [] ys h l = absurd (omega (arith, l))
drop-take_append (suc n) (suc m) (x ∷ xs) ys h l =
    drop-take_append n m xs ys (omega (arith, h)) (omega (arith, l))

apply_each_lem :
    (es : List Edit) (text tail : List ℕ) (upto : ℕ)
    → AreApart es upto
    → upto ≤ length text
    → apply_each es (take upto text ++ tail) ≡ replaced es text upto ++ tail
unfolding apply_each apply_edit
apply_each_lem [] text tail upto a l = refl
apply_each_lem (e ∷ es) text tail upto a l =
    let rest = drop e.end (take upto text) in
    let left = replaced es text e.start in
    rw
      (
        take-take_append e.start upto text tail (omega (arith, a.0, a.1)) l,
        drop-take_append e.end upto text tail a.1 l,
      )
      (apply_each_lem es text (e.replacement ++ (rest ++ tail)) e.start a.2
          (omega (arith, a.0, a.1, l))
        ∙ sym (
            append_assoc left (e.replacement ++ rest) tail
            ∙ ap (λ zs. left ++ zs) (append_assoc e.replacement rest tail)))

take_all : (xs : List ℕ) → take (length xs) xs ≡ xs
take_all [] = refl
take_all (x ∷ xs) = ap (λ zs. x ∷ zs) (take_all xs)

abbrev pub IsClear : Edit → Edit → Type 0
IsClear e f = (e.end ≤ f.start) ⊎ (f.end ≤ e.start)

-- Places of a text of length `n`, no two of which overlap, in any order.
abbrev pub AreDisjoint : ℕ → List Edit → Type 0
AreDisjoint n [] = Unit
AreDisjoint n (e ∷ es) = (e.start < e.end) × (e.end ≤ n) × All (IsClear e) es × AreDisjoint n es

All-insert_edit :
    (P : Edit → Type 0) (e : Edit) (fs : List Edit) → P e → All P fs → All P (insert_edit e fs)
unfolding insert_edit
All-insert_edit P e [] p a = (p, tt)
All-insert_edit P e (f ∷ fs) p a =
    if_both (All P) (ltb e.start f.start) (a.0, All-insert_edit P e fs p a.1) (p, a)

All-sort_edits : (P : Edit → Type 0) (es : List Edit) → All P es → All P (sort_edits es)
unfolding sort_edits
All-sort_edits P [] a = tt
All-sort_edits P (e ∷ es) a = All-insert_edit P e (sort_edits es) a.0 (All-sort_edits P es a.1)

left_of : (e f : Edit) → f.start ≤ f.end → e.start < f.start → IsClear e f → e.end ≤ f.start
left_of e f o l (inl c) = c
left_of e f o l (inr c) = absurd (omega (arith, o, l, c))

right_of : (e f : Edit) → e.start < e.end → f.start ≤ e.start → IsClear e f → f.end ≤ e.start
right_of e f o l (inl c) = absurd (omega (arith, o, l, c))
right_of e f o l (inr c) = c

insert_edit-AreApart :
    (e : Edit) (fs : List Edit) (upto : ℕ)
    → e.start < e.end
    → e.end ≤ upto
    → All (IsClear e) fs
    → AreApart fs upto
    → AreApart (insert_edit e fs) upto
unfolding insert_edit
insert_edit-AreApart e [] upto o l c a = (omega (arith, o), l, tt)
insert_edit-AreApart e (f ∷ fs) upto o l c a = elim (Bool-cases (ltb e.start f.start)) [
  | inl t ↦ rw t (
    a.0,
    a.1,
    insert_edit-AreApart e fs f.start o (left_of e f a.0 (ltb→lt e.start f.start t) c.0) c.1 a.2,
  )
  | inr t ↦ rw t (omega (arith, o), l, (a.0, right_of e f o (ground (arith, t)) c.0, a.2))
]

sort_edits-AreApart : (n : ℕ) (es : List Edit) → AreDisjoint n es → AreApart (sort_edits es) n
unfolding sort_edits
sort_edits-AreApart n [] d = tt
sort_edits-AreApart n (e ∷ es) d =
    insert_edit-AreApart e (sort_edits es) n d.0 d.1 (All-sort_edits (IsClear e) es d.2)
      (sort_edits-AreApart n es d.3)

-- Corrections at places that do not overlap do not disturb one another, in whatever order they are
-- found: applied one after the other from the right, they give the command in which each place of
-- the original holds its replacement and all the rest is as it was.
pub apply_edits_lem :
    (es : List Edit) (text : List ℕ)
    → AreDisjoint (length text) es
    → apply_edits es text ≡ replaced (sort_edits es) text (length text)
unfolding apply_edits
apply_edits_lem es text d =
    let apart = sort_edits-AreApart (length text) es d in
    let whole = apply_each_lem (sort_edits es) text [] (length text) apart (omega arith) in
    rw (take_all text, append-nil text, append-nil (replaced (sort_edits es) text (length text))) at
      whole
