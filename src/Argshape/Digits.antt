-- ===== src/Argshape/Digits.antt =====
-- The digits that the renderings of adapters/argshape/sqlshape.py write: proofs about Shapes.
use nervous_bus.Prelude.{
  ℕ, zero, suc, ◌≡◌, refl, sym, ap, ◌∙◌, Bool, true, false, Option, none, some, List, [], ◌∷◌, ◌++◌,
  ◌&&◌, map, ◌==◌, codes_eq, starts_with, upper, lower, keep, take, drop, length, if◌then◌else◌,
  Bool-cases, inl, inr, All, arith,
}
use mathlib.Core.Option.{some-injective, none-ne-some}
use nervous_bus.Argshape.Shapes.{
  Family, Grouping, Case, is_hex, body, digits_of, has_prefix, cased, spaced, pairs, fours,
  uuid_groups, render_mac, render_uuid, render_hex, render_digits, if_new, convert_from,
  grouping_eq, case_eq,
}

abbrev pub AllHex : List ℕ → Type 0
AllHex ds = All (λ c. is_hex c ≡ true) ds

keep-append : (xs ys : List ℕ) → keep is_hex (xs ++ ys) ≡ keep is_hex xs ++ keep is_hex ys
keep-append [] ys = refl
keep-append (x ∷ xs) ys = elim (Bool-cases (is_hex x)) [
  | inl e ↦ rw e (ap (λ zs. x ∷ zs) (keep-append xs ys))
  | inr e ↦ rw e (keep-append xs ys)
]

pub keep-AllHex : (xs : List ℕ) → AllHex (keep is_hex xs)
keep-AllHex [] = tt
keep-AllHex (x ∷ xs) = elim (Bool-cases (is_hex x)) [
  | inl e ↦ rw e (e, keep-AllHex xs)
  | inr e ↦ rw e (keep-AllHex xs)
]

keep_self : (xs : List ℕ) → AllHex xs → keep is_hex xs ≡ xs
keep_self [] a = refl
keep_self (x ∷ xs) a = rw a.0 (ap (λ zs. x ∷ zs) (keep_self xs a.1))

take-drop : (n : ℕ) (xs : List ℕ) → take n xs ++ drop n xs ≡ xs
take-drop zero xs = refl
take-drop (suc n) [] = refl
take-drop (suc n) (x ∷ xs) = ap (λ zs. x ∷ zs) (take-drop n xs)

-- Separators add no digit.
keep-spaced :
    (ns : List ℕ) (sep : ℕ) (ds : List ℕ)
    → is_hex sep ≡ false
    → keep is_hex (spaced ns sep ds) ≡ keep is_hex ds
unfolding spaced
keep-spaced [] sep ds h = refl
keep-spaced (n ∷ []) sep ds h = refl
keep-spaced (n ∷ m ∷ ns) sep ds h =
    keep-append (take n ds) (sep ∷ spaced (m ∷ ns) sep (drop n ds))
    ∙ rw (h, keep-spaced (m ∷ ns) sep (drop n ds) h)
        (sym (keep-append (take n ds) (drop n ds)) ∙ ap (keep is_hex) (take-drop n ds))

upper_hex : (c : ℕ) → is_hex c ≡ true → is_hex (upper c) ≡ true
unfolding is_hex upper
upper_hex c h = ground (arith, h)

lower_hex : (c : ℕ) → is_hex c ≡ true → is_hex (lower c) ≡ true
unfolding is_hex lower
lower_hex c h = ground (arith, h)

upper-upper : (c : ℕ) → upper (upper c) ≡ upper c
unfolding upper
upper-upper c = ground arith

upper-lower : (c : ℕ) → upper (lower c) ≡ upper c
unfolding upper lower
upper-lower c = ground arith

map-AllHex :
    (f : ℕ → ℕ) (ds : List ℕ)
    → ((c : ℕ) → is_hex c ≡ true → is_hex (f c) ≡ true)
    → AllHex ds
    → AllHex (map f ds)
map-AllHex f [] h a = tt
map-AllHex f (d ∷ ds) h a = (h d a.0, map-AllHex f ds h a.1)

pub cased-AllHex : (c : Case) (ds : List ℕ) → AllHex ds → AllHex (cased c ds)
unfolding cased
cased-AllHex Case.upper_case ds a = map-AllHex upper ds upper_hex a
cased-AllHex Case.lower_case ds a = map-AllHex lower ds lower_hex a
cased-AllHex Case.any_case ds a = a

map-upper :
    (f : ℕ → ℕ) (ds : List ℕ)
    → ((c : ℕ) → upper (f c) ≡ upper c)
    → map upper (map f ds) ≡ map upper ds
map-upper f [] h = refl
map-upper f (d ∷ ds) h = rw (h d, map-upper f ds h) refl

pub map-cased : (c : Case) (ds : List ℕ) → map upper (cased c ds) ≡ map upper ds
unfolding cased
map-cased Case.upper_case ds = map-upper upper ds upper-upper
map-cased Case.lower_case ds = map-upper lower ds upper-lower
map-cased Case.any_case ds = refl

-- Digits alone have no prefix, since x is none.
no_x : (c : ℕ) → is_hex c ≡ true → (lower c == b'x') ≡ false
unfolding is_hex lower
no_x c h = ground (arith, h)

no_prefix : (ds : List ℕ) → AllHex ds → has_prefix ds ≡ false
unfolding has_prefix starts_with
no_prefix [] a = refl
no_prefix (c ∷ []) a = ground arith
no_prefix (c ∷ d ∷ ds) a = rw (no_x d a.1.0) (ground arith)

module _ (ds : List ℕ) (a : AllHex ds) where
  digits-render_mac : (g : Grouping) → digits_of Family.mac (render_mac g ds) ≡ ds
  unfolding digits_of body render_mac
  digits-render_mac Grouping.colon =
      keep-spaced pairs b':' ds (unfold is_hex in refl) ∙ keep_self ds a
  digits-render_mac Grouping.dash =
      keep-spaced pairs b'-' ds (unfold is_hex in refl) ∙ keep_self ds a
  digits-render_mac Grouping.dot4 =
      keep-spaced fours b'.' ds (unfold is_hex in refl) ∙ keep_self ds a
  digits-render_mac Grouping.bare = keep_self ds a
  digits-render_mac Grouping.dashed = keep_self ds a
  digits-render_mac Grouping.prefixed = keep_self ds a
  digits-render_mac Grouping.plain = keep_self ds a

  digits-render_uuid : (g : Grouping) → digits_of Family.uuid (render_uuid g ds) ≡ ds
  unfolding digits_of body render_uuid
  digits-render_uuid Grouping.dashed =
      keep-spaced uuid_groups b'-' ds (unfold is_hex in refl) ∙ keep_self ds a
  digits-render_uuid Grouping.dot4 = keep_self ds a
  digits-render_uuid Grouping.colon = keep_self ds a
  digits-render_uuid Grouping.dash = keep_self ds a
  digits-render_uuid Grouping.bare = keep_self ds a
  digits-render_uuid Grouping.prefixed = keep_self ds a
  digits-render_uuid Grouping.plain = keep_self ds a

  digits_alone : digits_of Family.hex ds ≡ ds
  unfolding digits_of body
  digits_alone = rw (no_prefix ds a) (keep_self ds a)

  digits-render_hex : (g : Grouping) → digits_of Family.hex (render_hex g ds) ≡ ds
  unfolding render_hex
  digits-render_hex Grouping.prefixed =
      unfold digits_of in
      unfold body in unfold has_prefix in unfold starts_with in unfold lower in keep_self ds a
  digits-render_hex Grouping.dot4 = digits_alone
  digits-render_hex Grouping.colon = digits_alone
  digits-render_hex Grouping.dash = digits_alone
  digits-render_hex Grouping.bare = digits_alone
  digits-render_hex Grouping.dashed = digits_alone
  digits-render_hex Grouping.plain = digits_alone

  pub if_some : (b : Bool) (x out : List ℕ) → (if b then some x else none) ≡ some out → x ≡ out
  if_some true x out h = some-injective x out h
  if_some false x out h = absurd (none-ne-some out h)

  digits-render_digits :
      (family : Family) (g : Grouping) (out : List ℕ)
      → render_digits family g ds ≡ some out
      → digits_of family out ≡ ds
  unfolding render_digits
  digits-render_digits Family.mac g out h =
      ap (digits_of Family.mac) (sym (if_some (length ds == 12) (render_mac g ds) out h))
      ∙ digits-render_mac g
  digits-render_digits Family.uuid g out h =
      ap (digits_of Family.uuid) (sym (if_some (length ds == 32) (render_uuid g ds) out h))
      ∙ digits-render_uuid g
  digits-render_digits Family.hex g out h =
      ap (digits_of Family.hex) (sym (some-injective (render_hex g ds) out h)) ∙ digits-render_hex g

pub new_is_rendered :
    (value out : List ℕ) (o : Option (List ℕ)) → if_new value o ≡ some out → o ≡ some out
unfolding if_new
new_is_rendered value out none h = h
new_is_rendered value out (some x) h = elim (Bool-cases (codes_eq x value)) [
  | inl e ↦ absurd (none-ne-some out (rw e at h))
  | inr e ↦ rw e at h
]

pub convert_from_digits :
    (value : List ℕ) (family : Family) (g : Grouping) (c : Case) (o : Option (Grouping × Case))
    (out : List ℕ)
    → convert_from value family g c o ≡ some out
    → digits_of family out ≡ cased c (digits_of family value)
unfolding convert_from
convert_from_digits value family g c none out h = absurd (none-ne-some out h)
convert_from_digits value family g c (some (g', c')) out h =
    elim (Bool-cases (grouping_eq g' g && case_eq c' c)) [
      | inl e ↦ absurd (none-ne-some out (rw e at h))
      | inr e ↦
          let ds = cased c (digits_of family value) in
          digits-render_digits ds
            (cased-AllHex c (digits_of family value)
              (unfold digits_of in keep-AllHex (body family value)))
            family g out (new_is_rendered value out _ (rw e at h))
    ]
