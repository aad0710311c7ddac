-- ===== src/Argshape/Lossless.antt =====
-- The conversion of literals in adapters/argshape/sqlshape.py loses no digit: proofs about Shapes.
use nervous_bus.Prelude.{
  ℕ, suc, ◌≡◌, refl, sym, subst, drop_spaces, is_space, ap, ◌∙◌, true, false, Option, none, some,
  List, [], ◌∷◌, ◌&&◌, map, ◌==◌, upper, length, Bool-cases, inl, inr, arith,
}
use mathlib.Core.Option.{some-injective, none-ne-some}
use nervous_bus.Argshape.Shapes.{
  Family, Grouping, Case, is_hex, body, digits_of, cased, spaced, render_mac, render_uuid,
  render_hex, render_digits, convert_from, convert, grouping_eq, case_eq, variant_in, shape_of,
}
use nervous_bus.Argshape.Digits.{
  AllHex, keep-AllHex, cased-AllHex, map-cased, if_some, new_is_rendered, convert_from_digits,
}

-- The digits of a literal as `shape_of` reads it, past the white space before it.
abbrev pub literal_digits : Family → List ℕ → List ℕ
literal_digits family value = digits_of family (drop_spaces value)

-- Text that starts with no white space.
abbrev pub StartsBare : List ℕ → Type 0
StartsBare value = drop_spaces value ≡ value

hex_not_space : (c : ℕ) → is_hex c ≡ true → is_space c ≡ false
unfolding is_hex is_space
hex_not_space c h = ground (arith, h)

starts_bare : (c : ℕ) (cs : List ℕ) → is_space c ≡ false → StartsBare (c ∷ cs)
unfolding drop_spaces
starts_bare c cs h = rw h refl

digits-StartsBare : (ds : List ℕ) → AllHex ds → StartsBare ds
unfolding drop_spaces
digits-StartsBare [] a = refl
digits-StartsBare (d ∷ ds) a = starts_bare d ds (hex_not_space d a.0)

-- Grouped digits start with a digit, or with a separator if there are none.
spaced-StartsBare :
    (n m : ℕ) (ns : List ℕ) (sep : ℕ) (ds : List ℕ)
    → is_space sep ≡ false
    → AllHex ds
    → StartsBare (spaced (suc n ∷ m ∷ ns) sep ds)
unfolding spaced
spaced-StartsBare n m ns sep [] h a = starts_bare sep _ h
spaced-StartsBare n m ns sep (d ∷ ds) h a = starts_bare d _ (hex_not_space d a.0)

module _ (ds : List ℕ) (a : AllHex ds) where
  render_mac-StartsBare : (g : Grouping) → StartsBare (render_mac g ds)
  unfolding render_mac
  render_mac-StartsBare Grouping.colon =
      spaced-StartsBare 1 2 (2 ∷ 2 ∷ 2 ∷ 2 ∷ []) b':' ds (unfold is_space in refl) a
  render_mac-StartsBare Grouping.dash =
      spaced-StartsBare 1 2 (2 ∷ 2 ∷ 2 ∷ 2 ∷ []) b'-' ds (unfold is_space in refl) a
  render_mac-StartsBare Grouping.dot4 =
      spaced-StartsBare 3 4 (4 ∷ []) b'.' ds (unfold is_space in refl) a
  render_mac-StartsBare Grouping.bare = digits-StartsBare ds a
  render_mac-StartsBare Grouping.dashed = digits-StartsBare ds a
  render_mac-StartsBare Grouping.prefixed = digits-StartsBare ds a
  render_mac-StartsBare Grouping.plain = digits-StartsBare ds a

  render_uuid-StartsBare : (g : Grouping) → StartsBare (render_uuid g ds)
  unfolding render_uuid
  render_uuid-StartsBare Grouping.dashed =
      spaced-StartsBare 7 4 (4 ∷ 4 ∷ 12 ∷ []) b'-' ds (unfold is_space in refl) a
  render_uuid-StartsBare Grouping.dot4 = digits-StartsBare ds a
  render_uuid-StartsBare Grouping.colon = digits-StartsBare ds a
  render_uuid-StartsBare Grouping.dash = digits-StartsBare ds a
  render_uuid-StartsBare Grouping.bare = digits-StartsBare ds a
  render_uuid-StartsBare Grouping.prefixed = digits-StartsBare ds a
  render_uuid-StartsBare Grouping.plain = digits-StartsBare ds a

  render_hex-StartsBare : (g : Grouping) → StartsBare (render_hex g ds)
  unfolding render_hex drop_spaces is_space
  render_hex-StartsBare Grouping.prefixed = refl
  render_hex-StartsBare Grouping.dot4 = digits-StartsBare ds a
  render_hex-StartsBare Grouping.colon = digits-StartsBare ds a
  render_hex-StartsBare Grouping.dash = digits-StartsBare ds a
  render_hex-StartsBare Grouping.bare = digits-StartsBare ds a
  render_hex-StartsBare Grouping.dashed = digits-StartsBare ds a
  render_hex-StartsBare Grouping.plain = digits-StartsBare ds a

  render_digits-StartsBare :
      (family : Family) (g : Grouping) (out : List ℕ)
      → render_digits family g ds ≡ some out
      → StartsBare out
  unfolding render_digits
  render_digits-StartsBare Family.mac g out h =
      subst StartsBare (if_some ds a (length ds == 12) (render_mac g ds) out h)
        (render_mac-StartsBare g)
  render_digits-StartsBare Family.uuid g out h =
      subst StartsBare (if_some ds a (length ds == 32) (render_uuid g ds) out h)
        (render_uuid-StartsBare g)
  render_digits-StartsBare Family.hex g out h =
      subst StartsBare (some-injective (render_hex g ds) out h) (render_hex-StartsBare g)

convert_from-StartsBare :
    (value : List ℕ) (family : Family) (g : Grouping) (c : Case) (o : Option (Grouping × Case))
    (out : List ℕ)
    → convert_from value family g c o ≡ some out
    → StartsBare out
unfolding convert_from
convert_from-StartsBare value family g c none out h = absurd (none-ne-some out h)
convert_from-StartsBare value family g c (some (g', c')) out h =
    elim (Bool-cases (grouping_eq g' g && case_eq c' c)) [
      | inl e ↦ absurd (none-ne-some out (rw e at h))
      | inr e ↦
          render_digits-StartsBare (cased c (digits_of family value))
            (cased-AllHex c (digits_of family value)
              (unfold digits_of in keep-AllHex (body family value)))
            family g out (new_is_rendered value out _ (rw e at h))
    ]

-- The conversion of a literal that starts with no white space is lossless: the converted literal, too,
-- starts with none, and its digits are those of the original, in the case asked for, and so the same
-- digits up to their case, in whatever grouping and case it is written.
pub digits-convert :
    (value : List ℕ) (family : Family) (g : Grouping) (c : Case) (out : List ℕ)
    → StartsBare value
    → convert value family g c ≡ some out
    → StartsBare out
      × (literal_digits family out ≡ cased c (literal_digits family value))
      × (map upper (literal_digits family out) ≡ map upper (literal_digits family value))
unfolding convert
digits-convert value family g c out bare h =
    let o = variant_in family (length value) (shape_of value) in
    let still = convert_from-StartsBare value family g c o out h in
    let e : literal_digits family out ≡ cased c (literal_digits family value) =
      ap (digits_of family) still
      ∙ convert_from_digits value family g c o out h
      ∙ ap (λ (v : List ℕ). cased c (digits_of family v)) (sym bare) in
    (still, e, ap (map upper) e ∙ map-cased c (literal_digits family value))
