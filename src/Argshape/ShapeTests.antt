-- ===== src/Argshape/ShapeTests.antt =====
-- The conversion of literals on an address, and its theorem there.
use nervous_bus.Prelude.{
  ◌≡◌, refl, some, starts_with, map, codes, codes_eq, strip, drop_spaces, is_space, upper, lower,
}
use nervous_bus.Argshape.Shapes.{
  Family, Grouping, Case, is_hex, is_upper_hex, is_lower_hex, hexes, groups, fits_one, fits, is_mac,
  case_of, mac_grouping, shape_of_stripped, shape_of, variant_in, body, digits_of, cased, spaced,
  render_mac, render_digits, grouping_eq, case_eq, if_new, convert_from, convert,
}
use nervous_bus.Argshape.Lossless.{digits-convert, literal_digits, StartsBare}

convert-address :
    convert (codes "aa:bb:cc:dd:ee:f0") Family.mac Grouping.dot4 Case.upper_case
    ≡ some (codes "AABB.CCDD.EEF0")
unfolding convert convert_from variant_in shape_of shape_of_stripped is_mac fits fits_one groups
    hexes is_hex case_of is_upper_hex is_lower_hex mac_grouping codes_eq strip drop_spaces is_space
    upper lower digits_of body cased render_digits render_mac spaced grouping_eq case_eq if_new
convert-address = refl

-- With white space before it a prefixed literal gets a digit more.
convert_spaced :
    convert (codes " 0xAB") Family.hex Grouping.plain Case.upper_case ≡ some (codes "0AB")
unfolding convert convert_from variant_in shape_of strip starts_with lower codes_eq upper
convert_spaced = refl

digits-convert_example :
    StartsBare (codes "AABB.CCDD.EEF0")
    × (literal_digits Family.mac (codes "AABB.CCDD.EEF0")
        ≡ cased Case.upper_case (literal_digits Family.mac (codes "aa:bb:cc:dd:ee:f0")))
    × (map upper (literal_digits Family.mac (codes "AABB.CCDD.EEF0"))
        ≡ map upper (literal_digits Family.mac (codes "aa:bb:cc:dd:ee:f0")))
unfolding drop_spaces is_space
digits-convert_example =
    digits-convert (codes "aa:bb:cc:dd:ee:f0") Family.mac Grouping.dot4 Case.upper_case
      (codes "AABB.CCDD.EEF0") refl convert-address
