-- ===== src/Argshape/Shapes.antt =====
-- adapters/argshape/sqlshape.py: the shapes of literals (`shape_of`) and their conversion. A literal is the
-- list of its code points; a variant is the pair of its grouping and its case.
use nervous_bus.Prelude.{
  ℕ, zero, suc, Bool, true, false, Option, none, some, List, [], ◌∷◌, ◌++◌, ◌&&◌, ◌||◌, map, leb,
  ◌==◌, codes, codes_eq, starts_with, strip, upper, lower, keep, any, take, drop, length,
  if◌then◌else◌,
}

unfoldable pub is_hex : ℕ → Bool
is_hex c = leb b'0' c && leb c b'9' || (leb b'A' c && leb c b'F' || leb b'a' c && leb c b'f')

unfoldable pub is_upper_hex : ℕ → Bool
is_upper_hex c = leb b'A' c && leb c b'F'

unfoldable pub is_lower_hex : ℕ → Bool
is_lower_hex c = leb b'a' c && leb c b'f'

-- Groups of hexadecimal digits with a separator between them, as the patterns of `SHAPES` have.
unfoldable pub hexes : ℕ → List (Option ℕ) → List (Option ℕ)
hexes zero rest = rest
hexes (suc n) rest = none ∷ hexes n rest

unfoldable pub groups : List ℕ → ℕ → List (Option ℕ)
unfolding hexes
groups [] sep = []
groups (n ∷ []) sep = hexes n []
groups (n ∷ m ∷ ns) sep = hexes n (some sep ∷ groups (m ∷ ns) sep)

unfoldable pub fits_one : Option ℕ → ℕ → Bool
unfolding is_hex
fits_one none c = is_hex c
fits_one (some sep) c = c == sep

unfoldable pub fits : List (Option ℕ) → List ℕ → Bool
unfolding fits_one
fits [] [] = true
fits (t ∷ ts) (c ∷ cs) = fits_one t c && fits ts cs
fits _ _ = false

abbrev pub pairs : List ℕ
pairs = 2 ∷ 2 ∷ 2 ∷ 2 ∷ 2 ∷ 2 ∷ []

abbrev pub fours : List ℕ
fours = 4 ∷ 4 ∷ 4 ∷ []

abbrev pub uuid_groups : List ℕ
uuid_groups = 8 ∷ 4 ∷ 4 ∷ 4 ∷ 12 ∷ []

pub data Family : Type 0 where
  mac uuid hex : Family

pub data Grouping : Type 0 where
  dot4 colon dash bare dashed prefixed plain : Grouping

pub data Case : Type 0 where
  upper_case lower_case any_case : Case

unfoldable pub is_mac : List ℕ → Bool
unfolding fits groups
is_mac v =
    fits (groups pairs b':') v
    || (fits (groups pairs b'-') v || (fits (groups fours b'.') v || fits (groups (12 ∷ []) 0) v))

unfoldable pub is_uuid : List ℕ → Bool
unfolding fits groups
is_uuid v = fits (groups uuid_groups b'-') v || fits (groups (32 ∷ []) 0) v

unfoldable pub all_hex : List ℕ → Bool
unfolding is_hex
all_hex [] = true
all_hex (c ∷ cs) = is_hex c && all_hex cs

unfoldable pub some_hex : List ℕ → Bool
unfolding all_hex
some_hex [] = false
some_hex (c ∷ cs) = all_hex (c ∷ cs)

unfoldable pub is_hex_text : List ℕ → Bool
unfolding some_hex
is_hex_text v = some_hex v || starts_with v (codes "0x") && some_hex (drop 2 v)

unfoldable pub case_of : List ℕ → Case
unfolding is_upper_hex is_lower_hex
case_of v =
    if codes_eq v (map upper v) && any is_upper_hex v
    then Case.upper_case
    else if any is_lower_hex v
    then Case.lower_case
    else Case.any_case

unfoldable pub mac_grouping : List ℕ → Grouping
mac_grouping v =
    if any (λ c. c == b'.') v
    then Grouping.dot4
    else if any (λ c. c == b':') v
    then Grouping.colon
    else if any (λ c. c == b'-') v
    then Grouping.dash
    else Grouping.bare

unfoldable pub has_prefix : List ℕ → Bool
has_prefix v = starts_with (map lower v) (codes "0x")

unfoldable pub shape_of_stripped : List ℕ → Option (Family × Grouping × Case)
unfolding is_mac is_uuid is_hex_text case_of mac_grouping has_prefix is_upper_hex is_lower_hex
shape_of_stripped v =
    if is_mac v
    then some (Family.mac, mac_grouping v, case_of v)
    else if is_uuid v
    then some
        (Family.uuid, if any (λ c. c == b'-') v then Grouping.dashed else Grouping.bare, case_of v)
    else if is_hex_text v && any (λ c. is_upper_hex c || is_lower_hex c) v
    then some (Family.hex, if has_prefix v then Grouping.prefixed else Grouping.plain, case_of v)
    else none

unfoldable pub shape_of : List ℕ → Option (Family × Grouping × Case)
unfolding shape_of_stripped
shape_of v = shape_of_stripped (strip v)

-- The variant that `convert` starts from, if the literal is of the family: twelve bare digits also
-- count as an address.
unfoldable pub variant_in :
    Family → ℕ → Option (Family × Grouping × Case) → Option (Grouping × Case)
variant_in Family.mac n (some (Family.mac, g, c)) = some (g, c)
variant_in Family.mac n (some (Family.hex, g, c)) =
    if n == 12 then some (Grouping.bare, c) else none
variant_in Family.uuid n (some (Family.uuid, g, c)) = some (g, c)
variant_in Family.hex n (some (Family.hex, g, c)) = some (g, c)
variant_in _ n _ = none

unfoldable pub body : Family → List ℕ → List ℕ
unfolding has_prefix
body Family.mac v = v
body Family.uuid v = v
body Family.hex v = if has_prefix v then drop 2 v else v

-- `digits`, before the case is set
unfoldable pub digits_of : Family → List ℕ → List ℕ
unfolding body is_hex
digits_of family v = keep is_hex (body family v)

unfoldable pub cased : Case → List ℕ → List ℕ
cased Case.upper_case ds = map upper ds
cased Case.lower_case ds = map lower ds
cased Case.any_case ds = ds

unfoldable pub spaced : List ℕ → ℕ → List ℕ → List ℕ
spaced [] sep ds = ds
spaced (n ∷ []) sep ds = ds
spaced (n ∷ m ∷ ns) sep ds = take n ds ++ sep ∷ spaced (m ∷ ns) sep (drop n ds)

unfoldable pub render_mac : Grouping → List ℕ → List ℕ
unfolding spaced
render_mac Grouping.colon ds = spaced pairs b':' ds
render_mac Grouping.dash ds = spaced pairs b'-' ds
render_mac Grouping.dot4 ds = spaced fours b'.' ds
render_mac _ ds = ds

unfoldable pub render_uuid : Grouping → List ℕ → List ℕ
unfolding spaced
render_uuid Grouping.dashed ds = spaced uuid_groups b'-' ds
render_uuid _ ds = ds

unfoldable pub render_hex : Grouping → List ℕ → List ℕ
render_hex Grouping.prefixed ds = codes "0x" ++ ds
render_hex _ ds = ds

unfoldable pub render_digits : Family → Grouping → List ℕ → Option (List ℕ)
unfolding render_mac render_uuid render_hex
render_digits Family.mac g ds = if length ds == 12 then some (render_mac g ds) else none
render_digits Family.uuid g ds = if length ds == 32 then some (render_uuid g ds) else none
render_digits Family.hex g ds = some (render_hex g ds)

unfoldable pub grouping_eq : Grouping → Grouping → Bool
grouping_eq Grouping.dot4 Grouping.dot4 = true
grouping_eq Grouping.colon Grouping.colon = true
grouping_eq Grouping.dash Grouping.dash = true
grouping_eq Grouping.bare Grouping.bare = true
grouping_eq Grouping.dashed Grouping.dashed = true
grouping_eq Grouping.prefixed Grouping.prefixed = true
grouping_eq Grouping.plain Grouping.plain = true
grouping_eq _ _ = false

unfoldable pub case_eq : Case → Case → Bool
case_eq Case.upper_case Case.upper_case = true
case_eq Case.lower_case Case.lower_case = true
case_eq Case.any_case Case.any_case = true
case_eq _ _ = false

unfoldable pub if_new : List ℕ → Option (List ℕ) → Option (List ℕ)
if_new value none = none
if_new value (some out) = if codes_eq out value then none else some out

unfoldable pub convert_from :
    List ℕ → Family → Grouping → Case → Option (Grouping × Case) → Option (List ℕ)
unfolding if_new render_digits cased digits_of grouping_eq case_eq
convert_from value family g c none = none
convert_from value family g c (some (g', c')) =
    if grouping_eq g' g && case_eq c' c
    then none
    else if_new value (render_digits family g (cased c (digits_of family value)))

unfoldable pub convert : List ℕ → Family → Grouping → Case → Option (List ℕ)
unfolding convert_from variant_in shape_of
convert value family g c =
    convert_from value family g c (variant_in family (length value) (shape_of value))
