-- ===== src/Registry/Versions.antt =====
-- CompareVersion of registry/version.go: versions are texts of numbers between dots. A text is the list
-- of its bytes; `strings.TrimSpace` is modelled on ASCII, as is all else of the version.
use xbase.Prelude.{
  ℕ, zero, suc, ◌+◌, ◌-◌, ◌*◌, ◌^◌, Bool, true, false, Option, none, some, List, [], ◌∷◌, ltb, leb,
  ◌==◌, ◌||◌, ◌&&◌, if◌then◌else◌, max, length, reverse,
}
use xbase.Prelude.Int.{ℤ, pos, sub_ℕ, ltb_ℤ}

abbrev pub dot : ℕ
dot = b'.'

-- `strings.Split(s, ".")`: a text with n dots has n + 1 parts.
abbrev pub joined_part : ℕ → List (List ℕ) → List (List ℕ)
joined_part c [] = (c ∷ []) ∷ []
joined_part c (part ∷ parts) = (c ∷ part) ∷ parts

unfoldable pub split_dots : List ℕ → List (List ℕ)
split_dots [] = [] ∷ []
split_dots (c ∷ s) =
    let parts = split_dots s in if c == dot then [] ∷ parts else joined_part c parts

abbrev pub is_space : ℕ → Bool
is_space c = (leb 9 c && leb c 13) || c == 32

unfoldable pub trim_left : List ℕ → List ℕ
trim_left [] = []
trim_left (c ∷ s) = if is_space c then trim_left s else c ∷ s

unfoldable pub trim_space : List ℕ → List ℕ
unfolding trim_left
trim_space s = reverse (trim_left (reverse (trim_left s)))

-- The digits of a decimal number: `none` at any other byte.
unfoldable pub digits : ℕ → List ℕ → Option ℕ
digits acc [] = some acc
digits acc (c ∷ s) =
    let rest = digits (acc * 10 + (c - b'0')) s in if leb b'0' c && leb c b'9' then rest else none

-- A number needs a digit.
unfoldable pub unsigned : List ℕ → Option ℕ
unfolding digits
unsigned [] = none
unsigned (c ∷ s) = digits 0 (c ∷ s)

-- The result of `strconv.ParseInt(s, 10, 64)` where it is not an error, and 0 where it is: a sign, then
-- digits, in the range of an int64.
abbrev pub positive : Option ℕ → ℤ
positive none = pos 0
positive (some n) = if ltb n (2 ^ 63) then pos n else pos 0

abbrev pub negative : Option ℕ → ℤ
negative none = pos 0
negative (some n) = if leb n (2 ^ 63) then sub_ℕ 0 n else pos 0

unfoldable pub parse_int : List ℕ → ℤ
unfolding unsigned
parse_int [] = pos 0
parse_int (c ∷ s) =
    if c == b'-'
    then negative (unsigned s)
    else if c == b'+'
    then positive (unsigned s)
    else positive (unsigned (c ∷ s))

unfoldable pub parse_version_part : List ℕ → ℤ
unfolding trim_space parse_int
parse_version_part part = parse_int (trim_space part)

pub data Order : Type 0 where
  older same newer : Order

-- The loop over `n` parts; a part that is missing counts as 0. A part that is not the same in both
-- decides.
abbrev pub part_or_zero : List (List ℕ) → ℤ
part_or_zero [] = pos 0
part_or_zero (part ∷ parts) = parse_version_part part

abbrev pub rest_of : List (List ℕ) → List (List ℕ)
rest_of [] = []
rest_of (part ∷ parts) = parts

unfoldable pub compare_parts : ℕ → List (List ℕ) → List (List ℕ) → Order
compare_parts zero a b = same
compare_parts (suc n) a b =
    let rest = compare_parts n (rest_of a) (rest_of b) in
    if ltb_ℤ (part_or_zero b) (part_or_zero a)
    then newer
    else if ltb_ℤ (part_or_zero a) (part_or_zero b)
    then older
    else rest

unfoldable pub text_eq : List ℕ → List ℕ → Bool
text_eq [] [] = true
text_eq [] (d ∷ t) = false
text_eq (c ∷ s) [] = false
text_eq (c ∷ s) (d ∷ t) = c == d && text_eq s t

-- `if a == "" { a = "0" }`
abbrev pub or_zero : List ℕ → List ℕ
or_zero [] = b'0' ∷ []
or_zero (c ∷ s) = c ∷ s

unfoldable pub compare_version : List ℕ → List ℕ → Order
unfolding text_eq split_dots compare_parts
compare_version a b =
    if text_eq a b
    then same
    else let parts_a = split_dots (or_zero a) in
      let parts_b = split_dots (or_zero b) in
      compare_parts (max (length parts_b) (length parts_a)) parts_a parts_b

-- `CompareVersion(a, b) > 0` and `>= 0`.
abbrev pub positive_order : Order → Bool
positive_order newer = true
positive_order _ = false

abbrev pub natural_order : Order → Bool
natural_order older = false
natural_order _ = true

unfoldable pub is_newer : List ℕ → List ℕ → Bool
unfolding compare_version
is_newer a b = positive_order (compare_version a b)

unfoldable pub is_at_least : List ℕ → List ℕ → Bool
unfolding compare_version
is_at_least a b = natural_order (compare_version a b)

-- MaxVersion.
unfoldable pub max_from : List ℕ → List (List ℕ) → List ℕ
unfolding is_newer
max_from best [] = best
max_from best (v ∷ versions) = max_from (if is_newer v best then v else best) versions

unfoldable pub max_version : List (List ℕ) → List ℕ
unfolding max_from
max_version [] = []
max_version (v ∷ versions) = max_from v versions
