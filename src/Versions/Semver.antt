-- ===== src/Versions/Semver.antt =====
-- installation/updates/semver.ts: parsing and comparing versions. Texts are the codes of their
-- characters; of the number that a comparison gives, only the sign or that it is NaN is used, and that
-- is the model's. A numeral's number is the double next to it, as its digits are all read.
use Prim.Native.Nat.{zero, ◌/◌, ◌%◌, ◌^◌}
use latchkit.Base.{
  ℕ, suc, ◌+◌, ◌-◌, ◌*◌, String, Bool, true, false, not, ◌&&◌, ◌||◌, List, [], ◌∷◌, Option, none,
  some, all, is_empty, ltb, eqb, codes, between, is_digit, if◌then◌else◌,
}

-- `unordered` is NaN.
pub data Sign : Type 0 where
  below same above unordered : Sign

-- A double that is an integer from 0 on, or `Infinity`.
pub data Number : Type 0 where
  finite : ℕ → Number
  infinite : Number

pub record ParsedVersion : Type 0 where
  pub major : Number
  pub minor : Number
  pub patch : Number
  pub prerelease : List (List ℕ)

abbrev number_from : ℕ → List ℕ → ℕ
number_from n [] = n
number_from n (c ∷ cs) = number_from (n * 10 + (c - b'0')) cs

-- The multiple of `unit` next to a number, and the even one of two.
abbrev round_to : ℕ → ℕ → ℕ
round_to unit n =
    let low = n / unit in
    let rest = 2 * (n % unit) in
    if ltb rest unit || (eqb rest unit && eqb (low % 2) 0) then low * unit else low * unit + unit

abbrev finite_below : ℕ → ℕ → Number
finite_below bound n = if ltb n bound then finite n else infinite

-- 53 bits of precision: the unit doubles until they hold the number. A double is below 2 ^ 1024.
unfoldable pub to_double : ℕ → ℕ → ℕ → Number
to_double zero unit n = infinite
to_double (suc units) unit n = elim (ltb n (unit * 2 ^ 53)) [
  | true ↦ finite_below (2 ^ 1024) (round_to unit n)
  | false ↦ to_double units (unit * 2) n
]

-- `Number(digits)`. The units are 2 ^ 0 to 2 ^ 971.
unfoldable pub number : List ℕ → Number
unfolding to_double
number text = to_double 972 1 (number_from 0 text)

abbrev is_letter : ℕ → Bool
is_letter c = between b'a' b'z' c || between b'A' b'Z' c

-- `[0-9A-Za-z.-]`.
abbrev is_part : ℕ → Bool
is_part c = is_digit c || (is_letter c || (eqb c b'.' || eqb c b'-'))

-- The longest beginning of such characters, and the rest.
abbrev span : (ℕ → Bool) → List ℕ → List ℕ × List ℕ
span p [] = ([], [])
span p (c ∷ cs) = let rest = span p cs in if p c then (c ∷ rest.0, rest.1) else ([], c ∷ cs)

-- `\d+`, then what follows.
abbrev digits : List ℕ → Option (Number × List ℕ)
digits cs =
    let (found, rest) = span is_digit cs in
    if is_empty found then none else some (number found, rest)

abbrev expect : ℕ → List ℕ → Option (List ℕ)
expect c [] = none
expect c (d ∷ ds) = if eqb c d then some ds else none

abbrev and_then {ℓ κ} : {A : Type ℓ} {B : Type κ} → Option A → (A → Option B) → Option B
and_then none f = none
and_then (some a) f = f a

-- `value.split('.')`.
abbrev add_first : ℕ → List (List ℕ) → List (List ℕ)
add_first c [] = (c ∷ []) ∷ []
add_first c (part ∷ parts) = (c ∷ part) ∷ parts

abbrev pub split_dots : List ℕ → List (List ℕ)
split_dots [] = [] ∷ []
split_dots (c ∷ cs) = let rest = split_dots cs in if eqb c b'.' then [] ∷ rest else add_first c rest

-- The build, to the end of the text.
abbrev build_ends : List ℕ → Bool
build_ends [] = true
build_ends (c ∷ cs) = eqb c b'+' && (not (is_empty cs) && all is_part cs)

abbrev prerelease_of : List ℕ → Option (List (List ℕ))
prerelease_of [] = some []
prerelease_of (c ∷ cs) =
    let (found, rest) = span is_part cs in
    if eqb c b'-'
    then if not (is_empty found) && build_ends rest then some (split_dots found) else none
    else if build_ends (c ∷ cs)
    then some []
    else none

unfoldable pub parse_semver : String → Option ParsedVersion
parse_semver value = and_then (digits (codes value)) (λ (major : Number × List ℕ).
    and_then (expect b'.' major.1) (λ (after_major : List ℕ).
      and_then (digits after_major) (λ (minor : Number × List ℕ).
        and_then (expect b'.' minor.1) (λ (after_minor : List ℕ).
          and_then (digits after_minor) (λ (patch : Number × List ℕ).
            and_then (prerelease_of patch.1) (λ (prerelease : List (List ℕ)). some (record {
              major = major.0;
              minor = minor.0;
              patch = patch.0;
              prerelease = prerelease;
            })))))))

abbrev pub compare_naturals : ℕ → ℕ → Sign
compare_naturals a b = if ltb a b then below else if ltb b a then above else same

-- Two numbers that are not the same, by their difference.
abbrev pub compare_numbers : Number → Number → Sign
compare_numbers (finite a) (finite b) = compare_naturals a b
compare_numbers (finite a) infinite = below
compare_numbers infinite (finite b) = above
compare_numbers infinite infinite = same

-- `Number(a) - Number(b)`: of two infinities it is NaN.
abbrev pub subtract : Number → Number → Sign
subtract infinite infinite = unordered
subtract a b = compare_numbers a b

-- A first comparison, and a second where the first finds no difference.
abbrev pub unless_same : Sign → Sign → Sign
unless_same same next = next
unless_same below next = below
unless_same above next = above
unless_same unordered next = unordered

-- The shorter list is below where it begins the longer one.
abbrev pub compare_lists {ℓ} : {A : Type ℓ} → (A → A → Sign) → List A → List A → Sign
compare_lists compare [] [] = same
compare_lists compare [] (y ∷ ys) = below
compare_lists compare (x ∷ xs) [] = above
compare_lists compare (x ∷ xs) (y ∷ ys) = unless_same (compare x y) (compare_lists compare xs ys)

unfoldable pub is_numeric : List ℕ → Bool
is_numeric text = not (is_empty text) && all is_digit text

unfoldable pub compare_identifier : List ℕ → List ℕ → Sign
compare_identifier a b =
    if is_numeric a && is_numeric b
    then subtract (number a) (number b)
    else if is_numeric a
    then below
    else if is_numeric b
    then above
    else compare_lists compare_naturals a b

-- A version without a prerelease is above those with one.
abbrev pub compare_prereleases : List (List ℕ) → List (List ℕ) → Sign
compare_prereleases [] [] = same
compare_prereleases [] (y ∷ ys) = above
compare_prereleases (x ∷ xs) [] = below
compare_prereleases (x ∷ xs) (y ∷ ys) = compare_lists compare_identifier (x ∷ xs) (y ∷ ys)

unfoldable pub compare_semver : ParsedVersion → ParsedVersion → Sign
compare_semver a b = unless_same (compare_numbers a.major b.major) (
    unless_same (compare_numbers a.minor b.minor) (
      unless_same (compare_numbers a.patch b.patch)
        (compare_prereleases a.prerelease b.prerelease)))

abbrev pub is_prerelease_version : ParsedVersion → Bool
is_prerelease_version version = not (is_empty version.prerelease)

abbrev is_above : Sign → Bool
is_above above = true
is_above _ = false

-- `difference <= 0`, which NaN is not.
abbrev is_at_most_zero : Sign → Bool
is_at_most_zero below = true
is_at_most_zero same = true
is_at_most_zero _ = false

abbrev pub is_major_update : ParsedVersion → ParsedVersion → Bool
is_major_update current candidate = is_above (compare_numbers candidate.major current.major)

abbrev pub is_downgrade_or_same : ParsedVersion → ParsedVersion → Bool
is_downgrade_or_same current candidate = is_at_most_zero (compare_semver candidate current)
