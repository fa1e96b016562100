-- ===== src/Base/Chars.antt =====
-- The tests that the sources write as regular expressions over single characters, and `trim`.
use Prim.Native.Char.{code}
use Prim.Native.Nat.{ℕ, ◌+◌}
use Prim.Native.String.{String}
use mathlib.Core.Bool.{Bool, true, false, ◌&&◌, ◌||◌}
use mathlib.Core.List.{List, [], ◌∷◌, ◌++◌}
use mathlib.Core.Option.{Option, none, some}
use latchkit.Base.Tests.{ltb, leb, eqb, if◌then◌else◌}
use latchkit.Base.Lists.{all, replicate}

abbrev pub codes : String → List ℕ
codes String.[] = []
codes (String.◌∷◌ c s) = code c ∷ codes s

abbrev pub between : ℕ → ℕ → ℕ → Bool
between lo hi c = leb lo c && leb c hi

abbrev pub is_digit : ℕ → Bool
is_digit = between b'0' b'9'

abbrev pub is_lower_hex : ℕ → Bool
is_lower_hex c = is_digit c || between b'a' b'f' c

-- `[0-9a-f]` under the flag `i`.
abbrev pub is_hex : ℕ → Bool
is_hex c = is_lower_hex c || between b'A' b'F' c

-- `[89ab]` under the flag `i`.
abbrev is_variant : ℕ → Bool
is_variant c = eqb c b'8' || (eqb c b'9' || (between b'a' b'b' c || between b'A' b'B' c))

-- One test for each character, to the end of the text.
abbrev pub matches_shape : List (ℕ → Bool) → List ℕ → Bool
matches_shape [] [] = true
matches_shape (p ∷ ps) (c ∷ cs) = p c && matches_shape ps cs
matches_shape _ _ = false

abbrev pub uuid_shape : List (ℕ → Bool)
uuid_shape =
    replicate 8 is_hex
    ++ (eqb b'-'
        ∷ (replicate 4 is_hex
            ++ (eqb b'-'
                ∷ (between b'1' b'5'
                    ∷ (replicate 3 is_hex
                        ++ (eqb b'-'
                            ∷ (is_variant
                                ∷ (replicate 3 is_hex ++ (eqb b'-' ∷ replicate 12 is_hex)))))))))

abbrev pub strip_prefix : List ℕ → List ℕ → Option (List ℕ)
strip_prefix [] cs = some cs
strip_prefix (p ∷ ps) [] = none
strip_prefix (p ∷ ps) (c ∷ cs) = let rest = strip_prefix ps cs in if eqb p c then rest else none

-- The white space and the line ends that `trim` removes.
abbrev pub is_space : ℕ → Bool
is_space c =
    between 9 13 c
    || (eqb c 32
        || (eqb c 160
            || (eqb c 5760
                || (between 8192 8202 c
                    || (between 8232 8233 c
                        || (eqb c 8239 || (eqb c 8287 || (eqb c 12288 || eqb c 65279))))))))

-- `!text.trim()`.
unfoldable pub is_blank : String → Bool
is_blank text = all is_space (codes text)

-- The flag `i` of a regular expression, on the letters.
abbrev pub lower : ℕ → ℕ
lower c = if between b'A' b'Z' c then c + 32 else c

-- `Buffer.byteLength(text, 'utf8')`.
abbrev pub utf8_bytes : List ℕ → ℕ
utf8_bytes [] = 0
utf8_bytes (c ∷ cs) =
    (if ltb c 128 then 1 else if ltb c 2048 then 2 else if ltb c 65536 then 3 else 4)
    + utf8_bytes cs
