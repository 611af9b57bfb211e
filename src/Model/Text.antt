-- ===== src/Model/Text.antt =====
-- What src/model.rs uses of `str`: emptiness, `trim`, `contains` and `replace` of one character.
use Prim.Native.Char.{code}
use loomterm.Prelude.{ℕ, String, Bool, true, false, ◌&&◌, ◌||◌, ◌<>◌, leb, eqb, if◌then◌else◌}

unfoldable pub str_is_empty : String → Bool
str_is_empty String.[] = true
str_is_empty (String.◌∷◌ c s) = false

-- The characters with the Unicode property White_Space.
unfoldable pub is_whitespace : ℕ → Bool
is_whitespace c =
    leb 9 c && leb c 13
    || eqb c 32
    || eqb c 0x85
    || eqb c 0xa0
    || eqb c 0x1680
    || leb 0x2000 c && leb c 0x200a
    || eqb c 0x2028
    || eqb c 0x2029
    || eqb c 0x202f
    || eqb c 0x205f
    || eqb c 0x3000

-- `s.trim().is_empty()`
unfoldable pub is_blank : String → Bool
unfolding is_whitespace
is_blank String.[] = true
is_blank (String.◌∷◌ c s) = is_whitespace (code c) && is_blank s

-- `s.contains(c)`, the character given by its code
unfoldable pub contains_char : ℕ → String → Bool
contains_char k String.[] = false
contains_char k (String.◌∷◌ c s) = eqb (code c) k || contains_char k s

unfoldable pub is_ascii_alphanumeric : ℕ → Bool
is_ascii_alphanumeric c =
    leb b'0' c && leb c b'9' || leb b'A' c && leb c b'Z' || leb b'a' c && leb c b'z'

-- `s.chars().all(p)`
unfoldable pub all_chars : (ℕ → Bool) → String → Bool
all_chars p String.[] = true
all_chars p (String.◌∷◌ c s) = p (code c) && all_chars p s

-- `s.replace(c, with)`, the character given by its code
unfoldable pub replace_char : ℕ → String → String → String
replace_char k with String.[] = ""
replace_char k with (String.◌∷◌ c s) =
    let rest = replace_char k with s in if eqb (code c) k then with <> rest else String.◌∷◌ c rest
