-- ===== src/Base/Patterns.antt =====
-- Texts as lists of code points, and the regular expressions of two character classes.
use Prim.Native.Char.{code}
use Prim.Native.Nat.{ℕ, ◌+◌}
use Prim.Native.String.{String}
use mathlib.Core.Bool.{Bool, true, false, ◌&&◌, ◌||◌}
use mathlib.Core.Option.{Option, none, some}
use mathlib.Core.List.{List, [], ◌∷◌}
use soul_room_edge_platform.Base.Tests.{ltb, leb, eqb, if◌then◌else◌}
use soul_room_edge_platform.Base.Lists.{length}

abbrev pub codes : String → List ℕ
codes String.[] = []
codes (String.◌∷◌ c s) = code c ∷ codes s

abbrev pub all_codes : (ℕ → Bool) → List ℕ → Bool
all_codes p [] = true
all_codes p (c ∷ cs) = p c && all_codes p cs

-- The regular expression `^A B{least,most}$`, for two classes of characters.
unfoldable pub matches : (ℕ → Bool) → (ℕ → Bool) → ℕ → ℕ → List ℕ → Bool
matches a b least most [] = false
matches a b least most (c ∷ cs) =
    a c && all_codes b cs && leb least (length cs) && leb (length cs) most

abbrev pub is_lower : ℕ → Bool
is_lower c = leb b'a' c && leb c b'z'

abbrev pub is_digit : ℕ → Bool
is_digit c = leb b'0' c && leb c b'9'

abbrev pub is_alphanumeric : ℕ → Bool
is_alphanumeric c = leb b'A' c && leb c b'Z' || is_lower c || is_digit c

abbrev pub is_name : ℕ → Bool
is_name c = is_alphanumeric c || eqb c b'.' || eqb c b'_' || eqb c b'-'

-- `strings.HasPrefix` and `strings.TrimPrefix` in one: the rest behind a prefix, if it is one.
unfoldable pub strip_prefix : String → String → Option String
strip_prefix String.[] s = some s
strip_prefix (String.◌∷◌ c p) String.[] = none
strip_prefix (String.◌∷◌ c p) (String.◌∷◌ d s) =
    let rest = strip_prefix p s in if eqb (code c) (code d) then rest else none

-- `strings.Contains(s, c)` for a text of one character
unfoldable pub has_char : ℕ → String → Bool
has_char c String.[] = false
has_char c (String.◌∷◌ d s) = eqb (code d) c || has_char c s

abbrev pub utf8_size : ℕ → ℕ
utf8_size c = if ltb c 128 then 1 else if ltb c 2048 then 2 else if ltb c 65536 then 3 else 4

-- `len(s)` of a text, which counts the bytes of its UTF-8
unfoldable pub byte_length : String → ℕ
byte_length String.[] = 0
byte_length (String.◌∷◌ c s) = utf8_size (code c) + byte_length s
