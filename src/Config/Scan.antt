-- ===== src/Config/Scan.antt =====
-- The scanner of config_parser.cpp: the raw text of a key's value, and the objects of an array. A
-- position in a text is the text from there on; `std::string::npos` is `none`.
use ngfwtraffic_gen.Common.{
  ℕ, zero, suc, ◌+◌, ◌-◌, Bool, true, false, not, ◌&&◌, ◌||◌, Option, none, some, List, [], ◌∷◌,
  ◌++◌, Bytes, length, leb, ◌==◌, if◌then◌else◌,
}

unfoldable pub starts_with : Bytes → Bytes → Bool
starts_with [] s = true
starts_with (p ∷ ps) [] = false
starts_with (p ∷ ps) (c ∷ s) = p == c && starts_with ps s

-- `s.find(pattern, pos)`.
unfoldable pub find_text : Bytes → Bytes → Option Bytes
find_text pattern [] = if starts_with pattern [] then some [] else none
find_text pattern (c ∷ s) =
    let rest = find_text pattern s in if starts_with pattern (c ∷ s) then some (c ∷ s) else rest

-- `s.find(c, pos)`.
unfoldable pub find_char : ℕ → Bytes → Option Bytes
find_char c [] = none
find_char c (x ∷ s) = let rest = find_char c s in if x == c then some (x ∷ s) else rest

-- `std::isspace` in the C locale.
abbrev pub is_space : ℕ → Bool
is_space c = c == b' ' || leb 9 c && leb c 13

unfoldable pub skip_space : Bytes → Bytes
skip_space [] = []
skip_space (c ∷ s) = let rest = skip_space s in if is_space c then rest else c ∷ s

unfoldable pub cons? : ℕ → Option Bytes → Option Bytes
cons? c none = none
cons? c (some s) = some (c ∷ s)

-- The text up to the first quote with no backslash before it; `before` is the byte before the text.
unfoldable pub up_to_quote : ℕ → Bytes → Option Bytes
unfolding cons?
up_to_quote before [] = none
up_to_quote before (c ∷ s) =
    let rest = cons? c (up_to_quote c s) in
    if c == b'"' && not (before == b'\\') then some (c ∷ []) else rest

unfoldable pub on_first : ℕ → Option (Bytes × Bytes) → Option (Bytes × Bytes)
on_first c none = none
on_first c (some (s, rest)) = some (c ∷ s, rest)

-- The text up to the bracket that brings the depth to 0, and what follows it. The depth is not 0 before
-- a closing bracket, and a file has fewer brackets than an `int` counts.
unfoldable pub up_to_close : ℕ → ℕ → ℕ → Bytes → Option (Bytes × Bytes)
unfolding on_first
up_to_close left right depth [] = none
up_to_close left right depth (c ∷ s) =
    let depth' = if c == left then depth + 1 else if c == right then depth - 1 else depth in
    let rest = on_first c (up_to_close left right depth' s) in
    if depth' == 0 then some (c ∷ [], s) else rest

unfoldable pub up_to_end : Bytes → Bytes
up_to_end [] = []
up_to_end (c ∷ s) =
    let rest = c ∷ up_to_end s in if c == b',' || c == b'}' || c == b']' then [] else rest

unfoldable pub first_or_empty : Option (Bytes × Bytes) → Bytes
first_or_empty none = []
first_or_empty (some (s, rest)) = s

unfoldable pub or_empty : Option Bytes → Bytes
or_empty none = []
or_empty (some s) = s

-- The value that a text begins with: a string, an object or an array, or anything else.
unfoldable pub raw_at : Bytes → Bytes
unfolding up_to_quote up_to_close up_to_end first_or_empty or_empty
raw_at [] = []
raw_at (c ∷ s) =
    if c == b'"'
    then or_empty (cons? c (up_to_quote c s))
    else if c == b'{'
    then first_or_empty (on_first c (up_to_close b'{' b'}' 1 s))
    else if c == b'['
    then first_or_empty (on_first c (up_to_close b'[' b']' 1 s))
    else up_to_end (c ∷ s)

abbrev pub quoted : Bytes → Bytes
quoted key = b'"' ∷ (key ++ (b'"' ∷ []))

abbrev after_colon : Option Bytes → Bytes
after_colon none = []
after_colon (some []) = []
after_colon (some (colon ∷ s)) = raw_at (skip_space s)

abbrev from_key : Option Bytes → Bytes
from_key none = []
from_key (some s) = after_colon (find_char b':' s)

-- The value behind a key, or the empty text.
unfoldable pub find_raw_value : Bytes → Bytes → Bytes
unfolding find_text find_char skip_space raw_at
find_raw_value json key = from_key (find_text (quoted key) json)

unfoldable pub extract_array : Bytes → Bytes → Bytes
unfolding find_raw_value starts_with
extract_array json key =
    let raw = find_raw_value json key in if starts_with (b'[' ∷ []) raw then raw else []

abbrev pub object_closed :
    (Bytes → Option (List Bytes)) → Option (Bytes × Bytes) → Option (List Bytes)
object_closed next none = some []
object_closed next (some (object, rest)) = elim (next rest) [
  | none ↦ none
  | some objects ↦ some (object ∷ objects)
]

abbrev object_at : (Bytes → Option (List Bytes)) → Option Bytes → Option (List Bytes)
object_at next none = some []
object_at next (some []) = some []
object_at next (some (c ∷ s)) = object_closed next (on_first c (up_to_close b'{' b'}' 1 s))

-- The loop over the objects of an array, on fuel; `none` means that the fuel ran out. An object that is
-- not closed ends it.
unfoldable pub objects_from : ℕ → Bytes → Option (List Bytes)
unfolding up_to_close find_char
objects_from zero s = none
objects_from (suc fuel) s = object_at (objects_from fuel) (find_char b'{' s)

-- Each round takes a brace at least.
unfoldable pub split_objects_in_array : Bytes → Option (List Bytes)
unfolding objects_from
split_objects_in_array s = objects_from (suc (length s)) s
