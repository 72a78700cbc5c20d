-- ===== src/Codec.antt =====
-- mokv/utils/codec.hpp: escaping, splitting and joining of the text formats, over lists of bytes.
pub mod Escaping
pub mod Splitting
pub mod Decimal
pub mod Keys
use moyuan_kv.Prelude.{
  ◌==◌, if◌then◌else◌, length, take, drop, Bytes, ℕ, zero, suc, ◌+◌, Bool, true, false, Option,
  none, some, List, [], ◌∷◌, ◌++◌,
}

abbrev pub backslash : ℕ
backslash = 92

abbrev pub newline : ℕ
newline = 10

abbrev pub tab : ℕ
tab = 9

abbrev pub colon : ℕ
colon = 58

-- The `switch` of `Escape`.
unfoldable pub escape_char : ℕ → Bytes
escape_char ch =
    if ch == backslash
    then backslash ∷ backslash ∷ []
    else if ch == newline
    then backslash ∷ b'n' ∷ []
    else if ch == tab
    then backslash ∷ b't' ∷ []
    else ch ∷ []

unfoldable pub escape : Bytes → Bytes
escape [] = []
escape (ch ∷ raw) = escape_char ch ++ escape raw

-- The `switch` of `EscapeKeyPart`.
unfoldable pub escape_key_char : ℕ → Bytes
escape_key_char ch =
    if ch == backslash
    then backslash ∷ backslash ∷ []
    else if ch == newline
    then backslash ∷ b'n' ∷ []
    else if ch == tab
    then backslash ∷ b't' ∷ []
    else if ch == colon
    then backslash ∷ colon ∷ []
    else ch ∷ []

unfoldable pub escape_key_part : Bytes → Bytes
escape_key_part [] = []
escape_key_part (ch ∷ raw) = escape_key_char ch ++ escape_key_part raw

-- The `switch` of `Unescape`, for the byte that follows a backslash.
unfoldable pub unescape_char : ℕ → ℕ
unescape_char ch = if ch == b'n' then newline else if ch == b't' then tab else ch

-- The loop of `Unescape`, with its flag `escaped`: what it still appends to `decoded`.
unfoldable pub unescape_from : Bool → Bytes → Bytes
unescape_from false [] = []
unescape_from true [] = backslash ∷ []
unescape_from false (ch ∷ raw) = elim (ch == backslash) [
  | true ↦ unescape_from true raw
  | false ↦ ch ∷ unescape_from false raw
]
unescape_from true (ch ∷ raw) = unescape_char ch ∷ unescape_from false raw

unfoldable pub unescape : Bytes → Bytes
unescape raw = unescape_from false raw

-- `raw.find(delimiter)`: the first position of a byte.
unfoldable pub find : ℕ → Bytes → Option ℕ
find delimiter [] = none
find delimiter (ch ∷ raw) =
    if ch == delimiter
    then some 0
    else elim (find delimiter raw) [ none ↦ none | some pos ↦ some (suc pos) ]

-- The loop of `Split` over `raw.substr(start)`; each round takes a token off, so the fuel of
-- `split` is enough.
unfoldable pub split_loop : ℕ → ℕ → Bytes → List Bytes
split_loop zero delimiter raw = []
split_loop (suc fuel) delimiter raw = elim (find delimiter raw) [
  | none ↦ raw ∷ []
  | some pos ↦ take pos raw ∷ split_loop fuel delimiter (drop (pos + 1) raw)
]

unfoldable pub split : Bytes → ℕ → List Bytes
split raw delimiter = split_loop (suc (length raw)) delimiter raw

-- The loop of `JoinKeyParts`, with its flag `first`: what it still appends to `key`.
unfoldable pub join_from : Bool → List Bytes → Bytes
join_from first [] = []
join_from true (part ∷ parts) = escape_key_part part ++ join_from false parts
join_from false (part ∷ parts) = colon ∷ (escape_key_part part ++ join_from false parts)

unfoldable pub join_key_parts : List Bytes → Bytes
join_key_parts parts = join_from true parts

-- `std::getline` until it fails: the lines of a text, whose last one may lack its newline.
unfoldable pub lines_from : Bytes → Bytes → List Bytes
lines_from [] [] = []
lines_from (ch ∷ line) [] = (ch ∷ line) ∷ []
lines_from line (ch ∷ raw) = elim (ch == newline) [
  | true ↦ line ∷ lines_from [] raw
  | false ↦ lines_from (line ++ ch ∷ []) raw
]

unfoldable pub get_lines : Bytes → List Bytes
get_lines raw = lines_from [] raw
