-- ===== src/KeyIndex.antt =====
-- The key index of `DBKVStore` (mokv/kvstore.cpp): its text form under the reserved key, the reserved
-- prefix, and the listing by prefix. `std::sort` is insertion by the order of byte strings.
pub mod Reload
use moyuan_kv.Prelude.{
  ◌==◌, if◌then◌else◌, Bytes, blt, Bool, true, false, ◌&&◌, List, [], ◌∷◌, ◌++◌,
}
use moyuan_kv.Codec.{escape, unescape, newline, get_lines}

unfoldable pub insert_sorted : Bytes → List Bytes → List Bytes
insert_sorted key [] = key ∷ []
insert_sorted key (k ∷ keys) =
    let rest = insert_sorted key keys in if blt k key then k ∷ rest else key ∷ k ∷ keys

unfoldable pub sort : List Bytes → List Bytes
sort [] = []
sort (key ∷ keys) = insert_sorted key (sort keys)

-- The loop of `SerializeKeys`.
unfoldable pub serialize_sorted : List Bytes → Bytes
serialize_sorted [] = []
serialize_sorted (key ∷ keys) = escape key ++ newline ∷ serialize_sorted keys

unfoldable pub serialize_keys : List Bytes → Bytes
serialize_keys keys = serialize_sorted (sort keys)

-- The loop of `DeserializeKeys`, which passes over empty lines.
unfoldable pub deserialize_lines : List Bytes → List Bytes
deserialize_lines [] = []
deserialize_lines ([] ∷ lines) = deserialize_lines lines
deserialize_lines ((ch ∷ line) ∷ lines) = unescape (ch ∷ line) ∷ deserialize_lines lines

unfoldable pub deserialize_keys : Bytes → List Bytes
deserialize_keys payload = deserialize_lines (get_lines payload)

-- `key.compare(0, prefix.size(), prefix) == 0`.
unfoldable pub has_prefix : Bytes → Bytes → Bool
has_prefix [] key = true
has_prefix (p ∷ prefix) [] = false
has_prefix (p ∷ prefix) (ch ∷ key) = (p == ch) && has_prefix prefix key

-- The loop of `ListKeysByPrefix`.
unfoldable pub matching_keys : Bytes → List Bytes → List Bytes
matching_keys prefix [] = []
matching_keys prefix (key ∷ keys) =
    let rest = matching_keys prefix keys in if has_prefix prefix key then key ∷ rest else rest

unfoldable pub list_keys_by_prefix : Bytes → List Bytes → List Bytes
list_keys_by_prefix prefix known_keys = sort (matching_keys prefix known_keys)
