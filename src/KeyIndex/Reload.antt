-- ===== src/KeyIndex/Reload.antt =====
-- The key index after a reload.
use moyuan_kv.Prelude.{Bytes, ◌≡◌, refl, ap, ◌∙◌, ◌≢◌, List, [], ◌∷◌, arith}
use moyuan_kv.Codec.{escape, unescape, unescape_from, get_lines, lines_from}
use moyuan_kv.Codec.Escaping.{unescape-escape, escape-IsPlain}
use moyuan_kv.Llm.Text.{Lacks-newline, lines_from-append}
use moyuan_kv.KeyIndex.{sort, serialize_sorted, serialize_keys, deserialize_lines, deserialize_keys}

-- The keys that an index keeps over a reload.
unfoldable pub filled_keys : List Bytes → List Bytes
filled_keys [] = []
filled_keys ([] ∷ keys) = filled_keys keys
filled_keys ((ch ∷ key) ∷ keys) = (ch ∷ key) ∷ filled_keys keys

get_lines-serialize :
    (key : Bytes) (keys : List Bytes)
    → get_lines (serialize_sorted (key ∷ keys)) ≡ escape key ∷ get_lines (serialize_sorted keys)
unfolding get_lines serialize_sorted
get_lines-serialize key keys =
    lines_from-append [] (escape key) (serialize_sorted keys)
      (Lacks-newline (escape key) (escape-IsPlain key))

deserialize_lines-empty :
    (lines : List Bytes) → deserialize_lines (escape [] ∷ lines) ≡ deserialize_lines lines
unfolding deserialize_lines escape
deserialize_lines-empty lines = refl

deserialize_lines-filled :
    (line : Bytes) (lines : List Bytes)
    → unescape line ≢ []
    → deserialize_lines (line ∷ lines) ≡ unescape line ∷ deserialize_lines lines
unfolding deserialize_lines unescape unescape_from
deserialize_lines-filled [] lines h = absurd (h refl)
deserialize_lines-filled (ch ∷ line) lines h = refl

reload_sorted : (keys : List Bytes) → deserialize_keys (serialize_sorted keys) ≡ filled_keys keys
unfolding deserialize_keys filled_keys lines_from
reload_sorted [] = unfold get_lines serialize_sorted deserialize_lines in refl
reload_sorted ([] ∷ keys) =
    ap deserialize_lines (get_lines-serialize [] keys)
    ∙ deserialize_lines-empty (get_lines (serialize_sorted keys))
    ∙ reload_sorted keys
reload_sorted ((ch ∷ key) ∷ keys) =
    ap deserialize_lines (get_lines-serialize (ch ∷ key) keys)
    ∙ deserialize_lines-filled (escape (ch ∷ key)) (get_lines (serialize_sorted keys))
        (λ e. ground (arith, e, unescape-escape (ch ∷ key)))
    ∙ ap (λ k. k ∷ deserialize_lines (get_lines (serialize_sorted keys)))
        (unescape-escape (ch ∷ key))
    ∙ ap (λ ks. (ch ∷ key) ∷ ks) (reload_sorted keys)

-- A reload gives the keys of the index in their order, whatever bytes they hold, and leaves out
-- exactly the empty key.
pub deserialize-serialize_keys :
    (keys : List Bytes) → deserialize_keys (serialize_keys keys) ≡ filled_keys (sort keys)
unfolding serialize_keys
deserialize-serialize_keys keys = reload_sorted (sort keys)
