-- ===== src/Llm/Keyspace.antt =====
-- `Keyspace` of mokv/llm/store.hpp: the keys of the records, and `FormatSequence`.
pub mod Distinct
use moyuan_kv.Prelude.{if◌then◌else◌, length, replicate, Bytes, ℕ, ◌-◌, [], ◌∷◌, ◌++◌}
use moyuan_kv.Codec.{colon, escape_key_part, join_key_parts}
use moyuan_kv.Codec.Decimal.{format}
use moyuan_kv.Llm.{is_empty}

abbrev pub llm_part : Bytes
llm_part = b'l' ∷ b'l' ∷ b'm' ∷ []

abbrev pub prompt_cache_part : Bytes
prompt_cache_part =
    b'p' ∷ b'r' ∷ b'o' ∷ b'm' ∷ b'p' ∷ b't' ∷ 45 ∷ b'c' ∷ b'a' ∷ b'c' ∷ b'h' ∷ b'e' ∷ []

abbrev pub conversation_part : Bytes
conversation_part =
    b'c' ∷ b'o' ∷ b'n' ∷ b'v' ∷ b'e' ∷ b'r' ∷ b's' ∷ b'a' ∷ b't' ∷ b'i' ∷ b'o' ∷ b'n' ∷ []

abbrev pub meta_part : Bytes
meta_part = b'm' ∷ b'e' ∷ b't' ∷ b'a' ∷ []

abbrev pub turn_part : Bytes
turn_part = b't' ∷ b'u' ∷ b'r' ∷ b'n' ∷ []

abbrev pub retrieval_part : Bytes
retrieval_part = b'r' ∷ b'e' ∷ b't' ∷ b'r' ∷ b'i' ∷ b'e' ∷ b'v' ∷ b'a' ∷ b'l' ∷ []

abbrev pub runtime_config_part : Bytes
runtime_config_part =
    b'r' ∷ b'u' ∷ b'n' ∷ b't' ∷ b'i' ∷ b'm' ∷ b'e' ∷ 45 ∷ b'c' ∷ b'o' ∷ b'n' ∷ b'f' ∷ b'i' ∷ b'g'
    ∷ []

unfoldable pub append_key_part : Bytes → Bytes → Bytes
append_key_part key part = key ++ colon ∷ escape_key_part part

-- `std::setw(10) << std::setfill('0')`.
unfoldable pub format_sequence : ℕ → Bytes
format_sequence sequence = replicate (10 - length (format sequence)) b'0' ++ format sequence

unfoldable pub prompt_cache_prefix : Bytes → Bytes → Bytes → Bytes
prompt_cache_prefix tenant app_id model =
    let key = join_key_parts (llm_part ∷ prompt_cache_part ∷ tenant ∷ app_id ∷ []) in
    if is_empty model then key else append_key_part key model

unfoldable pub prompt_cache : Bytes → Bytes → Bytes → Bytes → Bytes
prompt_cache tenant app_id model prompt_hash =
    append_key_part (prompt_cache_prefix tenant app_id model) prompt_hash

unfoldable pub conversation_prefix : Bytes → Bytes → Bytes
conversation_prefix tenant app_id =
    join_key_parts (llm_part ∷ conversation_part ∷ tenant ∷ app_id ∷ [])

unfoldable pub conversation_session_prefix : Bytes → Bytes → Bytes → Bytes
conversation_session_prefix tenant app_id session_id =
    append_key_part (conversation_prefix tenant app_id) session_id

unfoldable pub conversation : Bytes → Bytes → Bytes → Bytes
conversation tenant app_id session_id = conversation_session_prefix tenant app_id session_id

unfoldable pub conversation_meta : Bytes → Bytes → Bytes → Bytes
conversation_meta tenant app_id session_id =
    append_key_part (conversation_session_prefix tenant app_id session_id) meta_part

unfoldable pub conversation_turn_prefix : Bytes → Bytes → Bytes → Bytes
conversation_turn_prefix tenant app_id session_id =
    append_key_part (conversation_session_prefix tenant app_id session_id) turn_part

unfoldable pub conversation_turn : Bytes → Bytes → Bytes → ℕ → Bytes
conversation_turn tenant app_id session_id sequence =
    append_key_part (conversation_turn_prefix tenant app_id session_id) (format_sequence sequence)

unfoldable pub retrieval_prefix : Bytes → Bytes → Bytes → Bytes
retrieval_prefix tenant knowledge_base document_id =
    let key = join_key_parts (llm_part ∷ retrieval_part ∷ tenant ∷ knowledge_base ∷ []) in
    if is_empty document_id then key else append_key_part key document_id

unfoldable pub retrieval : Bytes → Bytes → Bytes → Bytes → Bytes
retrieval tenant knowledge_base document_id chunk_id =
    append_key_part (retrieval_prefix tenant knowledge_base document_id) chunk_id

unfoldable pub runtime_config_prefix : Bytes → Bytes → Bytes
runtime_config_prefix tenant app_id =
    join_key_parts (llm_part ∷ runtime_config_part ∷ tenant ∷ app_id ∷ [])

unfoldable pub runtime_config : Bytes → Bytes → Bytes → Bytes
runtime_config tenant app_id profile = append_key_part (runtime_config_prefix tenant app_id) profile
