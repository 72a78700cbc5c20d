-- ===== src/Llm.antt =====
-- The records of mokv/llm/store.hpp and their text form: `Serialize…` and `Parse…` of `mokv::llm::detail`.
-- A parser is a loop over the lines, whose body is a step by the tag of a line.
pub mod Text
pub mod RoundTrip
pub mod Keyspace
pub mod Stores
pub mod Nested
use moyuan_kv.Prelude.{
  if◌then◌else◌, Bytes, beq, ℕ, Bool, true, false, ◌||◌, Option, none, some, List, [], ◌∷◌,
}
use moyuan_kv.Codec.{escape, unescape, get_lines}
use moyuan_kv.Codec.Decimal.{ℤ, pos, format, format_int, parse_uint32, parse_int64}
use moyuan_kv.Llm.Text.{text, parse_lines}

unfoldable pub is_empty : Bytes → Bool
is_empty [] = true
is_empty (ch ∷ raw) = false

-- The names of the fields in the text.
abbrev pub tenant_tag : Bytes
tenant_tag = b't' ∷ b'e' ∷ b'n' ∷ b'a' ∷ b'n' ∷ b't' ∷ []

abbrev pub app_id_tag : Bytes
app_id_tag = b'a' ∷ b'p' ∷ b'p' ∷ b'_' ∷ b'i' ∷ b'd' ∷ []

abbrev pub model_tag : Bytes
model_tag = b'm' ∷ b'o' ∷ b'd' ∷ b'e' ∷ b'l' ∷ []

abbrev pub prompt_hash_tag : Bytes
prompt_hash_tag = b'p' ∷ b'r' ∷ b'o' ∷ b'm' ∷ b'p' ∷ b't' ∷ b'_' ∷ b'h' ∷ b'a' ∷ b's' ∷ b'h' ∷ []

abbrev pub response_tag : Bytes
response_tag = b'r' ∷ b'e' ∷ b's' ∷ b'p' ∷ b'o' ∷ b'n' ∷ b's' ∷ b'e' ∷ []

abbrev pub cached_at_ms_tag : Bytes
cached_at_ms_tag =
    b'c' ∷ b'a' ∷ b'c' ∷ b'h' ∷ b'e' ∷ b'd' ∷ b'_' ∷ b'a' ∷ b't' ∷ b'_' ∷ b'm' ∷ b's' ∷ []

abbrev pub input_tokens_tag : Bytes
input_tokens_tag =
    b'i' ∷ b'n' ∷ b'p' ∷ b'u' ∷ b't' ∷ b'_' ∷ b't' ∷ b'o' ∷ b'k' ∷ b'e' ∷ b'n' ∷ b's' ∷ []

abbrev pub output_tokens_tag : Bytes
output_tokens_tag =
    b'o' ∷ b'u' ∷ b't' ∷ b'p' ∷ b'u' ∷ b't' ∷ b'_' ∷ b't' ∷ b'o' ∷ b'k' ∷ b'e' ∷ b'n' ∷ b's' ∷ []

abbrev pub role_tag : Bytes
role_tag = b'r' ∷ b'o' ∷ b'l' ∷ b'e' ∷ []

abbrev pub content_tag : Bytes
content_tag = b'c' ∷ b'o' ∷ b'n' ∷ b't' ∷ b'e' ∷ b'n' ∷ b't' ∷ []

abbrev pub created_at_ms_tag : Bytes
created_at_ms_tag =
    b'c' ∷ b'r' ∷ b'e' ∷ b'a' ∷ b't' ∷ b'e' ∷ b'd' ∷ b'_' ∷ b'a' ∷ b't' ∷ b'_' ∷ b'm' ∷ b's' ∷ []

abbrev pub session_id_tag : Bytes
session_id_tag = b's' ∷ b'e' ∷ b's' ∷ b's' ∷ b'i' ∷ b'o' ∷ b'n' ∷ b'_' ∷ b'i' ∷ b'd' ∷ []

abbrev pub turn_count_tag : Bytes
turn_count_tag = b't' ∷ b'u' ∷ b'r' ∷ b'n' ∷ b'_' ∷ b'c' ∷ b'o' ∷ b'u' ∷ b'n' ∷ b't' ∷ []

abbrev pub updated_at_ms_tag : Bytes
updated_at_ms_tag =
    b'u' ∷ b'p' ∷ b'd' ∷ b'a' ∷ b't' ∷ b'e' ∷ b'd' ∷ b'_' ∷ b'a' ∷ b't' ∷ b'_' ∷ b'm' ∷ b's' ∷ []

abbrev pub profile_tag : Bytes
profile_tag = b'p' ∷ b'r' ∷ b'o' ∷ b'f' ∷ b'i' ∷ b'l' ∷ b'e' ∷ []

abbrev pub payload_tag : Bytes
payload_tag = b'p' ∷ b'a' ∷ b'y' ∷ b'l' ∷ b'o' ∷ b'a' ∷ b'd' ∷ []

pub record PromptCacheEntry : Type 0 where
  pub tenant : Bytes
  pub app_id : Bytes
  pub model : Bytes
  pub prompt_hash : Bytes
  pub response : Bytes
  pub cached_at_ms : ℤ
  pub input_tokens : ℕ
  pub output_tokens : ℕ

abbrev pub empty_prompt_cache : PromptCacheEntry
empty_prompt_cache = record {
  tenant = [];
  app_id = [];
  model = [];
  prompt_hash = [];
  response = [];
  cached_at_ms = pos 0;
  input_tokens = 0;
  output_tokens = 0;
}

abbrev pub prompt_cache_lines : PromptCacheEntry → List (List Bytes)
prompt_cache_lines entry =
    (tenant_tag ∷ escape entry.tenant ∷ [])
    ∷ (app_id_tag ∷ escape entry.app_id ∷ [])
    ∷ (model_tag ∷ escape entry.model ∷ [])
    ∷ (prompt_hash_tag ∷ escape entry.prompt_hash ∷ [])
    ∷ (response_tag ∷ escape entry.response ∷ [])
    ∷ (cached_at_ms_tag ∷ format_int entry.cached_at_ms ∷ [])
    ∷ (input_tokens_tag ∷ format entry.input_tokens ∷ [])
    ∷ (output_tokens_tag ∷ format entry.output_tokens ∷ [])
    ∷ []

unfoldable pub serialize_prompt_cache : PromptCacheEntry → Bytes
serialize_prompt_cache entry = text (prompt_cache_lines entry)

-- The body of the loop of `ParsePromptCache`.
unfoldable pub prompt_cache_step : PromptCacheEntry → List Bytes → Option PromptCacheEntry
prompt_cache_step entry [] = some entry
prompt_cache_step entry (tag ∷ []) = some entry
prompt_cache_step entry (tag ∷ field ∷ other ∷ fields) = some entry
prompt_cache_step entry (tag ∷ field ∷ []) =
    if beq tag tenant_tag
    then some (record entry { tenant = unescape field })
    else if beq tag app_id_tag
    then some (record entry { app_id = unescape field })
    else if beq tag model_tag
    then some (record entry { model = unescape field })
    else if beq tag prompt_hash_tag
    then some (record entry { prompt_hash = unescape field })
    else if beq tag response_tag
    then some (record entry { response = unescape field })
    else if beq tag cached_at_ms_tag
    then elim (parse_int64 field) [
      | none ↦ none
      | some n ↦ some (record entry { cached_at_ms = n })
    ]
    else if beq tag input_tokens_tag
    then elim (parse_uint32 field) [
      | none ↦ none
      | some n ↦ some (record entry { input_tokens = n })
    ]
    else if beq tag output_tokens_tag
    then elim (parse_uint32 field) [
      | none ↦ none
      | some n ↦ some (record entry { output_tokens = n })
    ]
    else some entry

-- Behind the loop: the fields that have to be there.
unfoldable pub check_prompt_cache : PromptCacheEntry → Option PromptCacheEntry
check_prompt_cache entry =
    if is_empty entry.model || is_empty entry.prompt_hash then none else some entry

unfoldable pub parse_prompt_cache : Bytes → Option PromptCacheEntry
parse_prompt_cache payload =
    elim (parse_lines prompt_cache_step empty_prompt_cache (get_lines payload)) [
      | none ↦ none
      | some entry ↦ check_prompt_cache entry
    ]

pub record ConversationTurn : Type 0 where
  pub role : Bytes
  pub content : Bytes
  pub created_at_ms : ℤ

abbrev pub empty_conversation_turn : ConversationTurn
empty_conversation_turn = record { role = []; content = []; created_at_ms = pos 0 }

abbrev pub conversation_turn_lines : ConversationTurn → List (List Bytes)
conversation_turn_lines entry =
    (role_tag ∷ escape entry.role ∷ [])
    ∷ (content_tag ∷ escape entry.content ∷ [])
    ∷ (created_at_ms_tag ∷ format_int entry.created_at_ms ∷ [])
    ∷ []

unfoldable pub serialize_conversation_turn : ConversationTurn → Bytes
serialize_conversation_turn entry = text (conversation_turn_lines entry)

-- The body of the loop of `ParseConversationTurn`.
unfoldable pub conversation_turn_step : ConversationTurn → List Bytes → Option ConversationTurn
conversation_turn_step entry [] = some entry
conversation_turn_step entry (tag ∷ []) = some entry
conversation_turn_step entry (tag ∷ field ∷ other ∷ fields) = some entry
conversation_turn_step entry (tag ∷ field ∷ []) =
    if beq tag role_tag
    then some (record entry { role = unescape field })
    else if beq tag content_tag
    then some (record entry { content = unescape field })
    else if beq tag created_at_ms_tag
    then elim (parse_int64 field) [
      | none ↦ none
      | some n ↦ some (record entry { created_at_ms = n })
    ]
    else some entry

-- Behind the loop: the fields that have to be there.
unfoldable pub check_conversation_turn : ConversationTurn → Option ConversationTurn
check_conversation_turn entry = if is_empty entry.role then none else some entry

unfoldable pub parse_conversation_turn : Bytes → Option ConversationTurn
parse_conversation_turn payload =
    elim (parse_lines conversation_turn_step empty_conversation_turn (get_lines payload)) [
      | none ↦ none
      | some entry ↦ check_conversation_turn entry
    ]

pub record ConversationSummary : Type 0 where
  pub tenant : Bytes
  pub app_id : Bytes
  pub session_id : Bytes
  pub model : Bytes
  pub turn_count : ℕ
  pub updated_at_ms : ℤ

abbrev pub empty_conversation_summary : ConversationSummary
empty_conversation_summary = record {
  tenant = [];
  app_id = [];
  session_id = [];
  model = [];
  turn_count = 0;
  updated_at_ms = pos 0;
}

abbrev pub conversation_summary_lines : ConversationSummary → List (List Bytes)
conversation_summary_lines entry =
    (tenant_tag ∷ escape entry.tenant ∷ [])
    ∷ (app_id_tag ∷ escape entry.app_id ∷ [])
    ∷ (session_id_tag ∷ escape entry.session_id ∷ [])
    ∷ (model_tag ∷ escape entry.model ∷ [])
    ∷ (turn_count_tag ∷ format entry.turn_count ∷ [])
    ∷ (updated_at_ms_tag ∷ format_int entry.updated_at_ms ∷ [])
    ∷ []

unfoldable pub serialize_conversation_summary : ConversationSummary → Bytes
serialize_conversation_summary entry = text (conversation_summary_lines entry)

-- The body of the loop of `ParseConversationSummary`.
unfoldable pub conversation_summary_step :
    ConversationSummary → List Bytes → Option ConversationSummary
conversation_summary_step entry [] = some entry
conversation_summary_step entry (tag ∷ []) = some entry
conversation_summary_step entry (tag ∷ field ∷ other ∷ fields) = some entry
conversation_summary_step entry (tag ∷ field ∷ []) =
    if beq tag tenant_tag
    then some (record entry { tenant = unescape field })
    else if beq tag app_id_tag
    then some (record entry { app_id = unescape field })
    else if beq tag session_id_tag
    then some (record entry { session_id = unescape field })
    else if beq tag model_tag
    then some (record entry { model = unescape field })
    else if beq tag turn_count_tag
    then elim (parse_uint32 field) [ none ↦ none | some n ↦ some (record entry { turn_count = n }) ]
    else if beq tag updated_at_ms_tag
    then elim (parse_int64 field) [
      | none ↦ none
      | some n ↦ some (record entry { updated_at_ms = n })
    ]
    else some entry

-- Behind the loop: the fields that have to be there.
unfoldable pub check_conversation_summary : ConversationSummary → Option ConversationSummary
check_conversation_summary entry = if is_empty entry.session_id then none else some entry

unfoldable pub parse_conversation_summary : Bytes → Option ConversationSummary
parse_conversation_summary payload =
    elim (parse_lines conversation_summary_step empty_conversation_summary (get_lines payload)) [
      | none ↦ none
      | some entry ↦ check_conversation_summary entry
    ]

pub record RuntimeConfigRecord : Type 0 where
  pub tenant : Bytes
  pub app_id : Bytes
  pub profile : Bytes
  pub updated_at_ms : ℤ
  pub payload : Bytes

abbrev pub empty_runtime_config : RuntimeConfigRecord
empty_runtime_config = record {
  tenant = [];
  app_id = [];
  profile = [];
  updated_at_ms = pos 0;
  payload = [];
}

abbrev pub runtime_config_lines : RuntimeConfigRecord → List (List Bytes)
runtime_config_lines entry =
    (tenant_tag ∷ escape entry.tenant ∷ [])
    ∷ (app_id_tag ∷ escape entry.app_id ∷ [])
    ∷ (profile_tag ∷ escape entry.profile ∷ [])
    ∷ (updated_at_ms_tag ∷ format_int entry.updated_at_ms ∷ [])
    ∷ (payload_tag ∷ escape entry.payload ∷ [])
    ∷ []

unfoldable pub serialize_runtime_config : RuntimeConfigRecord → Bytes
serialize_runtime_config entry = text (runtime_config_lines entry)

-- The body of the loop of `ParseRuntimeConfig`.
unfoldable pub runtime_config_step : RuntimeConfigRecord → List Bytes → Option RuntimeConfigRecord
runtime_config_step entry [] = some entry
runtime_config_step entry (tag ∷ []) = some entry
runtime_config_step entry (tag ∷ field ∷ other ∷ fields) = some entry
runtime_config_step entry (tag ∷ field ∷ []) =
    if beq tag tenant_tag
    then some (record entry { tenant = unescape field })
    else if beq tag app_id_tag
    then some (record entry { app_id = unescape field })
    else if beq tag profile_tag
    then some (record entry { profile = unescape field })
    else if beq tag updated_at_ms_tag
    then elim (parse_int64 field) [
      | none ↦ none
      | some n ↦ some (record entry { updated_at_ms = n })
    ]
    else if beq tag payload_tag
    then some (record entry { payload = unescape field })
    else some entry

-- Behind the loop: the fields that have to be there.
unfoldable pub check_runtime_config : RuntimeConfigRecord → Option RuntimeConfigRecord
check_runtime_config entry = if is_empty entry.profile then none else some entry

unfoldable pub parse_runtime_config : Bytes → Option RuntimeConfigRecord
parse_runtime_config payload =
    elim (parse_lines runtime_config_step empty_runtime_config (get_lines payload)) [
      | none ↦ none
      | some entry ↦ check_runtime_config entry
    ]
