-- ===== src/Llm/RoundTrip.antt =====
-- What is written of a record is read back as that record.
use moyuan_kv.Prelude.{All, beq, ◌≤◌, ◌≡◌, refl, false, some}
use moyuan_kv.Codec.Escaping.{IsPlain, unescape-escape, escape-IsPlain}
use moyuan_kv.Codec.Decimal.{
  IsInt64, uint32_max, parse_uint32-format, parse_int64-format_int, format-IsPlain,
  format_int-IsPlain,
}
use moyuan_kv.Llm.Text.{is_plain, is_plain-IsPlain, run_lines, IsLine, parse_lines-text}
use moyuan_kv.Llm.{
  PromptCacheEntry, empty_prompt_cache, prompt_cache_lines, serialize_prompt_cache,
  prompt_cache_step, check_prompt_cache, parse_prompt_cache, ConversationTurn,
  empty_conversation_turn, conversation_turn_lines, serialize_conversation_turn,
  conversation_turn_step, check_conversation_turn, parse_conversation_turn, ConversationSummary,
  empty_conversation_summary, conversation_summary_lines, serialize_conversation_summary,
  conversation_summary_step, check_conversation_summary, parse_conversation_summary,
  RuntimeConfigRecord, empty_runtime_config, runtime_config_lines, serialize_runtime_config,
  runtime_config_step, check_runtime_config, parse_runtime_config, is_empty, tenant_tag, app_id_tag,
  model_tag, prompt_hash_tag, response_tag, cached_at_ms_tag, input_tokens_tag, output_tokens_tag,
  role_tag, content_tag, created_at_ms_tag, session_id_tag, turn_count_tag, updated_at_ms_tag,
  profile_tag, payload_tag,
}

tenant_tag-IsPlain : All IsPlain tenant_tag
unfolding is_plain
tenant_tag-IsPlain = is_plain-IsPlain tenant_tag refl

app_id_tag-IsPlain : All IsPlain app_id_tag
unfolding is_plain
app_id_tag-IsPlain = is_plain-IsPlain app_id_tag refl

model_tag-IsPlain : All IsPlain model_tag
unfolding is_plain
model_tag-IsPlain = is_plain-IsPlain model_tag refl

prompt_hash_tag-IsPlain : All IsPlain prompt_hash_tag
unfolding is_plain
prompt_hash_tag-IsPlain = is_plain-IsPlain prompt_hash_tag refl

response_tag-IsPlain : All IsPlain response_tag
unfolding is_plain
response_tag-IsPlain = is_plain-IsPlain response_tag refl

cached_at_ms_tag-IsPlain : All IsPlain cached_at_ms_tag
unfolding is_plain
cached_at_ms_tag-IsPlain = is_plain-IsPlain cached_at_ms_tag refl

input_tokens_tag-IsPlain : All IsPlain input_tokens_tag
unfolding is_plain
input_tokens_tag-IsPlain = is_plain-IsPlain input_tokens_tag refl

output_tokens_tag-IsPlain : All IsPlain output_tokens_tag
unfolding is_plain
output_tokens_tag-IsPlain = is_plain-IsPlain output_tokens_tag refl

role_tag-IsPlain : All IsPlain role_tag
unfolding is_plain
role_tag-IsPlain = is_plain-IsPlain role_tag refl

content_tag-IsPlain : All IsPlain content_tag
unfolding is_plain
content_tag-IsPlain = is_plain-IsPlain content_tag refl

created_at_ms_tag-IsPlain : All IsPlain created_at_ms_tag
unfolding is_plain
created_at_ms_tag-IsPlain = is_plain-IsPlain created_at_ms_tag refl

session_id_tag-IsPlain : All IsPlain session_id_tag
unfolding is_plain
session_id_tag-IsPlain = is_plain-IsPlain session_id_tag refl

turn_count_tag-IsPlain : All IsPlain turn_count_tag
unfolding is_plain
turn_count_tag-IsPlain = is_plain-IsPlain turn_count_tag refl

updated_at_ms_tag-IsPlain : All IsPlain updated_at_ms_tag
unfolding is_plain
updated_at_ms_tag-IsPlain = is_plain-IsPlain updated_at_ms_tag refl

profile_tag-IsPlain : All IsPlain profile_tag
unfolding is_plain
profile_tag-IsPlain = is_plain-IsPlain profile_tag refl

payload_tag-IsPlain : All IsPlain payload_tag
unfolding is_plain
payload_tag-IsPlain = is_plain-IsPlain payload_tag refl

prompt_cache_lines-IsLine : (entry : PromptCacheEntry) → All IsLine (prompt_cache_lines entry)
prompt_cache_lines-IsLine entry = (
  (tenant_tag-IsPlain, (escape-IsPlain entry.tenant, tt)),
  (
    (app_id_tag-IsPlain, (escape-IsPlain entry.app_id, tt)),
    (
      (model_tag-IsPlain, (escape-IsPlain entry.model, tt)),
      (
        (prompt_hash_tag-IsPlain, (escape-IsPlain entry.prompt_hash, tt)),
        (
          (response_tag-IsPlain, (escape-IsPlain entry.response, tt)),
          (
            (cached_at_ms_tag-IsPlain, (format_int-IsPlain entry.cached_at_ms, tt)),
            (
              (input_tokens_tag-IsPlain, (format-IsPlain entry.input_tokens, tt)),
              ((output_tokens_tag-IsPlain, (format-IsPlain entry.output_tokens, tt)), tt),
            ),
          ),
        ),
      ),
    ),
  ),
)

run_prompt_cache :
    (entry : PromptCacheEntry)
    → IsInt64 entry.cached_at_ms
    → entry.input_tokens ≤ uint32_max
    → entry.output_tokens ≤ uint32_max
    → run_lines prompt_cache_step empty_prompt_cache (prompt_cache_lines entry) ≡ some entry
unfolding run_lines prompt_cache_step beq
run_prompt_cache entry h_cached_at_ms h_input_tokens h_output_tokens =
    rw
      (
        parse_int64-format_int entry.cached_at_ms h_cached_at_ms,
        parse_uint32-format entry.input_tokens h_input_tokens,
        parse_uint32-format entry.output_tokens h_output_tokens,
        run_lines,
        unescape-escape entry.tenant,
        unescape-escape entry.app_id,
        unescape-escape entry.model,
        unescape-escape entry.prompt_hash,
        unescape-escape entry.response,
      )
      refl

-- `ParsePromptCache` reads back what `SerializePromptCache` writes, whatever bytes the texts hold, where
-- `model` and `prompt_hash` are not empty and the numbers fit their types.
pub parse-serialize_prompt_cache :
    (entry : PromptCacheEntry)
    → IsInt64 entry.cached_at_ms
    → entry.input_tokens ≤ uint32_max
    → entry.output_tokens ≤ uint32_max
    → is_empty entry.model ≡ false
    → is_empty entry.prompt_hash ≡ false
    → parse_prompt_cache (serialize_prompt_cache entry) ≡ some entry
unfolding parse_prompt_cache serialize_prompt_cache check_prompt_cache
parse-serialize_prompt_cache entry h_cached_at_ms h_input_tokens h_output_tokens n_model
      n_prompt_hash =
    rw
      (
        parse_lines-text prompt_cache_step empty_prompt_cache (prompt_cache_lines entry)
            (prompt_cache_lines-IsLine entry),
        parse_prompt_cache,
      )
      (rw (run_prompt_cache entry h_cached_at_ms h_input_tokens h_output_tokens)
        (rw (n_model, n_prompt_hash) refl))

conversation_turn_lines-IsLine :
    (entry : ConversationTurn) → All IsLine (conversation_turn_lines entry)
conversation_turn_lines-IsLine entry = (
  (role_tag-IsPlain, (escape-IsPlain entry.role, tt)),
  (
    (content_tag-IsPlain, (escape-IsPlain entry.content, tt)),
    ((created_at_ms_tag-IsPlain, (format_int-IsPlain entry.created_at_ms, tt)), tt),
  ),
)

run_conversation_turn :
    (entry : ConversationTurn)
    → IsInt64 entry.created_at_ms
    → run_lines conversation_turn_step empty_conversation_turn (conversation_turn_lines entry)
      ≡ some entry
unfolding run_lines conversation_turn_step beq
run_conversation_turn entry h_created_at_ms =
    rw
      (
        parse_int64-format_int entry.created_at_ms h_created_at_ms,
        run_lines,
        unescape-escape entry.role,
        unescape-escape entry.content,
      )
      refl

-- `ParseConversationTurn` reads back what `SerializeConversationTurn` writes, whatever bytes the texts hold, where
-- `role` is not empty and the numbers fit their types.
pub parse-serialize_conversation_turn :
    (entry : ConversationTurn)
    → IsInt64 entry.created_at_ms
    → is_empty entry.role ≡ false
    → parse_conversation_turn (serialize_conversation_turn entry) ≡ some entry
unfolding parse_conversation_turn serialize_conversation_turn check_conversation_turn
parse-serialize_conversation_turn entry h_created_at_ms n_role =
    rw
      (
        parse_lines-text conversation_turn_step empty_conversation_turn
            (conversation_turn_lines entry) (conversation_turn_lines-IsLine entry),
        parse_conversation_turn,
      )
      (rw (run_conversation_turn entry h_created_at_ms) (rw (n_role) refl))

conversation_summary_lines-IsLine :
    (entry : ConversationSummary) → All IsLine (conversation_summary_lines entry)
conversation_summary_lines-IsLine entry = (
  (tenant_tag-IsPlain, (escape-IsPlain entry.tenant, tt)),
  (
    (app_id_tag-IsPlain, (escape-IsPlain entry.app_id, tt)),
    (
      (session_id_tag-IsPlain, (escape-IsPlain entry.session_id, tt)),
      (
        (model_tag-IsPlain, (escape-IsPlain entry.model, tt)),
        (
          (turn_count_tag-IsPlain, (format-IsPlain entry.turn_count, tt)),
          ((updated_at_ms_tag-IsPlain, (format_int-IsPlain entry.updated_at_ms, tt)), tt),
        ),
      ),
    ),
  ),
)

run_conversation_summary :
    (entry : ConversationSummary)
    → entry.turn_count ≤ uint32_max
    → IsInt64 entry.updated_at_ms
    → run_lines conversation_summary_step empty_conversation_summary
        (conversation_summary_lines entry)
      ≡ some entry
unfolding run_lines conversation_summary_step beq
run_conversation_summary entry h_turn_count h_updated_at_ms =
    rw
      (
        parse_uint32-format entry.turn_count h_turn_count,
        parse_int64-format_int entry.updated_at_ms h_updated_at_ms,
        run_lines,
        unescape-escape entry.tenant,
        unescape-escape entry.app_id,
        unescape-escape entry.session_id,
        unescape-escape entry.model,
      )
      refl

-- `ParseConversationSummary` reads back what `SerializeConversationSummary` writes, whatever bytes the texts hold, where
-- `session_id` is not empty and the numbers fit their types.
pub parse-serialize_conversation_summary :
    (entry : ConversationSummary)
    → entry.turn_count ≤ uint32_max
    → IsInt64 entry.updated_at_ms
    → is_empty entry.session_id ≡ false
    → parse_conversation_summary (serialize_conversation_summary entry) ≡ some entry
unfolding parse_conversation_summary serialize_conversation_summary check_conversation_summary
parse-serialize_conversation_summary entry h_turn_count h_updated_at_ms n_session_id =
    rw
      (
        parse_lines-text conversation_summary_step empty_conversation_summary
            (conversation_summary_lines entry) (conversation_summary_lines-IsLine entry),
        parse_conversation_summary,
      )
      (rw (run_conversation_summary entry h_turn_count h_updated_at_ms) (rw (n_session_id) refl))

runtime_config_lines-IsLine :
    (entry : RuntimeConfigRecord) → All IsLine (runtime_config_lines entry)
runtime_config_lines-IsLine entry = (
  (tenant_tag-IsPlain, (escape-IsPlain entry.tenant, tt)),
  (
    (app_id_tag-IsPlain, (escape-IsPlain entry.app_id, tt)),
    (
      (profile_tag-IsPlain, (escape-IsPlain entry.profile, tt)),
      (
        (updated_at_ms_tag-IsPlain, (format_int-IsPlain entry.updated_at_ms, tt)),
        ((payload_tag-IsPlain, (escape-IsPlain entry.payload, tt)), tt),
      ),
    ),
  ),
)

run_runtime_config :
    (entry : RuntimeConfigRecord)
    → IsInt64 entry.updated_at_ms
    → run_lines runtime_config_step empty_runtime_config (runtime_config_lines entry) ≡ some entry
unfolding run_lines runtime_config_step beq
run_runtime_config entry h_updated_at_ms =
    rw
      (
        parse_int64-format_int entry.updated_at_ms h_updated_at_ms,
        run_lines,
        unescape-escape entry.tenant,
        unescape-escape entry.app_id,
        unescape-escape entry.profile,
        unescape-escape entry.payload,
      )
      refl

-- `ParseRuntimeConfig` reads back what `SerializeRuntimeConfig` writes, whatever bytes the texts hold, where
-- `profile` is not empty and the numbers fit their types.
pub parse-serialize_runtime_config :
    (entry : RuntimeConfigRecord)
    → IsInt64 entry.updated_at_ms
    → is_empty entry.profile ≡ false
    → parse_runtime_config (serialize_runtime_config entry) ≡ some entry
unfolding parse_runtime_config serialize_runtime_config check_runtime_config
parse-serialize_runtime_config entry h_updated_at_ms n_profile =
    rw
      (
        parse_lines-text runtime_config_step empty_runtime_config (runtime_config_lines entry)
            (runtime_config_lines-IsLine entry),
        parse_runtime_config,
      )
      (rw (run_runtime_config entry h_updated_at_ms) (rw (n_profile) refl))
