-- ===== src/Llm/Keyspace/Distinct.antt =====
-- The keys of different records are different.
use moyuan_kv.Prelude.{
  length, get_or, take, drop, Bytes, ℕ, ◌+◌, ◌-◌, ◌≤◌, ◌≡◌, sym, ap, ◌∙◌, false, some, List, [],
  ◌∷◌, ◌++◌, append-nil, append_assoc, arith,
}
use moyuan_kv.Codec.{colon, escape_key_part, join_key_parts, join_from}
use moyuan_kv.Codec.Decimal.{format, parse_digits, parse_digits-format, parse_digits-zeros}
use moyuan_kv.Codec.Keys.{join_key_parts_injective}
use moyuan_kv.Llm.{is_empty}
use moyuan_kv.Llm.Keyspace.{
  llm_part, prompt_cache_part, conversation_part, turn_part, append_key_part, prompt_cache_prefix,
  prompt_cache, conversation_prefix, conversation_session_prefix, conversation_turn_prefix,
  conversation_turn, format_sequence,
}

join_from-append :
    (part : Bytes) (parts : List Bytes)
    → join_from false (parts ++ part ∷ []) ≡ join_from false parts ++ colon ∷ escape_key_part part
unfolding join_from
join_from-append part [] = ap (λ t. colon ∷ t) (append-nil (escape_key_part part))
join_from-append part (p ∷ parts) =
    ap (λ t. colon ∷ (escape_key_part p ++ t)) (join_from-append part parts)
    ∙ ap (λ t. colon ∷ t)
        (sym
          (append_assoc (escape_key_part p) (join_from false parts) (colon ∷ escape_key_part part)))

-- One more part at the end of a key.
append_key_part-join :
    (p : Bytes) (parts : List Bytes) (part : Bytes)
    → append_key_part (join_key_parts (p ∷ parts)) part ≡ join_key_parts (p ∷ (parts ++ part ∷ []))
unfolding append_key_part join_key_parts join_from
append_key_part-join p parts part =
    append_assoc (escape_key_part p) (join_from false parts) (colon ∷ escape_key_part part)
    ∙ ap (λ t. escape_key_part p ++ t) (sym (join_from-append part parts))

prompt_cache-join :
    (tenant app_id model prompt_hash : Bytes)
    → is_empty model ≡ false
    → prompt_cache tenant app_id model prompt_hash
      ≡ join_key_parts (llm_part ∷ prompt_cache_part ∷ tenant ∷ app_id ∷ model ∷ prompt_hash ∷ [])
unfolding prompt_cache prompt_cache_prefix
prompt_cache-join tenant app_id model prompt_hash h = rw h (
    ap (λ key. append_key_part key prompt_hash)
      (append_key_part-join llm_part (prompt_cache_part ∷ tenant ∷ app_id ∷ []) model)
    ∙ append_key_part-join llm_part (prompt_cache_part ∷ tenant ∷ app_id ∷ model ∷ []) prompt_hash)

-- Prompt cache entries with a model have one key only if tenant, application, model and hash agree.
pub prompt_cache_injective :
    (tenant app_id model prompt_hash : Bytes) (tenant' app_id' model' prompt_hash' : Bytes)
    → is_empty model ≡ false
    → is_empty model' ≡ false
    → prompt_cache tenant app_id model prompt_hash
      ≡ prompt_cache tenant' app_id' model' prompt_hash'
    → tenant ∷ app_id ∷ model ∷ prompt_hash ∷ [] ≡ tenant' ∷ app_id' ∷ model' ∷ prompt_hash' ∷ []
prompt_cache_injective tenant app_id model prompt_hash tenant' app_id' model' prompt_hash' h h' e =
    ap (drop 2) (
      join_key_parts_injective llm_part llm_part
        (prompt_cache_part ∷ tenant ∷ app_id ∷ model ∷ prompt_hash ∷ [])
        (prompt_cache_part ∷ tenant' ∷ app_id' ∷ model' ∷ prompt_hash' ∷ [])
        (sym (prompt_cache-join tenant app_id model prompt_hash h)
          ∙ e
          ∙ prompt_cache-join tenant' app_id' model' prompt_hash' h'))

conversation_turn-join :
    (tenant app_id session_id : Bytes) (sequence : ℕ)
    → conversation_turn tenant app_id session_id sequence
      ≡ join_key_parts (
          llm_part
          ∷ conversation_part
          ∷ tenant
          ∷ app_id
          ∷ session_id
          ∷ turn_part
          ∷ format_sequence sequence
          ∷ [])
unfolding conversation_turn conversation_turn_prefix conversation_session_prefix conversation_prefix
conversation_turn-join tenant app_id session_id sequence =
    ap (λ key. append_key_part (append_key_part key turn_part) (format_sequence sequence))
      (append_key_part-join llm_part (conversation_part ∷ tenant ∷ app_id ∷ []) session_id)
    ∙ ap (λ key. append_key_part key (format_sequence sequence))
        (append_key_part-join llm_part (conversation_part ∷ tenant ∷ app_id ∷ session_id ∷ [])
          turn_part)
    ∙ append_key_part-join llm_part
        (conversation_part ∷ tenant ∷ app_id ∷ session_id ∷ turn_part ∷ [])
        (format_sequence sequence)

format_sequence_injective : (m n : ℕ) → format_sequence m ≡ format_sequence n → m ≡ n
format_sequence_injective m n e =
    option_injective m n
      (sym (parsed m (omega arith)) ∙ ap (parse_digits (m + n) 0) e ∙ parsed n (omega arith))
  where
    parsed : (k : ℕ) → k ≤ m + n → parse_digits (m + n) 0 (format_sequence k) ≡ some k
    parsed k h =
        unfold format_sequence in
        parse_digits-zeros (m + n) (10 - length (format k)) (format k)
        ∙ parse_digits-format (m + n) k h

    option_injective : (i j : ℕ) → some i ≡ some j → i ≡ j
    option_injective i j h = cc

-- Two turns have one key only if tenant, application, session and sequence number agree.
pub conversation_turn_injective :
    (tenant app_id session_id : Bytes) (sequence : ℕ) (tenant' app_id' session_id' : Bytes)
    (sequence' : ℕ)
    → conversation_turn tenant app_id session_id sequence
      ≡ conversation_turn tenant' app_id' session_id' sequence'
    → (tenant ∷ app_id ∷ session_id ∷ [] ≡ tenant' ∷ app_id' ∷ session_id' ∷ [])
      × (sequence ≡ sequence')
conversation_turn_injective tenant app_id session_id sequence tenant' app_id' session_id' sequence'
      e =
    let parts =
      join_key_parts_injective llm_part llm_part
        (conversation_part
          ∷ tenant
          ∷ app_id
          ∷ session_id
          ∷ turn_part
          ∷ format_sequence sequence
          ∷ [])
        (conversation_part
          ∷ tenant'
          ∷ app_id'
          ∷ session_id'
          ∷ turn_part
          ∷ format_sequence sequence'
          ∷ [])
        (sym (conversation_turn-join tenant app_id session_id sequence)
          ∙ e
          ∙ conversation_turn-join tenant' app_id' session_id' sequence') in
    (
      ap (λ ps. take 3 (drop 2 ps)) parts,
      format_sequence_injective sequence sequence' (ap (λ ps. get_or ps 6 []) parts),
    )
