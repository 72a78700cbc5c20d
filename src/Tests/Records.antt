-- ===== src/Tests/Records.antt =====
-- Records with odd bytes in their texts.
use moyuan_kv.Prelude.{Bytes, ℕ, ◌≡◌, refl, false, [], ◌∷◌}
use moyuan_kv.Codec.Decimal.{pos, negsuc}
use moyuan_kv.Llm.{
  PromptCacheEntry, ConversationTurn, ConversationSummary, RuntimeConfigRecord, is_empty,
}
use moyuan_kv.Llm.Nested.{RetrievalChunk, ConversationSession}
use moyuan_kv.Llm.Keyspace.Distinct.{conversation_turn_injective}

abbrev odd_text : Bytes
odd_text = 10 ∷ 9 ∷ 92 ∷ b'n' ∷ []

pub odd_text_filled : is_empty odd_text ≡ false
unfolding is_empty
odd_text_filled = refl

abbrev pub cache_entry : PromptCacheEntry
cache_entry = record {
  tenant = [];
  app_id = odd_text;
  model = odd_text;
  prompt_hash = odd_text;
  response = odd_text;
  cached_at_ms = negsuc 41;
  input_tokens = 4294967295;
  output_tokens = 0;
}

abbrev turn : ConversationTurn
turn = record { role = odd_text; content = []; created_at_ms = pos 7 }

abbrev summary : ConversationSummary
summary = record {
  tenant = odd_text;
  app_id = [];
  session_id = odd_text;
  model = [];
  turn_count = 12;
  updated_at_ms = pos 100;
}

abbrev config : RuntimeConfigRecord
config = record {
  tenant = [];
  app_id = [];
  profile = odd_text;
  updated_at_ms = negsuc 0;
  payload = odd_text;
}

abbrev pub chunk : RetrievalChunk
chunk = record {
  tenant = [];
  knowledge_base = odd_text;
  document_id = odd_text;
  chunk_id = odd_text;
  content = odd_text;
  embedding_ref = [];
  metadata = (odd_text, []) ∷ ([], odd_text) ∷ [];
}

abbrev pub session : ConversationSession
session = record {
  tenant = [];
  app_id = odd_text;
  session_id = odd_text;
  model = [];
  turns = turn ∷ turn ∷ [];
}

abbrev turns_before : ℕ
turns_before = 12

conversation_turn_injective_example :
    ([] ∷ odd_text ∷ odd_text ∷ [] ≡ [] ∷ odd_text ∷ odd_text ∷ []) × (turns_before ≡ turns_before)
conversation_turn_injective_example =
    conversation_turn_injective [] odd_text odd_text turns_before [] odd_text odd_text turns_before
      refl
