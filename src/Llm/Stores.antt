-- ===== src/Llm/Stores.antt =====
-- The stores of mokv/llm/store.hpp over a key-value store: `PromptCacheStore`, `RetrievalStore`,
-- `RuntimeConfigStore` and `ConversationStore`. `LLMStore` passes every call on to one of them. The
-- lists that are sorted by a time, with no order among equal times, are left out.
pub mod Reads
pub mod Conversations
pub mod Index
use moyuan_kv.Prelude.{if◌then◌else◌, Bytes, ◌||◌, Option, none, some, List, [], ◌∷◌}
use moyuan_kv.KvStore
use moyuan_kv.KvStore.{Database, KvResult, is_incomplete, Store}
use moyuan_kv.Llm.{
  is_empty, PromptCacheEntry, serialize_prompt_cache, parse_prompt_cache, RuntimeConfigRecord,
  serialize_runtime_config, parse_runtime_config,
}
use moyuan_kv.Llm.Nested.{RetrievalChunk, serialize_retrieval_chunk, parse_retrieval_chunk}
use moyuan_kv.Llm.Keyspace

-- `if (!payload) return std::nullopt; return Parse…(*payload);`
unfoldable pub parse_found {ℓ} : {A : Type ℓ} → (Bytes → Option A) → Option Bytes → Option A
parse_found parse none = none
parse_found parse (some payload) = parse payload

-- The loop of the lists: the values that parse, in their order.
unfoldable pub parse_all {ℓ} : {A : Type ℓ} → (Bytes → Option A) → List (Bytes × Bytes) → List A
parse_all parse [] = []
parse_all parse (item ∷ items) =
    let rest = parse_all parse items in
    elim (parse item.1) [ none ↦ rest | some entry ↦ entry ∷ rest ]

module _ (base : Database) where
  unfoldable pub put_prompt_cache : PromptCacheEntry → Store base → KvResult × Store base
  put_prompt_cache entry st =
      if is_empty entry.prompt_hash || is_empty entry.model
      then (is_incomplete, st)
      else KvStore.put base
          (Keyspace.prompt_cache entry.tenant entry.app_id entry.model entry.prompt_hash)
          (serialize_prompt_cache entry) st

  unfoldable pub get_prompt_cache :
      Bytes → Bytes → Bytes → Bytes → Store base → Option PromptCacheEntry
  get_prompt_cache tenant app_id model prompt_hash st =
      parse_found parse_prompt_cache
        (KvStore.get base st (Keyspace.prompt_cache tenant app_id model prompt_hash))

  unfoldable pub delete_prompt_cache :
      Bytes → Bytes → Bytes → Bytes → Store base → KvResult × Store base
  delete_prompt_cache tenant app_id model prompt_hash st =
      KvStore.delete base (Keyspace.prompt_cache tenant app_id model prompt_hash) st

  unfoldable pub put_retrieval_chunk : RetrievalChunk → Store base → KvResult × Store base
  put_retrieval_chunk chunk st =
      if is_empty chunk.document_id || is_empty chunk.chunk_id
      then (is_incomplete, st)
      else KvStore.put base
          (Keyspace.retrieval chunk.tenant chunk.knowledge_base chunk.document_id chunk.chunk_id)
          (serialize_retrieval_chunk chunk) st

  unfoldable pub get_retrieval_chunk :
      Bytes → Bytes → Bytes → Bytes → Store base → Option RetrievalChunk
  get_retrieval_chunk tenant knowledge_base document_id chunk_id st =
      parse_found parse_retrieval_chunk
        (KvStore.get base st (Keyspace.retrieval tenant knowledge_base document_id chunk_id))

  unfoldable pub list_retrieval_chunks : Bytes → Bytes → Bytes → Store base → List RetrievalChunk
  list_retrieval_chunks tenant knowledge_base document_id st = parse_all parse_retrieval_chunk (
      KvStore.list_entries_by_prefix base st
        (Keyspace.retrieval_prefix tenant knowledge_base document_id))

  unfoldable pub delete_retrieval_chunk :
      Bytes → Bytes → Bytes → Bytes → Store base → KvResult × Store base
  delete_retrieval_chunk tenant knowledge_base document_id chunk_id st =
      KvStore.delete base (Keyspace.retrieval tenant knowledge_base document_id chunk_id) st

  unfoldable pub put_runtime_config : RuntimeConfigRecord → Store base → KvResult × Store base
  put_runtime_config entry st =
      if is_empty entry.profile
      then (is_incomplete, st)
      else KvStore.put base (Keyspace.runtime_config entry.tenant entry.app_id entry.profile)
          (serialize_runtime_config entry) st

  unfoldable pub get_runtime_config :
      Bytes → Bytes → Bytes → Store base → Option RuntimeConfigRecord
  get_runtime_config tenant app_id profile st =
      parse_found parse_runtime_config
        (KvStore.get base st (Keyspace.runtime_config tenant app_id profile))

  unfoldable pub delete_runtime_config : Bytes → Bytes → Bytes → Store base → KvResult × Store base
  delete_runtime_config tenant app_id profile st =
      KvStore.delete base (Keyspace.runtime_config tenant app_id profile) st
