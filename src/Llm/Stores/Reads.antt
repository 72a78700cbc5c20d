-- ===== src/Llm/Stores/Reads.antt =====
-- A record that is put is got back.
use moyuan_kv.Prelude.{Bool-cases, Bytes, beq, ◌≤◌, ◌≡◌, refl, ap, ◌∙◌, inl, inr, false, some}
use moyuan_kv.Db.{is_tombstone}
use moyuan_kv.Codec.{escape_key_part, escape_key_char, join_key_parts, join_from}
use moyuan_kv.Codec.Decimal.{IsInt64, uint32_max}
use moyuan_kv.KeyIndex.{has_prefix}
use moyuan_kv.KvStore.{Database, ok, is_reserved_key, Store}
use moyuan_kv.KvStore.Reads.{get-put}
use moyuan_kv.Llm.{is_empty, PromptCacheEntry, serialize_prompt_cache, parse_prompt_cache}
use moyuan_kv.Llm.Text.{text}
use moyuan_kv.Llm.RoundTrip.{parse-serialize_prompt_cache}
use moyuan_kv.Llm.Nested.{RetrievalChunk, serialize_retrieval_chunk, parse_retrieval_chunk}
use moyuan_kv.Llm.Nested.RoundTrip.{parse-serialize_retrieval_chunk}
use moyuan_kv.Llm.Keyspace
use moyuan_kv.Llm.Keyspace.{append_key_part, prompt_cache_prefix, retrieval_prefix}
use moyuan_kv.Llm.Stores.{
  parse_found, put_prompt_cache, get_prompt_cache, put_retrieval_chunk, get_retrieval_chunk,
}

prompt_cache-open :
    (tenant app_id model prompt_hash : Bytes)
    → is_reserved_key (Keyspace.prompt_cache tenant app_id model prompt_hash) ≡ false
unfolding is_reserved_key has_prefix Keyspace.prompt_cache prompt_cache_prefix append_key_part
    join_key_parts join_from escape_key_part escape_key_char
prompt_cache-open tenant app_id model prompt_hash = elim (Bool-cases (is_empty model)) [
  | inl e ↦ rw e refl
  | inr e ↦ rw e refl
]

retrieval-open :
    (tenant knowledge_base document_id chunk_id : Bytes)
    → is_reserved_key (Keyspace.retrieval tenant knowledge_base document_id chunk_id) ≡ false
unfolding is_reserved_key has_prefix Keyspace.retrieval retrieval_prefix append_key_part
    join_key_parts join_from escape_key_part escape_key_char
retrieval-open tenant knowledge_base document_id chunk_id =
    elim (Bool-cases (is_empty document_id)) [ inl e ↦ rw e refl | inr e ↦ rw e refl ]

prompt_cache-plain :
    (entry : PromptCacheEntry) → is_tombstone (serialize_prompt_cache entry) ≡ false
unfolding is_tombstone beq serialize_prompt_cache text
prompt_cache-plain entry = refl

retrieval_chunk-plain :
    (chunk : RetrievalChunk) → is_tombstone (serialize_retrieval_chunk chunk) ≡ false
unfolding is_tombstone beq serialize_retrieval_chunk text
retrieval_chunk-plain chunk = refl

module _ (base : Database) where
  -- A prompt cache entry that is put into an open store is got back, whatever bytes its texts hold,
  -- where the model and the hash are not empty and the numbers fit their types, if no memtable is on its
  -- way to the flush queue or to a file when a call runs.
  pub get_prompt_cache-put :
      (entry : PromptCacheEntry) (st : Store base) (d : base.State)
      → st.db ≡ some d
      → IsInt64 entry.cached_at_ms
      → entry.input_tokens ≤ uint32_max
      → entry.output_tokens ≤ uint32_max
      → is_empty entry.model ≡ false
      → is_empty entry.prompt_hash ≡ false
      → ((put_prompt_cache base entry st).0 ≡ ok)
        × (get_prompt_cache base entry.tenant entry.app_id entry.model entry.prompt_hash
              (put_prompt_cache base entry st).1
            ≡ some entry)
  unfolding put_prompt_cache get_prompt_cache parse_found
  get_prompt_cache-put entry st d o i n m e f =
      let key = Keyspace.prompt_cache entry.tenant entry.app_id entry.model entry.prompt_hash in
      let written =
        get-put base key (serialize_prompt_cache entry) st d o
          (prompt_cache-open entry.tenant entry.app_id entry.model entry.prompt_hash)
          (prompt_cache-plain entry) in
      rw (f, e)
        (
          written.0,
          ap (parse_found parse_prompt_cache) written.1
              ∙ parse-serialize_prompt_cache entry i n m e f,
        )

  -- A chunk that is put into an open store is got back with its metadata in their order, whatever
  -- bytes its texts hold, where the document and the chunk are not empty, if no memtable is on its
  -- way to the flush queue or to a file when a call runs.
  pub get_retrieval_chunk-put :
      (chunk : RetrievalChunk) (st : Store base) (d : base.State)
      → st.db ≡ some d
      → is_empty chunk.document_id ≡ false
      → is_empty chunk.chunk_id ≡ false
      → ((put_retrieval_chunk base chunk st).0 ≡ ok)
        × (get_retrieval_chunk base chunk.tenant chunk.knowledge_base chunk.document_id
              chunk.chunk_id
              (put_retrieval_chunk base chunk st).1
            ≡ some chunk)
  unfolding put_retrieval_chunk get_retrieval_chunk parse_found
  get_retrieval_chunk-put chunk st d o e f =
      let key =
        Keyspace.retrieval chunk.tenant chunk.knowledge_base chunk.document_id chunk.chunk_id in
      let written =
        get-put base key (serialize_retrieval_chunk chunk) st d o
          (retrieval-open chunk.tenant chunk.knowledge_base chunk.document_id chunk.chunk_id)
          (retrieval_chunk-plain chunk) in
      rw (e, f)
        (
          written.0,
          ap (parse_found parse_retrieval_chunk) written.1
              ∙ parse-serialize_retrieval_chunk chunk e f,
        )
