-- ===== src/Llm/Nested.antt =====
-- The records of mokv/llm/store.hpp that hold lists: a retrieval chunk with its metadata, and a
-- conversation in its legacy form with its turns.
pub mod RoundTrip
use moyuan_kv.Prelude.{if◌then◌else◌, Bytes, beq, ◌||◌, Option, none, some, List, [], ◌∷◌, ◌++◌}
use moyuan_kv.Codec.{escape, unescape, get_lines}
use moyuan_kv.Codec.Decimal.{format_int, parse_int64}
use moyuan_kv.Llm.Text.{text, parse_lines}
use moyuan_kv.Llm.{
  is_empty, ConversationTurn, tenant_tag, app_id_tag, session_id_tag, model_tag, content_tag,
}

abbrev pub knowledge_base_tag : Bytes
knowledge_base_tag =
    b'k' ∷ b'n' ∷ b'o' ∷ b'w' ∷ b'l' ∷ b'e' ∷ b'd' ∷ b'g' ∷ b'e' ∷ b'_' ∷ b'b' ∷ b'a' ∷ b's' ∷ b'e'
    ∷ []

abbrev pub document_id_tag : Bytes
document_id_tag = b'd' ∷ b'o' ∷ b'c' ∷ b'u' ∷ b'm' ∷ b'e' ∷ b'n' ∷ b't' ∷ b'_' ∷ b'i' ∷ b'd' ∷ []

abbrev pub chunk_id_tag : Bytes
chunk_id_tag = b'c' ∷ b'h' ∷ b'u' ∷ b'n' ∷ b'k' ∷ b'_' ∷ b'i' ∷ b'd' ∷ []

abbrev pub embedding_ref_tag : Bytes
embedding_ref_tag =
    b'e' ∷ b'm' ∷ b'b' ∷ b'e' ∷ b'd' ∷ b'd' ∷ b'i' ∷ b'n' ∷ b'g' ∷ b'_' ∷ b'r' ∷ b'e' ∷ b'f' ∷ []

abbrev pub meta_tag : Bytes
meta_tag = b'm' ∷ b'e' ∷ b't' ∷ b'a' ∷ []

abbrev pub turn_tag : Bytes
turn_tag = b't' ∷ b'u' ∷ b'r' ∷ b'n' ∷ []

pub record RetrievalChunk : Type 0 where
  pub tenant : Bytes
  pub knowledge_base : Bytes
  pub document_id : Bytes
  pub chunk_id : Bytes
  pub content : Bytes
  pub embedding_ref : Bytes
  pub metadata : List (Bytes × Bytes)

abbrev pub empty_chunk : RetrievalChunk
empty_chunk = record {
  tenant = [];
  knowledge_base = [];
  document_id = [];
  chunk_id = [];
  content = [];
  embedding_ref = [];
  metadata = [];
}

abbrev pub metadata_lines : List (Bytes × Bytes) → List (List Bytes)
metadata_lines [] = []
metadata_lines (m ∷ ms) = (meta_tag ∷ escape m.0 ∷ escape m.1 ∷ []) ∷ metadata_lines ms

abbrev pub retrieval_chunk_lines : RetrievalChunk → List (List Bytes)
retrieval_chunk_lines chunk =
    (tenant_tag ∷ escape chunk.tenant ∷ [])
    ∷ (knowledge_base_tag ∷ escape chunk.knowledge_base ∷ [])
    ∷ (document_id_tag ∷ escape chunk.document_id ∷ [])
    ∷ (chunk_id_tag ∷ escape chunk.chunk_id ∷ [])
    ∷ (content_tag ∷ escape chunk.content ∷ [])
    ∷ (embedding_ref_tag ∷ escape chunk.embedding_ref ∷ [])
    ∷ metadata_lines chunk.metadata

unfoldable pub serialize_retrieval_chunk : RetrievalChunk → Bytes
serialize_retrieval_chunk chunk = text (retrieval_chunk_lines chunk)

-- The body of the loop of `ParseRetrievalChunk`.
unfoldable pub retrieval_chunk_step : RetrievalChunk → List Bytes → Option RetrievalChunk
retrieval_chunk_step chunk [] = some chunk
retrieval_chunk_step chunk (tag ∷ []) = some chunk
retrieval_chunk_step chunk (tag ∷ field ∷ []) =
    if beq tag tenant_tag
    then some (record chunk { tenant = unescape field })
    else if beq tag knowledge_base_tag
    then some (record chunk { knowledge_base = unescape field })
    else if beq tag document_id_tag
    then some (record chunk { document_id = unescape field })
    else if beq tag chunk_id_tag
    then some (record chunk { chunk_id = unescape field })
    else if beq tag content_tag
    then some (record chunk { content = unescape field })
    else if beq tag embedding_ref_tag
    then some (record chunk { embedding_ref = unescape field })
    else some chunk
retrieval_chunk_step chunk (tag ∷ field ∷ other ∷ []) =
    if beq tag meta_tag
    then some (record chunk { metadata = chunk.metadata ++ (unescape field, unescape other) ∷ [] })
    else some chunk
retrieval_chunk_step chunk (tag ∷ field ∷ other ∷ more ∷ fields) = some chunk

unfoldable pub check_retrieval_chunk : RetrievalChunk → Option RetrievalChunk
check_retrieval_chunk chunk =
    if is_empty chunk.document_id || is_empty chunk.chunk_id then none else some chunk

unfoldable pub parse_retrieval_chunk : Bytes → Option RetrievalChunk
parse_retrieval_chunk payload =
    elim (parse_lines retrieval_chunk_step empty_chunk (get_lines payload)) [
      | none ↦ none
      | some chunk ↦ check_retrieval_chunk chunk
    ]

pub record ConversationSession : Type 0 where
  pub tenant : Bytes
  pub app_id : Bytes
  pub session_id : Bytes
  pub model : Bytes
  pub turns : List ConversationTurn

abbrev pub empty_session : ConversationSession
empty_session = record { tenant = []; app_id = []; session_id = []; model = []; turns = [] }

abbrev pub turn_lines : List ConversationTurn → List (List Bytes)
turn_lines [] = []
turn_lines (t ∷ ts) =
    (turn_tag ∷ escape t.role ∷ format_int t.created_at_ms ∷ escape t.content ∷ []) ∷ turn_lines ts

abbrev pub legacy_conversation_lines : ConversationSession → List (List Bytes)
legacy_conversation_lines session =
    (tenant_tag ∷ escape session.tenant ∷ [])
    ∷ (app_id_tag ∷ escape session.app_id ∷ [])
    ∷ (session_id_tag ∷ escape session.session_id ∷ [])
    ∷ (model_tag ∷ escape session.model ∷ [])
    ∷ turn_lines session.turns

unfoldable pub serialize_legacy_conversation : ConversationSession → Bytes
serialize_legacy_conversation session = text (legacy_conversation_lines session)

-- The body of the loop of `ParseLegacyConversation`.
unfoldable pub legacy_conversation_step :
    ConversationSession → List Bytes → Option ConversationSession
legacy_conversation_step session [] = some session
legacy_conversation_step session (tag ∷ []) = some session
legacy_conversation_step session (tag ∷ field ∷ []) =
    if beq tag tenant_tag
    then some (record session { tenant = unescape field })
    else if beq tag app_id_tag
    then some (record session { app_id = unescape field })
    else if beq tag session_id_tag
    then some (record session { session_id = unescape field })
    else if beq tag model_tag
    then some (record session { model = unescape field })
    else some session
legacy_conversation_step session (tag ∷ field ∷ other ∷ []) = some session
legacy_conversation_step session (tag ∷ role ∷ created_at_ms ∷ content ∷ []) =
    if beq tag turn_tag
    then elim (parse_int64 created_at_ms) [
      | none ↦ none
      | some n ↦ some (record session {
        turns =
            session.turns
            ++ record { role = unescape role; content = unescape content; created_at_ms = n } ∷ [];
      })
    ]
    else some session
legacy_conversation_step session (tag ∷ role ∷ created_at_ms ∷ content ∷ more ∷ fields) =
    some session

unfoldable pub check_legacy_conversation : ConversationSession → Option ConversationSession
check_legacy_conversation session = if is_empty session.session_id then none else some session

unfoldable pub parse_legacy_conversation : Bytes → Option ConversationSession
parse_legacy_conversation payload =
    elim (parse_lines legacy_conversation_step empty_session (get_lines payload)) [
      | none ↦ none
      | some session ↦ check_legacy_conversation session
    ]
