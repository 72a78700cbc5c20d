-- ===== src/Llm/Nested/RoundTrip.antt =====
-- Retrieval chunks and legacy conversations are read back as they were written.
use moyuan_kv.Prelude.{
  All, Bytes, beq, ◌≡◌, refl, sym, ap, ◌∙◌, false, some, List, [], ◌∷◌, ◌++◌, append-nil,
  append_assoc,
}
use moyuan_kv.Codec.{escape, unescape}
use moyuan_kv.Codec.Escaping.{IsPlain, unescape-escape, escape-IsPlain}
use moyuan_kv.Codec.Decimal.{IsInt64, parse_int64-format_int, format_int-IsPlain}
use moyuan_kv.Llm.Text.{is_plain, is_plain-IsPlain, run_lines, IsLine, parse_lines-text}
use moyuan_kv.Llm.{
  is_empty, ConversationTurn, tenant_tag, app_id_tag, session_id_tag, model_tag, content_tag,
}
use moyuan_kv.Llm.Nested.{
  knowledge_base_tag, document_id_tag, chunk_id_tag, embedding_ref_tag, meta_tag, turn_tag,
  RetrievalChunk, empty_chunk, metadata_lines, retrieval_chunk_lines, serialize_retrieval_chunk,
  retrieval_chunk_step, check_retrieval_chunk, parse_retrieval_chunk, ConversationSession,
  empty_session, turn_lines, legacy_conversation_lines, serialize_legacy_conversation,
  legacy_conversation_step, check_legacy_conversation, parse_legacy_conversation,
}

tenant_tag-IsPlain : All IsPlain tenant_tag
unfolding is_plain
tenant_tag-IsPlain = is_plain-IsPlain tenant_tag refl

app_id_tag-IsPlain : All IsPlain app_id_tag
unfolding is_plain
app_id_tag-IsPlain = is_plain-IsPlain app_id_tag refl

session_id_tag-IsPlain : All IsPlain session_id_tag
unfolding is_plain
session_id_tag-IsPlain = is_plain-IsPlain session_id_tag refl

model_tag-IsPlain : All IsPlain model_tag
unfolding is_plain
model_tag-IsPlain = is_plain-IsPlain model_tag refl

content_tag-IsPlain : All IsPlain content_tag
unfolding is_plain
content_tag-IsPlain = is_plain-IsPlain content_tag refl

knowledge_base_tag-IsPlain : All IsPlain knowledge_base_tag
unfolding is_plain
knowledge_base_tag-IsPlain = is_plain-IsPlain knowledge_base_tag refl

document_id_tag-IsPlain : All IsPlain document_id_tag
unfolding is_plain
document_id_tag-IsPlain = is_plain-IsPlain document_id_tag refl

chunk_id_tag-IsPlain : All IsPlain chunk_id_tag
unfolding is_plain
chunk_id_tag-IsPlain = is_plain-IsPlain chunk_id_tag refl

embedding_ref_tag-IsPlain : All IsPlain embedding_ref_tag
unfolding is_plain
embedding_ref_tag-IsPlain = is_plain-IsPlain embedding_ref_tag refl

meta_tag-IsPlain : All IsPlain meta_tag
unfolding is_plain
meta_tag-IsPlain = is_plain-IsPlain meta_tag refl

turn_tag-IsPlain : All IsPlain turn_tag
unfolding is_plain
turn_tag-IsPlain = is_plain-IsPlain turn_tag refl

metadata_lines-IsLine : (ms : List (Bytes × Bytes)) → All IsLine (metadata_lines ms)
metadata_lines-IsLine [] = tt
metadata_lines-IsLine (m ∷ ms) =
    ((meta_tag-IsPlain, (escape-IsPlain m.0, (escape-IsPlain m.1, tt))), metadata_lines-IsLine ms)

retrieval_chunk_lines-IsLine : (chunk : RetrievalChunk) → All IsLine (retrieval_chunk_lines chunk)
retrieval_chunk_lines-IsLine chunk = (
  (tenant_tag-IsPlain, (escape-IsPlain chunk.tenant, tt)),
  (
    (knowledge_base_tag-IsPlain, (escape-IsPlain chunk.knowledge_base, tt)),
    (
      (document_id_tag-IsPlain, (escape-IsPlain chunk.document_id, tt)),
      (
        (chunk_id_tag-IsPlain, (escape-IsPlain chunk.chunk_id, tt)),
        (
          (content_tag-IsPlain, (escape-IsPlain chunk.content, tt)),
          (
            (embedding_ref_tag-IsPlain, (escape-IsPlain chunk.embedding_ref, tt)),
            metadata_lines-IsLine chunk.metadata,
          ),
        ),
      ),
    ),
  ),
)

run_metadata :
    (chunk : RetrievalChunk) (ms : List (Bytes × Bytes))
    → run_lines retrieval_chunk_step chunk (metadata_lines ms)
      ≡ some (record chunk { metadata = chunk.metadata ++ ms })
unfolding run_lines retrieval_chunk_step beq
run_metadata chunk [] =
    ap (λ l. some (record chunk { metadata = l })) (sym (append-nil chunk.metadata))
run_metadata chunk (m ∷ ms) =
    rw (unescape-escape m.0, unescape-escape m.1)
      (run_metadata (record chunk { metadata = chunk.metadata ++ m ∷ [] }) ms
        ∙ ap (λ l. some (record chunk { metadata = l })) (append_assoc chunk.metadata (m ∷ []) ms))

-- The fields of one line each, as they are read.
abbrev reread_chunk : RetrievalChunk → RetrievalChunk
reread_chunk chunk = record {
  tenant = unescape (escape chunk.tenant);
  knowledge_base = unescape (escape chunk.knowledge_base);
  document_id = unescape (escape chunk.document_id);
  chunk_id = unescape (escape chunk.chunk_id);
  content = unescape (escape chunk.content);
  embedding_ref = unescape (escape chunk.embedding_ref);
  metadata = [];
}

reread_chunk-same : (chunk : RetrievalChunk) → reread_chunk chunk ≡ record chunk { metadata = [] }
reread_chunk-same chunk =
    rw
      (
        unescape-escape chunk.tenant,
        unescape-escape chunk.knowledge_base,
        unescape-escape chunk.document_id,
        unescape-escape chunk.chunk_id,
        unescape-escape chunk.content,
        unescape-escape chunk.embedding_ref,
      )
      refl

run_retrieval_chunk :
    (chunk : RetrievalChunk)
    → run_lines retrieval_chunk_step empty_chunk (retrieval_chunk_lines chunk) ≡ some chunk
unfolding run_lines retrieval_chunk_step beq
run_retrieval_chunk chunk =
    ap (λ c. run_lines retrieval_chunk_step c (metadata_lines chunk.metadata))
      (reread_chunk-same chunk)
    ∙ run_metadata (record chunk { metadata = [] }) chunk.metadata

-- `ParseRetrievalChunk` reads back what `SerializeRetrievalChunk` writes, its metadata in their order,
-- where `document_id` and `chunk_id` are not empty.
pub parse-serialize_retrieval_chunk :
    (chunk : RetrievalChunk)
    → is_empty chunk.document_id ≡ false
    → is_empty chunk.chunk_id ≡ false
    → parse_retrieval_chunk (serialize_retrieval_chunk chunk) ≡ some chunk
unfolding parse_retrieval_chunk serialize_retrieval_chunk check_retrieval_chunk
parse-serialize_retrieval_chunk chunk n_document_id n_chunk_id =
    rw
      (
        parse_lines-text retrieval_chunk_step empty_chunk (retrieval_chunk_lines chunk)
            (retrieval_chunk_lines-IsLine chunk),
        parse_retrieval_chunk,
      )
      (rw (run_retrieval_chunk chunk) (rw (n_document_id, n_chunk_id) refl))

turn_lines-IsLine : (ts : List ConversationTurn) → All IsLine (turn_lines ts)
turn_lines-IsLine [] = tt
turn_lines-IsLine (t ∷ ts) = (
  (
    turn_tag-IsPlain,
    (escape-IsPlain t.role, (format_int-IsPlain t.created_at_ms, (escape-IsPlain t.content, tt))),
  ),
  turn_lines-IsLine ts,
)

legacy_conversation_lines-IsLine :
    (session : ConversationSession) → All IsLine (legacy_conversation_lines session)
legacy_conversation_lines-IsLine session = (
  (tenant_tag-IsPlain, (escape-IsPlain session.tenant, tt)),
  (
    (app_id_tag-IsPlain, (escape-IsPlain session.app_id, tt)),
    (
      (session_id_tag-IsPlain, (escape-IsPlain session.session_id, tt)),
      ((model_tag-IsPlain, (escape-IsPlain session.model, tt)), turn_lines-IsLine session.turns),
    ),
  ),
)

run_turns :
    (session : ConversationSession) (ts : List ConversationTurn)
    → All (λ t. IsInt64 t.created_at_ms) ts
    → run_lines legacy_conversation_step session (turn_lines ts)
      ≡ some (record session { turns = session.turns ++ ts })
unfolding run_lines legacy_conversation_step beq
run_turns session [] h =
    ap (λ l. some (record session { turns = l })) (sym (append-nil session.turns))
run_turns session (t ∷ ts) h =
    rw
      (
        parse_int64-format_int t.created_at_ms h.0,
        run_lines,
        unescape-escape t.role,
        unescape-escape t.content,
      )
      (run_turns (record session { turns = session.turns ++ t ∷ [] }) ts h.1
        ∙ ap (λ l. some (record session { turns = l })) (append_assoc session.turns (t ∷ []) ts))

-- The fields of one line each, as they are read.
abbrev reread_session : ConversationSession → ConversationSession
reread_session session = record {
  tenant = unescape (escape session.tenant);
  app_id = unescape (escape session.app_id);
  session_id = unescape (escape session.session_id);
  model = unescape (escape session.model);
  turns = [];
}

reread_session-same :
    (session : ConversationSession) → reread_session session ≡ record session { turns = [] }
reread_session-same session =
    rw
      (
        unescape-escape session.tenant,
        unescape-escape session.app_id,
        unescape-escape session.session_id,
        unescape-escape session.model,
      )
      refl

run_legacy_conversation :
    (session : ConversationSession)
    → All (λ t. IsInt64 t.created_at_ms) session.turns
    → run_lines legacy_conversation_step empty_session (legacy_conversation_lines session)
      ≡ some session
unfolding run_lines legacy_conversation_step beq
run_legacy_conversation session h =
    ap (λ c. run_lines legacy_conversation_step c (turn_lines session.turns))
      (reread_session-same session)
    ∙ run_turns (record session { turns = [] }) session.turns h

-- `ParseLegacyConversation` reads back what `SerializeLegacyConversation` writes, its turns in their
-- order, where `session_id` is not empty and the times fit their type.
pub parse-serialize_legacy_conversation :
    (session : ConversationSession)
    → All (λ t. IsInt64 t.created_at_ms) session.turns
    → is_empty session.session_id ≡ false
    → parse_legacy_conversation (serialize_legacy_conversation session) ≡ some session
unfolding parse_legacy_conversation serialize_legacy_conversation check_legacy_conversation
parse-serialize_legacy_conversation session h n_session_id =
    rw
      (
        parse_lines-text legacy_conversation_step empty_session (legacy_conversation_lines session)
            (legacy_conversation_lines-IsLine session),
        parse_legacy_conversation,
      )
      (rw (run_legacy_conversation session h) (rw n_session_id refl))
