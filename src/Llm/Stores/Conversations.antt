-- ===== src/Llm/Stores/Conversations.antt =====
-- `ConversationStore` of mokv/llm/store.hpp: a conversation as a summary, a legacy record and one record
-- for each turn. The turns are numbered by a `uint32_t`.
use moyuan_kv.Prelude.{
  leb, if◌then◌else◌, length, drop, Bytes, ℕ, ◌+◌, ◌-◌, ◌%◌, Option, none, some, List, [], ◌∷◌,
  ◌++◌,
}
use moyuan_kv.KeyIndex.{list_keys_by_prefix}
use moyuan_kv.KvStore
use moyuan_kv.KvStore.{Database, KvResult, ok, is_incomplete, is_missing, Store, and_then}
use moyuan_kv.Codec.Decimal.{ℤ, pos}
use moyuan_kv.Llm.{
  is_empty, ConversationTurn, serialize_conversation_turn, parse_conversation_turn,
  ConversationSummary, serialize_conversation_summary, parse_conversation_summary,
}
use moyuan_kv.Llm.Nested.{
  ConversationSession, serialize_legacy_conversation, parse_legacy_conversation,
}
use moyuan_kv.Llm.Keyspace
use moyuan_kv.Llm.Stores.{parse_found, parse_all}

-- `LastTurnTimestamp`.
unfoldable pub last_turn_timestamp : List ConversationTurn → ℤ
last_turn_timestamp [] = pos 0
last_turn_timestamp (t ∷ []) = t.created_at_ms
last_turn_timestamp (t ∷ u ∷ ts) = last_turn_timestamp (u ∷ ts)

unfoldable pub summary_of : ConversationSession → ConversationSummary
summary_of session = record {
  tenant = session.tenant;
  app_id = session.app_id;
  session_id = session.session_id;
  model = session.model;
  turn_count = length session.turns % 4294967296;
  updated_at_ms = last_turn_timestamp session.turns;
}

-- The loop of `Save` over the turns, from the given number on.
unfoldable pub turn_entries : ConversationSession → ℕ → List ConversationTurn → List (Bytes × Bytes)
turn_entries session i [] = []
turn_entries session i (t ∷ ts) =
    (
      Keyspace.conversation_turn session.tenant session.app_id session.session_id i,
      serialize_conversation_turn t,
    )
    ∷ turn_entries session ((i + 1) % 4294967296) ts

-- The entries that `Save` writes.
unfoldable pub save_entries : ConversationSession → List (Bytes × Bytes)
save_entries session =
    (
      Keyspace.conversation session.tenant session.app_id session.session_id,
      serialize_legacy_conversation session,
    )
    ∷ (
      Keyspace.conversation_meta session.tenant session.app_id session.session_id,
      serialize_conversation_summary (summary_of session),
    )
    ∷ turn_entries session 0 session.turns

module _ (base : Database) where
  -- Nothing is deleted where there are no turns.
  unfoldable pub delete_stale : List Bytes → Store base → KvResult × Store base
  delete_stale [] st = (ok, st)
  delete_stale (k ∷ ks) st = KvStore.batch_delete base (k ∷ ks) st

  unfoldable pub turn_keys : Bytes → Bytes → Bytes → Store base → List Bytes
  turn_keys tenant app_id session_id st =
      list_keys_by_prefix (Keyspace.conversation_turn_prefix tenant app_id session_id) st.known_keys

  unfoldable pub save : ConversationSession → Store base → KvResult × Store base
  save session st =
      if is_empty session.session_id
      then (is_incomplete, st)
      else and_then base
          (delete_stale (turn_keys session.tenant session.app_id session.session_id st) st)
          (KvStore.batch base (save_entries session))

  unfoldable pub list_turns : Bytes → Bytes → Bytes → Store base → List ConversationTurn
  list_turns tenant app_id session_id st = parse_all parse_conversation_turn (
      KvStore.list_entries_by_prefix base st
        (Keyspace.conversation_turn_prefix tenant app_id session_id))

  unfoldable pub get : Bytes → Bytes → Bytes → Store base → Option ConversationSession
  get tenant app_id session_id st =
      elim (KvStore.get base st (Keyspace.conversation_meta tenant app_id session_id)) [
        | some payload ↦ elim (parse_conversation_summary payload) [
          | none ↦ none
          | some summary ↦ some (record {
            tenant = summary.tenant;
            app_id = summary.app_id;
            session_id = summary.session_id;
            model = summary.model;
            turns = list_turns tenant app_id session_id st;
          })
        ]
        | none ↦
            parse_found parse_legacy_conversation
              (KvStore.get base st (Keyspace.conversation tenant app_id session_id))
      ]

  -- `AppendTurn`, with the four fields of the descriptor.
  unfoldable pub append_turn :
      Bytes → Bytes → Bytes → Bytes → ConversationTurn → Store base → KvResult × Store base
  append_turn tenant app_id session_id model turn st =
      let session : ConversationSession = elim (get tenant app_id session_id st) [
        | some existing ↦ existing
        | none ↦ record {
          tenant = tenant;
          app_id = app_id;
          session_id = session_id;
          model = model;
          turns = [];
        }
      ] in
      save
        (record session {
          model = if is_empty model then session.model else model;
          turns = session.turns ++ turn ∷ [];
        })
        st

  unfoldable pub trim_to_last_turns : Bytes → Bytes → Bytes → ℕ → Store base → KvResult × Store base
  trim_to_last_turns tenant app_id session_id keep_last_turns st =
      elim (get tenant app_id session_id st) [
        | none ↦ (is_missing, st)
        | some session ↦
            if leb (length session.turns) keep_last_turns
            then (ok, st)
            else save
                (record session {
                  turns = drop (length session.turns - keep_last_turns) session.turns;
                })
                st
      ]

  unfoldable pub delete : Bytes → Bytes → Bytes → Store base → KvResult × Store base
  delete tenant app_id session_id st =
      KvStore.batch_delete base
        (turn_keys tenant app_id session_id st
          ++ Keyspace.conversation_meta tenant app_id session_id
            ∷ Keyspace.conversation tenant app_id session_id
            ∷ [])
        st
