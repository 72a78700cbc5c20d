-- ===== src/Llm/Stores/Index.antt =====
-- The calls of `ConversationStore` and the index of the key-value store.
use moyuan_kv.Prelude.{
  leb, Bool-cases, Option-cases, length, All, Bytes, beq, ℕ, ◌+◌, ◌%◌, ◌≡◌, refl, inl, inr, false,
  List, [], ◌∷◌,
}
use moyuan_kv.Db.{is_tombstone}
use moyuan_kv.KvStore
use moyuan_kv.KvStore.{Database, KvResult, Store}
use moyuan_kv.KvStore.Calls.{
  IsExactStore, and_then-IsExactStore, batch-IsExactStore, batch_delete-IsExactStore,
}
use moyuan_kv.Llm.{
  is_empty, ConversationTurn, serialize_conversation_turn, serialize_conversation_summary,
}
use moyuan_kv.Llm.Text.{text}
use moyuan_kv.Llm.Nested.{ConversationSession, serialize_legacy_conversation}
use moyuan_kv.Llm.Stores.Conversations
use moyuan_kv.Llm.Stores.Conversations.{
  turn_entries, save_entries, delete_stale, turn_keys, save, append_turn, trim_to_last_turns,
}

-- No value of the entries is spelled like the tombstone.
abbrev ArePlain : List (Bytes × Bytes) → Type 0
ArePlain es = All (λ (e : Bytes × Bytes). is_tombstone e.1 ≡ false) es

turn_entries-ArePlain :
    (session : ConversationSession) (i : ℕ) (ts : List ConversationTurn)
    → ArePlain (turn_entries session i ts)
unfolding turn_entries is_tombstone beq serialize_conversation_turn text
turn_entries-ArePlain session i [] = tt
turn_entries-ArePlain session i (t ∷ ts) =
    (refl, turn_entries-ArePlain session ((i + 1) % 4294967296) ts)

save_entries-ArePlain : (session : ConversationSession) → ArePlain (save_entries session)
unfolding save_entries is_tombstone beq serialize_legacy_conversation serialize_conversation_summary
    text
save_entries-ArePlain session = (refl, (refl, turn_entries-ArePlain session 0 session.turns))

-- The calls that change a conversation.
pub data Change : Type 0 where
  saves : ConversationSession → Change
  appends : Bytes → Bytes → Bytes → Bytes → ConversationTurn → Change
  trims : Bytes → Bytes → Bytes → ℕ → Change
  removes : Bytes → Bytes → Bytes → Change

module _ (base : Database) where
  unfoldable pub change : Change → Store base → KvResult × Store base
  change (saves session) st = save base session st
  change (appends tenant app_id session_id model turn) st =
      append_turn base tenant app_id session_id model turn st
  change (trims tenant app_id session_id keep_last_turns) st =
      trim_to_last_turns base tenant app_id session_id keep_last_turns st
  change (removes tenant app_id session_id) st =
      Conversations.delete base tenant app_id session_id st

  delete_stale-IsExactStore :
      (ks : List Bytes) (st : Store base)
      → IsExactStore base st
      → IsExactStore base (delete_stale base ks st).1
  unfolding delete_stale
  delete_stale-IsExactStore [] st w = w
  delete_stale-IsExactStore (k ∷ ks) st w = batch_delete-IsExactStore base (k ∷ ks) st w

  save-IsExactStore :
      (session : ConversationSession) (st : Store base)
      → IsExactStore base st
      → IsExactStore base (save base session st).1
  unfolding save
  save-IsExactStore session st w = elim (Bool-cases (is_empty session.session_id)) [
    | inl e ↦ rw e w
    | inr e ↦ rw e (
        and_then-IsExactStore base
          (delete_stale base (turn_keys base session.tenant session.app_id session.session_id st)
            st)
          (KvStore.batch base (save_entries session))
          (delete_stale-IsExactStore
            (turn_keys base session.tenant session.app_id session.session_id st) st w)
          (λ u x.
            batch-IsExactStore base (save_entries session) u (save_entries-ArePlain session) x))
  ]

  trim-IsExactStore :
      (tenant app_id session_id : Bytes) (keep_last_turns : ℕ) (st : Store base)
      → IsExactStore base st
      → IsExactStore base (trim_to_last_turns base tenant app_id session_id keep_last_turns st).1
  unfolding trim_to_last_turns
  trim-IsExactStore tenant app_id session_id keep_last_turns st w =
      elim (Option-cases (Conversations.get base tenant app_id session_id st)) [
        | inl e ↦ rw (trim_to_last_turns, e) w
        | inr (session, e) ↦
            rw (trim_to_last_turns, e)
              (elim (Bool-cases (leb (length session.turns) keep_last_turns)) [
                | inl f ↦ rw f w
                | inr f ↦ rw f (save-IsExactStore _ st w)
              ])
      ]

  -- Every call of `ConversationStore` that changes the store, whether it succeeds, fails, or stops
  -- half-way through its deletions and writes, keeps the index of the key-value store exact.
  pub change-IsExactStore :
      (c : Change) (st : Store base) → IsExactStore base st → IsExactStore base (change c st).1
  unfolding change append_turn Conversations.delete
  change-IsExactStore (saves session) st w = save-IsExactStore session st w
  change-IsExactStore (appends tenant app_id session_id model turn) st w = save-IsExactStore _ st w
  change-IsExactStore (trims tenant app_id session_id keep_last_turns) st w =
      trim-IsExactStore tenant app_id session_id keep_last_turns st w
  change-IsExactStore (removes tenant app_id session_id) st w =
      batch_delete-IsExactStore base _ st w
