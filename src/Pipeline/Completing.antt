-- ===== src/Pipeline/Completing.antt =====
-- What an undisturbed exchange of runtime.py leaves: the two messages in the conversation, and the
-- turn completed.
use xymphony_voice.Base.{
  ℕ, suc, zero, ◌+◌, ◌<◌, ◌==◌, ◌≡◌, refl, sym, ap, ◌∙◌, inl, inr, Bool, true, false, Option, none,
  some, List, [], ◌∷◌, ◌++◌, arith, subst, mem, if◌then◌else◌, Bool-cases, ==_refl,
}
use xymphony_voice.Base.Text.{Text, is_empty, codes}
use xymphony_voice.Base.Dict.{get, put, get-put_self}
use xymphony_voice.Base.Result.{ok}
use xymphony_voice.Assembler.{LlmConfig, LlmRequest}
use xymphony_voice.Conversation.{Message, MessageRole, build_text_message, message_text}
use xymphony_voice.Persistence.{Buckets, append_message}
use xymphony_voice.Turn.{RuntimeTurn, completed, is_terminal}
use xymphony_voice.Runtime.State.{State, is_turn_cancelled}
use xymphony_voice.Runtime.Turns.{complete_turn, store_turn}
use xymphony_voice.Runtime.Tasks.{
  text_message, store_message, persist_turn_exchange, conversation_messages,
}
use xymphony_voice.Runtime.Invariant.{Inv}
use xymphony_voice.Runtime.Quiet.{Quiet, Quiet-Inv}
use xymphony_voice.Runtime.Keeps.{Slot-at, complete_turn-eq, completed_turn}
use xymphony_voice.Runtime.Working.{persist_turn_exchange-Quiet}
use xymphony_voice.Pipeline.{Services, ◌>>=◌, turn_over, halted}
use xymphony_voice.Pipeline.Reply.{request_for, converse, run_llm_stream}
use xymphony_voice.Pipeline.Voice.{run_tts_stream}
use xymphony_voice.Pipeline.Exchange.{deliver, deliver_reply, answer}
use xymphony_voice.Pipeline.Plain.{joined, Does}
use xymphony_voice.Pipeline.Undisturbed.{IsPlain, bare_sections, converse-Does}

-- A text message has its text, where there is one.
pub message_text-build :
    (id created_at session turn organization : ℕ) (role : MessageRole) (text : Text)
    → message_text (build_text_message id created_at session turn organization role text)
      ≡ (if is_empty text then none else some text)
unfolding message_text build_text_message xymphony_voice.Json.get xymphony_voice.Base.Text.text_eq
message_text-build id created_at session turn organization role [] = refl
message_text-build id created_at session turn organization role (c ∷ cs) = refl

role-build :
    (id created_at session turn organization : ℕ) (role : MessageRole) (text : Text)
    → (build_text_message id created_at session turn organization role text).role ≡ role
unfolding build_text_message
role-build id created_at session turn organization role text = refl

-- The message that `_persist_turn_exchange` builds with the identifier `n`.
abbrev pub message_of : ℕ → State → ℕ → MessageRole → Text → Message
message_of n t id role text =
    build_text_message n t.clock t.session_id id t.organization_id role text

abbrev pub persisted : Buckets → ℕ → Text → Text → State → State
persisted messages id user reply t = record t {
  conversations = some (
      append_message (message_of (suc t.uuids) t id MessageRole.assistant reply)
        (append_message (message_of t.uuids t id MessageRole.user user) messages));
  uuids = suc (suc t.uuids);
}

persist-eq :
    (messages : Buckets) (id : ℕ) (user reply : Text) (t : State)
    → t.conversations ≡ some messages
    → is_turn_cancelled id t ≡ false
    → persist_turn_exchange id user reply t ≡ (ok tt, persisted messages id user reply t)
unfolding persist_turn_exchange text_message store_message
persist-eq messages id user reply t c h = ground (arith, c, h)

-- The state `t` after the exchange.
pub record Exchanged (messages : Buckets) (id : ℕ) (user reply : Text) (turn : RuntimeTurn)
    (t : State) : Type 0 where
  pub asked : Message
  pub answered_by : Message
  pub stored : t.conversations ≡ some (append_message answered_by (append_message asked messages))
  pub asked_text : message_text asked ≡ (if is_empty user then none else some user)
  pub answer_text : message_text answered_by ≡ (if is_empty reply then none else some reply)
  pub roles : (asked.role ≡ MessageRole.user) × (answered_by.role ≡ MessageRole.assistant)
  pub turn_state : (later : RuntimeTurn) × (get t.turns id ≡ some later) × (later.state ≡ completed)
  pub idle : t.current_turn_id ≡ none

module _ (services : Services) (id x : ℕ) (user reply : Text) (t : State) (turn : RuntimeTurn)
    (messages : Buckets) (no_voice : services.tts_config ≡ none) (h : Inv t)
    (found : get t.turns id ≡ some turn) (live : is_terminal turn.state ≡ false)
    (store : t.conversations ≡ some messages) where
  abbrev later : State
  later = persisted messages id user reply t

  unmarked : is_turn_cancelled id t ≡ false
  unfolding is_turn_cancelled
  unmarked = ((Slot-at t id turn h found).3 live).2

  not_over : turn_over id t ≡ false
  unfolding turn_over
  not_over = ground (arith, found, live)

  later-Quiet : Quiet t later
  later-Quiet =
      subst (λ r. Quiet t r.1) (persist-eq messages id user reply t store unmarked)
        (persist_turn_exchange-Quiet id user reply t)

  delivered : deliver services id x user reply t ≡ complete_turn id later
  unfolding deliver run_tts_stream ◌>>=◌
  delivered =
      rw (not_over, no_voice, not_over, persist-eq messages id user reply t store unmarked) refl

  deliver-Exchanged :
      ((deliver services id x user reply t).0 ≡ ok tt)
      × Exchanged messages id user reply turn (deliver services id x user reply t).1
  unfolding store_turn
  deliver-Exchanged =
      let slot = Slot-at later id turn (Quiet-Inv t later later-Quiet h) found in
      rw (delivered, complete_turn-eq id later turn found live slot)
        (
          refl,
          record {
            asked = message_of t.uuids t id MessageRole.user user;
            answered_by = message_of (suc t.uuids) t id MessageRole.assistant reply;
            stored = refl;
            asked_text =
                message_text-build t.uuids t.clock t.session_id id t.organization_id _ user;
            answer_text =
                message_text-build (suc t.uuids) t.clock t.session_id id t.organization_id _ reply;
            roles = (
              role-build t.uuids t.clock t.session_id id t.organization_id MessageRole.user user,
              role-build (suc t.uuids) t.clock t.session_id id t.organization_id
                  MessageRole.assistant reply,
            );
            turn_state = (
              completed_turn id later turn found live slot,
              ap (λ k. get (put t.turns k (completed_turn id later turn found live slot)) id) slot.0
                  ∙ get-put_self t.turns id (completed_turn id later turn found live slot),
              refl,
            );
            idle = refl;
          },
        )

module _ (services : Services) (config : LlmConfig) (pieces : List Text) (request : LlmRequest)
    (id x : ℕ) (user : Text) (s : State) (plain_set : IsPlain services config pieces)
    (no_summaries : s.summaries ≡ none)
    (asks : request_for services id x user config
        (bare_sections services (conversation_messages s))
        []
      ≡ ok request)
    (free : halted id x s ≡ false) where
  abbrev pub replied : Does (some (joined pieces)) s s (converse services id x user config)
  replied =
      converse-Does services id x user config pieces request s plain_set no_summaries asks free

  abbrev pub spoken : State
  spoken = (converse services id x user config s).1

  pub answer-eq : answer services id x user s ≡ deliver services id x user (joined pieces) spoken
  unfolding answer run_llm_stream deliver_reply ◌>>=◌
  answer-eq = rw (plain_set.model, replied.returned) refl

  pub answer-Exchanged :
      (turn : RuntimeTurn) (messages : Buckets)
      → services.tts_config ≡ none
      → Inv s
      → get s.turns id ≡ some turn
      → is_terminal turn.state ≡ false
      → s.conversations ≡ some messages
      → ((answer services id x user s).0 ≡ ok tt)
        × Exchanged messages id user (joined pieces) turn (answer services id x user s).1
  answer-Exchanged turn messages no_voice h found live store =
      let q = replied.quiet in
      rw answer-eq (
        deliver-Exchanged services id x user (joined pieces) spoken turn messages no_voice
          (Quiet-Inv s spoken q.quiet h) (ap (λ d. get d id) q.quiet.turns ∙ found) live
          (q.conversations ∙ store))
