-- ===== src/Persistence/History.antt =====
-- What the repositories of persistence/memory.py give back.
use mathlib.Core.List.{append-nil}
use xymphony_voice.Base.{
  ℕ, ◌+◌, ◌==◌, ◌≡◌, refl, ap, ◌∙◌, Bool, true, false, none, some, List, [], ◌∷◌, ◌++◌, length,
  if◌then◌else◌, arith, ==-cases, inl, inr,
}
use xymphony_voice.Base.Text.{codes}
use xymphony_voice.Base.Dict.{Dict, put, get-put}
use xymphony_voice.Json.{Json, pos, get-with_key}
use xymphony_voice.Conversation.{Message, message_sequence}
use xymphony_voice.Summary.{ConversationSummary}
use xymphony_voice.Persistence.{
  Buckets, bucket, numbered, append_message, of_organization, list_messages, get_latest, upsert,
  next_sequence,
}

-- The messages of one session carry the numbers from `start` on, in order.
unfoldable pub Numbered : ℕ → List Message → Type 0
Numbered start [] = Unit {0}
Numbered start (m ∷ ms) = (message_sequence m ≡ some (pos start)) × Numbered (start + 1) ms

pub numbered-sequence : (n : ℕ) (m : Message) → message_sequence (numbered n m) ≡ some (pos n)
unfolding message_sequence numbered
numbered-sequence n m =
    ground (arith, get-with_key m.metadata (codes "sequence") (Json.int (pos n)))

Numbered-append :
    (start : ℕ) (ms : List Message) (m : Message)
    → Numbered start ms
    → message_sequence m ≡ some (pos (start + length ms))
    → Numbered start (ms ++ m ∷ [])
unfolding Numbered
Numbered-append start [] m h e = (e ∙ ap (λ k. some (pos k)) (omega arith), tt)
Numbered-append start (x ∷ xs) m h e =
    (h.0, Numbered-append (start + 1) xs m h.1 (e ∙ ap (λ k. some (pos k)) (omega arith)))

bucket-put :
    (messages : Buckets) (session j : ℕ) (ms : List Message)
    → bucket (put messages session ms) j ≡ (if session == j then ms else bucket messages j)
unfolding bucket
bucket-put messages session j ms = ground (arith, get-put messages session j ms)

pub bucket-append :
    (m : Message) (messages : Buckets) (j : ℕ)
    → bucket (append_message m messages) j ≡ (
        if m.session_id == j
        then bucket messages m.session_id ++ numbered (next_sequence messages m.session_id) m ∷ []
        else bucket messages j)
unfolding append_message next_sequence
bucket-append m messages j = bucket-put messages m.session_id j _

-- After `append_message`, where the messages of every session were numbered 1, 2, 3, … in the order
-- of their storing, they still are.
pub append_message-Numbered :
    (m : Message) (messages : Buckets)
    → ((j : ℕ) → Numbered 1 (bucket messages j))
    → (j : ℕ) → Numbered 1 (bucket (append_message m messages) j)
unfolding next_sequence
append_message-Numbered m messages h j = rw (bucket-append m messages j) (go (m.session_id == j))
  where
    go :
        (b : Bool)
        → Numbered 1 (
            if b
            then bucket messages m.session_id
              ++ numbered (length (bucket messages m.session_id) + 1) m ∷ []
            else bucket messages j)
    go true =
        Numbered-append 1 (bucket messages m.session_id) _ (h m.session_id)
          (numbered-sequence _ m ∙ ap (λ k. some (pos k)) (omega arith))
    go false = h j

of_organization-snoc :
    (organization : ℕ) (xs : List Message) (m : Message)
    → of_organization organization (xs ++ m ∷ [])
      ≡ of_organization organization xs
        ++ (if m.organization_id == organization then m ∷ [] else [])
unfolding of_organization
of_organization-snoc organization [] m = refl
of_organization-snoc organization (x ∷ xs) m =
    ground (arith, of_organization-snoc organization xs m)

bucket_of-append :
    (m : Message) (messages : Buckets) (session organization : ℕ)
    → of_organization organization (bucket (append_message m messages) session)
      ≡ of_organization organization (bucket messages session)
        ++ (if m.session_id == session
            then if m.organization_id == organization
              then numbered (next_sequence messages session) m ∷ []
              else []
            else [])
unfolding next_sequence numbered
bucket_of-append m messages session organization = elim (==-cases m.session_id session) [
  | inl same ↦ ground (
    arith,
    same,
    bucket-append m messages session,
    ap (bucket messages) same,
    of_organization-snoc organization (bucket messages session)
        (numbered (length (bucket messages session) + 1) m),
  )
  | inr other ↦ ground (
    arith,
    other,
    bucket-append m messages session,
    append-nil (of_organization organization (bucket messages session)),
  )
]

-- `list_messages` for a session and an organization gives, after `append_message`, what it gave
-- before, and at the end the new message with the number of its place, if it is of that session and
-- organization.
pub list-append :
    (m : Message) (messages : Buckets) (session organization : ℕ)
    → list_messages (append_message m messages) session (some organization)
      ≡ list_messages messages session (some organization)
        ++ (if m.session_id == session
            then if m.organization_id == organization
              then numbered (next_sequence messages session) m ∷ []
              else []
            else [])
unfolding list_messages
list-append m messages session organization = bucket_of-append m messages session organization

-- A summary that was stored is the one found for its session, for its organization only; and what
-- is found for every other session stays.
pub get_latest-upsert :
    (summary : ConversationSummary) (summaries : Dict ConversationSummary)
    (session organization : ℕ)
    → get_latest (upsert summary summaries) session (some organization) ≡ (
        if summary.session_id == session
        then if summary.organization_id == organization then some summary else none
        else get_latest summaries session (some organization))
unfolding get_latest upsert
get_latest-upsert summary summaries session organization =
    ground (arith, get-put summaries summary.session_id session summary)
