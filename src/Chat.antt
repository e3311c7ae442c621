-- ===== src/Chat.antt =====
-- backend-core/src/chat/chat.service.ts: the messages between a recruiter and a freelance. The
-- collection of MongoDB is a `Repository` as the tables are, whose `save` of a new row is `create`; its
-- length validator never fires, since the service tests the same bound before. `createdAt`, which
-- Mongoose sets, is the parameter `now`.
pub mod Conversations
pub mod Sending
pub mod Reading
pub mod Inbox
pub mod Coverage
pub mod Gateway
pub mod Controller
mod Examples
use Prim.Native.String
use text.Mathlib.Text.{find?}
use skillhunt.Common.{
  ℕ, ◌≡◌, String, Bool, true, false, not, ◌&&◌, ◌||◌, Option, none, some, List, [], ◌∷◌, ◌++◌, map,
  reverse, length, take, find, filter, includes, ◌==◌, string_eq, ltb, if◌then◌else◌, Exec, Result,
  ok, err, bad_request, forbidden, not_found, ◌>>=◌, ◌>>◌, pure, gets, modify, throw_if, require,
}
use skillhunt.Common.Text.{trim, utf16_length, split_on, precedes}
use skillhunt.Enums.{UserRole, freelance, recruiter, role_eq}
use skillhunt.Entities.{User, Message, user_id, message_id}
use skillhunt.Store.{Repository}
use skillhunt.Matching.{user_by_id}

-- Who asks, from the token; a token may lack a role.
pub record ChatParticipant : Type 0 where
  pub user_id : String
  pub role : Option UserRole

pub record ChatMessageView : Type 0 where
  pub id : String
  pub conversation_id : String
  pub sender_id : String
  pub body : String
  pub created_at : ℕ

-- `with`, in a summary.
pub record Peer : Type 0 where
  pub id : String
  pub username : String
  pub role : UserRole

pub record ConversationSummary : Type 0 where
  pub conversation_id : String
  pub peer : Peer
  pub last_message : ChatMessageView

abbrev pub message_max_length : ℕ
message_max_length = 2000

abbrev pub history_limit : ℕ
history_limit = 50

abbrev pub to_view : Message → ChatMessageView
to_view doc = record {
  id = doc.id;
  conversation_id = doc.conversation_id;
  sender_id = doc.sender_id;
  body = doc.body;
  created_at = doc.created_at;
}

-- `[userIdA, userIdB].sort().join(':')`
abbrev pub conversation_id_for : String → String → String
conversation_id_for a b =
    if precedes b a then String.◌++◌ b (String.◌++◌ ":" a) else String.◌++◌ a (String.◌++◌ ":" b)

abbrev pub other_participant_id : String → String → Option String
other_participant_id conversation_id self_id =
    find (λ id. not (id == self_id)) (split_on ":" conversation_id)

-- The set of the two roles: does it have an element, has it one element?
abbrev pub is_role : UserRole → Option UserRole → Bool
is_role expected none = false
is_role expected (some role) = role == expected

abbrev pub has : UserRole → Option UserRole → UserRole → Bool
has role a b = is_role role a || b == role

abbrev pub is_recruiter_freelance_pair : Option UserRole → UserRole → Bool
is_recruiter_freelance_pair a b = not (is_role b a) && has recruiter a b && has freelance a b

-- `(body ?? '').trim()` with the two tests on it.
abbrev pub empty_if_missing : Option String → String
empty_if_missing none = ""
empty_if_missing (some body) = body

abbrev pub accept_body : String → Result String
accept_body trimmed =
    if trimmed == ""
    then err (bad_request "Le message ne peut pas être vide")
    else if ltb message_max_length (utf16_length trimmed)
    then err (bad_request "Le message dépasse la longueur maximale de 2000 caractères")
    else ok trimmed

-- The two collections that the service reads and writes.
pub record Chat (U M : Type 0) : Type 0 where
  pub users : U
  pub messages : M

abbrev pub latest_first : Message → Message → Bool
latest_first a b = not (ltb a.created_at b.created_at)

-- `{ $regex: userId }`, for an id without metacharacters, as a UUID is.
abbrev pub mentions : String → String → Bool
mentions id conversation_id = elim (find? conversation_id id) [
  | none ↦ false
  | some position ↦ true
]

-- `$group` with `$first`, on documents in the order of the first `$sort`. The groups come by their
-- newest document, as the second `$sort` asks.
abbrev pub group : List Message → List (String × Message)
group [] = []
group (m ∷ ms) =
    (m.conversation_id, m) ∷ filter (λ row. not (row.0 == m.conversation_id)) (group ms)

-- `otherIds`
abbrev pub kept_id : Option String → List String → List String
kept_id none ids = ids
kept_id (some id) ids = if id == "" then ids else id ∷ ids

abbrev pub other_ids : String → List (String × Message) → List String
other_ids self_id [] = []
other_ids self_id (row ∷ rows) =
    kept_id (other_participant_id row.0 self_id) (other_ids self_id rows)

-- The rows' summaries, but for those without the other participant.
abbrev pub summary_of : String × Message → Option User → List ConversationSummary
summary_of row none = []
summary_of row (some other) =
    record {
      conversation_id = row.0;
      peer = record { id = other.id; username = other.username; role = other.role };
      last_message = to_view row.1;
    }
    ∷ []

abbrev pub other_of : (String → Option User) → Option String → Option User
other_of by_id none = none
other_of by_id (some id) = if id == "" then none else by_id id

abbrev pub summaries :
    String → (String → Option User) → List (String × Message) → List ConversationSummary
summaries self_id by_id [] = []
summaries self_id by_id (row ∷ rows) =
    summary_of row (other_of by_id (other_participant_id row.0 self_id))
    ++ summaries self_id by_id rows

module _ {U M : Type 0} (users : Repository User user_id U)
    (messages : Repository Message message_id M) where
  unfoldable pub assert_recruiter_freelance_pair : ChatParticipant → String → Exec (Chat U M) User
  assert_recruiter_freelance_pair participant other_user_id = do
    other ← λ s.
        require (users.find_one (λ u. u.id == other_user_id) s.users)
          (not_found "Utilisateur introuvable") s
    throw_if (not (is_recruiter_freelance_pair participant.role other.role))
        (forbidden "Une conversation relie toujours un recruteur et un freelance")
    pure other

  -- `this.messages.create(…)`, of a new document.
  abbrev pub draft : ChatParticipant → String → String → ℕ → Chat U M → Message
  draft sender to_user_id body now s = record {
    id = messages.generate s.messages;
    conversation_id = conversation_id_for sender.user_id to_user_id;
    sender_id = sender.user_id;
    body = body;
    created_at = now;
  }

  abbrev pub create : ChatParticipant → String → String → ℕ → Exec (Chat U M) Message
  create sender to_user_id body now s =
      let doc = draft sender to_user_id body now s in
      (ok doc, record s { messages = messages.save doc s.messages })

  unfoldable pub send_message :
      ChatParticipant → String → Option String → ℕ → Exec (Chat U M) ChatMessageView
  send_message sender to_user_id body now = do
    trimmed ← λ s. (accept_body (trim (empty_if_missing body)), s)
    assert_recruiter_freelance_pair sender to_user_id
    saved ← create sender to_user_id trimmed now
    pure (to_view saved)

  abbrev pub recent : String → Chat U M → List Message
  recent conversation_id s =
      take history_limit
        (messages.find_where (λ m. m.conversation_id == conversation_id) latest_first s.messages)

  unfoldable pub history : ChatParticipant → String → Exec (Chat U M) (List ChatMessageView)
  history reader other_user_id = do
    assert_recruiter_freelance_pair reader other_user_id
    docs ← gets (recent (conversation_id_for reader.user_id other_user_id))
    pure (map to_view (reverse docs))

  abbrev pub rows_of : String → Chat U M → List (String × Message)
  rows_of self_id s =
      group (messages.find_where (λ m. mentions self_id m.conversation_id) latest_first s.messages)

  abbrev pub others_in : List String → Chat U M → List User
  others_in [] s = []
  others_in (id ∷ ids) s = users.find_where (λ u. includes (id ∷ ids) u.id) (λ a b. true) s.users

  unfoldable pub conversations : ChatParticipant → Exec (Chat U M) (List ConversationSummary)
  conversations reader = do
    rows ← gets (rows_of reader.user_id)
    others ← gets (others_in (other_ids reader.user_id rows))
    pure (summaries reader.user_id (user_by_id others) rows)
