-- ===== src/Web/Thread.antt =====
-- frontend-web/src/features/chat/useChatThread.ts and types.ts: the messages of one conversation, from
-- its history and from the socket.
pub mod Merging
pub mod Tidy
pub mod Showing
mod Examples
use skillhunt.Common.{
  String, Bool, true, false, not, Option, none, some, List, [], ◌∷◌, ◌++◌, map, filter, any,
  includes, ◌==◌, string_eq, if◌then◌else◌,
}
use skillhunt.Chat.{conversation_id_for}
use skillhunt.Web.Token.{AuthUser}

pub record ChatMessage : Type 0 where
  pub id : String
  pub conversation_id : String
  pub sender_id : String
  pub body : String
  pub created_at : String

-- The hook with its state: the user, the peer of the route, the data of the history's query, and
-- `liveMessages`.
pub record Thread : Type 0 where
  pub me : Option AuthUser
  pub peer_id : String
  pub history : Option (List ChatMessage)
  pub live : List ChatMessage

abbrev pub opened : Option AuthUser → String → Thread
opened me peer_id = record { me = me; peer_id = peer_id; history = none; live = [] }

-- `me ? conversationIdFor(me.userId, peerId) : null`
abbrev pub conversation_of : Option AuthUser → String → Option String
conversation_of none peer_id = none
conversation_of (some me) peer_id = some (conversation_id_for me.user_id peer_id)

abbrev pub is_in : Option String → ChatMessage → Bool
is_in none message = false
is_in (some conversation_id) message = message.conversation_id == conversation_id

abbrev pub append_new : ChatMessage → List ChatMessage → List ChatMessage
append_new message previous =
    if any (λ m. m.id == message.id) previous then previous else previous ++ message ∷ []

unfoldable pub on_message : ChatMessage → Thread → Thread
on_message message thread =
    if is_in (conversation_of thread.me thread.peer_id) message
    then record thread { live = append_new message thread.live }
    else thread

-- The query of the history ends.
abbrev pub loaded : List ChatMessage → Thread → Thread
loaded data_ thread = record thread { history = some data_ }

-- The route names another peer: the query has another key, and the state of the hook stays.
abbrev pub visit : String → Thread → Thread
visit peer_id thread = record thread { peer_id = peer_id; history = none }

abbrev pub or_empty : Option (List ChatMessage) → List ChatMessage
or_empty none = []
or_empty (some history) = history

abbrev pub fresh_of : List ChatMessage → List ChatMessage → List ChatMessage
fresh_of history live = filter (λ m. not (includes (map (λ h. h.id) history) m.id)) live

unfoldable pub messages : Thread → List ChatMessage
messages thread = let history = or_empty thread.history in history ++ fresh_of history thread.live

-- What `send` resolves to, from the acknowledgement of the gateway.
pub data SendResult : Type 0 where
  sent : SendResult
  failed : String → SendResult

abbrev pub error_of : Option String → String
error_of none = "Envoi impossible"
error_of (some error) = error

abbrev pub on_ack : Bool → Option String → SendResult
on_ack true error = sent
on_ack false error = failed (error_of error)
