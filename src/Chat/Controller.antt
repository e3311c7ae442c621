-- ===== src/Chat/Controller.antt =====
-- backend-core/src/chat/chat.controller.ts: the two routes that read the chat, behind JwtAuthGuard. A
-- path parameter has passed its pipe.
pub mod Confidential
use skillhunt.Common.{ℕ, String, List, none, Exec, Result, ok, err}
use skillhunt.Entities.{User, Message, user_id, message_id}
use skillhunt.Store.{Repository}
use skillhunt.External.{Jwt}
use skillhunt.Auth.Guards.{JwtPayload, AuthHeader, can_activate}
use skillhunt.Gear.Controller.{answer}
use skillhunt.Chat.{
  Chat, ChatParticipant, ChatMessageView, ConversationSummary, conversations, history,
}

pub data ChatRoute : Type 0 where
  get_conversations : ChatRoute
  get_history : String → ChatRoute

pub data ChatAnswer : Type 0 where
  inbox : List ConversationSummary → ChatAnswer
  thread : List ChatMessageView → ChatAnswer

-- `{ userId: user.userId, role: user.role }`
abbrev pub reader_of : JwtPayload → ChatParticipant
reader_of user = record { user_id = user.user_id; role = user.role }

module _ {U M : Type 0} (users : Repository User user_id U)
    (messages : Repository Message message_id M) where
  abbrev pub read : ChatRoute → JwtPayload → Exec (Chat U M) ChatAnswer
  read get_conversations user = answer inbox (conversations users messages (reader_of user))
  read (get_history other_user_id) user =
      answer thread (history users messages (reader_of user) other_user_id)

  abbrev pub read_as : ChatRoute → Result JwtPayload → Exec (Chat U M) ChatAnswer
  read_as route (err e) s = (err e, s)
  read_as route (ok user) s = read route user s

  unfoldable pub serve_chat :
      {T : Type 0} → Jwt T → ℕ → AuthHeader T → ChatRoute → Exec (Chat U M) ChatAnswer
  serve_chat jwt now header route = read_as route (can_activate jwt now header)
