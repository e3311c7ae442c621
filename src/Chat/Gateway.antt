-- ===== src/Chat/Gateway.antt =====
-- backend-core/src/chat/chat.gateway.ts: the sockets of the chat. socket.io delivers an emission to the
-- sockets that are in one of its rooms.
pub mod Delivery
use Prim.Native.String
use skillhunt.Common.{
  ℕ, ◌≡◌, String, Bool, true, false, ◌&&◌, any, includes, string_eq, Option, none, some, List, [],
  ◌∷◌, ◌==◌, nat_eq, if◌then◌else◌, Result, ok, err, HttpError, bad_request, unauthorized,
  forbidden, not_found, conflict, too_many_requests, bad_gateway, service_unavailable, internal,
}
use skillhunt.Entities.{User, Message, user_id, message_id}
use skillhunt.Store.{Repository}
use skillhunt.External.{Claims, Jwt}
use skillhunt.Auth.Service.{type_is}
use skillhunt.Chat.{Chat, ChatParticipant, ChatMessageView, send_message}

pub data SendAck : Type 0 where
  sent : ChatMessageView → SendAck
  failed : String → SendAck

-- What the gateway does to a socket: `data.user`, `join` and `disconnect(true)`.
pub record Client : Type 0 where
  pub connected : Bool
  pub user : Option ChatParticipant
  pub rooms : List String

abbrev pub fresh_client : Client
fresh_client = record { connected = true; user = none; rooms = [] }

abbrev pub disconnect : Client → Client
disconnect client = record client { connected = false }

abbrev pub room_of : String → String
room_of user_id = String.◌++◌ "user:" user_id

abbrev pub join : ChatParticipant → Client → Client
join user client = record client { user = some user; rooms = room_of user.user_id ∷ client.rooms }

-- From the verification on; `none` is what `verify` throws.
abbrev pub welcome : Option Claims → Client → Client
welcome none client = disconnect client
welcome (some claims) client =
    if type_is "access" claims
    then join (record { user_id = claims.user_id; role = claims.role }) client
    else disconnect client

unfoldable pub handle_connection : {T : Type 0} → Jwt T → ℕ → Option T → Client → Client
handle_connection jwt now none client = disconnect client
handle_connection jwt now (some token) client = welcome (jwt.verify now token) client

-- `error.message`
abbrev pub message_of : HttpError → String
message_of (bad_request text) = text
message_of (unauthorized text) = text
message_of (forbidden text) = text
message_of (not_found text) = text
message_of (conflict text) = text
message_of (too_many_requests text) = text
message_of (bad_gateway text) = text
message_of (service_unavailable text) = text
message_of (internal text) = text

-- One `emit('message:new', …)`, to the sockets of the rooms.
pub record Emission : Type 0 where
  pub rooms : List String
  pub message : ChatMessageView

pub record SendPayload : Type 0 where
  pub to_user_id : String
  pub body : Option String

-- A socket that is connected and in one of the rooms receives it.
abbrev pub receives : Client → Emission → Bool
receives client emission =
    client.connected && any (λ room. includes emission.rooms room) client.rooms

-- The stored data, and the emissions, the last first.
pub record Server (U M : Type 0) : Type 0 where
  pub chat : Chat U M
  pub emitted : List Emission

module _ {U M : Type 0} (users : Repository User user_id U)
    (messages : Repository Message message_id M) where
  abbrev pub acknowledge :
      ChatParticipant
      → SendPayload
      → Result ChatMessageView × Chat U M
      → List Emission
      → SendAck × Server U M
  acknowledge user payload (ok message, chat) emitted = (
    sent message,
    record {
      chat = chat;
      emitted =
          record {
            rooms = room_of user.user_id ∷ room_of payload.to_user_id ∷ [];
            message = message;
          }
          ∷ emitted;
    },
  )
  acknowledge user payload (err e, chat) emitted =
      (failed (message_of e), record { chat = chat; emitted = emitted })

  abbrev pub on_send : Option ChatParticipant → SendPayload → ℕ → Server U M → SendAck × Server U M
  on_send none payload now server = (failed "Non authentifié", server)
  on_send (some user) payload now server =
      acknowledge user payload
        (send_message users messages user payload.to_user_id payload.body now server.chat)
        server.emitted

  unfoldable pub on_send_message : Client → SendPayload → ℕ → Server U M → SendAck × Server U M
  on_send_message client payload now server = on_send client.user payload now server

  -- The server with its sockets, by number.
  pub record Hub : Type 0 where
    pub clients : ℕ → Client
    pub server : Server U M

  abbrev pub put_client : ℕ → Client → (ℕ → Client) → ℕ → Client
  put_client i client clients j = if j == i then client else clients j

  -- What happens on a connection, and on a message.
  pub data Event {T : Type 0} (jwt : Jwt T) (hub : Hub) : Hub → Type 0 where
    connects :
        (i now : ℕ) (token : Option T)
        → Event jwt hub (record hub {
          clients = put_client i (handle_connection jwt now token fresh_client) hub.clients;
        })
    sends :
        (i now : ℕ) (payload : SendPayload)
        → Event jwt hub
            (record hub { server = (on_send_message (hub.clients i) payload now hub.server).1 })

  pub data Reaches {T : Type 0} (jwt : Jwt T) (hub : Hub) : Hub → Type 0 where
    start : Reaches jwt hub hub
    continues : {h g : Hub} → Reaches jwt hub h → Event jwt h g → Reaches jwt hub g
