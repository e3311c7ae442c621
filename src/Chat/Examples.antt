-- ===== src/Chat/Examples.antt =====
-- The chat on tables in memory: a recruiter, a freelance and an administrator.
use skillhunt.Common.{
  ℕ, String, ◌≡◌, ◌≢◌, refl, true, false, none, some, List, [], ◌∷◌, ok, err, HttpError, All,
}
use skillhunt.Common.Text.Laws.{lacks}
use skillhunt.Enums.{UserRole, freelance, recruiter}
use skillhunt.Entities.{User, Message, user_id, message_id}
use skillhunt.Store.Table
use skillhunt.Store.Table.{Table, repository, empty}
use skillhunt.External.Plain.{Ticket, jwt}
use skillhunt.Auth.Service.{access_claims, access_ttl}
use skillhunt.Chat.{
  Chat, ChatParticipant, ChatMessageView, ConversationSummary, conversation_id_for,
  other_participant_id, send_message, history, conversations, assert_recruiter_freelance_pair,
}
use skillhunt.Chat.Conversations.{IsPair, conversation_id_for-identifies}
use skillhunt.Chat.Sending.{IsSent, send_message-IsSent}
use skillhunt.Auth.Guards.{JwtPayload, bearer, can_activate}
use skillhunt.Chat.Controller.{get_history, thread, serve_chat}
use skillhunt.Chat.Controller.Confidential.{IsBearer, IsShown, serve_chat-IsShown}
use skillhunt.Chat.Inbox.{IsInbox}
use skillhunt.Chat.Coverage.{is_listed, conversations-IsInbox}
use skillhunt.Chat.Gateway.{
  fresh_client, Hub, connects, sends, Reaches, start, continues, receives, handle_connection,
  on_send_message, put_client,
}
use skillhunt.Chat.Gateway.Delivery.{IsQuiet, IsParticipant, Reaches-received}

abbrev account : String → UserRole → User
account id role = record {
  id = id;
  email = id;
  username = id;
  password_hash = "pw";
  role = role;
  location = none;
  two_factor_enabled = false;
  two_factor_secret_encrypted = none;
  two_factor_backup_codes_hashed = none;
  created_at = 0;
}

abbrev chat : Chat (Table User user_id) (Table Message message_id)
chat = record {
  users =
      Table.save user_id (account "rec" recruiter)
        (Table.save user_id (account "free" freelance) (empty user_id));
  messages = empty message_id;
}

abbrev rec : ChatParticipant
rec = record { user_id = "rec"; role = some recruiter }

abbrev greeting : ChatMessageView
greeting = record {
  id = "+";
  conversation_id = "free:rec";
  sender_id = "rec";
  body = "hello";
  created_at = 7;
}

abbrev after : Chat (Table User user_id) (Table Message message_id)
after =
    (send_message (repository user_id) (repository message_id) rec "free" (some " hello ") 7 chat).1

sent :
    send_message (repository user_id) (repository message_id) rec "free" (some " hello ") 7 chat
    ≡ (ok greeting, after)
unfolding send_message assert_recruiter_freelance_pair
sent = refl

two_ids : conversation_id_for "rec" "free" ≡ "free:rec"
two_ids = refl

apart : ◌≢◌ {A = String} "rec" "free"
apart h = cc

conversation_id_for-identifies_example :
    (conversation_id_for "rec" "free" ≡ conversation_id_for "free" "rec")
    × (other_participant_id (conversation_id_for "rec" "free") "rec" ≡ some "free")
    × (other_participant_id (conversation_id_for "rec" "free") "free" ≡ some "rec")
    × ((c d : String)
        → lacks ":" c ≡ true
        → lacks ":" d ≡ true
        → conversation_id_for "rec" "free" ≡ conversation_id_for c d
        → IsPair "rec" "free" c d)
conversation_id_for-identifies_example = conversation_id_for-identifies "rec" "free" refl refl apart

send_message-IsSent_example :
    ((e : HttpError) → ok greeting ≡ err e → after ≡ chat)
    × ((view : ChatMessageView)
        → ok greeting ≡ ok view
        → IsSent
            (repository user_id)
            (repository message_id)
            rec
            "free"
            (some " hello ")
            7
            chat
            view
            after)
unfolding send_message assert_recruiter_freelance_pair
send_message-IsSent_example =
    send_message-IsSent (repository user_id) (repository message_id) rec "free" (some " hello ") 7
      chat

abbrev hub : Hub (repository user_id) (repository message_id)
hub = record { clients = λ i. fresh_client; server = record { chat = chat; emitted = [] } }

abbrev token : Ticket
token = jwt.sign (access_claims (account "rec" recruiter)) access_ttl 0

thread_shown :
    (serve_chat
      (repository user_id)
      (repository message_id)
      jwt
      1
      (bearer token)
      (get_history "free")
      after).0
    ≡ ok (thread (greeting ∷ []))
unfolding serve_chat can_activate send_message assert_recruiter_freelance_pair history
thread_shown = refl

serve_chat-IsShown_example :
    let (r, s') =
      serve_chat
        (repository user_id)
        (repository message_id)
        jwt
        1
        (bearer token)
        (get_history "free")
        after in
    (s' ≡ after)
    × ((views : List ChatMessageView)
        → r ≡ ok (thread views)
        → (user : JwtPayload) × IsBearer jwt 1 (bearer token) user
          × IsShown
              (repository user_id)
              (repository message_id)
              (get_history "free")
              user
              after
              views)
serve_chat-IsShown_example =
    serve_chat-IsShown (repository user_id) (repository message_id) jwt 1 (bearer token)
      (get_history "free") after

-- Socket 1 identifies itself, then writes.
abbrev connected : Hub (repository user_id) (repository message_id)
connected = record hub {
  clients =
      put_client (repository user_id) (repository message_id) 1
        (handle_connection jwt 1 (some token) fresh_client) hub.clients;
}

abbrev written : Hub (repository user_id) (repository message_id)
written = record connected {
  server =
      (on_send_message (repository user_id) (repository message_id) (connected.clients 1)
        (record { to_user_id = "free"; body = some "hello" }) 7 connected.server).1;
}

abbrev reach : Reaches (repository user_id) (repository message_id) jwt hub written
reach =
    continues (continues start (connects 1 1 (some token)))
      (sends 1 7 (record { to_user_id = "free"; body = some "hello" }))

quiet : IsQuiet (repository user_id) (repository message_id) jwt hub
quiet = record { clients = λ i. refl; emitted = refl }

Reaches-received_example :
    All
      (λ e.
        (i : ℕ)
        → receives (written.clients i) e ≡ true
        → IsParticipant (repository user_id) (repository message_id) jwt reach i e.message)
      written.server.emitted
Reaches-received_example =
    Reaches-received (repository user_id) (repository message_id) jwt quiet reach

conversations-IsInbox_example :
    (after ≡ after)
    × ((list : List ConversationSummary) × ((conversations
            (repository user_id)
            (repository message_id)
            rec
            after).0
          ≡ ok list)
        × (docs : List Message) × IsInbox
            (repository user_id)
            (repository message_id)
            "rec"
            after
            docs
            list
        × All
            (λ m.
              (id : String) (u : User)
              → other_participant_id m.conversation_id "rec" ≡ some id
              → id ≢ ""
              → Table.row user_id after.users id ≡ some u
              → is_listed m.conversation_id list ≡ true)
            docs)
unfolding conversations
conversations-IsInbox_example =
    conversations-IsInbox (repository user_id) (repository message_id) rec after
