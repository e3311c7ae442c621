-- ===== src/Chat/Gateway/Delivery.antt =====
-- Who receives a message of chat.gateway.ts.
use text.Mathlib.TextLemmas.{append_cancel_left}
use skillhunt.Common.{
  ℕ, ◌≡◌, ◌⊎◌, refl, ap, ◌∙◌, subst, String, true, Option, none, some, List, [], ◌∷◌, All, ◌==◌,
  nat_eq, string_eq, eq_iff, arith, inl, inr, Bool-cases, Option-cases, Result, ok, err, any,
  includes, ◌≢◌, sym, nat_beq_iff,
}
use skillhunt.Common.Membership.{All-imp}
use skillhunt.Chat.Conversations.{conversation_id_for_comm}
use skillhunt.Entities.{User, Message, user_id, message_id}
use skillhunt.Store.{Repository}
use skillhunt.External.{Claims, Jwt}
use skillhunt.Auth.Guards.Access.{is_access}
use skillhunt.Auth.Service.{type_is}
use skillhunt.Chat.{Chat, ChatParticipant, conversation_id_for, send_message, ChatMessageView}
use skillhunt.Chat.Sending.{send_message-IsSent}
use skillhunt.Chat.Gateway.{
  Client, fresh_client, handle_connection, Emission, room_of, Server, SendPayload, on_send_message,
  acknowledge, receives, Hub, connects, sends, Reaches, start, continues,
}

room_of-injective : (a b : String) → room_of a ≡ room_of b → a ≡ b
room_of-injective a b h = append_cancel_left "user:" a b h

-- A room that is one of two.
one_room :
    (a b c : String)
    → any (λ room. includes (room_of a ∷ room_of b ∷ []) room) (room_of c ∷ []) ≡ true
    → (a ≡ c) ⊎ (b ≡ c)
one_room a b c h = elim (Bool-cases (room_of a == room_of c)) [
  | inl e ↦ inl (room_of-injective a c ((eq_iff (room_of a) (room_of c)).0 e))
  | inr e ↦ elim (Bool-cases (room_of b == room_of c)) [
    | inl f ↦ inr (room_of-injective b c ((eq_iff (room_of b) (room_of c)).0 f))
    | inr f ↦ let k = simp (e, f) at h in cc
  ]
]

in_a_room :
    (client : Client) (e : Emission)
    → receives client e ≡ true
    → any (λ room. includes e.rooms room) client.rooms ≡ true
in_a_room client e h = ground arith

-- An emission goes to the rooms of two accounts, one of whom sent it, in their conversation.
pub record IsAddressed (e : Emission) : Type 0 where
  pub sender : String
  pub recipient : String
  pub rooms : e.rooms ≡ room_of sender ∷ room_of recipient ∷ []
  pub authentic : e.message.sender_id ≡ sender
  pub conversation : e.message.conversation_id ≡ conversation_id_for sender recipient

module _ {U M T : Type 0} (users : Repository User user_id U)
    (messages : Repository Message message_id M) (jwt : Jwt T) where
  -- The last connection of a socket gave a token that verified to these claims.
  pub Presented : {h g : Hub users messages} → ℕ → Claims → Reaches users messages jwt h g → Type 0
  Presented i claims start = ⊥
  Presented i claims (continues r (connects j now token)) =
      ((j ≡ i) × (t : T) × (token ≡ some t) × (jwt.verify now t ≡ some claims))
      ⊎ ((j ≢ i) × Presented i claims r)
  Presented i claims (continues r (sends j now payload)) = Presented i claims r

  -- The token that a connection gives, as it verifies.
  abbrev Given : Option T → ℕ → Claims → Type 0
  Given token now claims = (t : T) × (token ≡ some t) × (jwt.verify now t ≡ some claims)

  -- A client is in the one room of the account that an access token names, or in none.
  data IsAuthentic (client : Client) (Named : Claims → Type 0) : Type 0 where
    unknown : client.user ≡ none → client.rooms ≡ [] → IsAuthentic client Named
    known :
        (claims : Claims)
        → client.user ≡ some (record { user_id = claims.user_id; role = claims.role })
        → client.rooms ≡ room_of claims.user_id ∷ []
        → claims.type ≡ some "access"
        → Named claims
        → IsAuthentic client Named

  handle_connection-IsAuthentic :
      (now : ℕ) (token : Option T)
      → IsAuthentic (handle_connection jwt now token fresh_client) (Given token now)
  unfolding handle_connection
  handle_connection-IsAuthentic now none = unknown refl refl
  handle_connection-IsAuthentic now (some token) = elim (Option-cases (jwt.verify now token)) [
    | inl e ↦ simp e (unknown refl refl)
    | inr (claims, e) ↦ elim (Bool-cases (type_is "access" claims)) [
      | inl f ↦
          let given : Given (some token) now claims = (token, refl, e) in
          simp (e, f) (known claims refl refl (is_access claims.type f) given)
      | inr f ↦ simp (e, f) (unknown refl refl)
    ]
  ]

  imp-IsAuthentic :
      (client : Client) (P Q : Claims → Type 0)
      → ((claims : Claims) → P claims → Q claims)
      → IsAuthentic client P
      → IsAuthentic client Q
  imp-IsAuthentic client P Q f (unknown u r) = unknown u r
  imp-IsAuthentic client P Q f (known claims u r a p) = known claims u r a (f claims p)

  record IsSealed {h g : Hub users messages} (r : Reaches users messages jwt h g) : Type 0 where
    authentic : (i : ℕ) → IsAuthentic (g.clients i) (λ claims. Presented i claims r)
    addressed : All IsAddressed g.server.emitted

  acknowledge-IsAddressed :
      (user : ChatParticipant) (payload : SendPayload) (r : Result ChatMessageView × Chat U M)
      (emitted : List Emission)
      → ((view : ChatMessageView)
          → r.0 ≡ ok view
          → (view.sender_id ≡ user.user_id)
            × (view.conversation_id ≡ conversation_id_for user.user_id payload.to_user_id))
      → All IsAddressed emitted
      → All IsAddressed (acknowledge users messages user payload r emitted).1.emitted
  acknowledge-IsAddressed user payload (ok view, chat) emitted f h = (
    record {
      sender = user.user_id;
      recipient = payload.to_user_id;
      rooms = refl;
      authentic = (f view refl).0;
      conversation = (f view refl).1;
    },
    h,
  )
  acknowledge-IsAddressed user payload (err e, chat) emitted f h = h

  on_send_message-IsAddressed :
      (client : Client) (payload : SendPayload) (now : ℕ) (server : Server U M)
      → All IsAddressed server.emitted
      → All IsAddressed (on_send_message users messages client payload now server).1.emitted
  unfolding on_send_message
  on_send_message-IsAddressed client payload now server h = elim (Option-cases client.user) [
    | inl e ↦ simp e h
    | inr (user, e) ↦ simp e (
        acknowledge-IsAddressed user payload
          (send_message users messages user payload.to_user_id payload.body now server.chat)
          server.emitted
          (λ view r.
            let made =
              (send_message-IsSent users messages user payload.to_user_id payload.body now
                  server.chat).1
                view r in
            (made.authentic, made.addressed))
          h)
  ]

  -- Where no socket is known and nothing has been emitted.
  pub record IsQuiet (hub : Hub users messages) : Type 0 where
    pub clients : (i : ℕ) → hub.clients i ≡ fresh_client
    pub emitted : hub.server.emitted ≡ []

  Reaches-IsSealed :
      {h g : Hub users messages} → IsQuiet h → (r : Reaches users messages jwt h g) → IsSealed r
  unfolding Presented
  Reaches-IsSealed v start = record {
    authentic = λ i. unknown (ap (λ c. c.user) (v.clients i)) (ap (λ c. c.rooms) (v.clients i));
    addressed = rw v.emitted tt;
  }
  Reaches-IsSealed v (continues r (connects i now token)) =
      let w = Reaches-IsSealed v r in
      record {
        authentic = λ j. elim (Bool-cases (j == i)) [
          | inl e ↦ simp e (
              imp-IsAuthentic _ _ _
                (λ claims (t, given, valid). inl (sym ((nat_beq_iff j i).0 e), t, given, valid))
                (handle_connection-IsAuthentic now token))
          | inr e ↦ simp e (
              imp-IsAuthentic _ _ _
                (λ claims given. inr (λ same. let k = (nat_beq_iff j i).1 (sym same) in cc, given))
                (w.authentic j))
        ];
        addressed = w.addressed;
      }
  Reaches-IsSealed v (continues {h} r (sends i now payload)) =
      let w = Reaches-IsSealed v r in
      record {
        authentic = w.authentic;
        addressed = on_send_message-IsAddressed (h.clients i) payload now h.server w.addressed;
      }

  -- The last connection of the socket gave an access token that verified, of an account that takes part
  -- in the message's conversation.
  pub record IsParticipant {h g : Hub users messages} (r : Reaches users messages jwt h g) (i : ℕ)
      (message : ChatMessageView) : Type 0 where
    pub claims : Claims
    pub presented : Presented i claims r
    pub access : claims.type ≡ some "access"
    pub other : String
    pub conversation : message.conversation_id ≡ conversation_id_for claims.user_id other

  received :
      {h g : Hub users messages} (r : Reaches users messages jwt h g) (i : ℕ) (e : Emission)
      → IsAuthentic (g.clients i) (λ claims. Presented i claims r)
      → IsAddressed e
      → receives (g.clients i) e ≡ true
      → IsParticipant r i e.message
  received {g = g} r i e (unknown u rooms) a h =
      let k = simp rooms at (in_a_room (g.clients i) e h) in cc
  received {g = g} r i e (known claims u rooms access named) a h =
      let k : any (λ room. includes (room_of a.sender ∷ room_of a.recipient ∷ []) room)
            (room_of claims.user_id ∷ [])
          ≡ true =
        subst (λ rooms. any (λ room. includes rooms room) (room_of claims.user_id ∷ []) ≡ true)
          a.rooms
          (subst (λ rooms. any (λ room. includes e.rooms room) rooms ≡ true) rooms
            (in_a_room (g.clients i) e h)) in
      elim (one_room a.sender a.recipient claims.user_id k) [
        | inl same ↦ record {
          claims = claims;
          presented = named;
          access = access;
          other = a.recipient;
          conversation = a.conversation ∙ ap (λ id. conversation_id_for id a.recipient) same;
        }
        | inr same ↦ record {
          claims = claims;
          presented = named;
          access = access;
          other = a.sender;
          conversation =
              a.conversation
              ∙ conversation_id_for_comm a.sender a.recipient
              ∙ ap (λ id. conversation_id_for id a.sender) same;
        }
      ]

  -- However connections and messages interleave from the start, whatever has been emitted reaches only
  -- sockets whose own last connection gave a token that verified, of the access kind and of one of the
  -- two participants of the message's conversation.
  pub Reaches-received :
      {h g : Hub users messages}
      → IsQuiet h
      → (r : Reaches users messages jwt h g)
      → All
          (λ e. (i : ℕ) → receives (g.clients i) e ≡ true → IsParticipant r i e.message)
          g.server.emitted
  Reaches-received {g = g} v r =
      let w = Reaches-IsSealed v r in
      All-imp _ _ (λ e a i h. received r i e (w.authentic i) a h) g.server.emitted w.addressed
