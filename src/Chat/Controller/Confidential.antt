-- ===== src/Chat/Controller/Confidential.antt =====
-- Who reads what through chat.controller.ts.
use skillhunt.Common.{
  ℕ, ◌≡◌, refl, String, List, some, ok, err, Result, inl, inr, Bool-cases, Option-cases,
  Result-cases, sym, ok-injective,
}
use skillhunt.Entities.{User, Message, user_id, message_id}
use skillhunt.Store.{Repository}
use skillhunt.External.{Jwt, Claims}
use skillhunt.Auth.Service.{type_is}
use skillhunt.Auth.Guards.{
  JwtPayload, AuthHeader, absent, malformed, bearer, can_activate, accept_claims,
}
use skillhunt.Auth.Guards.Access.{is_access}
use skillhunt.Gear.Controller.{map_ok}
use skillhunt.Chat.{Chat, ChatMessageView, conversation_id_for, conversations, history}
use skillhunt.Chat.Sending.{IsPermitted}
use skillhunt.Chat.Reading.{IsThread, history-IsThread}
use skillhunt.Chat.Controller.{
  ChatRoute, get_conversations, get_history, thread, reader_of, read, serve_chat,
}

-- A header with a token that verifies, is of the access kind and carries what the user has.
pub record IsBearer {T : Type 0} (jwt : Jwt T) (now : ℕ) (header : AuthHeader T) (user : JwtPayload)
    : Type 0 where
  pub token : T
  pub claims : Claims
  pub header_is : header ≡ bearer token
  pub verified : jwt.verify now token ≡ some claims
  pub kind : claims.type ≡ some "access"
  pub user_is : user ≡ record { user_id = claims.user_id; email = claims.email; role = claims.role }

accept_claims_lem :
    (claims : Claims) (user : JwtPayload)
    → accept_claims (some claims) ≡ ok user
    → (claims.type ≡ some "access")
      × (user ≡ record { user_id = claims.user_id; email = claims.email; role = claims.role })
accept_claims_lem claims user h = elim (Bool-cases (type_is "access" claims)) [
  | inl e ↦ (is_access claims.type e, sym (ok-injective (simp e at h)))
  | inr e ↦ let k = simp e at h in cc
]

pub can_activate-IsBearer :
    {T : Type 0} (jwt : Jwt T) (now : ℕ) (header : AuthHeader T) (user : JwtPayload)
    → can_activate jwt now header ≡ ok user
    → IsBearer jwt now header user
unfolding can_activate
can_activate-IsBearer jwt now absent user h = cc
can_activate-IsBearer jwt now malformed user h = cc
can_activate-IsBearer jwt now (bearer token) user h = elim (Option-cases (jwt.verify now token)) [
  | inl e ↦ cc (rw e at h)
  | inr (claims, e) ↦
      let (kind, same) = accept_claims_lem claims user (rw e at h) in
      record {
        token = token;
        claims = claims;
        header_is = refl;
        verified = e;
        kind = kind;
        user_is = same;
      }
]

module _ {U M : Type 0} (users : Repository User user_id U)
    (messages : Repository Message message_id M) where
  -- A thread is shown to its bearer only: a participant of a permitted pair, with its conversation.
  pub record IsShown (route : ChatRoute) (user : JwtPayload) (s : Chat U M)
      (views : List ChatMessageView) : Type 0 where
    pub other_user_id : String
    pub route_is : route ≡ get_history other_user_id
    pub permitted :
        IsPermitted users messages
          (record { user_id = user.user_id; role = user.role })
          other_user_id
          s
    pub conversation :
        IsThread users messages (conversation_id_for user.user_id other_user_id) s views

  read-IsShown :
      (route : ChatRoute) (user : JwtPayload) (s : Chat U M)
      → let (r, s') = read users messages route user s in
        (s' ≡ s)
        × ((views : List ChatMessageView) → r ≡ ok (thread views) → IsShown route user s views)
  unfolding conversations
  read-IsShown get_conversations user s = (refl, λ views h. cc)
  read-IsShown (get_history other) user s =
      let (same, shown) = history-IsThread users messages (reader_of user) other s in
      (
        same,
        λ views h.
            let (permitted, conversation) =
              shown views (threaded views (history users messages (reader_of user) other s).0 h) in
            record {
              other_user_id = other;
              route_is = refl;
              permitted = permitted;
              conversation = conversation;
            },
      )
    where
      threaded :
          (views : List ChatMessageView) (r : Result (List ChatMessageView))
          → map_ok thread r ≡ ok (thread views)
          → r ≡ ok views
      threaded views (ok a) h = cc
      threaded views (err e) h = cc

  -- A request to the chat's routes changes nothing, and gives a thread only with a valid access token:
  -- that of its bearer with the named user, if they are a recruiter and a freelance.
  pub serve_chat-IsShown :
      {T : Type 0} (jwt : Jwt T) (now : ℕ) (header : AuthHeader T) (route : ChatRoute)
      (s : Chat U M)
      → let (r, s') = serve_chat users messages jwt now header route s in
        (s' ≡ s)
        × ((views : List ChatMessageView)
            → r ≡ ok (thread views)
            → (user : JwtPayload) × IsBearer jwt now header user × IsShown route user s views)
  unfolding serve_chat
  serve_chat-IsShown jwt now header route s = elim (Result-cases (can_activate jwt now header)) [
    | inr (e, h) ↦ simp h (refl, λ views k. cc)
    | inl (user, h) ↦
        let (same, shown) = read-IsShown route user s in
        simp h (same, λ views k. (user, can_activate-IsBearer jwt now header user h, shown views k))
  ]
