-- ===== src/Chat/Sending.antt =====
-- What `sendMessage` of chat.service.ts stores, and for whom.
use skillhunt.Common.{
  ℕ, ◌≡◌, ◌≢◌, ◌⊎◌, ◌≤◌, refl, sym, ◌∙◌, subst, String, true, Option, none, some, ◌==◌, string_eq,
  eq_iff, arith, inl, inr, Bool-cases, Option-cases, ok, err, HttpError, ok-injective, forbidden,
  not_found, ltb, Result-cases,
}
use skillhunt.Common.Text.{trim, utf16_length}
use skillhunt.Enums.{UserRole, freelance, recruiter, admin, role_eq}
use skillhunt.Entities.{User, Message, user_id, message_id}
use skillhunt.Store.{Repository}
use skillhunt.Store.Lookup.{find_one-key, row-save_self}
use skillhunt.Chat.{
  Chat, ChatParticipant, ChatMessageView, conversation_id_for, is_recruiter_freelance_pair,
  accept_body, empty_if_missing, message_max_length, assert_recruiter_freelance_pair, send_message,
  to_view, draft,
}

-- The two roles that may write to each other.
abbrev pub AreMatched : Option UserRole → UserRole → Type 0
AreMatched a b = ((a ≡ some recruiter) × (b ≡ freelance)) ⊎ ((a ≡ some freelance) × (b ≡ recruiter))

pub matched_roles :
    (a : Option UserRole) (b : UserRole) → is_recruiter_freelance_pair a b ≡ true → AreMatched a b
matched_roles (some recruiter) freelance h = inl (refl, refl)
matched_roles (some freelance) recruiter h = inr (refl, refl)
matched_roles (some recruiter) recruiter h = cc
matched_roles (some recruiter) admin h = cc
matched_roles (some freelance) freelance h = cc
matched_roles (some freelance) admin h = cc
matched_roles (some admin) freelance h = cc
matched_roles (some admin) recruiter h = cc
matched_roles (some admin) admin h = cc
matched_roles none freelance h = cc
matched_roles none recruiter h = cc
matched_roles none admin h = cc

-- A text that is kept as it is.
pub record IsWorthy (text : String) : Type 0 where
  pub visible : text ≢ ""
  pub short : utf16_length text ≤ 2000

accepted-IsWorthy :
    (text kept : String) → accept_body text ≡ ok kept → (kept ≡ text) × IsWorthy text
accepted-IsWorthy text kept h = elim (Bool-cases (text == "")) [
  | inl e ↦ cc
  | inr e ↦ elim (Bool-cases (ltb message_max_length (utf16_length text))) [
    | inl f ↦ cc
    | inr f ↦ (
      sym (ok-injective (simp (e, f) at h)),
      record { visible = λ same. cc; short = ground (arith, f) },
    )
  ]
]

module _ {U M : Type 0} (users : Repository User user_id U)
    (messages : Repository Message message_id M) where
  -- The other participant exists, and the roles match.
  pub record IsPermitted (participant : ChatParticipant) (other_user_id : String) (s : Chat U M)
      : Type 0 where
    pub other : User
    pub stored : users.row s.users other_user_id ≡ some other
    pub matched : AreMatched participant.role other.role

  pub record IsSent (sender : ChatParticipant) (to_user_id : String) (body : Option String)
      (now : ℕ) (s : Chat U M) (view : ChatMessageView) (s' : Chat U M) : Type 0 where
    pub permitted : IsPermitted sender to_user_id s
    pub worthy : IsWorthy view.body
    pub trimmed : view.body ≡ trim (empty_if_missing body)
    pub authentic : view.sender_id ≡ sender.user_id
    pub addressed : view.conversation_id ≡ conversation_id_for sender.user_id to_user_id
    pub dated : view.created_at ≡ now
    pub doc : Message
    pub fresh : messages.row s.messages view.id ≡ none
    pub kept : (messages.row s'.messages view.id ≡ some doc) × (view ≡ to_view doc)
    pub others : (k : String) → k ≢ view.id → messages.row s'.messages k ≡ messages.row s.messages k
    pub users_kept : s'.users ≡ s.users

  -- The three outcomes of the check of the pair, which changes nothing.
  pub pair_cases :
      (participant : ChatParticipant) (other_user_id : String) (s : Chat U M)
      → ((e : HttpError) × (assert_recruiter_freelance_pair users messages participant other_user_id
              s
            ≡ (err e, s)))
        ⊎ ((other : User) × (assert_recruiter_freelance_pair users messages participant
                other_user_id s
              ≡ (ok other, s))
            × IsPermitted participant other_user_id s)
  unfolding assert_recruiter_freelance_pair
  pair_cases participant other_user_id s =
      elim (Option-cases (users.find_one (λ u. u.id == other_user_id) s.users)) [
        | inl e ↦ inl (not_found "Utilisateur introuvable", simp e refl)
        | inr (other, e) ↦
            elim (Bool-cases (is_recruiter_freelance_pair participant.role other.role)) [
              | inl f ↦ inr (
                other,
                simp (e, f) refl,
                record {
                  other = other;
                  stored = sym (find_one-key users s.users other_user_id) ∙ e;
                  matched = matched_roles participant.role other.role f;
                },
              )
              | inr f ↦ inl (
                forbidden "Une conversation relie toujours un recruteur et un freelance",
                simp (e, f) refl,
              )
            ]
      ]

  saved-IsSent :
      (sender : ChatParticipant) (to_user_id text : String) (body : Option String) (now : ℕ)
      (s : Chat U M)
      → IsPermitted sender to_user_id s
      → IsWorthy text
      → text ≡ trim (empty_if_missing body)
      → let doc = draft users messages sender to_user_id text now s in
        IsSent sender to_user_id body now s
          (to_view doc)
          (record s { messages = messages.save doc s.messages })
  saved-IsSent sender to_user_id text body now s permitted worthy same =
      let doc = draft users messages sender to_user_id text now s in
      record {
        permitted = permitted;
        worthy = worthy;
        trimmed = same;
        authentic = refl;
        addressed = refl;
        dated = refl;
        doc = doc;
        fresh = messages.row-generate s.messages;
        kept = (row-save_self messages s.messages doc, refl);
        others = λ k other.
            messages.row-save s.messages doc k
            ∙ ground (
              arith,
              eq_iff (messages.generate s.messages) k,
              λ (e : messages.generate s.messages ≡ k). other (sym e),
            );
        users_kept = refl;
      }

  -- A message that is refused leaves everything as it was. One that is returned is stored, once, under a
  -- new id, with its trimmed text of 1 to 2000 code units, in the name of the sender, in the
  -- conversation with a stored account; one of the two is a recruiter, the other a freelance.
  pub send_message-IsSent :
      (sender : ChatParticipant) (to_user_id : String) (body : Option String) (now : ℕ)
      (s : Chat U M)
      → let (r, s') = send_message users messages sender to_user_id body now s in
        ((e : HttpError) → r ≡ err e → s' ≡ s)
        × ((view : ChatMessageView) → r ≡ ok view → IsSent sender to_user_id body now s view s')
  unfolding send_message
  send_message-IsSent sender to_user_id body now s =
      elim (Result-cases (accept_body (trim (empty_if_missing body)))) [
        | inr (e, f) ↦ simp f (λ e h. refl, λ v h. cc)
        | inl (text, f) ↦
            let (same, worthy) = accepted-IsWorthy (trim (empty_if_missing body)) text f in
            elim (pair_cases sender to_user_id s) [
              | inl (e, g) ↦ simp (f, g) (λ e h. refl, λ v h. cc)
              | inr (other, g, permitted) ↦
                  simp (f, g)
                    (
                      λ e h. cc,
                      λ v h.
                          subst
                            (λ v. IsSent sender to_user_id body now s v (record s {
                              messages =
                                  messages.save (draft users messages sender to_user_id text now s)
                                    s.messages;
                            }))
                            (ok-injective h)
                            (saved-IsSent sender to_user_id text body now s permitted
                              (subst IsWorthy (sym same) worthy) same),
                    )
            ]
      ]
