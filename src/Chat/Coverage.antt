-- ===== src/Chat/Coverage.antt =====
-- That `conversations` of chat.service.ts leaves none out.
use skillhunt.Common.{
  ◌≡◌, ◌≢◌, ◌⊎◌, refl, sym, ◌∙◌, String, Bool, true, false, not, ◌&&◌, ◌||◌, Option, none, some,
  List, [], ◌∷◌, ◌++◌, reverse, filter, count, find, any, All, ◌==◌, string_eq, eq_iff, beq_self,
  arith, inl, inr, Bool-cases, Option-cases, ok, includes,
}
use skillhunt.Common.Membership.{All-imp, count-reverse_aux}
use skillhunt.Entities.{User, Message, user_id, message_id}
use skillhunt.Store.{Repository}
use skillhunt.Matching.{user_by_id}
use skillhunt.Chat.{
  Chat, ChatParticipant, ConversationSummary, latest_first, group, mentions, other_participant_id,
  other_of, summary_of, summaries, rows_of, others_in, other_ids, kept_id, conversations,
}
use skillhunt.Chat.Inbox.{IsInbox, rows_of-IsInbox}

abbrev has_row : String → List (String × Message) → Bool
has_row conversation_id rows = any (λ row. row.0 == conversation_id) rows

abbrev pub is_listed : String → List ConversationSummary → Bool
is_listed conversation_id list = any (λ summary. summary.conversation_id == conversation_id) list

has_row-filter :
    (id dropped : String) (rows : List (String × Message))
    → has_row id rows ≡ true
    → (id ≡ dropped) ⊎ (has_row id (filter (λ row. not (row.0 == dropped)) rows) ≡ true)
has_row-filter id dropped [] h = cc
has_row-filter id dropped (row ∷ rows) h = elim (Bool-cases (row.0 == id)) [
  | inl e ↦ elim (Bool-cases (row.0 == dropped)) [
    | inl f ↦ inl (sym ((eq_iff row.0 id).0 e) ∙ (eq_iff row.0 dropped).0 f)
    | inr f ↦ inr (simp (f, e) refl)
  ]
  | inr e ↦ elim (has_row-filter id dropped rows (simp e at h)) [
    | inl same ↦ inl same
    | inr k ↦ elim (Bool-cases (row.0 == dropped)) [
      | inl f ↦ inr (simp f k)
      | inr f ↦ inr (simp (f, e) k)
    ]
  ]
]

-- A group for each document.
group-covers : (docs : List Message) → All (λ m. has_row m.conversation_id (group docs) ≡ true) docs
group-covers [] = tt
group-covers (m ∷ ms) = (
  simp (beq_self m.conversation_id) refl,
  All-imp _ _
      (λ o h. elim (Bool-cases (m.conversation_id == o.conversation_id)) [
        | inl e ↦ simp e refl
        | inr e ↦ elim (has_row-filter o.conversation_id m.conversation_id (group ms) h) [
          | inl same ↦
              let k = beq_self m.conversation_id in
              absurd (ground (arith, eq_iff m.conversation_id o.conversation_id, sym same))
          | inr k ↦ simp e k
        ]
      ])
      ms (group-covers ms),
)

or_true : (b : Bool) → (b || true) ≡ true
or_true b = ground arith

kept_id-keeps :
    (other : Option String) (id : String) (ids : List String)
    → includes ids id ≡ true
    → includes (kept_id other ids) id ≡ true
kept_id-keeps none id ids h = h
kept_id-keeps (some o) id ids h = elim (Bool-cases (o == "")) [
  | inl e ↦ simp e h
  | inr e ↦ simp (e, h) (or_true (o == id))
]

any-append :
    {A : Type 0} (p : A → Bool) (xs ys : List A) → any p ys ≡ true → any p (xs ++ ys) ≡ true
any-append p [] ys h = h
any-append p (x ∷ xs) ys h = simp (any-append p xs ys h) (or_true (p x))

find-count-none : {A : Type 0} (p : A → Bool) (xs : List A) → find p xs ≡ none → count p xs ≡ 0
find-count-none p [] h = refl
find-count-none p (x ∷ xs) h = ground (arith, find-count-none p xs)

other_ids-covers :
    (self_id conversation_id id : String) (rows : List (String × Message))
    → has_row conversation_id rows ≡ true
    → other_participant_id conversation_id self_id ≡ some id
    → (id == "") ≡ false
    → includes (other_ids self_id rows) id ≡ true
other_ids-covers self_id conversation_id id [] h o v = cc
other_ids-covers self_id conversation_id id (row ∷ rows) h o v =
    elim (Bool-cases (row.0 == conversation_id)) [
      | inl e ↦ simp ((eq_iff row.0 conversation_id).0 e, o, v, beq_self id) refl
      | inr e ↦
          kept_id-keeps (other_participant_id row.0 self_id) id (other_ids self_id rows)
            (other_ids-covers self_id conversation_id id rows (simp e at h) o v)
    ]

summaries-covers :
    (self_id conversation_id : String) (by_id : String → Option User) (other : User)
    → other_of by_id (other_participant_id conversation_id self_id) ≡ some other
    → (rows : List (String × Message)) → has_row conversation_id rows ≡ true
    → is_listed conversation_id (summaries self_id by_id rows) ≡ true
summaries-covers self_id conversation_id by_id other o [] h = cc
summaries-covers self_id conversation_id by_id other o (row ∷ rows) h =
    elim (Bool-cases (row.0 == conversation_id)) [
      | inl e ↦ simp ((eq_iff row.0 conversation_id).0 e, o, beq_self conversation_id) refl
      | inr e ↦
          any-append _ (summary_of row (other_of by_id (other_participant_id row.0 self_id)))
            (summaries self_id by_id rows)
            (summaries-covers self_id conversation_id by_id other o rows (simp e at h))
    ]

module _ {U M : Type 0} (users : Repository User user_id U)
    (messages : Repository Message message_id M) where
  found_in :
      (ids : List String) (s : Chat U M) (id : String) (u : User)
      → includes ids id ≡ true
      → users.row s.users id ≡ some u
      → (other : User) × (user_by_id (others_in users messages ids s) id ≡ some other)
  found_in [] s id u h r = cc
  found_in (i ∷ ids) s id u h r =
      let wanted = λ (x : User). includes (i ∷ ids) x.id in
      let here = λ (x : User). x.id == id in
      let found = users.find_where wanted (λ a b. true) s.users in
      let same : u.id ≡ id = users.row-key s.users id u r in
      let meets : (wanted u && here u) ≡ true = simp (same, beq_self id) (ground (arith, h)) in
      elim (Option-cases (find here (reverse found))) [
        | inr (other, e) ↦ (other, e)
        | inl e ↦ absurd (
            omega (
              arith,
              users.row-count s.users (λ x. wanted x && here x) id u r meets,
              users.find_complete s.users wanted here (λ a b. true),
              count-reverse_aux here found [],
              find-count-none here (reverse found) e,
            ))
      ]

  -- Listing changes nothing and does not fail. It shows conversations in whose id the reader's occurs,
  -- each at most once, the one with the latest message first, and each with its newest stored message
  -- and with the stored account that is the other participant. A conversation with a message is left
  -- out only if its other participant has no account.
  pub conversations-IsInbox :
      (reader : ChatParticipant) (s : Chat U M)
      → let (r, s') = conversations users messages reader s in
        (s' ≡ s)
        × ((list : List ConversationSummary) × (r ≡ ok list)
            × (docs : List Message) × IsInbox users messages reader.user_id s docs list
            × All
                (λ m.
                  (id : String) (u : User)
                  → other_participant_id m.conversation_id reader.user_id ≡ some id
                  → id ≢ ""
                  → users.row s.users id ≡ some u
                  → is_listed m.conversation_id list ≡ true)
                docs)
  unfolding conversations
  conversations-IsInbox reader s =
      let rows = rows_of users messages reader.user_id s in
      let by_id = user_by_id (others_in users messages (other_ids reader.user_id rows) s) in
      let docs =
        messages.find_where (λ m. mentions reader.user_id m.conversation_id) latest_first
          s.messages in
      (
        refl,
        (
          summaries reader.user_id by_id rows,
          refl,
          docs,
          rows_of-IsInbox users messages reader.user_id s,
          All-imp _ _
              (λ m h id u o v r.
                let w : (id == "") ≡ false = ground (arith, eq_iff id "") in
                let k = other_ids-covers reader.user_id m.conversation_id id rows h o w in
                let (other, e) = found_in (other_ids reader.user_id rows) s id u k r in
                summaries-covers reader.user_id m.conversation_id by_id other (simp (o, w) e) rows
                  h)
              docs (group-covers docs),
        ),
      )
