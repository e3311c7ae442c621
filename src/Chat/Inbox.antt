-- ===== src/Chat/Inbox.antt =====
-- What `conversations` of chat.service.ts lists.
use skillhunt.Common.{
  ◌≡◌, ◌≢◌, refl, sym, ap, subst, String, Bool, true, not, ◌&&◌, Option, none, some, List, [], ◌∷◌,
  reverse, filter, count, All, ◌==◌, string_eq, eq_iff, arith, inl, inr, ltb, Bool-cases,
  Option-cases, includes,
}
use skillhunt.Common.Membership.{find-All, All-imp, All-reverse_aux, All-filter, All-filter_meets}
use skillhunt.Entities.{User, Message, user_id, message_id}
use skillhunt.Store.{Repository}
use skillhunt.Store.Order.{IsSorted}
use skillhunt.Matching.{user_by_id}
use skillhunt.Chat.{
  Chat, ConversationSummary, latest_first, group, mentions, other_participant_id, other_of,
  summary_of, summaries, rows_of, others_in, other_ids, to_view,
}
use skillhunt.Chat.Reading.{latest_first-IsTotal, latest_first-IsTransitive}

-- The first is of another conversation, and no earlier than the second.
abbrev row_before : String × Message → String × Message → Bool
row_before a b = latest_first a.1 b.1 && not (b.0 == a.0)

abbrev pub listed_before : ConversationSummary → ConversationSummary → Bool
listed_before a b =
    not (ltb a.last_message.created_at b.last_message.created_at)
    && not (b.conversation_id == a.conversation_id)

-- The newest of its conversation among `docs`.
pub record IsNewest (docs : List Message) (conversation_id : String) (m : Message) : Type 0 where
  pub same : m.conversation_id ≡ conversation_id
  pub newest : All (λ o. o.conversation_id ≡ conversation_id → latest_first m o ≡ true) docs

abbrev RowIsNewest : List Message → String × Message → Type 0
RowIsNewest docs row = IsNewest docs row.0 row.1

group-All :
    (P : Message → Type 0) (docs : List Message) → All P docs → All (λ row. P row.1) (group docs)
group-All P [] h = tt
group-All P (m ∷ ms) (p, h) = (p, All-filter _ _ (group ms) (group-All P ms h))

IsSorted-filter :
    {E : Type 0} (le : E → E → Bool) (p : E → Bool) (xs : List E)
    → IsSorted le xs
    → IsSorted le (filter p xs)
IsSorted-filter le p [] h = tt
IsSorted-filter le p (x ∷ xs) (b, h) = elim (Bool-cases (p x)) [
  | inl e ↦ simp e (All-filter _ p xs b, IsSorted-filter le p xs h)
  | inr e ↦ simp e (IsSorted-filter le p xs h)
]

All-both :
    {A : Type 0} (P Q : A → Type 0) (xs : List A) → All P xs → All Q xs → All (λ x. P x × Q x) xs
All-both P Q [] h k = tt
All-both P Q (x ∷ xs) (p, h) (q, k) = ((p, q), All-both P Q xs h k)

group-newest :
    (docs : List Message) → IsSorted latest_first docs → All (RowIsNewest docs) (group docs)
group-newest [] h = tt
group-newest (m ∷ ms) (b, h) = (
  record { same = refl; newest = (λ e. ground arith, All-imp _ _ (λ o r e. r) ms b) },
  All-imp _ _
      (λ row r. record {
        same = r.0.same;
        newest = (λ e. absurd (apart row.0 m.conversation_id r.1 e), r.0.newest);
      })
      (filter (λ row. not (row.0 == m.conversation_id)) (group ms))
      (All-both _ _ _ (All-filter _ _ (group ms) (group-newest ms h))
        (All-filter_meets _ (group ms))),
)
  where
    apart : (a b : String) → not (a == b) ≡ true → b ≢ a
    apart a b h e = absurd (ground (arith, eq_iff a b, sym e))

group-IsSorted :
    (docs : List Message) → IsSorted latest_first docs → IsSorted row_before (group docs)
group-IsSorted [] h = tt
group-IsSorted (m ∷ ms) (b, h) = (
  All-imp _ _ (λ row r. simp (r.0, r.1) refl)
      (filter (λ row. not (row.0 == m.conversation_id)) (group ms))
      (All-both _ _ _ (All-filter _ _ (group ms) (group-All _ ms b))
        (All-filter_meets _ (group ms))),
  IsSorted-filter row_before _ (group ms) (group-IsSorted ms h),
)

-- What holds of each row that is kept, with its other participant, holds of the summaries.
summaries-All :
    (self_id : String) (by_id : String → Option User) (P : String × Message → Type 0)
    (Q : ConversationSummary → Type 0)
    → ((row : String × Message) (other : User)
        → P row
        → other_of by_id (other_participant_id row.0 self_id) ≡ some other
        → All Q (summary_of row (some other)))
    → (rows : List (String × Message)) → All P rows
    → All Q (summaries self_id by_id rows)
summaries-All self_id by_id P Q f [] h = tt
summaries-All self_id by_id P Q f (row ∷ rows) (p, h) =
    elim (Option-cases (other_of by_id (other_participant_id row.0 self_id))) [
      | inl e ↦ simp e (summaries-All self_id by_id P Q f rows h)
      | inr (other, e) ↦ simp e ((f row other p e).0, summaries-All self_id by_id P Q f rows h)
    ]

summaries-IsSorted :
    (self_id : String) (by_id : String → Option User) (rows : List (String × Message))
    → IsSorted row_before rows
    → IsSorted listed_before (summaries self_id by_id rows)
summaries-IsSorted self_id by_id [] h = tt
summaries-IsSorted self_id by_id (row ∷ rows) (b, h) =
    elim (Option-cases (other_of by_id (other_participant_id row.0 self_id))) [
      | inl e ↦ simp e (summaries-IsSorted self_id by_id rows h)
      | inr (other, e) ↦ simp e (
        summaries-All self_id by_id (λ r. row_before row r ≡ true) _ (λ r o p _. (p, tt)) rows b,
        summaries-IsSorted self_id by_id rows h,
      )
    ]

module _ {U M : Type 0} (users : Repository User user_id U)
    (messages : Repository Message message_id M) where
  -- `docs` are the messages of the reader's conversations.
  pub record IsListed (self_id : String) (docs : List Message) (s : Chat U M)
      (summary : ConversationSummary) : Type 0 where
    pub doc : Message
    pub last : summary.last_message ≡ to_view doc
    pub stored : messages.row s.messages doc.id ≡ some doc
    pub own : mentions self_id summary.conversation_id ≡ true
    pub newest : IsNewest docs summary.conversation_id doc
    pub other : User
    pub known : users.row s.users summary.peer.id ≡ some other
    pub shown : (summary.peer.username ≡ other.username) × (summary.peer.role ≡ other.role)
    pub opposite : other_participant_id summary.conversation_id self_id ≡ some summary.peer.id

  others_in-found :
      (ids : List String) (s : Chat U M) (id : String) (other : User)
      → user_by_id (others_in users messages ids s) id ≡ some other
      → (users.row s.users other.id ≡ some other) × (other.id ≡ id)
  others_in-found [] s id other h = cc
  others_in-found (i ∷ ids) s id other h =
      let found = users.find_where (λ u. includes (i ∷ ids) u.id) (λ a b. true) s.users in
      let sound = users.find_sound s.users (λ u. includes (i ∷ ids) u.id) (λ a b. true) in
      let (r, e) =
        find-All _ (λ u. u.id == id) (reverse found) other (All-reverse_aux _ found [] sound tt)
          h in
      (r.1, (eq_iff other.id id).0 e)

  other_of-found :
      (ids : List String) (s : Chat U M) (id : Option String) (other : User)
      → other_of (user_by_id (others_in users messages ids s)) id ≡ some other
      → (users.row s.users other.id ≡ some other) × (id ≡ some other.id)
  other_of-found ids s none other h = cc
  other_of-found ids s (some id) other h = elim (Bool-cases (id == "")) [
    | inl e ↦ let k = simp e at h in cc
    | inr e ↦
        let (r, same) = others_in-found ids s id other (simp e at h) in (r, ap some (sym same))
  ]

  pub record IsInbox (self_id : String) (s : Chat U M) (docs : List Message)
      (list : List ConversationSummary) : Type 0 where
    pub complete :
        (q : Message → Bool)
        → count q docs
          ≡ messages.count_where (λ m. mentions self_id m.conversation_id && q m) s.messages
    pub listed : All (IsListed self_id docs s) list
    pub sorted : IsSorted listed_before list

  pub rows_of-IsInbox :
      (self_id : String) (s : Chat U M)
      → let rows = rows_of users messages self_id s in
        IsInbox self_id s
          (messages.find_where (λ m. mentions self_id m.conversation_id) latest_first s.messages)
          (summaries self_id
            (user_by_id (others_in users messages (other_ids self_id rows) s))
            rows)
  rows_of-IsInbox self_id s =
      let belongs = λ (m : Message). mentions self_id m.conversation_id in
      let docs = messages.find_where belongs latest_first s.messages in
      let rows = group docs in
      let ids = other_ids self_id rows in
      let sorted =
        messages.find_sorted s.messages belongs latest_first latest_first-IsTotal
          latest_first-IsTransitive in
      record {
        complete = λ q. messages.find_complete s.messages belongs q latest_first;
        listed =
            summaries-All self_id (user_by_id (others_in users messages ids s)) _ _
              (λ row other p e.
                let (known, opposite) =
                  other_of-found ids s (other_participant_id row.0 self_id) other e in
                (
                  record {
                    doc = row.1;
                    last = refl;
                    stored = p.1.1;
                    own = subst (λ c. mentions self_id c ≡ true) p.0.same p.1.0;
                    newest = p.0;
                    other = other;
                    known = known;
                    shown = (refl, refl);
                    opposite = opposite;
                  },
                  tt,
                ))
              rows
              (All-both _ _ rows (group-newest docs sorted)
                (group-All _ docs (messages.find_sound s.messages belongs latest_first)));
        sorted =
            summaries-IsSorted self_id (user_by_id (others_in users messages ids s)) rows
              (group-IsSorted docs sorted);
      }
