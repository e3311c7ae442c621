-- ===== src/Chat/Reading.antt =====
-- What `history` of chat.service.ts shows.
use skillhunt.Common.{
  ◌+◌, ◌≡◌, refl, subst, String, Bool, true, ◌&&◌, some, List, [], map, reverse, length, take, drop,
  count, All, All-take, ◌==◌, string_eq, eq_iff, arith, inl, inr, ltb, Bool-cases, ok, ok-injective,
  length-take,
}
use Prim.Native.Nat.{min}
use skillhunt.Common.Membership.{
  All-imp, All-reverse_aux, count-take-drop, count-reverse_aux, length-reverse_aux,
}
use skillhunt.Entities.{User, Message, user_id, message_id}
use skillhunt.Store.{Repository}
use skillhunt.Store.Lookup.{length-find_where}
use skillhunt.Store.Order.{
  IsTotal, IsTransitive, IsSorted, IsSorted-take, IsSorted-split, IsSorted-reverse_aux,
}
use skillhunt.Chat.{
  Chat, ChatParticipant, ChatMessageView, conversation_id_for, latest_first, recent, history,
  to_view,
}
use skillhunt.Chat.Sending.{IsPermitted, pair_cases}

pub latest_first-IsTotal : IsTotal latest_first
latest_first-IsTotal a b = elim (Bool-cases (ltb a.created_at b.created_at)) [
  | inl e ↦ inr (ground arith)
  | inr e ↦ inl (ground arith)
]

pub latest_first-IsTransitive : IsTransitive latest_first
latest_first-IsTransitive a b c h k = ground arith

abbrev pub earliest_first : Message → Message → Bool
earliest_first a b = latest_first b a

module _ {U M : Type 0} (users : Repository User user_id U)
    (messages : Repository Message message_id M) where
  abbrev pub belongs : String → Message → Bool
  belongs conversation_id m = m.conversation_id == conversation_id

  -- `shown` and `older` are together the messages of the conversation.
  pub record IsThread (conversation_id : String) (s : Chat U M) (views : List ChatMessageView)
      : Type 0 where
    pub shown : List Message
    pub older : List Message
    pub viewed : views ≡ map to_view shown
    pub stored :
        All
          (λ m. (m.conversation_id ≡ conversation_id) × (messages.row s.messages m.id ≡ some m))
          shown
    pub chronological : IsSorted earliest_first shown
    pub newest : All (λ m. All (λ o. latest_first m o ≡ true) older) shown
    pub limited : length shown ≡ min 50 (messages.count_where (belongs conversation_id) s.messages)
    pub complete :
        (q : Message → Bool)
        → count q shown + count q older
          ≡ messages.count_where (λ m. belongs conversation_id m && q m) s.messages

  recent-IsThread :
      (conversation_id : String) (s : Chat U M)
      → IsThread conversation_id s (map to_view (reverse (recent users messages conversation_id s)))
  recent-IsThread conversation_id s =
      let docs = messages.find_where (belongs conversation_id) latest_first s.messages in
      let sorted =
        messages.find_sorted s.messages (belongs conversation_id) latest_first latest_first-IsTotal
          latest_first-IsTransitive in
      let sound = messages.find_sound s.messages (belongs conversation_id) latest_first in
      record {
        shown = reverse (take 50 docs);
        older = drop 50 docs;
        viewed = refl;
        stored =
            All-reverse_aux _ (take 50 docs) []
              (All-take _ 50 docs (
                All-imp _ _ (λ m h. ((eq_iff m.conversation_id conversation_id).0 h.0, h.1)) docs
                  sound))
              tt;
        chronological =
            IsSorted-reverse_aux latest_first (take 50 docs) []
              (IsSorted-take latest_first 50 docs sorted) tt tt;
        newest =
            All-reverse_aux _ (take 50 docs) [] (IsSorted-split latest_first 50 docs sorted) tt;
        limited = omega (
          arith,
          length-reverse_aux (take 50 docs) [],
          length-take 50 docs,
          length-find_where messages s.messages (belongs conversation_id) latest_first,
        );
        complete = λ q. omega (
          arith,
          count-reverse_aux q (take 50 docs) [],
          count-take-drop q 50 docs,
          messages.find_complete s.messages (belongs conversation_id) q latest_first,
        );
      }

  -- Reading changes nothing, and shows a conversation only to a participant whose role matches that of
  -- the other stored account: all its messages in chronological order, or the 50 of them that no other
  -- is later than.
  pub history-IsThread :
      (reader : ChatParticipant) (other_user_id : String) (s : Chat U M)
      → let (r, s') = history users messages reader other_user_id s in
        (s' ≡ s)
        × ((views : List ChatMessageView)
            → r ≡ ok views
            → IsPermitted users messages reader other_user_id s
              × IsThread (conversation_id_for reader.user_id other_user_id) s views)
  unfolding history
  history-IsThread reader other_user_id s =
      elim (pair_cases users messages reader other_user_id s) [
        | inl (e, g) ↦ simp g (refl, λ v h. cc)
        | inr (other, g, permitted) ↦ simp g (
          refl,
          λ v h. (
            permitted,
            subst (IsThread (conversation_id_for reader.user_id other_user_id) s) (ok-injective h)
                (recent-IsThread (conversation_id_for reader.user_id other_user_id) s),
          ),
        )
      ]
