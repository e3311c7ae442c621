-- ===== src/Chat/Conversations.antt =====
-- The ids of conversations: `conversationIdFor` and `otherParticipantId` of chat.service.ts.
use Prim.Native.String
use skillhunt.Common.{
  ◌≡◌, ◌≢◌, ◌⊎◌, refl, sym, ap, ◌∙◌, String, true, false, Bool, some, [], ◌∷◌, ◌==◌, string_eq,
  eq_iff, arith, if◌then◌else◌, Bool-cases, inl, inr, beq_self,
}
use skillhunt.Common.Text.{precedes, split_on}
use skillhunt.Common.Text.Laws.{
  precedes-asym, precedes-connex, lacks, split_on-append, split_on-lacks,
}
use skillhunt.Chat.{conversation_id_for, other_participant_id}

-- The two ids of a conversation, whichever comes first.
abbrev pub IsPair : String → String → String → String → Type 0
IsPair a b c d = ((a ≡ c) × (b ≡ d)) ⊎ ((a ≡ d) × (b ≡ c))

pub conversation_id_for_comm : (a b : String) → conversation_id_for a b ≡ conversation_id_for b a
conversation_id_for_comm a b = elim (Bool-cases (precedes b a)) [
  | inl e ↦ simp (e, precedes-asym b a e) refl
  | inr e ↦ elim (Bool-cases (precedes a b)) [
    | inl f ↦ simp (e, f) refl
    | inr f ↦ rw (precedes-connex a b f e) refl
  ]
]

split_on-joined :
    (a b : String)
    → lacks ":" a ≡ true
    → lacks ":" b ≡ true
    → split_on ":" (String.◌++◌ a (String.◌++◌ ":" b)) ≡ a ∷ b ∷ []
split_on-joined a b p q =
    split_on-append ":" a b p ∙ ap (λ parts. a ∷ parts) (split_on-lacks ":" b q)

split_on-conversation_id_for :
    (a b : String)
    → lacks ":" a ≡ true
    → lacks ":" b ≡ true
    → split_on ":" (conversation_id_for a b) ≡ (if precedes b a then b ∷ a ∷ [] else a ∷ b ∷ [])
split_on-conversation_id_for a b p q = elim (Bool-cases (precedes b a)) [
  | inl e ↦ simp e (split_on-joined b a q p)
  | inr e ↦ simp e (split_on-joined a b p q)
]

pub other_participant_id-conversation_id_for :
    (a b : String)
    → lacks ":" a ≡ true
    → lacks ":" b ≡ true
    → a ≢ b
    → other_participant_id (conversation_id_for a b) a ≡ some b
other_participant_id-conversation_id_for a b p q d =
    let differ : (b == a) ≡ false = ground (arith, eq_iff b a, λ (same : b ≡ a). d (sym same)) in
    simp (split_on-conversation_id_for a b p q) (elim (Bool-cases (precedes b a)) [
      | inl e ↦ simp (e, differ) refl
      | inr e ↦ simp (e, beq_self a, differ) refl
    ])

pub conversation_id_for-injective :
    (a b c d : String)
    → lacks ":" a ≡ true
    → lacks ":" b ≡ true
    → lacks ":" c ≡ true
    → lacks ":" d ≡ true
    → conversation_id_for a b ≡ conversation_id_for c d
    → IsPair a b c d
conversation_id_for-injective a b c d p q r s h = same_two (precedes b a) (precedes d c) (
    sym (split_on-conversation_id_for a b p q)
    ∙ ap (split_on ":") h
    ∙ split_on-conversation_id_for c d r s)
  where
    same_two :
        (x y : Bool)
        → (if x then b ∷ a ∷ [] else a ∷ b ∷ []) ≡ (if y then d ∷ c ∷ [] else c ∷ d ∷ [])
        → IsPair a b c d
    same_two true true h = inl (cc, cc)
    same_two true false h = inr (cc, cc)
    same_two false true h = inr (cc, cc)
    same_two false false h = inl (cc, cc)

-- The id of a conversation does not depend on who asks; for two distinct ids without colons, each of
-- the two participants finds the other in it, and no other two people without colons in their ids have
-- the same.
pub conversation_id_for-identifies :
    (a b : String)
    → lacks ":" a ≡ true
    → lacks ":" b ≡ true
    → a ≢ b
    → (conversation_id_for a b ≡ conversation_id_for b a)
      × (other_participant_id (conversation_id_for a b) a ≡ some b)
      × (other_participant_id (conversation_id_for a b) b ≡ some a)
      × ((c d : String)
          → lacks ":" c ≡ true
          → lacks ":" d ≡ true
          → conversation_id_for a b ≡ conversation_id_for c d
          → IsPair a b c d)
conversation_id_for-identifies a b p q d = (
  conversation_id_for_comm a b,
  other_participant_id-conversation_id_for a b p q d,
  ap (λ id. other_participant_id id b) (conversation_id_for_comm a b)
      ∙ other_participant_id-conversation_id_for b a q p (λ e. d (sym e)),
  λ c e r s h. conversation_id_for-injective a b c e p q r s h,
)
