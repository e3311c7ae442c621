-- ===== src/Web/Thread/Tidy.antt =====
-- Runs of useChatThread.ts on one conversation, and what they keep.
use skillhunt.Common.{
  ◌≡◌, refl, ◌∙◌, subst, String, true, ◌||◌, Option, List, [], ◌∷◌, ◌++◌, string_eq, beq_self,
  arith, Bool-cases, inl, inr, All, All-append,
}
use skillhunt.Web.Thread.{
  ChatMessage, Thread, conversation_of, is_in, append_new, on_message, loaded, or_empty,
}
use skillhunt.Web.Thread.Merging.{AreDistinct, is_shown, append_new-AreDistinct}

pub data ThreadEvent : Type 0 where
  arrives : ChatMessage → ThreadEvent
  loads : List ChatMessage → ThreadEvent

abbrev pub step : ThreadEvent → Thread → Thread
step (arrives message) thread = on_message message thread
step (loads history) thread = loaded history thread

abbrev pub run : List ThreadEvent → Thread → Thread
run [] thread = thread
run (e ∷ es) thread = run es (step e thread)

-- The conversation of a thread.
abbrev pub conversation : Thread → Option String
conversation thread = conversation_of thread.me thread.peer_id

-- The server's histories have each message once, and only those of the conversation.
abbrev pub IsSound : Option String → ThreadEvent → Type 0
IsSound c (arrives message) = Unit
IsSound c (loads history) = AreDistinct history × All (λ m. is_in c m ≡ true) history

-- What a thread keeps.
pub record IsTidy (c : Option String) (thread : Thread) : Type 0 where
  pub same : conversation thread ≡ c
  pub once : AreDistinct thread.live
  pub own : All (λ m. is_in c m ≡ true) thread.live
  pub history_once : AreDistinct (or_empty thread.history)
  pub history_own : All (λ m. is_in c m ≡ true) (or_empty thread.history)

pub is_shown-append :
    (m : ChatMessage) (xs ys : List ChatMessage)
    → is_shown m (xs ++ ys) ≡ (is_shown m xs || is_shown m ys)
is_shown-append m [] ys = refl
is_shown-append m (x ∷ xs) ys = simp (is_shown-append m xs ys) (ground arith)

pub append_new-grows :
    (m n : ChatMessage) (live : List ChatMessage)
    → is_shown m live ≡ true
    → is_shown m (append_new n live) ≡ true
append_new-grows m n live h = elim (Bool-cases (is_shown n live)) [
  | inl e ↦ simp e h
  | inr e ↦ simp e (is_shown-append m live (n ∷ []) ∙ simp h refl)
]

pub append_new-shows :
    (m : ChatMessage) (live : List ChatMessage) → is_shown m (append_new m live) ≡ true
append_new-shows m live = elim (Bool-cases (is_shown m live)) [
  | inl e ↦ simp e refl
  | inr e ↦ simp e (is_shown-append m live (m ∷ []) ∙ simp (e, beq_self m.id) refl)
]

append_new-All :
    (P : ChatMessage → Type 0) (m : ChatMessage) (live : List ChatMessage)
    → P m
    → All P live
    → All P (append_new m live)
append_new-All P m live p h = elim (Bool-cases (is_shown m live)) [
  | inl e ↦ simp e h
  | inr e ↦ simp e (All-append P live (m ∷ []) h (p, tt))
]

pub on_message-IsTidy :
    (c : Option String) (m : ChatMessage) (thread : Thread)
    → IsTidy c thread
    → IsTidy c (on_message m thread)
unfolding on_message
on_message-IsTidy c m thread v = elim (Bool-cases (is_in (conversation thread) m)) [
  | inl e ↦ simp e (record {
    same = v.same;
    once = append_new-AreDistinct m thread.live v.once;
    own = append_new-All _ m thread.live (subst (λ d. is_in d m ≡ true) v.same e) v.own;
    history_once = v.history_once;
    history_own = v.history_own;
  })
  | inr e ↦ simp e v
]

pub step-IsTidy :
    (c : Option String) (e : ThreadEvent) (thread : Thread)
    → IsSound c e
    → IsTidy c thread
    → IsTidy c (step e thread)
step-IsTidy c (arrives m) thread h v = on_message-IsTidy c m thread v
step-IsTidy c (loads history) thread h v = record {
  same = v.same;
  once = v.once;
  own = v.own;
  history_once = h.0;
  history_own = h.1;
}

pub run-IsTidy :
    (c : Option String) (es : List ThreadEvent) (thread : Thread)
    → All (IsSound c) es
    → IsTidy c thread
    → IsTidy c (run es thread)
run-IsTidy c [] thread h v = v
run-IsTidy c (e ∷ es) thread (b, h) v =
    run-IsTidy c es (step e thread) h (step-IsTidy c e thread b v)
