-- ===== src/Web/Thread/Merging.antt =====
-- What the thread of useChatThread.ts shows.
use skillhunt.Common.{
  ◌≡◌, sym, String, Bool, true, false, not, List, [], ◌∷◌, ◌++◌, map, filter, any, includes, ◌==◌,
  string_eq, eq_iff, arith, Bool-cases, inl, inr, All, All-append,
}
use skillhunt.Common.Membership.{All-filter, All-filter_meets, All-imp}
use skillhunt.Web.Thread.{ChatMessage, Thread, append_new, fresh_of, messages, or_empty}

-- No message occurs twice.
abbrev pub AreDistinct : List ChatMessage → Type 0
AreDistinct [] = Unit
AreDistinct (m ∷ ms) = All (λ n. (n.id == m.id) ≡ false) ms × AreDistinct ms

-- What is shown of a message.
abbrev pub is_shown : ChatMessage → List ChatMessage → Bool
is_shown message shown = any (λ m. m.id == message.id) shown

absent :
    (m : ChatMessage) (ms : List ChatMessage)
    → is_shown m ms ≡ false
    → All (λ n. (n.id == m.id) ≡ false) ms
absent m [] h = tt
absent m (n ∷ ms) h = (ground arith, absent m ms (ground arith))

AreDistinct-append :
    (xs ys : List ChatMessage)
    → AreDistinct xs
    → AreDistinct ys
    → All (λ y. All (λ x. (y.id == x.id) ≡ false) xs) ys
    → AreDistinct (xs ++ ys)
AreDistinct-append [] ys h k m = k
AreDistinct-append (x ∷ xs) ys (b, h) k m = (
  All-append _ xs ys b (All-imp _ _ (λ y r. r.0) ys m),
  AreDistinct-append xs ys h k (All-imp _ _ (λ y r. r.1) ys m),
)

flip : (a b : String) → (a == b) ≡ false → (b == a) ≡ false
flip a b h = ground (arith, eq_iff a b, eq_iff b a, λ (e : b ≡ a). sym e)

pub append_new-AreDistinct :
    (m : ChatMessage) (live : List ChatMessage) → AreDistinct live → AreDistinct (append_new m live)
append_new-AreDistinct m live h = elim (Bool-cases (is_shown m live)) [
  | inl e ↦ simp e h
  | inr e ↦ simp e (
      AreDistinct-append live (m ∷ []) h (tt, tt)
        (All-imp _ _ (λ n r. flip n.id m.id r) live (absent m live e), tt))
]

AreDistinct-filter :
    (p : ChatMessage → Bool) (ms : List ChatMessage) → AreDistinct ms → AreDistinct (filter p ms)
AreDistinct-filter p [] h = tt
AreDistinct-filter p (m ∷ ms) (b, h) = elim (Bool-cases (p m)) [
  | inl e ↦ simp e (All-filter _ p ms b, AreDistinct-filter p ms h)
  | inr e ↦ simp e (AreDistinct-filter p ms h)
]

unknown :
    (m : ChatMessage) (history : List ChatMessage)
    → not (includes (map (λ h. h.id) history) m.id) ≡ true
    → All (λ h. (m.id == h.id) ≡ false) history
unknown m [] k = tt
unknown m (h ∷ hs) k = (flip h.id m.id (ground arith), unknown m hs (ground arith))

pub messages-AreDistinct :
    (thread : Thread)
    → AreDistinct (or_empty thread.history)
    → AreDistinct thread.live
    → AreDistinct (messages thread)
unfolding messages
messages-AreDistinct thread h k =
    AreDistinct-append (or_empty thread.history) (fresh_of (or_empty thread.history) thread.live) h
      (AreDistinct-filter _ thread.live k)
      (All-imp _ _ (λ m r. unknown m (or_empty thread.history) r)
        (fresh_of (or_empty thread.history) thread.live) (All-filter_meets _ thread.live))
