-- ===== src/Web/Thread/Showing.antt =====
-- What arrives on a thread of useChatThread.ts is shown, once.
use skillhunt.Common.{
  ◌≡◌, refl, sym, ap, ◌∙◌, subst, String, true, false, Option, List, [], ◌∷◌, map, any, includes,
  ◌==◌, string_eq, eq_iff, Bool-cases, inl, inr, All, All-append,
}
use skillhunt.Common.Membership.{All-filter, All-imp}
use skillhunt.Web.Token.{AuthUser}
use skillhunt.Web.Thread.{
  ChatMessage, Thread, conversation_of, is_in, on_message, opened, visit, loaded, fresh_of,
  messages, or_empty,
}
use skillhunt.Web.Thread.Merging.{AreDistinct, is_shown, messages-AreDistinct}
use skillhunt.Web.Thread.Tidy.{
  ThreadEvent, arrives, loads, step, run, conversation, IsSound, IsTidy, is_shown-append,
  append_new-grows, append_new-shows, on_message-IsTidy, step-IsTidy, run-IsTidy,
}

-- A message of the conversation that arrived is among those.
abbrev pub IsAmong : Option String → List ChatMessage → ThreadEvent → Type 0
IsAmong c shown (arrives message) = is_in c message ≡ true → is_shown message shown ≡ true
IsAmong c shown (loads history) = Unit

step-grows :
    (m : ChatMessage) (e : ThreadEvent) (thread : Thread)
    → is_shown m thread.live ≡ true
    → is_shown m (step e thread).live ≡ true
unfolding on_message
step-grows m (loads history) thread h = h
step-grows m (arrives n) thread h = elim (Bool-cases (is_in (conversation thread) n)) [
  | inl e ↦ simp e (append_new-grows m n thread.live h)
  | inr e ↦ simp e h
]

run-grows :
    (m : ChatMessage) (es : List ThreadEvent) (thread : Thread)
    → is_shown m thread.live ≡ true
    → is_shown m (run es thread).live ≡ true
run-grows m [] thread h = h
run-grows m (e ∷ es) thread h = run-grows m es (step e thread) (step-grows m e thread h)

step-shows :
    (c : Option String) (m : ChatMessage) (thread : Thread)
    → conversation thread ≡ c
    → is_in c m ≡ true
    → is_shown m (on_message m thread).live ≡ true
unfolding on_message
step-shows c m thread same h =
    simp (subst (λ d. is_in d m ≡ true) (sym same) h) (append_new-shows m thread.live)

run-shows :
    (c : Option String) (es : List ThreadEvent) (thread : Thread)
    → All (IsSound c) es
    → IsTidy c thread
    → All (IsAmong c (run es thread).live) es
run-shows c [] thread h v = tt
run-shows c (arrives m ∷ es) thread (b, h) v = (
  λ own. run-grows m es (on_message m thread) (step-shows c m thread v.same own),
  run-shows c es (on_message m thread) h (on_message-IsTidy c m thread v),
)
run-shows c (loads history ∷ es) thread (b, h) v =
    (tt, run-shows c es (loaded history thread) h (step-IsTidy c (loads history) thread b v))

includes-map :
    (a : String) (history : List ChatMessage)
    → includes (map (λ h. h.id) history) a ≡ any (λ h. h.id == a) history
includes-map a [] = refl
includes-map a (h ∷ hs) = simp (includes-map a hs) refl

fresh_of-shows :
    (m : ChatMessage) (history live : List ChatMessage)
    → is_shown m live ≡ true
    → is_shown m history ≡ false
    → is_shown m (fresh_of history live) ≡ true
fresh_of-shows m history [] h k = cc
fresh_of-shows m history (x ∷ xs) h k = elim (Bool-cases (x.id == m.id)) [
  | inl e ↦
      let same : x.id ≡ m.id = (eq_iff x.id m.id).0 e in
      simp (ap (includes (map (λ h. h.id) history)) same ∙ includes-map m.id history ∙ k, e) refl
  | inr e ↦
      let rest = fresh_of-shows m history xs (simp e at h) k in
      elim (Bool-cases (includes (map (λ h. h.id) history) x.id)) [
        | inl f ↦ simp f rest
        | inr f ↦ simp (f, e) rest
      ]
]

messages-shows :
    (m : ChatMessage) (thread : Thread)
    → is_shown m thread.live ≡ true
    → is_shown m (messages thread) ≡ true
unfolding messages
messages-shows m thread h =
    is_shown-append m (or_empty thread.history) (fresh_of (or_empty thread.history) thread.live)
    ∙ elim (Bool-cases (is_shown m (or_empty thread.history))) [
      | inl e ↦ simp e refl
      | inr e ↦ simp e (fresh_of-shows m (or_empty thread.history) thread.live h e)
    ]

messages-own :
    (c : Option String) (thread : Thread)
    → IsTidy c thread
    → All (λ m. is_in c m ≡ true) (messages thread)
unfolding messages
messages-own c thread v =
    All-append _ (or_empty thread.history) (fresh_of (or_empty thread.history) thread.live)
      v.history_own (All-filter _ _ thread.live v.own)

All-IsAmong :
    (c : Option String) (thread : Thread) (es : List ThreadEvent)
    → All (IsAmong c thread.live) es
    → All (IsAmong c (messages thread)) es
All-IsAmong c thread es h = All-imp _ _ (λ e k. among e k) es h
  where
    among : (e : ThreadEvent) → IsAmong c thread.live e → IsAmong c (messages thread) e
    among (arrives m) k = λ own. messages-shows m thread (k own)
    among (loads history) k = tt

-- Whatever arrives and however often the history is loaded, on a thread that is opened for one peer: no
-- message is shown twice, only messages of the conversation are, and each of them that arrived is
-- shown, if the histories hold each message once and no other conversation's.
pub run-shows-once :
    (me : Option AuthUser) (peer_id : String) (es : List ThreadEvent)
    → All (IsSound (conversation_of me peer_id)) es
    → let thread = run es (opened me peer_id) in
      AreDistinct (messages thread)
      × All (λ m. is_in (conversation_of me peer_id) m ≡ true) (messages thread)
      × All (IsAmong (conversation_of me peer_id) (messages thread)) es
run-shows-once me peer_id es h =
    let c = conversation_of me peer_id in
    let tidy : IsTidy c (opened me peer_id) = record {
      same = refl;
      once = tt;
      own = tt;
      history_once = tt;
      history_own = tt;
    } in
    let v = run-IsTidy c es (opened me peer_id) h tidy in
    let thread = run es (opened me peer_id) in
    (
      messages-AreDistinct thread v.history_once v.once,
      messages-own c thread v,
      All-IsAmong c thread es (run-shows c es (opened me peer_id) h tidy),
    )

-- What arrived for one peer stays among the live messages when the route names another.
pub visit-live :
    (thread : Thread) (m : ChatMessage) (peer_id : String)
    → is_shown m thread.live ≡ true
    → is_shown m (messages (visit peer_id thread)) ≡ true
visit-live thread m peer_id h = messages-shows m (visit peer_id thread) h
