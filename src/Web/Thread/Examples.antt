-- ===== src/Web/Thread/Examples.antt =====
-- A thread of useChatThread.ts: a message arrives, and the history is loaded with it.
use skillhunt.Common.{◌≡◌, refl, true, some, List, [], ◌∷◌, All, Option}
use skillhunt.Enums.{recruiter}
use skillhunt.Web.Token.{AuthUser}
use skillhunt.Web.Thread.{ChatMessage, opened, visit, messages, on_message, is_in, conversation_of}
use skillhunt.Web.Thread.Merging.{AreDistinct}
use skillhunt.Web.Thread.Tidy.{ThreadEvent, arrives, loads, run}
use skillhunt.Web.Thread.Showing.{IsAmong, run-shows-once}

abbrev me : Option AuthUser
me = some (record { user_id = "rec"; email = "rec@example.org"; role = recruiter })

abbrev hello : ChatMessage
hello = record {
  id = "m1";
  conversation_id = "free:rec";
  sender_id = "free";
  body = "hello";
  created_at = "2026-01-01";
}

abbrev events : List ThreadEvent
events = arrives hello ∷ loads (hello ∷ []) ∷ arrives (record hello { id = "m2" }) ∷ []

shown_once : messages (run events (opened me "free")) ≡ hello ∷ record hello { id = "m2" } ∷ []
unfolding messages on_message
shown_once = refl

-- The second message is still shown when the route names another freelance.
left_over :
    messages (visit "other" (run events (opened me "free")))
    ≡ hello ∷ record hello { id = "m2" } ∷ []
unfolding messages on_message
left_over = refl

run-shows-once_example :
    AreDistinct (messages (run events (opened me "free")))
    × All
        (λ m. is_in (conversation_of me "free") m ≡ true)
        (messages (run events (opened me "free")))
    × All (IsAmong (conversation_of me "free") (messages (run events (opened me "free")))) events
run-shows-once_example = run-shows-once me "free" events (tt, (((tt, tt), (refl, tt)), (tt, tt)))
