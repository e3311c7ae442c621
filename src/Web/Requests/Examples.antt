-- ===== src/Web/Requests/Examples.antt =====
-- Concrete runs of auth-interceptors.ts: two requests with an expired token.
use skillhunt.Common.{ℕ, arith, total, ◌≤◌, ◌≡◌, refl, String, Option, none, some, [], ◌∷◌}
use skillhunt.Web.Token.{AuthUser}
use skillhunt.Web.Session.{no_session}
use skillhunt.Web.Requests.{
  on_refresh, Tab, Call, Reply, rejected, opened, request, send, on_response, refresh_once,
  response, requested, Reaches, start, acts, answers,
}
use skillhunt.Web.Requests.SingleFlight.{IsSingle, Reaches-IsSingle}
use skillhunt.Web.Requests.Settling.{work, tally, of_end}
use skillhunt.Web.Requests.Ending.{
  Answering, rest, and_then, Answering-IsBounded, drain, drain_settles,
}
use skillhunt.Web.Requests.Replay.{IsReplayed, after_replay, on_response-IsReplayed}

abbrev decode : String → Option AuthUser
decode token = none

abbrev signed_in : Tab String
signed_in = record opened { store = record { access_token = some "old"; current_user = none } }

-- Two calls with the old token.
abbrev calls : Tab String
calls = send (request 2 "/gear/me") (send (request 1 "/certifications/me") signed_in)

abbrev with_old : ℕ → String → Call String
with_old id url = record (request id url) { bearer = some "old" }

abbrev expired : Reply String
expired = rejected (some 401)

abbrev one_refused : Tab String
one_refused =
    on_response (with_old 1 "/certifications/me") expired
      (record calls { in_flight = with_old 2 "/gear/me" ∷ [] })

abbrev both_refused : Tab String
both_refused = on_response (with_old 2 "/gear/me") expired (record one_refused { in_flight = [] })

refused_twice : Answering decode calls 2 both_refused
unfolding on_response refresh_once
refused_twice =
    and_then
      (and_then rest
        (response [] (with_old 2 "/gear/me" ∷ []) (with_old 1 "/certifications/me") expired refl))
      (response [] [] (with_old 2 "/gear/me") expired refl)

reach : Reaches decode signed_in both_refused
unfolding on_response refresh_once
reach =
    answers
      (answers (acts (acts start (requested 1 "/certifications/me")) (requested 2 "/gear/me"))
        (response [] (with_old 2 "/gear/me" ∷ []) (with_old 1 "/certifications/me") expired refl))
      (response [] [] (with_old 2 "/gear/me") expired refl)

-- Both calls await the one rotation.
one_rotation : both_refused.refreshes ≡ 1
unfolding on_response refresh_once
one_rotation = refl

Reaches-IsSingle_example : IsSingle decode both_refused
Reaches-IsSingle_example = Reaches-IsSingle decode reach (record { counted = refl })

Answering-IsBounded_example : 2 ≤ work calls
Answering-IsBounded_example = (Answering-IsBounded decode refused_twice).0

-- Every answer is a 401: both calls end, with errors.
drain_settles_example : total (of_end 2) (drain decode (λ n. expired) 8 calls).settled ≡ 1
unfolding work tally
drain_settles_example = (drain_settles decode (λ n. expired) 8 calls (omega arith)).1 2

-- A replay that meets an error of the server, after a rotation that succeeded, ends the session.
on_response-IsReplayed_example :
    IsReplayed decode "new" (with_old 1 "/certifications/me") (rejected (some 500)) signed_in
on_response-IsReplayed_example =
    on_response-IsReplayed decode "new" "old" (with_old 1 "/certifications/me")
      (rejected (some 500)) signed_in refl refl refl refl

-- A wrong code of the second factor is refused with a 401 as well: it is sent twice, and the session ends.
wrong_code :
    (after_replay decode expired "new" (with_old 3 "/api/v1/auth/2fa/disable") signed_in).store
    ≡ no_session
unfolding on_response on_refresh refresh_once
wrong_code = refl
