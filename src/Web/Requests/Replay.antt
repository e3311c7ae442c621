-- ===== src/Web/Requests/Replay.antt =====
-- A call that is refused, the rotation, and the replay: auth-interceptors.ts.
use skillhunt.Common.{
  ℕ, ◌≡◌, refl, ap, ◌∙◌, Bool, true, false, Option, none, some, [], ◌∷◌, ◌++◌, ◌==◌, nat_eq,
  string_eq, arith,
}
use skillhunt.Web.Token.{AuthUser}
use skillhunt.Web.Session.{SessionStore, set_session, no_session}
use skillhunt.Web.Requests.{
  Tab, Call, replay, Reply, resolved, rejected, refresh_endpoint, on_response, on_refresh,
  refresh_once, may_refresh, settle, end_session,
}

-- How the caller sees a reply, and what becomes of a session after that of a replay.
abbrev pub succeeded : {T : Type 0} → Reply T → Bool
succeeded (resolved token) = true
succeeded (rejected status) = false

abbrev pub kept : {T : Type 0} → Reply T → SessionStore T → SessionStore T
kept (resolved token) store = store
kept (rejected status) store = no_session

-- The call marked, and with the token that the replay carries.
abbrev pub marked : {T : Type 0} → Call T → Call T
marked call = record call { retried = true }

abbrev pub replayed : {T : Type 0} → T → Call T → Call T
replayed token call = record (marked call) { bearer = some token }

-- A replay is not replayed.
replayed-final :
    {T : Type 0} (status : Option ℕ) (token : T) (call : Call T) (tab : Tab T)
    → may_refresh status (replayed token call) tab ≡ false
replayed-final none token call tab = refl
replayed-final (some status) token call tab = ground arith

replay-fails :
    {T : Type 0} (status : Option ℕ) (token : T) (call : Call T) (tab : Tab T)
    → on_response (replayed token call) (rejected status) tab
      ≡ settle call.id false (end_session tab)
unfolding on_response
replay-fails none token call tab = refl
replay-fails (some status) token call tab = simp (replayed-final (some status) token call tab) refl

module _ {T : Type 0} (decode : T → Option AuthUser) where
  -- The three answers in turn: a 401 for `call`, a rotation that gives `token`, and `reply` for the
  -- replay, when `before` was in flight.
  abbrev pub after_401 : Call T → Tab T → Tab T
  after_401 call tab = on_response call (rejected (some 401)) tab

  abbrev pub after_rotation : T → Call T → Tab T → Tab T
  after_rotation token call tab =
      on_refresh decode (replay (marked call) ∷ []) (resolved token) (after_401 call tab)

  abbrev pub after_replay : Reply T → T → Call T → Tab T → Tab T
  after_replay reply token call tab =
      on_response (replayed token call) reply
        (record (after_rotation token call tab) { in_flight = tab.in_flight })

  -- The call awaits a rotation and nothing has ended; the rotation sends it again with the new token;
  -- the answer to that is the caller's, and a failed one ends the session.
  pub record IsReplayed (token : T) (call : Call T) (reply : Reply T) (tab : Tab T) : Type 0 where
    pub awaited : (after_401 call tab).promise ≡ some (replay (marked call) ∷ [])
    pub pending : (after_401 call tab).settled ≡ tab.settled
    pub sent : (after_rotation token call tab).in_flight ≡ tab.in_flight ++ replayed token call ∷ []
    pub settled :
        (after_replay reply token call tab).settled ≡ (call.id, succeeded reply) ∷ tab.settled
    pub session :
        (after_replay reply token call tab).store ≡ kept reply (set_session decode token tab.store)
    pub quiet : (after_replay reply token call tab).promise ≡ none

  -- In a tab with a session and no rotation on its way, a call other than the rotation that is refused
  -- with a 401 for the first time awaits a rotation; when this succeeds, the call is sent once more
  -- with the new token, and its second answer is the caller's. If this is an error, of whatever status
  -- or none, the session that the rotation just renewed is ended.
  pub on_response-IsReplayed :
      (token old : T) (call : Call T) (reply : Reply T) (tab : Tab T)
      → call.retried ≡ false
      → (call.url == refresh_endpoint) ≡ false
      → tab.store.access_token ≡ some old
      → tab.promise ≡ none
      → IsReplayed token call reply tab
  unfolding on_response on_refresh refresh_once
  on_response-IsReplayed token old call (resolved body) tab first other active free = record {
    awaited = simp (first, other, active, free) refl;
    pending = simp (first, other, active, free) refl;
    sent = simp (first, other, active, free) refl;
    settled = simp (first, other, active, free) refl;
    session = refl;
    quiet = refl;
  }
  on_response-IsReplayed token old call (rejected status) tab first other active free =
      let again =
        replay-fails status token call
          (record (after_rotation token call tab) { in_flight = tab.in_flight }) in
      record {
        awaited = simp (first, other, active, free) refl;
        pending = simp (first, other, active, free) refl;
        sent = simp (first, other, active, free) refl;
        settled = ap (λ t. t.settled) again ∙ simp (first, other, active, free) refl;
        session = ap (λ t. t.store) again;
        quiet = ap (λ t. t.promise) again;
      }
