-- ===== src/Web/Requests.antt =====
-- frontend-web/src/api/auth-interceptors.ts: the requests of a tab, the rotation that they share, and
-- their replay. Between two events JavaScript runs to its end, so an event is a function on the tab;
-- the server may answer the calls in flight in any order.
pub mod SingleFlight
pub mod Settling
pub mod Ending
pub mod Replay
mod Examples
use skillhunt.Common.{
  ℕ, ◌+◌, ◌-◌, ◌≡◌, String, Bool, true, false, not, ◌&&◌, Option, none, some, List, [], ◌∷◌, ◌++◌,
  ◌==◌, string_eq, nat_eq, if◌then◌else◌,
}
use skillhunt.Web.Token.{AuthUser}
use skillhunt.Web.Session.{SessionStore, set_session, clear, no_session}

abbrev pub refresh_endpoint : String
refresh_endpoint = "/api/v1/auth/refresh"

-- A request on its way, with its caller's number and the bearer that it carries.
pub record Call (T : Type 0) : Type 0 where
  pub id : ℕ
  pub url : String
  pub retried : Bool
  pub bearer : Option T

-- An answer: the access token of the body, which only a rotation reads, or an error with its status,
-- if there was a response.
pub data Reply (T : Type 0) : Type 0 where
  resolved : T → Reply T
  rejected : Option ℕ → Reply T

-- Who awaits the shared promise: a call to replay, or the start of the application.
pub data Waiter (T : Type 0) : Type 0 where
  replay : Call T → Waiter T
  restore : Waiter T

-- `promise` is `refreshPromise` with those who await it, and `refreshes` counts the rotations on their
-- way. `settled` has the number of each call that ended, and whether it succeeded.
pub record Tab (T : Type 0) : Type 0 where
  pub store : SessionStore T
  pub in_flight : List (Call T)
  pub promise : Option (List (Waiter T))
  pub refreshes : ℕ
  pub settled : List (ℕ × Bool)
  pub ready : Bool

abbrev pub opened : {T : Type 0} → Tab T
opened = record {
  store = no_session;
  in_flight = [];
  promise = none;
  refreshes = 0;
  settled = [];
  ready = false;
}

-- The interceptor of requests: it sets the header if there is a token.
abbrev pub with_bearer : {T : Type 0} → Option T → Call T → Call T
with_bearer none call = call
with_bearer (some token) call = record call { bearer = some token }

abbrev pub send : {T : Type 0} → Call T → Tab T → Tab T
send call tab = record tab {
  in_flight = tab.in_flight ++ with_bearer tab.store.access_token call ∷ [];
}

abbrev pub settle : {T : Type 0} → ℕ → Bool → Tab T → Tab T
settle id success tab = record tab { settled = (id, success) ∷ tab.settled }

abbrev pub end_session : {T : Type 0} → Tab T → Tab T
end_session tab = record tab { store = clear tab.store }

-- `refreshOnce()`, awaited by `waiter`: one rotation for all who ask while it is on its way.
abbrev pub await_refresh : {T : Type 0} → Option (List (Waiter T)) → Waiter T → Tab T → Tab T
await_refresh none waiter tab = record tab {
  promise = some (waiter ∷ []);
  refreshes = tab.refreshes + 1;
}
await_refresh (some waiters) waiter tab = record tab { promise = some (waiters ++ waiter ∷ []) }

unfoldable pub refresh_once : {T : Type 0} → Waiter T → Tab T → Tab T
refresh_once waiter tab = await_refresh tab.promise waiter tab

abbrev pub is_401 : Option ℕ → Bool
is_401 none = false
is_401 (some status) = status == 401

abbrev pub has_session : {T : Type 0} → Option T → Bool
has_session none = false
has_session (some token) = true

-- The negation of the test that rejects the error as it is.
abbrev pub may_refresh : {T : Type 0} → Option ℕ → Call T → Tab T → Bool
may_refresh status call tab =
    is_401 status
    && not call.retried
    && not (call.url == refresh_endpoint)
    && has_session tab.store.access_token

-- A rejection reaches the caller; that of a replay first passes the `catch` around it.
abbrev pub reject : {T : Type 0} → Call T → Tab T → Tab T
reject call tab = settle call.id false (if call.retried then end_session tab else tab)

-- The interceptor of responses, for a call that has left the list.
unfoldable pub on_response : {T : Type 0} → Call T → Reply T → Tab T → Tab T
unfolding refresh_once
on_response call (resolved token) tab = settle call.id true tab
on_response call (rejected status) tab =
    if may_refresh status call tab
    then refresh_once (replay (record call { retried = true })) tab
    else reject call tab

-- Those who awaited a rotation that succeeded go on, in order.
abbrev pub resume : {T : Type 0} → List (Waiter T) → Tab T → Tab T
resume [] tab = tab
resume (replay call ∷ waiters) tab = resume waiters (send call tab)
resume (restore ∷ waiters) tab = resume waiters (record tab { ready = true })

-- Each who awaited a rotation that failed ends the session.
abbrev pub give_up : {T : Type 0} → List (Waiter T) → Tab T → Tab T
give_up [] tab = tab
give_up (replay call ∷ waiters) tab = give_up waiters (settle call.id false (end_session tab))
give_up (restore ∷ waiters) tab = give_up waiters (record (end_session tab) { ready = true })

-- The end of a rotation that `waiters` await: `.then(…)`, then `.finally(…)`.
unfoldable pub on_refresh :
    {T : Type 0} → (T → Option AuthUser) → List (Waiter T) → Reply T → Tab T → Tab T
on_refresh decode waiters (resolved token) tab = resume waiters (record tab {
  store = set_session decode token tab.store;
  promise = none;
  refreshes = tab.refreshes - 1;
})
on_refresh decode waiters (rejected status) tab =
    give_up waiters (record tab { promise = none; refreshes = tab.refreshes - 1 })

-- A new request of the application.
abbrev pub request : {T : Type 0} → ℕ → String → Call T
request id url = record { id = id; url = url; retried = false; bearer = none }

-- What the server answers.
pub data Answer {T : Type 0} (decode : T → Option AuthUser) (tab : Tab T) : Tab T → Type 0 where
  response :
      (before after : List (Call T)) (call : Call T) (reply : Reply T)
      → tab.in_flight ≡ before ++ call ∷ after
      → Answer decode tab (on_response call reply (record tab { in_flight = before ++ after }))
  refreshed :
      (waiters : List (Waiter T)) (reply : Reply T)
      → tab.promise ≡ some waiters
      → Answer decode tab (on_refresh decode waiters reply tab)

-- What the application does: a request, the restoration at its start (AuthProvider.tsx), a login and
-- a logout.
pub data Act {T : Type 0} (decode : T → Option AuthUser) (tab : Tab T) : Tab T → Type 0 where
  requested : (id : ℕ) (url : String) → Act decode tab (send (request id url) tab)
  restoring : Act decode tab (refresh_once restore tab)
  logged_in :
      (token : T) → Act decode tab (record tab { store = set_session decode token tab.store })
  logged_out : Act decode tab (end_session tab)

-- The tabs that any interleaving of the two leads to.
pub data Reaches {T : Type 0} (decode : T → Option AuthUser) (tab : Tab T) : Tab T → Type 0 where
  start : Reaches decode tab tab
  acts : {t u : Tab T} → Reaches decode tab t → Act decode t u → Reaches decode tab u
  answers : {t u : Tab T} → Reaches decode tab t → Answer decode t u → Reaches decode tab u
