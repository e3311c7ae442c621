-- ===== src/Web/Requests/Settling.antt =====
-- What each answer uses up, and what it leaves: auth-interceptors.ts.
use skillhunt.Common.{
  ℕ, suc, ◌+◌, ◌-◌, ◌≡◌, ◌≤◌, ◌<◌, refl, sym, ap, ◌∙◌, Bool, true, false, Option, none, some, List,
  [], ◌∷◌, ◌++◌, arith, if◌then◌else◌, Bool-cases, Option-cases, inl, inr, bit, total, total-append,
  ◌==◌, nat_eq,
}
use skillhunt.Web.Token.{AuthUser}
use skillhunt.Web.Session.{set_session}
use skillhunt.Web.Requests.{
  Tab, Call, Waiter, replay, restore, Reply, resolved, rejected, send, settle, end_session, reject,
  may_refresh, with_bearer, refresh_once, resume, give_up, on_response, on_refresh, Answer,
  response, refreshed,
}

-- The answers that a call may still wait for: its own, the rotation, the start of the replay and that
-- of the replay.
abbrev pub effort : {T : Type 0} → Call T → ℕ
effort call = if call.retried then 1 else 4

abbrev pub patience : {T : Type 0} → Waiter T → ℕ
patience (replay call) = suc (effort call)
patience restore = 1

-- What the promise holds, measured by `f`.
abbrev pub promised : {T : Type 0} → ℕ → (Waiter T → ℕ) → Option (List (Waiter T)) → ℕ
promised rotation f none = 0
promised rotation f (some waiters) = rotation + total f waiters

unfoldable pub work : {T : Type 0} → Tab T → ℕ
work tab = total effort tab.in_flight + promised 1 patience tab.promise

-- How often the number `id` occurs: among the calls, those that await the rotation, and those that
-- ended.
abbrev pub of_call : {T : Type 0} → ℕ → Call T → ℕ
of_call id call = bit (call.id == id)

abbrev pub of_waiter : {T : Type 0} → ℕ → Waiter T → ℕ
of_waiter id (replay call) = of_call id call
of_waiter id restore = 0

abbrev pub of_end : ℕ → ℕ × Bool → ℕ
of_end id entry = bit (entry.0 == id)

unfoldable pub tally : {T : Type 0} → ℕ → Tab T → ℕ
tally id tab =
    total (of_call id) tab.in_flight
    + promised 0 (of_waiter id) tab.promise
    + total (of_end id) tab.settled

with_bearer-effort :
    {T : Type 0} (bearer : Option T) (call : Call T)
    → effort (with_bearer bearer call) ≡ effort call
with_bearer-effort none call = refl
with_bearer-effort (some token) call = refl

with_bearer-of_call :
    {T : Type 0} (id : ℕ) (bearer : Option T) (call : Call T)
    → of_call id (with_bearer bearer call) ≡ of_call id call
with_bearer-of_call id none call = refl
with_bearer-of_call id (some token) call = refl

work-send :
    {T : Type 0} (call : Call T) (tab : Tab T) → work (send call tab) ≡ work tab + effort call
unfolding work
work-send call tab = omega (
  arith,
  total-append effort tab.in_flight (with_bearer tab.store.access_token call ∷ []),
  with_bearer-effort tab.store.access_token call,
)

tally-send :
    {T : Type 0} (id : ℕ) (call : Call T) (tab : Tab T)
    → tally id (send call tab) ≡ tally id tab + of_call id call
unfolding tally
tally-send id call tab = omega (
  arith,
  total-append (of_call id) tab.in_flight (with_bearer tab.store.access_token call ∷ []),
  with_bearer-of_call id tab.store.access_token call,
)

work-resume :
    {T : Type 0} (waiters : List (Waiter T)) (tab : Tab T)
    → work (resume waiters tab) ≤ work tab + total patience waiters
unfolding work
work-resume [] tab = omega arith
work-resume (replay call ∷ waiters) tab =
    omega (arith, work-resume waiters (send call tab), work-send call tab)
work-resume (restore ∷ waiters) tab =
    omega (arith, work-resume waiters (record tab { ready = true }))

tally-resume :
    {T : Type 0} (id : ℕ) (waiters : List (Waiter T)) (tab : Tab T)
    → tally id (resume waiters tab) ≡ tally id tab + total (of_waiter id) waiters
unfolding tally
tally-resume id [] tab = omega arith
tally-resume id (replay call ∷ waiters) tab =
    omega (arith, tally-resume id waiters (send call tab), tally-send id call tab)
tally-resume id (restore ∷ waiters) tab =
    omega (arith, tally-resume id waiters (record tab { ready = true }))

work-give_up :
    {T : Type 0} (waiters : List (Waiter T)) (tab : Tab T) → work (give_up waiters tab) ≡ work tab
unfolding work
work-give_up [] tab = refl
work-give_up (replay call ∷ waiters) tab =
    work-give_up waiters (settle call.id false (end_session tab))
work-give_up (restore ∷ waiters) tab =
    work-give_up waiters (record (end_session tab) { ready = true })

tally-give_up :
    {T : Type 0} (id : ℕ) (waiters : List (Waiter T)) (tab : Tab T)
    → tally id (give_up waiters tab) ≡ tally id tab + total (of_waiter id) waiters
unfolding tally
tally-give_up id [] tab = omega arith
tally-give_up id (replay call ∷ waiters) tab =
    omega (arith, tally-give_up id waiters (settle call.id false (end_session tab)))
tally-give_up id (restore ∷ waiters) tab =
    omega (arith, tally-give_up id waiters (record (end_session tab) { ready = true }))

work-refresh_once :
    {T : Type 0} (waiter : Waiter T) (tab : Tab T)
    → work (refresh_once waiter tab) ≤ work tab + 1 + patience waiter
unfolding work refresh_once
work-refresh_once waiter tab = elim (Option-cases tab.promise) [
  | inl e ↦ simp e (omega arith)
  | inr (ws, e) ↦ simp e (omega (arith, total-append patience ws (waiter ∷ [])))
]

tally-refresh_once :
    {T : Type 0} (id : ℕ) (waiter : Waiter T) (tab : Tab T)
    → tally id (refresh_once waiter tab) ≡ tally id tab + of_waiter id waiter
unfolding tally refresh_once
tally-refresh_once id waiter tab = elim (Option-cases tab.promise) [
  | inl e ↦ simp e (omega arith)
  | inr (ws, e) ↦ simp e (omega (arith, total-append (of_waiter id) ws (waiter ∷ [])))
]

-- A call that may be replayed has not been.
may_refresh-first :
    {T : Type 0} (status : Option ℕ) (call : Call T) (tab : Tab T)
    → may_refresh status call tab ≡ true
    → effort call ≡ 4
may_refresh-first none call tab h = cc
may_refresh-first (some status) call tab h = ground arith

work-settle :
    {T : Type 0} (call : Call T) (success : Bool) (tab : Tab T)
    → work (settle call.id success tab) < work tab + effort call
unfolding work
work-settle call success tab = ground arith

tally-settle :
    {T : Type 0} (id : ℕ) (call : Call T) (success : Bool) (tab : Tab T)
    → tally id (settle call.id success tab) ≡ tally id tab + of_call id call
unfolding tally
tally-settle id call success tab = omega arith

-- Ending the session moves no call.
work-reject :
    {T : Type 0} (call : Call T) (tab : Tab T) → work (reject call tab) < work tab + effort call
unfolding work
work-reject call tab = elim (Bool-cases call.retried) [
  | inl e ↦ simp e (omega arith)
  | inr e ↦ simp e (omega arith)
]

tally-reject :
    {T : Type 0} (id : ℕ) (call : Call T) (tab : Tab T)
    → tally id (reject call tab) ≡ tally id tab + of_call id call
unfolding tally
tally-reject id call tab = elim (Bool-cases call.retried) [
  | inl e ↦ simp e (omega arith)
  | inr e ↦ simp e (omega arith)
]

work-on_response :
    {T : Type 0} (call : Call T) (reply : Reply T) (tab : Tab T)
    → work (on_response call reply tab) < work tab + effort call
unfolding on_response
work-on_response call (resolved token) tab = work-settle call true tab
work-on_response call (rejected status) tab = elim (Bool-cases (may_refresh status call tab)) [
  | inl e ↦ simp e (
      omega (
        arith,
        work-refresh_once (replay (record call { retried = true })) tab,
        may_refresh-first status call tab e,
      ))
  | inr e ↦ simp e (work-reject call tab)
]

tally-on_response :
    {T : Type 0} (id : ℕ) (call : Call T) (reply : Reply T) (tab : Tab T)
    → tally id (on_response call reply tab) ≡ tally id tab + of_call id call
unfolding on_response
tally-on_response id call (resolved token) tab = tally-settle id call true tab
tally-on_response id call (rejected status) tab = elim (Bool-cases (may_refresh status call tab)) [
  | inl e ↦ simp e (tally-refresh_once id (replay (record call { retried = true })) tab)
  | inr e ↦ simp e (tally-reject id call tab)
]

module _ {T : Type 0} (decode : T → Option AuthUser) where
  -- A call that leaves the list.
  work-taken :
      (before after : List (Call T)) (call : Call T) (tab : Tab T)
      → tab.in_flight ≡ before ++ call ∷ after
      → work tab ≡ work (record tab { in_flight = before ++ after }) + effort call
  unfolding work
  work-taken before after call tab e = omega (
    arith,
    ap (total effort) e,
    total-append effort before (call ∷ after),
    total-append effort before after,
  )

  tally-taken :
      (id : ℕ) (before after : List (Call T)) (call : Call T) (tab : Tab T)
      → tab.in_flight ≡ before ++ call ∷ after
      → tally id tab ≡ tally id (record tab { in_flight = before ++ after }) + of_call id call
  unfolding tally
  tally-taken id before after call tab e = omega (
    arith,
    ap (total (of_call id)) e,
    total-append (of_call id) before (call ∷ after),
    total-append (of_call id) before after,
  )

  work-on_refresh :
      (waiters : List (Waiter T)) (reply : Reply T) (tab : Tab T)
      → tab.promise ≡ some waiters
      → work (on_refresh decode waiters reply tab) < work tab
  unfolding work on_refresh
  work-on_refresh waiters (resolved token) tab e = omega (
    arith,
    ap (promised 1 patience) e,
    work-resume waiters (record tab {
      store = set_session decode token tab.store;
      promise = none;
      refreshes = tab.refreshes - 1;
    }),
  )
  work-on_refresh waiters (rejected status) tab e = omega (
    arith,
    ap (promised 1 patience) e,
    work-give_up waiters (record tab { promise = none; refreshes = tab.refreshes - 1 }),
  )

  tally-on_refresh :
      (id : ℕ) (waiters : List (Waiter T)) (reply : Reply T) (tab : Tab T)
      → tab.promise ≡ some waiters
      → tally id (on_refresh decode waiters reply tab) ≡ tally id tab
  unfolding tally on_refresh
  tally-on_refresh id waiters (resolved token) tab e = omega (
    arith,
    ap (promised 0 (of_waiter id)) e,
    tally-resume id waiters (record tab {
      store = set_session decode token tab.store;
      promise = none;
      refreshes = tab.refreshes - 1;
    }),
  )
  tally-on_refresh id waiters (rejected status) tab e = omega (
    arith,
    ap (promised 0 (of_waiter id)) e,
    tally-give_up id waiters (record tab { promise = none; refreshes = tab.refreshes - 1 }),
  )

  pub Answer-work : {t u : Tab T} → Answer decode t u → work u < work t
  Answer-work {t} (response before after call reply e) = omega (
    arith,
    work-taken before after call t e,
    work-on_response call reply (record t { in_flight = before ++ after }),
  )
  Answer-work {t} (refreshed waiters reply e) = work-on_refresh waiters reply t e

  pub Answer-tally : {t u : Tab T} (id : ℕ) → Answer decode t u → tally id u ≡ tally id t
  Answer-tally {t} id (response before after call reply e) =
      tally-on_response id call reply (record t { in_flight = before ++ after })
      ∙ sym (tally-taken id before after call t e)
  Answer-tally {t} id (refreshed waiters reply e) = tally-on_refresh id waiters reply t e
