-- ===== src/Web/Requests/SingleFlight.antt =====
-- One rotation at a time: auth-interceptors.ts.
use skillhunt.Common.{
  ℕ, ◌-◌, ◌≡◌, refl, Bool, true, false, Option, none, some, List, [], ◌∷◌, ◌++◌, arith,
  if◌then◌else◌, Bool-cases, Option-cases, inl, inr, ap,
}
use skillhunt.Web.Token.{AuthUser}
use skillhunt.Web.Session.{set_session}
use skillhunt.Web.Requests.{
  Tab, Call, Waiter, replay, restore, Reply, resolved, rejected, send, settle, end_session,
  may_refresh, refresh_once, resume, give_up, on_response, on_refresh, Answer, response, refreshed,
  Act, requested, restoring, logged_in, logged_out, Reaches, start, acts, answers,
}

-- How many rotations a promise stands for.
abbrev pub flights : {T : Type 0} → Option (List (Waiter T)) → ℕ
flights none = 0
flights (some waiters) = 1

module _ {T : Type 0} (decode : T → Option AuthUser) where
  -- There is one rotation on its way if the promise is there, and none if it is not.
  pub record IsSingle (tab : Tab T) : Type 0 where
    pub counted : tab.refreshes ≡ flights tab.promise

  resume-promise :
      (waiters : List (Waiter T)) (tab : Tab T)
      → ((resume waiters tab).promise ≡ tab.promise)
        × ((resume waiters tab).refreshes ≡ tab.refreshes)
  resume-promise [] tab = (refl, refl)
  resume-promise (replay call ∷ waiters) tab = resume-promise waiters (send call tab)
  resume-promise (restore ∷ waiters) tab = resume-promise waiters (record tab { ready = true })

  give_up-promise :
      (waiters : List (Waiter T)) (tab : Tab T)
      → ((give_up waiters tab).promise ≡ tab.promise)
        × ((give_up waiters tab).refreshes ≡ tab.refreshes)
  give_up-promise [] tab = (refl, refl)
  give_up-promise (replay call ∷ waiters) tab =
      give_up-promise waiters (settle call.id false (end_session tab))
  give_up-promise (restore ∷ waiters) tab =
      give_up-promise waiters (record (end_session tab) { ready = true })

  refresh_once-IsSingle :
      (waiter : Waiter T) (tab : Tab T) → IsSingle tab → IsSingle (refresh_once waiter tab)
  unfolding refresh_once
  refresh_once-IsSingle waiter tab v = elim (Option-cases tab.promise) [
    | inl e ↦ simp e (record { counted = omega (arith, v.counted, ap flights e) })
    | inr (ws, e) ↦ simp e (record { counted = omega (arith, v.counted, ap flights e) })
  ]

  on_response-IsSingle :
      (call : Call T) (reply : Reply T) (tab : Tab T)
      → IsSingle tab
      → IsSingle (on_response call reply tab)
  unfolding on_response
  on_response-IsSingle call (resolved token) tab v = record { counted = v.counted }
  on_response-IsSingle call (rejected status) tab v =
      elim (Bool-cases (may_refresh status call tab)) [
        | inl yes_ ↦
            simp yes_ (refresh_once-IsSingle (replay (record call { retried = true })) tab v)
        | inr no_ ↦ simp no_ (rejected-IsSingle call.retried)
      ]
    where
      rejected-IsSingle :
          (b : Bool) → IsSingle (settle call.id false (if b then end_session tab else tab))
      rejected-IsSingle true = record { counted = v.counted }
      rejected-IsSingle false = record { counted = v.counted }

  on_refresh-IsSingle :
      (waiters : List (Waiter T)) (reply : Reply T) (tab : Tab T)
      → tab.promise ≡ some waiters
      → IsSingle tab
      → IsSingle (on_refresh decode waiters reply tab)
  unfolding on_refresh
  on_refresh-IsSingle waiters (resolved token) tab e v =
      let (p, r) = resume-promise waiters (record tab {
        store = set_session decode token tab.store;
        promise = none;
        refreshes = tab.refreshes - 1;
      }) in
      record { counted = omega (arith, v.counted, ap flights e, r, ap flights p) }
  on_refresh-IsSingle waiters (rejected status) tab e v =
      let (p, r) =
        give_up-promise waiters (record tab { promise = none; refreshes = tab.refreshes - 1 }) in
      record { counted = omega (arith, v.counted, ap flights e, r, ap flights p) }

  Answer-IsSingle : {t u : Tab T} → Answer decode t u → IsSingle t → IsSingle u
  Answer-IsSingle {t} (response before after call reply e) v =
      on_response-IsSingle call reply (record t { in_flight = before ++ after })
        (record { counted = v.counted })
  Answer-IsSingle {t} (refreshed waiters reply e) v = on_refresh-IsSingle waiters reply t e v

  Act-IsSingle : {t u : Tab T} → Act decode t u → IsSingle t → IsSingle u
  Act-IsSingle (requested id url) v = record { counted = v.counted }
  Act-IsSingle {t} restoring v = refresh_once-IsSingle restore t v
  Act-IsSingle (logged_in token) v = record { counted = v.counted }
  Act-IsSingle logged_out v = record { counted = v.counted }

  -- However requests, answers, logins, logouts and the restoration at the start interleave, at most
  -- one rotation is on its way: exactly one while somebody awaits it.
  pub Reaches-IsSingle : {t u : Tab T} → Reaches decode t u → IsSingle t → IsSingle u
  Reaches-IsSingle start v = v
  Reaches-IsSingle (acts r a) v = Act-IsSingle a (Reaches-IsSingle r v)
  Reaches-IsSingle (answers r a) v = Answer-IsSingle a (Reaches-IsSingle r v)
