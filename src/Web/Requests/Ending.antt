-- ===== src/Web/Requests/Ending.antt =====
-- That every request of a tab ends, once, in whatever order the server answers: auth-interceptors.ts.
use skillhunt.Common.{
  ℕ, zero, suc, ◌+◌, ◌≡◌, ◌≤◌, ◌⊎◌, refl, ◌∙◌, sym, ap, subst, Option, none, some, List, [], ◌∷◌,
  arith, inl, inr, total,
}
use skillhunt.Web.Token.{AuthUser}
use skillhunt.Web.Requests.{
  Tab, Call, Waiter, Reply, rejected, on_response, on_refresh, Answer, response, refreshed,
}
use skillhunt.Web.Requests.Settling.{
  work, tally, of_call, of_waiter, of_end, promised, Answer-work, Answer-tally,
}

module _ {T : Type 0} (decode : T → Option AuthUser) where
  -- `n` answers, in any order that the server likes.
  pub data Answering (tab : Tab T) : ℕ → Tab T → Type 0 where
    rest : Answering tab 0 tab
    and_then :
        {n : ℕ} {t u : Tab T} → Answering tab n t → Answer decode t u → Answering tab (suc n) u

  -- Nothing is on its way.
  pub record IsQuiet (tab : Tab T) : Type 0 where
    pub answered : tab.in_flight ≡ []
    pub rotated : tab.promise ≡ none

  -- One schedule: the server answers the first call, and the rotation when there is none.
  abbrev pub next : Reply T → List (Call T) → Option (List (Waiter T)) → Tab T → Tab T
  next reply [] none tab = tab
  next reply [] (some waiters) tab = on_refresh decode waiters reply tab
  next reply (call ∷ calls) promise tab = on_response call reply (record tab { in_flight = calls })

  abbrev pub drain : (ℕ → Reply T) → ℕ → Tab T → Tab T
  drain server zero tab = tab
  drain server (suc n) tab = drain server n (next (server n) tab.in_flight tab.promise tab)

  Answering-work : {t : Tab T} {n : ℕ} {u : Tab T} → Answering t n u → n + work u ≤ work t
  Answering-work rest = omega arith
  Answering-work (and_then c a) = omega (arith, Answering-work c, Answer-work decode a)

  next-Answer :
      (reply : Reply T) (tab : Tab T)
      → IsQuiet tab ⊎ Answer decode tab (next reply tab.in_flight tab.promise tab)
  next-Answer reply tab = go tab.in_flight tab.promise refl refl
    where
      go :
          (calls : List (Call T)) (promise : Option (List (Waiter T)))
          → tab.in_flight ≡ calls
          → tab.promise ≡ promise
          → IsQuiet tab ⊎ Answer decode tab (next reply calls promise tab)
      go [] none e f = inl (record { answered = e; rotated = f })
      go [] (some waiters) e f = inr (refreshed waiters reply f)
      go (call ∷ calls) promise e f = inr (response [] calls call reply e)

  next-IsQuiet :
      (reply : Reply T) (tab : Tab T) → IsQuiet tab → next reply tab.in_flight tab.promise tab ≡ tab
  next-IsQuiet reply tab q = simp (q.answered, q.rotated) refl

  -- Any chain of answers, whatever they are and in whatever order they come, is at most as long as the
  -- work of the tab that it starts from, and unless nothing is on its way it can go on.
  pub Answering-IsBounded :
      {t : Tab T} {n : ℕ} {u : Tab T}
      → Answering t n u
      → (n ≤ work t) × (IsQuiet u ⊎ ((v : Tab T) × Answer decode u v))
  Answering-IsBounded {u = u} c = (
    omega (arith, Answering-work c),
    elim (next-Answer (rejected none) u) [
      | inl q ↦ inl q
      | inr a ↦ inr (next (rejected none) u.in_flight u.promise u, a)
    ],
  )

  drain-tally :
      (server : ℕ → Reply T) (n : ℕ) (tab : Tab T) (id : ℕ)
      → tally id (drain server n tab) ≡ tally id tab
  drain-tally server zero tab id = refl
  drain-tally server (suc n) tab id = elim (next-Answer (server n) tab) [
    | inl q ↦
        drain-tally server n (next (server n) tab.in_flight tab.promise tab) id
        ∙ ap (tally id) (next-IsQuiet (server n) tab q)
    | inr a ↦
        drain-tally server n (next (server n) tab.in_flight tab.promise tab) id
        ∙ Answer-tally decode id a
  ]

  drain-rests :
      (server : ℕ → Reply T) (n : ℕ) (tab : Tab T) → IsQuiet tab → IsQuiet (drain server n tab)
  drain-rests server zero tab q = q
  drain-rests server (suc n) tab q =
      subst (λ t. IsQuiet (drain server n t)) (sym (next-IsQuiet (server n) tab q))
        (drain-rests server n tab q)

  drain-IsQuiet :
      (server : ℕ → Reply T) (n : ℕ) (tab : Tab T) → work tab ≤ n → IsQuiet (drain server n tab)
  drain-IsQuiet server zero tab h = elim (next-Answer (rejected none) tab) [
    | inl q ↦ q
    | inr a ↦ absurd (omega (arith, h, Answer-work decode a))
  ]
  drain-IsQuiet server (suc n) tab h = elim (next-Answer (server n) tab) [
    | inl q ↦ drain-rests server (suc n) tab q
    | inr a ↦
        drain-IsQuiet server n (next (server n) tab.in_flight tab.promise tab)
          (omega (arith, h, Answer-work decode a))
  ]

  IsQuiet-tally :
      (id : ℕ) (tab : Tab T) → IsQuiet tab → tally id tab ≡ total (of_end id) tab.settled
  unfolding tally
  IsQuiet-tally id tab q =
      omega (arith, ap (total (of_call id)) q.answered, ap (promised 0 (of_waiter id)) q.rotated)

  -- Whatever the server answers, as many answers as the tab has work leave nothing on its way, and
  -- every call has then ended exactly as often as its number occurred: among the calls in flight,
  -- those that await the rotation, and those that had ended.
  pub drain_settles :
      (server : ℕ → Reply T) (n : ℕ) (tab : Tab T)
      → work tab ≤ n
      → IsQuiet (drain server n tab)
        × ((id : ℕ) → total (of_end id) (drain server n tab).settled ≡ tally id tab)
  drain_settles server n tab h =
      let q = drain-IsQuiet server n tab h in
      (q, λ id. sym (IsQuiet-tally id (drain server n tab) q) ∙ drain-tally server n tab id)
