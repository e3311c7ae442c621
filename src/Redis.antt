-- ===== src/Redis.antt =====
-- What the services use of Redis through ioredis, which is not part of the repository: its calls, a
-- view of the values that are live, and the documented behaviour of the calls as laws about that
-- view. A key is live until it is deleted or its time is over; between the calls `wait` lets time
-- pass. A call may reject (the server is down), whenever it likes; what it did then is not known,
-- but for the keys that it does not name.
pub mod Memory
use skillhunt.Common.{
  ◌++◌, ℕ, ◌+◌, ◌≡◌, ◌⊎◌, String, Bool, true, false, Option, none, some, List, [], ◌∷◌, ◌==◌, ◌&&◌,
  string_eq, includes, if◌then◌else◌, ◌-◌, ◌<◌, leb, nat_eq,
}

-- A command of a MULTI transaction: `set(k, v, 'EX', ttl)`, `sadd(k, m)`, `expire(k, ttl)`.
pub data Command : Type 0 where
  set : String → String → ℕ → Command
  sadd : String → String → Command
  expire : String → ℕ → Command

abbrev pub after_command : Command → (String → Option String) → String → Option String
after_command (set k v ttl) view j = if k == j then some v else view j
after_command (sadd k m) view j = view j
after_command (expire k ttl) view j = if k == j && ttl == 0 then none else view j

abbrev pub after_commands : List Command → (String → Option String) → String → Option String
after_commands [] view = view
after_commands (c ∷ cs) view = after_commands cs (after_command c view)

abbrev pub members_after : List Command → (String → String → Bool) → String → String → Bool
members_after [] view = view
members_after (sadd k m ∷ cs) view =
    members_after cs (λ j n. if k == j && m == n then true else view j n)
members_after (set k v ttl ∷ cs) view = members_after cs view
members_after (expire k ttl ∷ cs) view =
    members_after cs (λ j n. if k == j && ttl == 0 then false else view j n)

abbrev pub ttl_after : List Command → (String → Option ℕ) → String → Option ℕ
ttl_after [] view = view
ttl_after (set k v ttl ∷ cs) view = ttl_after cs (λ j. if k == j then some ttl else view j)
ttl_after (sadd k m ∷ cs) view = ttl_after cs view
ttl_after (expire k ttl ∷ cs) view = ttl_after cs (λ j. if k == j then some ttl else view j)

-- Has a key expired after `d` seconds, and what is left of its time otherwise; `none` never expires.
abbrev pub expired : Option ℕ → ℕ → Bool
expired none d = false
expired (some n) d = leb n d

abbrev pub left : Option ℕ → ℕ → Option ℕ
left none d = none
left (some n) d = some (n - d)

-- Every command of the transaction answered with no error.
abbrev pub all_ok : List Bool → Bool
all_ok [] = true
all_ok (b ∷ bs) = b && all_ok bs

pub record Redis (R : Type 0) : Type 0 where
  -- The live string at a key, and membership of the live set at a key.
  pub at : R → String → Option String
  pub has : R → String → String → Bool
  -- The seconds that a live key has left, if it is to expire.
  pub ttl : R → String → Option ℕ
  -- So many seconds pass.
  pub wait : ℕ → R → R
  -- The entries of the event stream, oldest first.
  pub stream : R → List (List String)
  pub get : String → R → Option (Option String) × R
  pub del : List String → R → Bool × R
  pub incr : String → R → Option ℕ × R
  pub expire_in : String → ℕ → R → Bool × R
  pub smembers : String → R → Option (List String) × R
  pub exec : List Command → R → Option (Option (List Bool)) × R
  pub xadd : List String → R → Bool × R
  -- Redis keeps a counter as decimal text, which the code reads back by `Number`.
  pub decimal : ℕ → String
  pub number : String → ℕ
  pub number-decimal : (n : ℕ) → number (decimal n) ≡ n
  pub get-at : (s : R) (k : String) (v : Option String) → (get k s).0 ≡ some v → v ≡ at s k
  pub at-get : (s : R) (k j : String) → at (get k s).1 j ≡ at s j
  pub has-get : (s : R) (k j m : String) → has (get k s).1 j m ≡ has s j m
  pub at-del :
      (s : R) (ks : List String) (j : String)
      → (del ks s).0 ≡ true
      → at (del ks s).1 j ≡ (if includes ks j then none else at s j)
  pub at-del_other :
      (s : R) (ks : List String) (j : String) → includes ks j ≡ false → at (del ks s).1 j ≡ at s j
  -- A key is deleted or left, also where the answer is lost.
  pub at-del_either :
      (s : R) (ks : List String) (j : String)
      → ((at (del ks s).1 j ≡ at s j) × (ttl (del ks s).1 j ≡ ttl s j)) ⊎ (at (del ks s).1 j ≡ none)
  pub ttl-del_other :
      (s : R) (ks : List String) (j : String) → includes ks j ≡ false → ttl (del ks s).1 j ≡ ttl s j
  pub has-del_other :
      (s : R) (ks : List String) (j m : String)
      → includes ks j ≡ false
      → has (del ks s).1 j m ≡ has s j m
  pub at-incr :
      (s : R) (k : String) (n : ℕ) → (incr k s).0 ≡ some n → at (incr k s).1 k ≡ some (decimal n)
  pub incr_none : (s : R) (k : String) (n : ℕ) → (incr k s).0 ≡ some n → at s k ≡ none → n ≡ 1
  pub incr_some :
      (s : R) (k v : String) (n : ℕ) → (incr k s).0 ≡ some n → at s k ≡ some v → n ≡ number v + 1
  pub at-incr_other : (s : R) (k j : String) → (k == j) ≡ false → at (incr k s).1 j ≡ at s j
  pub ttl-incr :
      (s : R) (k v : String) (n : ℕ)
      → (incr k s).0 ≡ some n
      → at s k ≡ some v
      → ttl (incr k s).1 k ≡ ttl s k
  -- A key that is to expire at once is deleted.
  pub at-expire_in : (s : R) (k j : String) (t : ℕ) → 0 < t → at (expire_in k t s).1 j ≡ at s j
  pub ttl-expire_in :
      (s : R) (k v : String) (t : ℕ)
      → (expire_in k t s).0 ≡ true
      → at s k ≡ some v
      → 0 < t
      → ttl (expire_in k t s).1 k ≡ some t
  pub ttl-get : (s : R) (k j : String) → ttl (get k s).1 j ≡ ttl s j
  pub at-wait :
      (s : R) (d : ℕ) (k : String)
      → at (wait d s) k ≡ (if expired (ttl s k) d then none else at s k)
  pub has-wait :
      (s : R) (d : ℕ) (k m : String)
      → has (wait d s) k m ≡ (if expired (ttl s k) d then false else has s k m)
  pub ttl-wait :
      (s : R) (d : ℕ) (k : String)
      → expired (ttl s k) d ≡ false
      → ttl (wait d s) k ≡ left (ttl s k) d
  pub at-smembers : (s : R) (k j : String) → at (smembers k s).1 j ≡ at s j
  pub has-smembers :
      (s : R) (k m : String) (ms : List String)
      → (smembers k s).0 ≡ some ms
      → includes ms m ≡ has s k m
  pub at-exec :
      (s : R) (cs : List Command) (answers : List Bool) (j : String)
      → (exec cs s).0 ≡ some (some answers)
      → all_ok answers ≡ true
      → at (exec cs s).1 j ≡ after_commands cs (at s) j
  pub has-exec :
      (s : R) (cs : List Command) (answers : List Bool) (j m : String)
      → (exec cs s).0 ≡ some (some answers)
      → all_ok answers ≡ true
      → has (exec cs s).1 j m ≡ members_after cs (has s) j m
  pub ttl-exec :
      (s : R) (cs : List Command) (answers : List Bool) (j : String)
      → (exec cs s).0 ≡ some (some answers)
      → all_ok answers ≡ true
      → ttl (exec cs s).1 j ≡ ttl_after cs (ttl s) j
  pub stream-xadd :
      (s : R) (fields : List String)
      → (xadd fields s).0 ≡ true
      → stream (xadd fields s).1 ≡ stream s ++ fields ∷ []
