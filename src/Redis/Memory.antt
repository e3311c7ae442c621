-- ===== src/Redis/Memory.antt =====
-- A Redis in memory, up or down: it shows that the laws can hold, and the tests run on it. It keeps
-- its counters as tally marks.
use Prim.Native.String
use Prim.Native.String.{count as text_length}
use text.Mathlib.TextLemmas.{length-append as text_length-append}
use mathlib.Core.Path.{fun_ext}
use skillhunt.Common.{
  ℕ, zero, suc, ◌+◌, ◌≡◌, refl, String, Bool, true, false, Option, none, some, List, [], ◌∷◌, ◌++◌,
  ◌==◌, string_eq, includes, if◌then◌else◌, arith, beq_self, ap, ◌⊎◌, ◌∙◌, ◌<◌, ltb, ◌&&◌, nat_eq,
  Bool-cases, inl, inr,
}
use skillhunt.Redis.{
  Redis, Command, set, sadd, expire, after_commands, members_after, ttl_after, expired, left,
}

pub record Memory : Type 0 where
  pub up : Bool
  pub at : String → Option String
  pub ttl : String → Option ℕ
  pub members : String → List String
  pub stream : List (List String)

abbrev pub fresh : Memory
fresh = record { up = true; at = λ k. none; ttl = λ k. none; members = λ k. []; stream = [] }

abbrev pub tally : ℕ → String
tally zero = ""
tally (suc n) = String.◌++◌ "I" (tally n)

pub length-tally : (n : ℕ) → text_length (tally n) ≡ n
length-tally zero = refl
length-tally (suc n) = omega (arith, text_length-append "I" (tally n), length-tally n)

abbrev pub bumped : Option String → ℕ
bumped none = 1
bumped (some v) = text_length v + 1

abbrev pub put : (String → Option String) → String → Option String → String → Option String
put view k v j = if k == j then v else view j

abbrev pub joined : List Command → (String → List String) → String → List String
joined [] view = view
joined (sadd k m ∷ cs) view = joined cs (λ j. if k == j then m ∷ view j else view j)
joined (set k v ttl ∷ cs) view = joined cs view
joined (expire k ttl ∷ cs) view = joined cs (λ j. if k == j && ttl == 0 then [] else view j)

abbrev pub oks : List Command → List Bool
oks [] = []
oks (set k v ttl ∷ cs) = ltb 0 ttl ∷ oks cs
oks (sadd k m ∷ cs) = true ∷ oks cs
oks (expire k ttl ∷ cs) = true ∷ oks cs

abbrev pub gate {ℓ} : {A : Type ℓ} → Bool → A → Option A
gate true a = some a
gate false a = none

abbrev pub when : Bool → Memory → Memory → Memory
when true s' s = s'
when false s' s = s

abbrev pub m_get : String → Memory → Option (Option String) × Memory
m_get k s = (gate s.up (s.at k), s)

abbrev pub m_del : List String → Memory → Bool × Memory
m_del ks s = (
  s.up,
  when s.up
      (record s {
        at = λ j. if includes ks j then none else s.at j;
        ttl = λ j. if includes ks j then none else s.ttl j;
        members = λ j. if includes ks j then [] else s.members j;
      })
      s,
)

-- A counter that is new does not expire.
abbrev pub kept : Option String → Option ℕ → Option ℕ
kept none t = none
kept (some v) t = t

abbrev pub m_expire : String → ℕ → Memory → Bool × Memory
m_expire k t s = (
  s.up,
  when s.up
      (record s {
        at = λ j. if k == j && t == 0 then none else s.at j;
        members = λ j. if k == j && t == 0 then [] else s.members j;
        ttl = λ j. if k == j then some t else s.ttl j;
      })
      s,
)

abbrev pub m_wait : ℕ → Memory → Memory
m_wait d s = record s {
  at = λ k. if expired (s.ttl k) d then none else s.at k;
  members = λ k. if expired (s.ttl k) d then [] else s.members k;
  ttl = λ k. if expired (s.ttl k) d then none else left (s.ttl k) d;
}

abbrev pub m_incr : String → Memory → Option ℕ × Memory
m_incr k s = (
  gate s.up (bumped (s.at k)),
  when s.up
      (record s {
        at = put s.at k (some (tally (bumped (s.at k))));
        ttl = λ j. if k == j then kept (s.at k) (s.ttl k) else s.ttl j;
      })
      s,
)

abbrev pub m_exec : List Command → Memory → Option (Option (List Bool)) × Memory
m_exec cs s = (
  gate s.up (some (oks cs)),
  when s.up
      (record s {
        at = after_commands cs s.at;
        members = joined cs s.members;
        ttl = ttl_after cs s.ttl;
      })
      s,
)

abbrev pub m_xadd : List String → Memory → Bool × Memory
m_xadd fields s = (s.up, when s.up (record s { stream = s.stream ++ fields ∷ [] }) s)

abbrev pub m_has : Memory → String → String → Bool
m_has s k m = includes (s.members k) m

pub m_get-at : (s : Memory) (k : String) (v : Option String) → (m_get k s).0 ≡ some v → v ≡ s.at k
m_get-at s k v h = ground arith

pub m_del-at :
    (s : Memory) (ks : List String) (j : String)
    → s.up ≡ true
    → (m_del ks s).1.at j ≡ (if includes ks j then none else s.at j)
m_del-at s ks j h = rw h

pub m_del-other :
    (s : Memory) (ks : List String) (j : String)
    → includes ks j ≡ false
    → (m_del ks s).1.at j ≡ s.at j
m_del-other s ks j h = ground arith

pub m_del-either :
    (s : Memory) (ks : List String) (j : String)
    → (((m_del ks s).1.at j ≡ s.at j) × ((m_del ks s).1.ttl j ≡ s.ttl j))
      ⊎ ((m_del ks s).1.at j ≡ none)
m_del-either s ks j = elim (Bool-cases s.up) [
  | inr down ↦ rw down (inl (refl, refl))
  | inl up ↦ elim (Bool-cases (includes ks j)) [
    | inl e ↦ rw (up, e) (inr refl)
    | inr e ↦ rw (up, e) (inl (refl, refl))
  ]
]

pub m_del-ttl :
    (s : Memory) (ks : List String) (j : String)
    → includes ks j ≡ false
    → (m_del ks s).1.ttl j ≡ s.ttl j
m_del-ttl s ks j h = ground arith

pub m_incr-ttl :
    (s : Memory) (k v : String) (n : ℕ)
    → (m_incr k s).0 ≡ some n
    → s.at k ≡ some v
    → (m_incr k s).1.ttl k ≡ s.ttl k
m_incr-ttl s k v n h e = elim (Bool-cases s.up) [
  | inr down ↦ rw down refl
  | inl up ↦ rw (up, beq_self k, e) refl
]

pub m_expire-at : (s : Memory) (k j : String) (t : ℕ) → 0 < t → (m_expire k t s).1.at j ≡ s.at j
m_expire-at s k j t h = ground arith

pub m_expire-ttl :
    (s : Memory) (k : String) (t : ℕ) → s.up ≡ true → (m_expire k t s).1.ttl k ≡ some t
m_expire-ttl s k t h = rw (h, beq_self k) refl

pub m_wait-has :
    (s : Memory) (d : ℕ) (k m : String)
    → m_has (m_wait d s) k m ≡ (if expired (s.ttl k) d then false else m_has s k m)
m_wait-has s d k m = elim (Bool-cases (expired (s.ttl k) d)) [
  | inl e ↦ rw e refl
  | inr e ↦ rw e refl
]

pub m_wait-ttl :
    (s : Memory) (d : ℕ) (k : String)
    → expired (s.ttl k) d ≡ false
    → (m_wait d s).ttl k ≡ left (s.ttl k) d
m_wait-ttl s d k h = rw h refl

pub m_exec-ttl :
    (s : Memory) (cs : List Command) (answers : List Bool) (j : String)
    → (m_exec cs s).0 ≡ some (some answers)
    → (m_exec cs s).1.ttl j ≡ ttl_after cs s.ttl j
m_exec-ttl s cs answers j h = ground arith

pub m_del-has :
    (s : Memory) (ks : List String) (j m : String)
    → includes ks j ≡ false
    → m_has (m_del ks s).1 j m ≡ m_has s j m
m_del-has s ks j m h = ground arith

pub m_incr-at :
    (s : Memory) (k : String) (n : ℕ)
    → (m_incr k s).0 ≡ some n
    → (m_incr k s).1.at k ≡ some (tally n)
m_incr-at s k n h = ground (arith, beq_self k)

pub m_incr-none :
    (s : Memory) (k : String) (n : ℕ) → (m_incr k s).0 ≡ some n → s.at k ≡ none → n ≡ 1
m_incr-none s k n h e = ground arith

pub m_incr-some :
    (s : Memory) (k v : String) (n : ℕ)
    → (m_incr k s).0 ≡ some n
    → s.at k ≡ some v
    → n ≡ text_length v + 1
m_incr-some s k v n h e = ground arith

pub m_incr-other : (s : Memory) (k j : String) → (k == j) ≡ false → (m_incr k s).1.at j ≡ s.at j
m_incr-other s k j h = ground arith

pub m_exec-at :
    (s : Memory) (cs : List Command) (answers : List Bool) (j : String)
    → (m_exec cs s).0 ≡ some (some answers)
    → (m_exec cs s).1.at j ≡ after_commands cs s.at j
m_exec-at s cs answers j h = ground arith

joined-members :
    (cs : List Command) (view : String → List String) (j m : String)
    → includes (joined cs view j) m ≡ members_after cs (λ k n. includes (view k) n) j m
joined-members [] view j m = refl
joined-members (sadd k n ∷ cs) view j m =
    joined-members cs (λ i. if k == i then n ∷ view i else view i) j m
    ∙ ap (λ v. members_after cs v j m) (fun_ext λ i. fun_ext λ o. ground arith)
joined-members (set k v ttl ∷ cs) view j m = joined-members cs view j m
joined-members (expire k ttl ∷ cs) view j m =
    joined-members cs (λ i. if k == i && ttl == 0 then [] else view i) j m
    ∙ ap (λ v. members_after cs v j m) (fun_ext λ i. fun_ext λ o. ground arith)

pub m_exec-has :
    (s : Memory) (cs : List Command) (answers : List Bool) (j m : String)
    → (m_exec cs s).0 ≡ some (some answers)
    → m_has (m_exec cs s).1 j m ≡ members_after cs (m_has s) j m
m_exec-has s cs answers j m h = ground (arith, joined-members cs s.members j m)

pub m_xadd-stream :
    (s : Memory) (fields : List String)
    → s.up ≡ true
    → (m_xadd fields s).1.stream ≡ s.stream ++ fields ∷ []
m_xadd-stream s fields h = rw h

pub m_smembers :
    (s : Memory) (k m : String) (ms : List String)
    → gate s.up (s.members k) ≡ some ms
    → includes ms m ≡ m_has s k m
m_smembers s k m ms h = ground arith

abbrev pub redis : Redis Memory
redis = record {
  at = λ s. s.at;
  has = m_has;
  stream = λ s. s.stream;
  get = m_get;
  del = m_del;
  incr = m_incr;
  expire_in = m_expire;
  ttl = λ s. s.ttl;
  wait = m_wait;
  smembers = λ k s. (gate s.up (s.members k), s);
  exec = m_exec;
  xadd = m_xadd;
  decimal = tally;
  number = text_length;
  number-decimal = length-tally;
  get-at = m_get-at;
  at-get = λ s k j. refl;
  has-get = λ s k j m. refl;
  at-del = m_del-at;
  at-del_other = m_del-other;
  at-del_either = m_del-either;
  has-del_other = m_del-has;
  at-incr = m_incr-at;
  incr_none = m_incr-none;
  incr_some = m_incr-some;
  at-incr_other = m_incr-other;
  at-expire_in = m_expire-at;
  ttl-expire_in = λ s k v t up live h. m_expire-ttl s k t up;
  ttl-get = λ s k j. refl;
  ttl-incr = m_incr-ttl;
  ttl-del_other = m_del-ttl;
  at-wait = λ s d k. refl;
  has-wait = m_wait-has;
  ttl-wait = m_wait-ttl;
  ttl-exec = λ s cs answers j h _. m_exec-ttl s cs answers j h;
  at-smembers = λ s k j. refl;
  has-smembers = λ s k m ms h. m_smembers s k m ms h;
  at-exec = λ s cs answers j h _. m_exec-at s cs answers j h;
  has-exec = λ s cs answers j m h _. m_exec-has s cs answers j m h;
  stream-xadd = m_xadd-stream;
}
