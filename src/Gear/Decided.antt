-- ===== src/Gear/Decided.antt =====
-- A decision of gear.service.ts stands, whatever requests follow.
use skillhunt.Common.{
  ℕ, ◌≡◌, ◌≢◌, refl, sym, ap, ◌∙◌, subst, String, Bool, some, none, List, [], ◌∷◌, ◌==◌, string_eq,
  eq_iff, arith, ok, err, conflict, inl, inr, Bool-cases, some-injective,
}
use skillhunt.Enums.{GearStatus}
use skillhunt.Entities.{User, Gear, user_id, gear_id}
use skillhunt.Store.{Repository}
use skillhunt.Redis.{Redis}
use skillhunt.Gear.{Locker, AddGearDto, review_gear, reviewed}
use skillhunt.Gear.Cases.{declared, add_cases, set_loadout_cases, review_cases}
use skillhunt.Gear.Requests.{Request, add, pin, review, handle, serve}
use skillhunt.Gear.Review.{treated}

module _ {U G R : Type 0} (users : Repository User user_id U) (gears : Repository Gear gear_id G)
    (redis : Redis R) where
  -- The gear is stored, and no longer pending.
  record IsTreated (id : String) (t : G) : Type 0 where
    gear : Gear
    stored : gears.row t id ≡ some gear
    decided : gear.status ≢ GearStatus.pending

  save-IsTreated :
      (id : String) (t : G) (new : Gear)
      → ((old : Gear)
          → new.id ≡ id
          → gears.row t new.id ≡ some old
          → old.status ≢ GearStatus.pending
          → new.status ≢ GearStatus.pending)
      → IsTreated id t
      → IsTreated id (gears.save new t)
  save-IsTreated id t new keeps v = elim (Bool-cases (new.id == id)) [
    | inl e ↦
        let same = (eq_iff new.id id).0 e in
        record {
          gear = new;
          stored = gears.row-save t new id ∙ rw e refl;
          decided = keeps v.gear same (ap (gears.row t) same ∙ v.stored) v.decided;
        }
    | inr e ↦ record {
      gear = v.gear;
      stored = gears.row-save t new id ∙ rw e v.stored;
      decided = v.decided;
    }
  ]

  add-IsTreated :
      (id : String) (now : ℕ) (f : String) (dto : AddGearDto) (s : Locker U G R)
      → IsTreated id s.gears
      → IsTreated id (handle users gears redis (add now f dto) s).gears
  unfolding handle
  add-IsTreated id now f dto s v =
      add_cases users gears redis (λ r. IsTreated id r.1.gears) now f dto s (λ _. v) (λ _ _ _. v)
        λ u _ _.
          save-IsTreated id s.gears (declared users gears redis now u.id dto s.gears)
            (λ old _ stored _.
              let k : none ≡ some old = sym (gears.row-generate s.gears) ∙ stored in absurd cc)
            v

  pin-IsTreated :
      (id f g_id : String) (b : Bool) (s : Locker U G R)
      → IsTreated id s.gears
      → IsTreated id (handle users gears redis (pin f g_id b) s).gears
  unfolding handle
  pin-IsTreated id f g_id b s v =
      set_loadout_cases users gears redis (λ r. IsTreated id r.1.gears) f g_id b s (λ _. v)
        (λ _ _ _ _. v)
        λ g found _.
          let (_, own) = gears.find_one_sound s.gears _ g found in
          save-IsTreated id s.gears (record g { is_in_loadout = b })
            (λ old _ stored decided.
              let same : old ≡ g = some-injective (sym stored ∙ own) in
              subst (λ x. x.status ≢ GearStatus.pending) same decided)
            v

  review-IsTreated :
      (id g_id : String) (d : GearStatus) (s : Locker U G R)
      → IsTreated id s.gears
      → IsTreated id (handle users gears redis (review g_id d) s).gears
  unfolding handle
  review-IsTreated id g_id d s v =
      review_cases users gears redis (λ r. IsTreated id r.1.gears) g_id d s (λ _. v) (λ _ _ _. v)
        λ g found waiting.
          let (_, own) = gears.find_one_sound s.gears _ g found in
          save-IsTreated id s.gears (reviewed users gears redis g d)
            (λ old _ stored decided.
              let same : old ≡ g =
                some-injective (sym stored ∙ ap (gears.row s.gears) (reviewed_id g d) ∙ own) in
              absurd (decided (ap (λ (x : Gear). x.status) same ∙ waiting)))
            v
    where
      reviewed_id : (g : Gear) (d : GearStatus) → (reviewed users gears redis g d).id ≡ g.id
      reviewed_id g d = ground arith

  serve-IsTreated :
      (id : String) (rs : List Request) (s : Locker U G R)
      → IsTreated id s.gears
      → IsTreated id (serve users gears redis rs s).gears
  unfolding serve
  serve-IsTreated id [] s v = v
  serve-IsTreated id (add now f dto ∷ rs) s v =
      serve-IsTreated id rs _ (add-IsTreated id now f dto s v)
  serve-IsTreated id (pin f g_id b ∷ rs) s v =
      serve-IsTreated id rs _ (pin-IsTreated id f g_id b s v)
  serve-IsTreated id (review g_id d ∷ rs) s v =
      serve-IsTreated id rs _ (review-IsTreated id g_id d s v)

  review_gear-IsTreated :
      (id : String) (d : GearStatus) (s : Locker U G R) (g : Gear)
      → d ≢ GearStatus.pending
      → (review_gear users gears redis id d s).0 ≡ ok g
      → IsTreated id (review_gear users gears redis id d s).1.gears
  review_gear-IsTreated id d s g final =
      review_cases users gears redis (λ r. r.0 ≡ ok g → IsTreated id r.1.gears) id d s (λ _ h. cc)
        (λ _ _ _ h. cc)
        λ old found _ _.
          let (meets, _) = gears.find_one_sound s.gears _ old found in
          let same : old.id ≡ id = (eq_iff old.id id).0 meets in
          record {
            gear = reviewed users gears redis old d;
            stored = rw (← same, gears.row-save) (ground (arith, eq_iff old.id old.id));
            decided = ground arith;
          }

  -- A decision is taken once: after a review that decides for or against, and after any requests to the
  -- lockers that follow it, every later review of the same gear is a conflict and changes nothing.
  pub decision_stands :
      (id : String) (d d' : GearStatus) (rs : List Request) (s : Locker U G R) (g : Gear)
      → d ≢ GearStatus.pending
      → (review_gear users gears redis id d s).0 ≡ ok g
      → let s' = serve users gears redis rs (review_gear users gears redis id d s).1 in
        review_gear users gears redis id d' s'
        ≡ (err (conflict "Cet équipement a déjà été traité"), s')
  decision_stands id d d' rs s g final h =
      let s₁ = (review_gear users gears redis id d s).1 in
      let v = serve-IsTreated id rs s₁ (review_gear-IsTreated id d s g final h) in
      treated users gears redis id d' (serve users gears redis rs s₁) v.gear v.stored v.decided
