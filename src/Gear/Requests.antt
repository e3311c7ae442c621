-- ===== src/Gear/Requests.antt =====
-- The requests that write to the lockers, in any order: what holds after every sequence of them.
use skillhunt.Common.{
  ℕ, ◌≡◌, String, Bool, List, [], ◌∷◌, none, some, ◌==◌, ◌&&◌, true, false, inl, inr, refl,
  string_eq, eq_iff, arith, Bool-cases,
}
use skillhunt.Enums.{GearStatus}
use skillhunt.Entities.{User, Gear, user_id, gear_id}
use skillhunt.Store.{Repository}
use skillhunt.Redis.{Redis}
use skillhunt.Gear.{
  Locker, AddGearDto, add_gear_to_locker, set_loadout, review_gear, owned_by, showcase_error,
  reviewed,
}
use skillhunt.Gear.Cases.{declared, add_cases, set_loadout_cases, review_cases}
use skillhunt.Gear.Showcase.{
  IsShowcase, save_unpinned-IsShowcase, save_pinned-IsShowcase, save_new-IsShowcase,
}

-- A request that writes, with the identity that the token carries.
pub data Request : Type 0 where
  add : ℕ → String → AddGearDto → Request
  pin : String → String → Bool → Request
  review : String → GearStatus → Request

module _ {U G R : Type 0} (users : Repository User user_id U) (gears : Repository Gear gear_id G)
    (redis : Redis R) where
  unfoldable pub handle : Request → Locker U G R → Locker U G R
  handle (add now freelance_id dto) s =
      (add_gear_to_locker users gears redis now freelance_id dto s).1
  handle (pin freelance_id gear_id in_loadout) s =
      (set_loadout users gears redis freelance_id gear_id in_loadout s).1
  handle (review gear_id decision) s = (review_gear users gears redis gear_id decision s).1

  unfoldable pub serve : List Request → Locker U G R → Locker U G R
  serve [] s = s
  serve (r ∷ rs) s = serve rs (handle r s)

  add-IsShowcase :
      (now : ℕ) (f : String) (dto : AddGearDto) (s : Locker U G R)
      → IsShowcase gears s.gears
      → IsShowcase gears (add_gear_to_locker users gears redis now f dto s).1.gears
  add-IsShowcase now f dto s v =
      add_cases users gears redis (λ r. IsShowcase gears r.1.gears) now f dto s (λ _. v)
        (λ _ _ _. v)
        λ u _ _.
          save_new-IsShowcase gears s.gears (declared users gears redis now u.id dto s.gears)
            (gears.row-generate s.gears) refl v

  pin-IsShowcase :
      (f id : String) (b : Bool) (s : Locker U G R)
      → IsShowcase gears s.gears
      → IsShowcase gears (set_loadout users gears redis f id b s).1.gears
  pin-IsShowcase f id b s v =
      set_loadout_cases users gears redis (λ r. IsShowcase gears r.1.gears) f id b s (λ _. v)
        (λ _ _ _ _. v) λ g found free. saved g (gears.find_one_sound s.gears _ g found) b free
    where
      saved :
          (g : Gear)
          → ((g.id == id && owned_by f g) ≡ true) × (gears.row s.gears g.id ≡ some g)
          → (b : Bool) → showcase_error users gears redis f g b s ≡ none
          → IsShowcase gears (gears.save (record g { is_in_loadout = b }) s.gears)
      saved g found false free =
          save_unpinned-IsShowcase gears s.gears (record g { is_in_loadout = false }) g found.1
            (λ p. cc) (λ f p. ground arith) v
      saved g found true free = elim (Bool-cases g.is_in_loadout) [
        | inl already ↦
            save_unpinned-IsShowcase gears s.gears (record g { is_in_loadout = true }) g found.1
              (λ p. ground arith) (λ f p. ground arith) v
        | inr fresh ↦
            save_pinned-IsShowcase gears s.gears (record g { is_in_loadout = true }) g found.1
              (ground arith) refl (rw (owner g found.0) (ground arith)) v
      ]
        where
          owner : (g : Gear) → (g.id == id && owned_by f g) ≡ true → g.freelance_id ≡ f
          owner g e = ground (arith, eq_iff g.freelance_id f)

  review-IsShowcase :
      (id : String) (d : GearStatus) (s : Locker U G R)
      → IsShowcase gears s.gears
      → IsShowcase gears (review_gear users gears redis id d s).1.gears
  review-IsShowcase id d s v =
      review_cases users gears redis (λ r. IsShowcase gears r.1.gears) id d s (λ _. v) (λ _ _ _. v)
        λ g found waiting.
          let (_, stored) = gears.find_one_sound s.gears _ g found in
          save_unpinned-IsShowcase gears s.gears (reviewed users gears redis g d) g (ground arith)
            (ground (arith, v.only_validated g.id g stored)) (λ f. ground arith) v

  handle-IsShowcase :
      (r : Request) (s : Locker U G R)
      → IsShowcase gears s.gears
      → IsShowcase gears (handle r s).gears
  unfolding handle
  handle-IsShowcase (add now f dto) s v = add-IsShowcase now f dto s v
  handle-IsShowcase (pin f id b) s v = pin-IsShowcase f id b s v
  handle-IsShowcase (review id d) s v = review-IsShowcase id d s v

  -- Whatever requests are served one after the other from lockers where only validated gear is
  -- pinned and nobody pins more than four items, the same holds of the lockers that they leave.
  pub serve-IsShowcase :
      (rs : List Request) (s : Locker U G R)
      → IsShowcase gears s.gears
      → IsShowcase gears (serve rs s).gears
  unfolding serve
  serve-IsShowcase [] s v = v
  serve-IsShowcase (r ∷ rs) s v = serve-IsShowcase rs (handle r s) (handle-IsShowcase r s v)
