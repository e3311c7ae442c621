-- ===== src/Gear/Controller/Access.antt =====
-- Who passes to the routes of gear.controller.ts, and what they change.
use skillhunt.Common.{
  ℕ, ◌≡◌, ◌⊎◌, refl, ap, ◌∙◌, String, Bool, true, ◌&&◌, some, ◌∷◌, ◌==◌, string_eq, eq_iff, arith,
  inl, inr, Bool-cases, Option-cases, Result-cases,
}
use skillhunt.Enums.{GearStatus, gear_status_eq}
use skillhunt.Entities.{User, Gear, user_id, gear_id}
use skillhunt.Store.{Repository}
use skillhunt.Redis.{Redis}
use skillhunt.External.{Jwt}
use skillhunt.Auth.Guards.{JwtPayload, AuthHeader, enter}
use skillhunt.Auth.Guards.Access.{IsEntered, enter-IsEntered}
use skillhunt.Gear.{
  Locker, AddGearDto, PublicQueryGearDto, owned_by, add_gear_to_locker, set_loadout, review_gear,
  get_freelance_gear, get_public_freelance_gear, list_pending_for_validation, reviewed,
  freelance_only,
}
use skillhunt.Gear.Cases.{declared, add_cases, set_loadout_cases, review_cases}
use skillhunt.Gear.Controller.{
  GearRoute, add_gear, get_my_gear, get_public_gear, get_pending, review, pin, roles_of, dispatch,
  serve_route,
}
use skillhunt.Gear.Controller.Confinement.{IsConfined, unchanged, changed, inserted}

module _ {U G R : Type 0} (users : Repository User user_id U) (gears : Repository Gear gear_id G)
    (redis : Redis R) where
  add_gear-IsConfined :
      (now : ℕ) (dto : AddGearDto) (user : JwtPayload) (s : Locker U G R)
      → IsConfined users gears redis
          (add_gear now dto)
          user
          s
          (add_gear_to_locker users gears redis now user.user_id dto s).1
  add_gear-IsConfined now dto user s =
      let route = add_gear now dto in
      add_cases users gears redis (λ r. IsConfined users gears redis route user s r.1) now
        user.user_id dto s (λ _. unchanged users gears redis route user s)
        (λ _ _ _. unchanged users gears redis route user s)
        (λ u found _.
          inserted users gears redis route user s
            (record s {
              gears = gears.save (declared users gears redis now u.id dto s.gears) s.gears;
            })
            (declared users gears redis now u.id dto s.gears) (gears.row-generate s.gears)
            ((eq_iff u.id user.user_id).0 (users.find_one_sound s.users _ u found).0) refl refl)

  pin-IsConfined :
      (id : String) (b : Bool) (user : JwtPayload) (s : Locker U G R)
      → IsConfined users gears redis
          (pin id b)
          user
          s
          (set_loadout users gears redis user.user_id id b s).1
  pin-IsConfined id b user s =
      let route = pin id b in
      set_loadout_cases users gears redis (λ r. IsConfined users gears redis route user s r.1)
        user.user_id id b s (λ _. unchanged users gears redis route user s)
        (λ _ _ _ _. unchanged users gears redis route user s)
        (λ g found _.
          let (meets, stored) = gears.find_one_sound s.gears _ g found in
          changed users gears redis route user s
            (record s { gears = gears.save (record g { is_in_loadout = b }) s.gears }) g
            (record g { is_in_loadout = b }) stored refl (named g id user.user_id meets) refl refl)
    where
      named :
          (g : Gear) (id f : String)
          → (g.id == id && owned_by f g) ≡ true
          → (g.id ≡ id) × (g.freelance_id ≡ f)
      named g id f h = (ground (arith, eq_iff g.id id), ground (arith, eq_iff g.freelance_id f))

  reviewed_keeps :
      (g : Gear) (d : GearStatus)
      → ((reviewed users gears redis g d).id ≡ g.id)
        × ((reviewed users gears redis g d).freelance_id ≡ g.freelance_id)
  reviewed_keeps g d = elim (Bool-cases (d == GearStatus.rejected)) [
    | inl e ↦ simp e (refl, refl)
    | inr e ↦ simp e (refl, refl)
  ]

  review-IsConfined :
      (id : String) (d : GearStatus) (user : JwtPayload) (s : Locker U G R)
      → IsConfined users gears redis (review id d) user s (review_gear users gears redis id d s).1
  review-IsConfined id d user s =
      let route = review id d in
      review_cases users gears redis (λ r. IsConfined users gears redis route user s r.1) id d s
        (λ _. unchanged users gears redis route user s)
        (λ _ _ _. unchanged users gears redis route user s)
        (λ g found _.
          let (meets, stored) = gears.find_one_sound s.gears _ g found in
          let (same_id, same_owner) = reviewed_keeps g d in
          changed users gears redis route user s _ g (reviewed users gears redis g d)
            (ap (gears.row s.gears) same_id ∙ stored) same_owner ((eq_iff g.id id).0 meets) refl
            refl)

  public-unchanged :
      (id : String) (query : PublicQueryGearDto) (user : JwtPayload) (s : Locker U G R)
      → IsConfined users gears redis
          (get_public_gear id query)
          user
          s
          (get_public_freelance_gear users gears redis id query s).1
  unfolding get_public_freelance_gear
  public-unchanged id query user s =
      elim (Option-cases (freelance_only (users.find_one (λ u. u.id == id) s.users))) [
        | inl e ↦ simp e (unchanged users gears redis (get_public_gear id query) user s)
        | inr (u, e) ↦ simp e (unchanged users gears redis (get_public_gear id query) user s)
      ]

  dispatch-IsConfined :
      (route : GearRoute) (user : JwtPayload) (s : Locker U G R)
      → IsConfined users gears redis route user s (dispatch users gears redis route user s).1
  unfolding get_freelance_gear list_pending_for_validation
  dispatch-IsConfined (add_gear now dto) user s = add_gear-IsConfined now dto user s
  dispatch-IsConfined (get_my_gear query) user s =
      unchanged users gears redis (get_my_gear query) user s
  dispatch-IsConfined (get_public_gear id query) user s = public-unchanged id query user s
  dispatch-IsConfined (get_pending query) user s =
      unchanged users gears redis (get_pending query) user s
  dispatch-IsConfined (review id d) user s = review-IsConfined id d user s
  dispatch-IsConfined (pin id b) user s = pin-IsConfined id b user s

  -- A request to the lockers changes nothing, or it carries a valid access token of a role that its
  -- route requires. Then no gear goes away or changes hands; a new one is the caller's; a pin changes
  -- the named gear of the caller alone, a review the named gear alone, and the other routes none.
  pub serve_route-IsConfined :
      {T : Type 0} (jwt : Jwt T) (now : ℕ) (header : AuthHeader T) (route : GearRoute)
      (s : Locker U G R)
      → let s' = (serve_route users gears redis jwt now header route s).1 in
        (s' ≡ s)
        ⊎ ((user : JwtPayload) × IsEntered jwt now
              ((roles_of route).0 ∷ (roles_of route).1)
              header
              user
            × IsConfined users gears redis route user s s')
  unfolding serve_route
  serve_route-IsConfined jwt now header route s =
      elim (Result-cases (enter jwt now (some ((roles_of route).0 ∷ (roles_of route).1)) header)) [
        | inr (e, h) ↦ inl (simp h refl)
        | inl (user, h) ↦ inr (
          user,
          enter-IsEntered jwt now (roles_of route).0 (roles_of route).1 header user h,
          simp h (dispatch-IsConfined route user s),
        )
      ]
