-- ===== src/Gear/Controller.antt =====
-- backend-core/src/gear/gear.controller.ts: the routes of the lockers behind their guards. A path
-- parameter has passed its pipe, and a body or a query its validation.
pub mod Confinement
pub mod Access
mod Examples
use skillhunt.Common.{ℕ, String, Bool, Option, some, List, [], ◌∷◌, Exec, Result, ok, err}
use skillhunt.Enums.{UserRole, freelance, recruiter, admin, GearStatus}
use skillhunt.Entities.{User, Gear, user_id, gear_id}
use skillhunt.Store.{Repository}
use skillhunt.Redis.{Redis}
use skillhunt.External.{Jwt}
use skillhunt.Auth.Guards.{JwtPayload, AuthHeader, enter}
use skillhunt.Gear.{
  Locker, AddGearDto, QueryGearDto, PublicQueryGearDto, Paginated, PublicGearView,
  add_gear_to_locker, get_freelance_gear, get_public_freelance_gear, list_pending_for_validation,
  review_gear, set_loadout,
}

-- A request: its route with what the client sent. `now` is the time of the database.
pub data GearRoute : Type 0 where
  add_gear : ℕ → AddGearDto → GearRoute
  get_my_gear : QueryGearDto → GearRoute
  get_public_gear : String → PublicQueryGearDto → GearRoute
  get_pending : QueryGearDto → GearRoute
  review : String → GearStatus → GearRoute
  pin : String → Bool → GearRoute

-- `@Roles(…)`
abbrev pub roles_of : GearRoute → UserRole × List UserRole
roles_of (add_gear now dto) = (freelance, [])
roles_of (get_my_gear query) = (freelance, [])
roles_of (get_public_gear freelance_id query) = (recruiter, [])
roles_of (get_pending query) = (admin, [])
roles_of (review id decision) = (admin, [])
roles_of (pin id in_loadout) = (freelance, [])

pub data GearAnswer : Type 0 where
  item : Gear → GearAnswer
  page : Paginated Gear → GearAnswer
  public_page : Paginated PublicGearView → GearAnswer

abbrev pub map_ok : {A B : Type 0} → (A → B) → Result A → Result B
map_ok f (ok a) = ok (f a)
map_ok f (err e) = err e

abbrev pub answer : {S A B : Type 0} → (A → B) → Exec S A → Exec S B
answer f m s = let (r, s') = m s in (map_ok f r, s')

module _ {U G R : Type 0} (users : Repository User user_id U) (gears : Repository Gear gear_id G)
    (redis : Redis R) where
  -- The methods of the controller, by route: the identity is always the token's.
  abbrev pub dispatch : GearRoute → JwtPayload → Exec (Locker U G R) GearAnswer
  dispatch (add_gear now dto) user =
      answer item (add_gear_to_locker users gears redis now user.user_id dto)
  dispatch (get_my_gear query) user =
      answer page (get_freelance_gear users gears redis user.user_id query)
  dispatch (get_public_gear freelance_id query) user =
      answer public_page (get_public_freelance_gear users gears redis freelance_id query)
  dispatch (get_pending query) user =
      answer page (list_pending_for_validation users gears redis query)
  dispatch (review id decision) user = answer item (review_gear users gears redis id decision)
  dispatch (pin id in_loadout) user =
      answer item (set_loadout users gears redis user.user_id id in_loadout)

  abbrev pub after_guards : GearRoute → Result JwtPayload → Exec (Locker U G R) GearAnswer
  after_guards route (err e) s = (err e, s)
  after_guards route (ok user) s = dispatch route user s

  unfoldable pub serve_route :
      {T : Type 0} → Jwt T → ℕ → AuthHeader T → GearRoute → Exec (Locker U G R) GearAnswer
  serve_route jwt now header route =
      let (role, roles) = roles_of route in
      after_guards route (enter jwt now (some (role ∷ roles)) header)
