-- ===== src/Gear/Controller/Examples.antt =====
-- The routes of the lockers on tables in memory.
use skillhunt.Common.{◌≡◌, ◌⊎◌, refl, true, false, none, [], ◌∷◌, ok}
use skillhunt.Enums.{freelance, drone, GearStatus}
use skillhunt.Entities.{User, Gear, user_id, gear_id}
use skillhunt.Store.Table
use skillhunt.Store.Table.{Table, repository, empty}
use skillhunt.Redis.Memory.{Memory, fresh, redis}
use skillhunt.External.Plain.{Ticket, jwt}
use skillhunt.Auth.Service.{access_claims, access_ttl}
use skillhunt.Auth.Guards.{JwtPayload, bearer, enter, can_activate, roles_can_activate}
use skillhunt.Auth.Guards.Access.{IsEntered}
use skillhunt.Gear.{Locker, set_loadout}
use skillhunt.Gear.Controller.{pin, item, serve_route}
use skillhunt.Gear.Controller.Confinement.{IsConfined}
use skillhunt.Gear.Controller.Access.{serve_route-IsConfined}

abbrev pilot : User
pilot = record {
  id = "pilot";
  email = "pilot@example.org";
  username = "pilot";
  password_hash = "pw";
  role = freelance;
  location = none;
  two_factor_enabled = false;
  two_factor_secret_encrypted = none;
  two_factor_backup_codes_hashed = none;
  created_at = 0;
}

abbrev mavic : Gear
mavic = record {
  id = "mavic";
  brand = "DJI";
  model = "Mavic";
  serial_number = "s1";
  category = drone;
  status = GearStatus.validated;
  is_in_loadout = false;
  created_at = 1;
  freelance_id = "pilot";
}

abbrev locker : Locker (Table User user_id) (Table Gear gear_id) Memory
locker = record {
  users = Table.save user_id pilot (empty user_id);
  gears = Table.save gear_id mavic (empty gear_id);
  redis = fresh;
}

abbrev token : Ticket
token = jwt.sign (access_claims pilot) access_ttl 0

pinned :
    (serve_route
      (repository user_id)
      (repository gear_id)
      redis
      jwt
      1
      (bearer token)
      (pin "mavic" true)
      locker).0
    ≡ ok (item (record mavic { is_in_loadout = true }))
unfolding serve_route enter can_activate roles_can_activate set_loadout
pinned = refl

serve_route-IsConfined_example :
    ((serve_route
        (repository user_id)
        (repository gear_id)
        redis
        jwt
        1
        (bearer token)
        (pin "mavic" true)
        locker).1
      ≡ locker)
    ⊎ ((user : JwtPayload) × IsEntered jwt 1 (freelance ∷ []) (bearer token) user
        × IsConfined
            (repository user_id)
            (repository gear_id)
            redis
            (pin "mavic" true)
            user
            locker
            (serve_route
              (repository user_id)
              (repository gear_id)
              redis
              jwt
              1
              (bearer token)
              (pin "mavic" true)
              locker).1)
serve_route-IsConfined_example =
    serve_route-IsConfined (repository user_id) (repository gear_id) redis jwt 1 (bearer token)
      (pin "mavic" true) locker
