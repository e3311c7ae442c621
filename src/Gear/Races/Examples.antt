-- ===== src/Gear/Races/Examples.antt =====
-- Two pins at once on tables in memory.
use skillhunt.Common.{ℕ, ◌≡◌, refl, String, Bool, true, false, List, [], ◌∷◌, count}
use skillhunt.Enums.{drone, GearStatus}
use skillhunt.Entities.{User, Gear, user_id, gear_id}
use skillhunt.Store.Table
use skillhunt.Store.Table.{Table, repository, empty}
use skillhunt.Redis.Memory.{Memory, fresh, redis}
use skillhunt.Gear.{Locker, pinned_by}
use skillhunt.Gear.Races.{asked, interleave}

abbrev camera : String → Bool → Gear
camera id pinned = record {
  id = id;
  brand = "DJI";
  model = "Mini";
  serial_number = id;
  category = drone;
  status = GearStatus.validated;
  is_in_loadout = pinned;
  created_at = 1;
  freelance_id = "ann";
}

abbrev put : String → Bool → Table Gear gear_id → Table Gear gear_id
put id pinned t = Table.save gear_id (camera id pinned) t

-- Three items are pinned, two are not.
abbrev before : Locker (Table User user_id) (Table Gear gear_id) Memory
before = record {
  users = empty user_id;
  gears =
      put "a" true (put "b" true (put "c" true (put "d" false (put "e" false (empty gear_id)))));
  redis = fresh;
}

abbrev pinned_after : List Bool → ℕ
pinned_after schedule =
    count (pinned_by "ann")
      (interleave (repository user_id) (repository gear_id) redis schedule (record {
        first = asked "ann" "d" true;
        second = asked "ann" "e" true;
        locker = before;
      })).locker.gears.rows

-- One after the other, the second is refused.
in_turn : pinned_after (true ∷ true ∷ true ∷ false ∷ false ∷ false ∷ []) ≡ 4
in_turn = refl

-- If both count before either saves, five items are pinned.
at_once : pinned_after (true ∷ true ∷ false ∷ false ∷ true ∷ false ∷ []) ≡ 5
at_once = refl
