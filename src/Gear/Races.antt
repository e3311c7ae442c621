-- ===== src/Gear/Races.antt =====
-- Two `setLoadout` requests of gear.service.ts at the same time: at each `await` the other may go on.
mod Examples
use skillhunt.Common.{
  ◌≡◌, refl, String, Bool, true, false, ◌&&◌, Option, none, some, List, [], ◌∷◌, ◌==◌, string_eq,
  Exec, HttpError, Option-cases, inl, inr,
}
use skillhunt.Entities.{User, Gear, user_id, gear_id}
use skillhunt.Store.{Repository}
use skillhunt.Redis.{Redis}
use skillhunt.Gear.{Locker, set_loadout, owned_by, showcase_error}
use skillhunt.Gear.Cases.{set_loadout_cases}

-- Where a request stands: before `findOne`, before the guards with their `count`, before `save`, or at
-- its end.
pub data Stage : Type 0 where
  asked : String → String → Bool → Stage
  found : String → Gear → Bool → Stage
  allowed : Gear → Bool → Stage
  finished : Stage

module _ {U G R : Type 0} (users : Repository User user_id U) (gears : Repository Gear gear_id G)
    (redis : Redis R) where
  abbrev pub after_find : String → Bool → Option Gear → Stage
  after_find f b none = finished
  after_find f b (some g) = found f g b

  abbrev pub after_guards : Gear → Bool → Option HttpError → Stage
  after_guards g b none = allowed g b
  after_guards g b (some e) = finished

  -- Up to the next `await`.
  abbrev pub advance : Stage → Locker U G R → Stage × Locker U G R
  advance (asked f id b) s =
      (after_find f b (gears.find_one (λ g. g.id == id && owned_by f g) s.gears), s)
  advance (found f g b) s = (after_guards g b (showcase_error users gears redis f g b s), s)
  advance (allowed g b) s =
      (finished, record s { gears = gears.save (record g { is_in_loadout = b }) s.gears })
  advance finished s = (finished, s)

  -- Two requests on one locker; the schedule says whose turn it is.
  pub record Race : Type 0 where
    pub first : Stage
    pub second : Stage
    pub locker : Locker U G R

  abbrev pub turn : Bool → Race → Race
  turn true r =
      let (stage, locker) = advance r.first r.locker in
      record { first = stage; second = r.second; locker = locker }
  turn false r =
      let (stage, locker) = advance r.second r.locker in
      record { first = r.first; second = stage; locker = locker }

  abbrev pub interleave : List Bool → Race → Race
  interleave [] r = r
  interleave (b ∷ bs) r = interleave bs (turn b r)

  -- A request whose three steps follow each other is the method.
  pub interleave-set_loadout :
      (f id : String) (b : Bool) (second : Stage) (s : Locker U G R)
      → interleave
          (true ∷ true ∷ true ∷ [])
          (record { first = asked f id b; second = second; locker = s })
        ≡ record {
          first = finished;
          second = second;
          locker = (set_loadout users gears redis f id b s).1;
        }
  interleave-set_loadout f id b second s =
      set_loadout_cases users gears redis
        (λ r.
          interleave (true ∷ true ∷ true ∷ [])
            (record { first = asked f id b; second = second; locker = s })
          ≡ record { first = finished; second = second; locker = r.1 })
        f id b s (λ e. simp e refl) (λ g x e h. simp (e, h) refl) (λ g e h. simp (e, h) refl)
