-- ===== src/Gear/Review.antt =====
-- The admin's decision on a piece of gear, and what the writing methods leave alone.
use skillhunt.Common.{
  ◌≡◌, ◌≢◌, refl, String, true, false, some, List, [], ◌∷◌, ◌++◌, ◌==◌, string_eq, eq_iff, arith,
  subst, ok-injective, ok, err, HttpError, conflict, if◌then◌else◌,
}
use skillhunt.Enums.{GearStatus, gear_status_eq}
use skillhunt.Entities.{User, Gear, user_id, gear_id}
use skillhunt.Store.{Repository}
use skillhunt.Store.Lookup.{find_one-key}
use skillhunt.Redis.{Redis}
use skillhunt.Events.{publish, event_fields, gear_validated, gear_rejected}
use skillhunt.Gear.{Locker, review_gear, reviewed}
use skillhunt.Gear.Cases.{review_cases}

module _ {U G R : Type 0} (users : Repository User user_id U) (gears : Repository Gear gear_id G)
    (redis : Redis R) where
  pub treated :
      (id : String) (d : GearStatus) (s : Locker U G R) (g : Gear)
      → gears.row s.gears id ≡ some g
      → g.status ≢ GearStatus.pending
      → review_gear users gears redis id d s
        ≡ (err (conflict "Cet équipement a déjà été traité"), s)
  unfolding review_gear
  treated id d s g stored done =
      rw (find_one-key gears s.gears id, stored, review_gear) (ground arith)

  abbrev review_message : GearStatus → Gear → List String
  review_message d g =
      event_fields (if d == GearStatus.validated then gear_validated else gear_rejected)
        (("gearId", g.id) ∷ ("freelanceId", g.freelance_id) ∷ [])

  -- What a decision does, from the state `s` to `s'`.
  pub record IsDecided (id : String) (d : GearStatus) (s : Locker U G R) (g : Gear)
      (s' : Locker U G R) : Type 0 where
    pub old : Gear
    pub stored : gears.row s.gears id ≡ some old
    pub was_pending : old.status ≡ GearStatus.pending
    pub decided : g ≡ record old {
      status = d;
      is_in_loadout = if d == GearStatus.rejected then false else old.is_in_loadout;
    }
    pub rows :
        (k : String) → gears.row s'.gears k ≡ (if id == k then some g else gears.row s.gears k)
    pub published :
        (redis.xadd (review_message d g) s.redis).0 ≡ true
        → redis.stream s'.redis ≡ redis.stream s.redis ++ review_message d g ∷ []

  abbrev saved_state : Locker U G R → GearStatus → Gear → Locker U G R
  saved_state s d g = record s {
    gears = gears.save g s.gears;
    redis = (redis.xadd (review_message d g) s.redis).1;
  }

  reviewed-IsDecided :
      (id : String) (d : GearStatus) (s : Locker U G R) (g saved : Gear)
      → gears.row s.gears id ≡ some g
      → g.id ≡ id
      → g.status ≡ GearStatus.pending
      → reviewed users gears redis g d ≡ saved
      → IsDecided id d s saved (saved_state s d saved)
  reviewed-IsDecided id d s g saved stored same waiting e = record {
    old = g;
    stored = stored;
    was_pending = waiting;
    decided = ground arith;
    rows = λ k. ground (arith, gears.row-save s.gears saved k);
    published = redis.stream-xadd s.redis (review_message d saved);
  }

  -- A review that throws writes nothing. One that returns was of a stored and pending piece of
  -- gear: it saves it with the decision, off the showcase if rejected, changes no other row, and
  -- hands Redis one event, with the decision's type and the two ids, which ends the stream if
  -- Redis takes it.
  pub review_effect :
      (id : String) (d : GearStatus) (s : Locker U G R)
      → let (r, s') = review_gear users gears redis id d s in
        ((e : HttpError) → r ≡ err e → s' ≡ s) × ((g : Gear) → r ≡ ok g → IsDecided id d s g s')
  unfolding publish
  review_effect id d s =
      review_cases users gears redis
        (λ (r, s').
          ((e : HttpError) → r ≡ err e → s' ≡ s) × ((g : Gear) → r ≡ ok g → IsDecided id d s g s'))
        id d s (λ _. (λ e _. refl, λ g h. cc)) (λ _ _ _. (λ e _. refl, λ g h. cc))
        λ old found waiting.
          let (meets, stored) = gears.find_one_sound s.gears _ old found in
          let same : old.id ≡ id = (eq_iff old.id id).0 meets in
          let saved = reviewed users gears redis old d in
          (
            λ e h. cc,
            λ g h.
                subst (λ x. IsDecided id d s x (saved_state s d saved)) (ok-injective h)
                  (reviewed-IsDecided id d s old saved
                    (subst (λ k. gears.row s.gears k ≡ some old) same stored) same waiting refl),
          )
