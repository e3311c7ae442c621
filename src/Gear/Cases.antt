-- ===== src/Gear/Cases.antt =====
-- Case analysis of the three methods of gear.service.ts that write: each refuses and leaves the
-- state as it was, or saves one row.
use skillhunt.Common.{
  ℕ, ◌≡◌, inl, inr, String, Bool, true, false, ◌&&◌, none, some, [], ◌∷◌, ◌==◌, string_eq, arith,
  Option-cases, Bool-cases, ◌≢◌, Result, ok, err, HttpError, conflict, not_found,
}
use skillhunt.Enums.{freelance, role_eq, GearStatus, gear_status_eq}
use skillhunt.Entities.{User, Gear, user_id, gear_id}
use skillhunt.Store.{Repository}
use skillhunt.Redis.{Redis}
use skillhunt.Events.{publish}
use skillhunt.Gear.{
  Locker, AddGearDto, add_gear_to_locker, set_loadout, review_gear, owned_by, showcase_error,
  reviewed, review_event,
}

module _ {U G R : Type 0} (users : Repository User user_id U) (gears : Repository Gear gear_id G)
    (redis : Redis R) where
  -- The row that a declaration inserts.
  abbrev pub declared : ℕ → String → AddGearDto → G → Gear
  declared now f dto t = record {
    id = gears.generate t;
    brand = dto.brand;
    model = dto.model;
    serial_number = dto.serial_number;
    category = dto.category;
    status = GearStatus.pending;
    is_in_loadout = false;
    created_at = now;
    freelance_id = f;
  }

  pub add_cases {ℓ} :
      (P : Result Gear × Locker U G R → Type ℓ) (now : ℕ) (f : String) (dto : AddGearDto)
      (s : Locker U G R)
      → (users.find_one (λ u. u.id == f) s.users ≡ none
          → P (err (not_found "Profil Freelance introuvable ou non autorisé"), s))
      → ((u : User)
          → users.find_one (λ u. u.id == f) s.users ≡ some u
          → (u.role == freelance) ≡ false
          → P (err (not_found "Profil Freelance introuvable ou non autorisé"), s))
      → ((u : User)
          → users.find_one (λ u. u.id == f) s.users ≡ some u
          → (u.role == freelance) ≡ true
          → P (
            ok (declared now u.id dto s.gears),
            record s { gears = gears.save (declared now u.id dto s.gears) s.gears },
          ))
      → P (add_gear_to_locker users gears redis now f dto s)
  unfolding add_gear_to_locker
  add_cases P now f dto s missing wrong added =
      elim (Option-cases (users.find_one (λ u. u.id == f) s.users)) [
        | inl e ↦ rw (e, add_gear_to_locker) (missing e)
        | inr (u, e) ↦ elim (Bool-cases (u.role == freelance)) [
          | inl r ↦ rw (e, r, add_gear_to_locker) (added u e r)
          | inr r ↦ rw (e, r, add_gear_to_locker) (wrong u e r)
        ]
      ]

  pub set_loadout_cases {ℓ} :
      (P : Result Gear × Locker U G R → Type ℓ) (f id : String) (b : Bool) (s : Locker U G R)
      → (gears.find_one (λ g. g.id == id && owned_by f g) s.gears ≡ none
          → P (err (not_found "Équipement introuvable"), s))
      → ((g : Gear) (e : HttpError)
          → gears.find_one (λ g. g.id == id && owned_by f g) s.gears ≡ some g
          → showcase_error users gears redis f g b s ≡ some e
          → P (err e, s))
      → ((g : Gear)
          → gears.find_one (λ g. g.id == id && owned_by f g) s.gears ≡ some g
          → showcase_error users gears redis f g b s ≡ none
          → P (
            ok (record g { is_in_loadout = b }),
            record s { gears = gears.save (record g { is_in_loadout = b }) s.gears },
          ))
      → P (set_loadout users gears redis f id b s)
  unfolding set_loadout
  set_loadout_cases P f id b s missing refused saved =
      elim (Option-cases (gears.find_one (λ g. g.id == id && owned_by f g) s.gears)) [
        | inl e ↦ rw (e, set_loadout) (missing e)
        | inr (g, e) ↦ elim (Option-cases (showcase_error users gears redis f g b s)) [
          | inl r ↦ rw (e, r, set_loadout) (saved g e r)
          | inr (x, r) ↦ rw (e, r, set_loadout) (refused g x e r)
        ]
      ]

  pub review_cases {ℓ} :
      (P : Result Gear × Locker U G R → Type ℓ) (id : String) (d : GearStatus) (s : Locker U G R)
      → (gears.find_one (λ g. g.id == id) s.gears ≡ none
          → P (err (not_found "Équipement introuvable"), s))
      → ((g : Gear)
          → gears.find_one (λ g. g.id == id) s.gears ≡ some g
          → g.status ≢ GearStatus.pending
          → P (err (conflict "Cet équipement a déjà été traité"), s))
      → ((g : Gear)
          → gears.find_one (λ g. g.id == id) s.gears ≡ some g
          → g.status ≡ GearStatus.pending
          → let saved = reviewed users gears redis g d in
            P (
              ok saved,
              record s {
                gears = gears.save saved s.gears;
                redis =
                    publish redis
                      (review_event users gears redis d)
                      (("gearId", saved.id) ∷ ("freelanceId", saved.freelance_id) ∷ [])
                      s.redis;
              },
            ))
      → P (review_gear users gears redis id d s)
  unfolding review_gear
  review_cases P id d s missing treated saved =
      elim (Option-cases (gears.find_one (λ g. g.id == id) s.gears)) [
        | inl e ↦ rw (e, review_gear) (missing e)
        | inr (g, e) ↦ elim (Bool-cases (g.status == GearStatus.pending)) [
          | inl r ↦ rw (e, r, review_gear) (saved g e (ground arith))
          | inr r ↦ rw (e, r, review_gear) (treated g e (λ h. ground arith))
        ]
      ]
