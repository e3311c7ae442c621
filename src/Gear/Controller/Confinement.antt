-- ===== src/Gear/Controller/Confinement.antt =====
-- Whose gear a request to gear.controller.ts can change.
use skillhunt.Common.{
  ◌≡◌, ◌⊎◌, refl, sym, ap, ◌∙◌, subst, String, none, some, ◌==◌, string_eq, eq_iff, inl, inr,
  some-injective, Bool-cases, if◌then◌else◌,
}
use skillhunt.Enums.{gear_status_eq}
use skillhunt.Entities.{User, Gear, user_id, gear_id}
use skillhunt.Store.{Repository}
use skillhunt.Redis.{Redis}
use skillhunt.Auth.Guards.{JwtPayload}
use skillhunt.Gear.{Locker}
use skillhunt.Gear.Controller.{
  GearRoute, add_gear, get_my_gear, get_public_gear, get_pending, review, pin,
}

-- Which stored gear a request may change: a pin, the named gear of the caller; a review, the named gear.
abbrev pub MayChange : GearRoute → JwtPayload → Gear → Type 0
MayChange (add_gear now dto) user g = ⊥
MayChange (get_my_gear query) user g = ⊥
MayChange (get_public_gear freelance_id query) user g = ⊥
MayChange (get_pending query) user g = ⊥
MayChange (review id decision) user g = g.id ≡ id
MayChange (pin id in_loadout) user g = (g.id ≡ id) × (g.freelance_id ≡ user.user_id)

module _ {U G R : Type 0} (users : Repository User user_id U) (gears : Repository Gear gear_id G)
    (redis : Redis R) where
  -- No gear goes away or changes hands, what changes may change, and what is new is the caller's.
  pub record IsConfined (route : GearRoute) (user : JwtPayload) (s s' : Locker U G R) : Type 0 where
    pub kept :
        (k : String) (g : Gear)
        → gears.row s.gears k ≡ some g
        → (g' : Gear) × (gears.row s'.gears k ≡ some g')
          × (g'.freelance_id ≡ g.freelance_id)
          × ((g' ≡ g) ⊎ MayChange route user g)
    pub added :
        (k : String) (g : Gear)
        → gears.row s.gears k ≡ none
        → gears.row s'.gears k ≡ some g
        → g.freelance_id ≡ user.user_id
    pub users_kept : s'.users ≡ s.users

  pub unchanged :
      (route : GearRoute) (user : JwtPayload) (s : Locker U G R) → IsConfined route user s s
  unchanged route user s = record {
    kept = λ k g h. (g, h, refl, inl refl);
    added = λ k g h e. cc;
    users_kept = refl;
  }

  after_save :
      (s s' : Locker U G R) (new : Gear) (k : String)
      → s'.gears ≡ gears.save new s.gears
      → gears.row s'.gears k ≡ (if new.id == k then some new else gears.row s.gears k)
  after_save s s' new k saved = ap (λ t. gears.row t k) saved ∙ gears.row-save s.gears new k

  -- A row that is replaced by one of the same owner.
  pub changed :
      (route : GearRoute) (user : JwtPayload) (s s' : Locker U G R) (old new : Gear)
      → gears.row s.gears new.id ≡ some old
      → new.freelance_id ≡ old.freelance_id
      → MayChange route user old
      → s'.gears ≡ gears.save new s.gears
      → s'.users ≡ s.users
      → IsConfined route user s s'
  changed route user s s' old new stored owner may saved same = record {
    kept = λ k g h. elim (Bool-cases (new.id == k)) [
      | inl e ↦
          let here : old ≡ g =
            some-injective (sym stored ∙ ap (gears.row s.gears) ((eq_iff new.id k).0 e) ∙ h) in
          (
            new,
            after_save s s' new k saved ∙ simp e refl,
            owner ∙ ap (λ x. x.freelance_id) here,
            inr (subst (MayChange route user) here may),
          )
      | inr e ↦ (g, after_save s s' new k saved ∙ simp e h, refl, inl refl)
    ];
    added = λ k g h e. elim (Bool-cases (new.id == k)) [
      | inl f ↦ let q = ap (gears.row s.gears) ((eq_iff new.id k).0 f) in cc
      | inr f ↦
          let q : gears.row s'.gears k ≡ gears.row s.gears k =
            after_save s s' new k saved ∙ simp f refl in
          cc
    ];
    users_kept = same;
  }

  pub inserted :
      (route : GearRoute) (user : JwtPayload) (s s' : Locker U G R) (new : Gear)
      → gears.row s.gears new.id ≡ none
      → new.freelance_id ≡ user.user_id
      → s'.gears ≡ gears.save new s.gears
      → s'.users ≡ s.users
      → IsConfined route user s s'
  inserted route user s s' new fresh owner saved same = record {
    kept = λ k g h. elim (Bool-cases (new.id == k)) [
      | inl e ↦ let q = ap (gears.row s.gears) ((eq_iff new.id k).0 e) in cc
      | inr e ↦ (g, after_save s s' new k saved ∙ simp e h, refl, inl refl)
    ];
    added = λ k g h e. elim (Bool-cases (new.id == k)) [
      | inl f ↦
          let q : gears.row s'.gears k ≡ some new = after_save s s' new k saved ∙ simp f refl in
          sym (ap (λ (x : Gear). x.freelance_id) (some-injective (sym q ∙ e))) ∙ owner
      | inr f ↦
          let q : gears.row s'.gears k ≡ gears.row s.gears k =
            after_save s s' new k saved ∙ simp f refl in
          cc
    ];
    users_kept = same;
  }
