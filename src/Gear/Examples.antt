-- ===== src/Gear/Examples.antt =====
-- The locker service on tables in memory.
use skillhunt.Common.{
  ℕ, ◌≤◌, ◌≡◌, refl, String, Bool, true, false, none, List, [], ◌∷◌, length, count, ◌&&◌, ok, err,
  HttpError, conflict, not_found, arith, All, Bool-cases, some-injective, subst, sym, ap, ◌∙◌, inl,
  inr, if◌then◌else◌, nat_eq, ◌==◌, some, string_eq,
}
use skillhunt.Enums.{freelance, drone, GearStatus}
use skillhunt.Entities.{User, Gear, user_id, gear_id}
use skillhunt.Store.Table
use skillhunt.Store.Table.{Table, repository, empty}
use skillhunt.Store.Order.{IsSorted}
use skillhunt.Redis.Memory.{Memory, fresh, redis}
use skillhunt.Gear.{
  Locker, AddGearDto, QueryGearDto, PublicQueryGearDto, PublicGearView, Paginated, gear_order,
  review_gear, get_public_freelance_gear,
}
use skillhunt.Gear.Showcase.{IsShowcase}
use skillhunt.Gear.Requests.{Request, add, pin, review, serve, serve-IsShowcase}
use skillhunt.Gear.Review.{IsDecided, review_effect}
use skillhunt.Gear.Decided.{decision_stands}
use skillhunt.Gear.Listing.{IsShownRow, public_listing, pages_complete, pages, locker_test}

abbrev ann : User
ann = record {
  id = "ann";
  email = "ann@example.org";
  username = "ann";
  password_hash = "pw";
  role = freelance;
  location = none;
  two_factor_enabled = false;
  two_factor_secret_encrypted = none;
  two_factor_backup_codes_hashed = none;
  created_at = 0;
}

abbrev gear : String → GearStatus → Bool → ℕ → Gear
gear id status pinned at = record {
  id = id;
  brand = "DJI";
  model = "Mavic";
  serial_number = id;
  category = drone;
  status = status;
  is_in_loadout = pinned;
  created_at = at;
  freelance_id = "ann";
}

abbrev people : Table User user_id
people = Table.save user_id ann (empty user_id)

abbrev stock : Table Gear gear_id
stock = Table.save gear_id (gear "g1" GearStatus.validated true 1) (
    Table.save gear_id (gear "g2" GearStatus.pending false 2)
      (Table.save gear_id (gear "g3" GearStatus.validated false 3) (empty gear_id)))

abbrev lockers : Locker (Table User user_id) (Table Gear gear_id) Memory
lockers = record { users = people; gears = stock; redis = fresh }

abbrev no_lockers : Locker (Table User user_id) (Table Gear gear_id) Memory
no_lockers = record { users = people; gears = empty gear_id; redis = fresh }

abbrev purchase : AddGearDto
purchase = record { category = drone; brand = "DJI"; model = "Mini"; serial_number = "s" }

-- A piece of gear is declared, validated under the id that it was given, and pinned.
abbrev requests : List Request
requests = add 7 "ann" purchase ∷ review "+" GearStatus.validated ∷ pin "ann" "+" true ∷ []

serve-IsShowcase_example :
    IsShowcase
      (repository gear_id)
      (serve (repository user_id) (repository gear_id) redis requests no_lockers).gears
serve-IsShowcase_example =
    serve-IsShowcase (repository user_id) (repository gear_id) redis requests no_lockers
      (record { only_validated = λ k g e p. cc; at_most_four = λ f. omega arith })

abbrev validated_g2 : Gear
validated_g2 = gear "g2" GearStatus.validated false 2

abbrev decided : Locker (Table User user_id) (Table Gear gear_id) Memory
decided =
    (review_gear (repository user_id) (repository gear_id) redis "g2" GearStatus.validated
      lockers).1

abbrev followers : List Request
followers = pin "ann" "g2" true ∷ add 9 "ann" purchase ∷ review "g3" GearStatus.rejected ∷ []

decision_stands_example :
    let s' = serve (repository user_id) (repository gear_id) redis followers decided in
    review_gear (repository user_id) (repository gear_id) redis "g2" GearStatus.rejected s'
    ≡ (err (conflict "Cet équipement a déjà été traité"), s')
unfolding review_gear
decision_stands_example =
    decision_stands (repository user_id) (repository gear_id) redis "g2" GearStatus.validated
      GearStatus.rejected followers lockers validated_g2 (λ e. cc) refl

review_effect_example :
    let (r, s') =
      review_gear
        (repository user_id)
        (repository gear_id)
        redis
        "g2"
        GearStatus.rejected
        lockers in
    ((e : HttpError) → r ≡ err e → s' ≡ lockers)
    × ((g : Gear)
        → r ≡ ok g
        → IsDecided
            (repository user_id)
            (repository gear_id)
            redis
            "g2"
            GearStatus.rejected
            lockers
            g
            s')
review_effect_example =
    review_effect (repository user_id) (repository gear_id) redis "g2" GearStatus.rejected lockers

abbrev first_page : PublicQueryGearDto
first_page = record { category = none; page = 1; limit = 20 }

public_listing_example :
    let (r, s') =
      get_public_freelance_gear
        (repository user_id)
        (repository gear_id)
        redis
        "ann"
        first_page
        lockers in
    (s' ≡ lockers)
    × ((e : HttpError) → r ≡ err e → e ≡ not_found "Profil Freelance introuvable")
    × ((page : Paginated PublicGearView)
        → r ≡ ok page
        → All (IsShownRow (repository user_id) (repository gear_id) redis "ann" stock) page.items
          × (length page.items ≤ 20))
public_listing_example =
    public_listing (repository user_id) (repository gear_id) redis "ann" first_page lockers

abbrev pairs_of_gear : QueryGearDto
pairs_of_gear = record { category = none; status = none; page = 1; limit = 2 }

-- The dates tell the stock apart.
abbrev gear_of : ℕ → Gear
gear_of date =
    if date == 1
    then gear "g1" GearStatus.validated true 1
    else if date == 2
    then gear "g2" GearStatus.pending false 2
    else gear "g3" GearStatus.validated false 3

dated : (k : String) (g : Gear) → Table.row gear_id stock k ≡ some g → g ≡ gear_of g.created_at
dated k g h = elim (Bool-cases ("g3" == k)) [
  | inl e ↦ subst (λ x. x ≡ gear_of x.created_at) (some-injective (simp e at h)) refl
  | inr e ↦ elim (Bool-cases ("g2" == k)) [
    | inl f ↦ subst (λ x. x ≡ gear_of x.created_at) (some-injective (simp (e, f) at h)) refl
    | inr f ↦ elim (Bool-cases ("g1" == k)) [
      | inl i ↦ subst (λ x. x ≡ gear_of x.created_at) (some-injective (simp (e, f, i) at h)) refl
      | inr i ↦ let n = simp (e, f, i) at h in cc
    ]
  ]
]

pages_complete_example :
    (count
        (λ g. g.is_in_loadout)
        (pages (repository user_id) (repository gear_id) redis "ann" pairs_of_gear lockers 2)
      ≡ count
          (λ g.
            locker_test (repository user_id) (repository gear_id) redis "ann" pairs_of_gear g
            && g.is_in_loadout)
          stock.rows)
    × IsSorted gear_order
        (pages (repository user_id) (repository gear_id) redis "ann" pairs_of_gear lockers 2)
pages_complete_example =
    pages_complete (repository user_id) (repository gear_id) redis "ann" pairs_of_gear lockers 2
      (λ g. g.is_in_loadout)
      (record {
        apart = λ a b h k pinned date. dated a.id a h.1 ∙ ap gear_of date ∙ sym (dated b.id b k.1);
      })
      (omega arith)
