-- ===== src/Storage.antt =====
-- backend-core/src/storage/storage.service.ts: the port of the private document store. Its
-- implementations call S3 or keep a map; the port is a parameter, with what its comments promise
-- as laws. A call may reject (`false`).
pub mod Fake
use skillhunt.Common.{ℕ, ◌≡◌, String, Bool, true, false, Option, none, some, List, ◌==◌, string_eq}

pub record StorageService (S : Type 0) : Type 0 where
  -- The object at a key, as bytes.
  pub object : S → String → Option (List ℕ)
  pub put : String → List ℕ → String → S → Bool × S
  pub get_signed_url : String → ℕ → S → Option String
  pub delete : String → S → Bool × S
  pub object-put :
      (s : S) (key mime : String) (body : List ℕ)
      → (put key body mime s).0 ≡ true
      → object (put key body mime s).1 key ≡ some body
  pub object-delete :
      (s : S) (key : String) → (delete key s).0 ≡ true → object (delete key s).1 key ≡ none
  pub object-delete_other :
      (s : S) (key k : String) → (key == k) ≡ false → object (delete key s).1 k ≡ object s k
