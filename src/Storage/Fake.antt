-- ===== src/Storage/Fake.antt =====
-- backend-core/src/storage/fake-storage.service.ts: the port on a map in memory. The map is a
-- function; `size`, a helper of its tests, is not modelled.
use Prim.Native.String
use skillhunt.Common.{
  ℕ, ◌≡◌, String, true, false, Option, none, some, List, ◌==◌, string_eq, arith, if◌then◌else◌,
  beq_self,
}
use skillhunt.Storage.{StorageService}

pub record StoredObject : Type 0 where
  pub body : List ℕ
  pub content_type : String

abbrev pub FakeStorage : Type 0
FakeStorage = String → Option StoredObject

abbrev pub put : String → List ℕ → String → FakeStorage → FakeStorage
put key body content_type store k =
    if key == k then some (record { body = body; content_type = content_type }) else store k

-- The two projections of `this.store.get(key)?.…`.
abbrev pub body_of : Option StoredObject → Option (List ℕ)
body_of none = none
body_of (some o) = some o.body

abbrev pub type_of : Option StoredObject → Option String
type_of none = none
type_of (some o) = some o.content_type

-- The answer where the key is known; an unknown key is refused.
abbrev pub if_known : Option StoredObject → String → Option String
if_known none url = none
if_known (some o) url = some url

-- `encode` is `encodeURIComponent` and `text` writes a number.
abbrev pub get_signed_url :
    (String → String) → (ℕ → String) → String → ℕ → FakeStorage → Option String
get_signed_url encode text key ttl store = if_known (store key) (
    String.◌++◌ "https://fake-storage.local/"
      (String.◌++◌ (encode key) (String.◌++◌ "?ttl=" (text ttl))))

abbrev pub delete : String → FakeStorage → FakeStorage
delete key store k = if key == k then none else store k

abbrev pub get : String → FakeStorage → Option (List ℕ)
get key store = body_of (store key)

abbrev pub get_content_type : String → FakeStorage → Option String
get_content_type key store = type_of (store key)

pub get-put :
    (key mime : String) (body : List ℕ) (s : FakeStorage)
    → get key (put key body mime s) ≡ some body
get-put key mime body s = ground (arith, beq_self key)

pub get-delete : (key : String) (s : FakeStorage) → get key (delete key s) ≡ none
get-delete key s = ground (arith, beq_self key)

pub get-delete_other :
    (key k : String) (s : FakeStorage) → (key == k) ≡ false → get k (delete key s) ≡ get k s
get-delete_other key k s h = ground arith

-- The port's laws hold of it.
abbrev pub fake : (String → String) → (ℕ → String) → StorageService FakeStorage
fake encode text = record {
  object = λ s key. get key s;
  put = λ key body mime s. (true, put key body mime s);
  get_signed_url = get_signed_url encode text;
  delete = λ key s. (true, delete key s);
  object-put = λ s key mime body _. get-put key mime body s;
  object-delete = λ s key _. get-delete key s;
  object-delete_other = λ s key k h. get-delete_other key k s h;
}
