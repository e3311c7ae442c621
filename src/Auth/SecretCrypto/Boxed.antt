-- ===== src/Auth/SecretCrypto/Boxed.antt =====
-- two-factor-crypto.ts is what the services take it for.
use skillhunt.Common.{
  suc, ◌≡◌, ◌≢◌, refl, ap, ◌∙◌, String, Option, some, [], ◌∷◌, map, ◌==◌, nat_eq, nat_beq_iff,
  Bool-cases, Option-cases, inl, inr, ok, err, truthy, internal, ◌⊎◌,
}
use skillhunt.Common.Text.{trim, split_on}
use skillhunt.Common.Text.Laws.{split_on-append, split_on-lacks}
use skillhunt.External.{SecretBox}
use skillhunt.Auth.SecretCrypto.{
  NodeCrypto, Keys, wrong_size, load_two_factor_key, framed, unframed, plaintext,
  encrypt_two_factor_secret, decrypt_two_factor_secret, generated,
}

module _ {B : Type 0} (node : NodeCrypto B) where
  -- An ephemeral key that was generated has 32 bytes.
  abbrev pub IsSound : Keys B → Type 0
  IsSound s = (key : B) → s.ephemeral ≡ some key → node.byte_length key ≡ 32

  split_on-framed :
      (iv ciphertext tag : B)
      → map node.of_base64 (split_on "." (framed node iv (ciphertext, tag)))
        ≡ iv ∷ ciphertext ∷ tag ∷ []
  split_on-framed iv ciphertext tag =
      ap (map node.of_base64) (
        split_on-append "." (node.to_base64 iv) _ (node.to_base64-lacks iv)
        ∙ ap (λ l. node.to_base64 iv ∷ l)
            (split_on-append "." (node.to_base64 ciphertext) (node.to_base64 tag)
                (node.to_base64-lacks ciphertext)
              ∙ ap (λ l. node.to_base64 ciphertext ∷ l)
                  (split_on-lacks "." (node.to_base64 tag) (node.to_base64-lacks tag))))
      ∙ simp
          (
            node.of_base64-to_base64 iv,
            node.of_base64-to_base64 ciphertext,
            node.of_base64-to_base64 tag,
          )
          refl

  pub unframed-framed :
      (key iv : B) (text : String)
      → node.byte_length key ≡ 32
      → unframed node key
          (map node.of_base64 (split_on "." (framed node iv (node.seal key iv text))))
        ≡ some text
  unframed-framed key iv text h =
      ap (unframed node key)
        (split_on-framed iv (node.seal key iv text).0 (node.seal key iv text).1)
      ∙ node.unseal-seal key iv text h

  -- The box of a key.
  abbrev pub box_of : (key : B) → node.byte_length key ≡ 32 → SecretBox
  box_of key h = record {
    encrypt = λ n text. let iv = node.random_bytes n 12 in framed node iv (node.seal key iv text);
    decrypt = λ payload. unframed node key (map node.of_base64 (split_on "." payload));
    decrypt-encrypt = λ n text. unframed-framed key (node.random_bytes n 12) text h;
  }

  -- The process has `key`: it loads it whenever its ephemeral key is `held`.
  pub record HasKey (env : Option String) (key : B) (held : Option B) : Type 0 where
    pub long : node.byte_length key ≡ 32
    pub loads : (t : Keys B) → t.ephemeral ≡ held → load_two_factor_key node env t ≡ (ok key, t)

  -- The two functions act as the box in every later state of the process.
  pub record IsBoxed (env : Option String) (held : Option B) (box : SecretBox) : Type 0 where
    pub encrypts :
        (text : String) (t : Keys B)
        → t.ephemeral ≡ held
        → encrypt_two_factor_secret node env text t
          ≡ (ok (box.encrypt t.draws text), record t { draws = suc t.draws })
    pub decrypts :
        (payload : String) (t : Keys B)
        → t.ephemeral ≡ held
        → decrypt_two_factor_secret node env payload t ≡ (plaintext node (box.decrypt payload), t)

  HasKey-IsBoxed :
      (env : Option String) (key : B) (held : Option B)
      → (k : HasKey env key held) → IsBoxed env held (box_of key k.long)
  unfolding encrypt_two_factor_secret decrypt_two_factor_secret
  HasKey-IsBoxed env key held k = record {
    encrypts = λ text t h. simp (k.loads t h) refl;
    decrypts = λ payload t h. simp (k.loads t h) refl;
  }

  -- A key is configured, whose size is not that of AES-256.
  pub record IsMisconfigured (env : Option String) : Type 0 where
    pub raw : String
    pub configured : truthy env ≡ some raw
    pub other_size : node.byte_length (node.of_base64 (trim raw)) ≢ 32

  -- The key that is loaded first stays.
  load_cases :
      (env : Option String) (s : Keys B)
      → IsSound s
      → (IsMisconfigured env × (load_two_factor_key node env s ≡ (err (internal wrong_size), s)))
        ⊎ ((key : B) × (s' : Keys B) × (load_two_factor_key node env s ≡ (ok key, s'))
            × HasKey env key s'.ephemeral)
  load_cases env s sound = elim (Option-cases (truthy env)) [
    | inr (raw, e) ↦ elim (Bool-cases (node.byte_length (node.of_base64 (trim raw)) == 32)) [
      | inl f ↦ inr (
        node.of_base64 (trim raw),
        s,
        simp (e, f) refl,
        record { long = (nat_beq_iff _ 32).0 f; loads = λ t h. simp (e, f) refl },
      )
      | inr f ↦ inl (
        record {
          raw = raw;
          configured = e;
          other_size = λ k.
              let g = (nat_beq_iff (node.byte_length (node.of_base64 (trim raw))) 32).1 k in cc;
        },
        simp (e, f) refl,
      )
    ]
    | inl e ↦ elim (Option-cases s.ephemeral) [
      | inl f ↦
          let key = node.random_bytes s.draws 32 in
          inr (
            key,
            generated node key s,
            simp (e, f) refl,
            record {
              long = node.byte_length-random_bytes s.draws 32;
              loads = λ t h. simp (e, h) refl;
            },
          )
      | inr (key, f) ↦ inr (
        key,
        s,
        simp (e, f) refl,
        record { long = sound key f; loads = λ t h. simp (e, h, f) refl },
      )
    ]
  ]

  -- From a state whose ephemeral key, if there is one, has 32 bytes: either the configured key has
  -- another size, and both functions throw and change nothing; or the first use settles a key, and from
  -- then on, whatever else is encrypted, both functions act as one box, which opens what it sealed.
  pub two_factor_crypto-IsBoxed :
      (env : Option String) (s : Keys B)
      → IsSound s
      → (IsMisconfigured env
          × ((text : String)
              → (encrypt_two_factor_secret node env text s ≡ (err (internal wrong_size), s))
                × (decrypt_two_factor_secret node env text s ≡ (err (internal wrong_size), s))))
        ⊎ ((box : SecretBox) × (held : Option B) × IsBoxed env held box
            × ((text : String)
                → ((encrypt_two_factor_secret node env text s).1.ephemeral ≡ held)
                  × ((decrypt_two_factor_secret node env text s).1.ephemeral ≡ held)))
  unfolding encrypt_two_factor_secret decrypt_two_factor_secret
  two_factor_crypto-IsBoxed env s sound = elim (load_cases env s sound) [
    | inl (bad, e) ↦ inl (bad, λ text. (simp e refl, simp e refl))
    | inr (key, s', e, k) ↦ inr (
      box_of key k.long,
      s'.ephemeral,
      HasKey-IsBoxed env key s'.ephemeral k,
      λ text. (simp e refl, simp e refl),
    )
  ]
