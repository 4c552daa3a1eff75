-- ===== src/Encryption/RoundTrip.antt =====
-- What src/titlani/encryption/manager.py encrypts it decrypts.
use titlani.Base.{
  ℕ, ◌+◌, false, List, [], ◌∷◌, ◌++◌, some, ltb, take, drop, length, length-append, drop-append, ok,
  ◌≡◌, refl, ap, arith, subst,
}
use titlani.Str.Core.{Text, Bytes}
use titlani.Server.State.{lookup, insert}
use titlani.Server.State.Dict.{lookup-insert}
use titlani.Encryption.{
  x25519, Crypto, EncryptionManager, load_key_for_mailbox, encrypt, decrypt_with_private_key,
  decrypt, decrypt_with_key, min_token_size,
}

-- What the cryptography library documents: a raw public key has 32 bytes and is read back, two keys
-- agree on a secret, and a ciphertext is 16 bytes longer than its text and is decrypted under its own
-- key and nonce.
pub record CryptoLaws (crypto : Crypto) : Type 0 where
  pub raw_size : (k : crypto.PublicKey) → length (crypto.public_bytes k) ≡ 32
  pub reads_back :
      (k : crypto.PublicKey) → crypto.from_public_bytes (crypto.public_bytes k) ≡ some k
  pub agrees :
      (a b : crypto.PrivateKey)
      → (secret : Bytes) × (crypto.exchange a (crypto.public_key b) ≡ some secret)
        × (crypto.exchange b (crypto.public_key a) ≡ some secret)
  pub sealed_size :
      (key nonce plain : Bytes) → length (crypto.aead_encrypt key nonce plain) ≡ length plain + 16
  pub opens :
      (key nonce plain : Bytes)
      → crypto.aead_decrypt key nonce (crypto.aead_encrypt key nonce plain) ≡ some plain

take-append {ℓ} : {A : Type ℓ} (xs ys : List A) → take (length xs) (xs ++ ys) ≡ xs
take-append [] ys = refl
take-append (x ∷ xs) ys = ap (λ t. x ∷ t) (take-append xs ys)

pub take-append_length {ℓ} :
    {A : Type ℓ} (n : ℕ) (xs ys : List A) → length xs ≡ n → take n (xs ++ ys) ≡ xs
take-append_length n xs ys h = subst (λ k. take k (xs ++ ys) ≡ xs) h (take-append xs ys)

drop-append_length {ℓ} :
    {A : Type ℓ} (n : ℕ) (xs ys : List A) → length xs ≡ n → drop n (xs ++ ys) ≡ ys
drop-append_length n xs ys h = subst (λ k. drop k (xs ++ ys) ≡ ys) h (drop-append xs ys)

module _ (crypto : Crypto) (laws : CryptoLaws crypto) where
  open crypto use {
    PrivateKey, public_key, public_bytes, aead_encrypt, derive_symmetric_key, exchange,
  }

  decrypt_with_private_key-sealed :
      (key ephemeral : PrivateKey) (secret nonce plain : Bytes)
      → length nonce ≡ 12
      → exchange key (public_key ephemeral) ≡ some secret
      → decrypt_with_private_key crypto key (
          public_bytes (public_key ephemeral)
          ++ (nonce ++ aead_encrypt (derive_symmetric_key secret) nonce plain))
        ≡ ok plain
  unfolding decrypt_with_private_key
  decrypt_with_private_key-sealed key ephemeral secret nonce plain sized shared =
      let raw = public_bytes (public_key ephemeral) in
      let cipher = aead_encrypt (derive_symmetric_key secret) nonce plain in
      let long : ltb (length (raw ++ (nonce ++ cipher))) min_token_size ≡ false = ground (
        arith,
        length-append raw (nonce ++ cipher),
        length-append nonce cipher,
        laws.raw_size (public_key ephemeral),
        laws.sealed_size (derive_symmetric_key secret) nonce plain,
        sized,
      ) in
      rw (
        long,
        take-append_length 32 raw (nonce ++ cipher) (laws.raw_size (public_key ephemeral)),
        laws.reads_back (public_key ephemeral),
        drop-append_length 32 raw (nonce ++ cipher) (laws.raw_size (public_key ephemeral)),
        shared,
        take-append_length 12 nonce cipher sized,
        drop-append_length 12 nonce cipher sized,
        laws.opens (derive_symmetric_key secret) nonce plain,
      )

  -- With a private key that was loaded for a mailbox, every text is encrypted, whatever the random key
  -- and the nonce of twelve bytes are; the token is 60 bytes longer than the text, and is decrypted to
  -- it, by the manager as by the key alone.
  pub decrypt-encrypt :
      (m : EncryptionManager crypto) (mailbox : Text) (key ephemeral : PrivateKey)
      (nonce plain : Bytes) {m' : EncryptionManager crypto}
      → load_key_for_mailbox crypto m mailbox (x25519 key) ≡ ok m'
      → length nonce ≡ 12
      → (token : Bytes) × (encrypt crypto m' ephemeral nonce mailbox plain ≡ ok token)
        × (length token ≡ length plain + 60)
        × (decrypt crypto m' mailbox token ≡ ok plain)
        × (decrypt_with_key crypto (x25519 key) token ≡ ok plain)
  unfolding load_key_for_mailbox encrypt decrypt decrypt_with_key
  decrypt-encrypt m mailbox key ephemeral nonce plain {m'} loaded sized =
      let (secret, there, here) = laws.agrees ephemeral key in
      let raw = public_bytes (public_key ephemeral) in
      let cipher = aead_encrypt (derive_symmetric_key secret) nonce plain in
      let with_key : EncryptionManager crypto = record {
        private_keys = insert mailbox key m.private_keys;
        public_keys = insert mailbox (public_key key) m.public_keys;
      } in
      let kept : with_key ≡ m' = cc loaded in
      let private : lookup mailbox m'.private_keys ≡ some key =
        subst (λ (x : EncryptionManager crypto). lookup mailbox x.private_keys ≡ some key) kept
          (lookup-insert mailbox key m.private_keys) in
      let public : lookup mailbox m'.public_keys ≡ some (public_key key) =
        subst
          (λ (x : EncryptionManager crypto). lookup mailbox x.public_keys ≡ some (public_key key))
          kept (lookup-insert mailbox (public_key key) m.public_keys) in
      let opened = decrypt_with_private_key-sealed key ephemeral secret nonce plain sized here in
      (
        raw ++ (nonce ++ cipher),
        rw (public, there),
        omega (
          arith,
          length-append raw (nonce ++ cipher),
          length-append nonce cipher,
          laws.raw_size (public_key ephemeral),
          laws.sealed_size (derive_symmetric_key secret) nonce plain,
          sized,
        ),
        rw private opened,
        opened,
      )
