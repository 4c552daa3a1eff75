-- ===== src/Tests/Encryption.antt =====
-- The encryption at concrete inputs, with a cipher that hides nothing.
use titlani.Base.{
  ℕ, ◌+◌, ◌-◌, [], ◌∷◌, ◌++◌, Option, none, some, length, length-append, take, ok, ◌≡◌, refl, ap,
  arith,
}
use titlani.Str.Core.{Bytes, codes}
use titlani.Server.State.{insert}
use titlani.Encryption.{
  x25519, Crypto, EncryptionManager, no_keys, load_key_for_mailbox, encrypt, decrypt,
  decrypt_with_key,
}
use titlani.Encryption.RoundTrip.{CryptoLaws, take-append_length, decrypt-encrypt}

abbrev padding : Bytes
padding = codes "0123456789abcdef"

abbrev first_byte : Bytes → Option ℕ
first_byte [] = none
first_byte (b ∷ bs) = some b

abbrev toy : Crypto
toy = record {
  PrivateKey = ℕ;
  PublicKey = ℕ;
  public_key = λ k. k;
  public_bytes = λ k. k ∷ codes "123456789012345" ++ padding;
  from_public_bytes = first_byte;
  exchange = λ a b. some ((a + b) ∷ []);
  derive_symmetric_key = λ s. s;
  aead_encrypt = λ key nonce plain. plain ++ padding;
  aead_decrypt = λ key nonce cipher. some (take (length cipher - 16) cipher);
}

toy_opens : (plain : Bytes) → take (length (plain ++ padding) - 16) (plain ++ padding) ≡ plain
toy_opens plain =
    take-append_length (length (plain ++ padding) - 16) plain padding
      (omega (arith, length-append plain padding))

abbrev toy_laws : CryptoLaws toy
toy_laws = record {
  raw_size = λ k. refl;
  reads_back = λ k. refl;
  agrees = λ a b. ((a + b) ∷ [], refl, ap (λ n. some (n ∷ [])) (omega arith));
  sealed_size = λ key nonce plain. length-append plain padding;
  opens = λ key nonce plain. ap some (toy_opens plain);
}

abbrev nonce : Bytes
nonce = codes "abcdefghijkl"

abbrev loaded : EncryptionManager toy
loaded = record { private_keys = (codes "m", 7) ∷ []; public_keys = (codes "m", 7) ∷ [] }

loads : load_key_for_mailbox toy (no_keys toy) (codes "m") (x25519 7) ≡ ok loaded
unfolding load_key_for_mailbox insert
loads = refl

decrypt-encrypt_example :
    (token : Bytes) × (encrypt toy loaded 9 nonce (codes "m") (codes "hello") ≡ ok token)
    × (length token ≡ length (codes "hello") + 60)
    × (decrypt toy loaded (codes "m") token ≡ ok (codes "hello"))
    × (decrypt_with_key toy (x25519 7) token ≡ ok (codes "hello"))
decrypt-encrypt_example =
    decrypt-encrypt toy toy_laws (no_keys toy) (codes "m") 7 9 nonce (codes "hello") loads refl
