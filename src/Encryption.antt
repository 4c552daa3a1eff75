-- ===== src/Encryption.antt =====
-- `EncryptionManager` of src/titlani/encryption/manager.py. The keys, the agreement on a secret, its
-- derivation and the cipher are the cryptography library's, one parameter; the random key and the
-- random nonce of an encryption are arguments.
pub mod RoundTrip
use titlani.Base.{
  ℕ, ◌+◌, Bool, true, false, not, List, [], ◌∷◌, ◌++◌, Option, none, some, if◌then◌else◌, ltb, take,
  drop, length, is_some, Result, ok, err, ◌>>=◌, or_raise,
}
use titlani.Str.Core.{Text, Bytes}
use titlani.Server.State.{lookup, insert}

-- What `load_pem_private_key` and `load_pem_public_key` find in a file.
pub data Pem (Key : Type 0) : Type 0 where
  x25519 : Key → Pem Key
  other_key unreadable : Pem Key

pub record Crypto : Type 1 where
  pub PrivateKey : Type 0
  pub PublicKey : Type 0
  pub public_key : PrivateKey → PublicKey
  -- `public_bytes` with the raw encoding, and `from_public_bytes`
  pub public_bytes : PublicKey → Bytes
  pub from_public_bytes : Bytes → Option PublicKey
  -- `private_key.exchange(public_key)`
  pub exchange : PrivateKey → PublicKey → Option Bytes
  -- `HKDF(…).derive(shared_secret)`
  pub derive_symmetric_key : Bytes → Bytes
  -- `AESGCM(key).encrypt(nonce, data, None)` and `decrypt`
  pub aead_encrypt : Bytes → Bytes → Bytes → Bytes
  pub aead_decrypt : Bytes → Bytes → Bytes → Option Bytes

-- The exceptions.
pub data Failure : Type 0 where
  too_short : ℕ → Failure
  no_public_key no_private_key : Text → Failure
  wrong_key_type unreadable_key invalid_point no_secret invalid_tag : Failure

abbrev pub ephemeral_key_size : ℕ
ephemeral_key_size = 32

abbrev pub nonce_size : ℕ
nonce_size = 12

abbrev pub min_token_size : ℕ
min_token_size = 60

module _ (crypto : Crypto) where
  open crypto use {
    PrivateKey, PublicKey, public_key, public_bytes, from_public_bytes, exchange,
    derive_symmetric_key, aead_encrypt, aead_decrypt,
  }

  pub record EncryptionManager : Type 0 where
    pub private_keys : List (Text × PrivateKey)
    pub public_keys : List (Text × PublicKey)

  abbrev pub no_keys : EncryptionManager
  no_keys = record { private_keys = []; public_keys = [] }

  -- `load_key_for_mailbox`
  unfoldable pub load_key_for_mailbox :
      EncryptionManager → Text → Pem PrivateKey → Result Failure EncryptionManager
  load_key_for_mailbox m mailbox unreadable = err unreadable_key
  load_key_for_mailbox m mailbox other_key = err wrong_key_type
  load_key_for_mailbox m mailbox (x25519 key) = ok (record {
    private_keys = insert mailbox key m.private_keys;
    public_keys = insert mailbox (public_key key) m.public_keys;
  })

  -- `load_public_key_for_mailbox`
  unfoldable pub load_public_key_for_mailbox :
      EncryptionManager → Text → Pem PublicKey → Result Failure EncryptionManager
  load_public_key_for_mailbox m mailbox unreadable = err unreadable_key
  load_public_key_for_mailbox m mailbox other_key = err wrong_key_type
  load_public_key_for_mailbox m mailbox (x25519 key) =
      ok (record m { public_keys = insert mailbox key m.public_keys })

  -- `has_key`
  unfoldable pub has_key : EncryptionManager → Text → Bool
  has_key m mailbox = is_some (lookup mailbox m.public_keys)

  -- `encrypt`, with the ephemeral key and the nonce
  unfoldable pub encrypt :
      EncryptionManager → PrivateKey → Bytes → Text → Bytes → Result Failure Bytes
  encrypt m ephemeral_priv nonce mailbox plain = do
    recipient_pub ← or_raise (lookup mailbox m.public_keys) (no_public_key mailbox)
    shared_secret ← or_raise (exchange ephemeral_priv recipient_pub) no_secret
    ok (
        public_bytes (public_key ephemeral_priv)
        ++ (nonce ++ aead_encrypt (derive_symmetric_key shared_secret) nonce plain))

  -- `_decrypt_with_private_key`
  unfoldable pub decrypt_with_private_key : PrivateKey → Bytes → Result Failure Bytes
  decrypt_with_private_key private_key token =
      if ltb (length token) min_token_size then err (too_short (length token)) else do
        ephemeral_pub ← or_raise (from_public_bytes (take ephemeral_key_size token)) invalid_point
        let behind = drop ephemeral_key_size token
        shared_secret ← or_raise (exchange private_key ephemeral_pub) no_secret
        or_raise
            (aead_decrypt (derive_symmetric_key shared_secret) (take nonce_size behind)
              (drop nonce_size behind))
            invalid_tag

  -- `decrypt`
  unfoldable pub decrypt : EncryptionManager → Text → Bytes → Result Failure Bytes
  unfolding decrypt_with_private_key
  decrypt m mailbox token = do
    private_key ← or_raise (lookup mailbox m.private_keys) (no_private_key mailbox)
    decrypt_with_private_key private_key token

  -- `decrypt_with_key`, on the key's file
  unfoldable pub decrypt_with_key : Pem PrivateKey → Bytes → Result Failure Bytes
  unfolding decrypt_with_private_key
  decrypt_with_key unreadable token = err unreadable_key
  decrypt_with_key other_key token = err wrong_key_type
  decrypt_with_key (x25519 private_key) token = decrypt_with_private_key private_key token
