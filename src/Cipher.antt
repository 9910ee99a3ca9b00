-- ===== src/Cipher.antt =====
-- psn_drive/crypto.py: the vault's key file and the encryption of chunks.
pub mod RoundTrip
pub mod Tests
use personal_secure_node.Prelude.{
  ℕ, ◌+◌, ◌≡◌, not, ◌||◌, Option, none, some, List, [], ◌∷◌, ◌++◌, Result, ok, err, integrity_error,
  vault_not_initialized, file_exists, ltb, ◌==◌, if◌then◌else◌, length, take, drop, starts_with,
}

abbrev pub Bytes : Type 0
Bytes = List ℕ

-- What the keys of one vault compute: HMAC-SHA256 under the identifier key, SHA-256, and the
-- ChaCha20-Poly1305 of the `cryptography` package under the encryption key. A hexadecimal digest is
-- the number that it spells; `unseal` has no value where the package raises.
pub record Primitives : Type 0 where
  pub chunk_mac : Bytes → ℕ
  pub sha256 : Bytes → ℕ
  pub seal : Bytes → Bytes → ℕ → Bytes
  pub unseal : Bytes → Bytes → ℕ → Option Bytes

-- What the package documents of the cipher: decryption undoes encryption under the same nonce and
-- associated data, and the ciphertext is the plaintext's length and a tag of 16 bytes.
pub record IsAead (p : Primitives) : Type 0 where
  pub unseal-seal :
      (nonce plain : Bytes) (aad : ℕ) → p.unseal nonce (p.seal nonce plain aad) aad ≡ some plain
  pub length-seal :
      (nonce plain : Bytes) (aad : ℕ) → length (p.seal nonce plain aad) ≡ length plain + 16

abbrev pub master_key_size : ℕ
master_key_size = 32

abbrev pub nonce_size : ℕ
nonce_size = 12

-- `b"PSNB1"`
abbrev pub blob_magic : Bytes
blob_magic = b'P' ∷ b'S' ∷ b'N' ∷ b'B' ∷ b'1' ∷ []

abbrev pub blob_overhead : ℕ
blob_overhead = length blob_magic + nonce_size + 16

-- The key file is its content, if it exists; `urandom` is what `os.urandom` returns.
pub create_master_key : Bytes → Option Bytes → Result (Option Bytes)
create_master_key urandom (some key) = err file_exists
create_master_key urandom none = ok (some urandom)

pub load_master_key : Option Bytes → Result Bytes
load_master_key none = err vault_not_initialized
load_master_key (some key) = if length key == master_key_size then ok key else err integrity_error

module _ (p : Primitives) where
  unfoldable pub encrypt_chunk : Bytes → ℕ → Bytes → Bytes
  encrypt_chunk nonce chunk_id plaintext = blob_magic ++ (nonce ++ p.seal nonce plaintext chunk_id)

  check_identifier : ℕ → Option Bytes → Result Bytes
  check_identifier chunk_id none = err integrity_error
  check_identifier chunk_id (some plaintext) =
      if p.chunk_mac plaintext == chunk_id then ok plaintext else err integrity_error

  unfoldable pub decrypt_chunk : ℕ → Bytes → Result Bytes
  unfolding check_identifier
  decrypt_chunk chunk_id blob =
      let body = drop (length blob_magic) blob in
      let nonce = take nonce_size body in
      let ciphertext = drop nonce_size body in
      if ltb (length blob) (length blob_magic + nonce_size + 16)
        || not (starts_with blob_magic blob)
      then err integrity_error
      else check_identifier chunk_id (p.unseal nonce ciphertext chunk_id)
