-- ===== src/Vault/Tests/Reading.antt =====
-- A file of three bytes, two of them equal, is stored in chunks of one byte, read back and verified.
use personal_secure_node.Prelude.{
  ℕ, zero, ◌≡◌, ◌↔◌, refl, All, sort_by, insert_by, starts_with, Bool, true, false, none, List, [],
  ◌∷◌, ok, arith, length,
}
use personal_secure_node.Cipher.{Bytes, encrypt_chunk, decrypt_chunk}
use personal_secure_node.Cipher.Tests.{spell, toy, nonce, toy-IsAead}
use personal_secure_node.Blobs.{read, exists, put, get}
use personal_secure_node.Schema.{empty_db}
use personal_secure_node.Vault.{Vault}
use personal_secure_node.Vault.Verify.{verify, verify_rows, IsReadable, verify_iff}
use personal_secure_node.Vault.Import.{Piece, read_chunks, store_chunk, store_chunks}
use personal_secure_node.Vault.Import.ReadBack.{rows_for, iter_manifest-store_chunks}
use personal_secure_node.Vault.Versions.{iter_manifest}

abbrev IsByte : Bytes → Type 0
IsByte t = length t ≡ 1

spell_unique : (t u : Bytes) → IsByte t → IsByte u → spell t ≡ spell u → t ≡ u
spell_unique (a ∷ []) (b ∷ []) h k e = ground (arith, e)
spell_unique [] u h k e = absurd (ground (arith, h))
spell_unique (a ∷ c ∷ t) u h k e = absurd (ground (arith, h))
spell_unique (a ∷ []) [] h k e = absurd (ground (arith, k))
spell_unique (a ∷ []) (b ∷ c ∷ u) h k e = absurd (ground (arith, k))

abbrev content : Bytes
content = 7 ∷ 8 ∷ 7 ∷ []

abbrev pieces : List (Piece × Bool)
pieces =
    (record { ordinal = 0; chunk_id = 8; plain_size = 1; stored_size = 34 }, true)
    ∷ (record { ordinal = 1; chunk_id = 9; plain_size = 1; stored_size = 34 }, true)
    ∷ (record { ordinal = 2; chunk_id = 8; plain_size = 1; stored_size = 34 }, false)
    ∷ []

iter_manifest-store_chunks_example :
    iter_manifest toy
      (rows_for 2 pieces)
      (store_chunks toy (λ i. nonce) none 0 zero (read_chunks 3 1 content) []).1
    ≡ ok content
unfolding store_chunks store_chunk read_chunks put exists read encrypt_chunk
iter_manifest-store_chunks_example =
    iter_manifest-store_chunks toy toy-IsAead IsByte spell_unique 2 (λ i. nonce) none 0 1 content []
      pieces (omega arith) (λ i. refl) (refl, (refl, (refl, tt)))
      (λ t h e. absurd (ground (arith, e))) refl

-- the stored vault, with a row of `chunks` for 7
abbrev stored : Vault
stored = record {
  db = record empty_db {
    chunks =
        record { id = 8; ref_count = 2; plain_size = 1; stored_size = 34; created_at = 10 } ∷ [];
  };
  blobs = (store_chunks toy (λ i. nonce) none 0 zero (read_chunks 3 1 content) []).1;
}

verify_run : verify toy stored ≡ ok (1, 1)
unfolding verify verify_rows sort_by insert_by store_chunks store_chunk read_chunks put get exists
    read encrypt_chunk decrypt_chunk starts_with
verify_run = refl

verify_iff_example :
    ((r : ℕ × ℕ) × (verify toy stored ≡ ok r)) ↔ All (IsReadable toy stored.blobs) stored.db.chunks
verify_iff_example = verify_iff toy stored
