-- ===== src/Blobs.antt =====
-- `BlobStore` of psn_drive/storage.py: one file for each encrypted chunk, named by its identifier.
-- The directory is the list of its files, as pairs of identifier and content; the two directory
-- levels of `path_for` are prefixes of the identifier. A temporary file is gone when a call returns.
pub mod Laws
use personal_secure_node.Prelude.{
  ℕ, ◌+◌, Bool, true, false, not, Option, none, some, List, [], ◌∷◌, map, Result, ok, err,
  integrity_error, ◌==◌, if◌then◌else◌, length, select,
}
use personal_secure_node.Cipher.{Bytes, Primitives, encrypt_chunk, decrypt_chunk}

abbrev pub Store : Type 0
Store = List (ℕ × Bytes)

-- `path_for(chunk_id)` and `read_bytes`
unfoldable pub read : ℕ → Store → Option Bytes
read chunk_id [] = none
read chunk_id ((k, blob) ∷ s) = if chunk_id == k then some blob else read chunk_id s

is_some {ℓ} : {A : Type ℓ} → Option A → Bool
is_some none = false
is_some (some x) = true

unfoldable pub exists : ℕ → Store → Bool
unfolding read is_some
exists chunk_id s = is_some (read chunk_id s)

unfoldable pub disk_usage : Store → ℕ
disk_usage [] = 0
disk_usage ((k, blob) ∷ s) = length blob + disk_usage s

unfoldable pub stored_chunk_ids : Store → List ℕ
stored_chunk_ids = map (λ e. e.0)

unfoldable pub delete : ℕ → Store → Bool × Store
unfolding exists select
delete chunk_id s =
    if exists chunk_id s then (true, select (λ e. not (chunk_id == e.0)) s) else (false, s)

module _ (p : Primitives) where
  put_absent : Bytes → ℕ → Bytes → Option Bytes → Store → (ℕ × Bool) × Store
  put_absent nonce chunk_id plaintext (some blob) s = ((length blob, false), s)
  put_absent nonce chunk_id plaintext none s =
      let blob = encrypt_chunk p nonce chunk_id plaintext in
      ((length blob, true), (chunk_id, blob) ∷ s)

  -- `nonce` is what `os.urandom` returns in the call; the stored size and whether it was created
  unfoldable pub put : Bytes → ℕ → Bytes → Store → (ℕ × Bool) × Store
  unfolding put_absent read
  put nonce chunk_id plaintext s = put_absent nonce chunk_id plaintext (read chunk_id s) s

  get_found : ℕ → Option Bytes → Result Bytes
  get_found chunk_id none = err integrity_error
  get_found chunk_id (some blob) = decrypt_chunk p chunk_id blob

  unfoldable pub get : ℕ → Store → Result Bytes
  unfolding get_found read
  get chunk_id s = get_found chunk_id (read chunk_id s)
