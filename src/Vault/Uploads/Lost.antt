-- ===== src/Vault/Uploads/Lost.antt =====
-- An open upload session of psn_drive/vault.py and `collect_garbage`.
use personal_secure_node.Prelude.{
  ℕ, ◌≡◌, ◌≢◌, ◌∙◌, Bool, true, false, Option, some, List, [], ◌∷◌, ok, err, arith, integrity_error,
  leb, ◌==◌, select, any, any-sort_by, Bool-cases, Result-cases, inl, inr,
}
use personal_secure_node.Cipher.{Bytes, Primitives}
use personal_secure_node.Blobs.{Store, exists, get}
use personal_secure_node.Schema.{Db, Chunk, UploadSession, UploadChunk, opened}
use personal_secure_node.Schema.References.{IsCounted}
use personal_secure_node.Vault.{Vault}
use personal_secure_node.Vault.Purge.{collect_garbage}
use personal_secure_node.Vault.Counted.Garbage.{garbage, collect_garbage_lem}
use personal_secure_node.Vault.Uploads.{session_chunks, session_by_id, require_open_upload}
use personal_secure_node.Vault.Uploads.Commit.{
  read_back, commit_open, commit_required, commit_upload,
}

get_missing :
    (p : Primitives) (id : ℕ) (s : Store) → exists id s ≡ false → get p id s ≡ err integrity_error
unfolding get exists
get_missing p id s h = ground arith

-- Reading the chunks of an upload fails if one is missing.
read_back_missing :
    (p : Primitives) (k : ℕ) (cs : List UploadChunk) (s : Store) (content : Bytes)
    → exists k s ≡ false
    → any (λ (c : UploadChunk). k == c.chunk_id) cs ≡ true
    → read_back p cs s ≢ ok content
unfolding read_back any
read_back_missing p k [] s content lost held h = cc
read_back_missing p k (c ∷ cs) s content lost held h = elim (Bool-cases (k == c.chunk_id)) [
  | inl e ↦ absurd (ground (arith, get_missing p k s lost))
  | inr e ↦ elim (Result-cases (get p c.chunk_id s)) [
    | inr (x, f) ↦ absurd (ground (arith, f))
    | inl (t, f) ↦ elim (Result-cases (read_back p cs s)) [
      | inr (x, g) ↦ absurd (ground (arith, f, g))
      | inl (rest, g) ↦ read_back_missing p k cs s rest lost (ground arith) g
    ]
  ]
]

-- whether the session has uploaded the chunk
abbrev pub holds_chunk : ℕ → ℕ → Db → Bool
holds_chunk session_id k db =
    any (λ (c : UploadChunk). k == c.chunk_id)
      (select (λ c. session_id == c.session_id) db.upload_session_chunks)

commit_open_missing :
    (p : Primitives) (now file version : ℕ) (u : UploadSession) (k : ℕ) (s : Store) (db : Db)
    (r : (ℕ × Bool) × Db)
    → exists k s ≡ false
    → holds_chunk u.id k db ≡ true
    → commit_open p now file version u s db ≢ ok r
unfolding commit_open
commit_open_missing p now file version u k s db r lost held h =
    elim (Result-cases (read_back p (session_chunks u.id db) s)) [
      | inr (x, e) ↦ ground (arith, e)
      | inl (content, e) ↦ read_back_missing p k (session_chunks u.id db) s content lost listed e
    ]
  where
    listed : any (λ (c : UploadChunk). k == c.chunk_id) (session_chunks u.id db) ≡ true
    listed =
        unfold session_chunks in
        any-sort_by (λ (c : UploadChunk). k == c.chunk_id) (λ a b. leb a.ordinal b.ordinal)
          (select (λ c. u.id == c.session_id) db.upload_session_chunks)
        ∙ held

commit_upload_missing :
    (p : Primitives) (now file version : ℕ) (u : UploadSession) (k : ℕ) (v : Vault)
    (reply : Option ℕ × Bool)
    → session_by_id u.id v.db ≡ some u
    → u.state ≡ opened
    → exists k v.blobs ≡ false
    → holds_chunk u.id k v.db ≡ true
    → (commit_upload p now file version u.id v).0 ≢ ok reply
unfolding commit_upload commit_required require_open_upload
commit_upload_missing p now file version u k v reply found state lost held h =
    elim (Result-cases (commit_open p now file version u v.blobs v.db)) [
      | inl (r, e) ↦ commit_open_missing p now file version u k v.blobs v.db r lost held e
      | inr (x, e) ↦ ground (arith, e, found)
    ]

-- `collect_garbage` looks at the reference counts alone. In a vault with exact counts, where a chunk
-- without references is held by an open upload session: after the collection the chunk's blob is
-- gone, and no commit of the session succeeds, whenever it is tried.
pub garbage_breaks_open_upload :
    (p : Primitives) (v : Vault) (u : UploadSession) (k : ℕ)
    → IsCounted v.db
    → session_by_id u.id v.db ≡ some u
    → u.state ≡ opened
    → holds_chunk u.id k v.db ≡ true
    → any (λ (c : Chunk). k == c.id) (garbage v.db) ≡ true
    → (counts : ℕ × ℕ) × (v1 : Vault) × (collect_garbage v ≡ (ok counts, v1))
      × (exists k v1.blobs ≡ false)
      × ((now file version : ℕ) (reply : Option ℕ × Bool)
          → (commit_upload p now file version u.id v1).0 ≢ ok reply)
garbage_breaks_open_upload p v u k c found state held unused =
    let (counts, v1, e, c1, kept, _, form) = collect_garbage_lem v c in
    let lost : exists k v1.blobs ≡ false = kept k ∙ (rw unused) in
    (
      counts,
      v1,
      e,
      lost,
      λ now file version reply.
          commit_upload_missing p now file version u k v1 reply
            (rw form (unfold session_by_id in found)) state lost (rw form held),
    )
