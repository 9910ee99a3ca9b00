-- ===== src/Vault/Uploads/Orphans.antt =====
-- What `collect_orphan_blobs` leaves in the directory of blobs.
use personal_secure_node.Prelude.{
  ℕ, ◌≡◌, refl, not, ◌&&◌, Bool, List, [], ◌∷◌, arith, ◌==◌, any, select,
}
use personal_secure_node.Blobs.{Store, read, exists, delete, stored_chunk_ids}
use personal_secure_node.Blobs.Laws.{exists-delete}
use personal_secure_node.Vault.{Vault}
use personal_secure_node.Vault.Purge.{delete_blobs, is_referenced, collect_orphan_blobs}

exists-delete_blobs :
    (k : ℕ) (ids : List ℕ) (s : Store)
    → exists k (delete_blobs ids s).1 ≡ (not (any (λ id. id == k) ids) && exists k s)
unfolding delete_blobs any
exists-delete_blobs k [] s = refl
exists-delete_blobs k (id ∷ ids) s =
    ground (arith, exists-delete_blobs k ids (delete id s).1, exists-delete id k s)

-- An identifier is among the selected ones of the directory if it is there and selected.
any-stored :
    (k : ℕ) (q : ℕ → Bool) (s : Store)
    → any (λ id. id == k) (select q (stored_chunk_ids s)) ≡ (exists k s && q k)
unfolding any select stored_chunk_ids exists read
any-stored k q [] = refl
any-stored k q ((j, blob) ∷ s) = ground (arith, any-stored k q s)

-- `collect_orphan_blobs` keeps a blob exactly if a counted chunk or an open upload session refers to
-- it, and leaves the database as it is.
pub collect_orphan_blobs_lem :
    (v : Vault)
    → ((k : ℕ)
        → exists k (collect_orphan_blobs v).1.blobs ≡ (exists k v.blobs && is_referenced v.db k))
      × ((collect_orphan_blobs v).1.db ≡ v.db)
unfolding collect_orphan_blobs
collect_orphan_blobs_lem v = (kept, refl)
  where
    orphan : ℕ → Bool
    orphan id = not (is_referenced v.db id)

    kept :
        (k : ℕ)
        → exists k (delete_blobs (select orphan (stored_chunk_ids v.blobs)) v.blobs).1
          ≡ (exists k v.blobs && is_referenced v.db k)
    kept k = ground (
      arith,
      exists-delete_blobs k (select orphan (stored_chunk_ids v.blobs)) v.blobs,
      any-stored k orphan v.blobs,
    )
