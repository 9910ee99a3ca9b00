-- ===== src/Vault/Shares/Limits.antt =====
-- Who can download through a share link, and how often.

use personal_secure_node.Prelude.{
  All, All-map, All-find_first, All-update_where, find_first-All, uses, ==_iff, sym, subst, ℕ, suc,
  ◌+◌, ◌-◌, ◌≤◌, ◌<◌, ◌≡◌, ◌≢◌, refl, ◌∙◌, true, false, ◌&&◌, Option, none, some, List, [], ◌∷◌, ok,
  err, arith, file_not_found_in_vault, ltb, ◌==◌, ==_refl, ◌↔◌, ◌⊎◌, find_first, update_where,
  update_where-find, Option-cases, Bool-cases, inl, inr,
}
use personal_secure_node.Schema.{Db, Version, ShareLink}
use personal_secure_node.Schema.Statements.{is_null, version_by_id, insert_event}
use personal_secure_node.Vault.Versions.{chunks_of_version}
use personal_secure_node.Vault.Shares.{
  active, share_state, is_listed, is_exhausted, link_of_token, count_download,
  shared_download_manifest, revoke_share_link,
}

module _ (hash : ℕ → ℕ) (now raw : ℕ) (db : Db) (s : ShareLink) (v : Version)
    (found : link_of_token hash raw db ≡ some (s, v)) where
  -- The token of a link downloads exactly while the listing calls the link active: then the reply is
  -- the link's version with its chunks and the download is counted, and else it is not found.
  pub shared_download_iff_active :
      (share_state now s ≡ active
        → shared_download_manifest hash now raw db
          ≡ ok (((s, v), chunks_of_version s.version_id db), count_download now s.id db))
      × (share_state now s ≢ active
          → shared_download_manifest hash now raw db ≡ err file_not_found_in_vault)
  unfolding shared_download_manifest share_state
  shared_download_iff_active = (λ h. ground (arith, found), λ h. ground (arith, found))

-- The listing without the inactive links shows exactly the active ones.
pub is_listed_iff_active :
    (now : ℕ) (s : ShareLink) → (is_listed now s ≡ true) ↔ (share_state now s ≡ active)
unfolding is_listed share_state
is_listed_iff_active now s = (λ h. ground arith, λ h. ground arith)

abbrev counted_once : ℕ → ShareLink → ShareLink
counted_once now s = record s {
  download_count = s.download_count + 1;
  last_downloaded_at = some now;
}

abbrev row_of_token : (ℕ → ℕ) → ℕ → Db → Option ShareLink
row_of_token hash raw db = find_first (λ s. hash raw == s.token_hash) db.share_links

link_of_token_parts :
    (hash : ℕ → ℕ) (raw : ℕ) (db : Db) (s : ShareLink) (v : Version)
    → link_of_token hash raw db ≡ some (s, v)
    → (row_of_token hash raw db ≡ some s) × (version_by_id s.version_id db ≡ some v)
unfolding link_of_token
link_of_token_parts hash raw db s v h = elim (Option-cases (row_of_token hash raw db)) [
  | inl e ↦ absurd (ground (arith, e))
  | inr (t, e) ↦ elim (Option-cases (version_by_id t.version_id db)) [
    | inl f ↦ absurd (ground (arith, e, f))
    | inr (w, f) ↦ ground (arith, e, f)
  ]
]

link_of_token_join :
    (hash : ℕ → ℕ) (raw : ℕ) (db : Db) (s : ShareLink) (v : Version)
    → row_of_token hash raw db ≡ some s
    → version_by_id s.version_id db ≡ some v
    → link_of_token hash raw db ≡ some (s, v)
unfolding link_of_token
link_of_token_join hash raw db s v e f = ground (arith, e, f)

link_of_token-count :
    (hash : ℕ → ℕ) (now raw : ℕ) (db : Db) (s : ShareLink) (v : Version)
    → link_of_token hash raw db ≡ some (s, v)
    → link_of_token hash raw (count_download now s.id db) ≡ some (counted_once now s, v)
link_of_token-count hash now raw db s v h =
    let (e, f) = link_of_token_parts hash raw db s v h in
    link_of_token_join hash raw (count_download now s.id db) (counted_once now s) v (row e)
      (unfold version_by_id count_download in f)
  where
    row :
        row_of_token hash raw db ≡ some s
        → row_of_token hash raw (count_download now s.id db) ≡ some (counted_once now s)
    row e =
        unfold count_download in
        update_where-find (λ t. hash raw == t.token_hash) (λ t. s.id == t.id) _ db.share_links
          (λ t. refl)
        ∙ rw e (rw ==_refl)

-- how many of the calls at these times are served, one after the other
abbrev pub served : (ℕ → ℕ) → ℕ → List ℕ → Db → ℕ
served hash raw [] db = 0
served hash raw (now ∷ times) db = elim (shared_download_manifest hash now raw db) [
  | ok (reply, db1) ↦ suc (served hash raw times db1)
  | err e ↦ served hash raw times db
]

download_exhausted :
    (hash : ℕ → ℕ) (now raw : ℕ) (db : Db) (s : ShareLink) (v : Version) (n : ℕ)
    → link_of_token hash raw db ≡ some (s, v)
    → s.max_downloads ≡ some n
    → (shared_download_manifest hash now raw db ≡ err file_not_found_in_vault)
      ⊎ ((s.download_count < n)
          × (shared_download_manifest hash now raw db
              ≡ ok (((s, v), chunks_of_version s.version_id db), count_download now s.id db)))
unfolding shared_download_manifest is_exhausted
download_exhausted hash now raw db s v n found limit =
    elim (Bool-cases (is_null s.revoked_at && ltb now s.expires_at && ltb s.download_count n)) [
      | inl e ↦ inr (ground (arith, e), ground (arith, e, found, limit))
      | inr e ↦ inl (ground (arith, e, found, limit))
    ]

-- A link with a limit is downloaded no more often than the limit allows, however often and whenever
-- its token is presented.
pub served-le-limit :
    (hash : ℕ → ℕ) (raw : ℕ) (times : List ℕ) (db : Db) (s : ShareLink) (v : Version) (n : ℕ)
    → link_of_token hash raw db ≡ some (s, v)
    → s.max_downloads ≡ some n
    → served hash raw times db ≤ n - s.download_count
served-le-limit hash raw [] db s v n found limit = omega arith
served-le-limit hash raw (now ∷ times) db s v n found limit =
    elim (download_exhausted hash now raw db s v n found limit) [
      | inl e ↦ rw (e, served) (served-le-limit hash raw times db s v n found limit)
      | inr (room, e) ↦
          rw (e, served)
            (omega (
              arith,
              served-le-limit hash raw times (count_download now s.id db) (counted_once now s) v n
                  (link_of_token-count hash now raw db s v found) limit,
            ))
    ]

-- a row of this link, if it is one, is revoked
abbrev IsRevoked : ℕ → ShareLink → Type 0
IsRevoked share_id s = (share_id == s.id) ≡ true → is_null s.revoked_at ≡ false

module _ (now share_id : ℕ) (db db1 : Db)
    (unique : (k : ℕ) → uses (λ (s : ShareLink). s.id) k db.share_links ≤ 1)
    (done : revoke_share_link now share_id db ≡ ok (tt, db1)) where
  old_row-IsRevoked :
      (row : ShareLink)
      → find_first (λ s. share_id == s.id) db.share_links ≡ some row
      → is_null row.revoked_at ≡ false
      → All (IsRevoked share_id) db.share_links
  old_row-IsRevoked row found used =
      All-map _ (IsRevoked share_id) db.share_links same_row
        (find_first-All (λ s. s.id) db.share_links unique)
    where
      same_row :
          (s : ShareLink)
          → find_first (λ (t : ShareLink). s.id == t.id) db.share_links ≡ some s
          → IsRevoked share_id s
      same_row s e own =
          let eq : share_id ≡ s.id = (==_iff share_id s.id).0 own in
          let e1 : find_first (λ (t : ShareLink). share_id == t.id) db.share_links ≡ some s =
            subst (λ k. find_first (λ (t : ShareLink). k == t.id) db.share_links ≡ some s) (sym eq)
              e in
          let r : row ≡ s = cc (found, e1) in
          subst (λ (t : ShareLink). is_null t.revoked_at ≡ false) r used

  All-IsRevoked : All (IsRevoked share_id) db1.share_links
  All-IsRevoked = elim (Option-cases (find_first (λ s. share_id == s.id) db.share_links)) [
    | inl e ↦ absurd (missing e)
    | inr (row, e) ↦ elim (Bool-cases (is_null row.revoked_at)) [
      | inl open_ ↦
          subst (λ (ls : List ShareLink). All (IsRevoked share_id) ls) (sym (changed row e open_))
            updated
      | inr used ↦
          subst (λ (d : Db). All (IsRevoked share_id) d.share_links) (unchanged row e used)
            (old_row-IsRevoked row e used)
    ]
  ]
    where
      missing : find_first (λ s. share_id == s.id) db.share_links ≡ none → ⊥
      missing e = unfold revoke_share_link in ground (arith, e)

      changed :
          (row : ShareLink)
          → find_first (λ s. share_id == s.id) db.share_links ≡ some row
          → is_null row.revoked_at ≡ true
          → db1.share_links
            ≡ update_where
                (λ s. share_id == s.id)
                (λ s. record s { revoked_at = some now })
                db.share_links
      changed row e open_ = unfold revoke_share_link insert_event in ground (arith, e, open_)

      unchanged :
          (row : ShareLink)
          → find_first (λ s. share_id == s.id) db.share_links ≡ some row
          → is_null row.revoked_at ≡ false
          → db ≡ db1
      unchanged row e used = unfold revoke_share_link in ground (arith, e, used)

      updated : All (IsRevoked share_id) (
          update_where
            (λ s. share_id == s.id)
            (λ s. record s { revoked_at = some now })
            db.share_links)
      updated =
          All-update_where (IsRevoked share_id) _ _ db.share_links (λ s own again. refl)
            (λ s other own. absurd (ground arith))

  -- After `revoke_share_link`, where the identifiers of links are distinct, no token of that link
  -- downloads anything, at any time.
  pub revoked_link_is_dead :
      (hash : ℕ → ℕ) (later raw : ℕ) (s : ShareLink) (v : Version)
      → link_of_token hash raw db1 ≡ some (s, v)
      → share_id ≡ s.id
      → shared_download_manifest hash later raw db1 ≡ err file_not_found_in_vault
  revoked_link_is_dead hash later raw s v found own =
      let (e, _) = link_of_token_parts hash raw db1 s v found in
      let used : is_null s.revoked_at ≡ false =
        All-find_first (IsRevoked share_id) (λ t. hash raw == t.token_hash) db1.share_links s
          All-IsRevoked e ((==_iff share_id s.id).1 own) in
      unfold shared_download_manifest in ground (arith, found, used)
