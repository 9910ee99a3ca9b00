-- ===== src/Vault/Shares.antt =====
-- Share links: `create_share_link`, `list_share_links`, `revoke_share_link` and
-- `shared_download_manifest`.
pub mod Limits
use personal_secure_node.Prelude.{
  ℕ, ◌+◌, ◌*◌, Text, ℤ, to_ℕ, int_ltb, Bool, true, false, not, ◌&&◌, ◌||◌, Option, none, some, List,
  [], ◌∷◌, ◌++◌, Result, ok, err, raise_if, or_raise, ◌>>=◌, ◌>>◌, value_error,
  file_not_found_in_vault, constraint_violated, overflow_error, ltb, leb, ◌==◌, if◌then◌else◌,
  find_first, select, update_where, any, sort_by, map,
}
use personal_secure_node.Paths.{normalize_virtual_path}
use personal_secure_node.Schema.{
  Db, File, Version, VersionChunk, ShareLink, share_created, share_revoked,
}
use personal_secure_node.Schema.Statements.{max_integer, is_null, version_by_id, insert_event}
use personal_secure_node.Vault.Versions.{download_row, chunks_of_version}

abbrev pub max_share_ttl_seconds : ℕ
max_share_ttl_seconds = 365 * 24 * 60 * 60

-- a time span in the unit of the clock
abbrev pub seconds : ℕ → ℕ
seconds n = n * 1000000

-- `max_downloads`, if it is given, must be positive
check_max_downloads : Option ℤ → Result (Option ℕ)
check_max_downloads none = ok none
check_max_downloads (some n) = if int_ltb n 1 then err value_error else ok (some (to_ℕ n))

is_too_large : Option ℕ → Bool
is_too_large none = false
is_too_large (some n) = ltb max_integer n

unfoldable pub insert_share_link : ShareLink → Db → Result Db
unfolding is_too_large
insert_share_link s db = do
  raise_if (is_too_large s.max_downloads) overflow_error
  raise_if (any (λ t. s.id == t.id || s.token_hash == t.token_hash) db.share_links)
      constraint_violated
  ok (record db { share_links = db.share_links ++ s ∷ [] })

-- `raw_token` is what `secrets` returns, and `hash` the digest of a token.
unfoldable pub create_share_link :
    (ℕ → ℕ) → ℕ → ℕ → ℕ → Text → ℤ → Option ℤ → Db → Result (ShareLink × Db)
unfolding check_max_downloads
create_share_link hash now share_id raw_token raw ttl_seconds max_downloads db = do
  path ← normalize_virtual_path raw
  raise_if (int_ltb ttl_seconds 60 || not (int_ltb ttl_seconds (max_share_ttl_seconds + 1)))
      value_error
  limit ← check_max_downloads max_downloads
  (f, v) ← or_raise (download_row path none db) file_not_found_in_vault
  let link : ShareLink = record {
    id = share_id;
    token_hash = hash raw_token;
    file_id = f.id;
    version_id = v.id;
    virtual_path = path;
    created_at = now;
    expires_at = now + seconds (to_ℕ ttl_seconds);
    max_downloads = limit;
    download_count = 0;
    last_downloaded_at = none;
    revoked_at = none;
  }
  db1 ← insert_share_link link db
  ok (link, insert_event share_created f.id (some v.id) now db1)

-- `max_downloads IS NOT NULL AND download_count >= max_downloads`
unfoldable pub is_exhausted : ShareLink → Bool
is_exhausted s = elim s.max_downloads [ none ↦ false | some n ↦ leb n s.download_count ]

pub data ShareState : Type 0 where
  revoked expired exhausted active : ShareState

-- the CASE of `list_share_links`
unfoldable pub share_state : ℕ → ShareLink → ShareState
share_state now s =
    if not (is_null s.revoked_at)
    then revoked
    else if leb s.expires_at now
    then expired
    else if is_exhausted s
    then exhausted
    else active

-- the WHERE of `list_share_links`
unfoldable pub is_listed : ℕ → ShareLink → Bool
is_listed now s = is_null s.revoked_at && ltb now s.expires_at && not (is_exhausted s)

has_version : Db → ShareLink → Bool
has_version db s = any (λ v. s.version_id == v.id) db.versions

unfoldable pub list_share_links : ℕ → Bool → Db → List (ShareLink × ShareState)
unfolding has_version
list_share_links now include_inactive db =
    map (λ s. (s, share_state now s))
      (sort_by (λ a b. leb b.created_at a.created_at)
        (select (λ s. has_version db s && (include_inactive || is_listed now s)) db.share_links))

unfoldable pub revoke_share_link : ℕ → ℕ → Db → Result (Unit {0} × Db)
revoke_share_link now share_id db = do
  row ← or_raise (find_first (λ s. share_id == s.id) db.share_links) file_not_found_in_vault
  if is_null row.revoked_at
      then ok (
        tt,
        insert_event share_revoked row.file_id (some row.version_id) now (record db {
          share_links =
              update_where (λ s. share_id == s.id) (λ s. record s { revoked_at = some now })
                db.share_links;
        }),
      )
      else ok (tt, db)

-- the link of a token, with its version by the JOIN
unfoldable pub link_of_token : (ℕ → ℕ) → ℕ → Db → Option (ShareLink × Version)
link_of_token hash raw_token db =
    elim (find_first (λ s. hash raw_token == s.token_hash) db.share_links) [
      | none ↦ none
      | some s ↦ elim (version_by_id s.version_id db) [ none ↦ none | some v ↦ some (s, v) ]
    ]

-- UPDATE share_links SET download_count = download_count + 1, last_downloaded_at = ? WHERE id = ?
unfoldable pub count_download : ℕ → ℕ → Db → Db
count_download now id db = record db {
  share_links =
      update_where (λ s. id == s.id)
        (λ s. record s { download_count = s.download_count + 1; last_downloaded_at = some now })
        db.share_links;
}

unfoldable pub shared_download_manifest :
    (ℕ → ℕ) → ℕ → ℕ → Db → Result (((ShareLink × Version) × List VersionChunk) × Db)
shared_download_manifest hash now raw_token db = do
  (s, v) ← or_raise (link_of_token hash raw_token db) file_not_found_in_vault
  raise_if (not (is_null s.revoked_at)) file_not_found_in_vault
  raise_if (leb s.expires_at now) file_not_found_in_vault
  raise_if (is_exhausted s) file_not_found_in_vault
  ok (((s, v), chunks_of_version s.version_id db), count_download now s.id db)
