-- ===== src/Vault/Tests/Sharing.antt =====
-- A share link with two downloads left.
use personal_secure_node.Prelude.{
  ◌≤◌, ◌-◌, ◌≡◌, ◌≢◌, refl, none, some, [], ◌∷◌, ok, err, file_not_found_in_vault, find_first,
  update_where, uses, arith,
}
use personal_secure_node.Schema.{Db, ShareLink, share_revoked}
use personal_secure_node.Schema.Statements.{version_by_id, insert_event}
use personal_secure_node.Vault.Versions.{chunks_of_version}
use personal_secure_node.Vault.Shares.{
  active, share_state, link_of_token, count_download, shared_download_manifest, revoke_share_link,
}
use personal_secure_node.Vault.Shares.Limits.{
  served, shared_download_iff_active, served-le-limit, revoked_link_is_dead,
}
use personal_secure_node.Vault.Tests.{db_a, version_a, path_a}

abbrev link : ShareLink
link = record {
  id = 11;
  token_hash = 77;
  file_id = 1;
  version_id = 2;
  virtual_path = path_a;
  created_at = 20;
  expires_at = 100;
  max_downloads = some 3;
  download_count = 1;
  last_downloaded_at = none;
  revoked_at = none;
}

abbrev sharing : Db
sharing = record db_a { share_links = link ∷ [] }

link_found : link_of_token (λ n. n) 77 sharing ≡ some (link, version_a)
unfolding link_of_token find_first version_by_id
link_found = refl

shared_download_iff_active_example :
    (share_state 30 link ≡ active
      → shared_download_manifest (λ n. n) 30 77 sharing
        ≡ ok (((link, version_a), chunks_of_version 2 sharing), count_download 30 11 sharing))
    × (share_state 30 link ≢ active
        → shared_download_manifest (λ n. n) 30 77 sharing ≡ err file_not_found_in_vault)
shared_download_iff_active_example =
    shared_download_iff_active (λ n. n) 30 77 sharing link version_a link_found

served-le-limit_example : served (λ n. n) 77 (30 ∷ 40 ∷ 50 ∷ 60 ∷ []) sharing ≤ 3 - 1
served-le-limit_example =
    served-le-limit (λ n. n) 77 (30 ∷ 40 ∷ 50 ∷ 60 ∷ []) sharing link version_a 3 link_found refl

abbrev unshared : Db
unshared = record sharing {
  share_links = record link { revoked_at = some 35 } ∷ [];
  events =
      record { event_type = share_revoked; file_id = 1; version_id = some 2; occurred_at = 35 }
      ∷ [];
}

revoke_run : revoke_share_link 35 11 sharing ≡ ok (tt, unshared)
unfolding revoke_share_link find_first update_where insert_event
revoke_run = refl

revoked_link_is_dead_example :
    shared_download_manifest (λ n. n) 40 77 unshared ≡ err file_not_found_in_vault
unfolding link_of_token find_first version_by_id uses
revoked_link_is_dead_example =
    revoked_link_is_dead 35 11 sharing unshared (λ k. ground arith) revoke_run (λ n. n) 40 77
      (record link { revoked_at = some 35 }) version_a refl refl
