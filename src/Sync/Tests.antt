-- ===== src/Sync/Tests.antt =====
-- Two files are uploaded to a node, one of them twice: the theorems at these runs.
use personal_secure_node.Prelude.{
  codes, ℕ, ◌+◌, ◌≡◌, refl, Text, true, false, none, List, [], ◌∷◌, map, ok, All, any, text_eq,
  find_first, update_where, select, length,
}
use personal_secure_node.Cipher.{Bytes}
use personal_secure_node.Json.{
  Json, text, array, nil, object, end, field, subscript, lookup, iterate, characters, items, keys,
}
use personal_secure_node.Sync.{
  SyncConfig, Entry, Network, Client, Digests, ◌>>=◌, pure, upload_file, remote_path, item,
  current_token, is_ordinal, login, ordinals_of, put_missing, request_json, retry, send,
  send_chunks, session_body,
}
use personal_secure_node.Sync.Run.{
  Report, run_unlocked, is_fresh, row_of, has_content, upload_entry, count_outcome, is_gone,
  new_row, no_report, record_upload, set_stat, sync_entries, sync_entry, upsert_synced, write_row,
}
use personal_secure_node.Paths.{normalize_virtual_path, lstrip, strip}
use personal_secure_node.Vault.Import.{read_chunks}
use personal_secure_node.Sync.Counts.{run_unlocked-counts}
use personal_secure_node.Sync.Again.{run_unlocked-again}

-- A node that only counts its requests, and answers each with a session and a version.
abbrev session : Json
session = object (
    field (codes "id") (text (codes "s")) (
      field (codes "state") (text (codes "open")) (
        field (codes "uploaded_chunks") (array nil)
          (field (codes "version_id") (text (codes "v")) end))))

abbrev toy : Network ℕ
toy = record {
  login_device = λ n. (ok (codes "t"), n + 1);
  request = λ token call n. (ok session, n + 1);
}

abbrev digests : Digests
digests = record { hexdigest = λ b. b; encode = λ t. t }

abbrev config : SyncConfig
config = record { device_id = codes "d"; remote_prefix = [] }

abbrev local_file : Text → Bytes → Entry
local_file path content = record {
  relative_path = path;
  stat_before = ok (record { size = length content; mtime_ns = 1 });
  hashed_content = ok content;
  uploaded_content = content;
  read_end = ok tt;
  stat_after = ok (record { size = length content; mtime_ns = 1 });
}

abbrev entries : List Entry
entries = local_file (codes "a") (codes "x") ∷ local_file (codes "b") (codes "yz") ∷ []

abbrev client : Client ℕ
client = record { access_token = none; synced_files = []; sync_runs = []; node = 0 }

abbrev first : Report × Client ℕ
first = run_unlocked toy digests config false 10 1 20 entries client

-- the content changes, and neither size nor time does
abbrev rewritten : Entry → Entry
rewritten e = record e { hashed_content = ok [] }

abbrev second : Report × Client ℕ
second = run_unlocked toy digests config false 30 2 40 (map rewritten entries) first.1

run_unlocked-counts_example :
    (first.0.scanned ≡ 2)
    × (first.0.scanned ≡ first.0.uploaded + first.0.unchanged + first.0.failed)
    × (length first.0.errors ≡ first.0.failed)
    × All
        (λ u.
          u.is_synced ≡ true
          → any (λ p. text_eq p u.relative_path) (map (λ e. e.relative_path) entries) ≡ true)
        first.1.synced_files
run_unlocked-counts_example =
    run_unlocked-counts toy digests config false 10 1 20 entries client first.1 first.0 refl

first_run : (first.0.uploaded ≡ 2) × (first.0.failed ≡ 0) × (first.1.node ≡ 7)
unfolding run_unlocked ◌>>=◌ pure is_fresh row_of find_first has_content upload_entry upload_file
    remote_path normalize_virtual_path select text_eq any item subscript lookup iterate characters
    items keys lstrip strip update_where count_outcome is_gone new_row no_report record_upload
    set_stat sync_entries sync_entry upsert_synced write_row current_token is_ordinal login
    ordinals_of put_missing request_json retry send send_chunks session_body read_chunks
first_run = (refl, refl, refl)

run_unlocked-again_example :
    (second.0.uploaded ≡ 0)
    × (second.0.failed ≡ 0)
    × (second.0.missing ≡ 0)
    × (second.0.unchanged ≡ 2)
    × (second.1.node ≡ first.1.node)
    × (second.1.access_token ≡ first.1.access_token)
    × (second.1.synced_files ≡ first.1.synced_files)
unfolding text_eq
run_unlocked-again_example =
    run_unlocked-again toy digests config rewritten (λ e. refl) (λ e. refl) false 10 1 20 30 2 40
      entries client first.1 second.1 first.0 second.0 ((refl, tt), (tt, tt)) refl first_run.1 refl
