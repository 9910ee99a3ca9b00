-- ===== src/Sync/Run.antt =====
-- `run` and `status` of `SyncClient`, and the lock that `run` takes.
use personal_secure_node.Prelude.{
  ℕ, ◌+◌, Text, Bool, true, false, not, ◌&&◌, Option, none, some, List, [], ◌∷◌, ◌++◌, map, Result,
  ok, err, DriveError, constraint_violated, unsupported_argument, sync_already_running, ◌==◌,
  if◌then◌else◌, text_eq, find_first, select, update_where, latest, any, length,
}
use personal_secure_node.Json.{Json, null}
use personal_secure_node.Registry.Register.{is_bindable}
use personal_secure_node.Sync.{
  SyncConfig, Stat, Entry, SyncedFile, SyncRun, Network, Client, Method, ◌>>=◌, pure, Digests,
  remote_path, upload_file,
}

-- the report of a run; an error stands with the path of its file
pub record Report : Type 0 where
  pub scanned : ℕ
  pub uploaded : ℕ
  pub unchanged : ℕ
  pub failed : ℕ
  pub missing : ℕ
  pub errors : List (Text × DriveError)

-- what became of a file that did not fail
pub data Outcome : Type 0 where
  was_uploaded was_unchanged : Outcome

unfoldable pub row_of : Text → List SyncedFile → Option SyncedFile
row_of path rows = find_first (λ r. text_eq path r.relative_path) rows

-- the first test: not a full scan, and a synced row with the size and the time of the file
unfoldable pub is_fresh : Bool → Stat → Option SyncedFile → Bool
is_fresh full_scan stat none = false
is_fresh full_scan stat (some r) =
    not full_scan && r.is_synced && r.size == stat.size && r.mtime_ns == stat.mtime_ns

-- the second test
unfoldable pub has_content : Text → Option SyncedFile → Bool
has_content content_hash none = false
has_content content_hash (some r) = text_eq r.content_hash content_hash && r.is_synced

abbrev pub is_null : Json → Bool
is_null null = true
is_null value = false

-- INSERT INTO synced_files … ON CONFLICT(relative_path) DO UPDATE
unfoldable pub write_row : SyncedFile → List SyncedFile → List SyncedFile
write_row r rows =
    if any (λ u. text_eq r.relative_path u.relative_path) rows
    then update_where (λ u. text_eq r.relative_path u.relative_path) (λ u. r) rows
    else rows ++ r ∷ []

-- the same, with what SQLite refuses
unfoldable pub upsert_synced : SyncedFile → List SyncedFile → Result (List SyncedFile)
upsert_synced r rows =
    if not (is_bindable r.version_id)
    then err unsupported_argument
    else if is_null r.version_id
    then err constraint_violated
    else ok (write_row r rows)

-- UPDATE synced_files SET size = ?, mtime_ns = ? WHERE relative_path = ?
unfoldable pub set_stat : Text → Stat → List SyncedFile → List SyncedFile
set_stat path stat =
    update_where (λ r. text_eq path r.relative_path)
      (λ r. record r { size = stat.size; mtime_ns = stat.mtime_ns })

module _ {S : Type 0} (network : Network S) (digests : Digests) (config : SyncConfig)
    (full_scan : Bool) (now : ℕ) where
  -- the row of an upload
  unfoldable pub new_row : Entry → Stat → Text → Text → Json → SyncedFile
  new_row entry stat content_hash remote version_id = record {
    relative_path = entry.relative_path;
    size = stat.size;
    mtime_ns = stat.mtime_ns;
    content_hash = content_hash;
    remote_path = remote;
    version_id = version_id;
    synced_at = now;
    is_synced = true;
  }

  -- the INSERT, with the evaluation of its parameters
  unfoldable pub record_upload : Entry → Stat → Text → Json → Method S Outcome
  record_upload entry stat content_hash version_id c =
      elim (remote_path config entry.relative_path) [
        | err x ↦ (err x, c)
        | ok remote ↦
            elim (upsert_synced (new_row entry stat content_hash remote version_id)
              c.synced_files) [
                | err x ↦ (err x, c)
                | ok rows ↦ (ok was_uploaded, record c { synced_files = rows })
              ]
      ]

  -- the upload and its row
  unfoldable pub upload_entry : Entry → Stat → Text → Method S Outcome
  upload_entry entry stat content_hash = do
    version_id ← upload_file network digests config entry stat content_hash
    record_upload entry stat content_hash version_id

  -- the body of the `try`
  unfoldable pub sync_entry : Entry → Method S Outcome
  sync_entry entry = do
    stat ← pure entry.stat_before
    previous ← λ (c : Client S). (ok (row_of entry.relative_path c.synced_files), c)
    if is_fresh full_scan stat previous then pure (ok was_unchanged) else do
      content ← pure entry.hashed_content
      let content_hash = digests.hexdigest content
      if has_content content_hash previous
          then (λ (c : Client S). (
            ok was_unchanged,
            record c { synced_files = set_stat entry.relative_path stat c.synced_files },
          ))
          else upload_entry entry stat content_hash

  -- the report after one file
  unfoldable pub count_outcome : Text → Result Outcome → Report → Report
  count_outcome path (ok was_uploaded) r = record r {
    scanned = r.scanned + 1;
    uploaded = r.uploaded + 1;
  }
  count_outcome path (ok was_unchanged) r = record r {
    scanned = r.scanned + 1;
    unchanged = r.unchanged + 1;
  }
  count_outcome path (err e) r = record r {
    scanned = r.scanned + 1;
    failed = r.failed + 1;
    errors = r.errors ++ (path, e) ∷ [];
  }

  -- the loop over `scan_files`
  unfoldable pub sync_entries : List Entry → Report → Client S → Report × Client S
  unfolding sync_entry count_outcome
  sync_entries [] r c = (r, c)
  sync_entries (e ∷ es) r c =
      let (outcome, c1) = sync_entry e c in
      sync_entries es (count_outcome e.relative_path outcome r) c1

  -- a row of a file that was synced and is gone
  unfoldable pub is_gone : List Text → SyncedFile → Bool
  is_gone seen r = r.is_synced && not (any (λ p. text_eq p r.relative_path) seen)

  unfoldable pub no_report : Report
  no_report = record {
    scanned = 0;
    uploaded = 0;
    unchanged = 0;
    failed = 0;
    missing = 0;
    errors = [];
  }

  -- `run` once the lock is taken; `run_id` is fresh. Two readings of the clock stand for all: `now`
  -- until the files are done, and `finished`. The times are only stored.
  unfoldable pub run_unlocked : ℕ → ℕ → List Entry → Client S → Report × Client S
  unfolding sync_entries is_gone no_report
  run_unlocked run_id finished entries c =
      let started : SyncRun = record {
        id = run_id;
        started_at = now;
        finished_at = none;
        scanned = 0;
        uploaded = 0;
        unchanged = 0;
        failed = 0;
        missing = 0;
      } in
      let (r, c1) =
        sync_entries entries no_report (record c { sync_runs = c.sync_runs ++ started ∷ [] }) in
      let seen = map (λ e. e.relative_path) entries in
      let missing = length (select (is_gone seen) c1.synced_files) in
      (
        record r { missing = missing },
        record c1 {
          synced_files =
              update_where (is_gone seen) (λ u. record u { is_synced = false }) c1.synced_files;
          sync_runs =
              update_where (λ u. run_id == u.id)
                (λ u. record u {
                  finished_at = some finished;
                  scanned = r.scanned;
                  uploaded = r.uploaded;
                  unchanged = r.unchanged;
                  failed = r.failed;
                  missing = missing;
                })
                c1.sync_runs;
        },
      )

  -- `with self.lock()`, where `is_locked` says whether another process holds the lock
  unfoldable pub run : Bool → ℕ → ℕ → List Entry → Client S → Result Report × Client S
  run is_locked run_id finished entries c =
      let (r, c1) = run_unlocked run_id finished entries c in
      if is_locked then (err sync_already_running, c) else (ok r, c1)

-- `status`, without the configuration's own fields
pub record SyncStatus : Type 0 where
  pub synced_files : ℕ
  pub missing_local_files : ℕ
  pub latest_run : Option SyncRun

unfoldable pub status : {S : Type 0} → Client S → SyncStatus
status c = record {
  synced_files = length (select (λ r. r.is_synced) c.synced_files);
  missing_local_files = length (select (λ r. not r.is_synced) c.synced_files);
  latest_run = latest (λ r. r.started_at) c.sync_runs;
}
