-- ===== src/Lib.antt =====
-- Personal Secure Node, the drive (psn_drive/): a vault of encrypted, deduplicated file versions
-- with share links and resumable uploads, the authentication of the devices that use it, the registry
-- of plugins, the HTTP interface, and the client that uploads a folder.
--
-- The parts and their files:
-- - Prelude: names of the library, lists, rows of tables (`find_first` for a SELECT of one row,
--   `select` for a DELETE or a WHERE, `update_where` for an UPDATE), and the results of fallible
--   code. The exceptions of psn_drive/errors.py are the constructors of `DriveError`, without their
--   messages; `constraint_violated` is sqlite3.IntegrityError.
-- - Paths: `normalize_virtual_path` of psn_drive/vault.py, with posixpath.normpath and
--   PurePosixPath written out. A text is a list of code points; the blanks are those of str.strip.
-- - Cipher: psn_drive/crypto.py. `Primitives` stands for the cryptography package and hashlib,
--   `IsAead` for the laws that the package documents.
-- - Blobs: `BlobStore` of psn_drive/storage.py, the directory as a list of its files.
-- - Schema: the tables of psn_drive/database.py, one record for each row; Schema/Statements has the
--   SQL statements that several methods share, with the constraints that can make them fail, and
--   Schema/References the invariant of the reference counts.
-- - Vault: the methods of `Vault` in psn_drive/vault.py, one module for each group of them:
--   Directories, Files, Moves, Import, Versions, Purge, Shares, Settings, Uploads and Verify. Proofs stand
--   in Trash (deleting and restoring) and the child modules (Counted, Quota, Import/ReadBack,
--   Shares/Limits, Settings/Retention, Uploads/Lost, Uploads/Orphans, Uploads/Counting,
--   Moves/Kept). Vault/Reachable has the step relation: one step for each method that writes, with
--   any arguments and outcome.
-- - Auth: `DeviceAuth` of psn_drive/auth.py: pairing (Auth), login and access tokens (Tokens),
--   administrator challenges and action tokens (Admin); proofs in Safety, Seen and Lockout.
-- - Json: the values of `json.loads`, and truth tests, `str`, `int`, `.get` and subscripts on them.
-- - Registry: entities, artifacts and sanctions of psn_drive/vault.py: reading a manifest (Manifest),
--   registering it and setting the status (Register), the listing with the effective status
--   (Listing), setting and revoking sanctions (Sanctions); proofs in Effect and Status.
-- - Http: psn_drive/http_api.py: `RateLimiter` (Limiter), the bodies of requests (Body), `_authorize`,
--   `_rate_limit` and `_handle_error` (Handler), `do_GET` (Get), `do_POST` (Post, with the routes in
--   Post/Devices, Post/Files, Post/Uploads and Post/Registered) and `do_PUT` (Put). An `if` chain on
--   the path is a list of paths and handlers, of which the first that fits is run. Proofs: Rates and
--   Retry on the limiter, Guards and Access on access tokens, Disclosure on who is answered, Deletion on
--   action tokens, Chains on chains of calls.
-- - Sync: `SyncClient` of psn_drive/sync_client.py: requests and `upload_file` (Sync), `run` and `status`
--   (Run); proofs in Kept, Rows, Works, Current, Counts and Again.
--
-- How they interact: a method of the vault normalizes its path, runs statements on the database in
-- one transaction (`transact`: an exception leaves the database as it was) and calls the blob
-- store, which calls the cipher. Deletion is in two steps: `purge_rows` drops references, and
-- `collect_garbage` deletes what has none left. `DeviceAuth` shares the database file but no table
-- that the vault writes.
-- A handler of Http threads the state of the server, the vault, the devices, the registry and the
-- limiter, through its calls; a call that raises ends it and keeps what was done. The client of Sync
-- talks to a node through the interface `Network`, which stands for psn_drive/device_client.py, TLS and
-- the node behind them.
--
-- Conventions: identifiers, hashes and tokens are numbers, since the code only compares them; fresh
-- ones, nonces and the clock are arguments. A time is a number of microseconds. An integer that a
-- caller may pass negative is a ℤ. Every loop is over the rows or chunks it reads and is structural
-- recursion; `read_chunks` cuts a file with fuel, one unit for each byte. Every chunk has a byte at
-- least, so the fuel is enough: Import/Cut.
--
-- In Http a request with an argument of a wrong JSON type is refused when the argument is read,
-- with the exception that its first use raises; where a request has two faults, the code may report
-- the other one. The idempotency key of an upload is refused where the code refuses it.
--
-- Not modelled: the replies of the static pages, of the console and of the listing of directories
-- (their guards are), the bytes of replies and sockets; the scan of the synchronised folder, its
-- configuration file and the scripts generated for Windows; migration and backup of the database, the
-- service runtime, releases, disaster backups, the configuration, the command line, TLS and device
-- keys, and the older prototype under psn/: they are input and output around the parts above, or
-- are left for a later extension. Interrupted processes and several threads are not modelled: SQLite
-- runs the transactions one after another, and the limiter holds a lock.
pub mod Prelude
pub mod Http
pub mod Json
pub mod Registry
pub mod Paths
pub mod Cipher
pub mod Blobs
pub mod Schema
pub mod Sync
pub mod Vault
pub mod Auth
