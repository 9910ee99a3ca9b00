-- ===== src/Sync/Works.antt =====
-- What the work on one file does to the state of the client.
use personal_secure_node.Prelude.{
  ℕ, Text, Bool, false, List, Result, ok, err, DriveError, inl, inr, ◌⊎◌, ◌≡◌, refl, sym, ap, subst,
  ◌∙◌, text_eq, Bool-cases, Result-cases,
}
use personal_secure_node.Cipher.{Bytes}
use personal_secure_node.Json.{Json}
use personal_secure_node.Sync.{
  SyncConfig, Stat, Entry, SyncedFile, Network, Client, then_call, ◌>>=◌, pure, Digests,
  remote_path, upload_file,
}
use personal_secure_node.Sync.Run.{
  Outcome, row_of, is_fresh, has_content, upsert_synced, write_row, new_row, record_upload,
  upload_entry, sync_entry,
}
use personal_secure_node.Sync.Kept.{Keeps, upload_file-Keeps}
use personal_secure_node.Sync.Rows.{
  IsRecorded, is_fresh-IsRecorded, upsert_synced_lem, write_row-own, write_row-other, set_stat-own,
  set_stat-other,
}

-- What the work on one file does: it raises and leaves the rows, or records the file's size and time
-- and leaves the rows of other files.
abbrev pub Works : {S : Type 0} → Entry → Client S → Result Outcome × Client S → Type 0
Works e c result =
    ((raised : DriveError) × (result.0 ≡ err raised) × (result.1.synced_files ≡ c.synced_files))
    ⊎ ((stat : Stat) × (e.stat_before ≡ ok stat)
        × IsRecorded e.relative_path stat result.1.synced_files
        × ((other : Text)
            → text_eq other e.relative_path ≡ false
            → row_of other result.1.synced_files ≡ row_of other c.synced_files))

module _ {S : Type 0} (network : Network S) (digests : Digests) (config : SyncConfig)
    (full_scan : Bool) (now : ℕ) (e : Entry) where
  record_upload-Works :
      (stat : Stat) (content_hash : Text) (version_id : Json) (before c : Client S)
      → e.stat_before ≡ ok stat
      → c.synced_files ≡ before.synced_files
      → Works e before
          (record_upload network digests config full_scan now e stat content_hash version_id c)
  unfolding record_upload
  record_upload-Works stat content_hash version_id before c h k =
      elim (Result-cases (remote_path config e.relative_path)) [
        | inr (x, f) ↦ rw (f, record_upload) (inl (x, refl, k))
        | inl (remote, f) ↦
            elim (Result-cases (
              upsert_synced
                (new_row network digests config full_scan now e stat content_hash remote version_id)
                c.synced_files)) [
                  | inr (x, g) ↦ rw (f, record_upload) (rw g (inl (x, refl, k)))
                  | inl (rows, g) ↦
                      rw (f, record_upload)
                        (rw g (
                          inr (
                            stat,
                            h,
                            recorded remote rows (upsert_synced_lem _ c.synced_files rows g),
                            others remote rows (upsert_synced_lem _ c.synced_files rows g),
                          )))
                ]
      ]
    where
      recorded :
          (remote : Text) (rows : List SyncedFile)
          → rows
            ≡ write_row
                (new_row network digests config full_scan now e stat content_hash remote version_id)
                c.synced_files
          → IsRecorded e.relative_path stat rows
      recorded remote rows f =
          unfold new_row in
          (
            new_row network digests config full_scan now e stat content_hash remote version_id,
            rw f (write_row-own _ c.synced_files),
            refl,
            refl,
            refl,
          )

      others :
          (remote : Text) (rows : List SyncedFile)
          → rows
            ≡ write_row
                (new_row network digests config full_scan now e stat content_hash remote version_id)
                c.synced_files
          → (other : Text) → text_eq other e.relative_path ≡ false
          → row_of other rows ≡ row_of other before.synced_files
      others remote rows f other differs =
          unfold new_row in
          rw f (write_row-other _ c.synced_files other differs ∙ ap (row_of other) k)

  upload_entry-Works :
      (stat : Stat) (content_hash : Text) (c : Client S)
      → e.stat_before ≡ ok stat
      → Works e c (upload_entry network digests config full_scan now e stat content_hash c)
  unfolding upload_entry ◌>>=◌ Keeps
  upload_entry-Works stat content_hash c h =
      go (upload_file network digests config e stat content_hash c)
        (upload_file-Keeps network digests config e stat content_hash c)
    where
      go :
          (r : Result Json × Client S)
          → r.1.synced_files ≡ c.synced_files
          → Works e c
              (then_call r (record_upload network digests config full_scan now e stat content_hash))
      go (ok v, c1) k = record_upload-Works stat content_hash v c c1 h k
      go (err x, c1) k = inl (x, refl, k)

  sync_entry-upload :
      (c : Client S) (stat : Stat) (content : Bytes)
      → e.stat_before ≡ ok stat
      → is_fresh full_scan stat (row_of e.relative_path c.synced_files) ≡ false
      → e.hashed_content ≡ ok content
      → has_content (digests.hexdigest content) (row_of e.relative_path c.synced_files) ≡ false
      → sync_entry network digests config full_scan now e c
        ≡ upload_entry network digests config full_scan now e stat (digests.hexdigest content) c
  unfolding sync_entry ◌>>=◌ pure
  sync_entry-upload c stat content h f g k =
      rw (h, sync_entry, ◌>>=◌, pure) (rw (f, g, pure) (rw k refl))

  pub sync_entry-Works :
      (c : Client S) → Works e c (sync_entry network digests config full_scan now e c)
  unfolding sync_entry ◌>>=◌ pure
  sync_entry-Works c = elim (Result-cases e.stat_before) [
    | inr (x, h) ↦ rw (h, sync_entry, ◌>>=◌, pure) (inl (x, refl, refl))
    | inl (stat, h) ↦
        elim (Bool-cases (is_fresh full_scan stat (row_of e.relative_path c.synced_files))) [
          | inl f ↦
              rw (h, sync_entry, ◌>>=◌, pure)
                (rw f (
                  inr (
                    stat,
                    refl,
                    is_fresh-IsRecorded full_scan e.relative_path stat c.synced_files f,
                    λ other k. refl,
                  )))
          | inr f ↦ elim (Result-cases e.hashed_content) [
            | inr (x, g) ↦ rw (h, sync_entry, ◌>>=◌, pure) (rw (f, g, pure) (inl (x, refl, refl)))
            | inl (content, g) ↦
                elim (Bool-cases (
                  has_content (digests.hexdigest content)
                    (row_of e.relative_path c.synced_files))) [
                      | inl k ↦
                          rw (h, sync_entry, ◌>>=◌, pure)
                            (rw (f, g, pure)
                              (rw k (
                                inr (
                                  stat,
                                  refl,
                                  set_stat-own e.relative_path stat c.synced_files
                                      (digests.hexdigest content) k,
                                  set_stat-other e.relative_path stat c.synced_files,
                                ))))
                      | inr k ↦
                          subst (Works e c) (sym (sync_entry-upload c stat content h f g k))
                            (upload_entry-Works stat (digests.hexdigest content) c h)
                    ]
          ]
        ]
  ]
