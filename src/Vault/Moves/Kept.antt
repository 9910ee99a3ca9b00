-- ===== src/Vault/Moves/Kept.antt =====
-- `move_files` and the tables of chunks.
use personal_secure_node.Prelude.{
  ℕ, suc, zero, Text, ◌≡◌, refl, ◌∙◌, List, [], ◌∷◌, ok, >>=-eq-ok, ok-injective, arith, passed,
  ltb, length, ◌||◌, ◌&&◌, not, map, select, any, value_error, restore_conflict, subst,
}
use personal_secure_node.Schema.{Db, file_moved}
use personal_secure_node.Schema.Statements.{is_null, set_path, insert_event}
use personal_secure_node.Vault.Directories.{ensure_directories}
use personal_secure_node.Vault.Counted.Kept.{SameChunks, set_path_same}
use personal_secure_node.Vault.Moves.{
  Move, contains, distinct, normalize_moves, find_sources, move_away, move_in, move_files,
}

move_away_same :
    (temporary : ℕ → Text) (n : ℕ) (ms : List Move) (db db' : Db)
    → move_away temporary n ms db ≡ ok db'
    → SameChunks db db'
unfolding move_away
move_away_same temporary n [] db db' h = (ground (arith, h), ground (arith, h))
move_away_same temporary n (m ∷ ms) db db' h =
    let (db1, e1, h1) = >>=-eq-ok (set_path (temporary n) m.row.id db) _ h in
    let (a, b) = set_path_same (temporary n) m.row.id db db1 e1 in
    let (c, d) = move_away_same temporary (suc n) ms db1 db' h1 in (c ∙ a, d ∙ b)

moved : ℕ → Move → Db → Db
moved now m = insert_event file_moved m.row.id m.row.current_version_id now

moved_same : (now : ℕ) (m : Move) (db : Db) → SameChunks db (moved now m db)
unfolding moved insert_event
moved_same now m db = (refl, refl)

ensure_directories_same :
    (path : Text) (now : ℕ) (db : Db) → SameChunks db (ensure_directories path now db)
unfolding ensure_directories
ensure_directories_same path now db = (refl, refl)

move_in_same :
    (now : ℕ) (ms : List Move) (db db' : Db) → move_in now ms db ≡ ok db' → SameChunks db db'
unfolding move_in
move_in_same now [] db db' h = (ground (arith, h), ground (arith, h))
move_in_same now (m ∷ ms) db db' h =
    let made = ensure_directories m.destination now db in
    let (db1, e1, h1) = >>=-eq-ok (set_path m.destination m.row.id made) _ h in
    let (a, b) = set_path_same m.destination m.row.id made db1 e1 in
    let (a0, b0) = ensure_directories_same m.destination now db in
    let (a1, b1) = moved_same now m db1 in
    let (c, d) = move_in_same now ms (moved now m db1) db' (unfold moved in h1) in
    (c ∙ a1 ∙ a ∙ a0, d ∙ b1 ∙ b ∙ b0)

pub move_files_same :
    (now : ℕ) (temporary : ℕ → Text) (moves : List (Text × Text)) (db : Db) (r : ℕ × Db)
    → move_files now temporary moves db ≡ ok r
    → SameChunks db r.1
unfolding move_files
move_files_same now temporary moves db r h =
    let h1 = passed (ltb (length moves) 1 || ltb 100 (length moves)) value_error _ h in
    let (items, e2, h2) = >>=-eq-ok (normalize_moves moves) _ h1 in
    let sources = map (λ (i : Text × Text). i.0) items in
    let destinations = map (λ (i : Text × Text). i.1) items in
    let h3 = passed (not (distinct sources) || not (distinct destinations)) value_error _ h2 in
    let (rows, e4, h4) = >>=-eq-ok (find_sources db items) _ h3 in
    let conflicts =
      select (λ f. is_null f.deleted_at && contains f.virtual_path destinations) db.files in
    let h5 =
      passed (any (λ f. not (contains f.virtual_path sources)) conflicts) restore_conflict _ h4 in
    let (db1, e6, h6) = >>=-eq-ok (move_away temporary zero rows db) _ h5 in
    let (db2, e7, h7) = >>=-eq-ok (move_in now rows db1) _ h6 in
    let (a, b) = move_away_same temporary zero rows db db1 e6 in
    let (c, d) = move_in_same now rows db1 db2 e7 in
    subst (λ (q : ℕ × Db). SameChunks db q.1) (ok-injective h7) (c ∙ a, d ∙ b)
