-- ===== src/Vault/Import/ReadBack.antt =====
-- Reading the chunks that an import stores.
use personal_secure_node.Prelude.{
  ℕ, zero, suc, ◌<◌, ◌≡◌, refl, sym, ap, subst, ◌∙◌, Bool, true, false, Option, List, [], ◌∷◌, ◌++◌,
  map, ok, err, DriveError, >>=-eq-ok, ok-injective, arith, ◌⊎◌, ◌==◌, ==_iff, ==_refl, length, All,
  Bool-cases, Result-cases, inl, inr,
}
use personal_secure_node.Cipher.{Bytes, Primitives, IsAead, nonce_size}
use personal_secure_node.Blobs.{Store, read, exists, put, get}
use personal_secure_node.Blobs.Laws.{read-put, get-put, exists-put, exists-put_keeps}
use personal_secure_node.Schema.{VersionChunk}
use personal_secure_node.Vault.Import.{Piece, read_chunks, store_chunk, store_chunks}
use personal_secure_node.Vault.Import.Cut.{concat, concat-read_chunks}
use personal_secure_node.Vault.Versions.{iter_manifest}

-- the rows of `version_chunks` for the records of an import
abbrev pub rows_for : ℕ → List (Piece × Bool) → List VersionChunk
rows_for version_id = map (λ r. record {
  version_id = version_id;
  ordinal = r.0.ordinal;
  chunk_id = r.0.chunk_id;
  plain_size = r.0.plain_size;
})

module _ (p : Primitives) (aead : IsAead p) (P : Bytes → Type 0)
    (unique : (t u : Bytes) → P t → P u → p.chunk_mac t ≡ p.chunk_mac u → t ≡ u) where
  -- every blob that has the identifier of one of the chunks in question decrypts to that chunk
  abbrev pub IsFaithful : Store → Type 0
  IsFaithful s =
      (t : Bytes) → P t → exists (p.chunk_mac t) s ≡ true → get p (p.chunk_mac t) s ≡ ok t

  put_there : (nonce t : Bytes) (k : ℕ) (s : Store) → exists k s ≡ true → (put p nonce k t s).1 ≡ s
  unfolding put exists
  put_there nonce t k s h = ground (arith, h)

  get_other :
      (nonce t : Bytes) (k j : ℕ) (s : Store)
      → (j == k) ≡ false
      → (get p j (put p nonce k t s).1 ≡ get p j s) × (exists j (put p nonce k t s).1 ≡ exists j s)
  unfolding get exists
  get_other nonce t k j s h =
      let e : read j (put p nonce k t s).1 ≡ read j s = rw h at (read-put p nonce t k j s) in
      (rw e refl, rw e refl)

  put-IsFaithful :
      (nonce t : Bytes) (s : Store)
      → length nonce ≡ nonce_size
      → P t
      → IsFaithful s
      → IsFaithful (put p nonce (p.chunk_mac t) t s).1
  put-IsFaithful nonce t s h pt f u pu there = elim (Bool-cases (p.chunk_mac u == p.chunk_mac t)) [
    | inr e ↦
        let (a, b) = get_other nonce t (p.chunk_mac t) (p.chunk_mac u) s e in
        a ∙ f u pu (sym b ∙ there)
    | inl e ↦
        let same = unique u t pu pt ((==_iff (p.chunk_mac u) (p.chunk_mac t)).0 e) in
        rw same (own (Bool-cases (exists (p.chunk_mac t) s)))
  ]
    where
      own :
          (exists (p.chunk_mac t) s ≡ true) ⊎ (exists (p.chunk_mac t) s ≡ false)
          → get p (p.chunk_mac t) (put p nonce (p.chunk_mac t) t s).1 ≡ ok t
      own (inl e) = rw (put_there nonce t (p.chunk_mac t) s e) (f t pt e)
      own (inr e) = get-put p nonce t s aead h e

  err-ne-ok {ℓ} : {A : Type ℓ} {e : DriveError} {a : A} → err e ≡ ok a → ⊥
  err-ne-ok h = cc

  store_chunk_lem :
      (nonce : Bytes) (quota : Option ℕ) (usage n : ℕ) (t : Bytes) (s : Store)
      (r : (Piece × Bool) × ℕ)
      → (store_chunk p nonce quota usage n t s).0 ≡ ok r
      → ((store_chunk p nonce quota usage n t s).1 ≡ (put p nonce (p.chunk_mac t) t s).1)
        × (r.0.0.chunk_id ≡ p.chunk_mac t)
        × (r.0.0.plain_size ≡ length t)
  unfolding store_chunk
  store_chunk_lem nonce quota usage n t s r h =
      (ground (arith, h), ground (arith, h), ground (arith, h))

  -- What the loop leaves: a store as faithful as before, in which every chunk that was there still
  -- is, and in which the rows read back as the chunks.
  Reads : ℕ → List (Piece × Bool) → List Bytes → Store → Store → Type 0
  Reads version_id rs ts s s' =
      IsFaithful s'
      × ((k : ℕ) → exists k s ≡ true → exists k s' ≡ true)
      × (iter_manifest p (rows_for version_id rs) s' ≡ ok (concat ts))

  iter_step :
      (version_id : ℕ) (r : Piece × Bool) (rs : List (Piece × Bool)) (t rest : Bytes) (s : Store)
      → r.0.chunk_id ≡ p.chunk_mac t
      → r.0.plain_size ≡ length t
      → get p (p.chunk_mac t) s ≡ ok t
      → iter_manifest p (rows_for version_id rs) s ≡ ok rest
      → iter_manifest p (rows_for version_id (r ∷ rs)) s ≡ ok (t ++ rest)
  unfolding iter_manifest
  iter_step version_id r rs t rest s a b c d = rw (a, c, b, ==_refl (length t), d) refl

  Reads-cons :
      (version_id : ℕ) (nonce : Bytes) (r : Piece × Bool) (rs : List (Piece × Bool)) (t : Bytes)
      (ts : List Bytes) (s s' : Store)
      → P t
      → r.0.chunk_id ≡ p.chunk_mac t
      → r.0.plain_size ≡ length t
      → Reads version_id rs ts (put p nonce (p.chunk_mac t) t s).1 s'
      → Reads version_id (r ∷ rs) (t ∷ ts) s s'
  unfolding Reads
  Reads-cons version_id nonce r rs t ts s s' pt a b (f, keep, rest) = (
    f,
    (λ k there. keep k (exists-put_keeps p nonce t (p.chunk_mac t) k s there)),
    iter_step version_id r rs t (concat ts) s' a b
        (f t pt (keep (p.chunk_mac t) (exists-put p nonce t (p.chunk_mac t) s))) rest,
  )

  store_chunks-cons :
      (nonces : ℕ → Bytes) (quota : Option ℕ) (usage n : ℕ) (t : Bytes) (ts : List Bytes)
      (s : Store) (rs : List (Piece × Bool))
      → (store_chunks p nonces quota usage n (t ∷ ts) s).0 ≡ ok rs
      → let s1 = (store_chunk p (nonces n) quota usage n t s).1 in
        (r : (Piece × Bool) × ℕ) × (records : List (Piece × Bool)) × ((store_chunk p
            (nonces n)
            quota
            usage
            n
            t
            s).0
          ≡ ok r)
        × ((store_chunks p nonces quota r.1 (suc n) ts s1).0 ≡ ok records)
        × (rs ≡ r.0 ∷ records)
        × ((store_chunks p nonces quota usage n (t ∷ ts) s).1
            ≡ (store_chunks p nonces quota r.1 (suc n) ts s1).1)
  unfolding store_chunks
  store_chunks-cons nonces quota usage n t ts s rs h =
      elim (Result-cases (store_chunk p (nonces n) quota usage n t s).0) [
        | inr (x, e) ↦ absurd (err-ne-ok (rw (e, store_chunks) at h))
        | inl (r, e) ↦
            let s1 = (store_chunk p (nonces n) quota usage n t s).1 in
            let (records, e1, h1) =
              >>=-eq-ok (store_chunks p nonces quota r.1 (suc n) ts s1).0 _
                (rw (e, store_chunks) at h) in
            (r, records, e, e1, sym (ok-injective h1), rw (e, store_chunks) refl)
      ]

  store_chunks-Reads :
      (version_id : ℕ) (nonces : ℕ → Bytes) (quota : Option ℕ) (usage n : ℕ) (ts : List Bytes)
      (s : Store) (rs : List (Piece × Bool))
      → ((i : ℕ) → length (nonces i) ≡ nonce_size)
      → All P ts
      → IsFaithful s
      → (store_chunks p nonces quota usage n ts s).0 ≡ ok rs
      → Reads version_id rs ts s (store_chunks p nonces quota usage n ts s).1
  unfolding store_chunks Reads iter_manifest
  store_chunks-Reads version_id nonces quota usage n [] s rs long ps f h = (
    f,
    (λ k there. there),
    subst (λ (q : List (Piece × Bool)). iter_manifest p (rows_for version_id q) s ≡ ok [])
        (ok-injective h) refl,
  )
  store_chunks-Reads version_id nonces quota usage n (t ∷ ts) s rs long ps f h =
      let (r, records, e, e1, form, last) = store_chunks-cons nonces quota usage n t ts s rs h in
      let (kept, id, size) = store_chunk_lem (nonces n) quota usage n t s r e in
      let f1 = put-IsFaithful (nonces n) t s (long n) ps.0 f in
      let s1 = (store_chunk p (nonces n) quota usage n t s).1 in
      let s' = (store_chunks p nonces quota r.1 (suc n) ts s1).1 in
      let rest =
        store_chunks-Reads version_id nonces quota r.1 (suc n) ts s1 records long ps.1
          (subst IsFaithful (sym kept) f1) e1 in
      subst (λ w. Reads version_id rs (t ∷ ts) s w) (sym last)
        (subst (λ (q : List (Piece × Bool)). Reads version_id q (t ∷ ts) s s') (sym form)
          (Reads-cons version_id (nonces n) r.0 records t ts s s' ps.0 id size
            (subst (λ w. Reads version_id records ts w s') kept rest)))

  -- Where the loop of `import_file` stores every chunk of a source file, the rows that it records read
  -- back from the directory, through decryption, as exactly the file's content. The conditions: the
  -- chunk size is positive, the nonces have their length, no two of the chunks in question have the
  -- same identifier, and a blob that was there under one of these identifiers decrypts to the chunk.
  pub iter_manifest-store_chunks :
      (version_id : ℕ) (nonces : ℕ → Bytes) (quota : Option ℕ) (usage size : ℕ) (content : Bytes)
      (s : Store) (rs : List (Piece × Bool))
      → 0 < size
      → ((i : ℕ) → length (nonces i) ≡ nonce_size)
      → All P (read_chunks (length content) size content)
      → IsFaithful s
      → (store_chunks p nonces quota usage zero (read_chunks (length content) size content) s).0
        ≡ ok rs
      → iter_manifest p
          (rows_for version_id rs)
          (store_chunks p nonces quota usage zero (read_chunks (length content) size content) s).1
        ≡ ok content
  unfolding Reads
  iter_manifest-store_chunks version_id nonces quota usage size content s rs h long ps f stored =
      let (_, _, reads) =
        store_chunks-Reads version_id nonces quota usage zero
          (read_chunks (length content) size content) s rs long ps f stored in
      reads ∙ ap ok (concat-read_chunks (length content) size content h (omega arith))
