-- ===== src/Vault/Import/Cut.antt =====
-- The chunks that `import_file` cuts a source file into.
use personal_secure_node.Prelude.{
  ℕ, zero, suc, ◌≤◌, ◌<◌, ◌≡◌, refl, ap, ◌∙◌, List, [], ◌∷◌, ◌++◌, arith, length, take, drop,
}
use personal_secure_node.Cipher.{Bytes}
use personal_secure_node.Vault.Import.{read_chunks}

abbrev pub concat : List Bytes → Bytes
concat [] = []
concat (t ∷ ts) = t ++ concat ts

take-append_drop : (n : ℕ) (xs : Bytes) → take n xs ++ drop n xs ≡ xs
take-append_drop zero xs = refl
take-append_drop (suc n) [] = refl
take-append_drop (suc n) (x ∷ xs) = ap (λ (t : Bytes). x ∷ t) (take-append_drop n xs)

length-drop : (n : ℕ) (xs : Bytes) → length (drop n xs) ≤ length xs
length-drop zero xs = omega arith
length-drop (suc n) [] = omega arith
length-drop (suc n) (x ∷ xs) = omega (arith, length-drop n xs)

length-drop_less : (n x : ℕ) (xs : Bytes) → 0 < n → length (drop n (x ∷ xs)) ≤ length xs
length-drop_less zero x xs h = omega (arith, h)
length-drop_less (suc n) x xs h = length-drop n xs

-- The loop cuts the file without loss, if it has a unit of fuel for each byte.
pub concat-read_chunks :
    (fuel size : ℕ) (content : Bytes)
    → 0 < size
    → length content ≤ fuel
    → concat (read_chunks fuel size content) ≡ content
unfolding read_chunks
concat-read_chunks zero size [] h enough = refl
concat-read_chunks zero size (c ∷ cs) h enough = absurd (omega (arith, enough))
concat-read_chunks (suc fuel) size [] h enough = refl
concat-read_chunks (suc fuel) size (c ∷ cs) h enough =
    let less = length-drop_less size c cs h in
    ap (λ (t : Bytes). take size (c ∷ cs) ++ t)
      (concat-read_chunks fuel size (drop size (c ∷ cs)) h (omega (arith, less, enough)))
    ∙ take-append_drop size (c ∷ cs)
