-- ===== src/Cipher/Tests.antt =====
-- A cipher that meets the documented laws, and runs of the chunk encryption and of the blob store.
use personal_secure_node.Prelude.{
  ℕ, ◌+◌, ◌-◌, ◌*◌, ◌≡◌, refl, ◌∙◌, ap, some, [], ◌∷◌, ◌++◌, ok, length, length-append, take,
  take-length_append, false, arith, find_first,
}
use personal_secure_node.Cipher.{Bytes, Primitives, IsAead, encrypt_chunk, decrypt_chunk}
use personal_secure_node.Cipher.RoundTrip.{decrypt_chunk-encrypt_chunk, chunk_mac-decrypt_chunk}
use personal_secure_node.Blobs.{Store, put, get, exists, read}
use personal_secure_node.Blobs.Laws.{read-put, get-put}

-- the number whose digits in base 257 are the bytes and one more
abbrev pub spell : Bytes → ℕ
spell [] = 0
spell (b ∷ bs) = b + 1 + 257 * spell bs

abbrev pub tag : Bytes
tag = 0 ∷ 0 ∷ 0 ∷ 0 ∷ 0 ∷ 0 ∷ 0 ∷ 0 ∷ 0 ∷ 0 ∷ 0 ∷ 0 ∷ 0 ∷ 0 ∷ 0 ∷ 0 ∷ []

abbrev pub toy : Primitives
toy = record {
  chunk_mac = spell;
  sha256 = spell;
  seal = λ nonce plain aad. plain ++ tag;
  unseal = λ nonce sealed aad. some (take (length sealed - 16) sealed);
}

length_less_tag : (plain : Bytes) → length (plain ++ tag) - 16 ≡ length plain
length_less_tag plain = omega (arith, length-append plain tag)

pub toy-IsAead : IsAead toy
toy-IsAead = record {
  unseal-seal = λ nonce plain aad.
      ap (λ n. some (take n (plain ++ tag))) (length_less_tag plain)
      ∙ ap some (take-length_append plain tag);
  length-seal = λ nonce plain aad. length-append plain tag;
}

abbrev pub nonce : Bytes
nonce = 1 ∷ 2 ∷ 3 ∷ 4 ∷ 5 ∷ 6 ∷ 7 ∷ 8 ∷ 9 ∷ 10 ∷ 11 ∷ 12 ∷ []

abbrev plaintext : Bytes
plaintext = 7 ∷ 8 ∷ []

decrypt_chunk-encrypt_chunk_example :
    decrypt_chunk toy (spell plaintext) (encrypt_chunk toy nonce (spell plaintext) plaintext)
    ≡ ok plaintext
decrypt_chunk-encrypt_chunk_example =
    decrypt_chunk-encrypt_chunk toy toy-IsAead nonce plaintext refl

chunk_mac-decrypt_chunk_example : spell plaintext ≡ 2321
chunk_mac-decrypt_chunk_example =
    chunk_mac-decrypt_chunk toy 2321 (encrypt_chunk toy nonce (spell plaintext) plaintext) plaintext
      decrypt_chunk-encrypt_chunk_example

abbrev other : Store
other = (3, 9 ∷ 9 ∷ []) ∷ []

fresh : exists (spell plaintext) other ≡ false
unfolding exists read find_first
fresh = refl

get-put_example :
    get toy (spell plaintext) (put toy nonce (spell plaintext) plaintext other).1 ≡ ok plaintext
get-put_example = get-put toy nonce plaintext other toy-IsAead refl fresh

read-put_example : read 3 (put toy nonce (spell plaintext) plaintext other).1 ≡ read 3 other
read-put_example = read-put toy nonce plaintext (spell plaintext) 3 other
