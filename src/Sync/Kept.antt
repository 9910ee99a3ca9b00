-- ===== src/Sync/Kept.antt =====
-- The requests to the node and the upload of a file leave the client's tables alone.
use personal_secure_node.Prelude.{
  ℕ, Text, codes, Bool, true, false, List, [], ◌∷◌, suc, Result, ok, err, inl, inr, ◌≡◌, refl, ◌∙◌,
  if◌then◌else◌, any, Bool-cases, Option-cases, Result-cases,
}
use personal_secure_node.Cipher.{Bytes}
use personal_secure_node.Json.{Json}
use personal_secure_node.Registry.Manifest.{is_blank}
use personal_secure_node.Sync.{
  SyncConfig, Stat, Entry, Network, Client, Method, Call, then_call, ◌>>=◌, pure, Digests, is_text,
  is_unauthorized, put_chunk, login, current_token, send, retry, request_json, is_ordinal,
  put_missing, send_chunks, upload_file,
}

unfoldable pub Keeps : {S A : Type 0} → Method S A → Type 0
Keeps {S} {A} m = (c : Client S) → (m c).1.synced_files ≡ c.synced_files

then_call-Keeps :
    {S A B : Type 0} (first : Method S A) (next : A → Method S B)
    → Keeps first
    → ((a : A) → Keeps (next a))
    → Keeps (first >>= next)
unfolding Keeps ◌>>=◌
then_call-Keeps {S = S} {A = A} {B = B} first next h k c = go (first c) (h c)
  where
    go :
        (r : Result A × Client S)
        → r.1.synced_files ≡ c.synced_files
        → (then_call r next).1.synced_files ≡ c.synced_files
    go (ok a, c1) e = k a c1 ∙ e
    go (err x, c1) e = e

pure-Keeps : (S : Type 0) {A : Type 0} (r : Result A) → Keeps {S = S} (pure r)
unfolding Keeps pure
pure-Keeps S r c = refl

after_pure :
    {S A B : Type 0} (r : Result A) (next : A → Method S B)
    → ((a : A) → Keeps (next a))
    → Keeps (pure r >>= next)
after_pure r next k = then_call-Keeps (pure r) next (pure-Keeps _ r) k

either-Keeps :
    {S A : Type 0} (b : Bool) (m n : Method S A) → Keeps m → Keeps n → Keeps (if b then m else n)
either-Keeps true m n h k = h
either-Keeps false m n h k = k

module _ {S : Type 0} (network : Network S) where
  login-Keeps : Keeps (login network)
  unfolding login Keeps
  login-Keeps c = elim (Result-cases (network.login_device c.node).0) [
    | inl (t, e) ↦ rw (e, login) refl
    | inr (x, e) ↦ rw (e, login) refl
  ]

  current_token-Keeps : Keeps (current_token network)
  unfolding current_token Keeps
  current_token-Keeps c = elim (Option-cases c.access_token) [
    | inl e ↦ rw (e, current_token) (login-Keeps c)
    | inr (t, e) ↦ elim (Bool-cases (is_blank t)) [
      | inl b ↦ rw (e, current_token) (rw b (login-Keeps c))
      | inr b ↦ rw (e, current_token) (rw b refl)
    ]
  ]

  send-Keeps : (call : Call) (token : Text) → Keeps (send network call token)
  unfolding Keeps send
  send-Keeps call token c = refl

  retry-Keeps :
      (call : Call) (r : Result Json × Client S)
      → (retry network call r).1.synced_files ≡ r.1.synced_files
  unfolding retry Keeps ◌>>=◌
  retry-Keeps call (ok v, c) = refl
  retry-Keeps call (err e, c) = elim (Bool-cases (is_unauthorized e)) [
    | inl b ↦
        rw b (then_call-Keeps (login network) (send network call) login-Keeps (send-Keeps call) c)
    | inr b ↦ rw b refl
  ]

  retried :
      (call : Call) (token : Text)
      → Keeps (λ (c : Client S). retry network call (send network call token c))
  unfolding Keeps send
  retried call token c = retry-Keeps call (send network call token c)

  request_json-Keeps : (call : Call) → Keeps (request_json network call)
  unfolding request_json
  request_json-Keeps call =
      then_call-Keeps (current_token network) _ current_token-Keeps (retried call)

  put_missing-Keeps :
      (id : Json) (uploaded : List Json) (n : ℕ) (chunks : List Bytes)
      → Keeps (put_missing network id uploaded n chunks)
  unfolding put_missing
  put_missing-Keeps id uploaded n [] = pure-Keeps S (ok tt)
  put_missing-Keeps id uploaded n (chunk ∷ chunks) =
      either-Keeps (any (is_ordinal n) uploaded) _ _ (put_missing-Keeps id uploaded (suc n) chunks)
        (then_call-Keeps (request_json network (put_chunk id n chunk)) _ (request_json-Keeps _)
          (λ reply. put_missing-Keeps id uploaded (suc n) chunks))

  module _ (digests : Digests) (config : SyncConfig) where
    send_chunks-Keeps :
        (entry : Entry) (stat : Stat) (session : Json)
        → Keeps (send_chunks network digests config entry stat session)
    unfolding send_chunks
    send_chunks-Keeps entry stat session = after_pure _ _ (λ rows. after_pure _ _ (λ values.
        after_pure _ _ (λ uploaded. after_pure _ _ (λ id.
          then_call-Keeps _ _ (put_missing-Keeps id uploaded 0 _) (λ done. after_pure _ _ (λ read.
            then_call-Keeps _ _ (request_json-Keeps _)
              (λ reply. after_pure _ _ (λ after. after_pure _ _ (λ same. pure-Keeps _ _)))))))))

    pub upload_file-Keeps :
        (entry : Entry) (stat : Stat) (content_hash : Text)
        → Keeps (upload_file network digests config entry stat content_hash)
    unfolding upload_file
    upload_file-Keeps entry stat content_hash = after_pure _ _ (λ remote.
        then_call-Keeps _ _ (request_json-Keeps _) (λ session. after_pure _ _ (λ state.
          either-Keeps (is_text (codes "committed") state) _ _ (pure-Keeps _ _)
            (send_chunks-Keeps entry stat session))))
