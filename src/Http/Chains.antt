-- ===== src/Http/Chains.antt =====
-- Chains of calls in a handler: what each call returned, and what the chain leaves alone.
use personal_secure_node.Prelude.{
  ℕ, Result, ok, err, ◌≡◌, refl, sym, ap, ◌∙◌, inl, inr, ok-injective, Result-cases,
}
use personal_secure_node.Auth.{AuthDb}
use personal_secure_node.Schema.{Db}
use personal_secure_node.Vault.{Vault, transact}
use personal_secure_node.Http.{Server, Reply, Content}
use personal_secure_node.Http.Handler.{
  Handler, ◌>>=◌, then_handle, pure, in_vault, in_db, in_auth, json,
}

-- What a chain returns is what its second part returns on the value of the first, in the state that
-- the first leaves.
pub then_handle-ok :
    {A B : Type 0} (first : Handler A) (next : A → Handler B) (s s' : Server) (b : B)
    → (first >>= next) s ≡ (ok b, s')
    → (a : A) × (t : Server) × (first s ≡ (ok a, t)) × (next a t ≡ (ok b, s'))
unfolding ◌>>=◌
then_handle-ok {A = A} {B = B} first next s s' b h = go (first s) h
  where
    go :
        (r : Result A × Server)
        → then_handle r next ≡ (ok b, s')
        → (a : A) × (t : Server) × (r ≡ (ok a, t)) × (next a t ≡ (ok b, s'))
    go (ok a, t) e = (a, t, refl, e)
    go (err x, t) e = cc (ap (λ (p : Result B × Server). p.0) e)

-- A call that has no effect returns its value and the state.
pub pure-ok :
    {A : Type 0} (r : Result A) (s s' : Server) (a : A)
    → pure r s ≡ (ok a, s')
    → (r ≡ ok a) × (s ≡ s')
unfolding pure
pure-ok r s s' a h = (ap (λ p. p.0) h, ap (λ p. p.1) h)

pub in_auth-ok :
    {A : Type 0} (f : AuthDb → Result (A × AuthDb)) (s s' : Server) (a : A)
    → in_auth f s ≡ (ok a, s')
    → (db : AuthDb) × (f s.auth ≡ ok (a, db)) × (record s { auth = db } ≡ s')
unfolding in_auth
in_auth-ok {A = A} f s s' a h = elim (Result-cases (f s.auth)) [
  | inl ((b, db), e) ↦
      let opened : ◌≡◌ {A = Result A × Server} (ok b, record s { auth = db }) (ok a, s') =
        rw (e, in_auth) at h in
      let same : b ≡ a = ok-injective (ap (λ (p : Result A × Server). p.0) opened) in
      (db, e ∙ ap (λ x. ok (x, db)) same, ap (λ (p : Result A × Server). p.1) opened)
  | inr (raised, e) ↦
      let opened : ◌≡◌ {A = Result A × Server} (err raised, s) (ok a, s') = rw (e, in_auth) at h in
      cc (ap (λ (p : Result A × Server). p.0) opened)
]

pub in_vault-ok :
    {A : Type 0} (f : Vault → Result A × Vault) (s s' : Server) (a : A)
    → in_vault f s ≡ (ok a, s')
    → f s.vault ≡ (ok a, s'.vault)
unfolding in_vault
in_vault-ok {A = A} f s s' a h = λ i. ((h i).0, (h i).1.vault)

pub in_db-ok :
    {A : Type 0} (f : Db → Result (A × Db)) (s s' : Server) (a : A)
    → in_db f s ≡ (ok a, s')
    → f s.vault.db ≡ ok (a, s'.vault.db)
in_db-ok {A = A} f s s' a h = go (f s.vault.db) refl (in_vault-ok (transact f) s s' a h)
  where
    go :
        (r : Result (A × Db))
        → f s.vault.db ≡ r
        → ◌≡◌ {A = Result A × Vault}
            (elim r [ ok (b, db) ↦ (ok b, record s.vault { db = db }) | err e ↦ (err e, s.vault) ])
            (ok a, s'.vault)
        → f s.vault.db ≡ ok (a, s'.vault.db)
    go (ok (b, db)) e k =
        let same : b ≡ a = ok-injective (ap (λ (p : Result A × Vault). p.0) k) in
        let after : db ≡ s'.vault.db = ap (λ (p : Result A × Vault). p.1.db) k in
        e ∙ cc (same, after)
    go (err x) e k = cc (ap (λ (p : Result A × Vault). p.0) k)

pub json-ok :
    (code : ℕ) (content : Content) (s s' : Server) (reply : Reply)
    → json code content s ≡ (ok reply, s')
    → (reply ≡ record { status_code = code; content = content }) × (s ≡ s')
unfolding json pure
json-ok code content s s' reply h = (
  sym (ok-injective (ap (λ (p : Result Reply × Server). p.0) h)),
  ap (λ (p : Result Reply × Server). p.1) h,
)

abbrev pub IsKept : Server → Server → Type 0
IsKept s s' = (s'.vault ≡ s.vault) × (s'.registry ≡ s.registry)

-- A handler that changes neither the vault nor the registry.
unfoldable pub Keeps : {A : Type 0} → Handler A → Type 0
Keeps h = (s : Server) → IsKept s (h s).1

pub then_handle-Keeps :
    {A B : Type 0} (first : Handler A) (next : A → Handler B)
    → Keeps first
    → ((a : A) → Keeps (next a))
    → Keeps (first >>= next)
unfolding Keeps ◌>>=◌
then_handle-Keeps {A = A} {B = B} first next h k s = go (first s) (h s)
  where
    go : (r : Result A × Server) → IsKept s r.1 → IsKept s (then_handle r next).1
    go (ok a, s') (v, r) = ((k a s').0 ∙ v, (k a s').1 ∙ r)
    go (err e, s') kept = kept

pub in_auth-Keeps : {A : Type 0} (f : AuthDb → Result (A × AuthDb)) → Keeps (in_auth f)
unfolding Keeps in_auth
in_auth-Keeps f s = elim (Result-cases (f s.auth)) [
  | inl ((a, db), e) ↦ rw (e, in_auth) (refl, refl)
  | inr (raised, e) ↦ rw (e, in_auth) (refl, refl)
]

pub after_pure :
    {A B : Type 0} (r : Result A) (next : A → Handler B)
    → ((a : A) → Keeps (next a))
    → Keeps (pure r >>= next)
unfolding Keeps pure
after_pure r next k = then_handle-Keeps (pure r) next (λ s. (refl, refl)) k

pub after_in_auth :
    {A B : Type 0} (f : AuthDb → Result (A × AuthDb)) (next : A → Handler B)
    → ((a : A) → Keeps (next a))
    → Keeps (in_auth f >>= next)
after_in_auth f next k = then_handle-Keeps (in_auth f) next (in_auth-Keeps f) k

pub json-Keeps : (code : ℕ) (content : Content) → Keeps (json code content)
unfolding Keeps pure json
json-Keeps code content s = (refl, refl)

pub pure-Keeps : {A : Type 0} (r : Result A) → Keeps (pure r)
unfolding Keeps pure
pure-Keeps r s = (refl, refl)
