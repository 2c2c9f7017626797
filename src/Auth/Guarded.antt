-- ===== src/Auth/Guarded.antt =====
-- A request to a route that asks for roles: AuthMiddleware and RequireRole of internal/gw/auth/auth.go over
-- the key store of internal/gw/auth/pg_keystore.go.
use agentgate.Base.{
  ℕ, suc, ◌≤◌, ◌≡◌, refl, inl, inr, ◌⊎◌, String, Bool, true, false, List, [], ◌∷◌, contains, Option,
  none, some, Bool-cases,
}
use agentgate.Auth.Keys.{
  ApiKey, KeyRow, PgKeyStore, store_api_key, delete_api_key, reap, lookup_api_key, new_pg_key_store,
}
use agentgate.Auth.Backed.{HasRow, IsFresh}
use agentgate.Auth.Fresh.{
  IsFresh-later, store_api_key-IsFresh, delete_api_key-IsFresh, reap-IsFresh, IsAccepted,
  lookup_api_key-IsFresh,
}
use agentgate.Auth.Middleware.{
  has_prefix, trim_prefix, is_exempt, Access, exempt, authenticated, unauthorized, key_or_error,
  auth_middleware, require_role, handler_called,
}

-- What happens to the store, one after another, each at its time and with whether the database answers.
pub data KeyEvent : Type 0 where
  storing : Bool → ApiKey → KeyEvent
  looking : Bool → String → KeyEvent
  deleting : Bool → String → KeyEvent
  reaping : KeyEvent

module _ (compare_hash_and_password : String → String → Bool) where
  abbrev pub key_event : PgKeyStore → ℕ → KeyEvent → PgKeyStore
  key_event s now (storing ran key) = (store_api_key ran s key).0
  key_event s now (looking ran cleartext) =
      (lookup_api_key compare_hash_and_password ran s now cleartext).0
  key_event s now (deleting ran hash) = delete_api_key ran s hash now
  key_event s now reaping = reap s now

  abbrev pub key_run : List (ℕ × KeyEvent) → PgKeyStore → PgKeyStore
  key_run [] s = s
  key_run ((now, e) ∷ events) s = key_run events (key_event s now e)

  -- The times of the events do not go back, from one instant to another.
  abbrev pub IsOrdered : ℕ → List (ℕ × KeyEvent) → ℕ → Type 0
  IsOrdered start [] end_ = start ≤ end_
  IsOrdered start ((now, e) ∷ events) end_ = (start ≤ now) × IsOrdered now events end_

  key_event-IsFresh :
      (s : PgKeyStore) (now : ℕ) (e : KeyEvent) → IsFresh now s → IsFresh now (key_event s now e)
  key_event-IsFresh s now (storing ran key) h = store_api_key-IsFresh ran s key now h
  key_event-IsFresh s now (looking ran cleartext) h =
      (lookup_api_key-IsFresh compare_hash_and_password ran s now cleartext h).0
  key_event-IsFresh s now (deleting ran hash) h = delete_api_key-IsFresh ran s hash now h
  key_event-IsFresh s now reaping h = reap-IsFresh s now h

  key_run-IsFresh :
      (events : List (ℕ × KeyEvent)) (s : PgKeyStore) (start end_ : ℕ)
      → IsOrdered start events end_
      → IsFresh start s
      → IsFresh end_ (key_run events s)
  key_run-IsFresh [] s start end_ order h = IsFresh-later start end_ s order h
  key_run-IsFresh ((now, e) ∷ events) s start end_ (first, order) h =
      key_run-IsFresh events (key_event s now e) now end_ order
        (key_event-IsFresh s now e (IsFresh-later start now s first h))

  abbrev pub access_at : PgKeyStore → Bool → ℕ → String → String → Access
  access_at s ran now path header =
      auth_middleware (λ token. (lookup_api_key compare_hash_and_password ran s now token).1) path
        header

  -- The grounds on which a request passes at an instant.
  abbrev pub IsGuarded : List KeyRow → ℕ → String → String → Access → Type 0
  IsGuarded rows now path header exempt = is_exempt path ≡ true
  IsGuarded rows now path header (unauthorized message) = Unit {0}
  IsGuarded rows now path header (authenticated k) =
      (has_prefix header "Bearer " ≡ true)
      × (has_prefix (trim_prefix header "Bearer ") "setup_" ≡ false)
      × (compare_hash_and_password k.hash (trim_prefix header "Bearer ") ≡ true)
      × HasRow k (suc now) rows

  key_or_error-IsGuarded :
      (rows : List KeyRow) (now : ℕ) (path header : String) (o : Option ApiKey)
      → has_prefix header "Bearer " ≡ true
      → has_prefix (trim_prefix header "Bearer ") "setup_" ≡ false
      → IsAccepted compare_hash_and_password rows now (trim_prefix header "Bearer ") o
      → IsGuarded rows now path header (key_or_error o)
  key_or_error-IsGuarded rows now path header none bearer setup accepted = tt
  key_or_error-IsGuarded rows now path header (some k) bearer setup accepted =
      (bearer, setup, accepted.0, accepted.1)

  key_run-IsGuarded :
      (events : List (ℕ × KeyEvent)) (rows : List KeyRow) (start now : ℕ) (ran : Bool)
      (path header : String)
      → IsOrdered start events now
      → IsGuarded
          (key_run events (new_pg_key_store rows)).rows
          now
          path
          header
          (access_at (key_run events (new_pg_key_store rows)) ran now path header)
  unfolding auth_middleware
  key_run-IsGuarded events rows start now ran path header order =
      let s = key_run events (new_pg_key_store rows) in
      let fresh = key_run-IsFresh events (new_pg_key_store rows) start now order tt in
      let token = trim_prefix header "Bearer " in
      let accepted = (lookup_api_key-IsFresh compare_hash_and_password ran s now token fresh).1 in
      elim (Bool-cases (is_exempt path)) [
        | inl e ↦ rw e e
        | inr e ↦ rw e (elim (Bool-cases (has_prefix header "Bearer ")) [
          | inr b ↦ rw b tt
          | inl b ↦ rw b (elim (Bool-cases (has_prefix token "setup_")) [
            | inl c ↦ rw c tt
            | inr c ↦ rw c (
                key_or_error-IsGuarded s.rows now path header
                  (lookup_api_key compare_hash_and_password ran s now token).1 b c accepted)
          ])
        ])
      ]

  -- The grounds on which a request reaches the handler of a route with these roles.
  abbrev pub IsEntitled : List String → List KeyRow → ℕ → String → String → Access → Type 0
  IsEntitled roles rows now path header exempt = is_exempt path ≡ true
  IsEntitled roles rows now path header (unauthorized message) = ⊥
  IsEntitled roles rows now path header (authenticated k) =
      IsGuarded rows now path header (authenticated k)
      × ((roles ≡ []) ⊎ (contains roles k.role ≡ true))

  handler_called-IsEntitled :
      (roles : List String) (rows : List KeyRow) (now : ℕ) (path header : String) (a : Access)
      → IsGuarded rows now path header a
      → handler_called roles a ≡ true
      → IsEntitled roles rows now path header a
  unfolding handler_called require_role
  handler_called-IsEntitled roles rows now path header exempt guarded called = guarded
  handler_called-IsEntitled roles rows now path header (unauthorized message) guarded called = cc
  handler_called-IsEntitled [] rows now path header (authenticated k) guarded called =
      (guarded, inl refl)
  handler_called-IsEntitled (role ∷ roles) rows now path header (authenticated k) guarded called =
      (guarded, inr called)

  -- After any events in the order of their times, on a store that began with an empty cache, a request
  -- reaches the handler of a route only if its path is exempt, or if it has a bearer token that is no
  -- setup token and matches the hash of a key in the table, whose role is one of the route's where the
  -- route has roles, and which is not deleted, or was deleted less than five minutes before.
  pub handler_called-key_run :
      (events : List (ℕ × KeyEvent)) (rows : List KeyRow) (start now : ℕ) (ran : Bool)
      (roles : List String) (path header : String)
      → IsOrdered start events now
      → handler_called roles
          (access_at (key_run events (new_pg_key_store rows)) ran now path header)
        ≡ true
      → IsEntitled roles
          (key_run events (new_pg_key_store rows)).rows
          now
          path
          header
          (access_at (key_run events (new_pg_key_store rows)) ran now path header)
  handler_called-key_run events rows start now ran roles path header order called =
      let s = key_run events (new_pg_key_store rows) in
      handler_called-IsEntitled roles s.rows now path header (access_at s ran now path header)
        (key_run-IsGuarded events rows start now ran path header order) called
