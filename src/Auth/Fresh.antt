-- ===== src/Auth/Fresh.antt =====
-- For how long a deleted key is accepted: internal/gw/auth/pg_keystore.go.
use agentgate.Base.{
  ℕ, suc, ◌+◌, ◌≤◌, ◌≡◌, subst, inl, inr, String, Bool, true, false, ◌&&◌, not, List, [], ◌∷◌, ◌++◌,
  Option, none, some, lookup, ltb, Bool-cases, Option-cases, some-injective, arith,
}
use agentgate.Auth.Keys.{
  ApiKey, KeyRow, CacheEntry, PgKeyStore, is_live, cache_time, key_prefix, has_hash, store_api_key,
  mark_deleted, delete_api_key, reap, cache_hit, find_key, or_rows, lookup_api_key,
}
use agentgate.Auth.Backed.{
  HasRow-earlier, HasRow-append, HasRow-mark_deleted, All-map, All-insert, All-unexpired,
  All-lookup, both_true, IsUntil-live, HasRow, IsBacked, IsFresh,
}

pub IsFresh-later : (now later : ℕ) (s : PgKeyStore) → now ≤ later → IsFresh now s → IsFresh later s
IsFresh-later now later s le =
    All-map (IsBacked now s.rows) (IsBacked later s.rows) s.cache
      (λ pe b. (omega (arith, b.0), b.1))

pub store_api_key-IsFresh :
    (ran : Bool) (s : PgKeyStore) (key : ApiKey) (now : ℕ)
    → IsFresh now s
    → IsFresh now (store_api_key ran s key).0
unfolding store_api_key
store_api_key-IsFresh ran s key now h = elim (Bool-cases (ran && not (has_hash key.hash s.rows))) [
  | inl e ↦ rw e (
      All-map (IsBacked now s.rows)
        (IsBacked now (s.rows ++ record { key = key; deleted_at = none } ∷ [])) s.cache
        (λ pe b. (b.0, HasRow-append pe.1.key pe.1.expires s.rows _ b.1)) h)
  | inr e ↦ rw e h
]

pub delete_api_key-IsFresh :
    (ran : Bool) (s : PgKeyStore) (hash : String) (now : ℕ)
    → IsFresh now s
    → IsFresh now (delete_api_key ran s hash now)
unfolding delete_api_key
delete_api_key-IsFresh true s hash now h =
    All-map (IsBacked now s.rows) (IsBacked now (mark_deleted hash now s.rows)) s.cache
      (λ pe b. (b.0, HasRow-mark_deleted pe.1.key pe.1.expires now hash s.rows b.0 b.1)) h
delete_api_key-IsFresh false s hash now h = h

pub reap-IsFresh : (s : PgKeyStore) (now : ℕ) → IsFresh now s → IsFresh now (reap s now)
unfolding reap
reap-IsFresh s now h = All-unexpired (IsBacked now s.rows) now s.cache h

module _ (compare_hash_and_password : String → String → Bool) where
  -- A key that the store answers with, at an instant: the cleartext matches its hash, and it is in
  -- the table and not deleted, or deleted less than the cache time ago.
  abbrev pub IsAccepted : List KeyRow → ℕ → String → Option ApiKey → Type 0
  IsAccepted rows now cleartext none = Unit {0}
  IsAccepted rows now cleartext (some k) =
      (compare_hash_and_password k.hash cleartext ≡ true) × HasRow k (suc now) rows

  find_key-IsAccepted :
      (cleartext : String) (end_ : ℕ) (rows : List KeyRow) {k : ApiKey}
      → find_key compare_hash_and_password cleartext rows ≡ some k
      → (compare_hash_and_password k.hash cleartext ≡ true) × HasRow k end_ rows
  unfolding find_key
  find_key-IsAccepted cleartext end_ [] e = cc
  find_key-IsAccepted cleartext end_ (r ∷ rows) {k} e =
      elim (Bool-cases (is_live r.deleted_at && compare_hash_and_password r.key.hash cleartext)) [
        | inl hit ↦
            let (live, match_) = both_true (is_live r.deleted_at) _ hit in
            let same = some-injective r.key k (rw hit at e) in
            (
              subst (λ x. compare_hash_and_password x.hash cleartext ≡ true) same match_,
              inl (same, IsUntil-live r.deleted_at end_ live),
            )
        | inr miss ↦
            let (match_, row) = find_key-IsAccepted cleartext end_ rows (rw miss at e) in
            (match_, inr row)
      ]

  cache_hit-IsAccepted :
      (s : PgKeyStore) (now : ℕ) (cleartext : String) (key : String) {k : ApiKey}
      → IsFresh now s
      → cache_hit compare_hash_and_password now cleartext (lookup key s.cache) ≡ some k
      → (compare_hash_and_password k.hash cleartext ≡ true) × HasRow k (suc now) s.rows
  cache_hit-IsAccepted s now cleartext key {k} h hit = elim (Option-cases (lookup key s.cache)) [
    | inl missing ↦ cc (rw missing at hit)
    | inr (e, found) ↦
        let hit' = rw found at hit in
        elim (Bool-cases (ltb now e.expires && compare_hash_and_password e.key.hash cleartext)) [
          | inl good ↦
              let (young, match_) = both_true (ltb now e.expires) _ good in
              let same = some-injective e.key k (rw good at hit') in
              let backed = All-lookup (IsBacked now s.rows) key s.cache h found in
              (
                subst (λ x. compare_hash_and_password x.hash cleartext ≡ true) same match_,
                HasRow-earlier k (suc now) e.expires s.rows (ground (arith, young))
                    (subst (λ x. HasRow x e.expires s.rows) same backed.1),
              )
          | inr bad ↦ cc (rw bad at hit')
        ]
  ]

  pub lookup_api_key-IsFresh :
      (ran : Bool) (s : PgKeyStore) (now : ℕ) (cleartext : String)
      → IsFresh now s
      → IsFresh now (lookup_api_key compare_hash_and_password ran s now cleartext).0
        × IsAccepted s.rows now cleartext
            (lookup_api_key compare_hash_and_password ran s now cleartext).1
  unfolding lookup_api_key
  lookup_api_key-IsFresh ran s now cleartext h =
      let hit =
        cache_hit compare_hash_and_password now cleartext (lookup (key_prefix cleartext) s.cache) in
      elim (Option-cases hit) [
        | inr (k, e) ↦ rw e (h, cache_hit-IsAccepted s now cleartext (key_prefix cleartext) h e)
        | inl e ↦ rw e (from_rows ran)
      ]
    where
      from_rows :
          (ran : Bool)
          → IsFresh now (or_rows compare_hash_and_password ran s now cleartext none).0
            × IsAccepted s.rows now cleartext
                (or_rows compare_hash_and_password ran s now cleartext none).1
      from_rows false = (h, tt)
      from_rows true = elim (Option-cases (find_key compare_hash_and_password cleartext s.rows)) [
        | inl e ↦ rw e (h, tt)
        | inr (k, e) ↦
            let (match_, row) = find_key-IsAccepted cleartext (suc now) s.rows e in
            let entry : CacheEntry = record { key = k; expires = now + cache_time } in
            let backed : IsBacked now s.rows (key_prefix cleartext, entry) =
              (omega arith, (find_key-IsAccepted cleartext (now + cache_time) s.rows e).1) in
            rw e (
              All-insert (IsBacked now s.rows) (key_prefix cleartext) entry s.cache backed h,
              (match_, row),
            )
      ]
