-- ===== src/Auth/Backed.antt =====
-- The entries of the cache of internal/gw/auth/pg_keystore.go and the rows behind them.
use agentgate.Base.{
  ℕ, ◌+◌, ◌≤◌, ◌≡◌, refl, ap, subst, ◌∙◌, ◌⊎◌, inl, inr, String, Bool, true, false, ◌&&◌, List, [],
  ◌∷◌, ◌++◌, All, Option, none, some, Dict, lookup, insert, ltb, ◌==◌, Bool-cases, some-injective,
  eq_iff, arith,
}
use agentgate.Auth.Keys.{
  ApiKey, KeyRow, CacheEntry, PgKeyStore, is_live, cache_time, mark_deleted, unexpired,
}

-- A key that is not deleted, or was deleted less than the cache time before an instant.
abbrev pub IsUntil : ℕ → Option ℕ → Type 0
IsUntil end_ none = Unit {0}
IsUntil end_ (some deleted) = end_ ≤ deleted + cache_time

abbrev pub HasRow : ApiKey → ℕ → List KeyRow → Type 0
HasRow k end_ [] = ⊥
HasRow k end_ (r ∷ rows) = ((r.key ≡ k) × IsUntil end_ r.deleted_at) ⊎ HasRow k end_ rows

abbrev pub IsBacked : ℕ → List KeyRow → String × CacheEntry → Type 0
IsBacked now rows (_, e) = (e.expires ≤ now + cache_time) × HasRow e.key e.expires rows

-- No entry of the cache lives longer than the cache time from now on, or from when its key was deleted.
abbrev pub IsFresh : ℕ → PgKeyStore → Type 0
IsFresh now s = All (IsBacked now s.rows) s.cache

pub IsUntil-earlier : (a b : ℕ) (d : Option ℕ) → a ≤ b → IsUntil b d → IsUntil a d
IsUntil-earlier a b none le h = tt
IsUntil-earlier a b (some d) le h = omega arith

pub HasRow-earlier :
    (k : ApiKey) (a b : ℕ) (rows : List KeyRow) → a ≤ b → HasRow k b rows → HasRow k a rows
HasRow-earlier k a b [] le h = h
HasRow-earlier k a b (r ∷ rows) le (inl h) = inl (h.0, IsUntil-earlier a b r.deleted_at le h.1)
HasRow-earlier k a b (r ∷ rows) le (inr h) = inr (HasRow-earlier k a b rows le h)

pub HasRow-append :
    (k : ApiKey) (end_ : ℕ) (rows more : List KeyRow)
    → HasRow k end_ rows
    → HasRow k end_ (rows ++ more)
HasRow-append k end_ [] more h = absurd h
HasRow-append k end_ (r ∷ rows) more (inl h) = inl h
HasRow-append k end_ (r ∷ rows) more (inr h) = inr (HasRow-append k end_ rows more h)

pub HasRow-mark_deleted :
    (k : ApiKey) (end_ now : ℕ) (hash : String) (rows : List KeyRow)
    → end_ ≤ now + cache_time
    → HasRow k end_ rows
    → HasRow k end_ (mark_deleted hash now rows)
HasRow-mark_deleted k end_ now hash [] le h = h
HasRow-mark_deleted k end_ now hash (r ∷ rows) le (inl h) = elim (Bool-cases (r.key.hash == hash)) [
  | inl e ↦ rw e (inl (h.0, le))
  | inr e ↦ rw e (inl h)
]
HasRow-mark_deleted k end_ now hash (r ∷ rows) le (inr h) =
    inr (HasRow-mark_deleted k end_ now hash rows le h)

pub All-map :
    (P Q : String × CacheEntry → Type 0) (cache : Dict CacheEntry)
    → ((pe : String × CacheEntry) → P pe → Q pe)
    → All P cache
    → All Q cache
All-map P Q [] f h = tt
All-map P Q (pe ∷ cache) f h = (f pe h.0, All-map P Q cache f h.1)

pub All-insert :
    (P : String × CacheEntry → Type 0) (key : String) (e : CacheEntry) (cache : Dict CacheEntry)
    → P (key, e)
    → All P cache
    → All P (insert key e cache)
All-insert P key e [] p h = (p, tt)
All-insert P key e ((name, old) ∷ cache) p h = elim (Bool-cases (name == key)) [
  | inl same ↦ rw same (p, h.1)
  | inr other ↦ rw other (h.0, All-insert P key e cache p h.1)
]

pub All-unexpired :
    (P : String × CacheEntry → Type 0) (now : ℕ) (cache : Dict CacheEntry)
    → All P cache
    → All P (unexpired now cache)
All-unexpired P now [] h = tt
All-unexpired P now ((name, e) ∷ cache) h = elim (Bool-cases (ltb e.expires now)) [
  | inl old ↦ rw old (All-unexpired P now cache h.1)
  | inr young ↦ rw young (h.0, All-unexpired P now cache h.1)
]

pub All-lookup :
    (P : String × CacheEntry → Type 0) (key : String) (cache : Dict CacheEntry) {e : CacheEntry}
    → All P cache
    → lookup key cache ≡ some e
    → P (key, e)
All-lookup P key [] h found = cc
All-lookup P key ((name, old) ∷ cache) {e} h found = elim (Bool-cases (name == key)) [
  | inl same ↦
      subst P
        (ap (λ x. (x, old)) ((eq_iff name key).0 same)
          ∙ ap (λ x. (key, x)) (some-injective old e (rw same at found)))
        h.0
  | inr other ↦ All-lookup P key cache h.1 (rw other at found)
]

pub both_true : (a b : Bool) → (a && b) ≡ true → (a ≡ true) × (b ≡ true)
both_true true b h = (refl, h)
both_true false b h = cc

pub IsUntil-live : (d : Option ℕ) (end_ : ℕ) → is_live d ≡ true → IsUntil end_ d
IsUntil-live none end_ h = tt
IsUntil-live (some d) end_ h = cc
