-- ===== src/Auth/Keys.antt =====
-- The keys in Postgres with their cache: internal/gw/auth/pg_keystore.go. bcrypt.CompareHashAndPassword is a
-- parameter, and so are the clock and whether the database runs a statement. Instants and durations are
-- in seconds. A call is one step; the time of the last use of a key is left out.
use Prim.Native.String.{len, slice}
use agentgate.Base.{
  ℕ, ◌+◌, String, Bool, true, false, ◌&&◌, not, ltb, leb, List, [], ◌∷◌, ◌++◌, Option, none, some,
  Dict, lookup, insert, ◌==◌, if◌then◌else◌,
}

pub record ApiKey : Type 0 where
  pub user_id : String
  pub team_id : String
  pub role : String
  pub hash : String

-- A row of api_keys.
pub record KeyRow : Type 0 where
  pub key : ApiKey
  pub deleted_at : Option ℕ

pub record CacheEntry : Type 0 where
  pub key : ApiKey
  pub expires : ℕ

pub record PgKeyStore : Type 0 where
  pub rows : List KeyRow
  pub cache : Dict CacheEntry

abbrev pub new_pg_key_store : List KeyRow → PgKeyStore
new_pg_key_store rows = record { rows = rows; cache = [] }

-- deleted_at IS NULL
abbrev pub is_live : Option ℕ → Bool
is_live none = true
is_live (some _) = false

-- 5 minutes
abbrev pub cache_time : ℕ
cache_time = 300

abbrev pub key_prefix : String → String
key_prefix cleartext = if leb 8 (len cleartext) then slice cleartext 0 8 else ""

unfoldable pub has_hash : String → List KeyRow → Bool
has_hash hash [] = false
has_hash hash (r ∷ rows) =
    let later = has_hash hash rows in if r.key.hash == hash then true else later

-- INSERT with ON CONFLICT (key_hash) DO NOTHING, and whether there was no error.
unfoldable pub store_api_key : Bool → PgKeyStore → ApiKey → PgKeyStore × Bool
store_api_key ran s key =
    if ran && not (has_hash key.hash s.rows)
    then (record s { rows = s.rows ++ record { key = key; deleted_at = none } ∷ [] }, ran)
    else (s, ran)

abbrev pub mark_deleted : String → ℕ → List KeyRow → List KeyRow
mark_deleted hash now [] = []
mark_deleted hash now (r ∷ rows) =
    let later = mark_deleted hash now rows in
    (if r.key.hash == hash then record r { deleted_at = some now } else r) ∷ later

unfoldable pub delete_api_key : Bool → PgKeyStore → String → ℕ → PgKeyStore
delete_api_key ran s hash now = if ran then record s { rows = mark_deleted hash now s.rows } else s

abbrev pub unexpired : ℕ → Dict CacheEntry → Dict CacheEntry
unexpired now [] = []
unexpired now ((p, e) ∷ cache) =
    let later = unexpired now cache in if ltb e.expires now then later else (p, e) ∷ later

-- One turn of reapLoop.
unfoldable pub reap : PgKeyStore → ℕ → PgKeyStore
reap s now = record s { cache = unexpired now s.cache }

abbrev pub any_live : List KeyRow → Bool
any_live [] = false
any_live (r ∷ rows) = let later = any_live rows in if is_live r.deleted_at then true else later

unfoldable pub has_any_key : Bool → PgKeyStore → Bool
has_any_key ran s = ran && any_live s.rows

module _ (compare_hash_and_password : String → String → Bool) where
  -- A cached key that is not expired and whose hash the cleartext matches.
  abbrev pub cache_hit : ℕ → String → Option CacheEntry → Option ApiKey
  cache_hit now cleartext none = none
  cache_hit now cleartext (some e) =
      if ltb now e.expires && compare_hash_and_password e.key.hash cleartext
      then some e.key
      else none

  -- The loop over the rows that are not deleted.
  unfoldable pub find_key : String → List KeyRow → Option ApiKey
  find_key cleartext [] = none
  find_key cleartext (r ∷ rows) =
      let later = find_key cleartext rows in
      if is_live r.deleted_at && compare_hash_and_password r.key.hash cleartext
      then some r.key
      else later

  abbrev pub cached : PgKeyStore → String → ℕ → Option ApiKey → PgKeyStore × Option ApiKey
  cached s cleartext now none = (s, none)
  cached s cleartext now (some k) = (
    record s {
      cache =
          insert (key_prefix cleartext) (record { key = k; expires = now + cache_time }) s.cache;
    },
    some k,
  )

  abbrev pub or_rows : Bool → PgKeyStore → ℕ → String → Option ApiKey → PgKeyStore × Option ApiKey
  or_rows ran s now cleartext (some k) = (s, some k)
  or_rows ran s now cleartext none =
      let found = cached s cleartext now (find_key cleartext s.rows) in
      if ran then found else (s, none)

  unfoldable pub lookup_api_key : Bool → PgKeyStore → ℕ → String → PgKeyStore × Option ApiKey
  lookup_api_key ran s now cleartext =
      or_rows ran s now cleartext (cache_hit now cleartext (lookup (key_prefix cleartext) s.cache))
