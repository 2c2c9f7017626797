-- ===== src/Auth/SetupTokens.antt =====
-- The setup tokens in Postgres: PgSetupTokenStore of internal/gw/auth/pg_keystore.go.
use agentgate.Base.{
  ℕ, ◌≡◌, refl, inl, inr, String, Bool, true, false, ◌&&◌, not, List, [], ◌∷◌, ◌++◌, Option, none,
  some, ◌==◌, if◌then◌else◌, Bool-cases,
}
use agentgate.Auth.Keys.{is_live}

record SetupTokenRow : Type 0 where
  pub token_hash : String
  pub consumed_at : Option ℕ

abbrev has_token : String → List SetupTokenRow → Bool
has_token token [] = false
has_token token (r ∷ rows) =
    let later = has_token token rows in if r.token_hash == token then true else later

-- INSERT with ON CONFLICT DO NOTHING, and whether there was no error.
unfoldable insert_token : Bool → List SetupTokenRow → String → List SetupTokenRow × Bool
insert_token ran rows token =
    if ran && not (has_token token rows)
    then (rows ++ record { token_hash = token; consumed_at = none } ∷ [], ran)
    else (rows, ran)

-- The UPDATE of ConsumeToken, and whether it changed a row.
unfoldable consume_rows : String → ℕ → List SetupTokenRow → List SetupTokenRow × Bool
consume_rows token now [] = ([], false)
consume_rows token now (r ∷ rows) =
    let (rest, changed) = consume_rows token now rows in
    if r.token_hash == token && is_live r.consumed_at
    then (record r { consumed_at = some now } ∷ rest, true)
    else (r ∷ rest, changed)

-- `none` is an error of the database.
unfoldable consume_token : Bool → List SetupTokenRow → String → ℕ → List SetupTokenRow × Option Bool
consume_token ran rows token now =
    let (rows', changed) = consume_rows token now rows in
    if ran then (rows', some changed) else (rows, none)

abbrev any_token : List SetupTokenRow → Bool
any_token [] = false
any_token (r ∷ rows) = let later = any_token rows in if is_live r.consumed_at then true else later

unfoldable has_any_token : Bool → List SetupTokenRow → Bool
has_any_token ran rows = ran && any_token rows

consume_rows-consume_rows :
    (token : String) (now later : ℕ) (rows : List SetupTokenRow)
    → (consume_rows token later (consume_rows token now rows).0).1 ≡ false
unfolding consume_rows
consume_rows-consume_rows token now later [] = refl
consume_rows-consume_rows token now later (r ∷ rows) =
    let rest = consume_rows-consume_rows token now later rows in
    elim (Bool-cases (r.token_hash == token && is_live r.consumed_at)) [
      | inr e ↦ rw e (rw e rest)
      | inl e ↦ rw e (elim (Bool-cases (r.token_hash == token)) [
        | inl mine ↦ rw mine rest
        | inr other ↦ rw other rest
      ])
    ]

-- After ConsumeToken has changed the rows, a second call for the token finds nothing to consume.
consume_token-consume_token :
    (rows : List SetupTokenRow) (token : String) (now later : ℕ)
    → (consume_token true (consume_token true rows token now).0 token later).1 ≡ some false
unfolding consume_token
consume_token-consume_token rows token now later =
    rw (consume_rows-consume_rows token now later rows) refl
