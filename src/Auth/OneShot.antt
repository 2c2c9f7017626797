-- ===== src/Auth/OneShot.antt =====
-- An invite is redeemed at most once: internal/gw/auth/pg_invitestore.go.
use agentgate.Base.{
  ℕ, suc, ◌+◌, ◌-◌, ◌≤◌, ◌≡◌, refl, subst, inl, inr, String, Bool, true, false, ◌&&◌, List, [], ◌∷◌,
  ◌++◌, Option, none, some, ◌==◌, if◌then◌else◌, eq_iff, Bool-cases, Result, ok, err, arith,
}
use agentgate.Auth.Keys.{is_live, KeyRow}
use agentgate.Auth.Backed.{both_true}
use agentgate.Auth.Invites.{
  Invite, InviteTables, first_invite, new_invite, created, create, is_redeemable, redeem_rows,
  issued, consume_and_issue_key,
}

pub data InviteEvent : Type 0 where
  creating : Bool → Invite → InviteEvent
  redeeming : Bool → Bool → String → String → String → InviteEvent

abbrev pub is_ok : {A E : Type 0} → Result E A → ℕ
is_ok (ok _) = 1
is_ok (err _) = 0

abbrev pub invite_event : InviteTables → ℕ → InviteEvent → InviteTables
invite_event t now (creating ran inv) = (create ran t inv now).0
invite_event t now (redeeming ran committed token machine hash) =
    (consume_and_issue_key ran committed t now token machine hash).0

-- 1 if the event redeems the token.
abbrev pub redeems : String → InviteTables → ℕ → InviteEvent → ℕ
redeems token t now (creating ran inv) = 0
redeems token t now (redeeming ran committed other machine hash) =
    let one = is_ok (consume_and_issue_key ran committed t now other machine hash).1 in
    if other == token then one else 0

-- How often the events redeem the token.
abbrev pub redeemed : String → List (ℕ × InviteEvent) → InviteTables → ℕ
redeemed token [] t = 0
redeemed token ((now, e) ∷ events) t =
    let later = redeemed token events (invite_event t now e) in redeems token t now e + later

abbrev rows_of : String → List Invite → ℕ
rows_of token [] = 0
rows_of token (inv ∷ invites) =
    let rest = rows_of token invites in if inv.token_hash == token then suc rest else rest

abbrev unused : String → List Invite → ℕ
unused token [] = 0
unused token (inv ∷ invites) =
    let rest = unused token invites in
    if inv.token_hash == token && is_live inv.used_at then suc rest else rest

rows_of-first_invite :
    (token : String) (invites : List Invite)
    → first_invite token invites ≡ none
    → rows_of token invites ≡ 0
rows_of-first_invite token [] h = refl
rows_of-first_invite token (inv ∷ invites) h = elim (Bool-cases (inv.token_hash == token)) [
  | inl e ↦ cc (rw e at h)
  | inr e ↦ rw e (rows_of-first_invite token invites (rw e at h))
]

rows_of-append :
    (token : String) (invites more : List Invite)
    → rows_of token (invites ++ more) ≡ rows_of token invites + rows_of token more
rows_of-append token [] more = omega arith
rows_of-append token (inv ∷ invites) more = ground (arith, rows_of-append token invites more)

unused-append :
    (token : String) (invites more : List Invite)
    → unused token (invites ++ more) ≡ unused token invites + unused token more
unused-append token [] more = omega arith
unused-append token (inv ∷ invites) more = ground (arith, unused-append token invites more)

rows_of-redeem_rows :
    (token other machine : String) (now : ℕ) (invites : List Invite)
    → rows_of token (redeem_rows other now machine invites).0 ≡ rows_of token invites
unfolding redeem_rows
rows_of-redeem_rows token other machine now [] = refl
rows_of-redeem_rows token other machine now (inv ∷ invites) =
    elim (Bool-cases (inv.token_hash == other && is_redeemable now inv)) [
      | inl e ↦ rw e (rw (rows_of-redeem_rows token other machine now invites) refl)
      | inr e ↦ rw e (rw (rows_of-redeem_rows token other machine now invites) refl)
    ]

abbrev returned : Option Invite → ℕ
returned none = 0
returned (some _) = 1

unused-redeem_rows_other :
    (token other machine : String) (now : ℕ) (invites : List Invite)
    → unused token (redeem_rows other now machine invites).0 ≤ unused token invites
unfolding redeem_rows
unused-redeem_rows_other token other machine now [] = omega arith
unused-redeem_rows_other token other machine now (inv ∷ invites) =
    let rest = unused-redeem_rows_other token other machine now invites in
    elim (Bool-cases (inv.token_hash == other && is_redeemable now inv)) [
      | inl e ↦ rw e (elim (Bool-cases (inv.token_hash == token)) [
        | inl mine ↦ rw mine (elim (Bool-cases (is_live inv.used_at)) [
          | inl live ↦ rw live (omega (arith, rest))
          | inr used ↦ rw used rest
        ])
        | inr other_one ↦ rw other_one rest
      ])
      | inr e ↦ rw e (elim (Bool-cases (inv.token_hash == token && is_live inv.used_at)) [
        | inl open_ ↦ rw open_ (omega (arith, rest))
        | inr closed ↦ rw closed rest
      ])
    ]

-- An UPDATE that returns a row leaves fewer unused rows with its token.
unused-redeem_rows :
    (token machine : String) (now : ℕ) (invites : List Invite)
    → unused token (redeem_rows token now machine invites).0
        + returned (redeem_rows token now machine invites).1
      ≤ unused token invites
unfolding redeem_rows
unused-redeem_rows token machine now [] = omega arith
unused-redeem_rows token machine now (inv ∷ invites) =
    let rest = unused-redeem_rows token machine now invites in
    elim (Bool-cases (inv.token_hash == token && is_redeemable now inv)) [
      | inl e ↦
          let (mine, redeemable) = both_true (inv.token_hash == token) _ e in
          let (live, in_time) = both_true (is_live inv.used_at) _ redeemable in
          rw e (
            rw mine
              (rw live (omega (arith, unused-redeem_rows_other token token machine now invites))))
      | inr e ↦ rw e (elim (Bool-cases (inv.token_hash == token && is_live inv.used_at)) [
        | inl open_ ↦ rw open_ (omega (arith, rest))
        | inr closed ↦ rw closed rest
      ])
    ]

-- What an event does to the rows of a token, its unused ones, and its redemptions.
abbrev IsBounded : String → InviteTables → ℕ → InviteEvent → Type 0
IsBounded token t now e =
    let t' = invite_event t now e in
    redeems token t now e + unused token t'.invites + (1 - rows_of token t'.invites)
    ≤ unused token t.invites + (1 - rows_of token t.invites)

created_bound :
    (token : String) (t : InviteTables) (ran : Bool) (new : Invite) (found : Option Invite)
    → first_invite new.token_hash t.invites ≡ found
    → 0
        + unused token (created ran t new found).0.invites
        + (1 - rows_of token (created ran t new found).0.invites)
      ≤ unused token t.invites + (1 - rows_of token t.invites)
created_bound token t true new none e =
    rw (rows_of-append token t.invites (new ∷ []), unused-append token t.invites (new ∷ []))
      (elim (Bool-cases (new.token_hash == token)) [
        | inl mine ↦ rw mine (
            ground (
              arith,
              rows_of-first_invite token t.invites (
                  subst (λ x. first_invite x t.invites ≡ none)
                    ((eq_iff new.token_hash token).0 mine) e),
            ))
        | inr other ↦ rw other (omega arith)
      ])
created_bound token t true new (some old) e = omega arith
created_bound token t false new found e = omega arith

issued_bound :
    (token other machine hash : String) (t : InviteTables) (now : ℕ) (committed : Bool)
    (found : Option Invite)
    → (redeem_rows other now machine t.invites).1 ≡ found
    → let run =
        issued committed t now other hash (redeem_rows other now machine t.invites).0 found in
      (if other == token then is_ok run.1 else 0)
        + unused token run.0.invites
        + (1 - rows_of token run.0.invites)
      ≤ unused token t.invites + (1 - rows_of token t.invites)
issued_bound token other machine hash t now committed none e = ground arith
issued_bound token other machine hash t now false (some inv) e = ground arith
issued_bound token other machine hash t now true (some inv) e =
    rw (rows_of-redeem_rows token other machine now t.invites) (elim (Bool-cases (other == token)) [
      | inr differs ↦
          rw differs (omega (arith, unused-redeem_rows_other token other machine now t.invites))
      | inl same ↦
          let counted : unused other (redeem_rows other now machine t.invites).0 + 1
              ≤ unused other t.invites =
            rw e at (unused-redeem_rows other machine now t.invites) in
          rw same (
            omega (
              arith,
              subst
                  (λ x.
                    unused x (redeem_rows other now machine t.invites).0 + 1 ≤ unused x t.invites)
                  ((eq_iff other token).0 same) counted,
            ))
    ])

invite_event-IsBounded :
    (token : String) (t : InviteTables) (now : ℕ) (e : InviteEvent) → IsBounded token t now e
unfolding create consume_and_issue_key
invite_event-IsBounded token t now (creating ran inv) =
    created_bound token t ran (new_invite inv now) (first_invite inv.token_hash t.invites) refl
invite_event-IsBounded token t now (redeeming true committed other machine hash) =
    issued_bound token other machine hash t now committed
      (redeem_rows other now machine t.invites).1 refl
invite_event-IsBounded token t now (redeeming false committed other machine hash) = ground arith

redeemed_most :
    (token : String) (events : List (ℕ × InviteEvent)) (t : InviteTables)
    → redeemed token events t ≤ unused token t.invites + (1 - rows_of token t.invites)
redeemed_most token [] t = omega arith
redeemed_most token ((now, e) ∷ events) t =
    omega (
      arith,
      invite_event-IsBounded token t now e,
      redeemed_most token events (invite_event t now e),
    )

-- From empty tables of invites on, an invite token is redeemed at most once, whatever invites are created
-- and tokens presented, in whatever order and at whatever times, and whichever statements and commits
-- of their transactions fail.
pub redeemed_once :
    (token : String) (events : List (ℕ × InviteEvent)) (api_keys : List KeyRow)
    → redeemed token events (record { invites = []; api_keys = api_keys }) ≤ 1
redeemed_once token events api_keys =
    omega (arith, redeemed_most token events (record { invites = []; api_keys = api_keys }))
