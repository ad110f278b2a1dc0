-- ===== src/Bank/Closed.antt =====
-- The rows of a connection whose OAuth state is spent.
use mathlib.Core.Path.{subst}
use nbe_financial_advisor_ba.Prelude.{
  ℕ, ◌≡◌, refl, sym, ◌∙◌, inl, inr, Bool, true, false, none, some, List, [], ◌∷◌, ◌&&◌, ◌==◌, arith,
  All, Bool-cases,
}
use nbe_financial_advisor_ba.Prelude.Text.{Text}
use nbe_financial_advisor_ba.Bank.Accounts.{
  Connection, RemoteAccount, Tables, apply_synced_accounts, delete_shadows,
}
use nbe_financial_advisor_ba.Bank.Connect.{
  Answer, ok, connector_error, Token, integrity_error, save, get_connection, is_taken,
  marked_failed, mark_failed, with_token, Bank, link, on_accounts, on_token,
}

get_connection-save :
    (id user : ℕ) (cs : List Connection) (c c' : Connection)
    → get_connection id user cs ≡ some c
    → c'.id ≡ id
    → c'.user ≡ user
    → get_connection id user (save c' cs) ≡ some c'
unfolding get_connection save
get_connection-save id user [] c c' found same_id same_user = absurd (ground arith)
get_connection-save id user (d ∷ ds) c c' found same_id same_user =
    grind (arith, get_connection-save id user ds c c')

pub get_connection-key :
    (id user : ℕ) (cs : List Connection) (c : Connection)
    → get_connection id user cs ≡ some c
    → (c.id ≡ id) × (c.user ≡ user)
unfolding get_connection
get_connection-key id user [] c found = absurd (ground arith)
get_connection-key id user (d ∷ ds) c found = grind (arith, get_connection-key id user ds c)

pub delete_shadows-connections :
    (iexact : Text → Text → Bool) (user : ℕ) (remote : List RemoteAccount) (db : Tables)
    → (delete_shadows iexact user remote db).connections ≡ db.connections
unfolding delete_shadows
delete_shadows-connections iexact user [] db = refl
delete_shadows-connections iexact user (r ∷ rs) db = refl

module _ (id user : ℕ) (slug : Text) where
  -- A row of the id has no OAuth state, and is of the user and the provider.
  abbrev pub IsSpent : Connection → Type 0
  IsSpent d =
      (d.id == id) ≡ true → (d.oauth_state ≡ none) × (d.user ≡ user) × (d.provider_slug ≡ slug)

  -- The user has the connection, and every row of its id is spent.
  abbrev pub IsClosed : Tables → Type 0
  IsClosed db =
      (c : Connection) × (get_connection id user db.connections ≡ some c)
      × All IsSpent db.connections

  pub save-All :
      (c' : Connection) (cs : List Connection)
      → IsSpent c'
      → All IsSpent cs
      → All IsSpent (save c' cs)
  unfolding save
  save-All c' [] spent every = tt
  save-All c' (d ∷ ds) spent (first, every) = elim (Bool-cases (d.id == c'.id)) [
    | inl same ↦ rw same (spent, save-All c' ds spent every)
    | inr other ↦ rw other (first, save-All c' ds spent every)
  ]

  -- A row of the id, saved over whatever was there.
  save_own-All :
      (c' : Connection) (cs : List Connection) → c'.id ≡ id → IsSpent c' → All IsSpent (save c' cs)
  unfolding save
  save_own-All c' [] own spent = tt
  save_own-All c' (d ∷ ds) own spent = elim (Bool-cases (d.id == c'.id)) [
    | inl same ↦ rw same (spent, save_own-All c' ds own spent)
    | inr other ↦
        rw other ((λ mine. absurd (ground (arith, other, own, mine))), save_own-All c' ds own spent)
  ]

  pub get_connection-IsSpent :
      (k u : ℕ) (cs : List Connection) (c : Connection)
      → get_connection k u cs ≡ some c
      → All IsSpent cs
      → IsSpent c
  unfolding get_connection
  get_connection-IsSpent k u [] c found every = absurd (ground (arith, found))
  get_connection-IsSpent k u (d ∷ ds) c found (first, every) =
      elim (Bool-cases ((d.id == k) && (d.user == u))) [
        | inl here ↦ let same : d ≡ c = grind (arith, found, here) in subst IsSpent same first
        | inr later ↦ get_connection-IsSpent k u ds c (grind (arith, found, later)) every
      ]

  pub get_connection-save_other :
      (c' : Connection) (cs : List Connection)
      → (c'.id == id) ≡ false
      → get_connection id user (save c' cs) ≡ get_connection id user cs
  unfolding get_connection save
  get_connection-save_other c' [] other = refl
  get_connection-save_other c' (d ∷ ds) other =
      grind (arith, other, get_connection-save_other c' ds other)

module _ (bank : Bank) (now id user : ℕ) (c : Connection) (db : Tables)
    (found : get_connection id user db.connections ≡ some c) where
  saved-IsClosed :
      (c' : Connection)
      → c'.id ≡ c.id
      → c'.user ≡ c.user
      → c'.provider_slug ≡ c.provider_slug
      → c'.oauth_state ≡ none
      → IsClosed id user c.provider_slug (record db { connections = save c' db.connections })
  saved-IsClosed c' same_id same_user same_slug closed =
      let key = get_connection-key id user db.connections c found in
      (
        c',
        get_connection-save id user db.connections c c' found (same_id ∙ key.0) (same_user ∙ key.1),
        save_own-All id user c.provider_slug c' db.connections (same_id ∙ key.0)
            (λ mine. (closed, same_user ∙ key.1, same_slug)),
      )

  link-IsClosed :
      (token : Token) (remote : List RemoteAccount)
      → ¬ ((link bank now token remote c db).0 ≡ integrity_error)
      → IsClosed id user c.provider_slug (link bank now token remote c db).1
  unfolding link apply_synced_accounts
  link-IsClosed token remote saved =
      let c' = with_token now token c in
      let db' = record db { connections = save c' db.connections } in
      elim (Bool-cases (is_taken c' db.connections)) [
        | inl taken ↦ absurd (saved (rw taken refl))
        | inr free ↦ rw free (
            subst
              (λ cs.
                (d : Connection) × (get_connection id user cs ≡ some d)
                × All (IsSpent id user c.provider_slug) cs)
              (sym (delete_shadows-connections bank.iexact c.user remote db'))
              (saved-IsClosed c' refl refl refl refl))
      ]

  on_accounts-IsClosed :
      (token : Token) (answer : Answer (List RemoteAccount))
      → ¬ ((on_accounts bank now token answer c db).0 ≡ integrity_error)
      → IsClosed id user c.provider_slug (on_accounts bank now token answer c db).1
  unfolding on_accounts mark_failed
  on_accounts-IsClosed token (connector_error reason) saved =
      saved-IsClosed (marked_failed reason c) refl refl refl refl
  on_accounts-IsClosed token (ok remote) saved = link-IsClosed token remote saved

  pub on_token-IsClosed :
      (answer : Answer Token)
      → ¬ ((on_token bank now answer c db).0 ≡ integrity_error)
      → IsClosed id user c.provider_slug (on_token bank now answer c db).1
  unfolding on_token mark_failed
  on_token-IsClosed (connector_error reason) saved =
      saved-IsClosed (marked_failed reason c) refl refl refl refl
  on_token-IsClosed (ok token) saved =
      on_accounts-IsClosed token (bank.fetch_accounts token.access_token) saved
