-- ===== src/Bank/StateOnce.antt =====
-- The OAuth state of a connection over the link requests of all users.
use mathlib.Core.Path.{subst}
use nbe_financial_advisor_ba.Prelude.{
  ℕ, ◌≡◌, refl, sym, ap, ◌∙◌, inl, inr, Bool, true, false, not, Option, none, some, List, [], ◌∷◌,
  ◌&&◌, ◌==◌, arith, All, Bool-cases,
}
use nbe_financial_advisor_ba.Prelude.Text.{Text, text_eq, text_eq_iff}
use nbe_financial_advisor_ba.Bank.Accounts.{
  Connection, RemoteAccount, Tables, option_eq, apply_synced_accounts,
}
use nbe_financial_advisor_ba.Bank.Connect.{
  Answer, ok, connector_error, Token, Reply, invalid_oauth_state, integrity_error, save, is_linked,
  is_registered, is_for, filter_for, restarted, start, initiate, get_connection, is_taken,
  marked_failed, mark_failed, with_token, Bank, link, on_accounts, on_token, on_connection,
  callback,
}
use nbe_financial_advisor_ba.Bank.Closed.{
  IsSpent, IsClosed, save-All, get_connection-IsSpent, get_connection-save_other,
  get_connection-key, delete_shadows-connections, on_token-IsClosed,
}

callback_matched :
    (bank : Bank) (now id user : ℕ) (code : Text) (oauth_state : ℕ) (c : Connection) (db : Tables)
    → get_connection id user db.connections ≡ some c
    → option_eq c.oauth_state oauth_state ≡ true
    → callback bank now id user code oauth_state db
      ≡ on_token bank now (bank.exchange_code_for_token code) c db
unfolding callback on_connection
callback_matched bank now id user code oauth_state c db found matched =
    ap (λ o. on_connection bank now code oauth_state o db) found ∙ rw matched refl

-- A request of a user: to start a link, or its callback.
pub data Request : Type 0 where
  start_link : (fresh user : ℕ) (slug : Text) (oauth_state : ℕ) → Request
  call_back : Bank → (now id user : ℕ) (code : Text) (oauth_state : ℕ) → Request

abbrev pub serve : Request → Tables → Reply × Tables
serve (start_link fresh user slug oauth_state) db = initiate fresh user slug oauth_state db
serve (call_back bank now id user code oauth_state) db =
    callback bank now id user code oauth_state db

abbrev pub run : List Request → Tables → Tables
run [] db = db
run (r ∷ rs) db = run rs (serve r db).1

-- The request does not start the user's link with the provider again, and takes no id that is in use.
abbrev pub is_apart : (id user : ℕ) (slug : Text) → Request → Bool
is_apart id user slug (start_link fresh u s oauth_state) =
    not (fresh == id) && not ((u == user) && text_eq s slug)
is_apart id user slug (call_back bank now k u code oauth_state) = true

module _ (id user : ℕ) (slug : Text) where
  abbrev StaysClosed : Reply × Tables → Type 0
  StaysClosed (reply, db) = IsClosed id user slug db

  module _ (db : Tables) (closed : IsClosed id user slug db) where
    -- Saving a row of another id.
    save_other-IsClosed :
        (c' : Connection)
        → (c'.id == id) ≡ false
        → IsClosed id user slug (record db { connections = save c' db.connections })
    save_other-IsClosed c' other =
        let (c, found, every) = closed in
        (
          c,
          get_connection-save_other id user slug c' db.connections other ∙ found,
          save-All id user slug c' db.connections (λ mine. absurd (ground (arith, mine, other)))
              every,
        )

    link-StaysClosed :
        (bank : Bank) (now : ℕ) (token : Token) (remote : List RemoteAccount) (c : Connection)
        → (c.id == id) ≡ false
        → StaysClosed (link bank now token remote c db)
    unfolding link apply_synced_accounts
    link-StaysClosed bank now token remote c other =
        let c' = with_token now token c in
        let db' = record db { connections = save c' db.connections } in
        elim (Bool-cases (is_taken c' db.connections)) [
          | inl taken ↦ rw taken closed
          | inr free ↦ rw free (
              subst
                (λ cs.
                  (d : Connection) × (get_connection id user cs ≡ some d)
                  × All (IsSpent id user slug) cs)
                (sym (delete_shadows-connections bank.iexact c.user remote db'))
                (save_other-IsClosed c' other))
        ]

    on_accounts-StaysClosed :
        (bank : Bank) (now : ℕ) (token : Token) (answer : Answer (List RemoteAccount))
        (c : Connection)
        → (c.id == id) ≡ false
        → StaysClosed (on_accounts bank now token answer c db)
    unfolding on_accounts mark_failed
    on_accounts-StaysClosed bank now token (connector_error reason) c other =
        save_other-IsClosed (marked_failed reason c) other
    on_accounts-StaysClosed bank now token (ok remote) c other =
        link-StaysClosed bank now token remote c other

    on_token-StaysClosed :
        (bank : Bank) (now : ℕ) (answer : Answer Token) (c : Connection)
        → (c.id == id) ≡ false
        → StaysClosed (on_token bank now answer c db)
    unfolding on_token mark_failed
    on_token-StaysClosed bank now (connector_error reason) c other =
        save_other-IsClosed (marked_failed reason c) other
    on_token-StaysClosed bank now (ok token) c other =
        on_accounts-StaysClosed bank now token (bank.fetch_accounts token.access_token) c other

    on_connection-StaysClosed :
        (bank : Bank) (now : ℕ) (code : Text) (oauth_state : ℕ) (found : Option Connection)
        → ((c : Connection) → found ≡ some c → IsSpent id user slug c)
        → StaysClosed (on_connection bank now code oauth_state found db)
    unfolding on_connection
    on_connection-StaysClosed bank now code oauth_state none spent = closed
    on_connection-StaysClosed bank now code oauth_state (some c) spent =
        elim (Bool-cases (option_eq c.oauth_state oauth_state)) [
          | inr differs ↦ rw differs closed
          | inl matches ↦ elim (Bool-cases (c.id == id)) [
            | inr other ↦
                rw matches
                  (on_token-StaysClosed bank now (bank.exchange_code_for_token code) c other)
            | inl mine ↦
                let gone = ap (λ o. option_eq o oauth_state) (spent c refl mine).0 in
                let clash : false ≡ true = sym gone ∙ matches in absurd (ground (arith, clash))
          ]
        ]

    filter_for-All :
        (u : ℕ) (s : Text) (cs : List Connection)
        → All (IsSpent id user slug) cs
        → All (λ c. IsSpent id user slug c × (is_for u s c ≡ true)) (filter_for u s cs)
    unfolding filter_for
    filter_for-All u s [] every = tt
    filter_for-All u s (c ∷ cs) (first, every) = elim (Bool-cases (is_for u s c)) [
      | inl chosen ↦ rw chosen ((first, chosen), filter_for-All u s cs every)
      | inr passed ↦ rw passed (filter_for-All u s cs every)
    ]

    restarted_apart :
        (u : ℕ) (s : Text) (c : Connection)
        → IsSpent id user slug c
        → is_for u s c ≡ true
        → ((u == user) && text_eq s slug) ≡ false
        → (c.id == id) ≡ false
    restarted_apart u s c spent chosen apart = elim (Bool-cases (c.id == id)) [
      | inr other ↦ other
      | inl mine ↦
          let (gone, same_user, same_slug) = spent mine in
          let by : c.user ≡ u = ground (arith, chosen) in
          let at : c.provider_slug ≡ s =
            (text_eq_iff c.provider_slug s).0 (ground (arith, chosen)) in
          let equal = (text_eq_iff s slug).1 (sym at ∙ same_slug) in
          let self : (u == user) ≡ true = ground (arith, by, same_user) in
          absurd (ground (arith, apart, equal, self))
    ]

    start-StaysClosed :
        (fresh u : ℕ) (s : Text) (oauth_state : ℕ) (cs : List Connection)
        → All (λ c. IsSpent id user slug c × (is_for u s c ≡ true)) cs
        → (fresh == id) ≡ false
        → ((u == user) && text_eq s slug) ≡ false
        → StaysClosed (start fresh u s oauth_state cs db)
    unfolding start get_connection
    start-StaysClosed fresh u s oauth_state [] every other apart =
        let (c, found, spent) = closed in
        (c, grind (arith, other, found), ((λ mine. absurd (ground (arith, mine, other))), spent))
    start-StaysClosed fresh u s oauth_state (c ∷ []) ((spent, chosen), every) other apart =
        elim (Bool-cases (is_linked c.status)) [
          | inl linked ↦ rw linked closed
          | inr open' ↦ rw open' (
              save_other-IsClosed (restarted oauth_state c)
                (restarted_apart u s c spent chosen apart))
        ]
    start-StaysClosed fresh u s oauth_state (c ∷ d ∷ cs) every other apart =
        elim (Bool-cases (is_linked c.status)) [
          | inl linked ↦ rw linked closed
          | inr open' ↦ rw open' closed
        ]

    serve-StaysClosed : (r : Request) → is_apart id user slug r ≡ true → StaysClosed (serve r db)
    unfolding initiate callback
    serve-StaysClosed (call_back bank now k u code oauth_state) apart =
        on_connection-StaysClosed bank now code oauth_state (get_connection k u db.connections)
          (λ c found. get_connection-IsSpent id user slug k u db.connections c found closed.2)
    serve-StaysClosed (start_link fresh u s oauth_state) apart =
        elim (Bool-cases (is_registered s)) [
          | inr unknown ↦ rw unknown closed
          | inl known ↦ rw known (
              start-StaysClosed fresh u s oauth_state (filter_for u s db.connections)
                (filter_for-All u s db.connections closed.2) (ground (arith, apart))
                (ground (arith, apart)))
        ]

  run-IsClosed :
      (rs : List Request) (db : Tables)
      → All (λ r. is_apart id user slug r ≡ true) rs
      → IsClosed id user slug db
      → IsClosed id user slug (run rs db)
  run-IsClosed [] db apart closed = closed
  run-IsClosed (r ∷ rs) db (first, apart) closed =
      run-IsClosed rs (serve r db).1 apart (serve-StaysClosed db closed r first)

  callback_closed :
      (bank : Bank) (now : ℕ) (code : Text) (oauth_state : ℕ) (db : Tables)
      → IsClosed id user slug db
      → callback bank now id user code oauth_state db ≡ (invalid_oauth_state, db)
  unfolding callback on_connection
  callback_closed bank now code oauth_state db (c, found, every) =
      let key = get_connection-key id user db.connections c found in
      let gone =
        get_connection-IsSpent id user slug id user db.connections c found every
          (ground (arith, key.0)) in
      ap (λ o. on_connection bank now code oauth_state o db) found ∙ rw (gone.0) refl

-- Once a callback has matched the OAuth state of a connection, and unless saving the link broke a
-- unique constraint, every callback on that connection is refused as a state mismatch and changes
-- nothing, whether the first one linked the bank or failed, and whatever links all users start, under
-- new ids other than the connection's, and call back in between, until the user starts a link with that
-- provider again.
pub matched_state_refused :
    (bank later_bank : Bank) (now later id user : ℕ) (code other_code : Text)
    (oauth_state other_state : ℕ) (c : Connection) (db : Tables) (rs : List Request)
    → get_connection id user db.connections ≡ some c
    → option_eq c.oauth_state oauth_state ≡ true
    → ¬ ((callback bank now id user code oauth_state db).0 ≡ integrity_error)
    → All (λ r. is_apart id user c.provider_slug r ≡ true) rs
    → (let db' : Tables = run rs (callback bank now id user code oauth_state db).1 in
        callback later_bank later id user other_code other_state db' ≡ (invalid_oauth_state, db'))
matched_state_refused bank later_bank now later id user code other_code oauth_state other_state c db
      rs found matched saved apart =
    let matches = callback_matched bank now id user code oauth_state c db found matched in
    callback_closed id user c.provider_slug later_bank later other_code other_state
      (run rs (callback bank now id user code oauth_state db).1)
      (run-IsClosed id user c.provider_slug rs (callback bank now id user code oauth_state db).1
        apart
        (subst (λ r. IsClosed id user c.provider_slug r.1) (sym matches)
          (on_token-IsClosed bank now id user c db found (bank.exchange_code_for_token code)
            (subst (λ r. ¬ (r.0 ≡ integrity_error)) matches saved))))
