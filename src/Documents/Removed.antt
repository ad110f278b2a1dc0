-- ===== src/Documents/Removed.antt =====
-- What deleting statement files leaves behind.
use mathlib.Core.List.{append-nil, append_assoc}
use nbe_financial_advisor_ba.Prelude.{
  ℕ, ◌≡◌, refl, sym, ap, ◌∙◌, ◌↔◌, inl, inr, Bool, true, false, not, none, List, [], ◌∷◌, ◌++◌, map,
  ◌&&◌, ◌||◌, ◌==◌, ==_iff, if◌then◌else◌, arith, Bool-cases, Option-cases, is_some,
}
use nbe_financial_advisor_ba.Bank.Model.{Transaction}
use nbe_financial_advisor_ba.Documents.Model.{StatementFile, Key, Tables, delete_prefix, get_file}
use nbe_financial_advisor_ba.Documents.Deletion.{
  get_preferences, option_is, unlink, drop_file, purge, delete_statement_file, Outcome, returned,
  raised, Report, has, find_row, delete_one, proceed, delete_loop, no_report, bulk_delete,
}

-- The object is one of the statement's.
abbrev pub is_of : (user statement : ℕ) → Key → Bool
is_of user statement k = (k.user == user) && (k.statement == statement)

unfoldable pub others : (user statement : ℕ) → List Key → List Key
others user statement [] = []
others user statement (k ∷ ks) =
    let rest = others user statement ks in if is_of user statement k then rest else k ∷ rest

-- The transaction without its link to a statement.
abbrev pub forget : Transaction → Transaction
forget t = record t { statement = none }

purge-others :
    (user statement : ℕ) (ks : List Key) → purge user statement ks ≡ others user statement ks
unfolding purge delete_prefix others
purge-others user statement [] = refl
purge-others user statement (k ∷ ks) = elim (Bool-cases (is_of user statement k)) [
  | inl mine ↦ ground (arith, mine, purge-others user statement ks)
  | inr other ↦ ground (arith, other, purge-others user statement ks)
]

map-forget-unlink : (id : ℕ) (ts : List Transaction) → map forget (unlink id ts) ≡ map forget ts
unfolding unlink
map-forget-unlink id [] = refl
map-forget-unlink id (t ∷ ts) = elim (Bool-cases (option_is id t.statement)) [
  | inl linked ↦ rw (linked, map-forget-unlink id ts) refl
  | inr free ↦ rw (free, map-forget-unlink id ts) refl
]

abbrev pub links_to : ℕ → List Transaction → Bool
links_to id [] = false
links_to id (t ∷ ts) = option_is id t.statement || links_to id ts

links_to-unlink : (id : ℕ) (ts : List Transaction) → links_to id (unlink id ts) ≡ false
unfolding unlink
links_to-unlink id [] = refl
links_to-unlink id (t ∷ ts) = elim (Bool-cases (option_is id t.statement)) [
  | inl linked ↦ rw linked (links_to-unlink id ts)
  | inr free ↦ rw (free, free) (links_to-unlink id ts)
]

get_file-drop_file :
    (id user : ℕ) (fs : List StatementFile) → get_file id user (drop_file id fs) ≡ none
unfolding get_file drop_file
get_file-drop_file id user [] = refl
get_file-drop_file id user (f ∷ fs) = ground (arith, get_file-drop_file id user fs)

-- Deleting a statement file: unless the user keeps raw documents, exactly its objects are gone from the
-- store, and otherwise none; its row is gone; the ledger keeps every transaction, in order and unchanged
-- but for the link, and none links to the statement.
pub delete_statement_file_lem :
    (f : StatementFile) (db : Tables)
    → (let db' : Tables = delete_statement_file f db in
        (db'.objects ≡ (
          if (get_preferences f.user db.preferences).0
          then db.objects
          else others f.user f.id db.objects))
        × (get_file f.id f.user db'.files ≡ none)
        × (map forget db'.transactions ≡ map forget db.transactions)
        × (links_to f.id db'.transactions ≡ false))
unfolding delete_statement_file
delete_statement_file_lem f db = (
  elim (Bool-cases (get_preferences f.user db.preferences).0) [
    | inl kept ↦ rw kept refl
    | inr dropped ↦ rw dropped (purge-others f.user f.id db.objects)
  ],
  get_file-drop_file f.id f.user db.files,
  map-forget-unlink f.id db.transactions,
  links_to-unlink f.id db.transactions,
)

-- No id that the user owns stands twice in the list.
unfoldable pub owned_once : (user : ℕ) (found : List StatementFile) → List ℕ → Bool
owned_once user found [] = true
owned_once user found (id ∷ ids) =
    (not (is_some (find_row id user found)) || not (has id ids)) && owned_once user found ids

-- No id that the user owns stands both in the list and among the deleted.
unfoldable pub fresh : (user : ℕ) (found : List StatementFile) (deleted : List ℕ) → List ℕ → Bool
fresh user found deleted [] = true
fresh user found deleted (id ∷ ids) =
    (not (is_some (find_row id user found)) || not (has id deleted)) && fresh user found deleted ids

has-append : (n m : ℕ) (ms : List ℕ) → has n (ms ++ (m ∷ [])) ≡ (has n ms || (m == n))
has-append n m [] = ground arith
has-append n m (k ∷ ms) = ground (arith, has-append n m ms)

abbrev is_returned : Outcome → Bool
is_returned returned = true
is_returned raised = false

is_returned_lem : (o : Outcome) → is_returned o ≡ true → o ≡ returned
is_returned_lem returned h = refl
is_returned_lem raised h = absurd (ground (arith, h))

module _ (user : ℕ) (found : List StatementFile) where
  fresh-append :
      (id : ℕ) (deleted ids : List ℕ)
      → is_some (find_row id user found) ≡ true
      → fresh user found (deleted ++ (id ∷ [])) ids
        ≡ (fresh user found deleted ids && not (has id ids))
  unfolding fresh
  fresh-append id deleted [] owned = ground arith
  fresh-append id deleted (n ∷ ids) owned = elim (Bool-cases (n == id)) [
    | inl same ↦
        let e : n ≡ id = (==_iff n id).0 same in
        ground (
          arith,
          e,
          has-append n id deleted,
          ap (λ x. is_some (find_row x user found)) e,
          owned,
          fresh-append id deleted ids owned,
        )
    | inr differs ↦
        ground (arith, differs, has-append n id deleted, fresh-append id deleted ids owned)
  ]

  delete_loop-returned :
      (ids : List ℕ) (r : Report) (db : Tables)
      → is_returned (delete_loop user found ids (r, db)).0
        ≡ (fresh user found r.deleted ids && owned_once user found ids)
  unfolding delete_loop delete_one proceed fresh owned_once
  delete_loop-returned [] r db = refl
  delete_loop-returned (id ∷ ids) r db = elim (Option-cases (find_row id user found)) [
    | inl missing ↦
        rw missing (delete_loop-returned ids (record r { skipped = r.skipped ++ (id ∷ []) }) db)
    | inr (f, there) ↦ elim (Bool-cases (has id r.deleted)) [
      | inl again ↦ rw (there, again) refl
      | inr first ↦
          rw (there, first)
            (ground (
              arith,
              delete_loop-returned ids (record r { deleted = r.deleted ++ (id ∷ []) })
                  (delete_statement_file f db),
              fresh-append id r.deleted ids (ap is_some there),
            ))
    ]
  ]

  -- The ids of the list that the user owns, and the others.
  unfoldable pub owned_ids : List ℕ → List ℕ
  owned_ids [] = []
  owned_ids (id ∷ ids) =
      let rest = owned_ids ids in if is_some (find_row id user found) then id ∷ rest else rest

  unfoldable pub foreign_ids : List ℕ → List ℕ
  foreign_ids [] = []
  foreign_ids (id ∷ ids) =
      let rest = foreign_ids ids in if is_some (find_row id user found) then rest else id ∷ rest

  -- What a loop that returns reports after it.
  abbrev Reports : List ℕ → Report → Report → Type 0
  Reports ids r r' =
      (r'.deleted ≡ r.deleted ++ owned_ids ids) × (r'.skipped ≡ r.skipped ++ foreign_ids ids)

  delete_loop-Reports :
      (ids : List ℕ) (r : Report) (db : Tables)
      → (delete_loop user found ids (r, db)).0 ≡ returned
      → Reports ids r (delete_loop user found ids (r, db)).1.0
  unfolding delete_loop delete_one proceed owned_ids foreign_ids
  delete_loop-Reports [] r db = λ done. (sym (append-nil r.deleted), sym (append-nil r.skipped))
  delete_loop-Reports (id ∷ ids) r db = elim (Option-cases (find_row id user found)) [
    | inl missing ↦ rw missing (λ done.
        let r' : Report = record r { skipped = r.skipped ++ (id ∷ []) } in
        let (a, b) = delete_loop-Reports ids r' db done in
        (a, b ∙ append_assoc r.skipped (id ∷ []) (foreign_ids ids)))
    | inr (f, there) ↦ elim (Bool-cases (has id r.deleted)) [
      | inl again ↦ rw (there, again) (λ done. absurd (ground (arith, done)))
      | inr first ↦
          rw (there, first)
            (λ done.
              let r' : Report = record r { deleted = r.deleted ++ (id ∷ []) } in
              let (a, b) = delete_loop-Reports ids r' (delete_statement_file f db) done in
              (a ∙ append_assoc r.deleted (id ∷ []) (owned_ids ids), b))
    ]
  ]

fresh_none : (user : ℕ) (found : List StatementFile) (ids : List ℕ) → fresh user found [] ids ≡ true
unfolding fresh
fresh_none user found [] = refl
fresh_none user found (id ∷ ids) = ground (arith, fresh_none user found ids)

-- A bulk deletion returns exactly when no id that the user owns stands twice in the request.
pub bulk_delete_returns_iff :
    (user : ℕ) (ids : List ℕ) (db : Tables)
    → ((bulk_delete user ids db).0 ≡ returned) ↔ (owned_once user db.files ids ≡ true)
unfolding bulk_delete
bulk_delete_returns_iff user ids db =
    let e = delete_loop-returned user db.files ids no_report db in
    let f = fresh_none user db.files ids in
    (
      λ h. ground (arith, e, f, ap is_returned h),
      λ h. is_returned_lem (bulk_delete user ids db).0 (ground (arith, e, f, h)),
    )

-- A bulk deletion that returns reports as deleted the ids that the user owns and as skipped the others,
-- each in the order of the request.
bulk_delete_reports :
    (user : ℕ) (ids : List ℕ) (db : Tables)
    → (bulk_delete user ids db).0 ≡ returned
    → (let report : Report = (bulk_delete user ids db).1.0 in
        (report.deleted ≡ owned_ids user db.files ids)
        × (report.skipped ≡ foreign_ids user db.files ids))
unfolding bulk_delete
bulk_delete_reports user ids db done = delete_loop-Reports user db.files ids no_report db done
