-- ===== src/Investments/Counts.antt =====
-- What a holding has, and what the purchases of it record.
use nbe_financial_advisor_ba.Prelude.{
  ℕ, ◌+◌, ◌≡◌, refl, sym, ap, ◌∙◌, inl, inr, Bool, true, false, not, Option, none, some, List, [],
  ◌∷◌, ◌++◌, ◌&&◌, ◌||◌, ◌==◌, if◌then◌else◌, arith, Bool-cases, ==_iff,
}
use nbe_financial_advisor_ba.Investments.Model.{Holding, Purchase}
use nbe_financial_advisor_ba.Investments.Purchases.{find_holding, save_holding}

unfoldable pub has_holding : (id : ℕ) → List Holding → Bool
has_holding id [] = false
has_holding id (h ∷ hs) = (h.id == id) || has_holding id hs

unfoldable pub distinct_holdings : List Holding → Bool
distinct_holdings [] = true
distinct_holdings (h ∷ hs) = not (has_holding h.id hs) && distinct_holdings hs

abbrev pub is_of : (holding : ℕ) → Option ℕ → Bool
is_of holding none = false
is_of holding (some id) = id == holding

module _ (f : Holding → ℕ) where
  -- What the holding has.
  unfoldable pub held : (id : ℕ) → List Holding → ℕ
  held id [] = 0
  held id (h ∷ hs) = (if h.id == id then f h else 0) + held id hs

module _ (g : Purchase → ℕ) where
  -- What the purchases of the holding record.
  unfoldable pub bought : (holding : ℕ) → List Purchase → ℕ
  bought id [] = 0
  bought id (p ∷ ps) = (if is_of id p.holding then g p else 0) + bought id ps

pub bought-append :
    (g : Purchase → ℕ) (id : ℕ) (ps : List Purchase) (p : Purchase)
    → bought g id (ps ++ (p ∷ [])) ≡ bought g id ps + (if is_of id p.holding then g p else 0)
unfolding bought
bought-append g id [] p = omega arith
bought-append g id (q ∷ ps) p = omega (arith, bought-append g id ps p)

pub held-append :
    (f : Holding → ℕ) (id : ℕ) (hs : List Holding) (h : Holding)
    → held f id (hs ++ (h ∷ [])) ≡ held f id hs + (if h.id == id then f h else 0)
unfolding held
held-append f id [] h = omega arith
held-append f id (k ∷ hs) h = omega (arith, held-append f id hs h)

find_holding-has :
    (user instrument : ℕ) (hs : List Holding) (h : Holding)
    → find_holding user instrument hs ≡ some h
    → has_holding h.id hs ≡ true
unfolding find_holding has_holding
find_holding-has user instrument [] h found = absurd (ground (arith, found))
find_holding-has user instrument (k ∷ hs) h found =
    elim (Bool-cases ((k.user == user) && (k.instrument == instrument))) [
      | inl here ↦ grind (arith, found, here)
      | inr later ↦
          let rest = find_holding-has user instrument hs h (grind (arith, found, later)) in
          ground (arith, rest)
    ]

save_holding-absent :
    (h : Holding) (hs : List Holding) → has_holding h.id hs ≡ false → save_holding h hs ≡ hs
unfolding has_holding save_holding
save_holding-absent h [] absent = refl
save_holding-absent h (k ∷ hs) absent =
    grind (arith, absent, save_holding-absent h hs (ground (arith, absent)))

differs :
    (k i i' : ℕ) (hs : List Holding)
    → has_holding k hs ≡ false
    → has_holding i hs ≡ true
    → i' ≡ i
    → (k == i') ≡ false
differs k i i' hs apart listed same = elim (Bool-cases (k == i')) [
  | inl equal ↦
      let moved : k ≡ i = (==_iff k i').0 equal ∙ same in
      let clash : true ≡ false =
        sym listed ∙ ap (λ (x : ℕ). has_holding x hs) (sym moved) ∙ apart in
      absurd (ground (arith, clash))
  | inr other ↦ other
]

module _ (f : Holding → ℕ) (id v : ℕ) where
  head_more :
      (k rest old k' new : ℕ)
      → k' ≡ k
      → new ≡ old + v
      → (if k' == id then new else 0) + rest
        ≡ (if k == id then old else 0) + rest + (if k == id then v else 0)
  head_more k rest old k' new same more = ground (arith, same, more)

  -- Saving a changed holding over the one that was found.
  pub held-save_holding :
      (user instrument : ℕ) (hs : List Holding) (h h' : Holding)
      → find_holding user instrument hs ≡ some h
      → distinct_holdings hs ≡ true
      → h'.id ≡ h.id
      → f h' ≡ f h + v
      → held f id (save_holding h' hs) ≡ held f id hs + (if h.id == id then v else 0)
  unfolding held save_holding find_holding distinct_holdings has_holding
  held-save_holding user instrument [] h h' found distinct same more =
      absurd (ground (arith, found))
  held-save_holding user instrument (k ∷ hs) h h' found distinct same more =
      elim (Bool-cases ((k.user == user) && (k.instrument == instrument))) [
        | inl here ↦
            let first : k ≡ h = grind (arith, found, here) in
            let absent : has_holding k.id hs ≡ false = ground (arith, distinct) in
            let same' : h'.id ≡ k.id = same ∙ ap (λ (x : Holding). x.id) (sym first) in
            let rest : save_holding h' hs ≡ hs =
              save_holding-absent h' hs (ap (λ (x : ℕ). has_holding x hs) same' ∙ absent) in
            let self : (k.id == h'.id) ≡ true = ground (arith, same') in
            let more' : f h' ≡ f k + v = more ∙ ap (λ (x : Holding). f x + v) (sym first) in
            let named : h.id ≡ k.id = ap (λ (x : Holding). x.id) (sym first) in
            rw (self, rest, named) (head_more k.id (held f id hs) (f k) h'.id (f h') same' more')
        | inr later ↦
            let found' : find_holding user instrument hs ≡ some h = grind (arith, found, later) in
            let listed = find_holding-has user instrument hs h found' in
            let apart : has_holding k.id hs ≡ false = ground (arith, distinct) in
            let other : (k.id == h'.id) ≡ false = differs k.id h.id h'.id hs apart listed same in
            let rest =
              held-save_holding user instrument hs h h' found' (ground (arith, distinct)) same
                more in
            rw (other) (omega (arith, rest))
      ]
