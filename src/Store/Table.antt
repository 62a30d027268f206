-- ===== src/Store/Table.antt =====
-- Tables as lists of rows with a primary key.
use e_palika.Prelude.{
  ◌≡◌, refl, ◌≢◌, Bool, true, false, Option, none, some, List, [], ◌∷◌, ◌++◌, arith, ◌==◌, nat_eq,
  if◌then◌else◌, All, Bool-cases, inl, inr,
}
use mathlib.Core.Path.{subst}
use e_palika.Store.Types.{Uuid}

module _ {R : Type 0} (key : R → Uuid) where
  -- SELECT … WHERE id = $1
  unfoldable pub find : Uuid → List R → Option R
  find id [] = none
  find id (r ∷ rows) = if key r == id then some r else find id rows

  -- The rows with the one that has the primary key of `row` replaced by it.
  unfoldable pub replace : R → List R → List R
  replace row [] = []
  replace row (r ∷ rows) = (if key r == key row then row else r) ∷ replace row rows

  -- Some row other than the one with this key passes the test.
  unfoldable pub clashes : (R → Bool) → Uuid → List R → Bool
  clashes p id [] = false
  clashes p id (r ∷ rows) =
      if key r == id then clashes p id rows else (if p r then true else clashes p id rows)

  abbrev replaced : Bool → Option R → R → Option R
  replaced b none row = none
  replaced true (some r) row = some row
  replaced false (some r) row = some r

  pub find-replace_self :
      (rows : List R) (row : R) (id : Uuid) {old : R}
      → key row ≡ id
      → find id rows ≡ some old
      → find id (replace row rows) ≡ some row
  unfolding find replace
  find-replace_self [] row id k h = ground arith
  find-replace_self (r ∷ rows) row id {old} k h =
      ground (arith, find-replace_self rows row id {old = old})

  -- Of two writes to one row the second stays.
  pub replace-replace :
      (rows : List R) (row later : R)
      → key row ≡ key later
      → replace later (replace row rows) ≡ replace later rows
  unfolding replace
  replace-replace [] row later k = refl
  replace-replace (r ∷ rows) row later k = ground (arith, replace-replace rows row later k)

  -- A row that is left aside may be written over.
  pub clashes-replace :
      (p : R → Bool) (rows : List R) (row : R) (id : Uuid)
      → key row ≡ id
      → clashes p id (replace row rows) ≡ clashes p id rows
  unfolding clashes replace
  clashes-replace p [] row id k = refl
  clashes-replace p (r ∷ rows) row id k = ground (arith, clashes-replace p rows row id k)

  pub find-replace_ne :
      (rows : List R) (row : R) (id : Uuid)
      → key row ≢ id
      → find id (replace row rows) ≡ find id rows
  unfolding find replace
  find-replace_ne [] row id h = refl
  find-replace_ne (r ∷ rows) row id h = ground (arith, find-replace_ne rows row id h)

  pub key-find : (rows : List R) (id : Uuid) {r : R} → find id rows ≡ some r → key r ≡ id
  unfolding find
  key-find [] id h = ground arith
  key-find (x ∷ rows) id {r} h = ground (arith, key-find rows id {r = r})

  -- A new row at the end is found under its key, if no row had that key; the others are found as before.
  pub find-append_ne :
      (rows : List R) (row : R) (id : Uuid)
      → key row ≢ id
      → find id (rows ++ row ∷ []) ≡ find id rows
  unfolding find
  find-append_ne [] row id h = ground arith
  find-append_ne (r ∷ rows) row id h = ground (arith, find-append_ne rows row id h)

  pub find-append_old :
      (rows : List R) (row : R) (id : Uuid) {old : R}
      → find id rows ≡ some old
      → find id (rows ++ row ∷ []) ≡ some old
  unfolding find
  find-append_old [] row id h = ground arith
  find-append_old (r ∷ rows) row id {old} h =
      ground (arith, find-append_old rows row id {old = old})

  pub find-append_self :
      (rows : List R) (row : R)
      → find (key row) rows ≡ none
      → find (key row) (rows ++ row ∷ []) ≡ some row
  unfolding find
  find-append_self [] row h = ground arith
  find-append_self (r ∷ rows) row h = ground (arith, find-append_self rows row)

  pub All-find {ℓ} :
      (P : R → Type ℓ) (rows : List R) (id : Uuid) {r : R}
      → All P rows
      → find id rows ≡ some r
      → P r
  unfolding find
  All-find P [] id a h = cc
  All-find P (x ∷ rows) id {r} (p, a) h = elim (Bool-cases (key x == id)) [
    | inl same ↦ let e : x ≡ r = ground arith in subst P e p
    | inr other ↦ All-find P rows id a (ground arith)
  ]

  pub All-replace {ℓ} :
      (P : R → Type ℓ) (rows : List R) (row : R) → All P rows → P row → All P (replace row rows)
  unfolding replace
  All-replace P [] row a p = tt
  All-replace P (r ∷ rows) row (q, a) p = elim (Bool-cases (key r == key row)) [
    | inl same ↦ rw same (p, All-replace P rows row a p)
    | inr other ↦ rw other (q, All-replace P rows row a p)
  ]
