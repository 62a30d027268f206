-- ===== src/Store/Distinct.antt =====
-- No two rows of `dartas` with different keys share a number of one series, and the statements keep it
-- so that change no number (services/darta-chalani/internal/db/dartas.sql.go).
pub mod Steps
use mathlib.Core.Path.{subst, subst₂}
use e_palika.Prelude.{
  ℕ, ◌≡◌, ◌≢◌, ◌⊎◌, refl, sym, ap, ◌∙◌, inl, inr, Bool, true, false, ◌&&◌, String, Option, none,
  some, List, [], ◌∷◌, ◌++◌, ◌==◌, nat_eq, nat_beq_iff, string_eq, eq_iff, Bool-cases, All, any,
  arith, if◌then◌else◌,
}
use e_palika.Store.Types.{Uuid, Darta, Applicant}
use e_palika.Store.Exec.{Db, Exec}
use e_palika.Store.Steady.{StoreOrder, Keeps, statement-Keeps, draw_uuid-rel}
use e_palika.Store.Table.{
  find, replace, key-find, find-replace_self, find-replace_ne, find-append_ne, find-append_old,
  All-find,
}
use e_palika.Store.Checks.{darta_checks, darta_collision, applicant_checks}
use e_palika.Store.Dartas.{
  CreateDartaParams, new_darta, darta_key, applicant_key, draw_uuid, stamped, update_darta,
  in_series, same_ward,
}
use e_palika.Store.Dartas.Laws.{later, update_darta-outcome}
use e_palika.Store.Creation.{
  CreateAuditEntryParams, CreateApplicantParams, create_darta, create_audit_entry, create_applicant,
  insert_darta, insert_applicant, insert_annex, add_darta_annex, exists_row, attachment_key,
  new_applicant, same_annex,
}
use e_palika.Store.Creation.Laws.{create_audit_entry-Audited, dropped, logged}
use e_palika.Store.History.{identity, number_of, Identity}
use e_palika.Store.History.Steps.{IsHarmless}

abbrev pub Series : Type 0
Series = String × String × Option String × String

-- The columns by which dartas are numbered together.
abbrev pub series : Darta → Series
series d = (d.fiscal_year_id, d.scope, d.ward_id, d.tenant_id)

abbrev pub seat : Darta → Series × Option ℕ
seat d = (series d, d.darta_number)

-- Two rows that do not have one number in one series.
abbrev pub AreApart : Series × Option ℕ → Series × Option ℕ → Type 0
AreApart s t = s.0 ≡ t.0 → (n : ℕ) → s.1 ≡ some n → t.1 ≢ some n

abbrev pub Distinct : List Darta → Type 0
Distinct rows =
    (i j : Uuid) (a b : Darta)
    → find darta_key i rows ≡ some a
    → find darta_key j rows ≡ some b
    → i ≢ j
    → AreApart (seat a) (seat b)

pub record HasDistinctNumbers (db : Db) : Type 0 where
  pub distinct : Distinct db.dartas

key-cases : (i id : Uuid) → (i ≡ id) ⊎ (i ≢ id)
key-cases i id = elim (Bool-cases (i == id)) [
  | inl same ↦ inl ((nat_beq_iff i id).0 same)
  | inr other ↦ inr (λ q. cc ((nat_beq_iff i id).1 q, other))
]

-- A row in place of another one, apart from every other row.
pub replaced-Distinct :
    (rows : List Darta) (id : Uuid) (old new : Darta)
    → find darta_key id rows ≡ some old
    → new.id ≡ id
    → ((k : Uuid) (c : Darta)
        → k ≢ id
        → find darta_key k rows ≡ some c
        → AreApart (seat new) (seat c) × AreApart (seat c) (seat new))
    → Distinct rows
    → Distinct (replace darta_key new rows)
replaced-Distinct rows id old new found key new_apart rows_apart i j a b at_i at_j ne = goal
  where
    here :
        (k : Uuid) (c : Darta)
        → find darta_key k (replace darta_key new rows) ≡ some c
        → k ≡ id
        → c ≡ new
    here k c h e = cc (h, e, find-replace_self darta_key rows new id key found)

    there :
        (k : Uuid) (c : Darta)
        → find darta_key k (replace darta_key new rows) ≡ some c
        → k ≢ id
        → find darta_key k rows ≡ some c
    there k c h e = sym (find-replace_ne darta_key rows new k (λ q. e (sym q ∙ key))) ∙ h

    goal : AreApart (seat a) (seat b)
    goal = elim (key-cases i id) [
      | inl p ↦ elim (key-cases j id) [
        | inl q ↦ absurd (ne (p ∙ sym q))
        | inr q ↦
            subst (λ x. AreApart (seat x) (seat b)) (sym (here i a at_i p))
              (new_apart j b q (there j b at_j q)).0
      ]
      | inr p ↦ elim (key-cases j id) [
        | inl q ↦
            subst (λ x. AreApart (seat a) (seat x)) (sym (here j b at_j q))
              (new_apart i a p (there i a at_i p)).1
        | inr q ↦ rows_apart i j a b (there i a at_i p) (there j b at_j q) ne
      ]
    ]

abbrev seat_of : Identity → Option ℕ × Option String → Series × Option ℕ
seat_of i n = ((i.fiscal_year_id, i.scope, i.ward_id, i.tenant_id), n.0)

seat-eq : (a b : Darta) → identity a ≡ identity b → number_of b ≡ number_of a → seat b ≡ seat a
seat-eq a b i n = sym (ap (λ x. seat_of x (number_of b)) i) ∙ ap (λ x. seat_of (identity a) x) n

-- A change of neither the series nor the number.
pub kept-Distinct :
    (rows : List Darta) (id : Uuid) (old new : Darta)
    → find darta_key id rows ≡ some old
    → new.id ≡ id
    → seat new ≡ seat old
    → Distinct rows
    → Distinct (replace darta_key new rows)
kept-Distinct rows id old new found key same apart =
    replaced-Distinct rows id old new found key
      (λ k c ne at_k. (
        subst (λ s. AreApart s (seat c)) (sym same) (apart id k old c found at_k (λ q. ne (sym q))),
        subst (λ s. AreApart (seat c) s) (sym same) (apart k id c old at_k found ne),
      ))
      apart

found-append :
    (rows : List Darta) (new : Darta) (k : Uuid) {c : Darta}
    → find darta_key k (rows ++ new ∷ []) ≡ some c
    → (find darta_key k rows ≡ some c) ⊎ (c ≡ new)
unfolding find
found-append [] new k h = elim (Bool-cases (new.id == k)) [
  | inl same ↦ inr (ground (arith, same, h))
  | inr other ↦ cc (rw other at h)
]
found-append (r ∷ rows) new k h = elim (Bool-cases (r.id == k)) [
  | inl same ↦ inl (rw same (rw same at h))
  | inr other ↦ rw other (found-append rows new k (rw other at h))
]

-- One more row, without a number.
pub appended-Distinct :
    (rows : List Darta) (new : Darta)
    → new.darta_number ≡ none
    → Distinct rows
    → Distinct (rows ++ new ∷ [])
appended-Distinct rows new without apart i j a b at_i at_j ne =
    elim (found-append rows new i at_i) [
      | inr e ↦ λ _ n h. cc (ap (λ (x : Darta). x.darta_number) e, h, without)
      | inl p ↦ elim (found-append rows new j at_j) [
        | inr e ↦ λ _ n h g. cc (ap (λ (x : Darta). x.darta_number) e, g, without)
        | inl q ↦ apart i j a b p q ne
      ]
    ]

-- A table of one row.
pub single-Distinct : (row : Darta) → Distinct (row ∷ [])
unfolding find
single-Distinct row i j a b at_i at_j ne =
    let key_i = key-find darta_key (row ∷ []) i at_i in
    let key_j = key-find darta_key (row ∷ []) j at_j in
    absurd (ne (sym key_i ∙ ap (λ (x : Darta). x.id) (only i a at_i ∙ sym (only j b at_j)) ∙ key_j))
  where
    only : (k : Uuid) (c : Darta) → find darta_key k (row ∷ []) ≡ some c → c ≡ row
    only k c h = elim (Bool-cases (row.id == k)) [
      | inl same ↦ ground (arith, same, h)
      | inr other ↦ cc (rw other at h)
    ]
