-- ===== src/Store/Chalanis/Approvals/Approved.antt =====
-- CheckAllSignatoriesApproved of services/darta-chalani/internal/db/chalani_relations.sql.go against a
-- check signatory by signatory.
use e_palika.Prelude.{
  ℕ, suc, ◌≤◌, ◌≡◌, refl, ap, ◌∙◌, Bool, true, false, not, ◌&&◌, ◌||◌, String, Option, some, List,
  [], ◌∷◌, ◌++◌, ◌==◌, nat_eq, nat_beq, string_eq, select, map, arith, Bool-cases, inl, inr,
}
use e_palika.Store.Types.{Uuid, ChalaniApproval, ChalaniSignatory}
use e_palika.Store.Exec.{Db, ok}
use e_palika.Store.Chalanis.Relations.{of_chalani}
use e_palika.Store.Chalanis.Approvals.{
  decisions, null_if_empty, left_join, is_approved, counts, check_all_signatories_approved,
}

abbrev pub all {ℓ} : {A : Type ℓ} → (A → Bool) → List A → Bool
all p [] = true
all p (x ∷ xs) = p x && all p xs

abbrev has_decided : List String → Bool
has_decided [] = false
has_decided (d ∷ ds) = true

-- A signatory who need not approve, or who has decided, and each time approved.
abbrev pub is_settled : List ChalaniApproval → ChalaniSignatory → Bool
is_settled l s =
    let ds = decisions s l in not s.is_required || (has_decided ds && all (λ d. d == "APPROVED") ds)

-- What a row says: it is of no required signatory, or approved.
abbrev row_settled : Bool × Option String → Bool
row_settled r = not r.0 || is_approved r.1

counts_le : (rows : List (Bool × Option String)) → (counts rows).1 ≤ (counts rows).0
counts_le [] = omega arith
counts_le ((true, d) ∷ rows) = elim (Bool-cases (is_approved d)) [
  | inl a ↦ rw a (omega (arith, counts_le rows))
  | inr n ↦ rw n (omega (arith, counts_le rows))
]
counts_le ((false, d) ∷ rows) = counts_le rows

suc_test : (a b : ℕ) → nat_beq (suc a) (suc b) ≡ nat_beq a b
suc_test a b = ground arith

above_test : (a b : ℕ) → b ≤ a → nat_beq (suc a) b ≡ false
above_test a b h = ground arith

-- The two counts agree exactly if every row is settled.
counts-all :
    (rows : List (Bool × Option String))
    → ((counts rows).0 == (counts rows).1) ≡ all row_settled rows
counts-all [] = refl
counts-all ((true, d) ∷ rows) = elim (Bool-cases (is_approved d)) [
  | inl a ↦ rw a (suc_test _ _ ∙ counts-all rows)
  | inr n ↦ rw n (above_test _ _ (counts_le rows))
]
counts-all ((false, d) ∷ rows) = counts-all rows

all-append {ℓ} :
    {A : Type ℓ} (p : A → Bool) (xs ys : List A) → all p (xs ++ ys) ≡ all p xs && all p ys
all-append p [] ys = refl
all-append p (x ∷ xs) ys = ground (arith, all-append p xs ys)

all-optional :
    (ds : List String) → all row_settled (map (λ d. (false, d)) (map (λ x. some x) ds)) ≡ true
all-optional [] = refl
all-optional (d ∷ ds) = all-optional ds

all-required :
    (ds : List String)
    → all row_settled (map (λ d. (true, d)) (map (λ x. some x) ds)) ≡ all (λ d. d == "APPROVED") ds
all-required [] = refl
all-required (d ∷ ds) = ap (λ b. (d == "APPROVED") && b) (all-required ds)

-- The rows of one signatory.
one_signatory :
    (required : Bool) (ds : List String)
    → all row_settled (map (λ d. (required, d)) (null_if_empty ds))
      ≡ not required || (has_decided ds && all (λ d. d == "APPROVED") ds)
one_signatory false [] = refl
one_signatory false (d ∷ ds) = all-optional ds
one_signatory true [] = refl
one_signatory true (d ∷ ds) = ap (λ b. (d == "APPROVED") && b) (all-required ds)

left_join-settled :
    (ss : List ChalaniSignatory) (l : List ChalaniApproval)
    → all row_settled (left_join ss l) ≡ all (is_settled l) ss
unfolding left_join
left_join-settled [] l = refl
left_join-settled (s ∷ ss) l =
    all-append row_settled (map (λ d. (s.is_required, d)) (null_if_empty (decisions s l)))
      (left_join ss l)
    ∙ rw (one_signatory s.is_required (decisions s l), left_join-settled ss l) refl

-- With no outage to come, CheckAllSignatoriesApproved counts at most as many approvals as required rows,
-- and the two counts agree exactly if each required signatory of the chalani has decided, and decided
-- APPROVED each time. One who has rejected and approved later keeps the counts apart.
pub check_all_signatories_approved-settled :
    (chalani : Uuid) (db : Db)
    → db.outages ≡ []
    → (n : ℕ × ℕ) × (check_all_signatories_approved chalani db ≡ (ok n, db))
      × (n.1 ≤ n.0)
      × ((n.0 == n.1) ≡ all (is_settled db.approvals) (select (of_chalani chalani) db.signatories))
unfolding check_all_signatories_approved
check_all_signatories_approved-settled chalani db on_time =
    let rows = left_join (select (of_chalani chalani) db.signatories) db.approvals in
    (
      counts rows,
      rw on_time refl,
      counts_le rows,
      counts-all rows ∙ left_join-settled (select (of_chalani chalani) db.signatories) db.approvals,
    )
