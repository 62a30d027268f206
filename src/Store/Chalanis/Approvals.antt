-- ===== src/Store/Chalanis/Approvals.antt =====
-- services/darta-chalani/internal/db/chalani_relations.sql.go: the approvals of chalanis.
pub mod Approved
use e_palika.Prelude.{
  ℕ, Bool, true, false, ◌&&◌, String, Option, none, some, List, [], ◌∷◌, ◌++◌, ◌==◌, nat_eq,
  string_eq, if◌then◌else◌, select, length, map, is_one_of,
}
use e_palika.Domain.Errors.{database, check_violation, unique_violation, foreign_key_violation}
use e_palika.Store.Types.{Uuid, ChalaniApproval, ChalaniSignatory, at_time}
use e_palika.Store.Exec.{Db, ok, err, Exec, statement}
use e_palika.Store.Table.{find}
use e_palika.Store.Dartas.{draw_uuid, row_or_none}
use e_palika.Store.Creation.{exists_row, key_is}
use e_palika.Store.Listing.{sort}
use e_palika.Store.Chalanis.{chalani_key}
use e_palika.Store.Chalanis.Relations.{signatory_key, in_order, of_chalani}

abbrev pub approval_key : ChalaniApproval → Uuid
approval_key a = a.id

pub record CreateChalaniApprovalParams : Type 0 where
  pub chalani_id : Uuid
  pub signatory_id : Uuid
  pub decision : String
  pub notes : Option String

abbrev insert_approval : CreateChalaniApprovalParams → Uuid → Exec ChalaniApproval
insert_approval p id db =
    let a : ChalaniApproval = record {
      id = id;
      chalani_id = some p.chalani_id;
      signatory_id = some p.signatory_id;
      decision = p.decision;
      notes = p.notes;
      approved_at = at_time db.now;
    } in
    if is_one_of p.decision ("APPROVED" ∷ "REJECTED" ∷ "DELEGATED" ∷ [])
    then (if exists_row approval_key id db.approvals
        then (err (database unique_violation), db)
        else if exists_row chalani_key p.chalani_id db.chalanis
            && exists_row signatory_key p.signatory_id db.signatories
        then (ok a, record db { approvals = db.approvals ++ a ∷ [] })
        else (err (database foreign_key_violation), db))
    else (err (database check_violation), db)

unfoldable pub create_chalani_approval : CreateChalaniApprovalParams → Exec ChalaniApproval
unfolding statement
create_chalani_approval p = statement (draw_uuid (insert_approval p))

unfoldable pub get_chalani_approval : Uuid → Exec ChalaniApproval
unfolding statement
get_chalani_approval id = statement λ db. row_or_none (find approval_key id db.approvals) db

abbrev signatory_of : Db → Option Uuid → Option ChalaniSignatory
signatory_of db none = none
signatory_of db (some id) = find signatory_key id db.signatories

abbrev add_signed :
    ChalaniApproval
    → Option ChalaniSignatory
    → List (ChalaniApproval × ChalaniSignatory)
    → List (ChalaniApproval × ChalaniSignatory)
add_signed a none rows = rows
add_signed a (some s) rows = (a, s) ∷ rows

unfoldable join_signatories : Db → List ChalaniApproval → List (ChalaniApproval × ChalaniSignatory)
join_signatories db [] = []
join_signatories db (a ∷ rows) =
    add_signed a (signatory_of db a.signatory_id) (join_signatories db rows)

unfoldable pub get_chalani_approvals : Uuid → Exec (List (ChalaniApproval × ChalaniSignatory))
unfolding statement sort join_signatories
get_chalani_approvals chalani = statement λ db. (
  ok (
      sort (λ a b. in_order a.1 b.1)
        (join_signatories db
          (select (λ (a : ChalaniApproval). key_is a.chalani_id chalani) db.approvals))),
  db,
)

-- The decisions of a signatory; with none, LEFT JOIN gives one row with NULL.
abbrev pub decisions : ChalaniSignatory → List ChalaniApproval → List String
decisions s l =
    map (λ (a : ChalaniApproval). a.decision)
      (select (λ (a : ChalaniApproval). key_is a.signatory_id s.id) l)

abbrev pub null_if_empty : List String → List (Option String)
null_if_empty [] = none ∷ []
null_if_empty (d ∷ ds) = some d ∷ map (λ x. some x) ds

-- A row of the join: is the signatory required, and the decision.
unfoldable pub left_join :
    List ChalaniSignatory → List ChalaniApproval → List (Bool × Option String)
left_join [] l = []
left_join (s ∷ ss) l =
    map (λ d. (s.is_required, d)) (null_if_empty (decisions s l)) ++ left_join ss l

abbrev pub is_approved : Option String → Bool
is_approved none = false
is_approved (some d) = d == "APPROVED"

-- COUNT(*) FILTER (…), the required rows and the approved ones of them.
abbrev pub counts : List (Bool × Option String) → ℕ × ℕ
counts rows = (length (select (λ r. r.0) rows), length (select (λ r. r.0 && is_approved r.1) rows))

unfoldable pub check_all_signatories_approved : Uuid → Exec (ℕ × ℕ)
unfolding statement left_join
check_all_signatories_approved chalani =
    statement
      λ db. (ok (counts (left_join (select (of_chalani chalani) db.signatories) db.approvals)), db)
