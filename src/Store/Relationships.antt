-- ===== src/Store/Relationships.antt =====
-- services/darta-chalani/internal/db/darta_relations.sql.go: the annexes of dartas, other than the INSERT,
-- and related dartas; and GetDartaByNumber of dartas.sql.go.
use e_palika.Prelude.{
  ℕ, Bool, not, ◌&&◌, String, Option, none, some, List, [], ◌∷◌, ◌++◌, ◌==◌, nat_eq, string_eq,
  if◌then◌else◌, select, find_first, any, map,
}
use e_palika.Domain.Errors.{database, check_violation, foreign_key_violation}
use e_palika.Store.Types.{
  Uuid, Timestamptz, Attachment, Darta, DartaAnnex, DartaRelationship, at_time,
}
use e_palika.Store.Exec.{Db, ok, err, Exec, statement}
use e_palika.Store.Table.{find}
use e_palika.Store.Checks.{sql_eq_number}
use e_palika.Store.Dartas.{DartaRow, darta_key, join_applicant, row_or_none, same_ward}
use e_palika.Store.Creation.{attachment_key, exists_row, key_is, same_annex}
use e_palika.Store.Listing.{join_rows, later_time, sort}

-- A row of a table that joins, with the instant by which the query sorts.
abbrev add_found :
    {R : Type 0} → Timestamptz → Option R → List (Timestamptz × R) → List (Timestamptz × R)
add_found at none rows = rows
add_found at (some r) rows = (at, r) ∷ rows

abbrev attachment_of : Db → Option Uuid → Option Attachment
attachment_of db none = none
attachment_of db (some id) = find attachment_key id db.attachments

unfoldable join_annexes : Db → List DartaAnnex → List (Timestamptz × Attachment)
join_annexes db [] = []
join_annexes db (a ∷ rows) =
    add_found a.added_at (attachment_of db a.attachment_id) (join_annexes db rows)

-- ORDER BY added_at ASC
unfoldable pub get_darta_annexes : Uuid → Exec (List Attachment)
unfolding statement sort join_annexes
get_darta_annexes darta = statement λ db. (
  ok (
      map (λ r. r.1)
        (sort (λ a b. not (later_time a.0 b.0))
          (join_annexes db (select (λ (a : DartaAnnex). key_is a.darta_id darta) db.annexes)))),
  db,
)

unfoldable pub remove_darta_annex : Uuid → Uuid → Exec (Unit {0})
unfolding statement
remove_darta_annex darta attachment = statement λ db.
    (ok tt, record db { annexes = select (λ a. not (same_annex darta attachment a)) db.annexes })

unfoldable pub remove_all_darta_annexes : Uuid → Exec (Unit {0})
unfolding statement
remove_all_darta_annexes darta = statement λ db. (
  ok tt,
  record db { annexes = select (λ (a : DartaAnnex). not (key_is a.darta_id darta)) db.annexes },
)

abbrev same_relationship : Uuid → Uuid → DartaRelationship → Bool
same_relationship darta related r = key_is r.darta_id darta && key_is r.related_darta_id related

-- INSERT … ON CONFLICT DO NOTHING; the CHECK constraint comes first.
unfoldable pub add_darta_relationship : Uuid → Uuid → String → Exec (Unit {0})
unfolding statement
add_darta_relationship darta related type = statement λ db.
    if darta == related
    then (err (database check_violation), db)
    else if any (same_relationship darta related) db.relationships
    then (ok tt, db)
    else if exists_row darta_key darta db.dartas && exists_row darta_key related db.dartas
    then (
      ok tt,
      record db {
        relationships =
            db.relationships
            ++ record {
              darta_id = some darta;
              related_darta_id = some related;
              relationship_type = type;
              created_at = at_time db.now;
            }
              ∷ [];
      },
    )
    else (err (database foreign_key_violation), db)

unfoldable pub remove_darta_relationship : Uuid → Uuid → Exec (Unit {0})
unfolding statement
remove_darta_relationship darta related = statement λ db. (
  ok tt,
  record db {
    relationships = select (λ r. not (same_relationship darta related r)) db.relationships;
  },
)

unfoldable pub remove_all_darta_relationships : Uuid → Exec (Unit {0})
unfolding statement
remove_all_darta_relationships darta = statement λ db. (
  ok tt,
  record db {
    relationships =
        select (λ (r : DartaRelationship). not (key_is r.darta_id darta)) db.relationships;
  },
)

-- The related darta, joined with its applicant.
abbrev joined : Db → Option Darta → Option DartaRow
joined db none = none
joined db (some d) = join_applicant db d

abbrev related_row : Db → Option Uuid → Option DartaRow
related_row db none = none
related_row db (some id) = joined db (find darta_key id db.dartas)

unfoldable join_related : Db → List DartaRelationship → List (Timestamptz × DartaRow)
join_related db [] = []
join_related db (r ∷ rows) =
    add_found r.created_at (related_row db r.related_darta_id) (join_related db rows)

-- ORDER BY created_at DESC
unfoldable pub get_related_dartas : Uuid → Exec (List DartaRow)
unfolding statement sort join_related
get_related_dartas darta = statement λ db. (
  ok (
      map (λ r. r.1)
        (sort (λ a b. later_time a.0 b.0)
          (join_related db
            (select (λ (r : DartaRelationship). key_is r.darta_id darta) db.relationships)))),
  db,
)

abbrev has_number : Option ℕ → String → String → Option String → Darta → Bool
has_number number fiscal_year scope ward d =
    sql_eq_number d.darta_number number
    && d.fiscal_year_id == fiscal_year
    && d.scope == scope
    && same_ward d.ward_id ward

unfoldable pub get_darta_by_number : Option ℕ → String → String → Option String → Exec DartaRow
unfolding statement join_rows
get_darta_by_number number fiscal_year scope ward = statement λ db.
    row_or_none
      (find_first (λ (r : DartaRow). has_number number fiscal_year scope ward r.darta)
        (join_rows db db.dartas))
      db
