-- ===== src/Store/Reads.antt =====
-- The SELECT statements of services/darta-chalani/internal/db keep every order on stores.
use e_palika.Prelude.{ℕ, ◌+◌, String, Option, none, some, ltb, Bool-cases, inl, inr, select}
use e_palika.Prelude.Int.{half32}
use e_palika.Store.Types.{Uuid, Darta}
use e_palika.Store.Exec.{Db}
use e_palika.Store.Steady.{StoreOrder, Keeps, statement-Keeps, row_or_none-rel}
use e_palika.Store.Table.{find}
use e_palika.Store.Dartas.{
  darta_key, applicant_key, get_darta, get_darta_simple, get_darta_by_idempotency_key,
  get_next_darta_number, joined_row, join_applicant, row_or_none, with_key, in_range, max_number,
  in_series,
}
use e_palika.Store.Creation.{get_applicant, get_attachment, attachment_key}

module _ (o : StoreOrder) where
  joined-rel : (found : Option Darta) (db : Db) → o.rel db (joined_row found db).1
  joined-rel none db = o.drawn db db.uuids db.outages
  joined-rel (some d) db = row_or_none-rel o (join_applicant db d) db

  pub get_darta-Keeps : (id : Uuid) → Keeps o (get_darta id)
  unfolding get_darta
  get_darta-Keeps id =
      statement-Keeps o (λ db. joined_row (find darta_key id db.dartas) db)
        (λ db. joined-rel (find darta_key id db.dartas) db)

  pub get_darta_simple-Keeps : (id : Uuid) → Keeps o (get_darta_simple id)
  unfolding get_darta_simple
  get_darta_simple-Keeps id =
      statement-Keeps o (λ db. row_or_none (find darta_key id db.dartas) db)
        (λ db. row_or_none-rel o (find darta_key id db.dartas) db)

  pub get_applicant-Keeps : (id : Uuid) → Keeps o (get_applicant id)
  unfolding get_applicant
  get_applicant-Keeps id =
      statement-Keeps o (λ db. row_or_none (find applicant_key id db.applicants) db)
        (λ db. row_or_none-rel o (find applicant_key id db.applicants) db)

  pub get_attachment-Keeps : (id : Uuid) → Keeps o (get_attachment id)
  unfolding get_attachment
  get_attachment-Keeps id =
      statement-Keeps o (λ db. row_or_none (find attachment_key id db.attachments) db)
        (λ db. row_or_none-rel o (find attachment_key id db.attachments) db)

  pub get_darta_by_idempotency_key-Keeps :
      (key : Option String) (tenant : String) → Keeps o (get_darta_by_idempotency_key key tenant)
  unfolding get_darta_by_idempotency_key
  get_darta_by_idempotency_key-Keeps key tenant =
      statement-Keeps o (λ db. row_or_none (with_key key tenant db.dartas) db)
        (λ db. row_or_none-rel o (with_key key tenant db.dartas) db)

  in_range-rel : (n : ℕ) (db : Db) → o.rel db (in_range n db).1
  in_range-rel n db = elim (Bool-cases (ltb n half32)) [
    | inl fits ↦ rw fits (o.drawn db db.uuids db.outages)
    | inr over ↦ rw over (o.drawn db db.uuids db.outages)
  ]

  pub get_next_darta_number-Keeps :
      (fiscal_year scope : String) (ward : Option String) (tenant : String)
      → Keeps o (get_next_darta_number fiscal_year scope ward tenant)
  unfolding get_next_darta_number max_number
  get_next_darta_number-Keeps fiscal_year scope ward tenant =
      statement-Keeps o
        (λ db.
          in_range (max_number (select (in_series fiscal_year scope ward tenant) db.dartas) + 1) db)
        (λ db. in_range-rel _ db)
