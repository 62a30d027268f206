-- ===== src/Grpc/Chalani/Refusals.antt =====
-- CreateChalani of services/darta-chalani/internal/grpc/chalani_server.go, which a constraint of the
-- database (services/darta-chalani/internal/dbutil/migrations/00001_initial_schema.sql) refuses each time.
use e_palika.Prelude.{
  ◌≡◌, refl, inl, inr, Bool, true, false, some, List, [], ◌∷◌, is_one_of, string_eq, Option-cases,
}
use e_palika.Domain.Context.{Ctx}
use e_palika.Domain.Errors.{Error, Code, DbError, database, check_violation, unavailable}
use e_palika.Store.Types.{Uuid, Recipient}
use e_palika.Store.Exec.{Db, Result, err, Exec, raise, ◌>>=◌, on_schedule, on_error}
use e_palika.Store.Checks.{recipient_checks, party_types}
use e_palika.Store.Dartas.{draw_uuid}
use e_palika.Store.Creation.{
  CreateRecipientParams, create_recipient, insert_recipient, new_recipient,
}
use e_palika.Proto.Messages.{CreateChalaniInput}
use e_palika.Proto.Texts.{recipient_type_text-unlisted}
use e_palika.Grpc.Packages.{Packages}
use e_palika.Grpc.Status.{code_of}
use e_palika.Grpc.Chalani.Creation.{recipient_params, parse_recipient_input, create_chalani}

-- The rows that two stores have in common.
pub record AreKept (a b : Db) : Type 0 where
  pub recipients : b.recipients ≡ a.recipients
  pub chalanis : b.chalanis ≡ a.chalanis

-- A call that answers with an error of this code and adds neither a recipient nor a chalani.
pub record IsRefused {A : Type 0} (code : Code) (db : Db) (r : Result A × Db) : Type 0 where
  pub error : Error
  pub answer : r.0 ≡ err error
  pub coded : code_of error ≡ some code
  pub kept : AreKept db r.1

-- The outcomes of an INSERT into `recipients` of a type that the constraint does not list.
module _ (params : CreateRecipientParams)
    (unlisted : is_one_of params.type party_types ≡ false) where
  abbrev insert : Uuid → Exec Recipient
  insert id db = insert_recipient (new_recipient db id params) db

  record IsDropped (db : Db) (r : Result Recipient × Db) : Type 0 where
    error : DbError
    answer : r.0 ≡ err (database error)
    kept : AreKept db r.1

  drawn-IsDropped :
      (ids : List Uuid) (db : Db) (out : List Bool)
      → IsDropped db (draw_uuid insert (record db { uuids = ids; outages = out }))
  unfolding recipient_checks
  drawn-IsDropped [] db out = record {
    error = unavailable;
    answer = refl;
    kept = record { recipients = refl; chalanis = refl };
  }
  drawn-IsDropped (id ∷ ids) db out = rw unlisted (record {
    error = check_violation;
    answer = refl;
    kept = record { recipients = refl; chalanis = refl };
  })

  scheduled-IsDropped :
      (out : List Bool) (db : Db)
      → IsDropped db (on_schedule out (draw_uuid insert) (record db { outages = out }))
  scheduled-IsDropped [] db = drawn-IsDropped db.uuids db []
  scheduled-IsDropped (true ∷ out) db = record {
    error = unavailable;
    answer = refl;
    kept = record { recipients = refl; chalanis = refl };
  }
  scheduled-IsDropped (false ∷ out) db = drawn-IsDropped db.uuids db out

  create_recipient-IsDropped : (db : Db) → IsDropped db (create_recipient params db)
  unfolding create_recipient
  create_recipient-IsDropped db = scheduled-IsDropped db.outages db

-- CreateChalani with an Input answers with an InvalidArgument error for every such request and every
-- store, and adds neither a chalani nor a recipient: the recipient's type is written as the enumeration's
-- text, such as RECIPIENT_TYPE_CITIZEN, which the constraint on the column does not list.
pub create_chalani-IsRefused :
    (p : Packages) (ctx : Ctx) (i : CreateChalaniInput) (db : Db)
    → IsRefused Code.invalid_argument db (create_chalani p ctx i db)
unfolding create_chalani ◌>>=◌ on_error parse_recipient_input raise
create_chalani-IsRefused p ctx i db = elim (Option-cases i.recipient) [
  | inl absent ↦ rw absent (record {
    error = _;
    answer = refl;
    coded = refl;
    kept = record { recipients = refl; chalanis = refl };
  })
  | inr (r, present) ↦
      let d =
        create_recipient-IsDropped (recipient_params r) (recipient_type_text-unlisted r.type) db in
      rw (present, d.answer) (record { error = _; answer = refl; coded = refl; kept = d.kept })
]
