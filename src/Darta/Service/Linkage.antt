-- ===== src/Darta/Service/Linkage.antt =====
-- DartaService (services/darta-chalani/internal/domain/darta_service.go) leaves each darta with its
-- applicant and its document.
use e_palika.Prelude.{◌≡◌, Bool, none, some, List}
use e_palika.Domain.Context.{Ctx, UserContext}
use e_palika.Store.Types.{Uuid, Darta}
use e_palika.Store.Exec.{Db, Result}
use e_palika.Store.Steady.{Keeps}
use e_palika.Store.Table.{find}
use e_palika.Store.Dartas.{darta_key}
use e_palika.Store.Linked.{
  AreLinked, linkage, replaced-AreLinked, update_darta-Keeps, create_audit_entry-Keeps,
  create_darta-Keeps, create_applicant-Keeps, add_darta_annex-Keeps,
}
use e_palika.Darta.Service.{reserve_darta_number}
use e_palika.Darta.Service.Reservation.{
  NumberOutcome, stored_row, unnumbered, numbered_as, missing, kept, fresh,
  reserve_darta_number-outcome,
}
use e_palika.Darta.Service.History.{first_number}
use e_palika.Darta.Service.Steady.{Rules}

NumberOutcome-AreLinked :
    {user : UserContext} {id : Uuid} {d : Darta} {db : Db} {before : List Bool}
    {r : Result Darta × Db}
    → find darta_key id db.dartas ≡ some d
    → d.darta_number ≡ none
    → AreLinked db
    → NumberOutcome user id d db before r
    → AreLinked r.1
NumberOutcome-AreLinked found without s (unnumbered text e out shape) =
    rw shape (record { linked = s.linked })
NumberOutcome-AreLinked {id = id} {d = d} {db = db} found without s
      (numbered_as final extra ids out fits stored entry shape) =
    rw shape (record {
      linked =
          replaced-AreLinked db id d final found
            (first_number db d final without (stored_row stored)).identical s;
    })

reserve-Keeps : (ctx : Ctx) (id : Uuid) → Keeps linkage (reserve_darta_number ctx id)
unfolding linkage
reserve-Keeps ctx id = record {
  at = λ db s. elim (reserve_darta_number-outcome ctx id db) [
    | missing out why shape ↦ rw shape (record { linked = s.linked })
    | kept d n out found has shape ↦ rw shape (record { linked = s.linked })
    | fresh d found without out ↦ NumberOutcome-AreLinked found without s out
  ];
}

pub linkage_rules : Rules linkage
linkage_rules = record {
  update = update_darta-Keeps;
  insert = create_darta-Keeps;
  annex = add_darta_annex-Keeps;
  applicant = create_applicant-Keeps;
  audit = create_audit_entry-Keeps;
  reserve = reserve-Keeps;
}
