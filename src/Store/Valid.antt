-- ===== src/Store/Valid.antt =====
-- Every row of `dartas` satisfies the CHECK constraints of
-- services/darta-chalani/internal/dbutil/migrations/00001_initial_schema.sql, and every statement keeps it so.
use e_palika.Prelude.{◌≡◌, inl, inr, true, All, All-concat}
use e_palika.Store.Types.{Uuid, Darta}
use e_palika.Store.Exec.{Db}
use e_palika.Store.Steady.{StoreOrder, Keeps}
use e_palika.Store.Table.{All-replace}
use e_palika.Store.Checks.{darta_checks}
use e_palika.Store.Dartas.{CreateDartaParams, darta_key, stamped, update_darta}
use e_palika.Store.Dartas.Laws.{update_darta-outcome}
use e_palika.Store.Creation.{
  CreateAuditEntryParams, CreateApplicantParams, create_darta, create_audit_entry, create_applicant,
  add_darta_annex,
}
use e_palika.Store.Creation.Inserts.{refused, inserted, create_darta-Inserted}
use e_palika.Store.Creation.Parties.{
  dropped as unadded, added, create_applicant-Added, annexed, add_darta_annex-Annexed,
}
use e_palika.Store.Creation.Laws.{create_audit_entry-Audited, dropped, logged}

abbrev pub IsChecked : Darta → Type 0
IsChecked d = darta_checks d ≡ true

pub record IsSound (db : Db) : Type 0 where
  pub checked : All IsChecked db.dartas

-- A step that leaves a sound store sound.
unfoldable pub soundness : StoreOrder
soundness = record {
  rel = λ a b. IsSound a → IsSound b;
  trans = λ a b c f g s. g (f s);
  drawn = λ db ids out s. record { checked = s.checked };
  ticked = λ db t s. record { checked = s.checked };
}

pub update_darta-Keeps :
    (id : Uuid) (change : Darta → Darta) → Keeps soundness (update_darta id change)
unfolding soundness
update_darta-Keeps id change = record {
  at = λ db s. elim (update_darta-outcome id change db) [
    | inl r ↦ rw r.shape (record { checked = s.checked })
    | inr w ↦ rw w.shape (record {
      checked =
          All-replace darta_key IsChecked db.dartas (stamped db (change w.old)) s.checked w.checked;
    })
  ];
}

pub create_audit_entry-Keeps : (p : CreateAuditEntryParams) → Keeps soundness (create_audit_entry p)
unfolding soundness
create_audit_entry-Keeps p = record {
  at = λ db s. elim (create_audit_entry-Audited p db) [
    | dropped e ids out shape ↦ rw shape (record { checked = s.checked })
    | logged id ids out shape ↦ rw shape (record { checked = s.checked })
  ];
}

pub create_darta-Keeps : (p : CreateDartaParams) → Keeps soundness (create_darta p)
unfolding soundness
create_darta-Keeps p = record {
  at = λ db s. elim (create_darta-Inserted p db) [
    | refused e ids out shape ↦ rw shape (record { checked = s.checked })
    | inserted id ids out good alone linked shape ↦
        rw shape (record { checked = All-concat IsChecked db.dartas s.checked good })
  ];
}

pub create_applicant-Keeps : (p : CreateApplicantParams) → Keeps soundness (create_applicant p)
unfolding soundness
create_applicant-Keeps p = record {
  at = λ db s. elim (create_applicant-Added p db) [
    | unadded ids out shape ↦ rw shape (record { checked = s.checked })
    | added a ids out shape ↦ rw shape (record { checked = s.checked })
  ];
}

pub add_darta_annex-Keeps :
    (darta attachment : Uuid) → Keeps soundness (add_darta_annex darta attachment)
unfolding soundness
add_darta_annex-Keeps darta attachment = record {
  at = λ db s. elim (add_darta_annex-Annexed darta attachment db) [
    | annexed rows out shape ↦ rw shape (record { checked = s.checked })
  ];
}
