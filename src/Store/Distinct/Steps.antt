-- ===== src/Store/Distinct/Steps.antt =====
-- The statements of services/darta-chalani/internal/db that leave the numbers of `dartas` distinct.
use e_palika.Prelude.{refl, sym, ◌∙◌, ap, inl, inr, nat_eq}
use e_palika.Store.Types.{Uuid, Darta}
use e_palika.Store.Steady.{StoreOrder, Keeps}
use e_palika.Store.Table.{key-find}
use e_palika.Store.Dartas.{CreateDartaParams, new_darta, darta_key, stamped, update_darta}
use e_palika.Store.Dartas.Laws.{update_darta-outcome}
use e_palika.Store.Creation.{
  CreateAuditEntryParams, CreateApplicantParams, create_darta, create_audit_entry, create_applicant,
  add_darta_annex,
}
use e_palika.Store.Creation.Inserts.{refused, inserted, create_darta-Inserted}
use e_palika.Store.Creation.Parties.{
  dropped as unadded, added, create_applicant-Added, annexed, add_darta_annex-Annexed,
}
use e_palika.Store.Creation.Laws.{create_audit_entry-Audited, dropped, logged}
use e_palika.Store.History.{Identity}
use e_palika.Store.History.Steps.{IsHarmless}
use e_palika.Store.Distinct.{HasDistinctNumbers, kept-Distinct, appended-Distinct, seat-eq}

-- A step that leaves distinct numbers distinct.
unfoldable pub distinctness : StoreOrder
distinctness = record {
  rel = λ a b. HasDistinctNumbers a → HasDistinctNumbers b;
  trans = λ a b c f g s. g (f s);
  drawn = λ db ids out s. record { distinct = s.distinct };
  ticked = λ db t s. record { distinct = s.distinct };
}

pub update_darta-Keeps :
    (id : Uuid) (change : Darta → Darta)
    → IsHarmless change
    → Keeps distinctness (update_darta id change)
unfolding distinctness
update_darta-Keeps id change h = record {
  at = λ db s. elim (update_darta-outcome id change db) [
    | inl r ↦ rw r.shape (record { distinct = s.distinct })
    | inr w ↦ rw w.shape (record {
      distinct =
          kept-Distinct db.dartas id w.old (stamped db (change w.old)) w.found
            (sym (ap (λ (i : Identity). i.id) (h.identical w.old))
              ∙ key-find darta_key db.dartas id w.found)
            (seat-eq w.old (stamped db (change w.old)) (h.identical w.old) (h.numbered w.old))
            s.distinct;
    })
  ];
}

pub create_audit_entry-Keeps :
    (p : CreateAuditEntryParams) → Keeps distinctness (create_audit_entry p)
unfolding distinctness
create_audit_entry-Keeps p = record {
  at = λ db s. elim (create_audit_entry-Audited p db) [
    | dropped e ids out shape ↦ rw shape (record { distinct = s.distinct })
    | logged id ids out shape ↦ rw shape (record { distinct = s.distinct })
  ];
}

-- A new row has no number.
pub create_darta-Keeps : (p : CreateDartaParams) → Keeps distinctness (create_darta p)
unfolding distinctness
create_darta-Keeps p = record {
  at = λ db s. elim (create_darta-Inserted p db) [
    | refused e ids out shape ↦ rw shape (record { distinct = s.distinct })
    | inserted id ids out good alone linked shape ↦
        rw shape
          (record { distinct = appended-Distinct db.dartas (new_darta db id p) refl s.distinct })
  ];
}

pub create_applicant-Keeps : (p : CreateApplicantParams) → Keeps distinctness (create_applicant p)
unfolding distinctness
create_applicant-Keeps p = record {
  at = λ db s. elim (create_applicant-Added p db) [
    | unadded ids out shape ↦ rw shape (record { distinct = s.distinct })
    | added a ids out shape ↦ rw shape (record { distinct = s.distinct })
  ];
}

pub add_darta_annex-Keeps :
    (darta attachment : Uuid) → Keeps distinctness (add_darta_annex darta attachment)
unfolding distinctness
add_darta_annex-Keeps darta attachment = record {
  at = λ db s. elim (add_darta_annex-Annexed darta attachment db) [
    | annexed rows out shape ↦ rw shape (record { distinct = s.distinct })
  ];
}
