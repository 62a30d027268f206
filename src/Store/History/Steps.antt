-- ===== src/Store/History/Steps.antt =====
-- The statements that keep the history of the store.
use e_palika.Prelude.{◌≡◌, refl, inl, inr, List, Bool, [], ◌∷◌, ◌++◌, nat_eq}
use e_palika.Store.Types.{Uuid, Darta}
use e_palika.Store.Exec.{Db}
use e_palika.Store.Steady.{ahead, Keeps}
use e_palika.Store.Table.{find-append_old}
use e_palika.Store.Dartas.{CreateDartaParams, new_darta, darta_key, stamped, update_darta}
use e_palika.Store.Dartas.Laws.{later, update_darta-outcome}
use e_palika.Store.Creation.{
  CreateAuditEntryParams, CreateApplicantParams, create_darta, create_audit_entry, create_applicant,
  add_darta_annex,
}
use e_palika.Store.Creation.Inserts.{refused, inserted, create_darta-Inserted}
use e_palika.Store.Creation.Parties.{
  dropped as unadded, added, create_applicant-Added, annexed, add_darta_annex-Annexed,
}
use e_palika.Store.Creation.Laws.{create_audit_entry-Audited, dropped, logged}
use e_palika.Store.History.{
  identity, number_of, IsLater, history, same_dartas, replaced-IsLater, find-IsRetained, unchanged,
}

-- A change of a row that keeps the letter and its number.
pub record IsHarmless (change : Darta → Darta) : Type 0 where
  pub identical : (d : Darta) → identity d ≡ identity (change d)
  pub numbered : (d : Darta) → number_of (change d) ≡ number_of d

pub update_darta-Keeps :
    (id : Uuid) (change : Darta → Darta)
    → IsHarmless change
    → Keeps history (update_darta id change)
unfolding history
update_darta-Keeps id change h = record {
  at = λ db. elim (update_darta-outcome id change db) [
    | inl r ↦
        rw r.shape (same_dartas db (later db r.schedule) refl (unchanged db.audit db.audit refl))
    | inr w ↦ rw w.shape (
        replaced-IsLater db _ id w.old (stamped db (change w.old)) w.found
          (record { identical = h.identical w.old; numbered = λ _ _. h.numbered w.old }) refl
          (unchanged db.audit db.audit refl))
  ];
}

pub create_audit_entry-Keeps : (p : CreateAuditEntryParams) → Keeps history (create_audit_entry p)
unfolding history
create_audit_entry-Keeps p = record {
  at = λ db. elim (create_audit_entry-Audited p db) [
    | dropped e ids out shape ↦
        rw shape (same_dartas db _ refl (record { extra = []; appended = refl }))
    | logged id ids out shape ↦
        rw shape (same_dartas db _ refl (record { extra = _; appended = refl }))
  ];
}

-- The rows are those of before and one more.
appended_darta :
    (d : Darta) (db : Db) (ids : List Uuid) (out : List Bool)
    → IsLater db (record (ahead db ids out) { dartas = db.dartas ++ d ∷ [] })
appended_darta d db ids out = record {
  rows = λ id row h.
      let kept = find-IsRetained id row db h in
      record {
        row = kept.row;
        found = find-append_old darta_key db.dartas d row.id kept.found;
        letter = kept.letter;
      };
  trail = unchanged db.audit db.audit refl;
}

pub create_darta-Keeps : (p : CreateDartaParams) → Keeps history (create_darta p)
unfolding history
create_darta-Keeps p = record {
  at = λ db. elim (create_darta-Inserted p db) [
    | refused e ids out shape ↦
        rw shape (same_dartas db (ahead db ids out) refl (unchanged db.audit db.audit refl))
    | inserted id ids out good alone linked shape ↦
        rw shape (appended_darta (new_darta db id p) db ids out)
  ];
}

pub create_applicant-Keeps : (p : CreateApplicantParams) → Keeps history (create_applicant p)
unfolding history
create_applicant-Keeps p = record {
  at = λ db. elim (create_applicant-Added p db) [
    | unadded ids out shape ↦
        rw shape (same_dartas db (ahead db ids out) refl (unchanged db.audit db.audit refl))
    | added a ids out shape ↦ rw shape (same_dartas db _ refl (unchanged db.audit db.audit refl))
  ];
}

pub add_darta_annex-Keeps :
    (darta attachment : Uuid) → Keeps history (add_darta_annex darta attachment)
unfolding history
add_darta_annex-Keeps darta attachment = record {
  at = λ db. elim (add_darta_annex-Annexed darta attachment db) [
    | annexed rows out shape ↦ rw shape (same_dartas db _ refl (unchanged db.audit db.audit refl))
  ];
}
