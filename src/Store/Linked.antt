-- ===== src/Store/Linked.antt =====
-- Each stored darta refers to an applicant and to a document that are stored
-- (services/darta-chalani/internal/dbutil/migrations/00001_initial_schema.sql), and the statements of
-- services/darta-chalani/internal/db keep it so.
pub mod Reads
use mathlib.Core.Path.{subst}
use e_palika.Prelude.{
  ◌≡◌, refl, sym, ap, ◌∙◌, inl, inr, Bool, true, false, ◌&&◌, ◌||◌, some, List, [], ◌∷◌, ◌++◌,
  Bool-cases, nat_eq, ◌==◌, any, All, All-concat, if◌then◌else◌, arith,
}
use e_palika.Store.Types.{Uuid, Darta, Applicant, Attachment}
use e_palika.Store.Exec.{Db, Exec}
use e_palika.Store.Steady.{StoreOrder, Keeps, statement-Keeps, draw_uuid-rel}
use e_palika.Store.Table.{find, replace, All-find, All-replace}
use e_palika.Store.Checks.{applicant_checks}
use e_palika.Store.Dartas.{
  CreateDartaParams, new_darta, darta_key, applicant_key, draw_uuid, stamped, update_darta,
}
use e_palika.Store.Dartas.Laws.{later, update_darta-outcome}
use e_palika.Store.Creation.{
  CreateAuditEntryParams, CreateApplicantParams, create_darta, create_audit_entry, create_applicant,
  insert_applicant, insert_annex, add_darta_annex, exists_row, attachment_key, new_applicant,
  same_annex,
}
use e_palika.Store.Creation.Inserts.{refused, inserted, create_darta-Inserted}
use e_palika.Store.Creation.Parties.{
  dropped as unadded, added, create_applicant-Added, annexed, add_darta_annex-Annexed,
}
use e_palika.Store.Creation.Laws.{create_audit_entry-Audited, dropped, logged}
use e_palika.Store.Listing.Laws.{map-All}
use e_palika.Store.History.{Identity, identity}
use e_palika.Store.History.Steps.{IsHarmless}

-- The applicant and the document of the letter are among these rows.
abbrev pub IsLinked : List Applicant → List Attachment → Identity → Type 0
IsLinked applicants attachments i =
    (exists_row applicant_key i.applicant_id applicants
      && exists_row attachment_key i.primary_document_id attachments)
    ≡ true

pub record AreLinked (db : Db) : Type 0 where
  pub linked : All (λ (d : Darta). IsLinked db.applicants db.attachments (identity d)) db.dartas

-- A step that leaves the rows linked.
unfoldable pub linkage : StoreOrder
linkage = record {
  rel = λ a b. AreLinked a → AreLinked b;
  trans = λ a b c f g s. g (f s);
  drawn = λ db ids out s. record { linked = s.linked };
  ticked = λ db t s. record { linked = s.linked };
}

-- A row in place of another one of the same letter.
pub replaced-AreLinked :
    (db : Db) (id : Uuid) (old new : Darta)
    → find darta_key id db.dartas ≡ some old
    → identity old ≡ identity new
    → AreLinked db
    → All
        (λ (d : Darta). IsLinked db.applicants db.attachments (identity d))
        (replace darta_key new db.dartas)
replaced-AreLinked db id old new found same s = All-replace darta_key _ db.dartas new s.linked (
    subst (IsLinked db.applicants db.attachments) same
      (All-find darta_key _ db.dartas id s.linked found))

pub update_darta-Keeps :
    (id : Uuid) (change : Darta → Darta)
    → IsHarmless change
    → Keeps linkage (update_darta id change)
unfolding linkage
update_darta-Keeps id change h = record {
  at = λ db s. elim (update_darta-outcome id change db) [
    | inl r ↦ rw r.shape (record { linked = s.linked })
    | inr w ↦ rw w.shape (record {
      linked =
          replaced-AreLinked db id w.old (stamped db (change w.old)) w.found (h.identical w.old) s;
    })
  ];
}

pub create_audit_entry-Keeps : (p : CreateAuditEntryParams) → Keeps linkage (create_audit_entry p)
unfolding linkage
create_audit_entry-Keeps p = record {
  at = λ db s. elim (create_audit_entry-Audited p db) [
    | dropped e ids out shape ↦ rw shape (record { linked = s.linked })
    | logged id ids out shape ↦ rw shape (record { linked = s.linked })
  ];
}

pub create_darta-Keeps : (p : CreateDartaParams) → Keeps linkage (create_darta p)
unfolding linkage
create_darta-Keeps p = record {
  at = λ db s. elim (create_darta-Inserted p db) [
    | refused e ids out shape ↦ rw shape (record { linked = s.linked })
    | inserted id ids out good alone found shape ↦
        rw shape (record { linked = All-concat _ db.dartas s.linked found })
  ];
}

any-append :
    {A : Type 0} (p : A → Bool) (xs ys : List A) → any p xs ≡ true → any p (xs ++ ys) ≡ true
any-append p [] ys h = cc
any-append p (x ∷ xs) ys h = ground (arith, any-append p xs ys)

-- More applicants link no fewer letters.
grown-IsLinked :
    (xs ys : List Applicant) (ts : List Attachment) (i : Identity)
    → IsLinked xs ts i
    → IsLinked (xs ++ ys) ts i
grown-IsLinked xs ys ts i h =
    ground (arith, any-append (λ r. applicant_key r == i.applicant_id) xs ys)

pub create_applicant-Keeps : (p : CreateApplicantParams) → Keeps linkage (create_applicant p)
unfolding linkage
create_applicant-Keeps p = record {
  at = λ db s. elim (create_applicant-Added p db) [
    | unadded ids out shape ↦ rw shape (record { linked = s.linked })
    | added a ids out shape ↦ rw shape (record {
      linked =
          map-All db.dartas (λ d. grown-IsLinked db.applicants (a ∷ []) db.attachments (identity d))
            s.linked;
    })
  ];
}

pub add_darta_annex-Keeps :
    (darta attachment : Uuid) → Keeps linkage (add_darta_annex darta attachment)
unfolding linkage
add_darta_annex-Keeps darta attachment = record {
  at = λ db s. elim (add_darta_annex-Annexed darta attachment db) [
    | annexed rows out shape ↦ rw shape (record { linked = s.linked })
  ];
}
