-- ===== src/Store/History.antt =====
-- What the history of a store keeps: the rows of `dartas` stay, with their identity and their number,
-- and the audit trail only grows.
pub mod Steps
use mathlib.Core.List.{append-nil, append_assoc}
use mathlib.Core.Path.{subst}
use e_palika.Prelude.{
  ℕ, ◌≡◌, refl, sym, ◌∙◌, ap, ◌≢◌, ◌⊎◌, inl, inr, Bool, true, false, String, Option, none, some,
  List, [], ◌∷◌, ◌++◌, arith, Bool-cases, Option-cases, ◌==◌, nat_eq, nat_beq_iff, if◌then◌else◌,
}
use e_palika.Domain.Errors.{Error, database}
use e_palika.Store.Types.{Uuid, Timestamptz, Darta, AuditTrail}
use e_palika.Store.Exec.{Db, Result, ok, err, Exec}
use e_palika.Store.Steady.{StoreOrder, Keeps, ahead, statement-Keeps, draw_uuid-rel}
use e_palika.Store.Table.{find, replace, find-replace_self, find-replace_ne, key-find}
use e_palika.Store.Dartas.{darta_key, stamped, update_darta}
use e_palika.Store.Dartas.Laws.{later, update_darta-outcome}
use e_palika.Store.Creation.{CreateAuditEntryParams, create_audit_entry}
use e_palika.Store.Creation.Laws.{audited, create_audit_entry-Audited, dropped, logged}

-- The columns that say which letter a darta is.
pub record Identity : Type 0 where
  pub id : Uuid
  pub fiscal_year_id : String
  pub scope : String
  pub ward_id : Option String
  pub subject : String
  pub applicant_id : Uuid
  pub intake_channel : String
  pub received_date : Timestamptz
  pub entry_date : Timestamptz
  pub is_backdated : Bool
  pub primary_document_id : Uuid
  pub created_by : String
  pub created_at : Timestamptz
  pub tenant_id : String
  pub idempotency_key : Option String

abbrev pub identity : Darta → Identity
identity d = record {
  id = d.id;
  fiscal_year_id = d.fiscal_year_id;
  scope = d.scope;
  ward_id = d.ward_id;
  subject = d.subject;
  applicant_id = d.applicant_id;
  intake_channel = d.intake_channel;
  received_date = d.received_date;
  entry_date = d.entry_date;
  is_backdated = d.is_backdated;
  primary_document_id = d.primary_document_id;
  created_by = d.created_by;
  created_at = d.created_at;
  tenant_id = d.tenant_id;
  idempotency_key = d.idempotency_key;
}

abbrev pub number_of : Darta → Option ℕ × Option String
number_of d = (d.darta_number, d.formatted_darta_number)

-- The later form of a row: the same letter, with the same number if it had one.
pub record IsSameLetter (d after : Darta) : Type 0 where
  pub identical : identity d ≡ identity after
  pub numbered : (n : ℕ) → d.darta_number ≡ some n → number_of after ≡ number_of d

pub record IsRetained (d : Darta) (db : Db) : Type 0 where
  pub row : Darta
  pub found : find darta_key d.id db.dartas ≡ some row
  pub letter : IsSameLetter d row

pub record IsGrown (a b : List AuditTrail) : Type 0 where
  pub extra : List AuditTrail
  pub appended : b ≡ a ++ extra

-- A store that may come after another one.
pub record IsLater (a b : Db) : Type 0 where
  pub rows : (id : Uuid) (d : Darta) → find darta_key id a.dartas ≡ some d → IsRetained d b
  pub trail : IsGrown a.audit b.audit

pub same_letter_refl : (d : Darta) → IsSameLetter d d
same_letter_refl d = record { identical = refl; numbered = λ n h. refl }

pub same_letter_trans : {a b c : Darta} → IsSameLetter a b → IsSameLetter b c → IsSameLetter a c
same_letter_trans {a} {b} {c} x y = record {
  identical = x.identical ∙ y.identical;
  numbered = λ n h. y.numbered n (ap (λ q. q.0) (x.numbered n h) ∙ h) ∙ x.numbered n h;
}

pub find-IsRetained :
    (id : Uuid) (d : Darta) (db : Db) → find darta_key id db.dartas ≡ some d → IsRetained d db
find-IsRetained id d db h = record {
  row = d;
  found =
      subst (λ k. find darta_key k db.dartas ≡ some d) (sym (key-find darta_key db.dartas id h)) h;
  letter = same_letter_refl d;
}

pub unchanged : (a b : List AuditTrail) → b ≡ a → IsGrown a b
unchanged a b e = record { extra = []; appended = e ∙ sym (append-nil a) }

-- A store with the same rows of `dartas`, and a trail that has grown.
pub same_dartas : (a b : Db) → b.dartas ≡ a.dartas → IsGrown a.audit b.audit → IsLater a b
same_dartas a b e grown = record {
  rows = λ id d h. find-IsRetained id d b (ap (find darta_key id) e ∙ h);
  trail = grown;
}

-- A row in place of another one that it may come after.
pub replaced-IsLater :
    (a b : Db) (id : Uuid) (old new : Darta)
    → find darta_key id a.dartas ≡ some old
    → IsSameLetter old new
    → b.dartas ≡ replace darta_key new a.dartas
    → IsGrown a.audit b.audit
    → IsLater a b
replaced-IsLater a b id old new found same e grown = record { rows = kept; trail = grown }
  where
    kept : (k : Uuid) (d : Darta) → find darta_key k a.dartas ≡ some d → IsRetained d b
    kept k d h = elim (Bool-cases (new.id == d.id)) [
      | inl here ↦
          let key : new.id ≡ d.id = (nat_beq_iff new.id d.id).0 here in
          let at_old : new.id ≡ id =
            sym (ap (λ (i : Identity). i.id) same.identical)
            ∙ key-find darta_key a.dartas id found in
          let at_k : d.id ≡ k = key-find darta_key a.dartas k h in
          let there : d ≡ old = cc (found, h, key, at_old, at_k) in
          record {
            row = new;
            found =
                ap (find darta_key d.id) e
                ∙ find-replace_self darta_key a.dartas new d.id key
                    (subst (λ i. find darta_key i a.dartas ≡ some d) (sym at_k) h);
            letter = subst (λ x. IsSameLetter x new) (sym there) same;
          }
      | inr other ↦
          let at_k : d.id ≡ k = key-find darta_key a.dartas k h in
          record {
            row = d;
            found =
                ap (find darta_key d.id) e
                ∙ find-replace_ne darta_key a.dartas new d.id
                    (λ q. cc ((nat_beq_iff new.id d.id).1 q, other))
                ∙ subst (λ i. find darta_key i a.dartas ≡ some d) (sym at_k) h;
            letter = same_letter_refl d;
          }
    ]

-- The order of the history.
unfoldable pub history : StoreOrder
history = record {
  rel = IsLater;
  trans = λ a b c x y. record {
    rows = λ id d h.
        let r = x.rows id d h in
        let s = y.rows d.id r.row r.found in
        record {
          row = s.row;
          found =
              subst (λ i. find darta_key i c.dartas ≡ some s.row)
                (sym (ap (λ (i : Identity). i.id) r.letter.identical)) s.found;
          letter = same_letter_trans r.letter s.letter;
        };
    trail = record {
      extra = x.trail.extra ++ y.trail.extra;
      appended =
          y.trail.appended
          ∙ ap (λ l. l ++ y.trail.extra) x.trail.appended
          ∙ append_assoc a.audit x.trail.extra y.trail.extra;
    };
  };
  ticked = λ db t. same_dartas db _ refl (unchanged db.audit db.audit refl);
  drawn = λ db ids out. same_dartas db (ahead db ids out) refl (unchanged db.audit db.audit refl);
}
