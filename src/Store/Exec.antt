-- ===== src/Store/Exec.antt =====
-- The store that the handlers share, and actions on it: what a query or a handler returns, and the
-- store that it leaves. Go code that drops an error goes on from the store that the failed call left.
use e_palika.Prelude.{Bool, true, false, List, [], ◌∷◌, if◌then◌else◌}
use e_palika.Domain.Errors.{Error, database, unavailable}
use e_palika.Store.Types.{
  Uuid, Time, Applicant, Attachment, AuditTrail, Chalani, ChalaniApproval, ChalaniAttachment,
  ChalaniSignatory, ChalaniTemplate, Darta, DartaAnnex, DartaRelationship, Recipient,
}

pub record Db : Type 0 where
  pub applicants : List Applicant
  pub attachments : List Attachment
  pub dartas : List Darta
  pub annexes : List DartaAnnex
  pub relationships : List DartaRelationship
  pub recipients : List Recipient
  pub chalanis : List Chalani
  pub chalani_attachments : List ChalaniAttachment
  pub signatories : List ChalaniSignatory
  pub approvals : List ChalaniApproval
  pub templates : List ChalaniTemplate
  pub audit : List AuditTrail
  -- what `NOW()` and `time.Now()` read during the call
  pub now : Time
  -- the results that `gen_random_uuid()` has yet to give
  pub uuids : List Uuid
  -- one entry for each statement to come: does it fail for a reason outside the tables?
  pub outages : List Bool

pub data Result (A : Type 0) : Type 0 where
  ok : A → Result A
  err : Error → Result A

abbrev pub Exec : Type 0 → Type 0
Exec A = Db → Result A × Db

module _ {A : Type 0} where
  unfoldable pub pure : A → Exec A
  pure a db = (ok a, db)

  unfoldable pub raise : Error → Exec A
  raise e db = (err e, db)

  unfoldable pub gets : (Db → A) → Exec A
  gets f db = (ok (f db), db)

module _ {A B : Type 0} where
  abbrev pub continue : Result A → (A → Exec B) → Exec B
  continue (ok a) f db = f a db
  continue (err e) f db = (err e, db)

  infixl 10 ◌>>=◌ ◌>>◌
  -- Opening this opens `pure`, `raise` and `gets` too.
  unfoldable pub ◌>>=◌ : Exec A → (A → Exec B) → Exec B
  unfolding pure raise gets
  ◌>>=◌ m f db = let (r, db') = m db in continue r f db'

  abbrev pub ◌>>◌ : Exec A → Exec B → Exec B
  m >> n = m >>= λ _. n

module _ {A : Type 0} where
  abbrev pub relabel : (Error → Error) → Result A → Result A
  relabel f (ok a) = ok a
  relabel f (err e) = err (f e)

  -- `if err != nil { return nil, … }`
  unfoldable pub on_error : (Error → Error) → Exec A → Exec A
  on_error f m db = let (r, db') = m db in (relabel f r, db')

  -- `_, _ = f()`
  unfoldable pub ignore : Exec A → Exec (Unit {0})
  ignore m db = let (r, db') = m db in (ok tt, db')

abbrev pub guard : Bool → Error → Exec (Unit {0})
guard b e db = if b then (ok tt, db) else (err e, db)

module _ {A : Type 0} where
  abbrev pub on_schedule : List Bool → Exec A → Exec A
  on_schedule [] m db = m db
  on_schedule (true ∷ later) m db = (err (database unavailable), record db { outages = later })
  on_schedule (false ∷ later) m db = m (record db { outages = later })

  -- One statement: it fails as the schedule says, with nothing written, or it runs.
  unfoldable pub statement : Exec A → Exec A
  statement m db = on_schedule db.outages m db
