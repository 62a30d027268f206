-- ===== src/Grpc/Darta/History.antt =====
-- What a run of the darta service (services/darta-chalani/internal/grpc/darta_server.go) keeps.
use e_palika.Prelude.{◌≡◌, none, some}
use e_palika.Store.Types.{Uuid, Darta}
use e_palika.Store.Exec.{Db}
use e_palika.Store.Table.{find}
use e_palika.Store.Dartas.{darta_key}
use e_palika.Store.Steady.{StoreOrder, ahead}
use e_palika.Store.History.{IsLater, IsGrown, IsRetained, history}
use e_palika.Darta.Service.Steady.{Rules}
use e_palika.Darta.Service.History.{history_rules}
use e_palika.Store.Valid.{IsSound, soundness}
use e_palika.Darta.Service.Soundness.{sound_rules}
use e_palika.Store.Distinct.{HasDistinctNumbers}
use e_palika.Store.Distinct.Steps.{distinctness}
use e_palika.Darta.Service.Distinct.{distinct_rules}
use e_palika.Store.Linked.{AreLinked, linkage}
use e_palika.Darta.Service.Linkage.{linkage_rules}
use e_palika.Grpc.Packages.{Packages}
use e_palika.Grpc.Darta.Requests.{Serves, none, pass, call}
use e_palika.Grpc.Darta.Steady.{serve-Keeps}

module _ (p : Packages) where
  serves-rel : (o : StoreOrder) → Rules o → {a b : Db} → Serves p a b → o.rel a b
  serves-rel o rules (none a) = o.drawn a a.uuids a.outages
  serves-rel o rules (pass t ids out a b rest) =
      o.trans a (record a { now = t }) b (o.ticked a t)
        (o.trans (record a { now = t }) (ahead (record a { now = t }) ids out) b
          (o.drawn (record a { now = t }) ids out) (serves-rel o rules rest))
  serves-rel o rules (call ctx a b r rest) =
      o.trans a _ b ((serve-Keeps o rules p ctx r).at a) (serves-rel o rules rest)

  Serves-IsLater : {a b : Db} → Serves p a b → IsLater a b
  unfolding history
  Serves-IsLater s = serves-rel history history_rules s

  -- However many calls the service has answered, whatever they were, and whichever statements failed,
  -- each darta of the first store is still there, its identifying columns are as they were, and if it
  -- had a number then it has the same number with the same text.
  pub Serves-IsRetained :
      (a b : Db) (id : Uuid) (d : Darta)
      → Serves p a b
      → find darta_key id a.dartas ≡ some d
      → IsRetained d b
  Serves-IsRetained a b id d s found = (Serves-IsLater s).rows id d found

  -- However many calls the service has answered, the audit trail starts with the entries that it had.
  pub Serves-IsGrown : (a b : Db) → Serves p a b → IsGrown a.audit b.audit
  Serves-IsGrown a b s = (Serves-IsLater s).trail

  -- If the rows of `dartas` satisfy their CHECK constraints, they still do after any sequence of calls.
  pub Serves-IsSound : (a b : Db) → Serves p a b → IsSound a → IsSound b
  unfolding soundness
  Serves-IsSound a b s = serves-rel soundness sound_rules s

  -- If no two stored dartas of one fiscal year, scope, ward and tenant have the same number, then none have
  -- it after any sequence of calls, whatever they were and whichever statements failed.
  pub Serves-HasDistinctNumbers :
      (a b : Db) → Serves p a b → HasDistinctNumbers a → HasDistinctNumbers b
  unfolding distinctness
  Serves-HasDistinctNumbers a b s = serves-rel distinctness distinct_rules s

  -- If each stored darta refers to an applicant and to a document that are stored, then each does after any
  -- sequence of calls, whatever they were and whichever statements failed.
  pub Serves-AreLinked : (a b : Db) → Serves p a b → AreLinked a → AreLinked b
  unfolding linkage
  Serves-AreLinked a b s = serves-rel linkage linkage_rules s
