-- ===== src/Grpc/Chalani/Requests.antt =====
-- services/darta-chalani/internal/grpc/chalani_server.go: the calls of the chalani service, and the store
-- that the handler of each leaves.
use e_palika.Prelude.{Bool, String, Option, List}
use e_palika.Domain.Context.{Ctx}
use e_palika.Store.Types.{Time, Uuid}
use e_palika.Store.Exec.{Db}
use e_palika.Store.Steady.{ahead}
use e_palika.Proto.Messages.{ChalaniMessage, CreateChalaniInput, ChalaniFilter, PaginationInput}
use e_palika.Grpc.Packages.{Packages}
use e_palika.Grpc.Chalani
use e_palika.Grpc.Chalani.Creation
use e_palika.Grpc.Chalani.Lists
use e_palika.Grpc.Chalani.Unimplemented

pub data Request : Type 0 where
  create : CreateChalaniInput → Request
  get submit approve reserve_number dispatch mark_delivered void : String → Request
  list : Option ChalaniFilter → Option PaginationInput → Request
  -- one of the sixteen calls that are not implemented
  unimplemented : Request
  health : Request

module _ (p : Packages) (ctx : Ctx) where
  unfoldable pub after : Request → Db → Db
  after (create i) db = (Creation.create_chalani p ctx i db).1
  after (get id) db = (Lists.get_chalani p id db).1
  after (submit id) db = (Chalani.submit_chalani p id db).1
  after (approve id) db = (Chalani.approve_chalani p id db).1
  after (reserve_number id) db = (Chalani.reserve_chalani_number p ctx id db).1
  after (dispatch id) db = (Chalani.dispatch_chalani p id db).1
  after (mark_delivered id) db = (Chalani.mark_chalani_delivered p id db).1
  after (void id) db = (Chalani.void_chalani p id db).1
  after (list filter g) db = (Lists.list_chalanis p ctx filter g db).1
  after unimplemented db = (Unimplemented.not_implemented {A = ChalaniMessage} db).1
  after health db = (Unimplemented.health_check db).1

-- The stores that a sequence of calls leads to. Between two calls time passes, and the next one meets
-- identifiers and outages of its own.
pub data Serves (p : Packages) : Db → Db → Type 0 where
  none : (a : Db) → Serves p a a
  pass :
      (t : Time) (ids : List Uuid) (out : List Bool) (a b : Db)
      → Serves p (ahead (record a { now = t }) ids out) b
      → Serves p a b
  call : (ctx : Ctx) (a b : Db) (r : Request) → Serves p (after p ctx r a) b → Serves p a b
