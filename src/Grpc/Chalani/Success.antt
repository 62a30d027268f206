-- ===== src/Grpc/Chalani/Success.antt =====
-- The handlers of services/darta-chalani/internal/grpc/chalani_server.go that set a status, when the
-- database does its part.
use e_palika.Prelude.{
  ◌≡◌, refl, Bool, true, false, ◌&&◌, ◌||◌, ◌==◌, arith, String, some, [], is_one_of, string_eq,
}
use e_palika.Store.Types.{Uuid, Chalani}
use e_palika.Store.Exec.{Db, Result, ok, ◌>>=◌, on_error, statement}
use e_palika.Store.Table.{find, clashes}
use e_palika.Store.Checks.{
  chalani_checks, chalani_collision, chalani_statuses, scopes, is_set, null_or_in,
  dispatch_channels,
}
use e_palika.Store.Chalanis.{chalani_key, with_status, update_chalani_status, put_chalani}
use e_palika.Store.Chalanis.Laws.{status_store}
use e_palika.Proto.Messages.{ChalaniMessage}
use e_palika.Grpc.Packages.{Packages}
use e_palika.Grpc.Chalani.{
  to_proto_chalani, set_status, submit_chalani, approve_chalani, dispatch_chalani,
  mark_chalani_delivered, void_chalani,
}

-- The status is set, and the answer is the new row.
abbrev pub IsUpdated : Packages → Db → Chalani → String → Result ChalaniMessage × Db → Type 0
IsUpdated p db c new_status r =
    r ≡ (ok (to_proto_chalani p (with_status db new_status c)), status_store db new_status c [])

with_third : (a b x y d : Bool) → a && b && x && d ≡ true → y ≡ true → a && b && y && d ≡ true
with_third a b x y d h k = ground (arith, h, k)

with_status-checks :
    (db : Db) (c : Chalani) (new_status : String)
    → chalani_checks c ≡ true
    → is_one_of new_status chalani_statuses ≡ true
    → chalani_checks (with_status db new_status c) ≡ true
unfolding chalani_checks
with_status-checks db c new_status sound listed =
    with_third (is_one_of c.scope scopes) (is_set c.ward_id || c.scope == "MUNICIPALITY")
      (is_one_of c.status chalani_statuses) (is_one_of new_status chalani_statuses)
      (null_or_in c.dispatch_channel dispatch_channels) sound listed

module _ (p : Packages) (text : String) (db : Db) (id : Uuid) (c : Chalani)
    (on_time : db.outages ≡ []) (given : p.parse_uuid text ≡ some id)
    (found : find chalani_key id db.chalanis ≡ some c)
    (alone : clashes chalani_key (chalani_collision c) c.id db.chalanis ≡ false) where
  set_status-IsUpdated :
      (new_status : String)
      → chalani_checks (with_status db new_status c) ≡ true
      → IsUpdated p db c new_status (set_status p text new_status db)
  unfolding set_status ◌>>=◌ on_error update_chalani_status statement put_chalani chalani_collision
  set_status-IsUpdated new_status good = rw (given, on_time, found, good, alone)

  -- If no statement fails for a reason outside the tables, then for the well-formed identifier of a
  -- stored row that passes the constraints of the table, SubmitChalani, ApproveChalani,
  -- DispatchChalani, MarkChalaniDelivered and VoidChalani each set their status and answer with the
  -- new row, whatever status the row had, a void or a closed one included.
  pub statuses-IsUpdated :
      chalani_checks c ≡ true
      → IsUpdated p db c "PENDING_REVIEW" (submit_chalani p text db)
        × IsUpdated p db c "APPROVED" (approve_chalani p text db)
        × IsUpdated p db c "DISPATCHED" (dispatch_chalani p text db)
        × IsUpdated p db c "DELIVERED" (mark_chalani_delivered p text db)
        × IsUpdated p db c "VOIDED" (void_chalani p text db)
  unfolding submit_chalani approve_chalani dispatch_chalani mark_chalani_delivered void_chalani
  statuses-IsUpdated sound = (
    set_status-IsUpdated _ (with_status-checks db c _ sound refl),
    set_status-IsUpdated _ (with_status-checks db c _ sound refl),
    set_status-IsUpdated _ (with_status-checks db c _ sound refl),
    set_status-IsUpdated _ (with_status-checks db c _ sound refl),
    set_status-IsUpdated _ (with_status-checks db c _ sound refl),
  )
