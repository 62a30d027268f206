-- ===== src/Grpc/Chalani/History.antt =====
-- What a run of the chalani service (services/darta-chalani/internal/grpc/chalani_server.go) keeps.
use mathlib.Core.Path.{subst}
use e_palika.Prelude.{
  ℕ, [], ◌≡◌, refl, sym, ap, ◌∙◌, inl, inr, Bool, true, String, Option, none, some, List, ◌==◌,
  nat_eq, nat_beq_iff, Bool-cases, Option-cases, All,
}
use e_palika.Prelude.Int.{ℤ, pos, negsuc}
use e_palika.Domain.Context.{Ctx}
use e_palika.Store.Types.{Uuid, Chalani, null_time}
use e_palika.Store.Exec.{Db, Result, ok, raise, gets, ◌>>=◌, on_error}
use e_palika.Store.Steady.{
  StoreOrder, Keeps, ahead, pure-Keeps, bind-Keeps, on_error-Keeps, statement-Keeps,
}
use e_palika.Store.Table.{find, key-find, find-replace_self, find-replace_ne, All-replace}
use e_palika.Store.Checks.{chalani_checks}
use e_palika.Store.Listing.{page}
use e_palika.Store.Chalanis.{chalani_key, with_status}
use e_palika.Store.Chalanis.Laws.{missed, read, get_chalani_simple-Read, status_store}
use e_palika.Store.Chalanis.Listing
use e_palika.Proto.Messages.{ChalaniFilter, PaginationInput}
use e_palika.Grpc.Packages.{Packages}
use e_palika.Grpc.Chalani.Lists
use e_palika.Grpc.Chalani.Unimplemented
use e_palika.Grpc.Chalani.Outcomes.{
  StatusOutcome, malformed, not_written, set, statuses-outcome, reserve_chalani_number-IsUnnumbered,
}
use e_palika.Grpc.Chalani.Refusals.{create_chalani-IsRefused}
use e_palika.Grpc.Chalani.EmptyLists.{IsSound, nothing, list_chalanis-nothing}
use e_palika.Grpc.Chalani.Requests.{
  Request, Serves, after, create, get, submit, approve, reserve_number, dispatch, mark_delivered,
  void, list, unimplemented, health, none, pass, call,
}

-- The row without its status and the instant of its last change.
abbrev pub frozen : Chalani → Chalani
frozen c = record c { status = ""; updated_at = null_time }

abbrev frozen_row : Option Chalani → Option Chalani
frozen_row none = none
frozen_row (some c) = some (frozen c)

-- Under each identifier the same row as before, but for its status, or none as before.
pub record IsKept (a b : Db) : Type 0 where
  pub same :
      (id : Uuid)
      → frozen_row (find chalani_key id b.chalanis) ≡ frozen_row (find chalani_key id a.chalanis)

-- The same, and the rows satisfy their CHECK constraints if they did.
pub record IsSteady (a b : Db) : Type 0 where
  pub rows :
      (id : Uuid)
      → frozen_row (find chalani_key id b.chalanis) ≡ frozen_row (find chalani_key id a.chalanis)
  pub sound : IsSound a → IsSound b

pub same_chalanis : (a b : Db) → b.chalanis ≡ a.chalanis → IsSteady a b
same_chalanis a b e = record {
  rows = λ id. ap (λ rows. frozen_row (find chalani_key id rows)) e;
  sound = λ s. record {
    checked = subst (λ rows. All (λ c. chalani_checks c ≡ true) rows) (sym e) s.checked;
  };
}

pub both_steps : {a b c : Db} → IsSteady a b → IsSteady b c → IsSteady a c
both_steps x y = record { rows = λ id. y.rows id ∙ x.rows id; sound = λ s. y.sound (x.sound s) }

-- Another status for a row that is found.
status-IsSteady :
    (db : Db) (id : Uuid) (status : String) (c : Chalani) (s : List Bool)
    → find chalani_key id db.chalanis ≡ some c
    → chalani_checks (with_status db status c) ≡ true
    → IsSteady db (status_store db status c s)
status-IsSteady db id status c s found good = record {
  rows = λ k.
      let new = with_status db status c in
      let at_id : c.id ≡ id = key-find chalani_key db.chalanis id found in
      elim (Bool-cases (c.id == k)) [
        | inl here ↦
            let e : c.id ≡ k = (nat_beq_iff c.id k).0 here in
            let was : find chalani_key k db.chalanis ≡ some c =
              ap (λ i. find chalani_key i db.chalanis) (sym e ∙ at_id) ∙ found in
            ap frozen_row (find-replace_self chalani_key db.chalanis new k e was)
            ∙ sym (ap frozen_row was)
        | inr other ↦ ap frozen_row (
            find-replace_ne chalani_key db.chalanis new k
              (λ q. cc ((nat_beq_iff c.id k).1 q, other)))
      ];
  sound = λ a. record {
    checked = All-replace chalani_key _ db.chalanis (with_status db status c) a.checked good;
  };
}

-- The order of the history.
unfoldable pub keeping : StoreOrder
keeping = record {
  rel = IsSteady;
  trans = λ a b c x y. both_steps x y;
  ticked = λ db t. same_chalanis db _ refl;
  drawn = λ db ids out. same_chalanis db (ahead db ids out) refl;
}

StatusOutcome-IsSteady :
    {p : Packages} {text status : String} {db : Db} {r : Result _ × Db}
    → StatusOutcome p text status db r
    → IsSteady db r.1
StatusOutcome-IsSteady {db = db} (malformed bad shape) = rw shape (same_chalanis db db refl)
StatusOutcome-IsSteady {db = db} (not_written e s shape) = rw shape (same_chalanis db _ refl)
StatusOutcome-IsSteady {status = status} {db = db} (set id c s given found good shape) =
    rw shape (status-IsSteady db id status c s found good)

module _ (p : Packages) where
  get_chalani-Keeps : (text : String) → Keeps keeping (Lists.get_chalani p text)
  unfolding Lists.get_chalani keeping ◌>>=◌ on_error
  get_chalani-Keeps text = record {
    at = λ db. elim (Option-cases (p.parse_uuid text)) [
      | inl bad ↦ rw bad (same_chalanis db db refl)
      | inr (id, given) ↦ elim (get_chalani_simple-Read id db) [
        | missed e s shape ↦ rw (given, shape) (same_chalanis db _ refl)
        | read c s found shape ↦ rw (given, shape) (same_chalanis db _ refl)
      ]
    ];
  }

  page-rel :
      {R : Type 0} (limit offset : ℤ) (rows : List R) (db : Db)
      → IsSteady db (page limit offset rows db).1
  page-rel (pos l) (pos o) rows db = same_chalanis db db refl
  page-rel (pos l) (negsuc o) rows db = same_chalanis db db refl
  page-rel (negsuc l) offset rows db = same_chalanis db db refl

  query-Keeps : (params : _) → Keeps keeping (Listing.list_chalanis p.ilike params)
  unfolding Listing.list_chalanis keeping
  query-Keeps params = statement-Keeps keeping _ (λ db. page-rel params.limit params.offset _ db)

  list_chalanis-Keeps :
      (ctx : Ctx) (filter : Option ChalaniFilter) (g : Option PaginationInput)
      → Keeps keeping (Lists.list_chalanis p ctx filter g)
  unfolding Lists.list_chalanis
  list_chalanis-Keeps ctx filter g =
      bind-Keeps keeping _ _ (on_error-Keeps keeping _ _ (query-Keeps _))
        (λ rows. pure-Keeps keeping _)

  after-IsSteady : (ctx : Ctx) (r : Request) (db : Db) → IsSteady db (after p ctx r db)
  unfolding after keeping Unimplemented.health_check raise gets
  after-IsSteady ctx (create i) db =
      same_chalanis db _ (create_chalani-IsRefused p ctx i db).kept.chalanis
  after-IsSteady ctx (get id) db = (get_chalani-Keeps id).at db
  after-IsSteady ctx (submit id) db = StatusOutcome-IsSteady (statuses-outcome p id db).0
  after-IsSteady ctx (approve id) db = StatusOutcome-IsSteady (statuses-outcome p id db).1
  after-IsSteady ctx (dispatch id) db = StatusOutcome-IsSteady (statuses-outcome p id db).2
  after-IsSteady ctx (mark_delivered id) db = StatusOutcome-IsSteady (statuses-outcome p id db).3
  after-IsSteady ctx (void id) db = StatusOutcome-IsSteady (statuses-outcome p id db).4
  after-IsSteady ctx (reserve_number id) db =
      same_chalanis db _
        (ap (λ (x : Db). x.chalanis) (reserve_chalani_number-IsUnnumbered p ctx id db).kept)
  after-IsSteady ctx (list filter g) db = (list_chalanis-Keeps ctx filter g).at db
  after-IsSteady ctx unimplemented db = same_chalanis db _ refl
  after-IsSteady ctx health db = same_chalanis db _ refl

  run-IsSteady : {a b : Db} → Serves p a b → IsSteady a b
  run-IsSteady (none a) = same_chalanis a a refl
  run-IsSteady (pass t ids out a b rest) =
      both_steps (same_chalanis a (ahead (record a { now = t }) ids out) refl) (run-IsSteady rest)
  run-IsSteady (call ctx a b r rest) = both_steps (after-IsSteady ctx r a) (run-IsSteady rest)

  -- After any sequence of calls of the chalani service, whatever they were and whichever statements failed,
  -- there is under each identifier the chalani that was there, with nothing changed but its status and the
  -- instant of its last change, or none if there was none: no call creates a chalani or numbers one.
  pub Serves-IsKept : (a b : Db) → Serves p a b → IsKept a b
  Serves-IsKept a b s = record { same = (run-IsSteady s).rows }

  -- If the chalanis satisfy their CHECK constraints, then after any sequence of calls of the chalani
  -- service, if then no statement fails and the offset is not negative, ListChalanis answers with an empty
  -- list and the total 0, for every filter and every caller: the scope of the filter is passed on as the
  -- enumeration's text, also when there is no filter, and no row has such a scope.
  pub Serves-nothing :
      (a b : Db)
      → Serves p a b
      → IsSound a
      → b.outages ≡ []
      → (ctx : Ctx) (filter : Option ChalaniFilter) (g : Option PaginationInput) (o : ℕ)
      → Lists.offset_of g ≡ pos o
      → Lists.list_chalanis p ctx filter g b ≡ (ok nothing, b)
  Serves-nothing a b s sound on_time ctx filter g o given =
      list_chalanis-nothing p ctx b ((run-IsSteady s).sound sound) on_time filter g o given
