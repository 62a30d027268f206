-- ===== src/Store/Steady.antt =====
-- Relations between the store before a call and the store after it that every sequence of statements
-- keeps if each statement does.
use e_palika.Prelude.{Bool, true, false, Option, none, some, List, [], ◌∷◌}
use e_palika.Domain.Errors.{Error}
use e_palika.Store.Types.{Uuid, Time}
use e_palika.Store.Exec.{
  Db, Result, ok, err, Exec, pure, raise, gets, continue, ◌>>=◌, on_error, ignore, guard,
  on_schedule, statement,
}
use e_palika.Store.Dartas.{draw_uuid, row_or_none}

-- The store with a new schedule and new identifiers to come.
abbrev pub ahead : Db → List Uuid → List Bool → Db
ahead db ids out = record db { uuids = ids; outages = out }

-- An order on stores to which the clock, the schedule and the identifiers to come do not matter.
pub record StoreOrder : Type 1 where
  pub rel : Db → Db → Type 0
  pub trans : (a b c : Db) → rel a b → rel b c → rel a c
  pub drawn : (db : Db) (ids : List Uuid) (out : List Bool) → rel db (ahead db ids out)
  pub ticked : (db : Db) (t : Time) → rel db (record db { now = t })

-- Whatever the store, the call leaves one that the order allows.
pub record Keeps (o : StoreOrder) {A : Type 0} (m : Exec A) : Type 0 where
  pub at : (db : Db) → o.rel db (m db).1

module _ (o : StoreOrder) where
  module _ {A : Type 0} where
    pub pure-Keeps : (a : A) → Keeps o (pure a)
    unfolding pure
    pure-Keeps a = record { at = λ db. o.drawn db db.uuids db.outages }

    pub raise-Keeps : (e : Error) → Keeps o (raise {A = A} e)
    unfolding raise
    raise-Keeps e = record { at = λ db. o.drawn db db.uuids db.outages }

    pub gets-Keeps : (f : Db → A) → Keeps o (gets f)
    unfolding gets
    gets-Keeps f = record { at = λ db. o.drawn db db.uuids db.outages }

    pub row_or_none-rel : (r : Option A) (db : Db) → o.rel db (row_or_none r db).1
    row_or_none-rel none db = o.drawn db db.uuids db.outages
    row_or_none-rel (some r) db = o.drawn db db.uuids db.outages

  module _ {A B : Type 0} where
    continue-rel :
        (f : A → Exec B)
        → ((a : A) → Keeps o (f a))
        → (r : Result A) (db : Db) → o.rel db (continue r f db).1
    continue-rel f k (ok a) db = (k a).at db
    continue-rel f k (err e) db = o.drawn db db.uuids db.outages

    pub bind-Keeps :
        (m : Exec A) (f : A → Exec B) → Keeps o m → ((a : A) → Keeps o (f a)) → Keeps o (m >>= f)
    unfolding ◌>>=◌
    bind-Keeps m f km kf = record {
      at = λ db. o.trans db (m db).1 _ (km.at db) (continue-rel f kf (m db).0 (m db).1);
    }

  module _ {A : Type 0} where
    pub on_error-Keeps : (f : Error → Error) (m : Exec A) → Keeps o m → Keeps o (on_error f m)
    unfolding on_error
    on_error-Keeps f m k = record { at = λ db. k.at db }

    pub ignore-Keeps : (m : Exec A) → Keeps o m → Keeps o (ignore m)
    unfolding ignore
    ignore-Keeps m k = record { at = λ db. k.at db }

    on_schedule-rel :
        (m : Exec A)
        → ((db : Db) → o.rel db (m db).1)
        → (out : List Bool) (db : Db) → o.rel db (on_schedule out m db).1
    on_schedule-rel m k [] db = k db
    on_schedule-rel m k (true ∷ out) db = o.drawn db db.uuids out
    on_schedule-rel m k (false ∷ out) db =
        o.trans db (ahead db db.uuids out) _ (o.drawn db db.uuids out) (k (ahead db db.uuids out))

    pub statement-Keeps : (m : Exec A) → ((db : Db) → o.rel db (m db).1) → Keeps o (statement m)
    unfolding statement
    statement-Keeps m k = record { at = λ db. on_schedule-rel m k db.outages db }

    draw-rel :
        (k : Uuid → Exec A)
        → ((id : Uuid) (db : Db) → o.rel db (k id db).1)
        → (ids : List Uuid) (db : Db)
        → o.rel (ahead db ids db.outages) (draw_uuid k (ahead db ids db.outages)).1
    draw-rel k h [] db = o.drawn (ahead db [] db.outages) [] db.outages
    draw-rel k h (id ∷ ids) db =
        o.trans (ahead db (id ∷ ids) db.outages) (ahead db ids db.outages) _
          (o.drawn (ahead db (id ∷ ids) db.outages) ids db.outages) (h id (ahead db ids db.outages))

    pub draw_uuid-rel :
        (k : Uuid → Exec A)
        → ((id : Uuid) (db : Db) → o.rel db (k id db).1)
        → (db : Db) → o.rel db (draw_uuid k db).1
    draw_uuid-rel k h db = draw-rel k h db.uuids db

  pub guard-Keeps : (b : Bool) (e : Error) → Keeps o (guard b e)
  guard-Keeps true e = record { at = λ db. o.drawn db db.uuids db.outages }
  guard-Keeps false e = record { at = λ db. o.drawn db db.uuids db.outages }
