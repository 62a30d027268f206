-- ===== src/Darta/Service/Idempotency.antt =====
-- The idempotency key of `CreateDarta` of services/darta-chalani/internal/domain/darta_service.go.
use mathlib.Core.Path.{subst}
use e_palika.Prelude.{
  ◌≡◌, refl, sym, ap, ◌∙◌, inl, inr, Bool, true, false, ◌&&◌, ◌||◌, String, Option, none, some,
  List, [], ◌∷◌, ◌++◌, any, arith, ◌==◌, string_eq, nat_eq, eq_iff, Bool-cases,
}
use e_palika.Domain.Context.{Ctx, get_user_context}
use e_palika.Store.Types.{uuid_nil, Darta}
use e_palika.Store.Exec.{Db, ok, Exec, ◌>>=◌, pure, on_schedule}
use e_palika.Store.Checks.{darta_collision, sql_eq}
use e_palika.Store.Dartas.{with_key, row_or_none, get_darta_by_idempotency_key}
use e_palika.Darta.Service.{
  CreateDartaInput, create_darta, existing_darta, validate_create_darta_input,
  string_ptr_if_not_empty,
}
use e_palika.Darta.Service.Submission.{created_row, failed, existing, created, create_darta-outcome}

right_false : (a b : Bool) → a || b ≡ false → b ≡ false
right_false true b h = cc
right_false false b h = h

left_false : (a b : Bool) → a || b ≡ false → a ≡ false
left_false true b h = cc
left_false false b h = refl

sql_eq-swap :
    (key : String) (column : Option String)
    → sql_eq (some key) column ≡ false
    → sql_eq column (some key) ≡ false
sql_eq-swap key none h = refl
sql_eq-swap key (some k) h = elim (Bool-cases (k == key)) [
  | inr other ↦ other
  | inl same ↦ let e : k ≡ key = (eq_iff k key).0 same in ground (arith, eq_iff key k, e)
]

-- A row that collides with none has a key that no row has.
collision-key :
    (d row : Darta) (key : String)
    → d.idempotency_key ≡ some key
    → darta_collision d row ≡ false
    → sql_eq row.idempotency_key (some key) ≡ false
unfolding darta_collision
collision-key d row key e h =
    sql_eq-swap key row.idempotency_key
      (subst (λ k. sql_eq k row.idempotency_key ≡ false) e (right_false _ _ h))

abbrev has_key : String → String → Darta → Bool
has_key key tenant d = sql_eq d.idempotency_key (some key) && d.tenant_id == tenant

with_key-last :
    (d : Darta) (key tenant : String) (rows : List Darta)
    → d.idempotency_key ≡ some key
    → d.tenant_id ≡ tenant
    → any (darta_collision d) rows ≡ false
    → with_key (some key) tenant (rows ++ d ∷ []) ≡ some d
with_key-last d key tenant [] e t h =
    let same : (key == key) ≡ true = (eq_iff key key).1 refl in
    let mine : (d.tenant_id == tenant) ≡ true = (eq_iff d.tenant_id tenant).1 t in
    let hit : has_key key tenant d ≡ true =
      subst (λ k. (sql_eq k (some key) && d.tenant_id == tenant) ≡ true) (sym e)
        (rw (same, mine) refl) in
    rw hit refl
with_key-last d key tenant (row ∷ rows) e t h =
    let other : sql_eq row.idempotency_key (some key) ≡ false =
      collision-key d row key e (left_false _ _ h) in
    rw other (with_key-last d key tenant rows e t (right_false _ _ h))

pub on_schedule-quiet :
    {A : Type 0} (s : List Bool) (m : Exec A) (db : Db) → s ≡ [] → on_schedule s m db ≡ m db
on_schedule-quiet [] m db h = refl
on_schedule-quiet (b ∷ s) m db h = cc

module _ (ctx : Ctx) (i : CreateDartaInput) (given : (i.idempotency_key == "") ≡ false) where
  abbrev Keyed : Db → Darta → Type 0
  Keyed db d = with_key (some i.idempotency_key) (get_user_context ctx).tenant_id db.dartas ≡ some d

  key-given : string_ptr_if_not_empty i.idempotency_key ≡ some i.idempotency_key
  key-given = rw given refl

  -- What a successful call leaves under its key.
  record IsKept (d : Darta) (after : Db) : Type 0 where
    valid : validate_create_darta_input i ≡ none
    keyed : Keyed after d

  create_darta-IsKept :
      (db : Db) (d : Darta) → (create_darta ctx i db).0 ≡ ok d → IsKept d (create_darta ctx i db).1
  create_darta-IsKept db d done = elim (create_darta-outcome ctx i db) [
    | failed e bad same ↦ cc (bad, done)
    | existing d' valid given' found good same ↦
        let e : d' ≡ d = cc (good, done) in
        record {
          valid = valid;
          keyed =
              ap (with_key (some i.idempotency_key) (get_user_context ctx).tenant_id) same
              ∙ found
              ∙ ap (λ x. some x) e;
        }
    | created id valid alone good rows ↦
        let e : created_row (get_user_context ctx) i db id ≡ d = cc (good, done) in
        record {
          valid = valid;
          keyed =
              ap (with_key (some i.idempotency_key) (get_user_context ctx).tenant_id) rows
              ∙ with_key-last (created_row (get_user_context ctx) i db id) i.idempotency_key
                  (get_user_context ctx).tenant_id db.dartas key-given refl alone
              ∙ ap (λ x. some x) e;
        }
  ]

module _ (ctx again : Ctx) (i : CreateDartaInput) (given : (i.idempotency_key == "") ≡ false)
    (tenant : (get_user_context again).tenant_id ≡ (get_user_context ctx).tenant_id) where
  repeated :
      (db : Db) (d : Darta)
      → db.outages ≡ []
      → (d.id == uuid_nil) ≡ false
      → IsKept again i given d db
      → create_darta again i db ≡ (ok d, db)
  unfolding create_darta existing_darta get_darta_by_idempotency_key ◌>>=◌ pure
  repeated db d quiet real kept =
      rw
        (
          kept.valid,
          given,
          on_schedule-quiet db.outages
              (λ db'.
                row_or_none
                  (with_key (some i.idempotency_key) (get_user_context again).tenant_id db'.dartas)
                  db')
              db quiet,
          kept.keyed,
          real,
        )
        refl

  -- With a key that is not empty, after a call of `CreateDarta` that returned a darta, each later call with
  -- the same input, by any caller of the same tenant, returns the same darta and leaves the store as it
  -- is, provided that the rows of dartas are as the first call left them, no statement fails, and the
  -- darta's identifier is not zero.
  pub create_darta_twice :
      (db later : Db) (d : Darta)
      → (create_darta ctx i db).0 ≡ ok d
      → later.dartas ≡ (create_darta ctx i db).1.dartas
      → later.outages ≡ []
      → (d.id == uuid_nil) ≡ false
      → create_darta again i later ≡ (ok d, later)
  create_darta_twice db later d done same quiet real =
      let kept = create_darta-IsKept ctx i given db d done in
      repeated later d quiet real (record {
        valid = kept.valid;
        keyed =
            ap (λ t. with_key (some i.idempotency_key) t later.dartas) tenant
            ∙ ap (with_key (some i.idempotency_key) (get_user_context ctx).tenant_id) same
            ∙ kept.keyed;
      })
