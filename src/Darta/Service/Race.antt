-- ===== src/Darta/Service/Race.antt =====
-- Two calls of `ReserveDartaNumber` of services/darta-chalani/internal/domain/darta_service.go that both
-- read the largest number before either of them writes its own.
use e_palika.Prelude.{
  ℕ, ◌<◌, lt→ltb, ◌≡◌, ◌≢◌, refl, sym, ap, ◌∙◌, ◌⊎◌, inl, inr, Bool, true, false, ◌&&◌, ◌||◌, none,
  some, List, [], ◌∷◌, ◌==◌, nat_eq, string_eq, Bool-cases, arith,
}
use e_palika.Prelude.Int.{half32}
use e_palika.Domain.Context.{UserContext}
use e_palika.Store.Types.{Uuid, Darta}
use e_palika.Store.Exec.{Db, Result, ok, ◌>>=◌, on_error, ignore}
use e_palika.Store.Table.{find, clashes, find-replace_ne}
use e_palika.Store.Checks.{darta_checks, darta_collision, sql_eq_number}
use e_palika.Store.Dartas
use e_palika.Store.Dartas.{
  max_number, in_series, darta_key, stamped, get_next_darta_number, update_darta, put_darta,
}
use e_palika.Store.Dartas.Laws.{later}
use e_palika.Store.Dartas.Numbers.{next_number}
use e_palika.Store.Distinct.{Series, series}
use e_palika.Darta.Service.{store_number}
use e_palika.Darta.Service.Reservation.{
  NumberOutcome, stored_row, unnumbered, numbered_as, numbered, reserved_row, next_for,
  store_number-outcome,
}

clashes-none :
    (p : Darta → Bool) (id : Uuid) (rows : List Darta)
    → ((r : Darta) → p r ≡ false)
    → clashes darta_key p id rows ≡ false
unfolding clashes
clashes-none p id [] h = refl
clashes-none p id (r ∷ rows) h = elim (Bool-cases (r.id == id)) [
  | inl same ↦ rw same (clashes-none p id rows h)
  | inr other ↦ rw (other, h r) (clashes-none p id rows h)
]

third_false : (a b d : Bool) → (a && b && false && d) || false ≡ false
third_false a b d = ground arith

-- A row with neither a ward nor a key collides with none, whatever its number.
free_of_wards :
    (a b : Darta) → a.ward_id ≡ none → a.idempotency_key ≡ none → darta_collision a b ≡ false
unfolding darta_collision
free_of_wards a b ward key =
    rw (ward, key)
      (third_false (a.fiscal_year_id == b.fiscal_year_id) (a.scope == b.scope)
        (sql_eq_number a.darta_number b.darta_number))

module _ (user : UserContext) (db : Db) (d : Darta) (n : ℕ)
    (found : find darta_key d.id db.dartas ≡ some d) (checked : darta_checks d ≡ true)
    (ward : d.ward_id ≡ none) (key : d.idempotency_key ≡ none) where
  -- Without an outage, any number is accepted for a darta of the municipality without a key.
  store_number-accepts : (store_number user d d.id n (later db [])).0 ≡ ok (numbered db d n)
  unfolding store_number Dartas.update_darta_number update_darta put_darta ◌>>=◌ on_error ignore
      darta_checks
  store_number-accepts =
      rw
        (
          found,
          checked,
          clashes-none (darta_collision (numbered db d n)) d.id db.dartas
              (λ r. free_of_wards (numbered db d n) r ward key),
        )
        refl

module _ (user : UserContext) (db : Db) (d other : Darta) (n : ℕ) where
  -- The writing of a number leaves the other rows.
  other-kept :
      {before : List Bool} {r : Result Darta × Db}
      → n ≡ next_for db d
      → d.id ≢ other.id
      → find darta_key other.id db.dartas ≡ some other
      → NumberOutcome user d.id d db before r
      → find darta_key other.id r.1.dartas ≡ some other
  other-kept e ne found (unnumbered text x s shape) =
      ap (λ q. find darta_key other.id q.1.dartas) shape ∙ found
  other-kept e ne found (numbered_as final extra ids s fits stored entry shape) =
      ap (λ q. find darta_key other.id q.1.dartas) shape
      ∙ find-replace_ne darta_key db.dartas final other.id
          (λ q. ne (sym (key (stored_row stored)) ∙ q))
      ∙ found
    where
      key :
          (final ≡ reserved_row db d (next_for db d)) ⊎ (final ≡ numbered db d (next_for db d))
          → final.id ≡ d.id
      key (inl same) = ap (λ (x : Darta). x.id) same
      key (inr same) = ap (λ (x : Darta). x.id) same

abbrev next_in : Db → Series → ℕ
next_in db s = next_number db s.0 s.1 s.2 s.3

module _ (db : Db) (d : Darta) where
  get_next-read :
      (n : ℕ)
      → next_for db d ≡ n
      → n < half32
      → get_next_darta_number d.fiscal_year_id d.scope d.ward_id d.tenant_id (later db [])
        ≡ (ok n, later db [])
  unfolding get_next_darta_number
  get_next-read n e fits = rw (e, lt→ltb n half32 fits) refl

-- Two dartas of the municipality in one series, neither with an idempotency key.
pub record ArePeers (db : Db) (a b : Darta) : Type 0 where
  pub found_a : find darta_key a.id db.dartas ≡ some a
  pub found_b : find darta_key b.id db.dartas ≡ some b
  pub apart : a.id ≢ b.id
  pub together : series a ≡ series b
  pub checked_a : darta_checks a ≡ true
  pub checked_b : darta_checks b ≡ true
  pub ward_a : a.ward_id ≡ none
  pub key_a : a.idempotency_key ≡ none
  pub key_b : b.idempotency_key ≡ none

module _ (user_a user_b : UserContext) (db : Db) (a b : Darta) (peers : ArePeers db a b)
    (fits : next_for db a < half32) where
  abbrev n : ℕ
  n = next_for db a

  abbrev quiet : Db
  quiet = later db []

  -- The store that the first writer leaves.
  abbrev after : Db
  after = (store_number user_a a a.id n quiet).1

  -- Of two dartas of the municipality in one series, without idempotency keys, if both calls read the largest
  -- number before either writes, and no statement fails, then both read the same next number and both
  -- writes succeed with it: no constraint of the database tells the two rows apart.
  pub race-collides :
      (get_next_darta_number a.fiscal_year_id a.scope a.ward_id a.tenant_id quiet ≡ (ok n, quiet))
      × (get_next_darta_number b.fiscal_year_id b.scope b.ward_id b.tenant_id quiet ≡ (ok n, quiet))
      × ((store_number user_a a a.id n quiet).0 ≡ ok (numbered db a n))
      × ((store_number user_b b b.id n (later after [])).0 ≡ ok (numbered after b n))
  race-collides = (
    get_next-read db a n refl fits,
    get_next-read db b n (sym (ap (next_in db) peers.together)) fits,
    store_number-accepts user_a db a n peers.found_a peers.checked_a peers.ward_a peers.key_a,
    store_number-accepts user_b after b n
        (other-kept user_a db a b n refl peers.apart peers.found_b
          (store_number-outcome user_a a.id a db peers.found_a [] fits))
        peers.checked_b (sym (ap (λ (s : Series). s.2) peers.together) ∙ peers.ward_a) peers.key_b,
  )
