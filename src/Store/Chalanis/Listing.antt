-- ===== src/Store/Chalanis/Listing.antt =====
-- services/darta-chalani/internal/db/chalanis.sql.go: the rows joined with their recipients, the lists,
-- the counts and the statistics.
use e_palika.Prelude.{
  ℕ, Bool, true, false, ◌&&◌, String, Option, none, some, List, [], ◌∷◌, ◌==◌, nat_eq, string_eq,
  select, find_first, length, map, is_one_of,
}
use e_palika.Prelude.Int.{ℤ}
use e_palika.Domain.Errors.{plain}
use e_palika.Store.Types.{Uuid, Timestamptz, Chalani, Recipient}
use e_palika.Store.Exec.{Db, ok, err, Exec, statement}
use e_palika.Store.Table.{find}
use e_palika.Store.Checks.{sql_eq, sql_eq_number}
use e_palika.Store.Dartas.{row_or_none, same_ward}
use e_palika.Store.Creation.{recipient_key}
use e_palika.Store.Listing.{
  matches, from_matches, to_matches, search_matches, later_time, sort, page,
}
use e_palika.Store.Listing.Statistics.{tally}

-- A row of `chalanis` joined with its recipient.
pub record ChalaniRow : Type 0 where
  pub chalani : Chalani
  pub recipient : Recipient

abbrev pub with_recipient : Chalani → Option Recipient → List ChalaniRow → List ChalaniRow
with_recipient c none rows = rows
with_recipient c (some r) rows = record { chalani = c; recipient = r } ∷ rows

unfoldable pub join_recipients : Db → List Chalani → List ChalaniRow
join_recipients db [] = []
join_recipients db (c ∷ cs) =
    with_recipient c (find recipient_key c.recipient_id db.recipients) (join_recipients db cs)

-- The first of the joined rows that pass a test.
abbrev first_row : (Chalani → Bool) → Exec ChalaniRow
first_row test db =
    row_or_none (find_first (λ r. test r.chalani) (join_recipients db db.chalanis)) db

unfoldable pub get_chalani : Uuid → Exec ChalaniRow
unfolding statement join_recipients
get_chalani id = statement (first_row (λ c. c.id == id))

abbrev has_number : Option ℕ → String → String → Option String → Chalani → Bool
has_number number fiscal_year scope ward c =
    sql_eq_number c.chalani_number number
    && c.fiscal_year_id == fiscal_year
    && c.scope == scope
    && same_ward c.ward_id ward

unfoldable pub get_chalani_by_number : Option ℕ → String → String → Option String → Exec ChalaniRow
unfolding statement join_recipients
get_chalani_by_number number fiscal_year scope ward =
    statement (first_row (has_number number fiscal_year scope ward))

unfoldable pub get_chalani_by_idempotency_key : Option String → String → Exec Chalani
unfolding statement
get_chalani_by_idempotency_key key tenant = statement λ db.
    row_or_none
      (find_first (λ (c : Chalani). sql_eq c.idempotency_key key && c.tenant_id == tenant)
        db.chalanis)
      db

pub record ListChalanisParams : Type 0 where
  pub fiscal_year_id : Option String
  pub scope : Option String
  pub ward_id : Option String
  pub status : Option String
  pub dispatch_channel : Option String
  pub linked_darta_id : Option Uuid
  pub created_by : Option String
  pub from_date : Timestamptz
  pub to_date : Timestamptz
  pub search : Option String
  pub tenant_id : String
  pub offset : ℤ
  pub limit : ℤ

-- `$n IS NULL OR linked_darta_id = $n`
abbrev pub id_matches : Option Uuid → Option Uuid → Bool
id_matches none column = true
id_matches (some v) none = false
id_matches (some v) (some c) = c == v

abbrev pub wanted : (String → String → Bool) → ListChalanisParams → Chalani → Bool
wanted ilike p c =
    matches p.fiscal_year_id (some c.fiscal_year_id)
    && matches p.scope (some c.scope)
    && matches p.ward_id c.ward_id
    && matches p.status (some c.status)
    && matches p.dispatch_channel c.dispatch_channel
    && id_matches p.linked_darta_id c.linked_darta_id
    && matches p.created_by (some c.created_by)
    && from_matches p.from_date c.created_at
    && to_matches p.to_date c.created_at
    && search_matches ilike p.search c.subject
    && c.tenant_id == p.tenant_id

-- ORDER BY created_at DESC
abbrev newest_first : ChalaniRow → ChalaniRow → Bool
newest_first a b = later_time a.chalani.created_at b.chalani.created_at

unfoldable pub list_chalanis :
    (String → String → Bool) → ListChalanisParams → Exec (List ChalaniRow)
unfolding statement join_recipients sort
list_chalanis ilike p = statement λ db.
    page p.limit p.offset
      (sort newest_first (select (λ r. wanted ilike p r.chalani) (join_recipients db db.chalanis)))
      db

pub record CountChalanisParams : Type 0 where
  pub fiscal_year_id : Option String
  pub status : Option String
  pub linked_darta_id : Option Uuid
  pub from_date : Timestamptz
  pub to_date : Timestamptz
  pub tenant_id : String

abbrev counted_in : CountChalanisParams → Chalani → Bool
counted_in p c =
    matches p.fiscal_year_id (some c.fiscal_year_id)
    && matches p.status (some c.status)
    && id_matches p.linked_darta_id c.linked_darta_id
    && from_matches p.from_date c.created_at
    && to_matches p.to_date c.created_at
    && c.tenant_id == p.tenant_id

unfoldable pub count_chalanis : CountChalanisParams → Exec ℕ
unfolding statement
count_chalanis p = statement λ db. (ok (length (select (counted_in p) db.chalanis)), db)

abbrev mine : String → Option String → String → Chalani → Bool
mine created_by status tenant c =
    c.created_by == created_by && matches status (some c.status) && c.tenant_id == tenant

unfoldable pub get_my_chalani : String → Option String → String → ℤ → ℤ → Exec (List ChalaniRow)
unfolding statement join_recipients sort
get_my_chalani created_by status tenant limit offset = statement λ db.
    page limit offset
      (sort newest_first
        (select (λ r. mine created_by status tenant r.chalani) (join_recipients db db.chalanis)))
      db

abbrev in_stats : String → Option String → Chalani → Bool
in_stats tenant fiscal_year c = c.tenant_id == tenant && matches fiscal_year (some c.fiscal_year_id)

unfoldable pub get_chalani_stats_by_status : String → Option String → Exec (List (String × ℕ))
unfolding statement tally
get_chalani_stats_by_status tenant fiscal_year = statement λ db. (
  ok (tally (map (λ (c : Chalani). c.status) (select (in_stats tenant fiscal_year) db.chalanis))),
  db,
)

-- The channels that are not NULL.
abbrev channels : List Chalani → List String
channels [] = []
channels (c ∷ cs) = elim c.dispatch_channel [ none ↦ channels cs | some s ↦ s ∷ channels cs ]

unfoldable pub get_chalani_stats_by_channel : String → Option String → Exec (List (String × ℕ))
unfolding statement tally
get_chalani_stats_by_channel tenant fiscal_year =
    statement λ db. (ok (tally (channels (select (in_stats tenant fiscal_year) db.chalanis))), db)

abbrev sent : String → Option String → Chalani → Bool
sent tenant fiscal_year c =
    c.tenant_id == tenant
    && is_one_of c.status ("DISPATCHED" ∷ "ACKNOWLEDGED" ∷ "DELIVERED" ∷ [])
    && matches fiscal_year (some c.fiscal_year_id)

-- SUM over no row is NULL, which is not read into a float64.
abbrev rate_of : List Chalani → Exec (ℕ × ℕ)
rate_of [] db = (err (plain "can't scan into dest: cannot scan NULL into *float64"), db)
rate_of (c ∷ cs) db =
    (ok (length (c ∷ cs), length (select (λ (x : Chalani). x.is_acknowledged) (c ∷ cs))), db)

-- The number of the chalanis that were sent, and of those of them that were acknowledged.
unfoldable pub get_acknowledgement_rate : String → Option String → Exec (ℕ × ℕ)
unfolding statement
get_acknowledgement_rate tenant fiscal_year =
    statement λ db. rate_of (select (sent tenant fiscal_year) db.chalanis) db
