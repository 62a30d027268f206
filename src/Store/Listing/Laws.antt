-- ===== src/Store/Listing/Laws.antt =====
-- The lists and counts of services/darta-chalani/internal/db/dartas.sql.go that find no row.
use e_palika.Prelude.{
  ℕ, zero, suc, ◌≡◌, refl, ap, ◌∙◌, inl, inr, Bool, true, false, ◌&&◌, ◌||◌, String, Option, none,
  some, List, [], ◌∷◌, ◌==◌, string_eq, eq_iff, is_one_of, select, take, drop, All, Bool-cases,
}
use e_palika.Prelude.Int.{ℤ, pos, negsuc}
use e_palika.Domain.Errors.{Error, database, negative_limit, unavailable}
use e_palika.Store.Types.{Darta, Applicant}
use e_palika.Store.Exec.{Db, Result, ok, err, Exec, on_schedule}
use e_palika.Store.Table.{find}
use e_palika.Store.Checks.{darta_checks, darta_statuses, scopes, is_set, sql_eq}
use e_palika.Store.Dartas.{DartaRow, with_applicant, applicant_key}
use e_palika.Store.Dartas.Laws.{later}
use e_palika.Store.Valid.{IsChecked, IsSound}
use e_palika.Store.Listing.{
  matches, join_rows, add_row, sort, page, filed, handled, count_handled, wanted, counted_in, mine,
  count_rows, ListDartasParams, CountDartasParams, list_dartas, count_dartas, get_my_dartas,
  count_my_dartas,
}

pub select-none :
    {A : Type 0} (test : A → Bool) (rows : List A)
    → All (λ r. test r ≡ false) rows
    → select test rows ≡ []
select-none test [] h = refl
select-none test (r ∷ rows) (e, h) = rw e (select-none test rows h)

module _ {ℓ} (P : Darta → Type ℓ) (db : Db) where
  add_row-All :
      (d : Darta) (found : Option Applicant) (rows : List DartaRow)
      → P d
      → All (λ (r : DartaRow). P r.darta) rows
      → All (λ (r : DartaRow). P r.darta) (add_row (with_applicant d found) rows)
  add_row-All d none rows p h = h
  add_row-All d (some a) rows p h = (p, h)

  join_rows-All : (ds : List Darta) → All P ds → All (λ (r : DartaRow). P r.darta) (join_rows db ds)
  unfolding join_rows
  join_rows-All [] h = tt
  join_rows-All (d ∷ ds) (p, h) =
      add_row-All d (find applicant_key d.applicant_id db.applicants) (join_rows db ds) p
        (join_rows-All ds h)

pub map-All :
    {A : Type 0} {P Q : A → Type 0} (rows : List A)
    → ((r : A) → P r → Q r)
    → All P rows
    → All Q rows
map-All [] f h = tt
map-All (r ∷ rows) f (p, h) = (f r p, map-All rows f h)

right : (a b : Bool) → a && b ≡ true → b ≡ true
right true b h = h
right false b h = cc

left : (a b : Bool) → a && b ≡ true → a ≡ true
left true b h = refl
left false b h = cc

drop_fourth : (a b c d : Bool) → d ≡ false → a && b && c && d ≡ false
drop_fourth a b c true h = cc
drop_fourth false b c false h = refl
drop_fourth true false c false h = refl
drop_fourth true true false false h = refl
drop_fourth true true true false h = refl

drop_first : (a b : Bool) → a ≡ false → a && b ≡ false
drop_first false b h = refl
drop_first true b h = cc

drop_second : (a b : Bool) → b ≡ false → a && b ≡ false
drop_second a true h = cc
drop_second false false h = refl
drop_second true false h = refl

pub drop-nil : {R : Type 0} (n : ℕ) → drop {A = R} n [] ≡ []
drop-nil zero = refl
drop-nil (suc n) = refl

pub take-nil : {R : Type 0} (n : ℕ) → take {A = R} n [] ≡ []
take-nil zero = refl
take-nil (suc n) = refl

pub sorted-nil :
    {R : Type 0} (before : R → R → Bool) (rows : List R) → rows ≡ [] → sort before rows ≡ []
unfolding sort
sorted-nil before rows e = rw e refl

-- A query that answers with this value, or with an error, and writes nothing.
pub data Answers {A : Type 0} (a : A) (db : Db) (r : Result A × Db) : Type 0 where
  refused : (e : Error) (s : List Bool) → r ≡ (err e, later db s) → Answers a db r
  answered : (s : List Bool) → r ≡ (ok a, later db s) → Answers a db r

pub on_schedule-Answers :
    {A : Type 0} (a : A) (m : Exec A) (db : Db)
    → ((s : List Bool) → Answers a db (m (later db s)))
    → (s : List Bool) → Answers a db (on_schedule s m (later db s))
on_schedule-Answers a m db h [] = h []
on_schedule-Answers a m db h (true ∷ s) = refused (database unavailable) s refl
on_schedule-Answers a m db h (false ∷ s) = h s

pub page-Answers :
    {R : Type 0} (limit offset : ℤ) (rows : List R) (db : Db) (s : List Bool)
    → rows ≡ []
    → Answers [] db (page limit offset rows (later db s))
page-Answers (pos l) (pos o) rows db s e = rw (e, drop-nil o, take-nil l) (answered s refl)
page-Answers (pos l) (negsuc o) rows db s e = refused (database negative_limit) s refl
page-Answers (negsuc l) offset rows db s e = refused (database negative_limit) s refl

-- A filter on the status that no row which the constraint allows can match.
pub record IsFutile (filter : Option String) : Type 0 where
  pub never : (d : Darta) → IsChecked d → matches filter (some d.status) ≡ false

-- That of a status that the constraint does not list.
pub unlisted-IsFutile :
    (status : String) → is_one_of status darta_statuses ≡ false → IsFutile (some status)
unfolding darta_checks
unlisted-IsFutile status unlisted = record {
  never = λ d h. elim (Bool-cases (d.status == status)) [
    | inl same ↦
        let e : d.status ≡ status = (eq_iff d.status status).0 same in
        let listed : is_one_of d.status darta_statuses ≡ true =
          right (is_one_of d.scope scopes && (is_set d.ward_id || d.scope == "MUNICIPALITY"))
            (is_one_of d.status darta_statuses) (left _ _ (left _ _ h)) in
        cc (ap (λ s. is_one_of s darta_statuses) e, listed, unlisted)
    | inr other ↦ other
  ];
}

module _ (db : Db) (sound : IsSound db) (filter : Option String) (futile : IsFutile filter) where
  abbrev Misses : (Darta → Bool) → Type 0
  Misses test = (d : Darta) → matches filter (some d.status) ≡ false → test d ≡ false

  unmatched-rows :
      (test : Darta → Bool)
      → Misses test
      → select (λ (r : DartaRow). test r.darta) (join_rows db db.dartas) ≡ []
  unmatched-rows test h = select-none _ _ (
      join_rows-All (λ d. test d ≡ false) db db.dartas
        (map-All db.dartas (λ d c. h d (futile.never d c)) sound.checked))

  unmatched-count :
      (test : Darta → Bool)
      → Misses test
      → (s : List Bool) → Answers 0 db (count_rows test (later db s))
  unmatched-count test h s =
      rw
        (select-none test db.dartas
          (map-All db.dartas (λ d c. h d (futile.never d c)) sound.checked))
        (answered s refl)

  unfiled :
      (fiscal_year scope ward status : Option String) (d : Darta)
      → status ≡ filter
      → matches filter (some d.status) ≡ false
      → filed fiscal_year scope ward status d ≡ false
  unfiled fiscal_year scope ward status d e h =
      drop_fourth (matches fiscal_year (some d.fiscal_year_id)) (matches scope (some d.scope))
        (matches ward d.ward_id) (matches status (some d.status))
        (ap (λ f. matches f (some d.status)) e ∙ h)

  -- The two queries select no row.
  pub no_row :
      (ilike : String → String → Bool) (p : ListDartasParams)
      → p.status ≡ filter
      → select (λ (r : DartaRow). wanted ilike p r.darta) (join_rows db db.dartas) ≡ []
  no_row ilike p e = unmatched-rows (wanted ilike p) λ d h.
      drop_first (filed p.fiscal_year_id p.scope p.ward_id p.status d) (handled ilike p d)
        (unfiled p.fiscal_year_id p.scope p.ward_id p.status d e h)

  unmatched-counted :
      (ilike : String → String → Bool) (p : CountDartasParams)
      → p.status ≡ filter
      → Misses (counted_in ilike p)
  unmatched-counted ilike p e d h =
      drop_first (filed p.fiscal_year_id p.scope p.ward_id p.status d) (count_handled ilike p d)
        (unfiled p.fiscal_year_id p.scope p.ward_id p.status d e h)

  pub none_counted :
      (ilike : String → String → Bool) (p : CountDartasParams)
      → p.status ≡ filter
      → select (counted_in ilike p) db.dartas ≡ []
  none_counted ilike p e =
      select-none (counted_in ilike p) db.dartas
        (map-All db.dartas (λ d c. unmatched-counted ilike p e d (futile.never d c)) sound.checked)

  pub list_dartas-Answers :
      (ilike : String → String → Bool) (p : ListDartasParams)
      → p.status ≡ filter
      → Answers [] db (list_dartas ilike p db)
  unfolding list_dartas
  list_dartas-Answers ilike p e =
      on_schedule-Answers [] _ db
        (λ s. page-Answers p.limit p.offset _ db s (sorted-nil _ _ (no_row ilike p e))) db.outages

  pub count_dartas-Answers :
      (ilike : String → String → Bool) (p : CountDartasParams)
      → p.status ≡ filter
      → Answers 0 db (count_dartas ilike p db)
  unfolding count_dartas
  count_dartas-Answers ilike p e =
      on_schedule-Answers 0 _ db
        (unmatched-count (counted_in ilike p) (unmatched-counted ilike p e)) db.outages

  pub get_my_dartas-Answers :
      (text_ge : String → String → Bool) (assignee : Option String) (tenant : String)
      (limit offset : ℤ)
      → Answers [] db (get_my_dartas text_ge assignee filter tenant limit offset db)
  unfolding get_my_dartas
  get_my_dartas-Answers text_ge assignee tenant limit offset =
      on_schedule-Answers [] _ db
        (λ s. page-Answers limit offset _ db s (
          sorted-nil _ _ (
            unmatched-rows (mine assignee filter tenant) (λ d h.
              drop_first (sql_eq d.current_assignee_id assignee && matches filter (some d.status))
                (d.tenant_id == tenant)
                (drop_second (sql_eq d.current_assignee_id assignee)
                  (matches filter (some d.status)) h)))))
        db.outages

  pub count_my_dartas-Answers :
      (assignee : Option String) (tenant : String)
      → Answers 0 db (count_my_dartas assignee filter tenant db)
  unfolding count_my_dartas
  count_my_dartas-Answers assignee tenant =
      on_schedule-Answers 0 _ db
        (unmatched-count (mine assignee filter tenant) (λ d h.
          drop_first (sql_eq d.current_assignee_id assignee && matches filter (some d.status))
            (d.tenant_id == tenant)
            (drop_second (sql_eq d.current_assignee_id assignee) (matches filter (some d.status))
              h)))
        db.outages
