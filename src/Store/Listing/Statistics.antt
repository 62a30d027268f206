-- ===== src/Store/Listing/Statistics.antt =====
-- services/darta-chalani/internal/db/dartas.sql.go: the statistics.
use e_palika.Prelude.{
  ℕ, suc, Bool, false, ◌&&◌, String, Option, none, some, List, [], ◌∷◌, ◌==◌, string_eq,
  if◌then◌else◌, select, map,
}
use e_palika.Store.Types.{Darta}
use e_palika.Store.Exec.{ok, Exec, statement}
use e_palika.Store.Listing.{matches, count_rows}

-- The parameters of the three statistics.
pub record StatsParams : Type 0 where
  pub tenant_id : String
  pub fiscal_year_id : Option String
  pub scope : Option String
  pub ward_id : Option String

abbrev pub in_stats : StatsParams → Darta → Bool
in_stats p d =
    d.tenant_id == p.tenant_id
    && matches p.fiscal_year_id (some d.fiscal_year_id)
    && matches p.scope (some d.scope)
    && matches p.ward_id d.ward_id

-- GROUP BY: one row for each different text, with the number of its rows.
abbrev pub bump : String → List (String × ℕ) → List (String × ℕ)
bump s [] = (s, 1) ∷ []
bump s ((k, n) ∷ counts) =
    let rest = bump s counts in if k == s then (k, suc n) ∷ counts else (k, n) ∷ rest

unfoldable pub tally : List String → List (String × ℕ)
tally [] = []
tally (s ∷ l) = bump s (tally l)

unfoldable pub get_darta_stats_by_status : StatsParams → Exec (List (String × ℕ))
unfolding statement tally
get_darta_stats_by_status p =
    statement λ db. (ok (tally (map (λ (d : Darta). d.status) (select (in_stats p) db.dartas))), db)

unfoldable pub get_darta_stats_by_channel : StatsParams → Exec (List (String × ℕ))
unfolding statement tally
get_darta_stats_by_channel p =
    statement
      λ db. (ok (tally (map (λ (d : Darta). d.intake_channel) (select (in_stats p) db.dartas))), db)

abbrev is_true : Option Bool → Bool
is_true (some b) = b
is_true none = false

unfoldable pub get_overdue_count : StatsParams → Exec ℕ
unfolding statement
get_overdue_count p = statement (count_rows (λ d. is_true d.is_overdue && in_stats p d))
