-- ===== src/Store/Listing/Selected.antt =====
-- Which rows the statistics of services/darta-chalani/internal/db/dartas.sql.go are about.
use e_palika.Prelude.{
  ◌≡◌, refl, ap, Bool, true, false, ◌&&◌, String, Option, none, some, List, [], ◌∷◌, ◌==◌,
  string_eq, eq_iff, select,
}
use e_palika.Store.Types.{Darta}
use e_palika.Store.Listing.{matches}
use e_palika.Store.Listing.Statistics.{StatsParams, in_stats}

-- The darta has the tenant of the parameters, and each other column that they give.
pub record IsAsked (p : StatsParams) (d : Darta) : Type 0 where
  pub tenant : d.tenant_id ≡ p.tenant_id
  pub fiscal_year : (y : String) → p.fiscal_year_id ≡ some y → d.fiscal_year_id ≡ y
  pub scope : (s : String) → p.scope ≡ some s → d.scope ≡ s
  pub ward : (w : String) → p.ward_id ≡ some w → d.ward_id ≡ some w

-- A test that passes exactly the dartas that are asked for.
abbrev pub Selects : (Darta → Bool) → StatsParams → Type 0
Selects test p = (d : Darta) → (test d ≡ true → IsAsked p d) × (IsAsked p d → test d ≡ true)

matches-some :
    (asked column : Option String)
    → matches asked column ≡ true
    → (v : String) → asked ≡ some v
    → column ≡ some v
matches-some none column h v e = cc
matches-some (some u) none h v e = cc
matches-some (some u) (some c) h v e = cc ((eq_iff c u).0 h, e)

some-matches :
    (asked column : Option String)
    → ((v : String) → asked ≡ some v → column ≡ some v)
    → matches asked column ≡ true
some-matches none column h = refl
some-matches (some u) column h = rw (h u refl) ((eq_iff u u).1 refl)

some_inj : {a b : String} → some a ≡ some b → a ≡ b
some_inj h = cc

four :
    (a b c d : Bool) → a && b && c && d ≡ true → (a ≡ true) × (b ≡ true) × (c ≡ true) × (d ≡ true)
four true true true true h = (refl, refl, refl, refl)
four true true true false h = cc
four true true false d h = cc
four true false c d h = cc
four false b c d h = cc

pub in_stats-Selects : (p : StatsParams) → Selects (in_stats p) p
in_stats-Selects p d = (
  λ h.
      let (t, y, s, w) =
        four (d.tenant_id == p.tenant_id) (matches p.fiscal_year_id (some d.fiscal_year_id))
          (matches p.scope (some d.scope)) (matches p.ward_id d.ward_id) h in
      record {
        tenant = (eq_iff d.tenant_id p.tenant_id).0 t;
        fiscal_year = λ v e. some_inj (matches-some p.fiscal_year_id (some d.fiscal_year_id) y v e);
        scope = λ v e. some_inj (matches-some p.scope (some d.scope) s v e);
        ward = matches-some p.ward_id d.ward_id w;
      },
  λ a.
      rw
        (
          (eq_iff d.tenant_id p.tenant_id).1 a.tenant,
          some-matches p.fiscal_year_id (some d.fiscal_year_id)
              (λ v e. ap (λ x. some x) (a.fiscal_year v e)),
          some-matches p.scope (some d.scope) (λ v e. ap (λ x. some x) (a.scope v e)),
          some-matches p.ward_id d.ward_id a.ward,
        )
        refl,
)

same_bool : (a b : Bool) → (a ≡ true → b ≡ true) → (b ≡ true → a ≡ true) → a ≡ b
same_bool true b f g = cc (f refl)
same_bool false true f g = g refl
same_bool false false f g = refl

select-cong :
    (f g : Darta → Bool) (rows : List Darta)
    → ((d : Darta) → f d ≡ g d)
    → select f rows ≡ select g rows
select-cong f g [] h = refl
select-cong f g (d ∷ rows) h = rw (h d, select-cong f g rows h) refl

-- Two tests that pass the dartas asked for select the same rows.
pub select-Selects :
    (p : StatsParams) (f g : Darta → Bool) (rows : List Darta)
    → Selects f p
    → Selects g p
    → select f rows ≡ select g rows
select-Selects p f g rows a b =
    select-cong f g rows
      (λ d. same_bool (f d) (g d) (λ h. (b d).1 ((a d).0 h)) (λ h. (a d).1 ((b d).0 h)))
