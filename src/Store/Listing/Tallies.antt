-- ===== src/Store/Listing/Tallies.antt =====
-- The statistics of services/darta-chalani/internal/db/dartas.sql.go against a count row by row.
use e_palika.Prelude.{
  ℕ, suc, ◌+◌, ◌≡◌, refl, ap, ◌∙◌, inl, inr, Bool, true, false, String, List, [], ◌∷◌, ◌==◌,
  string_eq, eq_iff, if◌then◌else◌, length, select, map, arith, Bool-cases,
}
use e_palika.Store.Types.{Darta}
use mathlib.Core.Path.{subst}
use e_palika.Store.Exec.{Db, ok, on_schedule}
use e_palika.Store.Listing.Selected.{Selects, in_stats-Selects, select-Selects}
use e_palika.Store.Listing.Statistics.{
  bump, tally, in_stats, StatsParams, get_darta_stats_by_status, get_darta_stats_by_channel,
}

-- The number that stands with a text, 0 if it does not occur.
abbrev pub count_of : String → List (String × ℕ) → ℕ
count_of s [] = 0
count_of s ((k, n) ∷ counts) = let rest = count_of s counts in if k == s then n else rest

-- The number of all.
abbrev pub sum : List (String × ℕ) → ℕ
sum [] = 0
sum ((k, n) ∷ counts) = n + sum counts

-- How often a text occurs.
abbrev pub occurrences : String → List String → ℕ
occurrences s l = length (select (λ x. x == s) l)

bump-sum : (s : String) (counts : List (String × ℕ)) → sum (bump s counts) ≡ suc (sum counts)
bump-sum s [] = refl
bump-sum s ((k, n) ∷ counts) = ground (arith, bump-sum s counts)

count_of-bump_self :
    (s : String) (counts : List (String × ℕ)) → count_of s (bump s counts) ≡ suc (count_of s counts)
count_of-bump_self s [] = ground (arith, eq_iff s s)
count_of-bump_self s ((k, n) ∷ counts) = ground (arith, count_of-bump_self s counts)

count_of-bump_ne :
    (s t : String) (counts : List (String × ℕ))
    → (t == s) ≡ false
    → count_of s (bump t counts) ≡ count_of s counts
count_of-bump_ne s t [] h = ground (arith, h)
count_of-bump_ne s t ((k, n) ∷ counts) h =
    ground (arith, h, eq_iff k t, eq_iff k s, eq_iff t s, count_of-bump_ne s t counts)

tally-sum : (l : List String) → sum (tally l) ≡ length l
unfolding tally
tally-sum [] = refl
tally-sum (s ∷ l) = bump-sum s (tally l) ∙ ap (λ n. suc n) (tally-sum l)

count_of-tally : (s : String) (l : List String) → count_of s (tally l) ≡ occurrences s l
unfolding tally
count_of-tally s [] = refl
count_of-tally s (t ∷ l) = elim (Bool-cases (t == s)) [
  | inl same ↦
      let e : t ≡ s = (eq_iff t s).0 same in
      ap (λ x. count_of s (bump x (tally l))) e
      ∙ count_of-bump_self s (tally l)
      ∙ ap (λ n. suc n) (count_of-tally s l)
      ∙ rw same refl
  | inr other ↦ count_of-bump_ne s t (tally l) other ∙ count_of-tally s l ∙ rw other refl
]

occurrences-map :
    (f : Darta → String) (s : String) (rows : List Darta)
    → occurrences s (map f rows) ≡ length (select (λ d. f d == s) rows)
occurrences-map f s [] = refl
occurrences-map f s (d ∷ rows) = elim (Bool-cases (f d == s)) [
  | inl same ↦ rw same (ap (λ n. suc n) (occurrences-map f s rows))
  | inr other ↦ rw other (occurrences-map f s rows)
]

length-map : (f : Darta → String) (rows : List Darta) → length (map f rows) ≡ length rows
length-map f [] = refl
length-map f (d ∷ rows) = ap (λ n. suc n) (length-map f rows)

-- The counts are right for these rows.
abbrev pub IsCount : (Darta → String) → List Darta → List (String × ℕ) → Type 0
IsCount f rows counts =
    ((s : String) → count_of s counts ≡ length (select (λ d. f d == s) rows))
    × (sum counts ≡ length rows)

tally-IsCount : (f : Darta → String) (rows : List Darta) → IsCount f rows (tally (map f rows))
tally-IsCount f rows = (
  λ s. count_of-tally s (map f rows) ∙ occurrences-map f s rows,
  tally-sum (map f rows) ∙ length-map f rows,
)

scheduled-IsCount :
    (f : Darta → String) (test : Darta → Bool) (db : Db) (out : List Bool)
    (counts : List (String × ℕ))
    → (on_schedule out (λ db'. (ok (tally (map f (select test db'.dartas))), db')) db).0 ≡ ok counts
    → IsCount f (select test db.dartas) counts
scheduled-IsCount f test db [] counts done =
    let e : tally (map f (select test db.dartas)) ≡ counts = cc in
    subst (IsCount f (select test db.dartas)) e (tally-IsCount f (select test db.dartas))
scheduled-IsCount f test db (true ∷ out) counts done = cc
scheduled-IsCount f test db (false ∷ out) counts done =
    let e : tally (map f (select test db.dartas)) ≡ counts = cc in
    subst (IsCount f (select test db.dartas)) e (tally-IsCount f (select test db.dartas))

module _ (p : StatsParams) (db : Db) (counts : List (String × ℕ)) (test : Darta → Bool)
    (asked : Selects test p) where
  selected-IsCount :
      (f : Darta → String)
      → IsCount f (select (in_stats p) db.dartas) counts
      → IsCount f (select test db.dartas) counts
  selected-IsCount f c =
      subst (λ rows. IsCount f rows counts)
        (select-Selects p (in_stats p) test db.dartas (in_stats-Selects p) asked) c

  -- The statistics by status, when the query succeeds, are those of the dartas of the tenant that have the
  -- fiscal year, the scope and the ward that the parameters give, however these are picked out: with
  -- each status stands the number of these dartas that have it, and the numbers of all statuses add up
  -- to the number of these dartas.
  pub get_darta_stats_by_status-IsCount :
      (get_darta_stats_by_status p db).0 ≡ ok counts
      → IsCount (λ d. d.status) (select test db.dartas) counts
  unfolding get_darta_stats_by_status
  get_darta_stats_by_status-IsCount done =
      selected-IsCount (λ d. d.status)
        (scheduled-IsCount (λ d. d.status) (in_stats p) db db.outages counts done)

  -- The same of the statistics by channel.
  pub get_darta_stats_by_channel-IsCount :
      (get_darta_stats_by_channel p db).0 ≡ ok counts
      → IsCount (λ d. d.intake_channel) (select test db.dartas) counts
  unfolding get_darta_stats_by_channel
  get_darta_stats_by_channel-IsCount done =
      selected-IsCount (λ d. d.intake_channel)
        (scheduled-IsCount (λ d. d.intake_channel) (in_stats p) db db.outages counts done)
