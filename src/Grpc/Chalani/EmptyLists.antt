-- ===== src/Grpc/Chalani/EmptyLists.antt =====
-- What ListChalanis of services/darta-chalani/internal/grpc/chalani_server.go answers.
use e_palika.Prelude.{
  ℕ, zero, suc, String, select, if◌then◌else◌, ◌≡◌, refl, ap, inl, inr, Bool, true, false, ◌&&◌,
  Option, none, some, List, [], ◌∷◌, ◌==◌, string_eq, eq_iff, is_one_of, All, Bool-cases, arith,
  ◌∙◌,
}
use e_palika.Prelude.Int.{ℤ, pos, negsuc, ltb_ℤ, leb_ℤ, to_int32}
use e_palika.Domain.Context.{Ctx, get_user_context}
use e_palika.Store.Types.{Chalani, Recipient}
use e_palika.Store.Exec.{Db, ok, ◌>>=◌, on_error}
use e_palika.Store.Table.{find}
use e_palika.Store.Checks.{chalani_checks, scopes}
use e_palika.Store.Creation.{recipient_key}
use e_palika.Store.Listing.{matches, sort}
use e_palika.Store.Listing.Laws.{select-none, map-All, drop-nil}
use e_palika.Store.Chalanis.Listing.{
  ChalaniRow, ListChalanisParams, with_recipient, join_recipients, wanted,
}
use e_palika.Store.Chalanis.Listing
use e_palika.Proto.Enums.{Scope, scope_text}
use e_palika.Proto.Messages.{ChalaniMessage, ChalaniFilter, PaginationInput, Connection}
use e_palika.Proto.Texts.{scope_text-unlisted, scope_text-given}
use e_palika.Grpc.Packages.{Packages}
use e_palika.Grpc.Chalani.Creation.{sql_null_string}
use e_palika.Grpc.Chalani.Lists

-- Every chalani satisfies the CHECK constraints.
pub record IsSound (db : Db) : Type 0 where
  pub checked : All (λ c. chalani_checks c ≡ true) db.chalanis

module _ (P : Chalani → Type 0) (db : Db) where
  with_recipient-All :
      (c : Chalani) (found : Option Recipient) (rows : List ChalaniRow)
      → P c
      → All (λ (r : ChalaniRow). P r.chalani) rows
      → All (λ (r : ChalaniRow). P r.chalani) (with_recipient c found rows)
  with_recipient-All c none rows p h = h
  with_recipient-All c (some r) rows p h = (p, h)

  join_recipients-All :
      (cs : List Chalani) → All P cs → All (λ (r : ChalaniRow). P r.chalani) (join_recipients db cs)
  unfolding join_recipients
  join_recipients-All [] h = tt
  join_recipients-All (c ∷ cs) (p, h) =
      with_recipient-All c (find recipient_key c.recipient_id db.recipients) (join_recipients db cs)
        p (join_recipients-All cs h)

first_of : (a b c d : Bool) → a && b && c && d ≡ true → a ≡ true
first_of a b c d h = ground arith

drop_second :
    (a b c d e f g h i j k : Bool)
    → b ≡ false
    → a && b && c && d && e && f && g && h && i && j && k ≡ false
drop_second a b c d e f g h i j k z = ground arith

-- A text that the constraint does not list is the scope of no row.
scope-ne : (c : Chalani) (s : Scope) → chalani_checks c ≡ true → (c.scope == scope_text s) ≡ false
unfolding chalani_checks
scope-ne c s h = elim (Bool-cases (c.scope == scope_text s)) [
  | inl same ↦
      let e : c.scope ≡ scope_text s = (eq_iff c.scope (scope_text s)).0 same in
      let listed : is_one_of c.scope scopes ≡ true = first_of _ _ _ _ h in
      cc (ap (λ t. is_one_of t scopes) e, listed, scope_text-unlisted s)
  | inr other ↦ other
]

unmatched :
    (ps : ListChalanisParams) (s : Scope)
    → ps.scope ≡ some (scope_text s)
    → (c : Chalani) → chalani_checks c ≡ true
    → matches ps.scope (some c.scope) ≡ false
unmatched ps s e c h = ap (λ f. matches f (some c.scope)) e ∙ scope-ne c s h

module _ (ilike : String → String → Bool) (db : Db) (sound : IsSound db) where
  no_row :
      (ps : ListChalanisParams) (s : Scope)
      → ps.scope ≡ some (scope_text s)
      → select (λ r. wanted ilike ps r.chalani) (join_recipients db db.chalanis) ≡ []
  no_row ps s e = select-none _ _ (
      join_recipients-All (λ c. wanted ilike ps c ≡ false) db db.chalanis
        (map-All db.chalanis (λ c h. drop_second _ _ _ _ _ _ _ _ _ _ _ (unmatched ps s e c h))
          sound.checked))

sql_null_string-given : (s : Scope) → sql_null_string (scope_text s) ≡ some (scope_text s)
unfolding sql_null_string
sql_null_string-given s = rw (scope_text-given s) refl

is_positive : (n : ℕ) → ltb_ℤ (pos 0) (pos (suc n)) ≡ true
is_positive n = ground arith

is_negative : (n : ℕ) → ltb_ℤ (pos 0) (negsuc n) ≡ false
is_negative n = ground arith

is_large : (n : ℕ) → leb_ℤ (pos (suc n)) (pos 0) ≡ false
is_large n = ground arith

-- The limit is at least 1.
limit_of-positive : (g : Option PaginationInput) → (l : ℕ) × (Lists.limit_of g ≡ pos (suc l))
limit_of-positive none = (19, refl)
limit_of-positive (some g) = from g.limit
  where
    from : (n : ℤ) → (l : ℕ) × ((if ltb_ℤ (pos 0) n then n else pos 20) ≡ pos (suc l))
    from (pos zero) = (19, refl)
    from (pos (suc n)) = (n, rw (is_positive n))
    from (negsuc n) = (19, rw (is_negative n))

-- The connection without an edge, and with 0 as its total.
abbrev pub nothing : Connection ChalaniMessage
nothing = record {
  edges = [];
  page_info = record { has_next_page = false; has_previous_page = false; total_count = 0 };
}

module _ (p : Packages) (ctx : Ctx) (db : Db) (sound : IsSound db) (on_time : db.outages ≡ []) where
  -- In a store whose chalanis satisfy their CHECK constraints, if no statement fails and the offset is not
  -- negative, ListChalanis answers with an empty list and the total 0, for every filter and every caller:
  -- the scope of the filter is passed on as the enumeration's text, also when there is no filter, and no
  -- row has such a scope.
  pub list_chalanis-nothing :
      (filter : Option ChalaniFilter) (g : Option PaginationInput) (o : ℕ)
      → Lists.offset_of g ≡ pos o
      → Lists.list_chalanis p ctx filter g db ≡ (ok nothing, db)
  unfolding Lists.list_chalanis Lists.edges_from Listing.list_chalanis ◌>>=◌ on_error to_int32 sort
  list_chalanis-nothing filter g o given =
      let f = Lists.filter_or_zero filter in
      let params = Lists.list_params (get_user_context ctx) f g in
      let l = limit_of-positive g in
      rw
        (
          on_time,
          no_row p.ilike db sound params f.scope (sql_null_string-given f.scope),
          l.1,
          given,
          drop-nil o,
          is_large l.0,
        )
        refl
