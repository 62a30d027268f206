-- ===== src/Grpc/Darta/EmptyLists.antt =====
-- What ListDartas and GetMyDartas of services/darta-chalani/internal/grpc/darta_server.go answer.
use e_palika.Prelude.{ℕ, inl, inr, Bool-cases, arith, none, ◌≡◌, refl, Option, some, [], string_eq}
use e_palika.Prelude.Int.{ℤ, pos, negsuc, ltb_ℤ}
use e_palika.Domain.Context.{Ctx, get_user_context}
use e_palika.Store.Exec.{Db, Result, ok, err, ◌>>=◌, on_error}
use e_palika.Store.Valid.{IsSound}
use e_palika.Store.Dartas.Laws.{later}
use e_palika.Store.Listing
use e_palika.Store.Listing.{sort}
use e_palika.Store.Listing.Laws.{
  IsFutile, unlisted-IsFutile, refused, answered, list_dartas-Answers, count_dartas-Answers,
  get_my_dartas-Answers, count_my_dartas-Answers, no_row, none_counted, drop-nil, take-nil,
}
use e_palika.Proto.Enums.{DartaStatus, darta_status_text}
use e_palika.Proto.Messages.{DartaMessage, PaginationInput, Connection}
use e_palika.Proto.Texts.{darta_status_text-unlisted, darta_status_text-given}
use e_palika.Grpc.Packages.{Packages}
use e_palika.Grpc.Converters.{string_ptr}
use e_palika.Grpc.Darta.Lists

-- The filter that the handlers make of a status.
status-IsFutile : (s : DartaStatus) → IsFutile (string_ptr (darta_status_text s))
unfolding string_ptr
status-IsFutile s =
    rw (darta_status_text-given s)
      (unlisted-IsFutile (darta_status_text s) (darta_status_text-unlisted s))

-- A connection without an edge, and with 0 as its total.
abbrev pub IsEmpty : Connection DartaMessage → Type 0
IsEmpty c = (c.edges ≡ []) × (c.page_info.total_count ≡ 0)

-- A call that answers with an error or with an empty connection.
abbrev pub AnswersEmpty : Result (Connection DartaMessage) → Type 0
AnswersEmpty (ok c) = IsEmpty c
AnswersEmpty (err e) = Unit

module _ (p : Packages) (ctx : Ctx) (db : Db) (sound : IsSound db)
    (g : Option PaginationInput) where
  -- In a store whose rows satisfy their CHECK constraints, ListDartas answers with an error or with an
  -- empty list and the total 0, for every filter, every page and every tenant: the status of the filter
  -- is passed on as the enumeration's text, also when there is none, and no row has such a status.
  pub list_dartas-IsEmpty :
      (filter : Option Lists.DartaFilter) → AnswersEmpty (Lists.list_dartas p ctx filter g db).0
  unfolding Lists.list_dartas Lists.edges_from ◌>>=◌ on_error
  list_dartas-IsEmpty filter =
      let f = Lists.filter_or_zero filter in
      let user = get_user_context ctx in
      let futile = status-IsFutile f.status in
      elim (list_dartas-Answers db sound _ futile p.ilike (Lists.list_params user f g) refl) [
        | refused e s shape ↦ rw shape tt
        | answered s shape ↦
            elim (count_dartas-Answers (later db s) (record { checked = sound.checked }) _ futile
              p.ilike (Lists.count_params user f) refl) [
                | refused e s' shape' ↦ rw (shape, shape') (refl, refl)
                | answered s' shape' ↦ rw (shape, shape') (refl, refl)
              ]
      ]

  -- The same of GetMyDartas, for every status in the request.
  pub get_my_dartas-IsEmpty :
      (status : DartaStatus) → AnswersEmpty (Lists.get_my_dartas p ctx status g db).0
  unfolding Lists.get_my_dartas Lists.edges_from ◌>>=◌ on_error
  get_my_dartas-IsEmpty status =
      let user = get_user_context ctx in
      let futile = status-IsFutile status in
      elim (get_my_dartas-Answers db sound _ futile p.text_ge (some user.user_id) user.tenant_id
        (Lists.limit_of g) (Lists.raw_offset_of g)) [
          | refused e s shape ↦ rw shape tt
          | answered s shape ↦
              elim (count_my_dartas-Answers (later db s) (record { checked = sound.checked }) _
                futile (some user.user_id) user.tenant_id) [
                  | refused e s' shape' ↦ rw (shape, shape') (refl, refl)
                  | answered s' shape' ↦ rw (shape, shape') (refl, refl)
                ]
        ]

-- A limit or an offset of the request is read as a positive number, or replaced.
positive_or-pos : (n : ℤ) (d : ℕ) → (k : ℕ) × (Lists.positive_or n (pos d) ≡ pos k)
positive_or-pos (pos n) d = elim (Bool-cases (ltb_ℤ (pos 0) (pos n))) [
  | inl large ↦ (n, rw large)
  | inr zero ↦ (d, rw zero)
]
positive_or-pos (negsuc n) d = elim (Bool-cases (ltb_ℤ (pos 0) (negsuc n))) [
  | inl large ↦ absurd (ground arith)
  | inr below ↦ (d, rw below)
]

limit_of-pos : (g : Option PaginationInput) → (k : ℕ) × (Lists.limit_of g ≡ pos k)
limit_of-pos none = (10, refl)
limit_of-pos (some g) = positive_or-pos g.limit 10

offset_of-pos : (g : Option PaginationInput) → (k : ℕ) × (Lists.offset_of g ≡ pos k)
offset_of-pos none = (0, refl)
offset_of-pos (some g) = positive_or-pos g.offset 0

module _ (p : Packages) (ctx : Ctx) (db : Db) (sound : IsSound db) (on_time : db.outages ≡ []) where
  -- In a store whose rows satisfy their CHECK constraints, if no statement fails, ListDartas answers with
  -- an empty list and the total 0, for every filter, every page and every tenant: the status of the filter
  -- is passed on as the enumeration's text, also when there is none, and no row has such a status.
  pub list_dartas-nothing :
      (filter : Option Lists.DartaFilter) (g : Option PaginationInput)
      → (c : Connection DartaMessage) × (Lists.list_dartas p ctx filter g db ≡ (ok c, db))
        × IsEmpty c
  unfolding Lists.list_dartas Lists.edges_from Listing.list_dartas Listing.count_dartas ◌>>=◌
      on_error sort
  list_dartas-nothing filter g =
      let f = Lists.filter_or_zero filter in
      let user = get_user_context ctx in
      let futile = status-IsFutile f.status in
      let l = limit_of-pos g in
      let o = offset_of-pos g in
      (
        Lists.connection_of p (Lists.offset_of g) (Lists.offset_of g) (Lists.limit_of g) [] 0,
        rw
            (
              on_time,
              no_row db sound _ futile p.ilike (Lists.list_params user f g) refl,
              l.1,
              o.1,
              drop-nil o.0,
              take-nil l.0,
              none_counted db sound _ futile p.ilike (Lists.count_params user f) refl,
            )
            refl,
        (refl, refl),
      )
