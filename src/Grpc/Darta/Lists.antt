-- ===== src/Grpc/Darta/Lists.antt =====
-- services/darta-chalani/internal/grpc/darta_server.go: the handlers that answer with many dartas, and
-- the statistics.
use e_palika.Prelude.{
  ℕ, suc, false, String, Option, none, some, List, [], ◌∷◌, if◌then◌else◌, length, map,
}
use e_palika.Prelude.Int.{ℤ, pos, ltb_ℤ, add_int32, to_int32}
use e_palika.Prelude.Text.{int_text}
use e_palika.Domain.Context.{Ctx, UserContext, get_user_context}
use e_palika.Domain.Errors.{Code, statusf}
use e_palika.Store.Types.{null_time}
use e_palika.Store.Exec.{Result, ok, err, Exec, pure, gets, ◌>>=◌, on_error}
use e_palika.Store.Dartas.{DartaRow}
use e_palika.Store.Listing
use e_palika.Store.Listing.{ListDartasParams, CountDartasParams}
use e_palika.Store.Listing.Statistics
use e_palika.Store.Listing.Statistics.{StatsParams}
use e_palika.Proto.Enums.{
  Scope, Priority, IntakeChannel, DartaStatus, scope_text, priority_text, darta_status_text,
}
use e_palika.Proto.Messages.{DartaMessage, PaginationInput, Edge, Connection, HealthMessage}
use e_palika.Grpc.Packages.{Packages}
use e_palika.Grpc.Converters.{
  string_ptr, build_darta_from_row, string_to_darta_status, string_to_intake_channel,
}

-- DartaFilterInput, the fields that the gateway sets.
pub record DartaFilter : Type 0 where
  pub fiscal_year_id : String
  pub scope : Scope
  pub ward_id : String
  pub status : DartaStatus
  pub priority : Priority
  pub intake_channel : IntakeChannel
  pub organizational_unit_id : String
  pub assignee_id : String
  pub search : String

-- The getters read a missing message as one with zero values.
abbrev pub filter_or_zero : Option DartaFilter → DartaFilter
filter_or_zero (some f) = f
filter_or_zero none = record {
  fiscal_year_id = "";
  scope = Scope.unspecified;
  ward_id = "";
  status = DartaStatus.unspecified;
  priority = Priority.unspecified;
  intake_channel = IntakeChannel.unspecified;
  organizational_unit_id = "";
  assignee_id = "";
  search = "";
}

abbrev pub positive_or : ℤ → ℤ → ℤ
positive_or n default = if ltb_ℤ (pos 0) n then n else default

abbrev pub limit_of : Option PaginationInput → ℤ
limit_of none = pos 10
limit_of (some g) = positive_or g.limit (pos 10)

abbrev pub offset_of : Option PaginationInput → ℤ
offset_of none = pos 0
offset_of (some g) = positive_or g.offset (pos 0)

-- GetMyDartas takes the offset as it is.
abbrev pub raw_offset_of : Option PaginationInput → ℤ
raw_offset_of none = pos 0
raw_offset_of (some g) = g.offset

-- `total, _ := …`, which is 0 after an error.
abbrev value_or : {A : Type 0} → A → Result A → A
value_or a (ok b) = b
value_or a (err e) = a

abbrev or_zero : {A : Type 0} → A → Exec A → Exec A
or_zero a m db = let (r, db') = m db in (ok (value_or a r), db')

abbrev pub list_params : UserContext → DartaFilter → Option PaginationInput → ListDartasParams
list_params user f g = record {
  fiscal_year_id = string_ptr f.fiscal_year_id;
  scope = string_ptr (scope_text f.scope);
  ward_id = string_ptr f.ward_id;
  status = string_ptr (darta_status_text f.status);
  priority = string_ptr (priority_text f.priority);
  intake_channel = none;
  assigned_to_unit_id = string_ptr f.organizational_unit_id;
  current_assignee_id = string_ptr f.assignee_id;
  created_by = none;
  is_overdue = none;
  from_date = null_time;
  to_date = null_time;
  search = string_ptr f.search;
  tenant_id = user.tenant_id;
  sort_by = "created_at";
  offset = offset_of g;
  limit = limit_of g;
}

abbrev pub count_params : UserContext → DartaFilter → CountDartasParams
count_params user f = record {
  fiscal_year_id = string_ptr f.fiscal_year_id;
  scope = none;
  ward_id = none;
  status = string_ptr (darta_status_text f.status);
  priority = none;
  assigned_to_unit_id = none;
  current_assignee_id = none;
  is_overdue = none;
  from_date = null_time;
  to_date = null_time;
  search = none;
  tenant_id = user.tenant_id;
}

module _ (p : Packages) where
  -- The loop over the rows; the cursor of the row `i` counts on from the offset.
  unfoldable pub edges_from : ℤ → ℕ → List DartaRow → List (Edge DartaMessage)
  unfolding add_int32 int_text
  edges_from start i [] = []
  edges_from start i (row ∷ rows) =
      record {
        cursor = int_text (add_int32 start (to_int32 (pos i)));
        node = build_darta_from_row p row;
      }
      ∷ edges_from start (suc i) rows

  abbrev pub connection_of : ℤ → ℤ → ℤ → List DartaRow → ℕ → Connection DartaMessage
  connection_of start offset limit rows total = record {
    edges = edges_from start 0 rows;
    page_info = record {
      has_next_page = ltb_ℤ (add_int32 offset limit) (pos total);
      has_previous_page = false;
      total_count = total;
    };
  }

  unfoldable pub list_dartas :
      Ctx → Option DartaFilter → Option PaginationInput → Exec (Connection DartaMessage)
  unfolding ◌>>=◌ on_error edges_from
  list_dartas ctx filter g = do
    let user = get_user_context ctx
    let f = filter_or_zero filter
    rows ←
        on_error (statusf Code.internal "failed to list dartas")
          (Listing.list_dartas p.ilike (list_params user f g))
    total ← or_zero 0 (Listing.count_dartas p.ilike (count_params user f))
    pure (connection_of (offset_of g) (offset_of g) (limit_of g) rows total)

  unfoldable pub get_my_dartas :
      Ctx → DartaStatus → Option PaginationInput → Exec (Connection DartaMessage)
  unfolding ◌>>=◌ on_error edges_from
  get_my_dartas ctx status g = do
    let user = get_user_context ctx
    rows ← on_error (statusf Code.internal "failed to get my dartas") (
        Listing.get_my_dartas p.text_ge (some user.user_id) (string_ptr (darta_status_text status))
          user.tenant_id (limit_of g) (raw_offset_of g))
    total ← or_zero 0 (
        Listing.count_my_dartas (some user.user_id) (string_ptr (darta_status_text status))
          user.tenant_id)
    pure (connection_of (pos 0) (raw_offset_of g) (limit_of g) rows total)

pub record DartaStats : Type 0 where
  pub total : ℤ
  pub by_status : List (DartaStatus × ℤ)
  pub by_channel : List (IntakeChannel × ℤ)
  pub overdue_count : ℤ
  pub avg_processing_time_hours : ℕ

abbrev tenant_stats : UserContext → StatsParams
tenant_stats user = record {
  tenant_id = user.tenant_id;
  fiscal_year_id = none;
  scope = none;
  ward_id = none;
}

unfoldable pub get_darta_stats : Ctx → Exec DartaStats
unfolding ◌>>=◌ to_int32
get_darta_stats ctx = do
  let params = tenant_stats (get_user_context ctx)
  statuses ← or_zero [] (Statistics.get_darta_stats_by_status params)
  channels ← or_zero [] (Statistics.get_darta_stats_by_channel params)
  overdue ← or_zero 0 (Statistics.get_overdue_count params)
  pure (record {
    total = to_int32 (pos (length statuses));
    by_status = map (λ c. (string_to_darta_status c.0, to_int32 (pos c.1))) statuses;
    by_channel = map (λ c. (string_to_intake_channel c.0, to_int32 (pos c.1))) channels;
    overdue_count = to_int32 (pos overdue);
    avg_processing_time_hours = 0;
  })

unfoldable pub health_check : Exec HealthMessage
health_check =
    gets (λ db. record { status = "healthy"; service = "darta-chalani"; timestamp = db.now })
