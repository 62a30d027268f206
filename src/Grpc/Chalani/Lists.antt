-- ===== src/Grpc/Chalani/Lists.antt =====
-- services/darta-chalani/internal/grpc/chalani_server.go: GetChalani and ListChalanis.
use e_palika.Prelude.{
  ℕ, suc, false, String, Option, none, some, List, [], ◌∷◌, if◌then◌else◌, length,
}
use e_palika.Prelude.Int.{ℤ, pos, leb_ℤ, ltb_ℤ, add_int32, to_int32}
use e_palika.Prelude.Text.{int_text}
use e_palika.Domain.Context.{Ctx, UserContext, get_user_context}
use e_palika.Domain.Errors.{Code, statusf}
use e_palika.Store.Types.{null_time}
use e_palika.Store.Exec.{Exec, pure, ◌>>=◌, on_error}
use e_palika.Store.Chalanis.{get_chalani_simple}
use e_palika.Store.Chalanis.Listing
use e_palika.Store.Chalanis.Listing.{ChalaniRow, ListChalanisParams}
use e_palika.Proto.Enums.{
  Scope, ChalaniStatus, DispatchChannel, scope_text, chalani_status_text, dispatch_channel_text,
}
use e_palika.Proto.Messages.{ChalaniMessage, ChalaniFilter, PaginationInput, Edge, Connection}
use e_palika.Grpc.Packages.{Packages}
use e_palika.Grpc.Converters.{string_to_scope}
use e_palika.Grpc.Chalani.{parse_chalani_id, to_proto_chalani, string_to_chalani_status}
use e_palika.Grpc.Chalani.Creation.{sql_null_string}

-- The getters read a missing message as one with zero values.
abbrev pub filter_or_zero : Option ChalaniFilter → ChalaniFilter
filter_or_zero (some f) = f
filter_or_zero none = record {
  fiscal_year_id = "";
  scope = Scope.unspecified;
  ward_id = "";
  status = ChalaniStatus.unspecified;
  dispatch_channel = DispatchChannel.unspecified;
}

abbrev pub limit_of : Option PaginationInput → ℤ
limit_of none = pos 20
limit_of (some g) = if ltb_ℤ (pos 0) g.limit then g.limit else pos 20

abbrev pub offset_of : Option PaginationInput → ℤ
offset_of none = pos 0
offset_of (some g) = g.offset

abbrev pub list_params : UserContext → ChalaniFilter → Option PaginationInput → ListChalanisParams
list_params user f g = record {
  fiscal_year_id = sql_null_string f.fiscal_year_id;
  scope = sql_null_string (scope_text f.scope);
  ward_id = sql_null_string f.ward_id;
  status = sql_null_string (chalani_status_text f.status);
  dispatch_channel = sql_null_string (dispatch_channel_text f.dispatch_channel);
  linked_darta_id = none;
  created_by = none;
  from_date = null_time;
  to_date = null_time;
  search = none;
  tenant_id = user.tenant_id;
  offset = offset_of g;
  limit = limit_of g;
}

module _ (p : Packages) where
  unfoldable pub get_chalani : String → Exec ChalaniMessage
  unfolding ◌>>=◌ on_error
  get_chalani text = do
    id ← parse_chalani_id p text
    chalani ← on_error (statusf Code.not_found "chalani not found") (get_chalani_simple id)
    pure (to_proto_chalani p chalani)

  -- A node has fewer fields than the message of one chalani.
  abbrev listed : ChalaniRow → ChalaniMessage
  listed row = record {
    id = p.print_uuid row.chalani.id;
    chalani_number = 0;
    formatted_chalani_number = "";
    fiscal_year = some row.chalani.fiscal_year_id;
    scope = string_to_scope row.chalani.scope;
    ward = none;
    subject = row.chalani.subject;
    body = "";
    status = string_to_chalani_status row.chalani.status;
    dispatch_channel = DispatchChannel.unspecified;
    dispatched_at = none;
    delivered_at = none;
    created_at = some row.chalani.created_at.time;
    updated_at = some row.chalani.updated_at.time;
  }

  -- The loop over the rows; the cursor of the row `i` counts on from the offset.
  unfoldable pub edges_from : ℤ → ℕ → List ChalaniRow → List (Edge ChalaniMessage)
  unfolding add_int32 int_text
  edges_from start i [] = []
  edges_from start i (row ∷ rows) =
      record { cursor = int_text (add_int32 start (to_int32 (pos i))); node = listed row }
      ∷ edges_from start (suc i) rows

  -- The total is that of the page, and a full page counts as one that another follows.
  abbrev connection_of : ℤ → ℤ → List ChalaniRow → Connection ChalaniMessage
  connection_of offset limit rows = record {
    edges = edges_from offset 0 rows;
    page_info = record {
      has_next_page = leb_ℤ limit (to_int32 (pos (length rows)));
      has_previous_page = false;
      total_count = length rows;
    };
  }

  unfoldable pub list_chalanis :
      Ctx → Option ChalaniFilter → Option PaginationInput → Exec (Connection ChalaniMessage)
  unfolding ◌>>=◌ on_error edges_from
  list_chalanis ctx filter g = do
    let user = get_user_context ctx
    rows ←
        on_error (statusf Code.internal "failed to list chalanis")
          (Listing.list_chalanis p.ilike (list_params user (filter_or_zero filter) g))
    pure (connection_of (offset_of g) (limit_of g) rows)
