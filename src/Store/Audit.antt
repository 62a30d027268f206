-- ===== src/Store/Audit.antt =====
-- services/darta-chalani/internal/db/audit.sql.go: the queries of the audit trail.
use e_palika.Prelude.{ℕ, Bool, ◌&&◌, String, List, ◌==◌, nat_eq, string_eq, select, length}
use e_palika.Prelude.Int.{ℤ}
use e_palika.Store.Types.{Uuid, Timestamptz, AuditTrail}
use e_palika.Store.Exec.{ok, Exec, statement}
use e_palika.Store.Creation.{key_is}
use e_palika.Store.Listing.{from_matches, to_matches, later_time, sort, page}

abbrev pub about : String → Uuid → AuditTrail → Bool
about type id e = e.entity_type == type && key_is e.entity_id id

unfoldable pub count_audit_entries : String → Uuid → Exec ℕ
unfolding statement
count_audit_entries type id = statement λ db. (ok (length (select (about type id) db.audit)), db)

-- ORDER BY performed_at DESC
abbrev latest_first : AuditTrail → AuditTrail → Bool
latest_first a b = later_time a.performed_at b.performed_at

unfoldable pub get_audit_trail : String → Uuid → ℤ → ℤ → Exec (List AuditTrail)
unfolding statement sort
get_audit_trail type id limit offset =
    statement λ db. page limit offset (sort latest_first (select (about type id) db.audit)) db

abbrev of_type : String → String → Timestamptz → Timestamptz → AuditTrail → Bool
of_type type tenant from to e =
    e.entity_type == type
    && e.tenant_id == tenant
    && from_matches from e.performed_at
    && to_matches to e.performed_at

unfoldable pub get_audit_trail_by_entity :
    String → String → ℤ → ℤ → Timestamptz → Timestamptz → Exec (List AuditTrail)
unfolding statement sort
get_audit_trail_by_entity type tenant limit offset from to =
    statement
      λ db. page limit offset (sort latest_first (select (of_type type tenant from to) db.audit)) db

unfoldable pub get_audit_trail_by_user : String → String → ℤ → ℤ → Exec (List AuditTrail)
unfolding statement sort
get_audit_trail_by_user user tenant limit offset = statement λ db.
    page limit offset
      (sort latest_first
        (select (λ (e : AuditTrail). e.performed_by == user && e.tenant_id == tenant) db.audit))
      db
