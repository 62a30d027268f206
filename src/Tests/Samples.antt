-- ===== src/Tests/Samples.antt =====
-- A small store, and packages in place of the real ones.
use e_palika.Prelude.{
  ℕ, zero, suc, ◌≡◌, ◌&◌, refl, ap, true, false, String, Option, none, some, [], ◌∷◌,
}
use e_palika.Prelude.Int.{pos}
use e_palika.Domain.Context.{Ctx, UserContext, text}
use e_palika.Store.Types.{
  Uuid, Json, Members, object, Applicant, Attachment, Darta, null_time, at_time,
}
use e_palika.Store.Exec.{Db, Result, ok}
use e_palika.Store.Checks.{darta_checks}
use e_palika.Store.Valid.{IsSound}
use e_palika.Grpc.Packages.{Packages}

-- A form of identifiers with a law: as many strokes as the number says.
abbrev pub strokes : Uuid → String
strokes zero = ""
strokes (suc n) = String.◌∷◌ "|" (strokes n)

abbrev pub count_strokes : String → Uuid
count_strokes String.[] = 0
count_strokes (String.◌∷◌ c s) = suc (count_strokes s)

pub count-strokes : (id : Uuid) → count_strokes (strokes id) ≡ id
count-strokes zero = refl
count-strokes (suc n) = ap (λ x. suc x) (count-strokes n)

abbrev pub marshalled : Option Json → Result Json
marshalled none = ok (object Members.none)
marshalled (some j) = ok j

unfoldable pub packages : Packages
packages = record {
  parse_uuid = λ s. some (count_strokes s);
  print_uuid = strokes;
  uuid_error = λ s. s;
  parse-print = λ id. ap (λ x. some x) (count-strokes id);
  print_time = λ t. "2024-01-01T00:00:00Z";
  marshal_struct = marshalled;
  ilike = λ a b. true;
  text_ge = λ a b. true;
}

abbrev pub clerk : UserContext
clerk = record {
  user_id = "clerk";
  tenant_id = "default";
  roles = "registrar" ∷ [];
  request_id = "r1";
  ip_address = "10.0.0.1";
  user_agent = "test";
}

abbrev pub office : Ctx
office =
    ("user_agent", text "test") ∷ ("tenant_id", text "default") ∷ ("user_id", text "clerk") ∷ []

abbrev pub applicant : Applicant
applicant = record {
  id = 5;
  type = "CITIZEN";
  full_name = "Sita";
  organization = none;
  email = none;
  phone = none;
  address = none;
  identification_number = none;
  created_at = at_time (pos 0);
  updated_at = at_time (pos 0);
}

abbrev pub scan : Attachment
scan = record {
  id = 6;
  filename = "scan.pdf";
  original_filename = "scan.pdf";
  mime_type = "application/pdf";
  size_bytes = pos 10;
  storage_path = "/scan.pdf";
  checksum = "0";
  uploaded_by = "clerk";
  uploaded_at = at_time (pos 0);
  metadata = none;
  tenant_id = "default";
  created_at = at_time (pos 0);
}

abbrev pub letter : Uuid → Option ℕ → Option String → String → Darta
letter id number shown status = record {
  id = id;
  darta_number = number;
  formatted_darta_number = shown;
  fiscal_year_id = "2081";
  scope = "MUNICIPALITY";
  ward_id = none;
  subject = "Road repair";
  applicant_id = 5;
  intake_channel = "COUNTER";
  received_date = at_time (pos 0);
  entry_date = at_time (pos 0);
  is_backdated = false;
  backdate_reason = none;
  backdate_approver_id = none;
  primary_document_id = 6;
  status = status;
  priority = "MEDIUM";
  classification_code = none;
  assigned_to_unit_id = none;
  current_assignee_id = none;
  sla_deadline = null_time;
  is_overdue = some false;
  created_by = "clerk";
  created_at = at_time (pos 0);
  updated_at = at_time (pos 0);
  tenant_id = "default";
  idempotency_key = none;
  metadata = none;
}

abbrev pub registered : Darta
registered = letter 2 (some 7) (some "2081/MUN/D-00007") "REGISTERED"

abbrev pub classified : Darta
classified = letter 3 none none "CLASSIFICATION"

-- A registered darta and one that waits for its number.
abbrev pub desk : Db
desk = record {
  applicants = applicant ∷ [];
  attachments = scan ∷ [];
  dartas = registered ∷ classified ∷ [];
  annexes = [];
  relationships = [];
  recipients = [];
  chalanis = [];
  chalani_attachments = [];
  signatories = [];
  approvals = [];
  templates = [];
  audit = [];
  now = pos 1000;
  uuids = 20 ∷ 21 ∷ 22 ∷ 23 ∷ [];
  outages = [];
}

pub desk-IsSound : IsSound desk
unfolding darta_checks
desk-IsSound = record { checked = refl & refl & tt }
