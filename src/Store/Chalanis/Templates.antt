-- ===== src/Store/Chalanis/Templates.antt =====
-- services/darta-chalani/internal/db/chalani_relations.sql.go: the templates of chalanis.
use e_palika.Prelude.{
  ℕ, Bool, true, false, not, ◌&&◌, String, Option, none, some, List, [], ◌∷◌, ◌++◌, ◌==◌, nat_eq,
  if◌then◌else◌, select, length,
}
use e_palika.Prelude.Int.{ℤ}
use e_palika.Domain.Errors.{database, no_rows, unique_violation}
use e_palika.Store.Types.{Uuid, ChalaniTemplate, at_time}
use e_palika.Store.Exec.{Db, ok, err, Exec, statement}
use e_palika.Store.Table.{find, replace}
use e_palika.Store.Dartas.{draw_uuid, row_or_none}
use e_palika.Store.Creation.{exists_row}
use e_palika.Store.Listing.{matches, sort, page}

abbrev pub template_key : ChalaniTemplate → Uuid
template_key t = t.id

pub record CreateChalaniTemplateParams : Type 0 where
  pub name : String
  pub category : String
  pub subject : String
  pub body : String
  pub required_signatory_role_ids : List String
  pub is_active : Bool

abbrev insert_template : CreateChalaniTemplateParams → Uuid → Exec ChalaniTemplate
insert_template p id db =
    let t : ChalaniTemplate = record {
      id = id;
      name = p.name;
      category = p.category;
      subject = p.subject;
      body = p.body;
      required_signatory_role_ids = p.required_signatory_role_ids;
      is_active = p.is_active;
      created_at = at_time db.now;
      updated_at = at_time db.now;
    } in
    if exists_row template_key id db.templates
    then (err (database unique_violation), db)
    else (ok t, record db { templates = db.templates ++ t ∷ [] })

unfoldable pub create_chalani_template : CreateChalaniTemplateParams → Exec ChalaniTemplate
unfolding statement
create_chalani_template p = statement (draw_uuid (insert_template p))

unfoldable pub delete_chalani_template : Uuid → Exec (Unit {0})
unfolding statement
delete_chalani_template id = statement λ db. (
  ok tt,
  record db { templates = select (λ (t : ChalaniTemplate). not (t.id == id)) db.templates },
)

unfoldable pub get_chalani_template : Uuid → Exec ChalaniTemplate
unfolding statement
get_chalani_template id = statement λ db. row_or_none (find template_key id db.templates) db

abbrev same_flag : Option Bool → Bool → Bool
same_flag none b = true
same_flag (some true) b = b
same_flag (some false) b = not b

abbrev filed : Option String → Option Bool → ChalaniTemplate → Bool
filed category active t = matches category (some t.category) && same_flag active t.is_active

unfoldable pub count_chalani_templates : Option String → Option Bool → Exec ℕ
unfolding statement
count_chalani_templates category active =
    statement λ db. (ok (length (select (filed category active) db.templates)), db)

-- ORDER BY name ASC, in the collation of the database.
unfoldable pub list_chalani_templates :
    (String → String → Bool) → Option String → Option Bool → ℤ → ℤ → Exec (List ChalaniTemplate)
unfolding statement sort
list_chalani_templates text_ge category active limit offset = statement λ db.
    page limit offset
      (sort (λ (a b : ChalaniTemplate). text_ge b.name a.name)
        (select (filed category active) db.templates))
      db

pub record UpdateChalaniTemplateParams : Type 0 where
  pub id : Uuid
  pub name : Option String
  pub category : Option String
  pub subject : Option String
  pub body : Option String
  pub required_signatory_role_ids : Option (List String)
  pub is_active : Option Bool

-- COALESCE($n, column)
abbrev coalesce : {A : Type 0} → Option A → A → A
coalesce none a = a
coalesce (some b) a = b

-- The trigger on the table writes NOW() in `updated_at`.
abbrev changed : Db → UpdateChalaniTemplateParams → ChalaniTemplate → ChalaniTemplate
changed db p t = record t {
  name = coalesce p.name t.name;
  category = coalesce p.category t.category;
  subject = coalesce p.subject t.subject;
  body = coalesce p.body t.body;
  required_signatory_role_ids =
      coalesce p.required_signatory_role_ids t.required_signatory_role_ids;
  is_active = coalesce p.is_active t.is_active;
  updated_at = at_time db.now;
}

abbrev update_found : Option ChalaniTemplate → UpdateChalaniTemplateParams → Exec ChalaniTemplate
update_found none p db = (err (database no_rows), db)
update_found (some t) p db = (
  ok (changed db p t),
  record db { templates = replace template_key (changed db p t) db.templates },
)

unfoldable pub update_chalani_template : UpdateChalaniTemplateParams → Exec ChalaniTemplate
unfolding statement
update_chalani_template p = statement λ db. update_found (find template_key p.id db.templates) p db
