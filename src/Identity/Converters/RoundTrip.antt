-- ===== src/Identity/Converters/RoundTrip.antt =====
-- services/identity/internal/grpc/server.go: an invited user reads back as the invitation says.
use e_palika.Prelude.{
  ◌≡◌, refl, sym, ◌∙◌, inl, inr, true, false, String, Option, none, some, ◌++◌, ◌==◌, string_eq,
  eq_iff, lookup, Bool-cases,
}
use e_palika.Prelude.Int.{ℤ}
use e_palika.Identity.Keycloak.{User, Attributes}
use e_palika.Identity.Messages.{
  UserStatus, PersonMessage, UserMessage, PersonInput, InviteUserInput,
}
use e_palika.Identity.Converters.{
  attribute, entry, unix_milli, convert_keycloak_user_to_proto, invited_user,
}

-- An entry that is written is read; one that is not written reads as the empty text, which it holds.
entry-first :
    (key value : String) (rest : Attributes)
    → (key == key) ≡ true
    → attribute rest key ≡ ""
    → attribute (entry key value ++ rest) key ≡ value
unfolding attribute lookup
entry-first key value rest same missing = elim (Bool-cases (value == "")) [
  | inl empty ↦ rw empty (missing ∙ sym ((eq_iff value "").0 empty))
  | inr given ↦ rw (given, same) refl
]

-- An entry of another key is passed over.
entry-other :
    (key other value : String) (rest : Attributes)
    → (other == key) ≡ false
    → attribute (entry other value ++ rest) key ≡ attribute rest key
unfolding attribute lookup
entry-other key other value rest differs = elim (Bool-cases (value == "")) [
  | inl empty ↦ rw empty refl
  | inr given ↦ rw (given, differs) refl
]

module _ (a b c : String) where
  abbrev dates : Attributes
  dates = entry "dateOfBirth" c

  abbrev names : Attributes
  names = entry "preferredName" b ++ dates

  last : (key : String) → ("dateOfBirth" == key) ≡ false → attribute dates key ≡ ""
  unfolding attribute lookup
  last key differs = elim (Bool-cases (c == "")) [
    | inl empty ↦ rw empty refl
    | inr given ↦ rw (given, differs) refl
  ]

  legal : attribute (entry "legalName" a ++ names) "legalName" ≡ a
  legal =
      entry-first "legalName" a names refl
        (entry-other "legalName" "preferredName" b dates refl ∙ last "legalName" refl)

  preferred : attribute (entry "legalName" a ++ names) "preferredName" ≡ b
  preferred =
      entry-other "preferredName" "legalName" a names refl
      ∙ entry-first "preferredName" b dates refl (last "preferredName" refl)

  born : attribute (entry "legalName" a ++ names) "dateOfBirth" ≡ c
  unfolding attribute lookup
  born =
      entry-other "dateOfBirth" "legalName" a names refl
      ∙ entry-other "dateOfBirth" "preferredName" b dates refl
      ∙ elim (Bool-cases (c == "")) [
        | inl empty ↦ rw empty (sym ((eq_iff c "").0 empty))
        | inr given ↦ rw given refl
      ]

-- The user that Keycloak keeps for an invitation: as it was sent, with an id and an instant.
abbrev pub kept : InviteUserInput → String → Option ℤ → User
kept i id created = record (invited_user i) { id = some id; created_timestamp = created }

abbrev person_message : String → Option PersonInput → Option PersonMessage
person_message id none = none
person_message id (some p) = some (record {
  id = id;
  legal_name = p.legal_name;
  preferred_name = p.preferred_name;
  date_of_birth = p.date_of_birth;
})

abbrev legal_name_of : Option PersonInput → String
legal_name_of none = ""
legal_name_of (some p) = p.legal_name

-- The invitation as a user.
abbrev pub as_user : InviteUserInput → String → Option ℤ → UserMessage
as_user i id created = record {
  id = id;
  username = i.username;
  email = i.email;
  full_name = legal_name_of i.person;
  status = UserStatus.active;
  person = person_message id i.person;
  created_at = unix_milli created;
}

read_back :
    (i : InviteUserInput) (person : Option PersonInput) (id : String) (created : Option ℤ)
    → convert_keycloak_user_to_proto (kept (record i { person = person }) id created)
      ≡ as_user (record i { person = person }) id created
unfolding convert_keycloak_user_to_proto invited_user
read_back i none id created = refl
read_back i (some p) id created =
    let a = p.legal_name in
    let b = p.preferred_name in
    let c = p.date_of_birth in rw (legal a b c, preferred a b c, born a b c) refl

-- What InviteUser writes into Keycloak's user is what the conversion of that user reads: the name, the
-- address, and every field of the person, the empty ones included, with the legal name as the full
-- name. The user is active.
pub convert_keycloak_user_to_proto-invited_user :
    (i : InviteUserInput) (id : String) (created : Option ℤ)
    → convert_keycloak_user_to_proto (kept i id created) ≡ as_user i id created
convert_keycloak_user_to_proto-invited_user i id created = read_back i i.person id created
