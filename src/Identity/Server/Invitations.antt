-- ===== src/Identity/Server/Invitations.antt =====
-- InviteUser of services/identity/internal/grpc/server.go on every branch.
use e_palika.Prelude.{◌≡◌, refl, ap, String, Option, some}
use e_palika.Prelude.Int.{ℤ}
use e_palika.Domain.Errors.{Code, Error, wrapped, statusf}
use e_palika.Store.Exec.{Result, ok, err}
use e_palika.Identity.Keycloak.{User, Client, Gocloak, converted}
use e_palika.Identity.Messages.{UserMessage, InviteUserInput}
use e_palika.Identity.Keycloak
use e_palika.Identity.Converters.{convert_keycloak_user_to_proto, invited_user}
use e_palika.Identity.Converters.RoundTrip.{
  kept, as_user, convert_keycloak_user_to_proto-invited_user,
}
use e_palika.Identity.Server.{invite_user, after_creation}

module _ {S : Type 0} (g : Gocloak S) (c : Client) where
  -- Keycloak's answer to the creation of the user, and to the look-up of `id` in the state after it.
  abbrev creation : InviteUserInput → S → Result String × S
  creation i s = g.create_user c.admin_token c.realm (invited_user i) s

  abbrev look_up : InviteUserInput → String → S → Result User × S
  look_up i id s = g.get_user_by_id c.admin_token c.realm id (creation i s).1

  -- The three ways in which a call with an input ends.
  pub data Invitation (i : InviteUserInput) (s : S) (r : Result UserMessage × S) : Type 0 where
    not_created :
        (e : Error)
        → (creation i s).0 ≡ err e
        → r ≡ (
          err (statusf Code.internal "failed to create user" (wrapped "failed to create user" e)),
          (creation i s).1,
        )
        → Invitation i s r
    not_found :
        (id : String) (e : Error)
        → (creation i s).0 ≡ ok id
        → (look_up i id s).0 ≡ err e
        → r ≡ (
          err (
              statusf Code.internal "failed to retrieve created user"
                (wrapped "failed to get user" e)),
          (look_up i id s).1,
        )
        → Invitation i s r
    invited :
        (id : String) (u : User)
        → (creation i s).0 ≡ ok id
        → (look_up i id s).0 ≡ ok u
        → r ≡ (ok (convert_keycloak_user_to_proto u), (look_up i id s).1)
        → Invitation i s r

  looked_up :
      (i : InviteUserInput) (s : S) (id : String) (r : Result User)
      → (creation i s).0 ≡ ok id
      → (look_up i id s).0 ≡ r
      → Invitation i s (
        converted
            (statusf Code.internal "failed to retrieve created user")
            convert_keycloak_user_to_proto
            (converted (wrapped "failed to get user") (λ u. u) r),
        (look_up i id s).1,
      )
  looked_up i s id (ok u) made found = invited id u made found refl
  looked_up i s id (err e) made found = not_found id e made found refl

  created :
      (i : InviteUserInput) (s : S) (r : Result String)
      → (creation i s).0 ≡ r
      → Invitation i s (
          after_creation g c
            (converted (wrapped "failed to create user") (λ id. id) r)
            (creation i s).1)
  unfolding Keycloak.get_user
  created i s (ok id) made = looked_up i s id _ made refl
  created i s (err e) made = not_created e made refl

  -- InviteUser with an input, whatever Keycloak does: if the creation fails, it answers with Internal and
  -- looks nothing up; if the look-up of the created user fails, it answers with Internal, and the user
  -- stays; else it answers with the user that was looked up.
  pub invite_user-outcome :
      (i : InviteUserInput) (s : S) → Invitation i s (invite_user g c (some i) s)
  unfolding invite_user Keycloak.create_user
  invite_user-outcome i s = created i s _ refl

  -- If Keycloak keeps the user as it was sent, with the id that it gives and an instant, InviteUser
  -- answers with the invitation as an active user under that id.
  pub invite_user-succeeds :
      (i : InviteUserInput) (s : S) (id : String) (instant : Option ℤ)
      → (creation i s).0 ≡ ok id
      → (look_up i id s).0 ≡ ok (kept i id instant)
      → (invite_user g c (some i) s).0 ≡ ok (as_user i id instant)
  unfolding invite_user Keycloak.create_user Keycloak.get_user
  invite_user-succeeds i s id instant made found =
      rw (made, found) (ap (λ u. ok u) (convert_keycloak_user_to_proto-invited_user i id instant))
