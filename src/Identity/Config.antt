-- ===== src/Identity/Config.antt =====
-- services/identity/internal/config/config.go: the configuration, from the environment.
use e_palika.Prelude.{String, ◌==◌, string_eq, if◌then◌else◌}
use e_palika.Domain.Errors.{plain}
use e_palika.Store.Exec.{Result, ok, err}

-- `os.Getenv`, which answers with the empty text for a variable that is not set.
abbrev pub Env : Type 0
Env = String → String

pub record KeycloakConfig : Type 0 where
  pub url : String
  pub realm : String
  pub client_id : String
  pub client_secret : String

pub record Config : Type 0 where
  pub port : String
  pub keycloak : KeycloakConfig

unfoldable pub get_env : Env → String → String → String
get_env env key default_value = if env key == "" then default_value else env key

abbrev pub read_config : Env → Config
read_config env = record {
  port = get_env env "PORT" "9001";
  keycloak = record {
    url = get_env env "KEYCLOAK_URL" "http://keycloak:8083";
    realm = get_env env "KEYCLOAK_REALM" "epalika";
    client_id = get_env env "KEYCLOAK_CLIENT_ID" "identity-service";
    client_secret = get_env env "KEYCLOAK_CLIENT_SECRET" "";
  };
}

unfoldable pub load : Env → Result Config
unfolding get_env
load env =
    let cfg = read_config env in
    if cfg.keycloak.client_secret == ""
    then err (plain "KEYCLOAK_CLIENT_SECRET is required")
    else ok cfg
