-- ===== src/Bosh.antt =====
-- bosh/: how to reach the BOSH director, and how far a deployment is. shell/bosh_envs.go prints the
-- former for a shell.
pub mod Progress
pub mod Shell
use cfdev.Common.{String, ◌<>◌, List, [], ◌∷◌}
use cfdev.Common.Paths.{join_path}
use cfdev.Common.Text.Fields.{trimmed}
use cfdev.Configuration.{Config}
use cfdev.Runtime.{Result, ok, err, ◌>>=◌, pure}
use cfdev.System.{System, Op, Run, read_file, reading, observing}

-- `Config`
pub record BoshConfig : Type 0 where
  pub admin_username : String
  pub admin_password : String
  pub ca_certificate : String
  pub director_address : String
  pub gateway_host : String
  pub gateway_private_key : String
  pub gateway_username : String

abbrev empty_config : BoshConfig
empty_config = record {
  admin_username = "";
  admin_password = "";
  ca_certificate = "";
  director_address = "";
  gateway_host = "";
  gateway_private_key = "";
  gateway_username = "";
}

config_with : Config → String → BoshConfig
config_with c secret = record {
  admin_username = "admin";
  admin_password = secret;
  ca_certificate = join_path (c.state_bosh ∷ "ca.crt" ∷ []);
  director_address = c.bosh_director_ip;
  gateway_host = c.bosh_director_ip;
  gateway_private_key = join_path (c.state_bosh ∷ "jumpbox.key" ∷ []);
  gateway_username = "jumpbox";
}

or_empty : Result BoshConfig → BoshConfig
or_empty (ok b) = b
or_empty (err e) = empty_config

-- The variables, for a configuration of the director.
variables : Config → BoshConfig → List String
variables c b =
    ("BOSH_ENVIRONMENT=" <> b.director_address)
    ∷ ("BOSH_CLIENT=" <> b.admin_username)
    ∷ ("BOSH_CLIENT_SECRET=" <> b.admin_password)
    ∷ ("BOSH_CA_CERT=" <> b.ca_certificate)
    ∷ ("BOSH_GW_HOST=" <> b.gateway_host)
    ∷ ("BOSH_GW_USER=" <> b.gateway_username)
    ∷ ("BOSH_GW_PRIVATE_KEY=" <> b.gateway_private_key)
    ∷ ("SERVICES_DIR=" <> c.services_dir)
    ∷ ("CACHE_DIR=" <> c.cache_dir)
    ∷ ("BOSH_STATE=" <> c.state_bosh)
    ∷ ("CF_DOMAIN=" <> c.cf_domain)
    ∷ []

-- What the director is reached by: the address, the port, the certificate, the client and its
-- secret.
pub record Director : Type 0 where
  pub host : String
  pub port : String
  pub ca_cert : String
  pub client : String
  pub client_secret : String

module _ (s : System) (c : Config) where
  -- `FetchConfig`
  unfoldable pub fetch_config : Run BoshConfig
  unfolding reading config_with
  fetch_config = do
    content ← reading s (read_file (join_path (c.state_bosh ∷ "secret" ∷ [])))
    pure (config_with c (trimmed content))

  -- `Envs`: an error leaves the variables of the director empty.
  unfoldable pub envs : Run (List String)
  unfolding observing or_empty variables
  envs = do b ← observing fetch_config; pure (variables c (or_empty b))

  -- What `New` hands to the library's factory, whose error `New` wraps.
  unfoldable pub director_config : Run Director
  unfolding reading
  director_config = do
    secret ← reading s (read_file (join_path (c.state_bosh ∷ "secret" ∷ [])))
    ca_cert ← reading s (read_file (join_path (c.state_bosh ∷ "ca.crt" ∷ [])))
    pure (record {
      host = c.bosh_director_ip;
      port = "25555";
      ca_cert = trimmed ca_cert;
      client = "admin";
      client_secret = trimmed secret;
    })
