-- ===== src/Secrets.antt =====
-- How gpuserver-ds waits for the certificate: EnsureGetCaFromSecrets of pkg/util/serverds/server.go.
pub mod Waiting
use nvidia_gpu_scheduler.Prelude.{List, [], ◌∷◌, Option, none, some, String, Map, lookup}

-- secret.Data[writer.CACertName], the empty value for a missing key
abbrev pub value_or_empty : Option String → String
value_or_empty none = ""
value_or_empty (some cacert) = cacert

pub ca_of : String → Map String → String
unfolding lookup
ca_of ca_cert_name data_of_secret = value_or_empty (lookup ca_cert_name data_of_secret)

-- What Get answers at each tick: the data of the secret, or an error. `none` while the function has
-- not returned.
unfoldable pub ensure_get_ca_from_secrets : String → List (Option (Map String)) → Option String
unfolding ca_of
ensure_get_ca_from_secrets ca_cert_name [] = none
ensure_get_ca_from_secrets ca_cert_name (none ∷ ticks) =
    ensure_get_ca_from_secrets ca_cert_name ticks
ensure_get_ca_from_secrets ca_cert_name (some secret ∷ ticks) = some (ca_of ca_cert_name secret)
