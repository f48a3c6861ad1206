-- ===== src/Startup/Clients.antt =====
-- LogOrWriteConfig, GetKubeAndAggregatorClientset, EnsureAPIService and GetTlsConfig of
-- pkg/util/server/server.go.
use nvidia_gpu_scheduler.Prelude.{Option, none, some, String, str_eq, if◌then◌else◌}
use nvidia_gpu_scheduler.Startup.{Tried, got, error, Ended, returned, exited, panicked}

-- yaml.Marshal, os.Create and io.Copy
pub record ConfigFile : Type 0 where
  pub marshal : Option String
  pub create : Option String
  pub copy : Option String

pub after_copy : Option String → Ended
after_copy none = exited 0
after_copy (some e) = returned (some e)

pub after_create : ConfigFile → Option String → Ended
unfolding after_copy
after_create file none = after_copy file.copy
after_create file (some e) = returned (some e)

pub after_marshal : ConfigFile → String → Option String → Ended
unfolding after_create
after_marshal file file_name (some e) = returned (some e)
after_marshal file file_name none =
    if str_eq file_name "" then returned none else after_create file file.create

unfoldable pub log_or_write_config : ConfigFile → String → Ended
unfolding after_marshal
log_or_write_config file file_name = after_marshal file file_name file.marshal

-- os.Stat of the home file, the configuration in the cluster or from that file, and the four
-- NewForConfig.
pub record ClientConfig : Type 0 where
  pub stat : Option String
  pub in_cluster_config : Option String
  pub build_config_from_flags : Option String
  pub kube_client : Option String
  pub aggregator_client : Option String
  pub gpu_client : Option String
  pub gpu_pod_client : Option String

-- The first error, where the second call is made only after the first one has none.
abbrev pub or_next : Option String → Option String → Option String
or_next none next = next
or_next (some e) next = some e

abbrev pub rest_config : ClientConfig → Option String → Option String
rest_config c none = c.build_config_from_flags
rest_config c (some e) = c.in_cluster_config

-- The error, or nil with all of the clients.
unfoldable pub get_kube_and_aggregator_clientset : ClientConfig → Option String
get_kube_and_aggregator_clientset c =
    or_next (rest_config c c.stat)
      (or_next c.kube_client (or_next c.aggregator_client (or_next c.gpu_client c.gpu_pod_client)))

-- The patch of the APIService with the certificate; `none` is a nil client, whose method is called.
unfoldable pub ensure_api_service : Option (String → Option String) → String → Ended
ensure_api_service none cacert = panicked
ensure_api_service (some patch) cacert = returned (patch cacert)

pub record Artifacts : Type 0 where
  pub ca_cert : String
  pub cert : String
  pub key : String

-- What the listener is configured with: RootCAs and the key pair.
pub record TlsSettings : Type 0 where
  pub root_cas : String
  pub certificate : String

pub with_pair : Artifacts → Tried String → Tried TlsSettings
with_pair certs (got pair) = got (record { root_cas = certs.ca_cert; certificate = pair })
with_pair certs (error e) = error e

-- The first argument is tls.X509KeyPair.
unfoldable pub get_tls_config : (String → String → Tried String) → Artifacts → Tried TlsSettings
unfolding with_pair
get_tls_config x509_key_pair certs = with_pair certs (x509_key_pair certs.cert certs.key)
