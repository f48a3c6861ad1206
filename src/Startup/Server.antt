-- ===== src/Startup/Server.antt =====
-- runserver of cmd/gpuserver/app/server.go.
pub mod Serving
use Prim.Native.String.{◌++◌ as concat}
use nvidia_gpu_scheduler.Prelude.{
  ℕ, Bool, true, false, not, List, [], ◌∷◌, Option, none, some, String, str_eq, if◌then◌else◌,
}
use nvidia_gpu_scheduler.Sets.{StringSet}
use nvidia_gpu_scheduler.Scheduler.{Made, made, failed}
use nvidia_gpu_scheduler.GpuModelFit.{ServerController, new_server_controller}
use nvidia_gpu_scheduler.Routing.{LocalRoute, register_routes}
use nvidia_gpu_scheduler.Startup.{
  Tried, got, error, Ended, returned, exited, panicked, Outcome, end_with, act, check, check_value,
}
use nvidia_gpu_scheduler.Startup.Clients.{
  ConfigFile, log_or_write_config, ClientConfig, get_kube_and_aggregator_clientset,
  ensure_api_service, Artifacts, TlsSettings, get_tls_config,
}
use nvidia_gpu_scheduler.Startup.Certs.{
  CertWriter, initialize_cert, TlsConfig, initialize_cert_with_file,
}
use nvidia_gpu_scheduler.Startup.Manager.{Manager, start_gpu_manager}

-- The flags; the address is only passed on to tls.Listen.
pub record ServerFlags : Type 0 where
  pub write_config_to : String
  pub tls_auto : Bool
  pub tls_config : TlsConfig
  pub enable_scheduler : Bool
  pub parallelism : ℕ

-- What srv.Serve returns.
pub data Serve : Type 0 where
  server_closed : Serve
  serve_nil : Serve
  serve_error : String → Serve

-- The libraries: what their calls answer. `svc_name` is metadata.ServiceName().
pub record ServerEnv : Type 0 where
  pub config_file : ConfigFile
  pub client_config : ClientConfig
  pub svc_name : String
  pub cert_writer : CertWriter
  pub read_file : String → Tried String
  pub patch_api_service : String → Option String
  pub x509_key_pair : String → String → Tried String
  pub listen : TlsSettings → Option String
  pub manager : Manager
  pub serve : Serve

pub data ServerAct : Type 0 where
  -- the certificate that the APIService is patched with
  patched : String → ServerAct
  listening : TlsSettings → ServerAct
  manager_started : ServerAct
  registered : List LocalRoute → ServerAct
  serving : ServerAct

pub serve_end : Serve → Ended
serve_end server_closed = returned none
serve_end serve_nil = returned none
serve_end (serve_error e) = returned (some e)

module _ (S : StringSet) (flags : ServerFlags) (env : ServerEnv) where
  pub serve_routes : Made ServerController → Outcome ServerAct
  unfolding serve_end register_routes
  serve_routes (failed e) = end_with (returned (some e))
  serve_routes (made sc) =
      act (registered (register_routes flags.enable_scheduler))
        (act serving (end_with (serve_end env.serve)))

  pub serve_managed : Option ℕ → Outcome ServerAct
  unfolding serve_routes new_server_controller
  serve_managed (some code) = end_with (exited code)
  serve_managed none =
      act manager_started (serve_routes (new_server_controller S flags.parallelism))

  pub serve_tls : TlsSettings → Outcome ServerAct
  unfolding serve_managed start_gpu_manager
  serve_tls tlscfg =
      check (env.listen tlscfg)
        (act (listening tlscfg) (serve_managed (start_gpu_manager env.manager)))

  pub serve_patched : Artifacts → Ended → Outcome ServerAct
  unfolding serve_tls get_tls_config
  serve_patched certs panicked = end_with panicked
  serve_patched certs (exited code) = end_with (exited code)
  serve_patched certs (returned err) =
      check err (
        act (patched certs.ca_cert)
          (check_value (get_tls_config env.x509_key_pair certs) serve_tls))

  -- From EnsureAPIService on. Without TLSAuto there is no aggregatorClient.
  pub serve_with : Option (String → Option String) → Artifacts → Outcome ServerAct
  unfolding serve_patched ensure_api_service
  serve_with aggregator certs = serve_patched certs (ensure_api_service aggregator certs.ca_cert)

  unfoldable pub runserver : Outcome ServerAct
  unfolding log_or_write_config get_kube_and_aggregator_clientset initialize_cert
      initialize_cert_with_file serve_with
  runserver =
      if not (str_eq flags.write_config_to "")
      then end_with (log_or_write_config env.config_file flags.write_config_to)
      else if flags.tls_auto
      then check (get_kube_and_aggregator_clientset env.client_config) (
          check_value (initialize_cert env.cert_writer env.svc_name)
            (serve_with (some env.patch_api_service)))
      else check_value (initialize_cert_with_file env.read_file flags.tls_config) (serve_with none)
