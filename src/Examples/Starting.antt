-- ===== src/Examples/Starting.antt =====
-- A gpuserver all of whose calls succeed, and the names of its service.
use Prim.Native.String.{◌++◌ as concat}
use nvidia_gpu_scheduler.Prelude.{◌≡◌, ◌&&◌, refl, false, true, none, some, str_eq}
use nvidia_gpu_scheduler.Sets.Plain.{plain}
use nvidia_gpu_scheduler.Startup.{got}
use nvidia_gpu_scheduler.Startup.Clients.{get_kube_and_aggregator_clientset}
use nvidia_gpu_scheduler.Startup.Certs.{initialize_cert}
use nvidia_gpu_scheduler.Startup.Server.{ServerFlags, ServerEnv, server_closed, runserver}
use nvidia_gpu_scheduler.Startup.Server.Serving.{is_none, serves, can_serve_certs, runserver-serves}
use nvidia_gpu_scheduler.Metadata.{with_service, init_metadata}
use nvidia_gpu_scheduler.Metadata.Suffix.{has_dash, init_metadata-suffix}

abbrev flags : ServerFlags
flags = record {
  write_config_to = "";
  tls_auto = true;
  tls_config = record { ca_cert = ""; cert = ""; key = "" };
  enable_scheduler = true;
  parallelism = 10;
}

abbrev env : ServerEnv
env = record {
  config_file = record { marshal = none; create = none; copy = none };
  client_config = record {
    stat = none;
    in_cluster_config = none;
    build_config_from_flags = none;
    kube_client = none;
    aggregator_client = none;
    gpu_client = none;
    gpu_pod_client = none;
  };
  svc_name = "nvidia-gpu-scheduler.kube-system.svc";
  cert_writer = record {
    new_secret_cert_writer = none;
    ensure_cert = λ name. got (record { ca_cert = "ca"; cert = "c"; key = "k" });
    write_certs_to_dir = λ certs. none;
  };
  read_file = λ path. got "";
  patch_api_service = λ cacert. none;
  x509_key_pair = λ cert key. got cert;
  listen = λ t. none;
  manager = record {
    get_config_or_die = none;
    new_manager = none;
    setup_gpu_node = none;
    setup_gpu_pod = none;
    add_healthz_check = none;
    add_readyz_check = none;
  };
  serve = server_closed;
}

runserver-serves_example : serves (runserver plain flags env).acts ≡ (
    str_eq "" ""
    && (true
        && (is_none (get_kube_and_aggregator_clientset env.client_config)
            && can_serve_certs plain flags env (initialize_cert env.cert_writer env.svc_name))))
runserver-serves_example = runserver-serves plain flags env

no_dash : has_dash "x7k2p" ≡ false
unfolding has_dash
no_dash = refl

init_metadata-suffix_example :
    init_metadata (concat "gpu-scheduler" (concat "-" "x7k2p")) "kube-system"
    ≡ some (with_service "gpu-scheduler" "kube-system")
init_metadata-suffix_example =
    init_metadata-suffix "gpu-scheduler" "x7k2p" "kube-system" no_dash refl refl
