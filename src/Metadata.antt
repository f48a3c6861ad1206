-- ===== src/Metadata.antt =====
-- The names of the service: init of pkg/util/info/metadata/metadata.go.
pub mod Suffix
use Prim.Native.Char.{Char, code}
use Prim.Native.String.{String as Text, ◌++◌ as concat}
use nvidia_gpu_scheduler.Prelude.{
  ℕ, Bool, true, false, ◌||◌, Option, none, some, String, str_eq, ◌==◌, if◌then◌else◌,
}

abbrev pub service_name : String
service_name = "nvidia-gpu-scheduler"

abbrev pub service_namespace : String
service_namespace = "kube-system"

pub record Metadata : Type 0 where
  pub metadata_name : String
  pub metadata_namespace : String
  pub svc_name : String

pub prepend : Char → Option String → Option String
prepend c none = none
prepend c (some s) = some (Text.◌∷◌ c s)

pub cut_here : Bool → Option String → Option String
cut_here true none = some ""
cut_here false none = none
cut_here b (some s) = some s

-- idx := strings.LastIndex(name, "-"), and name[:idx]: `none` without a dash, where idx is -1 and
-- the slice panics.
unfoldable pub before_last_dash : String → Option String
unfolding prepend cut_here
before_last_dash Text.[] = none
before_last_dash (Text.◌∷◌ c s) = cut_here (code c == 45) (prepend c (before_last_dash s))

abbrev pub with_service : String → String → Metadata
with_service name namespace = record {
  metadata_name = name;
  metadata_namespace = namespace;
  svc_name = concat name (concat "." (concat namespace ".svc"));
}

pub with_pod_name : String → Option String → Option Metadata
with_pod_name namespace none = none
with_pod_name namespace (some name) = some (with_service name namespace)

-- The environment's MetadataName and MetadataNamespace; `none` is a panic.
unfoldable pub init_metadata : String → String → Option Metadata
unfolding with_pod_name before_last_dash
init_metadata name namespace =
    if str_eq name "" || str_eq namespace ""
    then some (with_service service_name service_namespace)
    else with_pod_name namespace (before_last_dash name)
