-- ===== src/Lease.antt =====
-- The lease of a node: SetNodeOwnerFunc of pkg/util/serverds/gpunodelease.go, startLeaseController
-- and ensureNamespace of pkg/gpuserver-ds/controller/lease_controller.go. The controller that renews
-- the lease is a library: it calls the function of SetNodeOwnerFunc at each renewal.
pub mod Owners
use nvidia_gpu_scheduler.Prelude.{
  ℕ, Bool, true, false, ◌&&◌, List, [], ◌∷◌, Option, none, some, String, str_eq, if◌then◌else◌,
}

pub record OwnerReference : Type 0 where
  pub api_version : String
  pub kind : String
  pub name : String
  pub uid : String

pub record Lease : Type 0 where
  pub owner_references : List OwnerReference

-- gpuv1.SchemeGroupVersion.WithKind("GpuNode").Version and .Kind
abbrev pub owner_of : String → String → OwnerReference
owner_of node_name uid = record {
  api_version = "v1";
  kind = "GpuNode";
  name = node_name;
  uid = uid;
}

abbrev pub is_empty : List OwnerReference → Bool
is_empty [] = true
is_empty (o ∷ os) = false

-- The lease after the call, and whether there is no error. The node that the api server answers with
-- is told by its UID.
pub with_node : String → Lease → Option String → Lease × Bool
with_node node_name lease none = (lease, false)
with_node node_name lease (some uid) =
    (record { owner_references = owner_of node_name uid ∷ [] }, true)

-- NodePushed is 1 after the first report of the node.
unfoldable pub set_node_owner_func : String → Bool → Option String → Lease → Lease × Bool
unfolding with_node
set_node_owner_func node_name node_pushed get lease =
    if is_empty lease.owner_references && node_pushed
    then with_node node_name lease get
    else (lease, true)

-- Namespaces().Get
pub data Namespace : Type 0 where
  namespace_found : Namespace
  namespace_not_found : Namespace
  namespace_error : String → Namespace

-- The second argument is the error of Namespaces().Create.
unfoldable pub ensure_namespace : Namespace → Option String → Option String
ensure_namespace namespace_found create = none
ensure_namespace namespace_not_found create = create
ensure_namespace (namespace_error e) create = some e

-- The first argument is the environment's NODENAME. Without an error the controller is started.
unfoldable pub start_lease_controller : String → Namespace → Option String → Option String
unfolding ensure_namespace
start_lease_controller node namespace create =
    if str_eq node "" then some "unable get env NODENAME" else ensure_namespace namespace create

abbrev pub lease_exit_code : ℕ
lease_exit_code = 101

-- The code that the process exits with.
abbrev pub exit_of : Option String → Option ℕ
exit_of none = none
exit_of (some e) = some lease_exit_code

unfoldable pub start_lease_controller_err_exit : String → Namespace → Option String → Option ℕ
unfolding start_lease_controller
start_lease_controller_err_exit node namespace create =
    exit_of (start_lease_controller node namespace create)
