-- ===== src/Examples/Reporting.antt =====
-- The report of a node with one busy device, and a server that has lost the node's object.
use nvidia_gpu_scheduler.Prelude.{
  Option, ap, sym, ◌∙◌, ℕ, ◌≡◌, refl, false, [], ◌∷◌, none, some, str_eq, Map, if◌then◌else◌,
}
use nvidia_gpu_scheduler.Sets.Plain.{plain}
use nvidia_gpu_scheduler.Api.{GpuNode, GpuNodeSpec}
use nvidia_gpu_scheduler.Reconcile.{not_found}
use nvidia_gpu_scheduler.Report.{
  PodResources, NodeGpuInfo, Reporter, GpuNodes, produce_node_gpu_info_crd,
}
use nvidia_gpu_scheduler.Report.Stored.{Storing}
use nvidia_gpu_scheduler.Report.Recreate.{never_created_again}
use nvidia_gpu_scheduler.Examples.Cluster.{node_a}

abbrev pub info : NodeGpuInfo plain
info = record {
  node_name = "a";
  gpu_infos = [];
  models = ("tesla t4", plain.insert plain.new ("d1" ∷ "d2" ∷ [])) ∷ [];
}

abbrev pods : Map PodResources
pods =
    (
      "ns/p",
      record {
        name = "p";
        namespace = "ns";
        containers =
            record {
              name = "c";
              devices = record { resource_name = "nvidia.com/gpu"; device_ids = "d2" ∷ [] } ∷ [];
            }
            ∷ [];
      },
    )
    ∷ []

-- The server has no GpuNode, and takes a creation only without a resource version.
abbrev empty_server : GpuNodes ℕ
empty_server = record {
  get = λ name w. not_found;
  update = λ n w. (none, w);
  create = λ n w. if str_eq n.resource_version "" then (some n, w) else (none, w);
}

abbrev reporter : Reporter plain
reporter = record {
  node_name = "a";
  gpu_node_last = some node_a;
  last_node_gpu_info = some info;
  podresources_last = some pods;
}

rejects_versions :
    (n : GpuNode) → str_eq n.resource_version "" ≡ false → empty_server.create n 0 ≡ (none, 0)
rejects_versions n h = rw h refl

never_created_again_example :
    produce_node_gpu_info_crd plain empty_server (9 ∷ 10 ∷ []) (reporter, 0)
    ≡ ((reporter, 0), false)
never_created_again_example =
    never_created_again plain empty_server reporter 0 node_a refl refl refl (λ n. refl)
      rejects_versions (9 ∷ 10 ∷ [])

-- A server that holds one object, and gives it a new version.
abbrev pub versioned : GpuNode → GpuNode
versioned = λ n. record n { resource_version = "8" }

abbrev pub one_object : GpuNodes (Option GpuNode)
one_object = record {
  get = λ name w. not_found;
  update = λ n w. (some (versioned n), some (versioned n));
  create = λ n w. (some (versioned n), some (versioned n));
}

abbrev spec_or : GpuNodeSpec → Option GpuNode → GpuNodeSpec
spec_or spec none = spec
spec_or spec (some n) = n.spec

pub answers_held :
    (n m : GpuNode) (w v : Option GpuNode)
    → one_object.update n w ≡ (some m, v)
    → (v ≡ some m) × (m.spec ≡ n.spec)
answers_held n m w v e =
    (sym (ap (λ x. x.1) e) ∙ ap (λ x. x.0) e, sym (ap (λ x. spec_or n.spec x.0) e))

pub one_object-Storing : Storing one_object
one_object-Storing = record {
  held = λ w. w;
  update-held = λ n m w v e. answers_held n m w v e;
  create-held = λ n m w v e. answers_held n m w v e;
}
