-- ===== src/Examples/Keeping.antt =====
-- Writes to the tables by node and by device.
use nvidia_gpu_scheduler.Prelude.{[], ◌∷◌}
use nvidia_gpu_scheduler.Sets.Plain.{plain}
use nvidia_gpu_scheduler.Tables.{NodeGpuInfoMap, CacheGpuInfo}

abbrev table : NodeGpuInfoMap plain
table = record {
  nodegpuinfo = [];
  node_device_in_use = ("a", plain.insert plain.new ("d1" ∷ [])) ∷ [];
}

abbrev told : plain.Set
told = plain.insert plain.new ("d2" ∷ [])

abbrev entry : CacheGpuInfo
entry = record {
  gpu_info = record {
    device_id = "d1";
    brand = "";
    model = "Tesla T4";
    bus_id = "";
    node_name = "a";
  };
  last_update_time = 10;
}
