-- ===== src/Offload/Tests.antt =====
-- The theorems on the split of layers at a concrete machine.
use hive_bear.Prelude.{ℕ, ◌-◌, ◌*◌, ◌^◌, ◌≡◌, refl, true, false, none, some, [], ◌∷◌}
use hive_bear.Prelude.Text.{codes}
use hive_bear.Float.{fixed_point}
use hive_bear.Hardware.{HardwareProfile, cuda, ac, gpu_memory}
use hive_bear.Offload.{
  div_or, gpu_layers_of, cpu_layers_of, mesh_layers_of, if_any, split_layers,
  calculate_offload_with_mesh,
}
use hive_bear.Offload.Capacity.{IsSplit, Fits, calculate_offload-IsSplit, calculate_offload-Fits}

abbrev gb : ℕ
gb = 1024 * 1024 * 1024

abbrev machine : HardwareProfile fixed_point
machine = record {
  cpu = record {
    model_name = codes "cpu";
    physical_cores = 8;
    logical_cores = 16;
    isa_extensions = [];
    cache_size_bytes = 0;
  };
  memory = record {
    total_bytes = 16 * gb;
    available_bytes = 12 * gb;
    estimated_bandwidth_gbps = 50000;
  };
  gpus =
      record {
        name = codes "RTX 3060";
        vram_bytes = 4 * gb;
        compute_api = cuda;
        driver_version = none;
      }
      ∷ [];
  storage = record { available_bytes = 100 * gb; estimated_read_speed_mbps = 500000 };
  platform = record {
    os = codes "linux";
    arch = codes "x86_64";
    is_mobile = false;
    power_source = ac;
  };
}

calculate_offload-IsSplit_example :
    IsSplit 80 (calculate_offload_with_mesh (40 * gb) 80 machine 4096 (some (8 * gb)))
calculate_offload-IsSplit_example =
    calculate_offload-IsSplit (40 * gb) 80 machine 4096 (some (8 * gb))

calculate_offload-Fits_example :
    Fits
      (div_or (40 * gb) 80 (40 * gb))
      (gpu_memory machine.gpus - 4096 * 256 * 1024)
      (fixed_point.trunc_u64
        (fixed_point.mul (fixed_point.of_nat (12 * gb)) (fixed_point.literal 85 2)))
      (8 * gb)
      (calculate_offload_with_mesh (40 * gb) 80 machine 4096 (some (8 * gb)))
calculate_offload-Fits_example =
    calculate_offload-Fits (40 * gb) 80 machine 4096 (some (8 * gb)) (unfold gpu_memory in refl)

-- The cut of the quotient to 32 bits: memory for 2 ^ 32 layers of one byte holds none of 10.
cut_quotient : split_layers 1 (2 ^ 32) 10 10 1 none ≡ record {
  gpu_layers = some 0;
  cpu_layers = some 0;
  disk_mmap = true;
  mesh_layers = none;
  auto = false;
}
unfolding split_layers gpu_layers_of cpu_layers_of mesh_layers_of if_any div_or
cut_quotient = refl
