-- ===== src/Contribution/Tests.antt =====
-- The theorems on contribution plans at concrete machines.
use hive_bear.Prelude.{◌*◌, [], ◌∷◌}
use hive_bear.Contribution.{HardwareProfile, gb}

abbrev laptop : HardwareProfile
laptop = record { gpu_vram_bytes = 6 * gb ∷ []; available_bytes = 8 * gb; physical_cores = 8 }

abbrev desktop : HardwareProfile
desktop = record {
  gpu_vram_bytes = 12 * gb ∷ 12 * gb ∷ [];
  available_bytes = 32 * gb;
  physical_cores = 16;
}
