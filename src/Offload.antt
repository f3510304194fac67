-- ===== src/Offload.antt =====
-- Layers on the GPU, the CPU and mesh peers: crates/hivebear-inference/src/offload.rs.
pub mod Capacity
mod Tests
use hive_bear.Prelude.{
  ℕ, ◌+◌, ◌-◌, ◌*◌, ◌/◌, ◌%◌, ◌^◌, Bool, true, false, ◌&&◌, Option, none, some, ltb, ◌==◌,
  if◌then◌else◌, min,
}
use hive_bear.Float.{Float}
use hive_bear.Hardware.{HardwareProfile, gpu_memory}

pub record OffloadConfig : Type 0 where
  pub gpu_layers : Option ℕ
  pub cpu_layers : Option ℕ
  pub disk_mmap : Bool
  pub mesh_layers : Option ℕ
  pub auto : Bool

abbrev pub is_none : Option ℕ → Bool
is_none none = true
is_none (some n) = false

-- `checked_div` and `unwrap_or`.
unfoldable pub div_or : ℕ → ℕ → ℕ → ℕ
div_or a b default = if b == 0 then default else a / b

-- The layers on the GPU: the minimum is taken on `u64`.
unfoldable pub gpu_layers_of : ℕ → ℕ → ℕ → ℕ
gpu_layers_of usable_vram bytes_per_layer num_layers =
    if bytes_per_layer == 0
    then num_layers
    else min (usable_vram / bytes_per_layer) num_layers % 2 ^ 32

-- The layers in memory: the quotient is cut to `u32` before the minimum is taken.
unfoldable pub cpu_layers_of : ℕ → ℕ → ℕ → ℕ
cpu_layers_of available_ram bytes_per_layer remaining =
    if bytes_per_layer == 0
    then remaining
    else min (available_ram / bytes_per_layer % 2 ^ 32) remaining

-- The layers on mesh peers, where some remain.
unfoldable pub mesh_layers_of : Option ℕ → ℕ → ℕ → ℕ
mesh_layers_of none bytes_per_layer remaining = 0
mesh_layers_of (some capacity) bytes_per_layer remaining =
    if bytes_per_layer == 0 then remaining else min (capacity / bytes_per_layer % 2 ^ 32) remaining

unfoldable pub if_any : ℕ → Option ℕ
if_any n = if ltb 0 n then some n else none

-- `calculate_offload_with_mesh`, from the memory sizes on.
unfoldable pub split_layers : ℕ → ℕ → ℕ → ℕ → ℕ → Option ℕ → OffloadConfig
unfolding gpu_layers_of cpu_layers_of mesh_layers_of if_any div_or
split_layers total_vram available_ram model_size_bytes num_layers context_length mesh_capacity =
    let usable_vram = total_vram - context_length * 256 * 1024 in
    let bytes_per_layer = div_or model_size_bytes num_layers model_size_bytes in
    let gpu = gpu_layers_of usable_vram bytes_per_layer num_layers in
    let after_gpu = num_layers - gpu in
    let cpu = cpu_layers_of available_ram bytes_per_layer after_gpu in
    let after_cpu = after_gpu - cpu in
    let mesh = mesh_layers_of mesh_capacity bytes_per_layer after_cpu in
    if total_vram == 0 && is_none mesh_capacity
    then record {
      gpu_layers = some 0;
      cpu_layers = some num_layers;
      disk_mmap = false;
      mesh_layers = none;
      auto = false;
    }
    else record {
      gpu_layers = some gpu;
      cpu_layers = some cpu;
      disk_mmap = ltb 0 (after_cpu - mesh);
      mesh_layers = if_any mesh;
      auto = false;
    }

unfoldable pub calculate_offload_with_mesh :
    {fl : Float} → ℕ → ℕ → HardwareProfile fl → ℕ → Option ℕ → OffloadConfig
unfolding split_layers
calculate_offload_with_mesh {fl} model_size_bytes num_layers profile context_length mesh_capacity =
    split_layers (gpu_memory profile.gpus)
      (fl.trunc_u64 (fl.mul (fl.of_nat profile.memory.available_bytes) (fl.literal 85 2)))
      model_size_bytes num_layers context_length mesh_capacity

unfoldable pub calculate_offload : {fl : Float} → ℕ → ℕ → HardwareProfile fl → ℕ → OffloadConfig
unfolding calculate_offload_with_mesh
calculate_offload model_size_bytes num_layers profile context_length =
    calculate_offload_with_mesh model_size_bytes num_layers profile context_length none
