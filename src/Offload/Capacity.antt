-- ===== src/Offload/Capacity.antt =====
-- What the split of the layers promises: crates/hivebear-inference/src/offload.rs.
use native.Mathlib.Nat.{le-div_iff_mul-le, mod-le}
use hive_bear.Prelude.{
  ℕ, ◌+◌, ◌-◌, ◌*◌, ◌/◌, ◌%◌, ◌^◌, ◌≤◌, ◌<◌, ◌≡◌, ◌⊎◌, refl, true, false, ◌&&◌, Option, none, some,
  arith, ltb, ◌==◌, min, Bool-cases, inl, inr,
}
use hive_bear.Float.{Float}
use hive_bear.Hardware.{HardwareProfile, gpu_memory}
use hive_bear.Offload.{
  OffloadConfig, is_none, div_or, gpu_layers_of, cpu_layers_of, mesh_layers_of, if_any,
  split_layers, calculate_offload_with_mesh,
}

-- The number of layers of a part; none is 0.
abbrev pub count : Option ℕ → ℕ
count none = 0
count (some n) = n

-- The layers that have a place.
abbrev pub placed : OffloadConfig → ℕ
placed c = count c.gpu_layers + count c.cpu_layers + count c.mesh_layers

count-if_any : (n : ℕ) → count (if_any n) ≡ n
unfolding if_any
count-if_any n = ground arith

gpu_layers_of-le : (vram bytes num : ℕ) → gpu_layers_of vram bytes num ≤ num
unfolding gpu_layers_of
gpu_layers_of-le vram bytes num = ground arith

cpu_layers_of-le : (ram bytes remaining : ℕ) → cpu_layers_of ram bytes remaining ≤ remaining
unfolding cpu_layers_of
cpu_layers_of-le ram bytes remaining = ground arith

mesh_layers_of-le :
    (capacity : Option ℕ) (bytes remaining : ℕ)
    → mesh_layers_of capacity bytes remaining ≤ remaining
unfolding mesh_layers_of
mesh_layers_of-le none bytes remaining = omega arith
mesh_layers_of-le (some capacity) bytes remaining = ground arith

-- All layers have a place or the rest is left to the disk.
abbrev pub IsSplit : ℕ → OffloadConfig → Type 0
IsSplit num_layers c =
    ((placed c ≡ num_layers) × (c.disk_mmap ≡ false))
    ⊎ ((placed c < num_layers) × (c.disk_mmap ≡ true))

split_layers-IsSplit :
    (vram ram size num context : ℕ) (mesh : Option ℕ)
    → IsSplit num (split_layers vram ram size num context mesh)
unfolding split_layers
split_layers-IsSplit vram ram size num context mesh =
    let usable = vram - context * 256 * 1024 in
    let bytes = div_or size num size in
    let gpu = gpu_layers_of usable bytes num in
    let cpu = cpu_layers_of ram bytes (num - gpu) in
    let far = mesh_layers_of mesh bytes (num - gpu - cpu) in
    let g = gpu_layers_of-le usable bytes num in
    let c = cpu_layers_of-le ram bytes (num - gpu) in
    let f = mesh_layers_of-le mesh bytes (num - gpu - cpu) in
    let k = count-if_any far in
    elim (Bool-cases (vram == 0 && is_none mesh)) [
      | inl e ↦ rw e (inl (omega arith, refl))
      | inr e ↦ elim (Bool-cases (ltb 0 (num - gpu - cpu - far))) [
        | inl more ↦ rw (e, more) (inr (ground (arith, more, g, c, f, k), refl))
        | inr done ↦ rw (e, done) (inl (ground (arith, done, g, c, f, k), refl))
      ]
    ]

-- However the sizes are, every layer of the model has a place on the GPU, the CPU or the mesh and the
-- disk is not used, or fewer layers have one and the disk is used for the rest; there are never more
-- layers placed than the model has.
pub calculate_offload-IsSplit :
    {fl : Float} (size num_layers : ℕ) (profile : HardwareProfile fl) (context : ℕ)
    (mesh : Option ℕ)
    → IsSplit num_layers (calculate_offload_with_mesh size num_layers profile context mesh)
unfolding calculate_offload_with_mesh
calculate_offload-IsSplit {fl} size num_layers profile context mesh =
    split_layers-IsSplit (gpu_memory profile.gpus)
      (fl.trunc_u64 (fl.mul (fl.of_nat profile.memory.available_bytes) (fl.literal 85 2))) size
      num_layers context mesh

layers-fit : (x a b : ℕ) → (b == 0) ≡ false → x ≤ a / b → x * b ≤ a
layers-fit x a b h le = let pos : 0 < b = ground (arith, h) in (le-div_iff_mul-le pos).0 le

gpu_layers_of-fits : (vram bytes num : ℕ) → gpu_layers_of vram bytes num * bytes ≤ vram
unfolding gpu_layers_of
gpu_layers_of-fits vram bytes num = elim (Bool-cases (bytes == 0)) [
  | inl e ↦ let z : bytes ≡ 0 = ground (arith, e) in rw (e, z) (omega arith)
  | inr e ↦ rw e (
      layers-fit (min (vram / bytes) num % 2 ^ 32) vram bytes e
        (omega (arith, mod-le (min (vram / bytes) num) (2 ^ 32))))
]

cpu_layers_of-fits : (ram bytes remaining : ℕ) → cpu_layers_of ram bytes remaining * bytes ≤ ram
unfolding cpu_layers_of
cpu_layers_of-fits ram bytes remaining = elim (Bool-cases (bytes == 0)) [
  | inl e ↦ let z : bytes ≡ 0 = ground (arith, e) in rw (e, z) (omega arith)
  | inr e ↦ rw e (
      layers-fit (min (ram / bytes % 2 ^ 32) remaining) ram bytes e
        (omega (arith, mod-le (ram / bytes) (2 ^ 32))))
]

mesh_layers_of-fits :
    (mesh : Option ℕ) (bytes remaining : ℕ)
    → mesh_layers_of mesh bytes remaining * bytes ≤ count mesh
unfolding mesh_layers_of
mesh_layers_of-fits none bytes remaining = omega arith
mesh_layers_of-fits (some capacity) bytes remaining = elim (Bool-cases (bytes == 0)) [
  | inl e ↦ let z : bytes ≡ 0 = ground (arith, e) in rw (e, z) (omega arith)
  | inr e ↦ rw e (
      layers-fit (min (capacity / bytes % 2 ^ 32) remaining) capacity bytes e
        (omega (arith, mod-le (capacity / bytes) (2 ^ 32))))
]

-- The layers of each part, at so many bytes each, fit in the memory of the part.
abbrev pub Fits : ℕ → ℕ → ℕ → ℕ → OffloadConfig → Type 0
Fits bytes vram ram mesh c =
    (count c.gpu_layers * bytes ≤ vram)
    × (count c.cpu_layers * bytes ≤ ram)
    × (count c.mesh_layers * bytes ≤ mesh)

-- With a GPU or a mesh, the layers that are placed fit: at the mean size of a layer, those on the GPU in
-- its memory less the cache of the context, those on the CPU in 85 of 100 of the free memory, and those
-- on the mesh in its capacity.
pub calculate_offload-Fits :
    {fl : Float} (size num_layers : ℕ) (profile : HardwareProfile fl) (context : ℕ)
    (mesh : Option ℕ)
    → (gpu_memory profile.gpus == 0 && is_none mesh) ≡ false
    → Fits
        (div_or size num_layers size)
        (gpu_memory profile.gpus - context * 256 * 1024)
        (fl.trunc_u64 (fl.mul (fl.of_nat profile.memory.available_bytes) (fl.literal 85 2)))
        (count mesh)
        (calculate_offload_with_mesh size num_layers profile context mesh)
unfolding calculate_offload_with_mesh split_layers
calculate_offload-Fits {fl} size num_layers profile context mesh some_part =
    let ram = fl.trunc_u64 (fl.mul (fl.of_nat profile.memory.available_bytes) (fl.literal 85 2)) in
    let usable = gpu_memory profile.gpus - context * 256 * 1024 in
    let bytes = div_or size num_layers size in
    let gpu = gpu_layers_of usable bytes num_layers in
    let cpu = cpu_layers_of ram bytes (num_layers - gpu) in
    rw (some_part, count-if_any (mesh_layers_of mesh bytes (num_layers - gpu - cpu)))
      (
        gpu_layers_of-fits usable bytes num_layers,
        cpu_layers_of-fits ram bytes (num_layers - gpu),
        mesh_layers_of-fits mesh bytes (num_layers - gpu - cpu),
      )
