-- ===== src/Selector/Tests.antt =====
-- The theorems on the choice of an engine at a concrete registry: a stub, then the Candle backend.
use hive_bear.Prelude.{◌≡◌, refl, true, false, some, List, [], ◌∷◌}
use hive_bear.Prelude.Text.{codes, text_dec, to_lowercase}
use mathlib.Core.List.{Memᴰ}
use hive_bear.Float.{fixed_point}
use hive_bear.Hardware.{HardwareProfile, candle, gguf, safe_tensors, ac}
use hive_bear.Selector.{
  Backend, ok, panicked, contains, select_engine, detect_format, selected, chosen_backend, first_of,
  by_priority, priority_for, is_apple_silicon, has_gpu, find_for_format, or_else, get_real,
}
use hive_bear.Selector.Usable.{IsUsable, select_engine-IsUsable, select_engine-finds}

abbrev machine : HardwareProfile fixed_point
machine = record {
  cpu = record {
    model_name = codes "cpu";
    physical_cores = 8;
    logical_cores = 16;
    isa_extensions = [];
    cache_size_bytes = 0;
  };
  memory = record { total_bytes = 16; available_bytes = 12; estimated_bandwidth_gbps = 50000 };
  gpus = [];
  storage = record { available_bytes = 100; estimated_read_speed_mbps = 500000 };
  platform = record {
    os = codes "linux";
    arch = codes "x86_64";
    is_mobile = false;
    power_source = ac;
  };
}

abbrev stub : Backend
stub = record {
  engine_id = candle;
  name = codes "Dummy";
  supported_formats = gguf ∷ [];
  is_available = true;
  is_stub = true;
}

abbrev candle_backend : Backend
candle_backend = record {
  engine_id = candle;
  name = codes "Candle";
  supported_formats = gguf ∷ safe_tensors ∷ [];
  is_available = true;
  is_stub = false;
}

abbrev backends : List Backend
backends = stub ∷ candle_backend ∷ []

chosen : select_engine backends gguf machine ≡ ok candle_backend
unfolding select_engine selected chosen_backend first_of by_priority priority_for is_apple_silicon
    has_gpu find_for_format or_else get_real text_dec
chosen = refl

candle-supports : contains gguf candle_backend.supported_formats ≡ true
unfolding contains
candle-supports = refl

select_engine-IsUsable_example : IsUsable gguf backends candle_backend
select_engine-IsUsable_example = select_engine-IsUsable backends gguf machine candle_backend chosen

select_engine-finds_example : (c : Backend) × (select_engine backends gguf machine ≡ ok c)
select_engine-finds_example =
    select_engine-finds backends gguf machine candle_backend
      (Memᴰ.tail (Memᴰ.head refl), refl, refl, candle-supports) (Memᴰ.tail (Memᴰ.head refl))

-- An unknown extension and a file of three bytes.
short_file : detect_format (codes "a.bin") (codes "bin") (some (codes "abc")) ≡ panicked
unfolding detect_format text_dec to_lowercase
short_file = refl

magic : detect_format (codes "a.bin") (codes "bin") (some (codes "GGUF....")) ≡ ok gguf
unfolding detect_format text_dec to_lowercase
magic = refl
