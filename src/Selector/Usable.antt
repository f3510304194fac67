-- ===== src/Selector/Usable.antt =====
-- What the choice of an engine gives: crates/hivebear-inference/src/selector.rs.
use hive_bear.Prelude.{
  ◌≡◌, refl, inl, inr, Bool, true, false, ◌&&◌, Option, none, some, List, [], ◌∷◌, Bool-cases,
  arith, sym,
}
use mathlib.Core.List.{Memᴰ}
use hive_bear.Float.{Float}
use hive_bear.Hardware.{InferenceEngine, ModelFormat, HardwareProfile, mesh}
use hive_bear.Selector.{
  Backend, ok, contains, find, real_for, real_for_format, get_real, first_for_format,
  find_for_format, local_engines, priority_for, or_else, by_priority, first_of, selected,
  is_apple_silicon, has_gpu, select_engine, chosen_backend,
}

-- A registered backend that is there, is no stub and supports the format.
abbrev pub IsUsable : ModelFormat → List Backend → Backend → Type 0
IsUsable format backends b =
    Memᴰ b backends
    × (b.is_available ≡ true)
    × (b.is_stub ≡ false)
    × (contains format b.supported_formats ≡ true)

-- The answer to a search is usable, if there is one.
abbrev AllUsable : ModelFormat → List Backend → Option Backend → Type 0
AllUsable format backends none = Unit
AllUsable format backends (some b) = IsUsable format backends b

-- An element of the list that passes the test, if there is one.
abbrev Found : (Backend → Bool) → List Backend → Option Backend → Type 0
Found p backends none = Unit
Found p backends (some b) = Memᴰ b backends × (p b ≡ true)

Found-later :
    (p : Backend → Bool) (b : Backend) (bs : List Backend) (o : Option Backend)
    → Found p bs o
    → Found p (b ∷ bs) o
Found-later p b bs none f = tt
Found-later p b bs (some c) f = (Memᴰ.tail f.0, f.1)

find-Found : (p : Backend → Bool) (bs : List Backend) → Found p bs (find p bs)
unfolding find
find-Found p [] = tt
find-Found p (b ∷ bs) = elim (Bool-cases (p b)) [
  | inl yes_p ↦ rw yes_p (Memᴰ.head refl, yes_p)
  | inr no_p ↦ rw no_p (Found-later p b bs (find p bs) (find-Found p bs))
]

find-finds :
    (p : Backend → Bool) (b : Backend) (bs : List Backend)
    → Memᴰ b bs
    → p b ≡ true
    → (c : Backend) × (find p bs ≡ some c)
unfolding find
find-finds p b [] m h = elim m [ ]
find-finds p b (c ∷ cs) m h = elim (Bool-cases (p c)) [
  | inl yes_p ↦ (c, rw yes_p refl)
  | inr no_p ↦ elim m [ Memᴰ.head e ↦ cc | Memᴰ.tail later ↦ rw no_p (find-finds p b cs later h) ]
]

both : (a b : Bool) → a && b ≡ true → (a ≡ true) × (b ≡ true)
both a b h = (ground arith, ground arith)

real_for-parts :
    (e : InferenceEngine) (b : Backend)
    → real_for e b ≡ true
    → (b.is_available ≡ true) × (b.is_stub ≡ false)
unfolding real_for
real_for-parts e b h = (ground arith, ground arith)

real_for-true :
    (b : Backend) → b.is_available ≡ true → b.is_stub ≡ false → real_for b.engine_id b ≡ true
unfolding real_for
real_for-true b available real = ground arith

or_else-AllUsable :
    (format : ModelFormat) (e : InferenceEngine) (bs : List Backend) (o rest : Option Backend)
    → Found (real_for e) bs o
    → AllUsable format bs rest
    → AllUsable format bs (or_else format o rest)
unfolding or_else
or_else-AllUsable format e bs none rest f all = all
or_else-AllUsable format e bs (some b) rest f all =
    elim (Bool-cases (contains format b.supported_formats)) [
      | inl h ↦ let parts = real_for-parts e b f.1 in rw h (f.0, parts.0, parts.1, h)
      | inr h ↦ rw h all
    ]

get_real-AllUsable :
    (format : ModelFormat) (e : InferenceEngine) (bs : List Backend) (rest : Option Backend)
    → AllUsable format bs rest
    → AllUsable format bs (or_else format (get_real e bs) rest)
unfolding get_real
get_real-AllUsable format e bs rest all =
    or_else-AllUsable format e bs (find (real_for e) bs) rest (find-Found (real_for e) bs) all

first_of-AllUsable :
    (format : ModelFormat) (bs : List Backend) (o rest : Option Backend)
    → AllUsable format bs o
    → AllUsable format bs rest
    → AllUsable format bs (first_of o rest)
unfolding first_of
first_of-AllUsable format bs none rest p q = q
first_of-AllUsable format bs (some b) rest p q = p

by_priority-AllUsable :
    (format : ModelFormat) (es : List InferenceEngine) (bs : List Backend)
    → AllUsable format bs (by_priority format es bs)
unfolding by_priority
by_priority-AllUsable format [] bs = tt
by_priority-AllUsable format (e ∷ es) bs =
    get_real-AllUsable format e bs (by_priority format es bs) (by_priority-AllUsable format es bs)

Found-AllUsable :
    (format : ModelFormat) (e : InferenceEngine) (bs : List Backend) (o : Option Backend)
    → Found (real_for_format format e) bs o
    → AllUsable format bs o
unfolding real_for_format
Found-AllUsable format e bs none f = tt
Found-AllUsable format e bs (some b) f =
    let h = both (real_for e b) (contains format b.supported_formats) f.1 in
    let parts = real_for-parts e b h.0 in (f.0, parts.0, parts.1, h.1)

first_for_format-AllUsable :
    (format : ModelFormat) (es : List InferenceEngine) (bs : List Backend)
    → AllUsable format bs (first_for_format format es bs)
unfolding first_for_format
first_for_format-AllUsable format [] bs = tt
first_for_format-AllUsable format (e ∷ es) bs =
    let p = real_for_format format e in
    first_of-AllUsable format bs (find p bs) (first_for_format format es bs)
      (Found-AllUsable format e bs (find p bs) (find-Found p bs))
      (first_for_format-AllUsable format es bs)

-- A search that falls back finds something if either part does.
first_of-left :
    (o rest : Option Backend)
    → ((c : Backend) × (o ≡ some c))
    → (c : Backend) × (first_of o rest ≡ some c)
unfolding first_of
first_of-left none rest f = cc
first_of-left (some b) rest f = (b, refl)

first_of-right :
    (o rest : Option Backend)
    → ((c : Backend) × (rest ≡ some c))
    → (c : Backend) × (first_of o rest ≡ some c)
unfolding first_of
first_of-right none rest f = f
first_of-right (some b) rest f = (b, refl)

first_for_format-finds :
    (format : ModelFormat) (es : List InferenceEngine) (bs : List Backend) (b : Backend)
    → IsUsable format bs b
    → Memᴰ b.engine_id es
    → (c : Backend) × (first_for_format format es bs ≡ some c)
unfolding first_for_format real_for_format
first_for_format-finds format [] bs b usable m = elim m [ ]
first_for_format-finds format (e ∷ es) bs b usable (Memᴰ.head same) =
    let p = real_for_format format e in
    let real = real_for-true b usable.1 usable.2 in
    let here : p b ≡ true = rw (sym same, real, usable.3) refl in
    first_of-left (find p bs) (first_for_format format es bs) (find-finds p b bs usable.0 here)
first_for_format-finds format (e ∷ es) bs b usable (Memᴰ.tail later) =
    first_of-right (find (real_for_format format e) bs) (first_for_format format es bs)
      (first_for_format-finds format es bs b usable later)

selected-IsUsable :
    (format : ModelFormat) (bs : List Backend) (b : Backend) (o : Option Backend)
    → AllUsable format bs o
    → selected format o ≡ ok b
    → IsUsable format bs b
unfolding selected
selected-IsUsable format bs b none all h = cc
selected-IsUsable format bs b (some c) all h = let same : c ≡ b = cc in rw (sym same) all

selected-ok :
    (format : ModelFormat) (o : Option Backend)
    → ((c : Backend) × (o ≡ some c))
    → (c : Backend) × (selected format o ≡ ok c)
unfolding selected
selected-ok format o found = (found.0, rw found.1 refl)

module _ {fl : Float} where
  -- What `select_engine` returns is a registered backend that is available, is not a stub and supports
  -- the format.
  pub select_engine-IsUsable :
      (backends : List Backend) (format : ModelFormat) (profile : HardwareProfile fl) (b : Backend)
      → select_engine backends format profile ≡ ok b
      → IsUsable format backends b
  unfolding select_engine chosen_backend find_for_format
  select_engine-IsUsable backends format profile b h =
      let engines = priority_for format (is_apple_silicon profile) (has_gpu profile) in
      let by_mesh = get_real-AllUsable format mesh backends none tt in
      let by_format = first_for_format-AllUsable format local_engines backends in
      let rest =
        first_of-AllUsable format backends (find_for_format format backends)
          (or_else format (get_real mesh backends) none) by_format by_mesh in
      selected-IsUsable format backends b (chosen_backend backends format profile)
        (first_of-AllUsable format backends (by_priority format engines backends)
          (first_of (find_for_format format backends)
            (or_else format (get_real mesh backends) none))
          (by_priority-AllUsable format engines backends) rest)
        h

  -- If a usable backend of a local engine is registered, `select_engine` returns a backend.
  pub select_engine-finds :
      (backends : List Backend) (format : ModelFormat) (profile : HardwareProfile fl) (b : Backend)
      → IsUsable format backends b
      → Memᴰ b.engine_id local_engines
      → (c : Backend) × (select_engine backends format profile ≡ ok c)
  unfolding select_engine chosen_backend find_for_format
  select_engine-finds backends format profile b usable m =
      let engines = priority_for format (is_apple_silicon profile) (has_gpu profile) in
      let from_mesh = or_else format (get_real mesh backends) none in
      selected-ok format (chosen_backend backends format profile) (
        first_of-right (by_priority format engines backends)
          (first_of (find_for_format format backends) from_mesh)
          (first_of-left (find_for_format format backends) from_mesh
            (first_for_format-finds format local_engines backends b usable m)))
