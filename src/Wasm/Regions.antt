-- ===== src/Wasm/Regions.antt =====
-- src/wasm/region-allocator.ts: regions of the memory that the workers and the kernels share.
--
-- The memory is its length in bytes. Whether `memory.grow` succeeds is the host's choice, the
-- parameter `grows` of the memory's bytes and the pages to add: it adds the pages, or throws.
-- Offsets and sizes are whole numbers. A call returns its outcome and the state that it leaves,
-- also when it throws.
pub mod Operations
pub mod Layout
pub mod Allocation
pub mod Invariant
pub mod Data
use query_engine.Prelude.{
  ℕ, zero, suc, ◌+◌, ◌-◌, ◌*◌, ◌/◌, Bool, Option, none, some, leb, ltb, if◌then◌else◌, List, [],
  ◌∷◌, ◌++◌, length, get_elem?, set,
}

pub record Region : Type 0 where
  pub start : ℕ
  pub capacity : ℕ
  pub offset : ℕ

-- `id` of a region is its position.
pub record Allocator : Type 0 where
  pub memory_bytes : ℕ
  pub region_size : ℕ
  pub regions : List Region
  pub total_allocated : ℕ
  pub staging_offset : ℕ
  pub data_offset : ℕ
  pub data_base_offset : ℕ

unfoldable pub region_allocator : ℕ → ℕ → Allocator
region_allocator memory_bytes region_size = record {
  memory_bytes = memory_bytes;
  region_size = region_size;
  regions = [];
  total_allocated = 0;
  staging_offset = 0;
  data_offset = 0;
  data_base_offset = 0;
}

-- `past_int32`: `&` would give a negative number, and the model stops. `diverges`: the loop that
-- doubles a capacity of 0 does not end.
pub data Failure : Type 0 where
  no_region : Failure
  not_growable : Failure
  memory_limit : Failure
  past_int32 : Failure
  diverges : Failure

pub data Outcome (A : Type 0) : Type 0 where
  returned : A → Outcome A
  thrown : Failure → Outcome A

-- `(offset + 15) & ~15`
unfoldable pub align : ℕ → Option ℕ
align offset = if ltb (offset + 15) 2147483648 then some ((offset + 15) / 16 * 16) else none

-- `Math.ceil((requiredBytes - currentBytes) / PAGE_SIZE)`
unfoldable pub pages_needed : ℕ → ℕ → ℕ
pages_needed required current = (required - current + 65535) / 65536

-- The bytes of the memory when `_ensureMemory` returns, none when it throws.
unfoldable pub ensure_memory : (ℕ → ℕ → Bool) → ℕ → ℕ → Option ℕ
unfolding pages_needed
ensure_memory grows required current =
    if leb required current
    then some current
    else if grows current (pages_needed required current)
    then some (current + pages_needed required current * 65536)
    else none

-- `while (newCapacity < needed) newCapacity *= 2`. A capacity from 1 on doubles past `needed` in at
-- most `needed` rounds.
unfoldable pub double_until : ℕ → ℕ → ℕ → Option ℕ
double_until zero needed capacity = if ltb capacity needed then none else some capacity
double_until (suc fuel) needed capacity =
    let doubled = double_until fuel needed (capacity * 2) in
    if ltb capacity needed then doubled else some capacity

unfoldable pub with_offset : ℕ → Region → Region
with_offset offset r = record { start = r.start; capacity = r.capacity; offset = offset }

unfoldable pub with_capacity : ℕ → Region → Region
with_capacity capacity r = record { start = r.start; capacity = capacity; offset = r.offset }

unfoldable pub with_regions : List Region → Allocator → Allocator
with_regions regions a = record {
  memory_bytes = a.memory_bytes;
  region_size = a.region_size;
  regions = regions;
  total_allocated = a.total_allocated;
  staging_offset = a.staging_offset;
  data_offset = a.data_offset;
  data_base_offset = a.data_base_offset;
}

unfoldable pub with_layout : ℕ → List Region → ℕ → Allocator → Allocator
with_layout memory_bytes regions total a = record {
  memory_bytes = memory_bytes;
  region_size = a.region_size;
  regions = regions;
  total_allocated = total;
  staging_offset = a.staging_offset;
  data_offset = a.data_offset;
  data_base_offset = a.data_base_offset;
}

unfoldable pub with_data : ℕ → ℕ → ℕ → Allocator → Allocator
with_data memory_bytes base offset a = record {
  memory_bytes = memory_bytes;
  region_size = a.region_size;
  regions = a.regions;
  total_allocated = a.total_allocated;
  staging_offset = a.staging_offset;
  data_offset = offset;
  data_base_offset = base;
}

unfoldable pub with_staging : ℕ → ℕ → Allocator → Allocator
with_staging memory_bytes offset a = record {
  memory_bytes = memory_bytes;
  region_size = a.region_size;
  regions = a.regions;
  total_allocated = a.total_allocated;
  staging_offset = offset;
  data_offset = a.data_offset;
  data_base_offset = a.data_base_offset;
}
