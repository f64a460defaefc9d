-- ===== src/Wasm/Regions/Data.antt =====
-- src/wasm/region-allocator.ts: the column data and the staging area.
use query_engine.Prelude.{
  ℕ, ◌+◌, ◌≤◌, ◌≡◌, Bool, Option, none, some, ltb, ◌==◌, if◌then◌else◌, arith,
}
use query_engine.Wasm.Regions.{
  Allocator, memory_limit, past_int32, Outcome, returned, thrown, align, ensure_memory, with_data,
  with_staging,
}

-- `allocData` and `allocStaging` set their offset to `end` only if the memory is there.
unfoldable pub alloc_data_in : ℕ → ℕ → ℕ → Allocator → Option ℕ → Outcome ℕ × Allocator
unfolding with_data
alloc_data_in base aligned bytes a none =
    (thrown memory_limit, with_data a.memory_bytes base a.data_offset a)
alloc_data_in base aligned bytes a (some memory_bytes) =
    (returned (base + aligned), with_data memory_bytes base (aligned + bytes) a)

unfoldable pub alloc_staging_in : ℕ → ℕ → ℕ → Allocator → Option ℕ → Outcome ℕ × Allocator
unfolding with_staging
alloc_staging_in base aligned bytes a none = (thrown memory_limit, a)
alloc_staging_in base aligned bytes a (some memory_bytes) =
    (returned (base + aligned), with_staging memory_bytes (aligned + bytes) a)

-- The data starts where the regions ended when the first of it was allocated.
unfoldable pub data_base : Allocator → ℕ
data_base a = if a.data_base_offset == 0 then a.total_allocated else a.data_base_offset

unfoldable pub staging_base : Allocator → ℕ
staging_base a =
    if ltb 0 a.data_base_offset then a.data_base_offset + a.data_offset else a.total_allocated

module _ (grows : ℕ → ℕ → Bool) where
  unfoldable pub alloc_data_at : ℕ → ℕ → Option ℕ → Allocator → Outcome ℕ × Allocator
  unfolding alloc_data_in ensure_memory with_data
  alloc_data_at base bytes none a =
      (thrown past_int32, with_data a.memory_bytes base a.data_offset a)
  alloc_data_at base bytes (some aligned) a =
      alloc_data_in base aligned bytes a
        (ensure_memory grows (base + aligned + bytes) a.memory_bytes)

  unfoldable pub alloc_data : ℕ → Allocator → Outcome ℕ × Allocator
  unfolding alloc_data_at data_base align
  alloc_data bytes a = alloc_data_at (data_base a) bytes (align a.data_offset) a

  unfoldable pub alloc_staging_at : ℕ → ℕ → Option ℕ → Allocator → Outcome ℕ × Allocator
  unfolding alloc_staging_in ensure_memory
  alloc_staging_at base bytes none a = (thrown past_int32, a)
  alloc_staging_at base bytes (some aligned) a =
      alloc_staging_in base aligned bytes a
        (ensure_memory grows (base + aligned + bytes) a.memory_bytes)

  unfoldable pub alloc_staging : ℕ → Allocator → Outcome ℕ × Allocator
  unfolding alloc_staging_at staging_base align
  alloc_staging bytes a = alloc_staging_at (staging_base a) bytes (align a.staging_offset) a

unfoldable pub reset_data : Allocator → Allocator
unfolding with_data
reset_data a = with_data a.memory_bytes a.data_base_offset 0 a

unfoldable pub reset_staging : Allocator → Allocator
unfolding with_staging
reset_staging a = with_staging a.memory_bytes 0 a

-- If neither data nor staging has been allocated in an allocator with regions, and the memory
-- already holds both requests, then staging bytes that are allocated before the first data are given
-- the address that this data is given too.
pub alloc_staging-alloc_data :
    (grows : ℕ → ℕ → Bool) (a : Allocator) (staged bytes : ℕ)
    → a.data_base_offset ≡ 0
    → a.data_offset ≡ 0
    → a.staging_offset ≡ 0
    → a.total_allocated + staged ≤ a.memory_bytes
    → a.total_allocated + bytes ≤ a.memory_bytes
    → ((alloc_staging grows staged a).0 ≡ returned a.total_allocated)
      × ((alloc_data grows bytes (alloc_staging grows staged a).1).0 ≡ returned a.total_allocated)
unfolding alloc_staging alloc_staging_at alloc_staging_in alloc_data alloc_data_at alloc_data_in
    data_base staging_base align ensure_memory with_staging with_data
alloc_staging-alloc_data grows a staged bytes no_base no_data no_staging fits room =
    (ground arith, ground arith)

-- In an allocator with regions, if a data request returns, and then a staging request returns, the
-- staged bytes lie behind those of the data request.
pub alloc_data-alloc_staging :
    (grows : ℕ → ℕ → Bool) (a : Allocator) (bytes staged data_ptr staging_ptr : ℕ)
    → 1 ≤ a.total_allocated
    → (alloc_data grows bytes a).0 ≡ returned data_ptr
    → (alloc_staging grows staged (alloc_data grows bytes a).1).0 ≡ returned staging_ptr
    → data_ptr + bytes ≤ staging_ptr
unfolding alloc_staging alloc_staging_at alloc_staging_in alloc_data alloc_data_at alloc_data_in
    data_base staging_base align ensure_memory with_staging with_data
alloc_data-alloc_staging grows a bytes staged data_ptr staging_ptr some_region d s = ground arith
