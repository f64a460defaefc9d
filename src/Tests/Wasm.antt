-- ===== src/Tests/Wasm.antt =====
-- A memory of one page with regions of 64 bytes.
use query_engine.Prelude.{ℕ, ◌≤◌, ◌+◌, ◌≡◌, refl, Bool, true, [], ◌∷◌, List, arith}
use query_engine.Wasm.Regions.{Region, Allocator, returned, region_allocator}
use query_engine.Wasm.Regions.Operations.{
  Op, add_op, alloc_op, apply_all, apply, alloc, add_region, add_region_in, alloc_of, alloc_at,
  alloc_in,
}
use query_engine.Wasm.Regions.Layout.{WellFormed}
use query_engine.Wasm.Regions.Allocation.{Allocated, alloc-Allocated}
use query_engine.Wasm.Regions.Invariant.{apply_all-disjoint}
use query_engine.Wasm.Regions.Data.{
  alloc_data, alloc_staging, alloc_staging-alloc_data, alloc_data-alloc_staging,
}

abbrev grows : ℕ → ℕ → Bool
grows current pages = true

abbrev region : ℕ → ℕ → Region
region start offset = record { start = start; capacity = 64; offset = offset }

-- Two regions, 20 bytes allocated in the second.
abbrev allocator : Allocator
allocator = record {
  memory_bytes = 65536;
  region_size = 64;
  regions = region 0 0 ∷ region 64 20 ∷ [];
  total_allocated = 128;
  staging_offset = 0;
  data_offset = 0;
  data_base_offset = 0;
}

allocator-WellFormed : WellFormed allocator
allocator-WellFormed = record {
  sized = omega arith;
  contiguous = (refl, omega arith, omega arith, (refl, omega arith, omega arith, refl));
  backed = omega arith;
}

-- 100 bytes do not fit behind the 20, so the region grows to 256.
alloc-Allocated_example : Allocated 100 1 (region 64 20) allocator (alloc grows 1 100 allocator)
alloc-Allocated_example =
    alloc-Allocated grows 1 (region 64 20) allocator allocator-WellFormed refl 100

abbrev ops : List Op
ops = add_op ∷ add_op ∷ alloc_op 0 20 ∷ []

apply_all-disjoint_example :
    (64 ≤ 64) × (128 ≤ (apply_all grows ops (region_allocator 65536 64)).memory_bytes)
unfolding region_allocator apply_all apply alloc add_region add_region_in alloc_of alloc_at alloc_in
apply_all-disjoint_example =
    apply_all-disjoint grows 65536 64 ops 0 1 (region 0 20) (region 64 0) (omega arith) refl refl
      (omega arith)

alloc_staging-alloc_data_example :
    ((alloc_staging grows 8 allocator).0 ≡ returned 128)
    × ((alloc_data grows 16 (alloc_staging grows 8 allocator).1).0 ≡ returned 128)
alloc_staging-alloc_data_example =
    alloc_staging-alloc_data grows allocator 8 16 refl refl refl (omega arith) (omega arith)

alloc_data-alloc_staging_example : 128 + 16 ≤ 144
unfolding alloc_data alloc_staging
alloc_data-alloc_staging_example =
    alloc_data-alloc_staging grows allocator 16 8 128 144 (omega arith) refl refl
