-- ===== src/Wasm/Regions/Operations.antt =====
-- src/wasm/region-allocator.ts: adding, allocating in, growing and resetting regions.
use query_engine.Prelude.{
  ℕ, ◌+◌, ◌-◌, Bool, Option, none, some, ltb, ◌==◌, if◌then◌else◌, List, [], ◌∷◌, ◌++◌, length,
  get_elem?, set,
}
use query_engine.Wasm.Regions.{
  Region, Allocator, no_region, not_growable, memory_limit, past_int32, diverges, Outcome, returned,
  thrown, align, ensure_memory, double_until, with_offset, with_capacity, with_regions, with_layout,
}

abbrev pub new_region : Allocator → Region
new_region a = record { start = a.total_allocated; capacity = a.region_size; offset = 0 }

-- `addRegion`, after `_ensureMemory`
unfoldable pub add_region_in : Allocator → Option ℕ → Outcome ℕ × Allocator
unfolding with_layout
add_region_in a none = (thrown memory_limit, a)
add_region_in a (some memory_bytes) = (
  returned (length a.regions),
  with_layout memory_bytes (a.regions ++ new_region a ∷ []) (a.total_allocated + a.region_size) a,
)

-- `_growRegion`, after `_ensureMemory`: the region is shared, so its new state is returned.
unfoldable pub grow_in : ℕ → Region → Allocator → ℕ → Option ℕ → Outcome Region × Allocator
unfolding with_layout with_capacity
grow_in id r a new_capacity none = (thrown memory_limit, a)
grow_in id r a new_capacity (some memory_bytes) = (
  returned (with_capacity new_capacity r),
  with_layout memory_bytes (set a.regions id (with_capacity new_capacity r))
      (a.total_allocated + (new_capacity - r.capacity)) a,
)

-- `alloc`, when there is room in the region
unfoldable pub alloc_in : ℕ → ℕ → ℕ → Outcome Region × Allocator → Outcome ℕ × Allocator
unfolding with_regions with_offset
alloc_in id aligned bytes (thrown f, a) = (thrown f, a)
alloc_in id aligned bytes (returned r, a) = (
  returned (r.start + aligned),
  with_regions (set a.regions id (with_offset (aligned + bytes) r)) a,
)

unfoldable pub reset_in : ℕ → Option Region → Allocator → Outcome Unit × Allocator
unfolding with_regions with_offset
reset_in id none a = (thrown no_region, a)
reset_in id (some r) a = (returned tt, with_regions (set a.regions id (with_offset 0 r)) a)

unfoldable pub reset : ℕ → Allocator → Outcome Unit × Allocator
unfolding reset_in
reset id a = reset_in id (get_elem? a.regions id) a

module _ (grows : ℕ → ℕ → Bool) where
  unfoldable pub add_region : Allocator → Outcome ℕ × Allocator
  unfolding add_region_in ensure_memory
  add_region a =
      add_region_in a (ensure_memory grows (a.total_allocated + a.region_size) a.memory_bytes)

  unfoldable pub grow_to : ℕ → Region → Allocator → Option ℕ → Outcome Region × Allocator
  unfolding grow_in ensure_memory
  grow_to id r a none = (thrown diverges, a)
  grow_to id r a (some new_capacity) =
      grow_in id r a new_capacity (ensure_memory grows (r.start + new_capacity) a.memory_bytes)

  -- `_growRegion`
  unfoldable pub grow_region : ℕ → Region → ℕ → Allocator → Outcome Region × Allocator
  unfolding grow_to double_until
  grow_region id r needed a =
      if id + 1 == length a.regions
      then grow_to id r a (double_until needed needed r.capacity)
      else (thrown not_growable, a)

  unfoldable pub alloc_at : ℕ → ℕ → Region → Option ℕ → Allocator → Outcome ℕ × Allocator
  unfolding alloc_in grow_region
  alloc_at id bytes r none a = (thrown past_int32, a)
  alloc_at id bytes r (some aligned) a = alloc_in id aligned bytes (
      if ltb r.capacity (aligned + bytes)
      then grow_region id r (aligned + bytes) a
      else (returned r, a))

  unfoldable pub alloc_of : ℕ → ℕ → Option Region → Allocator → Outcome ℕ × Allocator
  unfolding alloc_at align
  alloc_of id bytes none a = (thrown no_region, a)
  alloc_of id bytes (some r) a = alloc_at id bytes r (align r.offset) a

  unfoldable pub alloc : ℕ → ℕ → Allocator → Outcome ℕ × Allocator
  unfolding alloc_of
  alloc id bytes a = alloc_of id bytes (get_elem? a.regions id) a

-- What the workers do to the regions.
pub data Op : Type 0 where
  add_op : Op
  alloc_op : ℕ → ℕ → Op
  reset_op : ℕ → Op

unfoldable pub apply : (ℕ → ℕ → Bool) → Op → Allocator → Allocator
unfolding add_region alloc reset
apply grows add_op a = (add_region grows a).1
apply grows (alloc_op id bytes) a = (alloc grows id bytes a).1
apply grows (reset_op id) a = (reset id a).1

unfoldable pub apply_all : (ℕ → ℕ → Bool) → List Op → Allocator → Allocator
unfolding apply
apply_all grows [] a = a
apply_all grows (op ∷ ops) a = apply_all grows ops (apply grows op a)
