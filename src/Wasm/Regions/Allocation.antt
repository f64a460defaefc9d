-- ===== src/Wasm/Regions/Allocation.antt =====
-- What `alloc` of src/wasm/region-allocator.ts gives.
use query_engine.Prelude.{
  ℕ, ◌+◌, ◌≤◌, ◌≡◌, refl, Bool, true, false, Option, none, some, ltb, ◌==◌, ==_iff, length,
  get_elem?, arith, Bool-cases, inl, inr,
}
use query_engine.Wasm.Regions.{
  Region, Allocator, Failure, diverges, Outcome, returned, thrown, align, ensure_memory,
  double_until, with_offset, with_capacity, with_regions, with_layout,
}
use query_engine.Wasm.Regions.Operations.{
  grow_in, alloc_in, grow_to, grow_region, alloc_at, alloc_of, alloc,
}
use query_engine.Wasm.Regions.Layout.{
  WellFormed, Contiguous-get, Contiguous-set_offset, Contiguous-set_capacity, Contiguous-last,
  get_elem?-set, ensure_memory-le, double_until-le, double_until-ends,
}

abbrev pub diverged : Failure → Bool
diverged diverges = true
diverged _ = false

-- A region that has grown to hold `needed` bytes, or has not changed.
abbrev Grown : ℕ → ℕ → Region → Allocator → Outcome Region × Allocator → Type 0
Grown needed id r a (thrown f, after) = (after ≡ a) × (diverged f ≡ false)
Grown needed id r a (returned q, after) =
    WellFormed after
    × (get_elem? after.regions id ≡ some q)
    × (q.start ≡ r.start)
    × (q.offset ≡ r.offset)
    × (needed ≤ q.capacity)

-- A block of `bytes` bytes in the region `id`, which was `r`: behind what was allocated in it, in
-- its bounds, inside of the memory. A failure changes nothing, and the call does end.
abbrev pub Allocated : ℕ → ℕ → Region → Allocator → Outcome ℕ × Allocator → Type 0
Allocated bytes id r a (thrown f, after) = (after ≡ a) × (diverged f ≡ false)
Allocated bytes id r a (returned ptr, after) =
    WellFormed after
    × (r.start + r.offset ≤ ptr)
    × (ptr + bytes ≤ after.memory_bytes)
    × (q : Region) × (get_elem? after.regions id ≡ some q)
    × (q.start ≡ r.start)
    × (q.start + q.offset ≡ ptr + bytes)
    × (q.offset ≤ q.capacity)

align-le : (offset aligned : ℕ) → align offset ≡ some aligned → offset ≤ aligned
unfolding align
align-le offset aligned h = ground arith

module _ (grows : ℕ → ℕ → Bool) (id : ℕ) (r : Region) (a : Allocator) (ok : WellFormed a)
    (here : get_elem? a.regions id ≡ some r) where
  grow_in-Grown :
      (needed capacity : ℕ) (memory : Option ℕ)
      → id + 1 ≡ length a.regions
      → needed ≤ capacity
      → r.capacity ≤ capacity
      → ensure_memory grows (r.start + capacity) a.memory_bytes ≡ memory
      → Grown needed id r a (grow_in id r a capacity memory)
  unfolding grow_in with_layout with_capacity
  grow_in-Grown needed capacity none last enough more e = (refl, refl)
  grow_in-Grown needed capacity (some memory) last enough more e = (
    record {
      sized = ok.sized;
      contiguous =
          Contiguous-set_capacity 0 a.regions a.total_allocated id r capacity ok.contiguous here
            last more;
      backed = omega (
        arith,
        Contiguous-last 0 a.regions a.total_allocated id r ok.contiguous here last,
        ensure_memory-le grows (r.start + capacity) a.memory_bytes memory e,
      );
    },
    get_elem?-set a.regions id r _ here,
    refl,
    refl,
    enough,
  )

  grow_to-Grown :
      (needed : ℕ) (capacity : Option ℕ)
      → id + 1 ≡ length a.regions
      → double_until needed needed r.capacity ≡ capacity
      → Grown needed id r a (grow_to grows id r a capacity)
  unfolding grow_to
  grow_to-Grown needed none last e =
      let region = Contiguous-get 0 a.regions a.total_allocated id r ok.contiguous here in
      let ends = double_until-ends needed needed r.capacity region.2 (omega arith) in cc (e, ends.1)
  grow_to-Grown needed (some capacity) last e =
      let bounds = double_until-le needed needed r.capacity capacity e in
      grow_in-Grown needed capacity _ last bounds.0 bounds.1 refl

  grow_region-Grown : (needed : ℕ) → Grown needed id r a (grow_region grows id r needed a)
  unfolding grow_region
  grow_region-Grown needed = elim (Bool-cases (id + 1 == length a.regions)) [
    | inl e ↦ rw e (grow_to-Grown needed _ ((==_iff _ _).0 e) refl)
    | inr e ↦ rw e (refl, refl)
  ]

  alloc_in-Allocated :
      (aligned bytes : ℕ) (out : Outcome Region × Allocator)
      → r.offset ≤ aligned
      → Grown (aligned + bytes) id r a out
      → Allocated bytes id r a (alloc_in id aligned bytes out)
  unfolding alloc_in with_regions with_offset
  alloc_in-Allocated aligned bytes (thrown f, after) h g = g
  alloc_in-Allocated aligned bytes (returned q, after) h (fine, there, start, offset, enough) =
      let region =
        Contiguous-get 0 after.regions after.total_allocated id q fine.contiguous there in
      (
        record {
          sized = fine.sized;
          contiguous =
              Contiguous-set_offset 0 after.regions after.total_allocated id q (aligned + bytes)
                fine.contiguous there enough;
          backed = fine.backed;
        },
        omega arith,
        omega (arith, region.3, fine.backed),
        _,
        get_elem?-set after.regions id q _ there,
        start,
        omega arith,
        enough,
      )

  alloc_at-Allocated :
      (bytes : ℕ) (aligned : Option ℕ)
      → align r.offset ≡ aligned
      → Allocated bytes id r a (alloc_at grows id bytes r aligned a)
  unfolding alloc_at
  alloc_at-Allocated bytes none e = (refl, refl)
  alloc_at-Allocated bytes (some aligned) e =
      alloc_in-Allocated aligned bytes _ (align-le r.offset aligned e)
        (elim (Bool-cases (ltb r.capacity (aligned + bytes))) [
          | inl big ↦ rw big (grow_region-Grown (aligned + bytes))
          | inr fits ↦ rw fits (ok, here, refl, refl, ground arith)
        ])

  -- In a well-formed allocator, an allocation in a region that exists ends, and either throws and
  -- changes nothing, or returns a block that lies behind all that was allocated in the region since
  -- its last reset, inside of the region and of the memory, and leaves a well-formed allocator.
  pub alloc-Allocated : (bytes : ℕ) → Allocated bytes id r a (alloc grows id bytes a)
  unfolding alloc alloc_of
  alloc-Allocated bytes = rw here (alloc_at-Allocated bytes _ refl)
