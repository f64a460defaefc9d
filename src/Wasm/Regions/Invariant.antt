-- ===== src/Wasm/Regions/Invariant.antt =====
-- The layout under the operations of src/wasm/region-allocator.ts.
use query_engine.Prelude.{
  ℕ, zero, suc, ◌+◌, ◌≤◌, ◌<◌, ◌≡◌, refl, sym, subst, Bool, Option, none, some, List, [], ◌∷◌,
  get_elem?, arith, Option-cases, inl, inr,
}
use mathlib.Core.Option.{some-injective}
use query_engine.Wasm.Regions.{
  Region, Allocator, Outcome, returned, thrown, ensure_memory, with_regions, with_layout,
  region_allocator,
}
use query_engine.Wasm.Regions.Operations.{
  add_region_in, reset_in, reset, add_region, alloc, alloc_of, Op, add_op, alloc_op, reset_op,
  apply, apply_all,
}
use query_engine.Wasm.Regions.Layout.{
  Contiguous, WellFormed, Contiguous-append, Contiguous-get, Contiguous-set_offset,
  ensure_memory-le,
}
use query_engine.Wasm.Regions.Allocation.{Allocated, alloc-Allocated}

module _ (grows : ℕ → ℕ → Bool) where
  add_region_in-WellFormed :
      (a : Allocator) (memory : Option ℕ)
      → WellFormed a
      → ensure_memory grows (a.total_allocated + a.region_size) a.memory_bytes ≡ memory
      → WellFormed (add_region_in a memory).1
  unfolding add_region_in with_layout
  add_region_in-WellFormed a none ok e = ok
  add_region_in-WellFormed a (some memory) ok e = record {
    sized = ok.sized;
    contiguous =
        Contiguous-append 0 a.regions a.total_allocated a.region_size ok.sized ok.contiguous;
    backed =
        omega (
          arith,
          ensure_memory-le grows (a.total_allocated + a.region_size) a.memory_bytes memory e,
        );
  }

  Allocated-WellFormed :
      (bytes id : ℕ) (r : Region) (a : Allocator) (out : Outcome ℕ × Allocator)
      → WellFormed a
      → Allocated bytes id r a out
      → WellFormed out.1
  Allocated-WellFormed bytes id r a (thrown f, after) ok g = subst (λ x. WellFormed x) (sym g.0) ok
  Allocated-WellFormed bytes id r a (returned ptr, after) ok g = g.0

  alloc-WellFormed :
      (id bytes : ℕ) (a : Allocator) → WellFormed a → WellFormed (alloc grows id bytes a).1
  unfolding alloc alloc_of
  alloc-WellFormed id bytes a ok = elim (Option-cases (get_elem? a.regions id)) [
    | inl missing ↦ rw missing ok
    | inr (r, here) ↦
        Allocated-WellFormed bytes id r a _ ok (alloc-Allocated grows id r a ok here bytes)
  ]

  reset_in-WellFormed :
      (id : ℕ) (found : Option Region) (a : Allocator)
      → WellFormed a
      → get_elem? a.regions id ≡ found
      → WellFormed (reset_in id found a).1
  unfolding reset_in with_regions
  reset_in-WellFormed id none a ok e = ok
  reset_in-WellFormed id (some r) a ok e = record {
    sized = ok.sized;
    contiguous =
        Contiguous-set_offset 0 a.regions a.total_allocated id r 0 ok.contiguous e (omega arith);
    backed = ok.backed;
  }

  apply-WellFormed : (op : Op) (a : Allocator) → WellFormed a → WellFormed (apply grows op a)
  unfolding apply add_region reset
  apply-WellFormed add_op a ok = add_region_in-WellFormed a _ ok refl
  apply-WellFormed (alloc_op id bytes) a ok = alloc-WellFormed id bytes a ok
  apply-WellFormed (reset_op id) a ok = reset_in-WellFormed id _ a ok refl

  apply_all-WellFormed :
      (ops : List Op) (a : Allocator) → WellFormed a → WellFormed (apply_all grows ops a)
  unfolding apply_all
  apply_all-WellFormed [] a ok = ok
  apply_all-WellFormed (op ∷ ops) a ok =
      apply_all-WellFormed ops (apply grows op a) (apply-WellFormed op a ok)

Contiguous-disjoint :
    (start : ℕ) (rs : List Region) (total i j : ℕ) (r q : Region)
    → Contiguous start rs total
    → get_elem? rs i ≡ some r
    → get_elem? rs j ≡ some q
    → i < j
    → r.start + r.capacity ≤ q.start
Contiguous-disjoint start [] total i j r q c h k lt = cc
Contiguous-disjoint start (p ∷ rs) total zero zero r q c h k lt = absurd (omega arith)
Contiguous-disjoint start (p ∷ rs) total zero (suc j) r q c h k lt =
    let later = Contiguous-get (start + p.capacity) rs total j q c.3 k in
    subst (λ x. x.start + x.capacity ≤ q.start) (some-injective _ _ h) (omega (arith, later.0, c.0))
Contiguous-disjoint start (p ∷ rs) total (suc i) zero r q c h k lt = absurd (omega arith)
Contiguous-disjoint start (p ∷ rs) total (suc i) (suc j) r q c h k lt =
    Contiguous-disjoint (start + p.capacity) rs total i j r q c.3 h k (omega arith)

-- Whatever regions are added, allocated in and reset from an empty allocator with a region size of
-- at least one byte, and whichever requests fail: a region ends where or before a later one starts,
-- and every region's end lies inside of the memory.
pub apply_all-disjoint :
    (grows : ℕ → ℕ → Bool) (memory_bytes region_size : ℕ) (ops : List Op) (i j : ℕ) (r q : Region)
    → 1 ≤ region_size
    → get_elem? (apply_all grows ops (region_allocator memory_bytes region_size)).regions i ≡ some r
    → get_elem? (apply_all grows ops (region_allocator memory_bytes region_size)).regions j ≡ some q
    → i < j
    → (r.start + r.capacity ≤ q.start)
      × (q.start + q.capacity
          ≤ (apply_all grows ops (region_allocator memory_bytes region_size)).memory_bytes)
unfolding region_allocator
apply_all-disjoint grows memory_bytes region_size ops i j r q sized h k lt =
    let empty = region_allocator memory_bytes region_size in
    let after = apply_all grows ops empty in
    let ok =
      apply_all-WellFormed grows ops empty
        (record { sized = sized; contiguous = refl; backed = omega arith }) in
    let last = Contiguous-get 0 after.regions after.total_allocated j q ok.contiguous k in
    (
      Contiguous-disjoint 0 after.regions after.total_allocated i j r q ok.contiguous h k lt,
      omega (arith, last.3, ok.backed),
    )
