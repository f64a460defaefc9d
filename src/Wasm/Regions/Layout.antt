-- ===== src/Wasm/Regions/Layout.antt =====
-- The layout of the regions of src/wasm/region-allocator.ts in the memory.
use query_engine.Prelude.{
  ℕ, zero, suc, ◌+◌, ◌-◌, ◌*◌, ◌≤◌, ◌≡◌, refl, sym, subst, ap, Bool, some, ltb, if◌then◌else◌, List,
  [], ◌∷◌, ◌++◌, length, get_elem?, set, arith, Bool-cases, inl, inr,
}
use mathlib.Core.Option.{some-injective}
use query_engine.Wasm.Regions.{
  Region, Allocator, pages_needed, ensure_memory, double_until, with_offset, with_capacity,
}

-- Regions from `start` on, of at least one byte, up to `total`.
abbrev pub Contiguous : ℕ → List Region → ℕ → Type 0
Contiguous start [] total = start ≡ total
Contiguous start (r ∷ rs) total =
    (r.start ≡ start)
    × (r.offset ≤ r.capacity)
    × (1 ≤ r.capacity)
    × Contiguous (start + r.capacity) rs total

pub record WellFormed (a : Allocator) : Type 0 where
  pub sized : 1 ≤ a.region_size
  pub contiguous : Contiguous 0 a.regions a.total_allocated
  pub backed : a.total_allocated ≤ a.memory_bytes

pub Contiguous-eq :
    (start : ℕ) (rs : List Region) {m n : ℕ} → m ≡ n → Contiguous start rs m → Contiguous start rs n
Contiguous-eq start rs e c = subst (λ k. Contiguous start rs k) e c

pub Contiguous-append :
    (start : ℕ) (rs : List Region) (total capacity : ℕ)
    → 1 ≤ capacity
    → Contiguous start rs total
    → Contiguous start
        (rs ++ record { start = total; capacity = capacity; offset = 0 } ∷ [])
        (total + capacity)
Contiguous-append start [] total capacity h c = (sym c, omega arith, h, ap (◌+ capacity) c)
Contiguous-append start (r ∷ rs) total capacity h (e, o, l, c) =
    (e, o, l, Contiguous-append (start + r.capacity) rs total capacity h c)

pub Contiguous-le :
    (start : ℕ) (rs : List Region) (total : ℕ) → Contiguous start rs total → start ≤ total
Contiguous-le start [] total c = omega arith
Contiguous-le start (r ∷ rs) total (e, o, l, c) =
    omega (arith, Contiguous-le (start + r.capacity) rs total c)

-- A region holds at least a byte, its offset, and lies between its neighbours.
pub Contiguous-get :
    (start : ℕ) (rs : List Region) (total i : ℕ) (r : Region)
    → Contiguous start rs total
    → get_elem? rs i ≡ some r
    → (start ≤ r.start)
      × (r.offset ≤ r.capacity)
      × (1 ≤ r.capacity)
      × (r.start + r.capacity ≤ total)
Contiguous-get start [] total i r c h = cc
Contiguous-get start (q ∷ rs) total zero r (e, o, l, c) h =
    subst
      (λ x.
        (start ≤ x.start)
        × (x.offset ≤ x.capacity)
        × (1 ≤ x.capacity)
        × (x.start + x.capacity ≤ total))
      (some-injective _ _ h)
      (omega arith, o, l, omega (arith, Contiguous-le (start + q.capacity) rs total c))
Contiguous-get start (q ∷ rs) total (suc i) r (e, o, l, c) h =
    let rest = Contiguous-get (start + q.capacity) rs total i r c h in
    (omega arith, rest.1, rest.2, rest.3)

-- The last region ends where all do.
pub Contiguous-last :
    (start : ℕ) (rs : List Region) (total i : ℕ) (r : Region)
    → Contiguous start rs total
    → get_elem? rs i ≡ some r
    → i + 1 ≡ length rs
    → r.start + r.capacity ≡ total
Contiguous-last start [] total i r c h last = cc
Contiguous-last start (q ∷ []) total zero r (e, o, l, c) h last =
    subst (λ x. x.start + x.capacity ≡ total) (some-injective _ _ h) (omega arith)
Contiguous-last start (q ∷ p ∷ rs) total zero r c h last = absurd (omega arith)
Contiguous-last start (q ∷ rs) total (suc i) r (e, o, l, c) h last =
    Contiguous-last (start + q.capacity) rs total i r c h (omega arith)

pub get_elem?-set :
    (rs : List Region) (i : ℕ) (r q : Region)
    → get_elem? rs i ≡ some r
    → get_elem? (set rs i q) i ≡ some q
get_elem?-set [] i r q h = cc
get_elem?-set (p ∷ rs) zero r q h = refl
get_elem?-set (p ∷ rs) (suc i) r q h = get_elem?-set rs i r q h

pub Contiguous-set_offset :
    (start : ℕ) (rs : List Region) (total i : ℕ) (r : Region) (offset : ℕ)
    → Contiguous start rs total
    → get_elem? rs i ≡ some r
    → offset ≤ r.capacity
    → Contiguous start (set rs i (with_offset offset r)) total
unfolding with_offset
Contiguous-set_offset start [] total i r offset c h b = cc
Contiguous-set_offset start (q ∷ rs) total zero r offset (e, o, l, c) h b =
    subst (λ x. Contiguous start (with_offset offset x ∷ rs) total) (some-injective _ _ h)
      (e, subst (λ x. offset ≤ x.capacity) (sym (some-injective _ _ h)) b, l, c)
Contiguous-set_offset start (q ∷ rs) total (suc i) r offset (e, o, l, c) h b =
    (e, o, l, Contiguous-set_offset (start + q.capacity) rs total i r offset c h b)

pub Contiguous-set_capacity :
    (start : ℕ) (rs : List Region) (total i : ℕ) (r : Region) (capacity : ℕ)
    → Contiguous start rs total
    → get_elem? rs i ≡ some r
    → i + 1 ≡ length rs
    → r.capacity ≤ capacity
    → Contiguous start (set rs i (with_capacity capacity r)) (total + (capacity - r.capacity))
unfolding with_capacity
Contiguous-set_capacity start [] total i r capacity c h last b = cc
Contiguous-set_capacity start (q ∷ []) total zero r capacity (e, o, l, c) h last b =
    let same = some-injective _ _ h in
    let grown = subst (λ x. x.capacity ≤ capacity) (sym same) b in
    subst (λ x. Contiguous start (with_capacity capacity x ∷ []) (total + (capacity - x.capacity)))
      same (e, omega arith, omega arith, omega arith)
Contiguous-set_capacity start (q ∷ p ∷ rs) total zero r capacity (e, o, l, c) h last b =
    absurd (omega arith)
Contiguous-set_capacity start (q ∷ rs) total (suc i) r capacity (e, o, l, c) h last b = (
  e,
  o,
  l,
  Contiguous-set_capacity (start + q.capacity) rs total i r capacity c h (omega arith) b,
)

pub ensure_memory-le :
    (grows : ℕ → ℕ → Bool) (required current after : ℕ)
    → ensure_memory grows required current ≡ some after
    → (required ≤ after) × (current ≤ after)
unfolding ensure_memory pages_needed
ensure_memory-le grows required current after h = ground arith

pub double_until-le :
    (fuel needed capacity after : ℕ)
    → double_until fuel needed capacity ≡ some after
    → (needed ≤ after) × (capacity ≤ after)
unfolding double_until
double_until-le zero needed capacity after h = ground arith
double_until-le (suc fuel) needed capacity after h = elim (Bool-cases (ltb capacity needed)) [
  | inl e ↦ ground (
    arith,
    double_until-le fuel needed (capacity * 2) after (
        subst
          (λ b. (if b then double_until fuel needed (capacity * 2) else some capacity) ≡ some after)
          e h),
  )
  | inr e ↦ ground arith
]

-- Doubling a capacity of at least one byte ends.
pub double_until-ends :
    (fuel needed capacity : ℕ)
    → 1 ≤ capacity
    → needed ≤ capacity + fuel
    → (after : ℕ) × (double_until fuel needed capacity ≡ some after)
unfolding double_until
double_until-ends zero needed capacity h enough = (capacity, ground arith)
double_until-ends (suc fuel) needed capacity h enough = elim (Bool-cases (ltb capacity needed)) [
  | inl e ↦ rw e (double_until-ends fuel needed (capacity * 2) (omega arith) (omega arith))
  | inr e ↦ (capacity, rw e refl)
]
