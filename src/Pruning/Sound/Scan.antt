-- ===== src/Pruning/Sound/Scan.antt =====
-- The loop over the values of an IN list, against the range of a zone.
use query_engine.Prelude.{
  ◌≡◌, refl, sym, ◌∙◌, Bool, true, false, ◌&&◌, ◌||◌, none, some, List, [], ◌∷◌, All, arith,
  Bool-cases, inl, inr,
}
use query_engine.Values.{Value, Js, is_null}
use query_engine.Values.Ops.{to_num, regular, same_value_zero}
use query_engine.Exprs.Eval.{set_has}
use query_engine.Pruning.Rules.{
  Comparison, compare_comparable, is_nan, is_same, is_above, is_below, at_most_0, at_least_0,
}
use query_engine.Pruning.Compile.{comparable_values, scan_values}
use query_engine.Pruning.Order.{Ordered, alike, compare-Reads, Reads}
use query_engine.Pruning.Order.Ranges.{
  InRange, lo_x, hi_x, lo_y, hi_y, x_y-alike, sides-same, same_low, not-x-before-low,
  not-high-before-x, alike_sym,
}

module _ {F : Type 0} (js : Js F) where
  -- Some value of the list equals `x`.
  pub has_equal : Value F → List (Value F) → Bool
  has_equal x [] = false
  has_equal x (y ∷ ys) = js.strict_equal y x || has_equal x ys

  pub set_has-comparable :
      (v : Value F) (items : List (Value F))
      → All (λ x. regular js (to_num js x) ≡ true) items
      → set_has js v items ≡ has_equal (to_num js v) (comparable_values js items)
  unfolding set_has has_equal comparable_values same_value_zero
  set_has-comparable v [] g = refl
  set_has-comparable v (x ∷ xs) g = ground (arith, set_has-comparable v xs g.1, g.0)

  pub comparable_values-regular :
      (items : List (Value F))
      → All (λ x. regular js (to_num js x) ≡ true) items
      → All (λ y. regular js y ≡ true) (comparable_values js items)
  unfolding comparable_values
  comparable_values-regular [] g = tt
  comparable_values-regular (x ∷ xs) g = elim (Bool-cases (is_null x)) [
    | inl n ↦ rw n (comparable_values-regular xs g.1)
    | inr n ↦ rw n (g.0, comparable_values-regular xs g.1)
  ]

none_ne_some : {A : Type 0} {a : A} → none ≡ some a → ⊥
none_ne_some e = cc

-- The step of the two flags, with what the rest of the loop says of them.
step_matches_all :
    (m inside here rest : Bool) {m' : Bool}
    → (here ≡ true → inside ≡ true)
    → (((m || inside) || rest) ≡ true → m' ≡ true)
    → (m || (here || rest)) ≡ true
    → m' ≡ true
step_matches_all m inside here rest p q h = ground arith

step_covers_all :
    (c single at_y here rest : Bool) {c' : Bool}
    → (single ≡ true → at_y ≡ true → here ≡ true)
    → (c' ≡ true → ((c || (single && at_y)) || rest) ≡ true)
    → c' ≡ true
    → (c || (here || rest)) ≡ true
step_covers_all c single at_y here rest p q h = ground arith

module _ {F : Type 0} {js : Js F} (o : Ordered js) where
  at_both_sides : (c : Comparison) → at_most_0 c ≡ true → at_least_0 c ≡ true → is_same c ≡ true
  unfolding at_most_0 at_least_0 is_same
  at_both_sides c p q = ground arith

  compare-kinds : (a b : Value F) → is_same (compare_comparable js a b) ≡ true → alike a b ≡ true
  unfolding is_same is_nan
  compare-kinds a b h = (compare-Reads o a b (ground arith)).kinds

  -- Neither value is before the other.
  compare-level :
      (a b : Value F)
      → is_same (compare_comparable js a b) ≡ true
      → (js.less a b ≡ false) × (js.less b a ≡ false)
  unfolding is_same is_below is_above is_nan
  compare-level a b h =
      let r = compare-Reads o a b (ground arith) in
      (r.before ∙ ground arith, r.after ∙ ground arith)

  module _ (lo hi x : Value F) (in_range : InRange js lo hi x) where
    module _ (y : Value F) (known_low : is_nan (compare_comparable js lo y) ≡ false)
        (known_high : is_nan (compare_comparable js hi y) ≡ false)
        (regular_y : regular js y ≡ true) where
      first : Reads o lo y
      first = lo_y o lo hi x y in_range known_low known_high regular_y

      last : Reads o hi y
      last = hi_y o lo hi x y in_range known_low known_high regular_y

      x_lo-alike : alike x lo ≡ true
      x_lo-alike = alike_sym lo x (lo_x o lo hi x y in_range known_low known_high regular_y).kinds

      x_hi-alike : alike x hi ≡ true
      x_hi-alike = alike_sym hi x (hi_x o lo hi x y in_range known_low known_high regular_y).kinds

      same_kind : alike x y ≡ true
      same_kind = x_y-alike o lo hi x y in_range known_low known_high regular_y

      -- A value that `x` is lies in the range too.
      step-matches :
          js.strict_equal y x ≡ true
          → (at_most_0 (compare_comparable js lo y) && at_least_0 (compare_comparable js hi y))
            ≡ true
      unfolding at_most_0 at_least_0 is_above is_below is_nan
      step-matches h =
          let e = o.same_sym x y ∙ h in
          let low =
            sym (o.same_less x y lo same_kind x_lo-alike e).0
            ∙ not-x-before-low o lo hi x y in_range known_low known_high regular_y in
          let high =
            sym (o.same_less x y hi same_kind x_hi-alike e).1
            ∙ not-high-before-x o lo hi x y in_range known_low known_high regular_y in
          ground (arith, low, high, first.after, last.before, known_low, known_high)

      -- In a range of one value, `x` is that value.
      step-covers :
          is_same (compare_comparable js lo hi) ≡ true
          → is_same (compare_comparable js lo y) ≡ true
          → js.strict_equal y x ≡ true
      step-covers s h =
          let lo_hi = compare-level lo hi s in
          let lo_y_level = compare-level lo y h in
          let lo_hi_same =
            o.less_total lo hi (compare-kinds lo hi s) in_range.regular_low in_range.regular_high
              lo_hi.0 lo_hi.1 in
          let not_before =
            (o.same_less lo hi x (compare-kinds lo hi s)
              (lo_x o lo hi x y in_range known_low known_high regular_y).kinds lo_hi_same).0
            ∙ not-high-before-x o lo hi x y in_range known_low known_high regular_y in
          let sides =
            o.same_less lo x y (lo_x o lo hi x y in_range known_low known_high regular_y).kinds
              first.kinds
              (same_low o lo hi x y in_range known_low known_high regular_y not_before) in
          o.same_sym y x
          ∙ sides-same o lo hi x y in_range known_low known_high regular_y
              (sym sides.0 ∙ lo_y_level.0) (sym sides.1 ∙ lo_y_level.1)

    pub scan_values-lem :
        (m c : Bool) (ys : List (Value F)) (m' c' : Bool)
        → All (λ y. regular js y ≡ true) ys
        → scan_values js lo hi (is_same (compare_comparable js lo hi)) m c ys ≡ some (m', c')
        → ((m || has_equal js x ys) ≡ true → m' ≡ true)
          × (c' ≡ true → (c || has_equal js x ys) ≡ true)
    unfolding scan_values has_equal
    scan_values-lem m c [] m' c' g e = ground arith
    scan_values-lem m c (y ∷ ys) m' c' g e =
        elim (Bool-cases
          (is_nan (compare_comparable js lo y) || is_nan (compare_comparable js hi y))) [
            | inl n ↦ absurd (none_ne_some (rw n at e))
            | inr n ↦
                let single = is_same (compare_comparable js lo hi) in
                let at_y = is_same (compare_comparable js lo y) in
                let inside =
                  at_most_0 (compare_comparable js lo y)
                  && at_least_0 (compare_comparable js hi y) in
                let ih =
                  scan_values-lem (m || inside) (c || (single && at_y)) ys m' c' g.1 (rw n at e) in
                (
                  step_matches_all m inside (js.strict_equal y x) (has_equal js x ys)
                      (step-matches y (ground arith) (ground arith) g.0) ih.0,
                  step_covers_all c single at_y (js.strict_equal y x) (has_equal js x ys)
                      (step-covers y (ground arith) (ground arith) g.0) ih.1,
                )
          ]
