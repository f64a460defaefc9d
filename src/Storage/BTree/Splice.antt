-- ===== src/Storage/BTree/Splice.antt =====
-- The lists of src/storage/btree.ts under `splice` and `push`.
use query_engine.Prelude.{
  ℕ, zero, suc, ◌+◌, ◌≤◌, ◌≡◌, refl, ap, List, [], ◌∷◌, ◌++◌, length, get_elem?, arith,
}
use query_engine.Storage.BTree.{RowLocation, insert_at, take, drop, push_at}
use query_engine.Storage.BTree.Entries.{zip}

pub length-insert_at :
    {A : Type 0} (i : ℕ) (x : A) (xs : List A) → length (insert_at i x xs) ≡ suc (length xs)
length-insert_at zero x xs = refl
length-insert_at (suc i) x [] = refl
length-insert_at (suc i) x (y ∷ ys) = ap suc (length-insert_at i x ys)

pub length-take : {A : Type 0} (n : ℕ) (xs : List A) → n ≤ length xs → length (take n xs) ≡ n
length-take zero xs h = refl
length-take (suc n) [] h = absurd (omega arith)
length-take (suc n) (x ∷ xs) h = ap suc (length-take n xs (omega arith))

pub length-drop :
    {A : Type 0} (n : ℕ) (xs : List A) → n ≤ length xs → n + length (drop n xs) ≡ length xs
length-drop zero xs h = omega arith
length-drop (suc n) [] h = absurd (omega arith)
length-drop (suc n) (x ∷ xs) h = ground (arith, length-drop n xs)

pub length-push_at :
    (i : ℕ) (v : RowLocation) (vs : List (List RowLocation)) → length (push_at i v vs) ≡ length vs
length-push_at i v [] = refl
length-push_at zero v (w ∷ ws) = refl
length-push_at (suc i) v (w ∷ ws) = ap suc (length-push_at i v ws)

pub length-cut :
    {A B : Type 0} (n : ℕ) (xs : List A) (ys : List B)
    → length xs ≡ length ys
    → (length (take n xs) ≡ length (take n ys)) × (length (drop n xs) ≡ length (drop n ys))
length-cut zero xs ys h = (refl, h)
length-cut (suc n) [] [] h = (refl, refl)
length-cut (suc n) [] (y ∷ ys) h = absurd (omega arith)
length-cut (suc n) (x ∷ xs) [] h = absurd (omega arith)
length-cut (suc n) (x ∷ xs) (y ∷ ys) h = ground (arith, length-cut n xs ys)

pub zip-cut :
    {K : Type 0} (n : ℕ) (ks : List K) (vs : List (List RowLocation))
    → length ks ≡ length vs
    → zip (take n ks) (take n vs) ++ zip (drop n ks) (drop n vs) ≡ zip ks vs
zip-cut zero ks vs h = refl
zip-cut (suc n) [] vs h = refl
zip-cut (suc n) (k ∷ ks) [] h = absurd (omega arith)
zip-cut (suc n) (k ∷ ks) (v ∷ vs) h = ap (λ es. (k, v) ∷ es) (zip-cut n ks vs (omega arith))

pub first-drop : {A : Type 0} (n : ℕ) (xs : List A) → get_elem? (drop n xs) 0 ≡ get_elem? xs n
first-drop zero xs = refl
first-drop (suc n) [] = refl
first-drop (suc n) (x ∷ xs) = first-drop n xs
