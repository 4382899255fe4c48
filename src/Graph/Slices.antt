-- ===== src/Graph/Slices.antt =====
-- The compressed matrices of a whole graph, and what stands between two pointers.
use dorylus.Prelude.{
  take, ℕ, zero, suc, ◌+◌, ◌-◌, ◌≤◌, ◌≡◌, refl, sym, ap, ◌∙◌, List, [], ◌∷◌, ◌++◌, map, Option,
  some, arith, length, length-append, drop,
}
use mathlib.Core.Path.{ap₂}
use mathlib.Core.List.{append_assoc, map-append}
use dorylus.Graph.Defs.{Edge, Vertex, RawGraph}
use dorylus.Graph.Compress.{compress}
use dorylus.Graph.Columns.{
  arrays, arrays4_eq, all_edges, Resolved, ids_of, ptrs_of, compress_cons, snoc-append, length-map,
}

pub length-drop : {B : Type 0} (n : ℕ) (xs : List B) → length (drop n xs) ≡ length xs - n
length-drop zero xs = omega arith
length-drop (suc n) [] = omega arith
length-drop (suc n) (x ∷ xs) = omega (arith, length-drop n xs)

pub drop_nil : {B : Type 0} (n : ℕ) → drop {A = B} n [] ≡ []
drop_nil zero = refl
drop_nil (suc n) = refl

succ : (n m : ℕ) → suc (n + m) ≡ suc n + m
succ n m = omega arith

drop-drop : {B : Type 0} (n m : ℕ) (xs : List B) → drop m (drop n xs) ≡ drop (n + m) xs
drop-drop zero m xs = ap (λ k. drop k xs) (omega arith)
drop-drop (suc n) m [] = drop_nil m ∙ sym (drop_nil (suc n + m))
drop-drop (suc n) m (x ∷ xs) = drop-drop n m xs ∙ ap (λ k. drop k (x ∷ xs)) (succ n m)

pub drop_all : {B : Type 0} (xs : List B) → drop (length xs) xs ≡ []
drop_all [] = refl
drop_all (x ∷ xs) = drop_all xs

abbrev pub slice : {B : Type 0} → ℕ → ℕ → List B → List B
slice lo n xs = take n (drop lo xs)

map-take : {B C : Type 0} (h : B → C) (n : ℕ) (xs : List B) → map h (take n xs) ≡ take n (map h xs)
map-take h zero xs = refl
map-take h (suc n) [] = refl
map-take h (suc n) (x ∷ xs) = ap (λ t. h x ∷ t) (map-take h n xs)

map-drop : {B C : Type 0} (h : B → C) (n : ℕ) (xs : List B) → map h (drop n xs) ≡ drop n (map h xs)
map-drop h zero xs = refl
map-drop h (suc n) [] = refl
map-drop h (suc n) (x ∷ xs) = map-drop h n xs

pub map-slice :
    {B C : Type 0} (h : B → C) (lo n : ℕ) (xs : List B)
    → map h (slice lo n xs) ≡ slice lo n (map h xs)
map-slice h lo n xs = map-take h n (drop lo xs) ∙ ap (take n) (map-drop h lo xs)

pub take_front : {B : Type 0} (xs ys : List B) → take (length xs) (xs ++ ys) ≡ xs
take_front [] ys = refl
take_front (x ∷ xs) ys = ap (λ t. x ∷ t) (take_front xs ys)

pub drop_front : {B : Type 0} (xs ys : List B) (n : ℕ) → drop (length xs + n) (xs ++ ys) ≡ drop n ys
drop_front [] ys n = ap (λ k. drop k ys) (omega arith)
drop_front {B} (x ∷ xs) ys n =
    ap (λ k. drop k (x ∷ (xs ++ ys))) (more (length xs) n) ∙ drop_front xs ys n
  where
    more : (a b : ℕ) → suc a + b ≡ suc (a + b)
    more a b = omega arith

-- The parts of two stages put together.
join :
    {B : Type 0} (ws a b r : List B) (n m : ℕ)
    → (ws ++ a) ++ (b ++ drop m (drop n r)) ≡ ws ++ ((a ++ b) ++ drop (n + m) r)
join ws a b r n m =
    ap (λ t. (ws ++ a) ++ (b ++ t)) (drop-drop n m r)
    ∙ append_assoc ws a (b ++ drop (n + m) r)
    ∙ ap (λ t. ws ++ t) (sym (append_assoc a b (drop (n + m) r)))

module _ {A : Type 0} (f : Edge A → Option ℕ) (edges : Vertex A → List (Edge A))
    (g : RawGraph A) where
  abbrev pub data_of : List (Vertex A) → List A
  data_of vs = map (λ e. e.edge_data) (all_edges f edges vs)

  pub compress-eq :
      (pre vs : List (Vertex A)) (ps jp : List ℕ) (ws r : List A) (is ri : List ℕ)
      (ids : Resolved f edges vs)
      → g.vertices ≡ pre ++ vs
      → length pre ≡ length ps
      → length is ≡ length ws
      → length jp ≡ length vs
      → length (all_edges f edges vs) ≤ length r
      → length (all_edges f edges vs) ≤ length ri
      → (n : ℕ) × (compress g f edges
            (length vs)
            (length ps)
            (arrays (length ws) (ps ++ length ws ∷ jp) (ws ++ r) (is ++ ri))
          ≡ some (
              arrays n
                (ps ++ ptrs_of f edges (length ws) vs)
                (ws ++ (data_of vs ++ drop (length (all_edges f edges vs)) r))
                (is ++ (ids_of f edges vs ids ++ drop (length (all_edges f edges vs)) ri))))
  unfolding compress
  compress-eq pre [] ps [] ws r is ri ids gv lp li lj lr lri = (length ws, refl)
  compress-eq pre [] ps (j ∷ jp) ws r is ri ids gv lp li lj lr lri = absurd (omega arith)
  compress-eq pre (v ∷ vs) ps [] ws r is ri ids gv lp li lj lr lri = absurd (omega arith)
  compress-eq pre (v ∷ vs) ps (j ∷ jp) ws r is ri ids gv lp li lj lr lri =
      let d = map (λ e. e.edge_data) (edges v) in
      let k = length (edges v) in
      let total = length-append (edges v) (all_edges f edges vs) in
      let same : length ids.0.0 ≡ k =
        sym (length-map some ids.0.0) ∙ ap length ids.0.1 ∙ length-map f (edges v) in
      let len : length ws + k ≡ length (ws ++ d) =
        omega (arith, length-append ws d, length-map (λ e. e.edge_data) (edges v)) in
      let (n, e) =
        compress-eq (pre ++ v ∷ []) vs (ps ++ length ws ∷ []) jp (ws ++ d) (drop k r)
          (is ++ ids.0.0) (drop k ri) ids.1 (gv ∙ snoc-append pre vs v)
          (omega (arith, length-append pre (v ∷ []), length-append ps (length ws ∷ [])))
          (omega (arith, len, same, length-append is ids.0.0)) (omega arith)
          (omega (arith, total, length-drop k r)) (omega (arith, total, length-drop k ri)) in
      (
        n,
        compress_cons f edges g v pre vs (length vs) j ps jp ws r is ri ids.0.0 gv lp li ids.0.1
              (omega (arith, total)) (omega (arith, total))
            ∙ e
            ∙ ap some (
                arrays4_eq n
                  (sym (snoc-append ps (ptrs_of f edges (length (ws ++ d)) vs) (length ws))
                    ∙ ap (λ low. ps ++ length ws ∷ ptrs_of f edges low vs) (sym len))
                  (join ws d (data_of vs) r k (length (all_edges f edges vs))
                    ∙ ap₂ (λ a m. ws ++ (a ++ drop m r))
                        (sym (map-append (λ e. e.edge_data) (edges v) (all_edges f edges vs)))
                        (sym total))
                  (join is ids.0.0 (ids_of f edges vs ids.1) ri k (length (all_edges f edges vs))
                    ∙ ap (λ m. is ++ (ids_of f edges (v ∷ vs) ids ++ drop m ri)) (sym total))),
      )
