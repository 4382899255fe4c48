-- ===== src/Graph/Ghosts.antt =====
-- The local ids of the ghosts, which `DataLoader::preprocess` of graph-server/graph/dataloader.cpp
-- gives, and their degrees.
use dorylus.Prelude.{
  ℕ, ◌+◌, ◌≤◌, ◌<◌, ◌≡◌, ◌≢◌, ◌⊎◌, inl, inr, List, [], ◌∷◌, none, some, arith, ◌==◌, if◌then◌else◌,
  add32, add32-eq, u32_mod, Bool-cases,
}
use dorylus.Prelude.Map.{Map, find, insert, size, same, nat_order}
use dorylus.Graph.Defs.{
  GhostVertex, RawGraph, contains_out_edge_ghost_vertex, contains_in_edge_ghost_vertex,
}

-- `setLocalId(ghostCount++)` in the order of the map.
unfoldable pub number_ghosts : ℕ → Map ℕ GhostVertex → Map ℕ GhostVertex
number_ghosts count [] = []
number_ghosts count ((k, v) ∷ ghosts) =
    (k, record v { local_id = count }) ∷ number_ghosts (add32 count 1) ghosts

unfoldable pub increment_degree : ℕ → Map ℕ GhostVertex → Map ℕ GhostVertex
increment_degree k ghosts = elim (find k ghosts) [
  | none ↦ ghosts
  | some v ↦ insert k (record v { degree = add32 v.degree 1 }) ghosts
]

module _ {A : Type 0} where
  unfoldable pub number_all_ghosts : RawGraph A → RawGraph A
  number_all_ghosts g = record g {
    in_edge_ghost_vertices = number_ghosts g.num_local_vertices g.in_edge_ghost_vertices;
    out_edge_ghost_vertices = number_ghosts g.num_local_vertices g.out_edge_ghost_vertices;
  }

  -- Another edge that ends at `dst`.
  unfoldable pub count_degree : ℕ → RawGraph A → RawGraph A
  count_degree dst g =
      let g1 =
        if contains_out_edge_ghost_vertex dst g
        then record g { out_edge_ghost_vertices = increment_degree dst g.out_edge_ghost_vertices }
        else g in
      if contains_in_edge_ghost_vertex dst g1
      then record g1 { in_edge_ghost_vertices = increment_degree dst g1.in_edge_ghost_vertices }
      else g1

  -- The loop over the edges of the file.
  unfoldable pub find_ghost_degrees : List (ℕ × ℕ) → RawGraph A → RawGraph A
  find_ghost_degrees [] g = g
  find_ghost_degrees ((src, dst) ∷ edges) g =
      find_ghost_degrees edges (if src == dst then g else count_degree dst g)

number_ghosts_bounds :
    (count : ℕ) (ghosts : Map ℕ GhostVertex) (k : ℕ) {v : GhostVertex}
    → count + size ghosts < u32_mod
    → find k (number_ghosts count ghosts) ≡ some v
    → (count ≤ v.local_id) × (v.local_id < count + size ghosts)
unfolding find number_ghosts size
number_ghosts_bounds count [] k room e = absurd (cc e)
number_ghosts_bounds count ((j, w) ∷ ghosts) k {v} room e = elim (Bool-cases (same j k)) [
  | inl here ↦ ground (arith, here, e)
  | inr there ↦ ground (
    arith,
    there,
    e,
    add32-eq count 1 (omega arith),
    number_ghosts_bounds (add32 count 1) ghosts k {v = v},
  )
]

number_ghosts_distinct :
    (count : ℕ) (ghosts : Map ℕ GhostVertex) (k j : ℕ) {v w : GhostVertex}
    → count + size ghosts < u32_mod
    → find k (number_ghosts count ghosts) ≡ some v
    → find j (number_ghosts count ghosts) ≡ some w
    → (k ≡ j) ⊎ (v.local_id ≢ w.local_id)
unfolding find number_ghosts size
number_ghosts_distinct count [] k j room e f = absurd (cc e)
number_ghosts_distinct count ((i, u) ∷ ghosts) k j {v} {w} room e f =
    let next = add32-eq count 1 (omega arith) in
    elim (Bool-cases (same i k)) [
      | inl a ↦ elim (Bool-cases (same i j)) [
        | inl b ↦ inl (ground (arith, a, b))
        | inr b ↦ inr (λ q.
            ground
              (arith, a, b, e, f, q, next, number_ghosts_bounds (add32 count 1) ghosts j {v = w}))
      ]
      | inr a ↦ elim (Bool-cases (same i j)) [
        | inl b ↦ inr (λ q.
            ground
              (arith, a, b, e, f, q, next, number_ghosts_bounds (add32 count 1) ghosts k {v = v}))
        | inr b ↦
            number_ghosts_distinct (add32 count 1) ghosts k j {v = v} {w = w} (omega (arith, next))
              (ground (arith, a, e)) (ground (arith, b, f))
      ]
    ]

-- The ghosts of a graph whose local vertices and ghosts are fewer than 2 ^ 32 get local ids behind
-- those of the local vertices and below the number of both, and different ghosts different ones.
pub number_all_ghosts_bounds :
    {A : Type 0} (g : RawGraph A) (k j : ℕ) {v w : GhostVertex}
    → g.num_local_vertices + size g.in_edge_ghost_vertices < u32_mod
    → find k (number_all_ghosts g).in_edge_ghost_vertices ≡ some v
    → find j (number_all_ghosts g).in_edge_ghost_vertices ≡ some w
    → (g.num_local_vertices ≤ v.local_id)
      × (v.local_id < g.num_local_vertices + size g.in_edge_ghost_vertices)
      × ((k ≡ j) ⊎ (v.local_id ≢ w.local_id))
unfolding number_all_ghosts
number_all_ghosts_bounds g k j {v} {w} room e f =
    let b = number_ghosts_bounds g.num_local_vertices g.in_edge_ghost_vertices k {v = v} room e in
    (
      b.0,
      b.1,
      number_ghosts_distinct g.num_local_vertices g.in_edge_ghost_vertices k j {v = v} {w = w} room
          e f,
    )
