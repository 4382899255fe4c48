-- ===== src/Graph/Write.antt =====
-- `RawGraph::dump` of graph-server/graph/graph.cpp. The file is the sequence of the values that are
-- written, each with its type; a read outside an array or a vector is a fault.
use dorylus.Prelude.{
  ℕ, zero, suc, ◌+◌, List, [], ◌∷◌, ◌++◌, map, Option, none, some, length, get_elem?, ◌>>=◌,
}
use dorylus.Prelude.Map.{Map, find, nat_order}
use dorylus.Graph.Defs.{GhostVertex, RawGraph}

-- `unsigned`, `unsigned long long` and `EdgeType`.
pub data Value (A : Type 0) : Type 0 where
  word long : ℕ → Value A
  real : A → Value A

-- The first `n` elements of an array.
abbrev pub first {ℓ} : {B : Type ℓ} → ℕ → List B → Option (List B)
first zero xs = some []
first (suc n) [] = none
first (suc n) (x ∷ xs) = do ys ← first n xs; some (x ∷ ys)

module _ {A : Type 0} where
  -- `localToGlobalId[i]` for `n` vertices from `i` on; a missing key reads as 0.
  unfoldable pub global_ids : ℕ → ℕ → RawGraph A → List ℕ
  global_ids zero i g = []
  global_ids (suc n) i g =
      elim (find i g.local_to_global_id) [ none ↦ 0 | some x ↦ x ] ∷ global_ids n (i + 1) g

  unfoldable pub norm_factors : ℕ → ℕ → RawGraph A → Option (List A)
  norm_factors zero i g = some []
  norm_factors (suc n) i g = do
    v ← get_elem? g.vertices i
    xs ← norm_factors n (i + 1) g
    some (v.norm_factor ∷ xs)

  unfoldable pub write_ghosts : Map ℕ GhostVertex → List (Value A) → List (Value A)
  write_ghosts [] out = out
  write_ghosts ((gvid, v) ∷ ghosts) out = word gvid ∷ word v.local_id ∷ write_ghosts ghosts out

  -- A list after its size.
  unfoldable pub write_lists : List (List ℕ) → List (Value A) → List (Value A)
  write_lists [] out = out
  write_lists (xs ∷ xss) out = word (length xs) ∷ (map word xs ++ write_lists xss out)

  -- The counts and the three arrays of a matrix.
  unfoldable pub write_adjacency :
      ℕ → ℕ → List A → List ℕ → List ℕ → List (Value A) → List (Value A)
  write_adjacency cnt nnz values ptrs idxs out =
      word cnt ∷ long nnz ∷ (map real values ++ (map long ptrs ++ (map word idxs ++ out)))

  unfoldable pub dump : ℕ → RawGraph A → Option (List (Value A))
  dump num_nodes g = do
    let n = g.num_local_vertices
    let f = g.forward_adj
    let b = g.backward_adj
    norms ← norm_factors n 0 g
    forward ← first num_nodes g.forward_ghosts_list
    backward ← first num_nodes g.backward_ghosts_list
    f_values ← first f.nnz f.values
    f_ptrs ← first (suc n) f.column_ptrs
    f_idxs ← first f.nnz f.row_idxs
    b_values ← first b.nnz b.values
    b_ptrs ← first (suc n) b.row_ptrs
    b_idxs ← first b.nnz b.column_idxs
    let adjacency =
        write_adjacency f.column_cnt f.nnz f_values f_ptrs f_idxs
          (write_adjacency b.row_cnt b.nnz b_values b_ptrs b_idxs [])
    let lists = word num_nodes ∷ write_lists forward (write_lists backward adjacency)
    let ghosts =
        write_ghosts g.in_edge_ghost_vertices (write_ghosts g.out_edge_ghost_vertices lists)
    some (
        word n
        ∷ word g.num_global_vertices
        ∷ word g.num_in_edge_ghost_vertices
        ∷ word g.num_out_edge_ghost_vertices
        ∷ long g.num_local_in_edges
        ∷ long g.num_local_out_edges
        ∷ long g.num_global_edges
        ∷ (map word (global_ids n 0 g) ++ (map real norms ++ ghosts)))
