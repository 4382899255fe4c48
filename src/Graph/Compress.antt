-- ===== src/Graph/Compress.antt =====
-- `CSCMatrix::init` and `CSRMatrix::init` of graph-server/graph/graph.hpp. A write outside an array
-- is a fault. `junk` and `junk_id` are what a new array holds.
use dorylus.Prelude.{
  ℕ, zero, suc, ◌+◌, List, [], ◌∷◌, Option, none, some, ltb, if◌then◌else◌, get_elem?, set,
  replicate, length, ◌>>=◌,
}
use dorylus.Graph.Defs.{
  Edge, Vertex, CscMatrix, CsrMatrix, RawGraph, get_vertex, get_source_vertex_local_id,
  get_dest_vertex_local_id,
}

unfoldable pub store {ℓ} : {A : Type ℓ} → ℕ → A → List A → Option (List A)
store i a xs = if ltb i (length xs) then some (set xs i a) else none

-- `edgItr`, the array of the pointers, the values and the indices.
pub record Arrays (A : Type 0) : Type 0 where
  pub edg_itr : ℕ
  pub ptrs : List ℕ
  pub values : List A
  pub idxs : List ℕ

module _ {A : Type 0} where
  -- The inner loop, over the edges of a vertex.
  unfoldable pub fill : (Edge A → Option ℕ) → List (Edge A) → Arrays A → Option (Arrays A)
  fill local_id [] s = some s
  fill local_id (e ∷ es) s = do
    vs ← store s.edg_itr e.edge_data s.values
    i ← local_id e
    is ← store s.edg_itr i s.idxs
    fill local_id es (record s { edg_itr = s.edg_itr + 1; values = vs; idxs = is })

  -- The outer loop: `n` vertices from `lvid` on.
  unfoldable pub compress :
      RawGraph A
      → (Edge A → Option ℕ)
      → (Vertex A → List (Edge A))
      → ℕ
      → ℕ
      → Arrays A
      → Option (Arrays A)
  compress g local_id edges zero lvid s = some s
  compress g local_id edges (suc n) lvid s = do
    v ← get_vertex lvid g
    low ← get_elem? s.ptrs lvid
    ps ← store (lvid + 1) (low + length (edges v)) s.ptrs
    s' ← fill local_id (edges v) (record s { ptrs = ps })
    compress g local_id edges n (lvid + 1) s'

  -- The new arrays, with `columnPtrs[0] = 0`.
  unfoldable pub new_arrays : A → ℕ → ℕ → ℕ → Arrays A
  new_arrays junk junk_id cnt nnz = record {
    edg_itr = 0;
    ptrs = set (replicate (cnt + 1) junk_id) 0 0;
    values = replicate nnz junk;
    idxs = replicate nnz junk_id;
  }

  -- `columnCnt + 1` and `edgsCnt`, the number of in-edges of a vertex, are taken below 2 ^ 32.
  unfoldable pub init_csc : A → ℕ → RawGraph A → Option (CscMatrix A)
  init_csc junk junk_id g = do
    let n = g.num_local_vertices
    let nnz = g.num_local_in_edges
    s ←
        compress g (get_source_vertex_local_id g) (λ v. v.in_edges) n 0
          (new_arrays junk junk_id n nnz)
    some (record {
      column_cnt = n;
      nnz = nnz;
      values = s.values;
      column_ptrs = s.ptrs;
      row_idxs = s.idxs;
    })

  unfoldable pub init_csr : A → ℕ → RawGraph A → Option (CsrMatrix A)
  init_csr junk junk_id g = do
    let n = g.num_local_vertices
    let nnz = g.num_local_out_edges
    s ←
        compress g (get_dest_vertex_local_id g) (λ v. v.out_edges) n 0
          (new_arrays junk junk_id n nnz)
    some (record {
      row_cnt = n;
      nnz = nnz;
      values = s.values;
      row_ptrs = s.ptrs;
      column_idxs = s.idxs;
    })
