-- ===== src/Engine/Aggregate/Defs.antt =====
-- A tensor is the list of its rows; a read or a write outside is a fault. `plus` and `times` are those of
-- `FeatType`. The loops over the vertices of a chunk write different rows, so that their order, which
-- OpenMP does not fix, is that of the vertices.
use dorylus.Prelude.{
  ℕ, zero, suc, ◌+◌, ◌-◌, List, [], ◌∷◌, ◌++◌, map, Option, none, some, ltb, if◌then◌else◌, length,
  get_elem?, set, ◌>>=◌,
}
use dorylus.Chunk.{forward, backward, Chunk}
use dorylus.Graph.Defs.{CscMatrix, CsrMatrix}

-- A pointer to a feature: into the tensor of the vertices, or into that of the ghosts.
pub data Place : Type 0 where
  of_vertex of_ghost : ℕ → Place

-- The tensors that the pointers lead to.
pub record Tensors (A : Type 0) : Type 0 where
  pub vertices : List (List A)
  pub ghosts : List (List A)

-- The pointers and the values of a matrix, whichever way it goes.
pub record AdjMatrix (A : Type 0) : Type 0 where
  pub ptrs : List ℕ
  pub values : List A

unfoldable pub place_of : ℕ → ℕ → Place
place_of local_vtx_cnt vid =
    if ltb vid local_vtx_cnt then of_vertex vid else of_ghost (vid - local_vtx_cnt)

-- The `n` edges from `eid` on, which are those of `lvid`: the pointers of both ends, behind those made.
unfoldable pub edge_places :
    ℕ → List ℕ → ℕ → ℕ → ℕ → List Place × List Place → Option (List Place × List Place)
edge_places local_vtx_cnt idxs lvid zero eid (srcs, dsts) = some (srcs, dsts)
edge_places local_vtx_cnt idxs lvid (suc n) eid (srcs, dsts) = do
  vid ← get_elem? idxs eid
  edge_places local_vtx_cnt idxs lvid n (eid + 1)
      (srcs ++ place_of local_vtx_cnt vid ∷ [], dsts ++ of_vertex lvid ∷ [])

-- The `n` vertices from `lvid` on.
unfoldable pub vertex_places :
    ℕ → List ℕ → List ℕ → ℕ → ℕ → List Place × List Place → Option (List Place × List Place)
vertex_places local_vtx_cnt ptrs idxs zero lvid bufs = some bufs
vertex_places local_vtx_cnt ptrs idxs (suc n) lvid bufs = do
  lo ← get_elem? ptrs lvid
  hi ← get_elem? ptrs (lvid + 1)
  bufs' ← edge_places local_vtx_cnt idxs lvid (hi - lo) lo bufs
  vertex_places local_vtx_cnt ptrs idxs n (lvid + 1) bufs'

module _ {A : Type 0} where
  unfoldable pub src_v_feats_2_e_feats : ℕ → CscMatrix A → Option (List Place × List Place)
  src_v_feats_2_e_feats local_vtx_cnt m =
      vertex_places local_vtx_cnt m.column_ptrs m.row_idxs local_vtx_cnt 0 ([], [])

  unfoldable pub dst_v_feats_2_e_feats : ℕ → CsrMatrix A → Option (List Place × List Place)
  dst_v_feats_2_e_feats local_vtx_cnt m =
      vertex_places local_vtx_cnt m.row_ptrs m.column_idxs local_vtx_cnt 0 ([], [])

  unfoldable pub row_at : Tensors A → Place → Option (List A)
  row_at t (of_vertex i) = get_elem? t.vertices i
  row_at t (of_ghost i) = get_elem? t.ghosts i

  module _ (plus times : A → A → A) where
    -- `currDataDst[j] += inputTensor[eid][j] * normFactor` for each `j`.
    unfoldable pub add_scaled : List A → List A → A → Option (List A)
    add_scaled [] feat w = some []
    add_scaled (x ∷ xs) [] w = none
    add_scaled (x ∷ xs) (y ∷ ys) w = do rest ← add_scaled xs ys w; some (plus x (times y w) ∷ rest)

    -- The `n` edges from `eid` on.
    unfoldable pub add_edges : Tensors A → List Place → List A → ℕ → ℕ → List A → Option (List A)
    add_edges t places values zero eid row = some row
    add_edges t places values (suc n) eid row = do
      w ← get_elem? values eid
      p ← get_elem? places eid
      feat ← row_at t p
      row' ← add_scaled row feat w
      add_edges t places values n (eid + 1) row'

    -- The `memcpy` of the chunk.
    unfoldable pub copy_rows : List (List A) → ℕ → ℕ → List (List A) → Option (List (List A))
    copy_rows feats zero lvid output = some output
    copy_rows feats (suc n) lvid output = do
      row ← get_elem? feats lvid
      if ltb lvid (length output) then copy_rows feats n (lvid + 1) (set output lvid row) else none

    -- The loop over the vertices of the chunk, which makes a new row of each.
    unfoldable pub for_rows :
        (ℕ → List A → Option (List A)) → ℕ → ℕ → List (List A) → Option (List (List A))
    for_rows step zero lvid output = some output
    for_rows step (suc n) lvid output = do
      row ← get_elem? output lvid
      row' ← step lvid row
      for_rows step n (lvid + 1) (set output lvid row')

    -- All edges of a vertex in a matrix.
    unfoldable pub add_vertex_edges :
        Tensors A → List Place → AdjMatrix A → ℕ → List A → Option (List A)
    add_vertex_edges t places adj lvid row = do
      lo ← get_elem? adj.ptrs lvid
      hi ← get_elem? adj.ptrs (lvid + 1)
      add_edges t places adj.values (hi - lo) lo row

    -- The body of `aggregateGCN`'s loop; `norms` are `graph.vtxDataVec`.
    unfoldable pub gcn_row :
        Tensors A → List Place → List A → AdjMatrix A → ℕ → List A → Option (List A)
    gcn_row t places norms adj lvid row = do
      norm ← get_elem? norms lvid
      add_vertex_edges t places adj lvid (map (λ x. times x norm) row)

    -- `feats` is the tensor of the vertices that are aggregated, and `output` the result's.
    unfoldable pub aggregate_gcn :
        CscMatrix A
        → CsrMatrix A
        → Tensors A
        → List Place
        → List A
        → List (List A)
        → Chunk
        → List (List A)
        → Option (List (List A))
    aggregate_gcn f b t places norms feats c output = do
      let n = c.up_bound - c.low_bound
      let adj : AdjMatrix A = elim c.dir [
        | forward ↦ record { ptrs = f.column_ptrs; values = f.values }
        | backward ↦ record { ptrs = b.row_ptrs; values = b.values }
      ]
      copied ← copy_rows feats n c.low_bound output
      for_rows (gcn_row t places norms adj) n c.low_bound copied

    -- The body of `aggregateGAT`'s loop in the backward direction: the gradients at the ends of the
    -- outgoing edges, and then the activations at the sources of the incoming ones, by `dA`.
    unfoldable pub gat_back_row :
        AdjMatrix A
        → Tensors A
        → List Place
        → AdjMatrix A
        → Tensors A
        → List Place
        → ℕ
        → List A
        → Option (List A)
    gat_back_row b tb places_b d tf places_f lvid row = do
      row' ← add_vertex_edges tb places_b b lvid row
      add_vertex_edges tf places_f d lvid row'

    -- `tf` and `places_f` are the forward edge tensor, and `tb` and `places_b` the backward one.
    unfoldable pub aggregate_gat :
        CscMatrix A
        → CsrMatrix A
        → Tensors A
        → List Place
        → Tensors A
        → List Place
        → List A
        → List (List A)
        → Chunk
        → List (List A)
        → Option (List (List A))
    aggregate_gat f b tf places_f tb places_b d_a feats c output =
        let n = c.up_bound - c.low_bound in
        elim c.dir [
          | forward ↦ (do
            copied ← copy_rows feats n c.low_bound output
            for_rows
                (add_vertex_edges tf places_f (record { ptrs = f.column_ptrs; values = f.values }))
                n c.low_bound copied)
          | backward ↦
              for_rows
                (gat_back_row (record { ptrs = b.row_ptrs; values = b.values }) tb places_b
                  (record { ptrs = f.column_ptrs; values = d_a }) tf places_f)
                n c.low_bound output
        ]
