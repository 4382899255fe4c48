-- ===== src/Engine/Aggregate/Whole.antt =====
-- `aggregateGCN` and `aggregateGAT` over the compressed matrices are the sum over the neighbours in the
-- graph.
use dorylus.Prelude.{ℕ, ◌-◌, ◌≡◌, ◌<◌, ◌≤◌, List, map, some, arith, length}
use dorylus.Chunk.{forward, backward, Chunk}
use dorylus.Graph.Defs.{Vertex, RawGraph, CscMatrix, CsrMatrix}
use dorylus.Graph.Compress.{init_csc, init_csr}
use dorylus.Graph.Columns.{ids_of}
use dorylus.Graph.Adjacency.{IsCounted, sources, dests}
use dorylus.Graph.Finished.{csc_of, csr_of, init_csc-eq, init_csr-eq}
use dorylus.Engine.Aggregate.Defs.{
  Place, Tensors, place_of, src_v_feats_2_e_feats, dst_v_feats_2_e_feats, aggregate_gcn,
  aggregate_gat,
}
use dorylus.Engine.Aggregate.Rows.{IsRows}
use dorylus.Engine.Aggregate.Summed.{
  summed, gathered, vertex_places-eq, IsRows-summed, IsRows-gathered,
}

module _ {A : Type 0} (plus times : A → A → A) (t : Tensors A) (norms : List A)
    (feats : List (List A)) (g : RawGraph A) where
  -- For a graph whose counts are right and whose edges all end somewhere, and a forward chunk whose
  -- vertices are in the tensors and have a sum: the matrix of the graph is made, with a pointer for each
  -- edge, and over these the aggregation does not fault, gives each vertex of the chunk the sum of its
  -- own feature, by its factor, and of those of the sources of its incoming edges, by the values of
  -- the edges and in their order, and leaves the other rows.
  pub aggregate_gcn-forward :
      (junk : A) (junk_id : ℕ) (b : CsrMatrix A) (c : Chunk) (output : List (List A))
      → IsCounted g
      → c.dir ≡ forward
      → c.low_bound ≤ c.up_bound
      → c.up_bound ≤ length output
      → c.up_bound ≤ length feats
      → ((lvid : ℕ)
          → c.low_bound ≤ lvid
          → lvid < c.up_bound
          → (row : List A) × (summed plus times t norms feats g (sources g) (λ v. v.in_edges) lvid
              ≡ some row))
      → (m : CscMatrix A) × (places : List Place) × (dsts : List Place) × (output' : List (List A))
        × (init_csc junk junk_id g ≡ some m)
        × (src_v_feats_2_e_feats g.num_local_vertices m ≡ some (places, dsts))
        × (aggregate_gcn plus times m b t places norms feats c output ≡ some output')
        × IsRows
            (summed plus times t norms feats g (sources g) (λ v. v.in_edges))
            c.low_bound
            (c.up_bound - c.low_bound)
            output
            output'
  unfolding src_v_feats_2_e_feats aggregate_gcn
  aggregate_gcn-forward junk junk_id b c output v dir order fits enough h =
      let n = c.up_bound - c.low_bound in
      let edges = λ (u : Vertex A). u.in_edges in
      let (dsts, p) =
        vertex_places-eq plus times t norms feats g (sources g) edges v.resolved_in v.vertices in
      let (copied, output', q, r, w) =
        IsRows-summed plus times t norms feats g (sources g) edges v.resolved_in v.vertices n
          c.low_bound output (omega (arith, order, fits)) (omega (arith, order, enough))
          (λ k x y. h k x (omega (arith, y, order))) in
      (
        csc_of g v,
        map (place_of g.num_local_vertices) (ids_of (sources g) edges g.vertices v.resolved_in),
        dsts,
        output',
        init_csc-eq junk junk_id g v,
        p,
        rw (dir, q) r,
        w,
      )

  -- For a graph whose counts are right and whose edges all end somewhere, and a backward chunk whose
  -- vertices are in the tensors and have a sum: the matrix of the graph is made, with a pointer for each
  -- edge, and over these the aggregation does not fault, gives each vertex of the chunk the sum of its
  -- own gradient, by its factor, and of those of the ends of its outgoing edges, by the values of
  -- the edges and in their order, and leaves the other rows.
  pub aggregate_gcn-backward :
      (junk : A) (junk_id : ℕ) (f : CscMatrix A) (c : Chunk) (output : List (List A))
      → IsCounted g
      → c.dir ≡ backward
      → c.low_bound ≤ c.up_bound
      → c.up_bound ≤ length output
      → c.up_bound ≤ length feats
      → ((lvid : ℕ)
          → c.low_bound ≤ lvid
          → lvid < c.up_bound
          → (row : List A) × (summed plus times t norms feats g (dests g) (λ v. v.out_edges) lvid
              ≡ some row))
      → (m : CsrMatrix A) × (places : List Place) × (srcs : List Place) × (output' : List (List A))
        × (init_csr junk junk_id g ≡ some m)
        × (dst_v_feats_2_e_feats g.num_local_vertices m ≡ some (places, srcs))
        × (aggregate_gcn plus times f m t places norms feats c output ≡ some output')
        × IsRows
            (summed plus times t norms feats g (dests g) (λ v. v.out_edges))
            c.low_bound
            (c.up_bound - c.low_bound)
            output
            output'
  unfolding dst_v_feats_2_e_feats aggregate_gcn
  aggregate_gcn-backward junk junk_id f c output v dir order fits enough h =
      let n = c.up_bound - c.low_bound in
      let edges = λ (u : Vertex A). u.out_edges in
      let (srcs, p) =
        vertex_places-eq plus times t norms feats g (dests g) edges v.resolved_out v.vertices in
      let (copied, output', q, r, w) =
        IsRows-summed plus times t norms feats g (dests g) edges v.resolved_out v.vertices n
          c.low_bound output (omega (arith, order, fits)) (omega (arith, order, enough))
          (λ k x y. h k x (omega (arith, y, order))) in
      (
        csr_of g v,
        map (place_of g.num_local_vertices) (ids_of (dests g) edges g.vertices v.resolved_out),
        srcs,
        output',
        init_csr-eq junk junk_id g v,
        p,
        rw (dir, q) r,
        w,
      )

  -- For a graph whose counts are right and whose edges all end somewhere, and a forward chunk of a GAT
  -- whose vertices are in the tensors and have a sum: the matrix of the graph is made, with a pointer
  -- for each edge, and over these the aggregation does not fault, gives each vertex of the chunk the sum
  -- of its own feature and of those of the sources of its incoming edges, by the values of the edges
  -- and in their order, and leaves the other rows.
  pub aggregate_gat-forward :
      (junk : A) (junk_id : ℕ) (b : CsrMatrix A) (tb : Tensors A) (places_b : List Place)
      (d_a : List A) (c : Chunk) (output : List (List A))
      → IsCounted g
      → c.dir ≡ forward
      → c.low_bound ≤ c.up_bound
      → c.up_bound ≤ length output
      → c.up_bound ≤ length feats
      → ((lvid : ℕ)
          → c.low_bound ≤ lvid
          → lvid < c.up_bound
          → (row : List A) × (gathered plus times t norms feats g (sources g) (λ v. v.in_edges) lvid
              ≡ some row))
      → (m : CscMatrix A) × (places : List Place) × (dsts : List Place) × (output' : List (List A))
        × (init_csc junk junk_id g ≡ some m)
        × (src_v_feats_2_e_feats g.num_local_vertices m ≡ some (places, dsts))
        × (aggregate_gat plus times m b t places tb places_b d_a feats c output ≡ some output')
        × IsRows
            (gathered plus times t norms feats g (sources g) (λ v. v.in_edges))
            c.low_bound
            (c.up_bound - c.low_bound)
            output
            output'
  unfolding src_v_feats_2_e_feats aggregate_gat
  aggregate_gat-forward junk junk_id b tb places_b d_a c output v dir order fits enough h =
      let n = c.up_bound - c.low_bound in
      let edges = λ (u : Vertex A). u.in_edges in
      let (dsts, p) =
        vertex_places-eq plus times t norms feats g (sources g) edges v.resolved_in v.vertices in
      let (copied, output', q, r, w) =
        IsRows-gathered plus times t norms feats g (sources g) edges v.resolved_in v.vertices n
          c.low_bound output (omega (arith, order, fits)) (omega (arith, order, enough))
          (λ k x y. h k x (omega (arith, y, order))) in
      (
        csc_of g v,
        map (place_of g.num_local_vertices) (ids_of (sources g) edges g.vertices v.resolved_in),
        dsts,
        output',
        init_csc-eq junk junk_id g v,
        p,
        rw (dir, q) r,
        w,
      )
