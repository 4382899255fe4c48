-- ===== src/Graph/Start.antt =====
-- `preprocess` reads the partition file and makes the vertices and the tables: the loader is in order.
use dorylus.Prelude.{
  ℕ, zero, suc, ◌+◌, ◌≡◌, ◌<◌, inl, inr, refl, sym, ap, ◌∙◌, subst, List, [], ◌∷◌, ◌++◌, arith,
  ◌==◌, length, get_elem?, u32_mod, Bool-cases, All,
}
use dorylus.Prelude.Map.{Map, IsSorted, nat_order}
use dorylus.Graph.Defs.{RawGraph, GhostVertex}
use dorylus.Graph.Partition.{
  PartsLine, skipped, failed, part_id, add_vertex, read_parts_loop, read_parts_file,
}
use dorylus.Graph.Edges.{DataLoader}
use dorylus.Graph.Loaded.{GoodVertex, total}
use dorylus.Graph.Invariant.{Parts, IsLoaded}
use dorylus.Graph.Preprocess.{new_vertices, prepare}
use dorylus.Graph.Prepared.{read_ids, IsBlank, new_tables-Rows, IsPlaced, read_parts_loop-IsPlaced}

module _ {A : Type 0} where
  -- What the partition file does not touch.
  record Untouched (g g' : RawGraph A) : Type 0 where
    in_ghosts : g'.in_edge_ghost_vertices ≡ g.in_edge_ghost_vertices
    out_ghosts : g'.out_edge_ghost_vertices ≡ g.out_edge_ghost_vertices
    in_edges : g'.num_local_in_edges ≡ g.num_local_in_edges
    out_edges : g'.num_local_out_edges ≡ g.num_local_out_edges
    edges : g'.num_global_edges ≡ g.num_global_edges

  Untouched-refl : (g : RawGraph A) → Untouched g g
  Untouched-refl g = record {
    in_ghosts = refl;
    out_ghosts = refl;
    in_edges = refl;
    out_edges = refl;
    edges = refl;
  }

  Untouched-trans : {g g1 g2 : RawGraph A} → Untouched g g1 → Untouched g1 g2 → Untouched g g2
  Untouched-trans a b = record {
    in_ghosts = b.in_ghosts ∙ a.in_ghosts;
    out_ghosts = b.out_ghosts ∙ a.out_ghosts;
    in_edges = b.in_edges ∙ a.in_edges;
    out_edges = b.out_edges ∙ a.out_edges;
    edges = b.edges ∙ a.edges;
  }

  add_vertex-Untouched :
      (node_id p lvid gvid : ℕ) (g : RawGraph A) → Untouched g (add_vertex node_id p lvid gvid g).0
  unfolding add_vertex
  add_vertex-Untouched node_id p lvid gvid g = elim (Bool-cases (p == node_id)) [
    | inl mine ↦ rw mine (record {
      in_ghosts = refl;
      out_ghosts = refl;
      in_edges = refl;
      out_edges = refl;
      edges = refl;
    })
    | inr other ↦ rw other (record {
      in_ghosts = refl;
      out_ghosts = refl;
      in_edges = refl;
      out_edges = refl;
      edges = refl;
    })
  ]

  read_parts_loop-Untouched :
      (node_id : ℕ) (ls : List PartsLine) (lvid gvid : ℕ) (g : RawGraph A)
      → Untouched g (read_parts_loop node_id ls lvid gvid g).0
  unfolding read_parts_loop
  read_parts_loop-Untouched node_id [] lvid gvid g = Untouched-refl g
  read_parts_loop-Untouched node_id (skipped ∷ ls) lvid gvid g =
      read_parts_loop-Untouched node_id ls lvid gvid g
  read_parts_loop-Untouched node_id (failed ∷ ls) lvid gvid g = Untouched-refl g
  read_parts_loop-Untouched node_id (part_id p ∷ ls) lvid gvid g =
      let r = add_vertex node_id p lvid gvid g in
      Untouched-trans (add_vertex-Untouched node_id p lvid gvid g)
        (read_parts_loop-Untouched node_id ls r.1 r.2 r.0)

  module _ (junk : A) where
    length-new_vertices : (i n : ℕ) (ids : Map ℕ ℕ) → length (new_vertices junk i n ids) ≡ n
    unfolding new_vertices
    length-new_vertices i zero ids = refl
    length-new_vertices i (suc n) ids = ap suc (length-new_vertices (i + 1) n ids)

    new_vertices_good :
        (i n m : ℕ) (gi go : Map ℕ GhostVertex) (ids : Map ℕ ℕ)
        → All (GoodVertex m gi go) (new_vertices junk i n ids)
    unfolding new_vertices
    new_vertices_good i zero m gi go ids = tt
    new_vertices_good i (suc n) m gi go ids = ((tt, tt), new_vertices_good (i + 1) n m gi go ids)

    new_vertices_in :
        (i n : ℕ) (ids : Map ℕ ℕ) → total (λ v. v.in_edges) (new_vertices junk i n ids) ≡ 0
    unfolding new_vertices
    new_vertices_in i zero ids = refl
    new_vertices_in i (suc n) ids = omega (arith, new_vertices_in (i + 1) n ids)

    new_vertices_out :
        (i n : ℕ) (ids : Map ℕ ℕ) → total (λ v. v.out_edges) (new_vertices junk i n ids) ≡ 0
    unfolding new_vertices
    new_vertices_out i zero ids = refl
    new_vertices_out i (suc n) ids = omega (arith, new_vertices_out (i + 1) n ids)

  -- What the partition file says to a node.
  abbrev pub parts_of : List PartsLine → DataLoader A → Parts
  parts_of lines d =
      let g = read_parts_file d.node_id lines d.raw_graph in
      record {
        ids = read_ids lines;
        local = g.num_local_vertices;
        local_ids = g.local_to_global_id;
      }

  pub prepare-IsLoaded :
      (junk : A) (lines : List PartsLine) (d : DataLoader A)
      → IsBlank d.raw_graph
      → All (λ p. p < d.num_nodes) (read_ids lines)
      → length lines < u32_mod
      → IsLoaded (parts_of lines d) (prepare junk lines d)
  unfolding prepare read_parts_file
  prepare-IsLoaded junk lines d blank small room =
      let r = read_parts_loop d.node_id lines 0 0 d.raw_graph in
      let n = r.1 in
      let g = r.0 in
      let u = read_parts_loop-Untouched d.node_id lines 0 0 d.raw_graph in
      let placed : (k : ℕ)
          → IsPlaced d.node_id k r.1 r.2 g
            × (g.vertex_partition_ids ≡ d.raw_graph.vertex_partition_ids ++ read_ids lines) =
        λ k. read_parts_loop-IsPlaced d.node_id k lines 0 0 d.raw_graph (omega arith) (record {
          counted = ap length blank.parts;
          ordered = omega arith;
          mapped = λ e. absurd (cc (ap (λ l. get_elem? l k) blank.parts, e));
        }) in
      let ids : g.vertex_partition_ids ≡ read_ids lines =
        (placed 0).1 ∙ ap (λ l. l ++ read_ids lines) blank.parts in
      let no_in : g.in_edge_ghost_vertices ≡ [] = u.in_ghosts ∙ blank.in_ghosts in
      let no_out : g.out_edge_ghost_vertices ≡ [] = u.out_ghosts ∙ blank.out_ghosts in
      record {
        parts = ids;
        cnt = refl;
        local_ids = refl;
        mapped = λ k e. (placed k).0.mapped (ap (λ l. get_elem? l k) ids ∙ e);
        small = small;
        sized = length-new_vertices junk 0 n g.local_to_global_id;
        ins = new_vertices_in junk 0 n g.local_to_global_id ∙ sym (u.in_edges ∙ blank.in_edges);
        outs = new_vertices_out junk 0 n g.local_to_global_id ∙ sym (u.out_edges ∙ blank.out_edges);
        good =
            new_vertices_good junk 0 n n g.in_edge_ghost_vertices g.out_edge_ghost_vertices
              g.local_to_global_id;
        in_sorted = subst IsSorted (sym no_in) tt;
        out_sorted = subst IsSorted (sym no_out) tt;
        forward = new_tables-Rows d.node_id n d.num_nodes;
        backward = new_tables-Rows d.node_id n d.num_nodes;
      }

  -- No edge has been counted yet.
  pub prepare-edges :
      (junk : A) (lines : List PartsLine) (d : DataLoader A)
      → IsBlank d.raw_graph
      → let g = (prepare junk lines d).raw_graph in
        (g.num_local_in_edges ≡ 0) × (g.num_local_out_edges ≡ 0) × (g.num_global_edges ≡ 0)
  unfolding prepare read_parts_file
  prepare-edges junk lines d blank =
      let u = read_parts_loop-Untouched d.node_id lines 0 0 d.raw_graph in
      (u.in_edges ∙ blank.in_edges, u.out_edges ∙ blank.out_edges, u.edges ∙ blank.edges)
