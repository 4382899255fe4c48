-- ===== src/Graph/Whole.antt =====
-- The preprocessing from the files to the graph never faults, and a server reads back its graph.
use dorylus.Prelude.{
  ℕ, ◌==◌, if◌then◌else◌, Bool-cases, [], ◌∷◌, ◌≡◌, ◌<◌, refl, sym, ◌∙◌, inl, inr, List, some, Bool,
  true, false, arith, length, u32_mod, All,
}
use dorylus.Prelude.Map.{nat_order}
use dorylus.Graph.Defs.{
  RawGraph, CscMatrix, CsrMatrix, contains_out_edge_ghost_vertex, contains_in_edge_ghost_vertex,
}
use dorylus.Graph.Adjacency.{IsCounted}
use dorylus.Graph.Partition.{PartsLine}
use dorylus.Graph.Ids.{read_parts_file-inverse}
use dorylus.Graph.Ghosts.{number_all_ghosts, find_ghost_degrees, count_degree, increment_degree}
use dorylus.Graph.Write.{Value, dump}
use dorylus.Graph.Read.{init}
use dorylus.Graph.RoundTrip.{IsDumpable, loaded, init-dump}
use dorylus.Graph.Edges.{DataLoader}
use dorylus.Graph.Invariant.{Parts}
use dorylus.Graph.Process.{local_ends, proper, InRange, process_edges-Steps}
use dorylus.Graph.Preprocess.{prepare, list_ghosts, finish_graph, preprocess}
use dorylus.Graph.Prepared.{read_ids, IsBlank}
use dorylus.Graph.Start.{parts_of, prepare-IsLoaded, prepare-edges}
use dorylus.Graph.Built.{
  IsBuilt, list_ghosts-IsBuilt, number_all_ghosts-IsBuilt, find_ghost_degrees-IsBuilt,
}
use dorylus.Graph.Normalised.{set_edge_normalizations-IsBuilt}
use dorylus.Graph.Finished.{IsNumbered, IsBuilt-IsCounted, init_csc-sizes, init_csr-sizes}

module _ {A : Type 0} where
  -- The numbers of edges that a graph counts.
  pub record Counts (ins outs all : ℕ) (g : RawGraph A) : Type 0 where
    pub ins_eq : g.num_local_in_edges ≡ ins
    pub outs_eq : g.num_local_out_edges ≡ outs
    pub all_eq : g.num_global_edges ≡ all

  with_forward :
      (s : Parts) (num_nodes : ℕ) (g : RawGraph A) (m : CscMatrix A)
      → IsBuilt s num_nodes g
      → IsBuilt s num_nodes (record g { forward_adj = m })
  with_forward s num_nodes g m b = record {
    cnt = b.cnt;
    local_ids = b.local_ids;
    sized = b.sized;
    ins = b.ins;
    outs = b.outs;
    good = b.good;
    in_sorted = b.in_sorted;
    out_sorted = b.out_sorted;
    in_ghosts = b.in_ghosts;
    out_ghosts = b.out_ghosts;
    forward = b.forward;
    backward = b.backward;
  }

  with_backward :
      (s : Parts) (num_nodes : ℕ) (g : RawGraph A) (m : CsrMatrix A)
      → IsBuilt s num_nodes g
      → IsBuilt s num_nodes (record g { backward_adj = m })
  with_backward s num_nodes g m b = record {
    cnt = b.cnt;
    local_ids = b.local_ids;
    sized = b.sized;
    ins = b.ins;
    outs = b.outs;
    good = b.good;
    in_sorted = b.in_sorted;
    out_sorted = b.out_sorted;
    in_ghosts = b.in_ghosts;
    out_ghosts = b.out_ghosts;
    forward = b.forward;
    backward = b.backward;
  }

  count_degree-Counts :
      (ins outs all dst : ℕ) (g : RawGraph A)
      → Counts ins outs all g
      → Counts ins outs all (count_degree dst g)
  unfolding count_degree
  count_degree-Counts ins outs all dst g c = by_out (contains_out_edge_ghost_vertex dst g) refl
    where
      by_in :
          (g1 : RawGraph A)
          → Counts ins outs all g1
          → (b : Bool)
          → Counts ins outs all (
              if b
              then record g1 {
                in_edge_ghost_vertices = increment_degree dst g1.in_edge_ghost_vertices;
              }
              else g1)
      by_in g1 c1 false = c1
      by_in g1 c1 true = record { ins_eq = c1.ins_eq; outs_eq = c1.outs_eq; all_eq = c1.all_eq }

      by_out :
          (b : Bool)
          → contains_out_edge_ghost_vertex dst g ≡ b
          → Counts ins outs all (count_degree dst g)
      by_out false e = rw e (by_in g c (contains_in_edge_ghost_vertex dst g))
      by_out true e =
          let g1 : RawGraph A = record g {
            out_edge_ghost_vertices = increment_degree dst g.out_edge_ghost_vertices;
          } in
          rw e (
            by_in g1 (record { ins_eq = c.ins_eq; outs_eq = c.outs_eq; all_eq = c.all_eq })
              (contains_in_edge_ghost_vertex dst g1))

  find_ghost_degrees-Counts :
      (ins outs all : ℕ) (edges : List (ℕ × ℕ)) (g : RawGraph A)
      → Counts ins outs all g
      → Counts ins outs all (find_ghost_degrees edges g)
  unfolding find_ghost_degrees
  find_ghost_degrees-Counts ins outs all [] g c = c
  find_ghost_degrees-Counts ins outs all ((src, dst) ∷ edges) g c = elim (Bool-cases (src == dst)) [
    | inl loop ↦ rw loop (find_ghost_degrees-Counts ins outs all edges g c)
    | inr other ↦ rw other (
        find_ghost_degrees-Counts ins outs all edges (count_degree dst g)
          (count_degree-Counts ins outs all dst g c))
  ]

  module _ (junk : A) (junk_id : ℕ) where
    finish_graph-IsDumpable :
        (s : Parts) (num_nodes ins outs all : ℕ) (g : RawGraph A)
        → IsNumbered s.local s.local_ids
        → IsBuilt s num_nodes g
        → Counts ins outs all g
        → (g' : RawGraph A) × (finish_graph junk junk_id g ≡ some g')
          × IsCounted g'
          × IsDumpable num_nodes g'
          × Counts ins outs all g'
    unfolding finish_graph number_all_ghosts
    finish_graph-IsDumpable s num_nodes ins outs all g numbered b c =
        let g1 = number_all_ghosts g in
        let b1 = number_all_ghosts-IsBuilt s num_nodes g b in
        let (f, p, f_nnz, f_values, f_ptrs, f_idxs) =
          init_csc-sizes junk junk_id g1 (IsBuilt-IsCounted s num_nodes g1 numbered b1) in
        let g2 : RawGraph A = record g1 { forward_adj = f } in
        let b2 = with_forward s num_nodes g1 f b1 in
        let (m, q, m_nnz, m_values, m_ptrs, m_idxs) =
          init_csr-sizes junk junk_id g2 (IsBuilt-IsCounted s num_nodes g2 numbered b2) in
        let g3 : RawGraph A = record g2 { backward_adj = m } in
        let b3 = with_backward s num_nodes g2 m b2 in
        (
          g3,
          rw (p, q) refl,
          IsBuilt-IsCounted s num_nodes g3 numbered b3,
          record {
            vertices = b3.sized ∙ sym b3.cnt;
            in_ghosts = b3.in_ghosts;
            out_ghosts = b3.out_ghosts;
            in_sorted = b3.in_sorted;
            out_sorted = b3.out_sorted;
            forward = b3.forward;
            backward = b3.backward;
            f_values = f_values;
            f_ptrs = f_ptrs;
            f_idxs = f_idxs;
            b_values = m_values;
            b_ptrs = m_ptrs;
            b_idxs = m_idxs;
          },
          record { ins_eq = c.ins_eq; outs_eq = c.outs_eq; all_eq = c.all_eq },
        )

    -- On a new graph, with a partition file of fewer than 2 ^ 32 lines whose partitions are all nodes,
    -- and edges between the vertices of that file: the preprocessing never faults, the graph that it
    -- makes has the sizes that it counts, its edges all end somewhere, and it counts the edges that
    -- have their destination at the node, those that have their source there, and all that are no
    -- loops.
    pub preprocess-IsDumpable :
        (zero_data : A) (norm : ℕ → A) (times : A → A → A) (lines : List PartsLine)
        (edges : List (ℕ × ℕ)) (d : DataLoader A)
        → IsBlank d.raw_graph
        → All (λ p. p < d.num_nodes) (read_ids lines)
        → length lines < u32_mod
        → InRange (length (read_ids lines)) edges
        → (g : RawGraph A) × (preprocess junk junk_id zero_data norm times lines edges d ≡ some g)
          × IsCounted g
          × IsDumpable d.num_nodes g
          × Counts
              (local_ends true (read_ids lines) d.node_id d.undirected edges)
              (local_ends false (read_ids lines) d.node_id d.undirected edges)
              (proper edges)
              g
    unfolding preprocess prepare list_ghosts
    preprocess-IsDumpable zero_data norm times lines edges d blank small room ends =
        let s = parts_of lines d in
        let d0 = prepare junk lines d in
        let (d1, e, st) =
          process_edges-Steps junk_id zero_data s edges d0
            (prepare-IsLoaded junk lines d blank small room) ends in
        let (no_in, no_out, no_edges) = prepare-edges junk lines d blank in
        let ins = local_ends true (read_ids lines) d.node_id d.undirected edges in
        let outs = local_ends false (read_ids lines) d.node_id d.undirected edges in
        let g1 = find_ghost_degrees edges (list_ghosts d1) in
        let c1 = find_ghost_degrees-Counts ins outs (proper edges) edges (list_ghosts d1) (record {
          ins_eq = omega (arith, st.more_in, no_in);
          outs_eq = omega (arith, st.more_out, no_out);
          all_eq = omega (arith, st.more_global, no_edges);
        }) in
        let (g2, f, b2, i, o, a) = set_edge_normalizations-IsBuilt norm times g1 s d.num_nodes (
          find_ghost_degrees-IsBuilt s d.num_nodes edges (list_ghosts d1)
            (list_ghosts-IsBuilt s d.num_nodes d1 st.num_nodes st.loaded)) in
        let (g3, h, x, y, z) =
          finish_graph-IsDumpable s d.num_nodes ins outs (proper edges) g2 numbered b2
            (record { ins_eq = i ∙ c1.ins_eq; outs_eq = o ∙ c1.outs_eq; all_eq = a ∙ c1.all_eq }) in
        (g3, rw (e, f) h, x, y, z)
      where
        numbered : IsNumbered (parts_of lines d).local (parts_of lines d).local_ids
        numbered l lt =
            elim (read_parts_file-inverse d.node_id l 0 lines d.raw_graph blank.to_global
              blank.to_local blank.parts room).1 [
                | inl above ↦ absurd (omega (arith, above.1, lt))
                | inr known ↦ (known.0, known.1)
              ]

    -- On a new graph, with a partition file of fewer than 2 ^ 32 lines whose partitions are all nodes,
    -- and edges between the vertices of that file: the preprocessing makes a graph and writes it, and
    -- the server reads the file to its end and has that graph: its counts, ids, normalisation
    -- factors, destinations and matrices, and the local id of each ghost.
    pub init-preprocess :
        (zero_data : A) (norm : ℕ → A) (times : A → A → A) (lines : List PartsLine)
        (edges : List (ℕ × ℕ)) (d : DataLoader A)
        → IsBlank d.raw_graph
        → All (λ p. p < d.num_nodes) (read_ids lines)
        → length lines < u32_mod
        → InRange (length (read_ids lines)) edges
        → (g : RawGraph A) × (file : List (Value A)) × (preprocess junk junk_id zero_data norm times
              lines edges d
            ≡ some g)
          × (dump d.num_nodes g ≡ some file)
          × (init file ≡ some (loaded g, []))
    init-preprocess zero_data norm times lines edges d blank small room ends =
        let (g, e, c, w, k) =
          preprocess-IsDumpable zero_data norm times lines edges d blank small room ends in
        let (file, p, q) = init-dump d.num_nodes g w in (g, file, e, p, q)
