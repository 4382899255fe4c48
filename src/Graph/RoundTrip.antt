-- ===== src/Graph/RoundTrip.antt =====
-- A server reads back the graph that the preprocessing wrote.
use dorylus.Prelude.{ℕ, suc, ◌≡◌, refl, sym, ap, ◌∙◌, List, [], ◌∷◌, ◌++◌, map, some, arith, length}
use dorylus.Prelude.Map.{size, IsSorted, nat_order}
use dorylus.Graph.Defs.{RawGraph}
use dorylus.Graph.Columns.{length-map}
use dorylus.Graph.Write.{
  Value, word, long, real, global_ids, norm_factors, write_ghosts, write_lists, write_adjacency,
  dump,
}
use dorylus.Graph.Read.{
  Graph, number_from, ghost_map, read_word, read_long, read_real, read_array, read_ghosts,
  read_lists, read_csc, read_csr, init,
}
use dorylus.Graph.ReadWrite.{
  local_ids, Before-nil, first_all, norm_factors_all, read_words, read_reals,
  read_lists-write_lists, read_ghosts-write_ghosts, read_csc-write_adjacency,
  read_csr-write_adjacency, length-global_ids,
}

module _ {A : Type 0} where
  -- The sizes of the parts agree with the counts that are written.
  pub record IsDumpable (num_nodes : ℕ) (g : RawGraph A) : Type 0 where
    pub vertices : length g.vertices ≡ g.num_local_vertices
    pub in_ghosts : size g.in_edge_ghost_vertices ≡ g.num_in_edge_ghost_vertices
    pub out_ghosts : size g.out_edge_ghost_vertices ≡ g.num_out_edge_ghost_vertices
    pub in_sorted : IsSorted g.in_edge_ghost_vertices
    pub out_sorted : IsSorted g.out_edge_ghost_vertices
    pub forward : length g.forward_ghosts_list ≡ num_nodes
    pub backward : length g.backward_ghosts_list ≡ num_nodes
    pub f_values : length g.forward_adj.values ≡ g.forward_adj.nnz
    pub f_ptrs : length g.forward_adj.column_ptrs ≡ suc g.num_local_vertices
    pub f_idxs : length g.forward_adj.row_idxs ≡ g.forward_adj.nnz
    pub b_values : length g.backward_adj.values ≡ g.backward_adj.nnz
    pub b_ptrs : length g.backward_adj.row_ptrs ≡ suc g.num_local_vertices
    pub b_idxs : length g.backward_adj.column_idxs ≡ g.backward_adj.nnz

  -- The graph of a server, as the preprocessing left it.
  abbrev pub loaded : RawGraph A → Graph A
  loaded g = record {
    local_vtx_cnt = g.num_local_vertices;
    global_vtx_cnt = g.num_global_vertices;
    src_ghost_cnt = g.num_in_edge_ghost_vertices;
    dst_ghost_cnt = g.num_out_edge_ghost_vertices;
    local_in_edge_cnt = g.num_local_in_edges;
    local_out_edge_cnt = g.num_local_out_edges;
    global_edge_cnt = g.num_global_edges;
    local_to_global_id = global_ids g.num_local_vertices 0 g;
    global_to_local_id = number_from 0 (global_ids g.num_local_vertices 0 g) [];
    vtx_data_vec = map (λ v. v.norm_factor) g.vertices;
    forward_local_vtx_dsts = g.forward_ghosts_list;
    backward_local_vtx_dsts = g.backward_ghosts_list;
    forward_ghost_map = ghost_map 0 g.forward_ghosts_list [];
    backward_ghost_map = ghost_map 0 g.backward_ghosts_list [];
    src_ghost_vtcs = local_ids g.in_edge_ghost_vertices;
    dst_ghost_vtcs = local_ids g.out_edge_ghost_vertices;
    forward_adj = g.forward_adj;
    backward_adj = g.backward_adj;
  }

  module _ (num_nodes : ℕ) (g : RawGraph A) (d : IsDumpable num_nodes g) where
    abbrev adjacency : List (Value A)
    adjacency =
        let f = g.forward_adj in
        let b = g.backward_adj in
        write_adjacency f.column_cnt f.nnz f.values f.column_ptrs f.row_idxs
          (write_adjacency b.row_cnt b.nnz b.values b.row_ptrs b.column_idxs [])

    abbrev lists : List (Value A)
    lists =
        word num_nodes
        ∷ write_lists g.forward_ghosts_list (write_lists g.backward_ghosts_list adjacency)

    abbrev ghosts : List (Value A)
    ghosts = write_ghosts g.in_edge_ghost_vertices (write_ghosts g.out_edge_ghost_vertices lists)

    abbrev file : List (Value A)
    file =
        word g.num_local_vertices
        ∷ word g.num_global_vertices
        ∷ word g.num_in_edge_ghost_vertices
        ∷ word g.num_out_edge_ghost_vertices
        ∷ long g.num_local_in_edges
        ∷ long g.num_local_out_edges
        ∷ long g.num_global_edges
        ∷ (map word (global_ids g.num_local_vertices 0 g)
            ++ (map real (map (λ v. v.norm_factor) g.vertices) ++ ghosts))

    dump-eq : dump num_nodes g ≡ some file
    unfolding dump
    dump-eq =
        rw
          (
            norms,
            first_all num_nodes g.forward_ghosts_list d.forward,
            first_all num_nodes g.backward_ghosts_list d.backward,
            first_all g.forward_adj.nnz g.forward_adj.values d.f_values,
            first_all (suc g.num_local_vertices) g.forward_adj.column_ptrs d.f_ptrs,
            first_all g.forward_adj.nnz g.forward_adj.row_idxs d.f_idxs,
            first_all g.backward_adj.nnz g.backward_adj.values d.b_values,
            first_all (suc g.num_local_vertices) g.backward_adj.row_ptrs d.b_ptrs,
            first_all g.backward_adj.nnz g.backward_adj.column_idxs d.b_idxs,
          )
          refl
      where
        norms : norm_factors g.num_local_vertices 0 g ≡ some (map (λ v. v.norm_factor) g.vertices)
        norms =
            ap (λ n. norm_factors n 0 g) (sym d.vertices) ∙ norm_factors_all g [] g.vertices refl

    e_ids :
        read_array read_word g.num_local_vertices (
          map word (global_ids g.num_local_vertices 0 g)
          ++ (map real (map (λ v. v.norm_factor) g.vertices) ++ ghosts))
        ≡ some (
          global_ids g.num_local_vertices 0 g,
          map real (map (λ v. v.norm_factor) g.vertices) ++ ghosts,
        )
    e_ids =
        read_words g.num_local_vertices (global_ids g.num_local_vertices 0 g)
          (map real (map (λ v. v.norm_factor) g.vertices) ++ ghosts)
          (length-global_ids g.num_local_vertices 0 g)

    e_norms :
        read_array read_real g.num_local_vertices
          (map real (map (λ v. v.norm_factor) g.vertices) ++ ghosts)
        ≡ some (map (λ v. v.norm_factor) g.vertices, ghosts)
    e_norms =
        read_reals g.num_local_vertices (map (λ v. v.norm_factor) g.vertices) ghosts
          (length-map (λ v. v.norm_factor) g.vertices ∙ d.vertices)

    e_in :
        read_ghosts g.num_in_edge_ghost_vertices [] ghosts
        ≡ some (local_ids g.in_edge_ghost_vertices, write_ghosts g.out_edge_ghost_vertices lists)
    e_in =
        ap (λ n. read_ghosts n [] ghosts) (sym d.in_ghosts)
        ∙ read_ghosts-write_ghosts g.in_edge_ghost_vertices []
            (write_ghosts g.out_edge_ghost_vertices lists) d.in_sorted
            (Before-nil g.in_edge_ghost_vertices)

    e_out :
        read_ghosts g.num_out_edge_ghost_vertices [] (write_ghosts g.out_edge_ghost_vertices lists)
        ≡ some (local_ids g.out_edge_ghost_vertices, lists)
    e_out =
        ap (λ n. read_ghosts n [] (write_ghosts g.out_edge_ghost_vertices lists)) (sym d.out_ghosts)
        ∙ read_ghosts-write_ghosts g.out_edge_ghost_vertices [] lists d.out_sorted
            (Before-nil g.out_edge_ghost_vertices)

    e_forward :
        read_lists num_nodes
          (write_lists g.forward_ghosts_list (write_lists g.backward_ghosts_list adjacency))
        ≡ some (g.forward_ghosts_list, write_lists g.backward_ghosts_list adjacency)
    e_forward =
        ap
          (λ n.
            read_lists n
              (write_lists g.forward_ghosts_list (write_lists g.backward_ghosts_list adjacency)))
          (sym d.forward)
        ∙ read_lists-write_lists g.forward_ghosts_list
            (write_lists g.backward_ghosts_list adjacency)

    e_backward :
        read_lists num_nodes (write_lists g.backward_ghosts_list adjacency)
        ≡ some (g.backward_ghosts_list, adjacency)
    e_backward =
        ap (λ n. read_lists n (write_lists g.backward_ghosts_list adjacency)) (sym d.backward)
        ∙ read_lists-write_lists g.backward_ghosts_list adjacency

    abbrev last_part : List (Value A)
    last_part =
        let b = g.backward_adj in
        write_adjacency b.row_cnt b.nnz b.values b.row_ptrs b.column_idxs []

    e_csc : read_csc g.num_local_vertices adjacency ≡ some (g.forward_adj, last_part)
    e_csc =
        let f = g.forward_adj in
        read_csc-write_adjacency f.column_cnt g.num_local_vertices f.nnz f.values f.column_ptrs
          f.row_idxs last_part d.f_values d.f_ptrs d.f_idxs

    e_csr : read_csr g.num_local_vertices last_part ≡ some (g.backward_adj, [])
    e_csr =
        let b = g.backward_adj in
        read_csr-write_adjacency b.row_cnt g.num_local_vertices b.nnz b.values b.row_ptrs
          b.column_idxs [] d.b_values d.b_ptrs d.b_idxs

    init-eq : init file ≡ some (loaded g, [])
    unfolding init read_word read_long
    init-eq = ground (arith, e_ids, e_norms, e_in, e_out, e_forward, e_backward, e_csc, e_csr)

  -- A graph whose parts have the sizes that it counts is written, and the server reads the file
  -- to its end and has the same graph: its counts, ids, normalisation factors, destinations and
  -- matrices, and the local id of each ghost.
  pub init-dump :
      (num_nodes : ℕ) (g : RawGraph A)
      → IsDumpable num_nodes g
      → (file : List (Value A)) × (dump num_nodes g ≡ some file) × (init file ≡ some (loaded g, []))
  init-dump num_nodes g d = (file num_nodes g d, dump-eq num_nodes g d, init-eq num_nodes g d)
