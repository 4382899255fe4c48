-- ===== src/Graph/InEdges.antt =====
-- The half of `processEdge` for the destination, in the same way.
use dorylus.Prelude.{
  ℕ, ◌+◌, ◌≡◌, ◌<◌, ◌∙◌, ap, sym, subst, inl, inr, refl, [], ◌∷◌, some, arith, ◌==◌, length, set,
  length-set, length-append, All-append, All-set, get_elem?-All, get_elem?-lt, Bool-cases, ==_iff,
}
use dorylus.Prelude.Map.{find, nat_order, index_map-found}
use dorylus.Graph.Defs.{get_vertex}
use dorylus.Graph.Edges.{DataLoader, add_in_edge, process_in}
use dorylus.Graph.Loaded.{GoodEdge, GoodVertex, edge_to, far_end-Good}
use dorylus.Graph.Invariant.{
  total-set, hit, grow_in, Parts, IsLoaded, Steps, part_at, mapped_at, idle,
}

module _ {A : Type 0} where
  module _ (junk_id : ℕ) (zero_data : A) (s : Parts) (src dst : ℕ) (d : DataLoader A)
      (v : IsLoaded s d) (src_in : src < length s.ids) (dst_in : dst < length s.ids) where
    pub process_in-Steps :
        (d' : DataLoader A) × (process_in junk_id zero_data src dst d ≡ some d')
        × Steps s d d' (hit s.ids d.node_id dst) 0 0
    unfolding process_in get_vertex add_in_edge
    process_in-Steps =
        let g = d.raw_graph in
        let (p, e) = get_elem?-lt s.ids src src_in in
        let (q, f) = get_elem?-lt s.ids dst dst_in in
        elim (Bool-cases (q == d.node_id)) [
          | inl mine ↦
              let (lvid, m, lt) = mapped_at s d v dst q f ((==_iff q d.node_id).0 mine) in
              let (far, h, edge_good, rows, sorted, extends, ids) =
                far_end-Good junk_id zero_data src lvid s.local p g.in_edge_ghost_vertices
                  d.backward_dst_tables g.global_to_local_id d (part_at s d v src p e)
                  (get_elem?-All (λ p. p < d.num_nodes) s.ids src v.small e)
                  (mapped_at s d v src p e) lt v.backward v.in_sorted in
              let (w, k) = get_elem?-lt g.vertices lvid (subst (λ n. lvid < n) (sym v.sized) lt) in
              let w' = add_in_edge junk_id zero_data far w in
              let old =
                grow_in s.local g.in_edge_ghost_vertices g.out_edge_ghost_vertices far.ghosts
                  g.vertices extends v.good in
              let w_good =
                get_elem?-All (GoodVertex s.local far.ghosts g.out_edge_ghost_vertices) g.vertices
                  lvid old k in
              (
                record d {
                  backward_dst_tables = far.tables;
                  raw_graph = record g {
                    global_to_local_id = far.ids;
                    in_edge_ghost_vertices = far.ghosts;
                    vertices = set g.vertices lvid w';
                    num_local_in_edges = g.num_local_in_edges + 1;
                  };
                },
                rw
                    (
                      part_at s d v dst q f,
                      mine,
                      index_map-found dst lvid g.global_to_local_id m,
                      h,
                      k,
                    )
                    refl,
                record {
                  loaded = record {
                    parts = v.parts;
                    cnt = v.cnt;
                    local_ids = v.local_ids;
                    mapped = λ j a. let (l, b, c) = v.mapped j a in (l, ap (find j) ids ∙ b, c);
                    small = v.small;
                    sized = length-set g.vertices lvid w' ∙ v.sized;
                    ins = omega (
                      arith,
                      total-set (λ u. u.in_edges) g.vertices lvid w' k,
                      length-append w.in_edges (edge_to junk_id zero_data far ∷ []),
                      v.ins,
                    );
                    outs = omega (arith, total-set (λ u. u.out_edges) g.vertices lvid w' k, v.outs);
                    good =
                        All-set (GoodVertex s.local far.ghosts g.out_edge_ghost_vertices) g.vertices
                          lvid w' old
                          (
                            All-append (GoodEdge s.local far.ghosts) w.in_edges
                                (edge_to junk_id zero_data far ∷ []) w_good.0 (edge_good, tt),
                            w_good.1,
                          );
                    in_sorted = sorted;
                    out_sorted = v.out_sorted;
                    forward = v.forward;
                    backward = rows;
                  };
                  node_id = refl;
                  num_nodes = refl;
                  undirected = refl;
                  more_in = ground (arith, f, mine);
                  more_out = omega arith;
                  more_global = omega arith;
                },
              )
          | inr other ↦ (
            d,
            rw (part_at s d v dst q f, other) refl,
            idle s d v (ground (arith, f, other)) refl,
          )
        ]
