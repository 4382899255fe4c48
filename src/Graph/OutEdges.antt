-- ===== src/Graph/OutEdges.antt =====
-- The half of `processEdge` for the source: it never faults, keeps the loader in order, and counts.
use dorylus.Prelude.{
  ℕ, ◌+◌, ◌≡◌, ◌<◌, ◌∙◌, ap, sym, subst, inl, inr, refl, [], ◌∷◌, some, arith, ◌==◌, length, set,
  length-set, length-append, All-append, All-set, get_elem?-All, get_elem?-lt, Bool-cases, ==_iff,
}
use dorylus.Prelude.Map.{find, nat_order, index_map-found}
use dorylus.Graph.Defs.{get_vertex}
use dorylus.Graph.Edges.{DataLoader, add_out_edge, process_out}
use dorylus.Graph.Loaded.{GoodEdge, GoodVertex, edge_to, far_end-Good}
use dorylus.Graph.Invariant.{
  total-set, hit, grow_out, Parts, IsLoaded, Steps, part_at, mapped_at, idle,
}

module _ {A : Type 0} where
  module _ (junk_id : ℕ) (zero_data : A) (s : Parts) (src dst : ℕ) (d : DataLoader A)
      (v : IsLoaded s d) (src_in : src < length s.ids) (dst_in : dst < length s.ids) where
    pub process_out-Steps :
        (d' : DataLoader A) × (process_out junk_id zero_data src dst d ≡ some d')
        × Steps s d d' 0 (hit s.ids d.node_id src) 0
    unfolding process_out get_vertex add_out_edge
    process_out-Steps =
        let g = d.raw_graph in
        let (p, e) = get_elem?-lt s.ids src src_in in
        let (q, f) = get_elem?-lt s.ids dst dst_in in
        elim (Bool-cases (p == d.node_id)) [
          | inl mine ↦
              let (lvid, m, lt) = mapped_at s d v src p e ((==_iff p d.node_id).0 mine) in
              let (far, h, edge_good, rows, sorted, extends, ids) =
                far_end-Good junk_id zero_data dst lvid s.local q g.out_edge_ghost_vertices
                  d.forward_dst_tables g.global_to_local_id d (part_at s d v dst q f)
                  (get_elem?-All (λ p. p < d.num_nodes) s.ids dst v.small f)
                  (mapped_at s d v dst q f) lt v.forward v.out_sorted in
              let (w, k) = get_elem?-lt g.vertices lvid (subst (λ n. lvid < n) (sym v.sized) lt) in
              let w' = add_out_edge junk_id zero_data far w in
              let old =
                grow_out s.local g.in_edge_ghost_vertices g.out_edge_ghost_vertices far.ghosts
                  g.vertices extends v.good in
              let w_good =
                get_elem?-All (GoodVertex s.local g.in_edge_ghost_vertices far.ghosts) g.vertices
                  lvid old k in
              (
                record d {
                  forward_dst_tables = far.tables;
                  raw_graph = record g {
                    global_to_local_id = far.ids;
                    out_edge_ghost_vertices = far.ghosts;
                    vertices = set g.vertices lvid w';
                    num_local_out_edges = g.num_local_out_edges + 1;
                  };
                },
                rw
                    (
                      part_at s d v src p e,
                      mine,
                      index_map-found src lvid g.global_to_local_id m,
                      h,
                      k,
                    )
                    refl,
                record {
                  loaded = record {
                    parts = v.parts;
                    cnt = v.cnt;
                    local_ids = v.local_ids;
                    mapped = λ j a. let (l, b, c) = v.mapped j a in (l, ap (find j) ids ∙ b, c);
                    small = v.small;
                    sized = length-set g.vertices lvid w' ∙ v.sized;
                    ins = omega (arith, total-set (λ u. u.in_edges) g.vertices lvid w' k, v.ins);
                    outs = omega (
                      arith,
                      total-set (λ u. u.out_edges) g.vertices lvid w' k,
                      length-append w.out_edges (edge_to junk_id zero_data far ∷ []),
                      v.outs,
                    );
                    good =
                        All-set (GoodVertex s.local g.in_edge_ghost_vertices far.ghosts) g.vertices
                          lvid w' old
                          (
                            w_good.0,
                            All-append (GoodEdge s.local far.ghosts) w.out_edges
                                (edge_to junk_id zero_data far ∷ []) w_good.1 (edge_good, tt),
                          );
                    in_sorted = v.in_sorted;
                    out_sorted = sorted;
                    forward = rows;
                    backward = v.backward;
                  };
                  node_id = refl;
                  num_nodes = refl;
                  undirected = refl;
                  more_in = omega arith;
                  more_out = ground (arith, e, mine);
                  more_global = omega arith;
                },
              )
          | inr other ↦ (
            d,
            rw (part_at s d v src p e, other) refl,
            idle s d v refl (ground (arith, e, other)),
          )
        ]
