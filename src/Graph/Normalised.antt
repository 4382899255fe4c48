-- ===== src/Graph/Normalised.antt =====
-- `setEdgeNormalizations` finds the degree of the other end of every edge, and keeps the graph in order.
use dorylus.Prelude.{
  ℕ, suc, ◌≡◌, ◌<◌, refl, sym, ap, ◌∙◌, subst, List, [], ◌∷◌, Option, some, arith, length,
  get_elem?-lt, add32, All,
}
use dorylus.Prelude.Map.{Map, find, nat_order}
use dorylus.Graph.Defs.{
  EdgeLocation, local_edge, remote_edge, Edge, Vertex, GhostVertex, RawGraph, get_vertex,
  get_in_edge_ghost_vertex, get_out_edge_ghost_vertex,
}
use dorylus.Graph.Loaded.{GoodEdge, GoodVertex, total}
use dorylus.Graph.Invariant.{Parts}
use dorylus.Graph.Built.{IsBuilt}
use dorylus.Graph.Normalise.{
  far_degree, norm_in_edges, norm_out_edges, norm_vertex, norm_vertices, set_edge_normalizations,
}

module _ {A : Type 0} (norm : ℕ → A) (times : A → A → A) (g : RawGraph A) where
  far_degree-found :
      (get_ghost : ℕ → RawGraph A → Option GhostVertex) (ghosts : Map ℕ GhostVertex)
      → ((k : ℕ) → get_ghost k g ≡ find k ghosts)
      → (e : Edge A) → GoodEdge (length g.vertices) ghosts e
      → (deg : ℕ) × (far_degree norm times get_ghost g e ≡ some deg)
  unfolding far_degree get_vertex
  far_degree-found get_ghost ghosts same_map e h = by_location e.edge_location refl h
    where
      by_location :
          (l : EdgeLocation)
          → e.edge_location ≡ l
          → elim l as (λ _. Type 0) [
            | local_edge ↦ e.other_id < length g.vertices
            | remote_edge ↦ (v : GhostVertex) × (find e.other_id ghosts ≡ some v)
          ]
          → (deg : ℕ) × (far_degree norm times get_ghost g e ≡ some deg)
      by_location local_edge q lt =
          let (v, f) = get_elem?-lt g.vertices e.other_id lt in
          (add32 (length v.in_edges) 1, rw (q, f) refl)
      by_location remote_edge q (v, f) = (add32 v.degree 1, rw (q, same_map e.other_id, f) refl)

  norm_in_edges-Good :
      (n : ℕ) (x : A) (es : List (Edge A))
      → length g.vertices ≡ n
      → All (GoodEdge n g.in_edge_ghost_vertices) es
      → (es' : List (Edge A)) × (norm_in_edges norm times g x es ≡ some es')
        × (length es' ≡ length es)
        × All (GoodEdge n g.in_edge_ghost_vertices) es'
  unfolding norm_in_edges get_in_edge_ghost_vertex
  norm_in_edges-Good n x [] q a = ([], refl, refl, tt)
  norm_in_edges-Good n x (e ∷ es) q a =
      let (deg, d) =
        far_degree-found get_in_edge_ghost_vertex g.in_edge_ghost_vertices (λ k. refl) e
          (subst (λ m. GoodEdge m g.in_edge_ghost_vertices e) (sym q) a.0) in
      let (es', p, l, b) = norm_in_edges-Good n x es q a.1 in
      (record e { edge_data = times (norm deg) x } ∷ es', rw (d, p) refl, ap suc l, (a.0, b))

  norm_out_edges-Good :
      (n : ℕ) (x : A) (es : List (Edge A))
      → length g.vertices ≡ n
      → All (GoodEdge n g.out_edge_ghost_vertices) es
      → (es' : List (Edge A)) × (norm_out_edges norm times g x es ≡ some es')
        × (length es' ≡ length es)
        × All (GoodEdge n g.out_edge_ghost_vertices) es'
  unfolding norm_out_edges get_out_edge_ghost_vertex
  norm_out_edges-Good n x [] q a = ([], refl, refl, tt)
  norm_out_edges-Good n x (e ∷ es) q a =
      let (deg, d) =
        far_degree-found get_out_edge_ghost_vertex g.out_edge_ghost_vertices (λ k. refl) e
          (subst (λ m. GoodEdge m g.out_edge_ghost_vertices e) (sym q) a.0) in
      let (es', p, l, b) = norm_out_edges-Good n x es q a.1 in
      (record e { edge_data = times x (norm deg) } ∷ es', rw (d, p) refl, ap suc l, (a.0, b))

  norm_vertices-Good :
      (n : ℕ) (vs : List (Vertex A))
      → length g.vertices ≡ n
      → All (GoodVertex n g.in_edge_ghost_vertices g.out_edge_ghost_vertices) vs
      → (vs' : List (Vertex A)) × (norm_vertices norm times g vs ≡ some vs')
        × (length vs' ≡ length vs)
        × (total (λ v. v.in_edges) vs' ≡ total (λ v. v.in_edges) vs)
        × (total (λ v. v.out_edges) vs' ≡ total (λ v. v.out_edges) vs)
        × All (GoodVertex n g.in_edge_ghost_vertices g.out_edge_ghost_vertices) vs'
  unfolding norm_vertices norm_vertex
  norm_vertices-Good n [] q a = ([], refl, refl, refl, refl, tt)
  norm_vertices-Good n (v ∷ vs) q a =
      let x = norm (add32 (length v.in_edges) 1) in
      let (ins, p, l, b) = norm_in_edges-Good n x v.in_edges q a.0.0 in
      let (outs, p', l', b') = norm_out_edges-Good n x v.out_edges q a.0.1 in
      let (vs', r, m, i, o, c) = norm_vertices-Good n vs q a.1 in
      (
        record v { in_edges = ins; out_edges = outs; norm_factor = times x x } ∷ vs',
        rw (p, p', r) refl,
        ap suc m,
        omega (arith, l, i),
        omega (arith, l', o),
        ((b, b'), c),
      )

  pub set_edge_normalizations-IsBuilt :
      (s : Parts) (num_nodes : ℕ)
      → IsBuilt s num_nodes g
      → (g' : RawGraph A) × (set_edge_normalizations norm times g ≡ some g')
        × IsBuilt s num_nodes g'
        × (g'.num_local_in_edges ≡ g.num_local_in_edges)
        × (g'.num_local_out_edges ≡ g.num_local_out_edges)
        × (g'.num_global_edges ≡ g.num_global_edges)
  unfolding set_edge_normalizations
  set_edge_normalizations-IsBuilt s num_nodes b =
      let (vs, r, m, i, o, c) = norm_vertices-Good s.local g.vertices b.sized b.good in
      (
        record g { vertices = vs },
        rw r refl,
        record {
          cnt = b.cnt;
          local_ids = b.local_ids;
          sized = m ∙ b.sized;
          ins = i ∙ b.ins;
          outs = o ∙ b.outs;
          good = c;
          in_sorted = b.in_sorted;
          out_sorted = b.out_sorted;
          in_ghosts = b.in_ghosts;
          out_ghosts = b.out_ghosts;
          forward = b.forward;
          backward = b.backward;
        },
        refl,
        refl,
        refl,
      )
