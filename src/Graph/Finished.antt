-- ===== src/Graph/Finished.antt =====
-- A graph that is in order is what the compressed matrices are made from.
use dorylus.Prelude.{
  ℕ, suc, ◌+◌, ◌≡◌, ◌<◌, refl, sym, ap, ◌∙◌, subst, List, [], ◌∷◌, map, Option, some, arith, length,
  length-append, All,
}
use dorylus.Prelude.Map.{Map, find, nat_order}
use dorylus.Graph.Defs.{
  EdgeLocation, local_edge, remote_edge, Edge, Vertex, GhostVertex, RawGraph, CscMatrix, CsrMatrix,
  other_local_id, get_source_vertex_local_id, get_dest_vertex_local_id,
}
use dorylus.Graph.Compress.{init_csc, init_csr}
use dorylus.Graph.Columns.{Resolved, all_edges, ids_of, ptrs_of, length-map}
use dorylus.Graph.Slices.{data_of}
use dorylus.Graph.Adjacency.{IsCounted, sources, dests, ids_of-eq, compress_whole}
use dorylus.Graph.Loaded.{GoodEdge, GoodVertex, total}
use dorylus.Graph.Invariant.{Parts}
use dorylus.Graph.Built.{IsBuilt}

-- Every id below the number of the local vertices is one.
abbrev pub IsNumbered : ℕ → Map ℕ ℕ → Type 0
IsNumbered n m = (l : ℕ) → l < n → (x : ℕ) × (find l m ≡ some x)

module _ {A : Type 0} (g : RawGraph A) (n : ℕ) (ghosts : Map ℕ GhostVertex)
    (numbered : IsNumbered n g.local_to_global_id) where
  other_local_id-found :
      (e : Edge A) → GoodEdge n ghosts e → (i : ℕ) × (other_local_id ghosts g e ≡ some i)
  unfolding other_local_id
  other_local_id-found e h = by_location e.edge_location refl h
    where
      by_location :
          (l : EdgeLocation)
          → e.edge_location ≡ l
          → elim l as (λ _. Type 0) [
            | local_edge ↦ e.other_id < n
            | remote_edge ↦ (v : GhostVertex) × (find e.other_id ghosts ≡ some v)
          ]
          → (i : ℕ) × (other_local_id ghosts g e ≡ some i)
      by_location local_edge q lt =
          let (x, f) = numbered e.other_id lt in (e.other_id, rw (q, f) refl)
      by_location remote_edge q (v, f) = (v.local_id, rw (q, f) refl)

  resolve :
      (f : Edge A → Option ℕ)
      → ((e : Edge A) → f e ≡ other_local_id ghosts g e)
      → (es : List (Edge A)) → All (GoodEdge n ghosts) es
      → (ids : List ℕ) × (map some ids ≡ map f es)
  resolve f same_id [] a = ([], refl)
  resolve f same_id (e ∷ es) a =
      let (i, p) = other_local_id-found e a.0 in
      let (ids, q) = resolve f same_id es a.1 in (i ∷ ids, cc (same_id e, p, q))

module _ {A : Type 0} (f : Edge A → Option ℕ) (edges : Vertex A → List (Edge A)) where
  length-all_edges : (vs : List (Vertex A)) → length (all_edges f edges vs) ≡ total edges vs
  length-all_edges [] = refl
  length-all_edges (v ∷ vs) =
      omega (arith, length-append (edges v) (all_edges f edges vs), length-all_edges vs)

  length-ptrs_of :
      (low : ℕ) (vs : List (Vertex A)) → length (ptrs_of f edges low vs) ≡ suc (length vs)
  length-ptrs_of low [] = refl
  length-ptrs_of low (v ∷ vs) = ap suc (length-ptrs_of (low + length (edges v)) vs)

  pub length-ids_of :
      (vs : List (Vertex A)) (r : Resolved f edges vs)
      → length (ids_of f edges vs r) ≡ length (all_edges f edges vs)
  length-ids_of vs r =
      sym (length-map some (ids_of f edges vs r))
      ∙ ap length (ids_of-eq f edges vs r)
      ∙ length-map f (all_edges f edges vs)

module _ {A : Type 0} where
  pub IsBuilt-IsCounted :
      (s : Parts) (num_nodes : ℕ) (g : RawGraph A)
      → IsNumbered s.local s.local_ids
      → IsBuilt s num_nodes g
      → IsCounted g
  unfolding get_source_vertex_local_id get_dest_vertex_local_id
  IsBuilt-IsCounted s num_nodes g numbered b = record {
    vertices = b.sized ∙ sym b.cnt;
    in_edges = length-all_edges (sources g) (λ v. v.in_edges) g.vertices ∙ b.ins;
    out_edges = length-all_edges (dests g) (λ v. v.out_edges) g.vertices ∙ b.outs;
    resolved_in = all_in g.vertices b.good;
    resolved_out = all_out g.vertices b.good;
  }
    where
      numbered_here : IsNumbered s.local g.local_to_global_id
      numbered_here = subst (IsNumbered s.local) (sym b.local_ids) numbered

      all_in :
          (vs : List (Vertex A))
          → All (GoodVertex s.local g.in_edge_ghost_vertices g.out_edge_ghost_vertices) vs
          → Resolved (sources g) (λ v. v.in_edges) vs
      all_in [] a = tt
      all_in (v ∷ vs) a = (
        resolve g s.local g.in_edge_ghost_vertices numbered_here (sources g) (λ e. refl) v.in_edges
            a.0.0,
        all_in vs a.1,
      )

      all_out :
          (vs : List (Vertex A))
          → All (GoodVertex s.local g.in_edge_ghost_vertices g.out_edge_ghost_vertices) vs
          → Resolved (dests g) (λ v. v.out_edges) vs
      all_out [] a = tt
      all_out (v ∷ vs) a = (
        resolve g s.local g.out_edge_ghost_vertices numbered_here (dests g) (λ e. refl) v.out_edges
            a.0.1,
        all_out vs a.1,
      )

  -- The matrices of a graph that is in order.
  abbrev pub csc_of : (g : RawGraph A) → IsCounted g → CscMatrix A
  csc_of g c =
      let edges = λ (v : Vertex A). v.in_edges in
      record {
        column_cnt = g.num_local_vertices;
        nnz = g.num_local_in_edges;
        values = data_of (sources g) edges g g.vertices;
        column_ptrs = ptrs_of (sources g) edges 0 g.vertices;
        row_idxs = ids_of (sources g) edges g.vertices c.resolved_in;
      }

  abbrev pub csr_of : (g : RawGraph A) → IsCounted g → CsrMatrix A
  csr_of g c =
      let edges = λ (v : Vertex A). v.out_edges in
      record {
        row_cnt = g.num_local_vertices;
        nnz = g.num_local_out_edges;
        values = data_of (dests g) edges g g.vertices;
        row_ptrs = ptrs_of (dests g) edges 0 g.vertices;
        column_idxs = ids_of (dests g) edges g.vertices c.resolved_out;
      }

  pub init_csc-eq :
      (junk : A) (junk_id : ℕ) (g : RawGraph A) (c : IsCounted g)
      → init_csc junk junk_id g ≡ some (csc_of g c)
  unfolding init_csc
  init_csc-eq junk junk_id g c =
      let (k, q) =
        compress_whole (sources g) (λ v. v.in_edges) g junk junk_id g.num_local_vertices
          g.num_local_in_edges c.resolved_in c.vertices c.in_edges in
      rw q refl

  pub init_csr-eq :
      (junk : A) (junk_id : ℕ) (g : RawGraph A) (c : IsCounted g)
      → init_csr junk junk_id g ≡ some (csr_of g c)
  unfolding init_csr
  init_csr-eq junk junk_id g c =
      let (k, q) =
        compress_whole (dests g) (λ v. v.out_edges) g junk junk_id g.num_local_vertices
          g.num_local_out_edges c.resolved_out c.vertices c.out_edges in
      rw q refl

  pub init_csc-sizes :
      (junk : A) (junk_id : ℕ) (g : RawGraph A)
      → IsCounted g
      → (m : CscMatrix A) × (init_csc junk junk_id g ≡ some m)
        × (m.nnz ≡ g.num_local_in_edges)
        × (length m.values ≡ m.nnz)
        × (length m.column_ptrs ≡ suc g.num_local_vertices)
        × (length m.row_idxs ≡ m.nnz)
  init_csc-sizes junk junk_id g c =
      let edges = λ (v : Vertex A). v.in_edges in
      (
        csc_of g c,
        init_csc-eq junk junk_id g c,
        refl,
        length-map (λ e. e.edge_data) (all_edges (sources g) edges g.vertices) ∙ c.in_edges,
        length-ptrs_of (sources g) edges 0 g.vertices ∙ ap suc c.vertices,
        length-ids_of (sources g) edges g.vertices c.resolved_in ∙ c.in_edges,
      )

  pub init_csr-sizes :
      (junk : A) (junk_id : ℕ) (g : RawGraph A)
      → IsCounted g
      → (m : CsrMatrix A) × (init_csr junk junk_id g ≡ some m)
        × (m.nnz ≡ g.num_local_out_edges)
        × (length m.values ≡ m.nnz)
        × (length m.row_ptrs ≡ suc g.num_local_vertices)
        × (length m.column_idxs ≡ m.nnz)
  init_csr-sizes junk junk_id g c =
      let edges = λ (v : Vertex A). v.out_edges in
      (
        csr_of g c,
        init_csr-eq junk junk_id g c,
        refl,
        length-map (λ e. e.edge_data) (all_edges (dests g) edges g.vertices) ∙ c.out_edges,
        length-ptrs_of (dests g) edges 0 g.vertices ∙ ap suc c.vertices,
        length-ids_of (dests g) edges g.vertices c.resolved_out ∙ c.out_edges,
      )
