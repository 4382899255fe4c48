-- ===== src/Graph/Adjacency.antt =====
-- The compressed matrices as adjacency lists.
use dorylus.Prelude.{
  ℕ, zero, suc, ◌+◌, ◌≡◌, refl, subst, sym, ap, ◌∙◌, List, [], ◌∷◌, ◌++◌, map, Option, some, arith,
  get_elem?, set, replicate, length, length-replicate, take, drop,
}
use mathlib.Core.List.{map-append, append-nil}
use dorylus.Graph.Defs.{
  Edge, Vertex, RawGraph, CscMatrix, CsrMatrix, get_source_vertex_local_id,
  get_dest_vertex_local_id,
}
use dorylus.Graph.Compress.{compress, new_arrays, init_csc, init_csr}
use dorylus.Graph.Columns.{arrays, arrays4_eq, all_edges, Resolved, ids_of, ptrs_of, length-map}
use dorylus.Graph.Slices.{slice, map-slice, take_front, drop_front, compress-eq, data_of, drop_all}

module _ {A : Type 0} (f : Edge A → Option ℕ) (edges : Vertex A → List (Edge A)) where
  pub ids_of-eq :
      (vs : List (Vertex A)) (r : Resolved f edges vs)
      → map some (ids_of f edges vs r) ≡ map f (all_edges f edges vs)
  ids_of-eq [] r = refl
  ids_of-eq (v ∷ vs) r =
      map-append some r.0.0 (ids_of f edges vs r.1)
      ∙ ap (λ t. t ++ map some (ids_of f edges vs r.1)) r.0.1
      ∙ ap (λ t. map f (edges v) ++ t) (ids_of-eq vs r.1)
      ∙ sym (map-append f (edges v) (all_edges f edges vs))

  ptrs_head : (low : ℕ) (vs : List (Vertex A)) → get_elem? (ptrs_of f edges low vs) 0 ≡ some low
  ptrs_head low [] = refl
  ptrs_head low (v ∷ vs) = refl

  -- Where the edges of a vertex stand.
  place :
      (low lvid : ℕ) (vs : List (Vertex A)) {v : Vertex A}
      → get_elem? vs lvid ≡ some v
      → (lo : ℕ) × (get_elem? (ptrs_of f edges low vs) lvid ≡ some (low + lo))
        × (get_elem? (ptrs_of f edges low vs) (suc lvid) ≡ some (low + lo + length (edges v)))
        × (slice lo (length (edges v)) (all_edges f edges vs) ≡ edges v)
  place low lvid [] e = absurd (cc e)
  place low zero (w ∷ vs) {v} e =
      let q : w ≡ v = cc e in
      (
        0,
        ap some (omega arith),
        subst
            (λ u.
              get_elem? (ptrs_of f edges (low + length (edges w)) vs) 0
              ≡ some (low + 0 + length (edges u)))
            q (ptrs_head (low + length (edges w)) vs ∙ ap some (omega arith)),
        subst (λ u. slice 0 (length (edges u)) (edges w ++ all_edges f edges vs) ≡ edges u) q
            (take_front (edges w) (all_edges f edges vs)),
      )
  place low (suc lvid) (w ∷ vs) {v} e =
      let (lo, p, q, s) = place (low + length (edges w)) lvid vs e in
      (
        length (edges w) + lo,
        p ∙ ap some (omega arith),
        q ∙ ap some (omega arith),
        ap (take (length (edges v))) (drop_front (edges w) (all_edges f edges vs) lo) ∙ s,
      )

  pub compress_whole :
      (g : RawGraph A) (junk : A) (junk_id n nnz : ℕ) (ids : Resolved f edges g.vertices)
      → length g.vertices ≡ n
      → length (all_edges f edges g.vertices) ≡ nnz
      → (k : ℕ) × (compress g f edges n 0 (new_arrays junk junk_id n nnz)
          ≡ some (
              arrays k
                (ptrs_of f edges 0 g.vertices)
                (data_of f edges g g.vertices)
                (ids_of f edges g.vertices ids)))
  unfolding new_arrays
  compress_whole g junk junk_id n nnz ids l m =
      let (k, e) =
        compress-eq f edges g [] g.vertices [] (replicate n junk_id) [] (replicate nnz junk) []
          (replicate nnz junk_id) ids refl refl refl (length-replicate n junk_id ∙ sym l)
          (omega (arith, m, length-replicate nnz junk))
          (omega (arith, m, length-replicate nnz junk_id)) in
      (
        k,
        ap (compress g f edges n 0)
              (arrays4_eq 0 (ap (λ c. set (replicate c junk_id) 0 0) (plus_one n)) refl refl)
            ∙ ap
                (λ c.
                  compress g f edges c 0 (
                    arrays 0 (0 ∷ replicate n junk_id) (replicate nnz junk)
                      (replicate nnz junk_id)))
                (sym l)
            ∙ e
            ∙ ap some (
                arrays4_eq k refl
                  (ap (λ t. data_of f edges g g.vertices ++ t) (gone junk)
                    ∙ append-nil (data_of f edges g g.vertices))
                  (ap (λ t. ids_of f edges g.vertices ids ++ t) (gone junk_id)
                    ∙ append-nil (ids_of f edges g.vertices ids))),
      )
    where
      plus_one : (c : ℕ) → c + 1 ≡ suc c
      plus_one c = omega arith

      gone :
          {B : Type 0} (x : B) → drop (length (all_edges f edges g.vertices)) (replicate nnz x) ≡ []
      gone x =
          ap (λ c. drop c (replicate nnz x)) (m ∙ sym (length-replicate nnz x))
          ∙ drop_all (replicate nnz x)

  -- Of the arrays that the loops leave, those of a vertex.
  abbrev pub Slices : List ℕ → List A → List ℕ → ℕ → Vertex A → Type 0
  Slices ptrs values idxs lvid v =
      (lo : ℕ) × (get_elem? ptrs lvid ≡ some lo)
      × (get_elem? ptrs (lvid + 1) ≡ some (lo + length (edges v)))
      × (slice lo (length (edges v)) values ≡ map (λ e. e.edge_data) (edges v))
      × (map some (slice lo (length (edges v)) idxs) ≡ map f (edges v))

  pub whole-Slices :
      (g : RawGraph A) (ids : Resolved f edges g.vertices) (lvid : ℕ) {v : Vertex A}
      → get_elem? g.vertices lvid ≡ some v
      → Slices
          (ptrs_of f edges 0 g.vertices)
          (data_of f edges g g.vertices)
          (ids_of f edges g.vertices ids)
          lvid
          v
  whole-Slices g ids lvid {v} e =
      let (lo, p, q, s) = place 0 lvid g.vertices e in
      let n = length (edges v) in
      (
        lo,
        p ∙ ap some (omega arith),
        ap (get_elem? (ptrs_of f edges 0 g.vertices)) (omega arith) ∙ q ∙ ap some (omega arith),
        sym (map-slice (λ e. e.edge_data) lo n (all_edges f edges g.vertices))
            ∙ ap (map (λ e. e.edge_data)) s,
        map-slice some lo n (ids_of f edges g.vertices ids)
            ∙ ap (slice lo n) (ids_of-eq g.vertices ids)
            ∙ sym (map-slice f lo n (all_edges f edges g.vertices))
            ∙ ap (map f) s,
      )

module _ {A : Type 0} where
  abbrev pub sources : RawGraph A → Edge A → Option ℕ
  sources g = get_source_vertex_local_id g

  abbrev pub dests : RawGraph A → Edge A → Option ℕ
  dests g = get_dest_vertex_local_id g

  -- What the matrices are made from: as many vertices and edges as the graph counts, and no edge
  -- that ends nowhere.
  pub record IsCounted (g : RawGraph A) : Type 0 where
    pub vertices : length g.vertices ≡ g.num_local_vertices
    pub in_edges :
        length (all_edges (sources g) (λ v. v.in_edges) g.vertices) ≡ g.num_local_in_edges
    pub out_edges :
        length (all_edges (dests g) (λ v. v.out_edges) g.vertices) ≡ g.num_local_out_edges
    pub resolved_in : Resolved (sources g) (λ v. v.in_edges) g.vertices
    pub resolved_out : Resolved (dests g) (λ v. v.out_edges) g.vertices

  -- For a graph whose counts are right and whose edges all end somewhere, and one of its vertices:
  -- no array of the matrix is written outside its bounds, and between the vertex's pointer and the
  -- next stand the values of its incoming edges and the local ids of their sources, in their order.
  pub init_csc-Slices :
      (junk : A) (junk_id : ℕ) (g : RawGraph A) (lvid : ℕ) {v : Vertex A}
      → IsCounted g
      → get_elem? g.vertices lvid ≡ some v
      → (m : CscMatrix A) × (init_csc junk junk_id g ≡ some m)
        × (m.column_cnt ≡ g.num_local_vertices)
        × (m.nnz ≡ g.num_local_in_edges)
        × (length m.values ≡ m.nnz)
        × Slices (sources g) (λ v. v.in_edges) m.column_ptrs m.values m.row_idxs lvid v
  unfolding init_csc
  init_csc-Slices junk junk_id g lvid {v} c e =
      let (k, q) =
        compress_whole (sources g) (λ v. v.in_edges) g junk junk_id g.num_local_vertices
          g.num_local_in_edges c.resolved_in c.vertices c.in_edges in
      (
        _,
        rw q refl,
        refl,
        refl,
        length-map (λ e. e.edge_data) (all_edges (sources g) (λ v. v.in_edges) g.vertices)
            ∙ c.in_edges,
        whole-Slices (sources g) (λ v. v.in_edges) g c.resolved_in lvid e,
      )

  -- For a graph whose counts are right and whose edges all end somewhere, and one of its vertices:
  -- no array of the matrix is written outside its bounds, and between the vertex's pointer and the
  -- next stand the values of its outgoing edges and the local ids of their ends, in their order.
  pub init_csr-Slices :
      (junk : A) (junk_id : ℕ) (g : RawGraph A) (lvid : ℕ) {v : Vertex A}
      → IsCounted g
      → get_elem? g.vertices lvid ≡ some v
      → (m : CsrMatrix A) × (init_csr junk junk_id g ≡ some m)
        × (m.row_cnt ≡ g.num_local_vertices)
        × (m.nnz ≡ g.num_local_out_edges)
        × (length m.values ≡ m.nnz)
        × Slices (dests g) (λ v. v.out_edges) m.row_ptrs m.values m.column_idxs lvid v
  unfolding init_csr
  init_csr-Slices junk junk_id g lvid {v} c e =
      let (k, q) =
        compress_whole (dests g) (λ v. v.out_edges) g junk junk_id g.num_local_vertices
          g.num_local_out_edges c.resolved_out c.vertices c.out_edges in
      (
        _,
        rw q refl,
        refl,
        refl,
        length-map (λ e. e.edge_data) (all_edges (dests g) (λ v. v.out_edges) g.vertices)
            ∙ c.out_edges,
        whole-Slices (dests g) (λ v. v.out_edges) g c.resolved_out lvid e,
      )
