-- ===== src/Graph/Symmetric.antt =====
-- The value of an edge between two vertices of a node is the same at both ends.
use dorylus.Prelude.{
  ℕ, zero, suc, ◌≡◌, refl, sym, ap, ◌∙◌, List, [], ◌∷◌, Option, some, length, get_elem?, add32,
  ◌>>=◌, >>=-eq-some,
}
use dorylus.Graph.Defs.{
  local_edge, Edge, Vertex, GhostVertex, RawGraph, get_vertex, get_in_edge_ghost_vertex,
  get_out_edge_ghost_vertex,
}
use dorylus.Graph.Normalise.{
  far_degree, norm_in_edges, norm_out_edges, norm_vertex, norm_vertices, set_edge_normalizations,
}

module _ {A : Type 0} (norm : ℕ → A) (times : A → A → A) (g : RawGraph A) where
  norm_in_edges-cons :
      (x : A) (d : Edge A) (es es' : List (Edge A))
      → norm_in_edges norm times g x (d ∷ es) ≡ some es'
      → (deg : ℕ) × (rest : List (Edge A)) × (far_degree norm times get_in_edge_ghost_vertex g d
          ≡ some deg)
        × (norm_in_edges norm times g x es ≡ some rest)
        × (es' ≡ record d { edge_data = times (norm deg) x } ∷ rest)
  unfolding norm_in_edges
  norm_in_edges-cons x d es es' p =
      let tail : Option (List (Edge A)) = norm_in_edges norm times g x es in
      let value : ℕ → Edge A = λ deg. record d { edge_data = times (norm deg) x } in
      let (deg, a, r) =
        >>=-eq-some (far_degree norm times get_in_edge_ghost_vertex g d)
          (λ n. tail >>= λ rest. some (value n ∷ rest)) p in
      let (rest, b, c) = >>=-eq-some tail (λ l. some (value deg ∷ l)) r in (deg, rest, a, b, cc c)

  in_edge_at :
      (x : A) (es es' : List (Edge A)) (i : ℕ) (e : Edge A)
      → norm_in_edges norm times g x es ≡ some es'
      → get_elem? es i ≡ some e
      → (deg : ℕ) × (far_degree norm times get_in_edge_ghost_vertex g e ≡ some deg)
        × (get_elem? es' i ≡ some (record e { edge_data = times (norm deg) x }))
  in_edge_at x [] es' i e p q = absurd (cc q)
  in_edge_at x (d ∷ es) es' zero e p q =
      let (deg, rest, a, b, c) = norm_in_edges-cons x d es es' p in
      let h : d ≡ e = cc q in
      (
        deg,
        ap (far_degree norm times get_in_edge_ghost_vertex g) (sym h) ∙ a,
        ap (λ l. get_elem? l 0) c
            ∙ ap (λ (u : Edge A). some (record u { edge_data = times (norm deg) x })) h,
      )
  in_edge_at x (d ∷ es) es' (suc i) e p q =
      let (deg, rest, a, b, c) = norm_in_edges-cons x d es es' p in
      let (n, f, k) = in_edge_at x es rest i e b q in (n, f, ap (λ l. get_elem? l (suc i)) c ∙ k)

  norm_out_edges-cons :
      (x : A) (d : Edge A) (es es' : List (Edge A))
      → norm_out_edges norm times g x (d ∷ es) ≡ some es'
      → (deg : ℕ) × (rest : List (Edge A)) × (far_degree norm times get_out_edge_ghost_vertex g d
          ≡ some deg)
        × (norm_out_edges norm times g x es ≡ some rest)
        × (es' ≡ record d { edge_data = times x (norm deg) } ∷ rest)
  unfolding norm_out_edges
  norm_out_edges-cons x d es es' p =
      let tail : Option (List (Edge A)) = norm_out_edges norm times g x es in
      let value : ℕ → Edge A = λ deg. record d { edge_data = times x (norm deg) } in
      let (deg, a, r) =
        >>=-eq-some (far_degree norm times get_out_edge_ghost_vertex g d)
          (λ n. tail >>= λ rest. some (value n ∷ rest)) p in
      let (rest, b, c) = >>=-eq-some tail (λ l. some (value deg ∷ l)) r in (deg, rest, a, b, cc c)

  out_edge_at :
      (x : A) (es es' : List (Edge A)) (i : ℕ) (e : Edge A)
      → norm_out_edges norm times g x es ≡ some es'
      → get_elem? es i ≡ some e
      → (deg : ℕ) × (far_degree norm times get_out_edge_ghost_vertex g e ≡ some deg)
        × (get_elem? es' i ≡ some (record e { edge_data = times x (norm deg) }))
  out_edge_at x [] es' i e p q = absurd (cc q)
  out_edge_at x (d ∷ es) es' zero e p q =
      let (deg, rest, a, b, c) = norm_out_edges-cons x d es es' p in
      let h : d ≡ e = cc q in
      (
        deg,
        ap (far_degree norm times get_out_edge_ghost_vertex g) (sym h) ∙ a,
        ap (λ l. get_elem? l 0) c
            ∙ ap (λ (u : Edge A). some (record u { edge_data = times x (norm deg) })) h,
      )
  out_edge_at x (d ∷ es) es' (suc i) e p q =
      let (deg, rest, a, b, c) = norm_out_edges-cons x d es es' p in
      let (n, f, k) = out_edge_at x es rest i e b q in (n, f, ap (λ l. get_elem? l (suc i)) c ∙ k)

  -- The edges and the factor of a vertex when the loop is over.
  record IsNormalised (v v' : Vertex A) : Type 0 where
    ins :
        norm_in_edges norm times g (norm (add32 (length v.in_edges) 1)) v.in_edges
        ≡ some v'.in_edges
    outs :
        norm_out_edges norm times g (norm (add32 (length v.in_edges) 1)) v.out_edges
        ≡ some v'.out_edges

  norm_vertex-IsNormalised :
      (v v' : Vertex A) → norm_vertex norm times g v ≡ some v' → IsNormalised v v'
  unfolding norm_vertex
  norm_vertex-IsNormalised v v' p =
      let x = norm (add32 (length v.in_edges) 1) in
      let value : List (Edge A) → List (Edge A) → Vertex A =
        λ ins outs. record v { in_edges = ins; out_edges = outs; norm_factor = times x x } in
      let (ins, d, s) =
        >>=-eq-some (norm_in_edges norm times g x v.in_edges)
          (λ ins. norm_out_edges norm times g x v.out_edges >>= λ outs. some (value ins outs)) p in
      let (outs, e, f) =
        >>=-eq-some (norm_out_edges norm times g x v.out_edges) (λ outs. some (value ins outs)) s in
      let done : value ins outs ≡ v' = cc f in
      record {
        ins = d ∙ ap (λ (u : Vertex A). some u.in_edges) done;
        outs = e ∙ ap (λ (u : Vertex A). some u.out_edges) done;
      }

  norm_vertices-cons :
      (w : Vertex A) (vs vs' : List (Vertex A))
      → norm_vertices norm times g (w ∷ vs) ≡ some vs'
      → (w' : Vertex A) × (us : List (Vertex A)) × (norm_vertex norm times g w ≡ some w')
        × (norm_vertices norm times g vs ≡ some us)
        × (vs' ≡ w' ∷ us)
  unfolding norm_vertices
  norm_vertices-cons w vs vs' p =
      let tail : Option (List (Vertex A)) = norm_vertices norm times g vs in
      let (w', a, r) =
        >>=-eq-some (norm_vertex norm times g w) (λ u. tail >>= λ us. some (u ∷ us)) p in
      let (us, b, c) = >>=-eq-some tail (λ us. some (w' ∷ us)) r in (w', us, a, b, cc c)

  vertex_at :
      (vs vs' : List (Vertex A)) (i : ℕ) (v : Vertex A)
      → norm_vertices norm times g vs ≡ some vs'
      → get_elem? vs i ≡ some v
      → (v' : Vertex A) × (get_elem? vs' i ≡ some v') × IsNormalised v v'
  vertex_at [] vs' i v p q = absurd (cc q)
  vertex_at (w ∷ vs) vs' zero v p q =
      let (w', us, a, b, c) = norm_vertices-cons w vs vs' p in
      let here : w ≡ v = cc q in
      (
        w',
        ap (λ l. get_elem? l 0) c,
        norm_vertex-IsNormalised v w' (ap (norm_vertex norm times g) (sym here) ∙ a),
      )
  vertex_at (w ∷ vs) vs' (suc i) v p q =
      let (w', us, a, b, c) = norm_vertices-cons w vs vs' p in
      let (v', d, n) = vertex_at vs us i v b q in (v', ap (λ l. get_elem? l (suc i)) c ∙ d, n)

  local_degree :
      (get_ghost : ℕ → RawGraph A → Option GhostVertex) (e : Edge A) (j : ℕ) (v : Vertex A)
      → e.edge_location ≡ local_edge
      → e.other_id ≡ j
      → get_elem? g.vertices j ≡ some v
      → far_degree norm times get_ghost g e ≡ some (add32 (length v.in_edges) 1)
  unfolding far_degree get_vertex
  local_degree get_ghost e j v l o h = rw (l, o, h) refl

  -- For an edge from the local vertex `u` to the local vertex `v`, which both have: when the loop over
  -- the vertices has come to its end, the value of the edge is at both the product of the factors
  -- of `u` and `v`, which are the `norm` of their incoming edges and one.
  pub set_edge_normalizations-symmetric :
      (i j p q : ℕ) (u v : Vertex A) (e f : Edge A) (g' : RawGraph A)
      → get_elem? g.vertices i ≡ some u
      → get_elem? g.vertices j ≡ some v
      → get_elem? u.out_edges p ≡ some e
      → get_elem? v.in_edges q ≡ some f
      → e.edge_location ≡ local_edge
      → f.edge_location ≡ local_edge
      → e.other_id ≡ j
      → f.other_id ≡ i
      → set_edge_normalizations norm times g ≡ some g'
      → let value =
          times (norm (add32 (length u.in_edges) 1)) (norm (add32 (length v.in_edges) 1)) in
        (u' : Vertex A) × (v' : Vertex A) × (get_elem? g'.vertices i ≡ some u')
        × (get_elem? g'.vertices j ≡ some v')
        × (get_elem? u'.out_edges p ≡ some (record e { edge_data = value }))
        × (get_elem? v'.in_edges q ≡ some (record f { edge_data = value }))
  unfolding set_edge_normalizations
  set_edge_normalizations-symmetric i j p q u v e f g' hu hv he hf le lf ej fi h =
      let (vs, a, b) =
        >>=-eq-some (norm_vertices norm times g g.vertices)
          (λ vs. some (record g { vertices = vs })) h in
      let g1 : RawGraph A = record g { vertices = vs } in
      let done : g1 ≡ g' = cc b in
      let same_vs : vs ≡ g'.vertices = ap (λ (k : RawGraph A). k.vertices) done in
      let (u', u_at, u_n) = vertex_at g.vertices vs i u a hu in
      let (v', v_at, v_n) = vertex_at g.vertices vs j v a hv in
      let (m, m_deg, m_at) =
        out_edge_at (norm (add32 (length u.in_edges) 1)) u.out_edges u'.out_edges p e u_n.outs he in
      let (n, n_deg, n_at) =
        in_edge_at (norm (add32 (length v.in_edges) 1)) v.in_edges v'.in_edges q f v_n.ins hf in
      let m_eq : add32 (length v.in_edges) 1 ≡ m =
        cc (local_degree get_out_edge_ghost_vertex e j v le ej hv, m_deg) in
      let n_eq : add32 (length u.in_edges) 1 ≡ n =
        cc (local_degree get_in_edge_ghost_vertex f i u lf fi hu, n_deg) in
      (
        u',
        v',
        ap (λ l. get_elem? l i) (sym same_vs) ∙ u_at,
        ap (λ l. get_elem? l j) (sym same_vs) ∙ v_at,
        m_at
            ∙ ap
                (λ k.
                  some
                    (record e { edge_data = times (norm (add32 (length u.in_edges) 1)) (norm k) }))
                (sym m_eq),
        n_at
            ∙ ap
                (λ k.
                  some
                    (record f { edge_data = times (norm k) (norm (add32 (length v.in_edges) 1)) }))
                (sym n_eq),
      )
