-- ===== src/Graph/Process.antt =====
-- The loop over the edges of the file never faults, keeps the loader in order, and counts the edges.
use dorylus.Prelude.{
  ℕ, ◌+◌, ◌≡◌, ◌<◌, ◌∙◌, ap, inl, inr, refl, List, [], ◌∷◌, some, Bool, true, false, arith, ◌==◌,
  if◌then◌else◌, length, All, Bool-cases,
}
use dorylus.Graph.Edges.{DataLoader, process_edge, count_edge, process_edges}
use dorylus.Graph.Invariant.{hit, Parts, IsLoaded, Steps, idle}
use dorylus.Graph.OutEdges.{process_out-Steps}
use dorylus.Graph.InEdges.{process_in-Steps}

-- How many edges of the file get an end at the node: at their destinations if `ins` is true, and at
-- their sources otherwise. An undirected edge has both ends there twice over.
abbrev pub local_ends : Bool → List ℕ → ℕ → Bool → List (ℕ × ℕ) → ℕ
local_ends ins parts node_id undirected [] = 0
local_ends ins parts node_id undirected ((src, dst) ∷ edges) =
    (if src == dst
      then 0
      else hit parts node_id (if ins then dst else src)
        + (if undirected then hit parts node_id (if ins then src else dst) else 0))
    + local_ends ins parts node_id undirected edges

-- The edges of the file that are no loops.
abbrev pub proper : List (ℕ × ℕ) → ℕ
proper [] = 0
proper ((src, dst) ∷ edges) = (if src == dst then 0 else 1) + proper edges

-- Both ends of every edge are vertices.
abbrev pub InRange : ℕ → List (ℕ × ℕ) → Type 0
InRange n edges = All (λ e. (e.0 < n) × (e.1 < n)) edges

module _ {A : Type 0} where
  Steps-trans :
      {s : Parts} {d d1 d2 : DataLoader A} {i1 o1 g1 i2 o2 g2 i o g : ℕ}
      → Steps s d d1 i1 o1 g1
      → Steps s d1 d2 i2 o2 g2
      → i ≡ i1 + i2
      → o ≡ o1 + o2
      → g ≡ g1 + g2
      → Steps s d d2 i o g
  Steps-trans a b p q r = record {
    loaded = b.loaded;
    node_id = b.node_id ∙ a.node_id;
    num_nodes = b.num_nodes ∙ a.num_nodes;
    undirected = b.undirected ∙ a.undirected;
    more_in = omega (arith, a.more_in, b.more_in, p);
    more_out = omega (arith, a.more_out, b.more_out, q);
    more_global = omega (arith, a.more_global, b.more_global, r);
  }

  count_edge-Steps : (s : Parts) (d : DataLoader A) → IsLoaded s d → Steps s d (count_edge d) 0 0 1
  unfolding count_edge
  count_edge-Steps s d v = record {
    loaded = record {
      parts = v.parts;
      cnt = v.cnt;
      local_ids = v.local_ids;
      mapped = v.mapped;
      small = v.small;
      sized = v.sized;
      ins = v.ins;
      outs = v.outs;
      good = v.good;
      in_sorted = v.in_sorted;
      out_sorted = v.out_sorted;
      forward = v.forward;
      backward = v.backward;
    };
    node_id = refl;
    num_nodes = refl;
    undirected = refl;
    more_in = omega arith;
    more_out = omega arith;
    more_global = refl;
  }

  module _ (junk_id : ℕ) (zero_data : A) (s : Parts) where
    process_edge-Steps :
        (src dst : ℕ) (d : DataLoader A)
        → IsLoaded s d
        → src < length s.ids
        → dst < length s.ids
        → (d' : DataLoader A) × (process_edge junk_id zero_data src dst d ≡ some d')
          × Steps s d d' (hit s.ids d.node_id dst) (hit s.ids d.node_id src) 0
    unfolding process_edge
    process_edge-Steps src dst d v src_in dst_in =
        let (d1, e, a) = process_out-Steps junk_id zero_data s src dst d v src_in dst_in in
        let (d2, f, b) = process_in-Steps junk_id zero_data s src dst d1 a.loaded src_in dst_in in
        let same_hit : hit s.ids d1.node_id dst ≡ hit s.ids d.node_id dst =
          ap (λ n. hit s.ids n dst) a.node_id in
        (d2, rw e f, Steps-trans a b (omega (arith, same_hit)) (omega arith) refl)

    -- The second call, for the reversed edge of an undirected graph.
    reverse-Steps :
        (src dst : ℕ) (d d1 : DataLoader A)
        → Steps s d d1 (hit s.ids d.node_id dst) (hit s.ids d.node_id src) 0
        → src < length s.ids
        → dst < length s.ids
        → (d2 : DataLoader A) × ((if d1.undirected
              then process_edge junk_id zero_data dst src d1
              else some d1)
            ≡ some d2)
          × Steps s d d2
              (hit s.ids d.node_id dst + (if d.undirected then hit s.ids d.node_id src else 0))
              (hit s.ids d.node_id src + (if d.undirected then hit s.ids d.node_id dst else 0))
              0
    reverse-Steps src dst d d1 a src_in dst_in = elim (Bool-cases d.undirected) [
      | inl both ↦
          let (d2, f, b) = process_edge-Steps dst src d1 a.loaded dst_in src_in in
          let h : hit s.ids d1.node_id dst ≡ hit s.ids d.node_id dst =
            ap (λ n. hit s.ids n dst) a.node_id in
          let k : hit s.ids d1.node_id src ≡ hit s.ids d.node_id src =
            ap (λ n. hit s.ids n src) a.node_id in
          (
            d2,
            ground (arith, a.undirected, both, f),
            Steps-trans a b (ground (arith, both, k)) (ground (arith, both, h)) refl,
          )
      | inr once ↦ (
        d1,
        ground (arith, a.undirected, once),
        Steps-trans a (idle s d1 a.loaded refl refl) (ground (arith, once)) (ground (arith, once))
            refl,
      )
    ]

    pub process_edges-Steps :
        (edges : List (ℕ × ℕ)) (d : DataLoader A)
        → IsLoaded s d
        → InRange (length s.ids) edges
        → (d' : DataLoader A) × (process_edges junk_id zero_data edges d ≡ some d')
          × Steps s d d'
              (local_ends true s.ids d.node_id d.undirected edges)
              (local_ends false s.ids d.node_id d.undirected edges)
              (proper edges)
    unfolding process_edges
    process_edges-Steps [] d v r = (d, refl, idle s d v refl refl)
    process_edges-Steps ((src, dst) ∷ edges) d v r = elim (Bool-cases (src == dst)) [
      | inl loop ↦
          let (d', e, a) = process_edges-Steps edges d v r.1 in
          (
            d',
            rw loop e,
            Steps-trans (idle s d v refl refl) a (ground (arith, loop)) (ground (arith, loop))
                (ground (arith, loop)),
          )
      | inr other ↦
          let (d1, e, a) = process_edge-Steps src dst d v r.0.0 r.0.1 in
          let (d2, f, b) = reverse-Steps src dst d d1 a r.0.0 r.0.1 in
          let c = count_edge-Steps s d2 b.loaded in
          let (d', g, x) = process_edges-Steps edges (count_edge d2) c.loaded r.1 in
          let node : (count_edge d2).node_id ≡ d.node_id = c.node_id ∙ b.node_id in
          let und : (count_edge d2).undirected ≡ d.undirected = c.undirected ∙ b.undirected in
          let same_ends : (i : Bool)
              → local_ends i s.ids (count_edge d2).node_id (count_edge d2).undirected edges
                ≡ local_ends i s.ids d.node_id d.undirected edges =
            λ i. rw (node, und) refl in
          (
            d',
            rw (other, e, f) g,
            Steps-trans (Steps-trans b c refl refl refl) x (ground (arith, other, same_ends true))
                (ground (arith, other, same_ends false)) (ground (arith, other)),
          )
    ]
