-- ===== src/Graph/Invariant.antt =====
-- What holds of the loader between two edges of the file, and that more ghosts do no harm.
use dorylus.Prelude.{
  ℕ, zero, suc, ◌+◌, ◌≡◌, ◌<◌, ◌∙◌, ap, refl, List, [], ◌∷◌, none, some, arith, ◌==◌, if◌then◌else◌,
  length, get_elem?, set, All, All-imp,
}
use dorylus.Prelude.Map.{Map, find, IsSorted, nat_order}
use dorylus.Graph.Defs.{EdgeLocation, local_edge, remote_edge, Edge, Vertex, GhostVertex}
use dorylus.Graph.Edges.{DataLoader}
use dorylus.Graph.Loaded.{Present, GoodEdge, GoodVertex, total, Rows, Extends}

pub GoodEdge-Extends :
    {A : Type 0} (n : ℕ) (g g' : Map ℕ GhostVertex) (e : Edge A)
    → Extends g g'
    → GoodEdge n g e
    → GoodEdge n g' e
GoodEdge-Extends n g g' e x h = by_location e.edge_location h
  where
    by_location :
        (l : EdgeLocation)
        → elim l as (λ _. Type 0) [
          | local_edge ↦ e.other_id < n
          | remote_edge ↦ Present e.other_id g
        ]
        → elim l as (λ _. Type 0) [
          | local_edge ↦ e.other_id < n
          | remote_edge ↦ Present e.other_id g'
        ]
    by_location local_edge h = h
    by_location remote_edge h = x e.other_id h

module _ {A : Type 0} (edges : Vertex A → List (Edge A)) where
  pub total-set :
      (vs : List (Vertex A)) (i : ℕ) {v : Vertex A} (v' : Vertex A)
      → get_elem? vs i ≡ some v
      → total edges (set vs i v') + length (edges v) ≡ total edges vs + length (edges v')
  total-set [] i v' e = absurd (cc e)
  total-set (w ∷ vs) zero {v} v' e =
      let q : w ≡ v = cc e in omega (arith, ap (λ (u : Vertex A). length (edges u)) q)
  total-set (w ∷ vs) (suc i) v' e = omega (arith, total-set vs i v' e)

-- 1 if the vertex belongs to the node.
abbrev pub hit : List ℕ → ℕ → ℕ → ℕ
hit parts node_id k = elim (get_elem? parts k) [ none ↦ 0 | some p ↦ if p == node_id then 1 else 0 ]

module _ {A : Type 0} (n : ℕ) (gi go g' : Map ℕ GhostVertex) (vs : List (Vertex A)) where
  pub grow_out : Extends go g' → All (GoodVertex n gi go) vs → All (GoodVertex n gi g') vs
  grow_out x a =
      All-imp
        (λ (u : Vertex A) h. (h.0, All-imp (λ e y. GoodEdge-Extends n go g' e x y) u.out_edges h.1))
        vs a

  pub grow_in : Extends gi g' → All (GoodVertex n gi go) vs → All (GoodVertex n g' go) vs
  grow_in x a =
      All-imp
        (λ (u : Vertex A) h. (All-imp (λ e y. GoodEdge-Extends n gi g' e x y) u.in_edges h.0, h.1))
        vs a

-- What the partition file says: the partitions, the number of local vertices and their global ids.
pub record Parts : Type 0 where
  pub ids : List ℕ
  pub local : ℕ
  pub local_ids : Map ℕ ℕ

module _ {A : Type 0} where
  pub record IsLoaded (s : Parts) (d : DataLoader A) : Type 0 where
    pub parts : d.raw_graph.vertex_partition_ids ≡ s.ids
    pub cnt : d.raw_graph.num_local_vertices ≡ s.local
    pub local_ids : d.raw_graph.local_to_global_id ≡ s.local_ids
    pub mapped :
        (k : ℕ)
        → get_elem? s.ids k ≡ some d.node_id
        → (l : ℕ) × (find k d.raw_graph.global_to_local_id ≡ some l) × (l < s.local)
    pub small : All (λ p. p < d.num_nodes) s.ids
    pub sized : length d.raw_graph.vertices ≡ s.local
    pub ins : total (λ v. v.in_edges) d.raw_graph.vertices ≡ d.raw_graph.num_local_in_edges
    pub outs : total (λ v. v.out_edges) d.raw_graph.vertices ≡ d.raw_graph.num_local_out_edges
    pub good :
        All
          (GoodVertex s.local d.raw_graph.in_edge_ghost_vertices
            d.raw_graph.out_edge_ghost_vertices)
          d.raw_graph.vertices
    pub in_sorted : IsSorted d.raw_graph.in_edge_ghost_vertices
    pub out_sorted : IsSorted d.raw_graph.out_edge_ghost_vertices
    pub forward : Rows d.node_id d.num_nodes s.local d.forward_dst_tables
    pub backward : Rows d.node_id d.num_nodes s.local d.backward_dst_tables

  -- The loader keeps its members and counts so many more edges.
  pub record Steps (s : Parts) (d d' : DataLoader A) (ins outs globals : ℕ) : Type 0 where
    pub loaded : IsLoaded s d'
    pub node_id : d'.node_id ≡ d.node_id
    pub num_nodes : d'.num_nodes ≡ d.num_nodes
    pub undirected : d'.undirected ≡ d.undirected
    pub more_in : d'.raw_graph.num_local_in_edges ≡ d.raw_graph.num_local_in_edges + ins
    pub more_out : d'.raw_graph.num_local_out_edges ≡ d.raw_graph.num_local_out_edges + outs
    pub more_global : d'.raw_graph.num_global_edges ≡ d.raw_graph.num_global_edges + globals

  module _ (s : Parts) (d : DataLoader A) (v : IsLoaded s d) where
    pub part_at :
        (k p : ℕ)
        → get_elem? s.ids k ≡ some p
        → get_elem? d.raw_graph.vertex_partition_ids k ≡ some p
    part_at k p e = ap (λ l. get_elem? l k) v.parts ∙ e

    pub mapped_at :
        (k p : ℕ)
        → get_elem? s.ids k ≡ some p
        → p ≡ d.node_id
        → (l : ℕ) × (find k d.raw_graph.global_to_local_id ≡ some l) × (l < s.local)
    mapped_at k p e q = v.mapped k (e ∙ ap some q)

    -- The vertex belongs to another node.
    pub idle : {ins outs : ℕ} → ins ≡ 0 → outs ≡ 0 → Steps s d d ins outs 0
    idle p q = record {
      loaded = v;
      node_id = refl;
      num_nodes = refl;
      undirected = refl;
      more_in = omega (arith, p);
      more_out = omega (arith, q);
      more_global = omega arith;
    }
