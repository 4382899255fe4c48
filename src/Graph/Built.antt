-- ===== src/Graph/Built.antt =====
-- What `preprocess` does to the ghosts after the edges have been read keeps the graph in order.
use dorylus.Prelude.{
  ℕ, suc, ◌≡◌, inl, inr, refl, ap, ◌∙◌, List, [], ◌∷◌, Bool, true, false, arith, ◌==◌,
  if◌then◌else◌, length, add32, Bool-cases, All, Option-cases,
}
use dorylus.Prelude.Map.{
  Map, same, find, size, IsSorted, IsAbove, insert-IsSorted, find-insert, size-insert_old,
  nat_order,
}
use dorylus.Graph.Defs.{
  RawGraph, GhostVertex, contains_out_edge_ghost_vertex, contains_in_edge_ghost_vertex,
}
use dorylus.Graph.Columns.{length-map}
use dorylus.Graph.Edges.{DataLoader}
use dorylus.Graph.Loaded.{GoodVertex, total, Extends}
use dorylus.Graph.Invariant.{grow_in, grow_out, Parts, IsLoaded}
use dorylus.Graph.Ghosts.{
  number_ghosts, increment_degree, number_all_ghosts, find_ghost_degrees, count_degree,
}
use dorylus.Graph.Preprocess.{ghosts_list, list_ghosts}

-- The graph when all edges have been read.
pub record IsBuilt {A : Type 0} (s : Parts) (num_nodes : ℕ) (g : RawGraph A) : Type 0 where
  pub cnt : g.num_local_vertices ≡ s.local
  pub local_ids : g.local_to_global_id ≡ s.local_ids
  pub sized : length g.vertices ≡ s.local
  pub ins : total (λ v. v.in_edges) g.vertices ≡ g.num_local_in_edges
  pub outs : total (λ v. v.out_edges) g.vertices ≡ g.num_local_out_edges
  pub good : All (GoodVertex s.local g.in_edge_ghost_vertices g.out_edge_ghost_vertices) g.vertices
  pub in_sorted : IsSorted g.in_edge_ghost_vertices
  pub out_sorted : IsSorted g.out_edge_ghost_vertices
  pub in_ghosts : size g.in_edge_ghost_vertices ≡ g.num_in_edge_ghost_vertices
  pub out_ghosts : size g.out_edge_ghost_vertices ≡ g.num_out_edge_ghost_vertices
  pub forward : length g.forward_ghosts_list ≡ num_nodes
  pub backward : length g.backward_ghosts_list ≡ num_nodes

-- New ghosts under the same keys.
pub record Renews (m m' : Map ℕ GhostVertex) : Type 0 where
  pub extends : Extends m m'
  pub sorted : IsSorted m'
  pub sized : size m' ≡ size m

increment_degree-Renews :
    (k : ℕ) (m : Map ℕ GhostVertex) → IsSorted m → Renews m (increment_degree k m)
unfolding increment_degree
increment_degree-Renews k m s = elim (Option-cases (find k m)) [
  | inl gone ↦ rw (gone, increment_degree) (record { extends = λ j h. h; sorted = s; sized = refl })
  | inr (v, e) ↦
      let w : GhostVertex = record v { degree = add32 v.degree 1 } in
      rw (e, increment_degree)
        (record {
          extends = λ j h. elim (Bool-cases (same k j)) [
            | inl here ↦ (w, find-insert k j w m ∙ ground (arith, here))
            | inr there ↦ (h.0, find-insert k j w m ∙ ground (arith, there, h.1))
          ];
          sorted = insert-IsSorted k w m s;
          sized = size-insert_old k v w m s e;
        })
]

number_ghosts-IsAbove :
    (k c : ℕ) (m : Map ℕ GhostVertex) → IsAbove k m → IsAbove k (number_ghosts c m)
unfolding number_ghosts
number_ghosts-IsAbove k c [] a = tt
number_ghosts-IsAbove k c ((j, v) ∷ m) a = (a.0, number_ghosts-IsAbove k (add32 c 1) m a.1)

number_ghosts-IsSorted : (c : ℕ) (m : Map ℕ GhostVertex) → IsSorted m → IsSorted (number_ghosts c m)
unfolding number_ghosts
number_ghosts-IsSorted c [] s = tt
number_ghosts-IsSorted c ((j, v) ∷ m) s =
    (number_ghosts-IsAbove j (add32 c 1) m s.0, number_ghosts-IsSorted (add32 c 1) m s.1)

size-number_ghosts : (c : ℕ) (m : Map ℕ GhostVertex) → size (number_ghosts c m) ≡ size m
unfolding number_ghosts size
size-number_ghosts c [] = refl
size-number_ghosts c ((j, v) ∷ m) = ap suc (size-number_ghosts (add32 c 1) m)

number_ghosts-Extends : (c : ℕ) (m : Map ℕ GhostVertex) → Extends m (number_ghosts c m)
unfolding number_ghosts find
number_ghosts-Extends c [] k h = h
number_ghosts-Extends c ((j, v) ∷ m) k (w, e) = elim (Bool-cases (same j k)) [
  | inl here ↦ (record v { local_id = c }, rw here refl)
  | inr there ↦
      let (u, f) = number_ghosts-Extends (add32 c 1) m k (w, ground (arith, there, e)) in
      (u, rw there f)
]

number_ghosts-Renews : (c : ℕ) (m : Map ℕ GhostVertex) → IsSorted m → Renews m (number_ghosts c m)
number_ghosts-Renews c m s = record {
  extends = number_ghosts-Extends c m;
  sorted = number_ghosts-IsSorted c m s;
  sized = size-number_ghosts c m;
}

module _ {A : Type 0} (s : Parts) (num_nodes : ℕ) where
  pub list_ghosts-IsBuilt :
      (d : DataLoader A)
      → d.num_nodes ≡ num_nodes
      → IsLoaded s d
      → IsBuilt s num_nodes (list_ghosts d)
  unfolding list_ghosts
  list_ghosts-IsBuilt d e v = record {
    cnt = v.cnt;
    local_ids = v.local_ids;
    sized = v.sized;
    ins = v.ins;
    outs = v.outs;
    good = v.good;
    in_sorted = v.in_sorted;
    out_sorted = v.out_sorted;
    in_ghosts = refl;
    out_ghosts = refl;
    forward = length-map ghosts_list d.forward_dst_tables ∙ v.forward.sized ∙ e;
    backward = length-map ghosts_list d.backward_dst_tables ∙ v.backward.sized ∙ e;
  }

  out-IsBuilt :
      (g : RawGraph A) (m : Map ℕ GhostVertex)
      → IsBuilt s num_nodes g
      → Renews g.out_edge_ghost_vertices m
      → IsBuilt s num_nodes (record g { out_edge_ghost_vertices = m })
  out-IsBuilt g m b r = record {
    cnt = b.cnt;
    local_ids = b.local_ids;
    sized = b.sized;
    ins = b.ins;
    outs = b.outs;
    good =
        grow_out s.local g.in_edge_ghost_vertices g.out_edge_ghost_vertices m g.vertices r.extends
          b.good;
    in_sorted = b.in_sorted;
    out_sorted = r.sorted;
    in_ghosts = b.in_ghosts;
    out_ghosts = r.sized ∙ b.out_ghosts;
    forward = b.forward;
    backward = b.backward;
  }

  in-IsBuilt :
      (g : RawGraph A) (m : Map ℕ GhostVertex)
      → IsBuilt s num_nodes g
      → Renews g.in_edge_ghost_vertices m
      → IsBuilt s num_nodes (record g { in_edge_ghost_vertices = m })
  in-IsBuilt g m b r = record {
    cnt = b.cnt;
    local_ids = b.local_ids;
    sized = b.sized;
    ins = b.ins;
    outs = b.outs;
    good =
        grow_in s.local g.in_edge_ghost_vertices g.out_edge_ghost_vertices m g.vertices r.extends
          b.good;
    in_sorted = r.sorted;
    out_sorted = b.out_sorted;
    in_ghosts = r.sized ∙ b.in_ghosts;
    out_ghosts = b.out_ghosts;
    forward = b.forward;
    backward = b.backward;
  }

  pub number_all_ghosts-IsBuilt :
      (g : RawGraph A) → IsBuilt s num_nodes g → IsBuilt s num_nodes (number_all_ghosts g)
  unfolding number_all_ghosts
  number_all_ghosts-IsBuilt g b =
      let n = g.num_local_vertices in
      let m = number_ghosts n g.in_edge_ghost_vertices in
      out-IsBuilt (record g { in_edge_ghost_vertices = m })
        (number_ghosts n g.out_edge_ghost_vertices)
        (in-IsBuilt g m b (number_ghosts-Renews n g.in_edge_ghost_vertices b.in_sorted))
        (number_ghosts-Renews n g.out_edge_ghost_vertices b.out_sorted)

  count_degree-IsBuilt :
      (dst : ℕ) (g : RawGraph A) → IsBuilt s num_nodes g → IsBuilt s num_nodes (count_degree dst g)
  unfolding count_degree
  count_degree-IsBuilt dst g b = by_out (contains_out_edge_ghost_vertex dst g) refl
    where
      by_in :
          (g1 : RawGraph A)
          → IsBuilt s num_nodes g1
          → (c : Bool)
          → IsBuilt s num_nodes (
              if c
              then record g1 {
                in_edge_ghost_vertices = increment_degree dst g1.in_edge_ghost_vertices;
              }
              else g1)
      by_in g1 b1 false = b1
      by_in g1 b1 true =
          in-IsBuilt g1 (increment_degree dst g1.in_edge_ghost_vertices) b1
            (increment_degree-Renews dst g1.in_edge_ghost_vertices b1.in_sorted)

      by_out :
          (c : Bool)
          → contains_out_edge_ghost_vertex dst g ≡ c
          → IsBuilt s num_nodes (count_degree dst g)
      by_out false e = rw e (by_in g b (contains_in_edge_ghost_vertex dst g))
      by_out true e =
          let m = increment_degree dst g.out_edge_ghost_vertices in
          let g1 : RawGraph A = record g { out_edge_ghost_vertices = m } in
          rw e (
            by_in g1
              (out-IsBuilt g m b
                (increment_degree-Renews dst g.out_edge_ghost_vertices b.out_sorted))
              (contains_in_edge_ghost_vertex dst g1))

  pub find_ghost_degrees-IsBuilt :
      (edges : List (ℕ × ℕ)) (g : RawGraph A)
      → IsBuilt s num_nodes g
      → IsBuilt s num_nodes (find_ghost_degrees edges g)
  unfolding find_ghost_degrees
  find_ghost_degrees-IsBuilt [] g b = b
  find_ghost_degrees-IsBuilt ((src, dst) ∷ edges) g b = elim (Bool-cases (src == dst)) [
    | inl loop ↦ rw loop (find_ghost_degrees-IsBuilt edges g b)
    | inr other ↦
        rw other
          (find_ghost_degrees-IsBuilt edges (count_degree dst g) (count_degree-IsBuilt dst g b))
  ]
