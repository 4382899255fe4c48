-- ===== src/Graph/Prepared.antt =====
-- After the partition file has been read, the loader is in order.
use dorylus.Prelude.{
  ℕ, zero, suc, ◌+◌, ◌≡◌, ◌≢◌, ◌<◌, ◌≤◌, ◌⊎◌, inl, inr, refl, sym, ap, ◌∙◌, List, [], ◌∷◌, ◌++◌,
  some, false, arith, ◌==◌, add32-eq, length, get_elem?, replicate, length-replicate, length-append,
  u32_mod, Bool-cases, ==_iff,
}
use mathlib.Core.List.{append_assoc, append-nil}
use dorylus.Prelude.Map.{find, find-insert, nat_order}
use dorylus.Graph.Defs.{RawGraph}
use dorylus.Graph.Partition.{PartsLine, skipped, failed, part_id, add_vertex, read_parts_loop}
use dorylus.Graph.Loaded.{Rows}
use dorylus.Graph.Preprocess.{new_tables}

-- The partitions that the file gives to the vertices, in their order.
abbrev pub read_ids : List PartsLine → List ℕ
read_ids [] = []
read_ids (skipped ∷ ls) = read_ids ls
read_ids (failed ∷ ls) = []
read_ids (part_id p ∷ ls) = p ∷ read_ids ls

-- The parts of a new `RawGraph` that the preprocessing adds to.
pub record IsBlank {A : Type 0} (g : RawGraph A) : Type 0 where
  pub to_global : g.local_to_global_id ≡ []
  pub to_local : g.global_to_local_id ≡ []
  pub parts : g.vertex_partition_ids ≡ []
  pub in_ghosts : g.in_edge_ghost_vertices ≡ []
  pub out_ghosts : g.out_edge_ghost_vertices ≡ []
  pub in_edges : g.num_local_in_edges ≡ 0
  pub out_edges : g.num_local_out_edges ≡ 0
  pub edges : g.num_global_edges ≡ 0

snoc_cases :
    (xs : List ℕ) (x k y : ℕ)
    → get_elem? (xs ++ x ∷ []) k ≡ some y
    → ((get_elem? xs k ≡ some y) × (k < length xs)) ⊎ ((k ≡ length xs) × (x ≡ y))
snoc_cases [] x zero y e = inr (refl, cc e)
snoc_cases [] x (suc k) y e = absurd (cc e)
snoc_cases (z ∷ xs) x zero y e = inl (e, omega arith)
snoc_cases (z ∷ xs) x (suc k) y e = elim (snoc_cases xs x k y e) [
  | inl (f, lt) ↦ inl (f, omega (arith, lt))
  | inr (f, q) ↦ inr (ap suc f, q)
]

length-new_tables : (node_id n i k : ℕ) → length (new_tables node_id n i k) ≡ k
unfolding new_tables
length-new_tables node_id n i zero = refl
length-new_tables node_id n i (suc k) = ap suc (length-new_tables node_id n (i + 1) k)

get_elem?-new_tables :
    (node_id n i k p : ℕ)
    → p < k
    → i + p ≢ node_id
    → get_elem? (new_tables node_id n i k) p ≡ some (some (replicate n false))
unfolding new_tables
get_elem?-new_tables node_id n i zero p lt ne = absurd (omega arith)
get_elem?-new_tables node_id n i (suc k) zero lt ne = elim (Bool-cases (i == node_id)) [
  | inl own ↦ absurd (ne (omega (arith, (==_iff i node_id).0 own)))
  | inr other ↦ rw other refl
]
get_elem?-new_tables node_id n i (suc k) (suc p) lt ne =
    get_elem?-new_tables node_id n (i + 1) k p (omega arith) (λ q. ne (omega (arith, q)))

pub new_tables-Rows : (node_id n k : ℕ) → Rows node_id k n (new_tables node_id n 0 k)
new_tables-Rows node_id n k = record {
  sized = length-new_tables node_id n 0 k;
  row = λ p lt ne. (
    replicate n false,
    get_elem?-new_tables node_id n 0 k p lt (λ q. ne (omega (arith, q))),
    length-replicate n false,
  );
}

module _ {A : Type 0} where
  -- Where a vertex stands while the file is read.
  pub record IsPlaced (node_id k lvid gvid : ℕ) (g : RawGraph A) : Type 0 where
    pub counted : length g.vertex_partition_ids ≡ gvid
    pub ordered : lvid ≤ gvid
    pub mapped :
        get_elem? g.vertex_partition_ids k ≡ some node_id
        → (l : ℕ) × (find k g.global_to_local_id ≡ some l) × (l < lvid)

  add_vertex-IsPlaced :
      (node_id k p lvid gvid : ℕ) (g : RawGraph A)
      → gvid + 1 < u32_mod
      → IsPlaced node_id k lvid gvid g
      → let r = add_vertex node_id p lvid gvid g in
        IsPlaced node_id k r.1 r.2 r.0
        × (r.2 ≡ gvid + 1)
        × (r.0.vertex_partition_ids ≡ g.vertex_partition_ids ++ p ∷ [])
  unfolding add_vertex
  add_vertex-IsPlaced node_id k p lvid gvid g room v =
      let b = add32-eq gvid 1 room in
      let a = add32-eq lvid 1 (omega (arith, v.ordered)) in
      let ids = g.vertex_partition_ids ++ p ∷ [] in
      let n : length ids ≡ gvid + 1 =
        omega (arith, length-append g.vertex_partition_ids (p ∷ []), v.counted) in
      elim (Bool-cases (p == node_id)) [
        | inl mine ↦ rw mine (
          record {
            counted = omega (arith, n, b);
            ordered = omega (arith, a, b, v.ordered);
            mapped = λ e. elim (snoc_cases g.vertex_partition_ids p k node_id e) [
              | inl (f, lt) ↦
                  let (l, h, m) = v.mapped f in
                  (
                    l,
                    find-insert gvid k lvid g.global_to_local_id ∙ ground (arith, lt, v.counted, h),
                    omega (arith, a, m),
                  )
              | inr (f, q) ↦ (
                lvid,
                find-insert gvid k lvid g.global_to_local_id ∙ ground (arith, f, v.counted),
                omega (arith, a),
              )
            ];
          },
          b,
          refl,
        )
        | inr other ↦ rw other (
          record {
            counted = omega (arith, n, b);
            ordered = omega (arith, b, v.ordered);
            mapped = λ e. elim (snoc_cases g.vertex_partition_ids p k node_id e) [
              | inl (f, lt) ↦ v.mapped f
              | inr (f, q) ↦ ground (arith, q, other)
            ];
          },
          b,
          refl,
        )
      ]

  pub read_parts_loop-IsPlaced :
      (node_id k : ℕ) (ls : List PartsLine) (lvid gvid : ℕ) (g : RawGraph A)
      → gvid + length ls < u32_mod
      → IsPlaced node_id k lvid gvid g
      → let r = read_parts_loop node_id ls lvid gvid g in
        IsPlaced node_id k r.1 r.2 r.0
        × (r.0.vertex_partition_ids ≡ g.vertex_partition_ids ++ read_ids ls)
  unfolding read_parts_loop
  read_parts_loop-IsPlaced node_id k [] lvid gvid g room v =
      (v, sym (append-nil g.vertex_partition_ids))
  read_parts_loop-IsPlaced node_id k (skipped ∷ ls) lvid gvid g room v =
      read_parts_loop-IsPlaced node_id k ls lvid gvid g (omega arith) v
  read_parts_loop-IsPlaced node_id k (failed ∷ ls) lvid gvid g room v =
      (v, sym (append-nil g.vertex_partition_ids))
  read_parts_loop-IsPlaced node_id k (part_id p ∷ ls) lvid gvid g room v =
      let (w, n, e) = add_vertex-IsPlaced node_id k p lvid gvid g (omega arith) v in
      let r = add_vertex node_id p lvid gvid g in
      let (x, f) = read_parts_loop-IsPlaced node_id k ls r.1 r.2 r.0 (omega (arith, n)) w in
      (
        x,
        f
            ∙ ap (λ ids. ids ++ read_ids ls) e
            ∙ append_assoc g.vertex_partition_ids (p ∷ []) (read_ids ls),
      )
