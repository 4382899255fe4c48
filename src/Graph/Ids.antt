-- ===== src/Graph/Ids.antt =====
-- The local and the global ids that the partition file gives to the vertices.
use dorylus.Prelude.{
  ℕ, ◌+◌, ◌≡◌, ◌<◌, ◌≤◌, ◌⊎◌, inl, inr, ◌↔◌, List, [], ◌∷◌, ◌++◌, none, some, arith, ◌==◌,
  if◌then◌else◌, add32, add32-eq, length, length-append, u32_mod, Bool-cases,
}
use dorylus.Prelude.Map.{Map, same, find, insert, find-insert, nat_order}
use dorylus.Graph.Defs.{RawGraph}
use dorylus.Graph.Partition.{
  PartsLine, skipped, failed, part_id, add_vertex, read_parts_loop, read_parts_file,
}

-- The local ids in use are those below the next one, and no global id is used above the next one.
abbrev pub Known : ℕ → ℕ → Map ℕ ℕ → Type 0
Known l lvid m = ((find l m ≡ none) × (lvid ≤ l)) ⊎ ((x : ℕ) × (find l m ≡ some x) × (l < lvid))

abbrev Fresh : ℕ → ℕ → Map ℕ ℕ → Type 0
Fresh γ gvid m = (find γ m ≡ none) ⊎ (γ < gvid)

module _ {A : Type 0} where
  -- The two maps at a local id and a global id, with the next ids.
  record IsInverse (l γ lvid gvid : ℕ) (g : RawGraph A) : Type 0 where
    both : (find l g.local_to_global_id ≡ some γ) ↔ (find γ g.global_to_local_id ≡ some l)
    known : Known l lvid g.local_to_global_id
    fresh : Fresh γ gvid g.global_to_local_id
    ordered : lvid ≤ gvid
    counted : length g.vertex_partition_ids ≡ gvid

  module _ (l γ lvid gvid : ℕ) (g : RawGraph A) (room : gvid + 1 < u32_mod)
      (v : IsInverse l γ lvid gvid g) where
    -- The global id after the last is a new local vertex.
    insert-IsInverse :
        (ids : List ℕ)
        → length ids ≡ gvid + 1
        → IsInverse l γ (add32 lvid 1) (add32 gvid 1) (record g {
          vertex_partition_ids = ids;
          local_to_global_id = insert lvid gvid g.local_to_global_id;
          global_to_local_id = insert gvid lvid g.global_to_local_id;
        })
    insert-IsInverse ids n =
        let a = add32-eq lvid 1 (omega (arith, v.ordered)) in
        let b = add32-eq gvid 1 room in
        record {
          both = (λ h. by_both v.known v.fresh h, λ h. by_back v.known v.fresh h);
          known = by_known v.known;
          fresh = by_fresh v.fresh;
          ordered = omega (arith, a, b, v.ordered);
          counted = omega (arith, n, b);
        }
      where
        p :
            find l (insert lvid gvid g.local_to_global_id)
            ≡ (if same lvid l then some gvid else find l g.local_to_global_id)
        p = find-insert lvid l gvid g.local_to_global_id

        q :
            find γ (insert gvid lvid g.global_to_local_id)
            ≡ (if same gvid γ then some lvid else find γ g.global_to_local_id)
        q = find-insert gvid γ lvid g.global_to_local_id

        by_both :
            Known l lvid g.local_to_global_id
            → Fresh γ gvid g.global_to_local_id
            → find l (insert lvid gvid g.local_to_global_id) ≡ some γ
            → find γ (insert gvid lvid g.global_to_local_id) ≡ some l
        by_both (inl k) f h = ground (arith, k.0, k.1, h, f, v.both.0, p, q)
        by_both (inr (x, e, lt)) (inl f) h = ground (arith, e, lt, h, f, v.both.0, p, q)
        by_both (inr (x, e, lt)) (inr f) h = ground (arith, e, lt, h, f, v.both.0, p, q)

        by_back :
            Known l lvid g.local_to_global_id
            → Fresh γ gvid g.global_to_local_id
            → find γ (insert gvid lvid g.global_to_local_id) ≡ some l
            → find l (insert lvid gvid g.local_to_global_id) ≡ some γ
        by_back (inl k) f h = ground (arith, k.0, k.1, h, f, v.both.1, p, q)
        by_back (inr (x, e, lt)) (inl f) h = ground (arith, e, lt, h, f, v.both.1, p, q)
        by_back (inr (x, e, lt)) (inr f) h = ground (arith, e, lt, h, f, v.both.1, p, q)

        by_known :
            Known l lvid g.local_to_global_id
            → Known l (add32 lvid 1) (insert lvid gvid g.local_to_global_id)
        by_known (inl k) = elim (Bool-cases (same lvid l)) [
          | inl new ↦ inr (
            gvid,
            ground (arith, p, new),
            ground (arith, new, add32-eq lvid 1 (omega (arith, v.ordered))),
          )
          | inr old ↦ inl (
            ground (arith, p, old, k.0),
            ground (arith, old, k.1, add32-eq lvid 1 (omega (arith, v.ordered))),
          )
        ]
        by_known (inr (x, e, lt)) = inr (
          x,
          ground (arith, p, e, lt),
          ground (arith, lt, add32-eq lvid 1 (omega (arith, v.ordered))),
        )

        by_fresh :
            Fresh γ gvid g.global_to_local_id
            → Fresh γ (add32 gvid 1) (insert gvid lvid g.global_to_local_id)
        by_fresh (inr lt) = inr (ground (arith, lt, add32-eq gvid 1 room))
        by_fresh (inl f) = elim (Bool-cases (same gvid γ)) [
          | inl new ↦ inr (ground (arith, new, add32-eq gvid 1 room))
          | inr old ↦ inl (ground (arith, q, old, f))
        ]

    -- A vertex of another partition.
    skip-IsInverse :
        (ids : List ℕ)
        → length ids ≡ gvid + 1
        → IsInverse l γ lvid (add32 gvid 1) (record g { vertex_partition_ids = ids })
    skip-IsInverse ids n =
        let b = add32-eq gvid 1 room in
        record {
          both = v.both;
          known = v.known;
          fresh = later v.fresh;
          ordered = omega (arith, b, v.ordered);
          counted = omega (arith, n, b);
        }
      where
        later : Fresh γ gvid g.global_to_local_id → Fresh γ (add32 gvid 1) g.global_to_local_id
        later (inl f) = inl f
        later (inr lt) = inr (omega (arith, add32-eq gvid 1 room, lt))

    add_vertex-IsInverse :
        (node_id p : ℕ)
        → let r = add_vertex node_id p lvid gvid g in IsInverse l γ r.1 r.2 r.0 × (r.2 ≡ gvid + 1)
    unfolding add_vertex
    add_vertex-IsInverse node_id p =
        let ids = g.vertex_partition_ids ++ p ∷ [] in
        let n : length ids ≡ gvid + 1 =
          omega (arith, length-append g.vertex_partition_ids (p ∷ []), v.counted) in
        elim (Bool-cases (p == node_id)) [
          | inl mine ↦ rw mine (insert-IsInverse ids n, add32-eq gvid 1 room)
          | inr other ↦ rw other (skip-IsInverse ids n, add32-eq gvid 1 room)
        ]

  read_parts_loop-IsInverse :
      (node_id l γ : ℕ) (ls : List PartsLine) (lvid gvid : ℕ) (g : RawGraph A)
      → gvid + length ls < u32_mod
      → IsInverse l γ lvid gvid g
      → let r = read_parts_loop node_id ls lvid gvid g in IsInverse l γ r.1 r.2 r.0
  unfolding read_parts_loop
  read_parts_loop-IsInverse node_id l γ [] lvid gvid g room v = v
  read_parts_loop-IsInverse node_id l γ (skipped ∷ ls) lvid gvid g room v =
      read_parts_loop-IsInverse node_id l γ ls lvid gvid g (omega arith) v
  read_parts_loop-IsInverse node_id l γ (failed ∷ ls) lvid gvid g room v = v
  read_parts_loop-IsInverse node_id l γ (part_id p ∷ ls) lvid gvid g room v =
      let (w, n) = add_vertex-IsInverse l γ lvid gvid g (omega arith) v node_id p in
      let r = add_vertex node_id p lvid gvid g in
      read_parts_loop-IsInverse node_id l γ ls r.1 r.2 r.0 (omega (arith, n)) w

  -- On a graph without vertices, and a file of fewer than 2 ^ 32 lines: the two maps are inverse to
  -- each other, the local ids in use are exactly those below the number of local vertices, this is
  -- at most the number of vertices, and a partition is known for each vertex.
  pub read_parts_file-inverse :
      (node_id l γ : ℕ) (ls : List PartsLine) (g : RawGraph A)
      → g.local_to_global_id ≡ []
      → g.global_to_local_id ≡ []
      → g.vertex_partition_ids ≡ []
      → length ls < u32_mod
      → let g' = read_parts_file node_id ls g in
        ((find l g'.local_to_global_id ≡ some γ) ↔ (find γ g'.global_to_local_id ≡ some l))
        × Known l g'.num_local_vertices g'.local_to_global_id
        × (g'.num_local_vertices ≤ g'.num_global_vertices)
        × (length g'.vertex_partition_ids ≡ g'.num_global_vertices)
  unfolding read_parts_file find
  read_parts_file-inverse node_id l γ ls g no_local no_global no_part room =
      let w = read_parts_loop-IsInverse node_id l γ ls 0 0 g (omega arith) (record {
        both = (λ h. ground (arith, h, no_local), λ h. ground (arith, h, no_global));
        known = inl (ground (arith, no_local), omega arith);
        fresh = inl (ground (arith, no_global));
        ordered = omega arith;
        counted = ground (arith, no_part);
      }) in
      (w.both, w.known, w.ordered, w.counted)
