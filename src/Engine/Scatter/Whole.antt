-- ===== src/Engine/Scatter/Whole.antt =====
-- `scatterGCN` and `scatterGAT` from their chunk to their messages.
use dorylus.Prelude.{
  ℕ, zero, suc, ◌+◌, ◌-◌, ◌≡◌, ◌≢◌, ◌<◌, ◌≤◌, refl, ap, ◌∙◌, subst, inl, inr, List, [], ◌∷◌, some,
  arith, ◌==◌, if◌then◌else◌, add32, u32_mod, length, get_elem?, All, All-append, Bool-cases,
  get_elem?-lt,
}
use dorylus.Prelude.Map.{Map, nat_order}
use dorylus.Chunk.{forward, backward, Chunk}
use dorylus.Engine.Scatter.Defs.{
  Message, Sender, batch_size, dests_of, vertex_at, vertices_at, scatter_gcn,
}
use dorylus.Engine.Scatter.Buckets.{copies, wanted, DestsIn, fill_buckets-wanted}
use dorylus.Engine.Scatter.Batches.{carried, AllAt}
use dorylus.Engine.Scatter.Send.{addressed, IsSent, Sendable, send_buckets-IsServed}

-- The destinations of the chunk's direction.
abbrev pub ghosts_of : Sender → Chunk → Map ℕ (List ℕ)
ghosts_of e c = elim c.dir [ forward ↦ e.forward_ghost_map | backward ↦ e.backward_ghost_map ]

-- The vertices of a chunk that a node gets.
abbrev pub wanted_of : Sender → Chunk → ℕ → List ℕ
wanted_of e c nid = wanted nid (ghosts_of e c) (c.up_bound - c.low_bound) c.low_bound

All-lookup :
    {B : Type 0} (P : B → Type 0) (xs : List B)
    → ((i : ℕ) (x : B) → get_elem? xs i ≡ some x → P x)
    → All P xs
All-lookup P [] f = tt
All-lookup P (x ∷ xs) f = (f 0 x refl, All-lookup P xs (λ i y e. f (suc i) y e))

module _ {A : Type 0} (e : Sender) (tensor : List (List A)) where
  copies-AllAt :
      (nid lvid : ℕ) (nids : List ℕ)
      → (v : ℕ × List A) × (vertex_at e tensor lvid ≡ some v)
      → AllAt e tensor (copies nid lvid nids)
  copies-AllAt nid lvid [] h = tt
  copies-AllAt nid lvid (n ∷ nids) h = elim (Bool-cases (n == nid)) [
    | inl hit ↦ rw hit (h, copies-AllAt nid lvid nids h)
    | inr miss ↦ rw miss (copies-AllAt nid lvid nids h)
  ]

  wanted-AllAt :
      (nid : ℕ) (ghosts : Map ℕ (List ℕ)) (n lvid : ℕ)
      → lvid + n ≤ length e.local_to_global_id
      → lvid + n ≤ length tensor
      → AllAt e tensor (wanted nid ghosts n lvid)
  unfolding vertex_at
  wanted-AllAt nid ghosts zero lvid p q = tt
  wanted-AllAt nid ghosts (suc n) lvid p q =
      let (gvid, x) = get_elem?-lt e.local_to_global_id lvid (omega (arith, p)) in
      let (row, y) = get_elem?-lt tensor lvid (omega (arith, q)) in
      All-append (λ k. (v : ℕ × List A) × (vertex_at e tensor k ≡ some v))
        (copies nid lvid (dests_of ghosts lvid)) (wanted nid ghosts n (lvid + 1))
        (copies-AllAt nid lvid (dests_of ghosts lvid) ((gvid, row), rw (x, y) refl))
        (wanted-AllAt nid ghosts n (lvid + 1) (omega (arith, p)) (omega (arith, q)))

  -- For a chunk of vertices that have a global id and a row, whose destinations are all nodes, and
  -- buckets that stay below 2 ^ 32 by more than a batch: the scatter does not fault, each message has
  -- at least one vertex and at most a batch of them, none goes to the own node, and the messages to
  -- another node carry together the global ids and the rows of the vertices that have that node
  -- among their destinations, in their order.
  pub scatter_gcn-carried :
      (feat_dim recv_cnt : ℕ) (c : Chunk)
      → c.low_bound ≤ c.up_bound
      → c.up_bound ≤ length e.local_to_global_id
      → c.up_bound ≤ length tensor
      → DestsIn e.num_nodes (ghosts_of e c)
      → ((nid : ℕ) → length (wanted_of e c nid) + batch_size feat_dim < u32_mod)
      → (ms : List (Message A)) × (cnt : ℕ) × (scatter_gcn e tensor feat_dim c recv_cnt
          ≡ some (ms, cnt))
        × All (IsSent e c feat_dim) ms
        × (addressed e.node_id ms ≡ [])
        × ((nid : ℕ)
            → nid < e.num_nodes
            → nid ≢ e.node_id
            → vertices_at e tensor (wanted_of e c nid) ≡ some (carried (addressed nid ms)))
  unfolding scatter_gcn
  scatter_gcn-carried feat_dim recv_cnt c order ids rows dests room =
      let n = c.up_bound - c.low_bound in
      let (b, p, l, w) = fill_buckets-wanted (ghosts_of e c) e.num_nodes n c.low_bound dests in
      let good : All (Sendable e tensor feat_dim c) b =
        All-lookup (Sendable e tensor feat_dim c) b (λ i x q.
          let lt : i < e.num_nodes = subst (λ k. i < k) l (get_elem?-bound b i q) in
          let same_ids : wanted_of e c i ≡ x = cc (w i lt, q) in
          subst (Sendable e tensor feat_dim c) same_ids (
            wanted-AllAt i (ghosts_of e c) n c.low_bound (omega (arith, order, ids))
                (omega (arith, order, rows)),
            room i,
          )) in
      let (ms, q, s) = send_buckets-IsServed e tensor feat_dim c 0 b good in
      (
        ms,
        if e.async then recv_cnt else add32 recv_cnt (length ms),
        rw (p, q) refl,
        s.sent,
        s.own,
        λ nid lt ne.
            let h : 0 + nid ≡ nid = omega arith in
            s.served nid (w nid lt) (λ x. ne (omega (arith, x)))
            ∙ ap (λ k. some (carried (addressed k ms))) h,
      )
    where
      get_elem?-bound :
          {B : Type 0} (xs : List B) (i : ℕ) {x : B} → get_elem? xs i ≡ some x → i < length xs
      get_elem?-bound [] i q = absurd (cc q)
      get_elem?-bound (x ∷ xs) zero q = omega arith
      get_elem?-bound (x ∷ xs) (suc i) q = omega (arith, get_elem?-bound xs i q)
