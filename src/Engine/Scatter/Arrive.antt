-- ===== src/Engine/Scatter/Arrive.antt =====
-- From the rows of one engine to the ghosts of another.
use dorylus.Prelude.{
  ℕ, ◌+◌, ◌-◌, ◌*◌, ◌≡◌, ◌≢◌, ◌<◌, ◌≤◌, sym, subst, inl, inr, List, [], ◌∷◌, ◌++◌, Option, some,
  arith, ◌==◌, uint_max, u32_mod, length, ◌>>=◌, >>=-eq-some, All, All-imp, Bool-cases,
}
use native.Mathlib.Nat.{div-le_self}
use dorylus.Prelude.Map.{Map, find, nat_order}
use dorylus.Chunk.{Chunk}
use dorylus.Engine.Scatter.Defs.{
  Message, Sender, batch_size, feat_layer, vertex_at, vertices_at, scatter_gcn,
}
use dorylus.Engine.Scatter.Buckets.{DestsIn}
use dorylus.Engine.Scatter.Batches.{carried}
use dorylus.Engine.Scatter.Send.{addressed, IsSent}
use dorylus.Engine.Scatter.Whole.{ghosts_of, wanted_of, scatter_gcn-carried}
use dorylus.Engine.Scatter.Receive.{Receiver, receive_all}
use dorylus.Engine.Scatter.Rows.{IsInjective, RowIs, IsValue}
use dorylus.Engine.Scatter.Deliver.{side, IsReady, Fits, receive_all-Written}

batch_size_small : (feat_dim : ℕ) → batch_size feat_dim < uint_max - 1
unfolding batch_size
batch_size_small feat_dim = ground (arith, div-le_self 1048548 (4 + 4 * feat_dim))

All-front : {B : Type 0} (P : B → Type 0) (xs ys : List B) → All P (xs ++ ys) → All P xs
All-front P [] ys a = tt
All-front P (x ∷ xs) ys a = (a.0, All-front P xs ys a.1)

All-back : {B : Type 0} (P : B → Type 0) (xs ys : List B) → All P (xs ++ ys) → All P ys
All-back P [] ys a = a
All-back P (x ∷ xs) ys a = All-back P xs ys a.1

module _ {A : Type 0} where
  All-addressed :
      (P : Message A → Type 0) (nid : ℕ) (ms : List (Message A))
      → All P ms
      → All P (addressed nid ms)
  All-addressed P nid [] a = tt
  All-addressed P nid (m ∷ ms) a = elim (Bool-cases (m.receiver == nid)) [
    | inl hit ↦ rw hit (a.0, All-addressed P nid ms a.1)
    | inr miss ↦ rw miss (All-addressed P nid ms a.1)
  ]

  module _ (e : Sender) (tensor : List (List A)) where
    -- What holds of the vertices of a list holds of what a message carries of them, and back.
    All-vertices_at :
        (P : ℕ × List A → Type 0) (ids : List ℕ) {vs : List (ℕ × List A)}
        → vertices_at e tensor ids ≡ some vs
        → ((lvid : ℕ) (v : ℕ × List A) → vertex_at e tensor lvid ≡ some v → P v)
        → All P vs
    unfolding vertices_at
    All-vertices_at P [] {vs} q f = let h : [] ≡ vs = cc q in subst (All P) h tt
    All-vertices_at P (lvid ∷ ids) {vs} q f =
        let tail : Option (List (ℕ × List A)) = vertices_at e tensor ids in
        let (v, a, r) =
          >>=-eq-some (vertex_at e tensor lvid) (λ v. tail >>= λ us. some (v ∷ us)) q in
        let (us, b, c) = >>=-eq-some tail (λ us. some (v ∷ us)) r in
        let all : v ∷ us ≡ vs = cc c in subst (All P) all (f lvid v a, All-vertices_at P ids b f)

    vertices_at-All :
        (P : ℕ × List A → Type 0) (ids : List ℕ) {vs : List (ℕ × List A)}
        → vertices_at e tensor ids ≡ some vs
        → All P vs
        → All (λ lvid. (v : ℕ × List A) × (vertex_at e tensor lvid ≡ some v) × P v) ids
    unfolding vertices_at
    vertices_at-All P [] q h = tt
    vertices_at-All P (lvid ∷ ids) {vs} q h =
        let tail : Option (List (ℕ × List A)) = vertices_at e tensor ids in
        let (v, a, r) =
          >>=-eq-some (vertex_at e tensor lvid) (λ v. tail >>= λ us. some (v ∷ us)) q in
        let (us, b, c) = >>=-eq-some tail (λ us. some (v ∷ us)) r in
        let all : vs ≡ v ∷ us = cc c in
        let g = subst (All P) all h in ((v, a, g.0), vertices_at-All P ids b g.1)

  module _ (e : Sender) (tensor : List (List A)) (c : Chunk) (local_vtx_cnt n : ℕ) (ids : Map ℕ ℕ)
      (room : local_vtx_cnt + n < u32_mod) (inj : IsInjective ids) (value : ℕ → List A) where
    all_Fits :
        (feat_dim : ℕ) (ms : List (Message A))
        → All (IsSent e c feat_dim) ms
        → All (IsValue local_vtx_cnt n ids room inj value) (carried ms)
        → All (Fits c.dir (feat_layer e c) local_vtx_cnt n ids room inj value) ms
    all_Fits feat_dim [] a b = tt
    all_Fits feat_dim (m ∷ ms) a b =
        let P : ℕ × List A → Type 0 = IsValue local_vtx_cnt n ids room inj value in
        (
          record {
            dir_eq = a.0.of_dir;
            layer_eq = a.0.of_layer;
            no_ack = omega (arith, a.0.small, batch_size_small feat_dim);
            values = All-front P m.vertices (carried ms) b;
          },
          all_Fits feat_dim ms a.1 (All-back P m.vertices (carried ms) b),
        )

    -- One engine scatters a chunk and another, which is a node, receives what is for it. The conditions
    -- of the first are those of a scatter, and of the second those of a receiver, for the chunk's
    -- direction and the layer that the messages name; and the global ids of the first are ghosts of
    -- the second, with one row to each. Then neither faults, and each vertex of the chunk that has the
    -- second among its destinations has its row at its ghost there.
    pub scatter_gcn-receive_all :
        (feat_dim recv_cnt nid : ℕ) (r : Receiver A)
        → c.low_bound ≤ c.up_bound
        → c.up_bound ≤ length e.local_to_global_id
        → c.up_bound ≤ length tensor
        → DestsIn e.num_nodes (ghosts_of e c)
        → ((k : ℕ) → length (wanted_of e c k) + batch_size feat_dim < u32_mod)
        → nid < e.num_nodes
        → nid ≢ e.node_id
        → IsReady c.dir (feat_layer e c) local_vtx_cnt n ids r
        → ((lvid : ℕ) (v : ℕ × List A)
            → vertex_at e tensor lvid ≡ some v
            → IsValue local_vtx_cnt n ids room inj value v)
        → (ms : List (Message A)) × (cnt : ℕ) × (r' : Receiver A) × (t : List (List A))
          × (scatter_gcn e tensor feat_dim c recv_cnt ≡ some (ms, cnt))
          × (receive_all (addressed nid ms) r ≡ some r')
          × (find (feat_layer e c) (side c.dir r').tensors ≡ some t)
          × All
              (λ lvid.
                (v : ℕ × List A) × (vertex_at e tensor lvid ≡ some v)
                × RowIs local_vtx_cnt n ids t v.0 v.1)
              (wanted_of e c nid)
    scatter_gcn-receive_all feat_dim recv_cnt nid r order gvids rows dests small lt ne ready good =
        let (ms, cnt, p, sent, own, serves) =
          scatter_gcn-carried e tensor feat_dim recv_cnt c order gvids rows dests small in
        let q = serves nid lt ne in
        let P : ℕ × List A → Type 0 = IsValue local_vtx_cnt n ids room inj value in
        let fits =
          all_Fits feat_dim (addressed nid ms) (All-addressed (IsSent e c feat_dim) nid ms sent)
            (All-vertices_at e tensor P (wanted_of e c nid) q good) in
        let (r', ready', x, w, same_mode, acks) =
          receive_all-Written c.dir (feat_layer e c) local_vtx_cnt n ids room inj value
            (addressed nid ms) r ready fits in
        (
          ms,
          cnt,
          r',
          ready'.tensor,
          p,
          x,
          ready'.at,
          All-imp
              (λ lvid h.
                let (v, a, s) = h in
                (
                  v,
                  a,
                  subst (λ row. RowIs local_vtx_cnt n ids ready'.tensor v.0 row)
                      (sym (good lvid v a).1) s,
                ))
              (wanted_of e c nid)
              (vertices_at-All e tensor
                (λ v. RowIs local_vtx_cnt n ids ready'.tensor v.0 (value v.0)) (wanted_of e c nid) q
                w.written),
        )
