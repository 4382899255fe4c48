-- ===== src/Engine/Scatter/Deliver.antt =====
-- A sequence of messages to the ghosts of one layer and direction.
use dorylus.Prelude.{
  ℕ, ◌+◌, ◌-◌, ◌≡◌, ◌<◌, refl, sym, ap, ◌∙◌, subst, List, [], ◌∷◌, ◌++◌, some, Bool, true, false,
  ◌&&◌, arith, ltb, ◌==◌, if◌then◌else◌, add32, uint_max, u32_mod, length, length-append, All,
  All-append, All-imp, lt→ltb,
}
use dorylus.Prelude.Map.{Map, find, insert, find-insert, nat_order}
use dorylus.Chunk.{PropType, forward, backward}
use dorylus.Engine.Scatter.Defs.{Message}
use dorylus.Engine.Scatter.Batches.{carried}
use dorylus.Engine.Scatter.Receive.{
  Ghosts, Receiver, update_ghosts, receive_values, try_signal, receive, receive_all,
}
use dorylus.Engine.Scatter.Rows.{IsInjective, RowIs, IsValue, Wrote, update_rows-Wrote}

length-acks :
    (a : Bool) (sender : ℕ) (acks : List ℕ)
    → length (if a then acks else acks ++ sender ∷ []) ≡ length acks + (if a then 0 else 1)
length-acks true sender acks = omega arith
length-acks false sender acks = length-append acks (sender ∷ [])

module _ {A : Type 0} where
  -- The ghosts of a direction.
  abbrev pub side : PropType → Receiver A → Ghosts A
  side forward r = r.src_ghosts
  side backward r = r.dst_ghosts

  record Quiet (r r' : Receiver A) : Type 0 where
    src : r'.src_ghosts ≡ r.src_ghosts
    dst : r'.dst_ghosts ≡ r.dst_ghosts
    cnt : r'.local_vtx_cnt ≡ r.local_vtx_cnt
    acks : r'.acks ≡ r.acks
    async : r'.async ≡ r.async

  try_signal-Quiet : (r : Receiver A) → Quiet r (try_signal r)
  unfolding try_signal
  try_signal-Quiet r = by_tests r.async (
      (r.recv_cnt == 0)
      && (r.ghost_vtcs_recvd == elim r.curr_dir as (λ x. ℕ) [
        | forward ↦ r.src_ghosts.cnt
        | backward ↦ r.dst_ghosts.cnt
      ]))
    where
      by_tests :
          (a c : Bool)
          → Quiet r (if a then r else if c then record r { signals = add32 r.signals 1 } else r)
      by_tests true c = record { src = refl; dst = refl; cnt = refl; acks = refl; async = refl }
      by_tests false true = record { src = refl; dst = refl; cnt = refl; acks = refl; async = refl }
      by_tests false false = record {
        src = refl;
        dst = refl;
        cnt = refl;
        acks = refl;
        async = refl;
      }

  -- What `receive_values` does beside the rows.
  record Acked (d : PropType) (g : Ghosts A) (r r' : Receiver A) : Type 0 where
    ghosts : side d r' ≡ g
    cnt : r'.local_vtx_cnt ≡ r.local_vtx_cnt
    async : r'.async ≡ r.async
    acks : length r'.acks ≡ length r.acks + (if r.async then 0 else 1)

  receive_values-Acked :
      (d : PropType) (m : Message A) (r : Receiver A) (g : Ghosts A)
      → m.dir ≡ d
      → update_ghosts r.local_vtx_cnt m (side d r) ≡ some g
      → (r' : Receiver A) × (receive_values m r ≡ some r') × Acked d g r r'
  unfolding receive_values update_ghosts add32
  receive_values-Acked forward m r g e u = (
    record r {
      acks = if r.async then r.acks else r.acks ++ m.sender ∷ [];
      ghost_vtcs_recvd = if r.async then r.ghost_vtcs_recvd else add32 r.ghost_vtcs_recvd m.topic;
      src_ghosts = g;
    },
    rw (e, u) refl,
    record { ghosts = refl; cnt = refl; async = refl; acks = length-acks r.async m.sender r.acks },
  )
  receive_values-Acked backward m r g e u = (
    record r {
      acks = if r.async then r.acks else r.acks ++ m.sender ∷ [];
      ghost_vtcs_recvd = if r.async then r.ghost_vtcs_recvd else add32 r.ghost_vtcs_recvd m.topic;
      dst_ghosts = g;
    },
    rw (e, u) refl,
    record { ghosts = refl; cnt = refl; async = refl; acks = length-acks r.async m.sender r.acks },
  )

  module _ (dir : PropType) (layer local_vtx_cnt n : ℕ) (ids : Map ℕ ℕ) where
    -- The receiver has the tensor of the ghosts.
    pub record IsReady (r : Receiver A) : Type 0 where
      pub cnt : r.local_vtx_cnt ≡ local_vtx_cnt
      pub known : (side dir r).ids ≡ ids
      pub tensor : List (List A)
      pub at : find layer (side dir r).tensors ≡ some tensor
      pub sized : length tensor ≡ n

    Quiet-IsReady :
        (r r' : Receiver A)
        → Quiet r r'
        → (v : IsReady r) → (w : IsReady r') × (w.tensor ≡ v.tensor)
    Quiet-IsReady r r' q v =
        let s = same_side dir in
        (
          record {
            cnt = q.cnt ∙ v.cnt;
            known = ap (λ g. g.ids) s ∙ v.known;
            tensor = v.tensor;
            at = ap (λ g. find layer g.tensors) s ∙ v.at;
            sized = v.sized;
          },
          refl,
        )
      where
        same_side : (d : PropType) → side d r' ≡ side d r
        same_side forward = q.src
        same_side backward = q.dst

    module _ (room : local_vtx_cnt + n < u32_mod) (inj : IsInjective ids) (value : ℕ → List A) where
      -- A message of ghost values for this layer and direction.
      pub record Fits (m : Message A) : Type 0 where
        pub dir_eq : m.dir ≡ dir
        pub layer_eq : m.layer ≡ layer
        pub no_ack : m.topic < uint_max - 1
        pub values : All (IsValue local_vtx_cnt n ids room inj value) m.vertices

      abbrev pub Written : List (ℕ × List A) → List (List A) → List (List A) → Type 0
      Written = Wrote local_vtx_cnt n ids room inj value

      update_ghosts-Wrote :
          (m : Message A) (g : Ghosts A) (t : List (List A))
          → Fits m
          → g.ids ≡ ids
          → find layer g.tensors ≡ some t
          → length t ≡ n
          → (g' : Ghosts A) × (t' : List (List A)) × (update_ghosts local_vtx_cnt m g ≡ some g')
            × (g'.ids ≡ ids)
            × (find layer g'.tensors ≡ some t')
            × Written m.vertices t t'
      unfolding update_ghosts
      update_ghosts-Wrote m g t f known at sized =
          let (t', p, w) =
            update_rows-Wrote local_vtx_cnt n ids room inj value m.vertices t f.values sized in
          (
            record g { ids = ids; tensors = insert m.layer t' g.tensors },
            t',
            rw (f.layer_eq, at, known, p) refl,
            refl,
            find-insert m.layer layer t' g.tensors ∙ ground (arith, f.layer_eq),
            w,
          )

      Wrote-trans :
          {us vs : List (ℕ × List A)} {t t1 t2 : List (List A)}
          → Written us t t1
          → Written vs t1 t2
          → Written (us ++ vs) t t2
      Wrote-trans {us} {vs} {t} {t1} {t2} a b = record {
        sized = b.sized ∙ a.sized;
        kept = λ k h. b.kept k (a.kept k h);
        written =
            All-append (λ v. RowIs local_vtx_cnt n ids t2 v.0 (value v.0)) us vs
              (All-imp (λ v h. b.kept v.0 h) us a.written) b.written;
      }

      receive-Written :
          (m : Message A) (r : Receiver A) (v : IsReady r)
          → Fits m
          → (r' : Receiver A) × (w : IsReady r') × (receive m r ≡ some r')
            × Written m.vertices v.tensor w.tensor
            × (r'.async ≡ r.async)
            × (length r'.acks ≡ length r.acks + (if r.async then 0 else 1))
      unfolding receive
      receive-Written m r v f =
          let (g, t, p, known, at, wrote) =
            update_ghosts-Wrote m (side dir r) v.tensor f v.known v.at v.sized in
          let (r1, q, a) =
            receive_values-Acked dir m r g f.dir_eq
              (ap (λ c. update_ghosts c m (side dir r)) v.cnt ∙ p) in
          let w : IsReady r1 = record {
            cnt = a.cnt ∙ v.cnt;
            known = ap (λ h. h.ids) a.ghosts ∙ known;
            tensor = t;
            at = ap (λ h. find layer h.tensors) a.ghosts ∙ at;
            sized = wrote.sized ∙ v.sized;
          } in
          let s = try_signal-Quiet r1 in
          let (x, y) = Quiet-IsReady r1 (try_signal r1) s w in
          let small : ltb m.topic (uint_max - 1) ≡ true = lt→ltb m.topic (uint_max - 1) f.no_ack in
          (
            try_signal r1,
            x,
            rw (small, q) refl,
            subst (Written m.vertices v.tensor) (sym y) wrote,
            s.async ∙ a.async,
            ap length s.acks ∙ a.acks,
          )

      -- As many acknowledgements as messages, if the engine waits for them.
      abbrev pub acks_for : Bool → List (Message A) → ℕ
      acks_for async ms = if async then 0 else length ms

      -- For a receiver that has the tensor of a layer and a direction, whose ghosts have different local
      -- ids behind those of the local vertices and in the tensor, and messages for that layer and
      -- direction that carry known ghosts, and agree on the row of each: no message faults,
      -- afterwards the tensor has the row of every vertex that the messages carry, the rows of the
      -- other ghosts that had their value keep it, and a synchronous receiver has acknowledged each
      -- message.
      pub receive_all-Written :
          (ms : List (Message A)) (r : Receiver A) (v : IsReady r)
          → All Fits ms
          → (r' : Receiver A) × (w : IsReady r') × (receive_all ms r ≡ some r')
            × Written (carried ms) v.tensor w.tensor
            × (r'.async ≡ r.async)
            × (length r'.acks ≡ length r.acks + acks_for r.async ms)
      unfolding receive_all
      receive_all-Written [] r v a =
          (r, v, refl, record { sized = refl; kept = λ k h. h; written = tt }, refl, ground arith)
      receive_all-Written (m ∷ ms) r v a =
          let (r1, v1, p, w1, s1, n1) = receive-Written m r v a.0 in
          let (r2, v2, q, w2, s2, n2) = receive_all-Written ms r1 v1 a.1 in
          (r2, v2, rw p q, Wrote-trans w1 w2, s2 ∙ s1, ground (arith, n1, n2, s1))
