-- ===== src/Engine/Scatter/Receive.antt =====
-- The receiving side: one turn of `ghostReceiverGCN`. A counter is an `int` that wraps, so that it is 0
-- exactly when the word is. A message has as many vertices as its topic says. `savedNNTensors[layer]` without the tensor has no rows.
use dorylus.Prelude.{
  ℕ, ◌-◌, List, [], ◌∷◌, ◌++◌, Option, none, some, Bool, ◌&&◌, ltb, ◌==◌, if◌then◌else◌, add32,
  sub32, uint_max, length, set, ◌>>=◌,
}
use dorylus.Prelude.Map.{Map, find, insert, nat_order, index_map}
use dorylus.Chunk.{PropType, forward, backward}
use dorylus.Engine.Scatter.Defs.{Message}

-- The ghosts of one direction: their local ids, their number, and their tensors by layer.
pub record Ghosts (A : Type 0) : Type 0 where
  pub ids : Map ℕ ℕ
  pub cnt : ℕ
  pub tensors : Map ℕ (List (List A))

-- The members of `Engine` that the receiver uses, with what it has sent and signalled.
pub record Receiver (A : Type 0) : Type 0 where
  pub local_vtx_cnt : ℕ
  pub async : Bool
  pub curr_dir : PropType
  pub src_ghosts : Ghosts A
  pub dst_ghosts : Ghosts A
  pub recv_cnt : ℕ
  pub ghost_vtcs_recvd : ℕ
  pub acks : List ℕ
  pub signals : ℕ

module _ {A : Type 0} where
  -- A row outside the tensor is a fault.
  unfoldable pub write_row : ℕ → List A → List (List A) → Option (List (List A))
  write_row i row tensor = if ltb i (length tensor) then some (set tensor i row) else none

  unfoldable pub update_rows :
      ℕ → List (ℕ × List A) → Map ℕ ℕ → List (List A) → Option (Map ℕ ℕ × List (List A))
  update_rows local_vtx_cnt [] ids tensor = some (ids, tensor)
  update_rows local_vtx_cnt ((gvid, row) ∷ vs) ids tensor = do
    let (l, ids') = index_map gvid ids
    tensor' ← write_row (sub32 l local_vtx_cnt) row tensor
    update_rows local_vtx_cnt vs ids' tensor'

  unfoldable pub update_ghosts : ℕ → Message A → Ghosts A → Option (Ghosts A)
  update_ghosts local_vtx_cnt m g = do
    let tensor : List (List A) = elim (find m.layer g.tensors) [ none ↦ [] | some t ↦ t ]
    (ids, tensor') ← update_rows local_vtx_cnt m.vertices g.ids tensor
    some (record g { ids = ids; tensors = insert m.layer tensor' g.tensors })

  -- A broadcast of ghost values.
  unfoldable pub receive_values : Message A → Receiver A → Option (Receiver A)
  receive_values m r = do
    let acks = if r.async then r.acks else r.acks ++ m.sender ∷ []
    let recvd = if r.async then r.ghost_vtcs_recvd else add32 r.ghost_vtcs_recvd m.topic
    elim m.dir [
      | forward ↦ (do
        g ← update_ghosts r.local_vtx_cnt m r.src_ghosts
        some (record r { acks = acks; ghost_vtcs_recvd = recvd; src_ghosts = g }))
      | backward ↦ (do
        g ← update_ghosts r.local_vtx_cnt m r.dst_ghosts
        some (record r { acks = acks; ghost_vtcs_recvd = recvd; dst_ghosts = g }))
    ]

  -- A response to a broadcast.
  unfoldable pub receive_ack : Receiver A → Receiver A
  receive_ack r = record r { recv_cnt = if r.async then r.recv_cnt else sub32 r.recv_cnt 1 }

  -- The waiting worker gets a signal when no answer and no ghost is missing.
  unfoldable pub try_signal : Receiver A → Receiver A
  try_signal r =
      let total_ghost_cnt : ℕ = elim r.curr_dir [
        | forward ↦ r.src_ghosts.cnt
        | backward ↦ r.dst_ghosts.cnt
      ] in
      let complete = (r.recv_cnt == 0) && (r.ghost_vtcs_recvd == total_ghost_cnt) in
      if r.async then r else if complete then record r { signals = add32 r.signals 1 } else r

  unfoldable pub receive : Message A → Receiver A → Option (Receiver A)
  receive m r = do
    r' ← if ltb m.topic (uint_max - 1) then receive_values m r else some (receive_ack r)
    some (try_signal r')

  unfoldable pub receive_all : List (Message A) → Receiver A → Option (Receiver A)
  receive_all [] r = some r
  receive_all (m ∷ ms) r = receive m r >>= λ r'. receive_all ms r'
