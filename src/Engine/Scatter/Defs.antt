-- ===== src/Engine/Scatter/Defs.antt =====
-- The sending side: `scatterGCN`, `scatterGAT` and `verticesPushOut`. A tensor is the list of its rows,
-- and `getVtxFeat` the row of a vertex; a read outside is a fault.
use dorylus.Prelude.{
  ℕ, zero, suc, ◌+◌, ◌*◌, ◌-◌, ◌/◌, List, [], ◌∷◌, ◌++◌, Option, none, some, Bool, ltb, ◌==◌,
  if◌then◌else◌, add32, sub32, length, get_elem?, set, take, drop, replicate, ◌>>=◌,
}
use dorylus.Prelude.Map.{Map, find, nat_order}
use dorylus.Chunk.{PropType, forward, backward, Chunk}

-- A message of `verticesPushOut`: the header, and the global id and the row of each vertex.
pub record Message (A : Type 0) : Type 0 where
  pub receiver : ℕ
  pub sender : ℕ
  pub topic : ℕ
  pub feat_dim : ℕ
  pub layer : ℕ
  pub dir : PropType
  pub vertices : List (ℕ × List A)

-- The members of `Engine` that a scatter reads.
pub record Sender : Type 0 where
  pub node_id : ℕ
  pub num_nodes : ℕ
  pub is_gcn : Bool
  pub async : Bool
  pub local_to_global_id : List ℕ
  pub forward_ghost_map : Map ℕ (List ℕ)
  pub backward_ghost_map : Map ℕ (List ℕ)

-- `MAX_MSG_SIZE` and `DATA_HEADER_SIZE`.
abbrev pub max_msg_size : ℕ
max_msg_size = 1048576

abbrev pub data_header_size : ℕ
data_header_size = 28

-- `BATCH_SIZE`; an `unsigned` and a `FeatType` have four bytes.
unfoldable pub batch_size : ℕ → ℕ
batch_size feat_dim =
    let n = (max_msg_size - data_header_size) / (4 + 4 * feat_dim) in if ltb n 1 then 1 else n

-- `batchedIds[nid].push_back(lvid)`; a bucket that is not there is a fault.
unfoldable pub push_id : ℕ → ℕ → List (List ℕ) → Option (List (List ℕ))
push_id nid lvid buckets =
    get_elem? buckets nid >>= λ ids. some (set buckets nid (ids ++ lvid ∷ []))

unfoldable pub push_to_all : List ℕ → ℕ → List (List ℕ) → Option (List (List ℕ))
push_to_all [] lvid buckets = some buckets
push_to_all (nid ∷ nids) lvid buckets = push_id nid lvid buckets >>= λ bs. push_to_all nids lvid bs

-- `ghostMap[lvid]`, empty for a vertex that is not there.
unfoldable pub dests_of : Map ℕ (List ℕ) → ℕ → List ℕ
dests_of ghosts lvid = elim (find lvid ghosts) [ none ↦ [] | some nids ↦ nids ]

-- The `n` vertices from `lvid` on.
unfoldable pub fill_buckets : Map ℕ (List ℕ) → ℕ → ℕ → List (List ℕ) → Option (List (List ℕ))
fill_buckets ghosts zero lvid buckets = some buckets
fill_buckets ghosts (suc n) lvid buckets =
    push_to_all (dests_of ghosts lvid) lvid buckets >>= λ bs. fill_buckets ghosts n (lvid + 1) bs

-- The layer whose ghosts get the message; for a GAT it is the layer before in both directions.
unfoldable pub feat_layer : Sender → Chunk → ℕ
feat_layer e c =
    if e.is_gcn
    then elim c.dir [ forward ↦ c.layer | backward ↦ sub32 c.layer 1 ]
    else sub32 c.layer 1

module _ {A : Type 0} where
  unfoldable pub vertex_at : Sender → List (List A) → ℕ → Option (ℕ × List A)
  vertex_at e tensor lvid = do
    gvid ← get_elem? e.local_to_global_id lvid
    row ← get_elem? tensor lvid
    some (gvid, row)

  unfoldable pub vertices_at : Sender → List (List A) → List ℕ → Option (List (ℕ × List A))
  vertices_at e tensor [] = some []
  vertices_at e tensor (lvid ∷ lvids) = do
    v ← vertex_at e tensor lvid
    vs ← vertices_at e tensor lvids
    some (v ∷ vs)

  unfoldable pub vertices_push_out :
      Sender → ℕ → List ℕ → List (List A) → ℕ → Chunk → Option (Message A)
  vertices_push_out e receiver lvids tensor feat_dim c = do
    vs ← vertices_at e tensor lvids
    some (record {
      receiver = receiver;
      sender = e.node_id;
      topic = length lvids;
      feat_dim = feat_dim;
      layer = feat_layer e c;
      dir = c.dir;
      vertices = vs;
    })

  -- The loop over the batches of a node, from `ib` on; it runs at most once for each vertex.
  unfoldable pub send_batches :
      Sender → ℕ → List ℕ → List (List A) → ℕ → Chunk → ℕ → ℕ → Option (List (Message A))
  send_batches e nid ids tensor feat_dim c zero ib = some []
  send_batches e nid ids tensor feat_dim c (suc fuel) ib =
      let ghost_v_cnt = length ids in
      let rest = λ (i : ℕ). send_batches e nid ids tensor feat_dim c fuel i in
      if ltb ib ghost_v_cnt
      then (do
        let size =
            if ltb (ghost_v_cnt - ib) (batch_size feat_dim)
            then ghost_v_cnt - ib
            else batch_size feat_dim
        m ← vertices_push_out e nid (take size (drop ib ids)) tensor feat_dim c
        ms ← rest (add32 ib (batch_size feat_dim))
        some (m ∷ ms))
      else some []

  -- The loop over the nodes from `nid` on, but for the own one.
  unfoldable pub send_buckets :
      Sender → List (List A) → ℕ → Chunk → ℕ → List (List ℕ) → Option (List (Message A))
  send_buckets e tensor feat_dim c nid [] = some []
  send_buckets e tensor feat_dim c nid (ids ∷ buckets) = do
    ms ←
        if nid == e.node_id
        then some []
        else send_batches e nid ids tensor feat_dim c (length ids) 0
    rest ← send_buckets e tensor feat_dim c (nid + 1) buckets
    some (ms ++ rest)

  -- The messages, and `recvCnt` after them; `tensor` is the output of the layer, `h` or `z`, or its
  -- gradient.
  unfoldable pub scatter_gcn :
      Sender → List (List A) → ℕ → Chunk → ℕ → Option (List (Message A) × ℕ)
  scatter_gcn e tensor feat_dim c recv_cnt = do
    let ghosts : Map ℕ (List ℕ) = elim c.dir [
      | forward ↦ e.forward_ghost_map
      | backward ↦ e.backward_ghost_map
    ]
    buckets ← fill_buckets ghosts (c.up_bound - c.low_bound) c.low_bound (replicate e.num_nodes [])
    ms ← send_buckets e tensor feat_dim c 0 buckets
    some (ms, if e.async then recv_cnt else add32 recv_cnt (length ms))

  -- `scatterGAT` differs in the tensor only.
  unfoldable pub scatter_gat :
      Sender → List (List A) → ℕ → Chunk → ℕ → Option (List (Message A) × ℕ)
  scatter_gat e tensor feat_dim c recv_cnt = scatter_gcn e tensor feat_dim c recv_cnt
