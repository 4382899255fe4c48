-- ===== src/Server/Updates/Defs.antt =====
-- How a weight server exchanges updates: the requests that its workers handle (serverworker.cpp), and
-- `applyUpdate` and `receiver` of weightserver.cpp. What is published is returned. Each call of the
-- tensor's methods is a function; Server.Updates.Threads lets other threads come between them. Each
-- tensor has its arrays in a heap of its own, since no two tensors share one; the names of tensors
-- are keys of some order. A worker that published an update goes on once `must_wait_acks` is false;
-- it changes nothing until then. `adam` is true in the constructor.
use Prim.Native.String.{String}
use dorylus.Prelude.{
  ℕ, List, [], ◌∷◌, Bool, not, ◌&&◌, Option, none, some, ltb, ◌==◌, if◌then◌else◌, ◌>>=◌, add32,
  sub32, mul32, map, get_elem?, set,
}
use dorylus.Prelude.Map.{Map, Order, find, insert}
use dorylus.Chunk.{Chunk, is_forward}
use dorylus.Weights.Float.{Float}
use dorylus.Weights.Heap.{Heap, Matrix, num_elemts, load, copy_n}
use dorylus.Weights.Adam.{Adam}
use dorylus.Weights.Tensor.{
  WeightTensor, sgd, adam, get_mat, dec_ref, local_update, ghost_update, try_apply_update,
  set_local_upd_tot, set_ghost_upd_tot,
}

pub data Gnn : Type 0 where
  gcn gat : Gnn

-- The members of `WeightServer` that the updates use. `ack_cnt` is an `int`, by its bits.
pub record UpdateServer (K A : Type 0) : Type 0 where
  pub gnn_type : Gnn
  pub sync : Bool
  pub block : Bool
  pub epoch : ℕ
  pub num_node : ℕ
  pub num_lambdas : ℕ
  pub ack_cnt : ℕ
  pub adam_opt : Adam A
  pub weights_store : List (Map K (WeightTensor × Heap A))

-- What the server publishes: an update, to every other server, or an acknowledgement to one.
pub data Publication (K A : Type 0) : Type 0 where
  update_msg : ℕ → K → List A → Publication K A
  ack_msg : ℕ → Publication K A

-- What a lambda gets for a name: a tensor's name, size and data, or the error header.
pub data Reply (K A : Type 0) : Type 0 where
  tensor_msg : String → ℕ → ℕ → List A → Reply K A
  error_msg : K → Reply K A

-- The layer of the weights that a chunk uses.
unfoldable pub weights_layer : Chunk → ℕ
weights_layer c = if c.vertex then c.layer else sub32 c.layer 1

-- Both branches of `tryApplyUpdateFake`, which reports an update.
unfoldable pub try_apply_update_fake : WeightTensor → WeightTensor
try_apply_update_fake w = record w { local_upd_cnt = 0; ghost_upd_cnt = 0 }

module _ {K A : Type 0} where
  unfoldable pub must_wait_acks : UpdateServer K A → Bool
  must_wait_acks s = not (s.ack_cnt == 0)

  -- The loop at the head of `sendTensors` goes on.
  unfoldable pub must_wait_epoch : Chunk → UpdateServer K A → Bool
  must_wait_epoch c s = s.block && (is_forward c.dir && ltb s.epoch (mul32 c.epoch 2))

  -- The branch `topic == CTRL_MSG::ACK` of `receiver`.
  unfoldable pub count_ack : UpdateServer K A → UpdateServer K A
  count_ack s = record s { ack_cnt = sub32 s.ack_cnt 1 }

  abbrev each_tensor :
      (WeightTensor → WeightTensor) → Map K (WeightTensor × Heap A) → Map K (WeightTensor × Heap A)
  each_tensor g = map (λ (e : K × (WeightTensor × Heap A)). (e.0, (g e.1.0, e.1.1)))

  unfoldable pub set_local_upd_tots : ℕ → UpdateServer K A → UpdateServer K A
  set_local_upd_tots n s = record s {
    num_lambdas = n;
    weights_store = map (each_tensor (set_local_upd_tot n)) s.weights_store;
  }

  unfoldable pub set_ghost_upd_tots : ℕ → UpdateServer K A → UpdateServer K A
  set_ghost_upd_tots n s = record s {
    weights_store = map (each_tensor (set_ghost_upd_tot n)) s.weights_store;
  }

module _ {K A : Type 0} ⦃o : Order K⦄ where
  -- `weightsStore[layer][name]`; where there is none, the map would make a tensor of uninitialised
  -- members, and that is a fault.
  unfoldable pub tensor_at : ℕ → K → UpdateServer K A → Option (WeightTensor × Heap A)
  tensor_at layer name s = do m ← get_elem? s.weights_store layer; find name m

  unfoldable pub put_tensor :
      ℕ → K → WeightTensor × Heap A → UpdateServer K A → Option (UpdateServer K A)
  put_tensor layer name x s = do
    m ← get_elem? s.weights_store layer
    some (record s { weights_store = set s.weights_store layer (insert name x m) })

  module _ ⦃f : Float A⦄ where
    -- A call of `tryApplyUpdate`, and the count of the updates that were applied.
    unfoldable pub try_tensor :
        ℕ → K → Option (List A) → UpdateServer K A → Option (UpdateServer K A)
    try_tensor layer name upd s = do
      x ← tensor_at layer name s
      r ← try_apply_update (adam s.adam_opt layer) upd x.0 x.1
      s' ← put_tensor layer name (r.2, r.3) s
      some (record s' {
        epoch = if r.0 then add32 s'.epoch 1 else s'.epoch;
        adam_opt = elim r.1 [ sgd lr ↦ s'.adam_opt | adam opt l ↦ opt ];
      })

    -- `applyUpdate` up to what it publishes. Its `memcpy` of `localUpdMat` holds no mutex.
    unfoldable pub publish_update :
        ℕ → K → UpdateServer K A → Option (UpdateServer K A × List (Publication K A))
    publish_update layer name s = do
      x ← tensor_at layer name s
      ls ← load x.0.local_upd_mat x.1
      upd ← copy_n (num_elemts x.0.local_upd_mat) ls
      some (
        record s { ack_cnt = add32 s.ack_cnt (sub32 s.num_node 1) },
        update_msg layer name upd ∷ [],
      )

    -- Its call of `tryApplyUpdate` or of `tryApplyUpdateFake`.
    unfoldable pub try_own : ℕ → K → UpdateServer K A → Option (UpdateServer K A)
    try_own layer name s = elim s.gnn_type [
      | gcn ↦ try_tensor layer name none s
      | gat ↦ do
        x ← tensor_at layer name s
        s' ← put_tensor layer name (try_apply_update_fake x.0, x.1) s
        some (record s' { epoch = add32 s'.epoch 1 })
    ]

    -- `applyUpdate`, up to its wait.
    unfoldable pub apply_update :
        ℕ → K → UpdateServer K A → Option (UpdateServer K A × List (Publication K A))
    apply_update layer name s = do
      p ← publish_update layer name s
      s' ← try_own layer name p.0
      some (s', p.1)

    -- The call of `decRef`.
    unfoldable pub release_tensor : ℕ → K → Chunk → UpdateServer K A → Option (UpdateServer K A)
    release_tensor layer name chunk s = do
      x ← tensor_at layer name s
      d ← dec_ref chunk x.0 x.1
      put_tensor layer name d s

    -- The call of `localUpdate`; the flag says that `localUpdTot` is the count that comes back.
    unfoldable pub add_local : ℕ → K → List A → UpdateServer K A → Option (Bool × UpdateServer K A)
    add_local layer name upd s = do
      x ← tensor_at layer name s
      l ← local_update upd x.0 x.1
      s' ← put_tensor layer name l s
      some (l.0.local_upd_tot == l.0.local_upd_cnt, s')

    -- `recvUpdateTensor`, if no other thread comes between its calls: a name that is not there is only
    -- reported.
    unfoldable pub recv_update_tensor :
        Chunk → K → List A → UpdateServer K A → Option (UpdateServer K A × List (Publication K A))
    recv_update_tensor chunk name upd s = do
      let layer = weights_layer chunk
      m ← get_elem? s.weights_store layer
      elim (find name m) [
        | none ↦ some (s, [])
        | some x ↦ do
          s1 ← release_tensor layer name chunk s
          r ← add_local layer name upd s1
          if r.0 then apply_update layer name r.1 else some (r.1, [])
      ]

    -- The call of `ghostUpdate`; the flag says that the count that comes back is `numNode - 1`.
    unfoldable pub add_ghost : ℕ → K → List A → UpdateServer K A → Option (Bool × UpdateServer K A)
    add_ghost layer name upd s = do
      x ← tensor_at layer name s
      g ← ghost_update upd x.0 x.1
      s' ← put_tensor layer name g s
      some (g.0.ghost_upd_cnt == sub32 s.num_node 1, s')

    -- The branch `if (sync)` of `receiver`, if no other thread comes between its calls.
    unfoldable pub collect_ghost : ℕ → K → List A → UpdateServer K A → Option (UpdateServer K A)
    collect_ghost layer name upd s = do
      r ← add_ghost layer name upd s
      if r.0 then try_tensor layer name none r.1 else some r.1

    -- The branch `topic == CTRL_MSG::DATA` of `receiver`.
    unfoldable pub receive_data :
        ℕ → ℕ → K → List A → UpdateServer K A → Option (UpdateServer K A × List (Publication K A))
    receive_data sender layer name upd s = do
      s' ← (if s.sync then collect_ghost layer name upd s else try_tensor layer name (some upd) s)
      some (s', ack_msg sender ∷ [])

  -- `sendTensor`, after its `getMat`.
  unfoldable pub send_tensor : Matrix → Heap A → Option (Reply K A)
  send_tensor m h = do
    xs ← load m h
    ys ← copy_n (num_elemts m) xs
    some (tensor_msg m.name m.rows m.cols ys)

  -- The loop of `sendTensors` over the names of a request. It returns at the first that is not there.
  unfoldable pub send_tensors :
      Chunk → List K → UpdateServer K A → Option (UpdateServer K A × List (Reply K A))
  send_tensors chunk [] s = some (s, [])
  send_tensors chunk (name ∷ names) s = do
    let layer = weights_layer chunk
    m ← get_elem? s.weights_store layer
    elim (find name m) [
      | none ↦ some (s, error_msg name ∷ [])
      | some x ↦ do
        g ← get_mat chunk x.0
        reply ← send_tensor g.0 x.1
        s1 ← put_tensor layer name (g.1, x.1) s
        r ← send_tensors chunk names s1
        some (r.0, reply ∷ r.1)
    ]
