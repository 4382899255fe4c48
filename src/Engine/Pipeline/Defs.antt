-- ===== src/Engine/Pipeline/Defs.antt =====
-- One turn of each work function of the engine, and the callback for a chunk that a lambda has
-- finished. The tensors are left out, and so is the barrier of the scatter phase that only the
-- builds without lambdas have. The other nodes' messages, and what a scatter sends, are arguments.
use dorylus.Prelude.{
  ℕ, zero, suc, ◌%◌, List, [], ◌∷◌, Option, none, some, true, false, not, ◌&&◌, ◌||◌, ltb, ◌==◌,
  if◌then◌else◌, ◌>>=◌, add32, length, get_elem?, set,
}
use dorylus.Chunk.{Chunk, PropType, backward, is_forward, chunk_lt}
use dorylus.NodeManager.Message.{NodeMessage}
use dorylus.NodeManager.{
  NodeManager, fault, waits, returns, read_epoch_updates, send_epoch_update, barrier,
}
use dorylus.Engine.Layers.{get_abs_layer, inc_layer_gcn, inc_layer_gat, engine_last_layer}
use dorylus.Engine.Schedule.{Pipeline, Nodes, gathers, applies_vertex, turn}

-- The queue of the scheduler, and what it shares with the other threads, is in `scheduler`. The
-- chunks that were given to `NNCompute`, and whose callback has not come, are in `computing`.
pub record Engine : Type 0 where
  pub scheduler : Pipeline
  pub node_manager : NodeManager
  pub num_layers : ℕ
  pub src_ghost_cnt : ℕ
  pub dst_ghost_cnt : ℕ
  pub layer : ℕ
  pub curr_dir : PropType
  pub num_finished_epoch : List ℕ
  pub ga_queue : List Chunk
  pub av_queue : List Chunk
  pub sc_queue : List Chunk
  pub sc_stash_queue : List Chunk
  pub ae_queue : List Chunk
  pub computing : List Chunk

-- A queue has its top first; the top is a greatest chunk by `operator<`.
unfoldable pub push : Chunk → List Chunk → List Chunk
push c [] = c ∷ []
push c (d ∷ q) = if chunk_lt d c then c ∷ d ∷ q else d ∷ push c q

unfoldable pub schedule_work : Nodes → ℕ → Engine → Engine
schedule_work nodes tid e =
    let (s, o) = turn nodes tid e.scheduler in
    let e1 = record e { scheduler = s } in
    elim o [
      | gathers c ↦ record e1 { ga_queue = push c e.ga_queue }
      | applies_vertex c ↦ record e1 { av_queue = push c e.av_queue }
      | _ ↦ e1
    ]

unfoldable pub gather_chunk : Chunk → Engine → Engine
gather_chunk c e =
    if e.scheduler.is_gcn
    then record e { av_queue = push c e.av_queue }
    else if is_forward c.dir && (c.layer == e.num_layers)
    then record e { sc_queue = push (record c { dir = backward }) e.sc_queue }
    else record e { av_queue = push c e.av_queue }

unfoldable pub gather_work : Engine → Engine
gather_work e = elim e.ga_queue [
  | [] ↦ e
  | c ∷ rest ↦ gather_chunk c (record e { ga_queue = rest })
]

-- `incLayerGCN` or `incLayerGAT`.
unfoldable pub inc_layer : Chunk → Engine → Chunk
inc_layer c e = if e.scheduler.is_gcn then inc_layer_gcn e.num_layers c else inc_layer_gat c

-- `applyVertexGCN` and `applyVertexGAT`.
unfoldable pub apply_vertex : Chunk → Engine → Engine
apply_vertex c e =
    let c1 = record c { vertex = true } in
    let next = if is_forward c.dir then c1 else inc_layer c1 e in
    record e { computing = next ∷ e.computing }

unfoldable pub apply_vertex_work : Engine → Engine
apply_vertex_work e = elim e.av_queue [
  | [] ↦ e
  | c ∷ rest ↦ apply_vertex c (record e { av_queue = rest })
]

-- `while (!SCStashQueue.empty())`.
unfoldable pub unstash : List Chunk → List Chunk → List Chunk
unstash [] ae = ae
unstash (c ∷ stash) ae = unstash stash (push c ae)

unfoldable pub total_ghost_cnt : Engine → ℕ
total_ghost_cnt e = if is_forward e.curr_dir then e.src_ghost_cnt else e.dst_ghost_cnt

-- All chunks have scattered: the barrier, and then their edges are applied. `none` if the thread
-- waits, for the ghosts or at the barrier.
unfoldable pub release : List NodeMessage → Engine → Option Engine
release ms e =
    let s = e.scheduler in
    if ltb 0 s.recv_cnt || not (s.ghost_vtcs_recvd == total_ghost_cnt e)
    then none
    else elim (barrier ms e.node_manager) [
      | fault ↦ none
      | waits p ↦ none
      | returns _ p rest ↦ some (record e {
        node_manager = p;
        scheduler = record s { recv_cnt = 0; ghost_vtcs_recvd = 0 };
        ae_queue = unstash e.sc_stash_queue e.ae_queue;
        sc_stash_queue = [];
      })
    ]

-- A chunk is scattered, in `batches c` messages that are to be acknowledged.
unfoldable pub scatter_chunk : (Chunk → ℕ) → Chunk → Engine → Engine
scatter_chunk batches c e =
    let s = e.scheduler in
    let abs_layer = get_abs_layer e.num_layers c in
    let e1 = if abs_layer == e.layer then e else record e { layer = abs_layer; curr_dir = c.dir } in
    let e2 =
      if s.async
      then e1
      else record e1 { scheduler = record s { recv_cnt = add32 s.recv_cnt (batches c) } } in
    if not s.async || (c.epoch == 1)
    then record e2 { sc_stash_queue = push c e.sc_stash_queue }
    else record e2 { ae_queue = push c e.ae_queue }

unfoldable pub scatter_top : (Chunk → ℕ) → Engine → Engine
scatter_top batches e = elim e.sc_queue [
  | [] ↦ e
  | c ∷ rest ↦ scatter_chunk batches c (record e { sc_queue = rest })
]

unfoldable pub scatter_work : (Chunk → ℕ) → ℕ → List NodeMessage → Engine → Option Engine
scatter_work batches tid ms e =
    if length e.sc_stash_queue == e.scheduler.num_lambdas
    then (if tid == 0 then (release ms e >>= λ e'. some (scatter_top batches e')) else some e)
    else some (scatter_top batches e)

-- `applyEdgeGCN` and `applyEdgeGAT`.
unfoldable pub apply_edge : Chunk → Engine → Engine
apply_edge c e =
    let c1 = record c { vertex = false } in
    if e.scheduler.is_gcn
    then record e { ga_queue = push c1 e.ga_queue }
    else record e { computing = c1 ∷ e.computing }

unfoldable pub apply_edge_work : Engine → Engine
apply_edge_work e = elim e.ae_queue [
  | [] ↦ e
  | c ∷ rest ↦ apply_edge c (record e { ae_queue = rest })
]

-- All chunks have finished the epoch: the node tells the others. `minEpoch` belongs to the scheduler
-- too.
unfoldable pub finish_epoch : List NodeMessage → ℕ → Engine → Option Engine
finish_epoch ms epoch e = do
  let s = e.scheduler
  p1 ← read_epoch_updates ms (record e.node_manager { min_epoch = s.min_epoch })
  p2 ← send_epoch_update epoch p1
  some (record e { node_manager = p2; scheduler = record s { min_epoch = p2.min_epoch } })

-- A chunk has finished its epoch.
unfoldable pub finish_chunk : List NodeMessage → Chunk → Engine → Option Engine
finish_chunk ms c e =
    let s = e.scheduler in
    let ind = c.epoch % add32 s.staleness 1 in
    if not s.async
    then some e
    else (get_elem? e.num_finished_epoch ind >>= λ n.
        if add32 n 1 == s.num_lambdas
        then finish_epoch ms c.epoch
            (record e { num_finished_epoch = set e.num_finished_epoch ind 0 })
        else some (record e { num_finished_epoch = set e.num_finished_epoch ind (add32 n 1) }))

unfoldable pub recv_vertex : List NodeMessage → Chunk → Engine → Option Engine
recv_vertex ms c e =
    if engine_last_layer c
    then (do
      e1 ← finish_chunk ms c e
      some (record e1 {
        scheduler = record e1.scheduler { queue = push (inc_layer c e1) e1.scheduler.queue };
      }))
    else if is_forward c.dir
    then some (record e { sc_queue = push (inc_layer c e) e.sc_queue })
    else some (record e { sc_queue = push c e.sc_queue })

-- `NNRecvCallbackGCN` and `NNRecvCallbackGAT`.
unfoldable pub nn_recv_callback : List NodeMessage → Chunk → Engine → Option Engine
nn_recv_callback ms c e =
    if not e.scheduler.is_gcn && not c.vertex
    then some (record e { ga_queue = push c e.ga_queue })
    else recv_vertex ms c e

-- The `i`-th of the chunks that lambdas compute has come back.
unfoldable pub remove_at : ℕ → List Chunk → Option (Chunk × List Chunk)
remove_at i [] = none
remove_at zero (c ∷ cs) = some (c, cs)
remove_at (suc i) (c ∷ cs) = do r ← remove_at i cs; some (r.0, c ∷ r.1)

unfoldable pub receive : ℕ → List NodeMessage → Engine → Option Engine
receive i ms e =
    remove_at i e.computing >>= λ r. nn_recv_callback ms r.0 (record e { computing = r.1 })
