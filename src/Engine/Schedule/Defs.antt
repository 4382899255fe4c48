-- ===== src/Engine/Schedule/Defs.antt =====
-- One turn of the loop of `scheduleAsyncFunc`, from its lock of the queue to `continue`, `break` or
-- its end. Times and the log are left out.
use dorylus.Prelude.{
  ℕ, ◌+◌, List, [], ◌∷◌, Bool, true, false, not, ◌&&◌, ◌||◌, ltb, leb, ◌==◌, if◌then◌else◌, add32,
  length, uint_max,
}
use dorylus.Chunk.{Chunk}
use dorylus.Server.Report.{Converge, early, done}

-- `START_EPOCH`.
abbrev pub start_epoch : ℕ
start_epoch = 0

abbrev pub is_done : Converge → Bool
is_done done = true
is_done _ = false

abbrev pub is_early : Converge → Bool
is_early early = true
is_early _ = false

-- The members of `Engine` that the scheduler uses, and its local `block`. The queue has its top
-- first. `is_gcn` says that `gnn_type` is `GCN`; it is `GAT` otherwise.
pub record Pipeline : Type 0 where
  pub curr_epoch : ℕ
  pub min_epoch : ℕ
  pub max_epoch : ℕ
  pub num_epochs : ℕ
  pub num_lambdas : ℕ
  pub staleness : ℕ
  pub converge_state : Converge
  pub async : Bool
  pub block : Bool
  pub halt : Bool
  pub mode_lambda : Bool
  pub pipeline : Bool
  pub is_gcn : Bool
  pub num_async_epochs : ℕ
  pub num_sync_epochs : ℕ
  pub recv_cnt : ℕ
  pub ghost_vtcs_recvd : ℕ
  pub queue : List Chunk

-- What the other nodes answer: `syncCurrEpoch`, and `minEpoch` after `readEpochUpdates`.
pub record Nodes : Type 0 where
  pub sync_curr_epoch : ℕ → ℕ
  pub read_epoch_updates : ℕ → ℕ

pub data Outcome : Type 0 where
  sleeps turns halts : Outcome
  gathers applies_vertex : Chunk → Outcome

-- The chunk goes to `GAQueue` or `AVQueue`.
unfoldable pub send : Chunk → Pipeline → Outcome
send c p = if p.is_gcn then gathers c else applies_vertex c

-- (4.2) and (5): a new epoch starts.
unfoldable pub start : Chunk → List Chunk → Pipeline → Pipeline × Outcome
start c rest p =
    let p1 = if not p.async && leb p.min_epoch p.curr_epoch then record p { block = true } else p in
    let p2 =
      if p.curr_epoch == start_epoch
      then record p1 { max_epoch = 0; async = false; block = true }
      else if p.curr_epoch == start_epoch + 1
      then record p1 {
        min_epoch = add32 p.min_epoch 1;
        async = p.mode_lambda && (p.pipeline && not (p.staleness == uint_max));
      }
      else p1 in
    (
      record p2 {
        num_async_epochs = if p2.async then add32 p.num_async_epochs 1 else p.num_async_epochs;
        num_sync_epochs = if p2.async then p.num_sync_epochs else add32 p.num_sync_epochs 1;
        curr_epoch = add32 p.curr_epoch 1;
        queue = rest;
      },
      send c p,
    )

-- (3) and (4.1): bounded staleness, and the barrier of the synchronous mode.
unfoldable pub admit : Nodes → ℕ → Chunk → List Chunk → Pipeline → Pipeline × Outcome
admit nodes tid c rest p =
    if p.async && ltb (add32 p.min_epoch p.staleness) c.epoch
    then (let m = nodes.read_epoch_updates p.min_epoch in
        (record p { min_epoch = m }, if ltb (add32 m p.staleness) c.epoch then sleeps else turns))
    else if not p.async && p.block
    then (if (tid == 0) && (length p.queue == p.num_lambdas)
        then (record p { block = false }, turns)
        else (p, sleeps))
    else start c rest p

-- (2): the switch to the synchronous mode.
unfoldable pub switch : Nodes → ℕ → Chunk → List Chunk → Pipeline → Pipeline × Outcome
switch nodes tid c rest p =
    if p.async && not (is_early p.converge_state)
    then (if p.max_epoch == 0
        then (if tid == 0
            then (record p { max_epoch = nodes.sync_curr_epoch p.curr_epoch }, turns)
            else (p, sleeps))
        else if ltb p.max_epoch c.epoch
        then (if ltb (length p.queue) p.num_lambdas then (p, sleeps) else (
          record p {
            recv_cnt = 0;
            ghost_vtcs_recvd = 0;
            min_epoch = add32 p.max_epoch 1;
            max_epoch = 0;
            async = false;
            block = true;
          },
          turns,
        ))
        else admit nodes tid c rest p)
    else admit nodes tid c rest p

-- (1): the end of the training. The queue is cleared behind the loop.
unfoldable pub finish : Nodes → ℕ → Chunk → List Chunk → Pipeline → Pipeline × Outcome
finish nodes tid c rest p =
    if ltb p.num_epochs c.epoch || is_done p.converge_state
    then (if ltb (length p.queue) p.num_lambdas
        then (p, sleeps)
        else (record p { halt = true; queue = [] }, halts))
    else switch nodes tid c rest p

unfoldable pub turn : Nodes → ℕ → Pipeline → Pipeline × Outcome
turn nodes tid p = elim p.queue [
  | [] ↦ (p, sleeps)
  | c ∷ rest ↦
      if ltb p.curr_epoch c.epoch
      then finish nodes tid c rest p
      else (record p { queue = rest }, send c p)
]
