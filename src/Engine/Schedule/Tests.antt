-- ===== src/Engine/Schedule/Tests.antt =====
-- An asynchronous pipeline of two chunks, one ahead of the other.
use dorylus.Prelude.{◌+◌, ◌≤◌, inr, refl, [], ◌∷◌, true, false, arith}
use dorylus.Chunk.{Chunk, forward}
use dorylus.Server.Report.{early}
use dorylus.Engine.Schedule.Defs.{Pipeline, Nodes, turn}
use dorylus.Engine.Schedule.Staleness.{InBound, Small, turn-InBound}
use dorylus.Engine.Schedule.Release.{Sent, Accounts, turn-Accounts, turn-Sent}

abbrev pub chunk : Chunk
chunk = record {
  local_id = 0;
  global_id = 0;
  low_bound = 0;
  up_bound = 4;
  layer = 0;
  dir = forward;
  epoch = 6;
  vertex = true;
}

abbrev pub pipeline : Pipeline
pipeline = record {
  curr_epoch = 5;
  min_epoch = 4;
  max_epoch = 0;
  num_epochs = 20;
  num_lambdas = 2;
  staleness = 2;
  converge_state = early;
  async = true;
  block = true;
  halt = false;
  mode_lambda = true;
  pipeline = true;
  is_gcn = true;
  num_async_epochs = 3;
  num_sync_epochs = 2;
  recv_cnt = 0;
  ghost_vtcs_recvd = 0;
  queue = chunk ∷ record chunk { local_id = 1; epoch = 7 } ∷ [];
}

abbrev pub nodes : Nodes
nodes = record { sync_curr_epoch = λ e. e; read_epoch_updates = λ m. m + 1 }

pipeline-Small : Small pipeline
pipeline-Small = (omega arith, omega arith, omega arith)

pipeline-InBound : InBound pipeline
pipeline-InBound = (omega arith, inr (omega arith))

turn-InBound_example : InBound (turn nodes 0 pipeline).0
turn-InBound_example =
    turn-InBound nodes 0 (λ m. omega arith) pipeline pipeline-Small pipeline-InBound

turn-Accounts_example : Accounts pipeline (turn nodes 0 pipeline)
turn-Accounts_example = turn-Accounts nodes 0 pipeline

turn-Sent_example : Sent (λ d. d.epoch ≤ 4 + 2) (turn nodes 0 pipeline).1
turn-Sent_example = turn-Sent nodes 0 pipeline pipeline-Small pipeline-InBound refl
