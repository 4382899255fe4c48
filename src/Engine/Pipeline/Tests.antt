-- ===== src/Engine/Pipeline/Tests.antt =====
-- A chunk goes from the scheduler through its first layer to the scatter queue.
use dorylus.Prelude.{◌≡◌, ◌⊎◌, refl, List, [], ◌∷◌, some, true, false, add32}
use dorylus.Chunk.{forward}
use dorylus.NodeManager.{NodeManager}
use dorylus.Engine.Schedule.Tests.{chunk, pipeline, nodes}
use dorylus.Engine.Pipeline.Defs.{
  Engine, schedule_work, gather_work, push, gather_chunk, apply_vertex_work, apply_vertex, receive,
  remove_at, nn_recv_callback, recv_vertex, inc_layer,
}
use dorylus.Engine.Layers.{engine_last_layer, inc_layer_gcn}
use dorylus.Engine.Schedule.{turn, finish, switch, admit, start, send}
use dorylus.Engine.Pipeline.Flow.{chunks}
use dorylus.Engine.Pipeline.Runs.{
  Work, schedules, gathers_top, applies_vertices, receives, work, work_all, work_all-chunks,
}

abbrev manager : NodeManager
manager = record {
  me = 0;
  num_nodes = 2;
  stand_alone = false;
  remaining = 0;
  in_barrier = false;
  staleness = 2;
  min_epoch = 4;
  nodes_finished_epoch = 0 ∷ 0 ∷ 0 ∷ [];
  published = [];
}

abbrev engine : Engine
engine = record {
  scheduler = pipeline;
  node_manager = manager;
  num_layers = 2;
  src_ghost_cnt = 1;
  dst_ghost_cnt = 1;
  layer = 0;
  curr_dir = forward;
  num_finished_epoch = 0 ∷ 0 ∷ 0 ∷ [];
  ga_queue = [];
  av_queue = [];
  sc_queue = [];
  sc_stash_queue = [];
  ae_queue = [];
  computing = [];
}

abbrev works : List Work
works = schedules 0 ∷ gathers_top ∷ applies_vertices ∷ receives 0 [] ∷ []

abbrev engine' : Engine
engine' = record engine {
  scheduler = record pipeline {
    curr_epoch = 6;
    num_async_epochs = 4;
    queue = record chunk { local_id = 1; epoch = 7 } ∷ [];
  };
  sc_queue = record chunk { layer = 1 } ∷ [];
}

works_run : work_all nodes (λ c. 1) works engine ≡ some engine'
unfolding work_all work schedule_work turn finish switch admit add32 start send gather_work push
    gather_chunk apply_vertex_work apply_vertex receive remove_at nn_recv_callback recv_vertex
    engine_last_layer inc_layer inc_layer_gcn
works_run = refl

work_all-chunks_example : (chunks 0 engine' ≡ chunks 0 engine) ⊎ (engine'.scheduler.halt ≡ true)
work_all-chunks_example = work_all-chunks nodes (λ c. 1) 0 works engine {e' = engine'} works_run
