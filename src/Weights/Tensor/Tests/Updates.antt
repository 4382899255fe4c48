-- ===== src/Weights/Tensor/Tests/Updates.antt =====
-- Updates of the tensor of the tests, synchronous and asynchronous.
use dorylus.Prelude.{
  ℕ, ◌+◌, ◌<◌, ◌≤◌, ◌≡◌, refl, List, [], ◌∷◌, true, false, none, some, arith, length, replicate,
  u32_mod, mul32, add32,
}
use dorylus.Prelude.Map.{size, find, insert}
use dorylus.Chunk.{chunk_lt, chunk_order}
use dorylus.Weights.Heap.{Heap, Matrix, num_elemts, load, store, update_n}
use dorylus.Weights.Versions
use dorylus.Weights.Tensor.Defs.{
  WeightTensor, sgd, new_tensor, try_apply_update, get_mat, set_ghost_upd_tot, set_local_upd_tot,
  local_update, ghost_update, opt_step, free_tensor,
}
use dorylus.Weights.Tensor.Valid.{Slot, place, elemts, IsValid, contents, IsBound}
use dorylus.Weights.Tensor.New.{new_tensor-IsValid}
use dorylus.Weights.Tensor.Trace.{Call, locals, local_tots, step, run, CallFits, AllCalls}
use dorylus.Weights.Tensor.Free.{free_tensor_lem}
use dorylus.Weights.Tensor.Stash.{run_total}
use dorylus.Weights.Tensor.Update.{sync_update, ghost_async_update, local_async_update}
use dorylus.Weights.Tensor.Bind.{get_mat-get_mat}
use dorylus.Weights.Tensor.Tests.{
  nat_float, weights, heap, next_chunk, ready, weights-Owns, heap_fresh, ready-IsValid, state_after,
  run-IsValid,
}

ready_facts :
    (ready.0.curr_ver + 1 < u32_mod)
    × (ready.0.stop ≡ false)
    × (contents ready.0.curr_ver ready.0 ready.1 ≡ some (50 ∷ 70 ∷ []))
    × (2 ≡ elemts ready.0)
    × (ready.0.sync ≡ true)
    × (ready.0.local_upd_tot ≤ ready.0.local_upd_cnt)
    × (ready.0.ghost_upd_tot ≤ ready.0.ghost_upd_cnt)
    × (load ready.0.local_upd_mat ready.1 ≡ some (1 ∷ 2 ∷ []))
    × (load ready.0.ghost_upd_mat ready.1 ≡ some (3 ∷ 4 ∷ []))
    × (opt_step {A = ℕ} (sgd 2) (elemts ready.0) (50 ∷ 70 ∷ []) (4 ∷ 6 ∷ [])
        ≡ some (sgd 2, 42 ∷ 58 ∷ []))
unfolding run step get_mat Versions.get_mat find set_ghost_upd_tot set_local_upd_tot new_tensor
    local_update load update_n mul32 store ghost_update num_elemts opt_step insert Versions.mat_of
    add32
ready_facts = (omega arith, refl, refl, refl, refl, omega arith, omega arith, refl, refl, refl)

sync_update_example :
    (w' : WeightTensor) × (h' : Heap ℕ) × (try_apply_update (sgd 2) none ready.0 ready.1
      ≡ some (true, sgd 2, w', h'))
    × IsValid w' h'
    × (w'.curr_ver ≡ ready.0.curr_ver + 1)
    × (contents w'.curr_ver w' h' ≡ some (42 ∷ 58 ∷ []))
    × (load w'.local_upd_mat h' ≡ some (replicate (elemts ready.0) 0))
    × (load w'.ghost_upd_mat h' ≡ some (replicate (elemts ready.0) 0))
    × (w'.local_upd_cnt ≡ 0)
    × (w'.ghost_upd_cnt ≡ 0)
sync_update_example =
    sync_update ready.0 ready.1 ready-IsValid (sgd 2) (sgd 2) none (50 ∷ 70 ∷ []) (42 ∷ 58 ∷ [])
      ready_facts.0 ready_facts.1 ready_facts.2 ready_facts.3 (1 ∷ 2 ∷ []) (3 ∷ 4 ∷ [])
      ready_facts.4 ready_facts.5 ready_facts.6 ready_facts.7 ready_facts.8 ready_facts.9

ready_size : size ready.0.chunk2ver ≡ 1
unfolding run step get_mat Versions.get_mat find set_ghost_upd_tot set_local_upd_tot new_tensor
    local_update load update_n mul32 store ghost_update num_elemts insert size chunk_lt
ready_size = refl

get_mat-get_mat_example :
    (m : Matrix) × (w' : WeightTensor) × (get_mat next_chunk ready.0 ≡ some (m, w'))
    × IsValid w' ready.1
    × IsBound next_chunk w'
    × (get_mat next_chunk w' ≡ some (m, w'))
get_mat-get_mat_example =
    get_mat-get_mat ready.0 ready.1 ready-IsValid next_chunk (omega (arith, ready_size))

-- The same with asynchronous updates, and one local update counted.
abbrev start : WeightTensor × Heap ℕ
start = new_tensor weights false heap

abbrev async_calls : List (Call ℕ)
async_calls = local_tots 1 ∷ locals (1 ∷ 2 ∷ []) ∷ []

abbrev async : WeightTensor × Heap ℕ
async = state_after async_calls start

async-run : run async_calls start ≡ some async
unfolding run step get_mat Versions.get_mat find set_ghost_upd_tot set_local_upd_tot new_tensor
    local_update load update_n mul32 store ghost_update num_elemts
async-run = refl

start_facts :
    AllCalls (λ c. CallFits c start.0.sync (elemts start.0)) async_calls
    × (size start.0.chunk2ver + length async_calls < u32_mod)
    × (start.0.curr_ver + length async_calls < u32_mod)
unfolding new_tensor num_elemts mul32 size
start_facts = ((tt, (refl, tt)), omega arith, omega arith)

async-IsValid : IsValid async.0 async.1
async-IsValid =
    run-IsValid async_calls start.0 start.1 async
      (run_total async_calls start.0 start.1
        (new_tensor-IsValid weights false heap weights-Owns heap_fresh) start_facts.0 start_facts.1
        start_facts.2)
      async-run

async_facts :
    (async.0.curr_ver + 1 < u32_mod)
    × (async.0.stop ≡ false)
    × (contents async.0.curr_ver async.0 async.1 ≡ some (50 ∷ 70 ∷ []))
    × (2 ≡ elemts async.0)
    × (async.0.sync ≡ false)
    × (async.0.local_upd_tot ≤ async.0.local_upd_cnt)
    × (load async.0.local_upd_mat async.1 ≡ some (1 ∷ 2 ∷ []))
    × (opt_step {A = ℕ} (sgd 2) (elemts async.0) (50 ∷ 70 ∷ []) (1 ∷ 2 ∷ [])
        ≡ some (sgd 2, 48 ∷ 66 ∷ []))
    × (opt_step {A = ℕ} (sgd 2) (elemts async.0) (50 ∷ 70 ∷ []) (5 ∷ 5 ∷ [])
        ≡ some (sgd 2, 40 ∷ 60 ∷ []))
unfolding run step get_mat Versions.get_mat find set_ghost_upd_tot set_local_upd_tot new_tensor
    local_update load update_n mul32 store ghost_update num_elemts opt_step insert Versions.mat_of
    add32
async_facts = (omega arith, refl, refl, refl, refl, omega arith, refl, refl, refl)

local_async_update_example :
    (w' : WeightTensor) × (h' : Heap ℕ) × (try_apply_update (sgd 2) none async.0 async.1
      ≡ some (true, sgd 2, w', h'))
    × IsValid w' h'
    × (w'.curr_ver ≡ async.0.curr_ver + 1)
    × (contents w'.curr_ver w' h' ≡ some (48 ∷ 66 ∷ []))
    × (load w'.local_upd_mat h' ≡ some (replicate (elemts async.0) 0))
    × (w'.local_upd_cnt ≡ 0)
    × (w'.ghost_upd_cnt ≡ async.0.ghost_upd_cnt)
local_async_update_example =
    local_async_update async.0 async.1 async-IsValid (sgd 2) (sgd 2) none (50 ∷ 70 ∷ [])
      (48 ∷ 66 ∷ []) async_facts.0 async_facts.1 async_facts.2 async_facts.3 (1 ∷ 2 ∷ [])
      async_facts.4 refl async_facts.5 async_facts.6 async_facts.7

ghost_async_update_example :
    (w' : WeightTensor) × (h' : Heap ℕ) × (try_apply_update
        (sgd 2)
        (some (5 ∷ 5 ∷ []))
        async.0
        async.1
      ≡ some (true, sgd 2, w', h'))
    × IsValid w' h'
    × (w'.curr_ver ≡ async.0.curr_ver + 1)
    × (contents w'.curr_ver w' h' ≡ some (40 ∷ 60 ∷ []))
    × (load w'.local_upd_mat h' ≡ load async.0.local_upd_mat async.1)
    × (w'.local_upd_cnt ≡ async.0.local_upd_cnt)
    × (w'.ghost_upd_cnt ≡ async.0.ghost_upd_cnt)
ghost_async_update_example =
    ghost_async_update async.0 async.1 async-IsValid (sgd 2) (sgd 2) (some (5 ∷ 5 ∷ []))
      (50 ∷ 70 ∷ []) (40 ∷ 60 ∷ []) async_facts.0 async_facts.1 async_facts.2 async_facts.3
      (5 ∷ 5 ∷ []) async_facts.4 refl async_facts.8

free_tensor_lem_example :
    (h' : Heap ℕ) × (free_tensor ready.0 ready.1 ≡ some h')
    × ((s : Slot) (m : Matrix) (p : ℕ)
        → place ready.0 s ≡ some m
        → m.buf ≡ some p
        → h'.cell p ≡ none)
free_tensor_lem_example = free_tensor_lem ready.0 ready.1 ready-IsValid
