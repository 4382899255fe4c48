-- ===== src/Weights/Tensor/Tests.antt =====
-- The theorems on `WeightTensor` at one tensor of two weights, with natural numbers in place of the
-- floats.
pub mod Updates
use dorylus.Prelude.{
  ℕ, ◌+◌, ◌-◌, ◌*◌, ◌/◌, ◌^◌, ◌<◌, ◌≤◌, ◌≡◌, ◌≢◌, refl, sym, ◌∙◌, subst, ap, List, [], ◌∷◌, Bool,
  true, false, Option, none, some, arith, ◌==◌, if◌then◌else◌, leb, length, replicate, u32_mod,
  mul32, add32,
}
use dorylus.Prelude.Map.{size, find, insert}
use dorylus.Chunk.{Chunk, chunk_lt, forward, backward, chunk_order}
use dorylus.Weights.Float.{Float}
use dorylus.Weights.Heap.{Heap, Matrix, num_elemts, load, store, update_n, copy_n, fill_n}
use dorylus.Weights.Arrays.{zip_with}
use dorylus.Weights.Versions.{key_of}
use dorylus.Weights.Versions
use dorylus.Weights.Tidy.{Owns}
use dorylus.Weights.Tensor.Defs.{
  WeightTensor, Optimizer, sgd, new_tensor, opt_step, try_apply_update, get_mat, set_ghost_upd_tot,
  set_local_upd_tot, local_update, ghost_update, not_ready, update_version, apply_sync,
  step_weights, clear, dec_ref,
}
use dorylus.Weights.Tensor.Valid.{elemts, IsValid, contents, weights_in, IsBound, recount-IsValid}
use dorylus.Weights.Tensor.New.{new_tensor-IsValid}
use dorylus.Weights.Tensor.Trace.{
  Call, gets, drops, locals, ghosts, applies, stops, step, local_tots, ghost_tots, run, CallFits,
  Spares, AllCalls,
}
use dorylus.Weights.Tensor.Stash.{run_total, run-weights}
use dorylus.Weights.Tensor.Sync.{IsUpdate, try_apply_update-sync}

instance abbrev pub nat_float : Float ℕ
nat_float = record {
  zero = 0;
  one = 1;
  add = λ a b. a + b;
  sub = λ a b. a - b;
  mul = λ a b. a * b;
  div = λ a b. a / b;
  sqrt = λ a. a;
  pow = λ a n. a ^ n;
  of_unsigned = λ n. n;
  le = leb;
}

abbrev pub weights : Matrix
weights = record { name = "w"; rows = 1; cols = 2; buf = some 0 }

abbrev pub heap : Heap ℕ
heap = record { next = 1; cell = λ p. if p == 0 then some (50 ∷ 70 ∷ []) else none }

abbrev pub chunk : Chunk
chunk = record {
  local_id = 0;
  global_id = 0;
  low_bound = 0;
  up_bound = 4;
  layer = 0;
  dir = backward;
  epoch = 1;
  vertex = true;
}

abbrev pub next_chunk : Chunk
next_chunk = record chunk { local_id = 1; global_id = 1 }

pub weights-Owns : Owns (num_elemts weights) weights heap
unfolding num_elemts mul32
weights-Owns = (0, 50 ∷ 70 ∷ [], refl, refl, refl, refl)

pub heap_fresh : (p : ℕ) → heap.next ≤ p → heap.cell p ≡ none
heap_fresh p le = ground arith

new_tensor-IsValid_example :
    IsValid (new_tensor weights true heap).0 (new_tensor weights true heap).1
new_tensor-IsValid_example = new_tensor-IsValid weights true heap weights-Owns heap_fresh

abbrev pub tensor : WeightTensor
tensor = (new_tensor weights true heap).0

abbrev pub tensor_heap : Heap ℕ
tensor_heap = (new_tensor weights true heap).1

abbrev calls : List (Call ℕ)
calls =
    local_tots 1
    ∷ ghost_tots 1
    ∷ gets chunk
    ∷ gets next_chunk
    ∷ locals (1 ∷ 2 ∷ [])
    ∷ ghosts (3 ∷ 4 ∷ [])
    ∷ applies (sgd 2) none
    ∷ drops next_chunk
    ∷ []

calls-AllCalls : AllCalls (λ c. CallFits c tensor.sync (elemts tensor)) calls
unfolding new_tensor num_elemts mul32
calls-AllCalls = (tt, (tt, (tt, (tt, (refl, ((refl, refl), ((tt, tt), (tt, tt))))))))

room : size tensor.chunk2ver + length calls < u32_mod
unfolding new_tensor size
room = omega arith

room_ver : tensor.curr_ver + length calls < u32_mod
unfolding new_tensor
room_ver = omega arith

run_total_example :
    (w' : WeightTensor) × (h' : Heap ℕ) × (run calls (tensor, tensor_heap) ≡ some (w', h'))
    × IsValid w' h'
run_total_example =
    run_total calls tensor tensor_heap new_tensor-IsValid_example calls-AllCalls room room_ver

-- A state from which a chunk's weights are followed: both gradients are in, and the chunk is bound.
abbrev pub first_calls : List (Call ℕ)
first_calls =
    local_tots 1 ∷ ghost_tots 1 ∷ gets chunk ∷ locals (1 ∷ 2 ∷ []) ∷ ghosts (3 ∷ 4 ∷ []) ∷ []

abbrev pub state_after : List (Call ℕ) → WeightTensor × Heap ℕ → WeightTensor × Heap ℕ
state_after cs s = elim (run cs s) [ none ↦ s | some s' ↦ s' ]

pub run-IsValid :
    (cs : List (Call ℕ)) (w : WeightTensor) (h : Heap ℕ) (s : WeightTensor × Heap ℕ)
    → (w' : WeightTensor) × (h' : Heap ℕ) × (run cs (w, h) ≡ some (w', h')) × IsValid w' h'
    → run cs (w, h) ≡ some s
    → IsValid s.0 s.1
run-IsValid cs w h s (w', h', eq, v) e =
    let same : (w', h') ≡ s = cc in subst (λ t. IsValid t.0 t.1) same v

abbrev pub ready : WeightTensor × Heap ℕ
ready = state_after first_calls (tensor, tensor_heap)

ready-run : run first_calls (tensor, tensor_heap) ≡ some ready
unfolding run step get_mat Versions.get_mat find set_ghost_upd_tot set_local_upd_tot new_tensor
    local_update load update_n mul32 store ghost_update
ready-run = refl

first_calls-AllCalls : AllCalls (λ c. CallFits c tensor.sync (elemts tensor)) first_calls
unfolding new_tensor num_elemts mul32
first_calls-AllCalls = (tt, (tt, (tt, (refl, ((refl, refl), tt)))))

first_room : (size tensor.chunk2ver + 5 < u32_mod) × (tensor.curr_ver + 5 < u32_mod)
unfolding new_tensor size
first_room = (omega arith, omega arith)

pub ready-IsValid : IsValid ready.0 ready.1
ready-IsValid =
    run-IsValid first_calls tensor tensor_heap ready
      (run_total first_calls tensor tensor_heap new_tensor-IsValid_example first_calls-AllCalls
        first_room.0 first_room.1)
      ready-run

abbrev later_calls : List (Call ℕ)
later_calls = applies (sgd 2) none ∷ gets next_chunk ∷ drops next_chunk ∷ stops ∷ []

abbrev later : WeightTensor × Heap ℕ
later = state_after later_calls ready

later_calls-AllCalls : AllCalls (λ c. CallFits c ready.0.sync (elemts ready.0)) later_calls
later_calls-AllCalls = ((tt, tt), (tt, (tt, (tt, tt))))

spared : AllCalls (Spares chunk) later_calls
spared = (tt, (tt, ((λ e. ground arith), (tt, tt))))

ready_tables :
    (find (key_of chunk) ready.0.chunk2ver ≡ some 0)
    × (size ready.0.chunk2ver ≡ 1)
    × (ready.0.curr_ver ≡ 0)
unfolding run step get_mat Versions.get_mat find set_ghost_upd_tot set_local_upd_tot new_tensor
    local_update load update_n mul32 store ghost_update insert size chunk_lt
ready_tables = (refl, refl, refl)

later-run : run later_calls ready ≡ some later
unfolding run step get_mat Versions.get_mat find set_ghost_upd_tot set_local_upd_tot new_tensor
    local_update load update_n mul32 store ghost_update try_apply_update not_ready add32
    update_version insert copy_n apply_sync step_weights Versions.stash_version opt_step clear
    fill_n chunk_lt dec_ref Versions.dec_ref
later-run = refl

-- The chunk keeps its weights while the current version moves on from 50, 70 to 42, 58.
run-weights_example :
    IsBound chunk later.0 × (weights_in chunk later.0 later.1 ≡ weights_in chunk ready.0 ready.1)
run-weights_example =
    run-weights later_calls ready.0 later.0 ready.1 later.1 chunk ready-IsValid later_calls-AllCalls
      (omega (arith, ready_tables.1)) (omega (arith, ready_tables.2)) spared
      (λ e. ground (arith, ready_tables.0)) later-run
