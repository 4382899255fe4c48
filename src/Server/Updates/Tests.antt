-- ===== src/Server/Updates/Tests.antt =====
-- One tensor of two weights on the first of two servers, with natural numbers in place of the floats:
-- a lambda has pulled the weights, and pushes its update.
use dorylus.Prelude.{
  ℕ, ◌+◌, ◌%◌, ◌<◌, ◌≡◌, ◌⊎◌, ◌≢◌, refl, List, [], ◌∷◌, none, some, true, false, ◌>>=◌, arith,
  length, replicate, u32_mod, add32, mul32, All, get_elem?,
}
use dorylus.Prelude.Map.{find, insert, size, nat_order}
use dorylus.Chunk.{chunk_lt, chunk_order}
use dorylus.Weights.Heap.{Heap, load, num_elemts}
use dorylus.Weights.Adam.{Adam, layer_size, adam_element, adam_loop, next_iteration}
use dorylus.Weights.Adam
use dorylus.Weights.Versions
use dorylus.Weights.Tensor.{
  WeightTensor, adam, opt_step, new_tensor, get_mat, set_local_upd_tot, set_ghost_upd_tot,
}
use dorylus.Weights.Tensor.Valid.{elemts, IsValid}
use dorylus.Weights.Tensor.New.{new_tensor-IsValid}
use dorylus.Weights.Tensor.Trace.{Call, gets, local_tots, ghost_tots, step, run, CallFits, AllCalls}
use dorylus.Weights.Tensor.Stash.{run_total}
use dorylus.Weights.Tensor.Tests.{
  nat_float, weights, heap, chunk, weights-Owns, heap_fresh, state_after, run-IsValid,
}
use dorylus.Server.Updates.Defs.{
  UpdateServer, gcn, Publication, tensor_at, weights_layer, send_tensors,
}
use dorylus.Server.Updates.Threads.{
  Threads, Turn, released, added, copied, tried, collected, checked, acknowledged, turn, turns,
  working, prompt, updates_of, acked_of, Gathers,
}
use dorylus.Server.Updates.Round.{turns_round}
use dorylus.Server.Updates.Requests.{with_error, send_tensors-missing}

abbrev optimizer : Adam ℕ
optimizer = record {
  beta1 = 1;
  beta2 = 1;
  epsilon = 1;
  learning_rate = 1;
  epochs = 1;
  dims = 1 ∷ 2 ∷ [];
  momentum = (0 ∷ 3 ∷ []) ∷ [];
  decay = (0 ∷ 1 ∷ []) ∷ [];
  lr_t = 2;
}

abbrev calls : List (Call ℕ)
calls = gets chunk ∷ local_tots 1 ∷ ghost_tots 1 ∷ []

abbrev first_tensor : WeightTensor × Heap ℕ
first_tensor = new_tensor weights true heap

abbrev pulled : WeightTensor × Heap ℕ
pulled = state_after calls first_tensor

pulled-run : run calls first_tensor ≡ some pulled
unfolding run step get_mat Versions.get_mat find set_ghost_upd_tot set_local_upd_tot new_tensor
    num_elemts
pulled-run = refl

calls_fit :
    AllCalls (λ c. CallFits c first_tensor.0.sync (elemts first_tensor.0)) calls
    × (size first_tensor.0.chunk2ver + length calls < u32_mod)
    × (first_tensor.0.curr_ver + length calls < u32_mod)
unfolding new_tensor num_elemts mul32 size
calls_fit = ((tt, (tt, (tt, tt))), omega arith, omega arith)

pulled-IsValid : IsValid pulled.0 pulled.1
pulled-IsValid =
    run-IsValid calls first_tensor.0 first_tensor.1 pulled
      (run_total calls first_tensor.0 first_tensor.1
        (new_tensor-IsValid weights true heap weights-Owns heap_fresh) calls_fit.0 calls_fit.1
        calls_fit.2)
      pulled-run

abbrev server : UpdateServer ℕ ℕ
server = record {
  gnn_type = gcn;
  sync = true;
  block = false;
  epoch = 0;
  num_node = 2;
  num_lambdas = 1;
  ack_cnt = 0;
  adam_opt = optimizer;
  weights_store = ((0, pulled) ∷ []) ∷ [];
}

server-Gathers :
    Gathers 0 0 1 2 1 0 0 (replicate 2 0) (replicate 2 0) 0 (50 ∷ 70 ∷ []) optimizer 0 0 1 server
unfolding run step get_mat Versions.get_mat find set_ghost_upd_tot set_local_upd_tot new_tensor
    num_elemts load insert Versions.mat_of size mul32 tensor_at chunk_lt
server-Gathers = record {
  tensor = pulled.0;
  heap = pulled.1;
  found = refl;
  collects = record {
    valid = pulled-IsValid;
    size_ok = refl;
    synchronous = refl;
    running = refl;
    needs_local = refl;
    needs_ghost = refl;
    has_local = refl;
    has_ghost = refl;
    local_sum = refl;
    ghost_sum = refl;
    current_ver = refl;
    current = refl;
  };
  is_gcn = refl;
  is_sync = refl;
  of_nodes = refl;
  has_opt = refl;
  has_epoch = refl;
  has_ack = refl;
  few = omega arith;
}

-- The receiver is between the sum of a worker and what that worker publishes, but acts after it.
abbrev in_turn : List (Turn ℕ)
in_turn =
    released chunk
    ∷ added (1 ∷ 2 ∷ [])
    ∷ copied
    ∷ tried
    ∷ acknowledged
    ∷ collected 1 (3 ∷ 4 ∷ [])
    ∷ checked
    ∷ []

-- The receiver applies the update and clears the buffer before the worker copies it.
abbrev racing : List (Turn ℕ)
racing =
    released chunk ∷ added (1 ∷ 2 ∷ []) ∷ collected 1 (3 ∷ 4 ∷ []) ∷ checked ∷ copied ∷ tried ∷ []

abbrev stepped : Adam ℕ × List ℕ
stepped = elim (Adam.update optimizer 0 (50 ∷ 70 ∷ []) (4 ∷ 6 ∷ [])) [
  | none ↦ (optimizer, [])
  | some r ↦ r
]

steps :
    (opt_step (adam optimizer 0) 2 (50 ∷ 70 ∷ []) (4 ∷ 6 ∷ []) ≡ some (adam stepped.0 0, stepped.1))
    × (length stepped.1 ≡ 2)
unfolding opt_step Adam.update layer_size mul32 adam_loop adam_element
steps = (refl, refl)

turns_round_example :
    (t' : Threads ℕ ℕ) × (out : List (Publication ℕ ℕ)) × (ack' : ℕ) × (turns 0 0 in_turn
        (record { server = server; copying = 0; applying = 0; checking = 0 })
      ≡ some (t', out))
    × (acked_of out ≡ 1 ∷ [])
    × ((0 < working t')
        ⊎ (Gathers 0 0 1 2 1 0 0
              (replicate 2 0)
              (replicate 2 0)
              1
              stepped.1
              stepped.0
              (add32 0 1)
              ack'
              8
              t'.server
            × ((updates_of out ≡ (0, 0, 1 ∷ 2 ∷ []) ∷ [])
                ⊎ ((updates_of out ≡ (0, 0, replicate 2 0) ∷ []) × (prompt 1 in_turn ≡ false)))
            × ((ack' + 1) % u32_mod ≡ (0 + 1) % u32_mod)))
turns_round_example =
    turns_round 0 0 1 2 1 0 (50 ∷ 70 ∷ []) optimizer stepped.0 stepped.1 (1 ∷ 2 ∷ []) (3 ∷ 4 ∷ [])
      (omega arith) (omega arith) (omega arith) (omega arith) steps.0 steps.1 in_turn 0 0 1 server
      server-Gathers refl refl (refl, (refl, tt)) refl refl (omega arith)

-- What the worker of `racing` publishes.
abbrev raced : List (ℕ × ℕ × List ℕ)
raced =
    elim (turns 0 0 racing (record { server = server; copying = 0; applying = 0; checking = 0 })) [
      | none ↦ []
      | some r ↦ updates_of r.1
    ]

raced-zeros : raced ≡ (0, 0, 0 ∷ 0 ∷ []) ∷ []
unfolding turns turn dorylus.Server.Updates.Defs.release_tensor tensor_at find
    dorylus.Weights.Tensor.dec_ref Versions.dec_ref run step get_mat Versions.get_mat new_tensor
    set_ghost_upd_tot set_local_upd_tot insert chunk_lt dorylus.Server.Updates.Defs.put_tensor
    dorylus.Server.Updates.Defs.add_local dorylus.Weights.Tensor.local_update
    dorylus.Prelude.Map.erase add32 mul32 dorylus.Prelude.sub32
    dorylus.Server.Updates.Defs.add_ghost dorylus.Server.Updates.Defs.publish_update
    dorylus.Server.Updates.Defs.try_own dorylus.Server.Updates.Defs.try_tensor adam_element
    adam_loop layer_size next_iteration Adam.update dorylus.Weights.Heap.alloc
    dorylus.Weights.Heap.copy_n dorylus.Weights.Heap.fill_n dorylus.Weights.Heap.free load
    num_elemts dorylus.Weights.Heap.store dorylus.Weights.Heap.update_n
    dorylus.Weights.Tensor.apply_sync dorylus.Weights.Tensor.clear
    dorylus.Weights.Tensor.ghost_update dorylus.Weights.Tensor.not_ready opt_step
    dorylus.Weights.Tensor.step_weights dorylus.Weights.Tensor.try_apply_update
    dorylus.Weights.Tensor.update_version Versions.drop_ref Versions.hold Versions.mat_of
    Versions.move_version Versions.stash_version
raced-zeros = refl

names_there :
    (get_elem? server.weights_store (weights_layer chunk) ≢ none)
    × All (λ j. tensor_at (weights_layer chunk) j server ≢ none) (0 ∷ [])
    × (tensor_at (weights_layer chunk) 1 server ≡ none)
unfolding weights_layer tensor_at find
names_there = ((λ e. cc), ((λ e. cc), tt), refl)

send_tensors-missing_example :
    send_tensors chunk (0 ∷ 1 ∷ 0 ∷ []) server
    ≡ (send_tensors chunk (0 ∷ []) server >>= with_error 1)
send_tensors-missing_example =
    send_tensors-missing chunk (0 ∷ []) 1 (0 ∷ []) server names_there.0 names_there.1 names_there.2
