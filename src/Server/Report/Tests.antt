-- ===== src/Server/Report/Tests.antt =====
-- The reports at a master and at another server, with natural numbers in place of the floats.
use dorylus.Prelude.{ℕ, ◌+◌, ◌-◌, ◌*◌, ◌/◌, ◌^◌, ◌≤◌, List, [], ◌∷◌, arith, leb, true}
use dorylus.Prelude.Map.{size, nat_order}
use dorylus.Chunk.{Chunk, forward}
use dorylus.Weights.Float.{Float}
use dorylus.Server.Report.Defs.{Server, early, rank, Event, eval, acc_loss, info, handle_all}
use dorylus.Server.Report.Stop.{terms, handle_all-terms}
use dorylus.Server.Report.Rounds.{IsOpen, handle_all-IsOpen}
use dorylus.Server.Report.Complete.{Report}

instance abbrev nat_float : Float ℕ
nat_float = record {
  zero = 0;
  one = 1;
  add = λ a b. a + b;
  sub = λ a b. a - b;
  mul = λ a b. a * b;
  div = λ a b. a / b;
  sqrt = λ a. a;
  pow = λ a n. a ^ n;
  of_unsigned = λ n. n;
  le = leb;
}

abbrev tenth : ℕ → ℕ
tenth n = n / 10

abbrev chunk : Chunk
chunk = record {
  local_id = 0;
  global_id = 0;
  low_bound = 0;
  up_bound = 40;
  layer = 1;
  dir = forward;
  epoch = 5;
  vertex = true;
}

abbrev other_chunk : Chunk
other_chunk = record chunk { global_id = 1 }

-- Two servers; this one is the master, and waits for two lambdas.
abbrev master : Server ℕ
master = record {
  node_id = 0;
  num_node = 2;
  num_lambdas = 2;
  target_acc = 90;
  switch_threshold = 2;
  converge_state = early;
  acc_loss_table = [];
  ws_acc_table = [];
  gsockets = 3;
}

abbrev events : List (Event ℕ)
events =
    eval chunk 360 40
    ∷ acc_loss 1 (record { epoch = 5; vtcs_cnt = 8; acc = 720; loss = 80 })
    ∷ eval other_chunk 360 40
    ∷ info 4
    ∷ []

handle_all-terms_example :
    (rank early ≤ rank (handle_all tenth events master).0.converge_state)
    × (terms (handle_all tenth events master).1 ≤ (2 - rank early) * 3)
handle_all-terms_example = handle_all-terms tenth events master

master-IsOpen : IsOpen master
unfolding size
master-IsOpen = record {
  sorted = tt;
  ws_sorted = tt;
  chunks_wait = omega arith;
  nodes_wait = omega arith;
}

handle_all-IsOpen_example : IsOpen (handle_all tenth events master).0
handle_all-IsOpen_example =
    handle_all-IsOpen tenth events master (tt, (tt, (tt, (omega arith, tt)))) master-IsOpen

abbrev slave : Server ℕ
slave = record master { node_id = 1 }

abbrev first : Report ℕ
first = (chunk, 360, 40)

abbrev rest : List (Report ℕ)
rest = (other_chunk, 300, 50) ∷ []
