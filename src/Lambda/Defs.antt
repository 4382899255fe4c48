-- ===== src/Lambda/Defs.antt =====
-- `NNCompute`, `NNRecv`, `relaunchLambda` and one turn of `asyncRelaunchLoop`. Each of the first three
-- holds `timeoutMtx`; the time stamp is an argument.
use dorylus.Prelude.{
  ℕ, List, [], ◌∷◌, Bool, true, false, none, some, ltb, if◌then◌else◌, add32, sub32,
}
use dorylus.Prelude.Map.{Map, find, insert, erase, nat_order}
use dorylus.Chunk.{Chunk, chunk_order}

-- The members that the calls change, with the chunks for which a lambda was invoked and those that
-- were handed to `NNRecvCallback`, the last ones first.
pub record LambdaComm : Type 0 where
  pub timeout_table : Map Chunk ℕ
  pub record_table : Map ℕ ℕ
  pub relaunch_cnt : ℕ
  pub invoked : List Chunk
  pub delivered : List Chunk

-- `engine->getAbsLayer`, the running average of the times, and the time that a recorded average
-- allows.
pub record Timing : Type 0 where
  pub abs_layer : Chunk → ℕ
  pub average : ℕ → ℕ → ℕ
  pub timeout : ℕ → ℕ

-- `TIMEOUT_PERIOD`.
abbrev pub timeout_period : ℕ
timeout_period = 6000

unfoldable pub nn_compute : ℕ → Chunk → LambdaComm → LambdaComm
nn_compute now c s = elim (find c s.timeout_table) [
  | some t ↦ s
  | none ↦ record s { timeout_table = insert c now s.timeout_table; invoked = c ∷ s.invoked }
]

-- The time of a lambda is recorded.
unfoldable pub record_time : Timing → Chunk → ℕ → Map ℕ ℕ → Map ℕ ℕ
record_time timing c time table =
    let layer = timing.abs_layer c in
    if c.vertex
    then elim (find layer table) [
      | none ↦ insert layer time table
      | some old ↦ insert layer (timing.average old time) table
    ]
    else table

unfoldable pub nn_recv : Timing → ℕ → Chunk → LambdaComm → Bool × LambdaComm
nn_recv timing now c s = elim (find c s.timeout_table) [
  | none ↦ (false, s)
  | some t ↦ (
    true,
    record s {
      timeout_table = erase c s.timeout_table;
      record_table = record_time timing c (sub32 now t) s.record_table;
      delivered = c ∷ s.delivered;
    },
  )
]

unfoldable pub relaunch_lambda : ℕ → Chunk → LambdaComm → LambdaComm
relaunch_lambda now c s = elim (find c s.timeout_table) [
  | none ↦ s
  | some t ↦ record s {
    timeout_table = insert c now s.timeout_table;
    relaunch_cnt = add32 s.relaunch_cnt 1;
    invoked = c ∷ s.invoked;
  }
]

-- Whether an entry has waited too long.
unfoldable pub is_late : Timing → ℕ → Chunk → ℕ → Map ℕ ℕ → Bool
is_late timing now c t table = elim (find (timing.abs_layer c) table) [
  | none ↦ false
  | some time ↦
      if c.vertex then ltb (timing.timeout time) (sub32 now t) else ltb timeout_period (sub32 now t)
]

-- The loop over the entries of the table.
unfoldable pub relaunch_late : Timing → ℕ → Map Chunk ℕ → LambdaComm → LambdaComm
relaunch_late timing now [] s = s
relaunch_late timing now ((c, t) ∷ entries) s =
    relaunch_late timing now entries
      (if is_late timing now c t s.record_table then relaunch_lambda now c s else s)

-- A turn of `asyncRelaunchLoop`.
unfoldable pub relaunch_turn : Timing → ℕ → LambdaComm → LambdaComm
relaunch_turn timing now s = relaunch_late timing now s.timeout_table s

pub data Event : Type 0 where
  compute recv : ℕ → Chunk → Event
  tick : ℕ → Event

unfoldable pub handle : Timing → Event → LambdaComm → LambdaComm
handle timing (compute now c) s = nn_compute now c s
handle timing (recv now c) s = (nn_recv timing now c s).1
handle timing (tick now) s = relaunch_turn timing now s

unfoldable pub handle_all : Timing → List Event → LambdaComm → LambdaComm
handle_all timing [] s = s
handle_all timing (e ∷ es) s = handle_all timing es (handle timing e s)
