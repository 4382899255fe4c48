-- ===== src/Lambda/Tests.antt =====
-- A chunk whose lambda is started again, and for which two results come.
use dorylus.Prelude.{◌+◌, ◌≡◌, refl, arith, [], ◌∷◌, ◌++◌, true, List}
use dorylus.Prelude.Map.{find}
use dorylus.Chunk.{Chunk, forward, chunk_lt}
use dorylus.Lambda.Defs.{LambdaComm, Timing, Event, compute, recv, tick, handle_all}
use dorylus.Lambda.Once.{occurrences, pending, deliver_once}

abbrev chunk : Chunk
chunk = record {
  local_id = 0;
  global_id = 0;
  low_bound = 0;
  up_bound = 4;
  layer = 1;
  dir = forward;
  epoch = 2;
  vertex = true;
}

abbrev other_chunk : Chunk
other_chunk = record chunk { local_id = 1; global_id = 1 }

abbrev timing : Timing
timing = record { abs_layer = λ c. c.layer; average = λ old new. old; timeout = λ time. 500 }

abbrev comm : LambdaComm
comm = record {
  timeout_table = (chunk, 100) ∷ [];
  record_table = (1, 200) ∷ [];
  relaunch_cnt = 0;
  invoked = chunk ∷ [];
  delivered = [];
}

abbrev before : List Event
before = tick 900 ∷ compute 950 other_chunk ∷ []

abbrev after : List Event
after = recv 1100 chunk ∷ recv 1200 other_chunk ∷ []

comm-pending : pending chunk comm ≡ 1
unfolding find chunk_lt
comm-pending = refl

deliver_once_example :
    occurrences chunk (handle_all timing (before ++ (recv 1000 chunk ∷ after)) comm).delivered
    ≡ occurrences chunk comm.delivered + 1
deliver_once_example =
    deliver_once timing before after 1000 chunk comm comm-pending ((λ e. ground arith), tt) tt
