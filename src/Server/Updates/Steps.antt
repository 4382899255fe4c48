-- ===== src/Server/Updates/Steps.antt =====
-- What a server does to its tensor, its counts and its optimizer, while a round is on.
use dorylus.Prelude.{
  ℕ, ◌+◌, ◌<◌, ◌≤◌, ◌≡◌, ◌⊎◌, refl, List, [], ◌∷◌, none, some, arith, length, u32_mod, add32,
  sub32-eq, replicate, ◌==◌,
}
use dorylus.Prelude.Map.{Order, size}
use dorylus.Chunk.{Chunk, chunk_order}
use dorylus.Weights.Float.{Float}
use dorylus.Weights.Heap.{Heap}
use dorylus.Weights.Arrays.{zip_with, copy_n-eq}
use dorylus.Weights.Adam.{Adam}
use dorylus.Weights.Tensor.{WeightTensor, adam, opt_step}
use dorylus.Weights.Tensor.Valid.{local_slot}
use dorylus.Weights.Tensor.Write.{load-slot}
use dorylus.Weights.Tensor.Collect.{Collects, dec_ref-Collects}
use dorylus.Weights.Tensor.Gradients.{
  local_update-Collects, ghost_update-Collects, try_apply_update-waits, try_apply_update-applies,
}
use dorylus.Server.Updates.Defs.{
  UpdateServer, update_msg, tensor_at, put_tensor, try_tensor, publish_update, try_own,
  release_tensor, add_local, add_ghost,
}
use dorylus.Server.Updates.Store.{put_tensor-tensor_at}
use dorylus.Server.Updates.Threads.{Gathers}

module _ {K A : Type 0} ⦃o : Order K⦄ ⦃f : Float A⦄ (layer : ℕ) (name : K) (others n lt : ℕ)
    {lc gc : ℕ} {ls gs : List A} {ver : ℕ} {ws : List A} {opt : Adam A} {e ack b : ℕ}
    {s : UpdateServer K A}
    (gather : Gathers layer name others n lt lc gc ls gs ver ws opt e ack b s) where
  -- The server with another state of the tensor.
  pub put-Gathers :
      {lc' gc' : ℕ} {ls' gs' : List A} {ver' : ℕ} {ws' : List A} {b' : ℕ} (w' : WeightTensor)
      (h' : Heap A)
      → Collects n lt others lc' gc' ls' gs' ver' ws' w' h'
      → size w'.chunk2ver ≤ b'
      → (s' : UpdateServer K A) × (put_tensor layer name (w', h') s ≡ some s')
        × Gathers layer name others n lt lc' gc' ls' gs' ver' ws' opt e ack b' s'
  put-Gathers w' h' col few =
      let (s', eq, found, same) =
        put_tensor-tensor_at layer name s (gather.tensor, gather.heap) (w', h') gather.found in
      (
        s',
        eq,
        record {
          tensor = w';
          heap = h';
          found = found;
          collects = col;
          is_gcn = ground (arith, same, gather.is_gcn);
          is_sync = ground (arith, same, gather.is_sync);
          of_nodes = ground (arith, same, gather.of_nodes);
          has_opt = ground (arith, same, gather.has_opt);
          has_epoch = ground (arith, same, gather.has_epoch);
          has_ack = ground (arith, same, gather.has_ack);
          few = few;
        },
      )

  -- Another count of acknowledgements that are due.
  pub ack-Gathers :
      (a : ℕ)
      → Gathers layer name others n lt lc gc ls gs ver ws opt e a b (record s { ack_cnt = a })
  unfolding tensor_at
  ack-Gathers a = record {
    tensor = gather.tensor;
    heap = gather.heap;
    found = gather.found;
    collects = gather.collects;
    is_gcn = gather.is_gcn;
    is_sync = gather.is_sync;
    of_nodes = gather.of_nodes;
    has_opt = gather.has_opt;
    has_epoch = gather.has_epoch;
    has_ack = refl;
    few = gather.few;
  }

  pub fewer : (b' : ℕ) → b ≤ b' → Gathers layer name others n lt lc gc ls gs ver ws opt e ack b' s
  fewer b' le = record {
    tensor = gather.tensor;
    heap = gather.heap;
    found = gather.found;
    collects = gather.collects;
    is_gcn = gather.is_gcn;
    is_sync = gather.is_sync;
    of_nodes = gather.of_nodes;
    has_opt = gather.has_opt;
    has_epoch = gather.has_epoch;
    has_ack = gather.has_ack;
    few = omega (arith, gather.few);
  }

  pub try_tensor-waits :
      (lc < lt) ⊎ (gc < others)
      → (s' : UpdateServer K A) × (try_tensor layer name none s ≡ some s')
        × Gathers layer name others n lt lc gc ls gs ver ws opt e ack b s'
  unfolding try_tensor
  try_tensor-waits less =
      let eq = try_apply_update-waits gather.collects (adam opt layer) less in
      let (s', put, next) = put-Gathers gather.tensor gather.heap gather.collects gather.few in
      (s', ground (arith, gather.found, gather.has_opt, eq, put, next.has_opt), next)

  pub try_tensor-applies :
      (opt' : Adam A) (ws' : List A)
      → lt ≤ lc
      → others ≤ gc
      → ver + 1 < u32_mod
      → opt_step (adam opt layer) n ws (zip_with f.add ls gs) ≡ some (adam opt' layer, ws')
      → length ws' ≡ n
      → (s' : UpdateServer K A) × (try_tensor layer name none s ≡ some s')
        × Gathers layer name others n lt 0 0
            (replicate n f.zero)
            (replicate n f.zero)
            (ver + 1)
            ws'
            opt'
            (add32 e 1)
            ack
            (b + 1)
            s'
  unfolding try_tensor
  try_tensor-applies opt' ws' ll lg room st l =
      let (w', h', eq, le, col) =
        try_apply_update-applies gather.collects (adam opt layer) (adam opt' layer) ws' ll lg room
          st l in
      let (s', put, next) = put-Gathers {b' = b + 1} w' h' col (omega (arith, le, gather.few)) in
      (
        record s' { epoch = add32 s'.epoch 1; adam_opt = opt' },
        ground (arith, gather.found, gather.has_opt, eq, put),
        record {
          tensor = next.tensor;
          heap = next.heap;
          found = unfold tensor_at in next.found;
          collects = next.collects;
          is_gcn = next.is_gcn;
          is_sync = next.is_sync;
          of_nodes = next.of_nodes;
          has_opt = refl;
          has_epoch = ground (arith, next.has_epoch);
          has_ack = next.has_ack;
          few = next.few;
        },
      )

  -- The calls of `applyUpdate`: it publishes what is in the local buffer, and waits for as many
  -- acknowledgements as there are other servers.
  pub publish_update-Gathers :
      others + 1 < u32_mod
      → (s' : UpdateServer K A) × (publish_update layer name s
          ≡ some (s', update_msg layer name ls ∷ []))
        × Gathers layer name others n lt lc gc ls gs ver ws opt e (add32 ack others) b s'
  unfolding publish_update
  publish_update-Gathers room =
      let col = gather.collects in
      let (xs, read, l) =
        load-slot gather.tensor gather.heap col.valid local_slot gather.tensor.local_upd_mat refl in
      (
        record s { ack_cnt = add32 ack others },
        ground (
          arith,
          gather.found,
          gather.of_nodes,
          gather.has_ack,
          read,
          col.local_sum,
          copy_n-eq _ xs l,
          sub32-eq (others + 1) 1,
        ),
        ack-Gathers (add32 ack others),
      )

  pub try_own-eq : try_own layer name s ≡ try_tensor layer name none s
  unfolding try_own
  try_own-eq = ground (arith, gather.is_gcn)

  pub release_tensor-Gathers :
      (c : Chunk)
      → b < u32_mod
      → (s' : UpdateServer K A) × (release_tensor layer name c s ≡ some s')
        × Gathers layer name others n lt lc gc ls gs ver ws opt e ack (b + 1) s'
  unfolding release_tensor
  release_tensor-Gathers c room =
      let (w', h', eq, le, col) = dec_ref-Collects gather.collects c (omega (arith, gather.few)) in
      let (s', put, next) = put-Gathers {b' = b + 1} w' h' col (omega (arith, le, gather.few)) in
      (s', ground (arith, gather.found, eq, put), next)

  module _ (us : List A) (fits : length us ≡ n) where
    pub add_local-Gathers :
        lc + 1 < u32_mod
        → (s' : UpdateServer K A) × (add_local layer name us s ≡ some (lt == lc + 1, s'))
          × Gathers layer name others n lt
              (lc + 1)
              gc
              (zip_with f.add ls us)
              gs
              ver
              ws
              opt
              e
              ack
              b
              s'
    unfolding add_local
    add_local-Gathers room =
        let (w', h', eq, le, col) = local_update-Collects gather.collects us fits room in
        let (s', put, next) = put-Gathers {b' = b} w' h' col (omega (arith, le, gather.few)) in
        (s', ground (arith, gather.found, eq, put, col.needs_local, col.has_local), next)

    pub add_ghost-Gathers :
        gc + 1 < u32_mod
        → others + 1 < u32_mod
        → (s' : UpdateServer K A) × (add_ghost layer name us s ≡ some (gc + 1 == others, s'))
          × Gathers layer name others n lt lc
              (gc + 1)
              ls
              (zip_with f.add gs us)
              ver
              ws
              opt
              e
              ack
              b
              s'
    unfolding add_ghost
    add_ghost-Gathers room rn =
        let (w', h', eq, le, col) = ghost_update-Collects gather.collects us fits room in
        let (s', put, next) = put-Gathers {b' = b} w' h' col (omega (arith, le, gather.few)) in
        (
          s',
          ground (
            arith,
            gather.found,
            gather.of_nodes,
            sub32-eq (others + 1) 1,
            eq,
            put,
            col.has_ghost,
          ),
          next,
        )
