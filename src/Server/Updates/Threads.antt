-- ===== src/Server/Updates/Threads.antt =====
-- The threads of a synchronous server that handle the updates of one tensor: its workers and its
-- receiver, between whose calls others may come.
use dorylus.Prelude.{
  ℕ, suc, ◌+◌, ◌-◌, ◌≤◌, ◌≡◌, List, [], ◌∷◌, ◌++◌, Option, none, some, Bool, true, false, ◌>>=◌,
  ◌==◌, if◌then◌else◌, length,
}
use dorylus.Prelude.Map.{Order, size}
use dorylus.Chunk.{Chunk, chunk_order}
use dorylus.Weights.Float.{Float}
use dorylus.Weights.Heap.{Heap}
use dorylus.Weights.Arrays.{zip_with}
use dorylus.Weights.Adam.{Adam}
use dorylus.Weights.Tensor.{WeightTensor}
use dorylus.Weights.Tensor.Collect.{Collects}
use dorylus.Server.Updates.Defs.{
  UpdateServer, gcn, Publication, update_msg, ack_msg, tensor_at, release_tensor, add_local,
  publish_update, try_own, add_ghost, try_tensor, count_ack,
}

-- The server, and how many threads are about to publish in `applyUpdate`, how many are about to call
-- `tryApplyUpdate` there, and how many are about to call it in `receiver`.
pub record Threads (K A : Type 0) : Type 0 where
  pub server : UpdateServer K A
  pub copying : ℕ
  pub applying : ℕ
  pub checking : ℕ

-- The next call of some thread: a worker's `decRef` and `localUpdate` for a push, and the two halves
-- of `applyUpdate`; the receiver's `ghostUpdate` for an update of another server, which it
-- acknowledges, and its `tryApplyUpdate`; an acknowledgement that it counts.
pub data Turn (A : Type 0) : Type 0 where
  released : Chunk → Turn A
  added : List A → Turn A
  copied tried : Turn A
  collected : ℕ → List A → Turn A
  checked acknowledged : Turn A

module _ {K A : Type 0} ⦃o : Order K⦄ ⦃f : Float A⦄ (layer : ℕ) (name : K) where
  -- A turn for which no thread is ready does nothing.
  unfoldable pub turn : Turn A → Threads K A → Option (Threads K A × List (Publication K A))
  turn (released c) t = do
    s ← release_tensor layer name c t.server
    some (record t { server = s }, [])
  turn (added us) t = do
    r ← add_local layer name us t.server
    some (record t { server = r.1; copying = if r.0 then t.copying + 1 else t.copying }, [])
  turn copied t = if t.copying == 0 then some (t, []) else do
    r ← publish_update layer name t.server
    some (record t { server = r.0; copying = t.copying - 1; applying = t.applying + 1 }, r.1)
  turn tried t = if t.applying == 0 then some (t, []) else do
    s ← try_own layer name t.server
    some (record t { server = s; applying = t.applying - 1 }, [])
  turn (collected sender us) t = do
    r ← add_ghost layer name us t.server
    some (
      record t { server = r.1; checking = if r.0 then t.checking + 1 else t.checking },
      ack_msg sender ∷ [],
    )
  turn checked t = if t.checking == 0 then some (t, []) else do
    s ← try_tensor layer name none t.server
    some (record t { server = s; checking = t.checking - 1 }, [])
  turn acknowledged t = some (record t { server = count_ack t.server }, [])

  unfoldable pub turns : List (Turn A) → Threads K A → Option (Threads K A × List (Publication K A))
  turns [] t = some (t, [])
  turns (a ∷ ts) t = do r ← turn a t; q ← turns ts r.0; some (q.0, r.1 ++ q.1)

-- The threads on their way through a handler.
abbrev pub working : {K A : Type 0} → Threads K A → ℕ
working t = t.copying + t.applying + t.checking

module _ {A : Type 0} where
  abbrev pub locals_in : List (Turn A) → ℕ
  locals_in [] = 0
  locals_in (added us ∷ ts) = suc (locals_in ts)
  locals_in (released c ∷ ts) = locals_in ts
  locals_in (copied ∷ ts) = locals_in ts
  locals_in (tried ∷ ts) = locals_in ts
  locals_in (collected x us ∷ ts) = locals_in ts
  locals_in (checked ∷ ts) = locals_in ts
  locals_in (acknowledged ∷ ts) = locals_in ts

  -- The updates of the other servers, each with its sender.
  abbrev pub ghosts_of : List (Turn A) → List (ℕ × List A)
  ghosts_of [] = []
  ghosts_of (collected x us ∷ ts) = (x, us) ∷ ghosts_of ts
  ghosts_of (added us ∷ ts) = ghosts_of ts
  ghosts_of (released c ∷ ts) = ghosts_of ts
  ghosts_of (copied ∷ ts) = ghosts_of ts
  ghosts_of (tried ∷ ts) = ghosts_of ts
  ghosts_of (checked ∷ ts) = ghosts_of ts
  ghosts_of (acknowledged ∷ ts) = ghosts_of ts

  abbrev pub acks_in : List (Turn A) → ℕ
  acks_in [] = 0
  acks_in (acknowledged ∷ ts) = suc (acks_in ts)
  acks_in (added us ∷ ts) = acks_in ts
  acks_in (released c ∷ ts) = acks_in ts
  acks_in (copied ∷ ts) = acks_in ts
  acks_in (tried ∷ ts) = acks_in ts
  acks_in (collected x us ∷ ts) = acks_in ts
  acks_in (checked ∷ ts) = acks_in ts

  -- When `m` pushes are still to come: after the last of them, a worker publishes before the receiver
  -- next tries to apply.
  abbrev pub prompt : ℕ → List (Turn A) → Bool
  prompt m [] = true
  prompt m (added us ∷ ts) = prompt (m - 1) ts
  prompt m (copied ∷ ts) = let rest = prompt m ts in if m == 0 then true else rest
  prompt m (checked ∷ ts) = let rest = prompt m ts in if m == 0 then false else rest
  prompt m (released c ∷ ts) = prompt m ts
  prompt m (tried ∷ ts) = prompt m ts
  prompt m (collected x us ∷ ts) = prompt m ts
  prompt m (acknowledged ∷ ts) = prompt m ts

  -- The arrays have `n` elements.
  abbrev pub Fits : ℕ → List (Turn A) → Type 0
  Fits n [] = Unit {0}
  Fits n (added us ∷ ts) = (length us ≡ n) × Fits n ts
  Fits n (collected x us ∷ ts) = (length us ≡ n) × Fits n ts
  Fits n (released c ∷ ts) = Fits n ts
  Fits n (copied ∷ ts) = Fits n ts
  Fits n (tried ∷ ts) = Fits n ts
  Fits n (checked ∷ ts) = Fits n ts
  Fits n (acknowledged ∷ ts) = Fits n ts

  -- The pushed gradients added up, in the order in which they are added.
  abbrev pub add_locals : ⦃f : Float A⦄ → List A → List (Turn A) → List A
  add_locals ls [] = ls
  add_locals ⦃f⦄ ls (added us ∷ ts) = add_locals (zip_with f.add ls us) ts
  add_locals ls (released c ∷ ts) = add_locals ls ts
  add_locals ls (copied ∷ ts) = add_locals ls ts
  add_locals ls (tried ∷ ts) = add_locals ls ts
  add_locals ls (collected x us ∷ ts) = add_locals ls ts
  add_locals ls (checked ∷ ts) = add_locals ls ts
  add_locals ls (acknowledged ∷ ts) = add_locals ls ts

  -- Those of the other servers, likewise.
  abbrev pub add_ghosts : ⦃f : Float A⦄ → List A → List (ℕ × List A) → List A
  add_ghosts gs [] = gs
  add_ghosts ⦃f⦄ gs ((x, us) ∷ gg) = add_ghosts (zip_with f.add gs us) gg

abbrev pub senders : {A : Type 0} → List (ℕ × List A) → List ℕ
senders [] = []
senders ((x, us) ∷ gg) = x ∷ senders gg

-- What is published: the updates, and whose are acknowledged.
abbrev pub updates_of : {K A : Type 0} → List (Publication K A) → List (ℕ × K × List A)
updates_of [] = []
updates_of (update_msg layer name us ∷ ps) = (layer, name, us) ∷ updates_of ps
updates_of (ack_msg x ∷ ps) = updates_of ps

abbrev pub acked_of : {K A : Type 0} → List (Publication K A) → List ℕ
acked_of [] = []
acked_of (update_msg layer name us ∷ ps) = acked_of ps
acked_of (ack_msg x ∷ ps) = x ∷ acked_of ps

-- A synchronous GCN server with `others` others, whose tensor collects: `lc` and `gc` updates have come,
-- and add up to `ls` and `gs`. At most `b` chunks are bound to the tensor.
pub record Gathers {K A : Type 0} ⦃o : Order K⦄ (layer : ℕ) (name : K) (others n local_tot : ℕ)
    (lc gc : ℕ) (ls gs : List A) (ver : ℕ) (ws : List A) (opt : Adam A) (epoch ack b : ℕ)
    (s : UpdateServer K A) : Type 0 where
  pub tensor : WeightTensor
  pub heap : Heap A
  pub found : tensor_at layer name s ≡ some (tensor, heap)
  pub collects : Collects n local_tot others lc gc ls gs ver ws tensor heap
  pub is_gcn : s.gnn_type ≡ gcn
  pub is_sync : s.sync ≡ true
  pub of_nodes : s.num_node ≡ others + 1
  pub has_opt : s.adam_opt ≡ opt
  pub has_epoch : s.epoch ≡ epoch
  pub has_ack : s.ack_cnt ≡ ack
  pub few : size tensor.chunk2ver ≤ b
