-- ===== src/Engine/Scatter/Tests.antt =====
-- An engine with two vertices, which are both ghosts of the other.
use dorylus.Prelude.{
  ℕ, zero, suc, ◌+◌, ◌≡◌, ◌≢◌, ◌<◌, refl, List, [], ◌∷◌, some, true, false, arith, u32_mod, length,
  All, subst, sym, Bool-cases, inl, inr, if◌then◌else◌, ◌==◌,
}
use dorylus.Prelude.Map.{Map, find, nat_order}
use dorylus.Chunk.{forward, Chunk}
use dorylus.Engine.Scatter.Defs.{
  Message, Sender, batch_size, dests_of, vertex_at, vertices_at, scatter_gcn, feat_layer,
}
use dorylus.Engine.Scatter.Buckets.{DestsIn}
use dorylus.Engine.Scatter.Batches.{carried}
use dorylus.Engine.Scatter.Send.{addressed, IsSent}
use dorylus.Engine.Scatter.Whole.{wanted_of, scatter_gcn-carried}
use dorylus.Engine.Scatter.Receive.{Receiver, receive_all}
use dorylus.Engine.Scatter.Rows.{IsInjective, RowIs, IsValue}
use dorylus.Engine.Scatter.Deliver.{IsReady}
use dorylus.Engine.Scatter.Arrive.{scatter_gcn-receive_all}

abbrev chunk : Chunk
chunk = record {
  local_id = 0;
  global_id = 0;
  low_bound = 0;
  up_bound = 2;
  layer = 1;
  dir = forward;
  epoch = 1;
  vertex = true;
}

abbrev engine : Sender
engine = record {
  node_id = 0;
  num_nodes = 2;
  is_gcn = true;
  async = false;
  local_to_global_id = 5 ∷ 7 ∷ [];
  forward_ghost_map = (0, 1 ∷ []) ∷ (1, 1 ∷ []) ∷ [];
  backward_ghost_map = [];
}

abbrev tensor : List (List ℕ)
tensor = (50 ∷ 51 ∷ []) ∷ (70 ∷ 71 ∷ []) ∷ []

dests : DestsIn 2 engine.forward_ghost_map
unfolding dests_of find
dests zero = (omega arith, tt)
dests (suc zero) = (omega arith, tt)
dests (suc (suc lvid)) =
    let gone : dests_of engine.forward_ghost_map (suc (suc lvid)) ≡ [] = ground arith in
    subst (λ l. All (λ n. n < 2) l) (sym gone) tt

-- Whatever the node, the two vertices and a batch are few.
room : (nid : ℕ) → length (wanted_of engine chunk nid) + batch_size 2 < u32_mod
unfolding dests_of find batch_size
room nid = elim (Bool-cases (1 == nid)) [
  | inl hit ↦ rw hit (omega arith)
  | inr miss ↦ rw miss (omega arith)
]

scatter_gcn-carried_example :
    (ms : List (Message ℕ)) × (cnt : ℕ) × (scatter_gcn engine tensor 2 chunk 0 ≡ some (ms, cnt))
    × All (IsSent engine chunk 2) ms
    × (addressed 0 ms ≡ [])
    × ((nid : ℕ)
        → nid < 2
        → nid ≢ 0
        → vertices_at engine tensor (wanted_of engine chunk nid)
          ≡ some (carried (addressed nid ms)))
scatter_gcn-carried_example =
    scatter_gcn-carried engine tensor 2 0 chunk (omega arith) (omega arith) (omega arith) dests room

abbrev ids : Map ℕ ℕ
ids = (5, 2) ∷ (7, 3) ∷ []

ids-IsInjective : IsInjective ids
unfolding find
ids-IsInjective k j l p q = ground (arith, p, q)

abbrev value : ℕ → List ℕ
value gvid = if gvid == 5 then 50 ∷ 51 ∷ [] else 70 ∷ 71 ∷ []

abbrev other : Receiver ℕ
other = record {
  local_vtx_cnt = 2;
  async = false;
  curr_dir = forward;
  src_ghosts = record { ids = ids; cnt = 2; tensors = (1, (0 ∷ 0 ∷ []) ∷ (0 ∷ 0 ∷ []) ∷ []) ∷ [] };
  dst_ghosts = record { ids = []; cnt = 0; tensors = [] };
  recv_cnt = 0;
  ghost_vtcs_recvd = 0;
  acks = [];
  signals = 0;
}

other-IsReady : IsReady forward 1 2 2 ids other
unfolding find
other-IsReady = record { cnt = refl; known = refl; tensor = _; at = refl; sized = refl }

values :
    (lvid : ℕ) (v : ℕ × List ℕ)
    → vertex_at engine tensor lvid ≡ some v
    → IsValue 2 2 ids (omega arith) ids-IsInjective value v
unfolding vertex_at find
values zero v e =
    let q : (5, 50 ∷ 51 ∷ []) ≡ v = cc e in
    subst (IsValue 2 2 ids (omega arith) ids-IsInjective value) q
      ((2, refl, omega arith, omega arith), refl)
values (suc zero) v e =
    let q : (7, 70 ∷ 71 ∷ []) ≡ v = cc e in
    subst (IsValue 2 2 ids (omega arith) ids-IsInjective value) q
      ((3, refl, omega arith, omega arith), refl)
values (suc (suc lvid)) v e = absurd (cc e)

scatter_gcn-receive_all_example :
    (ms : List (Message ℕ)) × (cnt : ℕ) × (r : Receiver ℕ) × (t : List (List ℕ)) × (scatter_gcn
        engine tensor 2 chunk 0
      ≡ some (ms, cnt))
    × (receive_all (addressed 1 ms) other ≡ some r)
    × (find 1 r.src_ghosts.tensors ≡ some t)
    × All
        (λ lvid.
          (v : ℕ × List ℕ) × (vertex_at engine tensor lvid ≡ some v) × RowIs 2 2 ids t v.0 v.1)
        (0 ∷ 1 ∷ [])
unfolding dests_of find feat_layer
scatter_gcn-receive_all_example =
    scatter_gcn-receive_all engine tensor chunk 2 2 ids (omega arith) ids-IsInjective value 2 0 1
      other (omega arith) (omega arith) (omega arith) dests room (omega arith)
      (λ e. omega (arith, e)) other-IsReady values
