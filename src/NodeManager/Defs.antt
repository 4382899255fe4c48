-- ===== src/NodeManager/Defs.antt =====
-- `NodeManager` of graph-server/nodemanager/nodemanager.cpp and the members of `Engine` that it
-- counts in. The socket's messages are a list in the order of their arrival.
use dorylus.Prelude.{
  ℕ, ◌%◌, List, [], ◌∷◌, Bool, true, false, Option, none, some, ltb, ◌==◌, if◌then◌else◌, ◌>>=◌,
  add32, sub32, get_elem?, set, uint_max,
}
use dorylus.NodeManager.Message.{NodeMessageType, NodeMessage}

-- `min_epoch`, `nodes_finished_epoch` and `staleness` are the engine's; `num_nodes` is also
-- `allNodes.size()`. The messages that were published stand in `published`, the last one first.
pub record NodeManager : Type 0 where
  pub me : ℕ
  pub num_nodes : ℕ
  pub stand_alone : Bool
  pub remaining : ℕ
  pub in_barrier : Bool
  pub staleness : ℕ
  pub min_epoch : ℕ
  pub nodes_finished_epoch : List ℕ
  pub published : List NodeMessage

-- A call that waits for messages faults, waits for ever with all messages read, or returns a value
-- and leaves the messages that it did not read.
pub data Receipt (A : Type 0) : Type 0 where
  fault : Receipt A
  waits : NodeManager → Receipt A
  returns : A → NodeManager → List NodeMessage → Receipt A

-- A node has finished an epoch. The division by zero and an index past the vector are faults.
unfoldable pub count_node : ℕ → NodeManager → Option NodeManager
count_node epoch p =
    let slots = add32 p.staleness 1 in
    if slots == 0 then none else (do
      let ind = epoch % slots
      n ← get_elem? p.nodes_finished_epoch ind
      let n' = add32 n 1
      some (
          if n' == p.num_nodes
          then record p {
            min_epoch = add32 p.min_epoch 1;
            nodes_finished_epoch = set p.nodes_finished_epoch ind 0;
          }
          else record p { nodes_finished_epoch = set p.nodes_finished_epoch ind n' }))

unfoldable pub parse_node_msg : NodeMessage → NodeManager → Option (NodeManager × Bool)
parse_node_msg m p = elim m.message_type [
  | NodeMessageType.barrier ↦ some (record p { remaining = sub32 p.remaining 1 }, true)
  | NodeMessageType.min_epoch ↦
      if m.id == p.me then some (p, true) else (count_node m.info p >>= λ p'. some (p', true))
  | _ ↦ some (p, false)
]

unfoldable pub publish : NodeMessage → NodeManager → NodeManager
publish m p = record p { published = m ∷ p.published }

unfoldable pub send_epoch_update : ℕ → NodeManager → Option NodeManager
send_epoch_update epoch p =
    count_node epoch
      (publish (record { message_type = NodeMessageType.min_epoch; info = epoch; id = p.me }) p)

-- The messages that have arrived, until the socket has none.
unfoldable pub read_epoch_updates : List NodeMessage → NodeManager → Option NodeManager
read_epoch_updates [] p = some p
read_epoch_updates (m ∷ ms) p = parse_node_msg m p >>= λ r. read_epoch_updates ms r.0

-- The loop of `barrier`.
unfoldable pub barrier_loop : List NodeMessage → NodeManager → Receipt (Unit {0})
barrier_loop [] p = if ltb 0 p.remaining then waits p else returns tt p []
barrier_loop (m ∷ ms) p =
    let rest : Receipt (Unit {0}) = elim (parse_node_msg m p) [
      | none ↦ fault
      | some (p', _) ↦ barrier_loop ms p'
    ] in
    if ltb 0 p.remaining then rest else returns tt p (m ∷ ms)

-- `inBarrier = false` behind the loop.
unfoldable pub leave : Receipt (Unit {0}) → Receipt (Unit {0})
leave fault = fault
leave (waits p) = waits p
leave (returns u p ms) = returns u (record p { in_barrier = false }) ms

unfoldable pub barrier : List NodeMessage → NodeManager → Receipt (Unit {0})
barrier ms p =
    if p.stand_alone
    then returns tt p ms
    else (let p1 = record p { in_barrier = true } in
        let p2 =
          publish (record { message_type = NodeMessageType.barrier; info = 0; id = uint_max }) p1 in
        leave (barrier_loop ms (record p2 { remaining = add32 p2.remaining p2.num_nodes })))

-- The loop of `syncCurrEpoch`: the number of messages received, and the greatest epoch so far.
unfoldable pub sync_loop : List NodeMessage → ℕ → ℕ → NodeManager → Receipt ℕ
sync_loop [] received best p = if ltb received p.num_nodes then waits p else returns best p []
sync_loop (m ∷ ms) received best p =
    let rest : Receipt ℕ = elim m.message_type [
      | NodeMessageType.max_epoch ↦
          sync_loop ms (add32 received 1) (if ltb best m.info then m.info else best) p
      | _ ↦ elim (parse_node_msg m p) [
        | none ↦ fault
        | some (p', _) ↦ sync_loop ms received best p'
      ]
    ] in
    if ltb received p.num_nodes then rest else returns best p (m ∷ ms)

unfoldable pub sync_curr_epoch : ℕ → List NodeMessage → NodeManager → Receipt ℕ
sync_curr_epoch epoch ms p =
    sync_loop ms 0 epoch
      (publish (record { message_type = NodeMessageType.max_epoch; info = epoch; id = p.me }) p)
