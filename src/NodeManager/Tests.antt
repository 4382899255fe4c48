-- ===== src/NodeManager/Tests.antt =====
-- Three nodes with a staleness of 1.
use dorylus.Prelude.{
  ℕ, ◌-◌, ◌≡◌, inl, refl, List, [], ◌∷◌, some, false, arith, leb, if◌then◌else◌, length, add32,
  sub32, uint_max,
}
use mathlib.Core.List.{Permᴰ, Memᴰ}
use dorylus.NodeManager.Message.{NodeMessageType, NodeMessage}
use dorylus.NodeManager.Defs.{
  NodeManager, waits, returns, read_epoch_updates, barrier, sync_curr_epoch, parse_node_msg,
  count_node,
}
use dorylus.NodeManager.Epochs.{IsValid, updates}
use dorylus.NodeManager.Updates.{Counts, read_epoch_updates-Counts}
use dorylus.NodeManager.Sync.{max_epochs, greatest, sync_curr_epoch-ends}
use dorylus.NodeManager.Agreement.{sync_curr_epoch-sync_curr_epoch}
use dorylus.NodeManager.Barrier.{barriers, behind, barrier-ends}

abbrev node : NodeManager
node = record {
  me = 0;
  num_nodes = 3;
  stand_alone = false;
  remaining = sub32 0 1;
  in_barrier = false;
  staleness = 1;
  min_epoch = 4;
  nodes_finished_epoch = 2 ∷ 1 ∷ [];
  published = [];
}

abbrev message : NodeMessageType → ℕ → ℕ → NodeMessage
message t info id = record { message_type = t; info = info; id = id }

node-IsValid : IsValid node
node-IsValid = record {
  small = omega arith;
  some_node = omega arith;
  few_nodes = omega arith;
  sized = refl;
  below = (omega arith, (omega arith, tt));
}

abbrev inbox : List NodeMessage
inbox =
    message NodeMessageType.min_epoch 4 1
    ∷ message NodeMessageType.min_epoch 5 0
    ∷ message NodeMessageType.min_epoch 5 2
    ∷ []

reads_three :
    read_epoch_updates inbox node
    ≡ some (record node { min_epoch = 5; nodes_finished_epoch = 0 ∷ 2 ∷ [] })
unfolding read_epoch_updates parse_node_msg count_node add32
reads_three = refl

read_epoch_updates-Counts_example :
    (p' : NodeManager) × (read_epoch_updates inbox node ≡ some p')
    × Counts node p' (updates 0 inbox) 0 2
read_epoch_updates-Counts_example =
    read_epoch_updates-Counts inbox node 0 node-IsValid (omega arith) refl

abbrev announcements : List NodeMessage
announcements =
    message NodeMessageType.max_epoch 6 0
    ∷ message NodeMessageType.min_epoch 4 1
    ∷ message NodeMessageType.max_epoch 5 1
    ∷ message NodeMessageType.max_epoch 7 2
    ∷ []

abbrev announcements' : List NodeMessage
announcements' =
    message NodeMessageType.max_epoch 5 1
    ∷ message NodeMessageType.max_epoch 6 0
    ∷ message NodeMessageType.max_epoch 7 2
    ∷ []

abbrev other_node : NodeManager
other_node = record node { me = 1 }

other_node-IsValid : IsValid other_node
other_node-IsValid = record {
  small = omega arith;
  some_node = omega arith;
  few_nodes = omega arith;
  sized = refl;
  below = (omega arith, (omega arith, tt));
}

sync_curr_epoch-ends_example :
    (p' : NodeManager) × (rest : List NodeMessage) × (sync_curr_epoch 6 announcements node ≡ (
      if leb 3 (length (max_epochs announcements))
      then returns (greatest 3 6 (max_epochs announcements)) p' rest
      else waits p'))
sync_curr_epoch-ends_example = sync_curr_epoch-ends 6 announcements node node-IsValid (omega arith)

sync_curr_epoch-sync_curr_epoch_example :
    (last : ℕ) × (p' q' : NodeManager) × (rest rest' : List NodeMessage) × (sync_curr_epoch 6
        announcements node
      ≡ returns last p' rest)
    × (sync_curr_epoch 5 announcements' other_node ≡ returns last q' rest')
sync_curr_epoch-sync_curr_epoch_example =
    sync_curr_epoch-sync_curr_epoch 6 5 announcements announcements' node other_node node-IsValid
      other_node-IsValid (omega arith) (omega arith) refl refl (Permᴰ.swap refl refl)
      (Memᴰ.head refl) (Memᴰ.head refl)

abbrev arrivals : List NodeMessage
arrivals =
    message NodeMessageType.barrier 0 uint_max
    ∷ message NodeMessageType.barrier 0 uint_max
    ∷ message NodeMessageType.barrier 0 uint_max
    ∷ []

barrier-ends_example :
    (p' : NodeManager) × (barrier arrivals node ≡ (
      if leb (3 - 1) (barriers arrivals)
      then returns tt p' (behind (3 - 1) arrivals)
      else waits p'))
    × (p'.remaining ≡ (3 - 1) - barriers arrivals)
barrier-ends_example =
    barrier-ends arrivals 1 node (inl node-IsValid) (omega arith) (omega arith) (omega arith) refl
      refl
