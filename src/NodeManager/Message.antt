-- ===== src/NodeManager/Message.antt =====
-- `NodeMessage` of graph-server/nodemanager/nodemanager.hpp.
use dorylus.Prelude.{ℕ}

pub data NodeMessageType : Type 0 where
  node_none master_up worker_up init_done barrier min_epoch max_epoch : NodeMessageType

pub record NodeMessage : Type 0 where
  pub message_type : NodeMessageType
  pub info : ℕ
  pub id : ℕ
