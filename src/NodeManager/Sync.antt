-- ===== src/NodeManager/Sync.antt =====
-- `syncCurrEpoch`: when it returns, and what.
use dorylus.Prelude.{
  ℕ, zero, suc, ◌+◌, ◌≤◌, ◌<◌, ◌≡◌, refl, sym, ap, ◌∙◌, List, [], ◌∷◌, some, Bool, arith, ltb, leb,
  if◌then◌else◌, add32, add32-eq, length, u32_mod,
}
use dorylus.NodeManager.Message.{NodeMessageType, NodeMessage}
use dorylus.NodeManager.Defs.{
  NodeManager, Receipt, waits, returns, parse_node_msg, publish, sync_loop, sync_curr_epoch,
}
use dorylus.NodeManager.Epochs.{IsValid}
use dorylus.NodeManager.Slots.{get_elem?_total}
use dorylus.NodeManager.Updates.{length-updates-le, parse_node_msg-Counts}

-- The epochs that the nodes announce, in the order of the messages.
abbrev pub max_epochs : List NodeMessage → List ℕ
max_epochs [] = []
max_epochs (m ∷ ms) = elim m.message_type [
  | NodeMessageType.max_epoch ↦ m.info ∷ max_epochs ms
  | _ ↦ max_epochs ms
]

abbrev pub max : ℕ → ℕ → ℕ
max a b = if ltb a b then b else a

-- The greatest of a number and the first `n` numbers of a list.
abbrev pub greatest : ℕ → ℕ → List ℕ → ℕ
greatest zero best es = best
greatest (suc n) best [] = best
greatest (suc n) best (e ∷ es) = greatest n (max best e) es

-- A step of the loop that reads another message keeps what the loop needs.
pub parse-IsValid :
    (m : NodeMessage) (p : NodeManager)
    → IsValid p
    → p.min_epoch + 1 < u32_mod
    → (p' : NodeManager) × (b : Bool) × (parse_node_msg m p ≡ some (p', b))
      × IsValid p'
      × (p'.min_epoch ≤ p.min_epoch + 1)
      × (p'.num_nodes ≡ p.num_nodes)
parse-IsValid m p v room =
    let (x, e) = get_elem?_total p.nodes_finished_epoch 0 (omega (arith, v.sized)) in
    let (p', b, q, c) = parse_node_msg-Counts m p 0 v room e in
    (p', b, q, c.valid, omega (arith, c.bounded, length-updates-le p.me (m ∷ [])), c.same.num_nodes)

-- How a call ends that wants `k` more announcements.
abbrev ending : ℕ → ℕ → List NodeMessage → NodeManager → List NodeMessage → Receipt ℕ
ending k best ms p' rest =
    if leb k (length (max_epochs ms))
    then returns (greatest k best (max_epochs ms)) p' rest
    else waits p'

abbrev Ends : List NodeMessage → ℕ → ℕ → ℕ → NodeManager → Type 0
Ends ms k received best p =
    (p' : NodeManager) × (rest : List NodeMessage) × (sync_loop ms received best p
      ≡ ending k best ms p' rest)

-- One message, with what the loop does on the others.
sync_loop_cons :
    (m : NodeMessage) (ms : List NodeMessage) (k received best : ℕ) (p : NodeManager)
    → IsValid p
    → p.min_epoch + 1 < u32_mod
    → received < p.num_nodes
    → Ends ms k (add32 received 1) (max best m.info) p
    → ((p1 : NodeManager)
        → IsValid p1
        → p1.min_epoch ≤ p.min_epoch + 1
        → p1.num_nodes ≡ p.num_nodes
        → Ends ms (suc k) received best p1)
    → Ends (m ∷ ms) (suc k) received best p
unfolding sync_loop
sync_loop_cons m ms k received best p v room lt announced other = by_type m.message_type refl
  where
    parsed :
        max_epochs (m ∷ ms) ≡ max_epochs ms
        → ((p1 : NodeManager) (b : Bool)
            → parse_node_msg m p ≡ some (p1, b)
            → sync_loop (m ∷ ms) received best p ≡ sync_loop ms received best p1)
        → Ends (m ∷ ms) (suc k) received best p
    parsed same step =
        let (p1, b, q, v1, low, num) = parse-IsValid m p v room in
        let (p2, rest, e) = other p1 v1 low num in
        (
          p2,
          rest,
          step p1 b q
              ∙ e
              ∙ ap
                  (λ es.
                    if leb (suc k) (length es)
                    then returns (greatest (suc k) best es) p2 rest
                    else waits p2)
                  (sym same),
        )

    by_type : (t : NodeMessageType) → m.message_type ≡ t → Ends (m ∷ ms) (suc k) received best p
    by_type NodeMessageType.max_epoch h =
        let (p2, rest, e) = announced in (p2, rest, ground (arith, h, e))
    by_type _ h = parsed (ground (arith, h)) (λ p1 b q. ground (arith, h, q))

sync_loop-Ends :
    (ms : List NodeMessage) (k received best : ℕ) (p : NodeManager)
    → IsValid p
    → p.min_epoch + length ms < u32_mod
    → received + k ≡ p.num_nodes
    → Ends ms k received best p
unfolding sync_loop
sync_loop-Ends [] zero received best p v room n = (p, [], ground arith)
sync_loop-Ends [] (suc k) received best p v room n = (p, [], ground arith)
sync_loop-Ends (m ∷ ms) zero received best p v room n = (p, m ∷ ms, ground arith)
sync_loop-Ends (m ∷ ms) (suc k) received best p v room n =
    sync_loop_cons m ms k received best p v (omega arith) (omega arith)
      (sync_loop-Ends ms k (add32 received 1) (max best m.info) p v (omega arith)
        (omega (arith, v.few_nodes, add32-eq received 1)))
      (λ p1 v1 low num. sync_loop-Ends ms (suc k) received best p1 v1 (omega arith) (n ∙ sym num))

pub publish-IsValid : (m : NodeMessage) (p : NodeManager) → IsValid p → IsValid (publish m p)
unfolding publish
publish-IsValid m p v = record {
  small = v.small;
  some_node = v.some_node;
  few_nodes = v.few_nodes;
  sized = v.sized;
  below = v.below;
}

-- On a node that counts epochs, with a minimal epoch that cannot wrap, the call returns if and
-- only if at least as many MAXEPOCH messages arrive as there are nodes, and then with the greatest
-- of its own epoch and the first that many announced; otherwise it waits for ever.
pub sync_curr_epoch-ends :
    (epoch : ℕ) (ms : List NodeMessage) (p : NodeManager)
    → IsValid p
    → p.min_epoch + length ms < u32_mod
    → (p' : NodeManager) × (rest : List NodeMessage) × (sync_curr_epoch epoch ms p ≡ (
        if leb p.num_nodes (length (max_epochs ms))
        then returns (greatest p.num_nodes epoch (max_epochs ms)) p' rest
        else waits p'))
unfolding sync_curr_epoch publish
sync_curr_epoch-ends epoch ms p v room =
    sync_loop-Ends ms p.num_nodes 0 epoch
      (publish (record { message_type = NodeMessageType.max_epoch; info = epoch; id = p.me }) p)
      (publish-IsValid
        (record { message_type = NodeMessageType.max_epoch; info = epoch; id = p.me }) p v)
      room (omega arith)
