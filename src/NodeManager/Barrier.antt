-- ===== src/NodeManager/Barrier.antt =====
-- The barrier: it ends with the message that it waits for, however many arrived before it began.
use dorylus.Prelude.{
  ℕ, zero, suc, ◌+◌, ◌-◌, ◌≤◌, ◌<◌, ◌≡◌, ◌⊎◌, refl, ap, ◌∙◌, inl, inr, List, [], ◌∷◌, some, Bool,
  true, false, arith, leb, ◌==◌, if◌then◌else◌, add32, sub32, sub32-eq, get_elem?, length, u32_mod,
  Bool-cases, Option-cases, ◌%◌, uint_max,
}
use dorylus.NodeManager.Message.{NodeMessageType, NodeMessage}
use dorylus.NodeManager.Defs.{
  NodeManager, waits, returns, count_node, parse_node_msg, publish, barrier_loop, leave, barrier,
}
use dorylus.NodeManager.Epochs.{IsValid, updates}
use dorylus.NodeManager.Sync.{parse-IsValid}

-- The number of the barrier messages.
abbrev pub barriers : List NodeMessage → ℕ
barriers [] = 0
barriers (m ∷ ms) = elim m.message_type [
  | NodeMessageType.barrier ↦ suc (barriers ms)
  | _ ↦ barriers ms
]

-- The messages behind the `k`-th barrier message.
abbrev pub behind : ℕ → List NodeMessage → List NodeMessage
behind zero ms = ms
behind (suc k) [] = []
behind (suc k) (m ∷ ms) = elim m.message_type [
  | NodeMessageType.barrier ↦ behind k ms
  | _ ↦ behind (suc k) ms
]

abbrev Ends : List NodeMessage → ℕ → NodeManager → Type 0
Ends ms k p =
    (p' : NodeManager) × (barrier_loop ms p
      ≡ (if leb k (barriers ms) then returns tt p' (behind k ms) else waits p'))
    × (p'.remaining ≡ k - barriers ms)

-- No message makes the node fault: it counts epochs, or none of the messages is about one.
abbrev pub Ready : List NodeMessage → NodeManager → Type 0
Ready ms p = IsValid p ⊎ (updates p.me ms ≡ [])

count_node-remaining :
    (epoch : ℕ) (p : NodeManager) {p' : NodeManager}
    → count_node epoch p ≡ some p'
    → p'.remaining ≡ p.remaining
unfolding count_node
count_node-remaining epoch p e =
    elim (Option-cases (get_elem? p.nodes_finished_epoch (epoch % add32 p.staleness 1))) [
      | inl n ↦ ground (arith, e, n)
      | inr (x, q) ↦ ground (arith, e, q)
    ]

parse_node_msg-remaining :
    (m : NodeMessage) (p : NodeManager) {p' : NodeManager} {b : Bool}
    → parse_node_msg m p ≡ some (p', b)
    → p'.remaining
      ≡ elim m.message_type [ NodeMessageType.barrier ↦ sub32 p.remaining 1 | _ ↦ p.remaining ]
unfolding parse_node_msg
parse_node_msg-remaining m p {p'} {b} e = by_type m.message_type refl
  where
    by_type :
        (t : NodeMessageType)
        → m.message_type ≡ t
        → p'.remaining
          ≡ elim m.message_type [ NodeMessageType.barrier ↦ sub32 p.remaining 1 | _ ↦ p.remaining ]
    by_type NodeMessageType.min_epoch h = elim (Bool-cases (m.id == p.me)) [
      | inl own ↦ ground (arith, h, e, own)
      | inr other ↦ elim (Option-cases (count_node m.info p)) [
        | inl n ↦ ground (arith, h, e, other, n)
        | inr (p2, c) ↦ ground (arith, h, e, other, c, count_node-remaining m.info p c)
      ]
    ]
    by_type _ h = ground (arith, h, e)

parse-Ready :
    (m : NodeMessage) (ms : List NodeMessage) (p : NodeManager)
    → Ready (m ∷ ms) p
    → p.min_epoch + 1 < u32_mod
    → (p' : NodeManager) × (b : Bool) × (parse_node_msg m p ≡ some (p', b))
      × Ready ms p'
      × (p'.min_epoch ≤ p.min_epoch + 1)
unfolding parse_node_msg
parse-Ready m ms p (inl v) room =
    let (p', b, e, v', low, n) = parse-IsValid m p v room in (p', b, e, inl v', low)
parse-Ready m ms p (inr none_other) room = by_type m.message_type refl
  where
    by_type :
        (t : NodeMessageType)
        → m.message_type ≡ t
        → (p' : NodeManager) × (b : Bool) × (parse_node_msg m p ≡ some (p', b))
          × Ready ms p'
          × (p'.min_epoch ≤ p.min_epoch + 1)
    by_type NodeMessageType.barrier h = (
      record p { remaining = sub32 p.remaining 1 },
      true,
      ground (arith, h),
      inr (ground (arith, h)),
      omega arith,
    )
    by_type NodeMessageType.min_epoch h =
        (p, true, ground (arith, h), inr (ground (arith, h)), omega arith)
    by_type _ h = (p, false, ground (arith, h), inr (ground (arith, h)), omega arith)

barrier_loop-Ends :
    (ms : List NodeMessage) (k : ℕ) (p : NodeManager)
    → Ready ms p
    → p.min_epoch + length ms < u32_mod
    → k < u32_mod
    → p.remaining ≡ k
    → Ends ms k p
unfolding barrier_loop
barrier_loop-Ends [] zero p v room small n = (p, ground arith, ground arith)
barrier_loop-Ends [] (suc k) p v room small n = (p, ground arith, ground arith)
barrier_loop-Ends (m ∷ ms) zero p v room small n = (p, ground arith, ground arith)
barrier_loop-Ends (m ∷ ms) (suc k) p v room small n =
    let (p1, b, q, v1, low) = parse-Ready m ms p v (omega arith) in
    cons m.message_type refl p1 b q (parse_node_msg-remaining m p q)
      (λ r. barrier_loop-Ends ms (suc k) p1 v1 (omega arith) small r)
      (λ r. barrier_loop-Ends ms k p1 v1 (omega arith) (omega arith) r)
  where
    cons :
        (t : NodeMessageType)
        → m.message_type ≡ t
        → (p1 : NodeManager) (b : Bool) → parse_node_msg m p ≡ some (p1, b)
        → p1.remaining
          ≡ elim m.message_type [ NodeMessageType.barrier ↦ sub32 p.remaining 1 | _ ↦ p.remaining ]
        → (p1.remaining ≡ suc k → Ends ms (suc k) p1)
        → (p1.remaining ≡ k → Ends ms k p1)
        → Ends (m ∷ ms) (suc k) p
    cons NodeMessageType.barrier h p1 b q r same less =
        let (p2, e, f) = less (ground (arith, r, h, sub32-eq p.remaining 1)) in
        (p2, ground (arith, h, q, e), ground (arith, h, f))
    cons _ h p1 b q r same less =
        let (p2, e, f) = same (ground (arith, r, h)) in
        (p2, ground (arith, h, q, e), ground (arith, h, f))

-- The decrements of an unsigned counter that began at 0, and then the sum.
add32-sub32 : (n early : ℕ) → n < u32_mod → early ≤ n → add32 (sub32 0 early) n ≡ n - early
unfolding add32 sub32
add32-sub32 n early few le = omega arith

-- On a node that is not alone, and that counts epochs or gets no message about one, with `early`
-- barrier messages read since the last barrier, at most one for each node, the call returns
-- exactly when the rest of the nodes' messages have arrived, leaves what stands behind the last of
-- these unread, and leaves the counter at 0; otherwise it waits, with the counter at what is
-- missing.
pub barrier-ends :
    (ms : List NodeMessage) (early : ℕ) (p : NodeManager)
    → Ready ms p
    → p.min_epoch + length ms < u32_mod
    → p.num_nodes < u32_mod
    → early ≤ p.num_nodes
    → p.stand_alone ≡ false
    → p.remaining ≡ sub32 0 early
    → (p' : NodeManager) × (barrier ms p ≡ (
        if leb (p.num_nodes - early) (barriers ms)
        then returns tt p' (behind (p.num_nodes - early) ms)
        else waits p'))
      × (p'.remaining ≡ (p.num_nodes - early) - barriers ms)
unfolding barrier publish leave
barrier-ends ms early p v room few le alone n =
    let m : NodeMessage = record {
      message_type = NodeMessageType.barrier;
      info = 0;
      id = uint_max;
    } in
    let p1 = record p {
      in_barrier = true;
      remaining = add32 p.remaining p.num_nodes;
      published = m ∷ p.published;
    } in
    let (p2, e, f) =
      barrier_loop-Ends ms (p.num_nodes - early) p1 (begun v) room (omega arith)
        (ap (λ r. add32 r p.num_nodes) n ∙ add32-sub32 p.num_nodes early few le) in
    elim (Bool-cases (leb (p.num_nodes - early) (barriers ms))) [
      | inl heard ↦ (record p2 { in_barrier = false }, ground (arith, e, alone, heard), f)
      | inr missing ↦ (p2, ground (arith, e, alone, missing), f)
    ]
  where
    begun :
        Ready ms p
        → Ready ms (record p {
          in_barrier = true;
          remaining = add32 p.remaining p.num_nodes;
          published =
              (record { message_type = NodeMessageType.barrier; info = 0; id = uint_max })
              ∷ p.published;
        })
    begun (inl w) = inl (record {
      small = w.small;
      some_node = w.some_node;
      few_nodes = w.few_nodes;
      sized = w.sized;
      below = w.below;
    })
    begun (inr none_other) = inr none_other
