-- ===== src/NodeManager/Updates.antt =====
-- What any number of messages does to the counts and to the minimal epoch.
use dorylus.Prelude.{
  ℕ, ◌+◌, ◌%◌, ◌≤◌, ◌<◌, ◌≡◌, refl, sym, ap, ◌∙◌, ◌++◌, length-append, inl, inr, subst, List, [],
  ◌∷◌, some, Bool, true, false, arith, ◌==◌, ◌>>=◌, sub32, get_elem?, length, u32_mod, Bool-cases,
}
use native.Mathlib.Nat.{mod-eq_of_lt, mod-add-mod}
use dorylus.NodeManager.Message.{NodeMessageType, NodeMessage}
use dorylus.NodeManager.Defs.{NodeManager, parse_node_msg, read_epoch_updates}
use dorylus.NodeManager.Epochs.{
  IsValid, Same, IsBumped, counted, bump, bump-mod, updates, hits, count_node-IsBumped,
}
use dorylus.NodeManager.Slots.{get_elem?-AllBelow}

-- From `p` to `p'` the epochs `es` were counted, with slot `i` at `x` before them.
pub record Counts (p p' : NodeManager) (es : List ℕ) (i x : ℕ) : Type 0 where
  pub valid : IsValid p'
  pub same : Same p p'
  pub rises : p.min_epoch ≤ p'.min_epoch
  pub bounded : p'.min_epoch ≤ p.min_epoch + length es
  pub sum : counted p' ≡ counted p + length es
  pub slot :
      get_elem? p'.nodes_finished_epoch i ≡ some ((x + hits (p.staleness + 1) i es) % p.num_nodes)

module _ (p : NodeManager) (i : ℕ) {x : ℕ} (v : IsValid p)
    (e : get_elem? p.nodes_finished_epoch i ≡ some x) where
  below : x < p.num_nodes
  below = get_elem?-AllBelow p.num_nodes p.nodes_finished_epoch i v.below e

  Counts-idle : (r : ℕ) → Counts p (record p { remaining = r }) [] i x
  Counts-idle r = record {
    valid = record {
      small = v.small;
      some_node = v.some_node;
      few_nodes = v.few_nodes;
      sized = v.sized;
      below = v.below;
    };
    same = record { num_nodes = refl; staleness = refl; me = refl };
    rises = omega arith;
    bounded = omega arith;
    sum = omega arith;
    slot = ground (arith, e, mod-eq_of_lt below);
  }

  IsBumped-Counts :
      (epoch : ℕ) (p' : NodeManager) → IsBumped p p' epoch i x → Counts p p' (epoch ∷ []) i x
  IsBumped-Counts epoch p' b = record {
    valid = b.valid;
    same = b.same;
    rises = b.rises;
    bounded = b.bounded;
    sum = b.sum;
    slot = ground (
      arith,
      b.slot,
      mod-eq_of_lt below,
      bump-mod p.num_nodes x 0 below,
      mod-eq_of_lt {n = bump p.num_nodes x} {m = p.num_nodes},
    );
  }

module _ (m : NodeMessage) (p : NodeManager) (i : ℕ) {x : ℕ} (v : IsValid p)
    (room : p.min_epoch + 1 < u32_mod) (e : get_elem? p.nodes_finished_epoch i ≡ some x) where
  pub parse_node_msg-Counts :
      (p' : NodeManager) × (b : Bool) × (parse_node_msg m p ≡ some (p', b))
      × Counts p p' (updates p.me (m ∷ [])) i x
  unfolding parse_node_msg
  parse_node_msg-Counts = by_type m.message_type refl
    where
      as_updates :
          {p' : NodeManager} {es : List ℕ}
          → es ≡ updates p.me (m ∷ [])
          → Counts p p' es i x
          → Counts p p' (updates p.me (m ∷ [])) i x
      as_updates {p'} q c = subst (λ es. Counts p p' es i x) q c

      by_type :
          (t : NodeMessageType)
          → m.message_type ≡ t
          → (p' : NodeManager) × (b : Bool) × (parse_node_msg m p ≡ some (p', b))
            × Counts p p' (updates p.me (m ∷ [])) i x
      by_type NodeMessageType.barrier h = (
        record p { remaining = sub32 p.remaining 1 },
        true,
        ground (arith, h),
        as_updates (ground (arith, h)) (Counts-idle p i v e (sub32 p.remaining 1)),
      )
      by_type NodeMessageType.min_epoch h = elim (Bool-cases (m.id == p.me)) [
        | inl own ↦ (
          p,
          true,
          ground (arith, h, own),
          as_updates (ground (arith, h, own)) (Counts-idle p i v e p.remaining),
        )
        | inr other ↦
            let (p', c, b) = count_node-IsBumped m.info p i v room e in
            (
              p',
              true,
              ground (arith, h, other, c),
              as_updates (ground (arith, h, other)) (IsBumped-Counts p i v e m.info p' b),
            )
      ]
      by_type _ h = (
        p,
        false,
        ground (arith, h),
        as_updates (ground (arith, h)) (Counts-idle p i v e p.remaining),
      )

hits-append :
    (slots i : ℕ) (es fs : List ℕ) → hits slots i (es ++ fs) ≡ hits slots i es + hits slots i fs
hits-append slots i [] fs = omega arith
hits-append slots i (e ∷ es) fs = ground (arith, hits-append slots i es fs)

updates_cons :
    (me : ℕ) (m : NodeMessage) (ms : List NodeMessage)
    → updates me (m ∷ ms) ≡ updates me (m ∷ []) ++ updates me ms
updates_cons me m ms = by_type m.message_type refl
  where
    by_type :
        (t : NodeMessageType)
        → m.message_type ≡ t
        → updates me (m ∷ ms) ≡ updates me (m ∷ []) ++ updates me ms
    by_type NodeMessageType.min_epoch h = ground (arith, h)
    by_type _ h = ground (arith, h)

pub length-updates-le : (me : ℕ) (ms : List NodeMessage) → length (updates me ms) ≤ length ms
length-updates-le me [] = omega arith
length-updates-le me (m ∷ ms) = ground (arith, length-updates-le me ms)

Counts-trans :
    (p p' p'' : NodeManager) (es fs : List ℕ) (i x : ℕ)
    → Counts p p' es i x
    → Counts p' p'' fs i ((x + hits (p.staleness + 1) i es) % p.num_nodes)
    → Counts p p'' (es ++ fs) i x
Counts-trans p p' p'' es fs i x c d = record {
  valid = d.valid;
  same = record {
    num_nodes = d.same.num_nodes ∙ c.same.num_nodes;
    staleness = d.same.staleness ∙ c.same.staleness;
    me = d.same.me ∙ c.same.me;
  };
  rises = omega (arith, c.rises, d.rises);
  bounded = omega (arith, c.bounded, d.bounded, length-append es fs);
  sum = omega (arith, c.sum, d.sum, length-append es fs);
  slot =
      d.slot
      ∙ ap some (
          rw (c.same.num_nodes, c.same.staleness)
            (mod-add-mod (x + hits (p.staleness + 1) i es) p.num_nodes (hits (p.staleness + 1) i fs)
              ∙ ap (λ k. k % p.num_nodes) (omega (arith, hits-append (p.staleness + 1) i es fs))));
}

-- On a node that counts epochs, with a minimal epoch that cannot wrap, any messages are read
-- without a fault; the node stays valid, the minimal epoch only rises, the epochs of other nodes
-- are all accounted for, in a slot or in a rise of the minimal epoch by one for each `num_nodes`,
-- and slot `i` holds what it held and its new updates, modulo the number of nodes.
pub read_epoch_updates-Counts :
    (ms : List NodeMessage) (p : NodeManager) (i : ℕ) {x : ℕ}
    → IsValid p
    → p.min_epoch + length ms < u32_mod
    → get_elem? p.nodes_finished_epoch i ≡ some x
    → (p' : NodeManager) × (read_epoch_updates ms p ≡ some p') × Counts p p' (updates p.me ms) i x
unfolding read_epoch_updates
read_epoch_updates-Counts [] p i v room e = (p, refl, Counts-idle p i v e p.remaining)
read_epoch_updates-Counts (m ∷ ms) p i {x} v room e =
    let (p1, b, q, c) = parse_node_msg-Counts m p i v (omega arith) e in
    let room1 : p1.min_epoch + length ms < u32_mod =
      omega (arith, c.bounded, length-updates-le p.me (m ∷ [])) in
    let (p2, r, d) = read_epoch_updates-Counts ms p1 i c.valid room1 c.slot in
    let both = Counts-trans p p1 p2 (updates p.me (m ∷ [])) (updates p.me ms) i x c (
      subst
        (λ me.
          Counts p1 p2 (updates me ms) i
            ((x + hits (p.staleness + 1) i (updates p.me (m ∷ []))) % p.num_nodes))
        c.same.me d) in
    (
      p2,
      ap (λ o. o >>= λ s. read_epoch_updates ms s.0) q ∙ r,
      subst (λ es. Counts p p2 es i x) (sym (updates_cons p.me m ms)) both,
    )
