-- ===== src/NodeManager/Epochs.antt =====
-- The counts of the nodes that finished an epoch: no update faults, and what the counts and the
-- minimal epoch are after any number of updates.
use dorylus.Prelude.{
  ℕ, suc, ◌+◌, ◌*◌, ◌%◌, ◌≤◌, ◌<◌, ◌≡◌, inl, inr, refl, ap, subst, sym, List, [], ◌∷◌, some, Bool,
  true, false, arith, ◌==◌, if◌then◌else◌, add32, add32-eq, get_elem?, set, length, length-set,
  ==_iff, ◌∙◌, get_elem?-set_self, get_elem?-set_ne, u32_mod, Bool-cases,
}
use native.Mathlib.Nat.{mod-lt, add-mul, add-mod_left}
use dorylus.NodeManager.Slots.{
  AllBelow, AllBelow-set, get_elem?-AllBelow, get_elem?_total, sum_list, sum_list-set,
}
use dorylus.NodeManager.Message.{NodeMessageType, NodeMessage}
use dorylus.NodeManager.Defs.{NodeManager, count_node}

-- Asynchronous training: a count for each of the `staleness + 1` epochs that may be open, each
-- below the number of nodes.
pub record IsValid (p : NodeManager) : Type 0 where
  pub small : p.staleness + 1 < u32_mod
  pub some_node : 0 < p.num_nodes
  pub few_nodes : p.num_nodes < u32_mod
  pub sized : length p.nodes_finished_epoch ≡ p.staleness + 1
  pub below : AllBelow p.num_nodes p.nodes_finished_epoch

-- What an update computes.
pub count_node-eq :
    (epoch : ℕ) (p : NodeManager)
    → IsValid p
    → (x : ℕ) × (get_elem? p.nodes_finished_epoch (epoch % (p.staleness + 1)) ≡ some x)
      × (x < p.num_nodes)
      × (count_node epoch p
          ≡ some (
              if (x + 1) == p.num_nodes
              then record p {
                min_epoch = add32 p.min_epoch 1;
                nodes_finished_epoch = set p.nodes_finished_epoch (epoch % (p.staleness + 1)) 0;
              }
              else record p {
                nodes_finished_epoch =
                    set p.nodes_finished_epoch (epoch % (p.staleness + 1)) (x + 1);
              }))
unfolding count_node
count_node-eq epoch p v =
    let s = p.staleness + 1 in
    let (x, e) =
      get_elem?_total p.nodes_finished_epoch (epoch % s)
        (subst (λ n. (epoch % s) < n) (sym v.sized) (mod-lt epoch (omega arith))) in
    let lt = get_elem?-AllBelow p.num_nodes p.nodes_finished_epoch (epoch % s) v.below e in
    (x, e, lt, ground (arith, e, lt, add32-eq p.staleness 1 v.small, add32-eq x 1))

-- The epochs of the updates from other nodes, in their order.
abbrev pub updates : ℕ → List NodeMessage → List ℕ
updates me [] = []
updates me (m ∷ ms) = elim m.message_type [
  | NodeMessageType.min_epoch ↦ if m.id == me then updates me ms else m.info ∷ updates me ms
  | _ ↦ updates me ms
]

-- How many of the epochs are counted in slot `i` of `slots`.
abbrev pub hits : ℕ → ℕ → List ℕ → ℕ
hits slots i [] = 0
hits slots i (e ∷ es) = if (e % slots) == i then suc (hits slots i es) else hits slots i es

-- What one update does to a slot, below the number of nodes.
abbrev pub bump : ℕ → ℕ → ℕ
bump n x = if (x + 1) == n then 0 else x + 1

pub bump-mod : (n x h : ℕ) → x < n → (bump n x + h) % n ≡ (x + suc h) % n
bump-mod n x h lt = elim (Bool-cases ((x + 1) == n)) [
  | inl e ↦ ground (arith, e, add-mod_left n h)
  | inr e ↦ ground (arith, e)
]

-- What the members that no update changes are.
pub record Same (p p' : NodeManager) : Type 0 where
  pub num_nodes : p'.num_nodes ≡ p.num_nodes
  pub staleness : p'.staleness ≡ p.staleness
  pub me : p'.me ≡ p.me

-- Nothing counted is lost: a node that is counted stands in a slot or is one of `num_nodes` that
-- raised the minimal epoch.
abbrev pub counted : NodeManager → ℕ
counted p = p.min_epoch * p.num_nodes + sum_list p.nodes_finished_epoch

-- What an update from epoch `epoch` does, with slot `i` at `x` before it.
pub record IsBumped (p p' : NodeManager) (epoch i x : ℕ) : Type 0 where
  pub valid : IsValid p'
  pub same : Same p p'
  pub rises : p.min_epoch ≤ p'.min_epoch
  pub bounded : p'.min_epoch ≤ p.min_epoch + 1
  pub sum : counted p' ≡ counted p + 1
  pub slot :
      get_elem? p'.nodes_finished_epoch i
      ≡ some (if (epoch % (p.staleness + 1)) == i then bump p.num_nodes x else x)

module _ (epoch : ℕ) (p : NodeManager) (i x y : ℕ) (v : IsValid p) where
  abbrev at : ℕ
  at = epoch % (p.staleness + 1)

  at_lt : at < length p.nodes_finished_epoch
  at_lt = subst (λ n. at < n) (sym v.sized) (mod-lt epoch (omega arith))

  same_slot :
      get_elem? p.nodes_finished_epoch i ≡ some x
      → get_elem? p.nodes_finished_epoch at ≡ some y
      → (at == i) ≡ true
      → y ≡ x
  same_slot e f h =
      let g : get_elem? p.nodes_finished_epoch i ≡ some y =
        subst (λ j. get_elem? p.nodes_finished_epoch j ≡ some y) ((==_iff at i).0 h) f in
      cc

  slot_set :
      (z : ℕ)
      → get_elem? p.nodes_finished_epoch i ≡ some x
      → get_elem? p.nodes_finished_epoch at ≡ some y
      → get_elem? (set p.nodes_finished_epoch at z) i ≡ some (if at == i then z else x)
  slot_set z e f = elim (Bool-cases (at == i)) [
    | inl h ↦ rw (h, ← (==_iff at i).0 h) (get_elem?-set_self p.nodes_finished_epoch at z at_lt)
    | inr h ↦
        rw h
          (get_elem?-set_ne p.nodes_finished_epoch {i = at} {j = i} z (λ q. ground (arith, q)) ∙ e)
  ]

  set-IsBumped :
      get_elem? p.nodes_finished_epoch i ≡ some x
      → get_elem? p.nodes_finished_epoch at ≡ some y
      → y < p.num_nodes
      → p.min_epoch + 1 < u32_mod
      → IsBumped p
          (if (y + 1) == p.num_nodes
            then record p {
              min_epoch = add32 p.min_epoch 1;
              nodes_finished_epoch = set p.nodes_finished_epoch at 0;
            }
            else record p { nodes_finished_epoch = set p.nodes_finished_epoch at (y + 1) })
          epoch
          i
          x
  set-IsBumped e f lt room = by_test ((y + 1) == p.num_nodes) refl
    where
      by_test :
          (b : Bool)
          → ((y + 1) == p.num_nodes) ≡ b
          → IsBumped p
              (if b
                then record p {
                  min_epoch = add32 p.min_epoch 1;
                  nodes_finished_epoch = set p.nodes_finished_epoch at 0;
                }
                else record p { nodes_finished_epoch = set p.nodes_finished_epoch at (y + 1) })
              epoch
              i
              x
      by_test true h = record {
        valid = record {
          small = v.small;
          some_node = v.some_node;
          few_nodes = v.few_nodes;
          sized = length-set p.nodes_finished_epoch at 0 ∙ v.sized;
          below = AllBelow-set p.num_nodes p.nodes_finished_epoch at 0 v.below v.some_node;
        };
        same = record { num_nodes = refl; staleness = refl; me = refl };
        rises = omega (arith, add32-eq p.min_epoch 1 room);
        bounded = omega (arith, add32-eq p.min_epoch 1 room);
        sum = omega (
          arith,
          ap (λ m. m * p.num_nodes) (add32-eq p.min_epoch 1 room),
          add-mul p.min_epoch 1 p.num_nodes,
          sum_list-set p.nodes_finished_epoch at 0 f,
          (==_iff (y + 1) p.num_nodes).0 h,
        );
        slot = ground (arith, slot_set 0 e f, same_slot e f, h);
      }
      by_test false h = record {
        valid = record {
          small = v.small;
          some_node = v.some_node;
          few_nodes = v.few_nodes;
          sized = length-set p.nodes_finished_epoch at (y + 1) ∙ v.sized;
          below =
              AllBelow-set p.num_nodes p.nodes_finished_epoch at (y + 1) v.below
                (ground (arith, h, lt));
        };
        same = record { num_nodes = refl; staleness = refl; me = refl };
        rises = omega arith;
        bounded = omega arith;
        sum = omega (arith, sum_list-set p.nodes_finished_epoch at (y + 1) f);
        slot = ground (arith, slot_set (y + 1) e f, same_slot e f, h);
      }

pub count_node-IsBumped :
    (epoch : ℕ) (p : NodeManager) (i : ℕ) {x : ℕ}
    → IsValid p
    → p.min_epoch + 1 < u32_mod
    → get_elem? p.nodes_finished_epoch i ≡ some x
    → (p' : NodeManager) × (count_node epoch p ≡ some p') × IsBumped p p' epoch i x
count_node-IsBumped epoch p i {x} v room e =
    let (y, f, lt, c) = count_node-eq epoch p v in (_, c, set-IsBumped epoch p i x y v e f lt room)
