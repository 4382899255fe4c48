-- ===== src/NodeManager/Agreement.antt =====
-- The nodes agree on the epoch at which they leave the asynchronous mode.
use dorylus.Prelude.{
  ℕ, ◌≤◌, ◌+◌, ◌<◌, ◌≡◌, refl, sym, ap, ◌∙◌, List, [], ◌∷◌, arith, length, u32_mod,
}
use mathlib.Core.List.{Permᴰ, Memᴰ}
use dorylus.NodeManager.Message.{NodeMessage}
use dorylus.NodeManager.Defs.{NodeManager, returns, sync_curr_epoch}
use dorylus.NodeManager.Epochs.{IsValid}
use dorylus.NodeManager.Sync.{max_epochs, max, greatest, sync_curr_epoch-ends}

-- The greatest number of a list, 0 if it has none.
abbrev pub greatest_of : List ℕ → ℕ
greatest_of [] = 0
greatest_of (e ∷ es) = max e (greatest_of es)

greatest_all : (b : ℕ) (es : List ℕ) → greatest (length es) b es ≡ max b (greatest_of es)
greatest_all b [] = ground arith
greatest_all b (e ∷ es) = ground (arith, greatest_all (max b e) es)

Mem-le : {e : ℕ} {es : List ℕ} → Memᴰ e es → e ≤ greatest_of es
Mem-le {es = []} m = elim m [ ]
Mem-le {e} {es = x ∷ xs} (Memᴰ.head q) = ground (arith, q)
Mem-le {e} {es = x ∷ xs} (Memᴰ.tail m) = ground (arith, Mem-le m)

perm-greatest_of : {es fs : List ℕ} → Permᴰ es fs → greatest_of es ≡ greatest_of fs
perm-greatest_of Permᴰ.nil = refl
perm-greatest_of (Permᴰ.cons {a} {b} q r) = ground (arith, q, perm-greatest_of r)
perm-greatest_of (Permᴰ.swap {a} {b} {a'} {b'} {l} q r) = ground (arith, q, r)
perm-greatest_of (Permᴰ.trans r s) = perm-greatest_of r ∙ perm-greatest_of s

-- A node that hears from all returns the greatest epoch announced.
one_node :
    (epoch : ℕ) (ms : List NodeMessage) (p : NodeManager)
    → IsValid p
    → p.min_epoch + length ms < u32_mod
    → length (max_epochs ms) ≡ p.num_nodes
    → Memᴰ epoch (max_epochs ms)
    → (p' : NodeManager) × (rest : List NodeMessage) × (sync_curr_epoch epoch ms p
        ≡ returns (greatest_of (max_epochs ms)) p' rest)
one_node epoch ms p v room all own =
    let (p', rest, e) = sync_curr_epoch-ends epoch ms p v room in
    (p', rest, ground (arith, e, all, greatest_all epoch (max_epochs ms), Mem-le own))

-- Two nodes that count epochs, that hear the same announcements, one from each node, in any two
-- orders with any other messages between them, and whose own epochs are among these, return the
-- same epoch.
pub sync_curr_epoch-sync_curr_epoch :
    (epoch epoch' : ℕ) (ms ms' : List NodeMessage) (p q : NodeManager)
    → IsValid p
    → IsValid q
    → p.min_epoch + length ms < u32_mod
    → q.min_epoch + length ms' < u32_mod
    → length (max_epochs ms) ≡ p.num_nodes
    → length (max_epochs ms') ≡ q.num_nodes
    → Permᴰ (max_epochs ms) (max_epochs ms')
    → Memᴰ epoch (max_epochs ms)
    → Memᴰ epoch' (max_epochs ms')
    → (last : ℕ) × (p' q' : NodeManager) × (rest rest' : List NodeMessage) × (sync_curr_epoch epoch
          ms p
        ≡ returns last p' rest)
      × (sync_curr_epoch epoch' ms' q ≡ returns last q' rest')
sync_curr_epoch-sync_curr_epoch epoch epoch' ms ms' p q v w room room' all all' same own own' =
    let (p', rest, e) = one_node epoch ms p v room all own in
    let (q', rest', f) = one_node epoch' ms' q w room' all' own' in
    (
      greatest_of (max_epochs ms),
      p',
      q',
      rest,
      rest',
      e,
      f ∙ ap (λ n. returns n q' rest') (sym (perm-greatest_of same)),
    )
