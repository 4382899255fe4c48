-- ===== src/Engine/Scatter/Buckets.antt =====
-- The bucket of a node gets the vertices that have it among their destinations, in their order.
use dorylus.Prelude.{
  ℕ, zero, suc, ◌+◌, ◌≡◌, ◌<◌, refl, sym, ap, ◌∙◌, subst, inl, inr, List, [], ◌∷◌, ◌++◌, some,
  arith, ◌==◌, if◌then◌else◌, length, get_elem?, set, replicate, length-set, get_elem?-set_self,
  get_elem?-set_ne, get_elem?-lt, length-replicate, All, Bool-cases, ==_iff,
}
use mathlib.Core.List.{append_assoc, append-nil}
use dorylus.Prelude.Map.{Map, nat_order}
use dorylus.Engine.Scatter.Defs.{push_id, push_to_all, dests_of, fill_buckets}

-- A vertex as often as a node is among its destinations.
abbrev pub copies : ℕ → ℕ → List ℕ → List ℕ
copies nid lvid [] = []
copies nid lvid (n ∷ nids) = (if n == nid then lvid ∷ [] else []) ++ copies nid lvid nids

-- Of the `n` vertices from `lvid` on, those that a node gets.
abbrev pub wanted : ℕ → Map ℕ (List ℕ) → ℕ → ℕ → List ℕ
wanted nid ghosts zero lvid = []
wanted nid ghosts (suc n) lvid =
    copies nid lvid (dests_of ghosts lvid) ++ wanted nid ghosts n (lvid + 1)

-- All destinations are nodes.
abbrev pub DestsIn : ℕ → Map ℕ (List ℕ) → Type 0
DestsIn num_nodes ghosts = (lvid : ℕ) → All (λ n. n < num_nodes) (dests_of ghosts lvid)

-- Every bucket is the old one and more.
record Grown (b b' : List (List ℕ)) (more : ℕ → List ℕ) : Type 0 where
  sized : length b' ≡ length b
  bucket :
      (nid : ℕ) {ids : List ℕ}
      → get_elem? b nid ≡ some ids
      → get_elem? b' nid ≡ some (ids ++ more nid)

Grown-refl : (b : List (List ℕ)) → Grown b b (λ nid. [])
Grown-refl b = record { sized = refl; bucket = λ nid {ids} e. e ∙ ap some (sym (append-nil ids)) }

Grown-trans :
    {b b1 b2 : List (List ℕ)} {f g : ℕ → List ℕ}
    → Grown b b1 f
    → Grown b1 b2 g
    → Grown b b2 (λ nid. f nid ++ g nid)
Grown-trans {f} {g} x y = record {
  sized = y.sized ∙ x.sized;
  bucket =
      λ nid {ids} e. y.bucket nid (x.bucket nid e) ∙ ap some (append_assoc ids (f nid) (g nid));
}

push_id-Grown :
    (n lvid : ℕ) (b : List (List ℕ))
    → n < length b
    → (b' : List (List ℕ)) × (push_id n lvid b ≡ some b')
      × Grown b b' (λ nid. if n == nid then lvid ∷ [] else [])
unfolding push_id
push_id-Grown n lvid b lt =
    let (old, e) = get_elem?-lt b n lt in
    (
      set b n (old ++ lvid ∷ []),
      rw e refl,
      record {
        sized = length-set b n (old ++ lvid ∷ []);
        bucket = λ nid {ids} f. elim (Bool-cases (n == nid)) [
          | inl here ↦
              let q : n ≡ nid = (==_iff n nid).0 here in
              let h : old ≡ ids = cc (e, f, q) in
              rw here (
                ap (get_elem? (set b n (old ++ lvid ∷ []))) (sym q)
                ∙ get_elem?-set_self b n (old ++ lvid ∷ []) lt
                ∙ ap (λ l. some (l ++ lvid ∷ [])) h)
          | inr other ↦ rw other (
              get_elem?-set_ne b {i = n} {j = nid} (old ++ lvid ∷ [])
                (λ q. ground (arith, q, other))
              ∙ f
              ∙ ap some (sym (append-nil ids)))
        ];
      },
    )

push_to_all-Grown :
    (nids : List ℕ) (lvid : ℕ) (b : List (List ℕ))
    → All (λ n. n < length b) nids
    → (b' : List (List ℕ)) × (push_to_all nids lvid b ≡ some b')
      × Grown b b' (λ nid. copies nid lvid nids)
unfolding push_to_all
push_to_all-Grown [] lvid b a = (b, refl, Grown-refl b)
push_to_all-Grown (n ∷ nids) lvid b a =
    let (b1, e, g) = push_id-Grown n lvid b a.0 in
    let (b2, f, h) =
      push_to_all-Grown nids lvid b1 (subst (λ k. All (λ m. m < k) nids) (sym g.sized) a.1) in
    (b2, rw e f, Grown-trans g h)

fill_buckets-Grown :
    (ghosts : Map ℕ (List ℕ)) (n lvid : ℕ) (b : List (List ℕ))
    → DestsIn (length b) ghosts
    → (b' : List (List ℕ)) × (fill_buckets ghosts n lvid b ≡ some b')
      × Grown b b' (λ nid. wanted nid ghosts n lvid)
unfolding fill_buckets
fill_buckets-Grown ghosts zero lvid b a = (b, refl, Grown-refl b)
fill_buckets-Grown ghosts (suc n) lvid b a =
    let (b1, e, g) = push_to_all-Grown (dests_of ghosts lvid) lvid b (a lvid) in
    let (b2, f, h) =
      fill_buckets-Grown ghosts n (lvid + 1) b1 (subst (λ k. DestsIn k ghosts) (sym g.sized) a) in
    (b2, rw e f, Grown-trans g h)

abbrev no_ids : List ℕ
no_ids = []

get_elem?-replicate : (n nid : ℕ) → nid < n → get_elem? (replicate n no_ids) nid ≡ some []
get_elem?-replicate zero nid lt = absurd (omega arith)
get_elem?-replicate (suc n) zero lt = refl
get_elem?-replicate (suc n) (suc nid) lt = get_elem?-replicate n nid (omega arith)

pub fill_buckets-wanted :
    (ghosts : Map ℕ (List ℕ)) (num_nodes n lvid : ℕ)
    → DestsIn num_nodes ghosts
    → (b : List (List ℕ)) × (fill_buckets ghosts n lvid (replicate num_nodes []) ≡ some b)
      × (length b ≡ num_nodes)
      × ((nid : ℕ) → nid < num_nodes → get_elem? b nid ≡ some (wanted nid ghosts n lvid))
fill_buckets-wanted ghosts num_nodes n lvid a =
    let l = length-replicate num_nodes no_ids in
    let (b, e, g) =
      fill_buckets-Grown ghosts n lvid (replicate num_nodes [])
        (subst (λ k. DestsIn k ghosts) (sym l) a) in
    (b, e, g.sized ∙ l, λ nid lt. g.bucket nid (get_elem?-replicate num_nodes nid lt))
