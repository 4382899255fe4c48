-- ===== src/Engine/Scatter/Batches.antt =====
-- The messages to a node carry its bucket, in its order.
use dorylus.Prelude.{
  ℕ, zero, suc, ◌+◌, ◌-◌, ◌≡◌, ◌<◌, ◌≤◌, refl, sym, ap, ◌∙◌, inl, inr, List, [], ◌∷◌, ◌++◌, some,
  arith, ltb, if◌then◌else◌, add32, add32-eq, u32_mod, length, take, drop, All, Bool-cases,
}
use dorylus.Chunk.{Chunk}
use dorylus.Engine.Scatter.Defs.{
  Message, Sender, feat_layer, batch_size, vertex_at, vertices_at, vertices_push_out, send_batches,
}

take-drop : {A : Type 0} (n i : ℕ) (xs : List A) → take n (drop i xs) ++ drop (i + n) xs ≡ drop i xs
take-drop zero i xs = let q : i + 0 ≡ i = omega arith in ap (λ k. drop k xs) q
take-drop (suc n) zero [] = let q : 0 + suc n ≡ suc n = omega arith in ap (λ k. drop k []) q
take-drop (suc n) zero (x ∷ xs) =
    let q : 0 + suc n ≡ suc (0 + n) = omega arith in
    ap (λ k. x ∷ (take n xs ++ drop k (x ∷ xs))) q ∙ ap (λ l. x ∷ l) (take-drop n 0 xs)
take-drop (suc n) (suc i) [] =
    let q : suc i + suc n ≡ suc (i + suc n) = omega arith in ap (λ k. drop k []) q
take-drop (suc n) (suc i) (x ∷ xs) =
    let q : suc i + suc n ≡ suc (i + suc n) = omega arith in
    ap (λ k. take (suc n) (drop i xs) ++ drop k (x ∷ xs)) q ∙ take-drop (suc n) i xs

length-take-drop :
    {A : Type 0} (n i : ℕ) (xs : List A) → i + n ≤ length xs → length (take n (drop i xs)) ≡ n
length-take-drop zero i xs h = refl
length-take-drop (suc n) zero [] h = absurd (omega arith)
length-take-drop (suc n) zero (x ∷ xs) h = ap suc (length-take-drop n 0 xs (omega arith))
length-take-drop (suc n) (suc i) [] h = absurd (omega arith)
length-take-drop (suc n) (suc i) (x ∷ xs) h = length-take-drop (suc n) i xs (omega arith)

drop_end : {A : Type 0} (i : ℕ) (xs : List A) → length xs ≤ i → drop i xs ≡ []
drop_end zero [] h = refl
drop_end zero (x ∷ xs) h = absurd (omega arith)
drop_end (suc i) [] h = refl
drop_end (suc i) (x ∷ xs) h = drop_end i xs (omega arith)

batch_size_pos : (feat_dim : ℕ) → 0 < batch_size feat_dim
unfolding batch_size
batch_size_pos feat_dim = ground arith

module _ {A : Type 0} where
  -- The vertices of all messages.
  abbrev pub carried : List (Message A) → List (ℕ × List A)
  carried [] = []
  carried (m ∷ ms) = m.vertices ++ carried ms

  -- What `scatter` makes of a message for a node: it names the node and its vertices, which are some
  -- and no more than a batch.
  pub record IsBatch (e : Sender) (c : Chunk) (nid feat_dim : ℕ) (m : Message A) : Type 0 where
    pub of_layer : m.layer ≡ feat_layer e c
    pub of_dir : m.dir ≡ c.dir
    pub to_node : m.receiver ≡ nid
    pub from_node : m.sender ≡ e.node_id
    pub counted : m.topic ≡ length m.vertices
    pub some_vertex : 0 < m.topic
    pub small : m.topic ≤ batch_size feat_dim

  module _ (e : Sender) (tensor : List (List A)) where
    -- The vertices have a global id and a row.
    abbrev pub AllAt : List ℕ → Type 0
    AllAt ids = All (λ lvid. (v : ℕ × List A) × (vertex_at e tensor lvid ≡ some v)) ids

    abbrev pub values : (ids : List ℕ) → AllAt ids → List (ℕ × List A)
    values [] a = []
    values (lvid ∷ ids) a = a.0.0 ∷ values ids a.1

    vertices_at-values :
        (ids : List ℕ) (a : AllAt ids) → vertices_at e tensor ids ≡ some (values ids a)
    unfolding vertices_at
    vertices_at-values [] a = refl
    vertices_at-values (lvid ∷ ids) a = rw (a.0.1, vertices_at-values ids a.1) refl

    length-values : (ids : List ℕ) (a : AllAt ids) → length (values ids a) ≡ length ids
    length-values [] a = refl
    length-values (lvid ∷ ids) a = ap suc (length-values ids a.1)

    vertices_at-append :
        (xs ys : List ℕ) (a : AllAt xs) {vs : List (ℕ × List A)}
        → vertices_at e tensor ys ≡ some vs
        → vertices_at e tensor (xs ++ ys) ≡ some (values xs a ++ vs)
    unfolding vertices_at
    vertices_at-append [] ys a q = q
    vertices_at-append (x ∷ xs) ys a q = rw (a.0.1, vertices_at-append xs ys a.1 q) refl

    AllAt-take : (n : ℕ) (ids : List ℕ) → AllAt ids → AllAt (take n ids)
    AllAt-take zero ids a = tt
    AllAt-take (suc n) [] a = tt
    AllAt-take (suc n) (x ∷ ids) a = (a.0, AllAt-take n ids a.1)

    AllAt-drop : (n : ℕ) (ids : List ℕ) → AllAt ids → AllAt (drop n ids)
    AllAt-drop zero ids a = a
    AllAt-drop (suc n) [] a = tt
    AllAt-drop (suc n) (x ∷ ids) a = AllAt-drop n ids a.1

    module _ (nid feat_dim : ℕ) (c : Chunk) (ids : List ℕ) (a : AllAt ids) where
      -- One batch, of `size` vertices from `ib` on.
      push_one :
          (ib size : ℕ)
          → ib + size ≤ length ids
          → 0 < size
          → size ≤ batch_size feat_dim
          → (m : Message A) × (vertices_push_out e nid (take size (drop ib ids)) tensor feat_dim c
              ≡ some m)
            × IsBatch e c nid feat_dim m
            × ((vs : List (ℕ × List A))
                → vertices_at e tensor (drop (ib + size) ids) ≡ some vs
                → vertices_at e tensor (drop ib ids) ≡ some (m.vertices ++ vs))
      unfolding vertices_push_out
      push_one ib size fits pos small =
          let xs = take size (drop ib ids) in
          let b = AllAt-take size (drop ib ids) (AllAt-drop ib ids a) in
          let l = length-take-drop size ib ids fits in
          (
            record {
              receiver = nid;
              sender = e.node_id;
              topic = length xs;
              feat_dim = feat_dim;
              layer = feat_layer e c;
              dir = c.dir;
              vertices = values xs b;
            },
            rw (vertices_at-values xs b) refl,
            record {
              of_layer = refl;
              of_dir = refl;
              to_node = refl;
              from_node = refl;
              counted = sym (length-values xs b);
              some_vertex = omega (arith, l, pos);
              small = omega (arith, l, small);
            },
            λ vs q.
                ap (vertices_at e tensor) (sym (take-drop size ib ids))
                ∙ vertices_at-append xs (drop (ib + size) ids) b q,
          )

      pub send_batches-carried :
          (fuel ib : ℕ)
          → length ids ≤ ib + fuel
          → length ids + batch_size feat_dim < u32_mod
          → (ms : List (Message A)) × (send_batches e nid ids tensor feat_dim c fuel ib ≡ some ms)
            × All (IsBatch e c nid feat_dim) ms
            × (vertices_at e tensor (drop ib ids) ≡ some (carried ms))
      unfolding send_batches vertices_at
      send_batches-carried zero ib enough room =
          ([], refl, tt, ap (vertices_at e tensor) (drop_end ib ids (omega (arith, enough))))
      send_batches-carried (suc fuel) ib enough room =
          let b = batch_size feat_dim in
          let pos = batch_size_pos feat_dim in
          elim (Bool-cases (ltb ib (length ids))) [
            | inr over ↦ (
              [],
              rw over refl,
              tt,
              ap (vertices_at e tensor) (drop_end ib ids (ground (arith, over))),
            )
            | inl more ↦
                let size = if ltb (length ids - ib) b then length ids - ib else b in
                let next : add32 ib b ≡ ib + b = add32-eq ib b (ground (arith, more)) in
                let (m, p, q, r) =
                  push_one ib size (ground (arith, more)) (ground (arith, more, pos))
                    (ground arith) in
                let (ms, x, y, z) = send_batches-carried fuel (ib + b) (ground (arith, pos)) room in
                let same_rest : drop (ib + size) ids ≡ drop (ib + b) ids = skip_rest ib b in
                (
                  m ∷ ms,
                  rw (more, next, p, x) refl,
                  (q, y),
                  r (carried ms) (ap (vertices_at e tensor) same_rest ∙ z),
                )
          ]
        where
          skip_rest :
              (ib b : ℕ)
              → drop (ib + (if ltb (length ids - ib) b then length ids - ib else b)) ids
                ≡ drop (ib + b) ids
          skip_rest ib b = elim (Bool-cases (ltb (length ids - ib) b)) [
            | inr full ↦ rw full refl
            | inl last ↦ rw last (
                drop_end (ib + (length ids - ib)) ids (omega arith)
                ∙ sym (drop_end (ib + b) ids (ground (arith, last))))
          ]
