-- ===== src/Engine/Scatter/Send.antt =====
-- A scatter sends to each node the vertices that it gets, and nothing to its own.
use dorylus.Prelude.{
  ℕ, zero, suc, ◌+◌, ◌≡◌, ◌≢◌, ◌<◌, refl, sym, ap, ◌∙◌, inl, inr, List, [], ◌∷◌, ◌++◌, some, false,
  arith, ◌==◌, if◌then◌else◌, u32_mod, length, get_elem?, All, All-append, All-imp, Bool-cases,
  ==_iff,
}
use mathlib.Core.List.{append-nil}
use dorylus.Prelude.Map.{nat_order}
use dorylus.Chunk.{Chunk}
use dorylus.Engine.Scatter.Defs.{Message, Sender, batch_size, vertices_at, send_buckets}
use dorylus.Engine.Scatter.Batches.{carried, IsBatch, AllAt, send_batches-carried}

module _ {A : Type 0} where
  -- The messages to a node.
  abbrev pub addressed : ℕ → List (Message A) → List (Message A)
  addressed nid [] = []
  addressed nid (m ∷ ms) = if m.receiver == nid then m ∷ addressed nid ms else addressed nid ms

  addressed-append :
      (nid : ℕ) (ms ns : List (Message A))
      → addressed nid (ms ++ ns) ≡ addressed nid ms ++ addressed nid ns
  addressed-append nid [] ns = refl
  addressed-append nid (m ∷ ms) ns = elim (Bool-cases (m.receiver == nid)) [
    | inl hit ↦ rw hit (ap (λ l. m ∷ l) (addressed-append nid ms ns))
    | inr miss ↦ rw miss (addressed-append nid ms ns)
  ]

  addressed_all :
      (e : Sender) (c : Chunk) (nid feat_dim : ℕ) (ms : List (Message A))
      → All (IsBatch e c nid feat_dim) ms
      → addressed nid ms ≡ ms
  addressed_all e c nid feat_dim [] a = refl
  addressed_all e c nid feat_dim (m ∷ ms) a =
      rw ((==_iff m.receiver nid).1 a.0.to_node)
        (ap (λ l. m ∷ l) (addressed_all e c nid feat_dim ms a.1))

  addressed_none :
      (e : Sender) (c : Chunk) (nid other feat_dim : ℕ) (ms : List (Message A))
      → nid ≢ other
      → All (IsBatch e c nid feat_dim) ms
      → addressed other ms ≡ []
  addressed_none e c nid other feat_dim [] ne a = refl
  addressed_none e c nid other feat_dim (m ∷ ms) ne a =
      let h : (m.receiver == other) ≡ false = ground (arith, ne, a.0.to_node) in
      rw h (addressed_none e c nid other feat_dim ms ne a.1)

  -- A message of a scatter to any node.
  abbrev pub IsSent : Sender → Chunk → ℕ → Message A → Type 0
  IsSent e c feat_dim m = IsBatch e c m.receiver feat_dim m

  module _ (e : Sender) (tensor : List (List A)) (feat_dim : ℕ) (c : Chunk) where
    IsBatch-IsSent : (nid : ℕ) (m : Message A) → IsBatch e c nid feat_dim m → IsSent e c feat_dim m
    IsBatch-IsSent nid m b = record {
      of_layer = b.of_layer;
      of_dir = b.of_dir;
      to_node = refl;
      from_node = b.from_node;
      counted = b.counted;
      some_vertex = b.some_vertex;
      small = b.small;
    }

    -- What the loop over the nodes sends.
    pub record IsServed (base : ℕ) (buckets : List (List ℕ)) (ms : List (Message A)) : Type 0 where
      pub sent : All (IsSent e c feat_dim) ms
      pub served :
          (k : ℕ) {ids : List ℕ}
          → get_elem? buckets k ≡ some ids
          → base + k ≢ e.node_id
          → vertices_at e tensor ids ≡ some (carried (addressed (base + k) ms))
      later : (nid : ℕ) → nid < base → addressed nid ms ≡ []
      pub own : addressed e.node_id ms ≡ []

    abbrev pub Sendable : List ℕ → Type 0
    Sendable ids = AllAt e tensor ids × (length ids + batch_size feat_dim < u32_mod)

    pub send_buckets-IsServed :
        (base : ℕ) (buckets : List (List ℕ))
        → All Sendable buckets
        → (ms : List (Message A)) × (send_buckets e tensor feat_dim c base buckets ≡ some ms)
          × IsServed base buckets ms
    unfolding send_buckets
    send_buckets-IsServed base [] a = (
      [],
      refl,
      record { sent = tt; served = λ k q ne. absurd (cc q); later = λ nid lt. refl; own = refl },
    )
    send_buckets-IsServed base (ids ∷ buckets) a =
        let (rest, p, s) = send_buckets-IsServed (base + 1) buckets a.1 in
        elim (Bool-cases (base == e.node_id)) [
          | inl own ↦ (
            rest,
            rw (own, p) refl,
            record {
              sent = s.sent;
              served = λ k {ids} q ne. tail_served rest s k q ne (ground (arith, own, ne));
              later = λ nid lt. s.later nid (omega (arith, lt));
              own = s.own;
            },
          )
          | inr other ↦
              let (ms, q, b, v) =
                send_batches-carried e tensor base feat_dim c ids a.0.0 (length ids) 0 (omega arith)
                  a.0.1 in
              let here : base ≢ e.node_id = λ x. ground (arith, x, other) in
              let split : (nid : ℕ)
                  → addressed nid (ms ++ rest) ≡ addressed nid ms ++ addressed nid rest =
                λ nid. addressed-append nid ms rest in
              (
                ms ++ rest,
                rw (other, q, p) refl,
                record {
                  sent =
                      All-append (IsSent e c feat_dim) ms rest (All-imp (IsBatch-IsSent base) ms b)
                        s.sent;
                  served = λ k {ids} r ne. both ms rest b v s k r ne;
                  later = λ nid lt.
                      split nid
                      ∙ ap (λ l. l ++ addressed nid rest)
                          (addressed_none e c base nid feat_dim ms (λ x. omega (arith, x, lt)) b)
                      ∙ s.later nid (omega (arith, lt));
                  own =
                      split e.node_id
                      ∙ ap (λ l. l ++ addressed e.node_id rest)
                          (addressed_none e c base e.node_id feat_dim ms here b)
                      ∙ s.own;
                },
              )
        ]
      where
        tail_served :
            (rest : List (Message A))
            → IsServed (base + 1) buckets rest
            → (k : ℕ) {js : List ℕ} → get_elem? (ids ∷ buckets) k ≡ some js
            → base + k ≢ e.node_id
            → k ≢ 0
            → vertices_at e tensor js ≡ some (carried (addressed (base + k) rest))
        tail_served rest s zero q ne pos = absurd (pos refl)
        tail_served rest s (suc k) q ne pos =
            let h : base + 1 + k ≡ base + suc k = omega arith in
            s.served k q (λ x. ne (omega (arith, x)))
            ∙ ap (λ n. some (carried (addressed n rest))) h

        both :
            (ms rest : List (Message A))
            → All (IsBatch e c base feat_dim) ms
            → vertices_at e tensor ids ≡ some (carried ms)
            → IsServed (base + 1) buckets rest
            → (k : ℕ) {js : List ℕ} → get_elem? (ids ∷ buckets) k ≡ some js
            → base + k ≢ e.node_id
            → vertices_at e tensor js ≡ some (carried (addressed (base + k) (ms ++ rest)))
        both ms rest b v s zero {js} q ne =
            let h : base + 0 ≡ base = omega arith in
            let i : ids ≡ js = cc q in
            let all_here : addressed (base + 0) (ms ++ rest) ≡ ms =
              addressed-append (base + 0) ms rest
              ∙ ap (λ n. addressed n ms ++ addressed n rest) h
              ∙ ap (λ l. l ++ addressed base rest) (addressed_all e c base feat_dim ms b)
              ∙ ap (λ l. ms ++ l) (s.later base (omega arith))
              ∙ append-nil ms in
            ap (vertices_at e tensor) (sym i) ∙ v ∙ ap (λ l. some (carried l)) (sym all_here)
        both ms rest b v s (suc k) q ne =
            let gone : addressed (base + suc k) (ms ++ rest) ≡ addressed (base + suc k) rest =
              addressed-append (base + suc k) ms rest
              ∙ ap (λ l. l ++ addressed (base + suc k) rest)
                  (addressed_none e c base (base + suc k) feat_dim ms (λ x. omega (arith, x)) b) in
            tail_served rest s (suc k) q ne (λ x. absurd (omega (arith, x)))
            ∙ ap (λ l. some (carried l)) (sym gone)
