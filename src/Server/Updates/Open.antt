-- ===== src/Server/Updates/Open.antt =====
-- One turn of a synchronous round of one tensor, while its updates come in.
use dorylus.Prelude.{
  ℕ, suc, ◌+◌, ◌-◌, ◌%◌, ◌<◌, ◌≤◌, ◌≡◌, ◌⊎◌, ◌∙◌, sym, refl, List, [], ◌∷◌, ◌++◌, Bool, true, false,
  none, some, inl, inr, ◌==◌, ltb, ◌||◌, if◌then◌else◌, arith, length, u32_mod, add32, replicate,
  Bool-cases,
}
use dorylus.Prelude.Map.{Order}
use dorylus.Weights.Float.{Float}
use dorylus.Weights.Arrays.{zip_with}
use dorylus.Weights.Adam.{Adam}
use dorylus.Weights.Tensor.{adam, opt_step}
use dorylus.Server.Updates.Defs.{UpdateServer, Publication, update_msg, try_tensor}
use dorylus.Server.Updates.Threads.{
  Threads, Turn, released, added, copied, tried, collected, checked, acknowledged, turn, turns,
  working, locals_in, ghosts_of, acks_in, senders, Fits, add_locals, add_ghosts, updates_of,
  acked_of, Gathers,
}
use dorylus.Server.Updates.Steps.{fewer, try_tensor-applies}
use dorylus.Server.Updates.Rest.{threads, published_once, after}

add_locals-none :
    {A : Type 0} ⦃f : Float A⦄ (ls : List A) (ts : List (Turn A))
    → locals_in ts ≡ 0
    → add_locals ls ts ≡ ls
add_locals-none ls [] z = refl
add_locals-none ls (added us ∷ ts) z = absurd (omega arith)
add_locals-none ls (released c ∷ ts) z = add_locals-none ls ts z
add_locals-none ls (copied ∷ ts) z = add_locals-none ls ts z
add_locals-none ls (tried ∷ ts) z = add_locals-none ls ts z
add_locals-none ls (collected x us ∷ ts) z = add_locals-none ls ts z
add_locals-none ls (checked ∷ ts) z = add_locals-none ls ts z
add_locals-none ls (acknowledged ∷ ts) z = add_locals-none ls ts z

none_of : {A : Type 0} (gg : List A) → length gg ≡ 0 → gg ≡ []
none_of [] z = refl
none_of (g ∷ gg) z = absurd (omega arith)

module _ {K A : Type 0} ⦃o : Order K⦄ ⦃f : Float A⦄ (layer : ℕ) (name : K) (others n lt : ℕ)
    (ver : ℕ) (ws : List A) (opt opt' : Adam A) (ws' : List A) (sum_l sum_g : List A) where
  abbrev pub zeros : List A
  zeros = replicate n f.zero

  -- One update is published, if it has not been yet: the sum of the pushes, or a cleared buffer, if
  -- the worker was not prompt.
  abbrev pub Publishes : Bool → Bool → List (Publication K A) → Type 0
  Publishes true q out =
      (updates_of out ≡ (layer, name, sum_l) ∷ [])
      ⊎ ((updates_of out ≡ (layer, name, zeros) ∷ []) × (q ≡ false))
  Publishes false q out = updates_of out ≡ []

  published_zeros :
      (out : List (Publication K A)) (due q : Bool)
      → (due ≡ true → (updates_of out ≡ (layer, name, zeros) ∷ []) × (q ≡ false))
      → (due ≡ false → updates_of out ≡ [])
      → Publishes due q out
  published_zeros out true q p r = inr (p refl)
  published_zeros out false q p r = r refl

  -- What the turns come to: a thread is still on its way, or the round is complete.
  abbrev pub Completes : List (Turn A) → ℕ → ℕ → ℕ → Bool → Bool → Threads K A → Type 0
  Completes ts e ack b due q t =
      (t' : Threads K A) × (out : List (Publication K A)) × (ack' : ℕ) × (turns layer name ts t
        ≡ some (t', out))
      × (acked_of out ≡ senders (ghosts_of ts))
      × ((0 < working t')
          ⊎ (Gathers layer name others n lt 0 0 zeros zeros (ver + 1) ws' opt' (add32 e 1) ack'
                (b + length ts) t'.server
              × Publishes due q out
              × ((ack' + acks_in ts) % u32_mod ≡ (ack + (if due then others else 0)) % u32_mod)))

  -- The state in which `lc` and `gc` updates have come, with the threads on their way.
  pub record Open (ts : List (Turn A)) (lc gc : ℕ) (ls gs : List A) (e ack b cp ap ch : ℕ)
      (s : UpdateServer K A) : Type 0 where
    pub gathers : Gathers layer name others n lt lc gc ls gs ver ws opt e ack b s
    pub locals_left : lc + locals_in ts ≡ lt
    pub ghosts_left : gc + length (ghosts_of ts) ≡ others
    pub local_sum : add_locals ls ts ≡ sum_l
    pub ghost_sum : add_ghosts gs (ghosts_of ts) ≡ sum_g
    pub fits : Fits n ts
    pub none_early : lc < lt → cp + ap ≡ 0
    pub one_worker : cp + ap ≤ 1
    pub some_thread : lt ≤ lc → others ≤ gc → 1 ≤ cp + ap + ch
    pub small : b + length ts < u32_mod

  -- A turn that publishes no update and applies none.
  pub quiet :
      (a : Turn A) (ts : List (Turn A)) (e ack b b1 : ℕ) (due q q1 : Bool) (t t1 : Threads K A)
      (out1 : List (Publication K A))
      → turn layer name a t ≡ some (t1, out1)
      → ((out : List (Publication K A)) → updates_of (out1 ++ out) ≡ updates_of out)
      → ((out : List (Publication K A))
          → acked_of out ≡ senders (ghosts_of ts)
          → acked_of (out1 ++ out) ≡ senders (ghosts_of (a ∷ ts)))
      → acks_in (a ∷ ts) ≡ acks_in ts
      → b1 ≤ b + 1
      → (due ≡ true → q1 ≡ false → q ≡ false)
      → Completes ts e ack b1 due q1 t1
      → Completes (a ∷ ts) e ack b due q t
  unfolding turns
  quiet a ts e ack b b1 due q q1 t t1 out1 eq1 ups acked same le late
        (t', out, ack', eq, ackd, way) =
      (
        t',
        out1 ++ out,
        ack',
        ground (arith, eq1, eq),
        acked out ackd,
        elim way [
          | inl busy ↦ inl busy
          | inr (next, p, k) ↦ inr (
            fewer layer name others n lt next (b + suc (length ts)) (omega arith),
            publishes due late p,
            rw same k,
          )
        ],
      )
    where
      publishes :
          (d : Bool)
          → (d ≡ true → q1 ≡ false → q ≡ false)
          → Publishes d q1 out
          → Publishes d q (out1 ++ out)
      publishes true l (inl p) = inl (ups out ∙ p)
      publishes true l (inr p) = inr (ups out ∙ p.0, l refl p.1)
      publishes false l p = ups out ∙ p

  -- A turn that leaves the sums and the counts.
  pub keep :
      (a : Turn A) (ts : List (Turn A)) {lc gc : ℕ} {ls gs : List A}
      {e ack ack1 b b1 cp ap ch cp' ap' ch' : ℕ} {s s1 : UpdateServer K A}
      → Open (a ∷ ts) lc gc ls gs e ack b cp ap ch s
      → locals_in (a ∷ ts) ≡ locals_in ts
      → ghosts_of (a ∷ ts) ≡ ghosts_of ts
      → add_locals ls (a ∷ ts) ≡ add_locals ls ts
      → (Fits n (a ∷ ts) → Fits n ts)
      → Gathers layer name others n lt lc gc ls gs ver ws opt e ack1 b1 s1
      → b1 ≤ b + 1
      → (lc < lt → cp' + ap' ≡ 0)
      → cp' + ap' ≤ 1
      → (lt ≤ lc → others ≤ gc → 1 ≤ cp' + ap' + ch')
      → Open ts lc gc ls gs e ack1 b1 cp' ap' ch' s1
  keep a ts {gs = gs} state el eg es fit next le early one some_thread = record {
    gathers = next;
    locals_left = ground (arith, el, state.locals_left);
    ghosts_left = ground (arith, eg, state.ghosts_left);
    local_sum = sym es ∙ state.local_sum;
    ghost_sum = rw (sym eg) state.ghost_sum;
    fits = fit state.fits;
    none_early = early;
    one_worker = one;
    some_thread = some_thread;
    small = omega (arith, state.small);
  }

  pub added_due :
      (lc cp ap : ℕ)
      → cp + ap ≡ 0
      → lc < lt
      → (ltb (lc + 1) lt || ((if lt == lc + 1 then cp + 1 else cp) == 1)) ≡ (ltb lc lt || (cp == 1))
  added_due lc cp ap z h = ground arith

  -- A worker publishes the sum of the pushes.
  pub published :
      (a : Turn A) (ts : List (Turn A)) {lc gc : ℕ} {ls gs : List A} {e ack b cp ap ch : ℕ}
      {s : UpdateServer K A} {t1 : Threads K A}
      → Open (a ∷ ts) lc gc ls gs e ack b cp ap ch s
      → lt ≤ lc
      → (cp == 0) ≡ false
      → acks_in (a ∷ ts) ≡ acks_in ts
      → ghosts_of (a ∷ ts) ≡ ghosts_of ts
      → turn layer name a (threads s cp ap ch) ≡ some (t1, update_msg layer name ls ∷ [])
      → (q q1 : Bool) → Completes ts e (add32 ack others) b (ltb lc lt || (cp - 1 == 1)) q1 t1
      → Completes (a ∷ ts) e ack b (ltb lc lt || (cp == 1)) q (threads s cp ap ch)
  unfolding turns
  published a ts {lc} {gc} {ls} {gs} {e} {ack} {b} {cp} {ap} {ch} {s} {t1} state ll busy sa sg eq1 q
        q1 (t', out, ack', eq, ackd, way) =
      let el : ls ≡ sum_l =
        sym (add_locals-none ls (a ∷ ts) (omega (arith, state.locals_left))) ∙ state.local_sum in
      (
        t',
        update_msg layer name ls ∷ out,
        ack',
        ground (arith, eq1, eq),
        rw sg ackd,
        elim way [
          | inl still ↦ inl still
          | inr (next, p, k) ↦ inr (
            fewer layer name others n lt next (b + suc (length ts)) (omega arith),
            of_due (ltb lc lt || (cp - 1 == 1)) (ltb lc lt || (cp == 1))
                (ground (arith, state.one_worker)) (ground (arith, busy, state.one_worker)) el p,
            ground
                (arith, sa, k, busy, state.one_worker, published_once ack ack' (acks_in ts) others),
          )
        ],
      )
    where
      of_due :
          (d d' : Bool)
          → d ≡ false
          → d' ≡ true
          → ls ≡ sum_l
          → Publishes d q1 out
          → Publishes d' q (update_msg layer name ls ∷ out)
      of_due true d' p q el u = absurd (cc p)
      of_due false false p q el u = absurd (cc q)
      of_due false true p q el u = inl (cc (el, u))

  module _ (rn : others + 1 < u32_mod) (rl : lt < u32_mod) (pos : 1 ≤ lt) (rv : ver + 1 < u32_mod)
      (st : opt_step (adam opt layer) n ws (zip_with f.add sum_l sum_g)
        ≡ some (adam opt' layer, ws'))
      (l : length ws' ≡ n) where
    -- The turn that applies the update.
    pub applies :
        (a : Turn A) (ts : List (Turn A)) {lc gc : ℕ} {ls gs : List A} {e ack b cp ap ch : ℕ}
        {s : UpdateServer K A} (cp' ap' ch' : ℕ)
        → Open (a ∷ ts) lc gc ls gs e ack b cp ap ch s
        → lt ≤ lc
        → others ≤ gc
        → locals_in (a ∷ ts) ≡ locals_in ts
        → ghosts_of (a ∷ ts) ≡ ghosts_of ts
        → acks_in (a ∷ ts) ≡ acks_in ts
        → cp' ≡ cp
        → ((s1 : UpdateServer K A)
            → try_tensor layer name none s ≡ some s1
            → turn layer name a (threads s cp ap ch) ≡ some (threads s1 cp' ap' ch', []))
        → (q : Bool) → ((cp == 1) ≡ true → q ≡ false)
        → Completes (a ∷ ts) e ack b (ltb lc lt || (cp == 1)) q (threads s cp ap ch)
    unfolding turns
    applies a ts {lc} {gc} {ls} {gs} {e} {ack} {b} {cp} {ap} {ch} {s} cp' ap' ch' state ll lg sl sg
          sa same does q late =
        let zl : locals_in (a ∷ ts) ≡ 0 = omega (arith, state.locals_left) in
        let zg : ghosts_of (a ∷ ts) ≡ [] =
          none_of (ghosts_of (a ∷ ts)) (omega (arith, state.ghosts_left)) in
        let el : ls ≡ sum_l = sym (add_locals-none ls (a ∷ ts) zl) ∙ state.local_sum in
        let eg : gs ≡ sum_g = ground (arith, zg, state.ghost_sum) in
        let (s1, eq1, next1) =
          try_tensor-applies layer name others n lt state.gathers opt' ws' ll lg rv (rw (el, eg) st)
            l in
        let (t', out, ack', eq, next, mono, ups, none_acked, k) =
          after layer name others n lt rn pos ts cp' ap' ch' next1 (sym sl ∙ zl) (sym sg ∙ zg)
            (omega (arith, state.one_worker)) (omega (arith, state.small)) in
        (
          t',
          out,
          ack',
          ground (arith, does s1 eq1, eq),
          ground (arith, none_acked, zg),
          elim (Bool-cases (t'.copying == 0)) [
            | inr busy ↦ inl (ground arith)
            | inl idle ↦ inr (
              fewer layer name others n lt next (b + suc (length ts)) (omega arith),
              published_zeros out (ltb lc lt || (cp == 1)) q
                  (λ d. (ground (arith, idle, ups, same, d), late (ground (arith, d))))
                  (λ d. ground (arith, idle, ups, same, d, state.one_worker)),
              ground (arith, idle, sa, same, k, state.one_worker),
            )
          ],
        )
