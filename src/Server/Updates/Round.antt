-- ===== src/Server/Updates/Round.antt =====
-- A synchronous round of one tensor, with any interleaving of the threads.
use dorylus.Prelude.{
  ℕ, suc, ◌+◌, ◌-◌, ◌%◌, ◌<◌, ◌≤◌, ◌≡◌, ◌⊎◌, refl, List, [], ◌∷◌, true, false, some, inl, inr, ◌==◌,
  ltb, ◌||◌, if◌then◌else◌, arith, length, u32_mod, add32, sub32, replicate, Bool-cases, subst,
}
use dorylus.Prelude.Map.{Order}
use dorylus.Weights.Float.{Float}
use dorylus.Weights.Arrays.{zip_with}
use dorylus.Weights.Adam.{Adam}
use dorylus.Weights.Tensor.{adam, opt_step}
use dorylus.Server.Updates.Defs.{UpdateServer, Publication, ack_msg, count_ack}
use dorylus.Server.Updates.Threads.{
  Threads, Turn, released, added, copied, tried, collected, checked, acknowledged, turn, turns,
  working, locals_in, ghosts_of, acks_in, senders, Fits, prompt, add_locals, add_ghosts, updates_of,
  acked_of, Gathers,
}
use dorylus.Server.Updates.Steps.{
  ack-Gathers, fewer, try_tensor-waits, publish_update-Gathers, try_own-eq, release_tensor-Gathers,
  add_local-Gathers, add_ghost-Gathers,
}
use dorylus.Server.Updates.Rest.{threads, acked_once}
use dorylus.Server.Updates.Open.{Open, Completes, quiet, keep, added_due, published, applies}

module _ {K A : Type 0} ⦃o : Order K⦄ ⦃f : Float A⦄ (layer : ℕ) (name : K) (others n lt : ℕ)
    (ver : ℕ) (ws : List A) (opt opt' : Adam A) (ws' : List A) (sum_l sum_g : List A) where
  abbrev zeros : List A
  zeros = replicate n f.zero

  module _ (rn : others + 1 < u32_mod) (rl : lt < u32_mod) (pos : 1 ≤ lt) (rv : ver + 1 < u32_mod)
      (st : opt_step (adam opt layer) n ws (zip_with f.add sum_l sum_g)
        ≡ some (adam opt' layer, ws'))
      (l : length ws' ≡ n) where
    round :
        (ts : List (Turn A)) {lc gc : ℕ} {ls gs : List A} {e ack b cp ap ch : ℕ}
        {s : UpdateServer K A}
        → Open layer name others n lt ver ws opt opt' ws' sum_l sum_g ts lc gc ls gs e ack b cp ap
            ch s
        → Completes layer name others n lt ver ws opt opt' ws' sum_l sum_g ts e ack b
            (ltb lc lt || (cp == 1))
            (prompt (lt - lc) ts)
            (threads s cp ap ch)
    unfolding turns turn count_ack
    round [] {lc} {gc} {ls} {gs} {e} {ack} {b} {cp} {ap} {ch} {s} state = (
      threads s cp ap ch,
      [],
      ack,
      refl,
      refl,
      inl (state.some_thread (omega (arith, state.locals_left)) (omega (arith, state.ghosts_left))),
    )
    round (released c ∷ ts) {lc} {gc} {ls} {gs} {e} {ack} {b} {cp} {ap} {ch} {s} state =
        let (s1, eq1, next1) =
          release_tensor-Gathers layer name others n lt state.gathers c
            (omega (arith, state.small)) in
        quiet layer name others n lt ver ws opt opt' ws' sum_l sum_g (released c) ts e ack b (b + 1)
          _ _ _ _ (threads s1 cp ap ch) [] (ground (arith, eq1)) (λ out. refl) (λ out p. p) refl
          (omega arith) (λ d p. p)
          (round ts (
            keep layer name others n lt ver ws opt opt' ws' sum_l sum_g (released c) ts state refl
              refl refl (λ p. p) next1 (omega arith) state.none_early state.one_worker
              state.some_thread))
    round (acknowledged ∷ ts) {lc} {gc} {ls} {gs} {e} {ack} {b} {cp} {ap} {ch} {s} state =
        let (t', out, ack', eq, ackd, way) = round ts (
          keep layer name others n lt ver ws opt opt' ws' sum_l sum_g acknowledged ts state refl
            refl refl (λ p. p)
            (ack-Gathers layer name others n lt state.gathers (sub32 s.ack_cnt 1)) (omega arith)
            state.none_early state.one_worker state.some_thread) in
        (
          t',
          out,
          ack',
          ground (arith, eq),
          ackd,
          elim way [
            | inl busy ↦ inl busy
            | inr (next, p, k) ↦ inr (
              fewer layer name others n lt next (b + suc (length ts)) (omega arith),
              p,
              acked_once ack s.ack_cnt ack' (acks_in ts) _ state.gathers.has_ack k,
            )
          ],
        )
    round (added us ∷ ts) {lc} {gc} {ls} {gs} {e} {ack} {b} {cp} {ap} {ch} {s} state =
        let (s1, eq1, next1) =
          add_local-Gathers layer name others n lt state.gathers us state.fits.0
            (omega (arith, state.locals_left)) in
        let cp' : ℕ = if lt == lc + 1 then cp + 1 else cp in
        let next : Open layer name others n lt ver ws opt opt' ws' sum_l sum_g ts (lc + 1) gc
            (zip_with f.add ls us) gs e ack b cp' ap ch s1 =
          record {
            gathers = next1;
            locals_left = omega (arith, state.locals_left);
            ghosts_left = state.ghosts_left;
            local_sum = state.local_sum;
            ghost_sum = state.ghost_sum;
            fits = state.fits.1;
            none_early = λ h. ground (arith, state.none_early, h);
            one_worker = ground (arith, state.none_early, state.locals_left, state.one_worker);
            some_thread = λ h k. ground (arith, state.locals_left, h);
            small = omega (arith, state.small);
          } in
        quiet layer name others n lt ver ws opt opt' ws' sum_l sum_g (added us) ts e ack b b _ _ _ _
          (threads s1 cp' ap ch) [] (ground (arith, eq1)) (λ out. refl) (λ out p. p) refl
          (omega arith) (λ d p. p)
          (subst
            (λ d.
              Completes layer name others n lt ver ws opt opt' ws' sum_l sum_g ts e ack b d
                (prompt (lt - lc - 1) ts) (threads s1 cp' ap ch))
            (added_due layer name others n lt ver ws opt opt' ws' sum_l sum_g lc cp ap
              (state.none_early (omega (arith, state.locals_left)))
              (omega (arith, state.locals_left)))
            (subst
              (λ m.
                Completes layer name others n lt ver ws opt opt' ws' sum_l sum_g ts e ack b
                  (ltb (lc + 1) lt || (cp' == 1)) (prompt m ts) (threads s1 cp' ap ch))
              (omega arith) (round ts next)))
    round (collected x us ∷ ts) {lc} {gc} {ls} {gs} {e} {ack} {b} {cp} {ap} {ch} {s} state =
        let (s1, eq1, next1) =
          add_ghost-Gathers layer name others n lt state.gathers us state.fits.0
            (omega (arith, state.ghosts_left)) rn in
        let ch' : ℕ = if gc + 1 == others then ch + 1 else ch in
        quiet layer name others n lt ver ws opt opt' ws' sum_l sum_g (collected x us) ts e ack b b _
          _ _ _ (threads s1 cp ap ch') (ack_msg x ∷ []) (ground (arith, eq1)) (λ out. refl)
          (λ out p. cc p) refl (omega arith) (λ d p. p)
          (round ts (record {
            gathers = next1;
            locals_left = state.locals_left;
            ghosts_left = omega (arith, state.ghosts_left);
            local_sum = state.local_sum;
            ghost_sum = state.ghost_sum;
            fits = state.fits.1;
            none_early = state.none_early;
            one_worker = state.one_worker;
            some_thread = λ h k. ground (arith, state.ghosts_left, k);
            small = omega (arith, state.small);
          }))
    round (tried ∷ ts) {lc} {gc} {ls} {gs} {e} {ack} {b} {cp} {ap} {ch} {s} state =
        elim (Bool-cases (ap == 0)) [
          | inl idle ↦
              quiet layer name others n lt ver ws opt opt' ws' sum_l sum_g tried ts e ack b b _ _ _
                _ (threads s cp ap ch) [] (ground (arith, idle)) (λ out. refl) (λ out p. p) refl
                (omega arith) (λ d p. p)
                (round ts (
                  keep layer name others n lt ver ws opt opt' ws' sum_l sum_g tried ts state refl
                    refl refl (λ p. p) state.gathers (omega arith) state.none_early state.one_worker
                    state.some_thread))
          | inr busy ↦
              let own = try_own-eq layer name others n lt state.gathers in
              elim (Bool-cases (ltb gc others)) [
                | inr full ↦
                    applies layer name others n lt ver ws opt opt' ws' sum_l sum_g rn rl pos rv st l
                      tried ts cp (ap - 1) ch state (ground (arith, state.none_early))
                      (ground arith) refl refl refl refl (λ s1 eq1. ground (arith, busy, own, eq1))
                      _ (λ d. absurd (ground (arith, d, busy, state.one_worker)))
                | inl more ↦
                    let (s1, eq1, next1) =
                      try_tensor-waits layer name others n lt state.gathers (inr (ground arith)) in
                    quiet layer name others n lt ver ws opt opt' ws' sum_l sum_g tried ts e ack b b
                      _ _ _ _ (threads s1 cp (ap - 1) ch) [] (ground (arith, busy, own, eq1))
                      (λ out. refl) (λ out p. p) refl (omega arith) (λ d p. p)
                      (round ts (
                        keep layer name others n lt ver ws opt opt' ws' sum_l sum_g tried ts state
                          refl refl refl (λ p. p) next1 (omega arith)
                          (λ h. omega (arith, state.none_early h)) (omega (arith, state.one_worker))
                          (λ h k. ground (arith, k))))
              ]
        ]
    round (checked ∷ ts) {lc} {gc} {ls} {gs} {e} {ack} {b} {cp} {ap} {ch} {s} state =
        elim (Bool-cases (ch == 0)) [
          | inl idle ↦
              quiet layer name others n lt ver ws opt opt' ws' sum_l sum_g checked ts e ack b b _ _
                _ _ (threads s cp ap ch) [] (ground (arith, idle)) (λ out. refl) (λ out p. p) refl
                (omega arith) (λ d p. ground (arith, p))
                (round ts (
                  keep layer name others n lt ver ws opt opt' ws' sum_l sum_g checked ts state refl
                    refl refl (λ p. p) state.gathers (omega arith) state.none_early state.one_worker
                    state.some_thread))
          | inr busy ↦ elim (Bool-cases (ltb gc others || ltb lc lt)) [
            | inr full ↦
                applies layer name others n lt ver ws opt opt' ws' sum_l sum_g rn rl pos rv st l
                  checked ts cp ap (ch - 1) state (ground arith) (ground arith) refl refl refl refl
                  (λ s1 eq1. ground (arith, busy, eq1)) _ (λ d. ground arith)
            | inl more ↦
                let (s1, eq1, next1) =
                  try_tensor-waits layer name others n lt state.gathers (ground arith) in
                quiet layer name others n lt ver ws opt opt' ws' sum_l sum_g checked ts e ack b b _
                  _ _ _ (threads s1 cp ap (ch - 1)) [] (ground (arith, busy, eq1)) (λ out. refl)
                  (λ out p. p) refl (omega arith) (λ d p. ground (arith, p))
                  (round ts (
                    keep layer name others n lt ver ws opt opt' ws' sum_l sum_g checked ts state
                      refl refl refl (λ p. p) next1 (omega arith) state.none_early state.one_worker
                      (λ h k. ground (arith, h, k))))
          ]
        ]
    round (copied ∷ ts) {lc} {gc} {ls} {gs} {e} {ack} {b} {cp} {ap} {ch} {s} state =
        elim (Bool-cases (cp == 0)) [
          | inl idle ↦
              quiet layer name others n lt ver ws opt opt' ws' sum_l sum_g copied ts e ack b b _ _ _
                _ (threads s cp ap ch) [] (ground (arith, idle)) (λ out. refl) (λ out p. p) refl
                (omega arith) (λ d p. ground (arith, idle, d, p))
                (round ts (
                  keep layer name others n lt ver ws opt opt' ws' sum_l sum_g copied ts state refl
                    refl refl (λ p. p) state.gathers (omega arith) state.none_early state.one_worker
                    state.some_thread))
          | inr busy ↦
              let (s1, eq1, next1) =
                publish_update-Gathers layer name others n lt state.gathers rn in
              let next : Open layer name others n lt ver ws opt opt' ws' sum_l sum_g ts lc gc ls gs
                  e (add32 ack others) b (cp - 1) (ap + 1) ch s1 =
                keep layer name others n lt ver ws opt opt' ws' sum_l sum_g copied ts state refl
                  refl refl (λ p. p) next1 (omega arith)
                  (λ h. absurd (ground (arith, busy, state.none_early h)))
                  (ground (arith, busy, state.one_worker)) (λ h k. omega arith) in
              published layer name others n lt ver ws opt opt' ws' sum_l sum_g copied ts state
                (ground (arith, busy, state.none_early)) busy refl refl (ground (arith, busy, eq1))
                _ _ (round ts next)
        ]

    -- A synchronous round of one tensor on a GCN server that starts with no thread at work, by any
    -- sequence of turns in which the tensor's pushes and one update for each other server come. The
    -- arrays fit, Adam's step along the sum of all the gradients is defined, and the counters are in
    -- their ranges. No turn faults, and the updates of the other servers are acknowledged in their
    -- order. Then either a thread is still on its way, or the round is complete: exactly one step of
    -- Adam was taken, along that sum, and made one version and one epoch; the counts and both buffers
    -- start anew; exactly one update was published, which is the sum of the pushes, or, only if after
    -- the last push the receiver tries to apply before the worker publishes, a buffer of zeros; and
    -- one acknowledgement is due from each other server, less those that came.
    pub turns_round :
        (ts : List (Turn A)) (e ack b : ℕ) (s : UpdateServer K A)
        → Gathers layer name others n lt 0 0 zeros zeros ver ws opt e ack b s
        → locals_in ts ≡ lt
        → length (ghosts_of ts) ≡ others
        → Fits n ts
        → add_locals zeros ts ≡ sum_l
        → add_ghosts zeros (ghosts_of ts) ≡ sum_g
        → b + length ts < u32_mod
        → (t' : Threads K A) × (out : List (Publication K A)) × (ack' : ℕ) × (turns layer name ts
              (threads s 0 0 0)
            ≡ some (t', out))
          × (acked_of out ≡ senders (ghosts_of ts))
          × ((0 < working t')
              ⊎ (Gathers layer name others n lt 0 0 zeros zeros
                    (ver + 1)
                    ws'
                    opt'
                    (add32 e 1)
                    ack'
                    (b + length ts)
                    t'.server
                  × ((updates_of out ≡ (layer, name, sum_l) ∷ [])
                      ⊎ ((updates_of out ≡ (layer, name, zeros) ∷ []) × (prompt lt ts ≡ false)))
                  × ((ack' + acks_in ts) % u32_mod ≡ (ack + others) % u32_mod)))
    turns_round ts e ack b s gather pushes others_come fit sl sg room =
        let start : Open layer name others n lt ver ws opt opt' ws' sum_l sum_g ts 0 0 zeros zeros e
            ack b 0 0 0 s =
          record {
            gathers = gather;
            locals_left = omega arith;
            ghosts_left = omega arith;
            local_sum = sl;
            ghost_sum = sg;
            fits = fit;
            none_early = λ h. refl;
            one_worker = omega arith;
            some_thread = λ h k. omega arith;
            small = room;
          } in
        let due : (ltb 0 lt || (0 == 1)) ≡ true = ground arith in
        subst
          (λ d.
            Completes layer name others n lt ver ws opt opt' ws' sum_l sum_g ts e ack b d
              (prompt lt ts) (threads s 0 0 0))
          due
          (subst
            (λ m.
              Completes layer name others n lt ver ws opt opt' ws' sum_l sum_g ts e ack b
                (ltb 0 lt || (0 == 1)) (prompt m ts) (threads s 0 0 0))
            (omega arith) (round ts start))
