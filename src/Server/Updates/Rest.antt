-- ===== src/Server/Updates/Rest.antt =====
-- What threads may still do when the update of a round has been applied.
use dorylus.Prelude.{
  ℕ, suc, ◌+◌, ◌-◌, ◌%◌, ◌<◌, ◌≤◌, ◌≡◌, refl, List, [], ◌∷◌, some, inl, inr, ◌==◌, if◌then◌else◌,
  arith, length, u32_mod, add32, sub32, replicate, Bool-cases,
}
use dorylus.Prelude.Map.{Order}
use dorylus.Weights.Float.{Float}
use dorylus.Weights.Adam.{Adam}
use dorylus.Server.Updates.Defs.{UpdateServer, Publication, update_msg, count_ack}
use dorylus.Server.Updates.Threads.{
  Threads, Turn, released, added, copied, tried, collected, checked, acknowledged, turn, turns,
  locals_in, ghosts_of, acks_in, updates_of, acked_of, Gathers,
}
use dorylus.Server.Updates.Steps.{
  ack-Gathers, fewer, try_tensor-waits, publish_update-Gathers, try_own-eq, release_tensor-Gathers,
}

abbrev pub threads : {K A : Type 0} → UpdateServer K A → ℕ → ℕ → ℕ → Threads K A
threads s cp ap ch = record { server = s; copying = cp; applying = ap; checking = ch }

-- One acknowledgement less is due.
pub acked_once :
    (a c a' k m : ℕ)
    → c ≡ a
    → (a' + k) % u32_mod ≡ (sub32 c 1 + m) % u32_mod
    → (a' + suc k) % u32_mod ≡ (a + m) % u32_mod
unfolding sub32
acked_once a c a' k m h e = omega arith

-- As many more as there are other servers.
pub published_once :
    (a a' k m : ℕ)
    → (a' + k) % u32_mod ≡ (add32 a m + 0) % u32_mod
    → (a' + k) % u32_mod ≡ (a + m) % u32_mod
unfolding add32
published_once a a' k m e = omega arith

module _ {K A : Type 0} ⦃o : Order K⦄ ⦃f : Float A⦄ (layer : ℕ) (name : K) (others n lt : ℕ)
    (rn : others + 1 < u32_mod) (pos : 1 ≤ lt) where
  abbrev pub zeros : List A
  zeros = replicate n f.zero

  -- No update is applied again, and a worker that is about to publish finds the buffer cleared.
  abbrev pub Rests : List (Turn A) → ℕ → List A → Adam A → ℕ → ℕ → ℕ → Threads K A → Type 0
  Rests ts ver ws opt e ack b t =
      (t' : Threads K A) × (out : List (Publication K A)) × (ack' : ℕ) × (turns layer name ts t
        ≡ some (t', out))
      × Gathers layer name others n lt 0 0 zeros zeros ver ws opt e ack' (b + length ts) t'.server
      × (t'.copying ≤ t.copying)
      × (updates_of out ≡ (if t'.copying == t.copying then [] else (layer, name, zeros) ∷ []))
      × (acked_of out ≡ [])
      × ((ack' + acks_in ts) % u32_mod
          ≡ (ack + (if t'.copying == t.copying then 0 else others)) % u32_mod)

  -- A turn that publishes nothing.
  silent :
      (a : Turn A) (ts : List (Turn A)) {ver : ℕ} {ws : List A} {opt : Adam A} {e b1 : ℕ}
      (ack b : ℕ) (t : Threads K A) {t1 : Threads K A}
      → turn layer name a t ≡ some (t1, [])
      → t1.copying ≡ t.copying
      → acks_in (a ∷ ts) ≡ acks_in ts
      → b1 ≤ b + 1
      → Rests ts ver ws opt e ack b1 t1
      → Rests (a ∷ ts) ver ws opt e ack b t
  unfolding turns
  silent a ts ack b t eq1 cop same le (t', out, ack', eq, next, mono, ups, none_acked, k) = (
    t',
    out,
    ack',
    ground (arith, eq1, eq),
    fewer layer name others n lt next (b + suc (length ts)) (omega arith),
    ground (arith, cop, mono),
    ground (arith, cop, ups),
    none_acked,
    ground (arith, cop, same, k),
  )

  pub after :
      (ts : List (Turn A)) (cp ap ch : ℕ) {ver : ℕ} {ws : List A} {opt : Adam A} {e ack b : ℕ}
      {s : UpdateServer K A}
      → Gathers layer name others n lt 0 0 zeros zeros ver ws opt e ack b s
      → locals_in ts ≡ 0
      → ghosts_of ts ≡ []
      → cp ≤ 1
      → b + length ts < u32_mod
      → Rests ts ver ws opt e ack b (threads s cp ap ch)
  unfolding turns turn count_ack
  after [] cp ap ch {ack = ack} {s = s} gather zl zg le room = (
    threads s cp ap ch,
    [],
    ack,
    refl,
    fewer layer name others n lt gather _ (omega arith),
    omega arith,
    ground arith,
    refl,
    ground arith,
  )
  after (added us ∷ ts) cp ap ch gather zl zg le room = absurd (omega arith)
  after (collected x us ∷ ts) cp ap ch gather zl zg le room = absurd (cc zg)
  after (released c ∷ ts) cp ap ch {ack = ack} {b = b} {s = s} gather zl zg le room =
      let (s1, eq1, next1) = release_tensor-Gathers layer name others n lt gather c (omega arith) in
      silent (released c) ts ack b (threads s cp ap ch) (ground (arith, eq1)) refl refl
        (omega arith) (after ts cp ap ch next1 zl zg le (omega arith))
  after (acknowledged ∷ ts) cp ap ch {ack = ack} {b = b} {s = s} gather zl zg le room =
      let (t', out, ack', eq, next, mono, ups, none_acked, k) =
        after ts cp ap ch (ack-Gathers layer name others n lt gather (sub32 s.ack_cnt 1)) zl zg le
          (omega arith) in
      (
        t',
        out,
        ack',
        ground (arith, eq),
        fewer layer name others n lt next (b + suc (length ts)) (omega arith),
        mono,
        ups,
        none_acked,
        acked_once ack s.ack_cnt ack' (acks_in ts) _ gather.has_ack k,
      )
  after (copied ∷ ts) cp ap ch {ack = ack} {b = b} {s = s} gather zl zg le room =
      elim (Bool-cases (cp == 0)) [
        | inl idle ↦
            silent copied ts ack b (threads s cp ap ch) (ground (arith, idle)) refl refl
              (omega arith) (after ts cp ap ch gather zl zg le (omega arith))
        | inr busy ↦
            let (s1, eq1, next1) = publish_update-Gathers layer name others n lt gather rn in
            let (t', out, ack', eq, next, mono, ups, none_acked, k) =
              after ts (cp - 1) (ap + 1) ch next1 zl zg (omega arith) (omega arith) in
            (
              t',
              update_msg layer name zeros ∷ out,
              ack',
              ground (arith, busy, eq1, eq),
              fewer layer name others n lt next (b + suc (length ts)) (omega arith),
              omega (arith, mono),
              ground (arith, busy, ups, mono),
              none_acked,
              ground (arith, busy, mono, k, published_once ack ack' (acks_in ts) others),
            )
      ]
  after (tried ∷ ts) cp ap ch {ack = ack} {b = b} {s = s} gather zl zg le room =
      let (s1, eq1, next1) = try_tensor-waits layer name others n lt gather (inl (omega arith)) in
      elim (Bool-cases (ap == 0)) [
        | inl idle ↦
            silent tried ts ack b (threads s cp ap ch) (ground (arith, idle)) refl refl
              (omega arith) (after ts cp ap ch gather zl zg le (omega arith))
        | inr busy ↦
            silent tried ts ack b (threads s cp ap ch)
              (ground (arith, busy, try_own-eq layer name others n lt gather, eq1)) refl refl
              (omega arith) (after ts cp (ap - 1) ch next1 zl zg le (omega arith))
      ]
  after (checked ∷ ts) cp ap ch {ack = ack} {b = b} {s = s} gather zl zg le room =
      let (s1, eq1, next1) = try_tensor-waits layer name others n lt gather (inl (omega arith)) in
      elim (Bool-cases (ch == 0)) [
        | inl idle ↦
            silent checked ts ack b (threads s cp ap ch) (ground (arith, idle)) refl refl
              (omega arith) (after ts cp ap ch gather zl zg le (omega arith))
        | inr busy ↦
            silent checked ts ack b (threads s cp ap ch) (ground (arith, busy, eq1)) refl refl
              (omega arith) (after ts cp ap (ch - 1) next1 zl zg le (omega arith))
      ]
