-- ===== src/Weights/Tensor/Trace.antt =====
-- The calls that the server's threads make on a tensor, in the order in which its mutexes let them
-- through.
use dorylus.Prelude.{ℕ, ◌≡◌, ◌≢◌, List, [], ◌∷◌, Bool, true, Option, none, some, ◌>>=◌, length}
use dorylus.Chunk.{Chunk}
use dorylus.Weights.Float.{Float}
use dorylus.Weights.Heap.{Heap}
use dorylus.Weights.Arrays.{zip_with, update_n-eq-zip_with, length-zip_with}
use dorylus.Weights.Adam.Total.{LayerFits, update-LayerFits}
use dorylus.Weights.Versions.{key_of}
use dorylus.Weights.Tensor.Defs.{
  WeightTensor, Optimizer, sgd, adam, opt_step, get_mat, dec_ref, stop_update, set_local_upd_tot,
  set_ghost_upd_tot, local_update, ghost_update, try_apply_update,
}

-- A call, with what the caller hands over. A call of `tryApplyUpdate` brings the optimizer as it is
-- then, which all tensors of the server share.
pub data Call (A : Type 0) : Type 0 where
  gets drops : Chunk → Call A
  locals ghosts : List A → Call A
  applies : Optimizer A → Option (List A) → Call A
  stops : Call A
  local_tots ghost_tots : ℕ → Call A

module _ {A : Type 0} where
  -- One call; `none` is a fault.
  unfoldable pub step :
      ⦃f : Float A⦄ → Call A → WeightTensor × Heap A → Option (WeightTensor × Heap A)
  step (gets c) (w, h) = do r ← get_mat c w; some (r.1, h)
  step (drops c) (w, h) = dec_ref c w h
  step (locals us) (w, h) = local_update us w h
  step (ghosts us) (w, h) = ghost_update us w h
  step (applies opt upd) (w, h) = do r ← try_apply_update opt upd w h; some (r.2, r.3)
  step stops (w, h) = some (stop_update w, h)
  step (local_tots n) (w, h) = some (set_local_upd_tot n w, h)
  step (ghost_tots n) (w, h) = some (set_ghost_upd_tot n w, h)

  unfoldable pub run :
      ⦃f : Float A⦄ → List (Call A) → WeightTensor × Heap A → Option (WeightTensor × Heap A)
  run [] s = some s
  run (c ∷ cs) s = do s' ← step c s; run cs s'

  -- The optimizer's buffers have the size of the tensor.
  abbrev pub OptFits : Optimizer A → ℕ → Type 0
  OptFits (sgd lr) n = Unit {0}
  OptFits (adam o layer) n = LayerFits o layer n

  abbrev pub UpdFits : Option (List A) → ℕ → Type 0
  UpdFits none n = Unit {0}
  UpdFits (some us) n = length us ≡ n

  -- The arrays that a call brings have the size of the tensor, and ghost updates are collected in a
  -- synchronous tensor only.
  abbrev pub CallFits : Call A → Bool → ℕ → Type 0
  CallFits (locals us) sync n = length us ≡ n
  CallFits (ghosts us) sync n = (length us ≡ n) × (sync ≡ true)
  CallFits (applies opt upd) sync n = OptFits opt n × UpdFits upd n
  CallFits _ sync n = Unit {0}

  -- The call does not release the chunk.
  abbrev pub Spares : Chunk → Call A → Type 0
  Spares c (drops d) = key_of d ≢ key_of c
  Spares c _ = Unit {0}

  abbrev pub AllCalls : (Call A → Type 0) → List (Call A) → Type 0
  AllCalls P [] = Unit {0}
  AllCalls P (c ∷ cs) = P c × AllCalls P cs

  pub opt_step_total :
      ⦃f : Float A⦄ (opt : Optimizer A) (n : ℕ) (ws gs : List A)
      → OptFits opt n
      → length ws ≡ n
      → length gs ≡ n
      → (opt' : Optimizer A) × (ws' : List A) × (opt_step opt n ws gs ≡ some (opt', ws'))
        × (length ws' ≡ n)
  unfolding opt_step
  opt_step_total ⦃f⦄ (sgd lr) n ws gs fits lw lg =
      let g = λ (w g : A). f.sub w (f.mul lr g) in
      (
        sgd lr,
        zip_with g ws gs,
        rw (update_n-eq-zip_with g n ws gs lw lg),
        length-zip_with g n ws gs lw lg,
      )
  opt_step_total (adam o layer) n ws gs fits lw lg =
      let (o', ws', eq, l, fits') = update-LayerFits o layer n ws gs fits lw lg in
      (adam o' layer, ws', rw eq, l)
