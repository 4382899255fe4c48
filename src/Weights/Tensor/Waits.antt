-- ===== src/Weights/Tensor/Waits.antt =====
-- When `tryApplyUpdate` does nothing.
use dorylus.Prelude.{
  ◌+◌, ◌<◌, ◌≡◌, ◌↔◌, ◌⊎◌, List, Bool, true, false, Option, none, some, arith, u32_mod,
}
use dorylus.Weights.Float.{Float}
use dorylus.Weights.Heap.{Heap}
use dorylus.Weights.Tensor.Defs.{WeightTensor, Optimizer, try_apply_update}
use dorylus.Weights.Tensor.Valid.{elemts, IsValid}
use dorylus.Weights.Tensor.Sync.{not_ready_iff}
use dorylus.Weights.Tensor.Trace.{OptFits, UpdFits}
use dorylus.Weights.Tensor.Calls.{try_apply_update_total}

-- The call brings an update of another server.
abbrev pub brings : {A : Type 0} → Option (List A) → Bool
brings none = false
brings (some us) = true

module _ {A : Type 0} ⦃f : Float A⦄ (w : WeightTensor) (h : Heap A) (valid : IsValid w h) where
  -- On a valid tensor whose version number does not wrap, with an optimizer and an update of its
  -- size, `tryApplyUpdate` returns without an update, and with everything as it was, exactly when the
  -- tensor is stopped, or a synchronous tensor lacks local or ghost updates, or an asynchronous one
  -- lacks local updates and was not handed an update of another server.
  pub waits_iff :
      (opt : Optimizer A) (upd : Option (List A))
      → w.curr_ver + 1 < u32_mod
      → OptFits opt (elemts w)
      → UpdFits upd (elemts w)
      → (try_apply_update opt upd w h ≡ some (false, opt, w, h)) ↔ (
          (w.stop ≡ true)
          ⊎ (((w.sync ≡ true)
                × ((w.local_upd_cnt < w.local_upd_tot) ⊎ (w.ghost_upd_cnt < w.ghost_upd_tot)))
              ⊎ ((w.sync ≡ false) × (brings upd ≡ false) × (w.local_upd_cnt < w.local_upd_tot))))
  waits_iff opt none room fits uf =
      let (done, opt', w', h', eq, flag, st) =
        try_apply_update_total w h valid opt none room fits uf in
      let iff = not_ready_iff false w in
      ((λ e. iff.0 (ground (arith, e, eq, flag))), (λ c. unfold try_apply_update in rw (iff.1 c)))
  waits_iff opt (some us) room fits uf =
      let (done, opt', w', h', eq, flag, st) =
        try_apply_update_total w h valid opt (some us) room fits uf in
      let iff = not_ready_iff true w in
      ((λ e. iff.0 (ground (arith, e, eq, flag))), (λ c. unfold try_apply_update in rw (iff.1 c)))
