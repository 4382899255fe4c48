-- ===== src/Weights/Tensor/Calls.antt =====
-- `tryApplyUpdate` on a valid tensor, ready or not, and any call.
use dorylus.Prelude.{
  not, ◌+◌, ◌<◌, ◌≤◌, ◌≡◌, refl, ◌∙◌, List, Bool, true, false, Option, none, some, arith, inl, inr,
  u32_mod, subst, Bool-cases, ◌⊎◌,
}
use dorylus.Prelude.Map.{size}
use dorylus.Chunk.{chunk_order}
use dorylus.Weights.Float.{Float}
use dorylus.Weights.Heap.{Heap}
use dorylus.Weights.Arrays.{zip_with, length-zip_with}
use dorylus.Weights.Tensor.Defs.{
  WeightTensor, Optimizer, stop_update, set_local_upd_tot, set_ghost_upd_tot, try_apply_update,
  not_ready,
}
use dorylus.Weights.Tensor.Valid.{version, local_slot, ghost_slot, elemts, IsValid}
use dorylus.Weights.Tensor.Get.{get_mat-Advances}
use dorylus.Weights.Tensor.Drop.{dec_ref-Advances}
use dorylus.Weights.Tensor.Write.{load-slot, current_slot}
use dorylus.Weights.Tensor.Sync.{
  IsUpdate, try_apply_update-sync, try_apply_update-ghost, try_apply_update-local,
}
use dorylus.Weights.Tensor.Trace.{
  Call, gets, drops, locals, ghosts, applies, stops, local_tots, ghost_tots, step, OptFits, UpdFits,
  CallFits, opt_step_total,
}
use dorylus.Weights.Tensor.Steps.{
  recount-Steps, Steps, stay-Steps, local_update_total, ghost_update_total,
}

module _ {A : Type 0} ⦃f : Float A⦄ (w : WeightTensor) (h : Heap A) (valid : IsValid w h) where
  update-Steps :
      (call : Call A) (ws' : List A) (w' : WeightTensor) (h' : Heap A)
      → IsUpdate w h ws' w' h'
      → Steps call w h w' h'
  update-Steps call ws' w' h' u = record { advances = u.advances; keeps = λ c sp b. u.keeps c b }

  ready_cases :
      (upd : Option (List A))
      → not_ready (elim upd [ none ↦ false | some u ↦ true ]) w ≡ false
      → (w.stop ≡ false)
        × (((w.sync ≡ true)
              × (w.local_upd_tot ≤ w.local_upd_cnt)
              × (w.ghost_upd_tot ≤ w.ghost_upd_cnt))
            ⊎ (((w.sync ≡ false) × (us : List A) × (upd ≡ some us))
                ⊎ ((w.sync ≡ false) × (upd ≡ none) × (w.local_upd_tot ≤ w.local_upd_cnt))))
  unfolding not_ready
  ready_cases none r = ground arith
  ready_cases (some us) r = elim (Bool-cases w.sync) [
    | inl s ↦ (ground arith, inl (ground arith))
    | inr s ↦ (ground arith, inr (inl (s, us, refl)))
  ]

  pub try_apply_update_total :
      (opt : Optimizer A) (upd : Option (List A))
      → w.curr_ver + 1 < u32_mod
      → OptFits opt (elemts w)
      → UpdFits upd (elemts w)
      → (done : Bool) × (opt' : Optimizer A) × (w' : WeightTensor) × (h' : Heap A)
        × (try_apply_update opt upd w h ≡ some (done, opt', w', h'))
        × (done ≡ not (not_ready (elim upd [ none ↦ false | some u ↦ true ]) w))
        × Steps (applies opt upd) w h w' h'
  try_apply_update_total opt upd room fits uf =
      elim (Bool-cases (not_ready (elim upd [ none ↦ false | some u ↦ true ]) w)) [
        | inl wait ↦ (
          false,
          opt,
          w,
          h,
          unfold try_apply_update in rw wait,
          ground (arith, wait),
          stay-Steps w h valid (applies opt upd),
        )
        | inr ready ↦
            let (go, way) = ready_cases upd ready in
            let (m, p, same) = current_slot w h valid in
            let (ws, rd, lw) = load-slot w h valid (version w.curr_ver) m p in
            let (ls, rl, ll) = load-slot w h valid local_slot w.local_upd_mat refl in
            elim way [
              | inl (s, lc, gc) ↦
                  let (gs, rg, lg) =
                    load-slot w h valid ghost_slot w.ghost_upd_mat (ground arith) in
                  let us = zip_with f.add ls gs in
                  let (opt', ws', st, l') =
                    opt_step_total opt (elemts w) ws us fits lw
                      (length-zip_with f.add (elemts w) ls gs ll lg) in
                  let (w', h', eq, u, zl, zg, c1, c2) =
                    try_apply_update-sync w h valid opt opt' upd ws ws' room go (same ∙ rd) l' ls gs
                      s lc gc rl rg st in
                  (
                    true,
                    opt',
                    w',
                    h',
                    eq,
                    ground (arith, ready),
                    update-Steps (applies opt upd) ws' w' h' u,
                  )
              | inr (inl (s, us, e)) ↦
                  let (opt', ws', st, l') =
                    opt_step_total opt (elemts w) ws us fits lw
                      (subst (λ u. UpdFits u (elemts w)) e uf) in
                  let (w', h', eq, u, z, c1, c2) =
                    try_apply_update-ghost w h valid opt opt' upd ws ws' room go (same ∙ rd) l' us s
                      e st in
                  (
                    true,
                    opt',
                    w',
                    h',
                    eq,
                    ground (arith, ready),
                    update-Steps (applies opt upd) ws' w' h' u,
                  )
              | inr (inr (s, e, lc)) ↦
                  let (opt', ws', st, l') = opt_step_total opt (elemts w) ws ls fits lw ll in
                  let (w', h', eq, u, z, c1, c2) =
                    try_apply_update-local w h valid opt opt' upd ws ws' room go (same ∙ rd) l' ls s
                      e lc rl st in
                  (
                    true,
                    opt',
                    w',
                    h',
                    eq,
                    ground (arith, ready),
                    update-Steps (applies opt upd) ws' w' h' u,
                  )
            ]
      ]

  -- Every call.
  pub step_total :
      (call : Call A)
      → CallFits call w.sync (elemts w)
      → size w.chunk2ver + 1 < u32_mod
      → w.curr_ver + 1 < u32_mod
      → (w' : WeightTensor) × (h' : Heap A) × (step call (w, h) ≡ some (w', h'))
        × Steps call w h w' h'
  unfolding step
  step_total (gets c) fits cs vs =
      let (m, w', eq, b, adv, keeps) = get_mat-Advances w h valid c cs in
      (w', h, rw eq, record { advances = adv; keeps = λ d s b. keeps d b })
  step_total (drops c) fits cs vs =
      let (w', h', eq, adv, keeps) = dec_ref-Advances w h valid c (omega arith) in
      (w', h', eq, record { advances = adv; keeps = λ d s b. keeps d s b })
  step_total (locals us) fits cs vs = local_update_total w h valid us fits
  step_total (ghosts us) fits cs vs = ghost_update_total w h valid us fits.1 fits.0
  step_total (applies opt upd) fits cs vs =
      let (done, opt', w', h', eq, flag, st) = try_apply_update_total opt upd vs fits.0 fits.1 in
      (w', h', rw eq, st)
  step_total stops fits cs vs = (
    stop_update w,
    h,
    refl,
    unfold stop_update in
        recount-Steps w h valid stops true w.local_upd_tot w.ghost_upd_tot w.local_upd_cnt
          w.ghost_upd_cnt,
  )
  step_total (local_tots n) fits cs vs = (
    set_local_upd_tot n w,
    h,
    refl,
    unfold set_local_upd_tot in
        recount-Steps w h valid (local_tots n) w.stop n w.ghost_upd_tot w.local_upd_cnt
          w.ghost_upd_cnt,
  )
  step_total (ghost_tots n) fits cs vs = (
    set_ghost_upd_tot n w,
    h,
    refl,
    unfold set_ghost_upd_tot in
        recount-Steps w h valid (ghost_tots n) w.stop w.local_upd_tot n w.local_upd_cnt
          w.ghost_upd_cnt,
  )
