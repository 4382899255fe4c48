-- ===== src/Weights/Tensor/Update.antt =====
-- When `tryApplyUpdate` applies an update, and what it leaves in the tensor.
use dorylus.Prelude.{
  ◌+◌, ◌<◌, ◌≤◌, ◌≡◌, List, true, false, Option, none, some, length, replicate, u32_mod,
}
use dorylus.Weights.Float.{Float}
use dorylus.Weights.Heap.{Heap, load}
use dorylus.Weights.Arrays.{zip_with}
use dorylus.Weights.Tensor.Defs.{WeightTensor, Optimizer, opt_step, try_apply_update}
use dorylus.Weights.Tensor.Valid.{elemts, IsValid, contents}
use dorylus.Weights.Tensor.Sync.{
  try_apply_update-sync, try_apply_update-ghost, try_apply_update-local,
}

module _ {A : Type 0} ⦃f : Float A⦄ (w : WeightTensor) (h : Heap A) (valid : IsValid w h)
    (opt opt' : Optimizer A) (upd : Option (List A)) (ws ws' : List A)
    (room : w.curr_ver + 1 < u32_mod) (running : w.stop ≡ false)
    (current : contents w.curr_ver w h ≡ some ws) (fits : length ws' ≡ elemts w) where
  -- A synchronous update of a running, valid tensor, once both counts are complete: if one step of
  -- the optimizer from the current weights along the sum of the local and the ghost gradients gives
  -- as many new weights, then they become the next version, both buffers are zero again, both counts
  -- are 0, and the tensor is valid.
  pub sync_update :
      (ls gs : List A)
      → w.sync ≡ true
      → w.local_upd_tot ≤ w.local_upd_cnt
      → w.ghost_upd_tot ≤ w.ghost_upd_cnt
      → load w.local_upd_mat h ≡ some ls
      → load w.ghost_upd_mat h ≡ some gs
      → opt_step opt (elemts w) ws (zip_with f.add ls gs) ≡ some (opt', ws')
      → (w' : WeightTensor) × (h' : Heap A) × (try_apply_update opt upd w h
          ≡ some (true, opt', w', h'))
        × IsValid w' h'
        × (w'.curr_ver ≡ w.curr_ver + 1)
        × (contents w'.curr_ver w' h' ≡ some ws')
        × (load w'.local_upd_mat h' ≡ some (replicate (elemts w) f.zero))
        × (load w'.ghost_upd_mat h' ≡ some (replicate (elemts w) f.zero))
        × (w'.local_upd_cnt ≡ 0)
        × (w'.ghost_upd_cnt ≡ 0)
  sync_update ls gs s lc gc rl rg st =
      let (w', h', eq, u, zl, zg, c1, c2) =
        try_apply_update-sync w h valid opt opt' upd ws ws' room running current fits ls gs s lc gc
          rl rg st in
      (w', h', eq, u.advances.valid, u.next_ver, u.new_weights, zl, zg, c1, c2)

  -- An asynchronous update that another server sent, on a running, valid tensor: if one step of the
  -- optimizer from the current weights along the update gives as many new weights, then they become
  -- the next version at once, whatever the counts are; the local gradients and both counts stay as
  -- they were, and the tensor is valid.
  pub ghost_async_update :
      (us : List A)
      → w.sync ≡ false
      → upd ≡ some us
      → opt_step opt (elemts w) ws us ≡ some (opt', ws')
      → (w' : WeightTensor) × (h' : Heap A) × (try_apply_update opt upd w h
          ≡ some (true, opt', w', h'))
        × IsValid w' h'
        × (w'.curr_ver ≡ w.curr_ver + 1)
        × (contents w'.curr_ver w' h' ≡ some ws')
        × (load w'.local_upd_mat h' ≡ load w.local_upd_mat h)
        × (w'.local_upd_cnt ≡ w.local_upd_cnt)
        × (w'.ghost_upd_cnt ≡ w.ghost_upd_cnt)
  ghost_async_update us s e st =
      let (w', h', eq, u, kept, c1, c2) =
        try_apply_update-ghost w h valid opt opt' upd ws ws' room running current fits us s e st in
      (w', h', eq, u.advances.valid, u.next_ver, u.new_weights, kept, c1, c2)

  -- An asynchronous update of the server's own chunks, on a running, valid tensor with all local
  -- updates counted: if one step of the optimizer from the current weights along the local gradients
  -- gives as many new weights, then they become the next version, the local buffer is zero again,
  -- the local count is 0, the ghost count stays, and the tensor is valid.
  pub local_async_update :
      (ls : List A)
      → w.sync ≡ false
      → upd ≡ none
      → w.local_upd_tot ≤ w.local_upd_cnt
      → load w.local_upd_mat h ≡ some ls
      → opt_step opt (elemts w) ws ls ≡ some (opt', ws')
      → (w' : WeightTensor) × (h' : Heap A) × (try_apply_update opt upd w h
          ≡ some (true, opt', w', h'))
        × IsValid w' h'
        × (w'.curr_ver ≡ w.curr_ver + 1)
        × (contents w'.curr_ver w' h' ≡ some ws')
        × (load w'.local_upd_mat h' ≡ some (replicate (elemts w) f.zero))
        × (w'.local_upd_cnt ≡ 0)
        × (w'.ghost_upd_cnt ≡ w.ghost_upd_cnt)
  local_async_update ls s e lc rl st =
      let (w', h', eq, u, zl, c1, c2) =
        try_apply_update-local w h valid opt opt' upd ws ws' room running current fits ls s e lc rl
          st in
      (w', h', eq, u.advances.valid, u.next_ver, u.new_weights, zl, c1, c2)
