-- ===== src/Weights/Tensor/Sync.antt =====
-- What `tryApplyUpdate` does: not ready, it changes nothing; ready, it makes a new version of the
-- weights, one step of the optimizer away from the current one.
use dorylus.Prelude.{
  ◌+◌, ◌<◌, ◌≤◌, ◌↔◌, ◌⊎◌, ◌≡◌, refl, ◌∙◌, List, Bool, true, false, Option, none, some, arith,
  length, replicate, u32_mod,
}
use dorylus.Chunk.{Chunk, chunk_order}
use dorylus.Weights.Float.{Float}
use dorylus.Weights.Heap.{Heap, Matrix, load}
use dorylus.Weights.Arrays.{zip_with}
use dorylus.Weights.Versions.{Versions, key_of}
use dorylus.Weights.Versions.Refs.{held-le}
use dorylus.Weights.Tensor.Defs.{WeightTensor, Optimizer, opt_step, try_apply_update, not_ready}
use dorylus.Weights.Tensor.Valid.{
  elemts, IsValid, contents, IsBound, Advances, Keeps, Keeps-by, local_slot, ghost_slot,
  recount-IsValid,
}
use dorylus.Weights.Tensor.Write.{load-slot}
use dorylus.Weights.Tensor.Advance.{IsNewVersion, update_version-IsNewVersion}
use dorylus.Weights.Tensor.Apply.{Applied, apply_sync_lem, apply_ghost_lem, apply_local_lem}

-- The result of an update that was applied: the invariant, the new weights as the contents of the
-- next version, and the weights of the bound chunks as they were.
pub record IsUpdate {A : Type 0} (w : WeightTensor) (h : Heap A) (ws' : List A) (w' : WeightTensor)
    (h' : Heap A) : Type 0 where
  pub advances : Advances w w' h'
  pub next_ver : w'.curr_ver ≡ w.curr_ver + 1
  pub new_weights : contents w'.curr_ver w' h' ≡ some ws'
  pub keeps : (c : Chunk) → IsBound c w → Keeps c w h w' h'

module _ {A : Type 0} ⦃f : Float A⦄ (w : WeightTensor) (h : Heap A) (valid : IsValid w h) where
  new-IsUpdate :
      (t : Versions Matrix) (w' : WeightTensor) (h1 h' : Heap A) (ws' : List A)
      → IsNewVersion w h (record w { versions = t }) h1
      → Applied (record w { versions = t }) h1 ws' h'
      → w'.versions ≡ t
      → IsValid w' h'
      → elemts w' ≡ elemts w
      → w'.sync ≡ w.sync
      → IsUpdate w h ws' w' h'
  new-IsUpdate t w' h1 h' ws' new app same valid' el sy = record {
    advances = record {
      valid = valid';
      same_elemts = el;
      same_sync = sy;
      versions_le = ground (arith, new.advances.versions_le);
      chunks_le = ground (arith, new.advances.chunks_le);
    };
    next_ver = ground (arith, new.next_ver);
    new_weights = ground (arith, app.new_weights);
    keeps = λ c b. Keeps-by c w h w' h' b λ v bound. (
      ground (arith, new.bindings),
      ground (
        arith,
        new.kept c v bound,
        app.kept c v,
        new.bindings,
        bound,
        new.next_ver,
        held-le w.versions valid.table (key_of c) v bound,
      ),
    );
  }

  module _ (opt opt' : Optimizer A) (upd : Option (List A)) (ws ws' : List A)
      (room : w.curr_ver + 1 < u32_mod) (running : w.stop ≡ false)
      (current : contents w.curr_ver w h ≡ some ws) (fits : length ws' ≡ elemts w) where
    -- A synchronous update, once both counts are complete: one step of the optimizer along the sum
    -- of the local and the ghost gradients makes the next version; both buffers are zero again and
    -- both counts are 0; the weights of every bound chunk stay as they were.
    pub try_apply_update-sync :
        (ls gs : List A)
        → w.sync ≡ true
        → w.local_upd_tot ≤ w.local_upd_cnt
        → w.ghost_upd_tot ≤ w.ghost_upd_cnt
        → load w.local_upd_mat h ≡ some ls
        → load w.ghost_upd_mat h ≡ some gs
        → opt_step opt (elemts w) ws (zip_with f.add ls gs) ≡ some (opt', ws')
        → (w' : WeightTensor) × (h' : Heap A) × (try_apply_update opt upd w h
            ≡ some (true, opt', w', h'))
          × IsUpdate w h ws' w' h'
          × (load w'.local_upd_mat h' ≡ some (replicate (elemts w) f.zero))
          × (load w'.ghost_upd_mat h' ≡ some (replicate (elemts w) f.zero))
          × (w'.local_upd_cnt ≡ 0)
          × (w'.ghost_upd_cnt ≡ 0)
    unfolding try_apply_update not_ready
    try_apply_update-sync ls gs s lc gc rl rg st =
        let (t, h1, eq, new) = update_version-IsNewVersion w h valid running room in
        let w1 : WeightTensor = record w { versions = t } in
        let (xs, rl', ll) = load-slot w h valid local_slot w.local_upd_mat refl in
        let (ys, rg', lg) = load-slot w h valid ghost_slot w.ghost_upd_mat (ground arith) in
        let (h2, eq2, app, zl, zg) =
          apply_sync_lem w1 h1 new.advances.valid opt opt' ws ws' (new.copied ∙ current) fits ls gs
            s (new.local_kept ∙ rl) (new.ghost_kept s ∙ rg) st (ground arith) (ground arith) in
        (
          record w1 { local_upd_cnt = 0; ghost_upd_cnt = 0 },
          h2,
          ground (arith, eq, eq2),
          new-IsUpdate t _ h1 h2 ws' new app refl
              (recount-IsValid w1 h2 w.stop w.local_upd_tot w.ghost_upd_tot 0 0 app.still) refl
              refl,
          zl,
          zg,
          refl,
          refl,
        )

    -- An asynchronous update from another server applies at once, whatever the counts are, and
    -- leaves the local gradients and both counts alone.
    pub try_apply_update-ghost :
        (us : List A)
        → w.sync ≡ false
        → upd ≡ some us
        → opt_step opt (elemts w) ws us ≡ some (opt', ws')
        → (w' : WeightTensor) × (h' : Heap A) × (try_apply_update opt upd w h
            ≡ some (true, opt', w', h'))
          × IsUpdate w h ws' w' h'
          × (load w'.local_upd_mat h' ≡ load w.local_upd_mat h)
          × (w'.local_upd_cnt ≡ w.local_upd_cnt)
          × (w'.ghost_upd_cnt ≡ w.ghost_upd_cnt)
    unfolding try_apply_update not_ready
    try_apply_update-ghost us s some_upd st =
        let (t, h1, eq, new) = update_version-IsNewVersion w h valid running room in
        let w1 : WeightTensor = record w { versions = t } in
        let (h2, eq2, app, kept) =
          apply_ghost_lem w1 h1 new.advances.valid opt opt' ws ws' (new.copied ∙ current) fits us
            st in
        (
          w1,
          h2,
          ground (arith, eq, eq2),
          new-IsUpdate t w1 h1 h2 ws' new app refl app.still refl refl,
          kept ∙ new.local_kept,
          refl,
          refl,
        )

    -- An asynchronous update of the server's own chunks waits for all of them, goes along the sum
    -- of their gradients, and clears it.
    pub try_apply_update-local :
        (ls : List A)
        → w.sync ≡ false
        → upd ≡ none
        → w.local_upd_tot ≤ w.local_upd_cnt
        → load w.local_upd_mat h ≡ some ls
        → opt_step opt (elemts w) ws ls ≡ some (opt', ws')
        → (w' : WeightTensor) × (h' : Heap A) × (try_apply_update opt upd w h
            ≡ some (true, opt', w', h'))
          × IsUpdate w h ws' w' h'
          × (load w'.local_upd_mat h' ≡ some (replicate (elemts w) f.zero))
          × (w'.local_upd_cnt ≡ 0)
          × (w'.ghost_upd_cnt ≡ w.ghost_upd_cnt)
    unfolding try_apply_update not_ready
    try_apply_update-local ls s no_upd lc rl st =
        let (t, h1, eq, new) = update_version-IsNewVersion w h valid running room in
        let w1 : WeightTensor = record w { versions = t } in
        let (h2, eq2, app, zl) =
          apply_local_lem w1 h1 new.advances.valid opt opt' ws ws' (new.copied ∙ current) fits ls
            (new.local_kept ∙ rl) st in
        (
          record w1 { local_upd_cnt = 0 },
          h2,
          ground (arith, eq, eq2),
          new-IsUpdate t _ h1 h2 ws' new app refl
              (recount-IsValid w1 h2 w.stop w.local_upd_tot w.ghost_upd_tot 0 w.ghost_upd_cnt
                app.still)
              refl refl,
          zl,
          refl,
          refl,
        )

-- `tryApplyUpdate` changes nothing and reports no update exactly when the tensor is stopped, or a
-- synchronous tensor lacks local or ghost updates, or an asynchronous one lacks local updates and
-- was not handed a ghost update.
pub not_ready_iff :
    (ghost : Bool) (w : WeightTensor)
    → (not_ready ghost w ≡ true) ↔ (
        (w.stop ≡ true)
        ⊎ (((w.sync ≡ true)
              × ((w.local_upd_cnt < w.local_upd_tot) ⊎ (w.ghost_upd_cnt < w.ghost_upd_tot)))
            ⊎ ((w.sync ≡ false) × (ghost ≡ false) × (w.local_upd_cnt < w.local_upd_tot))))
unfolding not_ready
not_ready_iff ghost w = ground arith
