-- ===== src/Weights/Tensor/Apply.antt =====
-- `WeightTensor::tryApplyUpdate` on a valid tensor.
use dorylus.Prelude.{ℕ, ◌≡◌, ◌≢◌, refl, ◌∙◌, List, true, some, arith, length, replicate}
use dorylus.Prelude.Map.{find}
use dorylus.Chunk.{Chunk, chunk_order}
use dorylus.Weights.Float.{Float}
use dorylus.Weights.Heap.{Heap, load}
use dorylus.Weights.Arrays.{zip_with, update_n-eq-zip_with, length-zip_with}
use dorylus.Weights.Versions.{key_of}
use dorylus.Weights.Tensor.Defs.{
  WeightTensor, Optimizer, opt_step, apply_sync, apply_ghost, apply_local,
}
use dorylus.Weights.Tensor.Valid.{version, local_slot, ghost_slot, elemts, IsValid, contents}
use dorylus.Weights.Tensor.Write.{
  Writes, store-Writes, clear-Writes, step_weights-Writes, Writes-contents, current_slot,
}

-- What a branch of `tryApplyUpdate` leaves: the new weights, and the versions in use untouched.
pub record Applied {A : Type 0} (w : WeightTensor) (h : Heap A) (ws' : List A) (h' : Heap A)
    : Type 0 where
  pub still : IsValid w h'
  pub new_weights : contents w.curr_ver w h' ≡ some ws'
  pub kept :
      (c : Chunk) (v : ℕ)
      → find (key_of c) w.chunk2ver ≡ some v
      → v ≢ w.curr_ver
      → contents v w h' ≡ contents v w h

module _ {A : Type 0} ⦃f : Float A⦄ (w : WeightTensor) (h : Heap A) (valid : IsValid w h)
    (opt opt' : Optimizer A) (ws ws' : List A) (cur : contents w.curr_ver w h ≡ some ws)
    (l : length ws' ≡ elemts w) where
  -- The branch of an update that came from another server.
  pub apply_ghost_lem :
      (us : List A)
      → opt_step opt (elemts w) ws us ≡ some (opt', ws')
      → (h' : Heap A) × (apply_ghost opt us w h ≡ some (opt', w, h'))
        × Applied w h ws' h'
        × (load w.local_upd_mat h' ≡ load w.local_upd_mat h)
  unfolding apply_ghost
  apply_ghost_lem us st =
      let (m, h1, p, eq, wr) = step_weights-Writes w h valid opt opt' us ws ws' cur st l in
      (
        h1,
        rw eq,
        record {
          still = wr.valid;
          new_weights = ground (arith, p, wr.written);
          kept = λ c v bound ne.
              Writes-contents w h h1 (version w.curr_ver) m ws' valid wr c v bound
                (λ q. ground arith);
        },
        wr.others local_slot w.local_upd_mat refl (λ q. cc),
      )

  -- The branch of an update from the server's own chunks.
  pub apply_local_lem :
      (ls : List A)
      → load w.local_upd_mat h ≡ some ls
      → opt_step opt (elemts w) ws ls ≡ some (opt', ws')
      → (h' : Heap A) × (apply_local opt w h ≡ some (opt', record w { local_upd_cnt = 0 }, h'))
        × Applied w h ws' h'
        × (load w.local_upd_mat h' ≡ some (replicate (elemts w) f.zero))
  unfolding apply_local
  apply_local_lem ls rl st =
      let (m, h1, p, eq, wr) = step_weights-Writes w h valid opt opt' ls ws ws' cur st l in
      let (h2, eq2, wr2) = clear-Writes w h1 wr.valid local_slot w.local_upd_mat refl in
      (
        h2,
        ground (arith, rl, eq, eq2),
        record {
          still = wr2.valid;
          new_weights =
              ground (arith, p, wr.written, wr2.others (version w.curr_ver) m p (λ q. cc));
          kept = λ c v bound ne.
              Writes-contents w h1 h2 local_slot w.local_upd_mat _ wr.valid wr2 c v bound (λ q. cc)
              ∙ Writes-contents w h h1 (version w.curr_ver) m ws' valid wr c v bound
                  (λ q. ground arith);
        },
        wr2.written,
      )

  -- The branch of a synchronous update: along the sum of both buffers, which are cleared.
  pub apply_sync_lem :
      (ls gs : List A)
      → w.sync ≡ true
      → load w.local_upd_mat h ≡ some ls
      → load w.ghost_upd_mat h ≡ some gs
      → opt_step opt (elemts w) ws (zip_with f.add ls gs) ≡ some (opt', ws')
      → length ls ≡ elemts w
      → length gs ≡ elemts w
      → (h' : Heap A) × (apply_sync opt w h
          ≡ some (opt', record w { local_upd_cnt = 0; ghost_upd_cnt = 0 }, h'))
        × Applied w h ws' h'
        × (load w.local_upd_mat h' ≡ some (replicate (elemts w) f.zero))
        × (load w.ghost_upd_mat h' ≡ some (replicate (elemts w) f.zero))
  unfolding apply_sync
  apply_sync_lem ls gs s rl rg st ll lg =
      let us = zip_with f.add ls gs in
      let sum = update_n-eq-zip_with f.add (elemts w) ls gs ll lg in
      let (h1, eq1, wr1) =
        store-Writes w h valid local_slot w.local_upd_mat us refl
          (length-zip_with f.add (elemts w) ls gs ll lg) in
      let (m, h2, p, eq2, wr2) =
        step_weights-Writes w h1 wr1.valid opt opt' us ws ws' (current_kept h1 us wr1 ∙ cur) st l in
      let (h3, eq3, wr3) = clear-Writes w h2 wr2.valid local_slot w.local_upd_mat refl in
      let (h4, eq4, wr4) = clear-Writes w h3 wr3.valid ghost_slot w.ghost_upd_mat (ground arith) in
      (
        h4,
        ground (arith, rl, rg, sum, eq1, eq2, eq3, eq4),
        record {
          still = wr4.valid;
          new_weights = ground (
            arith,
            p,
            wr2.written,
            wr3.others (version w.curr_ver) m p (λ q. cc),
            wr4.others (version w.curr_ver) m p (λ q. cc),
          );
          kept = λ c v bound ne.
              Writes-contents w h3 h4 ghost_slot w.ghost_upd_mat _ wr3.valid wr4 c v bound (λ q. cc)
              ∙ Writes-contents w h2 h3 local_slot w.local_upd_mat _ wr2.valid wr3 c v bound
                  (λ q. cc)
              ∙ Writes-contents w h1 h2 (version w.curr_ver) m ws' wr1.valid wr2 c v bound
                  (λ q. ground arith)
              ∙ Writes-contents w h h1 local_slot w.local_upd_mat us valid wr1 c v bound (λ q. cc);
        },
        wr4.others local_slot w.local_upd_mat refl (λ q. cc) ∙ wr3.written,
        wr4.written,
      )
    where
      current_kept :
          (h1 : Heap A) (us : List A)
          → Writes w h local_slot w.local_upd_mat us h1
          → contents w.curr_ver w h1 ≡ contents w.curr_ver w h
      current_kept h1 us wr =
          let (m, p, same) = current_slot w h valid in
          ground (arith, p, wr.others (version w.curr_ver) m p (λ q. cc))
