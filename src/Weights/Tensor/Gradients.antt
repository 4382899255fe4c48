-- ===== src/Weights/Tensor/Gradients.antt =====
-- What an update and `tryApplyUpdate` do to a tensor that collects.
use dorylus.Prelude.{
  ℕ, ◌+◌, ◌<◌, ◌≤◌, ◌≡◌, ◌⊎◌, refl, sym, ◌∙◌, inl, inr, List, true, false, none, some, arith,
  length, u32_mod, add32, add32-eq, replicate, Option-cases,
}
use dorylus.Prelude.Map.{size, nat_order}
use dorylus.Chunk.{chunk_order}
use dorylus.Weights.Float.{Float}
use dorylus.Weights.Heap.{Heap}
use dorylus.Weights.Arrays.{zip_with, update_n-eq-zip_with, length-zip_with}
use dorylus.Weights.Tensor.Defs.{
  WeightTensor, Optimizer, opt_step, local_update, ghost_update, try_apply_update, not_ready,
  apply_sync, update_version,
}
use dorylus.Weights.Tensor.Valid.{version, local_slot, ghost_slot, place, elemts, recount-IsValid}
use dorylus.Weights.Tensor.Write.{load-slot, store-Writes, current_slot}
use dorylus.Weights.Tensor.Sync.{try_apply_update-sync}
use dorylus.Weights.Tensor.Collect.{Collects}

-- `updateVersion` and `tryApplyUpdate` leave the flags and the totals alone.
update_version-rest :
    {A : Type 0} (w v : WeightTensor) (h h1 : Heap A)
    → update_version w h ≡ some (v, h1)
    → record v { versions = w.versions } ≡ w
unfolding update_version
update_version-rest w v h h1 e = ground arith

try_apply_update-rest :
    {A : Type 0} ⦃f : Float A⦄ (w : WeightTensor) (h : Heap A) (opt opt' : Optimizer A)
    (w' : WeightTensor) (h' : Heap A)
    → w.sync ≡ true
    → try_apply_update opt none w h ≡ some (true, opt', w', h')
    → (w'.stop ≡ w.stop)
      × (w'.local_upd_tot ≡ w.local_upd_tot)
      × (w'.ghost_upd_tot ≡ w.ghost_upd_tot)
unfolding try_apply_update apply_sync
try_apply_update-rest w h opt opt' w' h' s e = elim (Option-cases (update_version w h)) [
  | inl n ↦ ground (arith, n)
  | inr ((v, h1), p) ↦ let same = update_version-rest w v h h1 p in ground (arith, p, same)
]

module _ {A : Type 0} {n lt gt lc gc : ℕ} {ls gs : List A} {ver : ℕ} {ws : List A}
    {w : WeightTensor} {h : Heap A} (col : Collects n lt gt lc gc ls gs ver ws w h) where
  module _ ⦃f : Float A⦄ (us : List A) (fits : length us ≡ n) where
    -- An update is added up and counted.
    pub local_update-Collects :
        lc + 1 < u32_mod
        → (w' : WeightTensor) × (h' : Heap A) × (local_update us w h ≡ some (w', h'))
          × (size w'.chunk2ver ≡ size w.chunk2ver)
          × Collects n lt gt (lc + 1) gc (zip_with f.add ls us) gs ver ws w' h'
    unfolding local_update
    local_update-Collects room =
        let (xs, read, lx) = load-slot w h col.valid local_slot w.local_upd_mat refl in
        let l : length us ≡ elemts w = fits ∙ sym col.size_ok in
        let (h', eq, wr) =
          store-Writes w h col.valid local_slot w.local_upd_mat (zip_with f.add xs us) refl
            (length-zip_with f.add (elemts w) xs us lx l) in
        let (m, p, cur) = current_slot w h col.valid in
        (
          record w { local_upd_cnt = add32 w.local_upd_cnt 1 },
          h',
          ground (arith, col.running, read, update_n-eq-zip_with f.add (elemts w) xs us lx l, eq),
          refl,
          record {
            valid =
                recount-IsValid w h' w.stop w.local_upd_tot w.ghost_upd_tot
                  (add32 w.local_upd_cnt 1) w.ghost_upd_cnt wr.valid;
            size_ok = col.size_ok;
            synchronous = col.synchronous;
            running = col.running;
            needs_local = col.needs_local;
            needs_ghost = col.needs_ghost;
            has_local = rw col.has_local (add32-eq lc 1 room);
            has_ghost = col.has_ghost;
            local_sum = ground (arith, wr.written, read, col.local_sum);
            ghost_sum =
                ground
                  (arith, wr.others ghost_slot w.ghost_upd_mat, col.synchronous, col.ghost_sum);
            current_ver = col.current_ver;
            current = ground (arith, p, cur, col.current, wr.others (version w.curr_ver) m);
          },
        )

    pub ghost_update-Collects :
        gc + 1 < u32_mod
        → (w' : WeightTensor) × (h' : Heap A) × (ghost_update us w h ≡ some (w', h'))
          × (size w'.chunk2ver ≡ size w.chunk2ver)
          × Collects n lt gt lc (gc + 1) ls (zip_with f.add gs us) ver ws w' h'
    unfolding ghost_update
    ghost_update-Collects room =
        let q : place w ghost_slot ≡ some w.ghost_upd_mat = ground (arith, col.synchronous) in
        let (xs, read, lx) = load-slot w h col.valid ghost_slot w.ghost_upd_mat q in
        let l : length us ≡ elemts w = fits ∙ sym col.size_ok in
        let (b, ys, e1, e2, ly, nb) = col.valid.tidy.owned ghost_slot w.ghost_upd_mat q in
        let (h', eq, wr) =
          store-Writes w h col.valid ghost_slot w.ghost_upd_mat (zip_with f.add xs us) q
            (length-zip_with f.add (elemts w) xs us lx l) in
        let (m, p, cur) = current_slot w h col.valid in
        (
          record w { ghost_upd_cnt = add32 w.ghost_upd_cnt 1 },
          h',
          ground
              (arith, col.running, read, nb, update_n-eq-zip_with f.add (elemts w) xs us lx l, eq),
          refl,
          record {
            valid =
                recount-IsValid w h' w.stop w.local_upd_tot w.ghost_upd_tot w.local_upd_cnt
                  (add32 w.ghost_upd_cnt 1) wr.valid;
            size_ok = col.size_ok;
            synchronous = col.synchronous;
            running = col.running;
            needs_local = col.needs_local;
            needs_ghost = col.needs_ghost;
            has_local = col.has_local;
            has_ghost = rw col.has_ghost (add32-eq gc 1 room);
            local_sum = ground (arith, wr.others local_slot w.local_upd_mat, col.local_sum);
            ghost_sum = ground (arith, wr.written, read, col.ghost_sum);
            current_ver = col.current_ver;
            current = ground (arith, p, cur, col.current, wr.others (version w.curr_ver) m);
          },
        )

  module _ ⦃f : Float A⦄ (opt : Optimizer A) where
    -- Before the round is complete, `tryApplyUpdate` does nothing.
    pub try_apply_update-waits :
        (lc < lt) ⊎ (gc < gt) → try_apply_update opt none w h ≡ some (false, opt, w, h)
    unfolding try_apply_update not_ready
    try_apply_update-waits less = ground (
      arith, col.synchronous, col.running, col.needs_local, col.needs_ghost, col.has_local,
      col.has_ghost,
    )

    -- Then it makes the next version, and the next round starts.
    pub try_apply_update-applies :
        (opt' : Optimizer A) (ws' : List A)
        → lt ≤ lc
        → gt ≤ gc
        → ver + 1 < u32_mod
        → opt_step opt n ws (zip_with f.add ls gs) ≡ some (opt', ws')
        → length ws' ≡ n
        → (w' : WeightTensor) × (h' : Heap A) × (try_apply_update opt none w h
            ≡ some (true, opt', w', h'))
          × (size w'.chunk2ver ≤ size w.chunk2ver + 1)
          × Collects n lt gt 0 0 (replicate n f.zero) (replicate n f.zero) (ver + 1) ws' w' h'
    try_apply_update-applies opt' ws' ll lg room st l =
        let (w', h', eq, u, zl, zg, c1, c2) =
          try_apply_update-sync w h col.valid opt opt' none ws ws' (ground (arith, col.current_ver))
            col.running col.current (l ∙ sym col.size_ok) ls gs col.synchronous
            (ground (arith, col.needs_local, col.has_local))
            (ground (arith, col.needs_ghost, col.has_ghost)) col.local_sum col.ghost_sum
            (rw col.size_ok st) in
        let (r1, r2, r3) = try_apply_update-rest w h opt opt' w' h' col.synchronous eq in
        (
          w',
          h',
          eq,
          u.advances.chunks_le,
          record {
            valid = u.advances.valid;
            size_ok = u.advances.same_elemts ∙ col.size_ok;
            synchronous = u.advances.same_sync ∙ col.synchronous;
            running = r1 ∙ col.running;
            needs_local = r2 ∙ col.needs_local;
            needs_ghost = r3 ∙ col.needs_ghost;
            has_local = c1;
            has_ghost = c2;
            local_sum = rw (← col.size_ok) zl;
            ghost_sum = rw (← col.size_ok) zg;
            current_ver = rw (← col.current_ver) u.next_ver;
            current = u.new_weights;
          },
        )
