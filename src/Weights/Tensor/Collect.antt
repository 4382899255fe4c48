-- ===== src/Weights/Tensor/Collect.antt =====
-- A tensor that collects the updates of a synchronous round: what has been added up and counted, and
-- the weights that wait for it.
use dorylus.Prelude.{
  ℕ, ◌+◌, ◌<◌, ◌≤◌, ◌≡◌, ◌≢◌, refl, ◌∙◌, inl, inr, List, true, false, some, arith, u32_mod,
}
use dorylus.Prelude.Map.{find, size, nat_order}
use dorylus.Chunk.{Chunk, chunk_order}
use dorylus.Weights.Heap.{Heap, Matrix, load, free}
use dorylus.Weights.Versions.{RefMat, mat_of, key_of}
use dorylus.Weights.Versions.Refs.{after_drop, after_last}
use dorylus.Weights.Versions.Calls.{dec_ref_cases}
use dorylus.Weights.Versions.Mats.{mat_of-drop, mat_of-last, mat_of-find}
use dorylus.Weights.Tidy.{free-Tidy}
use dorylus.Weights.Tensor.Defs.{WeightTensor, dec_ref}
use dorylus.Weights.Tensor.Valid.{
  Slot, version, local_slot, ghost_slot, place, elemts, IsValid, contents,
}
use dorylus.Weights.Tensor.Write.{current_slot}
use dorylus.Weights.Tensor.Drop.{dec_ref-Advances}

-- `local_tot` and `ghost_tot` updates make a round; `lc` and `gc` of them have come, and add up to
-- `ls` and `gs`. The weights are version `ver`, with the contents `ws`.
pub record Collects {A : Type 0} (n local_tot ghost_tot : ℕ) (lc gc : ℕ) (ls gs : List A) (ver : ℕ)
    (ws : List A) (w : WeightTensor) (h : Heap A) : Type 0 where
  pub valid : IsValid w h
  pub size_ok : elemts w ≡ n
  pub synchronous : w.sync ≡ true
  pub running : w.stop ≡ false
  pub needs_local : w.local_upd_tot ≡ local_tot
  pub needs_ghost : w.ghost_upd_tot ≡ ghost_tot
  pub has_local : w.local_upd_cnt ≡ lc
  pub has_ghost : w.ghost_upd_cnt ≡ gc
  pub local_sum : load w.local_upd_mat h ≡ some ls
  pub ghost_sum : load w.ghost_upd_mat h ≡ some gs
  pub current_ver : w.curr_ver ≡ ver
  pub current : contents w.curr_ver w h ≡ some ws

module _ {A : Type 0} {n lt gt lc gc : ℕ} {ls gs : List A} {ver : ℕ} {ws : List A}
    {w : WeightTensor} {h : Heap A} (col : Collects n lt gt lc gc ls gs ver ws w h) where
  -- A heap in which the buffers and the current weights read as before.
  same-Collects :
      (w' : WeightTensor) (h' : Heap A)
      → IsValid w' h'
      → record w' { versions = w.versions } ≡ w
      → w'.curr_ver ≡ w.curr_ver
      → load w.local_upd_mat h' ≡ load w.local_upd_mat h
      → load w.ghost_upd_mat h' ≡ load w.ghost_upd_mat h
      → contents w.curr_ver w' h' ≡ contents w.curr_ver w h
      → Collects n lt gt lc gc ls gs ver ws w' h'
  same-Collects w' h' v same cv l g c = record {
    valid = v;
    size_ok = ground (arith, same, col.size_ok);
    synchronous = ground (arith, same, col.synchronous);
    running = ground (arith, same, col.running);
    needs_local = ground (arith, same, col.needs_local);
    needs_ghost = ground (arith, same, col.needs_ghost);
    has_local = ground (arith, same, col.has_local);
    has_ghost = ground (arith, same, col.has_ghost);
    local_sum = ground (arith, same, col.local_sum);
    ghost_sum = ground (arith, same, col.ghost_sum);
    current_ver = cv ∙ col.current_ver;
    current = ground (arith, cv, c, col.current);
  }

  freed-place :
      (c : Chunk) (v : ℕ) (s : Slot) (m : Matrix)
      → place (record w { versions = after_last w.versions (key_of c) v }) s ≡ some m
      → (place w s ≡ some m) × (s ≢ version v)
  freed-place c v (version v') m p = (
    ground (arith, mat_of-last w.versions (key_of c) v v'),
    λ q. ground (arith, mat_of-last w.versions (key_of c) v v'),
  )
  freed-place c v local_slot m p = (p, λ q. cc)
  freed-place c v ghost_slot m p = (p, λ q. cc)

  -- Freeing an old version.
  freed_rest :
      (c : Chunk) (v : ℕ) (r : RefMat Matrix)
      → v < w.curr_ver
      → find v w.ver2mat ≡ some r
      → (h' : Heap A) × (free r.mat h ≡ some h')
        × (load w.local_upd_mat h' ≡ load w.local_upd_mat h)
        × (load w.ghost_upd_mat h' ≡ load w.ghost_upd_mat h)
        × (contents w.curr_ver (record w { versions = after_last w.versions (key_of c) v }) h'
            ≡ contents w.curr_ver w h)
  freed_rest c v r old e =
      let w' : WeightTensor = record w { versions = after_last w.versions (key_of c) v } in
      let (h', eq, tidy', same_load) =
        free-Tidy (place w) (elemts w) h col.valid.tidy (place w') (version v) r.mat
          (mat_of-find w.versions v r e) (freed-place c v) in
      let (m, p, cur) = current_slot w h col.valid in
      let p' : mat_of w.curr_ver w'.versions ≡ some m =
        ground (arith, mat_of-last w.versions (key_of c) v w.curr_ver, p) in
      (
        h',
        eq,
        same_load local_slot w.local_upd_mat refl,
        same_load ghost_slot w.ghost_upd_mat (ground (arith, col.synchronous)),
        ground (arith, p', p, same_load (version w.curr_ver) m p'),
      )

  -- `decRef` leaves all this alone.
  pub dec_ref-Collects :
      (c : Chunk)
      → size w.chunk2ver < u32_mod
      → (w' : WeightTensor) × (h' : Heap A) × (dec_ref c w h ≡ some (w', h'))
        × (size w'.chunk2ver ≤ size w.chunk2ver + 1)
        × Collects n lt gt lc gc ls gs ver ws w' h'
  unfolding dec_ref
  dec_ref-Collects c small =
      let (w', h', eq, adv, others) = dec_ref-Advances w h col.valid c small in
      (
        w',
        h',
        eq,
        adv.chunks_le,
        elim (dec_ref_cases w.versions col.valid.table c small) [
          | inl (new, g) ↦
              let e : w' ≡ w = ground (arith, g, eq) in
              let k : h' ≡ h = ground (arith, g, eq) in
              same-Collects w' h' adv.valid (ground (arith, e)) (ground (arith, e))
                (ground (arith, k)) (ground (arith, k)) (ground (arith, e, k))
          | inr (v, r, bound, e, inr (keep, g)) ↦
              let e1 : w' ≡ record w { versions = after_drop w.versions (key_of c) v r } =
                ground (arith, g, eq) in
              let k : h' ≡ h = ground (arith, g, eq) in
              same-Collects w' h' adv.valid (ground (arith, e1)) (ground (arith, e1))
                (ground (arith, k)) (ground (arith, k))
                (ground (arith, e1, k, mat_of-drop w.versions (key_of c) v r e w.curr_ver))
          | inr (v, r, bound, e, inl (old, last, g)) ↦
              let (h2, fr, loc, gh, cur) = freed_rest c v r old e in
              let e1 : w' ≡ record w { versions = after_last w.versions (key_of c) v } =
                ground (arith, g, eq) in
              let k : h' ≡ h2 = ground (arith, g, eq, fr) in
              same-Collects w' h' adv.valid (ground (arith, e1)) (ground (arith, e1))
                (ground (arith, k, loc)) (ground (arith, k, gh)) (ground (arith, e1, k, cur))
        ],
      )
