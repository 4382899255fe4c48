-- ===== src/Weights/Tensor/Advance.antt =====
-- `WeightTensor::updateVersion` on a valid tensor: the new version starts as a copy of the current
-- one, and the versions that chunks use stay as they were.
use dorylus.Prelude.{
  ℕ, ◌+◌, ◌<◌, ◌≡◌, refl, some, arith, u32_mod, inl, inr, ◌∙◌, ◌==◌, if◌then◌else◌, true, false,
  ◌⊎◌, add32, add32-eq, sub32, sub32-eq, Bool-cases, length, List,
}
use dorylus.Prelude.Map.{find, nat_order}
use dorylus.Chunk.{Chunk, chunk_order}
use dorylus.Weights.Heap.{Heap, Matrix, load, alloc, num_elemts}
use dorylus.Weights.Arrays.{copy_n-eq}
use dorylus.Weights.Versions.{RefMat, Versions, key_of, move_version, stash_version}
use dorylus.Weights.Versions.Refs.{
  after_move, after_stash, move_version-IsConsistent, stash_version-IsConsistent, held-users,
  held-le,
}
use dorylus.Weights.Versions.Calls.{current_mat, held_mat}
use dorylus.Weights.Versions.Mats.{mat_of-move, mat_of-stash, mat_of-find}
use dorylus.Weights.Tidy.{rename-Tidy, alloc-Tidy, load-Tidy}
use dorylus.Weights.Tensor.Defs.{WeightTensor, update_version}
use dorylus.Weights.Tensor.Valid.{
  Slot, version, local_slot, ghost_slot, place, elemts, IsValid, contents, Advances,
}

pub record IsNewVersion {A : Type 0} (w : WeightTensor) (h : Heap A) (w' : WeightTensor)
    (h' : Heap A) : Type 0 where
  pub advances : Advances w w' h'
  pub next_ver : w'.curr_ver ≡ w.curr_ver + 1
  pub bindings : w'.chunk2ver ≡ w.chunk2ver
  pub copied : contents w'.curr_ver w' h' ≡ contents w.curr_ver w h
  pub kept :
      (c : Chunk) (v : ℕ) → find (key_of c) w.chunk2ver ≡ some v → contents v w' h' ≡ contents v w h
  pub local_kept : load w.local_upd_mat h' ≡ load w.local_upd_mat h
  pub ghost_kept : w.sync ≡ true → load w.ghost_upd_mat h' ≡ load w.ghost_upd_mat h

module _ {A : Type 0} (w : WeightTensor) (h : Heap A) (valid : IsValid w h) where
  module _ (r : RefMat Matrix) (e : find w.curr_ver w.ver2mat ≡ some r) where
    moved : WeightTensor
    moved = record w { versions = after_move w.versions r }

    -- The slot that a slot of the moved tensor had before.
    abbrev was : Slot → Slot
    was (version v) = version (if w.curr_ver + 1 == v then w.curr_ver else v)
    was local_slot = local_slot
    was ghost_slot = ghost_slot

    moved-place : (s : Slot) (m : Matrix) → place moved s ≡ some m → place w (was s) ≡ some m
    unfolding moved
    moved-place (version v) m p =
        ground (arith, mat_of-move w.versions r v, mat_of-find w.versions w.curr_ver r e)
    moved-place local_slot m p = p
    moved-place ghost_slot m p = p

    was_injective :
        (s s' : Slot) (m m' : Matrix)
        → place moved s ≡ some m
        → place moved s' ≡ some m'
        → was s ≡ was s'
        → s ≡ s'
    unfolding moved
    was_injective (version v) (version v') m m' p p' q =
        ground (arith, mat_of-move w.versions r v, mat_of-move w.versions r v')
    was_injective local_slot local_slot m m' p p' q = refl
    was_injective ghost_slot ghost_slot m m' p p' q = refl
    was_injective s s' m m' p p' q = ground arith

    moved-IsNewVersion : r.ref_cnt ≡ 0 → IsNewVersion w h moved h
    unfolding moved
    moved-IsNewVersion free = record {
      advances = record {
        valid = record {
          table = move_version-IsConsistent w.versions valid.table r e free;
          tidy =
              rename-Tidy (place w) (elemts w) h valid.tidy (place moved) was moved-place
                was_injective;
        };
        same_elemts = refl;
        same_sync = refl;
        versions_le = omega arith;
        chunks_le = omega arith;
      };
      next_ver = refl;
      bindings = refl;
      copied =
          ground (
            arith,
            mat_of-move w.versions r (w.curr_ver + 1),
            mat_of-find w.versions w.curr_ver r e,
          );
      kept = λ c v bound. ground (
        arith,
        mat_of-move w.versions r v,
        held-le w.versions valid.table (key_of c) v bound,
        held-users w.versions valid.table (key_of c) v bound,
        valid.table.counted w.curr_ver r e,
      );
      local_kept = refl;
      ghost_kept = λ s. refl;
    }

    copy : Matrix
    copy = record r.mat { buf = some h.next }

    stashed : WeightTensor
    stashed = record w { versions = after_stash w.versions copy }

    stashed-place :
        (s : Slot) (m : Matrix)
        → place stashed s ≡ some m
        → ((s ≡ version (w.curr_ver + 1)) × (m ≡ copy)) ⊎ (place w s ≡ some m)
    unfolding stashed
    stashed-place (version v) m p = ground (arith, mat_of-stash w.versions copy v)
    stashed-place local_slot m p = inr p
    stashed-place ghost_slot m p = inr p

    stashed-IsNewVersion :
        (xs : List A)
        → 0 < r.ref_cnt
        → load r.mat h ≡ some xs
        → length xs ≡ elemts w
        → num_elemts r.mat ≡ elemts w
        → IsNewVersion w h stashed (alloc xs h).1
    unfolding stashed
    stashed-IsNewVersion xs busy read l k =
        let (tidy', copied, old_load) =
          alloc-Tidy (place w) (elemts w) h valid.tidy (place stashed) (version (w.curr_ver + 1))
            copy xs l copy-elemts copy-buf stashed-place in
        record {
          advances = record {
            valid = record {
              table = stash_version-IsConsistent w.versions valid.table r e copy busy;
              tidy = tidy';
            };
            same_elemts = refl;
            same_sync = refl;
            versions_le = omega arith;
            chunks_le = omega arith;
          };
          next_ver = refl;
          bindings = refl;
          copied = ground (
            arith,
            mat_of-stash w.versions copy (w.curr_ver + 1),
            mat_of-find w.versions w.curr_ver r e,
            copied,
            read,
          );
          kept = λ c v bound.
              let (r', e') = held_mat w.versions valid.table (key_of c) v bound in
              let m' = mat_of-find w.versions v r' e' in
              ground (
                arith,
                mat_of-stash w.versions copy v,
                m',
                old_load (version v) r'.mat m',
                held-le w.versions valid.table (key_of c) v bound,
              );
          local_kept = old_load local_slot w.local_upd_mat refl;
          ghost_kept = λ s. old_load ghost_slot w.ghost_upd_mat (ground arith);
        }
      where
        copy-elemts : num_elemts copy ≡ elemts w
        copy-elemts = unfold copy num_elemts in k

        copy-buf : copy.buf ≡ some h.next
        copy-buf = unfold copy in refl

  -- `updateVersion` does not fault.
  pub update_version-IsNewVersion :
      w.stop ≡ false
      → w.curr_ver + 1 < u32_mod
      → (t : Versions Matrix) × (h' : Heap A) × (update_version w h
          ≡ some (record w { versions = t }, h'))
        × IsNewVersion w h (record w { versions = t }) h'
  unfolding update_version move_version stash_version moved stashed copy alloc
  update_version-IsNewVersion go small =
      let (r, e) = current_mat w.versions valid.table in
      let m = mat_of-find w.versions w.curr_ver r e in
      let (xs, read, l) =
        load-Tidy (place w) (elemts w) h valid.tidy (version w.curr_ver) r.mat m in
      let (p, ys, b, c, l', k) = valid.tidy.owned (version w.curr_ver) r.mat m in
      let next : add32 w.curr_ver 1 ≡ w.curr_ver + 1 = add32-eq w.curr_ver 1 small in
      let back : sub32 (w.curr_ver + 1) 1 ≡ w.curr_ver =
        sub32-eq (w.curr_ver + 1) 1 small (omega arith) ∙ omega arith in
      elim (Bool-cases (r.ref_cnt == 0)) [
        | inl free ↦ (
          after_move w.versions r,
          h,
          ground (arith, go, e, free, next, back),
          moved-IsNewVersion r e (ground arith),
        )
        | inr busy ↦ (
          after_stash w.versions (copy r e),
          (alloc xs h).1,
          ground (arith, go, e, busy, next, read, k, copy_n-eq (num_elemts r.mat) xs (omega arith)),
          stashed-IsNewVersion r e xs (ground arith) read l k,
        )
      ]
