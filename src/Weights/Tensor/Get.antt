-- ===== src/Weights/Tensor/Get.antt =====
-- `WeightTensor::getMat` on a valid tensor.
use dorylus.Prelude.{
  ℕ, ◌+◌, ◌<◌, ◌≡◌, refl, none, some, arith, u32_mod, inl, inr, Option-cases, sym, ◌∙◌,
}
use dorylus.Prelude.Map.{find, size, find-insert, size-insert_new, nat_order, same→eq, same_refl}
use dorylus.Chunk.{Chunk, chunk_order}
use dorylus.Weights.Heap.{Heap, Matrix}
use dorylus.Weights.Versions.{RefMat, key_of}
use dorylus.Weights.Versions.Refs.{after_hold, hold-IsConsistent}
use dorylus.Weights.Versions.Calls.{get_mat_cases, weights_of}
use dorylus.Weights.Versions.Mats.{mat_of-hold, mat_of-find}
use dorylus.Weights.Tidy.{rename-Tidy}
use dorylus.Weights.Tensor.Defs.{WeightTensor, get_mat}
use dorylus.Weights.Tensor.Valid.{
  Slot, version, local_slot, ghost_slot, place, elemts, IsValid, IsBound, Advances, Keeps,
}

module _ {A : Type 0} (w : WeightTensor) (h : Heap A) (valid : IsValid w h) (c : Chunk) where
  module _ (r : RefMat Matrix) (new : find (key_of c) w.chunk2ver ≡ none)
      (e : find w.curr_ver w.ver2mat ≡ some r) where
    held : WeightTensor
    held = record w { versions = after_hold w.versions (key_of c) r }

    held-Advances : Advances w held h
    unfolding held
    held-Advances = record {
      valid = record {
        table = hold-IsConsistent w.versions valid.table (key_of c) r new e;
        tidy =
            rename-Tidy (place w) (elemts w) h valid.tidy (place held) (λ s. s)
              (λ s m p. sym (same_place s) ∙ p) (λ s s' m m' p p' q. q);
      };
      same_elemts = refl;
      same_sync = refl;
      versions_le = omega arith;
      chunks_le = omega (arith, size-insert_new (key_of c) w.curr_ver w.chunk2ver new);
    }
      where
        same_place : (s : Slot) → place held s ≡ place w s
        same_place (version v) = mat_of-hold w.versions (key_of c) r e v
        same_place local_slot = refl
        same_place ghost_slot = refl

    held-Keeps : (d : Chunk) → IsBound d w → Keeps d w h held h
    unfolding held
    held-Keeps d b = elim (Option-cases (find (key_of d) w.chunk2ver)) [
      | inl unbound ↦ absurd (b unbound)
      | inr (v, bound) ↦ record {
        same_bound = ground (arith, still v bound);
        same_weights =
            ground (arith, still v bound, bound, mat_of-hold w.versions (key_of c) r e v);
      }
    ]
      where
        still :
            (v : ℕ) → find (key_of d) w.chunk2ver ≡ some v → find (key_of d) held.chunk2ver ≡ some v
        still v bound = ground (
          arith,
          find-insert (key_of c) (key_of d) w.curr_ver w.chunk2ver,
          same→eq (key_of c) (key_of d),
          new,
        )

    held-bound : weights_of c held.versions ≡ some r.mat
    unfolding held
    held-bound = ground (
      arith,
      find-insert (key_of c) (key_of c) w.curr_ver w.chunk2ver,
      same_refl (key_of c),
      mat_of-hold w.versions (key_of c) r e w.curr_ver,
      mat_of-find w.versions w.curr_ver r e,
    )

  -- `getMat` returns the weights to which the chunk is bound from then on; the tensor stays valid,
  -- and the weights of every chunk that was bound stay as they were.
  pub get_mat-Advances :
      size w.chunk2ver + 1 < u32_mod
      → (m : Matrix) × (w' : WeightTensor) × (get_mat c w ≡ some (m, w'))
        × (weights_of c w'.versions ≡ some m)
        × Advances w w' h
        × ((d : Chunk) → IsBound d w → Keeps d w h w' h)
  unfolding get_mat
  get_mat-Advances small = elim (get_mat_cases w.versions valid.table c small) [
    | inl (v, r, bound, e, g) ↦ (
      r.mat,
      w,
      ground (arith, g),
      ground (arith, bound, mat_of-find w.versions v r e),
      record {
        valid = valid;
        same_elemts = refl;
        same_sync = refl;
        versions_le = omega arith;
        chunks_le = omega arith;
      },
      λ d b. record { same_bound = b; same_weights = refl },
    )
    | inr (r, new, e, g) ↦ (
      r.mat,
      held r new e,
      unfold held in ground (arith, g),
      held-bound r new e,
      held-Advances r new e,
      held-Keeps r new e,
    )
  ]
