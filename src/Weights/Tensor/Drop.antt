-- ===== src/Weights/Tensor/Drop.antt =====
-- `WeightTensor::decRef` on a valid tensor.
use dorylus.Prelude.{ℕ, ◌<◌, ◌≡◌, ◌≢◌, refl, some, arith, u32_mod, inl, inr, sym, ◌∙◌}
use dorylus.Prelude.Map.{find, erase, size, find-erase, nat_order, same→eq, size-erase-le}
use dorylus.Chunk.{Chunk, chunk_order}
use dorylus.Weights.Heap.{Heap, Matrix, free}
use dorylus.Weights.Versions.{RefMat, key_of}
use dorylus.Weights.Versions.Refs.{
  IsConsistent, after_drop, after_last, drop_ref-IsConsistent, drop_last-IsConsistent,
}
use dorylus.Weights.Versions.Calls.{dec_ref_cases, held_mat}
use dorylus.Weights.Versions.Mats.{mat_of-drop, mat_of-last, mat_of-find}
use dorylus.Weights.Tidy.{rename-Tidy, free-Tidy}
use dorylus.Weights.Tensor.Defs.{WeightTensor, dec_ref}
use dorylus.Weights.Tensor.Valid.{
  Slot, version, local_slot, ghost_slot, place, elemts, IsValid, IsBound, Advances, Keeps, Keeps-by,
}

module _ {A : Type 0} (w : WeightTensor) (h : Heap A) (valid : IsValid w h) (c : Chunk) where
  module _ (v : ℕ) (r : RefMat Matrix) (bound : find (key_of c) w.chunk2ver ≡ some v)
      (e : find v w.ver2mat ≡ some r) where
    dropped : WeightTensor
    dropped = record w { versions = after_drop w.versions (key_of c) v r }

    dropped-Advances : (v < w.curr_ver → r.ref_cnt ≢ 1) → Advances w dropped h
    unfolding dropped
    dropped-Advances keep = record {
      valid = record {
        table = drop_ref-IsConsistent w.versions valid.table (key_of c) v r bound e keep;
        tidy =
            rename-Tidy (place w) (elemts w) h valid.tidy (place dropped) (λ s. s)
              (λ s m p. sym (same_place s) ∙ p) (λ s s' m m' p p' q. q);
      };
      same_elemts = refl;
      same_sync = refl;
      versions_le = omega arith;
      chunks_le = omega (arith, size-erase-le (key_of c) w.chunk2ver);
    }
      where
        same_place : (s : Slot) → place dropped s ≡ place w s
        same_place (version v') = mat_of-drop w.versions (key_of c) v r e v'
        same_place local_slot = refl
        same_place ghost_slot = refl

    dropped-Keeps : (d : Chunk) → key_of c ≢ key_of d → IsBound d w → Keeps d w h dropped h
    unfolding dropped
    dropped-Keeps d other b = Keeps-by d w h dropped h b λ v' bd. (
      ground
          (arith, find-erase (key_of c) (key_of d) w.chunk2ver, same→eq (key_of c) (key_of d), bd),
      ground (arith, mat_of-drop w.versions (key_of c) v r e v'),
    )

    freed : WeightTensor
    freed = record w { versions = after_last w.versions (key_of c) v }

    module _ (old : v < w.curr_ver) (last : r.ref_cnt ≡ 1) where
      freed-place :
          (s : Slot) (m : Matrix) → place freed s ≡ some m → (place w s ≡ some m) × (s ≢ version v)
      unfolding freed
      freed-place (version v') m p = (
        ground (arith, mat_of-last w.versions (key_of c) v v'),
        λ q. ground (arith, mat_of-last w.versions (key_of c) v v'),
      )
      freed-place local_slot m p = (p, λ q. cc)
      freed-place ghost_slot m p = (p, λ q. cc)

      freed-Advances :
          (h' : Heap A) × (free r.mat h ≡ some h')
          × Advances w freed h'
          × ((d : Chunk) → key_of c ≢ key_of d → IsBound d w → Keeps d w h freed h')
      unfolding freed
      freed-Advances =
          let (h', eq, tidy', same_load) =
            free-Tidy (place w) (elemts w) h valid.tidy (place freed) (version v) r.mat
              (mat_of-find w.versions v r e) freed-place in
          (
            h',
            eq,
            record {
              valid = record {
                table =
                    drop_last-IsConsistent w.versions valid.table (key_of c) v r bound e old last;
                tidy = tidy';
              };
              same_elemts = refl;
              same_sync = refl;
              versions_le = omega arith;
              chunks_le = omega (arith, size-erase-le (key_of c) w.chunk2ver);
            },
            λ d other b. Keeps-by d w h freed h' b λ v' bd.
                let bd' = still d v' other bd in
                let (r', e') =
                  held_mat (after_last w.versions (key_of c) v) table' (key_of d) v' bd' in
                let m' = mat_of-find (after_last w.versions (key_of c) v) v' r' e' in
                (
                  bd',
                  ground (
                    arith,
                    m',
                    freed-place (version v') r'.mat m',
                    same_load (version v') r'.mat m',
                  ),
                ),
          )
        where
          table' : IsConsistent (after_last w.versions (key_of c) v)
          table' = drop_last-IsConsistent w.versions valid.table (key_of c) v r bound e old last

          still :
              (d : Chunk) (v' : ℕ)
              → key_of c ≢ key_of d
              → find (key_of d) w.chunk2ver ≡ some v'
              → find (key_of d) (erase (key_of c) w.chunk2ver) ≡ some v'
          still d v' other bd =
              ground
                (arith, find-erase (key_of c) (key_of d) w.chunk2ver, same→eq (key_of c) (key_of d))

  -- `decRef` frees no array twice; the tensor stays valid, and the weights of every other chunk
  -- that is bound stay as they were.
  pub dec_ref-Advances :
      size w.chunk2ver < u32_mod
      → (w' : WeightTensor) × (h' : Heap A) × (dec_ref c w h ≡ some (w', h'))
        × Advances w w' h'
        × ((d : Chunk) → key_of c ≢ key_of d → IsBound d w → Keeps d w h w' h')
  unfolding dec_ref
  dec_ref-Advances small = elim (dec_ref_cases w.versions valid.table c small) [
    | inl (new, g) ↦ (
      w,
      h,
      ground (arith, g),
      record {
        valid = valid;
        same_elemts = refl;
        same_sync = refl;
        versions_le = omega arith;
        chunks_le = omega arith;
      },
      λ d other b. record { same_bound = b; same_weights = refl },
    )
    | inr (v, r, bound, e, inl (old, last, g)) ↦
        let (h', eq, adv, keeps) = freed-Advances v r bound e old last in
        (freed v r bound e, h', unfold freed in ground (arith, g, eq), adv, keeps)
    | inr (v, r, bound, e, inr (keep, g)) ↦ (
      dropped v r bound e,
      h,
      unfold dropped in ground (arith, g),
      dropped-Advances v r bound e keep,
      dropped-Keeps v r bound e,
    )
  ]
