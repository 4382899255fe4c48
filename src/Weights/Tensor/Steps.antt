-- ===== src/Weights/Tensor/Steps.antt =====
-- Each call on a valid tensor returns, keeps the invariant, and leaves the weights of the chunks that
-- it does not release as they were.
use dorylus.Prelude.{
  ℕ, ◌≡◌, ◌≢◌, refl, List, Bool, true, some, arith, inl, inr, length, add32, Bool-cases,
}
use dorylus.Chunk.{Chunk, chunk_order}
use dorylus.Weights.Float.{Float}
use dorylus.Weights.Heap.{Heap, Matrix}
use dorylus.Weights.Arrays.{zip_with, update_n-eq-zip_with, length-zip_with}
use dorylus.Weights.Tensor.Defs.{WeightTensor, local_update, ghost_update}
use dorylus.Weights.Tensor.Valid.{
  Slot, version, local_slot, ghost_slot, place, elemts, IsValid, IsBound, Advances, Keeps, Keeps-by,
  recount-IsValid,
}
use dorylus.Weights.Tensor.Write.{Writes, store-Writes, load-slot, Writes-contents}
use dorylus.Weights.Tensor.Trace.{Call, locals, ghosts, Spares}

-- What a call comes to: the invariant, and the weights of every chunk that it does not release.
pub record Steps {A : Type 0} (call : Call A) (w : WeightTensor) (h : Heap A) (w' : WeightTensor)
    (h' : Heap A) : Type 0 where
  pub advances : Advances w w' h'
  pub keeps : (c : Chunk) → Spares c call → IsBound c w → Keeps c w h w' h'

module _ {A : Type 0} ⦃f : Float A⦄ (w : WeightTensor) (h : Heap A) (valid : IsValid w h) where
  pub stay-Steps : (call : Call A) → Steps call w h w h
  stay-Steps call = record {
    advances = record {
      valid = valid;
      same_elemts = refl;
      same_sync = refl;
      versions_le = omega arith;
      chunks_le = omega arith;
    };
    keeps = λ c s b. record { same_bound = b; same_weights = refl };
  }

  -- New counters and totals, and the flag that stops the updates.
  pub recount-Steps :
      (call : Call A) (st : Bool) (lt gt lc gc : ℕ)
      → Steps call w h
          (record w {
            stop = st;
            local_upd_tot = lt;
            ghost_upd_tot = gt;
            local_upd_cnt = lc;
            ghost_upd_cnt = gc;
          })
          h
  recount-Steps call st lt gt lc gc = record {
    advances = record {
      valid = recount-IsValid w h st lt gt lc gc valid;
      same_elemts = refl;
      same_sync = refl;
      versions_le = omega arith;
      chunks_le = omega arith;
    };
    keeps = λ c s b. record { same_bound = b; same_weights = refl };
  }

  -- A write to an update buffer, with new counts.
  buffer-Steps :
      (call : Call A) (s : Slot) (m : Matrix) (xs : List A) (h' : Heap A) (st : Bool) (lc gc : ℕ)
      → ((v : ℕ) → s ≢ version v)
      → Writes w h s m xs h'
      → Steps call w h
          (record w {
            stop = st;
            local_upd_tot = w.local_upd_tot;
            ghost_upd_tot = w.ghost_upd_tot;
            local_upd_cnt = lc;
            ghost_upd_cnt = gc;
          })
          h'
  buffer-Steps call s m xs h' st lc gc apart wr = record {
    advances = record {
      valid = recount-IsValid w h' st w.local_upd_tot w.ghost_upd_tot lc gc wr.valid;
      same_elemts = refl;
      same_sync = refl;
      versions_le = omega arith;
      chunks_le = omega arith;
    };
    keeps = λ c sp b.
        Keeps-by c w h _ h' b
          λ v bound. (bound, Writes-contents w h h' s m xs valid wr c v bound (apart v));
  }

  -- `localUpdate` adds the update to the local gradients, element by element, and counts it; a
  -- stopped tensor ignores it.
  pub local_update_total :
      (us : List A)
      → length us ≡ elemts w
      → (w' : WeightTensor) × (h' : Heap A) × (local_update us w h ≡ some (w', h'))
        × Steps (locals us) w h w' h'
  unfolding local_update
  local_update_total us l = elim (Bool-cases w.stop) [
    | inl stopped ↦ (w, h, rw stopped, stay-Steps (locals us))
    | inr going ↦
        let (xs, read, lx) = load-slot w h valid local_slot w.local_upd_mat refl in
        let (h', eq, wr) =
          store-Writes w h valid local_slot w.local_upd_mat (zip_with f.add xs us) refl
            (length-zip_with f.add (elemts w) xs us lx l) in
        (
          _,
          h',
          ground (arith, going, read, update_n-eq-zip_with f.add (elemts w) xs us lx l, eq),
          buffer-Steps (locals us) local_slot w.local_upd_mat (zip_with f.add xs us) h' w.stop
              (add32 w.local_upd_cnt 1) w.ghost_upd_cnt (λ v q. cc) wr,
        )
  ]

  pub ghost_update_total :
      (us : List A)
      → w.sync ≡ true
      → length us ≡ elemts w
      → (w' : WeightTensor) × (h' : Heap A) × (ghost_update us w h ≡ some (w', h'))
        × Steps (ghosts us) w h w' h'
  unfolding ghost_update
  ghost_update_total us sy l = elim (Bool-cases w.stop) [
    | inl stopped ↦ (w, h, rw stopped, stay-Steps (ghosts us))
    | inr going ↦
        let p : place w ghost_slot ≡ some w.ghost_upd_mat = ground arith in
        let (xs, read, lx) = load-slot w h valid ghost_slot w.ghost_upd_mat p in
        let (q, ys, b, c, ly, size_ok) = valid.tidy.owned ghost_slot w.ghost_upd_mat p in
        let (h', eq, wr) =
          store-Writes w h valid ghost_slot w.ghost_upd_mat (zip_with f.add xs us) p
            (length-zip_with f.add (elemts w) xs us lx l) in
        (
          _,
          h',
          ground
              (arith, going, read, size_ok, update_n-eq-zip_with f.add (elemts w) xs us lx l, eq),
          buffer-Steps (ghosts us) ghost_slot w.ghost_upd_mat (zip_with f.add xs us) h' w.stop
              w.local_upd_cnt (add32 w.ghost_upd_cnt 1) (λ v q. cc) wr,
        )
  ]
