-- ===== src/Weights/Tensor/Defs.antt =====
-- `WeightTensor`: its members, and its methods as functions of the tensor and the heap. Each method
-- holds its mutexes from its first line to its last, so that a call is one step; `ghostUpdate` has
-- none, and is left to one thread. `getMat` and `decRef` turn the chunk that they are handed
-- forward; here the chunk stays the caller's.
use dorylus.Prelude.{
  ℕ, List, [], ◌∷◌, Bool, true, false, not, ◌&&◌, ◌||◌, Option, none, some, ltb, ◌==◌,
  if◌then◌else◌, ◌>>=◌, add32, uint_max, replicate,
}
use dorylus.Prelude.Map.{Map, find, nat_order}
use dorylus.Chunk.{Chunk}
use dorylus.Weights.Float.{Float}
use dorylus.Weights.Heap.{
  Heap, Matrix, num_elemts, alloc, load, store, free, copy_n, update_n, fill_n,
}
use dorylus.Weights.Adam.{Adam}
use dorylus.Weights.Adam
use dorylus.Weights.Versions.{RefMat, Versions, mat_of, move_version, stash_version}
use dorylus.Weights.Versions

pub record WeightTensor : Type 0 where
  pub versions : Versions Matrix
  pub open versions use *
  pub sync : Bool
  pub stop : Bool
  pub local_upd_tot : ℕ
  pub ghost_upd_tot : ℕ
  pub local_upd_cnt : ℕ
  pub ghost_upd_cnt : ℕ
  pub local_upd_mat : Matrix
  pub ghost_upd_mat : Matrix

-- The two optimizers of the two overloads of `tryApplyUpdate`.
pub data Optimizer (A : Type 0) : Type 0 where
  sgd : A → Optimizer A
  adam : Adam A → ℕ → Optimizer A

unfoldable pub get_mat : Chunk → WeightTensor → Option (Matrix × WeightTensor)
get_mat chunk w = do r ← Versions.get_mat chunk w.versions; some (r.0, record w { versions = r.1 })

unfoldable pub stop_update : WeightTensor → WeightTensor
stop_update w = record w { stop = true }

unfoldable pub set_local_upd_tot : ℕ → WeightTensor → WeightTensor
set_local_upd_tot lut w = record w { local_upd_tot = lut }

unfoldable pub set_ghost_upd_tot : ℕ → WeightTensor → WeightTensor
set_ghost_upd_tot gut w = record w { ghost_upd_tot = gut }

-- The test at the head of both overloads of `tryApplyUpdate`; `ghost` says that `updTensor` is
-- not null.
unfoldable pub not_ready : Bool → WeightTensor → Bool
not_ready ghost w =
    w.stop
    || ((w.sync && (ltb w.local_upd_cnt w.local_upd_tot || ltb w.ghost_upd_cnt w.ghost_upd_tot))
        || (not w.sync && (not ghost && ltb w.local_upd_cnt w.local_upd_tot)))

module _ {A : Type 0} where
  -- The constructor. `mat` points to the weights; the update buffers are made here.
  unfoldable pub new_tensor : ⦃f : Float A⦄ → Matrix → Bool → Heap A → WeightTensor × Heap A
  unfolding alloc num_elemts
  new_tensor ⦃f⦄ mat sync h =
      let zeros = replicate (num_elemts mat) f.zero in
      let (l, h1) = alloc zeros h in
      let (g, h2) = alloc zeros h1 in
      (
        record {
          versions = record {
            curr_ver = 0;
            ver2mat = (0, record { ref_cnt = 0; mat = mat }) ∷ [];
            chunk2ver = [];
          };
          sync = sync;
          stop = false;
          local_upd_tot = uint_max;
          ghost_upd_tot = uint_max;
          local_upd_cnt = 0;
          ghost_upd_cnt = 0;
          local_upd_mat = record { name = ""; rows = mat.rows; cols = mat.cols; buf = some l };
          ghost_upd_mat = record {
            name = "";
            rows = mat.rows;
            cols = mat.cols;
            buf = if sync then some g else none;
          };
        },
        if sync then h2 else h1,
      )

  -- `updateVersion(false)`, as both callers have the lock.
  unfoldable pub update_version : WeightTensor → Heap A → Option (WeightTensor × Heap A)
  update_version w h = if w.stop then some (w, h) else do
    r ← find w.curr_ver w.ver2mat
    if r.ref_cnt == 0 then some (record w { versions = move_version r w.versions }, h) else do
      xs ← load r.mat h
      ys ← copy_n (num_elemts r.mat) xs
      let (p, h') = alloc ys h
      let copy = record r.mat { buf = some p }
      some (record w { versions = stash_version copy w.versions }, h')

  unfoldable pub dec_ref : Chunk → WeightTensor → Heap A → Option (WeightTensor × Heap A)
  dec_ref chunk w h = do
    r ← Versions.dec_ref chunk w.versions
    h' ← elim r.0 [ none ↦ some h | some m ↦ free m h ]
    some (record w { versions = r.1 }, h')

  -- The loop of `free` over `ver2Mat`.
  unfoldable pub free_versions : Map ℕ (RefMat Matrix) → Heap A → Option (Heap A)
  free_versions [] h = some h
  free_versions ((v, r) ∷ m) h = do h' ← free r.mat h; free_versions m h'

  -- `free`.
  unfoldable pub free_tensor : WeightTensor → Heap A → Option (Heap A)
  free_tensor w h = do
    h1 ← free_versions w.ver2mat h
    h2 ← free w.local_upd_mat h1
    if w.sync then free w.ghost_upd_mat h2 else some h2

  -- The count that comes back is the tensor's.
  unfoldable pub local_update :
      ⦃f : Float A⦄ → List A → WeightTensor → Heap A → Option (WeightTensor × Heap A)
  local_update ⦃f⦄ upd w h = if w.stop then some (w, h) else do
    xs ← load w.local_upd_mat h
    ys ← update_n f.add (num_elemts w.local_upd_mat) xs upd
    h' ← store w.local_upd_mat ys h
    some (record w { local_upd_cnt = add32 w.local_upd_cnt 1 }, h')

  unfoldable pub ghost_update :
      ⦃f : Float A⦄ → List A → WeightTensor → Heap A → Option (WeightTensor × Heap A)
  ghost_update ⦃f⦄ upd w h = if w.stop then some (w, h) else do
    xs ← load w.ghost_upd_mat h
    ys ← update_n f.add (num_elemts w.ghost_upd_mat) xs upd
    h' ← store w.ghost_upd_mat ys h
    some (record w { ghost_upd_cnt = add32 w.ghost_upd_cnt 1 }, h')

  -- `wPtr[u] -= lr * g[u]` for each `u`, or `adamOpt->update(layer, wPtr, g)`.
  unfoldable pub opt_step :
      ⦃f : Float A⦄ → Optimizer A → ℕ → List A → List A → Option (Optimizer A × List A)
  opt_step ⦃f⦄ (sgd lr) n ws gs = do
    ws' ← update_n (λ w g. f.sub w (f.mul lr g)) n ws gs
    some (sgd lr, ws')
  opt_step (adam o layer) n ws gs = do r ← Adam.update o layer ws gs; some (adam r.0 layer, r.1)

  -- The weights of the current version, after a step along the gradient.
  unfoldable pub step_weights :
      ⦃f : Float A⦄
      → Optimizer A
      → ℕ
      → List A
      → WeightTensor
      → Heap A
      → Option (Optimizer A × Heap A)
  step_weights opt n gs w h = do
    m ← mat_of w.curr_ver w.versions
    ws ← load m h
    r ← opt_step opt n ws gs
    h' ← store m r.1 h
    some (r.0, h')

  -- Fill an update buffer with zeros.
  unfoldable pub clear : ⦃f : Float A⦄ → ℕ → Matrix → Heap A → Option (Heap A)
  clear ⦃f⦄ n m h = do xs ← load m h; ys ← fill_n n f.zero xs; store m ys h

  -- The branch `if (sync)`.
  unfoldable pub apply_sync :
      ⦃f : Float A⦄
      → Optimizer A
      → WeightTensor
      → Heap A
      → Option (Optimizer A × WeightTensor × Heap A)
  apply_sync ⦃f⦄ opt w h = do
    let n = num_elemts w.local_upd_mat
    ls ← load w.local_upd_mat h
    gs ← load w.ghost_upd_mat h
    us ← update_n f.add n ls gs
    h1 ← store w.local_upd_mat us h
    r ← step_weights opt n us w h1
    h2 ← clear n w.local_upd_mat r.1
    h3 ← clear n w.ghost_upd_mat h2
    some (r.0, record w { local_upd_cnt = 0; ghost_upd_cnt = 0 }, h3)

  -- The branch `else if (updTensor)`.
  unfoldable pub apply_ghost :
      ⦃f : Float A⦄
      → Optimizer A
      → List A
      → WeightTensor
      → Heap A
      → Option (Optimizer A × WeightTensor × Heap A)
  apply_ghost opt upd w h = do
    r ← step_weights opt (num_elemts w.local_upd_mat) upd w h
    some (r.0, w, r.1)

  -- The last branch.
  unfoldable pub apply_local :
      ⦃f : Float A⦄
      → Optimizer A
      → WeightTensor
      → Heap A
      → Option (Optimizer A × WeightTensor × Heap A)
  apply_local opt w h = do
    let n = num_elemts w.local_upd_mat
    ls ← load w.local_upd_mat h
    r ← step_weights opt n ls w h
    h1 ← clear n w.local_upd_mat r.1
    some (r.0, record w { local_upd_cnt = 0 }, h1)

  -- `tryApplyUpdate`. The flag says that `checkInfo` is not empty: an update was applied.
  unfoldable pub try_apply_update :
      ⦃f : Float A⦄
      → Optimizer A
      → Option (List A)
      → WeightTensor
      → Heap A
      → Option (Bool × Optimizer A × WeightTensor × Heap A)
  try_apply_update opt upd w h =
      if not_ready (elim upd [ none ↦ false | some u ↦ true ]) w
      then some (false, opt, w, h)
      else do
        v ← update_version w h
        r ←
            if w.sync
            then apply_sync opt v.0 v.1
            else elim upd [ some u ↦ apply_ghost opt u v.0 v.1 | none ↦ apply_local opt v.0 v.1 ]
        some (true, r.0, r.1, r.2)
