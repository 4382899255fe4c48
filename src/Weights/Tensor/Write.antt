-- ===== src/Weights/Tensor/Write.antt =====
-- Writing one matrix of a tensor: the update buffers, and the weights of the current version.
use dorylus.Prelude.{ℕ, ◌≡◌, ◌≢◌, List, some, arith, length, replicate, length-replicate}
use dorylus.Prelude.Map.{find}
use dorylus.Chunk.{Chunk, chunk_order}
use dorylus.Weights.Float.{Float}
use dorylus.Weights.Heap.{Heap, Matrix, load, store}
use dorylus.Weights.Arrays.{fill_n-eq}
use dorylus.Weights.Versions.{key_of}
use dorylus.Weights.Versions.Calls.{current_mat, held_mat}
use dorylus.Weights.Versions.Mats.{mat_of-find}
use dorylus.Weights.Tidy.{store-Tidy, load-Tidy}
use dorylus.Weights.Tensor.Defs.{WeightTensor, Optimizer, opt_step, step_weights, clear}
use dorylus.Weights.Tensor.Valid.{Slot, version, place, elemts, IsValid, contents}

-- `h'` is `h` after a write of `xs` to the matrix at a slot of the tensor.
pub record Writes {A : Type 0} (w : WeightTensor) (h : Heap A) (s : Slot) (m : Matrix) (xs : List A)
    (h' : Heap A) : Type 0 where
  pub valid : IsValid w h'
  pub written : load m h' ≡ some xs
  pub others : (s' : Slot) (m' : Matrix) → place w s' ≡ some m' → s' ≢ s → load m' h' ≡ load m' h

module _ {A : Type 0} (w : WeightTensor) (h : Heap A) (valid : IsValid w h) where
  pub store-Writes :
      (s : Slot) (m : Matrix) (xs : List A)
      → place w s ≡ some m
      → length xs ≡ elemts w
      → (h' : Heap A) × (store m xs h ≡ some h') × Writes w h s m xs h'
  store-Writes s m xs p l =
      let (h', eq, tidy', read, rest) = store-Tidy (place w) (elemts w) h valid.tidy s m xs p l in
      (
        h',
        eq,
        record {
          valid = record { table = valid.table; tidy = tidy' };
          written = read;
          others = rest;
        },
      )

  -- What is at a slot of a valid tensor.
  pub load-slot :
      (s : Slot) (m : Matrix)
      → place w s ≡ some m
      → (xs : List A) × (load m h ≡ some xs) × (length xs ≡ elemts w)
  load-slot = load-Tidy (place w) (elemts w) h valid.tidy

  pub current_slot :
      (m : Matrix) × (place w (version w.curr_ver) ≡ some m) × (contents w.curr_ver w h ≡ load m h)
  current_slot =
      let (r, e) = current_mat w.versions valid.table in
      let m = mat_of-find w.versions w.curr_ver r e in (r.mat, m, ground (arith, m))

  module _ ⦃f : Float A⦄ where
    pub clear-Writes :
        (s : Slot) (m : Matrix)
        → place w s ≡ some m
        → (h' : Heap A) × (clear (elemts w) m h ≡ some h')
          × Writes w h s m (replicate (elemts w) f.zero) h'
    unfolding clear
    clear-Writes s m p =
        let (xs, read, l) = load-slot s m p in
        let (h', eq, wr) =
          store-Writes s m (replicate (elemts w) f.zero) p (length-replicate _ _) in
        (h', ground (arith, read, fill_n-eq (elemts w) f.zero xs l, eq), wr)

    pub step_weights-Writes :
        (opt opt' : Optimizer A) (gs ws ws' : List A)
        → contents w.curr_ver w h ≡ some ws
        → opt_step opt (elemts w) ws gs ≡ some (opt', ws')
        → length ws' ≡ elemts w
        → (m : Matrix) × (h' : Heap A) × (place w (version w.curr_ver) ≡ some m)
          × (step_weights opt (elemts w) gs w h ≡ some (opt', h'))
          × Writes w h (version w.curr_ver) m ws' h'
    unfolding step_weights
    step_weights-Writes opt opt' gs ws ws' c st l =
        let (m, p, same) = current_slot in
        let (h', eq, wr) = store-Writes (version w.curr_ver) m ws' p l in
        (m, h', p, ground (arith, p, same, c, st, eq), wr)

-- A write elsewhere keeps the contents of the version that a chunk holds.
pub Writes-contents :
    {A : Type 0} (w : WeightTensor) (h h' : Heap A) (s : Slot) (m : Matrix) (xs : List A)
    → IsValid w h
    → Writes w h s m xs h'
    → (c : Chunk) (v : ℕ) → find (key_of c) w.chunk2ver ≡ some v
    → s ≢ version v
    → contents v w h' ≡ contents v w h
Writes-contents w h h' s m xs valid wr c v bound ne =
    let (r, e) = held_mat w.versions valid.table (key_of c) v bound in
    let m' = mat_of-find w.versions v r e in ground (arith, m', wr.others (version v) r.mat m', ne)
