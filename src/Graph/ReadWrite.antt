-- ===== src/Graph/ReadWrite.antt =====
-- What the parts of the file of a graph are read as.
use dorylus.Prelude.{
  ℕ, zero, suc, ◌+◌, ◌≡◌, refl, sym, ap, ◌∙◌, List, [], ◌∷◌, ◌++◌, map, some, true, arith, ltb,
  get_elem?, length, length-append,
}
use dorylus.Prelude.Map.{Map, insert, size, IsAbove, IsSorted, ltb_trans, nat_order}
use mathlib.Core.List.{append-nil}
use dorylus.Graph.Defs.{Vertex, GhostVertex, RawGraph}
use dorylus.Graph.Columns.{get_elem?_at, snoc-append}
use dorylus.Graph.Write.{
  Value, word, long, real, first, global_ids, norm_factors, write_ghosts, write_lists,
  write_adjacency,
}
use dorylus.Graph.Read.{
  Reader, read_word, read_long, read_real, read_array, read_ghosts, read_lists, read_csc, read_csr,
}

pub first_all : {B : Type 0} (n : ℕ) (xs : List B) → length xs ≡ n → first n xs ≡ some xs
first_all zero [] l = refl
first_all zero (x ∷ xs) l = absurd (omega arith)
first_all (suc n) [] l = absurd (omega arith)
first_all (suc n) (x ∷ xs) l = rw (first_all n xs (omega arith)) refl

-- The local ids of the ghosts, by their global ids.
abbrev pub local_ids : Map ℕ GhostVertex → Map ℕ ℕ
local_ids [] = []
local_ids ((gvid, v) ∷ ghosts) = (gvid, v.local_id) ∷ local_ids ghosts

abbrev pub AllUnder : ℕ → Map ℕ ℕ → Type 0
AllUnder k [] = Unit {0}
AllUnder k ((j, w) ∷ m) = (ltb j k ≡ true) × AllUnder k m

insert_last : (k v : ℕ) (m : Map ℕ ℕ) → AllUnder k m → insert k v m ≡ m ++ (k, v) ∷ []
unfolding insert
insert_last k v [] a = refl
insert_last k v ((j, w) ∷ m) a = rw (a.0) (ap (λ t. (j, w) ∷ t) (insert_last k v m a.1))

AllUnder-snoc :
    (j k v : ℕ) (m : Map ℕ ℕ) → AllUnder j m → ltb j k ≡ true → AllUnder k (m ++ (j, v) ∷ [])
AllUnder-snoc j k v [] a h = (h, tt)
AllUnder-snoc j k v ((i, w) ∷ m) a h = (ltb_trans i j k a.0 h, AllUnder-snoc j k v m a.1 h)

-- The keys of the first map lie below those of the second.
abbrev pub Before : Map ℕ ℕ → Map ℕ GhostVertex → Type 0
Before m [] = Unit {0}
Before m ((k, v) ∷ ghosts) = AllUnder k m

pub Before-nil : (ghosts : Map ℕ GhostVertex) → Before [] ghosts
Before-nil [] = tt
Before-nil ((k, v) ∷ ghosts) = tt

Before-snoc :
    (k v : ℕ) (m : Map ℕ ℕ) (ghosts : Map ℕ GhostVertex)
    → AllUnder k m
    → IsAbove k ghosts
    → Before (m ++ (k, v) ∷ []) ghosts
Before-snoc k v m [] a h = tt
Before-snoc k v m ((j, w) ∷ ghosts) a h = AllUnder-snoc k j v m a h.0

module _ {A : Type 0} where
  pub norm_factors_all :
      (g : RawGraph A) (pre vs : List (Vertex A))
      → g.vertices ≡ pre ++ vs
      → norm_factors (length vs) (length pre) g ≡ some (map (λ v. v.norm_factor) vs)
  unfolding norm_factors
  norm_factors_all g pre [] e = refl
  norm_factors_all g pre (v ∷ vs) e =
      let at : get_elem? g.vertices (length pre) ≡ some v = rw e (get_elem?_at pre vs v) in
      let next : length pre + 1 ≡ length (pre ++ v ∷ []) =
        omega (arith, length-append pre (v ∷ [])) in
      rw (at, next, norm_factors_all g (pre ++ v ∷ []) vs (e ∙ snoc-append pre vs v)) refl

  read_array-map :
      {X : Type 0} (r : Reader A X) (c : X → Value A) (n : ℕ) (xs : List X) (rest : List (Value A))
      → ((x : X) (file : List (Value A)) → r (c x ∷ file) ≡ some (x, file))
      → length xs ≡ n
      → read_array r n (map c xs ++ rest) ≡ some (xs, rest)
  unfolding read_array
  read_array-map r c zero [] rest one l = refl
  read_array-map r c zero (x ∷ xs) rest one l = absurd (omega arith)
  read_array-map r c (suc n) [] rest one l = absurd (omega arith)
  read_array-map r c (suc n) (x ∷ xs) rest one l =
      ground (arith, one x (map c xs ++ rest), read_array-map r c n xs rest one (omega arith))

  pub read_words :
      (n : ℕ) (xs : List ℕ) (rest : List (Value A))
      → length xs ≡ n
      → read_array read_word n (map word xs ++ rest) ≡ some (xs, rest)
  unfolding read_word
  read_words n xs rest = read_array-map read_word word n xs rest (λ x file. refl)

  pub read_longs :
      (n : ℕ) (xs : List ℕ) (rest : List (Value A))
      → length xs ≡ n
      → read_array read_long n (map long xs ++ rest) ≡ some (xs, rest)
  unfolding read_long
  read_longs n xs rest = read_array-map read_long long n xs rest (λ x file. refl)

  pub read_reals :
      (n : ℕ) (xs : List A) (rest : List (Value A))
      → length xs ≡ n
      → read_array read_real n (map real xs ++ rest) ≡ some (xs, rest)
  unfolding read_real
  read_reals n xs rest = read_array-map read_real real n xs rest (λ x file. refl)

  pub read_lists-write_lists :
      (xss : List (List ℕ)) (rest : List (Value A))
      → read_lists (length xss) (write_lists xss rest) ≡ some (xss, rest)
  unfolding read_lists write_lists read_word
  read_lists-write_lists [] rest = refl
  read_lists-write_lists (xs ∷ xss) rest = ground (
    arith,
    read_words (length xs) xs (write_lists xss rest) refl,
    read_lists-write_lists xss rest,
  )

  pub read_ghosts-write_ghosts :
      (ghosts : Map ℕ GhostVertex) (m : Map ℕ ℕ) (rest : List (Value A))
      → IsSorted ghosts
      → Before m ghosts
      → read_ghosts (size ghosts) m (write_ghosts ghosts rest) ≡ some (m ++ local_ids ghosts, rest)
  unfolding read_ghosts write_ghosts read_word size
  read_ghosts-write_ghosts [] m rest s b = ap (λ t. some (t, rest)) (sym (append-nil m))
  read_ghosts-write_ghosts ((k, v) ∷ ghosts) m rest s b =
      rw
        (
          insert_last k v.local_id m b,
          read_ghosts-write_ghosts ghosts (m ++ (k, v.local_id) ∷ []) rest s.1
              (Before-snoc k v.local_id m ghosts b s.0),
        )
        (ap (λ t. some (t, rest)) (sym (snoc-append m (local_ids ghosts) (k, v.local_id))))

  module _ (cnt n nnz : ℕ) (values : List A) (ptrs idxs : List ℕ) (rest : List (Value A))
      (lv : length values ≡ nnz) (lp : length ptrs ≡ suc n) (li : length idxs ≡ nnz) where
    pub read_csc-write_adjacency :
        read_csc n (write_adjacency cnt nnz values ptrs idxs rest)
        ≡ some (
          record {
            column_cnt = cnt;
            nnz = nnz;
            values = values;
            column_ptrs = ptrs;
            row_idxs = idxs;
          },
          rest,
        )
    unfolding read_csc write_adjacency read_word read_long
    read_csc-write_adjacency = ground (
      arith,
      read_reals nnz values (map long ptrs ++ (map word idxs ++ rest)) lv,
      read_longs (suc n) ptrs (map word idxs ++ rest) lp,
      read_words nnz idxs rest li,
    )

    pub read_csr-write_adjacency :
        read_csr n (write_adjacency cnt nnz values ptrs idxs rest)
        ≡ some (
          record { row_cnt = cnt; nnz = nnz; values = values; row_ptrs = ptrs; column_idxs = idxs },
          rest,
        )
    unfolding read_csr write_adjacency read_word read_long
    read_csr-write_adjacency = ground (
      arith,
      read_reals nnz values (map long ptrs ++ (map word idxs ++ rest)) lv,
      read_longs (suc n) ptrs (map word idxs ++ rest) lp,
      read_words nnz idxs rest li,
    )

  pub length-global_ids : (n i : ℕ) (g : RawGraph A) → length (global_ids n i g) ≡ n
  unfolding global_ids
  length-global_ids zero i g = refl
  length-global_ids (suc n) i g = ap suc (length-global_ids n (i + 1) g)
