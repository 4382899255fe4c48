-- ===== src/Graph/Read.antt =====
-- `Graph::init` of graph-server/graph/graph.cpp. A file that ends early, or has another type of value
-- than is read, is a fault.
use dorylus.Prelude.{ℕ, zero, suc, ◌+◌, List, [], ◌∷◌, ◌++◌, Option, none, some}
use dorylus.Prelude.Map.{Map, find, insert, nat_order}
use dorylus.Graph.Defs.{CscMatrix, CsrMatrix}
use dorylus.Graph.Write.{Value, word, long, real}

-- The members of `Graph`.
pub record Graph (A : Type 0) : Type 0 where
  pub local_vtx_cnt : ℕ
  pub global_vtx_cnt : ℕ
  pub src_ghost_cnt : ℕ
  pub dst_ghost_cnt : ℕ
  pub local_in_edge_cnt : ℕ
  pub local_out_edge_cnt : ℕ
  pub global_edge_cnt : ℕ
  pub local_to_global_id : List ℕ
  pub global_to_local_id : Map ℕ ℕ
  pub vtx_data_vec : List A
  pub forward_local_vtx_dsts : List (List ℕ)
  pub backward_local_vtx_dsts : List (List ℕ)
  pub forward_ghost_map : Map ℕ (List ℕ)
  pub backward_ghost_map : Map ℕ (List ℕ)
  pub src_ghost_vtcs : Map ℕ ℕ
  pub dst_ghost_vtcs : Map ℕ ℕ
  pub forward_adj : CscMatrix A
  pub backward_adj : CsrMatrix A

-- `globaltoLocalId[localToGlobalId[lvid]] = lvid` from `lvid` on.
unfoldable pub number_from : ℕ → List ℕ → Map ℕ ℕ → Map ℕ ℕ
number_from lvid [] m = m
number_from lvid (gvid ∷ gvids) m = number_from (lvid + 1) gvids (insert gvid lvid m)

-- A node is added to the destinations of a vertex.
unfoldable pub add_dest : ℕ → ℕ → Map ℕ (List ℕ) → Map ℕ (List ℕ)
add_dest nid v m = elim (find v m) [
  | none ↦ insert v (nid ∷ []) m
  | some nids ↦ insert v (nids ++ nid ∷ []) m
]

unfoldable pub add_dests : ℕ → List ℕ → Map ℕ (List ℕ) → Map ℕ (List ℕ)
add_dests nid [] m = m
add_dests nid (v ∷ vids) m = add_dests nid vids (add_dest nid v m)

-- The destinations by vertex, of those by node from `nid` on.
unfoldable pub ghost_map : ℕ → List (List ℕ) → Map ℕ (List ℕ) → Map ℕ (List ℕ)
ghost_map nid [] m = m
ghost_map nid (vids ∷ dsts) m = ghost_map (nid + 1) dsts (add_dests nid vids m)

abbrev pub Reader : Type 0 → Type 0 → Type 0
Reader A X = List (Value A) → Option (X × List (Value A))

infixl 5 ◌>>=◌
abbrev pub ◌>>=◌ : {A X Y : Type 0} → Reader A X → (X → Reader A Y) → Reader A Y
◌>>=◌ m f file = elim (m file) [ none ↦ none | some (x, rest) ↦ f x rest ]

module _ {A : Type 0} where
  abbrev pub return : {X : Type 0} → X → Reader A X
  return x file = some (x, file)

  unfoldable pub read_word : Reader A ℕ
  read_word (word n ∷ file) = some (n, file)
  read_word file = none

  unfoldable pub read_long : Reader A ℕ
  read_long (long n ∷ file) = some (n, file)
  read_long file = none

  unfoldable pub read_real : Reader A A
  read_real (real x ∷ file) = some (x, file)
  read_real file = none

  -- An array of `n` values.
  unfoldable pub read_array : {X : Type 0} → Reader A X → ℕ → Reader A (List X)
  read_array r zero = return []
  read_array r (suc n) = do x ← r; xs ← read_array r n; return (x ∷ xs)

  unfoldable pub read_ghosts : ℕ → Map ℕ ℕ → Reader A (Map ℕ ℕ)
  read_ghosts zero m = return m
  read_ghosts (suc n) m = do gvid ← read_word; lvid ← read_word; read_ghosts n (insert gvid lvid m)

  unfoldable pub read_lists : ℕ → Reader A (List (List ℕ))
  read_lists zero = return []
  read_lists (suc n) = do
    size ← read_word
    xs ← read_array read_word size
    xss ← read_lists n
    return (xs ∷ xss)

  unfoldable pub read_csc : ℕ → Reader A (CscMatrix A)
  read_csc cnt = do
    column_cnt ← read_word
    nnz ← read_long
    values ← read_array read_real nnz
    column_ptrs ← read_array read_long (suc cnt)
    row_idxs ← read_array read_word nnz
    return (record {
      column_cnt = column_cnt;
      nnz = nnz;
      values = values;
      column_ptrs = column_ptrs;
      row_idxs = row_idxs;
    })

  unfoldable pub read_csr : ℕ → Reader A (CsrMatrix A)
  read_csr cnt = do
    row_cnt ← read_word
    nnz ← read_long
    values ← read_array read_real nnz
    row_ptrs ← read_array read_long (suc cnt)
    column_idxs ← read_array read_word nnz
    return (record {
      row_cnt = row_cnt;
      nnz = nnz;
      values = values;
      row_ptrs = row_ptrs;
      column_idxs = column_idxs;
    })

  -- On a graph as it is constructed.
  unfoldable pub init : Reader A (Graph A)
  init = do
    local_vtx_cnt ← read_word
    global_vtx_cnt ← read_word
    src_ghost_cnt ← read_word
    dst_ghost_cnt ← read_word
    local_in_edge_cnt ← read_long
    local_out_edge_cnt ← read_long
    global_edge_cnt ← read_long
    local_to_global_id ← read_array read_word local_vtx_cnt
    vtx_data_vec ← read_array read_real local_vtx_cnt
    src_ghost_vtcs ← read_ghosts src_ghost_cnt []
    dst_ghost_vtcs ← read_ghosts dst_ghost_cnt []
    num_nodes ← read_word
    forward ← read_lists num_nodes
    backward ← read_lists num_nodes
    forward_adj ← read_csc local_vtx_cnt
    backward_adj ← read_csr local_vtx_cnt
    return (record {
      local_vtx_cnt = local_vtx_cnt;
      global_vtx_cnt = global_vtx_cnt;
      src_ghost_cnt = src_ghost_cnt;
      dst_ghost_cnt = dst_ghost_cnt;
      local_in_edge_cnt = local_in_edge_cnt;
      local_out_edge_cnt = local_out_edge_cnt;
      global_edge_cnt = global_edge_cnt;
      local_to_global_id = local_to_global_id;
      global_to_local_id = number_from 0 local_to_global_id [];
      vtx_data_vec = vtx_data_vec;
      forward_local_vtx_dsts = forward;
      backward_local_vtx_dsts = backward;
      forward_ghost_map = ghost_map 0 forward [];
      backward_ghost_map = ghost_map 0 backward [];
      src_ghost_vtcs = src_ghost_vtcs;
      dst_ghost_vtcs = dst_ghost_vtcs;
      forward_adj = forward_adj;
      backward_adj = backward_adj;
    })
