-- ===== src/Weights/Versions/Defs.antt =====
-- The version table of `WeightTensor`, and what `getMat`, `decRef` and `updateVersion` of
-- src/weight-server/weighttensor.cpp do to it.
use dorylus.Prelude.{ℕ, ◌&&◌, Option, none, some, ltb, ◌==◌, if◌then◌else◌, ◌>>=◌, add32, sub32}
use dorylus.Prelude.Map.{Map, find, insert, erase, nat_order}
use dorylus.Chunk.{Chunk, forward, chunk_order}

-- A matrix with the number of the chunks that use it.
pub record RefMat (M : Type 0) : Type 0 where
  pub ref_cnt : ℕ
  pub mat : M

pub record Versions (M : Type 0) : Type 0 where
  pub curr_ver : ℕ
  pub ver2mat : Map ℕ (RefMat M)
  pub chunk2ver : Map Chunk ℕ

-- `chunk.dir = PROP_TYPE::FORWARD`: both passes of a chunk have one entry.
abbrev pub key_of : Chunk → Chunk
key_of c = record c { dir = forward }

module _ {M : Type 0} where
  -- `ver2Mat[v].mat`. A version that is not there would come with an uninitialised matrix: a fault.
  unfoldable pub mat_of : ℕ → Versions M → Option M
  mat_of v t = elim (find v t.ver2mat) [ none ↦ none | some r ↦ some r.mat ]

  -- `getMat` on a chunk that is new: it holds the current version from now on.
  unfoldable pub hold : Chunk → Versions M → Option (M × Versions M)
  hold c t = do
    r ← find t.curr_ver t.ver2mat
    some (
      r.mat,
      record t {
        ver2mat = insert t.curr_ver (record r { ref_cnt = add32 r.ref_cnt 1 }) t.ver2mat;
        chunk2ver = insert c t.curr_ver t.chunk2ver;
      },
    )

  -- `getMat`.
  unfoldable pub get_mat : Chunk → Versions M → Option (M × Versions M)
  unfolding hold mat_of
  get_mat chunk t = elim (find (key_of chunk) t.chunk2ver) [
    | some v ↦ do m ← mat_of v t; some (m, t)
    | none ↦ hold (key_of chunk) t
  ]

  -- `decRef` on a known chunk: an old version that nobody uses any more goes, and its matrix is
  -- handed out to be freed.
  unfoldable pub drop_ref : Chunk → ℕ → Versions M → Option (Option M × Versions M)
  drop_ref c v t = do
    r ← find v t.ver2mat
    let n = sub32 r.ref_cnt 1
    if ltb v t.curr_ver && (n == 0)
        then some
            (some r.mat, record t { ver2mat = erase v t.ver2mat; chunk2ver = erase c t.chunk2ver })
        else some (
          none,
          record t {
            ver2mat = insert v (record r { ref_cnt = n }) t.ver2mat;
            chunk2ver = erase c t.chunk2ver;
          },
        )

  -- `decRef`. A chunk that holds nothing is reported, and changes nothing.
  unfoldable pub dec_ref : Chunk → Versions M → Option (Option M × Versions M)
  unfolding drop_ref
  dec_ref chunk t = elim (find (key_of chunk) t.chunk2ver) [
    | some v ↦ drop_ref (key_of chunk) v t
    | none ↦ some (none, t)
  ]

  -- `updateVersion`, nobody uses the current version: it moves to the next number.
  unfoldable pub move_version : RefMat M → Versions M → Versions M
  move_version r t = record t {
    curr_ver = add32 t.curr_ver 1;
    ver2mat = erase (sub32 (add32 t.curr_ver 1) 1) (insert (add32 t.curr_ver 1) r t.ver2mat);
  }

  -- `updateVersion`, the current version is in use: it stays, and a copy takes the next number.
  unfoldable pub stash_version : M → Versions M → Versions M
  stash_version copy t = record t {
    curr_ver = add32 t.curr_ver 1;
    ver2mat = insert (add32 t.curr_ver 1) (record { ref_cnt = 0; mat = copy }) t.ver2mat;
  }
