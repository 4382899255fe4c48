-- ===== src/Weights/Versions/Tests.antt =====
-- The version table with one old version that one chunk holds.
use dorylus.Prelude.{ℕ, ◌<◌, ◌≡◌, ◌⊎◌, [], ◌∷◌, true, Option, none, some, arith, u32_mod}
use dorylus.Prelude.Map.{find, size, count, nat_order}
use dorylus.Chunk.{Chunk, forward, chunk_order}
use dorylus.Weights.Versions.Defs.{RefMat, Versions, key_of, dec_ref}
use dorylus.Weights.Versions.Refs.{IsConsistent, users}
use dorylus.Weights.Versions.Release.{dec_ref-release}

abbrev chunk : Chunk
chunk = record {
  local_id = 0;
  global_id = 0;
  low_bound = 0;
  up_bound = 4;
  layer = 0;
  dir = forward;
  epoch = 1;
  vertex = true;
}

-- Matrices are numbers here.
abbrev table : Versions ℕ
table = record {
  curr_ver = 1;
  ver2mat = (0, record { ref_cnt = 1; mat = 10 }) ∷ (1, record { ref_cnt = 0; mat = 20 }) ∷ [];
  chunk2ver = (chunk, 0) ∷ [];
}

table-IsConsistent : IsConsistent table
unfolding find count
table-IsConsistent = record {
  sorted = (tt, tt);
  sorted_vers = ((ground arith, tt), (tt, tt));
  current = ground arith;
  bounded = λ v r e. ground arith;
  counted = λ v r e. ground arith;
  held = λ c v e. ground arith;
  used = λ v r e lt. ground arith;
}

table_small : size table.chunk2ver < u32_mod
unfolding size
table_small = omega arith

dec_ref-release_example :
    (freed : Option ℕ) × (t' : Versions ℕ) × (dec_ref chunk table ≡ some (freed, t'))
    × IsConsistent t'
    × (find (key_of chunk) t'.chunk2ver ≡ none)
    × ((freed ≡ none)
        ⊎ ((v : ℕ) × (r : RefMat ℕ) × (freed ≡ some r.mat)
            × (find (key_of chunk) table.chunk2ver ≡ some v)
            × (find v table.ver2mat ≡ some r)
            × (v < table.curr_ver)
            × (users v table ≡ 1)
            × (find v t'.ver2mat ≡ none)))
dec_ref-release_example = dec_ref-release table table-IsConsistent chunk table_small
