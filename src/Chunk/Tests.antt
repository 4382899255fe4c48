-- ===== src/Chunk/Tests.antt =====
-- The order of the chunks at two chunks of one epoch.
use dorylus.Prelude.{◌≡◌, ◌⊎◌, refl, true, false}
use dorylus.Chunk.Defs.{Chunk, forward, backward, chunk_lt}
use dorylus.Chunk.Order.{chunk_lt_trichotomy}

abbrev late : Chunk
late = record {
  local_id = 1;
  global_id = 1;
  low_bound = 4;
  up_bound = 8;
  layer = 1;
  dir = backward;
  epoch = 3;
  vertex = true;
}

abbrev middle : Chunk
middle = record late { dir = forward; layer = 0 }

late-middle : chunk_lt late middle ≡ true
unfolding chunk_lt
late-middle = refl

chunk_lt_trichotomy_example :
    ((chunk_lt late middle ≡ true) × (chunk_lt middle late ≡ false))
    ⊎ (((chunk_lt late middle ≡ false) × (chunk_lt middle late ≡ true))
        ⊎ ((chunk_lt late middle ≡ false) × (chunk_lt middle late ≡ false) × (late ≡ middle)))
chunk_lt_trichotomy_example = chunk_lt_trichotomy late middle
