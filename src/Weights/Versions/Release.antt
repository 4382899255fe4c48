-- ===== src/Weights/Versions/Release.antt =====
-- Reference counting: what a release does to the table, and that no old version is leaked.
use dorylus.Prelude.{ℕ, ◌<◌, ◌≡◌, ◌⊎◌, inl, inr, [], Option, none, some, arith, u32_mod, refl}
use dorylus.Prelude.Map.{find, size, find-erase, same_refl, count, nat_order}
use dorylus.Chunk.{Chunk, chunk_order}
use dorylus.Weights.Versions.Defs.{RefMat, Versions, key_of, dec_ref}
use dorylus.Weights.Versions.Refs.{
  IsConsistent, users, drop_ref-IsConsistent, drop_last-IsConsistent,
}
use dorylus.Weights.Versions.Calls.{dec_ref_cases}

module _ {M : Type 0} (t : Versions M) (valid : IsConsistent t) where
  -- `decRef` on a consistent table with fewer than 2 ^ 32 chunks returns a consistent table in which
  -- the chunk holds nothing; a matrix that it hands out to be freed belongs to a version below the
  -- current one which the chunk held, as the only one, and which is gone from the table.
  pub dec_ref-release :
      (c : Chunk)
      → size t.chunk2ver < u32_mod
      → (freed : Option M) × (t' : Versions M) × (dec_ref c t ≡ some (freed, t'))
        × IsConsistent t'
        × (find (key_of c) t'.chunk2ver ≡ none)
        × ((freed ≡ none)
            ⊎ ((v : ℕ) × (r : RefMat M) × (freed ≡ some r.mat)
                × (find (key_of c) t.chunk2ver ≡ some v)
                × (find v t.ver2mat ≡ some r)
                × (v < t.curr_ver)
                × (users v t ≡ 1)
                × (find v t'.ver2mat ≡ none)))
  dec_ref-release c small = elim (dec_ref_cases t valid c small) [
    | inl (new, g) ↦ (none, t, g, valid, new, inl refl)
    | inr (v, r, hc, hv, inl (old, last, g)) ↦ (
      some r.mat,
      _,
      g,
      drop_last-IsConsistent t valid (key_of c) v r hc hv old last,
      ground (arith, find-erase (key_of c) (key_of c) t.chunk2ver, same_refl (key_of c)),
      inr (
        v,
        r,
        refl,
        hc,
        hv,
        old,
        omega (arith, last, valid.counted v r hv),
        ground (arith, find-erase v v t.ver2mat),
      ),
    )
    | inr (v, r, hc, hv, inr (keep, g)) ↦ (
      none,
      _,
      g,
      drop_ref-IsConsistent t valid (key_of c) v r hc hv keep,
      ground (arith, find-erase (key_of c) (key_of c) t.chunk2ver, same_refl (key_of c)),
      inl refl,
    )
  ]

  -- In a consistent table that no chunk uses, the current version is the only one.
  pub unused-current :
      (v : ℕ) (r : RefMat M) → t.chunk2ver ≡ [] → find v t.ver2mat ≡ some r → v ≡ t.curr_ver
  unfolding count
  unused-current v r e hv =
      ground (arith, valid.bounded v r hv, valid.used v r hv, valid.counted v r hv)
