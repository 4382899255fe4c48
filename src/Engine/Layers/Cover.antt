-- ===== src/Engine/Layers/Cover.antt =====
-- The chunks of `loadChunks` are a partition of the vertices.
use native.Mathlib.Nat.{
  div-mul-le_self, lt-div-mul-add, div-lt_iff_lt-mul, div-eq_of_lt-le, mul-le-mul_right,
  le-div_iff_mul-le,
}
use dorylus.Prelude.{
  ℕ, ◌+◌, ◌-◌, ◌*◌, ◌/◌, ◌≤◌, ◌<◌, ◌≡◌, ◌↔◌, sym, arith, u32_mod, add32, sub32, mul32, add32-eq,
  sub32-eq, mul32-eq,
}
use dorylus.Engine.Layers.Defs.{chunk_size, min, load_chunk}

-- The size of the chunks: enough for all vertices, and without overflow.
chunk_size-bounds :
    (vtcs n : ℕ)
    → 0 < n
    → 0 < vtcs
    → vtcs + n < u32_mod
    → (0 < chunk_size vtcs n) × (vtcs ≤ n * chunk_size vtcs n) × (n * chunk_size vtcs n < u32_mod)
unfolding chunk_size
chunk_size-bounds vtcs n pn pv small =
    let e : sub32 (add32 vtcs n) 1 ≡ vtcs + n - 1 =
      ground (arith, add32-eq vtcs n small, sub32-eq (vtcs + n) 1) in
    let lo = div-mul-le_self (vtcs + n - 1) n in
    let hi = lt-div-mul-add {a = vtcs + n - 1} {b = n} pn in
    let pos = (le-div_iff_mul-le {k = n} {x = 1} {y = vtcs + n - 1} pn).1 (omega arith) in
    rw e (pos, omega (arith, hi), omega (arith, lo))

module _ (node_id n vtcs : ℕ) (pn : 0 < n) (pv : 0 < vtcs) (small : vtcs + n < u32_mod) where
  load_chunk-bounds :
      (cid : ℕ)
      → cid < n
      → ((load_chunk node_id n vtcs cid).low_bound ≡ cid * chunk_size vtcs n)
        × ((load_chunk node_id n vtcs cid).up_bound
            ≡ min (cid * chunk_size vtcs n + chunk_size vtcs n) vtcs)
  unfolding load_chunk
  load_chunk-bounds cid lt =
      let (ps, all, room) = chunk_size-bounds vtcs n pn pv small in
      let last = mul-le-mul_right {m = cid + 1} {n = n} (chunk_size vtcs n) (omega arith) in
      let l : mul32 cid (chunk_size vtcs n) ≡ cid * chunk_size vtcs n =
        mul32-eq cid (chunk_size vtcs n) (omega (arith, last)) in
      (
        l,
        ground (
          arith,
          l,
          add32-eq (cid * chunk_size vtcs n) (chunk_size vtcs n) (omega (arith, last)),
        ),
      )

  -- Every vertex lies between the bounds of one chunk, and of no other, if there are vertices and
  -- lambdas, and their numbers together do not overflow.
  pub load_chunk-partition :
      (v cid : ℕ)
      → v < vtcs
      → cid < n
      → (v / chunk_size vtcs n < n)
        × ((((load_chunk node_id n vtcs cid).low_bound ≤ v)
              × (v < (load_chunk node_id n vtcs cid).up_bound))
            ↔ (cid ≡ v / chunk_size vtcs n))
  unfolding min
  load_chunk-partition v cid lv lt =
      let (ps, all, room) = chunk_size-bounds vtcs n pn pv small in
      let (l, u) = load_chunk-bounds cid lt in
      let s = chunk_size vtcs n in
      let below = div-mul-le_self v s in
      let above = lt-div-mul-add {a = v} {b = s} ps in
      (
        (div-lt_iff_lt-mul {k = s} {x = v} {y = n} ps).1 (omega arith),
        (
          (λ (a, b).
              sym (div-eq_of_lt-le {k = cid} s {m = v} (omega (arith, l)) (ground (arith, u, b)))),
          (λ e. ground (arith, l, u, below, above, e)),
        ),
      )
