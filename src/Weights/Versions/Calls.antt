-- ===== src/Weights/Versions/Calls.antt =====
-- What `getMat` and `decRef` of src/weight-server/weighttensor.cpp do to a consistent table: they
-- find what they look for, keep the table consistent, and leave the other chunks' weights alone.
use dorylus.Prelude.{
  ℕ, ◌+◌, ◌-◌, ◌≡◌, ◌≢◌, ◌<◌, ◌≤◌, ◌⊎◌, inl, inr, Option, none, some, arith, u32_mod, add32-eq,
  sub32, sub32-eq, Option-cases, Bool-cases, ltb, ◌==◌, ◌&&◌,
}
use dorylus.Prelude.Map.{find, size, count-le-size, nat_order}
use dorylus.Chunk.{Chunk, chunk_order}
use dorylus.Weights.Versions.Defs.{RefMat, Versions, dec_ref, get_mat, mat_of, key_of}
use dorylus.Weights.Versions.Refs.{IsConsistent, held-users, after_hold, after_drop, after_last}

-- What the weights are to which a chunk is bound.
abbrev pub weights_of : {M : Type 0} → Chunk → Versions M → Option M
weights_of c t = elim (find (key_of c) t.chunk2ver) [ none ↦ none | some v ↦ mat_of v t ]

-- The result of a fallible call, and a property of it.
abbrev pub Returns : {R : Type 0} → Option R → (R → Type 0) → Type 0
Returns none P = ⊥
Returns (some r) P = P r

module _ {M : Type 0} (t : Versions M) (valid : IsConsistent t) where
  pub current_mat : (r : RefMat M) × (find t.curr_ver t.ver2mat ≡ some r)
  current_mat = elim (Option-cases (find t.curr_ver t.ver2mat)) [
    | inl e ↦ absurd (valid.current e)
    | inr found ↦ found
  ]

  count_small : (v : ℕ) (r : RefMat M) → find v t.ver2mat ≡ some r → r.ref_cnt ≤ size t.chunk2ver
  count_small v r e = omega (arith, valid.counted v r e, count-le-size (λ x. x == v) t.chunk2ver)

  pub held_mat :
      (c : Chunk) (v : ℕ)
      → find c t.chunk2ver ≡ some v
      → (r : RefMat M) × (find v t.ver2mat ≡ some r)
  held_mat c v h = elim (Option-cases (find v t.ver2mat)) [
    | inl e ↦ absurd (valid.held c v h e)
    | inr found ↦ found
  ]

  -- The two ways of `getMat`.
  pub get_mat_cases :
      (c : Chunk)
      → size t.chunk2ver + 1 < u32_mod
      → ((v : ℕ) × (r : RefMat M) × (find (key_of c) t.chunk2ver ≡ some v)
          × (find v t.ver2mat ≡ some r)
          × (get_mat c t ≡ some (r.mat, t)))
        ⊎ ((r : RefMat M) × (find (key_of c) t.chunk2ver ≡ none)
            × (find t.curr_ver t.ver2mat ≡ some r)
            × (get_mat c t ≡ some (r.mat, after_hold t (key_of c) r)))
  unfolding get_mat
  get_mat_cases c small = elim (Option-cases (find (key_of c) t.chunk2ver)) [
    | inl new ↦
        let (r, e) = current_mat in
        inr (
          r,
          new,
          e,
          ground (arith, add32-eq r.ref_cnt 1 (omega (arith, count_small t.curr_ver r e))),
        )
    | inr (v, known) ↦
        let (r, e) = held_mat (key_of c) v known in inl (v, r, known, e, ground arith)
  ]

  -- The three ways of `decRef`.
  pub dec_ref_cases :
      (c : Chunk)
      → size t.chunk2ver < u32_mod
      → ((find (key_of c) t.chunk2ver ≡ none) × (dec_ref c t ≡ some (none, t)))
        ⊎ ((v : ℕ) × (r : RefMat M) × (find (key_of c) t.chunk2ver ≡ some v)
            × (find v t.ver2mat ≡ some r)
            × (((v < t.curr_ver)
                  × (r.ref_cnt ≡ 1)
                  × (dec_ref c t ≡ some (some r.mat, after_last t (key_of c) v)))
                ⊎ ((v < t.curr_ver → r.ref_cnt ≢ 1)
                    × (dec_ref c t ≡ some (none, after_drop t (key_of c) v r)))))
  unfolding dec_ref
  dec_ref_cases c small = elim (Option-cases (find (key_of c) t.chunk2ver)) [
    | inl new ↦ inl (new, ground arith)
    | inr (v, known) ↦
        let (r, e) = held_mat (key_of c) v known in
        let s : sub32 r.ref_cnt 1 ≡ r.ref_cnt - 1 =
          sub32-eq r.ref_cnt 1 (omega (arith, count_small v r e))
            (omega (arith, valid.counted v r e, held-users t valid (key_of c) v known)) in
        inr (
          v,
          r,
          known,
          e,
          elim (Bool-cases (ltb v t.curr_ver && (r.ref_cnt == 1))) [
            | inl last ↦ inl (ground arith, ground arith, ground (arith, s))
            | inr more ↦ inr (
              ground arith,
              ground (arith, s, valid.counted v r e, held-users t valid (key_of c) v known),
            )
          ],
        )
  ]
