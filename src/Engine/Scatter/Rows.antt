-- ===== src/Engine/Scatter/Rows.antt =====
-- The rows of a message reach the ghosts, and disturb no other.
use dorylus.Prelude.{
  ℕ, ◌+◌, ◌-◌, ◌≡◌, ◌⊎◌, ◌<◌, ◌≤◌, refl, sym, ap, ◌∙◌, inl, inr, List, [], ◌∷◌, some, true, false,
  arith, ◌==◌, sub32, sub32-eq, u32_mod, length, get_elem?, set, length-set, get_elem?-set_self,
  get_elem?-set_ne, All, Bool-cases, ==_iff,
}
use dorylus.Prelude.Map.{Map, find, nat_order, index_map-found}
use dorylus.Engine.Scatter.Receive.{write_row, update_rows}

-- Different ghosts have different local ids.
abbrev pub IsInjective : Map ℕ ℕ → Type 0
IsInjective ids = (k j l : ℕ) → find k ids ≡ some l → find j ids ≡ some l → k ≡ j

-- A ghost whose local id is one of the `n` behind those of the local vertices.
abbrev pub IsGhost : ℕ → ℕ → Map ℕ ℕ → ℕ → Type 0
IsGhost local_vtx_cnt n ids gvid =
    (l : ℕ) × (find gvid ids ≡ some l) × (local_vtx_cnt ≤ l) × (l < local_vtx_cnt + n)

module _ {A : Type 0} (local_vtx_cnt n : ℕ) (ids : Map ℕ ℕ) where
  -- The row of a ghost.
  abbrev pub RowIs : List (List A) → ℕ → List A → Type 0
  RowIs t gvid row =
      (l : ℕ) × (find gvid ids ≡ some l)
      × (local_vtx_cnt ≤ l)
      × (get_elem? t (l - local_vtx_cnt) ≡ some row)

  module _ (room : local_vtx_cnt + n < u32_mod) (inj : IsInjective ids) (value : ℕ → List A) where
    -- A vertex of a message, with the row that all messages give it.
    abbrev pub IsValue : ℕ × List A → Type 0
    IsValue v = IsGhost local_vtx_cnt n ids v.0 × (v.1 ≡ value v.0)

    -- What a part of the work has done to the tensor.
    pub record Wrote (vs : List (ℕ × List A)) (t t' : List (List A)) : Type 0 where
      pub sized : length t' ≡ length t
      pub kept : (gvid : ℕ) → RowIs t gvid (value gvid) → RowIs t' gvid (value gvid)
      pub written : All (λ v. RowIs t' v.0 (value v.0)) vs

    write_row-Wrote :
        (v : ℕ × List A) (t : List (List A)) (q : IsValue v)
        → length t ≡ n
        → (t' : List (List A)) × (write_row (sub32 q.0.0 local_vtx_cnt) v.1 t ≡ some t')
          × Wrote (v ∷ []) t t'
    unfolding write_row
    write_row-Wrote (gvid, row) t ((l, f, low, up), same_row) e =
        let i = l - local_vtx_cnt in
        let idx : sub32 l local_vtx_cnt ≡ i =
          sub32-eq l local_vtx_cnt (omega (arith, up, room)) (omega (arith, low)) in
        let lt : i < length t = omega (arith, e, low, up) in
        let here : get_elem? (set t i row) i ≡ some (value gvid) =
          get_elem?-set_self t i row lt ∙ ap some same_row in
        (
          set t i row,
          rw idx (ground (arith, lt)),
          record {
            sized = length-set t i row;
            kept = λ k h. keep k h (Bool-cases (h.0 == l)) here;
            written = ((l, f, low, here), tt);
          },
        )
      where
        keep :
            (k : ℕ) (h : RowIs t k (value k))
            → ((h.0 == l) ≡ true) ⊎ ((h.0 == l) ≡ false)
            → get_elem? (set t (l - local_vtx_cnt) row) (l - local_vtx_cnt) ≡ some (value gvid)
            → RowIs (set t (l - local_vtx_cnt) row) k (value k)
        keep k (j, g, jlow, old) (inl hit) here =
            let q : j ≡ l = (==_iff j l).0 hit in
            let k_is : k ≡ gvid = inj k gvid l (g ∙ ap some q) f in
            (
              j,
              g,
              jlow,
              ap (λ m. get_elem? (set t (l - local_vtx_cnt) row) (m - local_vtx_cnt)) q
                  ∙ here
                  ∙ ap (λ m. some (value m)) (sym k_is),
            )
        keep k (j, g, jlow, old) (inr miss) here = (
          j,
          g,
          jlow,
          get_elem?-set_ne t {i = l - local_vtx_cnt} {j = j - local_vtx_cnt} row
                (λ q. ground (arith, q, miss, low, jlow))
              ∙ old,
        )

    pub update_rows-Wrote :
        (vs : List (ℕ × List A)) (t : List (List A))
        → All IsValue vs
        → length t ≡ n
        → (t' : List (List A)) × (update_rows local_vtx_cnt vs ids t ≡ some (ids, t'))
          × Wrote vs t t'
    unfolding update_rows
    update_rows-Wrote [] t a e = (t, refl, record { sized = refl; kept = λ k h. h; written = tt })
    update_rows-Wrote ((gvid, row) ∷ vs) t a e =
        let (t1, p, w) = write_row-Wrote (gvid, row) t a.0 e in
        let (t2, q, x) = update_rows-Wrote vs t1 a.1 (w.sized ∙ e) in
        let ((l, f, low, up), same_row) = a.0 in
        (
          t2,
          rw (index_map-found gvid l ids f, p) q,
          record {
            sized = x.sized ∙ w.sized;
            kept = λ k h. x.kept k (w.kept k h);
            written = (x.kept gvid w.written.0, x.written);
          },
        )
