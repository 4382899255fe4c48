-- ===== src/Engine/Aggregate/Rows.antt =====
-- The two loops over the rows of a chunk.
use dorylus.Prelude.{
  ℕ, zero, suc, ◌+◌, ◌≡◌, ◌≢◌, ◌⊎◌, ◌<◌, ◌≤◌, refl, sym, ap, ◌∙◌, inl, inr, List, Option, some,
  true, arith, ltb, ◌==◌, length, get_elem?, get_elem?-lt, set, length-set, get_elem?-set_self,
  get_elem?-set_ne, Bool-cases, ==_iff,
}
use dorylus.Engine.Aggregate.Defs.{copy_rows, for_rows}

module _ {A : Type 0} where
  -- The rows from `lvid` to below `lvid + n` are the given ones, and the others are as before.
  pub record IsRows (row : ℕ → Option (List A)) (lvid n : ℕ) (old new : List (List A))
      : Type 0 where
    pub sized : length new ≡ length old
    pub inside : (k : ℕ) → lvid ≤ k → k < lvid + n → get_elem? new k ≡ row k
    pub outside : (k : ℕ) → (k < lvid) ⊎ (lvid + n ≤ k) → get_elem? new k ≡ get_elem? old k

  IsRows-zero :
      (row : ℕ → Option (List A)) (lvid : ℕ) (old : List (List A)) → IsRows row lvid 0 old old
  IsRows-zero row lvid old = record {
    sized = refl;
    inside = λ k a b. absurd (omega (arith, a, b));
    outside = λ k h. refl;
  }

  pub IsRows-trans :
      {first row : ℕ → Option (List A)} {lvid n : ℕ} {old new newest : List (List A)}
      → IsRows first lvid n old new
      → IsRows row lvid n new newest
      → IsRows row lvid n old newest
  IsRows-trans v w = record {
    sized = w.sized ∙ v.sized;
    inside = w.inside;
    outside = λ k o. w.outside k o ∙ v.outside k o;
  }

  -- One more row in front.
  IsRows-suc :
      (row : ℕ → Option (List A)) (lvid n : ℕ) (old new : List (List A)) (r : List A)
      → lvid < length old
      → row lvid ≡ some r
      → IsRows row (lvid + 1) n (set old lvid r) new
      → IsRows row lvid (suc n) old new
  IsRows-suc row lvid n old new r lt e v = record {
    sized = v.sized ∙ length-set old lvid r;
    inside = λ k a b. elim (Bool-cases (k == lvid)) [
      | inl here ↦
          let q : k ≡ lvid = (==_iff k lvid).0 here in
          ap (get_elem? new) q
          ∙ v.outside lvid (inl (omega arith))
          ∙ get_elem?-set_self old lvid r lt
          ∙ sym (ap row q ∙ e)
      | inr later ↦ v.inside k (ground (arith, a, later)) (omega (arith, b))
    ];
    outside = λ k h.
        v.outside k (shift k h) ∙ get_elem?-set_ne old {i = lvid} {j = k} r (λ q. apart k h q);
  }
    where
      shift : (k : ℕ) → (k < lvid) ⊎ (lvid + suc n ≤ k) → (k < lvid + 1) ⊎ (lvid + 1 + n ≤ k)
      shift k (inl a) = inl (omega (arith, a))
      shift k (inr a) = inr (omega (arith, a))

      apart : (k : ℕ) → (k < lvid) ⊎ (lvid + suc n ≤ k) → lvid ≢ k
      apart k (inl a) q = absurd (omega (arith, a, q))
      apart k (inr a) q = absurd (omega (arith, a, q))

  module _ (plus times : A → A → A) where
    pub copy_rows-IsRows :
        (feats : List (List A)) (n lvid : ℕ) (output : List (List A))
        → lvid + n ≤ length output
        → lvid + n ≤ length feats
        → (output' : List (List A)) × (copy_rows plus times feats n lvid output ≡ some output')
          × IsRows (get_elem? feats) lvid n output output'
    unfolding copy_rows
    copy_rows-IsRows feats zero lvid output a b =
        (output, refl, IsRows-zero (get_elem? feats) lvid output)
    copy_rows-IsRows feats (suc n) lvid output a b =
        let (row, e) = get_elem?-lt feats lvid (omega (arith, b)) in
        let lt : ltb lvid (length output) ≡ true = ground (arith, a) in
        let (output', p, v) =
          copy_rows-IsRows feats n (lvid + 1) (set output lvid row)
            (omega (arith, a, length-set output lvid row)) (omega (arith, b)) in
        (
          output',
          rw (e, lt) p,
          IsRows-suc (get_elem? feats) lvid n output output' row (omega (arith, a)) e v,
        )

    -- From rows that are known before, and rows that are known to come of them.
    pub for_rows-IsRows :
        (step : ℕ → List A → Option (List A)) (before after : ℕ → Option (List A)) (n lvid : ℕ)
        (output : List (List A))
        → lvid + n ≤ length output
        → ((k : ℕ) → lvid ≤ k → k < lvid + n → get_elem? output k ≡ before k)
        → ((k : ℕ)
            → lvid ≤ k
            → k < lvid + n
            → (row : List A) × (row' : List A) × (before k ≡ some row)
              × (step k row ≡ some row')
              × (after k ≡ some row'))
        → (output' : List (List A)) × (for_rows plus times step n lvid output ≡ some output')
          × IsRows after lvid n output output'
    unfolding for_rows
    for_rows-IsRows step before after zero lvid output fits old h =
        (output, refl, IsRows-zero after lvid output)
    for_rows-IsRows step before after (suc n) lvid output fits old h =
        let (row, row', e, f, g) = h lvid (omega arith) (omega arith) in
        let here : get_elem? output lvid ≡ some row = old lvid (omega arith) (omega arith) ∙ e in
        let (output', p, v) =
          for_rows-IsRows step before after n (lvid + 1) (set output lvid row')
            (omega (arith, fits, length-set output lvid row'))
            (λ k x y.
              get_elem?-set_ne output {i = lvid} {j = k} row' (λ q. absurd (omega (arith, q, x)))
              ∙ old k (omega (arith, x)) (omega (arith, y)))
            (λ k x y. h k (omega (arith, x)) (omega (arith, y))) in
        (
          output',
          rw (here, f) p,
          IsRows-suc after lvid n output output' row' (omega (arith, fits)) g v,
        )
