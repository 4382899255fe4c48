-- ===== src/Graph/Columns.antt =====
-- What the compressed matrices hold: the edges of a vertex stand between its pointer and the next.
use dorylus.Prelude.{
  ℕ, suc, ◌+◌, ◌≤◌, ◌≡◌, refl, subst, sym, ap, ◌∙◌, List, [], ◌∷◌, ◌++◌, map, Option, some, arith,
  get_elem?, set, length, length-append, drop,
}
use mathlib.Core.List.{append_assoc}
use dorylus.Graph.Defs.{Edge, Vertex, RawGraph, get_vertex}
use dorylus.Graph.Compress.{store, Arrays, fill, compress}

store_at :
    {B : Type 0} (ws r : List B) (a b : B) → store (length ws) a (ws ++ b ∷ r) ≡ some (ws ++ a ∷ r)
unfolding store
store_at {B} ws r a b = ground (arith, set_at ws r a b, length-append ws (b ∷ r))
  where
    set_at : {B : Type 0} (ws r : List B) (a b : B) → set (ws ++ b ∷ r) (length ws) a ≡ ws ++ a ∷ r
    set_at [] r a b = refl
    set_at (w ∷ ws) r a b = ap (λ l. w ∷ l) (set_at ws r a b)

pub length-map : {B C : Type 0} (h : B → C) (xs : List B) → length (map h xs) ≡ length xs
length-map h [] = refl
length-map h (x ∷ xs) = ap suc (length-map h xs)

module _ {A : Type 0} where
  abbrev pub arrays : ℕ → List ℕ → List A → List ℕ → Arrays A
  arrays n ps vs is = record { edg_itr = n; ptrs = ps; values = vs; idxs = is }

  pub arrays_eq :
      {n n' : ℕ} {vs vs' : List A} {is is' : List ℕ} (ps : List ℕ)
      → n ≡ n'
      → vs ≡ vs'
      → is ≡ is'
      → arrays n ps vs is ≡ arrays n' ps vs' is'
  arrays_eq ps p q r = cc

pub arrays4_eq :
    {A : Type 0} (n : ℕ) {ps ps' : List ℕ} {vs vs' : List A} {is is' : List ℕ}
    → ps ≡ ps'
    → vs ≡ vs'
    → is ≡ is'
    → arrays n ps vs is ≡ arrays n ps' vs' is'
arrays4_eq n p q r = cc

pub snoc-append : {B : Type 0} (ws r : List B) (a : B) → ws ++ a ∷ r ≡ (ws ++ a ∷ []) ++ r
snoc-append ws r a = sym (append_assoc ws (a ∷ []) r)

module _ {A : Type 0} (f : Edge A → Option ℕ) where
  fill_cons :
      (e : Edge A) (es : List (Edge A)) (i b_id : ℕ) (ps : List ℕ) (ws r : List A) (b : A)
      (is ri : List ℕ)
      → f e ≡ some i
      → length is ≡ length ws
      → fill f (e ∷ es) (arrays (length ws) ps (ws ++ b ∷ r) (is ++ b_id ∷ ri))
        ≡ fill f es (
            arrays
              (length (ws ++ e.edge_data ∷ []))
              ps
              ((ws ++ e.edge_data ∷ []) ++ r)
              ((is ++ i ∷ []) ++ ri))
  unfolding fill
  fill_cons e es i b_id ps ws r b is ri q l =
      let st : store (length ws) i (is ++ b_id ∷ ri) ≡ some (is ++ i ∷ ri) =
        subst (λ n. store n i (is ++ b_id ∷ ri) ≡ some (is ++ i ∷ ri)) l (store_at is ri i b_id) in
      rw (store_at ws r e.edge_data b, q, st)
        (ap (fill f es) (
          arrays_eq ps (omega (arith, length-append ws (e.edge_data ∷ [])))
            (snoc-append ws r e.edge_data) (snoc-append is ri i)))

  fill-eq :
      (es : List (Edge A)) (ids : List ℕ) (ps : List ℕ) (ws r : List A) (is ri : List ℕ)
      → map some ids ≡ map f es
      → length is ≡ length ws
      → length es ≤ length r
      → length es ≤ length ri
      → fill f es (arrays (length ws) ps (ws ++ r) (is ++ ri))
        ≡ some (
            arrays
              (length ws + length es)
              ps
              (ws ++ (map (λ e. e.edge_data) es ++ drop (length es) r))
              (is ++ (ids ++ drop (length es) ri)))
  unfolding fill
  fill-eq [] [] ps ws r is ri m l lr lri = ap some (arrays_eq ps (omega arith) refl refl)
  fill-eq [] (i ∷ ids) ps ws r is ri m l lr lri = absurd (cc m)
  fill-eq (e ∷ es) [] ps ws r is ri m l lr lri = absurd (cc m)
  fill-eq (e ∷ es) (i ∷ ids) ps ws [] is ri m l lr lri = absurd (omega arith)
  fill-eq (e ∷ es) (i ∷ ids) ps ws (b ∷ r) is [] m l lr lri = absurd (omega arith)
  fill-eq (e ∷ es) (i ∷ ids) ps ws (b ∷ r) is (j ∷ ri) m l lr lri =
      let d = e.edge_data in
      fill_cons e es i j ps ws r b is ri (sym (cc m)) l
      ∙ fill-eq es ids ps (ws ++ d ∷ []) r (is ++ i ∷ []) ri (cc m)
          (omega (arith, length-append ws (d ∷ []), length-append is (i ∷ []))) (omega arith)
          (omega arith)
      ∙ ap some (
          arrays_eq ps (omega (arith, length-append ws (d ∷ [])))
            (sym (snoc-append ws (map (λ e. e.edge_data) es ++ drop (length es) r) d))
            (sym (snoc-append is (ids ++ drop (length es) ri) i)))

pub get_elem?_at :
    {B : Type 0} (ws r : List B) (a : B) → get_elem? (ws ++ a ∷ r) (length ws) ≡ some a
get_elem?_at [] r a = refl
get_elem?_at (w ∷ ws) r a = get_elem?_at ws r a

module _ {A : Type 0} (f : Edge A → Option ℕ) (edges : Vertex A → List (Edge A)) where
  abbrev pub all_edges : List (Vertex A) → List (Edge A)
  all_edges [] = []
  all_edges (v ∷ vs) = edges v ++ all_edges vs

  -- The other end of every edge has a local id.
  abbrev pub Resolved : List (Vertex A) → Type 0
  Resolved [] = Unit {0}
  Resolved (v ∷ vs) = ((ids : List ℕ) × (map some ids ≡ map f (edges v))) × Resolved vs

  abbrev pub ids_of : (vs : List (Vertex A)) → Resolved vs → List ℕ
  ids_of [] r = []
  ids_of (v ∷ vs) r = r.0.0 ++ ids_of vs r.1

  -- The pointers from `low` on.
  abbrev pub ptrs_of : ℕ → List (Vertex A) → List ℕ
  ptrs_of low [] = low ∷ []
  ptrs_of low (v ∷ vs) = low ∷ ptrs_of (low + length (edges v)) vs

  pub compress_cons :
      (g : RawGraph A) (v : Vertex A) (pre vs : List (Vertex A)) (n j : ℕ) (ps jp : List ℕ)
      (ws r : List A) (is ri ids : List ℕ)
      → g.vertices ≡ pre ++ v ∷ vs
      → length pre ≡ length ps
      → length is ≡ length ws
      → map some ids ≡ map f (edges v)
      → length (edges v) ≤ length r
      → length (edges v) ≤ length ri
      → let d = map (λ e. e.edge_data) (edges v) in
        compress g f edges
          (suc n)
          (length ps)
          (arrays (length ws) (ps ++ length ws ∷ j ∷ jp) (ws ++ r) (is ++ ri))
        ≡ compress g f edges n (length (ps ++ length ws ∷ [])) (
            arrays
              (length (ws ++ d))
              ((ps ++ length ws ∷ []) ++ length (ws ++ d) ∷ jp)
              ((ws ++ d) ++ drop (length (edges v)) r)
              ((is ++ ids) ++ drop (length (edges v)) ri))
  unfolding compress get_vertex
  compress_cons g v pre vs n j ps jp ws r is ri ids gv lp li m lr lri =
      let d = map (λ e. e.edge_data) (edges v) in
      let low = length ws in
      let at : get_elem? g.vertices (length ps) ≡ some v = rw (gv, ← lp) (get_elem?_at pre vs v) in
      let len : low + length (edges v) ≡ length (ws ++ d) =
        omega (arith, length-append ws d, length-map (λ e. e.edge_data) (edges v)) in
      let next : length ps + 1 ≡ length (ps ++ low ∷ []) =
        omega (arith, length-append ps (low ∷ [])) in
      let low_at : get_elem? (ps ++ low ∷ j ∷ jp) (length ps) ≡ some low =
        get_elem?_at ps (j ∷ jp) low in
      let st : store (length ps + 1) (low + length (edges v)) (ps ++ low ∷ j ∷ jp)
          ≡ some ((ps ++ low ∷ []) ++ length (ws ++ d) ∷ jp) =
        cc (
          len,
          next,
          snoc-append ps (j ∷ jp) low,
          store_at (ps ++ low ∷ []) jp (length (ws ++ d)) j,
        ) in
      rw
        (
          at,
          low_at,
          st,
          fill-eq f (edges v) ids ((ps ++ low ∷ []) ++ length (ws ++ d) ∷ jp) ws r is ri m li lr
              lri,
          next,
        )
        (ap (compress g f edges n (length (ps ++ low ∷ []))) (
          arrays_eq ((ps ++ low ∷ []) ++ length (ws ++ d) ∷ jp) len
            (sym (append_assoc ws d (drop (length (edges v)) r)))
            (sym (append_assoc is ids (drop (length (edges v)) ri)))))
