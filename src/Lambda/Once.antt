-- ===== src/Lambda/Once.antt =====
-- However often a lambda is started again, its chunk is delivered once.
use dorylus.Prelude.{
  ℕ, suc, ◌+◌, ◌≤◌, ◌≡◌, ◌≢◌, refl, ◌∙◌, List, [], ◌∷◌, ◌++◌, Bool, true, false, none, some, arith,
  if◌then◌else◌, Option-cases, inl, inr,
}
use dorylus.Prelude.Map.{Map, find, same, same→eq, same_refl, find-insert, find-erase, nat_order}
use dorylus.Chunk.{Chunk, chunk_order}
use dorylus.Lambda.Defs.{
  LambdaComm, Timing, nn_compute, nn_recv, relaunch_lambda, relaunch_late, relaunch_turn, Event,
  compute, recv, tick, handle, handle_all, is_late,
}

-- How often a chunk stands in a list.
abbrev pub occurrences : Chunk → List Chunk → ℕ
occurrences c [] = 0
occurrences c (d ∷ ds) = if same d c then suc (occurrences c ds) else occurrences c ds

-- 1 while a lambda is out for the chunk.
abbrev pub pending : Chunk → LambdaComm → ℕ
pending c s = elim (find c s.timeout_table) [ none ↦ 0 | some t ↦ 1 ]

-- The deliveries of a chunk, with the one that is still to come.
abbrev pub balance : Chunk → LambdaComm → ℕ
balance c s = occurrences c s.delivered + pending c s

-- None of the events computes the chunk anew.
abbrev pub NoCompute : Chunk → List Event → Type 0
NoCompute c [] = Unit {0}
NoCompute c (compute now d ∷ es) = (d ≢ c) × NoCompute c es
NoCompute c (recv now d ∷ es) = NoCompute c es
NoCompute c (tick now ∷ es) = NoCompute c es

relaunch_lambda-keeps :
    (now : ℕ) (d c : Chunk) (s : LambdaComm)
    → ((relaunch_lambda now d s).delivered ≡ s.delivered)
      × (pending c (relaunch_lambda now d s) ≡ pending c s)
unfolding relaunch_lambda
relaunch_lambda-keeps now d c s = elim (Option-cases (find d s.timeout_table)) [
  | inl e ↦ (ground (arith, e), ground (arith, e))
  | inr (t, e) ↦
      (ground (arith, e), ground (arith, e, find-insert d c now s.timeout_table, same→eq d c))
]

-- Nothing is delivered twice or lost: the balance stays, and deliveries are never taken back.
abbrev pub Balanced : Chunk → LambdaComm → LambdaComm → Type 0
Balanced c s s' =
    (balance c s' ≡ balance c s) × (occurrences c s.delivered ≤ occurrences c s'.delivered)

Balanced-trans :
    (c : Chunk) (s s' s'' : LambdaComm) → Balanced c s s' → Balanced c s' s'' → Balanced c s s''
Balanced-trans c s s' s'' (e, l) (e', l') = (e' ∙ e, omega (arith, l, l'))

relaunch_lambda-Balanced :
    (now : ℕ) (d c : Chunk) (s : LambdaComm) → Balanced c s (relaunch_lambda now d s)
relaunch_lambda-Balanced now d c s = (
  ground (arith, relaunch_lambda-keeps now d c s),
  ground (arith, relaunch_lambda-keeps now d c s),
)

relaunch_if-Balanced :
    (late : Bool) (now : ℕ) (d c : Chunk) (s : LambdaComm)
    → Balanced c s (if late then relaunch_lambda now d s else s)
relaunch_if-Balanced true now d c s = relaunch_lambda-Balanced now d c s
relaunch_if-Balanced false now d c s = (refl, omega arith)

relaunch_late-Balanced :
    (timing : Timing) (now : ℕ) (entries : Map Chunk ℕ) (c : Chunk) (s : LambdaComm)
    → Balanced c s (relaunch_late timing now entries s)
unfolding relaunch_late
relaunch_late-Balanced timing now [] c s = (refl, omega arith)
relaunch_late-Balanced timing now ((d, t) ∷ entries) c s =
    let late = is_late timing now d t s.record_table in
    let s1 = if late then relaunch_lambda now d s else s in
    Balanced-trans c s s1 (relaunch_late timing now entries s1)
      (relaunch_if-Balanced late now d c s) (relaunch_late-Balanced timing now entries c s1)

nn_compute-Balanced :
    (now : ℕ) (d c : Chunk) (s : LambdaComm) → d ≢ c → Balanced c s (nn_compute now d s)
unfolding nn_compute
nn_compute-Balanced now d c s ne = elim (Option-cases (find d s.timeout_table)) [
  | inl e ↦
      (ground (arith, e, find-insert d c now s.timeout_table, same→eq d c, ne), ground (arith, e))
  | inr (t, e) ↦ (ground (arith, e), ground (arith, e))
]

nn_recv-Balanced :
    (timing : Timing) (now : ℕ) (d c : Chunk) (s : LambdaComm)
    → Balanced c s (nn_recv timing now d s).1
unfolding nn_recv
nn_recv-Balanced timing now d c s = elim (Option-cases (find d s.timeout_table)) [
  | inl e ↦ (ground (arith, e), ground (arith, e))
  | inr (t, e) ↦ (ground (arith, e, find-erase d c s.timeout_table, same→eq d c), ground (arith, e))
]

-- Along any events that do not compute a chunk anew, its deliveries and the one to come add up to
-- the same, and none is taken back.
pub handle_all-Balanced :
    (timing : Timing) (es : List Event) (c : Chunk) (s : LambdaComm)
    → NoCompute c es
    → Balanced c s (handle_all timing es s)
unfolding handle_all handle relaunch_turn
handle_all-Balanced timing [] c s fresh = (refl, omega arith)
handle_all-Balanced timing (compute now d ∷ es) c s fresh =
    Balanced-trans c s (nn_compute now d s) (handle_all timing es (nn_compute now d s))
      (nn_compute-Balanced now d c s fresh.0)
      (handle_all-Balanced timing es c (nn_compute now d s) fresh.1)
handle_all-Balanced timing (recv now d ∷ es) c s fresh =
    Balanced-trans c s (nn_recv timing now d s).1 (handle_all timing es (nn_recv timing now d s).1)
      (nn_recv-Balanced timing now d c s)
      (handle_all-Balanced timing es c (nn_recv timing now d s).1 fresh)
handle_all-Balanced timing (tick now ∷ es) c s fresh =
    Balanced-trans c s (relaunch_turn timing now s)
      (handle_all timing es (relaunch_turn timing now s))
      (relaunch_late-Balanced timing now s.timeout_table c s)
      (handle_all-Balanced timing es c (relaunch_turn timing now s) fresh)

handle_all-append :
    (timing : Timing) (es fs : List Event) (s : LambdaComm)
    → handle_all timing (es ++ fs) s ≡ handle_all timing fs (handle_all timing es s)
unfolding handle_all
handle_all-append timing [] fs s = refl
handle_all-append timing (e ∷ es) fs s = handle_all-append timing es fs (handle timing e s)

nn_recv-pending :
    (timing : Timing) (now : ℕ) (c : Chunk) (s : LambdaComm)
    → pending c (nn_recv timing now c s).1 ≡ 0
unfolding nn_recv
nn_recv-pending timing now c s = elim (Option-cases (find c s.timeout_table)) [
  | inl e ↦ ground (arith, e)
  | inr (t, e) ↦ ground (arith, e, find-erase c c s.timeout_table, same_refl c)
]

-- A chunk for which a lambda is out is delivered exactly once, if a result for it comes at all,
-- however many other results for it come before and after, and however often its lambda is started
-- again, as long as the chunk is not computed anew.
pub deliver_once :
    (timing : Timing) (es fs : List Event) (now : ℕ) (c : Chunk) (s : LambdaComm)
    → pending c s ≡ 1
    → NoCompute c es
    → NoCompute c fs
    → occurrences c (handle_all timing (es ++ (recv now c ∷ fs)) s).delivered
      ≡ occurrences c s.delivered + 1
deliver_once timing es fs now c s out before after =
    let s1 = handle_all timing es s in
    let s2 = (nn_recv timing now c s1).1 in
    let (e1, l1) = handle_all-Balanced timing es c s before in
    let (e2, l2) = nn_recv-Balanced timing now c c s1 in
    let (e3, l3) = handle_all-Balanced timing fs c s2 after in
    let z = nn_recv-pending timing now c s1 in
    rw (handle_all-append timing es (recv now c ∷ fs) s)
      (unfold handle_all handle in omega (arith, e1, e2, e3, l3, z, out))
