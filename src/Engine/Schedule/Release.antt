-- ===== src/Engine/Schedule/Release.antt =====
-- Which chunk a turn of the scheduler releases, and that none is lost.
use dorylus.Prelude.{ℕ, ◌+◌, ◌≤◌, ◌≡◌, ◌⊎◌, inl, refl, List, [], ◌∷◌, true, arith, add32-eq, length}
use dorylus.Chunk.{Chunk}
use dorylus.Engine.Schedule.Defs.{
  Pipeline, Nodes, Outcome, sleeps, turns, halts, gathers, applies_vertex, send, start, admit,
  switch, finish, turn,
}
use dorylus.Engine.Schedule.Staleness.{Small, InBound}

-- The chunk that a turn sends on, if it does, passes the test.
abbrev pub Sent : (Chunk → Type 0) → Outcome → Type 0
Sent P (gathers c) = P c
Sent P (applies_vertex c) = P c
Sent P _ = Unit {0}

-- What a turn may do to the queue: send its top on; clear it, with all chunks in it, and halt; or
-- leave it alone.
abbrev pub Accounts : Pipeline → Pipeline × Outcome → Type 0
Accounts p (p', o) =
    ((c : Chunk) × (p.queue ≡ c ∷ p'.queue) × (o ≡ send c p))
    ⊎ (((o ≡ halts) × (p'.queue ≡ []) × (p'.halt ≡ true) × (p.num_lambdas ≤ length p.queue))
        ⊎ ((p'.queue ≡ p.queue) × ((o ≡ sleeps) ⊎ (o ≡ turns))))

module _ (nodes : Nodes) (tid : ℕ) where
  start-Accounts :
      (c : Chunk) (rest : List Chunk) (p : Pipeline)
      → p.queue ≡ c ∷ rest
      → Accounts p (start c rest p)
  unfolding start
  start-Accounts c rest p e = inl (c, e, refl)

  admit-Accounts :
      (c : Chunk) (rest : List Chunk) (p : Pipeline)
      → p.queue ≡ c ∷ rest
      → Accounts p (admit nodes tid c rest p)
  unfolding admit
  admit-Accounts c rest p e = ground (arith, start-Accounts c rest p e)

  switch-Accounts :
      (c : Chunk) (rest : List Chunk) (p : Pipeline)
      → p.queue ≡ c ∷ rest
      → Accounts p (switch nodes tid c rest p)
  unfolding switch
  switch-Accounts c rest p e = ground (arith, admit-Accounts c rest p e)

  finish-Accounts :
      (c : Chunk) (rest : List Chunk) (p : Pipeline)
      → p.queue ≡ c ∷ rest
      → Accounts p (finish nodes tid c rest p)
  unfolding finish
  finish-Accounts c rest p e = ground (arith, switch-Accounts c rest p e)

  -- A turn sends the top of the queue on and takes it off the queue; or it halts the pipeline and
  -- clears the queue, which then has as many chunks as there are lambdas, or more; or it leaves the
  -- queue as it was and waits.
  pub turn-Accounts : (p : Pipeline) → Accounts p (turn nodes tid p)
  unfolding turn
  turn-Accounts p = by_queue p.queue refl
    where
      by_queue : (q : List Chunk) → p.queue ≡ q → Accounts p (turn nodes tid p)
      by_queue [] e = ground (arith, e)
      by_queue (c ∷ rest) e = ground (arith, e, finish-Accounts c rest p e)

  finish-Sent :
      (c : Chunk) (rest : List Chunk) (p : Pipeline)
      → Small p
      → p.async ≡ true
      → Sent (λ d. d.epoch ≤ p.min_epoch + p.staleness) (finish nodes tid c rest p).1
  unfolding finish switch admit start send
  finish-Sent c rest p small a = ground (arith, add32-eq p.min_epoch p.staleness)

  -- In an asynchronous pipeline that is in bound, a turn in which no counter wraps sends on only
  -- chunks whose epoch is ahead of the slowest node's by no more than the staleness.
  pub turn-Sent :
      (p : Pipeline)
      → Small p
      → InBound p
      → p.async ≡ true
      → Sent (λ d. d.epoch ≤ p.min_epoch + p.staleness) (turn nodes tid p).1
  unfolding turn send
  turn-Sent p small b a = by_queue p.queue refl
    where
      by_queue :
          (q : List Chunk)
          → p.queue ≡ q
          → Sent (λ d. d.epoch ≤ p.min_epoch + p.staleness) (turn nodes tid p).1
      by_queue [] e = ground (arith, e)
      by_queue (c ∷ rest) e = ground (arith, e, b, finish-Sent c rest p small a)
