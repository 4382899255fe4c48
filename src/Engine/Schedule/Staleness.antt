-- ===== src/Engine/Schedule/Staleness.antt =====
-- Bounded staleness.
use dorylus.Prelude.{
  ℕ, ◌+◌, ◌≤◌, ◌<◌, ◌≡◌, ◌⊎◌, refl, List, [], ◌∷◌, false, arith, add32-eq, u32_mod,
}
use dorylus.Chunk.{Chunk}
use dorylus.Engine.Schedule.Defs.{Pipeline, Nodes, start, admit, switch, finish, turn}

-- Epochs count from 1 where the others wait, and an asynchronous pipeline is ahead of the slowest
-- node by no more than the staleness.
abbrev pub InBound : Pipeline → Type 0
InBound p = (1 ≤ p.min_epoch) × ((p.async ≡ false) ⊎ (p.curr_epoch ≤ p.min_epoch + p.staleness))

-- No counter wraps in the next turn.
abbrev pub Small : Pipeline → Type 0
Small p =
    (p.min_epoch + p.staleness + 1 < u32_mod)
    × (p.curr_epoch + 1 < u32_mod)
    × (p.max_epoch + 1 < u32_mod)

module _ (nodes : Nodes) (tid : ℕ) (grows : (m : ℕ) → m ≤ nodes.read_epoch_updates m) where
  start-InBound :
      (c : Chunk) (rest : List Chunk) (p : Pipeline)
      → Small p
      → InBound p
      → p.curr_epoch < c.epoch
      → (p.async ≡ false) ⊎ (c.epoch ≤ p.min_epoch + p.staleness)
      → InBound (start c rest p).0
  unfolding start
  start-InBound c rest p small b new ok =
      ground (arith, add32-eq p.min_epoch 1, add32-eq p.curr_epoch 1)

  admit-InBound :
      (c : Chunk) (rest : List Chunk) (p : Pipeline)
      → Small p
      → InBound p
      → p.curr_epoch < c.epoch
      → InBound (admit nodes tid c rest p).0
  unfolding admit
  admit-InBound c rest p small b new = ground (
    arith,
    add32-eq p.min_epoch p.staleness,
    start-InBound c rest p small b new,
    grows p.min_epoch,
  )

  switch-InBound :
      (c : Chunk) (rest : List Chunk) (p : Pipeline)
      → Small p
      → InBound p
      → p.curr_epoch < c.epoch
      → InBound (switch nodes tid c rest p).0
  unfolding switch
  switch-InBound c rest p small b new =
      ground (arith, add32-eq p.max_epoch 1, admit-InBound c rest p small b new)

  finish-InBound :
      (c : Chunk) (rest : List Chunk) (p : Pipeline)
      → Small p
      → InBound p
      → p.curr_epoch < c.epoch
      → InBound (finish nodes tid c rest p).0
  unfolding finish
  finish-InBound c rest p small b new = ground (arith, switch-InBound c rest p small b new)

  -- A turn of the scheduler, while no counter wraps and `readEpochUpdates` never lowers the epoch of
  -- the slowest node, keeps an asynchronous pipeline no further ahead of that epoch than the
  -- staleness, and the epoch at least 1.
  pub turn-InBound : (p : Pipeline) → Small p → InBound p → InBound (turn nodes tid p).0
  unfolding turn
  turn-InBound p small b = by_queue p.queue refl
    where
      by_queue : (q : List Chunk) → p.queue ≡ q → InBound (turn nodes tid p).0
      by_queue [] e = ground (arith, e, b)
      by_queue (c ∷ rest) e = ground (arith, e, b, finish-InBound c rest p small b)
