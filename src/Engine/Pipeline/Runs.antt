-- ===== src/Engine/Pipeline/Runs.antt =====
-- No chunk is lost on its way through the queues, and none is doubled.
use dorylus.Prelude.{
  ℕ, ◌≡◌, ◌⊎◌, inl, inr, sym, ap, ◌∙◌, List, [], ◌∷◌, Option, some, true, arith, if◌then◌else◌,
  ◌>>=◌, Bool-cases, Option-cases,
}
use dorylus.Chunk.{Chunk}
use dorylus.NodeManager.Message.{NodeMessage}
use dorylus.Engine.Schedule.{Nodes}
use dorylus.Engine.Pipeline.Defs.{
  Engine, schedule_work, gather_work, apply_vertex_work, scatter_work, apply_edge_work, receive,
}
use dorylus.Engine.Pipeline.Flow.{
  chunks, chunks-gather_work, chunks-apply_vertex_work, chunks-scatter_work,
}
use dorylus.Engine.Pipeline.Return.{chunks-apply_edge_work, chunks-receive, chunks-schedule_work}

-- A turn of one thread, with the messages that it reads, or the callback for a chunk.
pub data Work : Type 0 where
  schedules : ℕ → Work
  gathers_top applies_vertices applies_edges : Work
  scatters : ℕ → List NodeMessage → Work
  receives : ℕ → List NodeMessage → Work

module _ (nodes : Nodes) (batches : Chunk → ℕ) where
  unfoldable pub work : Work → Engine → Option Engine
  work (schedules tid) e = some (schedule_work nodes tid e)
  work gathers_top e = some (gather_work e)
  work applies_vertices e = some (apply_vertex_work e)
  work applies_edges e = some (apply_edge_work e)
  work (scatters tid ms) e = scatter_work batches tid ms e
  work (receives k ms) e = receive k ms e

  -- The turns of the threads in any order, until the pipeline halts.
  unfoldable pub work_all : List Work → Engine → Option Engine
  work_all [] e = some e
  work_all (w ∷ ws) e =
      let rest = work w e >>= λ e'. work_all ws e' in if e.scheduler.halt then some e else rest

  work-chunks :
      (i : ℕ) (w : Work) (e : Engine) {e' : Engine}
      → work w e ≡ some e'
      → (chunks i e' ≡ chunks i e) ⊎ (e'.scheduler.halt ≡ true)
  unfolding work
  work-chunks i (schedules tid) e {e'} h = ground (arith, h, chunks-schedule_work i nodes tid e)
  work-chunks i gathers_top e {e'} h = ground (arith, h, chunks-gather_work i e)
  work-chunks i applies_vertices e {e'} h = ground (arith, h, chunks-apply_vertex_work i e)
  work-chunks i applies_edges e {e'} h = ground (arith, h, chunks-apply_edge_work i e)
  work-chunks i (scatters tid ms) e h = inl (chunks-scatter_work i batches tid ms e h)
  work-chunks i (receives k ms) e h = inl (chunks-receive i k ms e h)

  -- Nothing happens in a pipeline that has halted.
  halted :
      (ws : List Work) (e : Engine) {e' : Engine}
      → e.scheduler.halt ≡ true
      → work_all ws e ≡ some e'
      → e' ≡ e
  unfolding work_all
  halted [] e {e'} o h = sym (cc h)
  halted (w ∷ ws) e {e'} o h = ground (arith, o, h)

  -- Whatever order the threads take their turns in, if none of these faults or waits for ever, the
  -- queues and the lambdas together have as many chunks of each local id as before, unless the
  -- pipeline has halted.
  pub work_all-chunks :
      (i : ℕ) (ws : List Work) (e : Engine) {e' : Engine}
      → work_all ws e ≡ some e'
      → (chunks i e' ≡ chunks i e) ⊎ (e'.scheduler.halt ≡ true)
  unfolding work_all
  work_all-chunks i [] e {e'} h = ground (arith, h)
  work_all-chunks i (w ∷ ws) e {e'} h = elim (Bool-cases e.scheduler.halt) [
    | inl over ↦ ground (arith, h, over)
    | inr on ↦ elim (Option-cases (work w e)) [
      | inl fails ↦ ground (arith, h, on, fails)
      | inr (e1, q) ↦
          let r : work_all ws e1 ≡ some e' = ground (arith, h, on, q) in
          after e1 r (work-chunks i w e q) (work_all-chunks i ws e1 r)
    ]
  ]
    where
      after :
          (e1 : Engine)
          → work_all ws e1 ≡ some e'
          → (chunks i e1 ≡ chunks i e) ⊎ (e1.scheduler.halt ≡ true)
          → (chunks i e' ≡ chunks i e1) ⊎ (e'.scheduler.halt ≡ true)
          → (chunks i e' ≡ chunks i e) ⊎ (e'.scheduler.halt ≡ true)
      after e1 r (inl p) (inl q) = inl (q ∙ p)
      after e1 r (inl p) (inr o) = inr o
      after e1 r (inr o) q = inr (ap (λ d. d.scheduler.halt) (halted ws e1 o r) ∙ o)
