-- ===== src/Engine/Pipeline/Return.antt =====
-- Applying edges, the callback and the scheduler move the chunks, too.
use dorylus.Prelude.{
  ℕ, zero, suc, ◌+◌, ◌≡◌, ◌⊎◌, inl, inr, refl, List, [], ◌∷◌, Option, none, some, true, false,
  arith, >>=-eq-some, add32, Option-cases, get_elem?, set, ◌%◌,
}
use dorylus.Chunk.{Chunk}
use dorylus.NodeManager.Message.{NodeMessage}
use dorylus.NodeManager.{read_epoch_updates, send_epoch_update}
use dorylus.Engine.Schedule.{Nodes, turn, send}
use dorylus.Engine.Schedule.Release.{Accounts, turn-Accounts}
use dorylus.Engine.Pipeline.Defs.{
  Engine, schedule_work, inc_layer, apply_edge, apply_edge_work, finish_epoch, finish_chunk,
  recv_vertex, nn_recv_callback, remove_at, receive,
}
use dorylus.Engine.Pipeline.Flow.{has, holds, chunks, holds-push, has-inc_layer}

module _ (i : ℕ) where
  chunks-apply_edge : (c : Chunk) (e : Engine) → chunks i (apply_edge c e) ≡ has i c + chunks i e
  unfolding apply_edge
  chunks-apply_edge c e = ground (arith, holds-push i (record c { vertex = false }) e.ga_queue)

  pub chunks-apply_edge_work : (e : Engine) → chunks i (apply_edge_work e) ≡ chunks i e
  unfolding apply_edge_work
  chunks-apply_edge_work e = by_queue e.ae_queue refl
    where
      by_queue : (q : List Chunk) → e.ae_queue ≡ q → chunks i (apply_edge_work e) ≡ chunks i e
      by_queue [] h = ground (arith, h)
      by_queue (c ∷ rest) h = ground (arith, h, chunks-apply_edge c (record e { ae_queue = rest }))

  chunks-finish_epoch :
      (ms : List NodeMessage) (epoch : ℕ) (e : Engine) {e' : Engine}
      → finish_epoch ms epoch e ≡ some e'
      → chunks i e' ≡ chunks i e
  unfolding finish_epoch
  chunks-finish_epoch ms epoch e h =
      let p = record e.node_manager { min_epoch = e.scheduler.min_epoch } in
      let (p1, q1, h1) = >>=-eq-some (read_epoch_updates ms p) _ h in
      let (p2, q2, h2) = >>=-eq-some (send_epoch_update epoch p1) _ h1 in ground (arith, h2)

  chunks-finish_chunk :
      (ms : List NodeMessage) (c : Chunk) (e : Engine) {e' : Engine}
      → finish_chunk ms c e ≡ some e'
      → chunks i e' ≡ chunks i e
  unfolding finish_chunk
  chunks-finish_chunk ms c e {e'} h = elim (Option-cases (get_elem? e.num_finished_epoch ind)) [
    | inl n ↦ ground (arith, h, n)
    | inr (n, q) ↦ ground (
      arith,
      h,
      q,
      chunks-finish_epoch ms c.epoch
          (record e { num_finished_epoch = set e.num_finished_epoch ind 0 }) {e' = e'},
    )
  ]
    where
      ind : ℕ
      ind = c.epoch % add32 e.scheduler.staleness 1

  chunks-recv_vertex :
      (ms : List NodeMessage) (c : Chunk) (e : Engine) {e' : Engine}
      → recv_vertex ms c e ≡ some e'
      → chunks i e' ≡ has i c + chunks i e
  unfolding recv_vertex
  chunks-recv_vertex ms c e {e'} h = by_finish (finish_chunk ms c e) refl
    where
      by_finish : (r : Option Engine) → finish_chunk ms c e ≡ r → chunks i e' ≡ has i c + chunks i e
      by_finish none b = ground (
        arith,
        h,
        b,
        holds-push i c e.sc_queue,
        holds-push i (inc_layer c e) e.sc_queue,
        has-inc_layer i c e,
      )
      by_finish (some e1) b = ground (
        arith,
        h,
        b,
        chunks-finish_chunk ms c e b,
        holds-push i c e.sc_queue,
        holds-push i (inc_layer c e) e.sc_queue,
        has-inc_layer i c e,
        holds-push i (inc_layer c e1) e1.scheduler.queue,
        has-inc_layer i c e1,
      )

  chunks-nn_recv_callback :
      (ms : List NodeMessage) (c : Chunk) (e : Engine) {e' : Engine}
      → nn_recv_callback ms c e ≡ some e'
      → chunks i e' ≡ has i c + chunks i e
  unfolding nn_recv_callback
  chunks-nn_recv_callback ms c e {e'} h =
      ground (arith, h, holds-push i c e.ga_queue, chunks-recv_vertex ms c e {e' = e'})

  holds-remove_at :
      (k : ℕ) (cs : List Chunk) {c : Chunk} {rest : List Chunk}
      → remove_at k cs ≡ some (c, rest)
      → holds i cs ≡ has i c + holds i rest
  unfolding remove_at
  holds-remove_at k [] h = absurd (cc h)
  holds-remove_at zero (d ∷ cs) {c} {rest} h = ground (arith, h)
  holds-remove_at (suc k) (d ∷ cs) {c} {rest} h =
      let ((c1, rest1), q, r) = >>=-eq-some (remove_at k cs) _ h in
      ground (arith, r, holds-remove_at k cs {c = c1} {rest = rest1} q)

  pub chunks-receive :
      (k : ℕ) (ms : List NodeMessage) (e : Engine) {e' : Engine}
      → receive k ms e ≡ some e'
      → chunks i e' ≡ chunks i e
  unfolding receive
  chunks-receive k ms e h =
      let ((c, rest), q, r) = >>=-eq-some (remove_at k e.computing) _ h in
      omega (
        arith,
        holds-remove_at k e.computing {c = c} {rest = rest} q,
        chunks-nn_recv_callback ms c (record e { computing = rest }) r,
      )

  pub chunks-schedule_work :
      (nodes : Nodes) (tid : ℕ) (e : Engine)
      → (chunks i (schedule_work nodes tid e) ≡ chunks i e)
        ⊎ ((schedule_work nodes tid e).scheduler.halt ≡ true)
  unfolding schedule_work send
  chunks-schedule_work nodes tid e = by_case (turn-Accounts nodes tid e.scheduler)
    where
      by_case :
          Accounts e.scheduler (turn nodes tid e.scheduler)
          → (chunks i (schedule_work nodes tid e) ≡ chunks i e)
            ⊎ ((schedule_work nodes tid e).scheduler.halt ≡ true)
      by_case (inl (c, q, o)) =
          inl (ground (arith, q, o, holds-push i c e.ga_queue, holds-push i c e.av_queue))
      by_case (inr (inl (o, q, h, n))) = inr (ground (arith, o, h))
      by_case (inr (inr (q, inl o))) = inl (ground (arith, q, o))
      by_case (inr (inr (q, inr o))) = inl (ground (arith, q, o))
