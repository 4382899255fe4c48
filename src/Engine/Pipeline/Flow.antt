-- ===== src/Engine/Pipeline/Flow.antt =====
-- The chunks of the engine, which gathering, applying vertices and scattering only move.
use dorylus.Prelude.{
  ℕ, ◌+◌, ◌≡◌, refl, ap, List, [], ◌∷◌, Option, none, some, true, arith, ◌==◌, if◌then◌else◌,
}
use dorylus.Chunk.{Chunk, backward}
use dorylus.NodeManager.Message.{NodeMessage}
use dorylus.NodeManager.{barrier, Receipt, fault, waits, returns}
use dorylus.Engine.Layers.{inc_layer_gcn, inc_layer_gat}
use dorylus.Engine.Pipeline.Defs.{
  Engine, push, gather_chunk, gather_work, inc_layer, apply_vertex, apply_vertex_work, unstash,
  release, scatter_chunk, scatter_top, scatter_work,
}

-- How many chunks of a list have the local id `i`.
abbrev pub has : ℕ → Chunk → ℕ
has i c = if c.local_id == i then 1 else 0

abbrev pub holds : ℕ → List Chunk → ℕ
holds i [] = 0
holds i (c ∷ q) = has i c + holds i q

-- How many chunks of the whole engine have it.
abbrev pub chunks : ℕ → Engine → ℕ
chunks i e =
    holds i e.scheduler.queue
    + holds i e.ga_queue
    + holds i e.av_queue
    + holds i e.sc_queue
    + holds i e.sc_stash_queue
    + holds i e.ae_queue
    + holds i e.computing

pub holds-push : (i : ℕ) (c : Chunk) (q : List Chunk) → holds i (push c q) ≡ has i c + holds i q
unfolding push
holds-push i c [] = refl
holds-push i c (d ∷ q) = ground (arith, holds-push i c q)

holds-unstash : (i : ℕ) (s q : List Chunk) → holds i (unstash s q) ≡ holds i s + holds i q
unfolding unstash
holds-unstash i [] q = omega arith
holds-unstash i (c ∷ s) q = omega (arith, holds-unstash i s (push c q), holds-push i c q)

inc_layer-local_id : (c : Chunk) (e : Engine) → (inc_layer c e).local_id ≡ c.local_id
unfolding inc_layer inc_layer_gcn inc_layer_gat
inc_layer-local_id c e = ground arith

pub has-inc_layer : (i : ℕ) (c : Chunk) (e : Engine) → has i (inc_layer c e) ≡ has i c
has-inc_layer i c e = ap (λ n. if n == i then 1 else 0) (inc_layer-local_id c e)

module _ (i : ℕ) where
  chunks-gather_chunk :
      (c : Chunk) (e : Engine) → chunks i (gather_chunk c e) ≡ has i c + chunks i e
  unfolding gather_chunk
  chunks-gather_chunk c e =
      ground
        (arith, holds-push i c e.av_queue, holds-push i (record c { dir = backward }) e.sc_queue)

  pub chunks-gather_work : (e : Engine) → chunks i (gather_work e) ≡ chunks i e
  unfolding gather_work
  chunks-gather_work e = by_queue e.ga_queue refl
    where
      by_queue : (q : List Chunk) → e.ga_queue ≡ q → chunks i (gather_work e) ≡ chunks i e
      by_queue [] h = ground (arith, h)
      by_queue (c ∷ rest) h =
          ground (arith, h, chunks-gather_chunk c (record e { ga_queue = rest }))

  chunks-apply_vertex :
      (c : Chunk) (e : Engine) → chunks i (apply_vertex c e) ≡ has i c + chunks i e
  unfolding apply_vertex
  chunks-apply_vertex c e = ground (arith, has-inc_layer i (record c { vertex = true }) e)

  pub chunks-apply_vertex_work : (e : Engine) → chunks i (apply_vertex_work e) ≡ chunks i e
  unfolding apply_vertex_work
  chunks-apply_vertex_work e = by_queue e.av_queue refl
    where
      by_queue : (q : List Chunk) → e.av_queue ≡ q → chunks i (apply_vertex_work e) ≡ chunks i e
      by_queue [] h = ground (arith, h)
      by_queue (c ∷ rest) h =
          ground (arith, h, chunks-apply_vertex c (record e { av_queue = rest }))

  chunks-scatter_chunk :
      (batches : Chunk → ℕ) (c : Chunk) (e : Engine)
      → chunks i (scatter_chunk batches c e) ≡ has i c + chunks i e
  unfolding scatter_chunk
  chunks-scatter_chunk batches c e =
      ground (arith, holds-push i c e.sc_stash_queue, holds-push i c e.ae_queue)

  chunks-scatter_top :
      (batches : Chunk → ℕ) (e : Engine) → chunks i (scatter_top batches e) ≡ chunks i e
  unfolding scatter_top
  chunks-scatter_top batches e = by_queue e.sc_queue refl
    where
      by_queue : (q : List Chunk) → e.sc_queue ≡ q → chunks i (scatter_top batches e) ≡ chunks i e
      by_queue [] h = ground (arith, h)
      by_queue (c ∷ rest) h =
          ground (arith, h, chunks-scatter_chunk batches c (record e { sc_queue = rest }))

  chunks-release :
      (ms : List NodeMessage) (e : Engine) {e' : Engine}
      → release ms e ≡ some e'
      → chunks i e' ≡ chunks i e
  unfolding release
  chunks-release ms e {e'} h = by_barrier (barrier ms e.node_manager) refl
    where
      by_barrier :
          (r : Receipt (Unit {0})) → barrier ms e.node_manager ≡ r → chunks i e' ≡ chunks i e
      by_barrier fault b = ground (arith, h, b)
      by_barrier (waits p) b = ground (arith, h, b)
      by_barrier (returns u p rest) b =
          ground (arith, h, b, holds-unstash i e.sc_stash_queue e.ae_queue)

  pub chunks-scatter_work :
      (batches : Chunk → ℕ) (tid : ℕ) (ms : List NodeMessage) (e : Engine) {e' : Engine}
      → scatter_work batches tid ms e ≡ some e'
      → chunks i e' ≡ chunks i e
  unfolding scatter_work
  chunks-scatter_work batches tid ms e {e'} h = by_release (release ms e) refl
    where
      by_release : (r : Option Engine) → release ms e ≡ r → chunks i e' ≡ chunks i e
      by_release none b = ground (arith, h, b, chunks-scatter_top batches e)
      by_release (some e1) b = ground (
        arith,
        h,
        b,
        chunks-scatter_top batches e,
        chunks-scatter_top batches e1,
        chunks-release ms e b,
      )
