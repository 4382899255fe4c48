-- ===== src/Server/Updates/Handlers.antt =====
-- The handlers of an update, as what one thread does if no other comes between its calls.
use dorylus.Prelude.{ℕ, ◌≡◌, List, [], ◌∷◌, true, Option, none, some, arith}
use dorylus.Prelude.Map.{Order}
use dorylus.Chunk.{Chunk}
use dorylus.Weights.Float.{Float}
use dorylus.Server.Updates.Defs.{UpdateServer, Publication, receive_data, collect_ghost}
use dorylus.Server.Updates.Threads.{Threads, collected, checked, turn, turns}
use dorylus.Server.Updates.Rest.{threads}

module _ {K A : Type 0} where
  -- What a run leaves of the server, and what it publishes.
  abbrev pub handled :
      Option (Threads K A × List (Publication K A))
      → Option (UpdateServer K A × List (Publication K A))
  handled none = none
  handled (some (t, out)) = some (t.server, out)

module _ {K A : Type 0} ⦃o : Order K⦄ ⦃f : Float A⦄ where
  -- For an update of another server, the synchronous branch of `receiver`, likewise, leaves what the
  -- receiver leaves that adds and acknowledges it, and then, only if it completed the round, tries to
  -- apply.
  pub receive_data-turns :
      (sender layer : ℕ) (name : K) (upd : List A) (s : UpdateServer K A)
      → s.sync ≡ true
      → receive_data sender layer name upd s
        ≡ handled (turns layer name (collected sender upd ∷ checked ∷ []) (threads s 0 0 0))
  unfolding receive_data collect_ghost turns turn
  receive_data-turns sender layer name upd s synchronous = ground arith
