-- ===== src/Server/Report/Complete.antt =====
-- A complete round of a server that is not the master.
use dorylus.Prelude.{ℕ, ◌≡◌, ◌≢◌, List, [], ◌∷◌, none, sub32}
use dorylus.Prelude.Map.{Map, find, insert, nat_order}
use dorylus.Chunk.{Chunk}
use dorylus.Weights.Float.{Float}
use dorylus.Server.Report.Defs.{AccLoss, Server, Event, eval}

-- A report of a lambda: the chunk, its accuracy and its loss.
abbrev pub Report : Type 0 → Type 0
Report A = Chunk × A × A

module _ {A : Type 0} where
  abbrev pub evals : List (Report A) → List (Event A)
  evals [] = []
  evals ((c, acc, loss) ∷ rs) = eval c acc loss ∷ evals rs

  -- The chunk's report is not in the list.
  abbrev pub Absent : ℕ → List (Report A) → Type 0
  Absent id [] = Unit {0}
  Absent id ((c, acc, loss) ∷ rs) = (id ≢ c.global_id) × Absent id rs

  abbrev pub Distinct : List (Report A) → Type 0
  Distinct [] = Unit {0}
  Distinct ((c, acc, loss) ∷ rs) = Absent c.global_id rs × Distinct rs

  abbrev entry : (ℕ → ℕ) → Report A → AccLoss A
  entry val_size (c, acc, loss) = record {
    epoch = c.epoch;
    vtcs_cnt = val_size (sub32 c.up_bound c.low_bound);
    acc = acc;
    loss = loss;
  }

  -- The reports, entered one after the other.
  abbrev pub enter : (ℕ → ℕ) → List (Report A) → Map ℕ (AccLoss A) → Map ℕ (AccLoss A)
  enter val_size [] t = t
  enter val_size (r ∷ rs) t = enter val_size rs (insert r.0.global_id (entry val_size r) t)

  abbrev New : List (Report A) → Map ℕ (AccLoss A) → Type 0
  New [] t = Unit {0}
  New (r ∷ rs) t = (find r.0.global_id t ≡ none) × New rs t
