-- ===== src/Server/Report/Rounds.antt =====
-- The rounds of the reports: the tables stay open, and a round of reports from as many distinct
-- chunks as there are lambdas is summed up once.
use dorylus.Prelude.{
  ℕ, ◌<◌, ◌≡◌, List, [], ◌∷◌, arith, ltb, ◌==◌, Option-cases, Bool-cases, inl, inr, sub32, subst,
  sym,
}
use dorylus.Prelude.Map.{
  Map, find, insert, size, IsSorted, nat_order, insert-IsSorted, size-insert_old,
}
use dorylus.Chunk.{Chunk}
use dorylus.Weights.Float.{Float}
use dorylus.Server.Report.Defs.{
  AccLoss, Server, Event, eval, acc_loss, info, try_early_stop, update_global_acc_loss,
  update_local_acc_loss, receive_acc_loss, set_num_lambdas, clear_acc_loss, handle, handle_all,
  total, mean,
}

-- A round is under way: neither table has all the reports it waits for.
pub record IsOpen {A : Type 0} (s : Server A) : Type 0 where
  pub sorted : IsSorted s.acc_loss_table
  pub ws_sorted : IsSorted s.ws_acc_table
  pub chunks_wait : size s.acc_loss_table < s.num_lambdas
  pub nodes_wait : size s.ws_acc_table < s.num_node

-- The number of lambdas that a graph server announces is not 0.
abbrev pub EventFits : {A : Type 0} → Event A → Type 0
EventFits (info n) = 0 < n
EventFits _ = Unit {0}

abbrev pub AllEvents : {A : Type 0} → List (Event A) → Type 0
AllEvents [] = Unit {0}
AllEvents (e ∷ es) = EventFits e × AllEvents es

module _ {A : Type 0} ⦃f : Float A⦄ where
  same_tables :
      (a : AccLoss A) (s : Server A)
      → ((try_early_stop a s).0.acc_loss_table ≡ s.acc_loss_table)
        × ((try_early_stop a s).0.ws_acc_table ≡ s.ws_acc_table)
        × ((try_early_stop a s).0.num_lambdas ≡ s.num_lambdas)
        × ((try_early_stop a s).0.num_node ≡ s.num_node)
  unfolding try_early_stop
  same_tables a s = (ground arith, ground arith, ground arith, ground arith)

  stop-IsOpen : (a : AccLoss A) (s : Server A) → IsOpen s → IsOpen (try_early_stop a s).0
  stop-IsOpen a s o =
      let e = same_tables a s in
      record {
        sorted = subst IsSorted (sym e.0) o.sorted;
        ws_sorted = subst IsSorted (sym e.1) o.ws_sorted;
        chunks_wait = ground (arith, o.chunks_wait, e);
        nodes_wait = ground (arith, o.nodes_wait, e);
      }

  set_nodes-IsOpen :
      (s : Server A) (t : Map ℕ (AccLoss A))
      → IsOpen s
      → IsSorted t
      → size t < s.num_node
      → IsOpen (record s { ws_acc_table = t })
  set_nodes-IsOpen s t o so lt = record {
    sorted = o.sorted;
    ws_sorted = so;
    chunks_wait = o.chunks_wait;
    nodes_wait = lt;
  }

  set_chunks-IsOpen :
      (s : Server A) (t : Map ℕ (AccLoss A))
      → IsOpen s
      → IsSorted t
      → size t < s.num_lambdas
      → IsOpen (record s { acc_loss_table = t })
  set_chunks-IsOpen s t o so lt = record {
    sorted = so;
    ws_sorted = o.ws_sorted;
    chunks_wait = lt;
    nodes_wait = o.nodes_wait;
  }

  to : (s s' : Server A) → s ≡ s' → IsOpen s' → IsOpen s
  to s s' e o = subst IsOpen (sym e) o

  empty_small : (t : Map ℕ (AccLoss A)) (n : ℕ) → size t < n → size {K = ℕ} {V = AccLoss A} [] < n
  unfolding size
  empty_small t n lt = omega arith

  global-IsOpen :
      (node : ℕ) (a : AccLoss A) (s : Server A)
      → IsOpen s
      → IsOpen (update_global_acc_loss node a s).0
  unfolding update_global_acc_loss
  global-IsOpen node a s o =
      let t = insert node a s.ws_acc_table in
      let so = insert-IsSorted node a s.ws_acc_table o.ws_sorted in
      elim (Option-cases (find node s.ws_acc_table)) [
        | inl new ↦ elim (Bool-cases (ltb (size t) s.num_node)) [
          | inl wait ↦
              to _ (record s { ws_acc_table = t }) (ground (arith, new, wait))
                (set_nodes-IsOpen s t o so (ground (arith, wait)))
          | inr full ↦
              to _ (try_early_stop (mean (total t)) (record s { ws_acc_table = [] })).0
                (ground (arith, new, full))
                (stop-IsOpen (mean (total t)) (record s { ws_acc_table = [] })
                  (set_nodes-IsOpen s [] o tt (empty_small s.ws_acc_table s.num_node o.nodes_wait)))
        ]
        | inr (old, e) ↦
            to _ (record s { ws_acc_table = t }) (ground (arith, e))
              (set_nodes-IsOpen s t o so (
                ground
                  (arith, size-insert_old node old a s.ws_acc_table o.ws_sorted e, o.nodes_wait)))
      ]

  local-IsOpen :
      (val_size : ℕ → ℕ) (c : Chunk) (acc loss : A) (s : Server A)
      → IsOpen s
      → IsOpen (update_local_acc_loss val_size c acc loss s).0
  unfolding update_local_acc_loss
  local-IsOpen val_size c acc loss s o =
      let a : AccLoss A = record {
        epoch = c.epoch;
        vtcs_cnt = val_size (sub32 c.up_bound c.low_bound);
        acc = acc;
        loss = loss;
      } in
      let t = insert c.global_id a s.acc_loss_table in
      let so = insert-IsSorted c.global_id a s.acc_loss_table o.sorted in
      let empty =
        set_chunks-IsOpen s [] o tt (empty_small s.acc_loss_table s.num_lambdas o.chunks_wait) in
      elim (Option-cases (find c.global_id s.acc_loss_table)) [
        | inl new ↦ elim (Bool-cases (ltb (size t) s.num_lambdas)) [
          | inl wait ↦
              to _ (record s { acc_loss_table = t }) (ground (arith, new, wait))
                (set_chunks-IsOpen s t o so (ground (arith, wait)))
          | inr full ↦ elim (Bool-cases (s.node_id == 0)) [
            | inl master ↦
                to _
                  (update_global_acc_loss s.node_id (total t) (record s { acc_loss_table = [] })).0
                  (ground (arith, new, full, master))
                  (global-IsOpen s.node_id (total t) (record s { acc_loss_table = [] }) empty)
            | inr slave ↦
                to _ (record s { acc_loss_table = [] }) (ground (arith, new, full, slave)) empty
          ]
        ]
        | inr (old, e) ↦
            to _ (record s { acc_loss_table = t }) (ground (arith, e))
              (set_chunks-IsOpen s t o so (
                ground (
                  arith,
                  size-insert_old c.global_id old a s.acc_loss_table o.sorted e,
                  o.chunks_wait,
                )))
      ]

  handle-IsOpen :
      (val_size : ℕ → ℕ) (e : Event A) (s : Server A)
      → EventFits e
      → IsOpen s
      → IsOpen (handle val_size e s).0
  unfolding handle receive_acc_loss set_num_lambdas clear_acc_loss size
  handle-IsOpen val_size (eval c acc loss) s fits o = local-IsOpen val_size c acc loss s o
  handle-IsOpen val_size (acc_loss sender a) s fits o = elim (Bool-cases (s.node_id == 0)) [
    | inl master ↦
        to _ (update_global_acc_loss sender a s).0 (ground (arith, master))
          (global-IsOpen sender a s o)
    | inr slave ↦ to _ s (ground (arith, slave)) o
  ]
  handle-IsOpen val_size (info n) s fits o = record {
    sorted = tt;
    ws_sorted = tt;
    chunks_wait = fits;
    nodes_wait = omega (arith, o.nodes_wait);
  }

  -- Whatever reaches a server with an open round, no announced number of lambdas being 0, its round
  -- is open afterwards: the tables are sorted, and neither has as many reports as it waits for.
  pub handle_all-IsOpen :
      (val_size : ℕ → ℕ) (es : List (Event A)) (s : Server A)
      → AllEvents es
      → IsOpen s
      → IsOpen (handle_all val_size es s).0
  unfolding handle_all
  handle_all-IsOpen val_size [] s fits o = o
  handle_all-IsOpen val_size (e ∷ es) s fits o =
      handle_all-IsOpen val_size es (handle val_size e s).0 fits.1
        (handle-IsOpen val_size e s fits.0 o)
