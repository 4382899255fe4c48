-- ===== src/Server/Report/Defs.antt =====
-- What a weight server does with the accuracy and loss that its lambdas, and the other servers,
-- report: `updateLocalAccLoss`, `updateGlobalAccLoss`, `tryEarlyStop` and `clearAccLoss`. The log is
-- left out; the messages that are sent are returned.
use dorylus.Prelude.{
  ℕ, zero, suc, ◌+◌, List, [], ◌∷◌, ◌++◌, none, some, ltb, ◌==◌, if◌then◌else◌, add32, sub32,
}
use dorylus.Prelude.Map.{Map, find, insert, size, nat_order}
use dorylus.Chunk.{Chunk}
use dorylus.Weights.Float.{Float}

-- `CONVERGE_STATE`, as far as the server uses it, and its values.
pub data Converge : Type 0 where
  early close done : Converge

abbrev pub rank : Converge → ℕ
rank early = 0
rank close = 1
rank done = 2

pub record AccLoss (A : Type 0) : Type 0 where
  pub epoch : ℕ
  pub vtcs_cnt : ℕ
  pub acc : A
  pub loss : A

-- The members of `WeightServer` that the reports use. `gsockets` is the number of the sockets.
pub record Server (A : Type 0) : Type 0 where
  pub node_id : ℕ
  pub num_node : ℕ
  pub num_lambdas : ℕ
  pub target_acc : A
  pub switch_threshold : A
  pub converge_state : Converge
  pub acc_loss_table : Map ℕ (AccLoss A)
  pub ws_acc_table : Map ℕ (AccLoss A)
  pub gsockets : ℕ

-- What is sent: `TERM` to a graph server's socket, or a partial sum to the master.
pub data Message (A : Type 0) : Type 0 where
  term : ℕ → Converge → Message A
  partial_sum : AccLoss A → Message A

module _ {A : Type 0} where
  -- The loop over `gsockets`.
  unfoldable pub broadcast : ℕ → ℕ → Converge → List (Message A)
  broadcast i zero c = []
  broadcast i (suc n) c = term i c ∷ broadcast (i + 1) n c

  unfoldable pub clear_acc_loss : Server A → Server A
  clear_acc_loss s = record s { acc_loss_table = []; ws_acc_table = [] }

module _ {A : Type 0} ⦃f : Float A⦄ where
  unfoldable pub classify : A → Server A → Converge
  classify acc s =
      if f.le s.target_acc acc
      then done
      else if f.le (f.sub s.target_acc s.switch_threshold) acc
      then close
      else early

  unfoldable pub try_early_stop : AccLoss A → Server A → Server A × List (Message A)
  try_early_stop a s =
      let c = classify a.acc s in
      if ltb (rank s.converge_state) (rank c)
      then (record s { converge_state = c }, broadcast 0 s.gsockets c)
      else (s, [])

  -- The loops over the two tables, from `AccLoss alSum`.
  unfoldable pub sum_table : Map ℕ (AccLoss A) → AccLoss A → AccLoss A
  sum_table [] a = a
  sum_table ((k, v) ∷ t) a = sum_table t (record {
    epoch = if ltb a.epoch v.epoch then v.epoch else a.epoch;
    vtcs_cnt = add32 a.vtcs_cnt v.vtcs_cnt;
    acc = f.add a.acc v.acc;
    loss = f.add a.loss v.loss;
  })

  unfoldable pub total : Map ℕ (AccLoss A) → AccLoss A
  total t = sum_table t (record { epoch = 0; vtcs_cnt = 0; acc = f.zero; loss = f.zero })

  unfoldable pub mean : AccLoss A → AccLoss A
  mean sum =
      let n = f.of_unsigned sum.vtcs_cnt in
      record sum { acc = f.div sum.acc n; loss = f.div sum.loss n }

  unfoldable pub update_global_acc_loss : ℕ → AccLoss A → Server A → Server A × List (Message A)
  update_global_acc_loss node a s =
      let table = insert node a s.ws_acc_table in
      elim (find node s.ws_acc_table) [
        | some old ↦ (record s { ws_acc_table = table }, [])
        | none ↦
            if ltb (size table) s.num_node
            then (record s { ws_acc_table = table }, [])
            else try_early_stop (mean (total table)) (record s { ws_acc_table = [] })
      ]

  -- `val_size` is `(unsigned) (n * VAL_PORTION)`.
  unfoldable pub update_local_acc_loss :
      (ℕ → ℕ) → Chunk → A → A → Server A → Server A × List (Message A)
  update_local_acc_loss val_size c acc loss s =
      let a : AccLoss A = record {
        epoch = c.epoch;
        vtcs_cnt = val_size (sub32 c.up_bound c.low_bound);
        acc = acc;
        loss = loss;
      } in
      let table = insert c.global_id a s.acc_loss_table in
      elim (find c.global_id s.acc_loss_table) [
        | some old ↦ (record s { acc_loss_table = table }, [])
        | none ↦
            if ltb (size table) s.num_lambdas
            then (record s { acc_loss_table = table }, [])
            else if s.node_id == 0
            then update_global_acc_loss s.node_id (total table) (record s { acc_loss_table = [] })
            else (record s { acc_loss_table = [] }, partial_sum (total table) ∷ [])
      ]

  -- `receiver`, on a message of topic `ACCLOSS`.
  unfoldable pub receive_acc_loss : ℕ → AccLoss A → Server A → Server A × List (Message A)
  receive_acc_loss sender a s =
      if s.node_id == 0 then update_global_acc_loss sender a s else (s, [])

  -- `ServerWorker::setNumLambdas`, as far as the reports are concerned.
  unfoldable pub set_num_lambdas : ℕ → Server A → Server A
  set_num_lambdas n s = clear_acc_loss (record s { num_lambdas = n })

-- What reaches the server.
pub data Event (A : Type 0) : Type 0 where
  eval : Chunk → A → A → Event A
  acc_loss : ℕ → AccLoss A → Event A
  info : ℕ → Event A

module _ {A : Type 0} ⦃f : Float A⦄ where
  unfoldable pub handle : (ℕ → ℕ) → Event A → Server A → Server A × List (Message A)
  handle val_size (eval c acc loss) s = update_local_acc_loss val_size c acc loss s
  handle val_size (acc_loss sender a) s = receive_acc_loss sender a s
  handle val_size (info n) s = (set_num_lambdas n s, [])

  unfoldable pub handle_all : (ℕ → ℕ) → List (Event A) → Server A → Server A × List (Message A)
  handle_all val_size [] s = (s, [])
  handle_all val_size (e ∷ es) s =
      let (s1, ms) = handle val_size e s in
      let (s2, ms') = handle_all val_size es s1 in (s2, ms ++ ms')
