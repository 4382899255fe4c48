-- ===== src/Server/Report/Stop.antt =====
-- The early stop: the state only rises, and no graph server is told more often than it rises.
use dorylus.Prelude.{
  ℕ, zero, suc, ◌+◌, ◌*◌, ◌≤◌, ◌<◌, ◌≡◌, refl, sym, subst, ap, ◌∙◌, ◌-◌, Bool-cases, sub32, List,
  [], ◌∷◌, ◌++◌, arith, ltb, ◌==◌, Option-cases, inl, inr,
}
use dorylus.Prelude.Map.{find, insert, size, nat_order}
use dorylus.Chunk.{Chunk}
use dorylus.Weights.Float.{Float}
use dorylus.Server.Report.Defs.{
  Converge, early, close, done, rank, AccLoss, Server, Message, term, partial_sum, Event, eval,
  acc_loss, info, broadcast, classify, try_early_stop, update_global_acc_loss,
  update_local_acc_loss, receive_acc_loss, set_num_lambdas, clear_acc_loss, handle, handle_all,
  total, mean,
}

-- How many of the messages tell a graph server to change its state.
abbrev pub terms : {A : Type 0} → List (Message A) → ℕ
terms [] = 0
terms (term i c ∷ ms) = suc (terms ms)
terms (partial_sum a ∷ ms) = terms ms

-- What a call leaves alone, and how far it may go.
pub record Rises {A : Type 0} (s : Server A) (s' : Server A) (ms : List (Message A)) : Type 0 where
  pub same_sockets : s'.gsockets ≡ s.gsockets
  pub rank_le : rank s.converge_state ≤ rank s'.converge_state
  pub terms_eq : terms ms + rank s.converge_state * s.gsockets ≤ rank s'.converge_state * s.gsockets

rise : (c d : Converge) (g : ℕ) → rank c < rank d → g + rank c * g ≤ rank d * g
rise early early g lt = ground arith
rise early close g lt = ground arith
rise early done g lt = ground arith
rise close early g lt = ground arith
rise close close g lt = ground arith
rise close done g lt = ground arith
rise done early g lt = ground arith
rise done close g lt = ground arith
rise done done g lt = ground arith

bound : (c d : Converge) (g n : ℕ) → n + rank c * g ≤ rank d * g → n ≤ (2 - rank c) * g
bound early early g n h = ground arith
bound early close g n h = ground arith
bound early done g n h = ground arith
bound close early g n h = ground arith
bound close close g n h = ground arith
bound close done g n h = ground arith
bound done early g n h = ground arith
bound done close g n h = ground arith
bound done done g n h = ground arith

terms-broadcast : (A : Type 0) (i n : ℕ) (c : Converge) → terms (broadcast {A = A} i n c) ≡ n
unfolding broadcast
terms-broadcast A i zero c = refl
terms-broadcast A i (suc n) c = ap suc (terms-broadcast A (i + 1) n c)

module _ {A : Type 0} where
  by_eq :
      (s : Server A) (r r' : Server A × List (Message A))
      → r ≡ r'
      → Rises s r'.0 r'.1
      → Rises s r.0 r.1
  by_eq s r r' e p = subst (λ x. Rises s x.0 x.1) (sym e) p

  terms-append : (ms ns : List (Message A)) → terms (ms ++ ns) ≡ terms ms + terms ns
  terms-append [] ns = omega arith
  terms-append (term i c ∷ ms) ns = omega (arith, terms-append ms ns)
  terms-append (partial_sum a ∷ ms) ns = terms-append ms ns

  stay :
      (s s' : Server A)
      → s'.gsockets ≡ s.gsockets
      → s'.converge_state ≡ s.converge_state
      → (ms : List (Message A)) → terms ms ≡ 0
      → Rises s s' ms
  stay s s' g c ms e = record {
    same_sockets = g;
    rank_le = ground (arith, c);
    terms_eq = ground (arith, c, e);
  }

module _ {A : Type 0} ⦃f : Float A⦄ where
  -- The outcome of a call on a server with the same state and sockets is one for the first.
  carry :
      (s t s' : Server A) (ms : List (Message A))
      → t.gsockets ≡ s.gsockets
      → t.converge_state ≡ s.converge_state
      → Rises t s' ms
      → Rises s s' ms
  carry s t s' ms g c r = record {
    same_sockets = r.same_sockets ∙ g;
    rank_le = ground (arith, c, r.rank_le);
    terms_eq = ground (arith, c, g, r.terms_eq);
  }

  try_early_stop-Rises :
      (a : AccLoss A) (s : Server A) → Rises s (try_early_stop a s).0 (try_early_stop a s).1
  unfolding try_early_stop
  try_early_stop-Rises a s =
      elim (Bool-cases (ltb (rank s.converge_state) (rank (classify a.acc s)))) [
        | inl up ↦ record {
          same_sockets = ground arith;
          rank_le = ground arith;
          terms_eq = ground (
            arith,
            terms-broadcast A 0 s.gsockets (classify a.acc s),
            rise s.converge_state (classify a.acc s) s.gsockets (ground arith),
          );
        }
        | inr stays ↦ record {
          same_sockets = ground arith;
          rank_le = ground arith;
          terms_eq = ground (arith, stays);
        }
      ]

  global-Rises :
      (node : ℕ) (a : AccLoss A) (s : Server A)
      → Rises s (update_global_acc_loss node a s).0 (update_global_acc_loss node a s).1
  unfolding update_global_acc_loss
  global-Rises node a s = elim (Option-cases (find node s.ws_acc_table)) [
    | inl new ↦ elim (Bool-cases (ltb (size (insert node a s.ws_acc_table)) s.num_node)) [
      | inl wait ↦
          by_eq s _ (record s { ws_acc_table = insert node a s.ws_acc_table }, [])
            (ground (arith, new, wait)) (stay s _ refl refl [] refl)
      | inr full ↦
          let u : Server A = record s { ws_acc_table = [] } in
          let m = mean (total (insert node a s.ws_acc_table)) in
          by_eq s _ (try_early_stop m u) (ground (arith, new, full))
            (carry s u _ _ refl refl (try_early_stop-Rises m u))
    ]
    | inr (old, e) ↦
        by_eq s _ (record s { ws_acc_table = insert node a s.ws_acc_table }, []) (ground (arith, e))
          (stay s _ refl refl [] refl)
  ]

  local-Rises :
      (val_size : ℕ → ℕ) (c : Chunk) (acc loss : A) (s : Server A)
      → Rises s
          (update_local_acc_loss val_size c acc loss s).0
          (update_local_acc_loss val_size c acc loss s).1
  unfolding update_local_acc_loss
  local-Rises val_size c acc loss s =
      let a : AccLoss A = record {
        epoch = c.epoch;
        vtcs_cnt = val_size (sub32 c.up_bound c.low_bound);
        acc = acc;
        loss = loss;
      } in
      let t = insert c.global_id a s.acc_loss_table in
      elim (Option-cases (find c.global_id s.acc_loss_table)) [
        | inl new ↦ elim (Bool-cases (ltb (size t) s.num_lambdas)) [
          | inl wait ↦
              by_eq s _ (record s { acc_loss_table = t }, []) (ground (arith, new, wait))
                (stay s _ refl refl [] refl)
          | inr full ↦ elim (Bool-cases (s.node_id == 0)) [
            | inl master ↦
                let u : Server A = record s { acc_loss_table = [] } in
                by_eq s _ (update_global_acc_loss s.node_id (total t) u)
                  (ground (arith, new, full, master))
                  (carry s u _ _ refl refl (global-Rises s.node_id (total t) u))
            | inr slave ↦
                by_eq s _ (record s { acc_loss_table = [] }, partial_sum (total t) ∷ [])
                  (ground (arith, new, full, slave))
                  (stay s _ refl refl (partial_sum (total t) ∷ []) refl)
          ]
        ]
        | inr (old, e) ↦
            by_eq s _ (record s { acc_loss_table = t }, []) (ground (arith, e))
              (stay s _ refl refl [] refl)
      ]

  handle-Rises :
      (val_size : ℕ → ℕ) (e : Event A) (s : Server A)
      → Rises s (handle val_size e s).0 (handle val_size e s).1
  unfolding handle receive_acc_loss set_num_lambdas clear_acc_loss
  handle-Rises val_size (eval c acc loss) s = local-Rises val_size c acc loss s
  handle-Rises val_size (acc_loss sender a) s = elim (Bool-cases (s.node_id == 0)) [
    | inl master ↦ by_eq s _ _ (ground (arith, master)) (global-Rises sender a s)
    | inr slave ↦ by_eq s _ (s, []) (ground (arith, slave)) (stay s s refl refl [] refl)
  ]
  handle-Rises val_size (info n) s = stay s _ refl refl [] refl

  handle_all-Rises :
      (val_size : ℕ → ℕ) (es : List (Event A)) (s : Server A)
      → Rises s (handle_all val_size es s).0 (handle_all val_size es s).1
  unfolding handle_all
  handle_all-Rises val_size [] s = stay s s refl refl [] refl
  handle_all-Rises val_size (e ∷ es) s =
      let s1 = (handle val_size e s).0 in
      let r = handle-Rises val_size e s in
      let r' = handle_all-Rises val_size es s1 in
      record {
        same_sockets = r'.same_sockets ∙ r.same_sockets;
        rank_le = omega (arith, r.rank_le, r'.rank_le);
        terms_eq = ground (
          arith,
          terms-append (handle val_size e s).1 (handle_all val_size es s1).1,
          r.terms_eq,
          r'.terms_eq,
          r.same_sockets,
        );
      }

  -- Whatever reaches the server, its state only rises in the order EARLY, CLOSE, DONE, and at most
  -- two `TERM` messages for each socket are sent, none once the state is DONE.
  pub handle_all-terms :
      (val_size : ℕ → ℕ) (es : List (Event A)) (s : Server A)
      → (rank s.converge_state ≤ rank (handle_all val_size es s).0.converge_state)
        × (terms (handle_all val_size es s).1 ≤ (2 - rank s.converge_state) * s.gsockets)
  handle_all-terms val_size es s =
      (r.rank_le, bound s.converge_state (handle_all val_size es s).0.converge_state _ _ r.terms_eq)
    where
      r : Rises s (handle_all val_size es s).0 (handle_all val_size es s).1
      r = handle_all-Rises val_size es s
