-- ===== src/TfScheduler/ConnManager/Ucx/Undoing.antt =====
-- What connectTfBuilderUCX and disconnectTfBuilderUCX (src/TfScheduler/TfSchedulerConnManager.cxx) come
-- to, on the calls they make.
use mathlib.Core.List.{append_assoc, append-nil}
use data_distribution.Prelude.{
  ℕ, Bool, true, false, String, ◌==◌, string_eq, nat_eq, List, [], ◌∷◌, ◌++◌, Option, none, some,
  if◌then◌else◌, length, find, insert, ◌≡◌, refl, sym, subst, ap, ◌∙◌, inl, inr, Bool-cases,
  Option-cases, arith, eq_iff, find-insert,
}
use data_distribution.Common.RpcClients.{TfBuilderClients, add_if_new}
use data_distribution.TfScheduler.ConnManager.{
  IpPort, TfBuilderStatus, Call, connects_ucx, disconnects_ucx, ok, error_grpc_stf_sender,
  error_stf_sender_connecting, Connections, delete_tf_builder_rpc_client,
}
use data_distribution.TfScheduler.ConnManager.Connecting.{status_of, asked, verdict}
use data_distribution.TfScheduler.ConnManager.Disconnecting.{
  last_failure, find-delete_tf_builder_rpc_client,
}
use data_distribution.TfScheduler.ConnManager.Ucx.{
  disconnect_senders_ucx, disconnect_tf_builder_ucx, connect_senders_ucx, connect_tf_builder_ucx,
}

-- The calls for all StfSenders.
abbrev pub connect_all : TfBuilderStatus → List (String × String) → List Call
connect_all u [] = []
connect_all u (s ∷ ss) = connects_ucx s.0 u.process_id u.ucx_info ∷ connect_all u ss

abbrev pub disconnect_all : TfBuilderStatus → List (String × String) → List Call
disconnect_all u [] = []
disconnect_all u (s ∷ ss) = disconnects_ucx s.0 u.process_id u.ucx_info ∷ disconnect_all u ss

-- Whether a StfSender is among those in front of the first that refuses.
abbrev pub is_connected :
    (Call → Option ℕ) → TfBuilderStatus → List (String × String) → String → Bool
is_connected answer u [] j = false
is_connected answer u (s ∷ ss) j =
    if status_of (answer (connects_ucx s.0 u.process_id u.ucx_info)) == ok
    then (if s.0 == j then true else is_connected answer u ss j)
    else false

module _ (answer : Call → Option ℕ) (endpoint : String → IpPort) (u : TfBuilderStatus) where
  connect_senders_ucx_calls :
      (ss : List (String × String)) (made : List (String × IpPort)) (calls : List Call)
      → let a = connect_senders_ucx answer endpoint u ss made calls in
        (a.connections_ok ≡ (verdict answer (connect_all u ss) == ok))
        × (a.status ≡ verdict answer (connect_all u ss))
        × (a.calls ≡ calls ++ asked answer (connect_all u ss))
  unfolding connect_senders_ucx
  connect_senders_ucx_calls [] made calls = ground (arith, append-nil calls)
  connect_senders_ucx_calls (s ∷ ss) made calls =
      let call = connects_ucx s.0 u.process_id u.ucx_info in
      let ih = connect_senders_ucx_calls ss (insert s.0 (endpoint s.0) made) (calls ++ call ∷ []) in
      elim (Option-cases (answer call)) [
        | inl a ↦ ground (arith, a)
        | inr (st, a) ↦
            ground (arith, a, ih, append_assoc calls (call ∷ []) (asked answer (connect_all u ss)))
      ]

  connect_senders_ucx_map :
      (ss : List (String × String)) (made : List (String × IpPort)) (calls : List Call) (j : String)
      → find j (connect_senders_ucx answer endpoint u ss made calls).connection_map
        ≡ (if is_connected answer u ss j then some (endpoint j) else find j made)
  unfolding connect_senders_ucx
  connect_senders_ucx_map [] made calls j = refl
  connect_senders_ucx_map (s ∷ ss) made calls j =
      let call = connects_ucx s.0 u.process_id u.ucx_info in
      let ih = connect_senders_ucx_map ss (insert s.0 (endpoint s.0) made) (calls ++ call ∷ []) j in
      elim (Option-cases (answer call)) [
        | inl a ↦ ground (arith, a)
        | inr (st, a) ↦ ground (arith, a, ih, eq_iff s.0 j, find-insert s.0 j (endpoint s.0) made)
      ]

disconnect_senders_ucx_calls :
    (answer : Call → Option ℕ) (u : TfBuilderStatus) (ss : List (String × String)) (st : ℕ)
    (calls : List Call)
    → disconnect_senders_ucx answer u ss st calls
      ≡ (last_failure answer (disconnect_all u ss) st, calls ++ disconnect_all u ss)
unfolding disconnect_senders_ucx
disconnect_senders_ucx_calls answer u [] st calls = ground (arith, append-nil calls)
disconnect_senders_ucx_calls answer u (s ∷ ss) st calls =
    let call = disconnects_ucx s.0 u.process_id u.ucx_info in
    let st' : ℕ = elim (answer call) [
      | none ↦ error_grpc_stf_sender
      | some a ↦ if a == 0 then st else error_stf_sender_connecting
    ] in
    ground (
      arith,
      disconnect_senders_ucx_calls answer u ss st' (calls ++ call ∷ []),
      append_assoc calls (call ∷ []) (disconnect_all u ss),
    )

calls_of :
    (b : Bool) (c d : Connections) (xs ys zs : List Call)
    → c.calls ≡ xs ++ ys
    → d.calls ≡ (xs ++ ys) ++ zs
    → (if b then c else d).calls ≡ xs ++ ys ++ (if b then [] else zs)
calls_of true c d xs ys zs h k = h ∙ sym (append-nil (xs ++ ys))
calls_of false c d xs ys zs h k = k

-- If the TfBuilder's own client could be opened, then connectTfBuilderUCX answers the status of the first
-- StfSender that refuses, in the order of their ids, or OK; its connection map holds the endpoints of the
-- StfSenders in front of that one. With OK, no other call is made and the client is kept; else every
-- StfSender, asked before or not, is asked to disconnect, and the client is gone.
pub connect_tf_builder_ucx_lem :
    (answer : Call → Option ℕ) (endpoint : String → IpPort) (config : String → Option String)
    (alive : String → Bool) (u : TfBuilderStatus) (c : Connections) (m : TfBuilderClients)
    → u.ucx_info.enabled ≡ true
    → length c.stf_senders.clients ≡ length c.stf_sender_ids
    → add_if_new config alive u.process_id c.tf_builders ≡ some (true, m)
    → let ss = c.stf_senders.clients in
      let st = verdict answer (connect_all u ss) in
      (made : List (String × IpPort)) × (c' : Connections) × (connect_tf_builder_ucx answer endpoint
          config alive u c
        ≡ some (st, made, c'))
      × ((j : String)
          → find j made ≡ (if is_connected answer u ss j then some (endpoint j) else none))
      × (c'.calls
          ≡ c.calls
            ++ asked answer (connect_all u ss)
            ++ (if st == ok then [] else disconnect_all u ss))
      × ((j : String)
          → find j c'.tf_builders
            ≡ (if st == ok then find j m else if u.process_id == j then none else find j m))
unfolding connect_tf_builder_ucx disconnect_tf_builder_ucx find delete_tf_builder_rpc_client
connect_tf_builder_ucx_lem answer endpoint config alive u c m h0 h1 h2 =
    let ss = c.stf_senders.clients in
    let a = connect_senders_ucx answer endpoint u ss [] c.calls in
    let c' : Connections = record c { tf_builders = m; calls = a.calls } in
    let (e, f, g) = connect_senders_ucx_calls answer endpoint u ss [] c.calls in
    let d = disconnect_senders_ucx_calls answer u ss 0 a.calls in
    (
      a.connection_map,
      (if a.connections_ok then c' else (disconnect_tf_builder_ucx answer u c').1),
      ground (arith, h0, h1, h2, f),
      (λ j. connect_senders_ucx_map answer endpoint u ss [] c.calls j),
      subst
          (λ b.
            (if a.connections_ok then c' else (disconnect_tf_builder_ucx answer u c').1).calls
            ≡ c.calls ++ asked answer (connect_all u ss) ++ (if b then [] else disconnect_all u ss))
          e
          (calls_of a.connections_ok c' (disconnect_tf_builder_ucx answer u c').1 c.calls
            (asked answer (connect_all u ss)) (disconnect_all u ss) g
            (ap (λ p. p.1) d ∙ ap (λ l. l ++ disconnect_all u ss) g)),
      (λ j. ground (
        arith,
        e,
        Bool-cases a.connections_ok,
        find-delete_tf_builder_rpc_client u.process_id j c',
      )),
    )
