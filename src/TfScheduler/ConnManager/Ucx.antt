-- ===== src/TfScheduler/ConnManager/Ucx.antt =====
-- The connections over UCX: connectTfBuilderUCX and disconnectTfBuilderUCX of
-- src/TfScheduler/TfSchedulerConnManager.cxx.
pub mod Undoing
use data_distribution.Prelude.{
  ℕ, Bool, true, false, not, String, ◌==◌, nat_eq, string_eq, List, [], ◌∷◌, ◌++◌, Option, none,
  some, if◌then◌else◌, insert,
}
use data_distribution.Common.RpcClients.{add_if_new}
use data_distribution.TfScheduler.ConnManager.{
  IpPort, UcxInfo, TfBuilderStatus, Call, connects_ucx, disconnects_ucx, ok,
  error_stf_senders_not_ready, error_grpc_stf_sender, error_grpc_tf_builder,
  error_stf_sender_connecting, error_transport_not_enabled, Connections, Attempt, stf_senders_ready,
  delete_tf_builder_rpc_client,
}

unfoldable pub disconnect_senders_ucx :
    (Call → Option ℕ) → TfBuilderStatus → List (String × String) → ℕ → List Call → ℕ × List Call
disconnect_senders_ucx answer u [] status calls = (status, calls)
disconnect_senders_ucx answer u (s ∷ ss) status calls =
    let call = disconnects_ucx s.0 u.process_id u.ucx_info in
    let status' : ℕ = elim (answer call) [
      | none ↦ error_grpc_stf_sender
      | some st ↦ if st == 0 then status else error_stf_sender_connecting
    ] in
    disconnect_senders_ucx answer u ss status' (calls ++ call ∷ [])

unfoldable pub disconnect_tf_builder_ucx :
    (Call → Option ℕ) → TfBuilderStatus → Connections → ℕ × Connections
disconnect_tf_builder_ucx answer u c =
    let c' = delete_tf_builder_rpc_client u.process_id c in
    let (status, calls) = disconnect_senders_ucx answer u c'.stf_senders.clients 0 c'.calls in
    (status, record c' { calls = calls })

-- `endpoint` is the endpoint of its own that a StfSender answers.
unfoldable pub connect_senders_ucx :
    (Call → Option ℕ)
    → (String → IpPort)
    → TfBuilderStatus
    → List (String × String)
    → List (String × IpPort)
    → List Call
    → Attempt (List (String × IpPort))
connect_senders_ucx answer endpoint u [] made calls = record {
  connections_ok = true;
  status = ok;
  connection_map = made;
  calls = calls;
}
connect_senders_ucx answer endpoint u (s ∷ ss) made calls =
    let call = connects_ucx s.0 u.process_id u.ucx_info in
    let calls' = calls ++ call ∷ [] in
    let refused : (ℕ → Attempt (List (String × IpPort))) =
      λ st. record { connections_ok = false; status = st; connection_map = made; calls = calls' } in
    elim (answer call) [
      | none ↦ refused error_grpc_stf_sender
      | some st ↦
          if st == ok
          then connect_senders_ucx answer endpoint u ss (insert s.0 (endpoint s.0) made) calls'
          else refused st
    ]

unfoldable pub connect_tf_builder_ucx :
    (Call → Option ℕ)
    → (String → IpPort)
    → (String → Option String)
    → (String → Bool)
    → TfBuilderStatus
    → Connections
    → Option (ℕ × List (String × IpPort) × Connections)
connect_tf_builder_ucx answer endpoint config alive u c =
    if not u.ucx_info.enabled
    then some (error_transport_not_enabled, [], c)
    else if not (stf_senders_ready c)
    then some (error_stf_senders_not_ready, [], c)
    else elim (add_if_new config alive u.process_id c.tf_builders) [
      | none ↦ none
      | some (opened, m) ↦
          let c' : Connections = record c { tf_builders = m } in
          if not opened
          then some (error_grpc_tf_builder, [], c')
          else (let a = connect_senders_ucx answer endpoint u c'.stf_senders.clients [] c'.calls in
              let c'' : Connections = record c' { calls = a.calls } in
              some (
                a.status,
                a.connection_map,
                (if a.connections_ok then c'' else (disconnect_tf_builder_ucx answer u c'').1),
              ))
    ]
