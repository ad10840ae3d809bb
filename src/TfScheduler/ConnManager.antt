-- ===== src/TfScheduler/ConnManager.antt =====
-- TfSchedulerConnManager (src/TfScheduler/TfSchedulerConnManager.h and .cxx): the connections between
-- TfBuilders and StfSenders, which the scheduler asks the StfSenders to make, and the requests to end
-- a partition. What a call answers is an argument, `none` for a gRPC error; the calls that were made
-- are part of the state, the last one at the end.
pub mod Ucx
pub mod Ending
pub mod Connecting
pub mod Disconnecting
use data_distribution.Prelude.{
  ℕ, suc, Bool, true, false, not, String, ◌==◌, string_eq, nat_eq, List, [], ◌∷◌, ◌++◌, Option,
  none, some, if◌then◌else◌, length, ltb, find, remove, put,
}
use data_distribution.Common.RpcClients.{
  StfSenderClients, TfBuilderClients, check_stf_sender_rpc_conn, add_if_new, remove_client,
  start as start_clients, stop as stop_clients,
}
use data_distribution.TfScheduler.Messages.{StfSenderState, incomplete}

-- IpPort, TfBuilderUcxInfo, an entry of TfBuilderSocketMap and TfBuilderConfigStatus.
pub record IpPort : Type 0 where
  pub ip : String
  pub port : ℕ

pub record UcxInfo : Type 0 where
  pub enabled : Bool
  pub listen_ep : IpPort

pub record Socket : Type 0 where
  pub endpoint : String
  pub peer_id : String

pub record TfBuilderStatus : Type 0 where
  pub process_id : String
  pub sockets_enabled : Bool
  pub sockets : List (ℕ × Socket)
  pub ucx_info : UcxInfo

-- The calls of the StfSenders' RPC, each with the StfSender, the TfBuilder and its endpoint.
pub data Call : Type 0 where
  connects disconnects : String → String → String → Call
  connects_ucx disconnects_ucx : String → String → UcxInfo → Call
  requests_data : String → String → ℕ → Call

-- The values of TfBuilderConnectionStatus that the scheduler sets.
abbrev pub ok : ℕ
ok = 1

abbrev pub error_socket_count : ℕ
error_socket_count = 3

abbrev pub error_stf_senders_not_ready : ℕ
error_stf_senders_not_ready = 4

abbrev pub error_grpc_stf_sender : ℕ
error_grpc_stf_sender = 5

abbrev pub error_grpc_tf_builder : ℕ
error_grpc_tf_builder = 6

abbrev pub error_stf_sender_connecting : ℕ
error_stf_sender_connecting = 7

abbrev pub error_transport_not_enabled : ℕ
error_transport_not_enabled = 10

-- `stf_sender_ids` is the list in the PartitionRequest.
pub record Connections : Type 0 where
  pub stf_sender_ids : List String
  pub stf_sender_state : StfSenderState
  pub running : Bool
  pub stf_senders : StfSenderClients
  pub tf_builders : TfBuilderClients
  pub calls : List Call

unfoldable pub start :
    String
    → Option (List String)
    → (String → Option String)
    → (String → Bool)
    → Connections
    → Bool × Connections
start partition scheduler config ready c =
    let (started, senders) = start_clients partition scheduler config ready c.stf_senders in
    if started
    then (true, record c { stf_senders = senders; running = true })
    else (false, record c { stf_senders = senders })

-- The state behind stop(), once the threads are joined.
unfoldable pub stop : Connections → Connections
stop c = record c { running = false; stf_senders = stop_clients c.stf_senders }

unfoldable pub count_alive : (String → Bool) → List String → StfSenderClients → ℕ
count_alive alive [] s = 0
count_alive alive (id ∷ ids) s =
    let rest = count_alive alive ids s in
    if check_stf_sender_rpc_conn alive id s then suc rest else rest

unfoldable pub check_stf_senders : (String → Bool) → Connections → ℕ
check_stf_senders alive c = count_alive alive c.stf_sender_ids c.stf_senders

-- One pass of StfSenderMonitoringThread.
unfoldable pub monitor_stf_senders : (String → Bool) → Connections → Connections
monitor_stf_senders alive c = record c {
  stf_sender_state =
      if ltb (check_stf_senders alive c) (length c.stf_sender_ids)
      then incomplete
      else StfSenderState.ok;
}

abbrev pub stf_senders_ready : Connections → Bool
stf_senders_ready c = length c.stf_senders.clients == length c.stf_sender_ids

unfoldable pub delete_tf_builder_rpc_client : String → Connections → Connections
delete_tf_builder_rpc_client id c = record c { tf_builders = (remove_client id c.tf_builders).1 }

-- What connecting the StfSenders one after the other comes to. An endpoint that a StfSender answers is
-- part of the answer to its call.
pub record Attempt (Peers : Type 0) : Type 0 where
  pub connections_ok : Bool
  pub status : ℕ
  pub connection_map : Peers
  pub calls : List Call

-- The loop of disconnectTfBuilder over the sockets, with the status and the calls so far.
unfoldable pub disconnect_sockets :
    (Call → Option ℕ)
    → String
    → List (String × String)
    → List (ℕ × Socket)
    → ℕ
    → List Call
    → ℕ × List Call
disconnect_sockets answer id clients [] status calls = (status, calls)
disconnect_sockets answer id clients (k ∷ ks) status calls =
    if k.1.peer_id == ""
    then disconnect_sockets answer id clients ks status calls
    else elim (find k.1.peer_id clients) [
      | none ↦ disconnect_sockets answer id clients ks status calls
      | some e ↦
          let call = disconnects k.1.peer_id id k.1.endpoint in
          let calls' = calls ++ call ∷ [] in
          elim (answer call) [
            | none ↦ disconnect_sockets answer id clients ks error_grpc_stf_sender calls'
            | some st ↦
                disconnect_sockets answer id clients ks
                  (if st == 0 then status else error_stf_sender_connecting) calls'
          ]
    ]

unfoldable pub disconnect_tf_builder :
    (Call → Option ℕ) → TfBuilderStatus → Connections → ℕ × Connections
disconnect_tf_builder answer u c =
    let c' = delete_tf_builder_rpc_client u.process_id c in
    let (status, calls) =
      disconnect_sockets answer u.process_id c'.stf_senders.clients u.sockets 0 c'.calls in
    (status, record c' { calls = calls })

-- The loop of connectTfBuilder; `none` is the failure of at() on a map of protobuf. The index has 32
-- bits, and so do the keys of the sockets, which are as many as the StfSenders.
unfoldable pub connect_senders :
    (Call → Option ℕ)
    → TfBuilderStatus
    → ℕ
    → List (String × String)
    → List (ℕ × String)
    → List Call
    → Option (Attempt (List (ℕ × String)))
connect_senders answer u index [] made calls =
    some (record { connections_ok = true; status = ok; connection_map = made; calls = calls })
connect_senders answer u index (s ∷ ss) made calls = elim (find index u.sockets) [
  | none ↦ none
  | some k ↦
      let call = connects s.0 u.process_id k.endpoint in
      let calls' = calls ++ call ∷ [] in
      let refused : (ℕ → Attempt (List (ℕ × String))) = λ st. record {
        connections_ok = false;
        status = st;
        connection_map = made;
        calls = calls';
      } in
      elim (answer call) [
        | none ↦ some (refused error_grpc_stf_sender)
        | some st ↦
            if st == ok
            then connect_senders answer u (suc index) ss (put index s.0 made) calls'
            else some (refused st)
      ]
]

unfoldable pub connect_tf_builder :
    (Call → Option ℕ)
    → (String → Option String)
    → (String → Bool)
    → TfBuilderStatus
    → Connections
    → Option (ℕ × List (ℕ × String) × Connections)
connect_tf_builder answer config alive u c =
    if not u.sockets_enabled
    then some (error_transport_not_enabled, [], c)
    else if not (length u.sockets == length c.stf_sender_ids)
    then some (error_socket_count, [], c)
    else if not (stf_senders_ready c)
    then some (error_stf_senders_not_ready, [], c)
    else elim (add_if_new config alive u.process_id c.tf_builders) [
      | none ↦ none
      | some (opened, m) ↦
          let c' : Connections = record c { tf_builders = m } in
          if not opened
          then some (error_grpc_tf_builder, [], c')
          else elim (connect_senders answer u 0 c'.stf_senders.clients [] c'.calls) [
            | none ↦ none
            | some a ↦
                let c'' : Connections = record c' { calls = a.calls } in
                some (
                  a.status,
                  a.connection_map,
                  (if a.connections_ok then c'' else (disconnect_tf_builder answer u c'').1),
                )
          ]
    ]
