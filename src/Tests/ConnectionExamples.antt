-- ===== src/Tests/ConnectionExamples.antt =====
-- Examples for src/TfScheduler/TfSchedulerConnManager.cxx: two StfSenders and a TfBuilder.
use data_distribution.Prelude.{
  ℕ, Bool, true, false, String, ◌==◌, string_eq, nat_eq, List, [], ◌∷◌, ◌++◌, Option, none, some,
  ◌≡◌, ◌⊎◌, ◌↔◌, refl, inl, inr, if◌then◌else◌, find, Perm, emplace, subst, eq_iff, Bool-cases,
}
use data_distribution.Common.RpcClients.{TfBuilderClients, add_if_new, start_client, is_alive}
use data_distribution.TfScheduler.Messages.{StfSenderState}
use data_distribution.TfScheduler.ConnManager.{
  TfBuilderStatus, IpPort, Call, connects, connects_ucx, Connections, connect_tf_builder,
}
use data_distribution.TfScheduler.ConnManager.Connecting.{connect_tf_builder-ok}
use data_distribution.TfScheduler.ConnManager.Ucx.{connect_tf_builder_ucx}
use data_distribution.TfScheduler.ConnManager.Ucx.Undoing.{
  connect_all, disconnect_all, is_connected, connect_tf_builder_ucx_lem,
}
use data_distribution.TfScheduler.ConnManager.Ending.{await_futures}
use data_distribution.TfScheduler.ConnManager.Ending.Clients.{teardown_pass, teardown_ends}
use data_distribution.TfScheduler.Instance.{terminating, terminated}
use data_distribution.TfScheduler.Service.{Service, monitor_pass}
use data_distribution.TfScheduler.Service.Teardown.{monitor_pass_terminates}
use data_distribution.Tests.BitVector.{BitVector, bit_vector}
use data_distribution.Tests.PartitionExamples.{connecting}
use data_distribution.TfScheduler.ConnManager.Ending.Futures.{ids_of, await_futures_pending}

abbrev two_senders : Connections
two_senders = record {
  stf_sender_ids = "s1" ∷ "s2" ∷ [];
  stf_sender_state = StfSenderState.ok;
  running = true;
  stf_senders = record {
    running = true;
    clients_created = true;
    clients = ("s1", "tcp:1") ∷ ("s2", "tcp:2") ∷ [];
  };
  tf_builders = [];
  calls = [];
}

abbrev asking : TfBuilderStatus
asking = record {
  process_id = "t";
  sockets_enabled = true;
  sockets =
      (0, record { endpoint = "e0"; peer_id = "" })
      ∷ (1, record { endpoint = "e1"; peer_id = "" })
      ∷ [];
  ucx_info = record { enabled = true; listen_ep = record { ip = "10.0.0.1"; port = 5000 } };
}

abbrev published : String → Option String
published id = some "tcp:3"

abbrev always : String → Bool
always id = true

abbrev agrees : Call → Option ℕ
agrees k = some 1

-- The second StfSender has the connection already.
abbrev second_refuses : Call → Option ℕ
second_refuses (connects s t e) = if s == "s2" then some 8 else some 1
second_refuses (connects_ucx s t e) = if s == "s2" then none else some 1
second_refuses k = some 0

abbrev opened_clients : TfBuilderClients
opened_clients = ("t", record { running = true; endpoint = "tcp:3" }) ∷ []

abbrev both : List Call
both = connects "s1" "t" "e0" ∷ connects "s2" "t" "e1" ∷ []

connect_tf_builder-ok_example :
    connect_tf_builder agrees published always asking two_senders
    ≡ some (
      1,
      (0, "s1") ∷ (1, "s2") ∷ [],
      record two_senders { tf_builders = opened_clients; calls = both },
    )
unfolding find add_if_new start_client is_alive emplace
connect_tf_builder-ok_example =
    connect_tf_builder-ok agrees published always asking two_senders opened_clients both refl refl
      refl refl refl refl

abbrev connected : TfBuilderStatus
connected = record asking {
  sockets =
      (0, record { endpoint = "e0"; peer_id = "s1" })
      ∷ (1, record { endpoint = "e1"; peer_id = "s9" })
      ∷ [];
}

abbrev own_endpoint : String → IpPort
own_endpoint s = record { ip = s; port = 7000 }

connect_tf_builder_ucx_lem_example :
    let ss = two_senders.stf_senders.clients in
    (made : List (String × IpPort)) × (c' : Connections) × (connect_tf_builder_ucx second_refuses
        own_endpoint published always asking two_senders
      ≡ some (5, made, c'))
    × ((j : String)
        → find j made
          ≡ (if is_connected second_refuses asking ss j then some (own_endpoint j) else none))
    × (c'.calls ≡ connect_all asking ss ++ disconnect_all asking ss)
    × ((j : String) → find j c'.tf_builders ≡ (if "t" == j then none else find j opened_clients))
unfolding find add_if_new start_client is_alive emplace
connect_tf_builder_ucx_lem_example =
    connect_tf_builder_ucx_lem second_refuses own_endpoint published always asking two_senders
      opened_clients refl refl refl

abbrev one_builder : Connections
one_builder = record two_senders { tf_builders = opened_clients }

abbrev never : String → Bool
never id = false

one_builder_apart :
    (j : String)
    → (find j one_builder.stf_senders.clients ≡ none) ⊎ (find j one_builder.tf_builders ≡ none)
unfolding find
one_builder_apart j = elim (Bool-cases ("t" == j)) [
  | inl e ↦
      inl (subst (λ i. find i one_builder.stf_senders.clients ≡ none) ((eq_iff "t" j).0 e) refl)
  | inr e ↦ inr (rw e refl)
]

teardown_ends_example :
    (((teardown_pass always never one_builder).0 ≡ true)
      ↔ ((j : String) → find j opened_clients ≡ none))
    × ((teardown_pass always never one_builder).1.stf_senders ≡ two_senders.stf_senders)
teardown_ends_example = teardown_ends always never one_builder one_builder_apart

abbrev ending : Service BitVector
ending = record {
  instance_state = record connecting { partition_state = terminating };
  connections = one_builder;
}

monitor_pass_terminates_example :
    let end = (monitor_pass always never ending).instance_state.partition_state in
    ((end ≡ terminated) ⊎ (end ≡ terminating))
    × ((end ≡ terminated) ↔ ((j : String) → find j opened_clients ≡ none))
monitor_pass_terminates_example =
    monitor_pass_terminates always never ending refl refl one_builder_apart

await_futures_pending_example :
    (ids : List ℕ) × (rest : List (ℕ × Bool)) × (await_futures
        ((7, true) ∷ (8, true) ∷ (9, false) ∷ [])
      ≡ some (ids, rest))
    × Perm (ids ++ ids_of rest) (7 ∷ 8 ∷ 9 ∷ [])
await_futures_pending_example = await_futures_pending ((7, true) ∷ (8, true) ∷ []) 9

-- A request that is done alone drives the iterator past the end.
await_futures_alone : await_futures ((7, true) ∷ []) ≡ none
unfolding await_futures
await_futures_alone = refl

-- A TfBuilder that has not published its endpoint stops the scheduler.
add_if_new_unknown : add_if_new (λ (id : String). none) always "t" [] ≡ none
unfolding add_if_new find start_client
add_if_new_unknown = refl
