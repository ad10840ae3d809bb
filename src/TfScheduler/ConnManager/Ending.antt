-- ===== src/TfScheduler/ConnManager/Ending.antt =====
-- The ends of connections in src/TfScheduler/TfSchedulerConnManager.cxx: the requests to terminate the
-- partition, removeTfBuilder, and the requests to drop SubTimeFrames, which are made in threads of
-- their own that DropWaitThread waits for.
pub mod Clients
pub mod Futures
use data_distribution.Prelude.{
  ℕ, Bool, true, false, String, ◌==◌, nat_eq, List, [], ◌∷◌, ◌++◌, Option, none, some,
  if◌then◌else◌, length, find, string_eq,
}
use data_distribution.Common.RpcClients.{remove_stf_sender}
use data_distribution.TfScheduler.ConnManager.{
  Call, disconnects, requests_data, Connections, delete_tf_builder_rpc_client,
}

-- The ids in front of which a call failed: `told` is whether TerminatePartition of a client succeeds.
unfoldable pub failed_rpcs {ℓ} : {V : Type ℓ} → (String → Bool) → List (String × V) → List String
failed_rpcs told [] = []
failed_rpcs told (p ∷ m) = let rest = failed_rpcs told m in if told p.0 then rest else p.0 ∷ rest

unfoldable pub delete_tf_builder_rpc_clients : List String → Connections → Connections
delete_tf_builder_rpc_clients [] c = c
delete_tf_builder_rpc_clients (id ∷ ids) c =
    delete_tf_builder_rpc_clients ids (delete_tf_builder_rpc_client id c)

unfoldable pub request_tf_builders_terminate : (String → Bool) → Connections → Bool × Connections
request_tf_builders_terminate told c =
    let c' = delete_tf_builder_rpc_clients (failed_rpcs told c.tf_builders) c in
    (length c'.tf_builders == 0, c')

unfoldable pub request_stf_senders_terminate : (String → Bool) → Connections → Bool × Connections
request_stf_senders_terminate told c =
    let c' = delete_tf_builder_rpc_clients (failed_rpcs told c.stf_senders.clients) c in
    (length c'.tf_builders == 0, c')

-- The calls of removeTfBuilder, whose answers are only logged.
unfoldable pub disconnections : String → List (String × String) → List Call
disconnections id [] = []
disconnections id (s ∷ ss) = disconnects s.0 id "" ∷ disconnections id ss

unfoldable pub remove_tf_builder : String → Connections → Connections
remove_tf_builder id c =
    let c' = delete_tf_builder_rpc_client id c in
    record c' { calls = c'.calls ++ disconnections id c'.stf_senders.clients }

-- The lambda of dropAllStfsAsync: the TfBuilder "-1" stands for none.
unfoldable pub drop_requests : ℕ → List (String × String) → List Call
drop_requests id [] = []
drop_requests id (s ∷ ss) = requests_data s.0 "-1" id ∷ drop_requests id ss

unfoldable pub drop_all_stfs : ℕ → Connections → Connections
drop_all_stfs id c = record c { calls = c.calls ++ drop_requests id c.stf_senders.clients }

-- dropSingleStfsAsync, where `none` is the exception for an id without a client, which reaches
-- DropWaitThread with the future.
unfoldable pub drop_single_stfs : ℕ → String → Connections → Option Connections
drop_single_stfs id stf_sender_id c = elim (find stf_sender_id c.stf_senders.clients) [
  | none ↦ none
  | some e ↦ some (record c { calls = c.calls ++ requests_data stf_sender_id "-1" id ∷ [] })
]

unfoldable pub delete_stf_sender_rpc_client : String → Connections → Connections
delete_stf_sender_rpc_client id c = record c {
  stf_senders = (remove_stf_sender id c.stf_senders).1;
}

-- The loop of DropWaitThread over the futures, each with its SubTimeFrame and whether it is ready:
-- the SubTimeFrames that were dropped and the futures that stay. The iterator behind an erased future is
-- advanced once more, past the end if there is none (`none`).
unfoldable pub await_futures : List (ℕ × Bool) → Option (List ℕ × List (ℕ × Bool))
await_futures [] = some ([], [])
await_futures ((id, false) ∷ fs) = elim (await_futures fs) [
  | none ↦ none
  | some (ids, rest) ↦ some (ids, (id, false) ∷ rest)
]
await_futures ((id, true) ∷ []) = none
await_futures ((id, true) ∷ f ∷ fs) = elim (await_futures fs) [
  | none ↦ none
  | some (ids, rest) ↦ some (id ∷ ids, f ∷ rest)
]
