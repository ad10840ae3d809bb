-- ===== src/TfScheduler/ConnManager/Ending/Clients.antt =====
-- Which clients of TfBuilders the requests to terminate a partition leave
-- (src/TfScheduler/TfSchedulerConnManager.cxx), and when the partition ends.
use data_distribution.Prelude.{
  Bool, true, false, not, ◌&&◌, String, ◌==◌, string_eq, nat_eq, List, [], ◌∷◌, Option, none, some,
  if◌then◌else◌, length, find, ◌≡◌, ◌↔◌, ◌⊎◌, refl, sym, ap, Option-cases, arith, eq_iff, ◌∙◌,
}
use data_distribution.Common.RpcClients.{TfBuilderClients}
use data_distribution.Common.RpcClients.Lookup.{is_listed}
use data_distribution.TfScheduler.ConnManager.{Connections, delete_tf_builder_rpc_client}
use data_distribution.TfScheduler.ConnManager.Disconnecting.{find-delete_tf_builder_rpc_client}
use data_distribution.TfScheduler.ConnManager.Ending.{
  failed_rpcs, delete_tf_builder_rpc_clients, request_tf_builders_terminate,
  request_stf_senders_terminate,
}

abbrev pub is_some {ℓ} : {A : Type ℓ} → Option A → Bool
is_some none = false
is_some (some a) = true

is_listed-failed_rpcs :
    {V : Type 0} (told : String → Bool) (j : String) (m : List (String × V))
    → is_listed j (failed_rpcs told m) ≡ (is_some (find j m) && not (told j))
unfolding failed_rpcs find
is_listed-failed_rpcs told j [] = refl
is_listed-failed_rpcs told j (p ∷ m) = ground (arith, eq_iff p.0 j, is_listed-failed_rpcs told j m)

find-delete_tf_builder_rpc_clients :
    (j : String) (ids : List String) (c : Connections)
    → find j (delete_tf_builder_rpc_clients ids c).tf_builders
      ≡ (if is_listed j ids then none else find j c.tf_builders)
unfolding delete_tf_builder_rpc_clients
find-delete_tf_builder_rpc_clients j [] c = refl
find-delete_tf_builder_rpc_clients j (id ∷ ids) c = ground (
  arith,
  find-delete_tf_builder_rpc_client id j c,
  find-delete_tf_builder_rpc_clients j ids (delete_tf_builder_rpc_client id c),
)

delete_tf_builder_rpc_clients-stf_senders :
    (ids : List String) (c : Connections)
    → (delete_tf_builder_rpc_clients ids c).stf_senders ≡ c.stf_senders
unfolding delete_tf_builder_rpc_clients delete_tf_builder_rpc_client
delete_tf_builder_rpc_clients-stf_senders [] c = refl
delete_tf_builder_rpc_clients-stf_senders (id ∷ ids) c =
    delete_tf_builder_rpc_clients-stf_senders ids (delete_tf_builder_rpc_client id c)

no_clients : (m : TfBuilderClients) → ((length m == 0) ≡ true) ↔ ((j : String) → find j m ≡ none)
unfolding find
no_clients [] = ((λ h j. refl), λ h. refl)
no_clients (p ∷ m) = ((λ h j. ground (arith, h)), λ h. ground (arith, h p.0, eq_iff p.0 p.0))

pub find-request_tf_builders_terminate :
    (told : String → Bool) (c : Connections) (j : String)
    → find j (request_tf_builders_terminate told c).1.tf_builders
      ≡ (if told j then find j c.tf_builders else none)
unfolding request_tf_builders_terminate
find-request_tf_builders_terminate told c j = ground (
  arith,
  is_listed-failed_rpcs told j c.tf_builders,
  find-delete_tf_builder_rpc_clients j (failed_rpcs told c.tf_builders) c,
  Option-cases (find j c.tf_builders),
)

find-request_stf_senders_terminate :
    (told : String → Bool) (c : Connections) (j : String)
    → find j (request_stf_senders_terminate told c).1.tf_builders ≡ (
        if is_some (find j c.stf_senders.clients) && not (told j)
        then none
        else find j c.tf_builders)
unfolding request_stf_senders_terminate
find-request_stf_senders_terminate told c j = ground (
  arith,
  is_listed-failed_rpcs told j c.stf_senders.clients,
  find-delete_tf_builder_rpc_clients j (failed_rpcs told c.stf_senders.clients) c,
)

-- The two requests of a pass of PartitionMonitorThread over an ending partition: the second one's answer
-- decides whether the partition has ended.
abbrev pub teardown_pass : (String → Bool) → (String → Bool) → Connections → Bool × Connections
teardown_pass told_builder told_sender c =
    request_stf_senders_terminate told_sender (request_tf_builders_terminate told_builder c).1

-- If no StfSender has the id of a TfBuilder, then a pass of the teardown finds the partition ended exactly
-- if every TfBuilder that has a client fails to answer TerminatePartition; what the StfSenders answer does
-- not matter, and none of their clients is removed.
pub teardown_ends :
    (told_builder told_sender : String → Bool) (c : Connections)
    → ((j : String) → (find j c.stf_senders.clients ≡ none) ⊎ (find j c.tf_builders ≡ none))
    → (((teardown_pass told_builder told_sender c).0 ≡ true)
        ↔ ((j : String) → (if told_builder j then find j c.tf_builders else none) ≡ none))
      × ((teardown_pass told_builder told_sender c).1.stf_senders ≡ c.stf_senders)
unfolding request_stf_senders_terminate request_tf_builders_terminate
teardown_ends told_builder told_sender c apart =
    let c' = (request_tf_builders_terminate told_builder c).1 in
    let left = (teardown_pass told_builder told_sender c).1 in
    let kept : (c'.stf_senders ≡ c.stf_senders) =
      delete_tf_builder_rpc_clients-stf_senders (failed_rpcs told_builder c.tf_builders) c in
    let found : ((j : String)
        → find j left.tf_builders ≡ (if told_builder j then find j c.tf_builders else none)) =
      λ j. ground (
        arith,
        find-request_stf_senders_terminate told_sender c' j,
        ap (λ s. find j s.clients) kept,
        find-request_tf_builders_terminate told_builder c j,
        apart j,
      ) in
    let (only, all) = no_clients left.tf_builders in
    (
      ((λ h j. sym (found j) ∙ only h j), (λ h. all (λ j. found j ∙ h j))),
      delete_tf_builder_rpc_clients-stf_senders (failed_rpcs told_sender c'.stf_senders.clients) c'
          ∙ kept,
    )
