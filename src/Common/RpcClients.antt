-- ===== src/Common/RpcClients.antt =====
-- The collections of gRPC clients: StfSenderRpcClientCollection
-- (src/common/discovery/StfSenderRpcClient.h) and TfBuilderRpcClientCollection
-- (src/common/discovery/TfBuilderRpcClient.h). What the discovery service holds and the state of a
-- gRPC channel are arguments. The locks are left out: each method takes the global one.
pub mod Lookup
use data_distribution.Prelude.{
  ℕ, Bool, true, false, ◌&&◌, String, ◌==◌, string_eq, text_before, List, [], ◌∷◌, Option, none,
  some, if◌then◌else◌, ltb, length, find, remove, emplace,
}

-- The clients of the StfSenders, by id, each with its gRPC endpoint.
pub record StfSenderClients : Type 0 where
  pub running : Bool
  pub clients_created : Bool
  pub clients : List (String × String)

-- One StfSender in the loop of start().
unfoldable pub create_client :
    (String → Option String) → String → List (String × String) → List (String × String)
create_client config id m = elim (find id m) [
  | some e ↦ m
  | none ↦ elim (config id) [
    | none ↦ m
    | some endpoint ↦ if endpoint == "" then m else emplace text_before id endpoint m
  ]
]

unfoldable pub create_clients :
    (String → Option String) → List String → List (String × String) → List (String × String)
create_clients config [] m = m
create_clients config (id ∷ ids) m = create_clients config ids (create_client config id m)

abbrev pub all_ready : (String → Bool) → List (String × String) → Bool
all_ready ready [] = true
all_ready ready (p ∷ m) = ready p.0 && all_ready ready m

-- `scheduler` is the list of StfSenders in the configuration of the TfScheduler, `config` the
-- endpoint in that of a StfSender, `ready` whether its channel is in the state READY.
unfoldable pub start :
    String
    → Option (List String)
    → (String → Option String)
    → (String → Bool)
    → StfSenderClients
    → Bool × StfSenderClients
start partition scheduler config ready c = if partition == "" then (false, c) else elim scheduler [
  | none ↦ (false, record c { running = true })
  | some ids ↦
      let m = create_clients config ids c.clients in
      let lowered : StfSenderClients = record c { running = true; clients = m } in
      if ltb (length m) (length ids)
      then (false, lowered)
      else (all_ready ready m, record lowered { clients_created = all_ready ready m })
]

unfoldable pub stop : StfSenderClients → StfSenderClients
stop c = record { running = false; clients_created = false; clients = [] }

-- `alive` is whether the channel of a StfSender is not shut down.
unfoldable pub check_stf_sender_rpc_conn : (String → Bool) → String → StfSenderClients → Bool
check_stf_sender_rpc_conn alive id c =
    c.clients_created && elim (find id c.clients) [ none ↦ false | some e ↦ alive id ]

unfoldable pub remove_stf_sender : String → StfSenderClients → Bool × StfSenderClients
remove_stf_sender id c = elim (find id c.clients) [
  | none ↦ (false, c)
  | some e ↦ (true, record c { clients = remove id c.clients })
]

-- TfBuilderRpcClientCtx. The channel is there from the first start on.
pub record TfBuilderClient : Type 0 where
  pub running : Bool
  pub endpoint : String

abbrev pub new_client : TfBuilderClient
new_client = record { running = false; endpoint = "" }

unfoldable pub is_alive : (String → Bool) → String → TfBuilderClient → Bool
is_alive alive id c = c.running && alive id

-- TfBuilderRpcClientCtx::start, where `config` is the endpoint that a TfBuilder has published.
unfoldable pub start_client :
    (String → Option String) → (String → Bool) → String → TfBuilderClient → Bool × TfBuilderClient
start_client config alive id c = if c.running then (true, c) else elim (config id) [
  | none ↦ (false, record c { endpoint = "" })
  | some e ↦
      let started : TfBuilderClient = record { running = true; endpoint = e } in
      (is_alive alive id started, started)
]

abbrev pub TfBuilderClients : Type 0
TfBuilderClients = List (String × TfBuilderClient)

unfoldable pub remove_client : String → TfBuilderClients → Bool × TfBuilderClients
remove_client id m = elim (find id m) [ none ↦ (false, m) | some c ↦ (true, remove id m) ]

unfoldable pub add :
    (String → Option String) → (String → Bool) → String → TfBuilderClients → Bool × TfBuilderClients
add config alive id m =
    let m' = (remove_client id m).1 in
    let (started, c) = start_client config alive id new_client in
    (started, if started then emplace text_before id c m' else m')

-- `none` is the dereference of a null pointer: a client that does not start is erased, and the look-up
-- for the answer then makes an entry without a client.
unfoldable pub add_if_new :
    (String → Option String)
    → (String → Bool)
    → String
    → TfBuilderClients
    → Option (Bool × TfBuilderClients)
add_if_new config alive id m = elim (find id m) [
  | some c ↦ some (is_alive alive id c, m)
  | none ↦
      let (started, c) = start_client config alive id new_client in
      if started then some (is_alive alive id c, emplace text_before id c m) else none
]

unfoldable pub get : String → TfBuilderClients → Option TfBuilderClient
get id m = find id m

-- clear(), which stops each client first.
unfoldable pub clear : TfBuilderClients → TfBuilderClients
clear m = []
