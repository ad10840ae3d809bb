-- ===== src/TfScheduler/ConnManager/Disconnecting.antt =====
-- What disconnectTfBuilder (src/TfScheduler/TfSchedulerConnManager.cxx) undoes, by itself and behind a
-- refused connection.
use mathlib.Core.List.{append_assoc, append-nil}
use data_distribution.Prelude.{
  ℕ, Bool, true, false, String, ◌==◌, string_eq, nat_eq, List, [], ◌∷◌, ◌++◌, Option, none, some,
  if◌then◌else◌, length, find, ◌≡◌, refl, ap, inl, inr, Bool-cases, Option-cases, arith, All,
  eq_iff, find-remove,
}
use data_distribution.Common.RpcClients.{TfBuilderClients, add_if_new, remove_client}
use data_distribution.TfScheduler.ConnManager.{
  Socket, TfBuilderStatus, Call, disconnects, ok, error_grpc_stf_sender,
  error_stf_sender_connecting, Connections, disconnect_sockets, disconnect_tf_builder,
  connect_tf_builder, delete_tf_builder_rpc_client,
}
use data_distribution.TfScheduler.ConnManager.Connecting.{
  asked, verdict, numbered, plan, connect_senders-plan,
}

-- The calls that disconnectTfBuilder makes: one for each socket whose peer is a StfSender it has a
-- client of.
abbrev pub disconnect_plan : String → List (String × String) → List (ℕ × Socket) → List Call
disconnect_plan id clients [] = []
disconnect_plan id clients (k ∷ ks) =
    let rest = disconnect_plan id clients ks in
    if k.1.peer_id == "" then rest else elim (find k.1.peer_id clients) [
      | none ↦ rest
      | some e ↦ disconnects k.1.peer_id id k.1.endpoint ∷ rest
    ]

-- The status behind calls in turn: that of the last one that failed.
abbrev pub last_failure : (Call → Option ℕ) → List Call → ℕ → ℕ
last_failure answer [] st = st
last_failure answer (k ∷ ks) st = last_failure answer ks (elim (answer k) [
  | none ↦ error_grpc_stf_sender
  | some a ↦ if a == 0 then st else error_stf_sender_connecting
])

disconnect_sockets-disconnect_plan :
    (answer : Call → Option ℕ) (id : String) (clients : List (String × String))
    (ks : List (ℕ × Socket)) (st : ℕ) (calls : List Call)
    → disconnect_sockets answer id clients ks st calls ≡ (
      last_failure answer (disconnect_plan id clients ks) st,
      calls ++ disconnect_plan id clients ks,
    )
unfolding disconnect_sockets
disconnect_sockets-disconnect_plan answer id clients [] st calls = ground (arith, append-nil calls)
disconnect_sockets-disconnect_plan answer id clients (k ∷ ks) st calls =
    let call = disconnects k.1.peer_id id k.1.endpoint in
    let calls' = calls ++ call ∷ [] in
    elim (Bool-cases (k.1.peer_id == "")) [
      | inl e ↦ ground (arith, e, disconnect_sockets-disconnect_plan answer id clients ks st calls)
      | inr e ↦ elim (Option-cases (find k.1.peer_id clients)) [
        | inl f ↦
            ground (arith, e, f, disconnect_sockets-disconnect_plan answer id clients ks st calls)
        | inr (p, f) ↦ elim (Option-cases (answer call)) [
          | inl a ↦ ground (
            arith,
            e,
            f,
            a,
            disconnect_sockets-disconnect_plan answer id clients ks error_grpc_stf_sender calls',
            append_assoc calls (call ∷ []) (disconnect_plan id clients ks),
          )
          | inr (s, a) ↦ ground (
            arith,
            e,
            f,
            a,
            disconnect_sockets-disconnect_plan answer id clients ks
                (if s == 0 then st else error_stf_sender_connecting) calls',
            append_assoc calls (call ∷ []) (disconnect_plan id clients ks),
          )
        ]
      ]
    ]

pub find-delete_tf_builder_rpc_client :
    (id j : String) (c : Connections)
    → find j (delete_tf_builder_rpc_client id c).tf_builders
      ≡ (if id == j then none else find j c.tf_builders)
unfolding delete_tf_builder_rpc_client remove_client
find-delete_tf_builder_rpc_client id j c = elim (Option-cases (find id c.tf_builders)) [
  | inl f ↦ ground (arith, eq_iff id j, f)
  | inr (p, f) ↦ ground (arith, f, find-remove id j c.tf_builders)
]

-- disconnectTfBuilder removes the client of the TfBuilder and no other, asks the peers of its sockets
-- that it has clients of to disconnect, in order, and answers the failure of the last one that failed,
-- or 0.
pub disconnect_tf_builder_lem :
    (answer : Call → Option ℕ) (u : TfBuilderStatus) (c : Connections)
    → let ks = disconnect_plan u.process_id c.stf_senders.clients u.sockets in
      let (st, c') = disconnect_tf_builder answer u c in
      (st ≡ last_failure answer ks 0)
      × (c'.calls ≡ c.calls ++ ks)
      × (c'.stf_senders ≡ c.stf_senders)
      × ((j : String)
          → find j c'.tf_builders ≡ (if u.process_id == j then none else find j c.tf_builders))
unfolding disconnect_tf_builder delete_tf_builder_rpc_client
disconnect_tf_builder_lem answer u c =
    let e =
      disconnect_sockets-disconnect_plan answer u.process_id c.stf_senders.clients u.sockets 0
        c.calls in
    (
      ap (λ p. p.0) e,
      ap (λ p. p.1) e,
      refl,
      λ j. find-delete_tf_builder_rpc_client u.process_id j c,
    )

disconnect_nothing :
    (id : String) (clients : List (String × String)) (ks : List (ℕ × Socket))
    → All (λ k. k.1.peer_id ≡ "") ks
    → disconnect_plan id clients ks ≡ []
disconnect_nothing id clients [] h = refl
disconnect_nothing id clients (k ∷ ks) h =
    ground (arith, eq_iff k.1.peer_id "", h.0, disconnect_nothing id clients ks h.1)

-- If a StfSender refuses and the sockets of the request name no peers yet, then connectTfBuilder answers
-- that refusal and the client of the TfBuilder is gone, but nobody is asked to disconnect: the only calls
-- are those to connect, up to the one refused. The connection map names the StfSenders in front of it.
pub connect_tf_builder_lost :
    (answer : Call → Option ℕ) (config : String → Option String) (alive : String → Bool)
    (u : TfBuilderStatus) (c : Connections) (m : TfBuilderClients) (ks : List Call)
    → u.sockets_enabled ≡ true
    → length u.sockets ≡ length c.stf_sender_ids
    → length c.stf_senders.clients ≡ length c.stf_sender_ids
    → add_if_new config alive u.process_id c.tf_builders ≡ some (true, m)
    → plan u 0 c.stf_senders.clients ≡ some ks
    → (verdict answer ks == ok) ≡ false
    → All (λ k. k.1.peer_id ≡ "") u.sockets
    → (c' : Connections) × (connect_tf_builder answer config alive u c
        ≡ some (verdict answer ks, numbered answer 0 ks, c'))
      × (c'.calls ≡ c.calls ++ asked answer ks)
      × (find u.process_id c'.tf_builders ≡ none)
unfolding connect_tf_builder
connect_tf_builder_lost answer config alive u c m ks h0 h1 h2 h3 h4 h5 h6 =
    let c' : Connections = record c { tf_builders = m; calls = c.calls ++ asked answer ks } in
    let (st, q, r, f) = disconnect_tf_builder_lem answer u c' in
    (
      (disconnect_tf_builder answer u c').1,
      ground (
        arith,
        h0,
        h1,
        h2,
        h3,
        h5,
        connect_senders-plan answer u 0 c.stf_senders.clients [] c.calls ks tt h4,
      ),
      ground (
        arith,
        q,
        disconnect_nothing u.process_id c.stf_senders.clients u.sockets h6,
        append-nil (c.calls ++ asked answer ks),
      ),
      ground (arith, f u.process_id, eq_iff u.process_id u.process_id),
    )
