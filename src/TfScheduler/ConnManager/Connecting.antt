-- ===== src/TfScheduler/ConnManager/Connecting.antt =====
-- How connectTfBuilder and connectTfBuilderUCX (src/TfScheduler/TfSchedulerConnManager.cxx) ask the
-- StfSenders one after the other, and what they undo when one of them refuses.
use mathlib.Core.List.{append_assoc, append-nil}
use data_distribution.Prelude.{
  ℕ, suc, ◌<◌, Bool, true, String, ◌==◌, string_eq, nat_eq, List, [], ◌∷◌, ◌++◌, Option, none, some,
  if◌then◌else◌, length, find, put, ◌≡◌, refl, inl, inr, Bool-cases, Option-cases, arith, All,
  All-append,
}
use data_distribution.Common.RpcClients.{TfBuilderClients, add_if_new}
use data_distribution.TfScheduler.ConnManager.{
  Socket, TfBuilderStatus, Call, connects, ok, error_grpc_stf_sender, Connections, Attempt,
  connect_senders, connect_tf_builder,
}

-- The status that a call's answer stands for.
abbrev pub status_of : Option ℕ → ℕ
status_of none = error_grpc_stf_sender
status_of (some st) = st

-- The calls of a plan that are made: those up to the first that is not answered OK.
abbrev pub asked : (Call → Option ℕ) → List Call → List Call
asked answer [] = []
asked answer (k ∷ ks) = k ∷ (if status_of (answer k) == ok then asked answer ks else [])

-- The status that ends it: that of the first refusal, or OK.
abbrev pub verdict : (Call → Option ℕ) → List Call → ℕ
verdict answer [] = ok
verdict answer (k ∷ ks) =
    if status_of (answer k) == ok then verdict answer ks else status_of (answer k)

-- The StfSenders that are connected on the way, numbered.
abbrev pub numbered : (Call → Option ℕ) → ℕ → List Call → List (ℕ × String)
numbered answer i [] = []
numbered answer i (connects s t e ∷ ks) =
    if status_of (answer (connects s t e)) == ok then (i, s) ∷ numbered answer (suc i) ks else []
numbered answer i (k ∷ ks) = []

-- The calls for StfSenders in the order of their ids: the n-th gets the endpoint of the n-th socket.
abbrev pub plan : TfBuilderStatus → ℕ → List (String × String) → Option (List Call)
plan u i [] = some []
plan u i (s ∷ ss) = elim (find i u.sockets) [
  | none ↦ none
  | some k ↦ elim (plan u (suc i) ss) [
    | none ↦ none
    | some ks ↦ some (connects s.0 u.process_id k.endpoint ∷ ks)
  ]
]

module _ (answer : Call → Option ℕ) (u : TfBuilderStatus) where
  put_above :
      (i : ℕ) (s : String) (made : List (ℕ × String))
      → All (λ p. p.0 < i) made
      → put i s made ≡ made ++ (i, s) ∷ []
  unfolding put
  put_above i s [] h = refl
  put_above i s (p ∷ made) h = ground (arith, put_above i s made h.1)

  raise : (i : ℕ) (made : List (ℕ × String)) → All (λ p. p.0 < i) made → All (λ p. p.0 < suc i) made
  raise i [] h = tt
  raise i (p ∷ made) h = (omega arith, raise i made h.1)

  plan_cons :
      (i : ℕ) (s : String × String) (ss : List (String × String)) (ks : List Call)
      → plan u i (s ∷ ss) ≡ some ks
      → (k : Socket) × (rest : List Call) × (find i u.sockets ≡ some k)
        × (plan u (suc i) ss ≡ some rest)
        × (ks ≡ connects s.0 u.process_id k.endpoint ∷ rest)
  plan_cons i s ss ks e = elim (Option-cases (find i u.sockets)) [
    | inl f ↦ ground (arith, e, f)
    | inr (k, f) ↦ elim (Option-cases (plan u (suc i) ss)) [
      | inl g ↦ ground (arith, e, f, g)
      | inr (rest, g) ↦ (k, rest, f, g, ground (arith, e, f, g))
    ]
  ]

  -- What the loop of connectTfBuilder comes to for a plan, from what it has made and called so far.
  abbrev pub attempt : ℕ → List Call → List (ℕ × String) → List Call → Attempt (List (ℕ × String))
  attempt i ks made calls = record {
    connections_ok = verdict answer ks == ok;
    status = verdict answer ks;
    connection_map = made ++ numbered answer i ks;
    calls = calls ++ asked answer ks;
  }

  -- connect_senders makes the calls of the plan up to the first refusal.
  pub connect_senders-plan :
      (i : ℕ) (ss : List (String × String)) (made : List (ℕ × String)) (calls ks : List Call)
      → All (λ p. p.0 < i) made
      → plan u i ss ≡ some ks
      → connect_senders answer u i ss made calls ≡ some (attempt i ks made calls)
  unfolding connect_senders
  connect_senders-plan i [] made calls ks h e = ground (arith, e, append-nil made, append-nil calls)
  connect_senders-plan i (s ∷ ss) made calls ks h e =
      let (k, rest, f, g, q) = plan_cons i s ss ks e in
      let call = connects s.0 u.process_id k.endpoint in
      let ih =
        connect_senders-plan (suc i) ss (made ++ (i, s.0) ∷ []) (calls ++ call ∷ []) rest
          (All-append (λ p. p.0 < suc i) made ((i, s.0) ∷ []) (raise i made h) (omega arith, tt))
          g in
      elim (Option-cases (answer call)) [
        | inl a ↦ ground (arith, q, f, a, append-nil made)
        | inr (st, a) ↦ elim (Bool-cases (st == ok)) [
          | inl b ↦ ground (
            arith,
            q,
            f,
            a,
            b,
            put_above i s.0 made h,
            ih,
            append_assoc made ((i, s.0) ∷ []) (numbered answer (suc i) rest),
            append_assoc calls (call ∷ []) (asked answer rest),
          )
          | inr b ↦ ground (arith, q, f, a, b, append-nil made)
        ]
      ]

asked_all :
    (answer : Call → Option ℕ) (ks : List Call) → verdict answer ks ≡ ok → asked answer ks ≡ ks
asked_all answer [] e = refl
asked_all answer (k ∷ ks) e = ground (arith, asked_all answer ks)

-- If the StfSenders can be asked, the TfBuilder's own client could be opened and every StfSender answers
-- OK, then connectTfBuilder answers OK, with every StfSender in the connection map under the number of
-- its socket, the client of the TfBuilder is kept, and each StfSender was asked once, in order.
pub connect_tf_builder-ok :
    (answer : Call → Option ℕ) (config : String → Option String) (alive : String → Bool)
    (u : TfBuilderStatus) (c : Connections) (m : TfBuilderClients) (ks : List Call)
    → u.sockets_enabled ≡ true
    → length u.sockets ≡ length c.stf_sender_ids
    → length c.stf_senders.clients ≡ length c.stf_sender_ids
    → add_if_new config alive u.process_id c.tf_builders ≡ some (true, m)
    → plan u 0 c.stf_senders.clients ≡ some ks
    → verdict answer ks ≡ ok
    → connect_tf_builder answer config alive u c
      ≡ some (ok, numbered answer 0 ks, record c { tf_builders = m; calls = c.calls ++ ks })
unfolding connect_tf_builder
connect_tf_builder-ok answer config alive u c m ks h0 h1 h2 h3 h4 h5 = ground (
  arith,
  h0,
  h1,
  h2,
  h3,
  h5,
  asked_all answer ks h5,
  connect_senders-plan answer u 0 c.stf_senders.clients [] c.calls ks tt h4,
)
