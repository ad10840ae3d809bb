-- ===== src/TfBuilder/Rpc/Requests.antt =====
-- What StfRequestThread and BuildTfRequest (src/TfBuilder/TfBuilderRpc.cxx) ask of the StfSenders.
use mathlib.Core.List.Perm
use mathlib.Core.List.{append_assoc, append-nil, perm_middle}
use data_distribution.Prelude.{
  ℕ, zero, suc, ◌+◌, ◌%◌, ◌≤◌, ◌≡◌, refl, sym, ap, subst, ◌∙◌, ◌⊎◌, inl, inr, Bool, true, false,
  List, [], ◌∷◌, ◌++◌, some, String, ◌==◌, nat_eq, string_eq, ltb, if◌then◌else◌, find-insert,
  length, length-append, Bool-cases, arith, Perm,
}
use data_distribution.Common.ConcurrentQueue.{Queue, fifo, push}
use data_distribution.TfBuilder.Rpc.{
  TfBuilderRpc, StfRequest, ReceivedStfMeta, delete, take_at, request_stfs, conclude_requests,
  handle_request, set_number_of_stfs, get_number_of_stfs, first_sender, insert_by_size,
  sort_by_size,
}

-- The StfSenders that will send: those that could be reached and answered OK.
abbrev pub sender_of : (StfRequest → Bool) → StfRequest → List String
sender_of ask q = if ask q then q.stf_sender_id ∷ [] else []

abbrev pub senders : (StfRequest → Bool) → List StfRequest → List String
senders ask [] = []
senders ask (q ∷ qs) = sender_of ask q ++ senders ask qs

take_at-perm :
    (k : ℕ) (q : StfRequest) (qs : List StfRequest)
    → let (z, zs) = take_at k q qs in Perm (z ∷ zs) (q ∷ qs) × (length zs ≡ length qs)
unfolding take_at
take_at-perm zero q qs = (Perm.rfl, refl)
take_at-perm (suc k) q [] = (Perm.rfl, refl)
take_at-perm (suc k) q (p ∷ ps) =
    let (h, l) = take_at-perm k p ps in
    let (z, zs) = take_at k p ps in
    (Perm.trans (perm_middle (z ∷ []) zs) (Perm.append_left (q ∷ []) h), omega (arith, l))

push-running :
    (input : Queue String) (a : String)
    → input.running ≡ true
    → push fifo input a ≡ (true, record input { container = input.container ++ a ∷ [] })
unfolding push
push-running input a e = rw e refl

-- The request that goes out next, and what it adds.
abbrev asked : (StfRequest → Bool) → StfRequest → ℕ → Queue String → ℕ × Queue String
asked ask q expected input =
    if ask q then (expected + 1, (push fifo input q.stf_sender_id).1) else (expected, input)

asked-adds :
    (ask : StfRequest → Bool) (q : StfRequest) (expected : ℕ) (input : Queue String)
    → input.running ≡ true
    → let (expected', input') = asked ask q expected input in
      (expected' ≡ expected + length (sender_of ask q))
      × (input'.container ≡ input.container ++ sender_of ask q)
      × (input'.running ≡ true)
asked-adds ask q expected input e = elim (Bool-cases (ask q)) [
  | inl f ↦ rw (f, push-running input q.stf_sender_id e) (refl, refl, e)
  | inr f ↦ rw f (omega arith, sym (append-nil input.container), e)
]

request_stfs-adds :
    (fuel : ℕ) (running : ℕ → Bool) (pick : ℕ → ℕ) (ask : StfRequest → Bool)
    (v calls : List StfRequest) (expected : ℕ) (input : Queue String)
    → length v ≤ fuel
    → input.running ≡ true
    → let (calls', expected', input') = request_stfs fuel running pick ask v calls expected input in
      (new : List StfRequest) × (left : List StfRequest) × (calls' ≡ calls ++ new)
      × Perm (new ++ left) v
      × ((left ≡ []) ⊎ (running (length left) ≡ false))
      × (expected' ≡ expected + length (senders ask new))
      × (input'.container ≡ input.container ++ senders ask new)
unfolding request_stfs
request_stfs-adds fuel running pick ask [] calls expected input h e = (
  [],
  [],
  sym (append-nil calls),
  Perm.rfl,
  inl refl,
  omega arith,
  sym (append-nil input.container),
)
request_stfs-adds zero running pick ask (q ∷ qs) calls expected input h e = absurd (omega arith)
request_stfs-adds (suc fuel) running pick ask (q ∷ qs) calls expected input h e =
    let k = pick (suc (length qs)) % suc (length qs) in
    let (same, l) = take_at-perm k q qs in
    let (z, zs) = take_at k q qs in
    let (one_more, there, on) = asked-adds ask z expected input e in
    let (expected', input') = asked ask z expected input in
    let (new, left, called, perm, end, all, told) =
      request_stfs-adds fuel running pick ask zs (calls ++ z ∷ []) expected' input'
        (omega (arith, l)) on in
    let here = sender_of ask z in
    elim (Bool-cases (running (suc (length qs)))) [
      | inl f ↦ rw f (
        z ∷ new,
        left,
        called ∙ append_assoc calls (z ∷ []) new,
        Perm.trans (Perm.append_left (z ∷ []) perm) same,
        end,
        omega (arith, all, one_more, length-append here (senders ask new)),
        told
            ∙ ap (λ c. c ++ senders ask new) there
            ∙ append_assoc input.container here (senders ask new),
      )
      | inr f ↦ rw f (
        [],
        q ∷ qs,
        sym (append-nil calls),
        Perm.rfl,
        inr f,
        omega arith,
        sym (append-nil input.container),
      )
    ]

-- For every order in which the requests go out and all answers, for a queue that runs: the loop over
-- the requests of a time frame, with as much fuel as there are requests, calls StfDataRequest once for
-- each request, unless the thread is stopped, and then for none of those that are left. The number of
-- SubTimeFrames to expect is the number of the called StfSenders that answered OK, and these, in the
-- order of the calls, are what the input stage is told to fetch.
pub request_stfs_asks_all :
    (running : ℕ → Bool) (pick : ℕ → ℕ) (ask : StfRequest → Bool) (v : List StfRequest)
    (input : Queue String)
    → input.running ≡ true
    → let (calls, expected, input') = request_stfs (length v) running pick ask v [] 0 input in
      (left : List StfRequest) × Perm (calls ++ left) v
      × ((left ≡ []) ⊎ (running (length left) ≡ false))
      × (expected ≡ length (senders ask calls))
      × (input'.container ≡ input.container ++ senders ask calls)
request_stfs_asks_all running pick ask v input e =
    let (new, left, called, perm, end, all, told) =
      request_stfs-adds (length v) running pick ask v [] 0 input (omega arith) e in
    (
      left,
      subst (λ c. Perm (c ++ left) v) (sym called) perm,
      end,
      subst
          (λ c. (request_stfs (length v) running pick ask v [] 0 input).1 ≡ length (senders ask c))
          (sym called) (omega (arith, all)),
      subst
          (λ c.
            (request_stfs (length v) running pick ask v [] 0 input).2.container
            ≡ input.container ++ senders ask c)
          (sym called) told,
    )

-- What the input stage is told when no SubTimeFrame will come.
abbrev pub give_up : ℕ → ℕ → List ReceivedStfMeta
give_up id n = if n == 0 then delete id ∷ [] else []

conclude_requests-says :
    (tf_id renamed_id expected : ℕ) (is_topo : Bool) (sender : String) (r : TfBuilderRpc)
    → r.received_data_queue.running ≡ true
    → let id = if is_topo then renamed_id else tf_id in
      let r' = conclude_requests tf_id is_topo renamed_id sender expected r in
      (get_number_of_stfs id r' ≡ some expected)
      × (r'.received_data_queue.container ≡ r.received_data_queue.container ++ give_up id expected)
unfolding conclude_requests set_number_of_stfs get_number_of_stfs push
conclude_requests-says tf_id renamed_id expected true sender r e =
    let counted = find-insert renamed_id renamed_id expected r.stfs_count_map in
    elim (Bool-cases (expected == 0)) [
      | inl f ↦ rw (f, e) (ground (arith, counted), refl)
      | inr f ↦ rw f (ground (arith, counted), sym (append-nil r.received_data_queue.container))
    ]
conclude_requests-says tf_id renamed_id expected false sender r e =
    let counted = find-insert tf_id tf_id expected r.stfs_count_map in
    elim (Bool-cases (expected == 0)) [
      | inl f ↦ rw (f, e) (ground (arith, counted), refl)
      | inr f ↦ rw f (ground (arith, counted), sym (append-nil r.received_data_queue.container))
    ]

-- For queues that run, and every order of the requests and all answers: behind an entry of the request
-- queue, the number of SubTimeFrames recorded for its time frame, under the new id if it is
-- topological, is that of the called StfSenders that answered OK, and only if there are none is the
-- input stage told to forget the time frame.
pub handle_request_counts :
    (running : ℕ → Bool) (pick : ℕ → ℕ) (ask : StfRequest → Bool) (tf_id renamed_id : ℕ)
    (is_topo : Bool) (v : List StfRequest) (r : TfBuilderRpc)
    → r.stf_input_queue.running ≡ true
    → r.received_data_queue.running ≡ true
    → let id = if is_topo then renamed_id else tf_id in
      let calls = (request_stfs (length v) running pick ask v [] 0 r.stf_input_queue).0 in
      let r' = handle_request running pick ask (tf_id, is_topo, renamed_id, v) r in
      (get_number_of_stfs id r' ≡ some (length (senders ask calls)))
      × (r'.received_data_queue.container
          ≡ r.received_data_queue.container ++ give_up id (length (senders ask calls)))
unfolding handle_request
handle_request_counts running pick ask tf_id renamed_id is_topo v r on on' =
    let (left, perm, end, all, queued) =
      request_stfs_asks_all running pick ask v r.stf_input_queue on in
    let result = request_stfs (length v) running pick ask v [] 0 r.stf_input_queue in
    let id = if is_topo then renamed_id else tf_id in
    let sender = if is_topo then first_sender v else "" in
    let (counted, told) =
      conclude_requests-says tf_id renamed_id result.1 is_topo sender
        (record r { stf_input_queue = result.2 }) on' in
    (counted ∙ ap some all, told ∙ ap (λ n. r.received_data_queue.container ++ give_up id n) all)

-- The requests rise by size.
abbrev pub Rises : ℕ → List StfRequest → Type 0
Rises lo [] = Unit {0}
Rises lo (q ∷ qs) = (lo ≤ q.stf_data_size) × Rises q.stf_data_size qs

insert_by_size-Rises :
    (lo : ℕ) (q : StfRequest) (qs : List StfRequest)
    → lo ≤ q.stf_data_size
    → Rises lo qs
    → Rises lo (insert_by_size q qs)
unfolding insert_by_size
insert_by_size-Rises lo q [] h r = (h, tt)
insert_by_size-Rises lo q (p ∷ ps) h r = elim (Bool-cases (ltb p.stf_data_size q.stf_data_size)) [
  | inl e ↦ rw e (r.0, insert_by_size-Rises p.stf_data_size q ps (ground (arith, e)) r.1)
  | inr e ↦ rw e (h, (ground (arith, e), r.1))
]

insert_by_size-perm : (q : StfRequest) (qs : List StfRequest) → Perm (insert_by_size q qs) (q ∷ qs)
unfolding insert_by_size
insert_by_size-perm q [] = Perm.rfl
insert_by_size-perm q (p ∷ ps) = elim (Bool-cases (ltb p.stf_data_size q.stf_data_size)) [
  | inl e ↦
      rw e (
        Perm.trans (Perm.append_left (p ∷ []) (insert_by_size-perm q ps)) (perm_middle (p ∷ []) ps))
  | inr e ↦ rw e Perm.rfl
]

-- BuildTfRequest sorts its requests: the same ones, and rising by size, whatever they are.
pub sort_by_size_sorts :
    (qs : List StfRequest) → Perm (sort_by_size qs) qs × Rises 0 (sort_by_size qs)
unfolding sort_by_size
sort_by_size_sorts [] = (Perm.rfl, tt)
sort_by_size_sorts (q ∷ qs) =
    let (p, r) = sort_by_size_sorts qs in
    (
      Perm.trans (insert_by_size-perm q (sort_by_size qs)) (Perm.append_left (q ∷ []) p),
      insert_by_size-Rises 0 q (sort_by_size qs) (omega arith) r,
    )
