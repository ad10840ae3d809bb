-- ===== src/Common/RpcClients/Lookup.antt =====
-- What the collections of gRPC clients hold behind their operations
-- (src/common/discovery/StfSenderRpcClient.h, src/common/discovery/TfBuilderRpcClient.h).
use data_distribution.Prelude.{
  Bool, true, false, String, ◌==◌, string_eq, text_before, List, [], ◌∷◌, Option, none, some,
  if◌then◌else◌, find, find-emplace, ◌≡◌, refl, inl, inr, Option-cases, arith, eq_iff,
}
use data_distribution.Common.RpcClients.{
  create_client, create_clients, TfBuilderClient, TfBuilderClients, is_alive, start_client,
  add_if_new,
}

-- Whether an id is one of a list.
abbrev pub is_listed : String → List String → Bool
is_listed id [] = false
is_listed id (j ∷ ids) = if j == id then true else is_listed id ids

-- The endpoint that a StfSender can be reached at: the empty one counts as missing.
abbrev pub usable : Option String → Option String
usable none = none
usable (some e) = if e == "" then none else some e

abbrev pub or_else : Option String → Option String → Option String
or_else none o = o
or_else (some e) o = some e

find-create_client :
    (config : String → Option String) (id j : String) (m : List (String × String))
    → find j (create_client config id m)
      ≡ (if id == j then or_else (find j m) (usable (config j)) else find j m)
unfolding create_client
find-create_client config id j m = elim (Option-cases (find id m)) [
  | inr (e, f) ↦ ground (arith, eq_iff id j, f)
  | inl f ↦ elim (Option-cases (config id)) [
    | inl c ↦ ground (arith, eq_iff id j, f, c)
    | inr (e, c) ↦ ground (arith, eq_iff id j, f, c, find-emplace text_before id j e m f)
  ]
]

-- create_clients keeps the clients that are there and adds one for each listed StfSender with a
-- published endpoint that is not empty.
pub find-create_clients :
    (config : String → Option String) (ids : List String) (j : String) (m : List (String × String))
    → find j (create_clients config ids m)
      ≡ (if is_listed j ids then or_else (find j m) (usable (config j)) else find j m)
unfolding create_clients
find-create_clients config [] j m = refl
find-create_clients config (id ∷ ids) j m = ground (
  arith,
  find-create_clients config ids j (create_client config id m),
  find-create_client config id j m,
)

-- The client of a TfBuilder behind add_if_new(): the one that was there, or one for its endpoint.
abbrev pub opened :
    (String → Option String) → Option TfBuilderClient → String → Option TfBuilderClient
opened config (some c) id = some c
opened config none id = elim (config id) [
  | none ↦ none
  | some e ↦ some (record { running = true; endpoint = e })
]

pub find-add_if_new :
    (config : String → Option String) (alive : String → Bool) (id j : String)
    (m m' : TfBuilderClients) (ok : Bool)
    → add_if_new config alive id m ≡ some (ok, m')
    → find j m' ≡ (if id == j then opened config (find j m) j else find j m)
unfolding add_if_new start_client is_alive
find-add_if_new config alive id j m m' ok h = elim (Option-cases (find id m)) [
  | inr (e, f) ↦ ground (arith, eq_iff id j, f)
  | inl f ↦ elim (Option-cases (config id)) [
    | inl c ↦ ground (arith, eq_iff id j, f, c)
    | inr (e, c) ↦
        let started : TfBuilderClient = record { running = true; endpoint = e } in
        ground (arith, eq_iff id j, f, c, find-emplace text_before id j started m f)
  ]
]
