-- ===== src/Common/HeaderAdapter.antt =====
-- TimeFrameBuilder::adaptHeaders and newHeaderMessage (src/common/SubTimeFrameBuilder.cxx), on the messages
-- of a time frame in the order of the maps. The sizes of O2's headers, the clock and the memory for
-- messages are arguments; what undefined behaviour leads to is none.
pub mod Adapted
use data_distribution.Prelude.{
  ℕ, ◌+◌, Bool, true, false, not, ◌&&◌, ◌||◌, ◌==◌, nat_eq, List, [], ◌∷◌, Option, none, some,
  if◌then◌else◌, ltb,
}

-- A header message: its size, whether its stack has a DataHeader, which comes first, the start time and the creation
-- time of its DataProcessingHeader if it has one, and whether it is in shared memory.
pub record HeaderMsg : Type 0 where
  pub size : ℕ
  pub has_data_header : Bool
  pub dpl_header : Option (ℕ × ℕ)
  pub in_shm : Bool

-- The header may be null; a data part is its size and whether it is in shared memory.
pub record TfMessage : Type 0 where
  pub header : Option HeaderMsg
  pub data_parts : List (ℕ × Bool)

-- Both regions are there, the sizes of the headers, the clock, sInvalidTimeMs, and the memory.
pub record Adapting : Type 0 where
  pub has_memory_resources : Bool
  pub sizeof_data_header : ℕ
  pub sizeof_dpl_header : ℕ
  pub now : ℕ
  pub invalid_time : ℕ
  pub header_memory : ℕ → Bool
  pub data_memory : ℕ → Bool

-- newHeaderMessage, for a stack with a DataHeader in front.
unfoldable pub new_header_message : Adapting → HeaderMsg → Option HeaderMsg
new_header_message env h =
    if ltb h.size env.sizeof_data_header
    then none
    else if not h.has_data_header
    then none
    else if env.header_memory h.size
    then some (record h { in_shm = true })
    else none

-- A round of the first loop; false where it returns.
unfoldable pub add_dpl_header : Adapting → ℕ → ℕ → TfMessage → TfMessage × Bool
add_dpl_header env id creation m = elim m.header [
  | none ↦ (m, true)
  | some h ↦
      if ltb h.size env.sizeof_data_header || not h.has_data_header
      then (m, true)
      else elim h.dpl_header [
        | some old ↦
            (record m { header = some (record h { dpl_header = some (id, creation) }) }, true)
        | none ↦
            let stack : HeaderMsg = record h {
              size = h.size + env.sizeof_dpl_header;
              dpl_header = some (id, creation);
            } in
            elim (new_header_message env stack) [
              | none ↦ (record m { header = none }, false)
              | some new ↦ (record m { header = some new }, true)
            ]
      ]
]

unfoldable pub add_dpl_headers : Adapting → ℕ → ℕ → List TfMessage → List TfMessage × Bool
add_dpl_headers env id creation [] = ([], true)
add_dpl_headers env id creation (m ∷ ms) =
    let (first, ok) = add_dpl_header env id creation m in
    let (rest, end) = add_dpl_headers env id creation ms in
    if ok then (first ∷ rest, end) else (first ∷ ms, false)

-- The data parts of a message in shared memory; false where it returns.
unfoldable pub move_parts : Adapting → List (ℕ × Bool) → List (ℕ × Bool) × Bool
move_parts env [] = ([], true)
move_parts env (p ∷ ps) =
    let (rest, end) = move_parts env ps in
    if p.1 || env.data_memory p.0 then ((p.0, true) ∷ rest, end) else (p ∷ ps, false)

-- A round of the second loop, which goes through the pointer to the header.
unfoldable pub move_to_shm : Adapting → TfMessage → Option (TfMessage × Bool)
move_to_shm env m = elim m.header [
  | none ↦ none
  | some h ↦
      let (parts, end) = move_parts env m.data_parts in
      if h.in_shm
      then some (record m { data_parts = parts }, end)
      else elim (new_header_message env h) [
        | none ↦ some (m, false)
        | some new ↦ some (record { header = some new; data_parts = parts }, end)
      ]
]

unfoldable pub move_all : Adapting → List TfMessage → Option (List TfMessage)
move_all env [] = some []
move_all env (m ∷ ms) =
    let rest = move_all env ms in
    elim (move_to_shm env m) [
      | none ↦ none
      | some r ↦
          if r.1 then elim rest [ none ↦ none | some out ↦ some (r.0 ∷ out) ] else some (r.0 ∷ ms)
    ]

unfoldable pub creation_time : Adapting → ℕ → ℕ
creation_time env t = if t == env.invalid_time || t == 0 then env.now else t

-- adaptHeaders, for the id and the creation time of the time frame.
unfoldable pub adapt_headers : Adapting → ℕ → ℕ → List TfMessage → Option (List TfMessage)
adapt_headers env id created ms =
    let (adapted, ok) = add_dpl_headers env id (creation_time env created) ms in
    let moved = move_all env adapted in
    if not env.has_memory_resources then some ms else if ok then moved else some adapted
