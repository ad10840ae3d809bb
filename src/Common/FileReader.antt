-- ===== src/Common/FileReader.antt =====
-- SubTimeFrameFileReader (src/common/SubTimeFrameFileReader.h and .cxx), on a file that is a sequence of
-- the pieces of the FileWriter. Every header is one DataHeader of the current version, so getHeaderStack
-- gives it, or nothing where another piece stands. The place in the file is the pieces behind it. The
-- memory for messages and the orbit that a payload of raw data shows are arguments.
pub mod Blocks
pub mod Rebuilding
pub mod Ordering
pub mod Updating
pub mod RoundTrip
use data_distribution.Prelude.{
  ℕ, suc, ◌+◌, ◌-◌, ◌*◌, ◌%◌, ◌^◌, Bool, true, false, not, ◌&&◌, ◌||◌, ◌==◌, nat_eq, List, [], ◌∷◌,
  ◌++◌, Option, none, some, if◌then◌else◌, ltb, leb, add64,
}
use data_distribution.Common.SubTimeFrame.{
  EquipmentIdentifier, DataHeader, SubTimeFrame, new_stf, update_stf, update_first_orbit,
  add_stf_data_start, add_stf_data_append,
}
use data_distribution.Common.FileWriter.{
  IndexElem, Piece, meta_header, meta, index_header, index, data_header, payload, sizeof_meta,
  piece_size, written_size,
}

-- SubTimeFrame::StfData: the header, which only the first part of a message has, and the data.
pub record StfData : Type 0 where
  pub header : Option DataHeader
  pub part : ℕ

pub record Reader : Type 0 where
  pub opened : Bool
  pub rest : List Piece
  pub stf_data : List StfData
  pub next_stf_id : ℕ

-- The size of a DataHeader, the memory for a part and for a header, and the orbit that a part shows, if
-- its header has none and it is raw data with an RDH.
pub record Reading : Type 0 where
  pub sizeof_header : ℕ
  pub has_data_memory : ℕ → Bool
  pub has_header_memory : DataHeader → Bool
  pub orbit_of : DataHeader → ℕ → Option ℕ

-- The payload size of a header, if the piece is one.
unfoldable pub header_payload : Piece → Option ℕ
header_payload meta_header = some sizeof_meta
header_payload (index_header n) = some n
header_payload (data_header h n i) = some n
header_payload (meta n) = none
header_payload (index es) = none
header_payload (payload n) = none

abbrev is_meta_header : Piece → Bool
is_meta_header meta_header = true
is_meta_header (index_header n) = false
is_meta_header (data_header h n i) = false
is_meta_header (meta n) = false
is_meta_header (index es) = false
is_meta_header (payload n) = false

-- visit(), where the equipment is that of lVec.
unfoldable pub visit : List StfData → Option EquipmentIdentifier → SubTimeFrame → SubTimeFrame
visit [] last s = s
visit (d ∷ ds) last s = elim d.header [
  | some h ↦ visit ds (some h.equipment) (add_stf_data_start h.equipment h d.part s)
  | none ↦ visit ds last (elim last [ none ↦ s | some e ↦ add_stf_data_append e d.part s ])
]

-- How the loop over the data ends: with all data read, with more than there should be, or with an error.
pub data BlocksRead : Type 0 where
  complete : List StfData → SubTimeFrame → List Piece → BlocksRead
  overran : List Piece → BlocksRead
  broken : BlocksRead

-- A header of data and its payload: the header with the index of the part, and the size.
unfoldable pub block_of : Piece → Piece → Option (DataHeader × ℕ)
block_of p q = elim p [
  | data_header h n i ↦ elim q [
    | payload m ↦ if m == n then some (record h { split_payload_index = i % 2 ^ 32 }, n) else none
    | _ ↦ none
  ]
  | _ ↦ none
]

abbrev starts_message : DataHeader → Bool
starts_message h = h.split_payload_index == 0 || leb h.split_payload_parts 1

unfoldable pub with_orbit : Option ℕ → SubTimeFrame → SubTimeFrame
with_orbit none s = s
with_orbit (some o) s = update_first_orbit o s

unfoldable pub read_blocks : Reading → ℕ → List Piece → List StfData → SubTimeFrame → BlocksRead
read_blocks env left [] ds s = if left == 0 then complete ds s [] else broken
read_blocks env left (p ∷ []) ds s = if left == 0 then complete ds s (p ∷ []) else broken
read_blocks env left (p ∷ q ∷ ps) ds s =
    if left == 0 then complete ds s (p ∷ q ∷ ps) else (elim (block_of p q) [
      | none ↦ broken
      | some b ↦
          let s' = with_orbit (env.orbit_of b.0 b.1) s in
          let entry : StfData = record {
            header = if starts_message b.0 then some b.0 else none;
            part = b.1;
          } in
          let size = env.sizeof_header + b.1 in
          let next = read_blocks env (left - size) ps (ds ++ (entry ∷ [])) s' in
          if not (env.has_data_memory b.1)
            || (starts_message b.0 && not (env.has_header_memory b.0))
          then broken
          else if ltb left size
          then overran ps
          else next
    ])

abbrev closed : Reader → Reader
closed r = record r { opened = false }

-- The part of read() from the data on, with `left` bytes of data.
unfoldable pub read_data :
    Reading → ℕ → List Piece → SubTimeFrame → Reader → Option SubTimeFrame × Reader
read_data env left ps s r = elim (read_blocks env left ps [] s) [
  | complete ds s' qs ↦
      (some (visit ds none (update_stf s')), record r { stf_data = ds; rest = qs })
  | overran qs ↦ (none, record r { rest = qs })
  | broken ↦ (none, closed r)
]

-- The part from the index on.
unfoldable pub read_index :
    Reading → ℕ → List Piece → SubTimeFrame → Reader → Option SubTimeFrame × Reader
read_index env size [] s r = (none, closed r)
read_index env size (p ∷ []) s r = (none, closed r)
read_index env size (p ∷ q ∷ ps) s r = elim (header_payload p) [
  | none ↦ (none, closed r)
  | some n ↦
      let front = (env.sizeof_header + sizeof_meta) + (env.sizeof_header + n) in
      if not (piece_size env.sizeof_header q == n)
      then (none, closed r)
      else if ltb size front
      then (none, record r { rest = ps })
      else read_data env (size - front) ps s r
]

-- The part on the meta information, with the size that it gives.
unfoldable pub read_meta :
    Reading → Piece → ℕ → List Piece → SubTimeFrame → Reader → Option SubTimeFrame × Reader
read_meta env p size ps s r =
    if not (is_meta_header p)
    then (none, closed r)
    else if size == env.sizeof_header + sizeof_meta
    then (none, closed r)
    else if ltb (written_size env.sizeof_header r.rest) size
    then (none, closed r)
    else read_index env size ps s r

abbrev meta_of : Piece → Option ℕ
meta_of (meta n) = some n
meta_of meta_header = none
meta_of (index_header n) = none
meta_of (index es) = none
meta_of (data_header h n i) = none
meta_of (payload n) = none

unfoldable pub read_front :
    Reading → List Piece → SubTimeFrame → Reader → Option SubTimeFrame × Reader
read_front env [] s r = (none, closed r)
read_front env (p ∷ []) s r = (none, closed r)
read_front env (p ∷ q ∷ ps) s r = elim (header_payload p) [
  | none ↦ (none, closed r)
  | some k ↦ elim (meta_of q) [ none ↦ (none, closed r) | some size ↦ read_meta env p size ps s r ]
]

unfoldable pub read : Reading → Reader → Option SubTimeFrame × Reader
read env r =
    let r0 = record r { stf_data = [] } in
    if written_size env.sizeof_header r.rest == 0 || not r.opened
    then (none, r0)
    else read_front env r.rest (new_stf r.next_stf_id)
        (record r0 { next_stf_id = add64 r.next_stf_id 1 })
