-- ===== src/Common/FileWriter.antt =====
-- SubTimeFrameFileWriter (src/common/SubTimeFrameFileWriter.cxx) and the structures of the file
-- (src/common/SubTimeFrameFile.h). The file is the sequence of what is written, with its sizes, which
-- are those of data in memory and so below 2 ^ 64. The size of a DataHeader, which belongs to O2, and the
-- order of equipments are arguments. The information file and the renaming of files are left out.
pub mod Layout
use data_distribution.Prelude.{
  ℕ, suc, ◌+◌, ◌*◌, ◌%◌, ◌^◌, Bool, true, false, not, List, [], ◌∷◌, ◌++◌, Option, none, some,
  if◌then◌else◌, find, length,
}
use data_distribution.Common.SubTimeFrame.{
  EquipmentIdentifier, equipment_eq, DataHeader, StfMessage, SubTimeFrame, DataMap, messages_of,
  update_stf, get_equipment_identifiers,
}

-- DataIndexElem
pub record IndexElem : Type 0 where
  pub equipment : EquipmentIdentifier
  pub data_block_cnt : ℕ
  pub offset : ℕ
  pub size : ℕ

-- The headers of the two parts at the front, those parts, and the header and the payload of a data part,
-- whose header has the payload's size and its place among the parts of the message.
pub data Piece : Type 0 where
  meta_header : Piece
  meta : ℕ → Piece
  index_header : ℕ → Piece
  index : List IndexElem → Piece
  data_header : DataHeader → ℕ → ℕ → Piece
  payload : ℕ → Piece

pub record Writer : Type 0 where
  pub stf_data : List StfMessage
  pub data_index : List IndexElem
  pub stf_size : ℕ
  pub file : List Piece

abbrev pub sizeof_meta : ℕ
sizeof_meta = 24

abbrev pub sizeof_index_elem : ℕ
sizeof_index_elem = 48

-- std::sort
unfoldable pub insert_sorted :
    (EquipmentIdentifier → EquipmentIdentifier → Bool)
    → EquipmentIdentifier
    → List EquipmentIdentifier
    → List EquipmentIdentifier
insert_sorted before e [] = e ∷ []
insert_sorted before e (d ∷ ds) = if before d e then d ∷ insert_sorted before e ds else e ∷ d ∷ ds

unfoldable pub sort :
    (EquipmentIdentifier → EquipmentIdentifier → Bool)
    → List EquipmentIdentifier
    → List EquipmentIdentifier
sort before [] = []
sort before (e ∷ es) = insert_sorted before e (sort before es)

-- The size and the count of the data parts of an equipment.
abbrev pub size_of_parts : ℕ → List ℕ → ℕ
size_of_parts hdr [] = 0
size_of_parts hdr (n ∷ ns) = hdr + n + size_of_parts hdr ns

abbrev pub size_in_file : ℕ → List StfMessage → ℕ
size_in_file hdr [] = 0
size_in_file hdr (m ∷ ms) = size_of_parts hdr m.data_parts + size_in_file hdr ms

abbrev pub count_of : List StfMessage → ℕ
count_of [] = 0
count_of (m ∷ ms) = length m.data_parts + count_of ms

unfoldable pub collect : DataMap → List EquipmentIdentifier → List StfMessage
collect m [] = []
collect m (e ∷ es) = messages_of (find e m) ++ collect m es

unfoldable pub total_size : ℕ → DataMap → List EquipmentIdentifier → ℕ
total_size hdr m [] = 0
total_size hdr m (e ∷ es) = size_in_file hdr (messages_of (find e m)) + total_size hdr m es

unfoldable pub build_index : ℕ → DataMap → ℕ → List EquipmentIdentifier → List IndexElem
build_index hdr m off [] = []
build_index hdr m off (e ∷ es) =
    let ms = messages_of (find e m) in
    record {
      equipment = e;
      data_block_cnt = count_of ms % 2 ^ 32;
      offset = off;
      size = size_in_file hdr ms;
    }
    ∷ build_index hdr m (off + size_in_file hdr ms) es

-- visit(), for a SubTimeFrame that accept() has updated.
unfoldable pub visit :
    (EquipmentIdentifier → EquipmentIdentifier → Bool) → ℕ → SubTimeFrame → Writer → Writer
visit before hdr s w =
    let es = sort before (get_equipment_identifiers s.content) in
    record w {
      stf_data = collect s.content es;
      stf_size = w.stf_size + total_size hdr s.content es;
      data_index = w.data_index ++ build_index hdr s.content 0 es;
    }

unfoldable pub get_size_in_file : ℕ → Writer → ℕ
get_size_in_file hdr w =
    (hdr + sizeof_meta) + (hdr + sizeof_index_elem * length w.data_index) + w.stf_size

-- The loops over the messages and their parts.
unfoldable pub write_parts : DataHeader → ℕ → List ℕ → List Piece
write_parts h i [] = []
write_parts h i (n ∷ ns) = data_header h n i ∷ payload n ∷ write_parts h (suc i) ns

unfoldable pub write_messages : List StfMessage → List Piece
write_messages [] = []
write_messages (m ∷ ms) = write_parts m.header 0 m.data_parts ++ write_messages ms

abbrev pub piece_size : ℕ → Piece → ℕ
piece_size hdr meta_header = hdr
piece_size hdr (meta n) = sizeof_meta
piece_size hdr (index_header n) = hdr
piece_size hdr (index es) = sizeof_index_elem * length es
piece_size hdr (data_header h n i) = hdr
piece_size hdr (payload n) = n

abbrev pub written_size : ℕ → List Piece → ℕ
written_size hdr [] = 0
written_size hdr (p ∷ ps) = piece_size hdr p + written_size hdr ps

-- What _write sends to the stream.
unfoldable pub pieces : ℕ → Writer → List Piece
pieces hdr w =
    meta_header
    ∷ meta (get_size_in_file hdr w)
    ∷ index_header (sizeof_index_elem * length w.data_index)
    ∷ index w.data_index
    ∷ write_messages w.stf_data

-- write(), where `good` is the state of the stream and `broken` what is in the file when it fails on the
-- way.
unfoldable pub write :
    (EquipmentIdentifier → EquipmentIdentifier → Bool)
    → ℕ
    → Bool
    → Option (List Piece)
    → SubTimeFrame
    → Writer
    → ℕ × Writer
write before hdr good broken s w =
    if not good
    then (0, w)
    else (let v = visit before hdr (update_stf s) w in
        let clean : (List Piece → Writer) =
          λ ps. record { stf_data = []; data_index = []; stf_size = 0; file = w.file ++ ps } in
        elim broken [
          | some ps ↦ (0, clean ps)
          | none ↦ (written_size hdr (pieces hdr v), clean (pieces hdr v))
        ])
