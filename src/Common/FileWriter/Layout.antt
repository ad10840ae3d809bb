-- ===== src/Common/FileWriter/Layout.antt =====
-- Where SubTimeFrameFileWriter (src/common/SubTimeFrameFileWriter.cxx) puts the data of each equipment.
use data_distribution.Prelude.{ℕ, suc, ◌+◌, ◌%◌, ◌^◌, List, [], ◌∷◌, ◌++◌, ◌≡◌, refl, arith, find}
use data_distribution.Common.SubTimeFrame.{
  equipment_eq, DataHeader, StfMessage, SubTimeFrame, DataMap, messages_of,
}
use data_distribution.Common.FileWriter.{
  IndexElem, Piece, Writer, size_of_parts, size_in_file, count_of, write_parts, write_messages,
  written_size,
}

pub written_size-append :
    (hdr : ℕ) (ps qs : List Piece)
    → written_size hdr (ps ++ qs) ≡ written_size hdr ps + written_size hdr qs
written_size-append hdr [] qs = omega arith
written_size-append hdr (p ∷ ps) qs = omega (arith, written_size-append hdr ps qs)

written_size-write_parts :
    (hdr : ℕ) (h : DataHeader) (i : ℕ) (ns : List ℕ)
    → written_size hdr (write_parts h i ns) ≡ size_of_parts hdr ns
unfolding write_parts
written_size-write_parts hdr h i [] = refl
written_size-write_parts hdr h i (n ∷ ns) = omega (arith, written_size-write_parts hdr h (suc i) ns)

pub written_size-write_messages :
    (hdr : ℕ) (ms : List StfMessage) → written_size hdr (write_messages ms) ≡ size_in_file hdr ms
unfolding write_messages
written_size-write_messages hdr [] = refl
written_size-write_messages hdr (m ∷ ms) = omega (
  arith,
  written_size-append hdr (write_parts m.header 0 m.data_parts) (write_messages ms),
  written_size-write_parts hdr m.header 0 m.data_parts,
  written_size-write_messages hdr ms,
)

-- The entries of the index stand for blocks that follow each other: each one has the messages of its
-- equipment, as many parts as the entry counts (in 32 bits), the entry's size, and the sizes of those in front of it as
-- its offset; and the blocks make the data up.
abbrev pub Describes : ℕ → DataMap → ℕ → List IndexElem → List Piece → Type 0
Describes hdr m off [] ps = ps ≡ []
Describes hdr m off (e ∷ es) ps =
    let ms = messages_of (find e.equipment m) in
    (rest : List Piece) × (ps ≡ write_messages ms ++ rest)
    × (e.offset ≡ off)
    × (e.size ≡ written_size hdr (write_messages ms))
    × (e.data_block_cnt ≡ count_of ms % 2 ^ 32)
    × Describes hdr m (off + e.size) es rest

-- A writer with nothing left of an earlier SubTimeFrame.
abbrev pub fresh : List StfMessage → List Piece → Writer
fresh d file = record { stf_data = d; data_index = []; stf_size = 0; file = file }
