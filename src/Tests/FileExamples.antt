-- ===== src/Tests/FileExamples.antt =====
-- Examples for src/common/SubTimeFrameFileWriter.cxx and SubTimeFrameFileReader.cxx: a SubTimeFrame of two equipments.
use data_distribution.Prelude.{
  Bool, true, text_before, List, [], ◌∷◌, none, some, ◌++◌, map, ◌≡◌, arith, refl, find,
}
use data_distribution.Common.SubTimeFrame.{
  EquipmentIdentifier, equipment_eq, SubTimeFrame, messages_of, update_stf, update_message,
}
use data_distribution.Common.FileWriter.{
  Piece, meta_header, meta, write, pieces, visit, build_index, sort, insert_sorted, write_messages,
  collect, write_parts,
}
use data_distribution.Common.FileWriter.Layout.{fresh}
use data_distribution.Common.SubTimeFrame.Merging.{Unique}
use data_distribution.Common.FileReader.{Reading, Reader, read}
use data_distribution.Common.FileReader.Rebuilding.{first_message}
use data_distribution.Common.FileReader.RoundTrip.{read-write}
use data_distribution.Common.FileReader.Updating.{IsStored}
use data_distribution.Tests.InputExamples.{second_half, its}

abbrev by_origin : EquipmentIdentifier → EquipmentIdentifier → Bool
by_origin d e = text_before d.data_origin e.data_origin

-- Two headers with 24 and 96 bytes, and two data parts of 20 and 3 bytes with their headers.
size_of_second_half : (write by_origin 80 true none second_half (fresh [] [])).0 ≡ 463
unfolding write pieces visit build_index sort update_stf insert_sorted write_messages collect find
    write_parts update_message
size_of_second_half = refl

abbrev with_memory : Reading
with_memory = record {
  sizeof_header = 80;
  has_data_memory = λ n. true;
  has_header_memory = λ h. true;
  orbit_of = λ h n. none;
}

-- What is in the file, with a further SubTimeFrame behind it.
abbrev tail_of_file : List Piece
tail_of_file = meta_header ∷ meta 104 ∷ []

abbrev at_start : Reader
at_start = record {
  opened = true;
  rest = (write by_origin 80 true none second_half (fresh [] [])).1.file ++ tail_of_file;
  stf_data = [];
  next_stf_id = 0;
}

two_equipments : Unique second_half.content
unfolding find
two_equipments = (refl, (refl, tt))

half_parts : IsStored second_half.content
half_parts = (((refl, omega arith, omega arith), tt), (((refl, omega arith, omega arith), tt), tt))

read-write_example :
    (s' : SubTimeFrame) × ((read with_memory at_start).0 ≡ some s')
    × ((read with_memory at_start).1.rest ≡ tail_of_file)
    × (messages_of (find its s'.content)
        ≡ map first_message (messages_of (find its (update_stf second_half).content)))
read-write_example =
    read-write by_origin with_memory second_half [] tail_of_file at_start its
      (omega arith, (λ n. refl), (λ h. refl)) refl two_equipments half_parts refl refl
