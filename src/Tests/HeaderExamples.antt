-- ===== src/Tests/HeaderExamples.antt =====
-- Examples for TimeFrameBuilder in src/common/SubTimeFrameBuilder.cxx: messages with and without a
-- DataProcessingHeader.
use data_distribution.Prelude.{true, false, List, [], ◌∷◌, none, some, ◌≡◌, refl, arith}
use data_distribution.Common.HeaderAdapter.{
  HeaderMsg, TfMessage, Adapting, creation_time, adapt_headers, add_dpl_headers, move_all,
  move_to_shm, add_dpl_header,
}
use data_distribution.Common.HeaderAdapter.Adapted.{AreAdapted, adapt_headers-AreAdapted}

abbrev environment : Adapting
environment = record {
  has_memory_resources = true;
  sizeof_data_header = 80;
  sizeof_dpl_header = 64;
  now = 500;
  invalid_time = 1000;
  header_memory = λ n. true;
  data_memory = λ n. true;
}

abbrev with_dpl : HeaderMsg
with_dpl = record { size = 144; has_data_header = true; dpl_header = some (0, 0); in_shm = true }

abbrev without_dpl : HeaderMsg
without_dpl = record { size = 80; has_data_header = true; dpl_header = none; in_shm = false }

abbrev time_frame : List TfMessage
time_frame =
    record { header = some with_dpl; data_parts = (100, true) ∷ (20, false) ∷ [] }
    ∷ record { header = some without_dpl; data_parts = (7, false) ∷ [] }
    ∷ []

adapt_headers-AreAdapted_example :
    (out : List TfMessage) × (adapt_headers environment 3 0 time_frame ≡ some out)
    × AreAdapted 3 (creation_time environment 0) time_frame out
adapt_headers-AreAdapted_example =
    adapt_headers-AreAdapted environment 3 0 time_frame (refl, (λ n. refl), (λ n. refl))
      ((with_dpl, refl, omega arith, refl), ((without_dpl, refl, omega arith, refl), tt))

-- A message without a header, which the first loop passes over, is undefined behaviour in the second.
no_header : adapt_headers environment 3 0 (record { header = none; data_parts = [] } ∷ []) ≡ none
unfolding adapt_headers add_dpl_headers add_dpl_header move_all move_to_shm
no_header = refl
