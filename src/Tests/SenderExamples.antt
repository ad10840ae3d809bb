-- ===== src/Tests/SenderExamples.antt =====
-- Examples for src/StfSender/StfSenderOutput.cxx.
use data_distribution.Prelude.{ℕ, refl, true, List, [], ◌∷◌, ◌++◌, Perm}
use data_distribution.Common.ConcurrentQueue.{empty}
use data_distribution.StfSender.Output.{Output, SubTimeFrame, Origin, readout, unknown}
use data_distribution.StfSender.Output.Conservation.{
  Event, arrives, is_rejected, is_requested, drops, run, run_conserves, taken_in, arrivals,
}

abbrev nothing_yet : Output
nothing_yet = record {
  last_stf_id = 0;
  scheduled_stf_map = [];
  drop_queue = empty;
  buffered_size = 0;
  buffered_cnt = 0;
  in_sending_size = 0;
  in_sending_cnt = 0;
  missing = 0;
  handed_over = [];
  deleted = [];
}

abbrev stf : ℕ → Origin → SubTimeFrame
stf k o = record { stf_id = k; data_size = 100; origin = o; num_equipments = 1 }

abbrev traffic : List Event
traffic =
    arrives true (stf 1 readout)
    ∷ arrives true (stf 2 readout)
    ∷ is_rejected 2
    ∷ arrives true (stf 3 unknown)
    ∷ is_requested 1 "tfb" true
    ∷ is_requested 1 "-1" true
    ∷ drops
    ∷ []

run_conserves_example :
    Perm (taken_in (run nothing_yet traffic)) (arrivals traffic ++ taken_in nothing_yet)
run_conserves_example = run_conserves nothing_yet traffic (record { ascends = tt; running = refl })
