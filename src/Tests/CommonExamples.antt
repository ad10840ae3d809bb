-- ===== src/Tests/CommonExamples.antt =====
-- Examples for the containers and the event records of src/common/base.
use data_distribution.Prelude.{
  ℕ, ◌≡◌, refl, true, ◌&&◌, List, [], ◌∷◌, ◌++◌, ◌==◌, nat_eq, if◌then◌else◌, arith,
}
use data_distribution.Common.ConcurrentQueue.{Queue, fifo}
use data_distribution.Common.ConcurrentQueue.History.{
  Call, pushes, pushes_capacity, pops, tries, stops, pops_n, run,
}
use data_distribution.Common.ConcurrentQueue.Laws.{run_fifo}
use data_distribution.Common.EventRecorder.{EventRecorder, init, get_event, set_event, recordable}
use data_distribution.Common.EventRecorder.Laws.{get_event-set_event, init-IsValid}
use data_distribution.Tests.BitVector.{BitVector, nothing, bit_vector}

abbrev two : Queue ℕ
two = record { container = 1 ∷ 2 ∷ []; running = true }

abbrev calls : List (Call ℕ)
calls = pushes 3 ∷ pops ∷ tries ∷ pushes 4 ∷ stops ∷ pushes 5 ∷ pops_n 2 ∷ pops ∷ []

run_fifo_example :
    let s = run fifo two calls in s.delivered ++ s.queue.container ≡ two.container ++ s.accepted
run_fifo_example = run_fifo two calls tt

abbrev capped : List (Call ℕ)
capped = pushes_capacity 2 3 ∷ pops ∷ pushes_capacity 2 4 ∷ stops ∷ []

abbrev held : List ℕ
held = 1 ∷ 2 ∷ []

abbrev recorder : EventRecorder BitVector
recorder = init nothing 4

get_event-set_event_example :
    let evt : ℕ = 7 in
    get_event (set_event recorder evt true).1 evt
    ≡ (if recordable recorder evt && (evt == evt) then true else get_event recorder evt)
get_event-set_event_example =
    get_event-set_event recorder 7 7 true (init-IsValid nothing 4 refl) (omega arith)

abbrev seven : EventRecorder BitVector
seven = record { first_event = 7; records = recorder.records }
