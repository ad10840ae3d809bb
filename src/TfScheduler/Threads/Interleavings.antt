-- ===== src/TfScheduler/Threads/Interleavings.antt =====
-- Interleavings of the scheduler's threads (src/TfScheduler/TfSchedulerStfInfo.cxx) and of the calls that
-- its gRPC service makes: SchedulingThread and TopoSchedulingThread in their steps, of the other threads
-- whole rounds, since StaleCleanupThread and HighWatermarkThread hold the lock of the collected updates and
-- DropThread only takes an element off its queue.
use data_distribution.Prelude.{
  ℕ, ◌<◌, refl, inl, inr, not, ◌&&◌, ◌==◌, Bool, false, Bool-cases, Option-cases, List, [], ◌∷◌,
  Option, String, nat_eq, All, length, subst, sym,
}
use data_distribution.Common.Bitset.{DynamicBitset}
use data_distribution.Common.ConcurrentQueue.{pop}
use data_distribution.Common.EventRecorder.{event_limit}
use data_distribution.TfScheduler.Messages.{
  StfUpdate, StfSenderState, TfBuildingInformation, BuildTfStatus, error_nomem, error_not_running,
  other,
}
use data_distribution.TfScheduler.TfBuilders.{
  TopoKey, selected, rejected, find_tf_builder_for_tf, find_tf_builder_for_topo_stf,
}
use data_distribution.TfScheduler.TfBuilders.Preservation.{
  Call, selects, assigns, marks, removes, step as builders_step,
}
use data_distribution.TfScheduler.StfInfo.{StfInfo, TopoStfInfo, add_stf_info}
use data_distribution.TfScheduler.StfInfo.Preservation.{add_stf_info-IsValid}
use data_distribution.TfScheduler.StfInfo.Queued.{IsQueued, add_stf_info-Queued}
use data_distribution.TfScheduler.Threads.{
  World, Rpc, no_client, grpc_error, answered, build_request, stale_cleanup, high_watermark,
  drop_round,
}
use data_distribution.TfScheduler.Threads.Steps.{
  Job, default, topological, Phase, at_queue, taken, taken_topo, asking, marking, dropping,
  disconnecting, removing, answer, drop_job, select_tf, select_topo, take_tf, take_topo, advance,
}
use data_distribution.TfScheduler.Threads.Invariant.{stale_cleanup-IsReady}
use data_distribution.TfScheduler.Threads.Rounds.{
  IsSound, high_watermark-IsReady, builders-IsSound, dropped-IsSound, disconnect-IsSound,
  queue-IsSound, apart-IsSound, dropped_topo-IsSound, drop_round-IsSound, pop_from, anything,
}

-- What can happen next: a gRPC call arrives, or a thread makes a step. Each carries what its
-- environment contributes.
pub data Event : Type 0 where
  receives : StfSenderState → ℕ → StfUpdate → Event
  reports : Call → Event
  schedules : Bool → (String → TfBuildingInformation → Rpc) → Event
  schedules_topo : (String → TfBuildingInformation → Rpc) → Event
  cleans : ℕ → ℕ → Event
  relieves : Option String → ℕ → Event
  drops : Event

-- The ids that the StfSenders send are in the range of the event records.
abbrev pub InRange : Event → Type 0
InRange (receives state now m) = m.stf_id < event_limit
InRange _ = Unit

-- The shared state, and where the two threads are.
pub record Threads (Bits : Type 0) : Type 0 where
  pub world : World Bits
  pub scheduling : Phase
  pub topo : Phase

abbrev pub IsJob : Job → Type 0
IsJob (default k) = k < event_limit
IsJob (topological t) = Unit

-- What a thread holds: updates of one time frame, one to `n`, or the id of one that it took up.
abbrev pub IsHeld : ℕ → Phase → Type 0
IsHeld n at_queue = Unit
IsHeld n (taken infos) = IsQueued n infos
IsHeld n (taken_topo t) = Unit
IsHeld n (asking job name request) = IsJob job
IsHeld n (marking name k) = Unit
IsHeld n (dropping job next) = IsJob job × IsHeld n next
IsHeld n (disconnecting name) = Unit
IsHeld n (removing name) = Unit

answer-IsHeld :
    (n : ℕ) (job : Job) (name : String) (r : Rpc) → IsJob job → IsHeld n (answer job name r)
unfolding answer
answer-IsHeld n job name no_client h = (h, tt)
answer-IsHeld n job name grpc_error h = (h, tt)
answer-IsHeld n (default k) name (answered BuildTfStatus.ok) h = tt
answer-IsHeld n (topological t) name (answered BuildTfStatus.ok) h = tt
answer-IsHeld n job name (answered error_nomem) h = (h, tt)
answer-IsHeld n job name (answered error_not_running) h = (h, tt)
answer-IsHeld n job name (answered other) h = tt

module _ {Bits : Type 0} ⦃B : DynamicBitset Bits⦄ where
  abbrev pub IsStep : ℕ → Phase × World Bits → Type 0
  IsStep n p = IsHeld n p.0 × IsSound n p.1

  unfoldable pub step : ℕ → Threads Bits → Event → Threads Bits
  step n s (receives state now m) = record s {
    world = record (s.world) { scheduler = (add_stf_info n state now m s.world.scheduler).1 };
  }
  step n s (reports c) = record s {
    world = record (s.world) { builders = builders_step s.world.builders c };
  }
  step n s (schedules incomplete ask) =
      let (p, w) = advance take_tf n incomplete ask s.scheduling s.world in
      record s { world = w; scheduling = p }
  step n s (schedules_topo ask) =
      let (p, w) = advance take_topo n false ask s.topo s.world in record s { world = w; topo = p }
  step n s (cleans now timeout) = record s {
    world = record (s.world) { scheduler = stale_cleanup now timeout s.world.scheduler };
  }
  step n s (relieves victim now) = record s {
    world = record (s.world) { scheduler = high_watermark victim now s.world.scheduler };
  }
  step n s drops = record s { world = (drop_round s.world).1 }

  unfoldable pub run : ℕ → Threads Bits → List Event → Threads Bits
  run n s [] = s
  run n s (e ∷ es) = run n (step n s e) es

  take_tf-IsStep : (n : ℕ) (w : World Bits) → IsSound n w → IsStep n (take_tf w)
  unfolding take_tf
  take_tf-IsStep n w v =
      let q = w.scheduler.complete_stfs_info_queue in
      elim (pop_from (IsQueued n) q.container q.running v.ready.1) [
        | inl (infos, e, here, rest) ↦ rw (e, take_tf) (here, queue-IsSound n w (pop q).1 rest v)
        | inr (inl e) ↦ rw (e, take_tf) (tt, v)
        | inr (inr e) ↦ rw (e, take_tf) (tt, v)
      ]

  take_topo-IsStep : (n : ℕ) (w : World Bits) → IsSound n w → IsStep n (take_topo w)
  unfolding take_topo
  take_topo-IsStep n w v =
      let q = w.scheduler.topo_stf_info_queue in
      elim (pop_from (λ t. Unit {0}) q.container q.running (anything q.container)) [
        | inl (t, e, here, rest) ↦ rw (e, take_topo) (tt, apart-IsSound n w _ refl refl refl refl v)
        | inr (inl e) ↦ rw (e, take_topo) (tt, v)
        | inr (inr e) ↦ rw (e, take_topo) (tt, v)
      ]

  select_tf-IsStep :
      (n : ℕ) (incomplete : Bool) (k : ℕ) (infos : List StfInfo) (w : World Bits)
      → k < event_limit
      → IsSound n w
      → IsStep n (select_tf n incomplete k infos w)
  unfolding select_tf builders_step
  select_tf-IsStep n incomplete k infos w h v =
      elim (Bool-cases (not (length infos == n) && not incomplete)) [
        | inl e ↦ rw e ((h, tt), v)
        | inr e ↦
            let request = build_request k infos in
            let found = find_tf_builder_for_tf request.tf_size w.builders in
            let v' = builders-IsSound n (selects request.tf_size) w v in
            rw e
              (elim found.0
                as (λ r. IsStep n (elim r [
                  | rejected why ↦ (dropping (default k) at_queue, record w { builders = found.1 })
                  | selected name ↦
                      (asking (default k) name request, record w { builders = found.1 })
                ])) [ rejected why ↦ ((h, tt), v') | selected name ↦ (h, v') ])
      ]

  select_topo-IsStep :
      (n : ℕ) (t : TopoStfInfo) (w : World Bits) → IsSound n w → IsStep n (select_topo t w)
  unfolding select_topo builders_step
  select_topo-IsStep n t w v =
      let key : TopoKey = record { sub_spec = t.sub_spec; data_origin = t.data_origin } in
      let v' = builders-IsSound n (assigns key) w v in
      elim (Option-cases (find_tf_builder_for_topo_stf key w.builders).0) [
        | inl e ↦ rw (e, select_topo) ((tt, tt), v')
        | inr (name, e) ↦ rw (e, select_topo) (tt, v')
      ]

  drop_job-IsSound :
      (n : ℕ) (job : Job) (w : World Bits) → IsJob job → IsSound n w → IsSound n (drop_job job w)
  unfolding drop_job
  drop_job-IsSound n (default k) w h v = dropped-IsSound n k w h v
  drop_job-IsSound n (topological t) w h v =
      dropped_topo-IsSound n t.stf_info.stf_id t.stf_info.process_id w v

  pub advance-IsStep :
      (take : World Bits → Phase × World Bits) (n : ℕ) (incomplete : Bool)
      (ask : String → TfBuildingInformation → Rpc) (p : Phase) (w : World Bits)
      → ((w' : World Bits) → IsSound n w' → IsStep n (take w'))
      → IsHeld n p
      → IsSound n w
      → IsStep n (advance take n incomplete ask p w)
  unfolding advance builders_step
  advance-IsStep take n incomplete ask at_queue w t h v = t w v
  advance-IsStep take n incomplete ask (taken []) w t h v = (tt, v)
  advance-IsStep take n incomplete ask (taken (i ∷ is)) w t (k, h, some_there, few, same) v =
      select_tf-IsStep n incomplete i.stf_info.stf_id (i ∷ is) w
        (subst (λ j. j < event_limit) (sym same.0) h) v
  advance-IsStep take n incomplete ask (taken_topo s) w t h v = select_topo-IsStep n s w v
  advance-IsStep take n incomplete ask (asking job name request) w t h v =
      (answer-IsHeld n job name (ask name request) h, v)
  advance-IsStep take n incomplete ask (marking name k) w t h v =
      (tt, builders-IsSound n (marks name k) w v)
  advance-IsStep take n incomplete ask (dropping job next) w t h v =
      (h.1, drop_job-IsSound n job w h.0 v)
  advance-IsStep take n incomplete ask (disconnecting name) w t h v =
      (tt, disconnect-IsSound n _ w v)
  advance-IsStep take n incomplete ask (removing name) w t h v =
      (tt, builders-IsSound n (removes name) w v)

  -- The invariants of the shared state, and of what the threads hold.
  pub record AreSound (n : ℕ) (s : Threads Bits) : Type 0 where
    pub sound : IsSound n s.world
    pub scheduling : IsHeld n s.scheduling
    pub topo : IsHeld n s.topo

  step-AreSound :
      (n : ℕ) (e : Event) (s : Threads Bits)
      → 0 < n
      → InRange e
      → AreSound n s
      → AreSound n (step n s e)
  unfolding step
  step-AreSound n (receives state now m) s pos h v = record {
    sound = record {
      ready = (
        add_stf_info-IsValid n state now m pos h v.sound.ready.0,
        add_stf_info-Queued n state now m s.world.scheduler pos h v.sound.ready.0 v.sound.ready.1,
      );
      known = v.sound.known;
    };
    scheduling = v.scheduling;
    topo = v.topo;
  }
  step-AreSound n (reports c) s pos h v = record {
    sound = builders-IsSound n c s.world v.sound;
    scheduling = v.scheduling;
    topo = v.topo;
  }
  step-AreSound n (schedules incomplete ask) s pos h v =
      let (held, sound) =
        advance-IsStep take_tf n incomplete ask s.scheduling s.world (take_tf-IsStep n) v.scheduling
          v.sound in
      record { sound = sound; scheduling = held; topo = v.topo }
  step-AreSound n (schedules_topo ask) s pos h v =
      let (held, sound) =
        advance-IsStep take_topo n false ask s.topo s.world (take_topo-IsStep n) v.topo v.sound in
      record { sound = sound; scheduling = v.scheduling; topo = held }
  step-AreSound n (cleans now timeout) s pos h v = record {
    sound = record {
      ready = stale_cleanup-IsReady n now timeout s.world.scheduler v.sound.ready;
      known = v.sound.known;
    };
    scheduling = v.scheduling;
    topo = v.topo;
  }
  step-AreSound n (relieves victim now) s pos h v = record {
    sound = record {
      ready = high_watermark-IsReady n victim now s.world.scheduler v.sound.ready;
      known = v.sound.known;
    };
    scheduling = v.scheduling;
    topo = v.topo;
  }
  step-AreSound n drops s pos h v = record {
    sound = drop_round-IsSound n s.world v.sound;
    scheduling = v.scheduling;
    topo = v.topo;
  }

  -- For at least one StfSender, and every interleaving of gRPC calls, steps of the two scheduling
  -- threads and rounds of the others in which the ids of the updates are below 2 ^ 61: if the
  -- invariants of the collected updates, of the queue of the scheduling thread, of the known TfBuilders
  -- and of what the scheduling threads hold are true at first, they are true at the end. So no id in
  -- the map is recorded as dropped or built, and each queued vector, and the one that the scheduling
  -- thread has taken, has one to `n` updates, all of one id.
  pub run-AreSound :
      (n : ℕ) (es : List Event) (s : Threads Bits)
      → 0 < n
      → All InRange es
      → AreSound n s
      → AreSound n (run n s es)
  unfolding run
  run-AreSound n [] s pos h v = v
  run-AreSound n (e ∷ es) s pos h v =
      run-AreSound n es (step n s e) pos h.1 (step-AreSound n e s pos h.0 v)
