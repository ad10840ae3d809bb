-- ===== src/TfScheduler/TfBuilders.antt =====
-- TfSchedulerTfBuilderInfo (src/TfScheduler/TfSchedulerTfBuilderInfo.h and .cxx): what the scheduler
-- knows of the TfBuilders. The TfBuilderInfo objects are shared between the three containers, so they
-- live in a store and the containers hold references. Each method holds its locks throughout.
pub mod Selection
pub mod Topology
pub mod Invariant
pub mod Preservation
pub mod Updates
use data_distribution.Prelude.{
  ℕ, suc, ◌+◌, ◌-◌, ◌*◌, ◌/◌, ◌≤◌, ◌<◌, ◌≡◌, Bool, true, false, ◌&&◌, List, [], ◌∷◌, ◌++◌, Option,
  none, some, String, Eq, ◌==◌, nat_eq, string_eq, ltb, leb, if◌then◌else◌, find, remove, ◌↔◌,
  eq_iff, arith, not, insert, min, max, mul64, add64,
}

-- BasicInfo::ProcessState
pub data ProcessState : Type 0 where
  ignore running not_running : ProcessState

-- TfBuilderUpdateMessage, the fields that the scheduler reads. The int32 count of time frames in
-- building is the value that its conversion to std::size_t gives.
pub record TfBuilderUpdate : Type 0 where
  pub process_id : String
  pub process_state : ProcessState
  pub last_built_tf_id : ℕ
  pub free_memory : ℕ
  pub num_tfs_in_building : ℕ

-- Utilization counts in steps of 1.0, which a double holds exactly below 2 ^ 53.
pub record TfBuilderInfo : Type 0 where
  pub update_local_time : ℕ
  pub tf_builder_update : TfBuilderUpdate
  pub last_scheduled_tf : ℕ
  pub estimated_free_memory : ℕ
  pub reported_free_memory : ℕ
  pub tfs_in_building : ℕ
  pub total_utilization : ℕ

-- TfBuilderTopoInfo: a sub-specification and the three characters of the data origin.
pub record TopoKey : Type 0 where
  pub sub_spec : ℕ
  pub data_origin : String

abbrev pub topo_beq : TopoKey → TopoKey → Bool
topo_beq a b = a.sub_spec == b.sub_spec && a.data_origin == b.data_origin

pub topo_beq_iff : (a b : TopoKey) → (topo_beq a b ≡ true) ↔ (a ≡ b)
topo_beq_iff a b = ground (arith, eq_iff a.data_origin b.data_origin)

-- operator==
instance abbrev pub topo_eq : Eq TopoKey
topo_eq = record { beq = topo_beq; beq_iff = topo_beq_iff }

abbrev pub Store : Type 0
Store = ℕ → TfBuilderInfo

-- TfSchedulerTfBuilderInfo. The references from `next_object` on are not in use.
pub record TfBuilders : Type 0 where
  pub running : Bool
  pub max_tfs_in_building : ℕ
  pub objects : Store
  pub next_object : ℕ
  pub global_info : List (String × ℕ)
  pub ready : List ℕ
  pub topo : List (TopoKey × ℕ)

abbrev pub write : Store → ℕ → TfBuilderInfo → Store
write o r v = λ i. if i == r then v else o i

-- TfBuilderInfo::id
abbrev pub id : Store → ℕ → String
id o r = (o r).tf_builder_update.process_id

-- The constructor of TfBuilderInfo.
abbrev pub new_info : ℕ → TfBuilderUpdate → TfBuilderInfo
new_info now u = record {
  update_local_time = now;
  tf_builder_update = u;
  last_scheduled_tf = 0;
  estimated_free_memory = u.free_memory;
  reported_free_memory = u.free_memory;
  tfs_in_building = 0;
  total_utilization = 0;
}

-- The constructor and start(): the containers are empty, but for the ready list of a second start.
unfoldable pub start : TfBuilders → TfBuilders
start s = record s { running = true; global_info = [] }

unfoldable pub stop : TfBuilders → TfBuilders
stop s = record s { running = false; global_info = []; ready = []; topo = [] }

-- setMaxTfsInBuilding: std::clamp to [1, 512].
unfoldable pub set_max_tfs_in_building : ℕ → TfBuilders → TfBuilders
set_max_tfs_in_building n s = record s { max_tfs_in_building = max 1 (min n 512) }

unfoldable pub add_ready_tf_builder : ℕ → TfBuilders → TfBuilders
add_ready_tf_builder r s = record s { ready = s.ready ++ r ∷ [] }

-- The first loop of removeReadyTfBuilder stops at the first match.
unfoldable pub remove_first : Store → String → List ℕ → List ℕ
remove_first o name [] = []
remove_first o name (r ∷ rs) = if id o r == name then rs else r ∷ remove_first o name rs

-- The second loop erases every assignment of the TfBuilder.
unfoldable pub remove_assigned : Store → String → List (TopoKey × ℕ) → List (TopoKey × ℕ)
remove_assigned o name [] = []
remove_assigned o name (p ∷ ps) =
    if id o p.1 == name then remove_assigned o name ps else p ∷ remove_assigned o name ps

unfoldable pub remove_ready_tf_builder : String → TfBuilders → TfBuilders
remove_ready_tf_builder name s = record s {
  ready = remove_first s.objects name s.ready;
  topo = remove_assigned s.objects name s.topo;
}

-- The branch of updateTfBuilderInfo for a TfBuilder that is known: what becomes of its object.
unfoldable pub update_known : ℕ → TfBuilderUpdate → TfBuilderInfo → TfBuilderInfo
update_known now u i =
    let seen = record i {
      update_local_time = now;
      reported_free_memory = u.free_memory;
      tfs_in_building = u.num_tfs_in_building;
    } in
    if u.last_built_tf_id == i.last_scheduled_tf
    then record seen { tf_builder_update = u; estimated_free_memory = u.free_memory }
    else if ltb u.last_built_tf_id i.last_scheduled_tf
    then (if ltb u.free_memory i.estimated_free_memory
        then record seen { estimated_free_memory = u.free_memory }
        else record seen { estimated_free_memory = min i.estimated_free_memory u.free_memory })
    else seen

-- The branch for a new one: insert the object and add it to the ready list.
unfoldable pub join : ℕ → TfBuilderUpdate → TfBuilders → TfBuilders
unfolding add_ready_tf_builder
join now u s = add_ready_tf_builder s.next_object (record s {
  objects = write s.objects s.next_object (new_info now u);
  next_object = suc s.next_object;
  global_info = insert u.process_id s.next_object s.global_info;
})

abbrev pub is_not_running : ProcessState → Bool
is_not_running not_running = true
is_not_running running = false
is_not_running ignore = false

unfoldable pub leave : String → TfBuilders → TfBuilders
unfolding remove_ready_tf_builder
leave name s = elim (find name s.global_info) [
  | none ↦ s
  | some r ↦
      let rest = remove_ready_tf_builder name s in
      record rest { global_info = remove name rest.global_info }
]

-- updateTfBuilderInfo at local time `now`. The clock drift is only logged.
unfoldable pub update_tf_builder_info : ℕ → TfBuilderUpdate → TfBuilders → TfBuilders
unfolding join leave update_known
update_tf_builder_info now u s =
    if is_not_running u.process_state
    then leave u.process_id s
    else elim (find u.process_id s.global_info) [
      | none ↦ join now u s
      | some r ↦ record s { objects = write s.objects r (update_known now u (s.objects r)) }
    ]

-- markTfBuilderWithTfId
unfoldable pub mark_tf_builder_with_tf_id : String → ℕ → TfBuilders → Bool × TfBuilders
mark_tf_builder_with_tf_id name tf_id s = elim (find name s.global_info) [
  | none ↦ (false, s)
  | some r ↦
      let i = s.objects r in
      (
        true,
        record s {
          objects =
              write s.objects r (record i {
                last_scheduled_tf = tf_id;
                tfs_in_building = add64 i.tfs_in_building 1;
              });
        },
      )
]

-- Why findTfBuilderForTf finds nobody.
pub data Rejection : Type 0 where
  no_tf_builders num_tf_exceeded no_memory : Rejection

-- The search loop: the reference found and the others in order, or whether lMaxTfExceeded was set.
pub data Scan : Type 0 where
  hit : ℕ → List ℕ → Scan
  miss : Bool → Scan

abbrev pub behind : ℕ → Scan → Scan
behind r (hit found others) = hit found (r ∷ others)
behind r (miss exceeded) = miss exceeded

unfoldable pub scan : Store → ℕ → ℕ → Bool → List ℕ → Scan
scan o max_tfs size exceeded [] = miss exceeded
scan o max_tfs size exceeded (r ∷ rs) =
    let skipped = behind r (scan o max_tfs size true rs) in
    let small = behind r (scan o max_tfs size exceeded rs) in
    if leb max_tfs (o r).tfs_in_building
    then skipped
    else if leb size (o r).estimated_free_memory
    then hit r rs
    else small

-- The size that is reserved: ten per cent more, in std::uint64_t arithmetic.
unfoldable pub estimated_size : ℕ → ℕ
estimated_size size = mul64 size (10 + 100) / 100

abbrev pub reason : List ℕ → Bool → Rejection
reason [] exceeded = no_tf_builders
reason (r ∷ rs) true = num_tf_exceeded
reason (r ∷ rs) false = no_memory

pub data Selected : Type 0 where
  selected : String → Selected
  rejected : Rejection → Selected

-- findTfBuilderForTf: the first fit goes to the end of the list, with the memory reserved.
unfoldable pub find_tf_builder_for_tf : ℕ → TfBuilders → Selected × TfBuilders
unfolding scan
find_tf_builder_for_tf size s =
    let est = estimated_size size in
    elim (scan s.objects s.max_tfs_in_building est false s.ready) [
      | miss exceeded ↦ (rejected (reason s.ready exceeded), s)
      | hit r others ↦
          let i = s.objects r in
          (
            selected (id s.objects r),
            record s {
              ready = others ++ r ∷ [];
              objects =
                  write s.objects r
                    (record i { estimated_free_memory = i.estimated_free_memory - est });
            },
          )
    ]

-- The loop over the ready list that looks for the least utilization.
unfoldable pub least : Store → Option ℕ → List ℕ → Option ℕ
least o best [] = best
least o none (r ∷ rs) = least o (some r) rs
least o (some b) (r ∷ rs) =
    least o (some (if ltb (o r).total_utilization (o b).total_utilization then r else b)) rs

-- findTfBuilderForTopoStf
unfoldable pub find_tf_builder_for_topo_stf : TopoKey → TfBuilders → Option String × TfBuilders
unfolding least
find_tf_builder_for_topo_stf key s = elim (find key s.topo) [
  | some r ↦ (some (id s.objects r), s)
  | none ↦ elim (least s.objects none s.ready) [
    | none ↦ (none, s)
    | some r ↦
        let i = s.objects r in
        (
          some (id s.objects r),
          record s {
            objects = write s.objects r (record i { total_utilization = i.total_utilization + 1 });
            topo = s.topo ++ (key, r) ∷ [];
          },
        )
  ]
]

abbrev pub distance : ℕ → ℕ → ℕ
distance a b = (a - b) + (b - a)

-- sTfBuilderDiscardTimeout, in the milliseconds of the model's clock.
abbrev pub discard_timeout : ℕ
discard_timeout = 5000

unfoldable pub stale_ids : Store → ℕ → List (String × ℕ) → List String
stale_ids o now [] = []
stale_ids o now (p ∷ ps) =
    if leb discard_timeout (distance now (o p.1).update_local_time)
    then id o p.1 ∷ stale_ids o now ps
    else stale_ids o now ps

-- What HousekeepingThread does with each stale TfBuilder, under the lock that it takes for it.
unfoldable pub erase_tf_builder : String → TfBuilders → TfBuilders
unfolding remove_ready_tf_builder
erase_tf_builder name s =
    remove_ready_tf_builder name (record s { global_info = remove name s.global_info })

unfoldable pub reap : List String → TfBuilders → TfBuilders
unfolding erase_tf_builder
reap [] s = s
reap (name ∷ names) s = reap names (erase_tf_builder name s)

-- One round of HousekeepingThread, as one step although the source takes its lock again for each
-- TfBuilder that it erases, at time `now`, with the parameter read from the configuration.
unfoldable pub housekeeping : ℕ → ℕ → TfBuilders → TfBuilders
unfolding set_max_tfs_in_building stale_ids reap
housekeeping now max_tfs s =
    let s' = set_max_tfs_in_building max_tfs s in reap (stale_ids s'.objects now s'.global_info) s'
