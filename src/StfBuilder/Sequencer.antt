-- ===== src/StfBuilder/Sequencer.antt =====
-- StfInputInterface::StfSequencerThread (src/StfBuilder/StfBuilderInput.cxx). `queued` is what the device
-- was given at eStfBuilderOut, in order, and `accepting` is mAcceptingData.
pub mod Sequence
use data_distribution.Prelude.{
  ℕ, zero, suc, ◌+◌, ◌-◌, ◌*◌, ◌/◌, ◌%◌, Bool, true, false, not, ◌==◌, nat_eq, List, [], ◌∷◌, ◌++◌,
  Option, none, some, if◌then◌else◌, ltb, leb, u64_mod,
}
use data_distribution.Common.SubTimeFrame.{SubTimeFrame, new_stf, set_origin, null}

pub record Sequencer : Type 0 where
  pub accepting : Bool
  pub last_seq_stf_id : ℕ
  pub missing_stfs : ℕ
  pub queued : List SubTimeFrame

abbrev pub max_missing_stfs_for_seq : ℕ
max_missing_stfs_for_seq = 2 * 11234 / 256

abbrev pub missing_stf : ℕ → SubTimeFrame
missing_stf id = set_origin null (new_stf id)

-- The empty STFs with the ids from `id` on.
unfoldable pub create_missing : ℕ → ℕ → List SubTimeFrame
create_missing id zero = []
create_missing id (suc n) = missing_stf id ∷ create_missing (suc id) n

abbrev queue : List SubTimeFrame → SubTimeFrame → Sequencer → Sequencer
queue before stf q = record q {
  last_seq_stf_id = stf.header.id;
  queued = q.queued ++ (before ++ (stf ∷ []));
}

-- One round of the loop, on what pop_wait_for gave.
unfoldable pub sequence : Option SubTimeFrame → Sequencer → Sequencer
sequence none q = q
sequence (some stf) q =
    let id = stf.header.id in
    let start = q.last_seq_stf_id + 1 in
    let missing = id - start in
    if not q.accepting
    then q
    else if leb id q.last_seq_stf_id
    then q
    else if start == id
    then queue [] stf q
    else if ltb missing max_missing_stfs_for_seq
    then queue (create_missing start missing) stf
        (record q { missing_stfs = (q.missing_stfs + missing) % u64_mod })
    else queue [] stf q

unfoldable pub sequence_all : List (Option SubTimeFrame) → Sequencer → Sequencer
sequence_all [] q = q
sequence_all (o ∷ os) q = sequence_all os (sequence o q)
