-- ===== src/Common/SubTimeFrame.antt =====
-- SubTimeFrame (src/common/SubTimeFrameDataModel.h and .cxx). The two levels of the map mData are one,
-- whose key EquipmentIdentifier is both keys; a data part is its size. The creation time is left out.
pub mod Merging
use data_distribution.Prelude.{
  ℕ, ◌+◌, ◌-◌, ◌%◌, ◌^◌, Bool, true, false, not, ◌&&◌, String, ◌==◌, nat_eq, string_eq, Eq, eq_iff,
  List, [], ◌∷◌, ◌++◌, Option, none, some, ◌≡◌, ◌↔◌, arith, if◌then◌else◌, ltb, length, sum, find,
  insert, u64_mod,
}

pub record EquipmentIdentifier : Type 0 where
  pub data_description : String
  pub data_origin : String
  pub sub_specification : ℕ

abbrev pub equipment_beq : EquipmentIdentifier → EquipmentIdentifier → Bool
equipment_beq a b =
    a.sub_specification == b.sub_specification
    && (a.data_description == b.data_description && a.data_origin == b.data_origin)

pub equipment_beq_iff : (a b : EquipmentIdentifier) → (equipment_beq a b ≡ true) ↔ (a ≡ b)
equipment_beq_iff a b =
    ground (arith, eq_iff a.data_description b.data_description, eq_iff a.data_origin b.data_origin)

instance abbrev pub equipment_eq : Eq EquipmentIdentifier
equipment_eq = record { beq = equipment_beq; beq_iff = equipment_beq_iff }

-- The equipment of a DataHeader, and what updateStf writes of it, all of them uint32.
pub record DataHeader : Type 0 where
  pub equipment : EquipmentIdentifier
  pub tf_counter : ℕ
  pub run_number : ℕ
  pub first_tf_orbit : ℕ
  pub split_payload_index : ℕ
  pub split_payload_parts : ℕ

-- StfMessage. Its constructor asserts that there is a header.
pub record StfMessage : Type 0 where
  pub header : DataHeader
  pub data_parts : List ℕ

pub data Origin : Type 0 where
  invalid readout readout_topology null : Origin

pub record StfHeader : Type 0 where
  pub id : ℕ
  pub first_orbit : ℕ
  pub run_number : ℕ
  pub origin : Origin

abbrev pub DataMap : Type 0
DataMap = List (EquipmentIdentifier × List StfMessage)

pub record SubTimeFrame : Type 0 where
  pub header : StfHeader
  pub content : DataMap
  pub data_size : ℕ
  pub data_updated : Bool

abbrev pub is_null : Origin → Bool
is_null null = true
is_null invalid = false
is_null readout = false
is_null readout_topology = false

abbrev pub is_invalid : Origin → Bool
is_invalid invalid = true
is_invalid null = false
is_invalid readout = false
is_invalid readout_topology = false

abbrev pub invalid_orbit : ℕ
invalid_orbit = 2 ^ 32 - 1

unfoldable pub new_stf : ℕ → SubTimeFrame
new_stf id = record {
  header = record { id = id; first_orbit = invalid_orbit; run_number = 0; origin = invalid };
  content = [];
  data_size = 0;
  data_updated = false;
}

-- The body of the loops of updateStf.
unfoldable pub update_message : StfHeader → StfMessage → StfMessage
update_message h m =
    let n = length m.data_parts in
    if n == 0 then m else record m {
      header = record (m.header) {
        tf_counter = h.id % 2 ^ 32;
        run_number = h.run_number;
        first_tf_orbit =
            if h.first_orbit == invalid_orbit then m.header.first_tf_orbit else h.first_orbit;
        split_payload_index = if ltb 1 n then n % 2 ^ 32 else 0;
        split_payload_parts = n % 2 ^ 32;
      };
    }

abbrev pub update_messages : StfHeader → List StfMessage → List StfMessage
update_messages h [] = []
update_messages h (m ∷ ms) = update_message h m ∷ update_messages h ms

abbrev pub update_data : StfHeader → DataMap → DataMap
update_data h [] = []
update_data h (p ∷ m) = (p.0, update_messages h p.1) ∷ update_data h m

-- The sizes that the loops sum up.
abbrev pub size_of : List StfMessage → ℕ
size_of [] = 0
size_of (m ∷ ms) = sum m.data_parts + size_of ms

abbrev pub total : DataMap → ℕ
total [] = 0
total (p ∷ m) = size_of p.1 + total m

unfoldable pub update_stf : SubTimeFrame → SubTimeFrame
update_stf s = if s.data_updated then s else record s {
  content = update_data s.header s.content;
  data_size = total s.content % u64_mod;
  data_updated = true;
}

unfoldable pub get_data_size : SubTimeFrame → ℕ × SubTimeFrame
get_data_size s = let s' = update_stf s in (s'.data_size, s')

unfoldable pub set_origin : Origin → SubTimeFrame → SubTimeFrame
set_origin o s =
    if is_invalid s.header.origin then record s { header = record (s.header) { origin = o } } else s

unfoldable pub update_id : ℕ → SubTimeFrame → SubTimeFrame
update_id id s =
    if ltb 0 id
    then record s { header = record (s.header) { id = id }; data_updated = false }
    else s

unfoldable pub update_first_orbit : ℕ → SubTimeFrame → SubTimeFrame
update_first_orbit orbit s =
    if ltb orbit s.header.first_orbit
    then record s { header = record (s.header) { first_orbit = orbit }; data_updated = false }
    else s

unfoldable pub update_run_number : ℕ → SubTimeFrame → SubTimeFrame
update_run_number n s =
    if s.header.run_number == n
    then s
    else record s { header = record (s.header) { run_number = n }; data_updated = false }

unfoldable pub clear : SubTimeFrame → SubTimeFrame
clear s = record s { content = []; data_updated = false }

abbrev pub messages_of : Option (List StfMessage) → List StfMessage
messages_of none = []
messages_of (some ms) = ms

-- mData[lDataId][lSubSpec] of each equipment takes the messages at its end.
unfoldable pub adopt : DataMap → DataMap → DataMap
adopt m [] = m
adopt m (p ∷ n) = adopt (insert p.0 (messages_of (find p.0 m) ++ p.1) m) n

-- The size of the other one is asked for only if its origin is eNull.
unfoldable pub merge_stf : SubTimeFrame → SubTimeFrame → SubTimeFrame
merge_stf s other =
    let other' = if is_null other.header.origin then update_stf other else other in
    if is_null other.header.origin && (other'.data_size == 0) then s else record s {
      header = if is_null s.header.origin then other'.header else s.header;
      content = adopt s.content other'.content;
    }

abbrev pub set_last : ℕ → List StfMessage → List StfMessage
set_last part [] = []
set_last part (m ∷ []) = record m { data_parts = m.data_parts ++ part ∷ [] } ∷ []
set_last part (m ∷ n ∷ ms) = m ∷ set_last part (n ∷ ms)

-- The first form of addStfDataReadout. The second one and addStfDataAppend add a part to the message
-- that the one before returned.
unfoldable pub add_stf_data_readout :
    EquipmentIdentifier → DataHeader → ℕ → SubTimeFrame → SubTimeFrame
add_stf_data_readout e header part s =
    let old = messages_of (find e s.content) in
    let started : List StfMessage =
      if length old == 0 then record { header = header; data_parts = [] } ∷ [] else old in
    record s { content = insert e (set_last part started) s.content; data_updated = false }

unfoldable pub add_stf_data_start :
    EquipmentIdentifier → DataHeader → ℕ → SubTimeFrame → SubTimeFrame
add_stf_data_start e header part s = record s {
  content =
      insert e
        (messages_of (find e s.content) ++ record { header = header; data_parts = part ∷ [] } ∷ [])
        s.content;
  data_updated = false;
}

-- addStfDataAppend, for the message that the last addStfDataStart for an equipment returned; for none the
-- part is discarded.
unfoldable pub add_stf_data_append : EquipmentIdentifier → ℕ → SubTimeFrame → SubTimeFrame
add_stf_data_append e part s = elim (find e s.content) [
  | none ↦ s
  | some ms ↦ record s { content = insert e (set_last part ms) s.content; data_updated = false }
]

abbrev pub get_equipment_identifiers : DataMap → List EquipmentIdentifier
get_equipment_identifiers [] = []
get_equipment_identifiers (p ∷ m) = p.0 ∷ get_equipment_identifiers m
