-- ===== src/Common/FileReader/Blocks.antt =====
-- The loop of SubTimeFrameFileReader::read (src/common/SubTimeFrameFileReader.cxx) over what the
-- FileWriter has written of messages.
use data_distribution.Prelude.{
  ℕ, suc, ◌+◌, ◌-◌, ◌%◌, ◌^◌, ◌≤◌, ◌<◌, Bool, true, false, ◌&&◌, ◌==◌, nat_eq, ==_refl, List, [],
  ◌∷◌, ◌++◌, Option, none, some, ◌≡◌, refl, sym, ap, ◌∙◌, inl, inr, Bool-cases, arith,
  if◌then◌else◌, ltb, length, All,
}
use mathlib.Core.List.{append_assoc, append-nil}
use data_distribution.Common.SubTimeFrame.{DataHeader, StfMessage, SubTimeFrame, update_first_orbit}
use data_distribution.Common.FileWriter.{
  Piece, data_header, payload, size_of_parts, size_in_file, write_parts, write_messages,
}
use data_distribution.Common.FileReader.{
  StfData, Reading, BlocksRead, complete, broken, read_blocks, block_of, starts_message, with_orbit,
}

-- A DataHeader takes bytes, and there is memory for every message.
abbrev pub HasMemory : Reading → Type 0
HasMemory env =
    (0 < env.sizeof_header)
    × ((n : ℕ) → env.has_data_memory n ≡ true)
    × ((h : DataHeader) → env.has_header_memory h ≡ true)

abbrev pub first_header : DataHeader → DataHeader
first_header h = record h { split_payload_index = 0 }

abbrev pub plain : List ℕ → List StfData
plain [] = []
plain (n ∷ ns) = record { header = none; part = n } ∷ plain ns

abbrev pub entries : DataHeader → List ℕ → List StfData
entries h [] = []
entries h (n ∷ ns) = record { header = some (first_header h); part = n } ∷ plain ns

abbrev pub all_entries : List StfMessage → List StfData
all_entries [] = []
all_entries (m ∷ ms) = entries m.header m.data_parts ++ all_entries ms

-- A message with parts, as many as its header says.
abbrev pub CountsParts : StfMessage → Type 0
CountsParts m =
    (0 < length m.data_parts)
    × (length m.data_parts < 2 ^ 32)
    × (m.header.split_payload_parts ≡ length m.data_parts)

-- The loop from one place on is the loop from another, on an STF with the same data.
abbrev pub Continues :
    Reading → ℕ → List Piece → List StfData → SubTimeFrame → ℕ → List Piece → List StfData → Type 0
Continues env left ps ds s left' ps' ds' =
    (s' : SubTimeFrame) × (s'.content ≡ s.content)
    × (read_blocks env left ps ds s ≡ read_blocks env left' ps' ds' s')

content-with_orbit : (o : Option ℕ) (s : SubTimeFrame) → (with_orbit o s).content ≡ s.content
unfolding with_orbit update_first_orbit
content-with_orbit none s = refl
content-with_orbit (some o) s = elim (Bool-cases (ltb o s.header.first_orbit)) [
  | inl e ↦ rw (with_orbit, update_first_orbit, e) refl
  | inr e ↦ rw (with_orbit, update_first_orbit, e) refl
]

abbrev entry_of : DataHeader → ℕ → StfData
entry_of h n = record { header = if starts_message h then some h else none; part = n }

memory_there : (b : Bool) (x : BlocksRead) → (if b && false then broken else x) ≡ x
memory_there true x = refl
memory_there false x = refl

read_block :
    (env : Reading) (left : ℕ) (p q : Piece) (ps : List Piece) (ds : List StfData)
    (s : SubTimeFrame) (h : DataHeader) (n : ℕ)
    → HasMemory env
    → block_of p q ≡ some (h, n)
    → Continues env
        (env.sizeof_header + n + left)
        (p ∷ q ∷ ps)
        ds
        s
        left
        ps
        (ds ++ (entry_of h n ∷ []))
unfolding read_blocks
read_block env left p q ps ds s h n mem b =
    let more : ((env.sizeof_header + n + left == 0) ≡ false) = ground (arith, mem.0) in
    let fits : (ltb (env.sizeof_header + n + left) (env.sizeof_header + n) ≡ false) =
      ground arith in
    let rest : (env.sizeof_header + n + left - (env.sizeof_header + n) ≡ left) = omega arith in
    let s' = with_orbit (env.orbit_of h n) s in
    (
      s',
      content-with_orbit (env.orbit_of h n) s,
      rw (read_blocks, more, b, fits, mem.1 n, mem.2 h, rest)
          (memory_there (starts_message h)
            (read_blocks env left ps (ds ++ (entry_of h n ∷ [])) s')),
    )

written_block :
    (h : DataHeader) (n i : ℕ)
    → i < 2 ^ 32
    → block_of (data_header h n i) (payload n) ≡ some (record h { split_payload_index = i }, n)
unfolding block_of
written_block h n i lt =
    let small : (i % 2 ^ 32 ≡ i) = omega (arith, lt) in rw (block_of, ==_refl n, small) refl

-- The parts behind the first one.
read_plain :
    (env : Reading) (h : DataHeader) (i : ℕ) (ns : List ℕ) (left : ℕ) (ps : List Piece)
    (ds : List StfData) (s : SubTimeFrame)
    → HasMemory env
    → 0 < i
    → i + length ns ≤ h.split_payload_parts
    → h.split_payload_parts < 2 ^ 32
    → Continues env
        (size_of_parts env.sizeof_header ns + left)
        (write_parts h i ns ++ ps)
        ds
        s
        left
        ps
        (ds ++ plain ns)
unfolding write_parts
read_plain env h i [] left ps ds s mem pos fits small =
    let none_left : (0 + left ≡ left) = omega arith in
    (
      s,
      refl,
      ap (λ l. read_blocks env l ps ds s) none_left
          ∙ ap (λ d. read_blocks env left ps d s) (sym (append-nil ds)),
    )
read_plain env h i (n ∷ ns) left ps ds s mem pos fits small =
    let rest_size = size_of_parts env.sizeof_header ns + left in
    let h' : DataHeader = record h { split_payload_index = i } in
    let order : (env.sizeof_header + n + size_of_parts env.sizeof_header ns + left
        ≡ env.sizeof_header + n + rest_size) =
      omega arith in
    let later : (starts_message h' ≡ false) = ground (arith, pos, fits) in
    let one : (entry_of h' n ≡ record { header = none; part = n }) =
      ap (λ b. record { header = if b then some h' else none; part = n }) later in
    let (s1, same1, first) =
      read_block env rest_size (data_header h n i) (payload n) (write_parts h (suc i) ns ++ ps) ds s
        h' n mem (written_block h n i (omega (arith, fits, small))) in
    let (s2, same2, rest) =
      read_plain env h (suc i) ns left ps (ds ++ (entry_of h' n ∷ [])) s1 mem (omega arith)
        (omega (arith, fits)) small in
    (
      s2,
      same2 ∙ same1,
      ap
            (λ l.
              read_blocks env l (data_header h n i ∷ payload n ∷ (write_parts h (suc i) ns ++ ps))
                ds s)
            order
          ∙ first
          ∙ rest
          ∙ ap (λ d. read_blocks env left ps d s2)
              (append_assoc ds (entry_of h' n ∷ []) (plain ns)
                ∙ ap (λ x. ds ++ (x ∷ plain ns)) one),
    )

read_message :
    (env : Reading) (h : DataHeader) (ns : List ℕ) (left : ℕ) (ps : List Piece) (ds : List StfData)
    (s : SubTimeFrame)
    → HasMemory env
    → CountsParts (record { header = h; data_parts = ns })
    → Continues env
        (size_of_parts env.sizeof_header ns + left)
        (write_parts h 0 ns ++ ps)
        ds
        s
        left
        ps
        (ds ++ entries h ns)
unfolding write_parts
read_message env h [] left ps ds s mem c = absurd (omega (arith, c.0))
read_message env h (n ∷ ns) left ps ds s mem c =
    let rest_size = size_of_parts env.sizeof_header ns + left in
    let order : (env.sizeof_header + n + size_of_parts env.sizeof_header ns + left
        ≡ env.sizeof_header + n + rest_size) =
      omega arith in
    let (s1, same1, first) =
      read_block env rest_size (data_header h n 0) (payload n) (write_parts h 1 ns ++ ps) ds s
        (first_header h) n mem (written_block h n 0 (omega arith)) in
    let (s2, same2, rest) =
      read_plain env h 1 ns left ps (ds ++ (entry_of (first_header h) n ∷ [])) s1 mem (omega arith)
        (omega (arith, c.2)) (omega (arith, c.1, c.2)) in
    (
      s2,
      same2 ∙ same1,
      ap (λ l. read_blocks env l (data_header h n 0 ∷ payload n ∷ (write_parts h 1 ns ++ ps)) ds s)
            order
          ∙ first
          ∙ rest
          ∙ ap (λ d. read_blocks env left ps d s2)
              (append_assoc ds (entry_of (first_header h) n ∷ []) (plain ns)),
    )

read_messages :
    (env : Reading) (ms : List StfMessage) (ps : List Piece) (ds : List StfData) (s : SubTimeFrame)
    → HasMemory env
    → All CountsParts ms
    → Continues env
        (size_in_file env.sizeof_header ms)
        (write_messages ms ++ ps)
        ds
        s
        0
        ps
        (ds ++ all_entries ms)
unfolding write_messages
read_messages env [] ps ds s mem c =
    (s, refl, ap (λ d. read_blocks env 0 ps d s) (sym (append-nil ds)))
read_messages env (m ∷ ms) ps ds s mem c =
    let front = write_parts m.header 0 m.data_parts in
    let rest_size = size_in_file env.sizeof_header ms in
    let (s1, same1, first) =
      read_message env m.header m.data_parts rest_size (write_messages ms ++ ps) ds s mem c.0 in
    let (s2, same2, rest) =
      read_messages env ms ps (ds ++ entries m.header m.data_parts) s1 mem c.1 in
    (
      s2,
      same2 ∙ same1,
      ap (λ l. read_blocks env (size_of_parts env.sizeof_header m.data_parts + rest_size) l ds s)
            (append_assoc front (write_messages ms) ps)
          ∙ first
          ∙ rest
          ∙ ap (λ d. read_blocks env 0 ps d s2)
              (append_assoc ds (entries m.header m.data_parts) (all_entries ms)),
    )

read_blocks_end :
    (env : Reading) (ps : List Piece) (ds : List StfData) (s : SubTimeFrame)
    → read_blocks env 0 ps ds s ≡ complete ds s ps
unfolding read_blocks
read_blocks_end env [] ds s = refl
read_blocks_end env (p ∷ []) ds s = refl
read_blocks_end env (p ∷ q ∷ ps) ds s = refl

-- Reading what has been written of messages gives their parts, the first of each with the header.
pub read_blocks-write_messages :
    (env : Reading) (ms : List StfMessage) (ps : List Piece) (s : SubTimeFrame)
    → HasMemory env
    → All CountsParts ms
    → (s' : SubTimeFrame) × (s'.content ≡ s.content)
      × (read_blocks env (size_in_file env.sizeof_header ms) (write_messages ms ++ ps) [] s
          ≡ complete (all_entries ms) s' ps)
read_blocks-write_messages env ms ps s mem c =
    let (s', same, e) = read_messages env ms ps [] s mem c in
    (s', same, e ∙ read_blocks_end env ps (all_entries ms) s')
