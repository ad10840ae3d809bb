-- ===== src/Common/FileReader/RoundTrip.antt =====
-- SubTimeFrameFileWriter::write and SubTimeFrameFileReader::read (src/common) on one file.
use data_distribution.Prelude.{
  ℕ, ◌+◌, ◌-◌, ◌*◌, ◌≤◌, ◌<◌, Bool, true, false, not, ◌||◌, ◌==◌, nat_eq, List, [], ◌∷◌, ◌++◌, map,
  none, some, ◌≡◌, refl, sym, ap, ◌∙◌, subst, arith, ltb, add64, length, All, find,
}
use data_distribution.Common.SubTimeFrame.{
  EquipmentIdentifier, equipment_eq, StfMessage, SubTimeFrame, DataMap, new_stf, messages_of,
  update_stf, get_equipment_identifiers,
}
use data_distribution.Common.SubTimeFrame.Merging.{Unique}
use data_distribution.Common.FileWriter.{
  IndexElem, Piece, meta_header, meta, index_header, index, sizeof_meta, sizeof_index_elem,
  size_in_file, total_size, collect, sort, build_index, write_messages, written_size, pieces,
  get_size_in_file, visit as visit_writer, write,
}
use data_distribution.Common.FileWriter.Layout.{
  fresh, written_size-append, written_size-write_messages,
}
use data_distribution.Common.FileReader.{
  Reader, Reading, read, read_front, read_meta, read_index, read_data, visit, header_payload,
}
use data_distribution.Common.FileReader.Blocks.{
  HasMemory, CountsParts, all_entries, read_blocks-write_messages,
}
use data_distribution.Common.FileReader.Rebuilding.{first_message, select, visit_all}
use data_distribution.Common.FileReader.Updating.{
  IsStored, update_data-IsKeyed, update_data-Unique, content-update_stf, content-update_empty,
}
use data_distribution.Common.FileReader.Ordering.{IsKeyed, collect-CountsParts, select-collect-sort}

size_in_file-append :
    (hdr : ℕ) (xs ys : List StfMessage)
    → size_in_file hdr (xs ++ ys) ≡ size_in_file hdr xs + size_in_file hdr ys
size_in_file-append hdr [] ys = omega arith
size_in_file-append hdr (x ∷ xs) ys = omega (arith, size_in_file-append hdr xs ys)

total_size-collect :
    (hdr : ℕ) (m : DataMap) (es : List EquipmentIdentifier)
    → total_size hdr m es ≡ size_in_file hdr (collect m es)
unfolding total_size collect
total_size-collect hdr m [] = refl
total_size-collect hdr m (e ∷ es) =
    let ms = messages_of (find e m) in
    omega (arith, size_in_file-append hdr ms (collect m es), total_size-collect hdr m es)

-- What is written of messages, at the front of a file.
abbrev front : ℕ → ℕ → List IndexElem → List Piece → List Piece
front n k es ps = meta_header ∷ meta n ∷ index_header k ∷ index es ∷ ps

read_index_lem :
    (env : Reading) (k left : ℕ) (es : List IndexElem) (ps : List Piece) (s : SubTimeFrame)
    (r : Reader)
    → sizeof_index_elem * length es ≡ k
    → read_index env
        ((env.sizeof_header + sizeof_meta) + (env.sizeof_header + k) + left)
        (index_header k ∷ index es ∷ ps)
        s
        r
      ≡ read_data env left ps s r
unfolding read_index header_payload
read_index_lem env k left es ps s r size =
    let before = (env.sizeof_header + sizeof_meta) + (env.sizeof_header + k) in
    let same : ((sizeof_index_elem * length es == k) ≡ true) = ground (arith, size) in
    let fits : (ltb (before + left) before ≡ false) = ground arith in
    let rest : (before + left - before ≡ left) = omega arith in
    rw (read_index, header_payload, same, fits, rest) refl

read_meta_lem :
    (env : Reading) (n : ℕ) (ps : List Piece) (s : SubTimeFrame) (r : Reader)
    → env.sizeof_header + sizeof_meta < n
    → n ≤ written_size env.sizeof_header r.rest
    → read_meta env meta_header n ps s r ≡ read_index env n ps s r
unfolding read_meta
read_meta_lem env n ps s r more fits =
    let other : ((n == env.sizeof_header + sizeof_meta) ≡ false) = ground (arith, more) in
    let enough : (ltb (written_size env.sizeof_header r.rest) n ≡ false) = ground (arith, fits) in
    rw (read_meta, other, enough) refl

read_lem :
    (env : Reading) (n : ℕ) (ps : List Piece) (r : Reader)
    → 0 < env.sizeof_header
    → r.opened ≡ true
    → r.rest ≡ meta_header ∷ meta n ∷ ps
    → read env r
      ≡ read_meta env meta_header n ps
          (new_stf r.next_stf_id)
          (record r { stf_data = []; next_stf_id = add64 r.next_stf_id 1 })
unfolding read read_front header_payload
read_lem env n ps r pos on there =
    let some_left : ((written_size env.sizeof_header (meta_header ∷ meta n ∷ ps) == 0) ≡ false) =
      ground (arith, pos) in
    let start : ((written_size env.sizeof_header r.rest == 0) ≡ false) =
      ap (λ l. written_size env.sizeof_header l == 0) there ∙ some_left in
    let go : ((written_size env.sizeof_header r.rest == 0 || not r.opened) ≡ false) =
      ground (arith, start, on) in
    let r1 = record r { stf_data = []; next_stf_id = add64 r.next_stf_id 1 } in
    let first : (read env r ≡ read_front env r.rest (new_stf r.next_stf_id) r1) =
      rw (read, go) refl in
    first ∙ ap (λ l. read_front env l (new_stf r.next_stf_id) r1) there

front_size :
    (hdr n k : ℕ) (es : List IndexElem) (ms : List StfMessage) (tail : List Piece)
    → sizeof_index_elem * length es ≡ k
    → n ≡ (hdr + sizeof_meta) + (hdr + k) + size_in_file hdr ms
    → n ≤ written_size hdr (front n k es (write_messages ms ++ tail))
front_size hdr n k es ms tail size_k size_n = omega (
  arith,
  size_k,
  size_n,
  written_size-append hdr (write_messages ms) tail,
  written_size-write_messages hdr ms,
)

content-new_stf : (id : ℕ) → (new_stf id).content ≡ []
unfolding new_stf
content-new_stf id = refl

read_pieces :
    (env : Reading) (n k : ℕ) (es : List IndexElem) (ms : List StfMessage) (tail : List Piece)
    (r : Reader)
    → HasMemory env
    → All CountsParts ms
    → r.opened ≡ true
    → r.rest ≡ front n k es (write_messages ms ++ tail)
    → sizeof_index_elem * length es ≡ k
    → n
      ≡ (env.sizeof_header + sizeof_meta)
        + (env.sizeof_header + k)
        + size_in_file env.sizeof_header ms
    → (s : SubTimeFrame) × (s.content ≡ [])
      × ((read env r).0 ≡ some (visit (all_entries ms) none (update_stf s)))
      × ((read env r).1.rest ≡ tail)
unfolding read_data
read_pieces env n k es ms tail r mem c on there size_k size_n =
    let hdr = env.sizeof_header in
    let ps = write_messages ms ++ tail in
    let left = size_in_file hdr ms in
    let s0 = new_stf r.next_stf_id in
    let r1 = record r { stf_data = []; next_stf_id = add64 r.next_stf_id 1 } in
    let fits = front_size hdr n k es ms tail size_k size_n in
    let room : (n ≤ written_size hdr r.rest) =
      subst (λ l. n ≤ written_size hdr l) (sym there) fits in
    let more : (hdr + sizeof_meta < n) = omega (arith, size_n, mem.0) in
    let (s', same, blocks) = read_blocks-write_messages env ms tail s0 mem c in
    let index_at = λ (l : ℕ). read_index env l (index_header k ∷ index es ∷ ps) s0 r1 in
    let all : (read env r ≡ read_data env left ps s0 r1) =
      read_lem env n (index_header k ∷ index es ∷ ps) r mem.0 on there
      ∙ read_meta_lem env n (index_header k ∷ index es ∷ ps) s0 r1 more room
      ∙ ap index_at size_n
      ∙ read_index_lem env k left es ps s0 r1 size_k in
    let last : (read_data env left ps s0 r1 ≡ (
      some (visit (all_entries ms) none (update_stf s')),
      record r1 { stf_data = all_entries ms; rest = tail },
    )) =
      rw (read_data, blocks) refl in
    (
      s',
      same ∙ content-new_stf r.next_stf_id,
      ap (λ p. p.0) (all ∙ last),
      ap (λ p. p.1.rest) (all ∙ last),
    )

-- For an STF whose equipments are different and whose messages have the equipment of their place in their
-- headers and between 1 and 2 ^ 32 - 1 parts: what write() has put into a file is what read() takes out of
-- it, whatever follows in the file. The SubTimeFrame read has at each equipment the same messages with
-- the same data parts, in the same order, with the headers of the written one but for the index of the
-- first part, which is 0.
pub read-write :
    (before : EquipmentIdentifier → EquipmentIdentifier → Bool) (env : Reading) (s : SubTimeFrame)
    (d : List StfMessage) (tail : List Piece) (r : Reader) (e : EquipmentIdentifier)
    → HasMemory env
    → s.data_updated ≡ false
    → Unique s.content
    → IsStored s.content
    → r.opened ≡ true
    → r.rest ≡ (write before env.sizeof_header true none s (fresh d [])).1.file ++ tail
    → (s' : SubTimeFrame) × ((read env r).0 ≡ some s')
      × ((read env r).1.rest ≡ tail)
      × (messages_of (find e s'.content)
          ≡ map first_message (messages_of (find e (update_stf s).content)))
unfolding write pieces visit_writer get_size_in_file find
read-write before env s d tail r e mem fresh_stf u k on there =
    let hdr = env.sizeof_header in
    let m = (update_stf s).content in
    let same = sym (content-update_stf s fresh_stf) in
    let keyed : IsKeyed m =
      subst (λ c. IsKeyed c) same (update_data-IsKeyed s.header s.content k) in
    let unique : Unique m = subst (λ c. Unique c) same (update_data-Unique s.header s.content u) in
    let es = sort before (get_equipment_identifiers m) in
    let ms = collect m es in
    let ix = build_index hdr m 0 es in
    let counts = collect-CountsParts m es keyed in
    let size : (get_size_in_file hdr (visit_writer before hdr (update_stf s) (fresh d []))
        ≡ (hdr + sizeof_meta) + (hdr + sizeof_index_elem * length ix) + size_in_file hdr ms) =
      omega (arith, total_size-collect hdr m es) in
    let (s0, empty, answer, rest) =
      read_pieces env (get_size_in_file hdr (visit_writer before hdr (update_stf s) (fresh d [])))
        (sizeof_index_elem * length ix) ix ms tail r mem counts on there refl size in
    (
      visit (all_entries ms) none (update_stf s0),
      answer,
      rest,
      visit_all ms none (update_stf s0) e counts
          ∙ ap (λ c. messages_of (find e c) ++ select e ms) (content-update_empty s0 empty)
          ∙ select-collect-sort before e m keyed unique,
    )
