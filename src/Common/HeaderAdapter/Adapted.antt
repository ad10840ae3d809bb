-- ===== src/Common/HeaderAdapter/Adapted.antt =====
-- What TimeFrameBuilder::adaptHeaders (src/common/SubTimeFrameBuilder.cxx) makes of a time frame.
use data_distribution.Prelude.{
  ℕ, ◌+◌, ◌≤◌, Bool, true, false, not, ◌||◌, List, [], ◌∷◌, Option, some, ◌≡◌, refl, ap, ◌∙◌, inl,
  inr, Bool-cases, Option-cases, if◌then◌else◌, ltb, arith, All,
}
use data_distribution.Common.HeaderAdapter.{
  HeaderMsg, TfMessage, Adapting, new_header_message, add_dpl_header, add_dpl_headers, move_parts,
  move_to_shm, move_all, creation_time, adapt_headers,
}

-- There are regions and memory for all messages.
abbrev pub HasRoom : Adapting → Type 0
HasRoom env =
    (env.has_memory_resources ≡ true)
    × ((n : ℕ) → env.header_memory n ≡ true)
    × ((n : ℕ) → env.data_memory n ≡ true)

-- The message has a header message with a DataHeader.
abbrev pub HasHeader : Adapting → TfMessage → Type 0
HasHeader env m =
    (h : HeaderMsg) × (m.header ≡ some h)
    × (env.sizeof_data_header ≤ h.size)
    × (h.has_data_header ≡ true)

abbrev pub part_sizes : List (ℕ × Bool) → List ℕ
part_sizes [] = []
part_sizes (p ∷ ps) = p.0 ∷ part_sizes ps

abbrev InShm : ℕ × Bool → Type 0
InShm p = p.1 ≡ true

-- The second message is the first one for the DPL: all of it in shared memory, with the times in its
-- DataProcessingHeader and the same data.
abbrev pub IsAdapted : ℕ → ℕ → TfMessage → TfMessage → Type 0
IsAdapted id creation m m' =
    (h : HeaderMsg) × (m'.header ≡ some h)
    × (h.in_shm ≡ true)
    × (h.has_data_header ≡ true)
    × (h.dpl_header ≡ some (id, creation))
    × All InShm m'.data_parts
    × (part_sizes m'.data_parts ≡ part_sizes m.data_parts)

abbrev pub AreAdapted : ℕ → ℕ → List TfMessage → List TfMessage → Type 0
AreAdapted id creation [] [] = Unit {0}
AreAdapted id creation (m ∷ ms) (n ∷ ns) = IsAdapted id creation m n × AreAdapted id creation ms ns
AreAdapted id creation [] (n ∷ ns) = ⊥
AreAdapted id creation (m ∷ ms) [] = ⊥

new_header_message-some :
    (env : Adapting) (h : HeaderMsg)
    → HasRoom env
    → env.sizeof_data_header ≤ h.size
    → h.has_data_header ≡ true
    → new_header_message env h ≡ some (record h { in_shm = true })
unfolding new_header_message
new_header_message-some env h room size valid =
    let fits : (ltb h.size env.sizeof_data_header ≡ false) = ground (arith, size) in
    rw (new_header_message, fits, room.1 h.size, valid) refl

move_parts_all :
    (env : Adapting) (ps : List (ℕ × Bool))
    → HasRoom env
    → (qs : List (ℕ × Bool)) × (move_parts env ps ≡ (qs, true))
      × All InShm qs
      × (part_sizes qs ≡ part_sizes ps)
unfolding move_parts
move_parts_all env [] room = ([], refl, tt, refl)
move_parts_all env (p ∷ ps) room =
    let (qs, rest, shm, sizes) = move_parts_all env ps room in
    let go : ((p.1 || env.data_memory p.0) ≡ true) = ground (arith, room.2 p.0) in
    ((p.0, true) ∷ qs, rw (move_parts, rest, go) refl, (refl, shm), ap (λ l. p.0 ∷ l) sizes)

-- A message with a header for the DPL.
abbrev HasDpl : Adapting → ℕ → ℕ → TfMessage → Type 0
HasDpl env id creation m =
    (h : HeaderMsg) × (m.header ≡ some h)
    × (env.sizeof_data_header ≤ h.size)
    × (h.has_data_header ≡ true)
    × (h.dpl_header ≡ some (id, creation))

add_dpl_header-HasDpl :
    (env : Adapting) (id creation : ℕ) (m : TfMessage)
    → HasRoom env
    → HasHeader env m
    → (m1 : TfMessage) × (add_dpl_header env id creation m ≡ (m1, true))
      × HasDpl env id creation m1
      × (m1.data_parts ≡ m.data_parts)
unfolding add_dpl_header
add_dpl_header-HasDpl env id creation m room (h, there, size, valid) =
    let go : ((ltb h.size env.sizeof_data_header || not h.has_data_header) ≡ false) =
      ground (arith, size, valid) in
    elim (Option-cases h.dpl_header) [
      | inr (old, e) ↦
          let new : HeaderMsg = record h { dpl_header = some (id, creation) } in
          (
            record m { header = some new },
            rw (add_dpl_header, there, go, e) refl,
            (new, refl, size, valid, refl),
            refl,
          )
      | inl e ↦
          let stack : HeaderMsg = record h {
            size = h.size + env.sizeof_dpl_header;
            dpl_header = some (id, creation);
          } in
          let more : (env.sizeof_data_header ≤ stack.size) = omega (arith, size) in
          let made = new_header_message-some env stack room more valid in
          (
            record m { header = some (record stack { in_shm = true }) },
            rw (add_dpl_header, there, go, e, made) refl,
            (record stack { in_shm = true }, refl, more, valid, refl),
            refl,
          )
    ]

if_true : {A : Type 0} (b : Bool) (x y : A) → b ≡ true → (if b then x else y) ≡ x
if_true b x y e = rw e refl

move_to_shm-IsAdapted :
    (env : Adapting) (id creation : ℕ) (m m1 : TfMessage)
    → HasRoom env
    → HasDpl env id creation m1
    → m1.data_parts ≡ m.data_parts
    → (n : TfMessage) × (move_to_shm env m1 ≡ some (n, true)) × IsAdapted id creation m n
unfolding move_to_shm
move_to_shm-IsAdapted env id creation m m1 room (h, there, size, valid, dpl) same =
    let (qs, moved, shm, sizes) = move_parts_all env m1.data_parts room in
    let all_sizes = sizes ∙ ap (λ l. part_sizes l) same in
    elim (Bool-cases h.in_shm) [
      | inl e ↦ (
        record m1 { data_parts = qs },
        rw (move_to_shm, there, moved)
            (if_true h.in_shm _ _ e
              ∙ ap
                  (λ (o : Option HeaderMsg). some (record m1 { header = o; data_parts = qs }, true))
                  there),
        (h, there, e, valid, dpl, shm, all_sizes),
      )
      | inr e ↦
          let made = new_header_message-some env h room size valid in
          (
            record { header = some (record h { in_shm = true }); data_parts = qs },
            rw (move_to_shm, there, made, e, moved) refl,
            (record h { in_shm = true }, refl, refl, valid, dpl, shm, all_sizes),
          )
    ]

adapt_all :
    (env : Adapting) (id creation : ℕ) (ms : List TfMessage)
    → HasRoom env
    → All (HasHeader env) ms
    → (adapted : List TfMessage) × (out : List TfMessage) × (add_dpl_headers env id creation ms
        ≡ (adapted, true))
      × (move_all env adapted ≡ some out)
      × AreAdapted id creation ms out
unfolding add_dpl_headers move_all
adapt_all env id creation [] room h = ([], [], refl, refl, tt)
adapt_all env id creation (m ∷ ms) room h =
    let (adapted, out, first, second, are) = adapt_all env id creation ms room h.1 in
    let (m1, dpl, has, parts) = add_dpl_header-HasDpl env id creation m room h.0 in
    let (n, moved, is) = move_to_shm-IsAdapted env id creation m m1 room has parts in
    (
      m1 ∷ adapted,
      n ∷ out,
      rw (add_dpl_headers, dpl, first) refl,
      rw (move_all, moved, second) refl,
      (is, are),
    )

-- With the regions, memory for all messages and a DataHeader in every header message, every message
-- comes out of adaptHeaders in shared memory, with the id and the creation time of the time frame, or the
-- current time if it has none, in its DataProcessingHeader and with data parts of the same sizes.
pub adapt_headers-AreAdapted :
    (env : Adapting) (id created : ℕ) (ms : List TfMessage)
    → HasRoom env
    → All (HasHeader env) ms
    → (out : List TfMessage) × (adapt_headers env id created ms ≡ some out)
      × AreAdapted id (creation_time env created) ms out
unfolding adapt_headers
adapt_headers-AreAdapted env id created ms room h =
    let (adapted, out, first, second, are) =
      adapt_all env id (creation_time env created) ms room h in
    (out, rw (adapt_headers, first, second, room.0) refl, are)
