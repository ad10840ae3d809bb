-- ===== src/StfBuilder/Input/Spans.antt =====
-- The loop of StfBuilderThread (src/StfBuilder/StfBuilderInput.cxx) that cuts the blocks of a message into
-- spans of one sub-specification.
use data_distribution.Prelude.{
  ℕ, ◌+◌, ◌<◌, Bool, true, false, not, ◌==◌, nat_eq, nat_beq_iff, List, [], ◌∷◌, ◌++◌, none, some,
  ◌≡◌, ◌≢◌, refl, sym, ap, ◌∙◌, inl, inr, ◌⊎◌, Bool-cases, Option-cases, arith, if◌then◌else◌,
  length, length-append, All, All-append,
}
use mathlib.Core.List.{append_assoc, append-nil}
use data_distribution.Common.Readout.{
  Rdh, Block, ReadoutSettings, rdh_reader, get_sub_specification,
}
use data_distribution.StfBuilder.Builder.{ReadoutBuilder, Run, done, thrown, unfinished, then_do}
use data_distribution.StfBuilder.Input.{insert_loop}

abbrev pub Span : Type 0
Span = ℕ × List Block

-- The spans, and where a block cannot be read, its span with what follows, which are left out.
unfoldable pub spans : ReadoutSettings → ℕ → List Block → List Block → List Span × List Block × Bool
spans cfg sub span [] = ((sub, span) ∷ [], [], false)
spans cfg sub span (b ∷ bs) = elim (rdh_reader cfg b 0 b.size) [
  | none ↦ ([], span ++ (b ∷ bs), true)
  | some h ↦
      let new = get_sub_specification cfg h in
      let next = spans cfg new (b ∷ []) bs in
      if not (new == sub)
      then ((sub, span) ∷ next.0, next.1, next.2)
      else spans cfg sub (span ++ (b ∷ [])) bs
]

abbrev pub insert_all :
    (ℕ → List Block → ReadoutBuilder → Run ReadoutBuilder)
    → List Span
    → ReadoutBuilder
    → Run ReadoutBuilder
insert_all insert [] r = done r
insert_all insert (s ∷ ss) r = then_do (insert s.0 s.1 r) (λ r'. insert_all insert ss r')

abbrev pub blocks_of : List Span → List Block
blocks_of [] = []
blocks_of (s ∷ ss) = s.1 ++ blocks_of ss

abbrev pub HasSubSpec : ReadoutSettings → ℕ → Block → Type 0
HasSubSpec cfg sub b =
    (h : Rdh) × (rdh_reader cfg b 0 b.size ≡ some h) × (get_sub_specification cfg h ≡ sub)

abbrev pub StartsOther : ℕ → List Span → Type 0
StartsOther sub [] = Unit {0}
StartsOther sub (s ∷ ss) = sub ≢ s.0

-- Each span has blocks of its sub-specification only, and another one than the span after it.
abbrev pub AreSpans : ReadoutSettings → List Span → Type 0
AreSpans cfg [] = Unit {0}
AreSpans cfg (s ∷ ss) = All (HasSubSpec cfg s.0) s.1 × StartsOther s.0 ss × AreSpans cfg ss

then_do-ap :
    {A B : Type 0} (m : Run A) (f g : A → Run B) → ((a : A) → f a ≡ g a) → then_do m f ≡ then_do m g
then_do-ap (done a) f g h = h a
then_do-ap thrown f g h = refl
then_do-ap unfinished f g h = refl

then_do_assoc :
    {A B C : Type 0} (m : Run A) (f : A → Run B) (g : B → Run C)
    → then_do (then_do m f) g ≡ then_do m (λ a. then_do (f a) g)
then_do_assoc (done a) f g = refl
then_do_assoc thrown f g = refl
then_do_assoc unfinished f g = refl

-- The result of the loop, for the spans that have been added.
abbrev outcome :
    ℕ → List Span × List Block × Bool → ReadoutBuilder → Run (ReadoutBuilder × ℕ × Bool)
outcome added p r = done (r, added + length (blocks_of p.0), p.2)

after_span :
    (cfg : ReadoutSettings) (insert : ℕ → List Block → ReadoutBuilder → Run ReadoutBuilder)
    (added sub new : ℕ) (span : List Block) (b : Block) (bs : List Block) (r : ReadoutBuilder)
    → insert_loop cfg insert (added + length span) new (b ∷ []) bs r
      ≡ then_do
          (insert_all insert (spans cfg new (b ∷ []) bs).0 r)
          (outcome (added + length span) (spans cfg new (b ∷ []) bs))
    → insert_loop cfg insert (added + length span) new (b ∷ []) bs r
      ≡ then_do (insert_all insert (spans cfg new (b ∷ []) bs).0 r) (
          outcome added (
            (sub, span) ∷ (spans cfg new (b ∷ []) bs).0,
            (spans cfg new (b ∷ []) bs).1,
            (spans cfg new (b ∷ []) bs).2,
          ))
after_span cfg insert added sub new span b bs r h =
    let next = spans cfg new (b ∷ []) bs in
    let count : (added + length span + length (blocks_of next.0)
        ≡ added + length (span ++ blocks_of next.0)) =
      omega (arith, length-append span (blocks_of next.0)) in
    h
    ∙ then_do-ap (insert_all insert next.0 r) (outcome (added + length span) next)
        (outcome added ((sub, span) ∷ next.0, next.1, next.2))
        (λ r'. ap (λ n. done (r', n, next.2)) count)

zero_plus : (n : ℕ) → 0 + n ≡ n
zero_plus n = omega arith

insert_loop-spans :
    (cfg : ReadoutSettings) (insert : ℕ → List Block → ReadoutBuilder → Run ReadoutBuilder)
    (added sub : ℕ) (span bs : List Block) (r : ReadoutBuilder)
    → insert_loop cfg insert added sub span bs r
      ≡ then_do
          (insert_all insert (spans cfg sub span bs).0 r)
          (outcome added (spans cfg sub span bs))
unfolding insert_loop spans
insert_loop-spans cfg insert added sub span [] r =
    let one = ap (λ n. added + n) (ap (λ l. length l) (append-nil span)) in
    then_do-ap (insert sub span r) (λ r'. done (r', added + length span, false))
      (λ r'. done (r', added + length (span ++ []), false))
      (λ r'. ap (λ n. done (r', n, false)) (sym one))
    ∙ sym (
        then_do_assoc (insert sub span r) (λ r'. done r')
          (λ r'. done (r', added + length (span ++ []), false)))
insert_loop-spans cfg insert added sub span (b ∷ bs) r =
    elim (Option-cases (rdh_reader cfg b 0 b.size)) [
      | inl e ↦
          let zero_more : (added ≡ added + 0) = omega arith in
          rw (insert_loop, spans, e) (ap (λ n. done (r, n, true)) zero_more)
      | inr (h, e) ↦
          let new = get_sub_specification cfg h in
          elim (Bool-cases (new == sub)) [
            | inl same ↦
                rw (insert_loop, spans, e, same)
                  (insert_loop-spans cfg insert added sub (span ++ (b ∷ [])) bs r)
            | inr other ↦
                let next = spans cfg new (b ∷ []) bs in
                rw (insert_loop, spans, e, other)
                  (then_do-ap (insert sub span r)
                      (λ r'. insert_loop cfg insert (added + length span) new (b ∷ []) bs r')
                      (λ r'.
                        then_do (insert_all insert next.0 r')
                          (outcome added ((sub, span) ∷ next.0, next.1, next.2)))
                      (λ r'.
                        after_span cfg insert added sub new span b bs r'
                          (insert_loop-spans cfg insert (added + length span) new (b ∷ []) bs r'))
                    ∙ sym (
                        then_do_assoc (insert sub span r) (λ r'. insert_all insert next.0 r')
                          (outcome added ((sub, span) ∷ next.0, next.1, next.2))))
          ]
    ]

spans-blocks_of :
    (cfg : ReadoutSettings) (sub : ℕ) (span bs : List Block)
    → blocks_of (spans cfg sub span bs).0 ++ (spans cfg sub span bs).1 ≡ span ++ bs
unfolding spans
spans-blocks_of cfg sub span [] = append_assoc span [] []
spans-blocks_of cfg sub span (b ∷ bs) = elim (Option-cases (rdh_reader cfg b 0 b.size)) [
  | inl e ↦ rw (spans, e) refl
  | inr (h, e) ↦
      let new = get_sub_specification cfg h in
      elim (Bool-cases (new == sub)) [
        | inl same ↦
            rw (spans, e, same)
              (spans-blocks_of cfg sub (span ++ (b ∷ [])) bs ∙ append_assoc span (b ∷ []) bs)
        | inr other ↦
            let next = spans cfg new (b ∷ []) bs in
            rw (spans, e, other)
              (append_assoc span (blocks_of next.0) next.1
                ∙ ap (λ xs. span ++ xs) (spans-blocks_of cfg new (b ∷ []) bs))
      ]
]

-- The first span has the sub-specification.
abbrev pub Begins : ℕ → List Span → Type 0
Begins sub [] = Unit {0}
Begins sub (s ∷ ss) = s.0 ≡ sub

Begins-StartsOther :
    (sub new : ℕ) (ss : List Span) → (new ≢ sub) → Begins new ss → StartsOther sub ss
Begins-StartsOther sub new [] h b = tt
Begins-StartsOther sub new (s ∷ ss) h b = λ e. h (sym b ∙ sym e)

-- The spans and what is left: all blocks are in the spans, or one cannot be read, and what is left are
-- the blocks of its span, that block, and what follows. `P` is what else holds of the spans up to
-- the one left out.
abbrev pub Cut : ReadoutSettings → (List Span → Type 0) → List Span × List Block × Bool → Type 0
Cut cfg P (ss, left, failed) =
    ((failed ≡ false) × (left ≡ []) × P ss × AreSpans cfg ss)
    ⊎ ((failed ≡ true)
        × (sub : ℕ) × (xs : List Block) × (b : Block) × (bs : List Block) × (left ≡ xs ++ (b ∷ bs))
        × (0 < length xs)
        × (rdh_reader cfg b 0 b.size ≡ none)
        × P (ss ++ ((sub, xs) ∷ []))
        × AreSpans cfg (ss ++ ((sub, xs) ∷ [])))

spans-Cut :
    (cfg : ReadoutSettings) (sub : ℕ) (span bs : List Block)
    → 0 < length span
    → All (HasSubSpec cfg sub) span
    → Cut cfg (Begins sub) (spans cfg sub span bs)
unfolding spans
spans-Cut cfg sub span [] some_there h = inl (refl, refl, refl, (h, tt, tt))
spans-Cut cfg sub span (b ∷ bs) some_there h = elim (Option-cases (rdh_reader cfg b 0 b.size)) [
  | inl e ↦ rw (spans, e) (inr (refl, sub, span, b, bs, refl, some_there, e, refl, (h, tt, tt)))
  | inr (r, e) ↦
      let new = get_sub_specification cfg r in
      elim (Bool-cases (new == sub)) [
        | inl same ↦
            let here : HasSubSpec cfg sub b = (r, e, (nat_beq_iff new sub).0 same) in
            let rest =
              spans-Cut cfg sub (span ++ (b ∷ [])) bs (omega (arith, length-append span (b ∷ [])))
                (All-append (HasSubSpec cfg sub) span (b ∷ []) h (here, tt)) in
            rw (spans, e, same) rest
        | inr other ↦
            let here : HasSubSpec cfg new b = (r, e, refl) in
            let differ : (new ≢ sub) = λ q. ground (arith, other, (nat_beq_iff new sub).1 q) in
            let next = spans cfg new (b ∷ []) bs in
            let more : Cut cfg (Begins sub) ((sub, span) ∷ next.0, next.1, next.2) =
              elim (spans-Cut cfg new (b ∷ []) bs (omega arith) (here, tt)) [
                | inl (f, l, first, are) ↦
                    inl (f, l, refl, (h, Begins-StartsOther sub new next.0 differ first, are))
                | inr (f, cut, xs, u, ys, l, p, bad, first, are) ↦ inr (
                  f,
                  cut,
                  xs,
                  u,
                  ys,
                  l,
                  p,
                  bad,
                  refl,
                  (h, Begins-StartsOther sub new (next.0 ++ ((cut, xs) ∷ [])) differ first, are),
                )
              ] in
            rw (spans, e, other) more
      ]
]

-- The blocks of a message are inserted in spans, in their order, each block in one span: a span has blocks
-- of its sub-specification only, and the span after it has another one. Either all blocks can be read and
-- are inserted, and the loop reports no error; or it reports an error, and then a block cannot be read,
-- and exactly the blocks of the span before it, the block itself and what follows are left out. In either
-- case the loop's count is that of the blocks that have been inserted.
pub insert_loop-AreSpans :
    (cfg : ReadoutSettings) (insert : ℕ → List Block → ReadoutBuilder → Run ReadoutBuilder)
    (b : Block) (bs : List Block) (h : Rdh) (r : ReadoutBuilder)
    → rdh_reader cfg b 0 b.size ≡ some h
    → (ss : List Span) × (left : List Block) × (failed : Bool) × (insert_loop cfg insert 0
          (get_sub_specification cfg h)
          (b ∷ [])
          bs
          r
        ≡ then_do (insert_all insert ss r) (λ r'. done (r', length (blocks_of ss), failed)))
      × (blocks_of ss ++ left ≡ b ∷ bs)
      × Cut cfg (Begins (get_sub_specification cfg h)) (ss, left, failed)
insert_loop-AreSpans cfg insert b bs h r e =
    let sub = get_sub_specification cfg h in
    let cut = spans cfg sub (b ∷ []) bs in
    (
      cut.0,
      cut.1,
      cut.2,
      insert_loop-spans cfg insert 0 sub (b ∷ []) bs r
          ∙ then_do-ap (insert_all insert cut.0 r) (outcome 0 cut)
              (λ r'. done (r', length (blocks_of cut.0), cut.2))
              (λ r'. ap (λ n. done (r', n, cut.2)) (zero_plus (length (blocks_of cut.0)))),
      spans-blocks_of cfg sub (b ∷ []) bs,
      spans-Cut cfg sub (b ∷ []) bs (omega arith) ((h, e, refl), tt),
    )
