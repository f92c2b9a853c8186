-- ===== src/Knowledge/Loader/Windows.antt =====
-- The chunks of a long text.
use mathlib.Core.List.{reverse-cons}
use enterprise_work_order_ai.Prelude.{
  ℕ, zero, suc, ◌+◌, ◌-◌, ◌≤◌, ◌<◌, min, max, ◌≡◌, refl, ap, ◌∙◌, ◌⊎◌, inl, inr, true, false, ◌&&◌,
  and_true, some, List, [], ◌∷◌, reverse, arith, ltb, leb, length, length-append, length-take, drop,
  All, All-weaken, Bool-cases, ltb→lt, leb→le, if◌then◌else◌,
}
use enterprise_work_order_ai.Prelude.Text.{Str, lstrip, strip, nonempty, str_eq_iff, contains}
use enterprise_work_order_ai.Knowledge.Loader.{
  rfind_from, sentence_marks, last_mark, slice, window_end, add_chunk, split_from, split_text,
}

length-reverse : (s : Str) → length (reverse s) ≡ length s
length-reverse [] = refl
length-reverse (c ∷ s) =
    ap length (reverse-cons c s)
    ∙ length-append (reverse s) (c ∷ [])
    ∙ omega (arith, length-reverse s)

length-lstrip : (s : Str) → length (lstrip s) ≤ length s
unfolding lstrip
length-lstrip [] = omega arith
length-lstrip (c ∷ s) = ground (arith, length-lstrip s)

length-strip : (s : Str) → length (strip s) ≤ length s
unfolding strip
length-strip s = omega (
  arith,
  length-reverse (lstrip (reverse (lstrip s))),
  length-lstrip (reverse (lstrip s)),
  length-reverse (lstrip s),
  length-lstrip s,
)

rfind_from-le :
    (mark lo hi at best : ℕ) (s : Str) → best ≤ hi → rfind_from mark lo hi at best s ≤ hi
rfind_from-le mark lo hi at best [] h = h
rfind_from-le mark lo hi at best (c ∷ s) h =
    rfind_from-le mark lo hi (suc at) _ s (ground (arith, h, ltb→lt at hi))

last_mark-le : (marks : List ℕ) (lo hi : ℕ) (text : Str) → last_mark marks lo hi text ≤ hi
unfolding last_mark
last_mark-le [] lo hi text = omega arith
last_mark-le (mark ∷ marks) lo hi text =
    omega (arith, rfind_from-le mark lo hi 0 0 text (omega arith), last_mark-le marks lo hi text)

contains-here : (c : Str) (chunks : List Str) → contains (c ∷ chunks) c ≡ true
contains-here c chunks = rw ((str_eq_iff c c).1 refl) refl

contains-later :
    (c d : Str) (chunks : List Str) → contains chunks d ≡ true → contains (c ∷ chunks) d ≡ true
contains-later c d chunks h = ground (arith, h)

nonempty-false : (s : Str) → nonempty s ≡ false → s ≡ []
nonempty-false [] h = refl
nonempty-false (c ∷ s) h = cc

before_suc : (a b : ℕ) → suc a < b → a < b
before_suc a b h = omega (arith, h)

module _ (max_chars overlap : ℕ) where
  -- A window around the position, of no more than the allowed characters, whose stripped text is one
  -- of the chunks or is empty.
  pub record Covered (text : Str) (i : ℕ) (chunks : List Str) : Type 0 where
    pub start : ℕ
    pub end : ℕ
    pub not_before : start ≤ i
    pub before_end : i < end
    pub bounded : end ≤ start + max_chars
    pub kept :
        (contains chunks (strip (slice text start end)) ≡ true)
        ⊎ (strip (slice text start end) ≡ [])

  abbrev pub IsChunk : Str → Type 0
  IsChunk c = (nonempty c ≡ true) × (length c ≤ max_chars)

  record WindowBounds (text : Str) (start end : ℕ) : Type 0 where
    grows : start < end
    inside : end ≤ length text
    bounded : end ≤ start + max_chars

  module _ (positive : 1 ≤ max_chars) (text : Str) where
    window_end-bounds :
        (start : ℕ)
        → start < length text
        → WindowBounds text start (window_end max_chars overlap text start)
    unfolding window_end
    window_end-bounds start h =
        let end : ℕ = min (length text) (start + max_chars) in
        let mark = last_mark-le sentence_marks (start + 200) end text in
        elim (Bool-cases (
          ltb end (length text)
          && ltb (suc start) (last_mark sentence_marks (start + 200) end text))) [
            | inl e ↦ rw e (record {
              grows = before_suc _ _ (ltb→lt _ _ (and_true _ _ e).1);
              inside = omega (arith, mark);
              bounded = omega (arith, mark);
            })
            | inr e ↦ rw e (record {
              grows = omega (arith, positive, h);
              inside = omega arith;
              bounded = omega arith;
            })
          ]

    slice-bounded :
        (start end : ℕ)
        → end ≤ start + max_chars
        → length (strip (slice text start end)) ≤ max_chars
    slice-bounded start end h =
        omega (
          arith,
          h,
          length-strip (slice text start end),
          length-take (end - start) (drop start text),
        )

    -- What is known of the chunks that the loop adds from `start` on.
    record Splits (start : ℕ) (chunks : List Str) : Type 0 where
      are_chunks : All IsChunk chunks
      covers : (i : ℕ) → start ≤ i → i < length text → Covered text i chunks

    added :
        (chunk : Str) (chunks : List Str)
        → length chunk ≤ max_chars
        → All IsChunk chunks
        → All IsChunk (if nonempty chunk then chunk ∷ chunks else chunks)
    added chunk chunks short h = elim (Bool-cases (nonempty chunk)) [
      | inl e ↦ rw e ((e, short), h)
      | inr e ↦ rw e h
    ]

    cover_here :
        (start end i : ℕ) (chunks : List Str)
        → WindowBounds text start end
        → start ≤ i
        → i < end
        → Covered text i (
            if nonempty (strip (slice text start end))
            then strip (slice text start end) ∷ chunks
            else chunks)
    cover_here start end i chunks w l h =
        elim (Bool-cases (nonempty (strip (slice text start end)))) [
          | inl e ↦ rw e (record {
            start = start;
            end = end;
            not_before = l;
            before_end = h;
            bounded = w.bounded;
            kept = inl (contains-here (strip (slice text start end)) chunks);
          })
          | inr e ↦ rw e (record {
            start = start;
            end = end;
            not_before = l;
            before_end = h;
            bounded = w.bounded;
            kept = inr (nonempty-false (strip (slice text start end)) e);
          })
        ]

    cover_later :
        (chunk : Str) (i : ℕ) (chunks : List Str)
        → Covered text i chunks
        → Covered text i (if nonempty chunk then chunk ∷ chunks else chunks)
    cover_later chunk i chunks c = elim (Bool-cases (nonempty chunk)) [
      | inr e ↦ rw e c
      | inl e ↦ rw e (record {
        start = c.start;
        end = c.end;
        not_before = c.not_before;
        before_end = c.before_end;
        bounded = c.bounded;
        kept = elim c.kept [
          | inl q ↦ inl (contains-later chunk (strip (slice text c.start c.end)) chunks q)
          | inr q ↦ inr q
        ];
      })
    ]

    -- One window before the chunks that the later ones give.
    add_window :
        (start next : ℕ) (chunks : List Str)
        → WindowBounds text start (window_end max_chars overlap text start)
        → next ≤ window_end max_chars overlap text start
        → Splits next chunks
        → (all : List Str) × (add_chunk max_chars overlap
              (strip (slice text start (window_end max_chars overlap text start)))
              (some chunks)
            ≡ some all)
          × Splits start all
    add_window start next chunks w n later =
        let end = window_end max_chars overlap text start in
        (
          _,
          refl,
          record {
            are_chunks =
                added (strip (slice text start end)) chunks (slice-bounded start end w.bounded)
                  later.are_chunks;
            covers = λ i l h. elim (Bool-cases (ltb i end)) [
              | inl e ↦ cover_here start end i chunks w l (ltb→lt i end e)
              | inr e ↦
                  cover_later (strip (slice text start end)) i chunks
                    (later.covers i (not_before i end next e n) h)
            ];
          },
        )
      where
        not_before : (i end next : ℕ) → ltb i end ≡ false → next ≤ end → next ≤ i
        not_before i end next e n = ground (arith, e, n)

    split_from-Splits :
        (fuel start : ℕ)
        → start ≤ length text
        → length text < fuel + start
        → (chunks : List Str) × (split_from max_chars overlap fuel text start ≡ some chunks)
          × Splits start chunks
    unfolding split_from
    split_from-Splits zero start l h = absurd (omega (arith, l, h))
    split_from-Splits (suc fuel) start l h = elim (Bool-cases (ltb start (length text))) [
      | inr e ↦
          rw e (
            [],
            refl,
            record { are_chunks = tt; covers = λ i a b. absurd (ground (arith, e, a, b)) },
          )
      | inl e ↦ rw e (
          let w = window_end-bounds start (ltb→lt start (length text) e) in
          let end = window_end max_chars overlap text start in
          elim (Bool-cases (leb (length text) end)) [
            | inl q ↦ rw q (
                add_window start (length text) [] w (leb→le _ _ q)
                  (record { are_chunks = tt; covers = λ i a b. absurd (omega (arith, a, b)) }))
            | inr q ↦ rw q (
                let next = max (suc start) (end - overlap) in
                let (chunks, returned, later) =
                  split_from-Splits fuel next (omega (arith, w.grows, w.inside))
                    (omega (arith, h)) in
                rw returned (add_window start next chunks w (omega (arith, w.grows)) later))
          ])
    ]

    -- A text is split in finitely many turns, however long it is: no more than its characters and one.
    -- A chunk is never longer than allowed, no chunk of a longer text is empty, and each character
    -- of it is in a window whose stripped text is one of the chunks, or is blank.
    pub split_text_returns :
        (chunks : List Str) × (split_text max_chars overlap text ≡ some chunks)
        × All (λ (c : Str). length c ≤ max_chars) chunks
        × (max_chars < length text
            → All IsChunk chunks × ((i : ℕ) → i < length text → Covered text i chunks))
    unfolding split_text
    split_text_returns = elim (Bool-cases (leb (length text) max_chars)) [
      | inl e ↦ rw e (
        text ∷ [],
        refl,
        (leb→le (length text) max_chars e, tt),
        λ long. absurd (omega (arith, long, leb→le (length text) max_chars e)),
      )
      | inr e ↦
          let (chunks, returned, all) =
            split_from-Splits (suc (length text)) 0 (omega arith) (omega arith) in
          rw e (
            chunks,
            returned,
            All-weaken IsChunk (λ (c : Str). length c ≤ max_chars) chunks (λ c h. h.1)
                all.are_chunks,
            λ long. (all.are_chunks, λ i h. all.covers i (omega arith) h),
          )
    ]
