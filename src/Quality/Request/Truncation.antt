-- ===== src/Quality/Request/Truncation.antt =====
-- The raw answer that is kept of a model call.
use enterprise_work_order_ai.Prelude.{
  ℕ, zero, suc, ◌+◌, ◌-◌, ◌≤◌, ◌<◌, ◌≡◌, refl, ap, ◌∙◌, false, List, [], ◌∷◌, ◌++◌, arith, leb, any,
  All, length, length-append, take, Bool-cases, inl, inr, leb→le,
}
use enterprise_work_order_ai.Prelude.Exec.{ok}
use enterprise_work_order_ai.Prelude.Text.{Str}
use enterprise_work_order_ai.Prelude.Utf8.{
  is_surrogate, utf8_bytes, utf8_encode, utf8_decode_from, utf8_decode_ignore,
}
use enterprise_work_order_ai.Prelude.Utf8.Whole.{IsScalar, IsRead, IsScalar-IsRead}
use enterprise_work_order_ai.Quality.Request.{truncate_utf8}

-- What does not fit any more: nothing, or a text whose first code point passes the limit.
abbrev pub Overflows : ℕ → Str → Type 0
Overflows room [] = Unit
Overflows room (c ∷ s) = room < length (utf8_bytes c)

-- The longest first part of the text whose encoding the bytes hold.
pub record IsLongestFit (max_bytes : ℕ) (value kept : Str) : Type 0 where
  pub rest : Str
  pub first_part : value ≡ kept ++ rest
  pub fits : length (utf8_encode kept) ≤ max_bytes
  pub longest : Overflows (max_bytes - length (utf8_encode kept)) rest

append_nil : (s : Str) → s ≡ s ++ []
append_nil [] = refl
append_nil (c ∷ s) = ap (◌∷◌ c) (append_nil s)

take-append_past :
    (n : ℕ) (xs ys : List ℕ) → length xs ≤ n → take n (xs ++ ys) ≡ xs ++ take (n - length xs) ys
take-append_past n [] ys h = ap (λ m. take m ys) (omega arith)
take-append_past zero (x ∷ xs) ys h = absurd (omega (arith, h))
take-append_past (suc n) (x ∷ xs) ys h =
    ap (◌∷◌ x)
      (take-append_past n xs ys (omega (arith, h)) ∙ ap (λ m. xs ++ take m ys) (omega arith))

take-append_within : (n : ℕ) (xs ys : List ℕ) → n < length xs → take n (xs ++ ys) ≡ take n xs
take-append_within zero xs ys h = refl
take-append_within (suc n) [] ys h = absurd (omega (arith, h))
take-append_within (suc n) (x ∷ xs) ys h =
    ap (◌∷◌ x) (take-append_within n xs ys (omega (arith, h)))

Overflows-shift : (m w n : ℕ) (s : Str) → Overflows (m - w - n) s → Overflows (m - (w + n)) s
Overflows-shift m w n [] h = tt
Overflows-shift m w n (c ∷ s) h = omega (arith, h)

length-utf8_encode :
    (c : ℕ) (s : Str)
    → length (utf8_encode (c ∷ s)) ≡ length (utf8_bytes c) + length (utf8_encode s)
unfolding utf8_encode
length-utf8_encode c s = length-append (utf8_bytes c) (utf8_encode s)

-- One more code point that fits.
more_fits :
    (m c : ℕ) (s kept : Str)
    → length (utf8_bytes c) ≤ m
    → IsLongestFit (m - length (utf8_bytes c)) s kept
    → IsLongestFit m (c ∷ s) (c ∷ kept)
more_fits m c s kept h later = record {
  rest = later.rest;
  first_part = ap (◌∷◌ c) later.first_part;
  fits = rw (length-utf8_encode c kept) (omega (arith, h, later.fits));
  longest = rw (length-utf8_encode c kept) (
      Overflows-shift m (length (utf8_bytes c)) (length (utf8_encode kept)) later.rest
        later.longest);
}

none_fits : (m c : ℕ) (s : Str) → m < length (utf8_bytes c) → IsLongestFit m (c ∷ s) []
unfolding utf8_encode
none_fits m c s h = record {
  rest = c ∷ s;
  first_part = refl;
  fits = omega arith;
  longest = omega (arith, h);
}

-- The bytes that are kept of an encoding decode to the longest first part that fits.
decoded-IsLongestFit :
    (m : ℕ) (s : Str)
    → All IsScalar s
    → IsLongestFit m s (utf8_decode_ignore (take m (utf8_encode s)))
unfolding utf8_encode utf8_decode_from
decoded-IsLongestFit zero [] h = record {
  rest = [];
  first_part = refl;
  fits = omega arith;
  longest = tt;
}
decoded-IsLongestFit (suc m) [] h = record {
  rest = [];
  first_part = refl;
  fits = omega arith;
  longest = tt;
}
decoded-IsLongestFit m (c ∷ s) h =
    let read : IsRead c = IsScalar-IsRead c h.0 in
    let w : ℕ = length (utf8_bytes c) in
    elim (Bool-cases (leb w m)) [
      | inl e ↦
          let le : w ≤ m = leb→le w m e in
          rw
            (
              take-append_past m (utf8_bytes c) (utf8_encode s) le,
              read.whole (take (m - w) (utf8_encode s)),
            )
            (more_fits m c s (utf8_decode_ignore (take (m - w) (utf8_encode s))) le
              (decoded-IsLongestFit (m - w) s h.1))
      | inr e ↦
          let lt : m < w = ground (arith, e) in
          rw (take-append_within m (utf8_bytes c) (utf8_encode s) lt, read.cut m lt)
            (none_fits m c s lt)
    ]

scalars : (s : Str) → any is_surrogate s ≡ false → All (λ c. c < 1114112) s → All IsScalar s
scalars [] h k = tt
scalars (c ∷ s) h k =
    (record { bounded = k.0; no_surrogate = ground (arith, h) }, scalars s (ground (arith, h)) k.1)

-- A text of Unicode code points without lone surrogates is kept up to the longest first part whose
-- encoding is within the limit; no code point is cut, and nothing else is left out.
pub truncate_utf8-IsLongestFit :
    (value : Str) (max_bytes : ℕ)
    → any is_surrogate value ≡ false
    → All (λ c. c < 1114112) value
    → (kept : Str) × (truncate_utf8 value max_bytes ≡ ok kept) × IsLongestFit max_bytes value kept
unfolding truncate_utf8
truncate_utf8-IsLongestFit value max_bytes h k =
    elim (Bool-cases (leb (length (utf8_encode value)) max_bytes)) [
      | inl e ↦ (
        value,
        rw (h, e) refl,
        record {
          rest = [];
          first_part = append_nil value;
          fits = leb→le (length (utf8_encode value)) max_bytes e;
          longest = tt;
        },
      )
      | inr e ↦ (
        utf8_decode_ignore (take max_bytes (utf8_encode value)),
        rw (h, e) refl,
        decoded-IsLongestFit max_bytes value (scalars value h k),
      )
    ]
