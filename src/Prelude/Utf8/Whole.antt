-- ===== src/Prelude/Utf8/Whole.antt =====
-- What the decoder makes of the bytes of a text that is cut somewhere: its whole code points.
use Prim.Native.Nat.{ℕ, zero, suc, ◌+◌, ◌/◌, ◌%◌, ◌<◌}
use mathlib.Core.Bool.{true, false}
use mathlib.Core.Path.{◌≡◌, refl, ap, ◌∙◌}
use mathlib.Core.Logic.{inl, inr}
use mathlib.Core.List.{List, [], ◌∷◌, ◌++◌}
use mathlib.Core.Option.{Option, none, some}
use native.Mathlib.Omega.{arith}
use enterprise_work_order_ai.Prelude.Tests.{ltb, ◌==◌, if◌then◌else◌, Bool-cases}
use enterprise_work_order_ai.Prelude.Lists.{length, take}
use enterprise_work_order_ai.Prelude.Utf8.{
  Utf8State, between, within, decode_byte, emit, is_surrogate, utf8_bytes, utf8_decode_from,
}

-- A code point that UTF-8 can encode.
pub record IsScalar (c : ℕ) : Type 0 where
  pub bounded : c < 1114112
  pub no_surrogate : is_surrogate c ≡ false

-- The states within a character of three or four bytes after its first byte.
abbrev within_three : ℕ → Utf8State
within_three c =
    within 1 (if 224 + c / 4096 == 224 then 160 else 128)
      (if 224 + c / 4096 == 237 then 159 else 191) (c / 4096)

abbrev within_four : ℕ → Utf8State
within_four c =
    within 2 (if 240 + c / 262144 == 240 then 144 else 128)
      (if 240 + c / 262144 == 244 then 143 else 191) (c / 262144)

abbrev Steps : Utf8State → ℕ → Utf8State × Option ℕ → Type 0
Steps state b next = decode_byte state b ≡ next

one_byte : (c : ℕ) → ltb c 128 ≡ true → Steps between c (between, some c)
one_byte c h = ground arith

begin_two :
    (c : ℕ)
    → ltb c 128 ≡ false
    → ltb c 2048 ≡ true
    → Steps between (192 + c / 64) (within 0 128 191 (c / 64), none)
begin_two c h k = ground arith

begin_three :
    (c : ℕ)
    → ltb c 2048 ≡ false
    → ltb c 65536 ≡ true
    → Steps between (224 + c / 4096) (within_three c, none)
begin_three c h k = ground arith

second_of_three :
    (c : ℕ)
    → ltb c 2048 ≡ false
    → ltb c 65536 ≡ true
    → is_surrogate c ≡ false
    → Steps (within_three c) (128 + c / 64 % 64) (within 0 128 191 (c / 64), none)
second_of_three c h k s = ground arith

begin_four :
    (c : ℕ)
    → ltb c 65536 ≡ false
    → c < 1114112
    → Steps between (240 + c / 262144) (within_four c, none)
begin_four c h k = ground arith

second_of_four :
    (c : ℕ)
    → ltb c 65536 ≡ false
    → c < 1114112
    → Steps (within_four c) (128 + c / 4096 % 64) (within 1 128 191 (c / 4096), none)
second_of_four c h k = ground arith

third_of_four :
    (c : ℕ)
    → Steps (within 1 128 191 (c / 4096)) (128 + c / 64 % 64) (within 0 128 191 (c / 64), none)
third_of_four c = ground arith

last_byte : (c : ℕ) → Steps (within 0 128 191 (c / 64)) (128 + c % 64) (between, some c)
last_byte c = ground arith

-- One step of the decoder.
decoded :
    (state : Utf8State) (b : ℕ) {next : Utf8State} {o : Option ℕ} (bytes : List ℕ)
    → Steps state b (next, o)
    → utf8_decode_from state (b ∷ bytes) ≡ emit o (utf8_decode_from next bytes)
unfolding utf8_decode_from
decoded state b bytes h = ap (λ (n : Utf8State × Option ℕ). emit n.1 (utf8_decode_from n.0 bytes)) h

-- The bytes of a character decode to it, whatever follows, and fewer of them decode to nothing.
pub record IsRead (c : ℕ) : Type 0 where
  pub whole :
      (rest : List ℕ)
      → utf8_decode_from between (utf8_bytes c ++ rest) ≡ c ∷ utf8_decode_from between rest
  pub cut :
      (n : ℕ) → n < length (utf8_bytes c) → utf8_decode_from between (take n (utf8_bytes c)) ≡ []

-- A cut within one, two, three or four bytes that are read without giving a character.
cut_one : (b n : ℕ) → n < 1 → utf8_decode_from between (take n (b ∷ [])) ≡ []
unfolding utf8_decode_from
cut_one b zero h = refl
cut_one b (suc n) h = absurd (omega (arith, h))

cut_two :
    (state : Utf8State) (b c : ℕ) {next : Utf8State}
    → Steps state b (next, none)
    → (n : ℕ) → n < 2
    → utf8_decode_from state (take n (b ∷ c ∷ [])) ≡ []
unfolding utf8_decode_from
cut_two state b c e zero h = refl
cut_two state b c e (suc zero) h = decoded state b [] e
cut_two state b c e (suc (suc n)) h = absurd (omega (arith, h))

cut_three :
    (state : Utf8State) (b c d : ℕ) {next after : Utf8State}
    → Steps state b (next, none)
    → Steps next c (after, none)
    → (n : ℕ) → n < 3
    → utf8_decode_from state (take n (b ∷ c ∷ d ∷ [])) ≡ []
unfolding utf8_decode_from
cut_three state b c d e f zero h = refl
cut_three state b c d {next} e f (suc n) h =
    decoded state b (take n (c ∷ d ∷ [])) e ∙ cut_two next c d f n (omega (arith, h))

cut_four :
    (b c d x : ℕ) {next after last : Utf8State}
    → Steps between b (next, none)
    → Steps next c (after, none)
    → Steps after d (last, none)
    → (n : ℕ) → n < 4
    → utf8_decode_from between (take n (b ∷ c ∷ d ∷ x ∷ [])) ≡ []
unfolding utf8_decode_from
cut_four b c d x e f g zero h = refl
cut_four b c d x {next} e f g (suc n) h =
    decoded between b (take n (c ∷ d ∷ x ∷ [])) e ∙ cut_three next c d x f g n (omega (arith, h))

IsRead-one : (c : ℕ) → ltb c 128 ≡ true → IsRead c
unfolding utf8_bytes
IsRead-one c h = record {
  whole = λ rest. rw h (decoded between c rest (one_byte c h));
  cut = rw h (cut_one c);
}

IsRead-two : (c : ℕ) → ltb c 128 ≡ false → ltb c 2048 ≡ true → IsRead c
unfolding utf8_bytes
IsRead-two c h k = record {
  whole = λ rest.
      rw (h, k)
        (decoded between (192 + c / 64) ((128 + c % 64) ∷ rest) (begin_two c h k)
          ∙ decoded (within 0 128 191 (c / 64)) (128 + c % 64) rest (last_byte c));
  cut = rw (h, k) (cut_two between (192 + c / 64) (128 + c % 64) (begin_two c h k));
}

IsRead-three :
    (c : ℕ)
    → ltb c 128 ≡ false
    → ltb c 2048 ≡ false
    → ltb c 65536 ≡ true
    → is_surrogate c ≡ false
    → IsRead c
unfolding utf8_bytes
IsRead-three c h k l s = record {
  whole = λ rest.
      rw (h, k, l)
        (decoded between (224 + c / 4096) ((128 + c / 64 % 64) ∷ (128 + c % 64) ∷ rest)
            (begin_three c k l)
          ∙ decoded (within_three c) (128 + c / 64 % 64) ((128 + c % 64) ∷ rest)
              (second_of_three c k l s)
          ∙ decoded (within 0 128 191 (c / 64)) (128 + c % 64) rest (last_byte c));
  cut =
      rw (h, k, l)
        (cut_three between (224 + c / 4096) (128 + c / 64 % 64) (128 + c % 64) (begin_three c k l)
          (second_of_three c k l s));
}

IsRead-four :
    (c : ℕ) → ltb c 128 ≡ false → ltb c 2048 ≡ false → ltb c 65536 ≡ false → c < 1114112 → IsRead c
unfolding utf8_bytes
IsRead-four c h k l s = record {
  whole = λ rest.
      rw (h, k, l)
        (decoded between (240 + c / 262144)
            ((128 + c / 4096 % 64) ∷ (128 + c / 64 % 64) ∷ (128 + c % 64) ∷ rest) (begin_four c l s)
          ∙ decoded (within_four c) (128 + c / 4096 % 64)
              ((128 + c / 64 % 64) ∷ (128 + c % 64) ∷ rest) (second_of_four c l s)
          ∙ decoded (within 1 128 191 (c / 4096)) (128 + c / 64 % 64) ((128 + c % 64) ∷ rest)
              (third_of_four c)
          ∙ decoded (within 0 128 191 (c / 64)) (128 + c % 64) rest (last_byte c));
  cut =
      rw (h, k, l)
        (cut_four (240 + c / 262144) (128 + c / 4096 % 64) (128 + c / 64 % 64) (128 + c % 64)
          (begin_four c l s) (second_of_four c l s) (third_of_four c));
}

pub IsScalar-IsRead : (c : ℕ) → IsScalar c → IsRead c
IsScalar-IsRead c s = elim (Bool-cases (ltb c 128)) [
  | inl h ↦ IsRead-one c h
  | inr h ↦ elim (Bool-cases (ltb c 2048)) [
    | inl k ↦ IsRead-two c h k
    | inr k ↦ elim (Bool-cases (ltb c 65536)) [
      | inl l ↦ IsRead-three c h k l s.no_surrogate
      | inr l ↦ IsRead-four c h k l s.bounded
    ]
  ]
]
