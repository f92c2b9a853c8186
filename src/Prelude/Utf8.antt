-- ===== src/Prelude/Utf8.antt =====
-- `str.encode("utf-8")` and `bytes.decode("utf-8", errors="ignore")`. A byte is a number below 256.
pub mod Whole
use Prim.Native.Nat.{ℕ, zero, suc, ◌+◌, ◌-◌, ◌*◌, ◌/◌, ◌%◌}
use mathlib.Core.Bool.{Bool, ◌&&◌}
use mathlib.Core.List.{List, [], ◌∷◌, ◌++◌}
use mathlib.Core.Option.{Option, none, some}
use enterprise_work_order_ai.Prelude.Tests.{leb, ltb, ◌==◌, if◌then◌else◌}
use enterprise_work_order_ai.Prelude.Text.{Str}

-- A code point that has no encoding.
abbrev pub is_surrogate : ℕ → Bool
is_surrogate c = leb 55296 c && leb c 57343

unfoldable pub utf8_bytes : ℕ → List ℕ
utf8_bytes c =
    if ltb c 128
    then c ∷ []
    else if ltb c 2048
    then (192 + c / 64) ∷ (128 + c % 64) ∷ []
    else if ltb c 65536
    then (224 + c / 4096) ∷ (128 + c / 64 % 64) ∷ (128 + c % 64) ∷ []
    else (240 + c / 262144) ∷ (128 + c / 4096 % 64) ∷ (128 + c / 64 % 64) ∷ (128 + c % 64) ∷ []

-- The bytes of a text without surrogates.
unfoldable pub utf8_encode : Str → List ℕ
unfolding utf8_bytes
utf8_encode [] = []
utf8_encode (c ∷ s) = utf8_bytes c ++ utf8_encode s

-- Where the decoder is: between two characters, or within one, whose next byte has to be at least
-- `low` and at most `high`, with `more` bytes to come after it and the bits that are read so far.
pub data Utf8State : Type 0 where
  between : Utf8State
  within : (more low high bits : ℕ) → Utf8State

-- The first byte of a character; one that begins none is ignored.
abbrev pub begin : ℕ → Utf8State × Option ℕ
begin b =
    if ltb b 128
    then (between, some b)
    else if ltb b 194
    then (between, none)
    else if ltb b 224
    then (within 0 128 191 (b - 192), none)
    else if ltb b 240
    then (within 1 (if b == 224 then 160 else 128) (if b == 237 then 159 else 191) (b - 224), none)
    else if ltb b 245
    then (within 2 (if b == 240 then 144 else 128) (if b == 244 then 143 else 191) (b - 240), none)
    else (between, none)

abbrev pub go_on : ℕ → ℕ → Utf8State × Option ℕ
go_on zero bits = (between, some bits)
go_on (suc more) bits = (within more 128 191 bits, none)

-- A byte that does not go on with the character ends it unread, and is read as a first byte.
abbrev pub decode_byte : Utf8State → ℕ → Utf8State × Option ℕ
decode_byte between b = begin b
decode_byte (within more low high bits) b =
    if leb low b && leb b high then go_on more (bits * 64 + (b - 128)) else begin b

abbrev pub emit : Option ℕ → Str → Str
emit none s = s
emit (some c) s = c ∷ s

-- The text that the rest of the bytes decode to; a character that they do not complete is ignored.
unfoldable pub utf8_decode_from : Utf8State → List ℕ → Str
utf8_decode_from state [] = []
utf8_decode_from state (b ∷ bytes) =
    emit (decode_byte state b).1 (utf8_decode_from (decode_byte state b).0 bytes)

abbrev pub utf8_decode_ignore : List ℕ → Str
utf8_decode_ignore = utf8_decode_from between
