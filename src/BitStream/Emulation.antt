-- ===== src/BitStream/Emulation.antt =====
-- The emulation prevention of FLUSH_BITS against the reading of a NAL unit in the standard (7.3.1).
use ces.Prelude.{
  ℕ, ◌+◌, ◌*◌, ◌/◌, ◌%◌, ◌^◌, ◌<◌, ◌≡◌, refl, ap, ◌≢◌, true, ◌&&◌, List, [], ◌∷◌, ◌++◌, leb,
  if◌then◌else◌, ◌==◌, arith, min, Bool-cases, inl, inr,
}
use ces.BitStream.{flush_byte, flush_bytes, behind}
use ces.BitStream.Payload.{emitted}

-- A reader that meets the bytes in order: after two zero bytes it drops a byte 3. The list holds
-- the last byte first, so that the recursion runs in the order of reading. The second part counts
-- the zero bytes that were read last, up to two.
pub read_nal : List ℕ → List ℕ × ℕ
read_nal [] = ([], 0)
read_nal (b ∷ bs) =
    let (out, zeros) = read_nal bs in
    if zeros == 2 && b == 3 then (out, 0) else (b ∷ out, if b == 0 then min 2 (zeros + 1) else 0)

-- Bytes put in the buffer one by one, with emulation prevention.
unfoldable pub escape : List ℕ → List ℕ
escape [] = []
escape (b ∷ raw) = flush_byte true (escape raw) b

-- How many zero bytes stand at the end of the buffer, up to two.
abbrev trailing : List ℕ → ℕ
trailing out = if behind out 0 == 0 then (if behind out 1 == 0 then 2 else 1) else 0

-- Nowhere do two zero bytes stand in front of a byte 0, 1 or 2.
pub data NoStartCode : List ℕ → Type 0 where
  nil : NoStartCode []
  cons :
      {b : ℕ} {out : List ℕ}
      → NoStartCode out
      → ((behind out 0 ≡ 0) → (behind out 1 ≡ 0) → 2 < b)
      → NoStartCode (b ∷ out)

read_step :
    (b : ℕ) (out raw : List ℕ)
    → read_nal out ≡ (raw, trailing out)
    → read_nal (flush_byte true out b) ≡ (b ∷ raw, trailing (flush_byte true out b))
unfolding read_nal flush_byte
read_step b out raw h = ground arith

read_nal-escape_all : (raw : List ℕ) → read_nal (escape raw) ≡ (raw, trailing (escape raw))
unfolding read_nal escape
read_nal-escape_all [] = refl
read_nal-escape_all (b ∷ raw) = read_step b (escape raw) raw (read_nal-escape_all raw)

flush_byte-NoStartCode :
    (b : ℕ) (out : List ℕ) → NoStartCode out → NoStartCode (flush_byte true out b)
unfolding flush_byte
flush_byte-NoStartCode b out h =
    elim (Bool-cases (behind out 1 == 0 && (behind out 0 == 0 && leb b 3))) [
      | inl hit ↦ rw hit (cons (cons h (λ p q. omega arith)) (λ p q. absurd (omega arith)))
      | inr clear ↦ rw clear (cons h (λ p q. ground arith))
    ]

-- The reader gets back the bytes that were put in the buffer, and among the bytes of the buffer no
-- start code can be seen: two zero bytes are never followed by a byte 0, 1 or 2.
pub read_nal-escape : (raw : List ℕ) → ((read_nal (escape raw)).0 ≡ raw) × NoStartCode (escape raw)
unfolding escape
read_nal-escape [] = (ap (λ p. p.0) (read_nal-escape_all []), nil)
read_nal-escape (b ∷ raw) = (
  ap (λ p. p.0) (read_nal-escape_all (b ∷ raw)),
  flush_byte-NoStartCode b (escape raw) (read_nal-escape raw).1,
)

-- The bytes of a word, the last one first.
abbrev pub word_bytes : ℕ → List ℕ
word_bytes w = w % 256 ∷ w / 2 ^ 8 % 256 ∷ w / 2 ^ 16 % 256 ∷ w / 2 ^ 24 % 256 ∷ []

-- The bytes that were meant, with no emulation prevention.
abbrev pub payload : List ℕ → List ℕ
payload [] = []
payload (w ∷ ws) = word_bytes w ++ payload ws

-- What stands in the buffer before a NAL unit, such as a start code, ends in a byte that is not 0.
pub flush_byte-append :
    (out before : List ℕ) (b : ℕ)
    → behind before 0 ≢ 0
    → flush_byte true (out ++ before) b ≡ flush_byte true out b ++ before
unfolding flush_byte
flush_byte-append [] before b h = ground arith
flush_byte-append (x ∷ []) before b h = ground arith
flush_byte-append (x ∷ y ∷ out) before b h = ground arith

flush_word :
    (w : ℕ) (raw before : List ℕ)
    → behind before 0 ≢ 0
    → flush_bytes 4 w true (escape raw ++ before) ≡ escape (word_bytes w ++ raw) ++ before
unfolding flush_bytes escape
flush_word w raw before h = simp (second, third, last, past)
  where
    past :
        (out : List ℕ) (b : ℕ) → flush_byte true (out ++ before) b ≡ flush_byte true out b ++ before
    past out b = flush_byte-append out before b h

    second : w * 256 % 2 ^ 32 / 2 ^ 24 % 256 ≡ w / 2 ^ 16 % 256
    second = omega arith

    third : w * 256 % 2 ^ 32 * 256 % 2 ^ 32 / 2 ^ 24 % 256 ≡ w / 2 ^ 8 % 256
    third = omega arith

    last : w * 256 % 2 ^ 32 * 256 % 2 ^ 32 * 256 % 2 ^ 32 / 2 ^ 24 % 256 ≡ w % 256
    last = omega arith

-- Words that are flushed with emulation prevention put an escaped NAL unit behind what was there.
pub emitted-escape :
    (base ws : List ℕ) → behind base 0 ≢ 0 → emitted base true ws ≡ escape (payload ws) ++ base
unfolding escape
emitted-escape base [] ends = refl
emitted-escape base (w ∷ ws) ends =
    rw (emitted-escape base ws ends) (flush_word w (payload ws) base ends)
