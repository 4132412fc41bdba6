-- ===== src/BitStream/Finish.antt =====
-- From the start code to the trailing bits: what stands in the buffer when a NAL unit is finished.
use ces.Prelude.{
  ℕ, zero, suc, ◌+◌, ◌-◌, ◌*◌, ◌/◌, ◌%◌, ◌^◌, ◌≤◌, ◌<◌, ◌≡◌, ◌≢◌, refl, sym, ap, ap₂, ◌∙◌, ◌≡⟨◌⟩◌,
  ◌∎, List, [], ◌∷◌, ◌++◌, true, ok, fault, arith, lt→ltb, subst, misplaced_start, bit_and,
  bit_and_mask, length, bytes_of, bytes_of-append, two-pow_pos, two-pow_bytes,
}
use ces.BitStream.{
  Stream, init_word_level, put_start_code, put_code, write_align_zero_bits, spill,
  write_rbsp_trailing_bits, flush_byte, flush_bytes, flush_rem_bytes, behind,
}
use ces.BitStream.Payload.{Holds, AllWords, value_of, put_code-Holds, put_code-total}
use ces.BitStream.Emulation.{
  read_nal, escape, payload, word_bytes, NoStartCode, read_nal-escape, emitted-escape,
  flush_byte-append,
}

-- 00 00 00 01, the last byte first.
abbrev pub start_code : List ℕ
start_code = 1 ∷ 0 ∷ 0 ∷ 0 ∷ []

-- Behind InitBitStreamWordLevel(true), PutStartCodeWordLevel puts the bytes 00 00 00 01 alone in a
-- buffer with room for more than four, and the payload starts empty.
pub put_start_code-Holds :
    (s : Stream)
    → 4 < s.alloc_bytes
    → (t : Stream) × (put_start_code (init_word_level true s) ≡ ok t)
      × (t.written ≡ start_code)
      × (t.alloc_bytes ≡ s.alloc_bytes)
      × Holds start_code true t 0 0
unfolding put_start_code init_word_level put_code spill flush_bytes flush_byte
put_start_code-Holds s room = (
  started,
  rw (lt→ltb 4 s.alloc_bytes room),
  refl,
  refl,
  record {
    valid = record {
      loc_pos = omega arith;
      loc_le = omega arith;
      cached = 0;
      cached_fits = omega arith;
      word_eq = refl;
    };
    words = [];
    all_words = tt;
    in_buffer = refl;
    bits = refl;
    number = refl;
  },
)
  where
    started : Stream
    started = record {
      curr_word = 0;
      bit_loc = 32;
      alloc_bytes = s.alloc_bytes;
      written = start_code;
      bytes_per_frame = 4;
      bytes_rbsp = 4;
    }

-- Off a word boundary its assertion fails.
pub put_start_code_misplaced :
    (s : Stream) → s.bit_loc ≢ 32 → put_start_code s ≡ fault misplaced_start
unfolding put_start_code
put_start_code_misplaced s h = ground arith

align_len : (loc : ℕ) → loc ≤ 32 → bit_and ((2 ^ 32 + 8 - (32 - loc)) % 2 ^ 32) 7 ≡ loc % 8
align_len loc h = bit_and_mask 3 ((2 ^ 32 + 8 - (32 - loc)) % 2 ^ 32) ∙ omega arith

align_steps :
    (s : Stream) → s.bit_loc ≤ 32 → write_align_zero_bits s ≡ put_code 0 (s.bit_loc % 8) true s
unfolding write_align_zero_bits
align_steps s h = rw (align_len s.bit_loc h, lt→ltb (s.bit_loc % 8) 8 (omega arith))

-- WriteRBSPTrailingBits, with room for sixteen bytes: it returns, and has appended a bit 1 and then
-- at most seven bits 0, up to a multiple of eight bits.
pub trailing_bits-Holds :
    {base : List ℕ} {s : Stream} {n v : ℕ}
    → Holds base true s n v
    → length s.written + 16 < s.alloc_bytes
    → (t : Stream) × (m : ℕ) × (write_rbsp_trailing_bits s ≡ ok t)
      × Holds base true t (n + 1 + m) ((v * 2 + 1) * 2 ^ m)
      × (m < 8)
      × ((n + 1 + m) % 8 ≡ 0)
unfolding write_rbsp_trailing_bits
trailing_bits-Holds {base} {s} {n} {v} h room =
    let (mid, e₀, grown, kept) = put_code-total 1 1 true s (omega arith) in
    let h₀ = put_code-Holds 1 1 h (omega arith) (omega arith) e₀ in
    let (t, e₁, _, _) = put_code-total 0 (mid.bit_loc % 8) true mid (omega arith) in
    let h₁ =
      put_code-Holds 0 (mid.bit_loc % 8) h₀ (omega arith) (two-pow_pos (mid.bit_loc % 8)) e₁ in
    (
      t,
      mid.bit_loc % 8,
      rw e₀ (align_steps mid h₀.valid.loc_le ∙ e₁),
      subst (λ x. Holds base true t (n + 1 + mid.bit_loc % 8) x) (omega arith) h₁,
      omega arith,
      omega (arith, h₀.bits, h₀.valid.loc_le),
    )

-- The bytes of the words, as the bytes of one number.
word_bytes-eq : (w : ℕ) → word_bytes w ≡ bytes_of 4 w
word_bytes-eq w =
    let e : w / 2 ^ 8 % 256 ≡ w / 256 % 256 = omega arith in
    let f : w / 2 ^ 16 % 256 ≡ w / 256 / 256 % 256 = omega arith in
    let g : w / 2 ^ 24 % 256 ≡ w / 256 / 256 / 256 % 256 = omega arith in rw (e, f, g)

payload-eq : (ws : List ℕ) → AllWords ws → payload ws ≡ bytes_of (4 * length ws) (value_of ws)
payload-eq [] h = refl
payload-eq (w ∷ ws) h =
    ap₂ ◌++◌ (word_bytes-eq w) (payload-eq ws h.1)
    ∙ sym (bytes_of-append 4 (4 * length ws) (value_of ws) w h.0)
    ∙ ap (λ k. bytes_of k (value_of ws * 256 ^ 4 + w)) (omega arith)

-- The top `k` bytes of a word whose other bits are 0.
flush_top :
    (k c : ℕ) (raw base : List ℕ)
    → k ≤ 3
    → c < 256 ^ k
    → behind base 0 ≢ 0
    → flush_bytes k (c * 2 ^ (32 - 8 * k)) true (escape raw ++ base)
      ≡ escape (bytes_of k c ++ raw) ++ base
unfolding flush_bytes escape
flush_top zero c raw base small fits ends = refl
flush_top (suc zero) c raw base small fits ends =
    rw (only, flush_byte-append (escape raw) base (c % 256) ends)
  where
    only : c * 2 ^ 24 / 2 ^ 24 % 256 ≡ c % 256
    only = omega arith
flush_top (suc (suc zero)) c raw base small fits ends = simp (first, second, past)
  where
    past : (out : List ℕ) (b : ℕ) → flush_byte true (out ++ base) b ≡ flush_byte true out b ++ base
    past out b = flush_byte-append out base b ends

    first : c * 2 ^ 16 / 2 ^ 24 % 256 ≡ c / 256 % 256
    first = omega arith

    second : c * 2 ^ 16 * 2 ^ 8 % 2 ^ 32 / 2 ^ 24 % 256 ≡ c % 256
    second = omega arith
flush_top (suc (suc (suc zero))) c raw base small fits ends = simp (first, second, third, past)
  where
    past : (out : List ℕ) (b : ℕ) → flush_byte true (out ++ base) b ≡ flush_byte true out b ++ base
    past out b = flush_byte-append out base b ends

    first : c * 2 ^ 8 / 2 ^ 24 % 256 ≡ c / 256 / 256 % 256
    first = omega arith

    second : c * 2 ^ 8 * 2 ^ 8 % 2 ^ 32 / 2 ^ 24 % 256 ≡ c / 256 % 256
    second = omega arith

    third : c * 2 ^ 8 * 2 ^ 8 % 2 ^ 32 * 2 ^ 8 % 2 ^ 32 / 2 ^ 24 % 256 ≡ c % 256
    third = omega arith
flush_top (suc (suc (suc (suc k)))) c raw base small fits ends = absurd (omega arith)

-- FlushRemBytes where `k` bytes wait in the cache.
flush_rem_at :
    (k : ℕ) {base : List ℕ} {s : Stream} {n v : ℕ}
    → k ≤ 3
    → s.bit_loc ≡ 32 - 8 * k
    → behind base 0 ≢ 0
    → Holds base true s n v
    → flush_bytes k s.curr_word true s.written ≡ escape (bytes_of (n / 8) v) ++ base
flush_rem_at k {base} {s} {n} {v} hk loc ends h =
    flush_bytes k s.curr_word true s.written
    ≡⟨ ap₂ (λ w out. flush_bytes k w true out) word
        (h.in_buffer ∙ emitted-escape base h.words ends) ⟩
      flush_bytes k (c * 2 ^ (32 - 8 * k)) true (escape (payload h.words) ++ base)
    ≡⟨ flush_top k c (payload h.words) base hk fits ends ⟩
      escape (bytes_of k c ++ payload h.words) ++ base
    ≡⟨ ap (λ l. escape l ++ base) together ⟩ escape (bytes_of (n / 8) v) ++ base ∎
  where
    open h.valid use {cached as c}

    power : 2 ^ (32 - s.bit_loc) ≡ 256 ^ k
    power =
        let e : 32 - s.bit_loc ≡ 8 * k = omega arith in ap (λ (x : ℕ). 2 ^ x) e ∙ two-pow_bytes k

    word : s.curr_word ≡ c * 2 ^ (32 - 8 * k)
    word = rw (← loc) h.valid.word_eq

    fits : c < 256 ^ k
    fits = rw (← power) h.valid.cached_fits

    together : bytes_of k c ++ payload h.words ≡ bytes_of (n / 8) v
    together =
        ap (λ l. bytes_of k c ++ l) (payload-eq h.words h.all_words)
        ∙ sym (bytes_of-append k (4 * length h.words) (value_of h.words) c fits)
        ∙ ap₂ bytes_of (omega (arith, h.bits)) (rw (← power) (omega (arith, h.number)))

-- FlushRemBytes where the payload is a number of whole bytes: it returns, and behind `base` the buffer
-- holds a NAL unit. A reader gets the bytes of the payload from it, and no start code is in it.
pub flush_rem_bytes-read_nal :
    {base : List ℕ} {s : Stream} {n v : ℕ}
    → Holds base true s n v
    → behind base 0 ≢ 0
    → n % 8 ≡ 0
    → (t : Stream) × (nal : List ℕ) × (flush_rem_bytes s ≡ ok t)
      × (t.written ≡ nal ++ base)
      × ((read_nal nal).0 ≡ bytes_of (n / 8) v)
      × NoStartCode nal
unfolding flush_rem_bytes
flush_rem_bytes-read_nal {base} {s} {n} {v} h ends whole = (
  flushed,
  escape (bytes_of (n / 8) v),
  rw (aligned, rounds),
  rest,
  (read_nal-escape (bytes_of (n / 8) v)).0,
  (read_nal-escape (bytes_of (n / 8) v)).1,
)
  where
    k : ℕ
    k = (32 - s.bit_loc) / 8

    flushed : Stream
    flushed =
        let out = flush_bytes k s.curr_word true s.written in
        record s {
          written = out;
          bytes_per_frame = length out;
          bytes_rbsp = length out;
          curr_word = 0;
        }

    rounds : (32 - s.bit_loc) / 2 ^ 3 ≡ k
    rounds = refl

    aligned : bit_and s.bit_loc 7 ≡ 0
    aligned = bit_and_mask 3 s.bit_loc ∙ omega (arith, h.bits, h.valid.loc_le)

    rest : flush_bytes k s.curr_word true s.written ≡ escape (bytes_of (n / 8) v) ++ base
    rest =
        flush_rem_at k (omega (arith, h.valid.loc_pos))
          (omega (arith, h.bits, h.valid.loc_le, h.valid.loc_pos)) ends h
