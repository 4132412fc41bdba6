-- ===== src/BitStream/Payload.antt =====
-- What the word cache and the byte buffer hold together: one binary number.
use ces.Prelude.{
  ℕ, zero, suc, ◌+◌, ◌-◌, ◌*◌, ◌/◌, ◌%◌, ◌^◌, ◌≤◌, ◌<◌, ◌≡◌, refl, sym, ap, ◌∙◌, bit_or, Bool, true,
  false, List, [], ◌∷◌, ok, fault, overflow, lt→ltb, le→ltb_false, ok-injective, subst, dec_lt, ltb,
  if◌then◌else◌, ◌==◌, arith, Bool-cases, inl, inr, length, bit_or_fields, two-pow_pos, pow-add,
  two-pow_split, two-pow_mono, shift_fits, shift_mod,
}
use native.Mathlib.Nat.{mul-le-mul_right, mod-eq_of_lt, mod-lt, div-add-mod'}
use ces.BitStream.{Stream, flush_bytes, put_code, spill, flush_byte}

-- The buffer after 32-bit words left the cache, the last one first, over the bytes `base`; all are
-- flushed with the same flag for emulation prevention.
abbrev pub emitted : List ℕ → Bool → List ℕ → List ℕ
emitted base emu [] = base
emitted base emu (w ∷ ws) = flush_bytes 4 w emu (emitted base emu ws)

abbrev pub value_of : List ℕ → ℕ
value_of [] = 0
value_of (w ∷ ws) = value_of ws * 2 ^ 32 + w

abbrev pub AllWords : List ℕ → Type 0
AllWords [] = Unit {0}
AllWords (w ∷ ws) = (w < 2 ^ 32) × AllWords ws

-- The cache of `s` is in order: its unused low bits are 0.
pub record IsValid (s : Stream) : Type 0 where
  pub loc_pos : 0 < s.bit_loc
  pub loc_le : s.bit_loc ≤ 32
  pub cached : ℕ
  pub cached_fits : cached < 2 ^ (32 - s.bit_loc)
  pub word_eq : s.curr_word ≡ cached * 2 ^ s.bit_loc

-- Since the buffer held `base`, `s` has taken the `n`-bit number `v`: words that were flushed, and
-- then the bits of the cache.
pub record Holds (base : List ℕ) (emu : Bool) (s : Stream) (n v : ℕ) : Type 0 where
  pub valid : IsValid s
  pub words : List ℕ
  pub all_words : AllWords words
  pub in_buffer : s.written ≡ emitted base emu words
  pub bits : n ≡ 32 * length words + (32 - s.bit_loc)
  pub number : v ≡ value_of words * 2 ^ (32 - s.bit_loc) + valid.cached

-- A code that fits the cache goes below the bits that are there.
cache_code :
    (loc len cached code : ℕ)
    → len < loc
    → loc ≤ 32
    → cached < 2 ^ (32 - loc)
    → code < 2 ^ len
    → bit_or (cached * 2 ^ loc) (code * 2 ^ (loc - len) % 2 ^ 32)
      ≡ (cached * 2 ^ len + code) * 2 ^ (loc - len)
cache_code loc len cached code fits small hc hcode =
    rw (mod-eq_of_lt below_word, bit_or_fields loc cached (code * 2 ^ (loc - len)) below)
      (omega (arith, ap (λ (t : ℕ). cached * t) (two-pow_split len (loc - len) loc (omega arith))))
  where
    below : code * 2 ^ (loc - len) < 2 ^ loc
    below = shift_fits len (loc - len) loc code (omega arith) hcode

    below_word : code * 2 ^ (loc - len) < 2 ^ 32
    below_word = omega (arith, below, two-pow_mono loc 32 small)

-- The upper bits of a code that does not fit fill the word up.
fill_word :
    (loc over cached code : ℕ)
    → loc ≤ 32
    → code < 2 ^ (loc + over)
    → bit_or (cached * 2 ^ loc) (code / 2 ^ over) ≡ cached * 2 ^ loc + code / 2 ^ over
fill_word loc over cached code small hcode = bit_or_fields loc cached (code / 2 ^ over) below
  where
    below : code / 2 ^ over < 2 ^ loc
    below = grind (arith, pow-add 2 loc over, two-pow_pos over)

-- The lower bits of the code start the next word.
rest_of_code :
    (over code : ℕ)
    → over ≤ 32
    → code * 2 ^ (32 - over) % 2 ^ 32 ≡ code % 2 ^ over * 2 ^ (32 - over)
rest_of_code over code small =
    shift_mod code (2 ^ over) (2 ^ (32 - over)) (2 ^ 32) (two-pow_pos over)
      (two-pow_pos (32 - over)) (sym (two-pow_split over (32 - over) 32 (omega arith)))

-- The cache that PutCodeInBitstream starts anew.
restart :
    (over code : ℕ)
    → over < 32
    → (if over == 0 then 0 else (code * 2 ^ (32 - over) % 2 ^ 32))
      ≡ code % 2 ^ over * 2 ^ (32 - over)
restart zero code h = omega arith
restart (suc o) code h = ground (arith, rest_of_code (suc o) code)

-- The stream after a code that the cache takes whole.
abbrev pub cached_code : ℕ → ℕ → Stream → Stream
cached_code code len s = record s {
  bit_loc = s.bit_loc - len;
  curr_word = bit_or s.curr_word (code * 2 ^ (s.bit_loc - len) % 2 ^ 32);
}

cached_code-Holds :
    {base : List ℕ} {emu : Bool} (code len : ℕ) {s : Stream} {n v : ℕ}
    → Holds base emu s n v
    → len < s.bit_loc
    → code < 2 ^ len
    → Holds base emu (cached_code code len s) (n + len) (v * 2 ^ len + code)
cached_code-Holds code len {s} {n} {v} h fits small = record {
  valid = record {
    loc_pos = omega arith;
    loc_le = omega arith;
    cached = cached * 2 ^ len + code;
    cached_fits = rw e (grind (arith, two-pow_pos len));
    word_eq =
        ap (λ (t : ℕ). bit_or t (code * 2 ^ (s.bit_loc - len) % 2 ^ 32)) word_eq
        ∙ cache_code s.bit_loc len cached code fits loc_le cached_fits small;
  };
  words = h.words;
  all_words = h.all_words;
  in_buffer = h.in_buffer;
  bits = omega (arith, h.bits);
  number = rw e (omega (arith, ap (λ (t : ℕ). t * 2 ^ len) h.number));
}
  where
    open h.valid use {cached, cached_fits, loc_pos, loc_le, word_eq}

    e : 2 ^ (32 - (s.bit_loc - len)) ≡ 2 ^ (32 - s.bit_loc) * 2 ^ len
    e = two-pow_split (32 - s.bit_loc) len (32 - (s.bit_loc - len)) (omega arith)

-- The word that a code fills up, and the stream that is left after it.
abbrev pub full_word : ℕ → ℕ → Stream → ℕ
full_word code over s = bit_or s.curr_word (code / 2 ^ over)

abbrev pub spilled : ℕ → ℕ → Bool → Stream → Stream
spilled code over emu_prev s =
    let out = flush_bytes 4 (full_word code over s) emu_prev s.written in
    record s {
      written = out;
      bytes_per_frame = length out;
      bytes_rbsp = length out;
      bit_loc = 32 - over;
      curr_word = if over == 0 then 0 else (code * 2 ^ (32 - over) % 2 ^ 32);
    }

spilled-Holds :
    {base : List ℕ} {emu : Bool} (code over : ℕ) {s : Stream} {n v : ℕ}
    → Holds base emu s n v
    → over < 32
    → code < 2 ^ (s.bit_loc + over)
    → Holds base emu
        (spilled code over emu s)
        (n + (s.bit_loc + over))
        (v * 2 ^ (s.bit_loc + over) + code)
spilled-Holds {emu} code over {s} {n} {v} h fits small = record {
  valid = record {
    loc_pos = omega arith;
    loc_le = omega arith;
    cached = code % 2 ^ over;
    cached_fits = rw back (mod-lt code (two-pow_pos over));
    word_eq = restart over code fits;
  };
  words = full_word code over s ∷ h.words;
  all_words = (rw filled below, h.all_words);
  in_buffer = rw h.in_buffer;
  bits = omega (arith, h.bits);
  number =
      rw (back, filled, h.number)
        (omega (
          arith,
          ap (λ (t : ℕ). (value_of h.words * 2 ^ (32 - s.bit_loc) + cached) * t)
              (pow-add 2 s.bit_loc over),
          ap (λ (t : ℕ). value_of h.words * t * 2 ^ over)
              (two-pow_split (32 - s.bit_loc) s.bit_loc 32 (omega arith)),
          div-add-mod' code (2 ^ over),
        ));
}
  where
    open h.valid use {cached, cached_fits, loc_pos, loc_le, word_eq}

    back : 32 - (32 - over) ≡ over
    back = omega arith

    filled : full_word code over s ≡ cached * 2 ^ s.bit_loc + code / 2 ^ over
    filled =
        ap (λ (t : ℕ). bit_or t (code / 2 ^ over)) word_eq
        ∙ fill_word s.bit_loc over cached code loc_le small

    upper : code / 2 ^ over < 2 ^ s.bit_loc
    upper = grind (arith, pow-add 2 s.bit_loc over, two-pow_pos over)

    below : cached * 2 ^ s.bit_loc + code / 2 ^ over < 2 ^ 32
    below = omega (
      arith,
      upper,
      mul-le-mul_right (2 ^ s.bit_loc) cached_fits,
      two-pow_split (32 - s.bit_loc) s.bit_loc 32 (omega arith),
    )

length-flush_byte :
    (emu_prev : Bool) (out : List ℕ) (b : ℕ) → length (flush_byte emu_prev out b) ≤ length out + 2
unfolding flush_byte
length-flush_byte emu_prev out b = ground arith

pub length-flush_bytes :
    (n word : ℕ) (emu_prev : Bool) (out : List ℕ)
    → length (flush_bytes n word emu_prev out) ≤ length out + 2 * n
unfolding flush_bytes
length-flush_bytes zero word emu_prev out = omega arith
length-flush_bytes (suc n) word emu_prev out = omega (
  arith,
  length-flush_bytes n (word * 2 ^ 8 % 2 ^ 32) emu_prev
      (flush_byte emu_prev out (word / 2 ^ 24 % 256)),
  length-flush_byte emu_prev out (word / 2 ^ 24 % 256),
)

if_ok : (b : Bool) (s t : Stream) → (if b then ok s else fault overflow) ≡ ok t → s ≡ t
if_ok true s t e = cc
if_ok false s t e = cc

-- What PutCodeInBitstream does, branch by branch.
pub put_code_cached :
    (code len : ℕ) (emu_prev : Bool) (s : Stream)
    → len < s.bit_loc
    → put_code code len emu_prev s ≡ ok (cached_code code len s)
unfolding put_code
put_code_cached code len emu_prev s h = rw (lt→ltb len s.bit_loc h)

pub put_code_full :
    (code len : ℕ) (emu_prev : Bool) (s : Stream)
    → s.bit_loc ≤ len
    → let t = spilled code (len - s.bit_loc) emu_prev s in
      put_code code len emu_prev s
      ≡ (if ltb (length t.written) t.alloc_bytes then ok t else fault overflow)
unfolding put_code spill
put_code_full code len emu_prev s h =
    elim (Bool-cases
      (ltb (length (spilled code (len - s.bit_loc) emu_prev s).written) s.alloc_bytes)) [
        | inl room ↦ rw (le→ltb_false len s.bit_loc h, room)
        | inr none ↦ rw (le→ltb_false len s.bit_loc h, none)
      ]

full-Holds :
    {base : List ℕ} {emu : Bool} (code len : ℕ) {s : Stream} {n v : ℕ}
    → Holds base emu s n v
    → len ≤ 32
    → code < 2 ^ len
    → s.bit_loc ≤ len
    → Holds base emu (spilled code (len - s.bit_loc) emu s) (n + len) (v * 2 ^ len + code)
full-Holds {base} {emu} code len {s} {n} {v} h hl hc full =
    subst
      (λ (k : ℕ). Holds base emu (spilled code (len - s.bit_loc) emu s) (n + k) (v * 2 ^ k + code))
      e (spilled-Holds code (len - s.bit_loc) h (omega (arith, h.valid.loc_pos)) (rw e hc))
  where
    e : s.bit_loc + (len - s.bit_loc) ≡ len
    e = omega arith

-- PutCodeInBitstream appends the `len` bits of a code that fits them: if it returns, what the
-- stream holds has grown by exactly these bits, whether or not the word cache was flushed.
pub put_code-Holds :
    {base : List ℕ} {emu : Bool} (code len : ℕ) {s t : Stream} {n v : ℕ}
    → Holds base emu s n v
    → len ≤ 32
    → code < 2 ^ len
    → put_code code len emu s ≡ ok t
    → Holds base emu t (n + len) (v * 2 ^ len + code)
put_code-Holds {base} {emu} code len {s} {t} {n} {v} h hl hc e = elim (dec_lt len s.bit_loc) [
  | yes fits ↦
      subst (λ x. Holds base emu x (n + len) (v * 2 ^ len + code))
        (ok-injective (sym (put_code_cached code len emu s fits) ∙ e))
        (cached_code-Holds code len h fits hc)
  | no full ↦
      subst (λ x. Holds base emu x (n + len) (v * 2 ^ len + code))
        (if_ok _ _ _ (sym (put_code_full code len emu s (omega arith)) ∙ e))
        (full-Holds code len h hl hc (omega arith))
]

-- With room for eight more bytes PutCodeInBitstream returns: no assertion fails. It writes eight
-- bytes at most, the emulation prevention included, and leaves the allocation as it is.
pub put_code-total :
    (code len : ℕ) (emu_prev : Bool) (s : Stream)
    → length s.written + 8 < s.alloc_bytes
    → (t : Stream) × (put_code code len emu_prev s ≡ ok t)
      × (length t.written ≤ length s.written + 8)
      × (t.alloc_bytes ≡ s.alloc_bytes)
put_code-total code len emu_prev s room = elim (dec_lt len s.bit_loc) [
  | yes fits ↦ (cached_code code len s, put_code_cached code len emu_prev s fits, omega arith, refl)
  | no full ↦ (
    spilled code (len - s.bit_loc) emu_prev s,
    put_code_full code len emu_prev s (omega arith)
        ∙ rw (
            lt→ltb (length (spilled code (len - s.bit_loc) emu_prev s).written) s.alloc_bytes
              (omega (arith, grown))),
    grown,
    refl,
  )
]
  where
    grown : length (spilled code (len - s.bit_loc) emu_prev s).written ≤ length s.written + 8
    grown = length-flush_bytes 4 (full_word code (len - s.bit_loc) s) emu_prev s.written
