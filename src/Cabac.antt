-- ===== src/Cabac.antt =====
-- The arithmetic coder of src/Cabac.cpp. What it writes is a list of calls on the bitstream handler,
-- which it never reads.
pub mod Tables
pub mod Bounds
pub mod Inv
pub mod Interval
pub mod Calls
pub mod Value
pub mod Steps
pub mod Flush
pub mod Finish
pub mod Decode
pub mod Symbols
pub mod Roundtrip
pub mod Contexts
pub mod Offsets
pub mod Scan
mod Tests
use ces.Prelude.{
  ℕ, zero, suc, ◌+◌, ◌-◌, ◌*◌, ◌/◌, ◌%◌, ◌^◌, bit_and, Bool, true, false, List, [], ◌∷◌, ◌++◌, ltb,
  ◌==◌, if◌then◌else◌, get_or, set, Outcome, ok, fault, ◌>>=◌, ◌>>◌, make_sure, bins_overflow,
}
use Tables.{lps_at, renorm_at, lps_next, mps_next}

-- A call on the bitstream handler: PutUNInBitstream, WriteRBSPTrailingBits, FlushRemBytes.
pub data Call : Type 0 where
  put : (code len : ℕ) → Call
  trailing_bits : Call
  flush_rem : Call

-- `bits_left` is an i32 in the source. It lies in 12 .. 23 between the calls and never falls below 4.
pub record Engine : Type 0 where
  pub low : ℕ  -- u32
  pub range : ℕ  -- u32
  pub bits_left : ℕ
  pub buffer : ℕ  -- u8
  pub num_byte : ℕ  -- u32
  pub contexts : List ℕ  -- u8 each

abbrev pub u32 : ℕ → ℕ
u32 x = x % 2 ^ 32

-- ResetCabac
pub reset_cabac : Engine → Engine
reset_cabac e = record e { low = 0; range = 510; bits_left = 23; buffer = 0xff; num_byte = 0 }

-- while(m_uiNumByte > 1) PutUNInBitstream(byte, 8)
pub outstanding : ℕ → ℕ → List Call
outstanding zero byte = []
outstanding (suc zero) byte = []
outstanding (suc (suc n)) byte = put byte 8 ∷ outstanding (suc n) byte

-- WriteOutputBitstream, where a byte leaves the register `low`.
pub put_lead : ℕ → Engine → Engine × List Call
put_lead lead e =
    if lead == 0xff
    then (record e { num_byte = u32 (e.num_byte + 1) }, [])
    else if ltb 0 e.num_byte
    then (let carry = lead / 2 ^ 8 in
        (
          record e { buffer = bit_and lead 0xff; num_byte = 1 },
          put (e.buffer + carry) 8 ∷ outstanding e.num_byte (bit_and (0xff + carry) 0xff),
        ))
    else (record e { num_byte = 1; buffer = lead % 2 ^ 8 }, [])

pub write_output : Engine → Engine × List Call
write_output e =
    if ltb e.bits_left 12
    then (put_lead (e.low / 2 ^ (24 - e.bits_left)) (record e {
      bits_left = e.bits_left + 8;
      low = bit_and e.low (0xffff_ffff / 2 ^ (e.bits_left + 8));
    }))
    else (e, [])

-- g_pbLPSTable[GET_STATE(state)][(range >> 6) & 0x3]
pub lps_of : ℕ → ℕ → ℕ
lps_of state range = lps_at (state / 2) (bit_and (range / 2 ^ 6) 3)

-- EncodeBin up to the call of WriteOutputBitstream: a value that is not the probable one.
pub less_probable : ℕ → ℕ → ℕ → Engine → Engine
less_probable ctx state lps e =
    let num_bits = renorm_at (lps / 2 ^ 3) in
    record e {
      low = u32 (u32 (e.low + u32 (e.range + 2 ^ 32 - lps)) * 2 ^ num_bits);
      range = u32 (lps * 2 ^ num_bits);
      bits_left = e.bits_left - num_bits;
      contexts = set e.contexts ctx (lps_next state);
    }

-- The same for the more probable value.
pub more_probable : ℕ → ℕ → ℕ → Engine → Engine
more_probable ctx state lps e =
    let range = u32 (e.range + 2 ^ 32 - lps) in
    let contexts = set e.contexts ctx (mps_next state) in
    if ltb range 256
    then record e {
      low = u32 (e.low * 2);
      range = u32 (range * 2);
      bits_left = e.bits_left - 1;
      contexts = contexts;
    }
    else record e { range = range; contexts = contexts }

pub code_bin : ℕ → ℕ → Engine → Engine
code_bin bin ctx e =
    let state = get_or e.contexts ctx 0 in
    let lps = lps_of state e.range in
    if bin == bit_and state 1 then more_probable ctx state lps e else less_probable ctx state lps e

-- EncodeBin
pub encode_bin : ℕ → ℕ → Engine → Engine × List Call
encode_bin bin ctx e = write_output (code_bin bin ctx e)

-- low = (low << n) + range * bins; bitsLeft -= n
pub shift_in : ℕ → ℕ → Engine → Engine
shift_in bins n e = record e {
  low = u32 (u32 (e.low * 2 ^ n) + u32 (e.range * bins));
  bits_left = e.bits_left - n;
}

-- The loop of EncodeBinsEP, with fuel: a round takes eight bins.
pub bins_loop : ℕ → ℕ → ℕ → Engine → Engine × List Call
bins_loop zero bins n e = (e, [])
bins_loop (suc fuel) bins n e =
    let rest : Engine × List Call =
      (let pattern = bins / 2 ^ (n - 8) in
        let (e', calls) = write_output (shift_in pattern 8 e) in
        let (e'', calls') = bins_loop fuel (bins - pattern * 2 ^ (n - 8)) (n - 8) e' in
        (e'', calls ++ calls')) in
    if ltb 8 n then rest else write_output (shift_in bins n e)

-- EncodeBinsEP. `n` rounds and one more are enough.
pub encode_bins_ep : ℕ → ℕ → Engine → Outcome (Engine × List Call)
encode_bins_ep bins n e = do
  make_sure (ltb bins (u32 (2 ^ n))) bins_overflow
  ok (bins_loop (suc n) bins n e)

-- EncodeTerminatingBit up to the call of WriteOutputBitstream.
pub code_terminating_bit : Bool → Engine → Engine
code_terminating_bit bin e =
    let range = u32 (e.range + 2 ^ 32 - 2) in
    if bin
    then record e {
      low = u32 (u32 (e.low + range) * 2 ^ 7);
      range = 2 * 2 ^ 7;
      bits_left = e.bits_left - 7;
    }
    else if ltb range 256
    then record e { low = u32 (e.low * 2); range = u32 (range * 2); bits_left = e.bits_left - 1 }
    else record e { range = range }

-- EncodeTerminatingBit
pub encode_terminating_bit : Bool → Engine → Engine × List Call
encode_terminating_bit bin e = write_output (code_terminating_bit bin e)

-- Flush
pub flush : Engine → Engine × List Call
flush e =
    let top = 32 - e.bits_left in
    let last = λ (low : ℕ). put (low / 2 ^ 8) (24 - e.bits_left) ∷ [] in
    if ltb 0 (e.low / 2 ^ top)
    then (let low = u32 (e.low + 2 ^ 32 - 2 ^ top) in
        (
          record e { low = low; num_byte = if ltb 1 e.num_byte then 1 else e.num_byte },
          put (e.buffer + 1) 8 ∷ outstanding e.num_byte 0 ++ last low,
        ))
    else (
      record e { num_byte = if ltb 1 e.num_byte then 1 else e.num_byte },
      (if ltb 0 e.num_byte then put e.buffer 8 ∷ [] else [])
          ++ outstanding e.num_byte 0xff
          ++ last e.low,
    )

-- FinishEncodeCTU
pub finish_encode_ctu : Bool → Bool → Engine → Engine × List Call
finish_encode_ctu is_last_tile_ctu is_last_slice_ctu e =
    let (e₁, calls₁) = (if is_last_slice_ctu then (e, []) else encode_terminating_bit false e) in
    if is_last_tile_ctu
    then (let (e₂, calls₂) = encode_terminating_bit true e₁ in
        let (e₃, calls₃) = flush e₂ in
        (e₃, calls₁ ++ calls₂ ++ calls₃ ++ trailing_bits ∷ flush_rem ∷ []))
    else (e₁, calls₁)
