-- ===== src/Cabac/Symbols.antt =====
-- Sequences of coded symbols: for the coder of src/Cabac.cpp, for the encoder of the standard and
-- for its decoder.
pub mod Encode
pub mod Decode
use ces.Prelude.{
  ℕ, zero, suc, ◌+◌, ◌*◌, ◌/◌, ◌%◌, ◌^◌, ◌≤◌, ◌<◌, Bool, true, false, List, [], ◌∷◌, ◌++◌, get_or,
  set, if◌then◌else◌, Outcome, ok, ◌>>=◌,
}
use ces.Cabac.{Call, Engine, encode_bin, encode_bins_ep, encode_terminating_bit}
use ces.Cabac.Interval.{Interval, spec_bin, spec_bypasses, spec_terminate}
use ces.Cabac.Steps.{next_state}
use ces.Cabac.Decode.{Decoder, decode_bin, decode_bypass, decode_terminate}

-- The calls of EncodeBin, EncodeBinsEP and EncodeTerminatingBit.
pub data Symbol : Type 0 where
  context_bin : (bin ctx : ℕ) → Symbol
  bypass_bins : (bins len : ℕ) → Symbol
  terminating : (bin : Bool) → Symbol

-- What the decoder is asked for.
pub data Kind : Type 0 where
  context_kind : (ctx : ℕ) → Kind
  bypass_kind : (len : ℕ) → Kind
  terminating_kind : Kind

abbrev pub kind_of : Symbol → Kind
kind_of (context_bin bin ctx) = context_kind ctx
kind_of (bypass_bins bins len) = bypass_kind len
kind_of (terminating bin) = terminating_kind

abbrev pub answer_of : Symbol → ℕ
answer_of (context_bin bin ctx) = bin
answer_of (bypass_bins bins len) = bins
answer_of (terminating bin) = if bin then 1 else 0

abbrev pub IsCodable : Symbol → Type 0
IsCodable (context_bin bin ctx) = bin < 2
IsCodable (bypass_bins bins len) = (len ≤ 31) × (bins < 2 ^ len)
IsCodable (terminating bin) = Unit {0}

abbrev pub AllCodable : List Symbol → Type 0
AllCodable [] = Unit {0}
AllCodable (s ∷ ss) = IsCodable s × AllCodable ss

pub AllCodable-append :
    (ss ts : List Symbol) → AllCodable ss → AllCodable ts → AllCodable (ss ++ ts)
AllCodable-append [] ts h k = k
AllCodable-append (s ∷ ss) ts h k = (h.0, AllCodable-append ss ts h.1 k)

-- The contexts after an answer.
abbrev pub adapt : Kind → ℕ → List ℕ → List ℕ
adapt (context_kind ctx) bin contexts = set contexts ctx (next_state bin (get_or contexts ctx 0))
adapt (bypass_kind len) bins contexts = contexts
adapt terminating_kind bin contexts = contexts

abbrev pub adapt_all : List Symbol → List ℕ → List ℕ
adapt_all [] contexts = contexts
adapt_all (s ∷ ss) contexts = adapt_all ss (adapt (kind_of s) (answer_of s) contexts)

abbrev pub spec_symbol : Symbol → List ℕ → Interval → Interval
spec_symbol (context_bin bin ctx) contexts i = spec_bin bin (get_or contexts ctx 0) i
spec_symbol (bypass_bins bins len) contexts i = spec_bypasses len bins i
spec_symbol (terminating bin) contexts i = spec_terminate bin i

abbrev pub spec_all : List Symbol → List ℕ → Interval → Interval
spec_all [] contexts i = i
spec_all (s ∷ ss) contexts i =
    spec_all ss (adapt (kind_of s) (answer_of s) contexts) (spec_symbol s contexts i)

abbrev pub encode_symbol : Symbol → Engine → Outcome (Engine × List Call)
encode_symbol (context_bin bin ctx) e = ok (encode_bin bin ctx e)
encode_symbol (bypass_bins bins len) e = encode_bins_ep bins len e
encode_symbol (terminating bin) e = ok (encode_terminating_bit bin e)

pub encode_all : List Symbol → Engine → Outcome (Engine × List Call)
encode_all [] e = ok (e, [])
encode_all (s ∷ ss) e = do
  (e', calls) ← encode_symbol s e
  (e'', calls') ← encode_all ss e'
  ok (e'', calls ++ calls')

-- Bypass bins, the highest bit first.
abbrev pub decode_bypasses : ℕ → Decoder → ℕ × Decoder
decode_bypasses zero d = (0, d)
decode_bypasses (suc n) d =
    let (bins, d') = decode_bypasses n d in
    let (bin, d'') = decode_bypass d' in (2 * bins + bin, d'')

abbrev pub decode_symbol : Kind → List ℕ → Decoder → ℕ × Decoder
decode_symbol (context_kind ctx) contexts d = decode_bin (get_or contexts ctx 0) d
decode_symbol (bypass_kind len) contexts d = decode_bypasses len d
decode_symbol terminating_kind contexts d =
    let (bin, d') = decode_terminate d in (if bin then 1 else 0, d')

abbrev pub decode_all : List Kind → List ℕ → Decoder → List ℕ
decode_all [] contexts d = []
decode_all (k ∷ ks) contexts d =
    let (answer, d') = decode_symbol k contexts d in
    answer ∷ decode_all ks (adapt k answer contexts) d'
