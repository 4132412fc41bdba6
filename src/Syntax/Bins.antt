-- ===== src/Syntax/Bins.antt =====
-- The bins of coded symbols and the contexts that they take, for the syntax elements of src/Cabac.cpp.
use ces.Prelude.{
  ℕ, ◌≤◌, ◌<◌, ◌≡◌, refl, sym, ap, ◌∙◌, List, [], ◌∷◌, ◌++◌, append_assoc, bits, arith, Bool, true,
  false, if◌then◌else◌,
}
use ces.Cabac.Symbols.{Symbol, bypass_bins, context_bin, terminating, AllCodable, AllCodable-append}

-- In the order in which the decoder gets them.
abbrev pub bins_of : List Symbol → List ℕ
bins_of [] = []
bins_of (bypass_bins bins len ∷ ss) = bits len bins ++ bins_of ss
bins_of (context_bin bin ctx ∷ ss) = bin ∷ bins_of ss
bins_of (terminating bin ∷ ss) = bins_of ss

pub bins_of-append : (ss ts : List Symbol) → bins_of (ss ++ ts) ≡ bins_of ss ++ bins_of ts
bins_of-append [] ts = refl
bins_of-append (bypass_bins bins len ∷ ss) ts =
    ap (λ (l : List ℕ). bits len bins ++ l) (bins_of-append ss ts)
    ∙ sym (append_assoc (bits len bins) (bins_of ss) (bins_of ts))
bins_of-append (context_bin bin ctx ∷ ss) ts = ap (λ (l : List ℕ). bin ∷ l) (bins_of-append ss ts)
bins_of-append (terminating bin ∷ ss) ts = bins_of-append ss ts

-- Every context lies in a range.
abbrev pub AllWithin : ℕ → ℕ → List Symbol → Type 0
AllWithin lo hi [] = Unit {0}
AllWithin lo hi (bypass_bins bins len ∷ ss) = AllWithin lo hi ss
AllWithin lo hi (context_bin bin ctx ∷ ss) = ((lo ≤ ctx) × (ctx < hi)) × AllWithin lo hi ss
AllWithin lo hi (terminating bin ∷ ss) = AllWithin lo hi ss

pub AllWithin-append :
    (lo hi : ℕ) (ss ts : List Symbol)
    → AllWithin lo hi ss
    → AllWithin lo hi ts
    → AllWithin lo hi (ss ++ ts)
AllWithin-append lo hi [] ts h k = k
AllWithin-append lo hi (bypass_bins bins len ∷ ss) ts h k = AllWithin-append lo hi ss ts h k
AllWithin-append lo hi (context_bin bin ctx ∷ ss) ts h k = (h.0, AllWithin-append lo hi ss ts h.1 k)
AllWithin-append lo hi (terminating bin ∷ ss) ts h k = AllWithin-append lo hi ss ts h k

-- A larger range.
pub AllWithin-wider :
    (lo lo' hi hi' : ℕ) (ss : List Symbol)
    → lo' ≤ lo
    → hi ≤ hi'
    → AllWithin lo hi ss
    → AllWithin lo' hi' ss
AllWithin-wider lo lo' hi hi' [] l h k = tt
AllWithin-wider lo lo' hi hi' (bypass_bins bins len ∷ ss) l h k =
    AllWithin-wider lo lo' hi hi' ss l h k
AllWithin-wider lo lo' hi hi' (context_bin bin ctx ∷ ss) l h k =
    ((omega arith, omega arith), AllWithin-wider lo lo' hi hi' ss l h k.1)
AllWithin-wider lo lo' hi hi' (terminating bin ∷ ss) l h k = AllWithin-wider lo lo' hi hi' ss l h k

-- The symbols of a part can be coded, in contexts from `lo` up to `hi`.
abbrev pub Good : ℕ → ℕ → List Symbol → Type 0
Good lo hi ss = AllCodable ss × AllWithin lo hi ss

pub Good-append :
    (lo hi : ℕ) (ss ts : List Symbol) → Good lo hi ss → Good lo hi ts → Good lo hi (ss ++ ts)
Good-append lo hi ss ts h k =
    (AllCodable-append ss ts h.0 k.0, AllWithin-append lo hi ss ts h.1 k.1)

pub Good-wider :
    (lo lo' hi hi' : ℕ) (ss : List Symbol) → lo' ≤ lo → hi ≤ hi' → Good lo hi ss → Good lo' hi' ss
Good-wider lo lo' hi hi' ss l h k = (k.0, AllWithin-wider lo lo' hi hi' ss l h k.1)

-- A part that is left out where a test fails.
pub Good-if :
    (lo hi : ℕ) (present : Bool) (ss : List Symbol)
    → Good lo hi ss
    → Good lo hi (if present then ss else [])
Good-if lo hi true ss h = h
Good-if lo hi false ss h = (tt, tt)
