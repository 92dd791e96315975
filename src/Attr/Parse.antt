-- ===== src/Attr/Parse.antt =====
-- What attribute lists are parsed to.
use tpm2_tools.Base.Bytes.{Bytes}
use tpm2_tools.Base.Text.{join, IsField, tokens-join}
use tpm2_tools.Base.Bits.{bit, bit-bit_or, bit-two-pow_self, bit-two-pow_ne, bit-le-one, bit-zero}
use tpm2_tools.Base.{
  ℕ, ◌^◌, ◌≡◌, refl, ap, ◌∙◌, bit_or, Bool, true, false, ◌||◌, List, [], ◌∷◌, Option, some, arith,
  ◌==◌, if◌then◌else◌, All, map,
}
use tpm2_tools.Attr.Table.{Dispatch, nv_attr_table, obj_attr_table}
use tpm2_tools.Attr.{dispatch_tokens, common_strtoattr, nv_strtoattr, obj_strtoattr}
use tpm2_tools.Attr.Flags.{
  flags, Has, Sets, AreFields, All-Has, nv_flags-Sets, obj_flags-Sets, is_field, is_field-IsField,
  nv_flags-AreFields, obj_flags-AreFields,
}

abbrev pub names : List (ℕ × Bytes) → List Bytes
names fs = map (λ f. f.1) fs

-- The word with the bits of these names set besides those of `attrs`.
abbrev pub with_bits : ℕ → List (ℕ × Bytes) → ℕ
with_bits attrs [] = attrs
with_bits attrs (f ∷ fs) = with_bits (bit_or attrs (2 ^ f.0)) fs

abbrev pub has_position : ℕ → List (ℕ × Bytes) → Bool
has_position k [] = false
has_position k (f ∷ fs) = f.0 == k || has_position k fs

pub bit-with_bits :
    (attrs k : ℕ) (fs : List (ℕ × Bytes))
    → bit (with_bits attrs fs) k ≡ (if has_position k fs then 1 else bit attrs k)
bit-with_bits attrs k [] = refl
bit-with_bits attrs k (f ∷ fs) = ground (
  arith,
  bit-with_bits (bit_or attrs (2 ^ f.0)) k fs,
  bit-bit_or attrs (2 ^ f.0) k,
  bit-two-pow_self k,
  bit-two-pow_ne f.0 k,
  bit-le-one attrs k,
)

module _ (value : ℕ) (table : List Dispatch) where
  pub dispatch_tokens-flags :
      (fs : List (ℕ × Bytes)) (attrs : ℕ)
      → All (Sets table) fs
      → dispatch_tokens value table (names fs) attrs ≡ some (with_bits attrs fs)
  unfolding dispatch_tokens
  dispatch_tokens-flags [] attrs h = refl
  dispatch_tokens-flags (f ∷ fs) attrs h =
      rw (h.0 value attrs, dispatch_tokens) (dispatch_tokens-flags fs (bit_or attrs (2 ^ f.0)) h.1)

-- Each of these names has the property that all flags of the table have.
pub All-flags :
    (P : ℕ × Bytes → Type 0) (table : List Dispatch) (fs : List (ℕ × Bytes))
    → All P (flags table)
    → All (Has (flags table)) fs
    → All P fs
All-flags P table [] h has = tt
All-flags P table (f ∷ fs) h has = (All-Has P (flags table) f h has.0, All-flags P table fs h has.1)

pub All-names : (fs : List (ℕ × Bytes)) → AreFields fs → All (IsField b'|') (names fs)
All-names [] h = tt
All-names (f ∷ fs) h = (is_field-IsField f.1 h.0, All-names fs h.1)

-- The result of parsing a joined list of names: exactly the bits of the names are set.
abbrev pub Parses : List (ℕ × Bytes) → Option ℕ → Type 0
Parses fs r =
    (attrs : ℕ) × (r ≡ some attrs) × ((k : ℕ) → bit attrs k ≡ (if has_position k fs then 1 else 0))

common_strtoattr-flags :
    (value : ℕ) (table : List Dispatch) (fs : List (ℕ × Bytes))
    → All (Sets table) fs
    → AreFields fs
    → Parses fs (common_strtoattr value (join b'|' (names fs)) table)
unfolding common_strtoattr
common_strtoattr-flags value table fs sets fields = (
  with_bits 0 fs,
  rw (tokens-join b'|' (names fs) (All-names fs fields))
      (dispatch_tokens-flags value table fs 0 sets),
  λ k. bit-with_bits 0 k fs ∙ ap (λ t. if has_position k fs then 1 else t) (bit-zero k),
)

-- A list of NV attribute names, joined by '|' in any order and with any repeats, is parsed to the word
-- in which exactly the bits of these names are set.
pub nv_strtoattr-flags :
    (value : ℕ) (fs : List (ℕ × Bytes))
    → All (Has (flags nv_attr_table)) fs
    → Parses fs (nv_strtoattr value (join b'|' (names fs)))
unfolding nv_strtoattr
nv_strtoattr-flags value fs has =
    common_strtoattr-flags value nv_attr_table fs
      (All-flags (Sets nv_attr_table) nv_attr_table fs nv_flags-Sets has)
      (All-flags (λ f. is_field f.1 ≡ true) nv_attr_table fs nv_flags-AreFields has)

-- A list of object attribute names, joined by |, in any order and with any repeats, is parsed to the
-- word in which exactly the bits of these names are set.
pub obj_strtoattr-flags :
    (value : ℕ) (fs : List (ℕ × Bytes))
    → All (Has (flags obj_attr_table)) fs
    → Parses fs (obj_strtoattr value (join b'|' (names fs)))
unfolding obj_strtoattr
obj_strtoattr-flags value fs has =
    common_strtoattr-flags value obj_attr_table fs
      (All-flags (Sets obj_attr_table) obj_attr_table fs obj_flags-Sets has)
      (All-flags (λ f. is_field f.1 ≡ true) obj_attr_table fs obj_flags-AreFields has)
