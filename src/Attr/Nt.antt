-- ===== src/Attr/Nt.antt =====
-- lib/tpm2_attr_util.c: the NT field in a list of NV attributes.
use tpm2_tools.Base.Bytes.{Bytes}
use tpm2_tools.Base.Text.{codes, join, IsField, tokens-join}
use tpm2_tools.Base.Bits.{bit, bit-bit_and, bit-bit_or, bit-complement, bit-le-one, bit-zero}
use tpm2_tools.Base.{
  ℕ, zero, suc, ◌-◌, ◌*◌, ◌/◌, ◌^◌, ◌≤◌, ◌<◌, ◌≡◌, refl, ◌∙◌, bit_and, bit_or, true, false, ◌&&◌,
  ◌||◌, List, [], ◌∷◌, ◌++◌, some, arith, ltb, leb, if◌then◌else◌, All,
}
use tpm2_tools.Attr.Flags.{flags, Has, Sets, nv_flags-Sets, is_field, nv_flags-AreFields}
use tpm2_tools.Attr.Parse.{
  names, has_position, with_bits, bit-with_bits, dispatch_tokens-flags, All-flags, All-names,
}
use tpm2_tools.Attr.Table.{Dispatch, nv_attr_table}
use tpm2_tools.Attr.{
  set_nt_field, run_action, dispatch_token, dispatch_tokens, common_strtoattr, nv_strtoattr,
  or_else, set_nt,
}
use tpm2_tools.Util.Number.{string_to_uint16}

-- The word with another NT field.
abbrev with_nt : ℕ → ℕ → ℕ
with_nt attrs v = bit_or (bit_and attrs (2 ^ 32 - 1 - 0xf0)) (v * 2 ^ 4)

bit-shifted : (v k : ℕ) → bit (v * 16) k ≡ (if ltb k 4 then 0 else bit v (k - 4))
bit-shifted v zero = omega arith
bit-shifted v (suc zero) = omega arith
bit-shifted v (suc (suc zero)) = omega arith
bit-shifted v (suc (suc (suc zero))) = omega arith
bit-shifted v (suc (suc (suc (suc k)))) =
    let e : ((((v * 16) / 2) / 2) / 2) / 2 ≡ v = omega arith in
    let f : ltb (suc (suc (suc (suc k)))) 4 ≡ false = ground arith in
    let g : suc (suc (suc (suc k))) - 4 ≡ k = omega arith in rw (e, f, g) refl

bit-small : (v k : ℕ) → v < 16 → 4 ≤ k → bit v k ≡ 0
bit-small v zero h l = absurd (omega arith)
bit-small v (suc zero) h l = absurd (omega arith)
bit-small v (suc (suc zero)) h l = absurd (omega arith)
bit-small v (suc (suc (suc zero))) h l = absurd (omega arith)
bit-small v (suc (suc (suc (suc k)))) h l =
    let e : (((v / 2) / 2) / 2) / 2 ≡ 0 = omega arith in rw e (bit-zero k)

-- The bits of the field.
bit-field : (k : ℕ) → bit 15 k ≡ (if ltb k 4 then 1 else 0)
bit-field zero = refl
bit-field (suc zero) = refl
bit-field (suc (suc zero)) = refl
bit-field (suc (suc (suc zero))) = refl
bit-field (suc (suc (suc (suc k)))) = ground (arith, bit-zero k)

bit-with_nt :
    (attrs v k : ℕ)
    → v < 16
    → k < 32
    → bit (with_nt attrs v) k ≡ (if leb 4 k && ltb k 8 then bit v (k - 4) else bit attrs k)
bit-with_nt attrs v k h l = ground (
  arith,
  bit-bit_or (bit_and attrs (2 ^ 32 - 1 - 0xf0)) (v * 2 ^ 4) k,
  bit-bit_and attrs (2 ^ 32 - 1 - 0xf0) k,
  bit-complement 32 0xf0 k (omega arith) l,
  bit-shifted 15 k,
  bit-shifted v k,
  bit-field (k - 4),
  bit-small v (k - 4) h,
  bit-le-one attrs k,
  bit-le-one v (k - 4),
)

set_nt_field-number :
    (value attrs c v : ℕ) (arg : Bytes)
    → string_to_uint16 (c ∷ arg) ≡ some v
    → v < 16
    → set_nt_field value attrs (c ∷ arg) ≡ some (with_nt attrs v)
unfolding set_nt_field
set_nt_field-number value attrs c v arg h l = rw (h, or_else, set_nt) (ground arith)

abbrev nt_token : ℕ → Bytes → Bytes
nt_token c arg = codes "nt=" ++ (c ∷ arg)

dispatch_token-nt :
    (value attrs c v : ℕ) (arg : Bytes)
    → string_to_uint16 (c ∷ arg) ≡ some v
    → v < 16
    → dispatch_token value nv_attr_table (nt_token c arg) attrs ≡ some (with_nt attrs v)
unfolding dispatch_token nv_attr_table
dispatch_token-nt value attrs c v arg h l =
    rw (set_nt_field-number value attrs c v arg h l, run_action, dispatch_token) refl

dispatch_tokens-then :
    (value : ℕ) (table : List Dispatch) (fs : List (ℕ × Bytes)) (rest : List Bytes) (attrs : ℕ)
    → All (Sets table) fs
    → dispatch_tokens value table (names fs ++ rest) attrs
      ≡ dispatch_tokens value table rest (with_bits attrs fs)
unfolding dispatch_tokens
dispatch_tokens-then value table [] rest attrs h = refl
dispatch_tokens-then value table (f ∷ fs) rest attrs h =
    rw (h.0 value attrs, dispatch_tokens)
      (dispatch_tokens-then value table fs rest (bit_or attrs (2 ^ f.0)) h.1)

All-append :
    (P : Bytes → Type 0) (xs : List Bytes) (y : Bytes) (ys : List Bytes)
    → All P xs
    → P y
    → All P ys
    → All P (xs ++ y ∷ ys)
All-append P [] y ys h k l = (k, l)
All-append P (x ∷ xs) y ys h k l = (h.0, All-append P xs y ys h.1 k l)

-- No name of the table has a bit of the NT field.
abbrev IsOutside : ℕ × Bytes → Type 0
IsOutside f = (ltb f.0 4 || leb 8 f.0) ≡ true

nv_flags-IsOutside : All IsOutside (flags nv_attr_table)
unfolding nv_attr_table
nv_flags-IsOutside = (
  refl,
  (
    refl,
    (
      refl,
      (
        refl,
        (
          refl,
          (
            refl,
            (
              refl,
              (
                refl,
                (
                  refl,
                  (
                    refl,
                    (
                      refl,
                      (
                        refl,
                        (refl, (refl, (refl, (refl, (refl, (refl, (refl, (refl, (refl, tt))))))))),
                      ),
                    ),
                  ),
                ),
              ),
            ),
          ),
        ),
      ),
    ),
  ),
)

has_position-outside :
    (k : ℕ) (fs : List (ℕ × Bytes)) → All IsOutside fs → 4 ≤ k → k < 8 → has_position k fs ≡ false
has_position-outside k [] h l m = refl
has_position-outside k (f ∷ fs) h l m =
    let x = h.0 in ground (arith, x, has_position-outside k fs h.1 l m)

-- Bit `k` of the word with an NT field and the bits of some names.
abbrev pub nt_bit : ℕ → List (ℕ × Bytes) → List (ℕ × Bytes) → ℕ → ℕ
nt_bit v fs gs k =
    if leb 4 k && ltb k 8
    then bit v (k - 4)
    else if has_position k fs || has_position k gs
    then 1
    else 0

-- A list of NV attribute names with "nt=" and a text at any place, where the text has no '|' and is
-- read as a number below 16, is parsed to the word whose NT field, bits 4 to 7, is the number and
-- whose other bits are set exactly for the names.
pub nv_strtoattr-nt :
    (value c v : ℕ) (arg : Bytes) (fs gs : List (ℕ × Bytes))
    → All (Has (flags nv_attr_table)) fs
    → All (Has (flags nv_attr_table)) gs
    → IsField b'|' (c ∷ arg)
    → string_to_uint16 (c ∷ arg) ≡ some v
    → v < 16
    → (attrs : ℕ) × (nv_strtoattr value
          (join b'|' (names fs ++ (codes "nt=" ++ (c ∷ arg)) ∷ names gs))
        ≡ some attrs)
      × ((k : ℕ) → k < 32 → bit attrs k ≡ nt_bit v fs gs k)
unfolding nv_strtoattr common_strtoattr dispatch_tokens
nv_strtoattr-nt value c v arg fs gs hf hg field number small = (
  with_bits (with_nt (with_bits 0 fs) v) gs,
  rw (tokens-join b'|' (names fs ++ nt_token c arg ∷ names gs) all_fields) (
      dispatch_tokens-then value nv_attr_table fs (nt_token c arg ∷ names gs) 0 (sets fs hf)
      ∙ rw (dispatch_token-nt value (with_bits 0 fs) c v arg number small, dispatch_tokens)
          (dispatch_tokens-flags value nv_attr_table gs (with_nt (with_bits 0 fs) v) (sets gs hg))),
  λ k lt. ground (
    arith,
    bit-with_bits (with_nt (with_bits 0 fs) v) k gs,
    bit-with_nt (with_bits 0 fs) v k small lt,
    bit-with_bits 0 k fs,
    bit-zero k,
    has_position-outside k gs (All-flags IsOutside nv_attr_table gs nv_flags-IsOutside hg),
  ),
)
  where
    sets :
        (hs : List (ℕ × Bytes)) → All (Has (flags nv_attr_table)) hs → All (Sets nv_attr_table) hs
    sets hs h = All-flags (Sets nv_attr_table) nv_attr_table hs nv_flags-Sets h

    fields :
        (hs : List (ℕ × Bytes)) → All (Has (flags nv_attr_table)) hs → All (IsField b'|') (names hs)
    fields hs h =
        All-names hs (All-flags (λ f. is_field f.1 ≡ true) nv_attr_table hs nv_flags-AreFields h)

    all_fields : All (IsField b'|') (names fs ++ nt_token c arg ∷ names gs)
    all_fields =
        All-append (IsField b'|') (names fs) (nt_token c arg) (names gs) (fields fs hf)
          ((refl, (refl, (refl, field.0))), λ e. absurd (cc e)) (fields gs hg)
