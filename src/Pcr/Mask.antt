-- ===== src/Pcr/Mask.antt =====
-- The mask of a bank read bit by bit.
use tpm2_tools.Base.Bits.{
  bit, bit-bit_and, bit-le-one, bit-complement, bit_and-two-pow, zero-bit_and,
}
use native.Mathlib.Nat.{one-le-pow}
use tpm2_tools.Base.{
  ℕ, zero, suc, ◌-◌, ◌*◌, ◌/◌, ◌%◌, ◌^◌, ◌≤◌, ◌<◌, min, ◌≡◌, refl, ap, ◌∙◌, true, not, List, [],
  ◌∷◌, arith, ltb, ◌==◌, if◌then◌else◌, get_or, drop, All,
}
use tpm2_tools.Pcr.{
  Selection, is_pcr_select_bit_set, zip_bytes, clear_bits, clear_bank, unset_bytes,
}

-- Bit `pcr` of a bank, 0 or 1.
abbrev pub mask_bit : Selection → ℕ → ℕ
mask_bit b pcr = bit (get_or b.pcr_select (pcr / 8) 0) (pcr % 8)

abbrev pub IsBytes : List ℕ → Type 0
IsBytes = All (λ x. x < 2 ^ 8)

pub get_or-IsBytes : (a : List ℕ) (j : ℕ) → IsBytes a → get_or a j 0 < 2 ^ 8
get_or-IsBytes [] j h = omega arith
get_or-IsBytes (x ∷ a) zero h = h.0
get_or-IsBytes (x ∷ a) (suc j) h = get_or-IsBytes a j h.1

flag_test : (b p v : ℕ) → b ≤ 1 → 1 ≤ p → v ≡ b * p → not (v == 0) ≡ (b == 1)
flag_test zero p v hb hp e = ground arith
flag_test (suc zero) p v hb hp e = ground arith
flag_test (suc (suc b)) p v hb hp e = absurd (omega arith)

pub is_pcr_select_bit_set-mask_bit :
    (b : Selection) (pcr : ℕ) → is_pcr_select_bit_set b pcr ≡ (mask_bit b pcr == 1)
unfolding is_pcr_select_bit_set
is_pcr_select_bit_set-mask_bit b pcr =
    flag_test (mask_bit b pcr) (2 ^ (pcr % 8)) _ (bit-le-one (byte pcr) (pcr % 8))
      (one-le-pow (pcr % 8) 2 (omega arith)) (bit_and-two-pow (byte pcr) (pcr % 8))
  where
    byte : ℕ → ℕ
    byte p = get_or b.pcr_select (p / 8) 0

pub get_or-drop_one : (b : List ℕ) (j : ℕ) → get_or (drop 1 b) j 0 ≡ get_or b (suc j) 0
get_or-drop_one [] j = refl
get_or-drop_one (y ∷ b) j = refl

-- Byte `j` of the result; past the end of `a` there is nothing to write.
pub get_or-zip_bytes :
    (f : ℕ → ℕ → ℕ) (n : ℕ) (a b : List ℕ) (j : ℕ)
    → ((y : ℕ) → f 0 y ≡ 0)
    → get_or (zip_bytes f n a b) j 0
      ≡ (if ltb j n then f (get_or a j 0) (get_or b j 0) else get_or a j 0)
unfolding zip_bytes
get_or-zip_bytes f zero a b j h = ground arith
get_or-zip_bytes f (suc n) [] b j h = ground (arith, h (get_or b j 0))
get_or-zip_bytes f (suc n) (x ∷ a) b zero h = ground arith
get_or-zip_bytes f (suc n) (x ∷ a) b (suc j) h =
    ground (arith, get_or-zip_bytes f n a (drop 1 b) j h, get_or-drop_one b j)

-- In a bank of the same hash, clearing takes away exactly the PCRs of `out`, whose mask has to be
-- of bytes, among the PCRs within the bank's own size; in a bank of another hash it changes none
-- of them.
pub mask_bit-clear_bank :
    (out b : Selection) (pcr : ℕ)
    → IsBytes out.pcr_select
    → pcr / 8 < b.size_of_select
    → mask_bit (clear_bank out b) pcr
      ≡ (if out.hash == b.hash then min (mask_bit b pcr) (1 - mask_bit out pcr) else mask_bit b pcr)
unfolding clear_bank
mask_bit-clear_bank out b pcr bytes h =
    let j = pcr / 8 in
    let y = get_or out.pcr_select j 0 in
    let x = get_or b.pcr_select j 0 in
    let in_byte : pcr % 8 < 8 = omega arith in
    let written =
      get_or-zip_bytes clear_bits b.size_of_select b.pcr_select out.pcr_select j
        (λ y. zero-bit_and _) in
    let cleared : bit (clear_bits x y) (pcr % 8) ≡ min (bit x (pcr % 8)) (1 - bit y (pcr % 8)) =
      bit-bit_and x (2 ^ 8 - 1 - y) (pcr % 8)
      ∙ ap (min (bit x (pcr % 8)))
          (bit-complement 8 y (pcr % 8) (get_or-IsBytes out.pcr_select j bytes) in_byte) in
    ground (arith, written, cleared)

pub unset_bytes-get_or :
    (n : ℕ) (a : List ℕ) (j : ℕ) → unset_bytes n a ≡ true → j < n → get_or a j 0 ≡ 0
unfolding unset_bytes
unset_bytes-get_or zero a j e h = absurd (omega arith)
unset_bytes-get_or (suc n) a zero e h = ground arith
unset_bytes-get_or (suc n) a (suc j) e h =
    ground (arith, unset_bytes-get_or n (drop 1 a) j, get_or-drop_one a j)

pub get_or-unset_bytes :
    (n : ℕ) (a : List ℕ) → ((j : ℕ) → j < n → get_or a j 0 ≡ 0) → unset_bytes n a ≡ true
unfolding unset_bytes
get_or-unset_bytes zero a h = refl
get_or-unset_bytes (suc n) a h = ground (
  arith,
  h 0 (omega arith),
  get_or-unset_bytes n (drop 1 a) (λ j p. get_or-drop_one a j ∙ h (suc j) (omega arith)),
)
