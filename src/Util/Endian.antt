-- ===== src/Util/Endian.antt =====
-- lib/tpm2_util.c: byte order. The host's is a parameter: `big` says whether its memory has the
-- highest byte of a number first.
use tpm2_tools.Base.Bytes.{
  Bytes, value_le, le_bytes, be_bytes, reverse, length-be_bytes, reverse-reverse, be_bytes-IsByte,
  value_le-le_bytes, le_bytes-value_le, byte_limit,
}
use tpm2_tools.Base.{ℕ, ◌<◌, Bool, true, false, ◌==◌, if◌then◌else◌, ◌≡◌, refl, ap, ◌∙◌, get_or}

-- The object representation of an unsigned integer of `w` bytes.
abbrev pub mem_bytes : Bool → ℕ → ℕ → Bytes
mem_bytes true w v = be_bytes w v
mem_bytes false w v = le_bytes w v

abbrev pub mem_value : Bool → ℕ → Bytes → ℕ
mem_value true w b = value_le w (reverse b)
mem_value false w b = value_le w b

-- `tpm2_util_is_big_endian`
unfoldable pub is_big_endian : Bool → Bool
is_big_endian big = get_or (mem_bytes big 4 0xff000000) 0 0 == 0xff

-- `tpm2_util_endian_swap_16`, `_32` and `_64`
unfoldable pub endian_swap : Bool → ℕ → ℕ → ℕ
endian_swap big w value = mem_value big w (reverse (mem_bytes big w value))

-- `tpm2_util_hton_16`, `_32` and `_64`, and the `ntoh` that call them
unfoldable pub hton : Bool → ℕ → ℕ → ℕ
unfolding is_big_endian endian_swap
hton big w value = if is_big_endian big then value else endian_swap big w value

pub hton-big : (w v : ℕ) → hton true w v ≡ v
unfolding hton is_big_endian
hton-big w v = refl

pub hton-little : (w v : ℕ) → hton false w v ≡ value_le w (be_bytes w v)
unfolding hton endian_swap is_big_endian
hton-little w v = refl

pub mem_bytes-hton : (big : Bool) (w v : ℕ) → mem_bytes big w (hton big w v) ≡ be_bytes w v
mem_bytes-hton true w v = ap (be_bytes w) (hton-big w v)
mem_bytes-hton false w v =
    ap (le_bytes w) (hton-little w v)
    ∙ le_bytes-value_le w (be_bytes w v) (length-be_bytes w v) (be_bytes-IsByte w v)

-- The number that the memory of a big-endian number stands for, converted.
pub hton-mem_value :
    (big : Bool) (w v : ℕ) → v < byte_limit w → hton big w (mem_value big w (be_bytes w v)) ≡ v
hton-mem_value true w v h =
    hton-big w (value_le w (reverse (be_bytes w v)))
    ∙ (ap (value_le w) (reverse-reverse (le_bytes w v)) ∙ value_le-le_bytes w v h)
hton-mem_value false w v h =
    hton-little w (value_le w (be_bytes w v))
    ∙ (ap (λ b. value_le w (reverse b))
          (le_bytes-value_le w (be_bytes w v) (length-be_bytes w v) (be_bytes-IsByte w v))
        ∙ (ap (value_le w) (reverse-reverse (le_bytes w v)) ∙ value_le-le_bytes w v h))

-- On either host, a number that is converted lies in memory with its highest byte first, and
-- converting it back gives the number.
pub hton-be_bytes :
    (big : Bool) (w v : ℕ)
    → v < byte_limit w
    → (mem_bytes big w (hton big w v) ≡ be_bytes w v) × (hton big w (hton big w v) ≡ v)
hton-be_bytes true w v h = (mem_bytes-hton true w v, hton-big w (hton true w v) ∙ hton-big w v)
hton-be_bytes false w v h =
    (mem_bytes-hton false w v, ap (hton false w) (hton-little w v) ∙ hton-mem_value false w v h)
