-- ===== src/Base/Bytes.antt =====
-- Little-endian fields of packed structures in a buffer. A pointer is the list of the bytes from it on.
use tpm2_tools.Base.{
  ℕ, zero, suc, ◌+◌, ◌*◌, ◌/◌, ◌%◌, ◌≤◌, ◌<◌, ◌++◌, ◌≡◌, refl, ap, sym, ◌∙◌, All, length-append,
  append_assoc, append-nil, List, [], ◌∷◌, arith, ltb, if◌then◌else◌, length, take, drop,
  length-drop,
}
use tpm2_tools.Base.Outcome.{Outcome, ok, fault, ◌>>=◌}

abbrev pub Bytes : Type 0
Bytes = List ℕ

-- An unsigned integer of `n` bytes.
unfoldable pub read_le : ℕ → Bytes → Outcome ℕ
read_le zero b = ok 0
read_le (suc n) [] = fault
read_le (suc n) (x ∷ b) = do hi ← read_le n b; ok (x + 256 * hi)

-- The same at an offset.
unfoldable pub read_field : ℕ → ℕ → Bytes → Outcome ℕ
unfolding read_le
read_field off n b = read_le n (drop off b)

unfoldable pub read_bytes : ℕ → Bytes → Outcome Bytes
read_bytes n b = if ltb (length b) n then fault else ok (take n b)

-- The value of a field that is all in the buffer.
abbrev pub value_le : ℕ → Bytes → ℕ
value_le zero b = 0
value_le (suc n) [] = 0
value_le (suc n) (x ∷ b) = x + 256 * value_le n b

abbrev pub field_le : ℕ → ℕ → Bytes → ℕ
field_le off n b = value_le n (drop off b)

pub read_le-ok : (n : ℕ) (b : Bytes) → n ≤ length b → read_le n b ≡ ok (value_le n b)
unfolding read_le
read_le-ok zero b h = refl
read_le-ok (suc n) [] h = absurd (omega arith)
read_le-ok (suc n) (x ∷ b) h = rw (read_le-ok n b (omega arith))

pub read_field-ok :
    (off n : ℕ) (b : Bytes) → off + n ≤ length b → read_field off n b ≡ ok (field_le off n b)
unfolding read_field
read_field-ok off n b h = read_le-ok n (drop off b) (omega (arith, length-drop off b))

pub read_bytes-ok : (n : ℕ) (b : Bytes) → n ≤ length b → read_bytes n b ≡ ok (take n b)
unfolding read_bytes
read_bytes-ok n b h = ground arith

-- The bytes of a number, from the lowest on and from the highest on.
abbrev pub le_bytes : ℕ → ℕ → Bytes
le_bytes zero v = []
le_bytes (suc n) v = v % 256 ∷ le_bytes n (v / 256)

abbrev pub reverse : Bytes → Bytes
reverse [] = []
reverse (x ∷ b) = reverse b ++ x ∷ []

abbrev pub be_bytes : ℕ → ℕ → Bytes
be_bytes n v = reverse (le_bytes n v)

abbrev pub IsByte : ℕ → Type 0
IsByte x = x < 256

pub length-le_bytes : (n v : ℕ) → length (le_bytes n v) ≡ n
length-le_bytes zero v = refl
length-le_bytes (suc n) v = ap suc (length-le_bytes n (v / 256))

pub length-reverse : (b : Bytes) → length (reverse b) ≡ length b
length-reverse [] = refl
length-reverse (x ∷ b) = omega (arith, length-append (reverse b) (x ∷ []), length-reverse b)

pub length-be_bytes : (n v : ℕ) → length (be_bytes n v) ≡ n
length-be_bytes n v = length-reverse (le_bytes n v) ∙ length-le_bytes n v

reverse-append : (a b : Bytes) → reverse (a ++ b) ≡ reverse b ++ reverse a
reverse-append [] b = sym (append-nil (reverse b))
reverse-append (x ∷ a) b =
    ap (λ l. l ++ x ∷ []) (reverse-append a b) ∙ append_assoc (reverse b) (reverse a) (x ∷ [])

pub reverse-reverse : (b : Bytes) → reverse (reverse b) ≡ b
reverse-reverse [] = refl
reverse-reverse (x ∷ b) = reverse-append (reverse b) (x ∷ []) ∙ ap (λ l. x ∷ l) (reverse-reverse b)

All-append : (P : ℕ → Type 0) (a b : Bytes) → All P a → All P b → All P (a ++ b)
All-append P [] b h k = k
All-append P (x ∷ a) b (h, hs) k = (h, All-append P a b hs k)

All-reverse : (P : ℕ → Type 0) (b : Bytes) → All P b → All P (reverse b)
All-reverse P [] h = tt
All-reverse P (x ∷ b) (h, hs) = All-append P (reverse b) (x ∷ []) (All-reverse P b hs) (h, tt)

le_bytes-IsByte : (n v : ℕ) → All IsByte (le_bytes n v)
le_bytes-IsByte zero v = tt
le_bytes-IsByte (suc n) v = (omega arith, le_bytes-IsByte n (v / 256))

pub be_bytes-IsByte : (n v : ℕ) → All IsByte (be_bytes n v)
be_bytes-IsByte n v = All-reverse IsByte (le_bytes n v) (le_bytes-IsByte n v)

-- The numbers that fit into `n` bytes are those below.
abbrev pub byte_limit : ℕ → ℕ
byte_limit zero = 1
byte_limit (suc n) = byte_limit n * 256

pub value_le-le_bytes : (n v : ℕ) → v < byte_limit n → value_le n (le_bytes n v) ≡ v
value_le-le_bytes zero v h = omega arith
value_le-le_bytes (suc n) v h =
    ap (λ q. v % 256 + 256 * q) (value_le-le_bytes n (v / 256) (fits (byte_limit n) h))
    ∙ omega arith
  where
    fits : (w : ℕ) → v < w * 256 → v / 256 < w
    fits w h = omega arith

cons_cong : {x x' : ℕ} {b b' : Bytes} → x ≡ x' → b ≡ b' → ◌≡◌ {A = Bytes} (x ∷ b) (x' ∷ b')
cons_cong e f = cc

pub le_bytes-value_le :
    (n : ℕ) (b : Bytes) → length b ≡ n → All IsByte b → le_bytes n (value_le n b) ≡ b
le_bytes-value_le zero [] e h = refl
le_bytes-value_le zero (x ∷ b) e h = absurd (omega arith)
le_bytes-value_le (suc n) [] e h = absurd (omega arith)
le_bytes-value_le (suc n) (x ∷ b) e (h, hs) =
    let low : (x + 256 * value_le n b) % 256 ≡ x = omega arith in
    let high : (x + 256 * value_le n b) / 256 ≡ value_le n b = omega arith in
    let rest : le_bytes n (value_le n b) ≡ b = le_bytes-value_le n b (omega arith) hs in
    cons_cong low (ap (le_bytes n) high ∙ rest)
