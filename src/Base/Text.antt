-- ===== src/Base/Text.antt =====
-- C strings as lists of bytes without the closing NUL, and the functions of the C library on them.
use Prim.Native.Char.{code}
use Prim.Native.String.{String}
use tpm2_tools.Base.{
  ℕ, ◌≡◌, ◌≢◌, refl, ap, All, arith, ◌++◌, Bool, true, false, ◌&&◌, List, [], ◌∷◌, Option, none,
  some, ◌==◌, if◌then◌else◌,
}
use tpm2_tools.Base.Bytes.{Bytes}

-- The bytes of an ASCII literal.
abbrev pub codes : String → Bytes
codes String.[] = []
codes (String.◌∷◌ c s) = code c ∷ codes s

-- strcmp(a, b) == 0
abbrev pub str_eq : Bytes → Bytes → Bool
str_eq [] [] = true
str_eq (x ∷ a) (y ∷ b) = x == y && str_eq a b
str_eq _ _ = false

-- strncmp(name, prefix, strlen(prefix)) == 0
abbrev pub is_prefix : Bytes → Bytes → Bool
is_prefix [] name = true
is_prefix (x ∷ prefix) [] = false
is_prefix (x ∷ prefix) (y ∷ name) = x == y && is_prefix prefix name

abbrev put_before : ℕ → Option (Bytes × Bytes) → Option (Bytes × Bytes)
put_before x none = none
put_before x (some (a, b)) = some (x ∷ a, b)

-- strchr: what stands before the first `c`, and behind it; `none` where there is no `c`.
abbrev pub str_chr : ℕ → Bytes → Option (Bytes × Bytes)
str_chr c [] = none
str_chr c (x ∷ s) = if x == c then some ([], s) else put_before x (str_chr c s)

-- The fields of a text between the separators, empty ones included.
abbrev pub cons_first : ℕ → List Bytes → List Bytes
cons_first x [] = (x ∷ []) ∷ []
cons_first x (f ∷ fs) = (x ∷ f) ∷ fs

abbrev pub split_on : ℕ → Bytes → List Bytes
split_on c [] = [] ∷ []
split_on c (x ∷ s) = if x == c then [] ∷ split_on c s else cons_first x (split_on c s)

abbrev pub non_empty : List Bytes → List Bytes
non_empty [] = []
non_empty ([] ∷ fs) = non_empty fs
non_empty ((x ∷ f) ∷ fs) = (x ∷ f) ∷ non_empty fs

-- What repeated calls of `strtok_r` with one separator return.
abbrev pub tokens : ℕ → Bytes → List Bytes
tokens c s = non_empty (split_on c s)

-- Fields joined by a separator.
abbrev pub join : ℕ → List Bytes → Bytes
join c [] = []
join c (f ∷ []) = f
join c (f ∷ g ∷ fs) = f ++ c ∷ join c (g ∷ fs)

-- A field: not empty, and without the separator.
abbrev pub Lacks : ℕ → Bytes → Type 0
Lacks c = All (λ x. (x == c) ≡ false)

abbrev pub IsField : ℕ → Bytes → Type 0
IsField c f = Lacks c f × (f ≢ [])

split_on-Lacks : (c : ℕ) (f : Bytes) → Lacks c f → split_on c f ≡ f ∷ []
split_on-Lacks c [] h = refl
split_on-Lacks c (x ∷ f) h = rw (h.0, split_on-Lacks c f h.1)

split_on-append : (c : ℕ) (f s : Bytes) → Lacks c f → split_on c (f ++ c ∷ s) ≡ f ∷ split_on c s
split_on-append c [] s h = let same : (c == c) ≡ true = ground arith in rw same
split_on-append c (x ∷ f) s h = rw (h.0, split_on-append c f s h.1)

-- A joined list is split into its fields; an empty list would give one empty field.
pub split_on-join :
    (c : ℕ) (f : Bytes) (fs : List Bytes)
    → All (Lacks c) (f ∷ fs)
    → split_on c (join c (f ∷ fs)) ≡ f ∷ fs
split_on-join c f [] h = split_on-Lacks c f h.0
split_on-join c f (g ∷ fs) h =
    rw (split_on-append c f (join c (g ∷ fs)) h.0) (ap (λ l. f ∷ l) (split_on-join c g fs h.1))

non_empty-cons : (f : Bytes) (fs : List Bytes) → f ≢ [] → non_empty (f ∷ fs) ≡ f ∷ non_empty fs
non_empty-cons [] fs h = absurd (h refl)
non_empty-cons (x ∷ f) fs h = refl

-- `strtok_r` gives back the fields that were joined.
pub tokens-join : (c : ℕ) (fs : List Bytes) → All (IsField c) fs → tokens c (join c fs) ≡ fs
tokens-join c [] h = refl
tokens-join c (f ∷ []) h = rw (split_on-Lacks c f h.0.0) (non_empty-cons f [] h.0.1)
tokens-join c (f ∷ g ∷ fs) h =
    rw (split_on-append c f (join c (g ∷ fs)) h.0.0, non_empty-cons f _ h.0.1)
      (ap (λ l. f ∷ l) (tokens-join c (g ∷ fs) h.1))
