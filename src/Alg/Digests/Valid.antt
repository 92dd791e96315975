-- ===== src/Alg/Digests/Valid.antt =====
-- What an accepted list of digest specifications holds.
use tpm2_tools.Alg.Hashes.{one_of, is_hash, keyed_hashes, sha3_hashes, algtostr-hash}
use tpm2_tools.Alg.Optarg.{from_optarg-algtostr}
use tpm2_tools.Alg.Table.{flags_hash}
use tpm2_tools.Alg.{algtostr, from_optarg}
use tpm2_tools.Base.Bytes.{Bytes}
use tpm2_tools.Base.Text.{str_chr, tokens}
use tpm2_tools.Base.{
  ℕ, suc, ◌+◌, ◌/◌, ◌≤◌, ◌<◌, Bool, true, false, not, ◌&&◌, ◌||◌, ◌%◌, List, [], ◌∷◌, Option, none,
  some, leb, ltb, ◌==◌, if◌then◌else◌, ◌≡◌, refl, sym, ap, ◌∙◌, subst, arith, All, length,
  Bool-cases, inl, inr,
}
use tpm2_tools.EventLog.{get_hash_size}
use tpm2_tools.Pcr.Parse.{pcr_get_id}
use tpm2_tools.Tss
use tpm2_tools.Util.Handle.Permitted.{handle_from_optarg-pcr}
use tpm2_tools.Util.Hex.{
  all_xdigits, HexStatus, converted, hex_error, hex_pairs, hex_to_byte_structure,
}
use tpm2_tools.Alg.Digests.{
  HashValue, DigestSpec, max_digests, cons_some, strip_0x, sized, parse_value, parse_values,
  with_index, parse_spec, pcr_parse_digest_list,
}

-- The length of the digests of an algorithm: of no byte for SHA-3 and the keyed hashes.
abbrev is_length : ℕ → ℕ → Bool
is_length alg n =
    (alg == Tss.alg_sha1 && n == 20)
    || (alg == Tss.alg_sha256 && n == 32)
    || (alg == Tss.alg_sha384 && n == 48)
    || (alg == Tss.alg_sha512 && n == 64)
    || (alg == Tss.alg_sm3_256 && n == 32)
    || ((one_of sha3_hashes alg || one_of keyed_hashes alg) && n == 0)

abbrev pub IsValue : HashValue → Type 0
IsValue v = is_length v.hash_alg (length v.digest) ≡ true

get_hash_size-is_length :
    (alg : ℕ)
    → (is_hash alg || one_of keyed_hashes alg) ≡ true
    → is_length alg (get_hash_size alg) ≡ true
unfolding get_hash_size
get_hash_size-is_length alg h = ground arith

abbrev pub IsSpec : DigestSpec → Type 0
IsSpec s =
    (s.pcr_index ≤ Tss.pcr_last)
    × (0 < length s.digests)
    × (length s.digests ≤ max_digests)
    × All IsValue s.digests

length-hex_pairs : (s : Bytes) → length (hex_pairs s) ≡ length s / 2
unfolding hex_pairs
length-hex_pairs [] = refl
length-hex_pairs (a ∷ []) = refl
length-hex_pairs (a ∷ b ∷ s) = omega (arith, length-hex_pairs s)

abbrev IsMeasured : HexStatus → Type 0
IsMeasured (converted size digest) = length digest ≡ size
IsMeasured (hex_error rc) = Unit

hex_to_byte_structure-IsMeasured :
    (text : Bytes) (n : ℕ) → IsMeasured (hex_to_byte_structure text n)
unfolding hex_to_byte_structure
hex_to_byte_structure-IsMeasured text n =
    pick (not (length text % 2 == 0)) (not (all_xdigits text)) (ltb n (length text / 2))
  where
    pick :
        (b c d : Bool)
        → IsMeasured (
            if b
            then hex_error 2
            else if c
            then hex_error 3
            else if d
            then hex_error 4
            else converted (length text / 2) (hex_pairs text))
    pick true c d = tt
    pick false true d = tt
    pick false false true = tt
    pick false false false = length-hex_pairs text

sized-IsValue :
    (alg : ℕ) (status : HexStatus) (v : HashValue)
    → ¬ (algtostr alg flags_hash ≡ none)
    → IsMeasured status
    → sized alg status ≡ some v
    → IsValue v
unfolding sized
sized-IsValue alg (hex_error rc) v k m e = absurd (cc e)
sized-IsValue alg (converted size digest) v k m e = elim (Bool-cases (get_hash_size alg == size)) [
  | inl same ↦
      let q : record { hash_alg = alg; digest = digest } ≡ v = cc (rw same at e) in
      let l : get_hash_size alg ≡ size = ground arith in
      subst IsValue q
        (ap (λ n. is_length alg n) (m ∙ sym l) ∙ get_hash_size-is_length alg (algtostr-hash alg k))
  | inr other ↦ absurd (cc (rw other at e))
]

parse_value-IsValue :
    (o : Option (Bytes × Bytes)) (v : HashValue) → parse_value o ≡ some v → IsValue v
unfolding parse_value
parse_value-IsValue none v e = absurd (cc e)
parse_value-IsValue (some (name, text)) v e = elim (Bool-cases (from_optarg name flags_hash == 0)) [
  | inl zero_alg ↦ absurd (cc (rw zero_alg at e))
  | inr some_alg ↦
      sized-IsValue (from_optarg name flags_hash)
        (hex_to_byte_structure (strip_0x text) (get_hash_size (from_optarg name flags_hash))) v
        ((from_optarg-algtostr flags_hash 0 name).1 (λ z. ground arith))
        (hex_to_byte_structure-IsMeasured (strip_0x text)
          (get_hash_size (from_optarg name flags_hash)))
        (rw some_alg at e)
]

-- A list that is put together element by element.
cons_some-All :
    {A : Type 0} (P : A → Type 0) (o : Option A) (r : Option (List A)) (xs : List A)
    → ((a : A) → o ≡ some a → P a)
    → ((ys : List A) → r ≡ some ys → All P ys)
    → cons_some o r ≡ some xs
    → All P xs
cons_some-All P none r xs h k e = absurd (cc e)
cons_some-All P (some a) none xs h k e = absurd (cc e)
cons_some-All P (some a) (some ys) xs h k e =
    let q : a ∷ ys ≡ xs = cc e in subst (All P) q (h a refl, k ys refl)

cons_some-length :
    {A : Type 0} (o : Option A) (r : Option (List A)) (xs : List A) (n : ℕ)
    → ((ys : List A) → r ≡ some ys → length ys ≡ n)
    → cons_some o r ≡ some xs
    → length xs ≡ suc n
cons_some-length none r xs n k e = absurd (cc e)
cons_some-length (some a) none xs n k e = absurd (cc e)
cons_some-length (some a) (some ys) xs n k e =
    let q : a ∷ ys ≡ xs = cc e in sym (ap length q) ∙ ap suc (k ys refl)

parse_values-All :
    (count : ℕ) (toks : List Bytes) (vs : List HashValue)
    → parse_values count toks ≡ some vs
    → All IsValue vs
unfolding parse_values
parse_values-All count [] vs e = let q : [] ≡ vs = cc e in subst (All IsValue) q tt
parse_values-All count (tok ∷ toks) vs e = elim (Bool-cases (leb max_digests count)) [
  | inl full ↦ absurd (cc (rw full at e))
  | inr room ↦
      cons_some-All IsValue (parse_value (str_chr b'=' tok)) (parse_values (suc count) toks) vs
        (λ v h. parse_value-IsValue (str_chr b'=' tok) v h)
        (λ ys h. parse_values-All (suc count) toks ys h) (rw room at e)
]

parse_values-length :
    (count : ℕ) (toks : List Bytes) (vs : List HashValue)
    → count ≤ max_digests
    → parse_values count toks ≡ some vs
    → count + length vs ≤ max_digests
unfolding parse_values
parse_values-length count [] vs h e =
    let q : 0 ≡ length vs = ap length (let r : [] ≡ vs = cc e in r) in omega arith
parse_values-length count (tok ∷ toks) vs h e = elim (Bool-cases (leb max_digests count)) [
  | inl full ↦ absurd (cc (rw full at e))
  | inr room ↦
      measured (parse_value (str_chr b'=' tok)) (parse_values (suc count) toks)
        (λ ys k. parse_values-length (suc count) toks ys (ground arith) k) (rw room at e)
]
  where
    measured :
        (o : Option HashValue) (r : Option (List HashValue))
        → ((ys : List HashValue) → r ≡ some ys → suc count + length ys ≤ max_digests)
        → cons_some o r ≡ some vs
        → count + length vs ≤ max_digests
    measured none r k e' = absurd (cc e')
    measured (some a) none k e' = absurd (cc e')
    measured (some a) (some ys) k e' =
        let q : a ∷ ys ≡ vs = cc e' in let l = ap length q in let m = k ys refl in omega arith

parse_spec-IsSpec : (o : Option (Bytes × Bytes)) (s : DigestSpec) → parse_spec o ≡ some s → IsSpec s
unfolding parse_spec pcr_get_id
parse_spec-IsSpec none s e = absurd (cc e)
parse_spec-IsSpec (some (index, values)) s e =
    indexed (pcr_get_id index) (parse_values 0 (tokens b',' values))
      (λ pcr h. handle_from_optarg-pcr index pcr h)
      (λ vs h. (
        parse_values-length 0 (tokens b',' values) vs (omega arith) h,
        parse_values-All 0 (tokens b',' values) vs h,
      ))
      e
  where
    indexed :
        (i : Option ℕ) (r : Option (List HashValue))
        → ((pcr : ℕ) → i ≡ some pcr → pcr ≤ Tss.pcr_last)
        → ((vs : List HashValue) → r ≡ some vs → (0 + length vs ≤ max_digests) × All IsValue vs)
        → with_index i r ≡ some s
        → IsSpec s
    indexed none r h k e' = absurd (cc e')
    indexed (some pcr) none h k e' = absurd (cc e')
    indexed (some pcr) (some []) h k e' = absurd (cc e')
    indexed (some pcr) (some (v ∷ vs)) h k e' =
        let q : record { pcr_index = pcr; digests = v ∷ vs } ≡ s = cc e' in
        let (l, a) = k (v ∷ vs) refl in subst IsSpec q (h pcr refl, omega arith, omega arith, a)

-- A list of digest specifications that is accepted has one for each argument, each with one of the 32
-- PCRs and 1 to 16 digests: of 20 bytes for SHA-1, 32 for SHA-256 and SM3, 48 for SHA-384, 64 for
-- SHA-512, and of no byte for SHA-3, HMAC and XOR, which are accepted too.
pub pcr_parse_digest_list-IsSpec :
    (argv : List Bytes) (specs : List DigestSpec)
    → pcr_parse_digest_list argv ≡ some specs
    → (length specs ≡ length argv) × All IsSpec specs
unfolding pcr_parse_digest_list
pcr_parse_digest_list-IsSpec [] specs e =
    let q : [] ≡ specs = cc e in (sym (ap length q), subst (All IsSpec) q tt)
pcr_parse_digest_list-IsSpec (arg ∷ argv) specs e = (
  cons_some-length (parse_spec (str_chr b':' arg)) (pcr_parse_digest_list argv) specs (length argv)
      (λ ys h. (pcr_parse_digest_list-IsSpec argv ys h).0) e,
  cons_some-All IsSpec (parse_spec (str_chr b':' arg)) (pcr_parse_digest_list argv) specs
      (λ s h. parse_spec-IsSpec (str_chr b':' arg) s h)
      (λ ys h. (pcr_parse_digest_list-IsSpec argv ys h).1) e,
)
