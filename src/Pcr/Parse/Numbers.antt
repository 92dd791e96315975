-- ===== src/Pcr/Parse/Numbers.antt =====
-- Which PCRs a list of numbers selects.
use tpm2_tools.Base.Bits.{bit, bit-bit_or, bit-two-pow_self, bit-two-pow_ne, bit-le-one, bit-zero}
use tpm2_tools.Base.Bytes.{Bytes}
use tpm2_tools.Base.Text.{join, split_on, Lacks, split_on-join}
use tpm2_tools.Base.Outcome.{Outcome, ok, ◌>>=◌}
use tpm2_tools.Base.{
  ℕ, zero, suc, ◌+◌, ◌/◌, ◌%◌, ◌^◌, ◌<◌, ◌≡◌, ◌≢◌, refl, ap, ◌∙◌, ◌⊎◌, inl, inr, subst,
  get_elem?-get_or, get_or-set_self, get_or-set_ne, length-set, length-drop, Bool-cases, append-nil,
  bit_or, Bool, false, ◌||◌, List, [], ◌∷◌, ◌++◌, some, arith, ◌&&◌, ltb, ◌==◌, if◌then◌else◌,
  length, get_or, set, All, map, Option, true, none,
}
use tpm2_tools.Pcr.{Selection}
use tpm2_tools.Pcr.Parse.{pcr_get_id, select_pcr, parse_ids, fill_mask, pcr_parse_list}

-- The decimal numeral of a number below 100.
abbrev pub numeral : ℕ → Bytes
numeral n = if ltb n 10 then (b'0' + n) ∷ [] else (b'0' + n / 10) ∷ (b'0' + n % 10) ∷ []

-- A numeral is read as its number, which computation shows for each PCR.
abbrev is_some : ℕ → Option ℕ → Bool
is_some n none = false
is_some n (some m) = m == n

abbrev all_read : ℕ → Bool
all_read zero = true
all_read (suc n) = is_some n (pcr_get_id (numeral n)) && all_read n

numerals_are_read : all_read 32 ≡ true
unfolding pcr_get_id
numerals_are_read = refl

is_some-some : (n : ℕ) (o : Option ℕ) → is_some n o ≡ true → o ≡ some n
is_some-some n none h = absurd (cc h)
is_some-some n (some m) h = ap some (ground arith)

all_read-lt : (n k : ℕ) → all_read n ≡ true → k < n → pcr_get_id (numeral k) ≡ some k
all_read-lt zero k h p = absurd (omega arith)
all_read-lt (suc n) k h p = elim (Bool-cases (n == k)) [
  | inl e ↦
      let same : n ≡ k = ground arith in
      subst (λ m. pcr_get_id (numeral m) ≡ some m) same
        (is_some-some n (pcr_get_id (numeral n)) (ground arith))
  | inr ne ↦ all_read-lt n k (ground arith) (ground arith)
]

pcr_get_id-numeral : (n : ℕ) → n < 32 → pcr_get_id (numeral n) ≡ some n
pcr_get_id-numeral n h = all_read-lt 32 n numerals_are_read h

numeral-Lacks : (n : ℕ) → n < 32 → Lacks b',' (numeral n)
numeral-Lacks n h = ground arith

length-numeral : (n : ℕ) → ltb 3 (length (numeral n)) ≡ false
length-numeral n = ground arith

abbrev pub is_listed : ℕ → List ℕ → Bool
is_listed k [] = false
is_listed k (n ∷ ns) = n == k || is_listed k ns

-- Bit `pcr` of a mask.
abbrev pub bit_of : List ℕ → ℕ → ℕ
bit_of mask pcr = bit (get_or mask (pcr / 8) 0) (pcr % 8)

-- The mask with one more PCR.
abbrev selected : ℕ → List ℕ → List ℕ
selected pcr mask = set mask (pcr / 8) (bit_or (get_or mask (pcr / 8) 0) (2 ^ (pcr % 8)))

select_pcr-selected :
    (pcr : ℕ) (mask : List ℕ)
    → pcr < 32
    → length mask ≡ 4
    → select_pcr pcr mask ≡ ok (selected pcr mask)
select_pcr-selected pcr mask h size =
    rw (get_elem?-get_or mask (pcr / 8) 0 (omega arith), select_pcr) refl

two-pow-bit : (i k : ℕ) → bit (2 ^ i) k ≡ (if i == k then 1 else 0)
two-pow-bit i k = elim (Bool-cases (i == k)) [
  | inl e ↦
      let same : i ≡ k = ground arith in
      rw e (subst (λ j. bit (2 ^ i) j ≡ 1) same (bit-two-pow_self i))
  | inr ne ↦ rw ne (bit-two-pow_ne i k (ground arith))
]

bit_of-selected :
    (pcr k : ℕ) (mask : List ℕ)
    → pcr < 32
    → length mask ≡ 4
    → bit_of (selected pcr mask) k ≡ (if pcr == k then 1 else bit_of mask k)
bit_of-selected pcr k mask h size = elim (eq_or_ne (pcr / 8) (k / 8)) [
  | inl same ↦
      let at_k : get_or (selected pcr mask) (k / 8) 0
          ≡ bit_or (get_or mask (k / 8) 0) (2 ^ (pcr % 8)) =
        subst (λ i. get_or (selected pcr mask) i 0 ≡ bit_or (get_or mask i 0) (2 ^ (pcr % 8))) same
          (get_or-set_self mask (pcr / 8) _ 0 (omega arith)) in
      rw at_k (
        ground (
          arith,
          bit-bit_or (get_or mask (k / 8) 0) (2 ^ (pcr % 8)) (k % 8),
          bit-le-one (get_or mask (k / 8) 0) (k % 8),
          two-pow-bit (pcr % 8) (k % 8),
        ))
  | inr other ↦
      rw
        (get_or-set_ne mask (pcr / 8) (k / 8) (bit_or (get_or mask (pcr / 8) 0) (2 ^ (pcr % 8))) 0
          other)
        (ground arith)
]
  where
    eq_or_ne : (a b : ℕ) → (a ≡ b) ⊎ (a ≢ b)
    eq_or_ne a b = ground arith

-- The mask after the loop over these numbers.
abbrev with_pcrs : List ℕ → List ℕ → List ℕ
with_pcrs [] mask = mask
with_pcrs (n ∷ ns) mask = with_pcrs ns (selected n mask)

abbrev ArePcrs : List ℕ → Type 0
ArePcrs = All (λ n. n < 32)

parse_ids-numbers :
    (ns mask : List ℕ)
    → ArePcrs ns
    → length mask ≡ 4
    → parse_ids (map numeral ns) mask ≡ ok (with_pcrs ns mask)
unfolding parse_ids
parse_ids-numbers [] mask h size = refl
parse_ids-numbers (n ∷ ns) mask h size =
    rw (length-numeral n, pcr_get_id-numeral n h.0, select_pcr-selected n mask h.0 size)
      (parse_ids-numbers ns (selected n mask) h.1 (length-set mask (n / 8) _ ∙ size))

bit_of-with_pcrs :
    (ns mask : List ℕ) (k : ℕ)
    → ArePcrs ns
    → length mask ≡ 4
    → bit_of (with_pcrs ns mask) k ≡ (if is_listed k ns then 1 else bit_of mask k)
bit_of-with_pcrs [] mask k h size = refl
bit_of-with_pcrs (n ∷ ns) mask k h size = ground (
  arith,
  bit_of-with_pcrs ns (selected n mask) k h.1 (length-set mask (n / 8) _ ∙ size),
  bit_of-selected n k mask h.0 size,
)

bit_of-fill_mask : (mask : List ℕ) (k : ℕ) → k < 24 → bit_of (fill_mask 0 mask) k ≡ 0
bit_of-fill_mask mask k h = rw byte (bit-zero (k % 8))
  where
    cases : (j : ℕ) → j < 3 → get_or (fill_mask 0 mask) j 0 ≡ 0
    cases zero h = refl
    cases (suc zero) h = refl
    cases (suc (suc zero)) h = refl
    cases (suc (suc (suc j))) h = absurd (omega arith)

    byte : get_or (fill_mask 0 mask) (k / 8) 0 ≡ 0
    byte = cases (k / 8) (omega arith)

length-fill_mask : (mask : List ℕ) → length mask ≡ 4 → length (fill_mask 0 mask) ≡ 4
length-fill_mask mask h = omega (arith, length-drop 3 mask)

-- What the parser makes of a list of PCR numbers.
pub record Selects (ns : List ℕ) (sel : Selection) (r : Outcome Selection) : Type 0 where
  pub result : Selection
  pub succeeds : r ≡ ok result
  pub same_hash : result.hash ≡ sel.hash
  pub three_bytes : result.size_of_select ≡ 3
  pub bits : (k : ℕ) → k < 24 → bit_of result.pcr_select k ≡ (if is_listed k ns then 1 else 0)

pcr_parse_list-digit :
    (c : ℕ) (str : Bytes) (sel : Selection)
    → c ≢ b'a'
    → c ≢ b'n'
    → pcr_parse_list (c ∷ str) sel ≡ (do
      mask ← parse_ids (split_on b',' (c ∷ str)) (fill_mask 0 sel.pcr_select)
      ok (record sel { size_of_select = 3; pcr_select = mask }))
unfolding pcr_parse_list
pcr_parse_list-digit c str sel ha hn =
    let not_a : (b'a' == c) ≡ false = ground arith in
    let not_n : (b'n' == c) ≡ false = ground arith in rw (not_a, not_n) refl

-- The text begins with a digit.
abbrev StartsPlain : Bytes → Type 0
StartsPlain s = (c : ℕ) × (str : Bytes) × (s ≡ c ∷ str) × (c ≢ b'a') × (c ≢ b'n')

numeral-StartsPlain : (n : ℕ) (s : Bytes) → n < 32 → StartsPlain (numeral n ++ s)
numeral-StartsPlain n s h = elim (Bool-cases (ltb n 10)) [
  | inl one ↦ (b'0' + n, s, rw one refl, ground arith, ground arith)
  | inr two ↦ (b'0' + n / 10, (b'0' + n % 10) ∷ s, rw two refl, ground arith, ground arith)
]

first_digit : (n : ℕ) (ns : List ℕ) → n < 32 → StartsPlain (join b',' (map numeral (n ∷ ns)))
first_digit n [] h = subst StartsPlain (append-nil (numeral n)) (numeral-StartsPlain n [] h)
first_digit n (m ∷ ms) h = numeral-StartsPlain n (b',' ∷ join b',' (map numeral (m ∷ ms))) h

All-numeral-Lacks : (ns : List ℕ) → ArePcrs ns → All (Lacks b',') (map numeral ns)
All-numeral-Lacks [] h = tt
All-numeral-Lacks (n ∷ ns) h = (numeral-Lacks n h.0, All-numeral-Lacks ns h.1)

-- A list of PCR numbers below 32, in decimal and joined by commas, is parsed to a mask of three bytes
-- in which, of the PCRs below 24, exactly the listed ones are selected, provided that the entry's
-- array has its four bytes; so the numbers 24 to 31 are accepted and select nothing there.
pub pcr_parse_list-Selects :
    (n : ℕ) (ns : List ℕ) (sel : Selection)
    → ArePcrs (n ∷ ns)
    → length sel.pcr_select ≡ 4
    → Selects (n ∷ ns) sel (pcr_parse_list (join b',' (map numeral (n ∷ ns))) sel)
pcr_parse_list-Selects n ns sel h size = record {
  result = record sel { size_of_select = 3; pcr_select = mask };
  succeeds = parsed;
  same_hash = refl;
  three_bytes = refl;
  bits = λ k below.
      bit_of-with_pcrs (n ∷ ns) (fill_mask 0 sel.pcr_select) k h filled
      ∙ ap (λ t. if is_listed k (n ∷ ns) then 1 else t) (bit_of-fill_mask sel.pcr_select k below);
}
  where
    mask : List ℕ
    mask = with_pcrs (n ∷ ns) (fill_mask 0 sel.pcr_select)

    filled : length (fill_mask 0 sel.pcr_select) ≡ 4
    filled = length-fill_mask sel.pcr_select size

    loop :
        (do
          mask' ←
              parse_ids
                (split_on b',' (join b',' (map numeral (n ∷ ns))))
                (fill_mask 0 sel.pcr_select)
          ok (record sel { size_of_select = 3; pcr_select = mask' }))
        ≡ ok (record sel { size_of_select = 3; pcr_select = mask })
    loop =
        rw
          (
            split_on-join b',' (numeral n) (map numeral ns) (All-numeral-Lacks (n ∷ ns) h),
            parse_ids-numbers (n ∷ ns) (fill_mask 0 sel.pcr_select) h filled,
          )
          refl

    parsed :
        pcr_parse_list (join b',' (map numeral (n ∷ ns))) sel
        ≡ ok (record sel { size_of_select = 3; pcr_select = mask })
    parsed =
        let (c, str, e, ha, hn) = first_digit n ns h.0 in
        ap (λ t. pcr_parse_list t sel) e
        ∙ pcr_parse_list-digit c str sel ha hn
        ∙ subst
            (λ t.
              (do
                mask' ← parse_ids (split_on b',' t) (fill_mask 0 sel.pcr_select)
                ok (record sel { size_of_select = 3; pcr_select = mask' }))
              ≡ ok (record sel { size_of_select = 3; pcr_select = mask }))
            e loop
