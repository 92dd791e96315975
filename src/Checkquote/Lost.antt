-- ===== src/Checkquote/Lost.antt =====
-- The count of a list that is full.
use tpm2_tools.Base.Bytes.{Bytes}
use tpm2_tools.Base.Outcome.{ok}
use tpm2_tools.Base.{
  ℕ, zero, suc, ◌+◌, ◌≤◌, ◌<◌, true, false, ◌||◌, List, [], ◌∷◌, some, ltb, ◌==◌, ◌≡◌, refl, sym,
  ap, ◌∙◌, subst, if◌then◌else◌, get_elem?, get_or, get_elem?-get_or, set, length, length-set,
  length-drop, length-take, take, drop, times, take-append_exact, ◌≢◌, get_or-set_self,
  get_or-set_ne, Bool-cases, inl, inr, arith,
}
use tpm2_tools.Checkquote.{
  Fill, counted, read_digest, store_digest, put_into, put_digest, fill_bank,
}
use tpm2_tools.Pcr.Walk.{Digest, DigestList}
use tpm2_tools.Pcr.{Selection, is_pcr_select_bit_set}

get_elem?-set :
    {A : Type 0} (xs : List A) (i : ℕ) (x y : A)
    → get_elem? xs i ≡ some x
    → get_elem? (set xs i y) i ≡ some y
get_elem?-set [] i x y e = absurd (cc e)
get_elem?-set (z ∷ xs) zero x y e = refl
get_elem?-set (z ∷ xs) (suc i) x y e = get_elem?-set xs i x y e

abbrev no_digest : Digest
no_digest = record { size = 0; buffer = [] }

-- The first `c` digests of a list are the pieces of `input` of a size, one after the other.
abbrev pub Holds : ℕ → Bytes → ℕ → DigestList → Type 0
Holds size input c v =
    (i : ℕ)
    → i < c
    → ((get_or v.digests i no_digest).size ≡ size)
      × (take size (get_or v.digests i no_digest).buffer ≡ take size (drop (times i size) input))

-- The list at `n` is the next, without digests and with room for eight, which the file has.
abbrev pub IsEmpty : ℕ → ℕ → Fill → Type 0
IsEmpty n size f =
    (f.digest_list_count ≡ n)
    × ((v : DigestList) × (get_elem? f.pcr_values n ≡ some v)
        × (v.count ≡ 0)
        × (length v.digests ≡ 8))
    × (times 8 size ≤ length f.input)

-- The list at `n` is the one that is filled, with `c` digests; `left` more can be read.
abbrev IsFilling : ℕ → ℕ → ℕ → ℕ → Bytes → Fill → Type 0
IsFilling n c size left input f =
    (f.digest_list_count ≡ n)
    × ((v : DigestList) × (get_elem? f.pcr_values n ≡ some v)
        × (v.count ≡ c)
        × (length v.digests ≡ 8)
        × Holds size input c v)
    × (times left size ≤ length f.input)
    × (f.input ≡ drop (times c size) input)

-- The list at `n` holds the eight digests at the beginning of `input`, and has a count of seven.
abbrev pub IsFilled : ℕ → ℕ → Bytes → Fill → Type 0
IsFilled n size input f =
    (f.digest_list_count ≡ n + 1)
    × ((v : DigestList) × (get_elem? f.pcr_values n ≡ some v)
        × (v.count ≡ 7)
        × Holds size input 8 v)

drop-nil : (n : ℕ) → drop {A = ℕ} n [] ≡ []
drop-nil zero = refl
drop-nil (suc n) = refl

drop-drop : (m n : ℕ) (b : Bytes) → drop m (drop n b) ≡ drop (m + n) b
drop-drop m zero b = ap (λ k. drop k b) (let e : m ≡ m + 0 = omega arith in e)
drop-drop m (suc n) [] = drop-nil m ∙ sym (drop-nil (m + suc n))
drop-drop m (suc n) (x ∷ b) =
    drop-drop m n b ∙ ap (λ k. drop k (x ∷ b)) (let e : suc (m + n) ≡ m + suc n = omega arith in e)

times-next : (c size : ℕ) → times (c + 1) size ≡ size + times c size
times-next c size = ap (λ k. times k size) (let e : c + 1 ≡ suc c = omega arith in e)

-- One more digest is read.
Holds-counted :
    (size c : ℕ) (input rest : Bytes) (v : DigestList) (old : Digest)
    → v.count ≡ c
    → c < length v.digests
    → size ≤ length rest
    → rest ≡ drop (times c size) input
    → Holds size input c v
    → Holds size input (c + 1) (counted v (read_digest size old rest))
Holds-counted size c input rest v old q l m e h = λ i lt. elim (Bool-cases (i == v.count)) [
  | inl this ↦
      let same : v.count ≡ i = ground arith in
      let w : get_or (set v.digests v.count new) i no_digest ≡ new =
        ap (λ k. get_or (set v.digests v.count new) k no_digest) (sym same)
        ∙ get_or-set_self v.digests v.count new no_digest (omega arith) in
      let t = length-take size rest in
      let p : c ≡ i = sym q ∙ same in
      (
        ap (λ d. d.size) w,
        ap (λ d. take size d.buffer) w
            ∙ take-append_exact size (take size rest) (drop size old.buffer) (omega arith)
            ∙ ap (take size) (e ∙ ap (λ k. drop (times k size) input) p),
      )
  | inr other ↦
      let differ : v.count ≢ i = λ z. ground arith in
      let w = get_or-set_ne v.digests v.count i new no_digest differ in
      let (a, b) = h i (ground arith) in
      (ap (λ d. d.size) w ∙ a, ap (λ d. take size d.buffer) w ∙ b)
]
  where
    new : Digest
    new = read_digest size old rest

abbrev put : ℕ → Fill → DigestList → Fill
put size f v = record {
  digest_list_count = if v.count == 7 then f.digest_list_count + 1 else f.digest_list_count;
  pcr_values =
      set f.pcr_values f.digest_list_count
        (counted v (read_digest size (get_or v.digests v.count no_digest) f.input));
  input = drop size f.input;
}

put_digest-put :
    (size : ℕ) (f : Fill) (v : DigestList)
    → 0 < size
    → size ≤ length f.input
    → get_elem? f.pcr_values f.digest_list_count ≡ some v
    → v.count < length v.digests
    → put_digest size f ≡ ok (put size f v)
unfolding put_digest
put_digest-put size f v h k g l =
    let d = get_elem?-get_or v.digests v.count no_digest l in
    let c : ((size == 0) || ltb (length f.input) size) ≡ false = ground arith in
    ap (put_into size f) g ∙ (ap (store_digest size f v) d ∙ rw c refl)

put_digest-next :
    (n c size left : ℕ) (input : Bytes) (f : Fill)
    → 0 < size
    → c < 7
    → IsFilling n c size (suc left) input f
    → (f' : Fill) × (put_digest size f ≡ ok f') × IsFilling n (c + 1) size left input f'
put_digest-next n c size left input f h k (e, (v, g, q, l, s), m, r) =
    let g' : get_elem? f.pcr_values f.digest_list_count ≡ some v =
      ap (get_elem? f.pcr_values) e ∙ g in
    let not_full : (v.count == 7) ≡ false = ground arith in
    let d = length-drop size f.input in
    let old = get_or v.digests v.count no_digest in
    let new = counted v (read_digest size old f.input) in
    let w = get_elem?-set f.pcr_values f.digest_list_count v new g' in
    (
      put size f v,
      put_digest-put size f v h (omega arith) g' (omega arith),
      (
        rw not_full e,
        (
          new,
          ap (get_elem? (put size f v).pcr_values) (sym e) ∙ w,
          rw not_full (ap (λ x. x + 1) q),
          length-set v.digests v.count _ ∙ l,
          Holds-counted size c input f.input v old q (omega arith) (omega arith) r s,
        ),
        omega arith,
        ap (drop size) r
            ∙ drop-drop size (times c size) input
            ∙ ap (λ x. drop x input) (sym (times-next c size)),
      ),
    )

put_digest-full :
    (n size left : ℕ) (input : Bytes) (f : Fill)
    → 0 < size
    → IsFilling n 7 size (suc left) input f
    → (f' : Fill) × (put_digest size f ≡ ok f') × IsFilled n size input f'
put_digest-full n size left input f h (e, (v, g, q, l, s), m, r) =
    let g' : get_elem? f.pcr_values f.digest_list_count ≡ some v =
      ap (get_elem? f.pcr_values) e ∙ g in
    let full : (v.count == 7) ≡ true = ground arith in
    let old = get_or v.digests v.count no_digest in
    let new = counted v (read_digest size old f.input) in
    let w = get_elem?-set f.pcr_values f.digest_list_count v new g' in
    (
      put size f v,
      put_digest-put size f v h (omega arith) g' (omega arith),
      (
        rw full (ap (λ x. x + 1) e),
        (
          new,
          ap (get_elem? (put size f v).pcr_values) (sym e) ∙ w,
          rw full q,
          Holds-counted size 7 input f.input v old q (omega arith) (omega arith) r s,
        ),
      ),
    )

-- The rest of eight PCRs that are all selected.
fill_bank-IsFilled :
    (left pcr_id n c size : ℕ) (bank : Selection) (input : Bytes) (f : Fill)
    → 0 < size
    → c + suc left ≡ 8
    → ((i : ℕ) → pcr_id ≤ i → i < pcr_id + suc left → is_pcr_select_bit_set bank i ≡ true)
    → IsFilling n c size (suc left) input f
    → (f' : Fill) × (fill_bank (suc left) pcr_id size bank f ≡ ok f') × IsFilled n size input f'
unfolding fill_bank
fill_bank-IsFilled zero pcr_id n c size bank input f h e sel i =
    let here = sel pcr_id (omega arith) (omega arith) in
    let seven : c ≡ 7 = omega arith in
    let (f', p, r) =
      put_digest-full n size 0 input f h (subst (λ x. IsFilling n x size 1 input f) seven i) in
    (f', rw (here, p) refl, r)
fill_bank-IsFilled (suc left) pcr_id n c size bank input f h e sel i =
    let here = sel pcr_id (omega arith) (omega arith) in
    let (f1, p, r) = put_digest-next n c size (suc left) input f h (omega arith) i in
    let (f', q, s) =
      fill_bank-IsFilled left (pcr_id + 1) n (c + 1) size bank input f1 h (omega arith)
        (λ j a b. sel j (omega arith) (omega arith)) r in
    (f', rw (here, p) q, s)

-- Reading the digests of eight PCRs that are all selected, into a list that is empty and from a file
-- that has them, succeeds and goes on to the next list: the list then holds the eight digests, each
-- of its size and in the order of the file, but its count is seven.
pub fill_bank-lost :
    (pcr_id n size : ℕ) (bank : Selection) (f : Fill)
    → 0 < size
    → ((i : ℕ) → pcr_id ≤ i → i < pcr_id + 8 → is_pcr_select_bit_set bank i ≡ true)
    → IsEmpty n size f
    → (f' : Fill) × (fill_bank 8 pcr_id size bank f ≡ ok f') × IsFilled n size f.input f'
fill_bank-lost pcr_id n size bank f h sel (e, (v, g, q, l), m) =
    fill_bank-IsFilled 7 pcr_id n 0 size bank f.input f h refl sel
      (e, (v, g, q, l, λ i lt. absurd (omega arith)), m, refl)
