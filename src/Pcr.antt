-- ===== src/Pcr.antt =====
-- lib/pcr.c: PCR selections and the operations on them. A bank's selection is a mask of one bit for
-- each PCR; a list of selections is a fixed array of which the first `count` entries are in use.
pub mod Shrink
pub mod Mask
pub mod Check
pub mod Init
pub mod Read
pub mod Parse
pub mod Walk
mod Tests
use tpm2_tools.Base.{
  ℕ, zero, suc, ◌+◌, ◌-◌, ◌*◌, ◌/◌, ◌%◌, ◌^◌, bit_and, Bool, true, false, not, ◌&&◌, List, [], ◌∷◌,
  ltb, leb, ◌==◌, if◌then◌else◌, get_or, set, drop, take, each, Option, none, some,
}

-- TPMS_PCR_SELECTION. `pcr_select` holds the bytes of the mask, of which `size_of_select` count. A
-- size beyond the array, which is no valid structure, would lead the program out of the array; here
-- it reads 0 there and does not write.
pub record Selection : Type 0 where
  pub hash : ℕ
  pub size_of_select : ℕ
  pub pcr_select : List ℕ

-- TPML_PCR_SELECTION; `banks` is the whole array.
pub record Selections : Type 0 where
  pub count : ℕ
  pub banks : List Selection

-- What a read out of range gives; the theorems keep `count` within the array.
abbrev pub no_bank : Selection
no_bank = record { hash = 0; size_of_select = 0; pcr_select = [] }

abbrev pub bank_at : List Selection → ℕ → Selection
bank_at s i = get_or s i no_bank

-- `tpm2_util_is_pcr_select_bit_set`
unfoldable pub is_pcr_select_bit_set : Selection → ℕ → Bool
is_pcr_select_bit_set s pcr = not (bit_and (get_or s.pcr_select (pcr / 8) 0) (2 ^ (pcr % 8)) == 0)

-- The first loop of `shrink_pcr_selection`, at index `i` with `left` rounds to go.
pub seek_empty : ℕ → ℕ → List Selection → ℕ
seek_empty zero i s = i
seek_empty (suc left) i s =
    let rest = seek_empty left (i + 1) s in if (bank_at s i).hash == 0 then i else rest

-- The innermost loop: the next bank in use from `j` on.
pub seek_used : ℕ → ℕ → List Selection → ℕ
seek_used zero j s = j
seek_used (suc left) j s =
    let rest = seek_used left (j + 1) s in if (bank_at s j).hash == 0 then rest else j

-- memcpy(&s[i], &s[j]); s[j].hash = 0;
pub move_bank : ℕ → ℕ → List Selection → List Selection
move_bank i j s =
    let copied = set s i (bank_at s j) in set copied j (record (bank_at copied j) { hash = 0 })

-- The second loop, which fills each empty entry from the next one in use.
pub shrink_loop : ℕ → ℕ → ℕ → ℕ → List Selection → ℕ × List Selection
shrink_loop count zero i j s = (i, s)
shrink_loop count (suc left) i j s =
    let j' = seek_used (count - j) j s in
    let moved = shrink_loop count left (i + 1) (j' + 1) (move_bank i j' s) in
    let kept = shrink_loop count left (i + 1) j s in
    if (bank_at s i).hash == 0 then (if leb count j' then (i, s) else moved) else kept

pub shrink_pcr_selection : Selections → Selections
unfolding seek_empty shrink_loop
shrink_pcr_selection s =
    let i = seek_empty s.count 0 s.banks in
    let (n, banks) = shrink_loop s.count (s.count - i) i (i + 1) s.banks in
    record { count = n; banks = banks }

-- for (k = 0; k < n; k++) a[k] = f(a[k], b[k])
pub zip_bytes : (ℕ → ℕ → ℕ) → ℕ → List ℕ → List ℕ → List ℕ
zip_bytes f zero a b = a
zip_bytes f (suc n) [] b = []
zip_bytes f (suc n) (x ∷ a) b = f x (get_or b 0 0) ∷ zip_bytes f n a (drop 1 b)

-- `a &= ~b` on bytes
abbrev pub clear_bits : ℕ → ℕ → ℕ
clear_bits a b = bit_and a (2 ^ 8 - 1 - b)

-- The body of the loops of `pcr_update_pcr_selections`, for one bank of each list.
pub clear_bank : Selection → Selection → Selection
unfolding zip_bytes
clear_bank out b =
    if out.hash == b.hash
    then record b { pcr_select = zip_bytes clear_bits b.size_of_select b.pcr_select out.pcr_select }
    else b

pub update_loop : List Selection → ℕ → List Selection → List Selection
update_loop [] n bs = bs
update_loop (out ∷ outs) n bs = update_loop outs n (each n (clear_bank out) bs)

pub pcr_update_pcr_selections : Selections → Selections → Selections
pcr_update_pcr_selections s1 s2 = record s1 {
  banks = update_loop (take s2.count s2.banks) s1.count s1.banks;
}

pub unset_bytes : ℕ → List ℕ → Bool
unset_bytes zero a = true
unset_bytes (suc n) a = get_or a 0 0 == 0 && unset_bytes n (drop 1 a)

pub unset_banks : List Selection → Bool
unfolding unset_bytes
unset_banks [] = true
unset_banks (b ∷ bs) = unset_bytes b.size_of_select b.pcr_select && unset_banks bs

pub pcr_unset_pcr_sections : Selections → Bool
pcr_unset_pcr_sections s = unset_banks (take s.count s.banks)

-- What `pcr_init_pcr_selection` writes over the next entry.
pub put_bank : Selection → Selection → Selection
unfolding zip_bytes
put_bank c old = record {
  hash = c.hash;
  size_of_select = c.size_of_select;
  pcr_select = zip_bytes (λ x y. y) c.size_of_select old.pcr_select c.pcr_select;
}

pub init_loop : List Selection → ℕ → Selections → Selections
unfolding put_bank
init_loop [] alg_id s = s
init_loop (c ∷ caps) alg_id s = init_loop caps alg_id (
    if not (alg_id == 0) && not (c.hash == alg_id) then s else record {
      count = s.count + 1;
      banks = set s.banks s.count (put_bank c (bank_at s.banks s.count));
    })

pub pcr_init_pcr_selection : Selections → Selections → ℕ → Bool × Selections
pcr_init_pcr_selection assigned s alg_id =
    let r = init_loop (take assigned.count assigned.banks) alg_id (record s { count = 0 }) in
    (not (r.count == 0), r)

-- The first assigned bank of a hash algorithm.
pub find_bank : ℕ → List Selection → Option Selection
find_bank hash [] = none
find_bank hash (c ∷ caps) = if hash == c.hash then some c else find_bank hash caps

pub check_bank : List Selection → Selection → Selection
unfolding zip_bytes find_bank
check_bank caps b = elim (find_bank b.hash caps) [
  | none ↦ record b { hash = 0 }
  | some c ↦ record b { pcr_select = zip_bytes bit_and b.size_of_select b.pcr_select c.pcr_select }
]

pub pcr_check_pcr_selection : Selections → Selections → Bool × Selections
pcr_check_pcr_selection assigned s =
    let caps = take assigned.count assigned.banks in
    let r = shrink_pcr_selection (record s { banks = each s.count (check_bank caps) s.banks }) in
    (not (r.count == 0), r)
