-- ===== src/Pcr/Init.antt =====
-- `pcr_init_pcr_selection`: the banks that the TPM assigns, or those of one hash algorithm.
use tpm2_tools.Base.{
  ℕ, zero, suc, ◌+◌, ◌/◌, ◌≤◌, ◌<◌, ◌≡◌, refl, sym, ap, ◌∙◌, true, false, not, ◌&&◌, ◌||◌, List, [],
  ◌∷◌, ◌++◌, append_assoc, append-nil, arith, ◌==◌, if◌then◌else◌, get_or, set, drop, length,
  length-append, get_or-append, set-append, take-append, All, Bool-cases, ◌↔◌, inl, inr,
}
use tpm2_tools.Pcr.Check.{entries}
use tpm2_tools.Pcr.Mask.{mask_bit, get_or-drop_one}
use tpm2_tools.Pcr.{
  Selection, Selections, zip_bytes, put_bank, init_loop, pcr_init_pcr_selection, bank_at, no_bank,
}

-- The banks of an algorithm, or all for 0.
abbrev pub chosen : ℕ → List Selection → List Selection
chosen alg_id [] = []
chosen alg_id (c ∷ caps) =
    if alg_id == 0 || c.hash == alg_id then c ∷ chosen alg_id caps else chosen alg_id caps

-- The same hash, size, and PCRs within the size.
abbrev pub IsCopy : Selection → Selection → Type 0
IsCopy c r =
    (r.hash ≡ c.hash)
    × (r.size_of_select ≡ c.size_of_select)
    × ((pcr : ℕ) → pcr / 8 < c.size_of_select → mask_bit r pcr ≡ mask_bit c pcr)

abbrev pub Copies : List Selection → List Selection → Type 0
Copies [] [] = Unit
Copies [] (r ∷ rs) = ⊥
Copies (c ∷ cs) [] = ⊥
Copies (c ∷ cs) (r ∷ rs) = IsCopy c r × Copies cs rs

-- A mask is an array of `n` bytes, which the size of a bank does not exceed.
abbrev pub HasArray : ℕ → Selection → Type 0
HasArray n b = length b.pcr_select ≡ n

abbrev pub FitsIn : ℕ → Selection → Type 0
FitsIn n c = c.size_of_select ≤ n

get_or-copied :
    (n : ℕ) (a b : List ℕ) (j : ℕ)
    → j < n
    → n ≤ length a
    → get_or (zip_bytes (λ x y. y) n a b) j 0 ≡ get_or b j 0
unfolding zip_bytes
get_or-copied zero a b j h k = absurd (omega arith)
get_or-copied (suc n) [] b j h k = absurd (omega arith)
get_or-copied (suc n) (x ∷ a) b zero h k = refl
get_or-copied (suc n) (x ∷ a) b (suc j) h k =
    get_or-copied n a (drop 1 b) j (omega arith) (omega arith) ∙ get_or-drop_one b j

put_bank-IsCopy :
    (n : ℕ) (c old : Selection) → HasArray n old → FitsIn n c → IsCopy c (put_bank c old)
unfolding put_bank
put_bank-IsCopy n c old h k = (
  refl,
  refl,
  λ pcr lt.
      let e =
        get_or-copied c.size_of_select old.pcr_select c.pcr_select (pcr / 8) lt (omega arith) in
      ground (arith, e),
)

abbrev at_end : List Selection → List Selection → Selections
at_end done rest = record { count = length done; banks = done ++ rest }

-- The next entry is written.
put_next :
    (c y : Selection) (done rest : List Selection)
    → (let s = at_end done (y ∷ rest) in
        record {
          count = s.count + 1;
          banks = set s.banks s.count (put_bank c (bank_at s.banks s.count));
        })
      ≡ at_end (done ++ put_bank c y ∷ []) rest
put_next c y done rest =
    let l = length-append done (put_bank c y ∷ []) in
    let n : length done + 1 ≡ length (done ++ put_bank c y ∷ []) = omega arith in
    let g = get_or-append done rest y no_bank in
    ap
      (λ k. record {
        count = k;
        banks =
            set (done ++ y ∷ rest) (length done)
              (put_bank c (bank_at (done ++ y ∷ rest) (length done)));
      })
      n
    ∙ ap
        (λ b. record {
          count = length (done ++ put_bank c y ∷ []);
          banks = set (done ++ y ∷ rest) (length done) (put_bank c b);
        })
        g
    ∙ ap (λ bs. record { count = length (done ++ put_bank c y ∷ []); banks = bs })
        (set-append done rest y (put_bank c y) ∙ sym (append_assoc done (put_bank c y ∷ []) rest))

-- What the loop leaves behind the entries `done`.
abbrev Leaves : ℕ → List Selection → List Selection → Selections → Type 0
Leaves alg_id caps done r =
    (rs : List Selection) × (left : List Selection) × (r ≡ at_end (done ++ rs) left)
    × Copies (chosen alg_id caps) rs

Leaves-put :
    (alg_id : ℕ) (c p : Selection) (caps done : List Selection) (r : Selections)
    → (alg_id == 0 || c.hash == alg_id) ≡ true
    → IsCopy c p
    → Leaves alg_id caps (done ++ p ∷ []) r
    → Leaves alg_id (c ∷ caps) done r
Leaves-put alg_id c p caps done r u i (rs, left, e, k) =
    (p ∷ rs, left, e ∙ ap (λ l. at_end l left) (append_assoc done (p ∷ []) rs), rw u (i, k))

init_loop-Leaves :
    (n alg_id : ℕ) (caps done rest : List Selection)
    → length caps ≤ length rest
    → All (HasArray n) rest
    → All (FitsIn n) caps
    → Leaves alg_id caps done (init_loop caps alg_id (at_end done rest))
unfolding init_loop
init_loop-Leaves n alg_id [] done rest h a f =
    ([], rest, ap (λ l. at_end l rest) (sym (append-nil done)), tt)
init_loop-Leaves n alg_id (c ∷ caps) done [] h a f = absurd (omega arith)
init_loop-Leaves n alg_id (c ∷ caps) done (y ∷ rest) h a f =
    elim (Bool-cases (alg_id == 0 || c.hash == alg_id)) [
      | inl used ↦
          let keep : (not (alg_id == 0) && not (c.hash == alg_id)) ≡ false = ground arith in
          rw (keep, put_next c y done rest)
            (Leaves-put alg_id c (put_bank c y) caps done _ used (put_bank-IsCopy n c y a.0 f.0) (
              init_loop-Leaves n alg_id caps (done ++ put_bank c y ∷ []) rest (omega arith) a.1
                f.1))
      | inr skipped ↦
          let skip : (not (alg_id == 0) && not (c.hash == alg_id)) ≡ true = ground arith in
          let (rs, left, e, k) =
            init_loop-Leaves n alg_id caps done (y ∷ rest) (omega arith) a f.1 in
          rw skip (rs, left, e, rw skipped k)
    ]

Copies-empty : (cs rs : List Selection) → Copies cs rs → (length rs ≡ 0) ↔ (cs ≡ [])
Copies-empty [] [] h = (λ _. refl, λ _. refl)
Copies-empty [] (r ∷ rs) h = absurd h
Copies-empty (c ∷ cs) [] h = absurd h
Copies-empty (c ∷ cs) (r ∷ rs) h = (λ e. absurd (omega arith), λ e. absurd (cc e))

-- `pcr_init_pcr_selection` leaves a copy of each assigned bank of the algorithm, or of every assigned
-- bank for the algorithm 0, in order, and returns false exactly if there is none; provided that the
-- selection has an entry for each assigned bank, and a mask of `n` bytes in each entry, where no
-- assigned bank has a larger size.
pub pcr_init_pcr_selection-Copies :
    (n : ℕ) (assigned s : Selections) (alg_id : ℕ)
    → length (entries assigned) ≤ length s.banks
    → All (HasArray n) s.banks
    → All (FitsIn n) (entries assigned)
    → let (any, r) = pcr_init_pcr_selection assigned s alg_id in
      Copies (chosen alg_id (entries assigned)) (entries r)
      × ((any ≡ false) ↔ (chosen alg_id (entries assigned) ≡ []))
unfolding pcr_init_pcr_selection
pcr_init_pcr_selection-Copies n assigned s alg_id h a f =
    let (rs, left, e, k) = init_loop-Leaves n alg_id (entries assigned) [] s.banks h a f in
    let t : entries (init_loop (entries assigned) alg_id (record s { count = 0 })) ≡ rs =
      ap entries e ∙ take-append rs left in
    let c = ap (λ r. r.count) e in
    let z = Copies-empty (chosen alg_id (entries assigned)) rs k in (rw t k, ground (arith, c, z))
