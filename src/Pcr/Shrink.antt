-- ===== src/Pcr/Shrink.antt =====
-- `shrink_pcr_selection` compacts the array in place. Here it is compared with a filter.
use tpm2_tools.Base.{
  ℕ, zero, suc, ◌+◌, ◌-◌, ◌≤◌, ◌<◌, ◌≡◌, ◌≢◌, refl, ap, ◌∙◌, List, [], ◌∷◌, ◌++◌, append_assoc,
  arith, ◌==◌, if◌then◌else◌, length, take, length-append, get_or-append, set-append, take-append,
  get_or-append_add, set-append_add, length-take, take-append-drop, drop, sym, All, ==_iff,
  Bool-cases, inl, inr, append-nil,
}
use tpm2_tools.Pcr.{
  Selection, Selections, no_bank, bank_at, seek_empty, seek_used, move_bank, shrink_loop,
  shrink_pcr_selection,
}

-- The banks in use, in order.
abbrev pub used_banks : List Selection → List Selection
used_banks [] = []
used_banks (b ∷ bs) = if b.hash == 0 then used_banks bs else b ∷ used_banks bs

abbrev IsEmpty : Selection → Type 0
IsEmpty b = b.hash ≡ 0

seek_used-empty :
    (left j : ℕ) (s : List Selection)
    → IsEmpty (bank_at s j)
    → seek_used (suc left) j s ≡ seek_used left (suc j) s
unfolding seek_used
seek_used-empty left j s h =
    let e : j + 1 ≡ suc j = omega arith in ground (arith, ap (λ t. seek_used left t s) e)

seek_used-here :
    (left j : ℕ) (s : List Selection) → (bank_at s j).hash ≢ 0 → seek_used (suc left) j s ≡ j
unfolding seek_used
seek_used-here left j s h = ground arith

-- An empty entry at `j` is passed over.
shrink_loop-skip :
    (count left i j : ℕ) (s : List Selection)
    → IsEmpty (bank_at s i)
    → IsEmpty (bank_at s j)
    → j < count
    → shrink_loop count (suc left) i j s ≡ shrink_loop count (suc left) i (suc j) s
unfolding shrink_loop
shrink_loop-skip count left i j s hi hj h =
    let e : count - j ≡ suc (count - suc j) = omega arith in
    let same = ap (λ n. seek_used n j s) e ∙ seek_used-empty (count - suc j) j s hj in
    ground (arith, same)

-- An entry in use at `j` moves down to `i`.
shrink_loop-move :
    (count left i j : ℕ) (s : List Selection)
    → IsEmpty (bank_at s i)
    → (bank_at s j).hash ≢ 0
    → j < count
    → shrink_loop count (suc left) i j s ≡ shrink_loop count left (suc i) (suc j) (move_bank i j s)
unfolding shrink_loop
shrink_loop-move count left i j s hi hj h =
    let e : count - j ≡ suc (count - suc j) = omega arith in
    let same = ap (λ n. seek_used n j s) e ∙ seek_used-here (count - suc j) j s hj in
    let e1 : i + 1 ≡ suc i = omega arith in
    let e2 : j + 1 ≡ suc j = omega arith in ground (arith, same, e1, e2)

-- What `move_bank` leaves where the entries from `i` to `j` are those of `done`, `z ∷ zs`, `x`.
move_bank-append :
    (done zs tl : List Selection) (z x : Selection)
    → move_bank (length done) (length done + suc (length zs)) (done ++ z ∷ (zs ++ x ∷ tl))
      ≡ (done ++ x ∷ []) ++ ((zs ++ record x { hash = 0 } ∷ []) ++ tl)
unfolding move_bank
move_bank-append done zs tl z x =
    rw
      (
        get_or-append_add done (z ∷ (zs ++ x ∷ tl)) (suc (length zs)) no_bank,
        get_or-append zs tl x no_bank,
        set-append done (zs ++ x ∷ tl) z x,
        get_or-append_add done (x ∷ (zs ++ x ∷ tl)) (suc (length zs)) no_bank,
        get_or-append zs tl x no_bank,
        set-append_add done (x ∷ (zs ++ x ∷ tl)) (suc (length zs)) (record x { hash = 0 }),
        set-append zs tl x (record x { hash = 0 }),
      )
      (simp append_assoc)

All-IsEmpty-concat :
    (zs : List Selection) (x : Selection) → All IsEmpty zs → IsEmpty x → All IsEmpty (zs ++ x ∷ [])
All-IsEmpty-concat [] x h e = (e, tt)
All-IsEmpty-concat (z ∷ zs) x h e = (h.0, All-IsEmpty-concat zs x h.1 e)

record Compacted (done rest : List Selection) (r : ℕ × List Selection) : Type 0 where
  count_is : r.0 ≡ length (done ++ used_banks rest)
  front_is : take r.0 r.1 ≡ done ++ used_banks rest

Compacted-empty :
    {done rest : List Selection} {r : ℕ × List Selection} (x : Selection)
    → IsEmpty x
    → Compacted done rest r
    → Compacted done (x ∷ rest) r
Compacted-empty {done} {rest} x h c =
    let same : used_banks (x ∷ rest) ≡ used_banks rest = ground arith in
    record { count_is = rw same c.count_is; front_is = rw same c.front_is }

Compacted-used :
    {done rest : List Selection} {r : ℕ × List Selection} (x : Selection)
    → x.hash ≢ 0
    → Compacted (done ++ x ∷ []) rest r
    → Compacted done (x ∷ rest) r
Compacted-used {done} {rest} x h c =
    let same : done ++ used_banks (x ∷ rest) ≡ (done ++ x ∷ []) ++ used_banks rest =
      ground (arith, append_assoc done (x ∷ []) (used_banks rest)) in
    record { count_is = rw same c.count_is; front_is = rw same c.front_is }

shrink_loop-stop :
    (count left i j : ℕ) (s : List Selection)
    → IsEmpty (bank_at s i)
    → count ≡ j
    → shrink_loop count (suc left) i j s ≡ (i, s)
unfolding shrink_loop seek_used
shrink_loop-stop count left i j s hi e =
    let e0 : count - j ≡ 0 = omega arith in ground (arith, ap (λ n. seek_used n j s) e0)

-- The entry at `i` is the first of `zs`, the one at `j` the first of `rest`.
bank_at-first :
    (done zs tl : List Selection) (z : Selection) (i : ℕ) (s : List Selection)
    → s ≡ done ++ ((z ∷ zs) ++ tl)
    → i ≡ length done
    → bank_at s i ≡ z
bank_at-first done zs tl z i s es ei = rw (es, ei) (get_or-append done (zs ++ tl) z no_bank)

bank_at-next :
    (done zs tl : List Selection) (x : Selection) (j : ℕ) (s : List Selection)
    → s ≡ done ++ (zs ++ (x ∷ tl))
    → j ≡ length done + length zs
    → bank_at s j ≡ x
bank_at-next done zs tl x j s es ej =
    rw (es, ej)
      (get_or-append_add done (zs ++ x ∷ tl) (length zs) no_bank ∙ get_or-append zs tl x no_bank)

module _ (count : ℕ) (beyond : List Selection) where
  -- `i` stands behind `done`, `j` behind the empty entries `zs`; `rest` is still to be read.
  shrink_loop-Compacted :
      (rest done zs : List Selection) (left i j : ℕ) (s : List Selection)
      → s ≡ done ++ (zs ++ (rest ++ beyond))
      → All IsEmpty zs
      → 0 < length zs
      → i ≡ length done
      → j ≡ length done + length zs
      → count ≡ j + length rest
      → left ≡ length zs + length rest
      → Compacted done rest (shrink_loop count left i j s)
  shrink_loop-Compacted rest done [] left i j s es h pos ei ej ec el = absurd (omega arith)
  shrink_loop-Compacted rest done (z ∷ zs) zero i j s es h pos ei ej ec el = absurd (omega arith)
  shrink_loop-Compacted [] done (z ∷ zs) (suc left) i j s es h pos ei ej ec el =
      let hi : IsEmpty (bank_at s i) = rw (bank_at-first done zs beyond z i s es ei) h.0 in
      rw (shrink_loop-stop count left i j s hi (omega arith)) (record {
        count_is = rw append-nil ei;
        front_is = rw (es, ei, append-nil) (take-append done (z ∷ (zs ++ beyond)));
      })
  shrink_loop-Compacted (x ∷ rest) done (z ∷ zs) (suc left) i j s es h pos ei ej ec el =
      elim (Bool-cases (x.hash == 0)) [
        | inl empty ↦
            let e : IsEmpty x = (==_iff _ _).0 empty in
            Compacted-empty x e (
              rw (shrink_loop-skip count left i j s hi (rw hj e) (omega arith)) (
                shrink_loop-Compacted rest done ((z ∷ zs) ++ x ∷ []) (suc left) i (suc j) s
                  (rw es (simp append_assoc)) (All-IsEmpty-concat (z ∷ zs) x h e)
                  (omega (arith, length-append zs (x ∷ []))) ei
                  (omega (arith, length-append zs (x ∷ []))) (omega arith)
                  (omega (arith, length-append zs (x ∷ [])))))
        | inr used ↦
            let ne : x.hash ≢ 0 = ground arith in
            let x0 = record x { hash = 0 } in
            Compacted-used x ne (
              rw (shrink_loop-move count left i j s hi (rw hj ne) (omega arith)) (
                shrink_loop-Compacted rest (done ++ x ∷ []) (zs ++ x0 ∷ []) left (suc i) (suc j)
                  (move_bank i j s) moved (All-IsEmpty-concat zs x0 h.1 refl)
                  (omega (arith, length-append zs (x0 ∷ [])))
                  (omega (arith, length-append done (x ∷ [])))
                  (omega (arith, length-append zs (x0 ∷ []), length-append done (x ∷ [])))
                  (omega arith) (omega (arith, length-append zs (x0 ∷ [])))))
      ]
    where
      hi : IsEmpty (bank_at s i)
      hi = rw (bank_at-first done zs (x ∷ rest ++ beyond) z i s es ei) h.0

      hj : bank_at s j ≡ x
      hj = bank_at-next done (z ∷ zs) (rest ++ beyond) x j s es ej

      moved :
          move_bank i j s
          ≡ (done ++ x ∷ []) ++ ((zs ++ record x { hash = 0 } ∷ []) ++ (rest ++ beyond))
      moved = rw (es, ei, ej) (move_bank-append done zs (rest ++ beyond) z x)

seek_empty-here :
    (left i : ℕ) (s : List Selection) → IsEmpty (bank_at s i) → seek_empty (suc left) i s ≡ i
unfolding seek_empty
seek_empty-here left i s h = ground arith

seek_empty-used :
    (left i : ℕ) (s : List Selection)
    → (bank_at s i).hash ≢ 0
    → seek_empty (suc left) i s ≡ seek_empty left (suc i) s
unfolding seek_empty
seek_empty-used left i s h =
    let e : i + 1 ≡ suc i = omega arith in ground (arith, ap (λ t. seek_empty left t s) e)

abbrev shrink_from : ℕ → ℕ → List Selection → ℕ × List Selection
shrink_from count i s = shrink_loop count (count - i) i (i + 1) s

module _ (count : ℕ) (beyond : List Selection) where
  seek_empty-Compacted :
      (front done : List Selection) (i : ℕ) (s : List Selection)
      → s ≡ done ++ (front ++ beyond)
      → i ≡ length done
      → count ≡ i + length front
      → Compacted done front (shrink_from count (seek_empty (length front) i s) s)
  unfolding seek_empty shrink_loop
  seek_empty-Compacted [] done i s es ei ec =
      let none_left : count - i ≡ 0 = omega arith in
      rw none_left (record {
        count_is = rw append-nil ei;
        front_is = rw (es, ei, append-nil) (take-append done beyond);
      })
  seek_empty-Compacted (x ∷ front) done i s es ei ec = elim (Bool-cases (x.hash == 0)) [
    | inl empty ↦
        let e : IsEmpty x = (==_iff _ _).0 empty in
        let here = seek_empty-here (length front) i s (rw at_i e) in
        Compacted-empty x e (
          rw here (
            shrink_loop-Compacted count beyond front done (x ∷ []) (count - i) i (i + 1) s es
              (e, tt) (omega arith) ei (omega arith) (omega arith) (omega arith)))
    | inr used ↦
        let ne : x.hash ≢ 0 = ground arith in
        let next = seek_empty-used (length front) i s (rw at_i ne) in
        Compacted-used x ne (
          rw next (
            seek_empty-Compacted front (done ++ x ∷ []) (suc i) s (rw es (simp append_assoc))
              (omega (arith, length-append done (x ∷ []))) (omega arith)))
  ]
    where
      at_i : bank_at s i ≡ x
      at_i = bank_at-first done [] (front ++ beyond) x i s es ei

-- `shrink_pcr_selection` keeps exactly the entries in use whose hash is not 0, in their order, and
-- counts them, provided that the count does not exceed the array.
pub shrink_pcr_selection-used_banks :
    (s : Selections)
    → s.count ≤ length s.banks
    → let r = shrink_pcr_selection s in
      (r.count ≡ length (used_banks (take s.count s.banks)))
      × (take r.count r.banks ≡ used_banks (take s.count s.banks))
unfolding shrink_pcr_selection
shrink_pcr_selection-used_banks s h = (c.count_is, c.front_is)
  where
    size : length (take s.count s.banks) ≡ s.count
    size = omega (arith, length-take s.count s.banks)

    c :
        Compacted []
          (take s.count s.banks)
          (shrink_from s.count (seek_empty s.count 0 s.banks) s.banks)
    c = rw size at (
        seek_empty-Compacted s.count (drop s.count s.banks) (take s.count s.banks) [] 0 s.banks
          (sym (take-append-drop s.count s.banks)) refl (omega (arith, size)))
