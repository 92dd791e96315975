-- ===== src/Alg/Names.antt =====
-- Names and identifiers determine each other.
use tpm2_tools.Alg.Table.{AlgPair, algs}
use tpm2_tools.Alg.{
  stop, go, found, Search, is_named, overlap, find_match, resume, for_each_alg, strtoalg, algtostr,
}
use tpm2_tools.Base.Bytes.{Bytes}
use tpm2_tools.Base.Text.{str_eq}
use tpm2_tools.Base.{
  ℕ, Bool, true, false, not, ◌&&◌, List, [], ◌∷◌, none, some, ◌==◌, if◌then◌else◌, ◌≡◌, ◌≢◌, ◌⊎◌,
  inl, inr, refl, sym, ap, ◌∙◌, subst, arith, Bool-cases,
}

pub str_eq_refl : (a : Bytes) → str_eq a a ≡ true
str_eq_refl [] = refl
str_eq_refl (x ∷ a) = ground (arith, str_eq_refl a)

pub str_eq-eq : (a b : Bytes) → str_eq a b ≡ true → a ≡ b
str_eq-eq [] [] h = refl
str_eq-eq [] (y ∷ b) h = absurd (cc h)
str_eq-eq (x ∷ a) [] h = absurd (cc h)
str_eq-eq (x ∷ a) (y ∷ b) h = ground (arith, str_eq-eq a b)

-- No identifier is 0, and no name or identifier stands twice.
abbrev absent_name : Bytes → List AlgPair → Bool
absent_name name [] = true
absent_name name (e ∷ t) =
    not (str_eq name e.name) && (not (str_eq e.name name) && absent_name name t)

abbrev absent_id : ℕ → List AlgPair → Bool
absent_id id [] = true
absent_id id (e ∷ t) = not (id == e.id) && absent_id id t

distinct : List AlgPair → Bool
distinct [] = true
distinct (e ∷ t) = not (e.id == 0) && (absent_name e.name t && (absent_id e.id t && distinct t))

distinct-algs : distinct algs ≡ true
unfolding distinct algs
distinct-algs = refl

abbrev pub Has : List AlgPair → AlgPair → Type 0
Has [] e = ⊥
Has (a ∷ t) e = (a ≡ e) ⊎ Has t e

absent_name-Has :
    (name : Bytes) (t : List AlgPair) (e : AlgPair)
    → absent_name name t ≡ true
    → Has t e
    → str_eq e.name name ≡ false
absent_name-Has name [] e h has = absurd has
absent_name-Has name (a ∷ t) e h (inl same) =
    subst (λ x. str_eq x.name name ≡ false) same (ground arith)
absent_name-Has name (a ∷ t) e h (inr later) = absent_name-Has name t e (ground arith) later

absent_id-Has :
    (id : ℕ) (t : List AlgPair) (e : AlgPair) → absent_id id t ≡ true → Has t e → e.id ≢ id
absent_id-Has id [] e h has = absurd has
absent_id-Has id (a ∷ t) e h (inl same) = subst (λ x. x.id ≢ id) same (ground arith)
absent_id-Has id (a ∷ t) e h (inr later) = absent_id-Has id t e (ground arith) later

-- The three cases of one round of the loop.
module _ (a : AlgPair) (t : List AlgPair) (s : Search) where
  round-named :
      is_named s.name a.name ≡ true
      → for_each_alg find_match (a ∷ t) s
        ≡ (if overlap s.flags a.flags then record s { id = a.id; found_flags = a.flags } else s)
  unfolding for_each_alg find_match
  round-named named =
      ap (λ r. resume r (for_each_alg find_match t)) e
      ∙ (elim (Bool-cases fits) [ inl f ↦ rw f refl | inr f ↦ rw f refl ])
    where
      fits : Bool
      fits = overlap s.flags a.flags

      e :
          find_match a s
          ≡ (if fits then (found, record s { id = a.id; found_flags = a.flags }) else (stop, s))
      e = rw named refl

  round-numbered :
      is_named s.name a.name ≡ false
      → (s.id == a.id) ≡ true
      → for_each_alg find_match (a ∷ t) s ≡ (
          if overlap s.flags a.flags
          then record s { name = some a.name; found_flags = a.flags }
          else s)
  unfolding for_each_alg find_match
  round-numbered named same =
      ap (λ r. resume r (for_each_alg find_match t)) e
      ∙ (elim (Bool-cases fits) [ inl f ↦ rw f refl | inr f ↦ rw f refl ])
    where
      fits : Bool
      fits = overlap s.flags a.flags

      e : find_match a s ≡ (
          if fits
          then (found, record s { name = some a.name; found_flags = a.flags })
          else (stop, s))
      e = rw (named, same) refl

  round-other :
      is_named s.name a.name ≡ false
      → (s.id == a.id) ≡ false
      → for_each_alg find_match (a ∷ t) s ≡ for_each_alg find_match t s
  unfolding for_each_alg find_match
  round-other named same = ap (λ r. resume r (for_each_alg find_match t)) e
    where
      e : find_match a s ≡ (go, s)
      e = rw (named, same) refl

abbrev by_name : Bytes → ℕ → Search
by_name name flags = record { name = some name; id = 0; flags = flags; found_flags = 0 }

abbrev by_id : ℕ → ℕ → Search
by_id id flags = record { name = none; id = id; flags = flags; found_flags = 0 }

-- What a search finds of an entry that the table has.
for_each_alg-by_name :
    (t : List AlgPair) (e : AlgPair) (flags : ℕ)
    → distinct t ≡ true
    → Has t e
    → (for_each_alg find_match t (by_name e.name flags)).id
      ≡ (if overlap flags e.flags then e.id else 0)
unfolding distinct
for_each_alg-by_name [] e flags d has = absurd has
for_each_alg-by_name (a ∷ t) e flags d (inl same) =
    subst
      (λ x.
        (for_each_alg find_match (a ∷ t) (by_name x.name flags)).id
        ≡ (if overlap flags x.flags then x.id else 0))
      same
      (ap (λ s. s.id) (round-named a t (by_name a.name flags) (str_eq_refl a.name)) ∙ ground arith)
for_each_alg-by_name (a ∷ t) e flags d (inr later) =
    let other : str_eq e.name a.name ≡ false = absent_name-Has a.name t e (ground arith) later in
    let some_id : (0 == a.id) ≡ false = ground arith in
    ap (λ s. s.id) (round-other a t (by_name e.name flags) other some_id)
    ∙ for_each_alg-by_name t e flags (ground arith) later

for_each_alg-by_id :
    (t : List AlgPair) (e : AlgPair) (flags : ℕ)
    → distinct t ≡ true
    → Has t e
    → (for_each_alg find_match t (by_id e.id flags)).name
      ≡ (if overlap flags e.flags then some e.name else none)
unfolding distinct
for_each_alg-by_id [] e flags d has = absurd has
for_each_alg-by_id (a ∷ t) e flags d (inl same) =
    subst
      (λ x.
        (for_each_alg find_match (a ∷ t) (by_id x.id flags)).name
        ≡ (if overlap flags x.flags then some x.name else none))
      same
      (ap (λ s. s.name) (round-numbered a t (by_id a.id flags) refl (ground arith)) ∙ ground arith)
for_each_alg-by_id (a ∷ t) e flags d (inr later) =
    let differs = absent_id-Has a.id t e (ground arith) later in
    let other : (e.id == a.id) ≡ false = ground arith in
    ap (λ s. s.name) (round-other a t (by_id e.id flags) refl other)
    ∙ for_each_alg-by_id t e flags (ground arith) later

-- What a search that finds something has found.
pub found_by_id :
    (t : List AlgPair) (id flags : ℕ) (name : Bytes)
    → (for_each_alg find_match t (by_id id flags)).name ≡ some name
    → (e : AlgPair) × Has t e × (e.id ≡ id) × (e.name ≡ name) × (overlap flags e.flags ≡ true)
unfolding for_each_alg
found_by_id [] id flags name h = absurd (cc h)
found_by_id (a ∷ t) id flags name h = elim (Bool-cases (id == a.id)) [
  | inl same ↦
      let r = ap (λ s. s.name) (round-numbered a t (by_id id flags) refl same) in
      elim (Bool-cases (overlap flags a.flags)) [
        | inl fits ↦ (a, inl refl, ground arith, name_of r fits, fits)
        | inr misfit ↦ absurd (no_name r misfit)
      ]
  | inr other ↦
      let r = ap (λ s. s.name) (round-other a t (by_id id flags) refl other) in
      let (e, has, i, n, f) = found_by_id t id flags name (sym r ∙ h) in (e, inr has, i, n, f)
]
  where
    picked : Search
    picked =
        if overlap flags a.flags
        then record { name = some a.name; id = id; flags = flags; found_flags = a.flags }
        else by_id id flags

    name_of :
        (for_each_alg find_match (a ∷ t) (by_id id flags)).name ≡ picked.name
        → overlap flags a.flags ≡ true
        → a.name ≡ name
    name_of r fits = let q : picked.name ≡ some name = sym r ∙ h in cc (rw fits at q)

    no_name :
        (for_each_alg find_match (a ∷ t) (by_id id flags)).name ≡ picked.name
        → overlap flags a.flags ≡ false
        → ⊥
    no_name r misfit = let q : picked.name ≡ some name = sym r ∙ h in cc (rw misfit at q)

found_by_name :
    (t : List AlgPair) (name : Bytes) (flags : ℕ)
    → distinct t ≡ true
    → (for_each_alg find_match t (by_name name flags)).id ≢ 0
    → (e : AlgPair) × Has t e × (e.name ≡ name) × (overlap flags e.flags ≡ true)
unfolding distinct for_each_alg
found_by_name [] name flags d h = absurd (h refl)
found_by_name (a ∷ t) name flags d h = elim (Bool-cases (str_eq name a.name)) [
  | inl same ↦
      let r = ap (λ s. s.id) (round-named a t (by_name name flags) same) in
      elim (Bool-cases (overlap flags a.flags)) [
        | inl fits ↦ (a, inl refl, sym (str_eq-eq name a.name same), fits)
        | inr misfit ↦ absurd (h (r ∙ rw misfit refl))
      ]
  | inr other ↦
      let some_id : (0 == a.id) ≡ false = ground arith in
      let r = ap (λ s. s.id) (round-other a t (by_name name flags) other some_id) in
      let (e, has, n, f) = found_by_name t name flags (ground arith) (λ z. h (r ∙ z)) in
      (e, inr has, n, f)
]

-- An identifier and a name are converted into each other under the same flags: what `algtostr` gives
-- for an identifier, `strtoalg` reads back, and what `strtoalg` reads, `algtostr` gives back.
pub algtostr-strtoalg :
    (flags id : ℕ) (name : Bytes)
    → (algtostr id flags ≡ some name → strtoalg name flags ≡ id)
      × (strtoalg name flags ≡ id → id ≢ 0 → algtostr id flags ≡ some name)
algtostr-strtoalg flags id name = (unfold algtostr in to, unfold strtoalg in from)
  where
    to : (for_each_alg find_match algs (by_id id flags)).name ≡ some name → strtoalg name flags ≡ id
    to h =
        let (e, has, i, n, f) = found_by_id algs id flags name h in
        subst (λ x. strtoalg x flags ≡ id) n
          (unfold strtoalg in (for_each_alg-by_name algs e flags distinct-algs has ∙ rw f i))

    from :
        (for_each_alg find_match algs (by_name name flags)).id ≡ id
        → id ≢ 0
        → algtostr id flags ≡ some name
    from h nz =
        let (e, has, n, f) = found_by_name algs name flags distinct-algs (λ z. nz (sym h ∙ z)) in
        let same : e.id ≡ id =
          sym (for_each_alg-by_name algs e flags distinct-algs has ∙ rw f refl)
          ∙ ap (λ x. (for_each_alg find_match algs (by_name x flags)).id) n
          ∙ h in
        subst (λ x. algtostr x flags ≡ some name) same
          (unfold algtostr in
            (for_each_alg-by_id algs e flags distinct-algs has ∙ rw f (ap some n)))
