-- ===== src/Capability/Complete.antt =====
-- `tpm2_capability_get` returns the entries of a capability, whatever pages the TPM gives.
use tpm2_tools.Base.{
  ℕ, zero, suc, ◌+◌, ◌-◌, ◌^◌, ◌≤◌, ◌<◌, min, Bool, true, false, not, ◌&&◌, List, [], ◌∷◌, ◌++◌,
  append-nil, append_assoc, ltb, ◌==◌, if◌then◌else◌, length, length-append, length-take,
  length-drop, take, drop, take-append, take-append-drop, ◌≡◌, ◌≢◌, ◌⊎◌, refl, sym, ap, ◌∙◌, subst,
  All, arith, Bool-cases, inl, inr,
}
use tpm2_tools.Capability.Pages.{from, IsOrdered, from-append, from-IsOrdered, from-from}
use tpm2_tools.Capability.{
  Entry, CapReply, failed, page, CapResult, got, is_supported, cap_commands, last_key,
  next_property, is_empty, after_page, get_loop, capability_get,
}

take_exactly : (n : ℕ) (xs ys : List Entry) → length xs ≡ n → take n (xs ++ ys) ≡ xs
take_exactly n xs ys e = ap (λ k. take k (xs ++ ys)) (sym e) ∙ take-append xs ys

pub take_whole : (n : ℕ) (xs : List Entry) → length xs ≤ n → take n xs ≡ xs
take_whole zero [] h = refl
take_whole zero (x ∷ xs) h = absurd (omega arith)
take_whole (suc n) [] h = refl
take_whole (suc n) (x ∷ xs) h = ap (λ l. x ∷ l) (take_whole n xs (omega arith))

nothing : (xs : List Entry) → is_empty xs ≡ true → xs ≡ []
nothing [] h = refl
nothing (x ∷ xs) h = absurd (cc h)

pub empty : (xs : List Entry) → length xs ≡ 0 → xs ≡ []
empty [] h = refl
empty (x ∷ xs) h = absurd (omega arith)

something : (xs : List Entry) → is_empty xs ≡ false → 0 < length xs
something [] h = absurd (cc h)
something (x ∷ xs) h = omega arith

last_key-All :
    (P : ℕ → Type 0) (e : Entry) (es ys : List Entry)
    → All (λ f. P f.key) ((e ∷ es) ++ ys)
    → P (last_key (e ∷ es))
last_key-All P e [] ys (h, hs) = h
last_key-All P e (f ∷ es) ys (h, hs) = last_key-All P f es ys hs

from-All_keep : (P : Entry → Type 0) (p : ℕ) (es : List Entry) → All P es → All P (from p es)
from-All_keep P p [] h = tt
from-All_keep P p (e ∷ es) (h, hs) = elim (Bool-cases (ltb e.key p)) [
  | inl low ↦ rw low (from-All_keep P p es hs)
  | inr high ↦ rw high (h, hs)
]

All-weaken :
    (P Q : Entry → Type 0) (es : List Entry) → ((e : Entry) → P e → Q e) → All P es → All Q es
All-weaken P Q [] k h = tt
All-weaken P Q (e ∷ es) k (h, hs) = (k e h, All-weaken P Q es k hs)

from-at_least : (p : ℕ) (es : List Entry) → IsOrdered es → All (λ e. p ≤ e.key) (from p es)
from-at_least p [] h = tt
from-at_least p (e ∷ es) (h, hs) = elim (Bool-cases (ltb e.key p)) [
  | inl low ↦ rw low (from-at_least p es hs)
  | inr high ↦
      let le : p ≤ e.key = ground arith in rw high (le, All-weaken _ _ es (λ x k. omega arith) h)
]

module _ {Tpm : Type 0} (get_capability : Tpm → ℕ → ℕ → ℕ → CapReply Tpm) (max_count : ℕ → ℕ)
    (capability : ℕ) (entries : List Entry) (holds : Tpm → Type 0) where
  -- What the specification of the TPM says of a reply: the entries from the property on, at most as
  -- many as asked for and as the array has, at least one if there are any, and whether more follow.
  abbrev pub IsPage : ℕ → ℕ → CapReply Tpm → Type 0
  IsPage property n (failed rc) = ⊥
  IsPage property n (page tpm replied more fetched) =
      holds tpm
      × (replied ≡ capability)
      × (length fetched ≤ n)
      × (length fetched ≤ max_count capability)
      × ((rest : List Entry) × (from property entries ≡ fetched ++ rest)
          × (more ≡ not (is_empty rest))
          × (0 < n → fetched ≡ [] → rest ≡ []))

  module _ (ordered : IsOrdered entries) (numbers : All (λ e. e.key + 1 < 2 ^ 32) entries)
      (supported : is_supported capability ≡ true) (plain : (capability == cap_commands) ≡ false)
      (pages : (tpm : Tpm) (property n : ℕ)
        → holds tpm
        → IsPage property n (get_capability tpm capability property n))
      (wanted count : ℕ) where
    abbrev bound : ℕ
    bound = min count (max_count capability)

    abbrev all_entries : List Entry
    all_entries = from wanted entries

    from_next :
        (data' ys : List Entry)
        → 0 < length data'
        → all_entries ≡ data' ++ ys
        → from (next_property capability data') entries ≡ ys
    from_next [] ys h e = absurd (omega arith)
    from_next (d ∷ ds) ys h e =
        let low : wanted ≤ last_key (d ∷ ds) =
          last_key-All (λ k. wanted ≤ k) d ds ys
            (subst (All (λ x. wanted ≤ x.key)) e (from-at_least wanted entries ordered)) in
        let small : last_key (d ∷ ds) + 1 < 2 ^ 32 =
          last_key-All (λ k. k + 1 < 2 ^ 32) d ds ys
            (subst (All (λ x. x.key + 1 < 2 ^ 32)) e
              (from-All_keep (λ x. x.key + 1 < 2 ^ 32) wanted entries numbers)) in
        let same : next_property capability (d ∷ ds) ≡ last_key (d ∷ ds) + 1 =
          rw plain (omega arith) in
        ap (λ q. from q entries) same
        ∙ (sym (from-from wanted (last_key (d ∷ ds) + 1) entries (omega arith))
            ∙ (ap (from (last_key (d ∷ ds) + 1)) e
                ∙ from-append d ds ys (subst IsOrdered e (from-IsOrdered wanted entries ordered))))

    enough :
        (all tail : List Entry)
        → all_entries ≡ all ++ tail
        → length all ≤ bound
        → (tail ≡ []) ⊎ (length all ≡ bound)
        → all ≡ take bound all_entries
    enough all tail e h (inl none_left) = sym (
        ap (take bound) (e ∙ ap (λ l. all ++ l) none_left ∙ append-nil all)
        ∙ take_whole bound all h)
    enough all tail e h (inr full) = sym (ap (take bound) e ∙ take_exactly bound all tail full)

    after_page-got :
        (property : ℕ) (first : Bool) (data' : List Entry)
        (again : Tpm → ℕ → List Entry → CapResult) (reply : CapReply Tpm)
        → IsPage property (count - length data') reply
        → all_entries ≡ data' ++ from property entries
        → length data' ≤ bound
        → (first ≡ true → data' ≡ [])
        → ((tpm : Tpm) (all : List Entry)
            → holds tpm
            → all_entries ≡ all ++ from (next_property capability all) entries
            → length all ≤ bound
            → length all < count
            → length data' < length all
            → again tpm (next_property capability all) all ≡ got (take bound all_entries))
        → after_page get_capability max_count capability count first data' again reply
          ≡ got (take bound all_entries)
    after_page-got property first data' again (failed rc) g d l f k = absurd g
    after_page-got property first data' again (page tpm replied more fetched)
          (held, same, n, m, (rest, u, v, w)) d l f k =
        let right : (replied == capability) ≡ true = ground arith in
        rw (right, supported)
          (ending first (first && not more) refl
            (more && (ltb (length all) count && not (is_empty fresh))) refl)
      where
        cut : ℕ
        cut = max_count capability - length data'

        fresh : List Entry
        fresh = take cut fetched

        all : List Entry
        all = data' ++ fresh

        tail : List Entry
        tail = drop cut fetched ++ rest

        split : all_entries ≡ all ++ tail
        split =
            d
            ∙ (ap (λ x. data' ++ x)
                  (u
                    ∙ (ap (λ x. x ++ rest) (sym (take-append-drop cut fetched))
                        ∙ append_assoc fresh (drop cut fetched) rest))
                ∙ sym (append_assoc data' fresh tail))

        size : length all ≡ length data' + min cut (length fetched)
        size = omega (arith, length-append data' fresh, length-take cut fetched)

        within : length all ≤ bound
        within = let z = size in omega arith

        rest_empty :
            (more && (ltb (length all) count && not (is_empty fresh))) ≡ false
            → length all < bound
            → length fetched ≤ cut
            → rest ≡ []
        rest_empty stop less room = elim (Bool-cases more) [
          | inr over ↦ nothing rest (ground arith)
          | inl follows ↦
              let t : ltb (length all) count ≡ true = ground arith in
              let z = size in
              let nil : is_empty fresh ≡ true = ground arith in
              let q = ap length (nothing fresh nil) in
              let g = length-take cut fetched in w (omega arith) (empty fetched (omega arith))
        ]

        -- Where the loop ends, nothing is left or nothing more fits.
        ended :
            (more && (ltb (length all) count && not (is_empty fresh))) ≡ false
            → (tail ≡ []) ⊎ (length all ≡ bound)
        ended stop = elim (Bool-cases (length all == bound)) [
          | inl full ↦ inr (ground arith)
          | inr less ↦
              let z = size in
              let b = within in
              let ne : length all ≢ bound = (λ q. ground arith) in
              let room : length fetched ≤ cut = omega arith in
              let few : length (drop cut fetched) ≡ 0 =
                let q = length-drop cut fetched in omega arith in
              let none_left = rest_empty stop (omega arith) room in
              inl (ap (λ x. x ++ rest) (empty (drop cut fetched) few) ∙ none_left)
        ]

        ending :
            (b c : Bool)
            → (first && not more) ≡ c
            → (e : Bool) → (more && (ltb (length all) count && not (is_empty fresh))) ≡ e
            → (if c
                then got fetched
                else if e
                then again tpm (next_property capability all) all
                else got all)
              ≡ got (take bound all_entries)
        ending b true c1 e e1 =
            let one : first ≡ true = ground arith in
            let last : more ≡ false = ground arith in
            let none_left = nothing rest (ground arith) in
            let whole : all_entries ≡ fetched =
              d
              ∙ (ap (λ x. x ++ from property entries) (f one)
                  ∙ (u ∙ (ap (λ x. fetched ++ x) none_left ∙ append-nil fetched))) in
            ap got (sym (ap (take bound) whole ∙ take_whole bound fetched (omega arith)))
        ending b false c1 true e1 =
            let filled : is_empty fresh ≡ false = ground arith in
            let t : ltb (length all) count ≡ true = ground arith in
            let below : length all < count = ground arith in
            let p = something fresh filled in
            let q = length-append data' fresh in
            k tpm all held
              (split ∙ ap (λ x. all ++ x) (sym (from_next all tail (omega arith) split))) within
              below (omega arith)
        ending b false c1 false e1 = ap got (enough all tail split within (ended e1))

    get_loop-got :
        (left property : ℕ) (tpm : Tpm) (first : Bool) (data' : List Entry)
        → holds tpm
        → all_entries ≡ data' ++ from property entries
        → length data' ≤ bound
        → count - length data' < left
        → (first ≡ true → data' ≡ [])
        → get_loop get_capability max_count left tpm capability property count first data'
          ≡ got (take bound all_entries)
    unfolding get_loop
    get_loop-got zero property tpm first data' h d l n f = absurd (omega arith)
    get_loop-got (suc left) property tpm first data' h d l n f =
        after_page-got property first data'
          (λ tpm' property' all.
            get_loop get_capability max_count left tpm' capability property' count false all)
          _ (pages tpm property (count - length data') h) d l f
          (λ tpm' all h' d' l' c' p.
            get_loop-got left (next_property capability all) tpm' false all h' d' l' (omega arith)
              (λ z. absurd (cc z)))

    -- For a capability other than the list of commands, from a TPM that gives its entries in order and
    -- in pages of any size, the loop ends and returns the entries from the wanted number on, as many
    -- as were asked for and as the array has, each once.
    pub capability_get-got :
        (tpm : Tpm)
        → holds tpm
        → capability_get get_capability max_count tpm capability wanted count
          ≡ got (take bound all_entries)
    unfolding capability_get
    capability_get-got tpm h =
        get_loop-got (suc count) wanted tpm true [] h refl (omega arith) (omega arith) (λ z. refl)
