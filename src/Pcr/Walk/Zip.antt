-- ===== src/Pcr/Walk/Zip.antt =====
-- What the walk over the selected PCRs meets, and the digests that a place in the lists has ahead.
use tpm2_tools.Base.Bytes.{Bytes}
use tpm2_tools.Base.Outcome.{Outcome, ok, refused, ◌>>=◌}
use tpm2_tools.Base.{
  ℕ, zero, suc, ◌+◌, ◌*◌, ◌≤◌, ◌<◌, Bool, true, false, List, [], ◌∷◌, ◌++◌, some, ltb, arith, All,
  if◌then◌else◌, get_elem?, take, drop, map, length, ◌≡◌, ◌⊎◌, refl, ap, sym, subst, length-drop,
  length-take, ◌∙◌, inl, inr,
}
use tpm2_tools.Pcr.{Selection, is_pcr_select_bit_set}
use tpm2_tools.Pcr.Walk.{Digest, DigestList, Pcrs, ByteOrder, bytes_of}

-- What the walk meets: the beginning of a bank, or a selected PCR.
pub data Item : Type 0 where
  of_bank : ℕ → Item
  of_pcr : ℕ → Item

abbrev pub pcr_items : ℕ → ℕ → Selection → List Item
pcr_items zero pcr_id bank = []
pcr_items (suc left) pcr_id bank =
    if is_pcr_select_bit_set bank pcr_id
    then of_pcr pcr_id ∷ pcr_items left (pcr_id + 1) bank
    else pcr_items left (pcr_id + 1) bank

abbrev pub items : ByteOrder → List Selection → List Item
items order [] = []
items order (bank ∷ banks) =
    of_bank (order.order_16 bank.hash)
    ∷ (pcr_items (bank.size_of_select * 8) 0 bank ++ items order banks)

-- The digests of some lists, one after the other.
abbrev pub digests_of : ByteOrder → List DigestList → List Bytes
digests_of order [] = []
digests_of order (v ∷ vs) =
    map (bytes_of order) (take (order.order_32 v.count) v.digests) ++ digests_of order vs

-- Items and digests side by side; it is refused if a PCR has none.
module _ {S : Type 0} (enter : ℕ → S → S) (emit : ℕ → Bytes → S → Outcome S) where
  unfoldable pub pair_up : List Item → List Bytes → S → Outcome (List Bytes × S)
  pair_up [] bs s = ok (bs, s)
  pair_up (of_bank hash ∷ is) bs s = pair_up is bs (enter hash s)
  pair_up (of_pcr pcr_id ∷ is) [] s = refused
  pair_up (of_pcr pcr_id ∷ is) (b ∷ bs) s = emit pcr_id b s >>= λ s'. pair_up is bs s'

abbrev pub IsWhole : ByteOrder → Digest → Type 0
IsWhole order b = order.order_16 b.size ≤ length b.buffer

-- A list of digests that is not empty, with its count within the array and the sizes of the digests
-- up to the count within their buffers.
abbrev pub IsFull : ByteOrder → DigestList → Type 0
IsFull order v =
    (0 < order.order_32 v.count)
    × (order.order_32 v.count ≤ length v.digests)
    × All (IsWhole order) (take (order.order_32 v.count) v.digests)

-- Such lists up to the count, which is within the array.

abbrev pub IsPcrs : ByteOrder → Pcrs → Type 0
IsPcrs order pcrs =
    (order.order_64 pcrs.count ≤ length pcrs.pcr_values)
    × All (IsFull order) (take (order.order_64 pcrs.count) pcrs.pcr_values)

-- Lists from an index on.
module _ {A : Type 0} where
  pub drop_next :
      (n : ℕ) (xs : List A) {x : A} {ys : List A}
      → drop n xs ≡ x ∷ ys
      → (drop (n + 1) xs ≡ ys) × (get_elem? xs n ≡ some x)
  drop_next zero [] e = absurd (cc e)
  drop_next zero (z ∷ xs) e = (cc e, cc e)
  drop_next (suc n) [] e = absurd (cc e)
  drop_next (suc n) (z ∷ xs) e =
      let (d, g) = drop_next n xs e in
      let q : suc n + 1 ≡ suc (n + 1) = omega arith in (ap (λ k. drop k (z ∷ xs)) q ∙ d, g)

  pub get_elem?-take :
      (c : ℕ) (xs : List A) (i : ℕ) (x : A)
      → get_elem? (take c xs) i ≡ some x
      → get_elem? xs i ≡ some x
  get_elem?-take zero xs i x e = absurd (cc e)
  get_elem?-take (suc c) [] i x e = e
  get_elem?-take (suc c) (z ∷ xs) zero x e = e
  get_elem?-take (suc c) (z ∷ xs) (suc i) x e = get_elem?-take c xs i x e

  pub All-get_elem? :
      (P : A → Type 0) (xs : List A) (i : ℕ) (x : A) → All P xs → get_elem? xs i ≡ some x → P x
  All-get_elem? P [] i x h e = absurd (cc e)
  All-get_elem? P (z ∷ xs) zero x (h, hs) e = subst P (cc e) h
  All-get_elem? P (z ∷ xs) (suc i) x (h, hs) e = All-get_elem? P xs i x hs e

module _ (order : ByteOrder) (pcrs : Pcrs) (full : IsPcrs order pcrs) where
  abbrev pub count : ℕ
  count = order.order_64 pcrs.count

  -- The lists from one on.
  abbrev pub lists : ℕ → List DigestList
  lists k = drop k (take count pcrs.pcr_values)

  abbrev pub IsDigestAt : ℕ → ℕ → List Bytes → DigestList → Digest → List Digest → Type 0
  IsDigestAt vi di bs v b rest =
      (vi < count)
      × (get_elem? pcrs.pcr_values vi ≡ some v)
      × IsFull order v
      × (drop di (take (order.order_32 v.count) v.digests) ≡ b ∷ rest)
      × (bs ≡ bytes_of order b ∷ (map (bytes_of order) rest ++ digests_of order (lists (vi + 1))))

  -- The digests from a place on are `bs`.
  abbrev pub At : ℕ → ℕ → List Bytes → Type 0
  At vi di bs =
      ((count ≤ vi) × (bs ≡ []))
      ⊎ ((v : DigestList) × (b : Digest) × (rest : List Digest) × IsDigestAt vi di bs v b rest)

  first_digest :
      (v : DigestList)
      → IsFull order v
      → (b : Digest) × (rest : List Digest) × (take (order.order_32 v.count) v.digests ≡ b ∷ rest)
  first_digest v f = pick (order.order_32 v.count) v.digests f.0 f.1
    where
      pick :
          (c : ℕ) (ds : List Digest)
          → 0 < c
          → c ≤ length ds
          → (b : Digest) × (rest : List Digest) × (take c ds ≡ b ∷ rest)
      pick zero ds h k = absurd (omega arith)
      pick (suc c) [] h k = absurd (omega arith)
      pick (suc c) (d ∷ ds) h k = (d, take c ds, refl)

  pub start : (k : ℕ) (vs : List DigestList) → lists k ≡ vs → At k 0 (digests_of order vs)
  start k [] e =
      let l = ap length e in
      let d = length-drop k (take count pcrs.pcr_values) in
      let t = length-take count pcrs.pcr_values in let c = full.0 in inl (omega arith, refl)
  start k (v ∷ vs) e =
      let (next, g) = drop_next k (take count pcrs.pcr_values) e in
      let here = get_elem?-take count pcrs.pcr_values k v g in
      let f = All-get_elem? (IsFull order) (take count pcrs.pcr_values) k v full.1 g in
      let (b, rest, t) = first_digest v f in
      let l = ap length e in
      let d = length-drop k (take count pcrs.pcr_values) in
      let u = length-take count pcrs.pcr_values in
      inr (
        v,
        b,
        rest,
        (
          omega arith,
          here,
          f,
          t,
          ap (λ l. map (bytes_of order) l ++ digests_of order vs) t
              ∙ ap (λ l. bytes_of order b ∷ (map (bytes_of order) rest ++ digests_of order l))
                  (sym next),
        ),
      )

  -- Behind a digest.
  pub following :
      (vi di : ℕ) (v : DigestList) (rest : List Digest)
      → vi < count
      → get_elem? pcrs.pcr_values vi ≡ some v
      → IsFull order v
      → drop (di + 1) (take (order.order_32 v.count) v.digests) ≡ rest
      → (c : Bool) → ltb (di + 1) (order.order_32 v.count) ≡ c
      → At
          (if c then vi else vi + 1)
          (if c then di + 1 else 0)
          (map (bytes_of order) rest ++ digests_of order (lists (vi + 1)))
  following vi di v [] h g f d true e =
      let l = ap length d in
      let k = length-drop (di + 1) (take (order.order_32 v.count) v.digests) in
      let t = length-take (order.order_32 v.count) v.digests in
      let m : di + 1 < order.order_32 v.count = ground arith in let n = f.1 in absurd (omega arith)
  following vi di v (b ∷ rest) h g f d true e = inr (v, b, rest, (h, g, f, d, refl))
  following vi di v [] h g f d false e = start (vi + 1) (lists (vi + 1)) refl
  following vi di v (b ∷ rest) h g f d false e =
      let l = ap length d in
      let k = length-drop (di + 1) (take (order.order_32 v.count) v.digests) in
      let t = length-take (order.order_32 v.count) v.digests in
      let m : ¬ (di + 1 < order.order_32 v.count) = λ z. ground arith in absurd (omega arith)
