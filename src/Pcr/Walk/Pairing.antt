-- ===== src/Pcr/Walk/Pairing.antt =====
-- The walk over the selected PCRs takes the digests of all lists in order, one for each PCR.
use tpm2_tools.Base.Bytes.{Bytes}
use tpm2_tools.Base.Outcome.{Outcome, ok, refused, fault, ◌>>=◌}
use tpm2_tools.Base.{
  ℕ, zero, suc, ◌+◌, ◌*◌, ◌<◌, Bool, true, false, List, [], ◌∷◌, ◌++◌, ltb, leb, arith,
  if◌then◌else◌, take, drop, map, length, ◌≡◌, refl, ap, subst, length-drop, length-take, inl, inr,
}
use tpm2_tools.Pcr.{Selection, Selections, is_pcr_select_bit_set}
use tpm2_tools.Pcr.Walk.{
  Pcrs, ByteOrder, Place, bytes_of, advance, visit_digest, visit, walk_bank, walk, walk_all,
}
use tpm2_tools.Pcr.Walk.Zip.{
  Item, of_bank, of_pcr, pcr_items, items, digests_of, pair_up, IsPcrs, drop_next, get_elem?-take,
  All-get_elem?, IsWhole, count, lists, At, start, following,
}

module _ (order : ByteOrder) (pcrs : Pcrs) (full : IsPcrs order pcrs) {S : Type 0}
    (enter : ℕ → S → S) (emit : ℕ → Bytes → S → Outcome S) where
  abbrev Here : ℕ → ℕ → List Bytes → Type 0
  Here vi di bs = At order pcrs full vi di bs

  -- The walk and the pairing end alike.
  abbrev Agrees : Outcome (Place S) → Outcome (List Bytes × S) → Type 0
  Agrees (ok p) (ok (bs, s)) = (p.so_far ≡ s) × Here p.vi p.di bs
  Agrees refused refused = Unit
  Agrees fault fault = Unit
  Agrees (ok p) refused = ⊥
  Agrees (ok p) fault = ⊥
  Agrees refused (ok r) = ⊥
  Agrees refused fault = ⊥
  Agrees fault (ok r) = ⊥
  Agrees fault refused = ⊥

  Agrees-bind :
      (m : Outcome (Place S)) (n : Outcome (List Bytes × S)) (f : Place S → Outcome (Place S))
      (g : List Bytes × S → Outcome (List Bytes × S))
      → Agrees m n
      → ((p : Place S) (bs : List Bytes) → Here p.vi p.di bs → Agrees (f p) (g (bs, p.so_far)))
      → Agrees (m >>= f) (n >>= g)
  Agrees-bind (ok p) (ok (bs, s)) f g (e, a) k = subst (λ x. Agrees (f p) (g (bs, x))) e (k p bs a)
  Agrees-bind refused refused f g h k = tt
  Agrees-bind fault fault f g h k = tt
  Agrees-bind (ok p) refused f g h k = absurd h
  Agrees-bind (ok p) fault f g h k = absurd h
  Agrees-bind refused (ok r) f g h k = absurd h
  Agrees-bind refused fault f g h k = absurd h
  Agrees-bind fault (ok r) f g h k = absurd h
  Agrees-bind fault refused f g h k = absurd h

  emitted :
      (m : Outcome S) (f : S → Place S) (bs : List Bytes)
      → ((s : S) → ((f s).so_far ≡ s) × Here (f s).vi (f s).di bs)
      → Agrees (m >>= λ s. ok (f s)) (m >>= λ s. ok (bs, s))
  emitted (ok s) f bs k = k s
  emitted refused f bs k = tt
  emitted fault f bs k = tt

  visit-Agrees :
      (pcr_id : ℕ) (p : Place S) (bs : List Bytes)
      → Here p.vi p.di bs
      → Agrees
          (visit order pcrs enter emit pcr_id p)
          (pair_up enter emit (of_pcr pcr_id ∷ []) bs p.so_far)
  unfolding visit visit_digest pair_up
  visit-Agrees pcr_id p bs (inl (h, e)) =
      let q : leb (count order pcrs full) p.vi ≡ true = ground arith in rw (e, q) tt
  visit-Agrees pcr_id p bs (inr (v, b, rest, (h, g, f, d, e))) =
      let (dn, gt) = drop_next p.di (take (order.order_32 v.count) v.digests) d in
      let gd = get_elem?-take (order.order_32 v.count) v.digests p.di b gt in
      let l = ap length d in
      let k = length-drop p.di (take (order.order_32 v.count) v.digests) in
      let t = length-take (order.order_32 v.count) v.digests in
      let m : p.di < order.order_32 v.count = omega arith in
      let c1 : leb (count order pcrs full) p.vi ≡ false = ground arith in
      let c2 : leb (order.order_32 v.count) p.di ≡ false = ground arith in
      let w =
        All-get_elem? (IsWhole order) (take (order.order_32 v.count) v.digests) p.di b f.2 gt in
      let c3 : leb (order.order_16 b.size) (length b.buffer) ≡ true = ground arith in
      rw (e, c1, g, c2, gd, c3)
        (emitted (emit pcr_id (bytes_of order b) p.so_far)
          (advance order pcrs enter emit p.vi p.di v) _
          (placed dn (ltb (p.di + 1) (order.order_32 v.count)) refl))
    where
      placed :
          drop (p.di + 1) (take (order.order_32 v.count) v.digests) ≡ rest
          → (c : Bool) → ltb (p.di + 1) (order.order_32 v.count) ≡ c
          → (s : S)
          → ((advance order pcrs enter emit p.vi p.di v s).so_far ≡ s)
            × Here
                (advance order pcrs enter emit p.vi p.di v s).vi
                (advance order pcrs enter emit p.vi p.di v s).di
                (map (bytes_of order) rest ++ digests_of order (lists order pcrs full (p.vi + 1)))
      placed dn true q s = rw q (refl, following order pcrs full p.vi p.di v rest h g f dn true q)
      placed dn false q s = rw q (refl, following order pcrs full p.vi p.di v rest h g f dn false q)

  pair_up-append :
      (is js : List Item) (bs : List Bytes) (s : S)
      → pair_up enter emit (is ++ js) bs s
        ≡ (pair_up enter emit is bs s >>= λ r. pair_up enter emit js r.0 r.1)
  unfolding pair_up
  pair_up-append [] js bs s = refl
  pair_up-append (of_bank hash ∷ is) js bs s = pair_up-append is js bs (enter hash s)
  pair_up-append (of_pcr pcr_id ∷ is) js [] s = refl
  pair_up-append (of_pcr pcr_id ∷ is) js (b ∷ bs) s =
      under (emit pcr_id b s) (λ s'. pair_up-append is js bs s')
    where
      under :
          (m : Outcome S)
          → ((s' : S)
              → pair_up enter emit (is ++ js) bs s'
                ≡ (pair_up enter emit is bs s' >>= λ r. pair_up enter emit js r.0 r.1))
          → (m >>= λ s'. pair_up enter emit (is ++ js) bs s')
            ≡ (m >>= (λ s'. pair_up enter emit is bs s') >>= λ r. pair_up enter emit js r.0 r.1)
      under (ok s') k = k s'
      under refused k = refl
      under fault k = refl

  walk_bank-Agrees :
      (left pcr_id : ℕ) (bank : Selection) (p : Place S) (bs : List Bytes)
      → Here p.vi p.di bs
      → Agrees
          (walk_bank order pcrs enter emit left pcr_id bank p)
          (pair_up enter emit (pcr_items left pcr_id bank) bs p.so_far)
  unfolding walk_bank pair_up
  walk_bank-Agrees zero pcr_id bank p bs a = (refl, a)
  walk_bank-Agrees (suc left) pcr_id bank p bs a =
      by_bit (is_pcr_select_bit_set bank pcr_id)
        (λ p' bs' a'. walk_bank-Agrees left (pcr_id + 1) bank p' bs' a')
    where
      by_bit :
          (c : Bool)
          → ((p' : Place S) (bs' : List Bytes)
              → Here p'.vi p'.di bs'
              → Agrees
                  (walk_bank order pcrs enter emit left (pcr_id + 1) bank p')
                  (pair_up enter emit (pcr_items left (pcr_id + 1) bank) bs' p'.so_far))
          → Agrees
              ((if c then visit order pcrs enter emit pcr_id p else ok p) >>= λ p'.
                walk_bank order pcrs enter emit left (pcr_id + 1) bank p')
              (pair_up enter emit
                (if c
                  then of_pcr pcr_id ∷ pcr_items left (pcr_id + 1) bank
                  else pcr_items left (pcr_id + 1) bank)
                bs
                p.so_far)
      by_bit false k = k p bs a
      by_bit true k =
          rw (pair_up-append (of_pcr pcr_id ∷ []) (pcr_items left (pcr_id + 1) bank) bs p.so_far)
            (Agrees-bind _ _ _ _ (visit-Agrees pcr_id p bs a) k)

  walk-Agrees :
      (banks : List Selection) (p : Place S) (bs : List Bytes)
      → Here p.vi p.di bs
      → Agrees
          (walk order pcrs enter emit banks p)
          (pair_up enter emit (items order banks) bs p.so_far)
  unfolding walk pair_up
  walk-Agrees [] p bs a = (refl, a)
  walk-Agrees (bank ∷ banks) p bs a =
      rw
        (pair_up-append (pcr_items (bank.size_of_select * 8) 0 bank) (items order banks) bs
          (enter (order.order_16 bank.hash) p.so_far))
        (Agrees-bind _ _ _ _
          (walk_bank-Agrees (bank.size_of_select * 8) 0 bank
            (record p { so_far = enter (order.order_16 bank.hash) p.so_far }) bs a)
          (λ p' bs' a'. walk-Agrees banks p' bs' a'))

  -- The walk over all banks pairs their PCRs with the digests of all lists.
  pub walk_all-pair_up :
      (sel : Selections) (s : S)
      → walk_all order pcrs enter emit sel s ≡ (
          pair_up enter emit
            (items order (take (order.order_32 sel.count) sel.banks))
            (digests_of order (take (count order pcrs full) pcrs.pcr_values))
            s
          >>= λ r. ok r.1)
  unfolding walk_all
  walk_all-pair_up sel s = same _ _ (
      walk-Agrees (take (order.order_32 sel.count) sel.banks)
        (record { vi = 0; di = 0; so_far = s })
        (digests_of order (take (count order pcrs full) pcrs.pcr_values))
        (start order pcrs full 0 (take (count order pcrs full) pcrs.pcr_values) refl))
    where
      same :
          (m : Outcome (Place S)) (n : Outcome (List Bytes × S))
          → Agrees m n
          → (m >>= λ p. ok p.so_far) ≡ (n >>= λ r. ok r.1)
      same (ok p) (ok (bs, s')) (e, a) = ap ok e
      same refused refused h = refl
      same fault fault h = refl
      same (ok p) refused h = absurd h
      same (ok p) fault h = absurd h
      same refused (ok r) h = absurd h
      same refused fault h = absurd h
      same fault (ok r) h = absurd h
      same fault refused h = absurd h
