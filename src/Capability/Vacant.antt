-- ===== src/Capability/Vacant.antt =====
-- The search for a free persistent handle finds the lowest one.
use tpm2_tools.Base.{
  ℕ, zero, suc, ◌+◌, ◌-◌, ◌≤◌, ◌<◌, Bool, true, false, not, ◌&&◌, List, [], ◌∷◌, some, ltb, leb,
  ◌==◌, if◌then◌else◌, length, ◌≡◌, ◌≢◌, ◌^◌, min, All, refl, ap, ◌∙◌, arith, Bool-cases, inl, inr,
}
use tpm2_tools.Capability.{
  Entry, CapReply, got, cap_handles, platform_persistent, persistent_first, persistent_last, in_use,
  find_loop, first_handle, with_handles, found_or_error, find_vacant, find_vacant_persistent_handle,
}
use tpm2_tools.Capability.Complete.{IsPage, capability_get-got, take_whole}
use tpm2_tools.Capability.Pages.{from, IsOrdered}
use tpm2_tools.ToolRc.{success}

-- Behind the last handle of the hierarchy.
abbrev pub limit : Bool → ℕ
limit is_platform = if is_platform then persistent_last + 1 else platform_persistent

-- A handle of the hierarchy that is free, and all before it from `i` on are not.
abbrev pub IsLowest : Bool → List Entry → ℕ → ℕ → Type 0
IsLowest is_platform handles i v =
    (i ≤ v)
    × (v < limit is_platform)
    × (in_use v handles ≡ false)
    × ((w : ℕ) → i ≤ w → w < v → in_use w handles ≡ true)

-- How many of the handles are not below `i`.
abbrev at_least : ℕ → List Entry → ℕ
at_least i [] = 0
at_least i (h ∷ hs) = if leb i h.key then suc (at_least i hs) else at_least i hs

at_least-le : (i : ℕ) (hs : List Entry) → at_least i hs ≤ length hs
at_least-le i [] = omega arith
at_least-le i (h ∷ hs) = ground (arith, at_least-le i hs)

at_least-next : (i : ℕ) (hs : List Entry) → at_least (i + 1) hs ≤ at_least i hs
at_least-next i [] = omega arith
at_least-next i (h ∷ hs) = ground (arith, at_least-next i hs)

at_least-in_use :
    (i : ℕ) (hs : List Entry) → in_use i hs ≡ true → at_least (i + 1) hs < at_least i hs
at_least-in_use i [] e = absurd (cc e)
at_least-in_use i (h ∷ hs) e = elim (Bool-cases (h.key == i)) [
  | inl same ↦ let n = at_least-next i hs in ground arith
  | inr other ↦
      let later : in_use i hs ≡ true = ground arith in
      let n = at_least-in_use i hs later in ground arith
]

-- Fewer handles than numbers leave a number free.
find_loop-IsLowest :
    (is_platform : Bool) (hs : List Entry) (left i : ℕ)
    → at_least i hs < limit is_platform - i
    → limit is_platform - i ≤ left
    → (v : ℕ) × (find_loop is_platform hs left i ≡ some v) × IsLowest is_platform hs i v
unfolding find_loop
find_loop-IsLowest is_platform hs zero i h k = absurd (omega arith)
find_loop-IsLowest is_platform hs (suc left) i h k =
    let within : (not is_platform && leb platform_persistent i) ≡ false =
      in_hierarchy is_platform h in
    elim (Bool-cases (in_use i hs)) [
      | inl used ↦
          let n = at_least-in_use i hs used in
          let (v, e, (a, b, c, d)) =
            find_loop-IsLowest is_platform hs left (i + 1) (omega arith) (omega arith) in
          (v, rw (within, used) e, (omega arith, b, c, below v used d))
      | inr free ↦ (
        i,
        rw (within, free) refl,
        (omega arith, omega arith, free, λ w p q. absurd (omega arith)),
      )
    ]
  where
    in_hierarchy :
        (b : Bool) → at_least i hs < limit b - i → (not b && leb platform_persistent i) ≡ false
    in_hierarchy true h' = refl
    in_hierarchy false h' = ground arith

    below :
        (v : ℕ)
        → in_use i hs ≡ true
        → ((w : ℕ) → i + 1 ≤ w → w < v → in_use w hs ≡ true)
        → (w : ℕ) → i ≤ w
        → w < v
        → in_use w hs ≡ true
    below v used d w p q = elim (Bool-cases (w == i)) [
      | inl same ↦ let e : w ≡ i = ground arith in rw e used
      | inr other ↦ let e : w ≢ i = (λ z. ground arith) in d w (omega arith) q
    ]

-- With fewer handles in use than the array for them holds, which is less than the range of either
-- hierarchy, the search succeeds: the handle is in the range of the owner's or the platform's
-- hierarchy, free, and the lowest such.
pub find_vacant-IsLowest :
    (max_handles : ℕ) (is_platform : Bool) (hs : List Entry)
    → length hs < max_handles
    → max_handles ≤ 0x800000
    → (v : ℕ) × (find_vacant max_handles is_platform hs ≡ some v)
      × IsLowest is_platform hs (first_handle is_platform) v
unfolding find_vacant
find_vacant-IsLowest max_handles is_platform [] h k =
    (first_handle is_platform, refl, lowest is_platform)
  where
    lowest : (b : Bool) → IsLowest b [] (first_handle b) (first_handle b)
    lowest true = (omega arith, omega arith, refl, λ w p q. absurd (omega arith))
    lowest false = (omega arith, omega arith, refl, λ w p q. absurd (omega arith))
find_vacant-IsLowest max_handles is_platform (x ∷ xs) h k =
    let hs : List Entry = x ∷ xs in
    let some_used : (length hs == 0) ≡ false = ground arith in
    let differs : (length hs == max_handles) ≡ false = ground arith in
    let less : ltb (length hs) max_handles ≡ true = ground arith in
    let n = at_least-le (first_handle is_platform) hs in
    let (v, e, l) = searched is_platform n in (v, rw (some_used, differs, less) e, l)
  where
    searched :
        (b : Bool)
        → at_least (first_handle b) (x ∷ xs) ≤ length (x ∷ xs)
        → (v : ℕ) × (find_loop b (x ∷ xs) (persistent_last + 1 - first_handle b) (first_handle b)
            ≡ some v)
          × IsLowest b (x ∷ xs) (first_handle b) v
    searched true n =
        find_loop-IsLowest true (x ∷ xs) (persistent_last + 1 - platform_persistent)
          platform_persistent (omega arith) (omega arith)
    searched false n =
        find_loop-IsLowest false (x ∷ xs) (persistent_last + 1 - persistent_first) persistent_first
          (omega arith) (omega arith)

-- Against a TPM whose persistent handles are those of an ordered list, and fewer than the array
-- holds, the search ends with the lowest free handle of the hierarchy, which no entry of the TPM has.
pub find_vacant_persistent_handle-IsLowest :
    {Tpm : Type 0} (get_capability : Tpm → ℕ → ℕ → ℕ → CapReply Tpm) (max_count : ℕ → ℕ)
    (entries : List Entry) (holds : Tpm → Type 0) (tpm : Tpm) (is_platform : Bool)
    → IsOrdered entries
    → All (λ e. e.key + 1 < 2 ^ 32) entries
    → ((t : Tpm) (property n : ℕ)
        → holds t
        → IsPage get_capability max_count cap_handles entries holds property n
            (get_capability t cap_handles property n))
    → holds tpm
    → length (from persistent_first entries) < max_count cap_handles
    → max_count cap_handles ≤ 0x800000
    → (v : ℕ) × (find_vacant_persistent_handle get_capability max_count tpm is_platform
        ≡ some (success, some v))
      × IsLowest is_platform (from persistent_first entries) (first_handle is_platform) v
unfolding find_vacant_persistent_handle with_handles
find_vacant_persistent_handle-IsLowest {Tpm} get_capability max_count entries holds tpm is_platform
      o n p h few k =
    let (v, e, l) =
      find_vacant-IsLowest (max_count cap_handles) is_platform (from persistent_first entries) few
        k in
    let r =
      capability_get-got get_capability max_count cap_handles entries holds o n refl refl p
        persistent_first (max_count cap_handles) tpm h in
    let t =
      take_whole (min (max_count cap_handles) (max_count cap_handles))
        (from persistent_first entries) (omega arith) in
    (
      v,
      ap (with_handles (max_count cap_handles) is_platform) (r ∙ ap got t)
          ∙ ap (λ o. some (found_or_error o)) e,
      l,
    )
