-- ===== src/Capability/Tests.antt =====
-- Capabilities by example: a TPM that has four entries and gives two at a time.
use tpm2_tools.Base.{
  ℕ, ◌<◌, min, true, false, not, List, [], ◌∷◌, some, length, length-take, length-drop, take, drop,
  take-append-drop, ◌≡◌, refl, sym, ap, arith,
}
use tpm2_tools.Capability.Complete.{IsPage, empty, capability_get-got}
use tpm2_tools.Capability.Pages.{from}
use tpm2_tools.Capability.Vacant.{
  IsLowest, find_vacant-IsLowest, find_vacant_persistent_handle-IsLowest,
}
use tpm2_tools.Capability.{
  Entry, CapReply, page, got, is_empty, cap_handles, persistent_first, first_handle, capability_get,
  find_vacant, find_vacant_persistent_handle,
}
use tpm2_tools.ToolRc.{success}

abbrev handle : ℕ → Entry
handle n = record { key = n; value = 0 }

abbrev handles : List Entry
handles = handle 0x40000001 ∷ handle 0x81000000 ∷ handle 0x81000001 ∷ handle 0x81000005 ∷ []

-- Two of the entries from a property on.
reply : Unit {0} → ℕ → ℕ → ℕ → CapReply (Unit {0})
reply tpm capability property n =
    let es = from property handles in
    page tt capability (not (is_empty (drop (min n 2) es))) (take (min n 2) es)

abbrev sizes : ℕ → ℕ
sizes capability = 254

abbrev Ready : Unit {0} → Type 0
Ready tpm = Unit

reply-IsPage :
    (tpm : Unit {0}) (property n : ℕ)
    → Ready tpm
    → IsPage reply sizes cap_handles handles Ready property n (reply tpm cap_handles property n)
unfolding reply
reply-IsPage tpm property n h = (
  tt,
  refl,
  (let l = length-take (min n 2) es in omega arith),
  (let l = length-take (min n 2) es in omega arith),
  (drop (min n 2) es, sym (take-append-drop (min n 2) es), refl, nothing_left n es),
)
  where
    es : List Entry
    es = from property handles

    nothing_left :
        (m : ℕ) (xs : List Entry) → 0 < m → take (min m 2) xs ≡ [] → drop (min m 2) xs ≡ []
    nothing_left m xs p e =
        let l = ap length e in
        let t = length-take (min m 2) xs in
        let d = length-drop (min m 2) xs in empty (drop (min m 2) xs) (omega arith)

capability_get-got_example :
    capability_get reply sizes tt cap_handles persistent_first 2
    ≡ got (handle 0x81000000 ∷ handle 0x81000001 ∷ [])
capability_get-got_example =
    capability_get-got reply sizes cap_handles handles Ready
      (
        (omega arith, (omega arith, (omega arith, tt))),
        ((omega arith, (omega arith, tt)), ((omega arith, tt), (tt, tt))),
      )
      (omega arith, (omega arith, (omega arith, (omega arith, tt)))) refl refl reply-IsPage
      persistent_first 2 tt tt

find_vacant-IsLowest_example :
    (v : ℕ) × (find_vacant 254 true handles ≡ some v) × IsLowest true handles (first_handle true) v
find_vacant-IsLowest_example = find_vacant-IsLowest 254 true handles (omega arith) (omega arith)

find_vacant_persistent_handle-IsLowest_example :
    (v : ℕ) × (find_vacant_persistent_handle reply sizes tt false ≡ some (success, some v))
    × IsLowest false (from persistent_first handles) (first_handle false) v
find_vacant_persistent_handle-IsLowest_example =
    find_vacant_persistent_handle-IsLowest reply sizes handles Ready tt false
      (
        (omega arith, (omega arith, (omega arith, tt))),
        ((omega arith, (omega arith, tt)), ((omega arith, tt), (tt, tt))),
      )
      (omega arith, (omega arith, (omega arith, (omega arith, tt)))) reply-IsPage tt (omega arith)
      (omega arith)
