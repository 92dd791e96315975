-- ===== src/EventLog/Verify.antt =====
-- `verify_digests`: for the event types whose digest covers the event itself, the logged digests are
-- compared with calculated ones. `foreach_event2` only warns of a mismatch.
pub mod Bounds
use tpm2_tools.Base.Bytes.{Bytes, read_le, read_field, read_bytes}
use tpm2_tools.Base.Outcome.{Outcome, ok, refused, fault, refuse_if, ◌>>=◌, ◌>>◌}
use tpm2_tools.Base.{
  ℕ, zero, suc, ◌+◌, ◌-◌, Bool, true, false, not, ◌||◌, List, [], ◌∷◌, Option, leb, ◌==◌,
  if◌then◌else◌, get_or, drop,
}
use tpm2_tools.EventLog.Event.{ev_separator, ev_s_crtm_version, ev_ipl, ev_efi}
use tpm2_tools.EventLog.{get_hash_size, hash_compute_data}

abbrev pub is_whole : ℕ → Bool
is_whole type =
    type == ev_s_crtm_version || type == ev_separator || type == ev_efi 0x1 || type == ev_efi 0x6

-- The index of the first space among the next `left` bytes, or of their end; `body` begins at `j`.
pub seek_space : ℕ → ℕ → Bytes → Outcome ℕ
seek_space zero j body = ok j
seek_space (suc left) j [] = fault
seek_space (suc left) j (c ∷ body) =
    let rest = seek_space left (j + 1) body in if c == b' ' then ok j else rest

module _ (hash : ℕ → Bytes → Option Bytes) where
  -- memcmp(a, b, n) != 0
  abbrev pub differs : ℕ → Bytes → Bytes → Bool
  differs zero a b = false
  differs (suc n) a b = not (get_or a 0 0 == get_or b 0 0) || differs n (drop 1 a) (drop 1 b)

  -- The comparison of a calculated digest with the log's, which begins at `digest`.
  abbrev pub matches_digest : Bytes → ℕ → Bytes → Outcome Bool
  matches_digest calc alg_size digest = do
    logged ← read_bytes alg_size (drop 2 digest)
    ok (not (differs alg_size calc logged))

  -- The loop of `verify_digests` over digests that are taken over the whole event.
  pub verify_whole : ℕ → Bytes → ℕ → Bytes → Outcome (Unit {0})
  unfolding read_le read_bytes get_hash_size hash_compute_data
  verify_whole zero digest size body = ok tt
  verify_whole (suc count) digest size body = do
    alg ← read_le 2 digest
    calc ← hash_compute_data hash alg body size
    same ← matches_digest calc (get_hash_size alg) digest
    refuse_if (not same)
    verify_whole count (drop (2 + get_hash_size alg) digest) size body

  -- if (memcmp(...) != 0) { the same with the trailing NUL, which must match }
  pub verify_ipl_digest : ℕ → Bytes → ℕ → ℕ → Bytes → Outcome (Unit {0})
  unfolding read_bytes get_hash_size hash_compute_data
  verify_ipl_digest alg digest j size body = do
    calc ← hash_compute_data hash alg (drop (j + 1) body) (size - (j + 2))
    same ← matches_digest calc (get_hash_size alg) digest
    if same then ok tt else do
      calc' ← hash_compute_data hash alg (drop (j + 1) body) (size - (j + 1))
      same' ← matches_digest calc' (get_hash_size alg) digest
      refuse_if (not same')

  -- The loop for EV_IPL, whose digests are taken over the text behind the first space.
  pub verify_ipl : ℕ → Bytes → ℕ → Bytes → Outcome (Unit {0})
  unfolding read_le read_field seek_space verify_ipl_digest
  verify_ipl zero digest size body = ok tt
  verify_ipl (suc count) digest size body = do
    j ← seek_space size 0 body
    refuse_if (leb size (j + 1))
    last ← read_field (size - 1) 1 body
    refuse_if (not (last == 0))
    alg ← read_le 2 digest
    verify_ipl_digest alg digest j size body
    verify_ipl count (drop (2 + get_hash_size alg) digest) size body

  -- `eventhdr` begins at the event's header, `event` at its EventSize.
  unfoldable pub verify_digests : Bytes → Bytes → Outcome (Unit {0})
  unfolding read_field read_le verify_whole verify_ipl
  verify_digests eventhdr event = do
    pcr_index ← read_field 0 4 eventhdr
    type ← read_field 4 4 eventhdr
    count ← read_field 8 4 eventhdr
    size ← read_le 4 event
    if is_whole type
        then verify_whole count (drop 12 eventhdr) size (drop 4 event)
        else if type == ev_ipl
        then (if pcr_index == 9 || pcr_index == 14
            then ok tt
            else if not (pcr_index == 8)
            then refused
            else verify_ipl count (drop 12 eventhdr) size (drop 4 event))
        else ok tt
