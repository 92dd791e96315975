-- ===== src/EventLog/Verify/Bounds.antt =====
-- `verify_digests` reads only the digests and the data of the event.
use tpm2_tools.Base.Bytes.{Bytes, read_le-ok, read_field-ok, read_bytes-ok, value_le, field_le}
use tpm2_tools.Base.Outcome.{
  ok, refused, Ensures, Ensures-bind, Ensures-if, Ensures-ok, Ensures-refuse_if, Ensures-guard,
}
use tpm2_tools.Base.{
  ℕ, zero, suc, ◌+◌, ◌-◌, ◌%◌, ◌^◌, ◌≤◌, ◌≡◌, Bool, not, ◌||◌, [], ◌∷◌, Option, arith, leb, ◌==◌,
  length, drop, length-drop,
}
use tpm2_tools.EventLog.Digests.{digests_width, digest_width, returned-Ensures}
use tpm2_tools.EventLog.Event.{ev_ipl}
use tpm2_tools.EventLog.Verify.{
  is_whole, seek_space, matches_digest, verify_whole, verify_ipl_digest, verify_ipl, verify_digests,
}
use tpm2_tools.EventLog.{get_hash_size, hash_compute_data}

abbrev pub Done : Unit {0} → Type 0
Done _ = Unit

seek_space-Ensures :
    (left j : ℕ) (body : Bytes)
    → left ≤ length body
    → Ensures (λ (_ : ℕ). Unit {0}) (seek_space left j body)
unfolding seek_space
seek_space-Ensures zero j body h = tt
seek_space-Ensures (suc left) j [] h = absurd (omega arith)
seek_space-Ensures (suc left) j (c ∷ body) h =
    Ensures-if _ (c == b' ') _ _ (λ _. tt) (λ _. seek_space-Ensures left (j + 1) body (omega arith))

module _ (hash : ℕ → Bytes → Option Bytes) where
  hash_compute_data-Ensures :
      (alg : ℕ) (b : Bytes) (n : ℕ)
      → n ≤ length b
      → Ensures (λ (_ : Bytes). Unit {0}) (hash_compute_data hash alg b n)
  unfolding hash_compute_data
  hash_compute_data-Ensures alg b n h =
      Ensures-ok (λ _. Unit) _ (read_bytes-ok (n % 2 ^ 16) b (omega arith)) (returned-Ensures _)

  matches_digest-Ensures :
      (calc : Bytes) (n : ℕ) (digest : Bytes)
      → 2 + n ≤ length digest
      → Ensures (λ (_ : Bool). Unit {0}) (matches_digest hash calc n digest)
  matches_digest-Ensures calc n digest h =
      Ensures-ok (λ _. Unit) _
        (read_bytes-ok n (drop 2 digest) (omega (arith, length-drop 2 digest))) tt

  verify_whole-Ensures :
      (count : ℕ) (digest : Bytes) (size : ℕ) (body : Bytes)
      → digests_width count digest ≤ length digest
      → size ≤ length body
      → Ensures Done (verify_whole hash count digest size body)
  unfolding verify_whole
  verify_whole-Ensures zero digest size body h k = tt
  verify_whole-Ensures (suc count) digest size body h k =
      Ensures-ok _ _ (read_le-ok 2 digest (omega arith)) (
        Ensures-bind _ _ (hash_compute_data hash (value_le 2 digest) body size) _
          (hash_compute_data-Ensures (value_le 2 digest) body size k)
          (λ calc _.
            Ensures-bind _ _ (matches_digest hash calc (get_hash_size (value_le 2 digest)) digest) _
              (matches_digest-Ensures calc (get_hash_size (value_le 2 digest)) digest (omega arith))
              (λ same _.
                Ensures-refuse_if Done (not same)
                  (verify_whole hash count (drop (digest_width digest) digest) size body)
                  (λ _.
                    verify_whole-Ensures count (drop (digest_width digest) digest) size body
                      (omega (arith, length-drop (digest_width digest) digest)) k))))

  verify_ipl_digest-Ensures :
      (alg : ℕ) (digest : Bytes) (j size : ℕ) (body : Bytes)
      → 2 + get_hash_size alg ≤ length digest
      → size ≤ length body
      → Ensures Done (verify_ipl_digest hash alg digest j size body)
  unfolding verify_ipl_digest
  verify_ipl_digest-Ensures alg digest j size body h k =
      Ensures-bind _ _ (hash_compute_data hash alg text (size - (j + 2))) _
        (hash_compute_data-Ensures alg text (size - (j + 2)) (omega (arith, rest)))
        (λ calc _.
          Ensures-bind _ _ (matches_digest hash calc n digest) _
            (matches_digest-Ensures calc n digest h)
            (λ same _.
              Ensures-if Done same (ok tt) _ (λ _. tt)
                (λ _.
                  Ensures-bind _ _ (hash_compute_data hash alg text (size - (j + 1))) _
                    (hash_compute_data-Ensures alg text (size - (j + 1)) (omega (arith, rest)))
                    (λ calc' _.
                      Ensures-bind _ _ (matches_digest hash calc' n digest) _
                        (matches_digest-Ensures calc' n digest h)
                        (λ same' _. Ensures-guard (not same'))))))
    where
      n : ℕ
      n = get_hash_size alg

      text : Bytes
      text = drop (j + 1) body

      rest : length text ≡ length body - (j + 1)
      rest = length-drop (j + 1) body

  verify_ipl-Ensures :
      (count : ℕ) (digest : Bytes) (size : ℕ) (body : Bytes)
      → digests_width count digest ≤ length digest
      → size ≤ length body
      → Ensures Done (verify_ipl hash count digest size body)
  unfolding verify_ipl
  verify_ipl-Ensures zero digest size body h k = tt
  verify_ipl-Ensures (suc count) digest size body h k =
      Ensures-bind _ _ (seek_space size 0 body) _ (seek_space-Ensures size 0 body k) (λ j _.
        Ensures-refuse_if Done (leb size (j + 1)) _ λ spaced.
          Ensures-ok Done _ (read_field-ok (size - 1) 1 body (ground arith)) (
            Ensures-refuse_if Done (not (field_le (size - 1) 1 body == 0)) _ λ _.
              Ensures-ok Done _ (read_le-ok 2 digest (omega arith)) (
                Ensures-bind _ _ (verify_ipl_digest hash (value_le 2 digest) digest j size body) _
                  (verify_ipl_digest-Ensures (value_le 2 digest) digest j size body (omega arith) k)
                  (λ _ _.
                    verify_ipl-Ensures count (drop (digest_width digest) digest) size body
                      (omega (arith, length-drop (digest_width digest) digest)) k))))

  -- On a header whose digests lie in its buffer, and an event whose data does, `verify_digests` reads
  -- nothing outside the two, whatever the type of the event and the hash.
  pub verify_digests-Ensures :
      (eventhdr event : Bytes)
      → 12 + digests_width (field_le 8 4 eventhdr) (drop 12 eventhdr) ≤ length eventhdr
      → 4 + value_le 4 event ≤ length event
      → Ensures Done (verify_digests hash eventhdr event)
  unfolding verify_digests
  verify_digests-Ensures eventhdr event h k =
      Ensures-ok Done _ (read_field-ok 0 4 eventhdr (omega arith)) (
        Ensures-ok Done _ (read_field-ok 4 4 eventhdr (omega arith)) (
          Ensures-ok Done _ (read_field-ok 8 4 eventhdr (omega arith)) (
            Ensures-ok Done _ (read_le-ok 4 event (omega arith)) (
              Ensures-if Done (is_whole type) _ _
                (λ _. verify_whole-Ensures count digests size body digests_fit body_fits)
                (λ _.
                  Ensures-if Done (type == ev_ipl) _ (ok tt)
                    (λ _.
                      Ensures-if Done (pcr == 9 || pcr == 14) (ok tt) _ (λ _. tt)
                        (λ _.
                          Ensures-if Done (not (pcr == 8)) refused _ (λ _. tt)
                            (λ _.
                              verify_ipl-Ensures count digests size body digests_fit body_fits)))
                    (λ _. tt))))))
    where
      type : ℕ
      type = field_le 4 4 eventhdr

      pcr : ℕ
      pcr = field_le 0 4 eventhdr

      count : ℕ
      count = field_le 8 4 eventhdr

      size : ℕ
      size = value_le 4 event

      digests : Bytes
      digests = drop 12 eventhdr

      body : Bytes
      body = drop 4 event

      digests_fit : digests_width count digests ≤ length digests
      digests_fit = omega (arith, length-drop 12 eventhdr)

      body_fits : size ≤ length body
      body_fits = omega (arith, length-drop 4 event)
