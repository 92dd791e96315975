-- ===== src/EventLog/Tests.antt =====
-- The parser of event logs on small logs.
use tpm2_tools.Base.Bytes.{Bytes}
use tpm2_tools.Base.Outcome.{Outcome, ok, refused, fault, Ensures}
use tpm2_tools.Base.{
  ℕ, ◌^◌, ◌≤◌, ◌≡◌, refl, inl, All, true, [], ◌∷◌, ◌++◌, Option, none, some, arith, take, drop,
  replicate, List, length, ◌<◌,
}
use tpm2_tools.EventLog.Digests.{IsLog}
use tpm2_tools.EventLog.Event.{parse_event2, parse_variable}
use tpm2_tools.EventLog.Log.{foreach_event2, parse_eventlog, specid_event, parse_sha1_log_event}
use tpm2_tools.EventLog.Log.Safety.{parse_eventlog-Ensures, specid_event-Ensures}
use tpm2_tools.EventLog.Log.Sha1.{
  IsParsed, parse_sha1_log_event-IsParsed, parse_sha1_log_event-fault,
}
use tpm2_tools.EventLog.Replay.{Event, IsEvent, encode_events}
use tpm2_tools.EventLog.Replay.Banks.{total}
use tpm2_tools.EventLog.Replay.Log.{ReplayedLog, Takes, foreach_event2-ReplayedLog}
use tpm2_tools.EventLog.Sizes.{
  IsSized, parse_variable-overflow, parse_event2-IsSized, new_context-IsLog,
}
use tpm2_tools.EventLog.Verify.{verify_digests}
use tpm2_tools.EventLog.Verify.Bounds.{Done, verify_digests-Ensures}
use tpm2_tools.EventLog.{Callbacks, Context, get_hash_size, new_context}

-- A stand-in for a hash: the first bytes of the message, padded.
abbrev toy_hash : ℕ → Bytes → Option Bytes
toy_hash alg msg = some (take 20 (msg ++ replicate 20 0))

abbrev quiet : Callbacks ℕ
quiet = record {
  has_data = true;
  specid_cb = none;
  log_eventhdr_cb = none;
  event2hdr_cb = none;
  digest2_cb = none;
  event2_cb = none;
}

abbrev le_32 : ℕ → Bytes
le_32 n = n ∷ 0 ∷ 0 ∷ 0 ∷ []

-- A Spec ID event with one algorithm and no vendor information, of 65 bytes.
abbrev specid : Bytes
specid =
    le_32 0
    ++ le_32 3
    ++ replicate 20 0
    ++ le_32 33
    ++ replicate 24 0
    ++ le_32 1
    ++ (4 ∷ 0 ∷ 20 ∷ 0 ∷ [])
    ++ (0 ∷ [])

-- A separator in PCR 7 with one SHA-1 digest, of 42 bytes.
abbrev separator : Bytes
separator =
    le_32 7 ++ le_32 4 ++ le_32 1 ++ (4 ∷ 0 ∷ []) ++ replicate 20 9 ++ le_32 4 ++ replicate 4 0

abbrev agile_log : Bytes
agile_log = specid ++ separator

abbrev used_of : Outcome (Context ℕ) → Option ℕ
used_of (ok ctx) = some ctx.sha1.used
used_of refused = none
used_of fault = none

-- The event is found, and extends its PCR.
separator_extends :
    used_of (parse_eventlog toy_hash quiet agile_log 107 (new_context 0)) ≡ some (2 ^ 7)
unfolding parse_eventlog
separator_extends = refl

-- A log that ends within its event is refused.
truncated_is_refused : parse_eventlog toy_hash quiet agile_log 106 (new_context 0) ≡ refused
unfolding parse_eventlog
truncated_is_refused = refl

parse_eventlog-Ensures_example :
    Ensures IsLog (parse_eventlog toy_hash quiet agile_log 107 (new_context 0))
parse_eventlog-Ensures_example =
    parse_eventlog-Ensures toy_hash quiet agile_log 107 (new_context 0) (omega arith)
      (new_context-IsLog 0) refl

specid_event-Ensures_example : Ensures (λ next. next ≤ 107) (specid_event agile_log 107)
specid_event-Ensures_example = specid_event-Ensures agile_log 107 (omega arith)

parse_event2-IsSized_example : Ensures (IsSized separator 42) (parse_event2 toy_hash separator 42)
parse_event2-IsSized_example = parse_event2-IsSized toy_hash separator 42 (omega arith)

verify_digests-Ensures_example :
    Ensures Done (verify_digests toy_hash separator (drop 34 separator))
unfolding get_hash_size
verify_digests-Ensures_example =
    verify_digests-Ensures toy_hash separator (drop 34 separator) (omega arith) (omega arith)

-- An event of the SHA-1 format in the PCR with this index, of 34 bytes.
abbrev sha1_event : ℕ → Bytes
sha1_event pcr = le_32 pcr ++ le_32 1 ++ replicate 20 9 ++ le_32 2 ++ (5 ∷ 6 ∷ [])

parse_sha1_log_event-IsParsed_example :
    Ensures
      (IsParsed toy_hash quiet (sha1_event 3) 34)
      (parse_sha1_log_event toy_hash quiet (sha1_event 3) 34 (new_context 0))
parse_sha1_log_event-IsParsed_example =
    parse_sha1_log_event-IsParsed toy_hash quiet (sha1_event 3) 34 (new_context 0) (omega arith)
      (new_context-IsLog 0) (omega arith)

parse_sha1_log_event-fault_example :
    parse_sha1_log_event toy_hash quiet (sha1_event 32) 34 (new_context 0) ≡ fault
parse_sha1_log_event-fault_example =
    parse_sha1_log_event-fault toy_hash quiet (sha1_event 32) 34 (new_context 0) (omega arith)
      (omega arith) (new_context-IsLog 0) (omega arith)

-- Variable data with a name of 2 ^ 63 characters and no data.
abbrev huge_name : Bytes
huge_name = replicate 23 0 ++ 0x80 ∷ replicate 8 0

parse_variable-overflow_example : parse_variable 32 huge_name ≡ ok tt
parse_variable-overflow_example =
    parse_variable-overflow 32 huge_name (omega arith) refl (omega arith) (omega arith)

-- Two separators, in PCRs 7 and 4.
abbrev two_events : List Event
two_events =
    record { pcr_index = 7; type = 4; digests = (4, replicate 20 9) ∷ []; body = replicate 4 0 }
    ∷ record { pcr_index = 4; type = 4; digests = (4, replicate 20 8) ∷ []; body = replicate 4 0 }
    ∷ []

abbrev toy : ℕ → Bytes → Bytes
toy alg msg = take 20 (drop 10 msg ++ replicate 20 alg)

quiet-Takes : Takes quiet
quiet-Takes = record {
  header = λ eventhdr n ctx. (ctx.user, refl);
  digest = λ digest n ctx. (ctx.user, refl);
  event = λ event type ctx. (ctx.user, refl);
}

two_events-IsEvent : All IsEvent two_events
unfolding get_hash_size
two_events-IsEvent = (separator_is 7 9 (omega arith), (separator_is 4 8 (omega arith), tt))
  where
    separator_is :
        (pcr x : ℕ)
        → pcr < 32
        → IsEvent (record {
          pcr_index = pcr;
          type = 4;
          digests = (4, replicate 20 x) ∷ [];
          body = replicate 4 0;
        })
    separator_is pcr x h = record {
      pcr_exists = h;
      type_fits = omega arith;
      count_fits = omega arith;
      digests_fit = ((inl refl, refl), tt);
      body_fits = omega arith;
      plain = refl;
    }

foreach_event2-ReplayedLog_example :
    (ctx' : Context ℕ) × (foreach_event2
        (total toy)
        quiet
        (encode_events two_events)
        (length (encode_events two_events))
        (new_context 0)
      ≡ ok ctx')
    × ReplayedLog toy quiet quiet-Takes two_events (new_context 0) ctx'
foreach_event2-ReplayedLog_example =
    foreach_event2-ReplayedLog toy quiet quiet-Takes two_events (new_context 0) two_events-IsEvent
      (new_context-IsLog 0)
