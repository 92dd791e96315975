-- ===== src/EventLog/Replay.antt =====
-- Events as data, their encoding in the crypto-agile format, and what replaying them means: each PCR
-- of each algorithm is extended with the digests of that algorithm, in the order of the log.
pub mod Encoding
pub mod Banks
pub mod Loop
pub mod Fields
pub mod Steps
pub mod Log
use tpm2_tools.Base.Bytes.{Bytes, le_bytes}
use tpm2_tools.Base.{
  ℕ, zero, suc, ◌+◌, ◌-◌, ◌*◌, ◌/◌, ◌%◌, ◌^◌, ◌≡◌, ◌⊎◌, ◌<◌, Bool, true, false, ◌&&◌, ◌||◌, List,
  [], ◌∷◌, ◌++◌, Option, none, some, ltb, ◌==◌, if◌then◌else◌, length, All, get_or,
}
use tpm2_tools.EventLog.Event.{is_variable, is_blob, is_image}
use tpm2_tools.EventLog.{Callbacks, Context, PcrBank, get_hash_size}
use tpm2_tools.Tss

abbrev pub Digest : Type 0
Digest = ℕ × Bytes

pub record Event : Type 0 where
  pub pcr_index : ℕ
  pub type : ℕ
  pub digests : List Digest
  pub body : Bytes

abbrev pub encode_digests : List Digest → Bytes
encode_digests [] = []
encode_digests ((alg, d) ∷ ds) = le_bytes 2 alg ++ d ++ encode_digests ds

abbrev pub encode_body : Event → Bytes
encode_body e = le_bytes 4 (length e.body) ++ e.body

abbrev pub encode_event : Event → Bytes
encode_event e =
    le_bytes 4 e.pcr_index
    ++ le_bytes 4 e.type
    ++ le_bytes 4 (length e.digests)
    ++ encode_digests e.digests
    ++ encode_body e

abbrev pub encode_events : List Event → Bytes
encode_events [] = []
encode_events (e ∷ es) = encode_event e ++ encode_events es

-- The algorithms that have a bank.
abbrev pub HasBank : ℕ → Type 0
HasBank alg =
    (alg ≡ Tss.alg_sha1)
    ⊎ ((alg ≡ Tss.alg_sha256)
        ⊎ ((alg ≡ Tss.alg_sha384) ⊎ ((alg ≡ Tss.alg_sha512) ⊎ (alg ≡ Tss.alg_sm3_256))))

abbrev pub IsDigest : Digest → Type 0
IsDigest (alg, d) = HasBank alg × (length d ≡ get_hash_size alg)

-- An event that the format can hold, of a type whose body the parser does not look into.
pub record IsEvent (e : Event) : Type 0 where
  pub pcr_exists : e.pcr_index < Tss.max_pcrs
  pub type_fits : e.type < 2 ^ 32
  pub count_fits : length e.digests < 2 ^ 32
  pub digests_fit : All IsDigest e.digests
  pub body_fits : length e.body < 2 ^ 32
  pub plain : (is_variable e.type || (is_blob e.type || is_image e.type)) ≡ false

-- What the bank of an algorithm holds in a PCR.
abbrev pub bank_of : {D : Type 0} → ℕ → Context D → PcrBank
bank_of alg ctx =
    if alg == Tss.alg_sha1
    then ctx.sha1
    else if alg == Tss.alg_sha256
    then ctx.sha256
    else if alg == Tss.alg_sha384
    then ctx.sha384
    else if alg == Tss.alg_sha512
    then ctx.sha512
    else ctx.sm3_256

abbrev pub pcr_value : {D : Type 0} → ℕ → ℕ → Context D → Bytes
pcr_value alg i ctx = get_or (bank_of alg ctx).pcrs i []

-- The value of one PCR of one algorithm after the digests of an event, and after a log.
module _ (h : ℕ → Bytes → Bytes) (alg i : ℕ) where
  abbrev pub replay_digests : ℕ → List Digest → Bytes → Bytes
  replay_digests pcr_index [] value = value
  replay_digests pcr_index ((a, d) ∷ ds) value =
      replay_digests pcr_index ds (if a == alg && pcr_index == i then h a (value ++ d) else value)

  abbrev pub replay : List Event → Bytes → Bytes
  replay [] value = value
  replay (e ∷ es) value = replay es (replay_digests e.pcr_index e.digests value)
