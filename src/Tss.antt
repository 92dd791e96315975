-- ===== src/Tss.antt =====
-- Numbers of the TPM 2.0 specification that the code takes from tss2/tss2_tpm2_types.h: algorithm
-- identifiers, digest sizes, and the limits of the arrays.
use tpm2_tools.Base.{ℕ}

abbrev pub alg_sha1 : ℕ
alg_sha1 = 0x0004

abbrev pub alg_sha256 : ℕ
alg_sha256 = 0x000b

abbrev pub alg_sha384 : ℕ
alg_sha384 = 0x000c

abbrev pub alg_sha512 : ℕ
alg_sha512 = 0x000d

abbrev pub alg_sm3_256 : ℕ
alg_sm3_256 = 0x0012

abbrev pub max_pcrs : ℕ
max_pcrs = 32

-- Handles: the ranges, the permanent handles of hierarchies, and the limits of the ranges.
abbrev pub hr_range_mask : ℕ
hr_range_mask = 0xff000000

abbrev pub hr_pcr : ℕ
hr_pcr = 0

abbrev pub hr_nv_index : ℕ
hr_nv_index = 0x01000000

abbrev pub hr_permanent : ℕ
hr_permanent = 0x40000000

abbrev pub hr_transient : ℕ
hr_transient = 0x80000000

abbrev pub hr_persistent : ℕ
hr_persistent = 0x81000000

abbrev pub rh_owner : ℕ
rh_owner = 0x40000001

abbrev pub rh_null : ℕ
rh_null = 0x40000007

abbrev pub rh_lockout : ℕ
rh_lockout = 0x4000000a

abbrev pub rh_endorsement : ℕ
rh_endorsement = 0x4000000b

abbrev pub rh_platform : ℕ
rh_platform = 0x4000000c

abbrev pub nv_index_first : ℕ
nv_index_first = 0x01000000

abbrev pub nv_index_last : ℕ
nv_index_last = 0x01ffffff

abbrev pub pcr_last : ℕ
pcr_last = 31

abbrev pub persistent_first : ℕ
persistent_first = 0x81000000

abbrev pub persistent_last : ℕ
persistent_last = 0x81ffffff
