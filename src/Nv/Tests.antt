-- ===== src/Nv/Tests.antt =====
-- The reading of an NV index by example.
use tpm2_tools.Base.Bytes.{Bytes}
use tpm2_tools.Base.{ℕ, ◌+◌, ◌≡◌, refl, [], ◌∷◌, arith, ltb, if◌then◌else◌, length}
use tpm2_tools.ToolRc.{general_error}
use tpm2_tools.Nv.{NvReply, nv_reply, nv_data, nv_failed, limit_buffer_size, util_nv_read}
use tpm2_tools.Nv.Complete.{slice, Answers, wanted_size, util_nv_read-slice}

abbrev memory : Bytes
memory = 10 ∷ 11 ∷ 12 ∷ 13 ∷ 14 ∷ []

-- A TPM that sends what is asked for, and counts.
abbrev honest : ℕ → ℕ → ℕ → NvReply ℕ
honest count n offset = nv_reply (count + 1) (slice n offset memory)

in_pieces : util_nv_read honest 5 5 2 0 0 0 ≡ nv_data memory
unfolding util_nv_read
in_pieces = refl

honest-Answers : (limit : ℕ) → Answers honest memory limit
honest-Answers limit count n offset h k = (count + 1, refl)

util_nv_read-slice_example : util_nv_read honest (length memory) (length memory) 2 0 3 1 ≡ (
    if ltb (length memory) (1 + wanted_size honest memory 3)
    then nv_failed general_error
    else nv_data (slice (wanted_size honest memory 3) 1 memory))
util_nv_read-slice_example =
    util_nv_read-slice honest memory 2 (honest-Answers (limit_buffer_size 2)) (omega arith) 0 3 1
