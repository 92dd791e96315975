-- ===== src/Files/Tests.antt =====
-- Files by example: a stream in memory, whose transfers are cut short as a schedule says.
use tpm2_tools.Base.Bytes.{Bytes}
use tpm2_tools.Base.Outcome.{ok, refused}
use tpm2_tools.Base.{
  ℕ, zero, suc, ◌≤◌, ◌<◌, min, Bool, true, false, List, [], ◌∷◌, ◌++◌, ◌≡◌, ◌≢◌, refl, sym, length,
  length-take, take, drop, take-append-drop, arith,
}
use tpm2_tools.Files.Context.{
  files_save_context-load_tpm_context_file, files_save_context-Writes, encode_context,
}
use tpm2_tools.Files.Operation.{Gives}
use tpm2_tools.Files.Stream.{Stdio, IsHealthy}
use tpm2_tools.Files.Transfer.{Writes}
use tpm2_tools.Files.{
  TpmsContext, write_loop, writex, files_write, files_write_bytes, files_write_header,
  files_save_context, load_tpm_context_file,
}
use tpm2_tools.Util.Endian.{hton, endian_swap, is_big_endian}

record Memory : Type 0 where
  output : Bytes
  input : Bytes
  cuts : List ℕ

-- How many of `n` bytes the next call transfers.
quota : List ℕ → ℕ → ℕ
quota [] n = n
quota (c ∷ cs) n = min c n

is_cut : List ℕ → Bool
is_cut [] = false
is_cut (c ∷ cs) = true

rest_of : List ℕ → List ℕ
rest_of [] = []
rest_of (c ∷ cs) = cs

at_end : Bytes → List ℕ → Bool
at_end [] cuts = true
at_end (x ∷ b) cuts = false

stdio : Stdio Memory
stdio = record {
  fwrite = λ b f. record {
    wrote = quota f.cuts (length b);
    interrupted = is_cut f.cuts;
    file = record f {
      output = f.output ++ take (quota f.cuts (length b)) b;
      cuts = rest_of f.cuts;
    };
  };
  fread = λ n f. record {
    got = take (quota f.cuts n) f.input;
    eof = at_end (drop (quota f.cuts n) f.input) [];
    interrupted = is_cut f.cuts;
    file = record f { input = drop (quota f.cuts n) f.input; cuts = rest_of f.cuts };
  };
  seek_back = λ n f. (refused, f);
  rewind = λ f. f;
}

quota_le : (cs : List ℕ) (n : ℕ) → quota cs n ≤ n
unfolding quota
quota_le [] n = omega arith
quota_le (c ∷ cs) n = omega arith

rest_le : (cs : List ℕ) → length (rest_of cs) ≤ length cs
unfolding rest_of
rest_le [] = omega arith
rest_le (c ∷ cs) = omega arith

quota_short :
    (cs : List ℕ) (n : ℕ) → quota cs n ≢ n → (is_cut cs ≡ true) × (length (rest_of cs) < length cs)
unfolding quota is_cut rest_of
quota_short [] n h = absurd (h refl)
quota_short (c ∷ cs) n h = (refl, omega arith)

end_empty : (b : Bytes) → at_end b [] ≡ true → b ≡ []
unfolding at_end
end_empty [] h = refl
end_empty (x ∷ b) h = absurd (cc h)

short_take : (q n : ℕ) (b : Bytes) → length (take q b) < n → at_end (drop q b) [] ≡ false → q ≢ n
unfolding at_end
short_take zero n b h e z = omega arith
short_take (suc q) n [] h e z = absurd (cc e)
short_take (suc q) zero (x ∷ b) h e z = omega arith
short_take (suc q) (suc n) (x ∷ b) h e z = short_take q n b (omega arith) e (omega arith)

stdio-IsHealthy : IsHealthy stdio
unfolding stdio
stdio-IsHealthy = record {
  written = λ f. f.output;
  unread = λ f. f.input;
  patience = λ f. length f.cuts;
  fwrite_appends = λ b f. refl;
  fwrite_count = λ b f. quota_le f.cuts (length b);
  fwrite_patience = λ b f. rest_le f.cuts;
  fwrite_short = λ b f h. quota_short f.cuts (length b) h;
  fread_takes = λ n f. sym (take-append-drop (quota f.cuts n) f.input);
  fread_count =
      λ n f. let q = quota_le f.cuts n in omega (arith, length-take (quota f.cuts n) f.input);
  fread_patience = λ n f. rest_le f.cuts;
  fread_eof = λ n f h. end_empty (drop (quota f.cuts n) f.input) h;
  fread_short = λ n f h e. quota_short f.cuts n (short_take (quota f.cuts n) n f.input h e);
}

abbrev context : TpmsContext
context = record {
  hierarchy = 0x40000001;
  saved_handle = 0x80000000;
  sequence = 300;
  context_blob = 1 ∷ 2 ∷ 3 ∷ [];
}

abbrev empty_file : Memory
empty_file = record { output = []; input = []; cuts = 3 ∷ 0 ∷ 1 ∷ [] }

abbrev saved_file : Memory
saved_file = record { output = []; input = encode_context context; cuts = 5 ∷ 0 ∷ [] }

files_save_context-Writes_example :
    Gives
      (Writes stdio stdio-IsHealthy (encode_context context) empty_file)
      (files_save_context stdio 10 false context empty_file)
unfolding stdio-IsHealthy
files_save_context-Writes_example =
    files_save_context-Writes stdio stdio-IsHealthy 10 false context empty_file (omega arith)

saves : (files_save_context stdio 10 false context empty_file).1.output ≡ encode_context context
unfolding stdio quota is_cut rest_of write_loop writex files_write files_write_bytes
    files_write_header files_save_context hton endian_swap is_big_endian
saves = refl

files_save_context-load_tpm_context_file_example :
    ((files_save_context stdio 10 false context empty_file).0 ≡ ok tt)
    × ((load_tpm_context_file stdio 10 false 5188 5208 (λ b. context) saved_file).0 ≡ ok context)
unfolding stdio-IsHealthy
files_save_context-load_tpm_context_file_example =
    files_save_context-load_tpm_context_file stdio stdio-IsHealthy 10 false 5188 5208 (λ b. context)
      context empty_file saved_file
      (omega arith, omega arith, omega arith, omega arith, omega arith) (omega arith) (omega arith)
      refl (sym saves)
