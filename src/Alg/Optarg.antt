-- ===== src/Alg/Optarg.antt =====
-- `tpm2_alg_util_from_optarg`: an algorithm on the command line, as a name or as a number.
use tpm2_tools.Alg.Names.{Has, found_by_id, algtostr-strtoalg}
use tpm2_tools.Alg.Table.{AlgPair, algs}
use tpm2_tools.Alg.{strtoalg, algtostr, from_optarg, numbered}
use tpm2_tools.Base.Bytes.{Bytes}
use tpm2_tools.Base.{
  ℕ, Bool, true, false, ◌&&◌, List, [], ◌∷◌, Option, none, some, ◌≡◌, ◌≢◌, refl, subst, sym, ap,
  inl, inr, arith, ◌∙◌,
}
use tpm2_tools.Util.Number.{string_to_uint16, string_to_uint32}

abbrev is_none : Option ℕ → Bool
is_none none = true
is_none (some n) = false

-- No name of the table reads as a number.
are_words : List AlgPair → Bool
are_words [] = true
are_words (e ∷ t) = is_none (string_to_uint16 e.name) && are_words t

are_words-algs : are_words algs ≡ true
unfolding are_words algs string_to_uint16 string_to_uint32
are_words-algs = refl

is_word :
    (t : List AlgPair) (e : AlgPair)
    → are_words t ≡ true
    → Has t e
    → is_none (string_to_uint16 e.name) ≡ true
unfolding are_words
is_word [] e h has = absurd has
is_word (a ∷ t) e h (inl same) =
    subst (λ x. is_none (string_to_uint16 x.name) ≡ true) same (ground arith)
is_word (a ∷ t) e h (inr later) = is_word t e (ground arith) later

-- The argument's two readings.
from_optarg-word :
    (arg : Bytes) (flags : ℕ)
    → string_to_uint16 arg ≡ none
    → from_optarg arg flags ≡ strtoalg arg flags
unfolding from_optarg
from_optarg-word arg flags e = rw (e, from_optarg) refl

from_optarg-number :
    (arg : Bytes) (flags n : ℕ)
    → string_to_uint16 arg ≡ some n
    → from_optarg arg flags ≡ numbered n (algtostr n flags)
unfolding from_optarg
from_optarg-number arg flags n e = rw (e, from_optarg) refl

none_of : (o : Option ℕ) → is_none o ≡ true → o ≡ none
none_of none h = refl
none_of (some n) h = absurd (cc h)

-- The name that `algtostr` gives an identifier is read as that identifier, and whatever text is
-- accepted stands for an algorithm that has a name under the same flags.
pub from_optarg-algtostr :
    (flags id : ℕ) (arg : Bytes)
    → (algtostr id flags ≡ some arg → from_optarg arg flags ≡ id)
      × (from_optarg arg flags ≢ 0 → ¬ (algtostr (from_optarg arg flags) flags ≡ none))
from_optarg-algtostr flags id arg = (to, known (string_to_uint16 arg) refl)
  where
    to : algtostr id flags ≡ some arg → from_optarg arg flags ≡ id
    to h =
        let (e, has, i, n, f) = found_by_id algs id flags arg (unfold algtostr in h) in
        let w : string_to_uint16 arg ≡ none =
          subst (λ x. string_to_uint16 x ≡ none) n
            (none_of (string_to_uint16 e.name) (is_word algs e are_words-algs has)) in
        from_optarg-word arg flags w ∙ (algtostr-strtoalg flags id arg).0 h

    of_number :
        (n : ℕ) (o : Option Bytes)
        → algtostr n flags ≡ o
        → ◌≢◌ {A = ℕ} (numbered n o) 0
        → ¬ (algtostr (numbered n o) flags ≡ none)
    of_number n none e nz z = absurd (nz refl)
    of_number n (some name) e nz z = cc

    known :
        (o : Option ℕ)
        → string_to_uint16 arg ≡ o
        → from_optarg arg flags ≢ 0
        → ¬ (algtostr (from_optarg arg flags) flags ≡ none)
    known none e nz =
        let r = from_optarg-word arg flags e in
        let back = (algtostr-strtoalg flags (strtoalg arg flags) arg).1 refl (λ z. nz (r ∙ z)) in
        λ z. cc (r, back, z)
    known (some n) e nz =
        let r = from_optarg-number arg flags n e in
        let k = of_number n (algtostr n flags) refl (λ z. nz (r ∙ z)) in
        λ z. k (ap (λ x. algtostr x flags) (sym r) ∙ z)
