-- ===== src/Attr/Flags.antt =====
-- The names of the tables that set one bit each.
use tpm2_tools.Base.Bytes.{Bytes}
use tpm2_tools.Base.Text.{IsField}
use tpm2_tools.Base.{
  ℕ, ◌^◌, ◌≡◌, ◌⊎◌, inl, inr, refl, subst, bit_or, Bool, true, false, not, ◌&&◌, List, [], ◌∷◌,
  some, arith, ◌==◌, All,
}
use tpm2_tools.Attr.Table.{Action, nv_flag, obj_flag, Dispatch, nv_attr_table, obj_attr_table}
use tpm2_tools.Attr.{dispatch_token}

-- The names that set a bit, with their bits.
abbrev flag_of : Action → Bytes → List (ℕ × Bytes) → List (ℕ × Bytes)
flag_of (nv_flag pos) name rest = (pos, name) ∷ rest
flag_of (obj_flag pos) name rest = (pos, name) ∷ rest
flag_of _ name rest = rest

abbrev pub flags : List Dispatch → List (ℕ × Bytes)
flags [] = []
flags (d ∷ table) = flag_of d.callback d.name (flags table)

abbrev pub Has : List (ℕ × Bytes) → ℕ × Bytes → Type 0
Has [] f = ⊥
Has (e ∷ fs) f = (e ≡ f) ⊎ Has fs f

pub All-Has :
    (P : ℕ × Bytes → Type 0) (fs : List (ℕ × Bytes)) (f : ℕ × Bytes) → All P fs → Has fs f → P f
All-Has P [] f h has = absurd has
All-Has P (e ∷ fs) f h (inl same) = subst P same h.0
All-Has P (e ∷ fs) f h (inr later) = All-Has P fs f h.1 later

-- The name sets its bit, whatever else is set.
abbrev pub Sets : List Dispatch → ℕ × Bytes → Type 0
Sets table (pos, name) =
    (value attrs : ℕ) → dispatch_token value table name attrs ≡ some (bit_or attrs (2 ^ pos))

pub nv_flags-Sets : All (Sets nv_attr_table) (flags nv_attr_table)
unfolding nv_attr_table dispatch_token
nv_flags-Sets = (
  λ v a. refl,
  (
    λ v a. refl,
    (
      λ v a. refl,
      (
        λ v a. refl,
        (
          λ v a. refl,
          (
            λ v a. refl,
            (
              λ v a. refl,
              (
                λ v a. refl,
                (
                  λ v a. refl,
                  (
                    λ v a. refl,
                    (
                      λ v a. refl,
                      (
                        λ v a. refl,
                        (
                          λ v a. refl,
                          (
                            λ v a. refl,
                            (
                              λ v a. refl,
                              (
                                λ v a. refl,
                                (
                                  λ v a. refl,
                                  (λ v a. refl, (λ v a. refl, (λ v a. refl, (λ v a. refl, tt)))),
                                ),
                              ),
                            ),
                          ),
                        ),
                      ),
                    ),
                  ),
                ),
              ),
            ),
          ),
        ),
      ),
    ),
  ),
)

pub obj_flags-Sets : All (Sets obj_attr_table) (flags obj_attr_table)
unfolding obj_attr_table dispatch_token
obj_flags-Sets = (
  λ v a. refl,
  (
    λ v a. refl,
    (
      λ v a. refl,
      (
        λ v a. refl,
        (
          λ v a. refl,
          (
            λ v a. refl,
            (λ v a. refl, (λ v a. refl, (λ v a. refl, (λ v a. refl, (λ v a. refl, tt))))),
          ),
        ),
      ),
    ),
  ),
)

unfoldable pub is_field : Bytes → Bool
is_field [] = false
is_field (x ∷ []) = not (x == b'|')
is_field (x ∷ y ∷ f) = not (x == b'|') && is_field (y ∷ f)

pub is_field-IsField : (f : Bytes) → is_field f ≡ true → IsField b'|' f
unfolding is_field
is_field-IsField [] h = absurd (cc h)
is_field-IsField (x ∷ []) h = ((ground arith, tt), λ e. cc)
is_field-IsField (x ∷ y ∷ f) h =
    ((ground arith, (is_field-IsField (y ∷ f) (ground arith)).0), λ e. cc)

-- Joined names are taken apart again.
abbrev pub AreFields : List (ℕ × Bytes) → Type 0
AreFields = All (λ f. is_field f.1 ≡ true)

pub nv_flags-AreFields : AreFields (flags nv_attr_table)
unfolding nv_attr_table is_field
nv_flags-AreFields = (
  refl,
  (
    refl,
    (
      refl,
      (
        refl,
        (
          refl,
          (
            refl,
            (
              refl,
              (
                refl,
                (
                  refl,
                  (
                    refl,
                    (
                      refl,
                      (
                        refl,
                        (refl, (refl, (refl, (refl, (refl, (refl, (refl, (refl, (refl, tt))))))))),
                      ),
                    ),
                  ),
                ),
              ),
            ),
          ),
        ),
      ),
    ),
  ),
)

pub obj_flags-AreFields : AreFields (flags obj_attr_table)
unfolding obj_attr_table is_field
obj_flags-AreFields =
    (refl, (refl, (refl, (refl, (refl, (refl, (refl, (refl, (refl, (refl, (refl, tt)))))))))))
