-- ===== src/Files/Transfer.antt =====
-- What `writex` and `readx` transfer, interrupts or not.
use tpm2_tools.Base.Bytes.{Bytes, byte_limit, be_bytes, length-be_bytes}
use tpm2_tools.Base.{
  ℕ, zero, suc, ◌+◌, ◌-◌, ◌≤◌, ◌<◌, Bool, true, false, not, ◌&&◌, ltb, ◌==◌, if◌then◌else◌, ◌≡◌,
  ◌≢◌, refl, sym, ap, ◌∙◌, subst, [], ◌∷◌, ◌++◌, append-nil, append_assoc, take, drop, length,
  length-append, take-append-drop, arith, Bool-cases, inl, inr,
}
use tpm2_tools.Files.Operation.{Gives, Gives-bind, Gives-mono, check, ◌>>=◌}
use tpm2_tools.Files.Stream.{Stdio, Wrote, Read, IsHealthy}
use tpm2_tools.Files.{
  write_loop, writex, read_loop, readx, files_write_bytes, files_read_bytes, files_write,
  files_read,
}
use tpm2_tools.Util.Endian.{hton, mem_bytes, mem_value, mem_bytes-hton, hton-mem_value}

module _ {X : Type 0} (P : X → Type 0) where
  choose : (b : Bool) (x y : X) → (b ≡ true → P x) → (b ≡ false → P y) → P (if b then x else y)
  choose true x y h k = h refl
  choose false x y h k = k refl

take_all : (b : Bytes) → take (length b) b ≡ b
take_all [] = refl
take_all (x ∷ b) = ap (λ l. x ∷ l) (take_all b)

-- Of two splits of a text, the shorter begins the longer.
split_prefix :
    (xs g ys u : Bytes)
    → xs ++ ys ≡ g ++ u
    → length g ≤ length xs
    → (rest : Bytes) × (xs ≡ g ++ rest) × (u ≡ rest ++ ys)
split_prefix xs [] ys u e h = (xs, refl, sym e)
split_prefix [] (x ∷ g) ys u e h = absurd (omega arith)
split_prefix (y ∷ xs) (x ∷ g) ys u e h =
    let tails : xs ++ ys ≡ g ++ u = cc e in
    let heads : y ≡ x = cc e in
    let (rest, p, q) = split_prefix xs g ys u tails (omega arith) in (rest, cc (heads, p), q)

empty_of_length : (b : Bytes) → length b ≡ 0 → b ≡ []
empty_of_length [] h = refl
empty_of_length (x ∷ b) h = absurd (omega arith)

module _ {F : Type 0} (io : Stdio F) (healthy : IsHealthy io) where
  -- A write adds its bytes to what is written, a read takes its bytes from what is unread, and
  -- neither makes interrupts more likely.
  abbrev pub Writes : Bytes → F → Unit {0} → F → Type 0
  Writes b f a f' =
      (healthy.written f' ≡ healthy.written f ++ b) × (healthy.patience f' ≤ healthy.patience f)

  abbrev pub Reads : {A : Type 0} → A → Bytes → F → A → F → Type 0
  Reads a rest f a' f' =
      (a' ≡ a) × (healthy.unread f' ≡ rest) × (healthy.patience f' ≤ healthy.patience f)

  write_loop-Writes :
      (fuel : ℕ) (big : Bool) (left : ℕ) (b : Bytes) (f : F)
      → healthy.patience f < left
      → Gives (Writes b f) (write_loop io fuel big left b f)
  unfolding write_loop
  write_loop-Writes fuel big zero b f h = absurd (omega arith)
  write_loop-Writes fuel big (suc left) b f h =
      choose (Gives (Writes b f)) (r.wrote == length b) _ _ whole (λ short.
        choose (Gives (Writes b f)) r.interrupted _ _
          (λ i.
            resumed short (write_loop-Writes fuel big left (drop r.wrote b) r.file (sooner short)))
          (λ i. absurd (cc (i, (healthy.fwrite_short b f (differs short)).0))))
    where
      r : Wrote F
      r = io.fwrite b f

      differs : (r.wrote == length b) ≡ false → r.wrote ≢ length b
      differs short e = ground arith

      sooner : (r.wrote == length b) ≡ false → healthy.patience r.file < left
      sooner short = let l = (healthy.fwrite_short b f (differs short)).1 in omega arith

      whole : (r.wrote == length b) ≡ true → Writes b f tt r.file
      whole full =
          let e : r.wrote ≡ length b = ground arith in
          (
            healthy.fwrite_appends b f
                ∙ ap (λ l. healthy.written f ++ l) (ap (λ n. take n b) e ∙ take_all b),
            healthy.fwrite_patience b f,
          )

      extend : (a : Unit {0}) (f' : F) → Writes (drop r.wrote b) r.file a f' → Writes b f a f'
      extend a f' (w, p) = (
        w
            ∙ ap (λ l. l ++ drop r.wrote b) (healthy.fwrite_appends b f)
            ∙ append_assoc (healthy.written f) (take r.wrote b) (drop r.wrote b)
            ∙ ap (λ l. healthy.written f ++ l) (take-append-drop r.wrote b),
        (let q = healthy.fwrite_patience b f in omega arith),
      )

      resumed :
          (r.wrote == length b) ≡ false
          → Gives
              (Writes (drop r.wrote b) r.file)
              (write_loop io fuel big left (drop r.wrote b) r.file)
          → Gives (Writes b f) (write_loop io fuel big left (drop r.wrote b) r.file)
      resumed short g = Gives-mono _ _ _ extend g

  read_loop-Reads :
      (fuel : ℕ) (big : Bool) (left size : ℕ) (got xs ys : Bytes) (f : F)
      → healthy.patience f < left
      → healthy.unread f ≡ xs ++ ys
      → length got + length xs ≡ size
      → Gives (Reads (got ++ xs) ys f) (read_loop io fuel big left size got f)
  unfolding read_loop
  read_loop-Reads fuel big zero size got xs ys f h u n = absurd (omega arith)
  read_loop-Reads fuel big (suc left) size got xs ys f h u n =
      let (rest, p, q) = split_prefix xs r.got ys (healthy.unread r.file) (sym u ∙ takes) counts in
      choose (Gives (Reads (got ++ xs) ys f))
        (ltb (length all) size && (not r.eof && r.interrupted)) _ _
        (λ more.
          Gives-mono _ _ _ (extend rest p)
            (read_loop-Reads fuel big left size all rest ys r.file (sooner more) q (sizes rest p)))
        (λ over.
          let e = finished rest p q over in
          (
            ap (λ l. got ++ l) (sym (p ∙ ap (λ l. r.got ++ l) e ∙ append-nil r.got)),
            q ∙ ap (λ l. l ++ ys) e,
            healthy.fread_patience wanted f,
          ))
    where
      wanted : ℕ
      wanted = size - length got

      r : Read F
      r = io.fread wanted f

      all : Bytes
      all = got ++ r.got

      takes : healthy.unread f ≡ r.got ++ healthy.unread r.file
      takes = healthy.fread_takes wanted f

      counts : length r.got ≤ length xs
      counts = let c = healthy.fread_count wanted f in omega arith

      sizes : (rest : Bytes) → xs ≡ r.got ++ rest → length all + length rest ≡ size
      sizes rest p =
          let l = ap length p in omega (arith, l, length-append r.got rest, length-append got r.got)

      extend :
          (rest : Bytes)
          → xs ≡ r.got ++ rest
          → (a : Bytes) (f' : F) → Reads (all ++ rest) ys r.file a f'
          → Reads (got ++ xs) ys f a f'
      extend rest p a f' (e, v, d) = (
        e ∙ append_assoc got r.got rest ∙ ap (λ l. got ++ l) (sym p),
        v,
        (let l = healthy.fread_patience wanted f in omega arith),
      )

      sooner :
          (ltb (length all) size && (not r.eof && r.interrupted)) ≡ true
          → healthy.patience r.file < left
      sooner more =
          let e : r.eof ≡ false = ground arith in
          let b : ltb (length all) size ≡ true = ground arith in
          let c : length all < size = ground arith in
          let l = length-append got r.got in
          let short : length r.got < wanted = omega arith in
          let d = (healthy.fread_short wanted f short e).1 in omega arith

      finished :
          (rest : Bytes)
          → xs ≡ r.got ++ rest
          → healthy.unread r.file ≡ rest ++ ys
          → (ltb (length all) size && (not r.eof && r.interrupted)) ≡ false
          → rest ≡ []
      finished rest p q over = elim (Bool-cases (ltb (length all) size)) [
        | inr full ↦
            let c : ¬ (length all < size) = λ z. ground arith in
            let l = sizes rest p in empty_of_length rest (omega arith)
        | inl less ↦ elim (Bool-cases r.eof) [
          | inl e ↦
              let z = ap length (sym (healthy.fread_eof wanted f e) ∙ q) in
              empty_of_length rest (omega (arith, length-append rest ys))
          | inr e ↦
              let c : length all < size = ground arith in
              let l = length-append got r.got in
              let short : length r.got < wanted = omega arith in
              let i = (healthy.fread_short wanted f short e).0 in absurd (ground arith)
        ]
      ]

  module _ (fuel : ℕ) (big : Bool) where
    pub files_write_bytes-Writes :
        (b : Bytes) (f : F)
        → healthy.patience f < fuel
        → Gives (Writes b f) (files_write_bytes io fuel big b f)
    unfolding files_write_bytes writex
    files_write_bytes-Writes b f h = write_loop-Writes fuel big fuel b f h

    pub files_write-Writes :
        (w v : ℕ) (f : F)
        → healthy.patience f < fuel
        → Gives (Writes (be_bytes w v) f) (files_write io fuel big w v f)
    unfolding files_write writex
    files_write-Writes w v f h =
        subst
          (λ b. Gives (Writes b f) (write_loop io fuel big fuel (mem_bytes big w (hton big w v)) f))
          (mem_bytes-hton big w v)
          (write_loop-Writes fuel big fuel (mem_bytes big w (hton big w v)) f h)

    files_read-exactly :
        {A : Type 0} (n : ℕ) (of : Bytes → A) (b rest : Bytes) (f : F)
        → healthy.patience f < fuel
        → length b ≡ n
        → healthy.unread f ≡ b ++ rest
        → Gives
            (Reads (of b) rest f)
            ((readx io fuel big n >>= λ got. check (length got == n) (of got)) f)
    unfolding readx
    files_read-exactly n of b rest f h e u =
        Gives-bind _ _ (readx io fuel big n) _ f
          (read_loop-Reads fuel big fuel n [] b rest f h u (omega arith))
          (λ got f' r. checked got f' r)
      where
        checked :
            (got : Bytes) (f' : F)
            → Reads b rest f got f'
            → Gives (Reads (of b) rest f) (check (length got == n) (of got) f')
        checked got f' (same, v, p) =
            let l : (length got == n) ≡ true = let k = ap length same in ground arith in
            rw l (ap of same, v, p)

    pub files_read_bytes-Reads :
        (n : ℕ) (b rest : Bytes) (f : F)
        → healthy.patience f < fuel
        → length b ≡ n
        → healthy.unread f ≡ b ++ rest
        → Gives (Reads b rest f) (files_read_bytes io fuel big n f)
    unfolding files_read_bytes
    files_read_bytes-Reads n b rest f h e u = files_read-exactly n (λ got. got) b rest f h e u

    pub files_read-Reads :
        (w v : ℕ) (rest : Bytes) (f : F)
        → healthy.patience f < fuel
        → v < byte_limit w
        → healthy.unread f ≡ be_bytes w v ++ rest
        → Gives (Reads v rest f) (files_read io fuel big w f)
    unfolding files_read
    files_read-Reads w v rest f h l u =
        subst (λ x. Gives (Reads x rest f) (files_read io fuel big w f)) (hton-mem_value big w v l)
          (files_read-exactly w (λ got. hton big w (mem_value big w got)) (be_bytes w v) rest f h
            (length-be_bytes w v) u)
