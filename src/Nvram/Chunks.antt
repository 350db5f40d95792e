-- ===== src/Nvram/Chunks.antt =====
-- Reading, erasing and writing a partition chunk by chunk (common/ef10_nvram.c).
use gld.Base.{
  ℕ, zero, suc, ◌+◌, ◌-◌, ◌^◌, ◌≤◌, ◌<◌, ◌≡◌, refl, sym, ap, ap₂, ◌∙◌, inl, inr, List, [], ◌∷◌,
  ◌++◌, length, length-append, length-take, length-drop, take, drop, take-append_exact,
  drop-append_exact, drop-drop, min, ◌==◌, ==_iff, ==→ne, Bool-cases, arith, ok, u32,
}
use mathlib.Core.List.{append_assoc}
use gld.Nvram.{Device, nvram_chunk, read_from}

-- `n` bytes from `o` on
abbrev pub part : ℕ → ℕ → List ℕ → List ℕ
part o n c = take n (drop o c)

-- The bytes with others in the place of as many at `o`.
abbrev pub patch : ℕ → List ℕ → List ℕ → List ℕ
patch o bs c = take o c ++ (bs ++ drop (o + length bs) c)

take-nil : (n : ℕ) → take {A = ℕ} n [] ≡ []
take-nil zero = refl
take-nil (suc n) = refl

part-append : (a b : ℕ) (c : List ℕ) → take a c ++ take b (drop a c) ≡ take (a + b) c
part-append zero b c = ap (λ k. take k c) (omega arith)
part-append (suc a) b [] = take-nil b ∙ sym (take-nil (suc a + b))
part-append (suc a) b (x ∷ c) =
    ap (λ (zs : List ℕ). x ∷ zs) (part-append a b c)
    ∙ ap (λ k. take k (x ∷ c)) (let z : suc (a + b) ≡ suc a + b = omega arith in z)

pub take-append_at : (n : ℕ) (xs ys : List ℕ) → length xs ≡ n → take n (xs ++ ys) ≡ xs
take-append_at n xs ys h = rw (← h) (take-append_exact xs ys)

pub drop-append_at : (n : ℕ) (xs ys : List ℕ) → length xs ≡ n → drop n (xs ++ ys) ≡ ys
drop-append_at n xs ys h = rw (← h) (drop-append_exact xs ys)

module _ (o : ℕ) (a c : List ℕ) (fits : o + length a ≤ length c) where
  abbrev front : List ℕ
  front = take o c ++ a

  length-front : length front ≡ o + length a
  length-front = omega (arith, length-append (take o c) a, length-take o c)

  patch-front : patch o a c ≡ front ++ drop (o + length a) c
  patch-front = sym (append_assoc (take o c) a (drop (o + length a) c))

  pub take-patch : take (o + length a) (patch o a c) ≡ front
  take-patch =
      ap (take (o + length a)) patch-front
      ∙ take-append_at (o + length a) front (drop (o + length a) c) length-front

  drop-patch : (k : ℕ) → drop (o + length a + k) (patch o a c) ≡ drop (o + length a + k) c
  drop-patch k =
      sym (drop-drop (o + length a) k (patch o a c))
      ∙ ap (drop k) (
          ap (drop (o + length a)) patch-front
          ∙ drop-append_at (o + length a) front (drop (o + length a) c) length-front)
      ∙ drop-drop (o + length a) k c

  pub length-patch : length (patch o a c) ≡ length c
  length-patch = omega (
    arith,
    length-append (take o c) (a ++ drop (o + length a) c),
    length-append a (drop (o + length a) c),
    length-take o c,
    length-drop (o + length a) c,
  )

  -- A patch behind a patch.
  pub patch-patch : (b : List ℕ) → patch (o + length a) b (patch o a c) ≡ patch o (a ++ b) c
  patch-patch b =
      ap₂ (λ (x : List ℕ) (y : List ℕ). x ++ (b ++ y)) take-patch (drop-patch (length b))
      ∙ append_assoc (take o c) a (b ++ drop (o + length a + length b) c)
      ∙ ap (λ (x : List ℕ). take o c ++ x)
          (sym (append_assoc a b (drop (o + length a + length b) c))
            ∙ ap (λ k. (a ++ b) ++ drop k c)
                (let z : o + length a + length b ≡ o + length (a ++ b) =
                    omega (arith, length-append a b) in
                  z))

module _ {S : Type 0} (dev : Device S) (content : S → List ℕ)
    (reads : (s : S) (o n : ℕ)
      → o + n ≤ length (content s)
      → dev.read s o n ≡ ok (part o n (content s))) where
  pub read_from-part :
      (n : ℕ) (s : S) (o size : ℕ)
      → size < n
      → o + size ≤ length (content s)
      → length (content s) < 2 ^ 32
      → read_from dev n s o size ≡ ok (part o size (content s))
  unfolding read_from
  read_from-part zero s o size f h k = absurd (omega arith)
  read_from-part (suc n) s o size f h k = elim (Bool-cases (size == 0)) [
    | inl x ↦ let z : size ≡ 0 = (==_iff size 0).0 x in rw (x, z) refl
    | inr x ↦
        let ne = ==→ne size 0 x in
        let c = min size nvram_chunk in
        let y : u32 (o + c) ≡ o + c = omega arith in
        rw
          (
            x,
            reads s o c (omega arith),
            y,
            read_from-part n s (o + c) (size - c) (omega (arith, ne)) (omega arith) k,
          )
          (ap ok (
            rw (← drop-drop o c (content s)) (part-append c (size - c) (drop o (content s)))
            ∙ ap (λ t. part o t (content s)) (let z : c + (size - c) ≡ size = omega arith in z)))
  ]
