-- ===== src/License/Layout.antt =====
-- Equations on the bytes of a list of V1 and V2 keys (common/efx_lic.c).
use gld.Base.{
  ℕ, zero, suc, ◌+◌, ◌≡◌, refl, sym, ap, ◌∙◌, List, [], ◌∷◌, ◌++◌, length, length-append,
  length-replicate, take, drop, drop-append_exact, replicate, arith,
}
use mathlib.Core.List.{append_assoc}
use gld.License.Keys.{lay, total, join, IsKeys}

pub lay-append :
    (ks ls : List (List ℕ)) (rest : List ℕ) → lay (ks ++ ls) rest ≡ join ks ++ lay ls rest
lay-append [] ls rest = refl
lay-append (k ∷ ks) ls rest =
    ap (λ (v : List ℕ). k ++ v) (lay-append ks ls rest)
    ∙ sym (append_assoc k (join ks) (lay ls rest))

pub length-join : (ks : List (List ℕ)) → length (join ks) ≡ total ks
length-join [] = refl
length-join (k ∷ ks) = omega (arith, length-append k (join ks), length-join ks)

pub length-lay :
    (ks : List (List ℕ)) (rest : List ℕ) → length (lay ks rest) ≡ total ks + 4 + length rest
length-lay [] rest = omega arith
length-lay (k ∷ ks) rest = omega (arith, length-append k (lay ks rest), length-lay ks rest)

pub total-append : (ks ls : List (List ℕ)) → total (ks ++ ls) ≡ total ks + total ls
total-append [] ls = omega arith
total-append (k ∷ ks) ls = omega (arith, total-append ks ls)

pub IsKeys-append : (ks ls : List (List ℕ)) → IsKeys ks → IsKeys ls → IsKeys (ks ++ ls)
IsKeys-append [] ls h g = g
IsKeys-append (k ∷ ks) ls (h, hs) g = (h, IsKeys-append ks ls hs g)

pub IsKeys-split : (ks ls : List (List ℕ)) → IsKeys (ks ++ ls) → IsKeys ks × IsKeys ls
IsKeys-split [] ls h = (tt, h)
IsKeys-split (k ∷ ks) ls (h, hs) = let (a, b) = IsKeys-split ks ls hs in ((h, a), b)

pub take-append : (xs ys : List ℕ) (n : ℕ) → take (length xs + n) (xs ++ ys) ≡ xs ++ take n ys
take-append [] ys n = ap (λ (i : ℕ). take i ys) (omega arith)
take-append (x ∷ xs) ys n =
    ap (λ (i : ℕ). take i (x ∷ (xs ++ ys)))
      (let z : suc (length xs) + n ≡ suc (length xs + n) = omega arith in z)
    ∙ ap (λ (v : List ℕ). x ∷ v) (take-append xs ys n)

-- The keys and the terminator, with other bytes behind.
pub lay-take :
    (ks : List (List ℕ)) (rest tail : List ℕ)
    → take (total ks + 4) (lay ks rest) ++ tail ≡ lay ks tail
lay-take [] rest tail = refl
lay-take (k ∷ ks) rest tail =
    ap (λ (i : ℕ). take i (k ++ lay ks rest) ++ tail)
      (let z : length k + total ks + 4 ≡ length k + (total ks + 4) = omega arith in z)
    ∙ ap (λ (v : List ℕ). v ++ tail) (take-append k (lay ks rest) (total ks + 4))
    ∙ append_assoc k (take (total ks + 4) (lay ks rest)) tail
    ∙ ap (λ (v : List ℕ). k ++ v) (lay-take ks rest tail)

zeros_shift : (n : ℕ) (xs : List ℕ) → 0 ∷ (replicate n 0 ++ xs) ≡ replicate n 0 ++ (0 ∷ xs)
zeros_shift zero xs = refl
zeros_shift (suc n) xs = ap (λ (v : List ℕ). 0 ∷ v) (zeros_shift n xs)

-- The zeros behind a terminator serve as the next one.
pub drop-zeros :
    (n : ℕ) (xs : List ℕ) → drop n (0 ∷ 0 ∷ 0 ∷ 0 ∷ (replicate n 0 ++ xs)) ≡ 0 ∷ 0 ∷ 0 ∷ 0 ∷ xs
drop-zeros n xs =
    rw
      (
        zeros_shift n xs,
        zeros_shift n (0 ∷ xs),
        zeros_shift n (0 ∷ 0 ∷ xs),
        zeros_shift n (0 ∷ 0 ∷ 0 ∷ xs),
      )
      (ap (λ (i : ℕ). drop i (replicate n 0 ++ (0 ∷ 0 ∷ 0 ∷ 0 ∷ xs))) (sym (length-replicate n 0))
        ∙ drop-append_exact (replicate n 0) (0 ∷ 0 ∷ 0 ∷ 0 ∷ xs))

pub replicate-add : (n m : ℕ) → replicate {A = ℕ} (n + m) 0 ≡ replicate n 0 ++ replicate m 0
replicate-add zero m = ap (λ (i : ℕ). replicate i 0) (omega arith)
replicate-add (suc n) m =
    ap (λ (i : ℕ). replicate i 0) (let z : suc n + m ≡ suc (n + m) = omega arith in z)
    ∙ ap (λ (v : List ℕ). 0 ∷ v) (replicate-add n m)
