-- ===== src/Bootcfg/Image.antt =====
-- The chunks of efx_bootcfg_write are the parts of one sector (common/efx_bootcfg.c).
use gld.Base.{
  ℕ, zero, suc, ◌+◌, ◌-◌, ◌≤◌, ◌<◌, ◌≡◌, refl, sym, ap, ◌∙◌, List, [], ◌∷◌, ◌++◌, take, drop, set,
  replicate, length, get_or, length-set, length-append, length-take, length-replicate, min, ne→==,
  sub8, u8, sum, arith,
}
use gld.Bootcfg.{chunk_at}

-- The sector that a write is to leave: the used bytes with the checksum taken off the first, and
-- zeros up to its end.
abbrev pub image : List ℕ → ℕ → ℕ → ℕ → List ℕ
image buf used checksum sector =
    let bytes = take used buf ++ replicate (sector - used) 0 in
    set bytes 0 (sub8 (get_or bytes 0 0) checksum)

-- The part of a list from `o` on, `n` long.
abbrev pub part : ℕ → ℕ → List ℕ → List ℕ
part o n xs = take n (drop o xs)

part-replicate : (o n z : ℕ) → o + n ≤ z → part o n (replicate z 0) ≡ replicate n 0
part-replicate zero zero z h = refl
part-replicate zero (suc n) zero h = absurd (omega arith)
part-replicate zero (suc n) (suc z) h = ap (λ l. 0 ∷ l) (part-replicate zero n z (omega arith))
part-replicate (suc o) n zero h = absurd (omega arith)
part-replicate (suc o) n (suc z) h = part-replicate o n z (omega arith)

part-used :
    (buf : List ℕ) (used o n z : ℕ)
    → used ≤ length buf
    → o + n ≤ used + z
    → part o n (take used buf ++ replicate z 0)
      ≡ take (min n (used - o)) (drop o buf) ++ replicate (n - min n (used - o)) 0
part-used buf zero o n z h k =
    let none_left : min n (0 - o) ≡ 0 = omega arith in
    let all : n ≡ n - 0 = omega arith in
    part-replicate o n z (omega arith) ∙ rw none_left (ap (λ (k : ℕ). replicate k 0) all)
part-used [] (suc used) o n z h k = absurd (omega arith)
part-used (x ∷ buf) (suc used) zero zero z h k =
    rw (let q : min 0 (suc used - 0) ≡ 0 = omega arith in q) refl
part-used (x ∷ buf) (suc used) zero (suc n) z h k =
    let q : min (suc n) (suc used - 0) ≡ suc (min n (used - 0)) = omega arith in
    let r : suc n - suc (min n (used - 0)) ≡ n - min n (used - 0) = omega arith in
    rw (q, r) (ap (λ l. x ∷ l) (part-used buf used zero n z (omega arith) (omega arith)))
part-used (x ∷ buf) (suc used) (suc o) n z h k =
    rw (let q : suc used - suc o ≡ used - o = omega arith in q)
      (part-used buf used o n z (omega arith) (omega arith))

part-set_first : (xs : List ℕ) (o n v : ℕ) → part (suc o) n (set xs 0 v) ≡ part (suc o) n xs
part-set_first [] o n v = refl
part-set_first (x ∷ xs) o n v = refl

take-set_first : (xs : List ℕ) (n v : ℕ) → take n (set xs 0 v) ≡ set (take n xs) 0 v
take-set_first [] zero v = refl
take-set_first [] (suc n) v = refl
take-set_first (x ∷ xs) zero v = refl
take-set_first (x ∷ xs) (suc n) v = refl

get_or-take_first : (n : ℕ) (xs : List ℕ) → 0 < n → get_or (take n xs) 0 0 ≡ get_or xs 0 0
get_or-take_first zero xs h = absurd (omega arith)
get_or-take_first (suc n) [] h = refl
get_or-take_first (suc n) (x ∷ xs) h = refl

pub take_all : (n : ℕ) (xs : List ℕ) → length xs ≡ n → take n xs ≡ xs
take_all zero [] h = refl
take_all zero (x ∷ xs) h = absurd (omega (arith, h))
take_all (suc n) [] h = refl
take_all (suc n) (x ∷ xs) h = ap (λ l. x ∷ l) (take_all n xs (omega (arith, h)))

pub take-take_drop : (xs : List ℕ) (o n : ℕ) → take (o + n) xs ≡ take o xs ++ part o n xs
take-take_drop xs zero n = ap (λ (k : ℕ). take k xs) (omega arith)
take-take_drop [] (suc o) zero = rw (let q : suc o + 0 ≡ suc o = omega arith in q) refl
take-take_drop [] (suc o) (suc n) =
    rw (let q : suc o + suc n ≡ suc (o + suc n) = omega arith in q) refl
take-take_drop (x ∷ xs) (suc o) n =
    rw (let q : suc o + n ≡ suc (o + n) = omega arith in q)
      (ap (λ l. x ∷ l) (take-take_drop xs o n))

-- A chunk is its part of the sector.
pub chunk_at-part :
    (buf : List ℕ) (used checksum sector o n : ℕ)
    → used ≤ length buf
    → used ≤ sector
    → o + n ≤ sector
    → 0 < n
    → chunk_at buf used checksum o n ≡ part o n (image buf used checksum sector)
unfolding chunk_at
chunk_at-part buf used checksum sector zero n h u k p =
    let bytes = take used buf ++ replicate (sector - used) 0 in
    let e = part-used buf used zero n (sector - used) h (omega arith) in
    let v = sub8 (get_or bytes 0 0) checksum in
    ap (λ c. set c 0 (sub8 (get_or c 0 0) checksum)) (sym e)
    ∙ ap (λ g. set (take n bytes) 0 (sub8 g checksum)) (get_or-take_first n bytes p)
    ∙ sym (take-set_first bytes n v)
chunk_at-part buf used checksum sector (suc o) n h u k p =
    let bytes = take used buf ++ replicate (sector - used) 0 in
    let v = sub8 (get_or bytes 0 0) checksum in
    rw (ne→== (suc o) 0 (λ z. omega (arith, z))) (
      sym
        (part-set_first bytes o n v ∙ part-used buf used (suc o) n (sector - used) h (omega arith)))

pub length-image :
    (buf : List ℕ) (used checksum sector : ℕ)
    → used ≤ length buf
    → used ≤ sector
    → length (image buf used checksum sector) ≡ sector
length-image buf used checksum sector h u =
    let bytes = take used buf ++ replicate (sector - used) 0 in
    length-set bytes 0 (sub8 (get_or bytes 0 0) checksum)
    ∙ omega (
      arith,
      length-append (take used buf) (replicate (sector - used) 0),
      length-take used buf,
      length-replicate {A = ℕ} (sector - used) 0,
      h,
      u,
    )

sum-replicate : (z : ℕ) → sum (replicate z 0) ≡ 0
sum-replicate zero = refl
sum-replicate (suc z) = let ih = sum-replicate z in omega (arith, ih)

sum-append : (xs ys : List ℕ) → sum (xs ++ ys) ≡ sum xs + sum ys
sum-append [] ys = omega arith
sum-append (x ∷ xs) ys = let ih = sum-append xs ys in omega (arith, ih)

sum-set : (xs : List ℕ) (v : ℕ) → 0 < length xs → sum (set xs 0 v) + get_or xs 0 0 ≡ sum xs + v
sum-set [] v h = absurd (omega arith)
sum-set (x ∷ xs) v h = omega arith

-- The sector with the checksum of its used bytes taken off sums to 0.
pub image-sums :
    (buf : List ℕ) (used sector : ℕ)
    → 0 < used
    → used ≤ length buf
    → used ≤ sector
    → u8 (sum (image buf used (u8 (sum (take used buf))) sector)) ≡ 0
image-sums buf used sector p h u =
    let zeros = replicate (sector - used) 0 in
    let bytes = take used buf ++ zeros in
    let v = sub8 (get_or bytes 0 0) (u8 (sum (take used buf))) in
    let all = sum-append (take used buf) zeros in
    let none_left = sum-replicate (sector - used) in
    let some_left : 0 < length bytes =
      omega (arith, length-append (take used buf) zeros, length-take used buf, p, h) in
    let changed = sum-set bytes v some_left in omega (arith, all, none_left, changed)
