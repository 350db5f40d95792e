-- ===== src/License/Write.antt =====
-- Writing a V1 or V2 key at the end (common/efx_lic.c, efx_lic_v1v2_write_key).
use gld.Base.{
  ℕ, ◌+◌, ◌-◌, ◌^◌, ◌≤◌, ◌<◌, ◌≡◌, ◌⊎◌, inl, inr, refl, sym, ap, ◌∙◌, List, [], ◌∷◌, ◌++◌, enospc,
  length, length-replicate, take, drop, drop-append_exact, take-append_exact, drop-drop, replicate,
  ltb, le→ltb, lt→ltb, le→leb, Bool-cases, ltb→lt, ltb→le, u32, arith, ok, err,
}
use mathlib.Core.List.{append-nil}
use gld.Tlv.Segment.{overwrite}
use gld.License.V1v2.{write_key}
use gld.License.Keys.{lay, total, join, IsKeys, Stored, lay-Stored, sub64-le}
use gld.License.Layout.{
  lay-append, length-join, length-lay, total-append, drop-zeros, replicate-add,
}

module _ (ks : List (List ℕ)) (k : List ℕ) (z : ℕ) where
  abbrev blank : List ℕ
  blank = lay ks (replicate z 0)

  abbrev grown : List ℕ
  grown = lay (ks ++ (k ∷ [])) (replicate (z - length k) 0)

  length-blank : length blank ≡ total ks + 4 + z
  length-blank = omega (arith, length-lay ks (replicate z 0), length-replicate {A = ℕ} z 0)

  blank-split : blank ≡ join ks ++ lay [] (replicate z 0)
  blank-split =
      ap (λ (v : List (List ℕ)). lay v (replicate z 0)) (sym (append-nil ks))
      ∙ lay-append ks [] (replicate z 0)

  module _ (fits : length k ≤ z) where
    tail : drop (total ks + length k) blank ≡ lay [] (replicate (z - length k) 0)
    tail =
        let w : z ≡ length k + (z - length k) = omega arith in
        sym (drop-drop (total ks) (length k) blank)
        ∙ ap (drop (length k)) (
            rw (blank-split, ← length-join ks)
              (drop-append_exact (join ks) (lay [] (replicate z 0))))
        ∙ ap (λ (v : List ℕ). drop (length k) (0 ∷ 0 ∷ 0 ∷ 0 ∷ v))
            (ap (λ (i : ℕ). replicate i 0) w ∙ replicate-add (length k) (z - length k))
        ∙ drop-zeros (length k) (replicate (z - length k) 0)

    written : take (total ks) blank ++ (k ++ drop (total ks + length k) blank) ≡ grown
    written =
        let front : take (total ks) blank ≡ join ks =
          rw (blank-split, ← length-join ks) (take-append_exact (join ks) _) in
        rw (front, tail) (sym (lay-append ks (k ∷ []) (replicate (z - length k) 0)))

    adds :
        length blank < 2 ^ 32 → write_key blank (length blank) (total ks) k ≡ ok (grown, length k)
    unfolding write_key overwrite
    adds small =
        rw
          (
            sub64-le (length blank) 4 (omega (arith, length-blank)) small,
            (let w : u32 (total ks + length k) ≡ total ks + length k =
                  omega (arith, length-blank) in
                w),
            le→ltb (length blank - 4) (total ks + length k) (omega (arith, length-blank)),
            le→leb (total ks + length k) (length blank) (omega (arith, length-blank)),
            written,
          )
          refl

  full :
      z < length k
      → total ks + length k < 2 ^ 32
      → length blank < 2 ^ 32
      → write_key blank (length blank) (total ks) k ≡ err enospc
  unfolding write_key
  full h short small =
      rw
        (
          sub64-le (length blank) 4 (omega (arith, length-blank)) small,
          (let w : u32 (total ks + length k) ≡ total ks + length k = omega arith in w),
          lt→ltb (length blank - 4) (total ks + length k) (omega (arith, length-blank)),
        )
        refl

-- efx_lic_v1v2_write_key, at the terminator. In a buffer below 4 GB that holds the keys `ks`, a
-- terminator and `z` zeros, all keys being such that the code accepts them: where the new key is
-- longer than `z` the result is ENOSPC. Else it is the key's length; the buffer then holds `ks`, the
-- new key, a terminator and the zeros that are left; and the walk by find_key and read_key finds the
-- keys, with an end that is higher by that length.
pub write_key-Stored :
    (ks : List (List ℕ)) (k : List ℕ) (z : ℕ)
    → length (lay ks (replicate z 0)) < 2 ^ 32
    → total ks + length k < 2 ^ 32
    → IsKeys (ks ++ (k ∷ []))
    → ((z < length k)
        × (write_key (lay ks (replicate z 0)) (length (lay ks (replicate z 0))) (total ks) k
            ≡ err enospc))
      ⊎ ((b' : List ℕ) × (write_key
              (lay ks (replicate z 0))
              (length (lay ks (replicate z 0)))
              (total ks)
              k
            ≡ ok (b', length k))
          × (b' ≡ lay (ks ++ (k ∷ [])) (replicate (z - length k) 0))
          × Stored b' 0 (ks ++ (k ∷ [])) (total ks + 4 + length k))
write_key-Stored ks k z small short keys = elim (Bool-cases (ltb z (length k))) [
  | inl x ↦ inl (ltb→lt z (length k) x, full ks k z (ltb→lt z (length k) x) short small)
  | inr x ↦
      let fits = ltb→le z (length k) x in
      let w : 0 + total (ks ++ (k ∷ [])) + 4 ≡ total ks + 4 + length k =
        omega (arith, total-append ks (k ∷ [])) in
      let len : length (grown ks k z) < 2 ^ 32 = omega (
        arith,
        length-lay (ks ++ (k ∷ [])) (replicate (z - length k) 0),
        length-replicate {A = ℕ} (z - length k) 0,
        total-append ks (k ∷ []),
        length-blank ks k z,
      ) in
      inr (
        grown ks k z,
        adds ks k z fits small,
        refl,
        rw (← w) (lay-Stored (grown ks k z) 0 (ks ++ (k ∷ [])) _ len keys refl),
      )
]
