-- ===== src/License/Delete.antt =====
-- Deleting a V1 or V2 key (common/efx_lic.c, efx_lic_v1v2_delete_key).
use gld.Base.{
  ℕ, ◌+◌, ◌-◌, ◌^◌, ◌<◌, ◌≡◌, refl, sym, ap, ◌∙◌, List, ◌∷◌, ◌++◌, length, length-take, length-drop,
  take, drop, drop-append_exact, take-append_exact, drop-drop, le→leb, u32, arith, ok,
}
use gld.Tlv.Segment.{overwrite, memmove}
use gld.License.V1v2.{delete_key}
use gld.License.Keys.{lay, total, join, IsKeys, Stored, lay-Stored}
use gld.License.Layout.{
  lay-append, length-join, length-lay, total-append, IsKeys-append, IsKeys-split, lay-take,
}

module _ (ks ls : List (List ℕ)) (k rest : List ℕ) where
  abbrev b : List ℕ
  b = lay (ks ++ (k ∷ ls)) rest

  abbrev o : ℕ
  o = total ks

  split : b ≡ join ks ++ (k ++ lay ls rest)
  split = lay-append ks (k ∷ ls) rest

  front : take o b ≡ join ks
  front = rw (split, ← length-join ks) (take-append_exact (join ks) (k ++ lay ls rest))

  behind : drop (o + length k) b ≡ lay ls rest
  behind =
      sym (drop-drop o (length k) b)
      ∙ ap (drop (length k))
          (rw (split, ← length-join ks) (drop-append_exact (join ks) (k ++ lay ls rest)))
      ∙ drop-append_exact k (lay ls rest)

  length-whole : length b ≡ o + length k + total ls + 4 + length rest
  length-whole = omega (arith, length-lay (ks ++ (k ∷ ls)) rest, total-append ks (k ∷ ls))

  module _ (small : length b < 2 ^ 32) (keys : IsKeys ks) (more : IsKeys ls) where
    abbrev end : ℕ
    end = total (ks ++ (k ∷ ls)) + 4

    abbrev left : List ℕ
    left = lay (ks ++ ls) (drop (o + (total ls + 4)) b)

    moved :
        take o b ++ (take (total ls + 4) (drop (o + length k) b) ++ drop (o + (total ls + 4)) b)
        ≡ left
    moved =
        rw (front, behind, lay-take ls rest (drop (o + (total ls + 4)) b))
          (sym (lay-append ks ls (drop (o + (total ls + 4)) b)))

    runs : delete_key b (length b) o (length k) end ≡ ok (left, length k)
    unfolding delete_key memmove overwrite
    runs =
        let n = total ls + 4 in
        let len : length (take n (drop (o + length k) b)) ≡ n = omega (
          arith,
          length-take n (drop (o + length k) b),
          length-drop (o + length k) b,
          length-whole,
        ) in
        rw
          (
            (let z : u32 (o + length k) ≡ o + length k = omega (arith, length-whole) in z),
            (let z : u32 (end + 2 ^ 32 - (o + length k)) ≡ n =
                  omega (arith, total-append ks (k ∷ ls), length-whole) in
                z),
            le→leb (o + length k + n) (length b) (omega (arith, length-whole)),
            len,
            le→leb (o + n) (length b) (omega (arith, length-whole)),
            moved,
          )
          refl

    pub same_length : length left ≡ length b
    same_length = omega (
      arith,
      length-lay (ks ++ ls) (drop (o + (total ls + 4)) b),
      total-append ks ls,
      length-drop (o + (total ls + 4)) b,
      length-whole,
    )

    deleted : Stored left 0 (ks ++ ls) (end - length k)
    deleted =
        let z : 0 + total (ks ++ ls) + 4 ≡ end - length k =
          omega (arith, total-append ks ls, total-append ks (k ∷ ls)) in
        rw (← z) (
          lay-Stored left 0 (ks ++ ls) _ (omega (arith, same_length))
            (IsKeys-append ks ls keys more) refl)

-- efx_lic_v1v2_delete_key. In a buffer below 4 GB that holds the keys `ks`, a key `k`, the keys `ls`
-- and a terminator, with any bytes behind, all of them keys that the code accepts: deleting `k`
-- succeeds with the key's length as the delta, and the walk by find_key and read_key over the result
-- finds `ks` and `ls`, with an end that is lower by the delta. The buffer keeps its length.
pub delete_key-Stored :
    (ks ls : List (List ℕ)) (k rest : List ℕ)
    → length (lay (ks ++ (k ∷ ls)) rest) < 2 ^ 32
    → IsKeys (ks ++ (k ∷ ls))
    → (b' : List ℕ) × (delete_key
          (lay (ks ++ (k ∷ ls)) rest)
          (length (lay (ks ++ (k ∷ ls)) rest))
          (total ks)
          (length k)
          (total (ks ++ (k ∷ ls)) + 4)
        ≡ ok (b', length k))
      × (length b' ≡ length (lay (ks ++ (k ∷ ls)) rest))
      × Stored b' 0 (ks ++ ls) (total (ks ++ (k ∷ ls)) + 4 - length k)
delete_key-Stored ks ls k rest small keys =
    let (front_keys, (_, more)) = IsKeys-split ks (k ∷ ls) keys in
    (
      left ks ls k rest small front_keys more,
      runs ks ls k rest small front_keys more,
      same_length ks ls k rest small front_keys more,
      deleted ks ls k rest small front_keys more,
    )
