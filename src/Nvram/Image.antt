-- ===== src/Nvram/Image.antt =====
-- What erasing and writing a partition leave on the device, and reading it back
-- (common/ef10_nvram.c).
use gld.Base.{
  ℕ, zero, suc, ◌+◌, ◌-◌, ◌%◌, ◌^◌, ◌≤◌, ◌<◌, ◌≡◌, refl, sym, ap, ◌∙◌, inl, inr, Bool, not, true,
  false, List, [], ◌∷◌, ◌++◌, length, length-append, length-take, length-drop, length-replicate,
  take, drop, replicate, take-append-drop, take-append_exact, min, ltb, ltb→lt, ltb→le, ◌==◌,
  ==_iff, ne→==, Bool-cases, if◌then◌else◌, arith, ok, ◌>>◌, >>=-eq-ok, ok_injective, fail_if,
  fail_if-eq-ok, u32, einval,
}
use mathlib.Core.List.{append_assoc}
use native.Mathlib.Nat.{mod-eq-sub-mod, mod-eq_of_lt}
use gld.Nvram.{
  Device, partn_read_mode, partn_read, erase_from, partn_erase, write_from, check_write_size,
  partn_write,
}
use gld.Nvram.Chunks.{
  part, patch, patch-patch, length-patch, take-append_at, drop-append_at, read_from-part,
}

replicate_add : (a b : ℕ) (x : ℕ) → replicate a x ++ replicate b x ≡ replicate (a + b) x
replicate_add zero b x = ap (λ n. replicate n x) (omega arith)
replicate_add (suc a) b x =
    ap (λ (zs : List ℕ). x ∷ zs) (replicate_add a b x)
    ∙ ap (λ n. replicate n x) (let z : suc (a + b) ≡ suc a + b = omega arith in z)

le_of_divides : (n k : ℕ) → 0 < n → n % k ≡ 0 → k ≤ n
le_of_divides n k h m = elim (Bool-cases (ltb n k)) [
  | inl x ↦ absurd (omega (arith, mod-eq_of_lt (ltb→lt n k x)))
  | inr x ↦ ltb→le n k x
]

patch-nothing : (o : ℕ) (c : List ℕ) → patch o [] c ≡ c
patch-nothing o c =
    ap (λ k. take o c ++ drop k c) (let z : o + 0 ≡ o = omega arith in z) ∙ take-append-drop o c

-- An image over a blank range.
image_and_blank :
    (size : ℕ) (bs c c1 : List ℕ)
    → length bs ≤ size
    → c1 ≡ patch 0 (replicate size 0xff) c
    → take size (patch 0 bs c1) ≡ bs ++ replicate (size - length bs) 0xff
image_and_blank size bs c c1 j e =
    let n = length bs in
    let b1 : List ℕ = replicate n 0xff in
    let b2 : List ℕ = replicate (size - n) 0xff in
    let back : List ℕ = drop (0 + length (replicate {A = ℕ} size 0xff)) c in
    let split : replicate size 0xff ≡ b1 ++ b2 =
      ap (λ (t : ℕ). replicate {A = ℕ} t 0xff) (let z : size ≡ n + (size - n) = omega arith in z)
      ∙ sym (replicate_add n (size - n) 0xff) in
    let whole : c1 ≡ b1 ++ (b2 ++ back) =
      e ∙ ap (λ (v : List ℕ). v ++ back) split ∙ append_assoc b1 b2 back in
    let rest : drop (0 + n) c1 ≡ b2 ++ back =
      ap (drop (0 + n)) whole
      ∙ drop-append_at (0 + n) b1 (b2 ++ back) (omega (arith, length-replicate {A = ℕ} n 0xff)) in
    ap (λ (v : List ℕ). take size (bs ++ v)) rest
    ∙ ap (take size) (sym (append_assoc bs b2 back))
    ∙ take-append_at size (bs ++ b2) back
        (omega (arith, length-append bs b2, length-replicate {A = ℕ} (size - n) 0xff))

module _ {S : Type 0} (dev : Device S) (content : S → List ℕ)
    (writes : (s s' : S) (o : ℕ) (bs : List ℕ)
      → dev.write s o bs ≡ ok s'
      → content s' ≡ patch o bs (content s))
    (erases : (s s' : S) (o n : ℕ)
      → dev.erase s o n ≡ ok s'
      → content s' ≡ patch o (replicate n 0xff) (content s)) where
  write_from-patch :
      (n : ℕ) (s s' : S) (w o : ℕ) (bs : List ℕ)
      → o + length bs ≤ length (content s)
      → length (content s) < 2 ^ 32
      → write_from dev n s w o bs ≡ ok s'
      → content s' ≡ patch o bs (content s)
  unfolding write_from
  write_from-patch zero s s' w o bs h k e = cc
  write_from-patch (suc n) s s' w o [] h k e =
      ap content (sym (ok_injective e)) ∙ sym (patch-nothing o (content s))
  write_from-patch (suc n) s s' w o (b ∷ bs) h k e =
      let bytes = b ∷ bs in
      let c = min (length bytes) w in
      let e' = rw (ne→== (length bytes) 0 (omega arith)) at e in
      let (s1, wrote, rest) = >>=-eq-ok (dev.write s o (take c bytes)) _ e' in
      let here = writes s s1 o (take c bytes) wrote in
      let len : length (take c bytes) ≡ c = omega (arith, length-take c bytes) in
      let a = take c bytes in
      let z : u32 (o + c) ≡ o + length a = omega arith in
      let rest' : write_from dev n s1 w (o + length a) (drop c bytes) ≡ ok s' =
        ap (λ (p : ℕ). write_from dev n s1 w p (drop c bytes)) (sym z) ∙ rest in
      let fits : o + length a ≤ length (content s) = omega arith in
      let same : length (content s1) ≡ length (content s) =
        ap length here ∙ length-patch o a (content s) fits in
      write_from-patch n s1 s' w (o + length a) (drop c bytes) (omega (arith, length-drop c bytes))
        (omega arith) rest'
      ∙ ap (patch (o + length a) (drop c bytes)) here
      ∙ patch-patch o a (content s) fits (drop c bytes)
      ∙ ap (λ (v : List ℕ). patch o v (content s)) (take-append-drop c bytes)

  erase_from-patch :
      (n : ℕ) (s s' : S) (es o size : ℕ)
      → o + size ≤ length (content s)
      → length (content s) < 2 ^ 32
      → size % es ≡ 0
      → erase_from dev n s es o size ≡ ok s'
      → content s' ≡ patch o (replicate size 0xff) (content s)
  unfolding erase_from
  erase_from-patch zero s s' es o size h k m e = cc
  erase_from-patch (suc n) s s' es o zero h k m e =
      ap content (sym (ok_injective e)) ∙ sym (patch-nothing o (content s))
  erase_from-patch (suc n) s s' es o (suc r) h k m e =
      let size = suc r in
      let e' = rw (ne→== size 0 (omega arith)) at e in
      let (s1, erased, rest) = >>=-eq-ok (dev.erase s o es) _ e' in
      let here = erases s s1 o es erased in
      let a : List ℕ = replicate es 0xff in
      let len : length a ≡ es = length-replicate {A = ℕ} es 0xff in
      let small : es ≤ size = le_of_divides size es (omega arith) m in
      let z : u32 (o + es) ≡ o + length a = omega arith in
      let rest' : erase_from dev n s1 es (o + length a) (size - es) ≡ ok s' =
        ap (λ (p : ℕ). erase_from dev n s1 es p (size - es)) (sym z) ∙ rest in
      let fits : o + length a ≤ length (content s) = omega arith in
      let same : length (content s1) ≡ length (content s) =
        ap length here ∙ length-patch o a (content s) fits in
      erase_from-patch n s1 s' es (o + length a) (size - es) (omega arith) (omega arith)
        (sym (mod-eq-sub-mod {n = size} {m = es} small) ∙ m) rest'
      ∙ ap (patch (o + length a) (replicate (size - es) 0xff)) here
      ∙ patch-patch o a (content s) fits (replicate (size - es) 0xff)
      ∙ ap (λ (v : List ℕ). patch o v (content s))
          (replicate_add es (size - es) 0xff
            ∙ ap (λ t. replicate t 0xff) (let y : es + (size - es) ≡ size = omega arith in y))

  partn_write-patch :
      (s s' : S) (o : ℕ) (bs : List ℕ)
      → o + length bs ≤ length (content s)
      → length (content s) < 2 ^ 32
      → partn_write dev s o bs ≡ ok s'
      → content s' ≡ patch o bs (content s)
  unfolding partn_write
  partn_write-patch s s' o bs h k e =
      let (i, _, e1) = >>=-eq-ok (dev.info s) _ e in
      let (w, _, e2) = >>=-eq-ok (check_write_size i.write_size (length bs)) _ e1 in
      write_from-patch (suc (length bs)) s s' w o bs h k e2

  erase_sectors :
      (s s' : S) (o size es : ℕ)
      → o + size ≤ length (content s)
      → length (content s) < 2 ^ 32
      → (if es == 0
          then dev.erase s o size
          else (fail_if (not (size % es == 0)) einval >> erase_from dev (suc size) s es o size))
        ≡ ok s'
      → content s' ≡ patch o (replicate size 0xff) (content s)
  erase_sectors s s' o size es h k e = elim (Bool-cases (es == 0)) [
    | inl x ↦ erases s s' o size (rw x at e)
    | inr x ↦
        let e1 = rw x at e in
        let (u, c, run) = >>=-eq-ok (fail_if (not (size % es == 0)) einval) _ e1 in
        let z : size % es ≡ 0 = (==_iff (size % es) 0).0 (not-false _ (fail_if-eq-ok _ einval c)) in
        erase_from-patch (suc size) s s' es o size h k z run
  ]
    where
      not-false : (b : Bool) → not b ≡ false → b ≡ true
      not-false true p = refl
      not-false false p = cc

  partn_erase-patch :
      (s s' : S) (o size : ℕ)
      → o + size ≤ length (content s)
      → length (content s) < 2 ^ 32
      → partn_erase dev s o size ≡ ok s'
      → content s' ≡ patch o (replicate size 0xff) (content s)
  unfolding partn_erase
  partn_erase-patch s s' o size h k e =
      let (i, _, run) = >>=-eq-ok (dev.info s) _ e in erase_sectors s s' o size i.erase_size h k run

  module _
      (reads : (s : S) (o n : ℕ)
        → o + n ≤ length (content s)
        → dev.read s o n ≡ ok (part o n (content s))) where
    -- Erasing a partition, writing an image at its start and reading as many bytes back, over a
    -- device of less than 4 GB whose read, write and erase commands do what they say on the range
    -- they are given: where the erase and the write succeed the read returns the image, and the rest
    -- of what was erased reads as 0xff.
    pub partn_write-partn_read :
        (s s1 s2 : S) (size : ℕ) (bs : List ℕ)
        → size ≤ length (content s)
        → length bs ≤ size
        → length (content s) < 2 ^ 32
        → partn_erase dev s 0 size ≡ ok s1
        → partn_write dev s1 0 bs ≡ ok s2
        → (partn_read dev s2 0 (length bs) ≡ ok bs)
          × (partn_read dev s2 0 size ≡ ok (bs ++ replicate (size - length bs) 0xff))
    unfolding partn_read partn_read_mode
    partn_write-partn_read s s1 s2 size bs h j k erased wrote =
        let blank : List ℕ = replicate size 0xff in
        let len : length blank ≡ size = length-replicate {A = ℕ} size 0xff in
        let c1 = partn_erase-patch s s1 0 size (omega arith) k erased in
        let l1 = ap length c1 ∙ length-patch 0 blank (content s) (omega arith) in
        let c2 = partn_write-patch s1 s2 0 bs (omega arith) (omega arith) wrote in
        let l2 = ap length c2 ∙ length-patch 0 bs (content s1) (omega arith) in
        let reader = λ (n : ℕ) (p : n ≤ length (content s2)).
          read_from-part dev content reads (suc n) s2 0 n (omega arith) (omega arith)
            (omega arith) in
        (
          reader (length bs) (omega arith)
              ∙ ap ok (
                  ap (take (length bs)) c2
                  ∙ take-append_exact bs (drop (0 + length bs) (content s1))),
          reader size (omega arith)
              ∙ ap ok (ap (take size) c2 ∙ image_and_blank size bs (content s) (content s1) j c1),
        )
