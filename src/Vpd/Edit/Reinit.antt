-- ===== src/Vpd/Edit/Reinit.antt =====
-- efx_vpd_hunk_reinit: the bytes that it writes, and that they verify.
use gld.Base.{
  sym, ltb, ltb→le, if◌then◌else◌, Bool-cases, inl, inr, ok_injective, ℕ, suc, ◌+◌, ◌-◌, ◌^◌, ◌≤◌,
  ◌<◌, ◌≡◌, refl, ap, ◌∙◌, Bool, true, false, List, [], ◌∷◌, ◌++◌, length, drop, drop-drop,
  length-drop, take, arith, u32, le→leb, le→ltb, ok, err, enospc,
}
use gld.Vpd.{vpd_r, id, keyword_of}
use gld.Vpd.Format.{Block, ident, read_only, encode_block, encode_blocks}
use gld.Vpd.Hunk.{sum_bytes, check_keyword, verify_keywords, verify_tags, hunk_verify}
use gld.Vpd.Decode.{
  At-body, At-skip, next_tag-item, next_tag-end, next_keyword-entry, tag_of_read_only, tag_of_ident,
}
use gld.Vpd.Edit.{write, hunk_reinit, reinit_from, blank_pid, blank_r, end_tag}

-- The checksum keyword of a reinitialised hunk.
abbrev pub checksum : ℕ → Block
checksum c = read_only (record { x = b'R'; y = b'V'; payload = c ∷ [] } ∷ [])

-- What a reinitialised hunk holds.
abbrev pub fresh : Bool → List Block
fresh true = ident (0x32 ∷ []) ∷ checksum 0x0e ∷ []
fresh false = checksum 0xc3 ∷ []

write_fits :
    (buf : List ℕ) (at : ℕ) (src : List ℕ)
    → at + length src ≤ length buf
    → write buf at src ≡ ok (take at buf ++ src ++ drop (at + length src) buf)
unfolding write
write_fits buf at src h = rw (le→leb (at + length src) (length buf) h)

-- The blank VPD-R block, its checksum and the end tag, behind the identifier string or at the start.
reinit_from-pid :
    (xs : List ℕ)
    → 8 ≤ length xs
    → reinit_from (0x82 ∷ 0x01 ∷ 0x00 ∷ 0x32 ∷ xs) 4 ≡ ok (encode_blocks (fresh true) ++ drop 8 xs)
unfolding reinit_from sum_bytes
reinit_from-pid xs h =
    rw
      (
        write_fits (blank_pid ++ xs) 4 blank_r (omega arith),
        write_fits (blank_pid ++ blank_r ++ drop 7 xs) 10 (0x0e ∷ [])
            (omega (arith, length-drop 7 xs)),
        write_fits (encode_block (ident (0x32 ∷ [])) ++ encode_block (checksum 0x0e) ++ drop 7 xs)
            11 (end_tag ∷ []) (omega (arith, length-drop 7 xs)),
        drop-drop 7 1 xs,
      )
      refl

reinit_from-start :
    (xs : List ℕ) → 8 ≤ length xs → reinit_from xs 0 ≡ ok (encode_blocks (fresh false) ++ drop 8 xs)
unfolding reinit_from sum_bytes
reinit_from-start xs h =
    rw
      (
        write_fits xs 0 blank_r (omega arith),
        write_fits (blank_r ++ drop 7 xs) 6 (0xc3 ∷ []) (omega (arith, length-drop 7 xs)),
        write_fits (encode_block (checksum 0xc3) ++ drop 7 xs) 7 (end_tag ∷ [])
            (omega (arith, length-drop 7 xs)),
        drop-drop 7 1 xs,
      )
      refl

hunk_reinit_bytes :
    (buf : List ℕ) (size : ℕ) (wantpid : Bool)
    → 0x100 ≤ size
    → size ≤ length buf
    → hunk_reinit buf size wantpid
      ≡ ok (encode_blocks (fresh wantpid) ++ drop (length (encode_blocks (fresh wantpid))) buf)
unfolding hunk_reinit
hunk_reinit_bytes buf size true h fits =
    rw (le→ltb size 0x100 h, write_fits buf 0 blank_pid (omega arith))
      (reinit_from-pid (drop 4 buf) (omega (arith, length-drop 4 buf))
        ∙ ap (λ xs. ok (encode_blocks (fresh true) ++ xs)) (drop-drop 4 8 buf))
hunk_reinit_bytes buf size false h fits =
    rw (le→ltb size 0x100 h) (reinit_from-start buf (omega arith))

-- A fresh hunk behind `at` bytes of identifier, seen by hunk_verify.
verify_keywords-checksum :
    (f : ℕ) (c : ℕ) (buf rest : List ℕ) (size offset : ℕ)
    → size < 2 ^ 32
    → offset + 4 ≤ size
    → drop offset buf ≡ b'R' ∷ b'V' ∷ 1 ∷ c ∷ rest
    → sum_bytes (offset + 4) buf 0 ≡ ok 0
    → verify_keywords (suc (suc f)) buf offset 4 0 false ≡ ok true
unfolding verify_keywords check_keyword keyword_of
verify_keywords-checksum f c buf rest size offset small hs h z =
    rw
      (
        next_keyword-entry buf size small offset 4 0
            (record { x = b'R'; y = b'V'; payload = c ∷ [] }) rest (omega arith) (omega arith)
            (omega arith)
            (ap (λ n. drop n buf) (let q : offset + 0 ≡ offset = omega arith in q) ∙ h),
        (let q : u32 (offset + 0 + 4) ≡ offset + 4 = omega arith in q),
        z,
      )
      refl

verify_tags-checksum :
    (f : ℕ) (c : ℕ) (buf rest : List ℕ) (size offset : ℕ)
    → size < 2 ^ 32
    → offset + 8 ≤ size
    → drop offset buf ≡ encode_blocks (checksum c ∷ []) ++ rest
    → sum_bytes (offset + 7) buf 0 ≡ ok 0
    → verify_tags (suc (suc f)) buf size offset false ≡ ok true
unfolding verify_tags
verify_tags-checksum f c buf rest size offset small hs h z =
    let body = At-body offset 0x10 buf (b'R' ∷ b'V' ∷ 1 ∷ c ∷ []) (0x78 ∷ rest) h in
    let q : u32 (offset + 3 + 4) ≡ offset + 7 = omega arith in
    rw
      (
        next_tag-item buf size small offset 0x10 vpd_r (b'R' ∷ b'V' ∷ 1 ∷ c ∷ []) (0x78 ∷ rest)
            tag_of_read_only (omega arith) (omega arith) (omega arith) h,
        verify_keywords-checksum 3 c buf (0x78 ∷ rest) size (offset + 3) small (omega arith) body (
            ap (λ n. sum_bytes n buf 0) (let r : offset + 3 + 4 ≡ offset + 7 = omega arith in r)
            ∙ z),
        q,
        next_tag-end buf size small (offset + 7) rest (omega arith)
            (At-skip offset buf (0x90 ∷ 4 ∷ 0 ∷ b'R' ∷ b'V' ∷ 1 ∷ c ∷ []) (0x78 ∷ rest) h),
      )
      refl

verify_ident :
    (f : ℕ) (buf : List ℕ) (size : ℕ) (rest : List ℕ)
    → size < 2 ^ 32
    → 0x100 ≤ size
    → buf ≡ encode_blocks (fresh true) ++ rest
    → verify_tags (suc f) buf size 0 false ≡ verify_tags f buf size 4 false
unfolding verify_tags
verify_ident f buf size rest small h e =
    rw
      (next_tag-item buf size small 0 0x02 id (0x32 ∷ [])
        (encode_blocks (checksum 0x0e ∷ []) ++ rest) tag_of_ident (omega arith) (omega arith)
        (omega arith) e)
      refl

verify-fresh :
    (wantpid : Bool) (rest : List ℕ) (size : ℕ)
    → 0x100 ≤ size
    → size < 2 ^ 32
    → hunk_verify (encode_blocks (fresh wantpid) ++ rest) size ≡ ok true
unfolding hunk_verify sum_bytes
verify-fresh true rest size h small =
    let buf = encode_blocks (fresh true) ++ rest in
    let fuel : size + 1 ≡ suc (suc (suc (size - 2))) = omega arith in
    rw (fuel, verify_ident (suc (suc (size - 2))) buf size rest small h refl)
      (rw (verify_tags-checksum (size - 2) 0x0e buf rest size 4 small (omega arith) refl refl) refl)
verify-fresh false rest size h small =
    let fuel : size + 1 ≡ suc (suc (size - 1)) = omega arith in
    rw
      (
        fuel,
        verify_tags-checksum (size - 1) 0xc3 (encode_blocks (fresh false) ++ rest) rest size 0 small
            (omega arith) refl refl,
      )
      refl

pub hunk_reinit_lem :
    (buf : List ℕ) (size : ℕ) (wantpid : Bool)
    → size ≤ length buf
    → hunk_reinit buf size wantpid ≡ (
        if ltb size 0x100
        then err enospc
        else ok
            (encode_blocks (fresh wantpid) ++ drop (length (encode_blocks (fresh wantpid))) buf))
unfolding hunk_reinit
hunk_reinit_lem buf size wantpid fits = elim (Bool-cases (ltb size 0x100)) [
  | inl e ↦ rw e refl
  | inr e ↦ hunk_reinit_bytes buf size wantpid (ltb→le size 0x100 e) fits ∙ rw e refl
]

-- What hunk_reinit returns is as long as the buffer, and hunk_verify accepts it and reports a
-- checksum, if the buffer holds `size` bytes and `size` is below 2 ^ 32.
pub hunk_verify-reinit :
    (buf : List ℕ) (size : ℕ) (wantpid : Bool) {buf' : List ℕ}
    → size ≤ length buf
    → size < 2 ^ 32
    → hunk_reinit buf size wantpid ≡ ok buf'
    → (length buf' ≡ length buf) × (hunk_verify buf' size ≡ ok true)
hunk_verify-reinit buf size wantpid {buf'} fits small e =
    let known = sym (hunk_reinit_lem buf size wantpid fits) ∙ e in
    elim (Bool-cases (ltb size 0x100)) [
      | inl l ↦ let q : err enospc ≡ ok buf' = sym (rw l refl) ∙ known in cc
      | inr l ↦
          let out =
            encode_blocks (fresh wantpid) ++ drop (length (encode_blocks (fresh wantpid))) buf in
          let same : out ≡ buf' = ok_injective (sym (rw l refl) ∙ known) in
          (
            ap length (sym same) ∙ out_length wantpid (ltb→le size 0x100 l),
            ap (λ b. hunk_verify b size) (sym same)
                ∙ verify-fresh wantpid _ size (ltb→le size 0x100 l) small,
          )
    ]
  where
    out_length :
        (w : Bool)
        → 0x100 ≤ size
        → length (encode_blocks (fresh w) ++ drop (length (encode_blocks (fresh w))) buf)
          ≡ length buf
    out_length true l = omega (arith, length-drop 12 buf)
    out_length false l = omega (arith, length-drop 8 buf)
