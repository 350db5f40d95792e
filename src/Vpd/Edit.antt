-- ===== src/Vpd/Edit.antt =====
-- The functions that change a VPD hunk: efx_vpd_hunk_reinit and efx_vpd_hunk_set. The buffer is
-- returned; a write that does not lie in it is a `fault`.
pub mod Reinit
pub mod Set
use gld.Base.{
  ℕ, zero, suc, ◌+◌, ◌-◌, ◌*◌, ◌/◌, ◌%◌, ◌^◌, Bool, true, false, not, ◌&&◌, ◌||◌, List, [], ◌∷◌,
  ◌++◌, length, take, drop, replicate, ltb, leb, ◌==◌, if◌then◌else◌, u8, u16, u32, sub8, Outcome,
  ok, err, fault, timeout, ◌>>=◌, ◌>>◌, fail_if, read_at, einval, enoent, enospc,
}
use gld.Vpd.{Tag, id, end, vpd_r, vpd_w, TagHead, Keyword, next_tag, next_keyword, rv_keyword}
use gld.Vpd.Hunk.{hunk_length, sum_bytes, same_tag}

-- memcpy(buf + at, src, length src)
pub write : List ℕ → ℕ → List ℕ → Outcome (List ℕ)
write buf at src =
    if leb (at + length src) (length buf)
    then ok (take at buf ++ src ++ drop (at + length src) buf)
    else fault

-- memmove(buf + dest, buf + source, n)
pub move : List ℕ → ℕ → ℕ → ℕ → Outcome (List ℕ)
unfolding write
move buf dest source n =
    if leb (source + n) (length buf) then write buf dest (take n (drop source buf)) else fault

-- __efx_vpd_blank_pid and __efx_vpd_blank_r
abbrev pub blank_pid : List ℕ
blank_pid = 0x82 ∷ 0x01 ∷ 0x00 ∷ 0x32 ∷ []

abbrev pub blank_r : List ℕ
blank_r = 0x90 ∷ 0x04 ∷ 0x00 ∷ b'R' ∷ b'V' ∷ 0x01 ∷ 0x00 ∷ []

-- The small item that ends a hunk.
abbrev pub end_tag : ℕ
end_tag = 0 * 2 ^ 7 + 0x0f * 2 ^ 3 + 0

-- The part of hunk_reinit behind the optional identifier string of `offset` bytes.
pub reinit_from : List ℕ → ℕ → Outcome (List ℕ)
unfolding write
reinit_from buf offset = do
  buf1 ← write buf offset blank_r
  let last = offset + 7
  cksum ← sum_bytes last buf1 0
  byte ← read_at buf1 (last - 1)
  buf2 ← write buf1 (last - 1) (sub8 byte cksum ∷ [])
  write buf2 last (end_tag ∷ [])

pub hunk_reinit : List ℕ → ℕ → Bool → Outcome (List ℕ)
unfolding reinit_from
hunk_reinit buf size wantpid =
    fail_if (ltb size 0x100) enospc
    >> (if wantpid
        then (write buf 0 blank_pid >>= λ buf1. reinit_from buf1 4)
        else reinit_from buf 0)

-- `efx_vpd_value_t`
pub record Value : Type 0 where
  pub tag : Tag
  pub keyword : ℕ
  pub length : ℕ
  pub value : List ℕ

-- The switch at the head of hunk_set.
pub check_value : Tag → Value → Outcome (Unit {0})
check_value id v = fail_if (not (v.keyword == 0)) einval >> fail_if (v.length == 0) einval
check_value vpd_r v = fail_if (v.keyword == rv_keyword) einval
check_value _ v = err einval

-- The first block with the value's tag, and where its header stands.
pub find_tag : ℕ → List ℕ → ℕ → ℕ → Tag → Outcome (ℕ × TagHead)
find_tag zero buf size offset tag = timeout
find_tag (suc f) buf size offset tag = next_tag buf size offset >>= λ t.
    let rest = find_tag f buf size (u32 (t.offset + t.taglen)) tag in
    elim (same_tag t.tag end) [
      | true ↦ err enoent
      | false ↦ elim (same_tag t.tag tag) [ true ↦ ok (offset, t) | false ↦ rest ]
    ]

-- The bytes behind the old keyword or tag, and behind the new one.
pub record Place : Type 0 where
  pub source : ℕ
  pub dest : ℕ
  pub pos : ℕ

-- `nothing_to_do` is the early return 0.
pub data Plan : Type 0 where
  nothing_to_do : Plan
  edit : Place → Plan

-- The loop over the keywords of the VPD-R block. Where it ends by its test, `source` and `dest`
-- are still 0.
pub find_keyword : ℕ → List ℕ → ℕ → ℕ → ℕ → Value → Outcome Plan
find_keyword zero buf offset taglen pos v = timeout
find_keyword (suc f) buf offset taglen pos v =
    let body = (do
      k ← next_keyword buf offset taglen pos
      let behind = u32 (offset + pos + 3 + k.keylen)
      let new_end = u32 (offset + pos + 3 + v.length)
      let rest = find_keyword f buf offset taglen (u32 (pos + 3 + k.keylen)) v
      if k.keyword == v.keyword && v.length == 0
          then ok (edit (record { source = behind; dest = u32 (offset + pos); pos = pos }))
          else if k.keyword == v.keyword
          then ok (edit (record { source = behind; dest = new_end; pos = pos }))
          else if k.keyword == rv_keyword
          then (if v.length == 0
              then ok nothing_to_do
              else ok (edit (record { source = u32 (offset + pos); dest = new_end; pos = pos })))
          else rest) in
    if pos == taglen then ok (edit (record { source = 0; dest = 0; pos = pos })) else body

pub plan_edit : Tag → List ℕ → TagHead → Value → Outcome Plan
unfolding find_keyword
plan_edit id buf t v = ok (
    edit (record { source = u32 (t.offset + t.taglen); dest = u32 (t.offset + v.length); pos = 0 }))
plan_edit _ buf t v = find_keyword (t.taglen + 1) buf t.offset t.taglen 0 v

-- The bytes of the value go just before `dest`.
pub put_value : List ℕ → ℕ → Value → Outcome (List ℕ)
unfolding write
put_value buf dest v =
    if ltb dest v.length || ltb (length v.value) v.length
    then fault
    else write buf (dest - v.length) (take v.length v.value)

pub put_header : List ℕ → ℕ → Tag → Value → Outcome (List ℕ)
unfolding write
put_header buf at id v = ok buf
put_header buf at _ v =
    if v.length == 0
    then ok buf
    else write buf at ((v.keyword % 256) ∷ (v.keyword / 256 % 256) ∷ v.length ∷ [])

-- From `check_space` to the new tag length.
pub apply_edit : List ℕ → ℕ → ℕ → TagHead → Place → Value → Outcome (List ℕ)
unfolding move put_value put_header
apply_edit buf size used t p v = do
  fail_if (ltb (size + p.source) (used + p.dest)) enospc
  buf1 ← move buf p.dest p.source (used - p.source)
  buf2 ← put_value buf1 p.dest v
  buf3 ← put_header buf2 (u32 (t.offset + p.pos)) t.tag v
  let taglen = u16 (t.taglen + 2 ^ 32 + p.dest - p.source)
  write buf3 (t.offset - 2) ((taglen % 256) ∷ (taglen / 256) ∷ [])

-- The checksum of a block: the first RV keyword gets the byte that makes the sum of all before and
-- itself 0.
pub fix_block : ℕ → List ℕ → ℕ → ℕ → ℕ → Outcome (List ℕ)
unfolding write
fix_block zero buf offset taglen pos = timeout
fix_block (suc f) buf offset taglen pos =
    let body = (do
      k ← next_keyword buf offset taglen pos
      let rest = fix_block f buf offset taglen (u32 (pos + 3 + k.keylen))
      let at = u32 (offset + pos + 3)
      if k.keyword == rv_keyword
          then (sum_bytes at buf 0 >>= λ cksum. write buf at (sub8 0 cksum ∷ []))
          else rest) in
    if pos == taglen then ok buf else body

-- The second walk over the tags, and the fill behind the end tag.
pub fix_tags : ℕ → List ℕ → ℕ → ℕ → Outcome (List ℕ)
unfolding fix_block
fix_tags zero buf size offset = timeout
fix_tags (suc f) buf size offset = next_tag buf size offset >>= λ t.
    let stop = u32 (t.offset + t.taglen) in
    elim t.tag [
      | end ↦ write buf (t.offset + t.taglen) (replicate (size - t.offset - t.taglen) 0xff)
      | vpd_r ↦ do
        buf1 ← fix_block (t.taglen + 1) buf t.offset t.taglen 0
        fix_tags f buf1 size stop
      | _ ↦ fix_tags f buf size stop
    ]

pub run_plan : List ℕ → ℕ → ℕ → TagHead → Value → Plan → Outcome (List ℕ)
unfolding apply_edit fix_tags
run_plan buf size used t v nothing_to_do = ok buf
run_plan buf size used t v (edit p) = do
  buf1 ← apply_edit buf size used t p v
  fix_tags (size + 1) buf1 size 0

pub hunk_set : List ℕ → ℕ → Value → Outcome (List ℕ)
unfolding check_value find_tag plan_edit run_plan
hunk_set buf size v = do
  check_value v.tag v
  used ← hunk_length buf size
  (taghead, t) ← find_tag (size + 1) buf size 0 v.tag
  fail_if (not (t.offset - taghead == 3)) einval
  plan ← plan_edit t.tag buf t v
  run_plan buf size used t v plan
