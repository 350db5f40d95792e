-- ===== src/Vpd/Hunk.antt =====
-- The walks over a VPD hunk that change nothing: efx_vpd_hunk_length, _verify, _next and _get.
-- A `while (1)` over the tags has `size + 1` rounds of fuel, a loop over the keywords of a block
-- `taglen + 1`: each round moves on by at least one byte.
pub mod Length
pub mod Lookup
pub mod Safety
pub mod Verify
use gld.Base.{
  ℕ, zero, suc, ◌+◌, min, Bool, true, false, not, List, [], ◌∷◌, ◌==◌, if◌then◌else◌, u8, u32,
  Outcome, ok, err, fault, timeout, ◌>>=◌, ◌>>◌, fail_if, efault, enoent,
}
use gld.Vpd.{Tag, id, end, vpd_r, vpd_w, TagHead, Keyword, next_tag, next_keyword, rv_keyword}

-- efx_vpd_hunk_length from `offset` on
pub length_from : ℕ → List ℕ → ℕ → ℕ → Outcome ℕ
length_from zero buf size offset = timeout
length_from (suc f) buf size offset = next_tag buf size offset >>= λ t.
    let stop = u32 (t.offset + t.taglen) in
    elim t.tag [ end ↦ ok stop | _ ↦ length_from f buf size stop ]

pub hunk_length : List ℕ → ℕ → Outcome ℕ
hunk_length buf size = length_from (size + 1) buf size 0

-- `for (i = 0; i < n; i++) cksum += data[i];`
unfoldable pub sum_bytes : ℕ → List ℕ → ℕ → Outcome ℕ
sum_bytes zero buf cksum = ok cksum
sum_bytes (suc n) [] cksum = fault
sum_bytes (suc n) (x ∷ buf) cksum = sum_bytes n buf (u8 (cksum + x))

-- What efx_vpd_hunk_verify does with one keyword: is it the checksum, and a correct one?
unfoldable pub check_keyword : List ℕ → ℕ → ℕ → Outcome Bool
check_keyword buf last keyword =
    if keyword == rv_keyword
    then (sum_bytes last buf 0 >>= λ cksum. fail_if (not (cksum == 0)) efault >> ok true)
    else ok false

unfoldable pub verify_keywords : ℕ → List ℕ → ℕ → ℕ → ℕ → Bool → Outcome Bool
verify_keywords zero buf offset taglen pos cksummed = timeout
verify_keywords (suc f) buf offset taglen pos cksummed =
    let body = (do
      fail_if cksummed efault
      k ← next_keyword buf offset taglen pos
      cksummed' ← check_keyword buf (u32 (offset + pos + 4)) k.keyword
      verify_keywords f buf offset taglen (u32 (pos + 3 + k.keylen)) cksummed') in
    if pos == taglen then ok cksummed else body

-- The body of a loop over the tags, by the tag met; `more` goes on behind the block.
unfoldable pub verify_block : Tag → List ℕ → TagHead → Bool → (Bool → Outcome Bool) → Outcome Bool
verify_block end buf t cksummed more = ok cksummed
verify_block id buf t cksummed more = more cksummed
verify_block _ buf t cksummed more =
    verify_keywords (t.taglen + 1) buf t.offset t.taglen 0 cksummed >>= more

unfoldable pub verify_tags : ℕ → List ℕ → ℕ → ℕ → Bool → Outcome Bool
unfolding verify_block
verify_tags zero buf size offset cksummed = timeout
verify_tags (suc f) buf size offset cksummed = next_tag buf size offset >>= λ t.
    verify_block t.tag buf t cksummed (λ c. verify_tags f buf size (u32 (t.offset + t.taglen)) c)

unfoldable pub hunk_verify : List ℕ → ℕ → Outcome Bool
hunk_verify buf size = do
  cksummed ← verify_tags (size + 1) buf size 0 false
  fail_if (not cksummed) efault
  ok cksummed

-- The keyword that a loop over a block stops at, or the number of keywords met so far.
pub data Search : Type 0 where
  found : Keyword → ℕ → ℕ → Search
  missed : ℕ → Search

pub next_in_block : ℕ → List ℕ → ℕ → ℕ → ℕ → ℕ → ℕ → Outcome Search
next_in_block zero buf offset taglen pos index cont = timeout
next_in_block (suc f) buf offset taglen pos index cont =
    let body = (do
      k ← next_keyword buf offset taglen pos
      let rest = next_in_block f buf offset taglen (u32 (pos + 3 + k.keylen)) (u32 (index + 1)) cont
      if index == cont then ok (found k pos (u32 (index + 1))) else rest) in
    if pos == taglen then ok (missed index) else body

-- The out parameters of efx_vpd_hunk_next; `cont` is the new `*contp`.
pub record Item : Type 0 where
  pub tag : Tag
  pub keyword : ℕ
  pub payload : ℕ
  pub paylen : ℕ
  pub cont : ℕ

abbrev pub item_of : ℕ → (ℕ → Outcome Item) → Search → Outcome Item
item_of offset more (found k pos index) = ok (record {
  tag = vpd_r;
  keyword = k.keyword;
  payload = u32 (offset + pos + 3);
  paylen = k.keylen;
  cont = index;
})
item_of offset more (missed index) = more index

pub next_block : Tag → List ℕ → TagHead → ℕ → ℕ → (ℕ → Outcome Item) → Outcome Item
next_block end buf t index cont more =
    ok (record { tag = end; keyword = 0; payload = t.offset; paylen = 0; cont = 0 })
next_block id buf t index cont more =
    if index == cont
    then ok (record {
      tag = id;
      keyword = 0;
      payload = t.offset;
      paylen = min t.taglen 0xff;
      cont = u32 (index + 1);
    })
    else more (u32 (index + 1))
next_block _ buf t index cont more =
    next_in_block (t.taglen + 1) buf t.offset t.taglen 0 index cont >>= item_of t.offset more

pub next_from : ℕ → List ℕ → ℕ → ℕ → ℕ → ℕ → Outcome Item
unfolding next_block
next_from zero buf size offset index cont = timeout
next_from (suc f) buf size offset index cont = next_tag buf size offset >>= λ t.
    next_block t.tag buf t index cont (λ i. next_from f buf size (u32 (t.offset + t.taglen)) i cont)

pub hunk_next : List ℕ → ℕ → ℕ → Outcome Item
hunk_next buf size cont = next_from (size + 1) buf size 0 0 cont

pub get_in_block : ℕ → List ℕ → ℕ → ℕ → ℕ → ℕ → Outcome Search
get_in_block zero buf offset taglen pos keyword = timeout
get_in_block (suc f) buf offset taglen pos keyword =
    let body = (do
      k ← next_keyword buf offset taglen pos
      let rest = get_in_block f buf offset taglen (u32 (pos + 3 + k.keylen)) keyword
      if k.keyword == keyword then ok (found k pos 0) else rest) in
    if pos == taglen then ok (missed 0) else body

-- EFX_VPD_RW in `tag` matches no block.
abbrev pub same_tag : Tag → Tag → Bool
same_tag id id = true
same_tag vpd_r vpd_r = true
same_tag end end = true
same_tag vpd_w vpd_w = true
same_tag _ _ = false

-- `*payloadp` and `*paylenp`
abbrev pub payload_of : ℕ → Outcome (ℕ × ℕ) → Search → Outcome (ℕ × ℕ)
payload_of offset more (found k pos _) = ok (u32 (offset + pos + 3), k.keylen)
payload_of offset more (missed _) = more

pub get_block : Tag → List ℕ → TagHead → Tag → ℕ → Outcome (ℕ × ℕ) → Outcome (ℕ × ℕ)
get_block end buf t tag keyword more = err enoent
get_block id buf t tag keyword more =
    if same_tag id tag then ok (t.offset, min t.taglen 0xff) else more
get_block itag buf t tag keyword more =
    if same_tag itag tag
    then (get_in_block (t.taglen + 1) buf t.offset t.taglen 0 keyword >>= payload_of t.offset more)
    else more

pub get_from : ℕ → List ℕ → ℕ → ℕ → Tag → ℕ → Outcome (ℕ × ℕ)
unfolding get_block
get_from zero buf size offset tag keyword = timeout
get_from (suc f) buf size offset tag keyword = next_tag buf size offset >>= λ t.
    let rest = get_from f buf size (u32 (t.offset + t.taglen)) tag keyword in
    get_block t.tag buf t tag keyword rest

pub hunk_get : List ℕ → ℕ → Tag → ℕ → Outcome (ℕ × ℕ)
hunk_get buf size tag keyword = get_from (size + 1) buf size 0 tag keyword
