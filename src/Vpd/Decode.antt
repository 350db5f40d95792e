-- ===== src/Vpd/Decode.antt =====
-- What efx_vpd_next_tag and efx_vpd_next_keyword read of an encoding.
use gld.Base.{
  ℕ, ◌+◌, ◌/◌, ◌%◌, ◌^◌, ◌≤◌, ◌<◌, ◌≡◌, refl, sym, ap, ◌∙◌, some, List, [], ◌∷◌, ◌++◌, length,
  get_elem?, get_elem?-drop, take, drop, drop-drop, drop-append_exact, take-append_exact, arith,
  u32, ok,
}
use gld.Vpd.{Tag, id, end, vpd_r, tag_of, next_tag, next_keyword, keyword_of}
use gld.Vpd.Format.{Entry, encode_entry, encode_item, FitsEntry}

-- `get_elem?` behind a known suffix.
pub At-get {ℓ} :
    {A : Type ℓ} (n i : ℕ) (buf xs : List A)
    → drop n buf ≡ xs
    → get_elem? buf (n + i) ≡ get_elem? xs i
At-get n i buf xs h = sym (get_elem?-drop n i buf) ∙ ap (λ l. get_elem? l i) h

pub At-head {ℓ} :
    {A : Type ℓ} (n : ℕ) (x : A) (buf xs : List A) → drop n buf ≡ x ∷ xs → get_elem? buf n ≡ some x
At-head n x buf xs h = ap (get_elem? buf) (omega arith) ∙ At-get n 0 buf (x ∷ xs) h

pub At-skip {ℓ} :
    {A : Type ℓ} (n : ℕ) (buf xs ys : List A)
    → drop n buf ≡ xs ++ ys
    → drop (n + length xs) buf ≡ ys
At-skip n buf xs ys h =
    sym (drop-drop n (length xs) buf) ∙ ap (drop (length xs)) h ∙ drop-append_exact xs ys

pub At-take {ℓ} :
    {A : Type ℓ} (n : ℕ) (buf xs ys : List A)
    → drop n buf ≡ xs ++ ys
    → take (length xs) (drop n buf) ≡ xs
At-take n buf xs ys h = ap (take (length xs)) h ∙ take-append_exact xs ys

-- Behind the header of a large item stands its body.
pub At-body :
    (n name : ℕ) (buf body rest : List ℕ)
    → drop n buf ≡ encode_item name body ++ rest
    → drop (n + 3) buf ≡ body ++ rest
At-body n name buf body rest h =
    At-skip n buf ((128 + name) ∷ (length body % 256) ∷ (length body / 256) ∷ []) (body ++ rest) h

pub tag_of_ident : tag_of 0x02 ≡ some id
unfolding tag_of
tag_of_ident = refl

pub tag_of_read_only : tag_of 0x10 ≡ some vpd_r
unfolding tag_of
tag_of_read_only = refl

module _ (buf : List ℕ) (size : ℕ) (small : size < 2 ^ 32) where
  -- A large item is decoded to its tag and its length.
  pub next_tag-item :
      (offset name : ℕ) (t : Tag) (body rest : List ℕ)
      → tag_of name ≡ some t
      → name < 128
      → length body < 2 ^ 16
      → offset + 3 + length body ≤ size
      → drop offset buf ≡ encode_item name body ++ rest
      → next_tag buf size offset
        ≡ ok (record { tag = t; taglen = length body; offset = offset + 3 })
  unfolding next_tag
  next_tag-item offset name t body rest ht hn hl hs h =
      ground (
        arith,
        At-head offset (128 + name) buf _ h,
        At-get offset 1 buf _ h,
        At-get offset 2 buf _ h,
      )

  pub next_tag-end :
      (offset : ℕ) (rest : List ℕ)
      → offset + 1 ≤ size
      → drop offset buf ≡ 0x78 ∷ rest
      → next_tag buf size offset ≡ ok (record { tag = end; taglen = 0; offset = offset + 1 })
  unfolding next_tag
  next_tag-end offset rest hs h = ground (arith, At-head offset 0x78 buf _ h)

  -- A keyword is decoded to its two letters and the length of its payload.
  pub next_keyword-entry :
      (offset taglen pos : ℕ) (e : Entry) (rest : List ℕ)
      → FitsEntry e
      → taglen < 2 ^ 16
      → pos + length (encode_entry e) ≤ taglen
      → drop (offset + pos) buf ≡ encode_entry e ++ rest
      → next_keyword buf offset taglen pos
        ≡ ok (record { keyword = keyword_of e.x e.y; keylen = length e.payload })
  unfolding next_keyword
  next_keyword-entry offset taglen pos e rest f ht hp h = ground (
    arith,
    At-head (offset + pos) e.x buf _ h,
    ap (get_elem? buf) (let q : offset + u32 (pos + 1) ≡ offset + pos + 1 = omega arith in q)
        ∙ At-get (offset + pos) 1 buf _ h,
    ap (get_elem? buf) (let q : offset + u32 (pos + 2) ≡ offset + pos + 2 = omega arith in q)
        ∙ At-get (offset + pos) 2 buf _ h,
  )
