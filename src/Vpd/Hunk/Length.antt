-- ===== src/Vpd/Hunk/Length.antt =====
-- efx_vpd_hunk_length on the encoding of a list of blocks.
use gld.Base.{
  ℕ, zero, suc, ◌+◌, ◌^◌, ◌≤◌, ◌<◌, ◌≡◌, refl, ap, ◌∙◌, List, [], ◌∷◌, ◌++◌, length, drop,
  length-append, arith, u32, ok,
}
use mathlib.Core.List.{append_assoc}
use gld.Vpd.{id, vpd_r}
use gld.Vpd.Hunk.{length_from, hunk_length}
use gld.Vpd.Decode.{At-skip, next_tag-item, next_tag-end, tag_of_read_only, tag_of_ident}
use gld.Vpd.Format.{
  Block, ident, read_only, encode_entries, encode_block, encode_blocks, All, FitsBlock,
}

module _ (buf : List ℕ) (size : ℕ) (small : size < 2 ^ 32) where
  length_from-blocks :
      (f offset : ℕ) (bs : List Block) (rest : List ℕ)
      → All FitsBlock bs
      → offset + length (encode_blocks bs) ≤ size
      → size < f + offset
      → drop offset buf ≡ encode_blocks bs ++ rest
      → length_from f buf size offset ≡ ok (offset + length (encode_blocks bs))
  unfolding length_from
  length_from-blocks zero offset bs rest fit hs hf h = absurd (omega arith)
  length_from-blocks (suc f) offset [] rest fit hs hf h =
      rw (next_tag-end buf size small offset rest hs h) (ap ok (omega arith))
  length_from-blocks (suc f) offset (ident p ∷ bs) rest fit hs hf h =
      let total = length-append (encode_block (ident p)) (encode_blocks bs) in
      let split = h ∙ append_assoc (encode_block (ident p)) (encode_blocks bs) rest in
      let stop : u32 (offset + 3 + length p) ≡ offset + length (encode_block (ident p)) =
        omega (arith, total) in
      let ih =
        length_from-blocks f (offset + length (encode_block (ident p))) bs rest fit.1
          (omega (arith, total)) (omega arith)
          (At-skip offset buf (encode_block (ident p)) (encode_blocks bs ++ rest) split) in
      rw
        (
          next_tag-item buf size small offset 0x02 id p (encode_blocks bs ++ rest) tag_of_ident
              (omega arith) fit.0 (omega (arith, total)) split,
          stop,
        )
        (ih ∙ ap ok (omega (arith, total)))
  length_from-blocks (suc f) offset (read_only es ∷ bs) rest fit hs hf h =
      let total = length-append (encode_block (read_only es)) (encode_blocks bs) in
      let split = h ∙ append_assoc (encode_block (read_only es)) (encode_blocks bs) rest in
      let stop : u32 (offset + 3 + length (encode_entries es))
          ≡ offset + length (encode_block (read_only es)) =
        omega (arith, total) in
      let ih =
        length_from-blocks f (offset + length (encode_block (read_only es))) bs rest fit.1
          (omega (arith, total)) (omega arith)
          (At-skip offset buf (encode_block (read_only es)) (encode_blocks bs ++ rest) split) in
      rw
        (
          next_tag-item buf size small offset 0x10 vpd_r (encode_entries es)
              (encode_blocks bs ++ rest) tag_of_read_only (omega arith) fit.0.0
              (omega (arith, total)) split,
          stop,
        )
        (ih ∙ ap ok (omega (arith, total)))

-- hunk_length of an encoding of blocks that fit their lengths, followed by any bytes, is the length
-- of the encoding, with a `size` below 2 ^ 32 that covers it.
pub hunk_length-encode :
    (bs : List Block) (rest : List ℕ) (size : ℕ)
    → All FitsBlock bs
    → length (encode_blocks bs) ≤ size
    → size < 2 ^ 32
    → hunk_length (encode_blocks bs ++ rest) size ≡ ok (length (encode_blocks bs))
unfolding hunk_length
hunk_length-encode bs rest size fit hs small =
    length_from-blocks (encode_blocks bs ++ rest) size small (size + 1) 0 bs rest fit (omega arith)
      (omega arith) refl
    ∙ ap ok (omega arith)
