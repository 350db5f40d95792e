-- ===== src/Toeplitz/Connection.antt =====
-- The hash of a connection's addresses and ports is the Toeplitz hash of their bytes
-- (sfxge_hash.c, sfxge_toeplitz_hash).
use gld.Base.{
  ℕ, suc, ◌+◌, ◌^◌, ◌≤◌, ◌≡◌, refl, sym, ap, ◌∙◌, Bool, List, [], ◌∷◌, ◌++◌, length, drop,
  drop-drop, IsBytes, ◌==◌, ◌&&◌, Bool-cases, inl, inr, if◌then◌else◌, bit_xor, arith, ok, ◌>>=◌,
}
use gld.Base.Bits.{bit_xor_assoc, bit_xor-zero, zero-bit_xor}
use gld.Toeplitz.{
  toeplitz_cache_init, toeplitz_hash, port_bytes, hash_ports, hash_connection, gather,
}
use gld.Toeplitz.Window.{bits, toeplitz, slides}
use gld.Toeplitz.Gather.{toeplitz-low_bits, tails}
use gld.Toeplitz.Cached.{Entries, cache_from-Entries, toeplitz_hash-Entries}

tails-bits : (key : List ℕ) → tails 8 (bits key) ≡ bits (drop 1 key)
tails-bits [] = refl
tails-bits (x ∷ key) = refl

-- A part of the input uses the key from its own place on.
toeplitz-append :
    (xs ys key : List ℕ)
    → toeplitz (bits (xs ++ ys)) (bits key)
      ≡ bit_xor (toeplitz (bits xs) (bits key)) (toeplitz (bits ys) (bits (drop (length xs) key)))
toeplitz-append [] ys key = sym (zero-bit_xor _)
toeplitz-append (x ∷ xs) ys key =
    let first = gather (slides 7 (bits key)) x (2 ^ 7) 0 in
    let front = toeplitz (bits xs) (bits (drop 1 key)) in
    let behind = toeplitz (bits ys) (bits (drop (suc (length xs)) key)) in
    let along : (zs : List ℕ)
        → toeplitz (bits (x ∷ zs)) (bits key)
          ≡ bit_xor first (toeplitz (bits zs) (bits (drop 1 key))) =
      λ zs.
        toeplitz-low_bits 7 x (bits zs) (bits key)
        ∙ ap (λ (v : List Bool). bit_xor first (toeplitz (bits zs) v)) (tails-bits key) in
    let place : drop (length xs) (drop 1 key) ≡ drop (suc (length xs)) key =
      drop-drop 1 (length xs) key
      ∙ ap (λ (n : ℕ). drop n key) {y = suc (length xs)} (omega arith) in
    along (xs ++ ys)
    ∙ ap (bit_xor first) (
        toeplitz-append xs ys (drop 1 key)
        ∙ ap (λ (v : List ℕ). bit_xor front (toeplitz (bits ys) (bits v))) place)
    ∙ sym (bit_xor_assoc first front behind)
    ∙ ap (λ (n : ℕ). bit_xor n behind) (sym (along xs))

-- The bytes that are hashed for the ports: none where both are 0.
abbrev pub ports : (src_port dst_port : ℕ) → List ℕ
ports src_port dst_port =
    if (src_port == 0) && (dst_port == 0) then [] else (port_bytes src_port ++ port_bytes dst_port)

module _ (key cache : List ℕ) (entries : Entries 36 key cache) (long : 36 + 4 ≤ length key)
    (bytes : IsBytes key) where
  part :
      (input : List ℕ) (pos : ℕ)
      → IsBytes input
      → pos + length input ≤ 36
      → toeplitz_hash cache input pos 0 ≡ ok (toeplitz (bits input) (bits (drop pos key)))
  part input pos h fits =
      toeplitz_hash-Entries cache key 36 input pos 0 entries long bytes h fits
      ∙ ap ok (zero-bit_xor _)

  hash_ports_lem :
      (pos src_port dst_port hash : ℕ)
      → pos + 4 ≤ 36
      → hash_ports cache pos src_port dst_port hash
        ≡ ok (
            bit_xor hash
              (toeplitz (bits (port_bytes src_port ++ port_bytes dst_port)) (bits (drop pos key))))
  unfolding hash_ports
  hash_ports_lem pos src_port dst_port hash fits =
      let first = toeplitz (bits (port_bytes src_port)) (bits (drop pos key)) in
      let behind : toeplitz (bits (port_bytes src_port ++ port_bytes dst_port))
            (bits (drop pos key))
          ≡ bit_xor first (toeplitz (bits (port_bytes dst_port)) (bits (drop (pos + 2) key))) =
        toeplitz-append (port_bytes src_port) (port_bytes dst_port) (drop pos key)
        ∙ ap (λ (v : List ℕ). bit_xor first (toeplitz (bits (port_bytes dst_port)) (bits v)))
            (drop-drop pos 2 key) in
      rw
        (
          part (port_bytes src_port) pos (omega arith) (omega arith),
          part (port_bytes dst_port) (pos + 2) (omega arith) (omega arith),
        )
        (ap ok (bit_xor_assoc hash first _ ∙ ap (bit_xor hash) (sym behind)))

  -- What the code returns, from the hashes of the parts.
  hash_connection-Entries :
      (src dst : List ℕ) (src_port dst_port : ℕ)
      → IsBytes src
      → IsBytes dst
      → length dst ≡ length src
      → length src ≤ 16
      → hash_connection cache (length src) src src_port dst dst_port
        ≡ ok (toeplitz (bits (src ++ (dst ++ ports src_port dst_port))) (bits key))
  unfolding hash_connection
  hash_connection-Entries src dst src_port dst_port hs hd same fits =
      let n = length src in
      let T1 = toeplitz (bits src) (bits key) in
      let T2 = toeplitz (bits dst) (bits (drop n key)) in
      let rest = ports src_port dst_port in
      let T3 = toeplitz (bits rest) (bits (drop (n + n) key)) in
      let whole : toeplitz (bits (src ++ (dst ++ rest))) (bits key) ≡ bit_xor (bit_xor T1 T2) T3 =
        toeplitz-append src (dst ++ rest) key
        ∙ ap (bit_xor T1) (
            toeplitz-append dst rest (drop n key)
            ∙ ap (λ (v : List ℕ). bit_xor T2 (toeplitz (bits rest) (bits v)))
                (drop-drop n (length dst) key ∙ ap (λ (i : ℕ). drop (n + i) key) same))
        ∙ sym (bit_xor_assoc T1 T2 T3) in
      rw (part src 0 hs (omega arith), part dst n hd (omega arith), zero-bit_xor T1, whole)
        (elim (Bool-cases ((src_port == 0) && (dst_port == 0))) [
          | inl x ↦ rw x (ap ok (sym (bit_xor-zero (bit_xor T1 T2))))
          | inr x ↦ rw x (hash_ports_lem (n + n) src_port dst_port (bit_xor T1 T2) (omega arith))
        ])

-- sfxge_toeplitz_hash over the cache of toeplitz_cache_init. For a key of 40 bytes and two addresses
-- of the same length, at most 16 bytes, the cache is built inside the key and the hash inside the
-- cache; and the hash is the Toeplitz hash, one bit after the other with a window of 32 bits sliding
-- over the key, of the source address, the destination address and, unless both are 0, the two ports.
pub hash_connection-toeplitz :
    (key src dst : List ℕ) (src_port dst_port : ℕ)
    → length key ≡ 40
    → IsBytes key
    → IsBytes src
    → IsBytes dst
    → length dst ≡ length src
    → length src ≤ 16
    → (toeplitz_cache_init key >>= λ cache.
        hash_connection cache (length src) src src_port dst dst_port)
      ≡ ok (toeplitz (bits (src ++ (dst ++ ports src_port dst_port))) (bits key))
unfolding toeplitz_cache_init
hash_connection-toeplitz key src dst src_port dst_port long bytes hs hd same fits =
    let (cache, run, entries) = cache_from-Entries 36 key (omega arith) in
    rw run (
      hash_connection-Entries key cache entries (omega arith) bytes src dst src_port dst_port hs hd
        same fits)
