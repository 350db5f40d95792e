-- ===== src/Toeplitz/Cached.antt =====
-- The hash that is put together from the cache is the Toeplitz hash (sfxge_hash.c).
use gld.Base.{
  read_at-get, ℕ, zero, suc, ◌+◌, ◌*◌, ◌^◌, ◌≤◌, ◌<◌, ◌≡◌, refl, sym, ap, ◌∙◌, List, [], ◌∷◌, ◌++◌,
  some, get_elem?, get_elem?-append_left, get_elem?-append_at, length, drop, length-drop, drop-drop,
  IsBytes, bit_xor, arith, ok,
}
use gld.Base.Bits.{bit_xor_assoc, bit_xor-zero}
use gld.Toeplitz.{gather, windows, word_be, row_from, cache_from, toeplitz_hash}
use gld.Toeplitz.Window.{bits, toeplitz, slides, window-word, windows-slides}
use gld.Toeplitz.Gather.{toeplitz-low_bits}

-- The windows of the key's first byte.
abbrev pub key_windows : List ℕ → List ℕ
key_windows (a ∷ b ∷ c ∷ d ∷ e ∷ key) = windows 7 (word_be a b c d) e (2 ^ 7)
key_windows key = []

abbrev pub entry : (key : List ℕ) → (byte : ℕ) → ℕ
entry key byte = gather (key_windows key) byte (2 ^ 7) 0

toeplitz-byte :
    (key input : List ℕ) (byte : ℕ)
    → IsBytes key
    → 5 ≤ length key
    → toeplitz (bits (byte ∷ input)) (bits key)
      ≡ bit_xor (entry key byte) (toeplitz (bits input) (bits (drop 1 key)))
toeplitz-byte [] input byte bytes h = absurd (omega arith)
toeplitz-byte (a ∷ []) input byte bytes h = absurd (omega arith)
toeplitz-byte (a ∷ b ∷ []) input byte bytes h = absurd (omega arith)
toeplitz-byte (a ∷ b ∷ c ∷ []) input byte bytes h = absurd (omega arith)
toeplitz-byte (a ∷ b ∷ c ∷ d ∷ []) input byte bytes h = absurd (omega arith)
toeplitz-byte (a ∷ b ∷ c ∷ d ∷ e ∷ key) input byte (ha, (hb, (hc, (hd, rest)))) h =
    let K = bits (a ∷ b ∷ c ∷ d ∷ e ∷ key) in
    let w : windows 7 (word_be a b c d) e (2 ^ 7) ≡ slides 7 K =
      windows-slides 7 (word_be a b c d) e K (sym (window-word a b c d (e ∷ key) (ha, hb, hc, hd)))
        (refl, (refl, (refl, (refl, (refl, (refl, (refl, tt))))))) in
    toeplitz-low_bits 7 byte (bits input) K
    ∙ ap
        (λ (v : List ℕ).
          bit_xor (gather v byte (2 ^ 7) 0) (toeplitz (bits input) (bits (b ∷ c ∷ d ∷ e ∷ key))))
        (sym w)

row_from-get :
    (n byte i : ℕ) (ks : List ℕ)
    → i < n
    → get_elem? (row_from n byte ks) i ≡ some (gather ks (byte + i) (2 ^ 7) 0)
unfolding row_from
row_from-get zero byte i ks h = absurd (omega arith)
row_from-get (suc n) byte zero ks h = ap (λ (b : ℕ). some (gather ks b (2 ^ 7) 0)) (omega arith)
row_from-get (suc n) byte (suc i) ks h =
    row_from-get n (byte + 1) i ks (omega arith)
    ∙ ap (λ (b : ℕ). some (gather ks b (2 ^ 7) 0)) (omega arith)

length-row_from : (n byte : ℕ) (ks : List ℕ) → length (row_from n byte ks) ≡ n
unfolding row_from
length-row_from zero byte ks = refl
length-row_from (suc n) byte ks = ap suc (length-row_from n (byte + 1) ks)

-- A row in front: `g` is what the rows held before, `f` what they hold with it.
row-get :
    (ks rows : List ℕ) (n : ℕ) (f g : ℕ → ℕ → ℕ)
    → ((byte : ℕ) → f 0 byte ≡ gather ks byte (2 ^ 7) 0)
    → ((pos byte : ℕ) → f (suc pos) byte ≡ g pos byte)
    → ((pos byte : ℕ)
        → pos < n
        → byte < 256
        → get_elem? rows (pos * 256 + byte) ≡ some (g pos byte))
    → (pos byte : ℕ) → pos < suc n
    → byte < 256
    → get_elem? (row_from 256 0 ks ++ rows) (pos * 256 + byte) ≡ some (f pos byte)
row-get ks rows n f g first later more zero byte p q =
    let row = row_from 256 0 ks in
    let z : 0 * 256 + byte ≡ byte = omega arith in
    let b : 0 + byte ≡ byte = omega arith in
    ap (get_elem? (row ++ rows)) z
    ∙ get_elem?-append_left row rows byte (omega (arith, length-row_from 256 0 ks))
    ∙ row_from-get 256 0 byte ks q
    ∙ ap (λ (i : ℕ). some (gather ks i (2 ^ 7) 0)) b
    ∙ ap some (sym (first byte))
row-get ks rows n f g first later more (suc pos) byte p q =
    let row = row_from 256 0 ks in
    let z : suc pos * 256 + byte ≡ 256 + (pos * 256 + byte) = omega arith in
    ap (get_elem? (row ++ rows)) z
    ∙ get_elem?-append_at row rows 256 (pos * 256 + byte) (length-row_from 256 0 ks)
    ∙ more pos byte (omega arith) q
    ∙ ap some (sym (later pos byte))

cache_from-suc :
    (n a b c d e : ℕ) (key rows : List ℕ)
    → cache_from n (b ∷ c ∷ d ∷ e ∷ key) ≡ ok rows
    → cache_from (suc n) (a ∷ b ∷ c ∷ d ∷ e ∷ key)
      ≡ ok (row_from 256 0 (key_windows (a ∷ b ∷ c ∷ d ∷ e ∷ key)) ++ rows)
unfolding cache_from
cache_from-suc n a b c d e key rows run = rw run refl

cache_from-zero : (key : List ℕ) → cache_from 0 key ≡ ok []
unfolding cache_from
cache_from-zero key = refl

-- Each entry of the cache, by its position and its byte.
abbrev pub Entries : (n : ℕ) → (key cache : List ℕ) → Type 0
Entries n key cache =
    (pos byte : ℕ)
    → pos < n
    → byte < 256
    → get_elem? cache (pos * 256 + byte) ≡ some (entry (drop pos key) byte)

pub cache_from-Entries :
    (n : ℕ) (key : List ℕ)
    → n + 4 ≤ length key
    → (cache : List ℕ) × (cache_from n key ≡ ok cache) × Entries n key cache
cache_from-Entries zero key h = ([], cache_from-zero key, λ pos byte p b. absurd (omega arith))
cache_from-Entries (suc n) [] h = absurd (omega arith)
cache_from-Entries (suc n) (a ∷ []) h = absurd (omega arith)
cache_from-Entries (suc n) (a ∷ b ∷ []) h = absurd (omega arith)
cache_from-Entries (suc n) (a ∷ b ∷ c ∷ []) h = absurd (omega arith)
cache_from-Entries (suc n) (a ∷ b ∷ c ∷ d ∷ []) h = absurd (omega arith)
cache_from-Entries (suc n) (a ∷ b ∷ c ∷ d ∷ e ∷ key) h =
    let key' = b ∷ c ∷ d ∷ e ∷ key in
    let (rows, run, more) = cache_from-Entries n key' (omega arith) in
    (
      row_from 256 0 (key_windows (a ∷ key')) ++ rows,
      cache_from-suc n a b c d e key rows run,
      row-get (key_windows (a ∷ key')) rows n (λ pos. entry (drop pos (a ∷ key')))
          (λ pos. entry (drop pos key')) (λ byte. refl) (λ pos byte. refl) more,
    )

IsBytes-drop : (n : ℕ) (xs : List ℕ) → IsBytes xs → IsBytes (drop n xs)
IsBytes-drop zero xs h = h
IsBytes-drop (suc n) [] h = h
IsBytes-drop (suc n) (x ∷ xs) (_, h) = IsBytes-drop n xs h

-- A part of the input that starts at byte `pos`.
pub toeplitz_hash-Entries :
    (cache key : List ℕ) (n : ℕ) (input : List ℕ) (pos hash : ℕ)
    → Entries n key cache
    → n + 4 ≤ length key
    → IsBytes key
    → IsBytes input
    → pos + length input ≤ n
    → toeplitz_hash cache input pos hash
      ≡ ok (bit_xor hash (toeplitz (bits input) (bits (drop pos key))))
unfolding toeplitz_hash
toeplitz_hash-Entries cache key n [] pos hash entries long bytes _ h =
    ap ok (sym (bit_xor-zero hash))
toeplitz_hash-Entries cache key n (x ∷ input) pos hash entries long bytes (hx, more) h =
    let part = drop pos key in
    let rest = toeplitz (bits input) (bits (drop 1 part)) in
    let here : toeplitz (bits (x ∷ input)) (bits part) ≡ bit_xor (entry part x) rest =
      toeplitz-byte part input x (IsBytes-drop pos key bytes)
        (omega (arith, length-drop pos key)) in
    rw (read_at-get cache (pos * 256 + x) (entry part x) (entries pos x (omega arith) hx)) (
      toeplitz_hash-Entries cache key n input (pos + 1) (bit_xor hash (entry part x)) entries long
        bytes more (omega arith)
      ∙ ap ok (
          ap
            (λ (v : List ℕ). bit_xor (bit_xor hash (entry part x)) (toeplitz (bits input) (bits v)))
            (sym (drop-drop pos 1 key))
          ∙ bit_xor_assoc hash (entry part x) rest
          ∙ ap (bit_xor hash) (sym here)))
