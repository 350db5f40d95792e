-- ===== src/Tlv/Move.antt =====
-- What a write and a memmove leave in the buffer, dword by dword (common/ef10_nvram.c).
use gld.Base.{
  ℕ, ◌+◌, ◌-◌, ◌≤◌, ◌<◌, ◌≡◌, refl, ap, ◌∙◌, List, ◌++◌, get_elem?, length, length-append,
  length-take, length-drop, take, drop, get_elem?-append_left, get_elem?-append_at, get_elem?-drop,
  get_elem?-take, le→leb, arith, ok,
}
use gld.Tlv.{Memory}
use gld.Tlv.Items.{Holds}
use gld.Tlv.Segment.{overwrite, memmove}

-- `m'` is `m` with the dwords `ws` at `p`.
pub record Written (m m' : Memory) (p : ℕ) (ws : List ℕ) : Type 0 where
  pub same : length m' ≡ length m
  pub before : (i : ℕ) → i < p → get_elem? m' i ≡ get_elem? m i
  pub holds : Holds m' p ws
  pub after : (i : ℕ) → p + length ws ≤ i → get_elem? m' i ≡ get_elem? m i

module _ (m : Memory) (p : ℕ) (ws : List ℕ) (fits : p + length ws ≤ length m) where
  abbrev written : Memory
  written = take p m ++ (ws ++ drop (p + length ws) m)

  length-front : length (take p m) ≡ p
  length-front = omega (arith, length-take p m)

  written-Written : Written m written p ws
  written-Written = record {
    same = omega (
      arith,
      length-append (take p m) (ws ++ drop (p + length ws) m),
      length-append ws (drop (p + length ws) m),
      length-drop (p + length ws) m,
      length-front,
    );
    before = λ i h.
        get_elem?-append_left (take p m) _ i (omega (arith, length-front)) ∙ get_elem?-take p i m h;
    holds =
        λ j h. get_elem?-append_at (take p m) _ p j length-front ∙ get_elem?-append_left ws _ j h;
    after = λ i h.
        let k = i - (p + length ws) in
        ap (get_elem? written) (let z : i ≡ p + (length ws + k) = omega arith in z)
        ∙ get_elem?-append_at (take p m) _ p (length ws + k) length-front
        ∙ get_elem?-append_at ws _ (length ws) k refl
        ∙ get_elem?-drop (p + length ws) k m
        ∙ ap (get_elem? m) (omega arith);
  }

  pub overwrite-Written : (m' : Memory) × (overwrite m p ws ≡ ok m') × Written m m' p ws
  unfolding overwrite
  overwrite-Written = (written, rw (le→leb _ _ fits) refl, written-Written)

-- The dwords that are moved are those that stood at `src`.
pub memmove-Written :
    (m : Memory) (dst src n : ℕ)
    → src + n ≤ length m
    → dst + n ≤ length m
    → (m' : Memory) × (memmove m dst src n ≡ ok m') × Written m m' dst (take n (drop src m))
unfolding memmove
memmove-Written m dst src n h k =
    let len : length (take n (drop src m)) ≡ n =
      omega (arith, length-take n (drop src m), length-drop src m) in
    let (m', run, w) = overwrite-Written m dst (take n (drop src m)) (omega (arith, len)) in
    (m', rw (le→leb _ _ h) run, w)

pub get_elem?-part :
    (m : Memory) (src n j : ℕ) → j < n → get_elem? (take n (drop src m)) j ≡ get_elem? m (src + j)
get_elem?-part m src n j h = get_elem?-take n j (drop src m) h ∙ get_elem?-drop src j m
