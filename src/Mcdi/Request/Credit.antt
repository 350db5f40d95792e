-- ===== src/Mcdi/Request/Credit.antt =====
-- The credits for completion events of requests that were given up (emi_aborted,
-- common/efx_mcdi.c), under any order of the driver's and the controller's steps.
use gld.Base.{
  ℕ, ◌+◌, ◌%◌, ◌^◌, ◌≤◌, ◌<◌, ◌≡◌, refl, sym, ◌∙◌, Bool, true, false, not, ◌&&◌, ◌||◌, List, [],
  ◌∷◌, ◌++◌, length, length-append, Option, none, some, ◌==◌, if◌then◌else◌, Bool-cases, inl, inr,
  arith, Errno, ok, ok_injective, ==_iff, ◌⊎◌,
}
use mathlib.Core.Path.{subst}
use gld.Mcdi.{Ops, Mcdi}
use gld.Mcdi.Request.{
  request_start, request_poll, request_abort, abort_pending, spurious, ev_cpl, ev_death,
  start_epoch, deliver, fail_pending,
}
use gld.Mcdi.Response.{current_seq, is_none, is_eio, is_eintr, raise_exception}
use gld.Mcdi.Request.Complete.{Completed, Polled, request_poll-Polled, ev_complete-Completed}
use gld.Mcdi.Request.World.{
  World, Step, start, poll, abort, event, death, epoch, Reachable, idle, after,
}

Option-cases {ℓ} : {A : Type ℓ} (o : Option A) → (o ≡ none) ⊎ ((a : A) × (o ≡ some a))
Option-cases none = inl refl
Option-cases (some a) = inr (a, refl)

true≢false : true ≡ false → ⊥
true≢false e = cc

abbrev mem : ℕ → List ℕ → Bool
mem s [] = false
mem s (x ∷ xs) = s == x || mem s xs

mem-remove :
    (s x : ℕ) (before rest : List ℕ)
    → (x == s) ≡ false
    → mem s (before ++ x ∷ rest) ≡ true
    → mem s (before ++ rest) ≡ true
mem-remove s x [] rest ne h = ground (arith, h, ne)
mem-remove s x (b ∷ before) rest ne h = elim (Bool-cases (s == b)) [
  | inl q ↦ rw q refl
  | inr q ↦ rw q (mem-remove s x before rest ne (ground (arith, h, q)))
]

mem-length : (s : ℕ) (l : List ℕ) → mem s l ≡ true → 0 < length l
mem-length s [] h = cc
mem-length s (x ∷ xs) h = omega arith

-- Whether the pending request waits for an event.
abbrev waits : {S : Type 0} → Mcdi S → Bool
waits m = not (is_none m.pending_req) && m.ev_cpl

-- The credits, with the pending request's, cover the events to come, and its own is among them.
abbrev Covered : {S : Type 0} → World S → Type 0
Covered w =
    (length w.coming ≤ w.mcdi.aborted + (if waits w.mcdi then 1 else 0))
    × (waits w.mcdi ≡ true → mem (current_seq w.mcdi) w.coming ≡ true)

module _ {S : Type 0} (ops : Ops S) where
  start-Covered :
      (m : Mcdi S) (l : List ℕ) (p : ℕ) (want_ev : Bool)
      → m.pending_req ≡ none
      → Covered (record { mcdi = m; coming = l })
      → Covered (record {
        mcdi = request_start ops m p want_ev;
        coming = if want_ev then (m.seq % 2 ^ 4) ∷ l else l;
      })
  unfolding request_start
  start-Covered m l p true n (c, o) =
      let same : (current_seq (request_start ops m p true) == m.seq % 2 ^ 4) ≡ true =
        (==_iff (current_seq (request_start ops m p true)) (m.seq % 2 ^ 4)).1 (omega arith) in
      let q : waits m ≡ false = rw n refl in (ground (arith, q, c), λ w. rw same refl)
  start-Covered m l p false n (c, o) =
      let q : waits m ≡ false = rw n refl in
      (ground (arith, q, c), λ w. absurd (true≢false (sym w)))

  idle-Covered :
      (m : Mcdi S) (l : List ℕ)
      → length l ≤ m.aborted
      → waits m ≡ false
      → Covered (record { mcdi = m; coming = l })
  idle-Covered m l h q = (ground (arith, h, q), λ w. absurd (true≢false (sym w ∙ q)))

  -- A completed request waits no more.
  Completed-Covered :
      (m m' : Mcdi S) (l : List ℕ)
      → Completed ops m m'
      → length l ≤ m.aborted
      → Covered (record { mcdi = m'; coming = l })
  Completed-Covered m m' l (k, n) h =
      let q : waits m' ≡ false = rw n refl in
      (ground (arith, q, h, k.credits), λ w. absurd (true≢false (sym w ∙ q)))

  poll-Kept :
      (m m' : Mcdi S) (l : List ℕ) (p : ℕ) (b : Bool)
      → m.ev_cpl ≡ false
      → length l ≤ m.aborted
      → Polled ops m p (b, m')
      → Covered (record { mcdi = m'; coming = l })
  poll-Kept m m' l p true f c h = Completed-Covered m m' l h c
  poll-Kept m m' l p false f c (k, h, _, _) =
      let q : waits m' ≡ false = ground (arith, k.flag, f) in
      (ground (arith, q, c, k.credits), λ w. absurd (true≢false (sym w ∙ q)))

  poll-Covered :
      (m m' : Mcdi S) (l : List ℕ) (p : ℕ) (b : Bool)
      → m.pending_req ≡ some p
      → m.ev_cpl ≡ false
      → request_poll ops m ≡ ok (b, m')
      → Covered (record { mcdi = m; coming = l })
      → Covered (record { mcdi = m'; coming = l })
  poll-Covered m m' l p b h f e (c, o) =
      let (r, e', pol) = request_poll-Polled ops m p h in
      let quiet : waits m ≡ false = ground (arith, f) in
      poll-Kept m m' l p b f (ground (arith, quiet, c))
        (subst (Polled ops m p) (ok_injective (sym e' ∙ e)) pol)

  abort_pending-Covered :
      (m : Mcdi S) (l : List ℕ) (o : Option ℕ)
      → m.pending_req ≡ o
      → Covered (record { mcdi = m; coming = l })
      → Covered (record { mcdi = (abort_pending ops m o).1; coming = l })
  abort_pending-Covered m l none n c = c
  abort_pending-Covered m l (some p) n (c, o) =
      let q : waits m ≡ m.ev_cpl = rw n refl in
      (ground (arith, q, c), λ w. absurd (true≢false (sym w)))

  fail_pending-Covered :
      (m : Mcdi S) (l l' : List ℕ) (o : Option ℕ) (e : Errno)
      → m.pending_req ≡ o
      → length l' ≤ length l
      → Covered (record { mcdi = m; coming = l })
      → (length l' ≤ (fail_pending ops m o e).aborted) × (waits (fail_pending ops m o e) ≡ false)
  fail_pending-Covered m l l' none e n h (c, o) =
      let q : waits m ≡ false = rw n refl in (ground (arith, q, h, c), q)
  fail_pending-Covered m l l' (some p) e n h (c, o) = elim (Bool-cases m.ev_cpl) [
    | inl b ↦ let q : waits m ≡ true = rw (n, b) refl in rw b (ground (arith, h, c, q), refl)
    | inr b ↦
        let q : waits m ≡ false = rw (n, b) refl in rw b (ground (arith, h, c, q), ground arith)
  ]

  death-Covered :
      (m : Mcdi S) (l l' : List ℕ) (e : Errno)
      → length l' ≤ length l
      → Covered (record { mcdi = m; coming = l })
      → Covered (record { mcdi = ev_death ops m e; coming = l' })
  unfolding ev_death raise_exception
  death-Covered m l l' e h c =
      let f = fail_pending-Covered m l l' m.pending_req e refl h c in
      elim (Bool-cases (not (is_none m.pending_req) && m.ev_cpl)) [
        | inl w ↦ elim (Bool-cases (is_eio e || is_eintr e)) [
          | inl b ↦ idle-Covered (ev_death ops m e) l' (simp (w, b) f.0) (simp (w, b) f.1)
          | inr b ↦ idle-Covered (ev_death ops m e) l' (simp (w, b) f.0) (simp (w, b) f.1)
        ]
        | inr w ↦ elim (Bool-cases (is_eio e || is_eintr e)) [
          | inl b ↦ idle-Covered (ev_death ops m e) l' (simp (w, b) f.0) (simp (w, b) f.1)
          | inr b ↦ idle-Covered (ev_death ops m e) l' (simp (w, b) f.0) (simp (w, b) f.1)
        ]
      ]

  -- A spurious event finds a credit.
  spurious-credit :
      (m : Mcdi S) (before rest : List ℕ) (seq : ℕ)
      → Covered (record { mcdi = m; coming = before ++ seq ∷ rest })
      → spurious ops m seq ≡ true
      → length (before ++ rest) + 1 ≤ m.aborted + (if waits m then 1 else 0)
        × 0 < m.aborted
        × (waits m ≡ true → mem (current_seq m) (before ++ rest) ≡ true)
  spurious-credit m before rest seq (c, o) h =
      let total = length-append before (seq ∷ rest) in
      let total' = length-append before rest in
      elim (Bool-cases (waits m)) [
        | inl w ↦
            let ne : (seq == current_seq m) ≡ false = ground (arith, h, w) in
            let here = mem-remove (current_seq m) seq before rest ne (o w) in
            let some_left = mem-length (current_seq m) (before ++ rest) here in
            (
              ground (arith, total, total', c, w),
              ground (arith, total, total', c, some_left, w),
              λ v. here,
            )
        | inr w ↦ (
          ground (arith, total, total', c, w),
          ground (arith, total, total', c, w),
          λ v. absurd (true≢false (sym v ∙ w)),
        )
      ]

  deliver-Covered :
      (m : Mcdi S) (before rest : List ℕ) (o : Option ℕ) (seq outlen errcode : ℕ)
      → m.pending_req ≡ o
      → spurious ops m seq ≡ false
      → Covered (record { mcdi = m; coming = before ++ seq ∷ rest })
      → Covered (record { mcdi = deliver ops m o outlen errcode; coming = before ++ rest })
  deliver-Covered m before rest none seq outlen errcode n h c =
      let q : spurious ops m seq ≡ true = rw n refl in absurd (true≢false (sym q ∙ h))
  deliver-Covered m before rest (some p) seq outlen errcode n h (c, o) =
      let k = ev_complete-Completed ops (record m { pending_req = none }) p outlen errcode refl in
      let total = length-append before (seq ∷ rest) in
      let total' = length-append before rest in
      let q : waits (deliver ops m (some p) outlen errcode) ≡ false = rw k.1 refl in
      let le : length (before ++ rest) ≤ m.aborted = elim (Bool-cases (waits m)) [
        | inl w ↦ ground (arith, total, total', c, w)
        | inr w ↦ ground (arith, total, total', c, w)
      ] in
      idle-Covered (deliver ops m (some p) outlen errcode) (before ++ rest)
        (ground (arith, le, k.0.credits)) q

  event-Covered :
      (m : Mcdi S) (before rest : List ℕ) (seq outlen errcode : ℕ)
      → Covered (record { mcdi = m; coming = before ++ seq ∷ rest })
      → Covered (record { mcdi = ev_cpl ops m seq outlen errcode; coming = before ++ rest })
  unfolding ev_cpl
  event-Covered m before rest seq outlen errcode c = elim (Bool-cases (spurious ops m seq)) [
    | inl h ↦
        let r = spurious-credit m before rest seq c h in simp h (ground (arith, r.0, r.1), r.2)
    | inr h ↦ simp h (deliver-Covered m before rest m.pending_req seq outlen errcode refl h c)
  ]

  step-Covered : (w w' : World S) → Step ops w w' → Covered w → Covered w'
  unfolding request_abort start_epoch
  step-Covered w w' (start m l p b n) c = start-Covered m l p b n c
  step-Covered w w' (poll m m' l p b h f e) c = poll-Covered m m' l p b h f e c
  step-Covered w w' (abort m l) c = abort_pending-Covered m l m.pending_req refl c
  step-Covered w w' (event m before rest seq outlen errcode) c =
      event-Covered m before rest seq outlen errcode c
  step-Covered w w' (death m l l' e h) c = death-Covered m l l' e h c
  step-Covered w w' (epoch m l) c = c

  pub Reachable-Covered : (w : World S) → Reachable ops w → Covered w
  Reachable-Covered w (idle m n a) =
      let q : waits m ≡ false = rw n refl in idle-Covered m [] (omega arith) q
  Reachable-Covered w (after v x r s) = step-Covered v x s (Reachable-Covered v r)

  -- In every state that the steps reach, when any of the coming events arrives and efx_mcdi_ev_cpl
  -- finds that it does not belong to the pending request, there is a credit for it: the assertion
  -- emi_aborted > 0 holds.
  pub ev_cpl-credit :
      (m : Mcdi S) (before rest : List ℕ) (seq : ℕ)
      → Reachable ops (record { mcdi = m; coming = before ++ seq ∷ rest })
      → spurious ops m seq ≡ true
      → 0 < m.aborted
  ev_cpl-credit m before rest seq r h =
      (spurious-credit m before rest seq
        (Reachable-Covered (record { mcdi = m; coming = before ++ seq ∷ rest }) r) h).1
