-- ===== src/Execute/Exclusive.antt =====
-- The interface has one owner at a time (sfxge_mcdi.c).
use gld.Base.{
  ℕ, ◌≡◌, ◌≢◌, refl, sym, ◌∙◌, ◌⊎◌, inl, inr, Bool, true, false, Option, none, some, ◌==◌, ==_iff,
  ne→==, Bool-cases, if◌then◌else◌, ok_injective,
}
use gld.Mcdi.{Ops, Mcdi}
use gld.Mcdi.Request.{request_start, request_abort, abort_pending}
use gld.Mcdi.Request.Complete.{Polled, request_poll-Polled}
use gld.Execute.{State, uninitialized, initialized, busy, completed, Driver, acquired}
use gld.Execute.Threads.{
  Phase, away, waiting, ready, polling, leaving, World, put_phase, with_mcdi, Step, call, acquire,
  start, poll, give_up, release, hardware, Reachable, idle, after,
}

-- Between sfxge_mcdi_acquire and sfxge_mcdi_release.
abbrev pub Inside : Phase → Type 0
Inside away = ⊥
Inside waiting = ⊥
Inside ready = Unit {0}
Inside polling = Unit {0}
Inside leaving = Unit {0}

-- The request that is pending for an owner in this phase.
abbrev pub Owned : Phase → ℕ → Option ℕ → Type 0
Owned away t r = ⊥
Owned waiting t r = ⊥
Owned ready t r = r ≡ none
Owned polling t r = r ≡ some t
Owned leaving t r = r ≡ none

pub put_self : (f : ℕ → Phase) (t : ℕ) (x : Phase) → put_phase f t x t ≡ x
put_self f t x = rw ((==_iff t t).1 refl) refl

pub put_ne : (f : ℕ → Phase) (t u : ℕ) (x : Phase) → u ≢ t → put_phase f t x u ≡ f u
put_ne f t u x h = rw (ne→== u t h) refl

-- A thread that is inside after one thread's step is that thread, or was inside before.
put-Inside :
    (f : ℕ → Phase) (t u : ℕ) (x : Phase)
    → Inside (put_phase f t x u)
    → ((u ≡ t) × Inside x) ⊎ Inside (f u)
put-Inside f t u x h = elim (Bool-cases (u == t)) [
  | inl e ↦ inl ((==_iff u t).0 e, rw e at h)
  | inr e ↦ inr (rw e at h)
]

pub Owned-Inside : (x : Phase) (t : ℕ) (r : Option ℕ) → Owned x t r → Inside x
Owned-Inside ready t r h = tt
Owned-Inside polling t r h = tt
Owned-Inside leaving t r h = tt
Owned-Inside away t r h = h
Owned-Inside waiting t r h = h

module _ {S : Type 0} where
  abbrev pub Free : Driver S → (ℕ → Phase) → Type 0
  Free d f = (d.state ≡ initialized) × (d.mcdi.pending_req ≡ none) × ((t : ℕ) → Inside (f t) → ⊥)

  abbrev pub Held : Driver S → (ℕ → Phase) → ℕ → Type 0
  Held d f t =
      (d.state ≡ busy) × (Owned (f t) t d.mcdi.pending_req) × ((u : ℕ) → Inside (f u) → u ≡ t)

  abbrev pub Inv : Driver S → (ℕ → Phase) → Type 0
  Inv d f = Free d f ⊎ ((t : ℕ) × Held d f t)

  -- The owner is the thread that is inside.
  owner : (d : Driver S) (f : ℕ → Phase) (t : ℕ) → Inside (f t) → Inv d f → Held d f t
  owner d f t h (inl (_, _, k)) = absurd (k t h)
  owner d f t h (inr (s, (e, o, k))) = let z : t ≡ s = k t h in rw z (e, o, k)

  -- The owner takes a step and stays inside.
  stay :
      (d d' : Driver S) (f : ℕ → Phase) (t : ℕ) (x : Phase)
      → Held d f t
      → d'.state ≡ d.state
      → Owned x t d'.mcdi.pending_req
      → Inv d' (put_phase f t x)
  stay d d' f t x (e, o, k) same o' = inr (
    t,
    (
      same ∙ e,
      rw (put_self f t x) o',
      λ u h. elim (put-Inside f t u x h) [ inl (z, _) ↦ z | inr h' ↦ k u h' ],
    ),
  )

  -- A thread outside takes a step and stays outside.
  outside :
      (d : Driver S) (f : ℕ → Phase) (t : ℕ) (x : Phase)
      → ¬ Inside (f t)
      → ¬ Inside x
      → Inv d f
      → Inv d (put_phase f t x)
  outside d f t x h j (inl (e, p, k)) =
      inl (e, p, λ u i. elim (put-Inside f t u x i) [ inl (_, i') ↦ j i' | inr i' ↦ k u i' ])
  outside d f t x h j (inr (s, (e, o, k))) =
      let ne : s ≢ t = λ z. h (rw z at (Owned-Inside (f s) s _ o)) in
      inr (
        s,
        (
          e,
          rw (put_ne f t s x ne) o,
          λ u i. elim (put-Inside f t u x i) [ inl (_, i') ↦ absurd (j i') | inr i' ↦ k u i' ],
        ),
      )

  acquired-Inv :
      (d : Driver S) (f : ℕ → Phase) (t : ℕ) (s s' : State)
      → d.state ≡ s
      → acquired s ≡ some s'
      → f t ≡ waiting
      → Inv d f
      → Inv (record d { state = s' }) (put_phase f t ready)
  acquired-Inv d f t initialized s' e a h (inl (_, p, k)) = inr (
    t,
    (
      cc,
      rw (put_self f t ready) p,
      λ u i. elim (put-Inside f t u ready i) [ inl (z, _) ↦ z | inr i' ↦ absurd (k u i') ],
    ),
  )
  acquired-Inv d f t initialized s' e a h (inr (u, (e', o, k))) = cc
  acquired-Inv d f t uninitialized s' e a h inv = cc
  acquired-Inv d f t busy s' e a h inv = cc
  acquired-Inv d f t completed s' e a h inv = cc

module _ {S : Type 0} (ops : Ops S) where
  poll-Inv :
      (d : Driver S) (f : ℕ → Phase) (t : ℕ) (b : Bool) (m : Mcdi S)
      → Polled ops d.mcdi t (b, m)
      → Held d f t
      → Inv (with_mcdi d m) (put_phase f t (if b then leaving else polling))
  poll-Inv d f t true m (_, h) held = stay d (with_mcdi d m) f t leaving held refl h
  poll-Inv d f t false m (_, h, _, _) held = stay d (with_mcdi d m) f t polling held refl h

  aborted-none :
      (m : Mcdi S) (r : Option ℕ) → m.pending_req ≡ r → (abort_pending ops m r).1.pending_req ≡ none
  aborted-none m none h = h
  aborted-none m (some p) h = refl

  step-Inv : (w w' : World S) → Step ops w w' → Inv w.driver w.phase → Inv w'.driver w'.phase
  unfolding request_start request_abort
  step-Inv w w' (call d f t h) inv = outside d f t waiting (rw h (λ i. i)) (λ i. i) inv
  step-Inv w w' (acquire d f t s h a) inv = acquired-Inv d f t d.state s refl a h inv
  step-Inv w w' (start d f t h) inv =
      stay d (with_mcdi d (request_start ops d.mcdi t false)) f t polling
        (owner d f t (rw h tt) inv) refl refl
  step-Inv w w' (poll d f t b m h run) inv =
      let held = owner d f t (rw h tt) inv in
      let pending : d.mcdi.pending_req ≡ some t = rw h at held.1 in
      let (r, run', polled) = request_poll-Polled ops d.mcdi t pending in
      let z : r ≡ (b, m) = ok_injective (sym run' ∙ run) in poll-Inv d f t b m (rw z at polled) held
  step-Inv w w' (give_up d f t h) inv =
      stay d (with_mcdi d (request_abort ops d.mcdi).1) f t leaving (owner d f t (rw h tt) inv) refl
        (aborted-none d.mcdi d.mcdi.pending_req refl)
  step-Inv w w' (release d f t h) inv =
      let (_, o, k) = owner d f t (rw h tt) inv in
      let pending : d.mcdi.pending_req ≡ none = rw h at o in
      inl (
        refl,
        pending,
        λ u i. elim (put-Inside f t u away i) [
          | inl (_, i') ↦ i'
          | inr i' ↦ absurd (rw (k u i', put_self f t away) at i)
        ],
      )
  step-Inv w w' (hardware d f hw) inv = inv

  pub Reachable-Inv : (w : World S) → Reachable ops w → Inv w.driver w.phase
  Reachable-Inv w (idle d e p) = inl (e, p, λ t i. i)
  Reachable-Inv w (after w0 w1 r st) = step-Inv w0 w1 st (Reachable-Inv w0 r)

  -- In every reachable interleaving of threads: two threads between sfxge_mcdi_acquire and
  -- sfxge_mcdi_release are the same one, and the interface is busy then, which the release asserts.
  -- No request is pending when that thread starts its own or releases the interface, and its own is
  -- pending while it polls or aborts.
  pub Reachable-Exclusive :
      (w : World S) (t u : ℕ)
      → Reachable ops w
      → Inside (w.phase t)
      → Inside (w.phase u)
      → (t ≡ u) × (w.driver.state ≡ busy) × (Owned (w.phase t) t w.driver.mcdi.pending_req)
  Reachable-Exclusive w t u r h j =
      let (e, o, k) = owner w.driver w.phase t h (Reachable-Inv w r) in (sym (k u j), e, o)
