-- ===== src/Execute/Progress.antt =====
-- A thread that waits for the interface can get it (sfxge_mcdi.c).
use gld.Base.{ℕ, ◌≡◌}
use gld.Mcdi.{Ops}
use gld.Execute.{Driver}
use gld.Execute.Threads.{Phase, ready, World, Step}

-- A sequence of steps.
pub data Steps {S : Type 0} (ops : Ops S) : World S → World S → Type 0 where
  done : (w : World S) → Steps ops w w
  next : (w w1 w2 : World S) → Step ops w w1 → Steps ops w1 w2 → Steps ops w w2

module _ {S : Type 0} (ops : Ops S) where
  -- Steps from these that give thread `t` the interface.
  abbrev pub Acquires : Driver S → (ℕ → Phase) → ℕ → Type 0
  Acquires d f t =
      (w : World S) × Steps ops (record { driver = d; phase = f }) w × (w.phase t ≡ ready)
