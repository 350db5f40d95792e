-- ===== src/Execute/Done.antt =====
-- A request that the driver runs comes to an end (sfxge_mcdi.c).
use gld.Base.{ℕ, ◌+◌, ◌≡◌, ◌⊎◌, none, some, etimedout, Outcome, ok}
use gld.Mcdi.{Ops, Mcdi}
use gld.Execute.{Driver}

module _ {S : Type 0} (ops : Ops S) (delay : S → S) (clock : ℕ → ℕ) (watchdog : ℕ) where
  -- From `d`, request `p` was completed by a poll, or given up: then its error number is ETIMEDOUT
  -- and one restart was dispatched. No request is pending.
  abbrev pub Ended : Driver S → ℕ → Driver S → Type 0
  Ended d p d' =
      (d'.mcdi.pending_req ≡ none)
      × ((d'.restarts ≡ d.restarts)
          ⊎ ((d'.restarts ≡ d.restarts + 1) × ((d'.mcdi.req p).rc ≡ some etimedout)))

  abbrev Ends : Driver S → ℕ → Outcome (Driver S) → Type 0
  Ends d p r = (d' : Driver S) × (r ≡ ok d') × (d'.state ≡ d.state) × (Ended d p d')
