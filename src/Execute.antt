-- ===== src/Execute.antt =====
-- How the driver runs a request to the management controller (sfxge_mcdi.c, sfxge.h): one thread at a
-- time has the interface, polls for the response, and gives up when the watchdog's time is over.
pub mod Done
pub mod Threads
pub mod Exclusive
pub mod Progress
mod Tests
use gld.Base.{
  ℕ, zero, suc, ◌+◌, Bool, true, false, Option, none, some, ltb, if◌then◌else◌, Outcome, ok, err,
  fault, timeout, ◌>>=◌,
}
use gld.Mcdi.{Ops, Mcdi}
use gld.Mcdi.Request.{request_start, request_poll, request_abort}

pub data State : Type 0 where
  uninitialized initialized busy completed : State

-- The interface's state, the requests, and how often a restart of the device was dispatched.
pub record Driver (S : Type 0) : Type 0 where
  pub state : State
  pub mcdi : Mcdi S
  pub restarts : ℕ

-- The loop of sfxge_mcdi_acquire, each time the lock is held: `none` is to wait on.
abbrev pub acquired : State → Option State
acquired initialized = some busy
acquired _ = none

-- sfxge_mcdi_release, which wakes the threads that wait.
abbrev pub released : State → State
released s = initialized

-- `clock i` is the i-th reading of the ticks since boot, `watchdog` the ticks of the watchdog's
-- interval, and `delay` what the device does in the delay between two polls.
module _ {S : Type 0} (ops : Ops S) (delay : S → S) (clock : ℕ → ℕ) (watchdog : ℕ) where
  -- The request is aborted, as the code asserts, and a restart dispatched.
  give_up : Driver S → Bool × Mcdi S → Outcome (Driver S)
  give_up d (true, m) = ok (record d { mcdi = m; restarts = d.restarts + 1 })
  give_up d (false, m) = fault

  poll_round :
      (Driver S → Outcome (Driver S))
      → (i deadline : ℕ) → Driver S
      → Bool × Mcdi S
      → Outcome (Driver S)
  poll_round again i deadline d (true, m) = ok (record d { mcdi = m })
  poll_round again i deadline d (false, m) =
      if ltb deadline (clock i)
      then give_up (record d { mcdi = m }) (request_abort ops m)
      else again (record d { mcdi = record m { hw = delay m.hw } })

  pub poll_from : ℕ → (i deadline : ℕ) → Driver S → Outcome (Driver S)
  poll_from zero i deadline d = timeout
  poll_from (suc n) i deadline d =
      request_poll ops d.mcdi >>= poll_round (poll_from n (suc i) deadline) i deadline d

  -- `n` rounds at most.
  pub poll : (n : ℕ) → Driver S → Outcome (Driver S)
  unfolding poll_from
  poll n d = poll_from n 1 (clock 0 + watchdog) d

  execute_acquired : (n : ℕ) → Driver S → (request : ℕ) → Option State → Outcome (Driver S)
  execute_acquired n d p none = timeout
  execute_acquired n d p (some s) = do
    d' ← poll n (record d { state = s; mcdi = request_start ops d.mcdi p false })
    ok (record d' { state = released d'.state })

  pub execute : (n : ℕ) → Driver S → (request : ℕ) → Outcome (Driver S)
  unfolding execute_acquired
  execute n d p = execute_acquired n d p (acquired d.state)
