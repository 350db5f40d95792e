-- ===== src/Execute/Threads.antt =====
-- Threads that run requests at the same time (sfxge_mcdi.c): each step is one that holds the lock, or
-- one of the thread that has the interface.
use gld.Base.{ℕ, ◌≡◌, Bool, false, none, some, ◌==◌, if◌then◌else◌, ok}
use gld.Mcdi.{Ops, Mcdi}
use gld.Mcdi.Request.{request_start, request_poll, request_abort}
use gld.Execute.{State, initialized, Driver, acquired, released}

-- Where a thread is in sfxge_mcdi_execute: not in it, in the loop of sfxge_mcdi_acquire, before
-- efx_mcdi_request_start, in the loop of sfxge_mcdi_poll, before sfxge_mcdi_release.
pub data Phase : Type 0 where
  away waiting ready polling leaving : Phase

pub record World (S : Type 0) : Type 0 where
  pub driver : Driver S
  pub phase : ℕ → Phase

abbrev pub put_phase : (ℕ → Phase) → ℕ → Phase → ℕ → Phase
put_phase f t x u = if u == t then x else f u

abbrev pub with_mcdi : {S : Type 0} → Driver S → Mcdi S → Driver S
with_mcdi d m = record d { mcdi = m }

-- Thread `t` runs the request at its own address. A wait on the condition may end at any time; then
-- the state is tested again, so a thread that waits on takes no step here. The device may change what
-- it shows (`hardware`) between any two steps.
pub data Step {S : Type 0} (ops : Ops S) : World S → World S → Type 0 where
  call :
      (d : Driver S) (f : ℕ → Phase) (t : ℕ)
      → f t ≡ away
      → Step ops
          (record { driver = d; phase = f })
          (record { driver = d; phase = put_phase f t waiting })
  acquire :
      (d : Driver S) (f : ℕ → Phase) (t : ℕ) (s : State)
      → f t ≡ waiting
      → acquired d.state ≡ some s
      → Step ops
          (record { driver = d; phase = f })
          (record { driver = record d { state = s }; phase = put_phase f t ready })
  start :
      (d : Driver S) (f : ℕ → Phase) (t : ℕ)
      → f t ≡ ready
      → Step ops
          (record { driver = d; phase = f })
          (record {
            driver = with_mcdi d (request_start ops d.mcdi t false);
            phase = put_phase f t polling;
          })
  poll :
      (d : Driver S) (f : ℕ → Phase) (t : ℕ) (b : Bool) (m : Mcdi S)
      → f t ≡ polling
      → request_poll ops d.mcdi ≡ ok (b, m)
      → Step ops
          (record { driver = d; phase = f })
          (record {
            driver = with_mcdi d m;
            phase = put_phase f t (if b then leaving else polling);
          })
  give_up :
      (d : Driver S) (f : ℕ → Phase) (t : ℕ)
      → f t ≡ polling
      → Step ops
          (record { driver = d; phase = f })
          (record {
            driver = with_mcdi d (request_abort ops d.mcdi).1;
            phase = put_phase f t leaving;
          })
  release :
      (d : Driver S) (f : ℕ → Phase) (t : ℕ)
      → f t ≡ leaving
      → Step ops
          (record { driver = d; phase = f })
          (record { driver = record d { state = released d.state }; phase = put_phase f t away })
  hardware :
      (d : Driver S) (f : ℕ → Phase) (hw : S)
      → Step ops
          (record { driver = d; phase = f })
          (record { driver = with_mcdi d (record d.mcdi { hw = hw }); phase = f })

-- What the steps reach from an initialised interface that no thread uses.
pub data Reachable {S : Type 0} (ops : Ops S) : World S → Type 0 where
  idle :
      (d : Driver S)
      → d.state ≡ initialized
      → d.mcdi.pending_req ≡ none
      → Reachable ops (record { driver = d; phase = λ t. away })
  after : (w w' : World S) → Reachable ops w → Step ops w w' → Reachable ops w'
