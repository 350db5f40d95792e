-- ===== src/Mcdi/Request/World.antt =====
-- The driver's and the controller's steps round one interface (common/efx_mcdi.c), in any order.
use gld.Base.{
  ℕ, ◌%◌, ◌^◌, ◌≤◌, ◌≡◌, Bool, false, List, [], ◌∷◌, ◌++◌, length, none, some, if◌then◌else◌, Errno,
  ok,
}
use gld.Mcdi.{Ops, Mcdi}
use gld.Mcdi.Request.{request_start, request_poll, request_abort, ev_cpl, ev_death, start_epoch}

-- The interface, and the sequence numbers of the completion events that are still to come.
pub record World (S : Type 0) : Type 0 where
  pub mcdi : Mcdi S
  pub coming : List ℕ

-- A request of the upper layer is started when none is pending, and polled when it asked for no
-- event. The controller sends one event for each request that asked for one, in any order and
-- at any time; its death may lose some.
pub data Step {S : Type 0} (ops : Ops S) : World S → World S → Type 0 where
  start :
      (m : Mcdi S) (l : List ℕ) (p : ℕ) (want_ev : Bool)
      → m.pending_req ≡ none
      → Step ops
          (record { mcdi = m; coming = l })
          (record {
            mcdi = request_start ops m p want_ev;
            coming = if want_ev then (m.seq % 2 ^ 4) ∷ l else l;
          })
  poll :
      (m m' : Mcdi S) (l : List ℕ) (p : ℕ) (b : Bool)
      → m.pending_req ≡ some p
      → m.ev_cpl ≡ false
      → request_poll ops m ≡ ok (b, m')
      → Step ops (record { mcdi = m; coming = l }) (record { mcdi = m'; coming = l })
  abort :
      (m : Mcdi S) (l : List ℕ)
      → Step ops
          (record { mcdi = m; coming = l })
          (record { mcdi = (request_abort ops m).1; coming = l })
  event :
      (m : Mcdi S) (before after : List ℕ) (seq outlen errcode : ℕ)
      → Step ops
          (record { mcdi = m; coming = before ++ seq ∷ after })
          (record { mcdi = ev_cpl ops m seq outlen errcode; coming = before ++ after })
  death :
      (m : Mcdi S) (l l' : List ℕ) (e : Errno)
      → length l' ≤ length l
      → Step ops (record { mcdi = m; coming = l }) (record { mcdi = ev_death ops m e; coming = l' })
  epoch :
      (m : Mcdi S) (l : List ℕ)
      → Step ops (record { mcdi = m; coming = l }) (record { mcdi = start_epoch ops m; coming = l })

-- The states that the steps reach from an idle interface without credits.
pub data Reachable {S : Type 0} (ops : Ops S) : World S → Type 0 where
  idle :
      (m : Mcdi S)
      → m.pending_req ≡ none
      → m.aborted ≡ 0
      → Reachable ops (record { mcdi = m; coming = [] })
  after : (w w' : World S) → Reachable ops w → Step ops w w' → Reachable ops w'
