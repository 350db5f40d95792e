-- ===== src/Execute/Tests.antt =====
-- Two threads, a silent controller, and the theorems at them (sfxge_mcdi.c).
use gld.Base.{ℕ, ◌≡◌, refl, true, false, none, [], replicate}
use gld.Mcdi.{Req, Ops}
use gld.Execute.{initialized, busy, Driver}
use gld.Execute.Threads.{
  Phase, away, waiting, ready, World, put_phase, call, acquire, Reachable, idle, after,
}
use gld.Execute.Exclusive.{Owned, Reachable-Exclusive}

abbrev silent : Ops (Unit {0})
silent = record {
  send_request = λ s h b. s;
  poll_reboot = λ s. (s, none);
  poll_response = λ s. false;
  read_response = λ s offset n. replicate n 0;
}

abbrev ask : Req
ask = record {
  quiet = false;
  cmd = 4;
  in_buf = [];
  in_length = 0;
  rc = none;
  out_buf = none;
  out_length = 0;
  out_length_used = 0;
  err_code = 0;
  err_arg = 0;
}

abbrev fresh : Driver (Unit {0})
fresh = record {
  state = initialized;
  mcdi = record {
    max_version = 1;
    seq = 0;
    pending_req = none;
    ev_cpl = false;
    new_epoch = true;
    aborted = 0;
    poll_cnt = 0;
    req = λ p. ask;
    hw = tt;
    calls = [];
  };
  restarts = 0;
}

-- Thread 1 has the interface, and thread 2 waits for it.
abbrev called : ℕ → Phase
called = put_phase (λ t. away) 1 waiting

abbrev owned : ℕ → Phase
owned = put_phase called 1 ready

abbrev two : World (Unit {0})
two = record { driver = record fresh { state = busy }; phase = put_phase owned 2 waiting }

two-Reachable : Reachable silent two
two-Reachable =
    after (record { driver = record fresh { state = busy }; phase = owned }) two
      (after (record { driver = fresh; phase = called })
        (record { driver = record fresh { state = busy }; phase = owned })
        (after (record { driver = fresh; phase = λ t. away })
          (record { driver = fresh; phase = called }) (idle fresh refl refl)
          (call fresh (λ t. away) 1 refl))
        (acquire fresh called 1 busy refl refl))
      (call (record fresh { state = busy }) owned 2 refl)

Reachable-Exclusive_example :
    (◌≡◌ {A = ℕ} 1 1) × (two.driver.state ≡ busy) × (Owned ready 1 two.driver.mcdi.pending_req)
Reachable-Exclusive_example = Reachable-Exclusive silent two 1 1 two-Reachable tt tt
