-- ===== src/Mcdi/Tests.antt =====
-- A controller of fixed answers, and the theorems at it.
use gld.Base.{
  ℕ, ◌<◌, ◌≡◌, refl, Bool, true, false, none, some, List, [], ◌∷◌, zero, suc, length, arith, inl,
  eio, ok, ◌==◌, if◌then◌else◌,
}
use gld.Mcdi.{Req, Ops, Mcdi}
use gld.Mcdi.Request.{request_start, request_abort, request_poll}
use gld.Mcdi.Request.Complete.{Polled, request_poll-Polled}
use gld.Mcdi.{request_header}
use gld.Mcdi.Header.{reads, request_header-reads}
use gld.Mcdi.Request.Buffer.{SameRoom, request_poll-SameRoom}
use gld.Mcdi.Request.Credit.{ev_cpl-credit}
use gld.Mcdi.Request.World.{start, abort, Reachable, idle, after}

-- `n` bytes, by the given ones and zeros.
abbrev padded : ℕ → List ℕ → List ℕ
padded zero xs = []
padded (suc n) [] = 0 ∷ padded n []
padded (suc n) (x ∷ xs) = x ∷ padded n xs

length-padded : (n : ℕ) (xs : List ℕ) → length (padded n xs) ≡ n
length-padded zero xs = refl
length-padded (suc n) [] = rw (length-padded n []) (omega arith)
length-padded (suc n) (x ∷ xs) = rw (length-padded n xs) (omega arith)

-- The response to the request with command 4 and sequence number 0 of 2 bytes: 7, 9.
abbrev answers : Ops (Unit {0})
answers = record {
  send_request = λ s h b. s;
  poll_reboot = λ s. (s, none);
  poll_response = λ s. true;
  read_response =
      λ s offset n. padded n (if◌then◌else◌ (offset == 0) (132 ∷ 2 ∷ 128 ∷ 0 ∷ []) (7 ∷ 9 ∷ []));
}

answers-exact : (hw : Unit {0}) (offset n : ℕ) → length (answers.read_response hw offset n) ≡ n
answers-exact hw offset n =
    length-padded n (if◌then◌else◌ (offset == 0) (132 ∷ 2 ∷ 128 ∷ 0 ∷ []) (7 ∷ 9 ∷ []))

abbrev ask : Req
ask = record {
  quiet = false;
  cmd = 4;
  in_buf = [];
  in_length = 0;
  rc = some eio;
  out_buf = some (0 ∷ 0 ∷ 0 ∷ []);
  out_length = 3;
  out_length_used = 0;
  err_code = 0;
  err_arg = 0;
}

abbrev fresh : Mcdi (Unit {0})
fresh = record {
  max_version = 1;
  seq = 0;
  pending_req = none;
  ev_cpl = false;
  new_epoch = true;
  aborted = 0;
  poll_cnt = 0;
  req = λ p. ask;
  hw = tt;
  calls = [];
}

abbrev started : Mcdi (Unit {0})
started = request_start answers fresh 0 true

abbrev given_up : Mcdi (Unit {0})
given_up = (request_abort answers started).1

abbrev given_up-Reachable : Reachable answers (record { mcdi = given_up; coming = 0 ∷ [] })
given_up-Reachable =
    after _ _ (after _ _ (idle fresh refl refl) (start fresh [] 0 true refl))
      (abort started (0 ∷ []))

ev_cpl-credit_example : 0 < given_up.aborted
unfolding request_start request_abort
ev_cpl-credit_example = ev_cpl-credit answers given_up [] [] 0 given_up-Reachable refl

request_poll-Polled_example :
    (r : Bool × Mcdi (Unit {0})) × (request_poll answers (request_start answers fresh 0 false)
      ≡ ok r)
    × Polled answers (request_start answers fresh 0 false) 0 r
unfolding request_start
request_poll-Polled_example =
    request_poll-Polled answers (request_start answers fresh 0 false) 0 refl

request_poll-SameRoom_example :
    (r : Bool × Mcdi (Unit {0})) × (request_poll answers (request_start answers fresh 0 false)
      ≡ ok r)
    × SameRoom (request_start answers fresh 0 false).req r.1.req
unfolding request_start
request_poll-SameRoom_example =
    request_poll-SameRoom answers answers-exact (request_start answers fresh 0 false) 0 refl
      (λ q. omega arith)

-- The same controller after a reboot.
abbrev rebooted : Ops (Unit {0})
rebooted = record answers { poll_reboot = λ s. (s, some eio) }

request_header-reads_example :
    reads (request_header 2 (record ask { cmd = 0x101 }) 5 true false) ≡ (0x101, 5, 0)
request_header-reads_example =
    request_header-reads 2 (record ask { cmd = 0x101 }) 5 true false (omega arith)
      (inl (omega arith, omega arith, omega arith, omega arith))
