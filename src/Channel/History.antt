-- ===== src/Channel/History.antt =====
-- A channel under a history of calls, each run as one critical section.
use uring_fiber.Prelude.{
  ℕ, ◌≡◌, refl, sym, ap, ◌∙◌, if_cases, true, false, List, [], ◌∷◌, ◌++◌, append-nil, append_assoc,
  arith,
}
use uring_fiber.Channel.Body.{
  SendItem, Chan, Outcome, make, close_body, send_body, send_open, send_store, recv_body, recv_from,
  recv_park, recv_unbuffered, refill,
}
use uring_fiber.Channel.Order.{
  WellFormed, send_body-WellFormed, recv_body-WellFormed, close_body-WellFormed, close_open,
  close_shut,
}
use uring_fiber.Channel.Fifo.{received, pending, values, recv_body-values, send_body-values}

pub data Call {ℓ} (T : Type ℓ) : Type ℓ where
  sends : ℕ → T → Call T
  receives : ℕ → Call T
  closes : Call T

module _ {ℓ} {T : Type ℓ} where
  unfoldable pub step : Chan T → Call T → Chan T
  step c (sends self v) = (send_body self v c).0
  step c (receives self) = (recv_body self c).0
  step c closes = (close_body c).0

  unfoldable pub run : Chan T → List (Call T) → Chan T
  unfolding step
  run c [] = c
  run c (k ∷ ks) = run (step c k) ks

  -- The values sent before the first `Close`, in the order of the calls.
  abbrev pub sent_before_close : List (Call T) → List T
  sent_before_close [] = []
  sent_before_close (sends self v ∷ ks) = v ∷ sent_before_close ks
  sent_before_close (receives self ∷ ks) = sent_before_close ks
  sent_before_close (closes ∷ ks) = []

  -- The values of the senders that the first `Close` finds parked.
  pub dropped : Chan T → List (Call T) → List T
  dropped c [] = []
  dropped c (sends self v ∷ ks) = dropped (step c (sends self v)) ks
  dropped c (receives self ∷ ks) = dropped (step c (receives self)) ks
  dropped c (closes ∷ ks) = pending c

  pub step-WellFormed : (c : Chan T) (k : Call T) → WellFormed c → WellFormed (step c k)
  unfolding step
  step-WellFormed c (sends self v) w = send_body-WellFormed self v c w
  step-WellFormed c (receives self) w = recv_body-WellFormed self c w
  step-WellFormed c closes w = close_body-WellFormed c w

  pub make-WellFormed : (n : ℕ) → WellFormed {T = T} (make n)
  make-WellFormed n = record {
    bounded = omega arith;
    senders_wait = λ ne. absurd (ne refl);
    receivers_wait = λ ne. absurd (ne refl);
    nobody_waits = λ e. (refl, refl);
  }

  -- After any history of calls on a well-formed channel (a new one is), run one critical section at a
  -- time, it is well formed: the buffer holds no more than the capacity, senders are parked only at a
  -- full buffer, receivers only at an empty one with no sender parked, and nobody in a closed channel.
  pub run-WellFormed : (c : Chan T) (ks : List (Call T)) → WellFormed c → WellFormed (run c ks)
  unfolding run
  run-WellFormed c [] w = w
  run-WellFormed c (k ∷ ks) w = run-WellFormed (step c k) ks (step-WellFormed c k w)

  refill-closed : (sq : List (SendItem T)) (c : Chan T) → (refill sq c).closed ≡ c.closed
  unfolding refill
  refill-closed [] c = refl
  refill-closed (s ∷ ss) c = refl

  recv_unbuffered-closed :
      (self : ℕ) (sq : List (SendItem T)) (c : Chan T)
      → (recv_unbuffered self sq c).0.closed ≡ c.closed
  unfolding recv_unbuffered recv_park
  recv_unbuffered-closed self [] c = refl
  recv_unbuffered-closed self (s ∷ ss) c = ground arith

  recv_from-closed :
      (self : ℕ) (vs : List T) (c : Chan T) → (recv_from self vs c).0.closed ≡ c.closed
  unfolding recv_from
  recv_from-closed self [] c =
      if_cases (λ (r : Chan T × Outcome). r.0.closed ≡ c.closed) c.closed (λ e. refl)
        λ e. recv_unbuffered-closed self c.send_queue c
  recv_from-closed self (v ∷ vs) c = refill-closed c.send_queue _

  send_open-closed :
      (self : ℕ) (v : T) (rq : List ℕ) (c : Chan T) → (send_open self v rq c).0.closed ≡ c.closed
  unfolding send_open send_store
  send_open-closed self v [] c = ground arith
  send_open-closed self v (t ∷ ts) c = refl

  recv_body-closed : (self : ℕ) (c : Chan T) → (recv_body self c).0.closed ≡ c.closed
  unfolding recv_body
  recv_body-closed self c = recv_from-closed self c.buffer c

  send_body-closed : (self : ℕ) (v : T) (c : Chan T) → (send_body self v c).0.closed ≡ c.closed
  unfolding send_body
  send_body-closed self v c =
      if_cases (λ (r : Chan T × Outcome). r.0.closed ≡ c.closed) c.closed (λ e. refl)
        λ e. send_open-closed self v c.recv_queue c

  send_body_shut : (self : ℕ) (v : T) (c : Chan T) → c.closed ≡ true → (send_body self v c).0 ≡ c
  unfolding send_body
  send_body_shut self v c shut =
      if_cases (λ (r : Chan T × Outcome). r.0 ≡ c) c.closed (λ e. refl) λ e. cc

  -- A closed channel only hands out what it has.
  run-values_shut :
      (c : Chan T) (ks : List (Call T)) → c.closed ≡ true → values (run c ks) ≡ values c
  unfolding run
  run-values_shut c [] shut = refl
  run-values_shut c (sends self v ∷ ks) shut =
      run-values_shut (send_body self v c).0 ks (send_body-closed self v c ∙ shut)
      ∙ ap values (send_body_shut self v c shut)
  run-values_shut c (receives self ∷ ks) shut =
      run-values_shut (recv_body self c).0 ks (recv_body-closed self c ∙ shut)
      ∙ recv_body-values self c
  run-values_shut c (closes ∷ ks) shut =
      run-values_shut (close_body c).0 ks (ap (λ (d : Chan T). d.closed) (close_shut c shut) ∙ shut)
      ∙ ap values (close_shut c shut)

  close_open-values :
      (c : Chan T) → c.closed ≡ false → values (close_body c).0 ++ pending c ≡ values c
  close_open-values c o =
      let (_, _, b, s, _, w, _) = close_open c o in rw (b, s, w) (simp (append-nil, append_assoc))

  run-values :
      (c : Chan T) (ks : List (Call T))
      → c.closed ≡ false
      → WellFormed c
      → values (run c ks) ++ dropped c ks ≡ values c ++ sent_before_close ks
  unfolding run dropped
  run-values c [] o w = refl
  run-values c (sends self v ∷ ks) o w =
      run-values (send_body self v c).0 ks (send_body-closed self v c ∙ o)
        (send_body-WellFormed self v c w)
      ∙ ap (λ (l : List T). l ++ sent_before_close ks) (send_body-values self v c o w)
      ∙ append_assoc (values c) (v ∷ []) (sent_before_close ks)
  run-values c (receives self ∷ ks) o w =
      run-values (recv_body self c).0 ks (recv_body-closed self c ∙ o)
        (recv_body-WellFormed self c w)
      ∙ ap (λ (l : List T). l ++ sent_before_close ks) (recv_body-values self c)
  run-values c (closes ∷ ks) o w =
      ap (λ (l : List T). l ++ pending c) (run-values_shut (close_body c).0 ks (close_open c o).0)
      ∙ close_open-values c o
      ∙ sym (append-nil (values c))

  -- First in, first out: after any history of calls on a new channel, run one critical section at a
  -- time, the values handed to receivers, then those in the buffer, then those of the parked senders,
  -- then those of the senders that the first `Close` found parked, are the values sent before that
  -- `Close`, each once and in the order of the calls.
  pub run-fifo :
      (n : ℕ) (ks : List (Call T))
      → let c = run (make n) ks in
        received c ++ (c.buffer ++ pending c) ++ dropped (make n) ks ≡ sent_before_close ks
  run-fifo n ks = run-values (make n) ks refl (make-WellFormed n)
