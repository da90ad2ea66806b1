-- ===== src/Channel/Order.antt =====
-- The order and the number of the values that pass through a channel.
use uring_fiber.Prelude.{
  ℕ, suc, ◌<◌, ◌≤◌, ◌≡◌, ◌≢◌, refl, sym, ap, ap₂, subst, ◌∙◌, inl, inr, if_cases, Bool-cases, true,
  false, List, [], ◌∷◌, ◌++◌, append_assoc, append-nil, ◌==◌, ltb, length, length-append, update,
  arith,
}
use uring_fiber.Channel.Body.{
  SendItem, Chan, Outcome, tasks, fail_all, close_body, send_body, send_open, recv_body, recv_from,
  recv_park, recv_unbuffered, refill,
}

module _ {ℓ} {T : Type ℓ} where
  -- What the comments of the source say of the queues.
  pub record WellFormed (c : Chan T) : Type ℓ where
    pub bounded : length c.buffer ≤ c.capacity
    pub senders_wait : c.send_queue ≢ [] → length c.buffer ≡ c.capacity
    pub receivers_wait : c.recv_queue ≢ [] → (c.buffer ≡ []) × (c.send_queue ≡ [])
    pub nobody_waits : c.closed ≡ true → (c.send_queue ≡ []) × (c.recv_queue ≡ [])

  send_open-WellFormed :
      (self : ℕ) (v : T) (rq : List ℕ) (c : Chan T)
      → c.recv_queue ≡ rq
      → c.closed ≡ false
      → WellFormed c
      → WellFormed (send_open self v rq c).0
  unfolding send_open
  send_open-WellFormed self v [] c e o w =
      if_cases (λ (r : Chan T × Outcome). WellFormed r.0) (ltb (length c.buffer) c.capacity)
        (λ room. record {
          bounded = ground (arith, length-append c.buffer (v ∷ []));
          senders_wait = λ ne. ground (arith, w.senders_wait ne);
          receivers_wait = λ ne. absurd (ne e);
          nobody_waits = λ cl. cc;
        })
        λ full. record {
          bounded = w.bounded;
          senders_wait = λ ne. ground (arith, w.bounded);
          receivers_wait = λ ne. absurd (ne e);
          nobody_waits = λ cl. cc;
        }
  send_open-WellFormed self v (t ∷ ts) c e o w =
      let ne : c.recv_queue ≢ [] = λ h. cc in
      let (none_kept, none_sent) = w.receivers_wait ne in
      record {
        bounded = w.bounded;
        senders_wait = w.senders_wait;
        receivers_wait = λ ne. (none_kept, none_sent);
        nobody_waits = λ cl. cc;
      }

  pub send_body-WellFormed :
      (self : ℕ) (v : T) (c : Chan T) → WellFormed c → WellFormed (send_body self v c).0
  unfolding send_body
  send_body-WellFormed self v c w =
      if_cases (λ (r : Chan T × Outcome). WellFormed r.0) c.closed (λ e. w)
        λ e. send_open-WellFormed self v c.recv_queue c refl e w

  recv_park-WellFormed :
      (self : ℕ) (c : Chan T)
      → c.buffer ≡ []
      → c.send_queue ≡ []
      → c.closed ≡ false
      → WellFormed c
      → WellFormed (recv_park self c).0
  unfolding recv_park
  recv_park-WellFormed self c b q o w = record {
    bounded = w.bounded;
    senders_wait = w.senders_wait;
    receivers_wait = λ ne. (b, q);
    nobody_waits = λ cl. cc;
  }

  recv_unbuffered-WellFormed :
      (self : ℕ) (sq : List (SendItem T)) (c : Chan T)
      → c.send_queue ≡ sq
      → c.buffer ≡ []
      → c.closed ≡ false
      → WellFormed c
      → WellFormed (recv_unbuffered self sq c).0
  unfolding recv_unbuffered
  recv_unbuffered-WellFormed self [] c e b o w = recv_park-WellFormed self c b e o w
  recv_unbuffered-WellFormed self (s ∷ ss) c e b o w =
      let ne : c.send_queue ≢ [] = λ h. cc in
      let full = w.senders_wait ne in
      if_cases (λ (r : Chan T × Outcome). WellFormed r.0) (c.capacity == 0)
        (λ sync. record {
          bounded = w.bounded;
          senders_wait = λ ne2. full;
          receivers_wait = λ ne2. absurd (ne (w.receivers_wait ne2).1);
          nobody_waits = λ cl. cc;
        })
        λ other. ground (arith, full, ap length b)

  -- A value has been taken out of the buffer.
  refill-WellFormed :
      (sq : List (SendItem T)) (c : Chan T)
      → c.send_queue ≡ sq
      → length c.buffer < c.capacity
      → (c.send_queue ≢ [] → suc (length c.buffer) ≡ c.capacity)
      → c.recv_queue ≡ []
      → (c.closed ≡ true → c.send_queue ≡ [])
      → WellFormed (refill sq c)
  unfolding refill
  refill-WellFormed [] c q room full none_wait shut = record {
    bounded = omega arith;
    senders_wait = λ ne. absurd (ne q);
    receivers_wait = λ ne. absurd (ne none_wait);
    nobody_waits = λ cl. (shut cl, none_wait);
  }
  refill-WellFormed (s ∷ ss) c q room full none_wait shut =
      let ne : c.send_queue ≢ [] = λ h. cc in
      record {
        bounded = ground (arith, length-append c.buffer (s.value ∷ []));
        senders_wait = λ more. ground (arith, full ne, length-append c.buffer (s.value ∷ []));
        receivers_wait = λ ne2. absurd (ne2 none_wait);
        nobody_waits = λ cl. absurd (ne (shut cl));
      }

  pub no_receivers :
      (v : T) (vs : List T) (c : Chan T) → c.buffer ≡ v ∷ vs → WellFormed c → c.recv_queue ≡ []
  no_receivers v vs c e w = go c.recv_queue refl
    where
      go : (rq : List ℕ) → c.recv_queue ≡ rq → rq ≡ []
      go [] h = refl
      go (t ∷ ts) h =
          let ne : c.recv_queue ≢ [] = λ g. cc in let empty = (w.receivers_wait ne).0 in cc

  recv_from-WellFormed :
      (self : ℕ) (vs : List T) (c : Chan T)
      → c.buffer ≡ vs
      → WellFormed c
      → WellFormed (recv_from self vs c).0
  unfolding recv_from
  recv_from-WellFormed self [] c e w =
      if_cases (λ (r : Chan T × Outcome). WellFormed r.0) c.closed (λ cl. w)
        λ o. recv_unbuffered-WellFormed self c.send_queue c refl e o w
  recv_from-WellFormed self (v ∷ vs) c e w =
      let size : length c.buffer ≡ suc (length vs) = ap length e in
      refill-WellFormed c.send_queue _ refl (omega (arith, w.bounded))
        (λ ne. sym size ∙ w.senders_wait ne) (no_receivers v vs c e w) λ cl. (w.nobody_waits cl).0

  pub recv_body-WellFormed :
      (self : ℕ) (c : Chan T) → WellFormed c → WellFormed (recv_body self c).0
  unfolding recv_body
  recv_body-WellFormed self c w = recv_from-WellFormed self c.buffer c refl w

  pub fail_all-fields :
      (ts : List ℕ) (c : Chan T)
      → let d = fail_all ts c in
        (d.closed ≡ c.closed)
        × (d.capacity ≡ c.capacity)
        × (d.buffer ≡ c.buffer)
        × (d.send_queue ≡ c.send_queue)
        × (d.recv_queue ≡ c.recv_queue)
        × (d.writes ≡ c.writes)
        × (d.ready ≡ c.ready ++ ts)
  unfolding fail_all
  fail_all-fields [] c = (refl, refl, refl, refl, refl, refl, sym (append-nil c.ready))
  fail_all-fields (t ∷ ts) c =
      let (o, k, b, s, r, w, q) =
        fail_all-fields ts
          (record c { is_error = update c.is_error t true; ready = c.ready ++ t ∷ [] }) in
      (o, k, b, s, r, w, q ∙ append_assoc c.ready (t ∷ []) ts)

  pub close_shut : (c : Chan T) → c.closed ≡ true → (close_body c).0 ≡ c
  unfolding close_body
  close_shut c shut = if_cases (λ (r : Chan T × Outcome). r.0 ≡ c) c.closed (λ e. refl) λ e. cc

  -- Closing an open channel: the queues are empty, both kinds of waiters are ready in their order.
  pub close_open :
      (c : Chan T)
      → c.closed ≡ false
      → let d = (close_body c).0 in
        (d.closed ≡ true)
        × (d.capacity ≡ c.capacity)
        × (d.buffer ≡ c.buffer)
        × (d.send_queue ≡ [])
        × (d.recv_queue ≡ [])
        × (d.writes ≡ c.writes)
        × (d.ready ≡ c.ready ++ tasks c.send_queue ++ c.recv_queue)
  unfolding close_body
  close_open c o =
      let c0 : Chan T = record c { closed = true } in
      let c1 = fail_all (tasks c.send_queue) c0 in
      let (o1, k1, b1, s1, r1, w1, q1) = fail_all-fields (tasks c.send_queue) c0 in
      let (o2, k2, b2, s2, r2, w2, q2) =
        fail_all-fields c1.recv_queue (record c1 { send_queue = [] }) in
      rw o (o2 ∙ o1, k2 ∙ k1, b2 ∙ b1, s2, refl, w2 ∙ w1, q2 ∙ ap₂ ◌++◌ q1 r1)

  pub close_body-WellFormed : (c : Chan T) → WellFormed c → WellFormed (close_body c).0
  close_body-WellFormed c w = elim (Bool-cases c.closed) [
    | inl shut ↦ subst WellFormed (sym (close_shut c shut)) w
    | inr o ↦
        let (shut, k, b, s, r, _, _) = close_open c o in
        record {
          bounded = ground (arith, w.bounded);
          senders_wait = λ ne. absurd (ne s);
          receivers_wait = λ ne. absurd (ne r);
          nobody_waits = λ cl. (s, r);
        }
  ]
