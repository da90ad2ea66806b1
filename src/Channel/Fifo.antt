-- ===== src/Channel/Fifo.antt =====
-- The values that pass through a channel, in their order.
use uring_fiber.Prelude.{
  ℕ, ◌<◌, ◌≡◌, ◌≢◌, refl, ap, ◌∙◌, if_cases, false, List, [], ◌∷◌, ◌++◌, map, append_assoc,
  append-nil, map-append, ◌==◌, ltb, ltb→lt, length, arith,
}
use uring_fiber.Channel.Body.{
  SendItem, Chan, Outcome, send_body, send_open, send_store, recv_body, recv_from, recv_park,
  recv_unbuffered, refill,
}
use uring_fiber.Channel.Order.{WellFormed}

module _ {ℓ} {T : Type ℓ} where
  -- The values handed to receivers so far, oldest first.
  abbrev pub received : Chan T → List T
  received c = map (λ w. w.1) c.writes

  -- The values of the parked senders, longest wait first.
  abbrev pub pending : Chan T → List T
  pending c = map (λ s. s.value) c.send_queue

  -- All values that the channel has taken and not dropped, oldest first.
  abbrev pub values : Chan T → List T
  values c = received c ++ (c.buffer ++ pending c)

  no_senders : (c : Chan T) → length c.buffer < c.capacity → WellFormed c → c.send_queue ≡ []
  no_senders c room w = go c.send_queue refl
    where
      go : (sq : List (SendItem T)) → c.send_queue ≡ sq → sq ≡ []
      go [] h = refl
      go (s ∷ ss) h =
          let ne : c.send_queue ≢ [] = λ g. cc in absurd (omega (arith, w.senders_wait ne))

  refill-values :
      (sq : List (SendItem T)) (c : Chan T) → c.send_queue ≡ sq → values (refill sq c) ≡ values c
  unfolding refill
  refill-values [] c q = refl
  refill-values (s ∷ ss) c q =
      rw q (ap (◌++◌ (received c)) (append_assoc c.buffer (s.value ∷ []) (map (λ x. x.value) ss)))

  recv_unbuffered-values :
      (self : ℕ) (sq : List (SendItem T)) (c : Chan T)
      → c.send_queue ≡ sq
      → c.buffer ≡ []
      → values (recv_unbuffered self sq c).0 ≡ values c
  unfolding recv_unbuffered recv_park
  recv_unbuffered-values self [] c q e = refl
  recv_unbuffered-values self (s ∷ ss) c q e =
      if_cases (λ (r : Chan T × Outcome). values r.0 ≡ values c) (c.capacity == 0)
        (λ sync. rw (e, q) (simp (map-append, append_assoc))) λ other. refl

  recv_from-values :
      (self : ℕ) (vs : List T) (c : Chan T)
      → c.buffer ≡ vs
      → values (recv_from self vs c).0 ≡ values c
  unfolding recv_from
  recv_from-values self [] c e =
      if_cases (λ (r : Chan T × Outcome). values r.0 ≡ values c) c.closed (λ cl. refl)
        λ o. recv_unbuffered-values self c.send_queue c refl e
  recv_from-values self (v ∷ vs) c e =
      refill-values c.send_queue (record c { buffer = vs; writes = c.writes ++ (self, v) ∷ [] })
        refl
      ∙ rw e (simp (map-append, append_assoc))

  -- `operator>>` moves a value along, or parks or throws: it loses none and changes no order.
  pub recv_body-values : (self : ℕ) (c : Chan T) → values (recv_body self c).0 ≡ values c
  unfolding recv_body
  recv_body-values self c = recv_from-values self c.buffer c refl

  send_store-values :
      (self : ℕ) (v : T) (c : Chan T)
      → WellFormed c
      → values (send_store self v c).0 ≡ values c ++ v ∷ []
  unfolding send_store
  send_store-values self v c w =
      if_cases (λ (r : Chan T × Outcome). values r.0 ≡ values c ++ v ∷ [])
        (ltb (length c.buffer) c.capacity)
        (λ room.
          let q = no_senders c (ltb→lt (length c.buffer) c.capacity room) w in
          rw q (simp (append-nil, append_assoc)))
        λ full. simp (map-append, append_assoc)

  send_open-values :
      (self : ℕ) (v : T) (rq : List ℕ) (c : Chan T)
      → c.recv_queue ≡ rq
      → WellFormed c
      → values (send_open self v rq c).0 ≡ values c ++ v ∷ []
  unfolding send_open
  send_open-values self v [] c e w = send_store-values self v c w
  send_open-values self v (t ∷ ts) c e w =
      let ne : c.recv_queue ≢ [] = λ h. cc in
      let (b, q) = w.receivers_wait ne in rw (b, q) (simp (map-append, append-nil))

  -- `operator<<` on an open channel adds its value behind all others.
  pub send_body-values :
      (self : ℕ) (v : T) (c : Chan T)
      → c.closed ≡ false
      → WellFormed c
      → values (send_body self v c).0 ≡ values c ++ v ∷ []
  unfolding send_body
  send_body-values self v c o w =
      if_cases (λ (r : Chan T × Outcome). values r.0 ≡ values c ++ v ∷ []) c.closed (λ cl. cc)
        λ e. send_open-values self v c.recv_queue c refl w
