-- ===== src/Channel/Tests.antt =====
-- Concrete histories of a channel.
use uring_fiber.Prelude.{ℕ, ◌≡◌, ◌≢◌, refl, false, ◌||◌, List, [], ◌∷◌, ◌++◌, arith}
use uring_fiber.Channel.Body.{Chan, threw, hangs, make, close_body, send_body, recv_body}
use uring_fiber.Channel.Calls.{close, send, recv, resume, locked_chan}
use uring_fiber.Channel.Order.{WellFormed}
use uring_fiber.Channel.Fifo.{received, pending}
use uring_fiber.Channel.History.{
  Call, sends, receives, closes, run, dropped, make-WellFormed, run-WellFormed,
}
use uring_fiber.Channel.Handles.{Store, HandleOp, constructs, copies, calls, perform, perform-fifo}
use uring_fiber.Channel.Closing.{listed, close-wakes-all}
use uring_fiber.Channel.Locked.{IsStuck, Completes, taken-IsStuck, free-Completes}

-- Two values through a buffer of one, with the second sender parked; then one receiver.
abbrev history : List (Call ℕ)
history = sends 1 10 ∷ sends 2 20 ∷ receives 3 ∷ sends 4 30 ∷ closes ∷ receives 5 ∷ []

run-WellFormed_example : WellFormed (run (make {T = ℕ} 1) history)
run-WellFormed_example = run-WellFormed (make 1) history (make-WellFormed 1)

-- Task 4's value is dropped by the `Close` that finds it parked; the others arrive in their order.
history-received : received (run (make 1) history) ≡ 10 ∷ 20 ∷ []
unfolding run send_body recv_body close_body
history-received = refl

-- An unbuffered channel with sender 1 parked in it.
abbrev sender_parked : Chan ℕ
sender_parked = (send 1 10 (make 0)).0

taken-IsStuck_example :
    IsStuck (close sender_parked).1
    × ((self : ℕ) (v : ℕ) → IsStuck (send self v sender_parked).1)
    × ((self : ℕ) → IsStuck (recv self sender_parked).1)
unfolding send send_body
taken-IsStuck_example =
    taken-IsStuck sender_parked (record { locked = refl; no_queue = refl; few = omega arith })

-- The receiver gets the value, and hangs in `unlock`.
rendezvous_hangs : (recv 2 sender_parked).1 ≡ hangs
unfolding send send_body recv recv_body
rendezvous_hangs = refl

free-Completes_example :
    Completes (close (make {T = ℕ} 2)) (close_body (locked_chan (make 2)))
    × ((self : ℕ) (v : ℕ)
        → Completes (send self v (make 2)) (send_body self v (locked_chan (make 2))))
    × ((self : ℕ) → Completes (recv self (make {T = ℕ} 2)) (recv_body self (locked_chan (make 2))))
free-Completes_example = free-Completes (make 2) refl

abbrev two_waiting : Chan ℕ
two_waiting = record (make 1) {
  buffer = 10 ∷ [];
  send_queue = record { task = 1; value = 20 } ∷ record { task = 2; value = 30 } ∷ [];
}

close-wakes-all_example :
    ((close_body two_waiting).0.ready ≡ 1 ∷ 2 ∷ [])
    × ((t : ℕ)
        → (close_body two_waiting).0.is_error t ≡ (listed t [] || (listed t (1 ∷ 2 ∷ []) || false)))
    × ((close_body two_waiting).0.buffer ≡ 10 ∷ [])
    × (received (close_body two_waiting).0 ≡ [])
    × ((t : ℕ) (e : Chan ℕ) → (resume t e).1 ≢ threw)
close-wakes-all_example = close-wakes-all two_waiting refl

-- Two new channels, and no handle to any other.
abbrev two_channels : Store ℕ
two_channels = record { chans = λ p. make 1; next = 2; refers = λ h. h }

-- Handle 5 is new, and handle 6 a copy of it.
abbrev new_use : List (HandleOp ℕ)
new_use =
    copies 6 5
    ∷ calls 6 (sends 1 10)
    ∷ calls 5 (sends 2 20)
    ∷ calls 0 (sends 3 30)
    ∷ calls 6 (receives 4)
    ∷ []

perform-fifo_example :
    let c = (perform two_channels (constructs 5 1 ∷ new_use)).chans 2 in
    received c
      ++ (c.buffer ++ pending c)
      ++ dropped (make 1) (sends 1 10 ∷ sends 2 20 ∷ receives 4 ∷ [])
    ≡ 10 ∷ 20 ∷ []
perform-fifo_example = perform-fifo two_channels 5 1 new_use
