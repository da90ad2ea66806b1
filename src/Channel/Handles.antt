-- ===== src/Channel/Handles.antt =====
-- sync/co_chan.hpp: `CoChan<T>`, a handle that can be copied; the copies share one `Channel<T>`. A handle is
-- a variable's number, a channel its number in the store, as in `chan_`.
use uring_fiber.Prelude.{
  ℕ, ◌+◌, ◌<◌, ◌≡◌, ◌==◌, refl, ap, sym, subst, ◌∙◌, false, List, [], ◌∷◌, ◌++◌, update,
  if◌then◌else◌, ==_iff, Bool-cases, inl, inr, update-same, arith,
}
use uring_fiber.Channel.Body.{Chan, make}
use uring_fiber.Channel.Fifo.{received, pending}
use uring_fiber.Channel.History.{Call, step, run, sent_before_close, dropped, run-fifo}

-- `next` is the number of the channel that `std::make_shared` makes next.
pub record Store {ℓ} (T : Type ℓ) : Type ℓ where
  pub chans : ℕ → Chan T
  pub next : ℕ
  pub refers : ℕ → ℕ

pub data HandleOp {ℓ} (T : Type ℓ) : Type ℓ where
  constructs : (h capacity : ℕ) → HandleOp T
  copies : (h from : ℕ) → HandleOp T
  calls : (h : ℕ) (k : Call T) → HandleOp T

module _ {ℓ} {T : Type ℓ} where
  -- The constructor with a capacity; the copy constructor and the assignment; `Close`, `<<` and `>>`.
  unfoldable pub handle_step : Store T → HandleOp T → Store T
  handle_step s (constructs h capacity) = record {
    chans = update s.chans s.next (make capacity);
    next = s.next + 1;
    refers = update s.refers h s.next;
  }
  handle_step s (copies h from) = record s { refers = update s.refers h (s.refers from) }
  handle_step s (calls h k) = record s {
    chans = update s.chans (s.refers h) (step (s.chans (s.refers h)) k);
  }

  unfoldable pub perform : Store T → List (HandleOp T) → Store T
  unfolding handle_step
  perform s [] = s
  perform s (o ∷ os) = perform (handle_step s o) os

  -- The calls that reach channel `p`, from what the handles refer to at the start.
  abbrev pub calls_on : ℕ → (ℕ → ℕ) → ℕ → List (HandleOp T) → List (Call T)
  calls_on p refers next [] = []
  calls_on p refers next (constructs h capacity ∷ os) =
      calls_on p (update refers h next) (next + 1) os
  calls_on p refers next (copies h from ∷ os) = calls_on p (update refers h (refers from)) next os
  calls_on p refers next (calls h k ∷ os) =
      let rest = calls_on p refers next os in if refers h == p then k ∷ rest else rest

  -- Whatever handles are constructed, copied and used, and however the calls on several channels
  -- alternate: a channel that exists at the start ends as a `Channel` on which just the calls through the
  -- handles that refer to it at the time are made, in their order.
  pub perform-run :
      (p : ℕ) (s : Store T) (os : List (HandleOp T))
      → p < s.next
      → (perform s os).chans p ≡ run (s.chans p) (calls_on p s.refers s.next os)
  unfolding perform run
  perform-run p s [] known = refl
  perform-run p s (constructs h n ∷ os) known =
      let rest = perform-run p (handle_step s (constructs h n)) os (omega (arith, known)) in
      let elsewhere : (s.next == p) ≡ false = ground (arith, known) in
      rest
      ∙ ap (λ c. run c (calls_on p (update s.refers h s.next) (s.next + 1) os)) (rw elsewhere refl)
  perform-run p s (copies h from ∷ os) known =
      perform-run p (handle_step s (copies h from)) os known
  perform-run p s (calls h k ∷ os) known =
      let rest = perform-run p (handle_step s (calls h k)) os known in
      elim (Bool-cases (s.refers h == p)) [
        | inl mine ↦
            let same = (==_iff (s.refers h) p).0 mine in
            rest ∙ rw mine (ap (λ q. run (step (s.chans q) k) (calls_on p s.refers s.next os)) same)
        | inr other ↦ rest ∙ rw other refl
      ]

  -- A handle constructed with a capacity, then used and copied in any way, among any others: the values
  -- that its channel has handed to receivers, those it holds, those of parked senders and those that the
  -- first `Close` dropped are the values sent through any handle on it before that `Close`, in order.
  pub perform-fifo :
      (s : Store T) (h n : ℕ) (os : List (HandleOp T))
      → let ks = calls_on s.next (update s.refers h s.next) (s.next + 1) os in
        let c = (perform s (constructs h n ∷ os)).chans s.next in
        received c ++ (c.buffer ++ pending c) ++ dropped (make n) ks ≡ sent_before_close ks
  unfolding perform
  perform-fifo s h n os =
      let ks = calls_on s.next (update s.refers h s.next) (s.next + 1) os in
      let at_first =
        perform-run s.next (handle_step s (constructs h n)) os (omega arith)
        ∙ ap (λ c. run c ks) (update-same s.chans s.next (make n)) in
      subst
        (λ (c : Chan T).
          received c ++ (c.buffer ++ pending c) ++ dropped (make n) ks ≡ sent_before_close ks)
        (sym at_first) (run-fifo n ks)
