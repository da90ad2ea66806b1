-- ===== src/LfQueue/Safe/Delta.antt =====
-- How the counts of a node follow one thread.
use uring_fiber.Prelude.{ℕ, ◌+◌, ◌%◌, ◌^◌, ◌<◌, ◌≡◌, true, update, arith}
use uring_fiber.LfQueue.Safe.{
  Role, View, Ranks, tally, refers, handing, shares, anchors, counts_at, words_at,
}
use uring_fiber.LfQueue.Safe.Tally.{tally-update}
use uring_fiber.LfQueue.Safe.Sound.{Counted}

mod_move :
    (a s b w e a' s' b' w' e' : ℕ) (si sq ri rq ei eq : ℕ)
    → (a + s) % 2 ^ 16 ≡ (b + w + e) % 2 ^ 16
    → s' + si ≡ s + sq
    → b' + ri ≡ b + rq
    → e' + ei ≡ e + eq
    → (a' + sq + ri + w + ei) % 2 ^ 16 ≡ (a + si + rq + w' + eq) % 2 ^ 16
    → (a' + s') % 2 ^ 16 ≡ (b' + w' + e') % 2 ^ 16
mod_move a s b w e a' s' b' w' e' si sq ri rq ei eq h hs hb he hd = omega arith

module _ (n : ℕ) (v v' : View) (k k' : Ranks) (r : ℕ → Role) (i : ℕ) (q : Role) (few : i < n)
    (c : Counted n v k r) where
  pub externals-follow :
      (p : ℕ)
      → v.alive p ≡ true
      → 0 < k.rank p
      → v'.external p + anchors k p + handing p (r i) ≡ v.external p + anchors k' p + handing p q
      → v'.external p ≡ anchors k' p + tally n (handing p) (update r i q)
  externals-follow p l some_rank d =
      let moved = tally-update n (handing p) r i q few in
      let was = c.externals p l some_rank in omega (arith, moved, was, d)

  pub internals-follow :
      (p : ℕ)
      → v.alive p ≡ true
      → 0 < k.rank p
      → (counts_at v' p + shares p q + refers p (r i) + words_at v p + handing p (r i)) % 2 ^ 16
        ≡ (counts_at v p + shares p (r i) + refers p q + words_at v' p + handing p q) % 2 ^ 16
      → (counts_at v' p + tally n (shares p) (update r i q)) % 2 ^ 16
        ≡ (tally n (refers p) (update r i q) + words_at v' p + tally n (handing p) (update r i q))
          % 2 ^ 16
  internals-follow p l some_rank d =
      mod_move (counts_at v p) (tally n (shares p) r) (tally n (refers p) r) (words_at v p)
        (tally n (handing p) r) (counts_at v' p) (tally n (shares p) (update r i q))
        (tally n (refers p) (update r i q)) (words_at v' p) (tally n (handing p) (update r i q))
        (shares p (r i)) (shares p q) (refers p (r i)) (refers p q) (handing p (r i)) (handing p q)
        (c.internals p l some_rank) (tally-update n (shares p) r i q few)
        (tally-update n (refers p) r i q few) (tally-update n (handing p) r i q few) d
