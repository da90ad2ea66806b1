-- ===== src/Prelude/Callers.antt =====
-- Callers of the operations of a shared object, each with the place where it stands.
use mathlib.Core.Path.{◌≡◌, refl, ap, ◌∙◌}
use uring_fiber.Prelude.{ℕ, Bool, true, ◌==◌, ==_iff, Bool-cases, inl, inr, update}

module _ {ℓ} {C : Type ℓ} where
  -- A caller moves from a place to one that passes the test if the first did.
  pub update-somebody :
      (test : C → Bool) (cs : ℕ → C) (j : ℕ) (q : C)
      → (test (cs j) ≡ true → test q ≡ true)
      → (i : ℕ) × (test (cs i) ≡ true)
      → (i : ℕ) × (test (update cs j q i) ≡ true)
  update-somebody test cs j q keep (i, h) = elim (Bool-cases (j == i)) [
    | inl e ↦ (i, rw e (keep (ap test (ap cs ((==_iff j i).0 e)) ∙ h)))
    | inr e ↦ (i, rw e h)
  ]

  pub here_now :
      (test : C → Bool) (cs : ℕ → C) (j : ℕ) (q : C)
      → test q ≡ true
      → (i : ℕ) × (test (update cs j q i) ≡ true)
  here_now test cs j q h = (j, rw ((==_iff j j).1 refl) h)
