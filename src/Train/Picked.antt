-- ===== src/Train/Picked.antt =====
-- tools/maintenance-train/selector.py: what a selection of beads guarantees.
use nervous_bus.Prelude.{
  ℕ, ◌-◌, ◌≤◌, ◌≡◌, ◌⊎◌, String, true, false, List, [], ◌∷◌, All, length, one_of, ◌==◌, Dict,
  lookup, arith,
}
use nervous_bus.Train.Select.{Candidate, RepoConfig, Surroundings, ranks_before, is_fit, pick_from}

-- The repositories differ from each other and from those seen.
unfoldable pub Distinct : List String → List Candidate → Type 0
Distinct seen [] = Unit
Distinct seen (c ∷ cs) = (one_of c.repo seen ≡ false) × Distinct (c.repo ∷ seen) cs

-- Each ranks before every later one, or with it.
unfoldable pub Ranked : List Candidate → Type 0
Ranked [] = Unit
Ranked (c ∷ cs) = All (λ d. ranks_before c d ≡ true) cs × Ranked cs

module _ (w : Surroundings) (cfg : Dict RepoConfig) where
  -- A candidate whose repository is configured, clean and without an open pull request.
  unfoldable pub Fit : Candidate → Type 0
  Fit c = is_fit w (lookup c.repo cfg) ≡ true

  -- One turn of the loop: it stops, takes the candidate, or passes it over.
  unfoldable Turn : ℕ → List String → Candidate → List Candidate → List Candidate → Type 0
  Turn room seen c cs out =
      (out ≡ [])
      ⊎ (((room == 0) ≡ false)
          × (one_of c.repo seen ≡ false)
          × Fit c
          × (out ≡ c ∷ pick_from w cfg (room - 1) (c.repo ∷ seen) cs))
      ⊎ ((seen' : List String) × ((s : String) → one_of s seen' ≡ false → one_of s seen ≡ false)
          × (out ≡ pick_from w cfg room seen' cs))

  -- What a selection has: few picks, fit repositories, each of them once, in order.
  unfoldable pub Good : ℕ → List String → List Candidate → Type 0
  Good room seen out = (length out ≤ room) × All Fit out × Distinct seen out × Ranked out

total : (c d : Candidate) → ranks_before c d ≡ false → ranks_before d c ≡ true
unfolding ranks_before
total c d h = ground (arith, h)
