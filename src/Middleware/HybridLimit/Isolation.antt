-- ===== src/Middleware/HybridLimit/Isolation.antt =====
-- One client of the hybrid limiter among others.
use lewly_pgpyewj.Prelude.{
  ℕ, ◌≡◌, ◌≢◌, refl, ◌∙◌, arith, Bool-cases, inl, inr, List, [], ◌∷◌, ==_iff,
}
use lewly_pgpyewj.Middleware.HybridLimit.{
  Key, Limits, Arrival, or_unknown, host_of, limit_by, limit_by_ip, limit_in_memory, hybrid,
  serve_all,
}

-- requests whose client is another one, by IP and by host
abbrev pub AllApart : Arrival → List Arrival → Type 0
AllApart a [] = Unit
AllApart a (b ∷ bs) =
    (or_unknown b.client_ip ≢ or_unknown a.client_ip) × (host_of b ≢ host_of a) × AllApart a bs

module _ (rps burst : ℕ) where
  -- what the limits hold for the client of `a`
  abbrev Same : Arrival → Limits → Limits → Type 0
  Same a l l' =
      (l'.sets (Key.rate_limit_of (or_unknown a.client_ip))
        ≡ l.sets (Key.rate_limit_of (or_unknown a.client_ip)))
      × (l'.buckets (host_of a) ≡ l.buckets (host_of a))

  hybrid-Same :
      (a b : Arrival) (l : Limits)
      → or_unknown b.client_ip ≢ or_unknown a.client_ip
      → host_of b ≢ host_of a
      → Same a l (hybrid rps burst b l).0
  unfolding hybrid limit_by_ip limit_by limit_in_memory
  hybrid-Same a b l apart elsewhere = grind (arith, ==_iff)

  serve_all-Same :
      (a : Arrival) (bs : List Arrival) (l : Limits)
      → AllApart a bs
      → Same a l (serve_all rps burst (hybrid rps burst) bs l).0
  unfolding serve_all
  serve_all-Same a [] l apart = (refl, refl)
  serve_all-Same a (b ∷ bs) l (apart, elsewhere, others) =
      let step = hybrid-Same a b l apart elsewhere in
      let rest = serve_all-Same a bs (hybrid rps burst b l).0 others in
      (rest.0 ∙ step.0, rest.1 ∙ step.1)

  hybrid-verdict :
      (a : Arrival) (l l' : Limits)
      → Same a l l'
      → (hybrid rps burst a l').1 ≡ (hybrid rps burst a l).1
  unfolding hybrid limit_by_ip limit_by limit_in_memory
  hybrid-verdict a l l' (members, bucket) = elim (Bool-cases a.ping) [
    | inl up ↦ rw (up, members) refl
    | inr down ↦ rw (down, bucket) refl
  ]

  -- Whatever requests other clients send before, and whether Redis answers them or not: a request
  -- gets the verdict of the hybrid limiter that it would have got without them. Other clients are
  -- those with another IP and another host; all without an IP count as one client.
  pub hybrid-isolated :
      (a : Arrival) (bs : List Arrival) (l : Limits)
      → AllApart a bs
      → (hybrid rps burst a (serve_all rps burst (hybrid rps burst) bs l).0).1
        ≡ (hybrid rps burst a l).1
  hybrid-isolated a bs l apart =
      hybrid-verdict a l (serve_all rps burst (hybrid rps burst) bs l).0
        (serve_all-Same a bs l apart)
