-- ===== src/Redis/Conservation.antt =====
-- The token bucket under any row of calls, each of which may fail.
use lewly_pgpyewj.Prelude.{
  ℕ, ◌+◌, ◌≡◌, refl, Bool, true, List, [], ◌∷◌, Uuid, ◌==◌, ==_iff, if◌then◌else◌,
}
use lewly_pgpyewj.Prelude.Int.{ℤ, pos, ◌+ℤ◌, ◌≤ℤ◌, int_laws, parts_eq}
use lewly_pgpyewj.Effect.{Result, ok, err, panic, World, Exec, call}
use lewly_pgpyewj.Redis.{or_zero, reserve, release}

-- the tokens of an event
abbrev pub level : World → Uuid → ℤ
level w event_id = or_zero (w.tokens event_id)

-- the calls of several clients, in the order in which Redis runs them
pub data TokenCall : Type 0 where
  reserves releases : Uuid → ℕ → TokenCall

-- what a call took from the bucket of `event_id`, and what it put back
abbrev pub granted : Uuid → TokenCall → Result Bool → ℕ
granted event_id (reserves key n) (ok true) = if key == event_id then n else 0
granted event_id _ _ = 0

abbrev pub returned : Uuid → TokenCall → Result Bool → ℕ
returned event_id (releases key n) (ok _) = if key == event_id then n else 0
returned event_id _ _ = 0

abbrev done : Result (Unit {0}) × World → Result Bool × World
done (ok _, w) = (ok true, w)
done (err e, w) = (err e, w)
done (panic, w) = (panic, w)

unfoldable pub serve : TokenCall → Exec Bool
serve (reserves key n) w = reserve key n w
serve (releases key n) w = done (release key n w)

-- the world after the calls, what they were granted and what they returned
unfoldable pub serve_all : Uuid → List TokenCall → World → World × ℕ × ℕ
serve_all event_id [] w = (w, 0, 0)
serve_all event_id (c ∷ cs) w =
    let (r, w') = serve c w in
    let (w'', out, back) = serve_all event_id cs w' in
    (w'', granted event_id c r + out, returned event_id c r + back)

-- One call: the level falls by what was granted and rises by what was returned, and never goes
-- below 0.
pub serve_balance :
    (event_id : Uuid) (c : TokenCall) (w : World)
    → pos 0 ≤ℤ level w event_id
    → (level (serve c w).1 event_id +ℤ pos (granted event_id c (serve c w).0)
        ≡ level w event_id +ℤ pos (returned event_id c (serve c w).0))
      × (pos 0 ≤ℤ level (serve c w).1 event_id)
unfolding serve reserve release call
serve_balance event_id (reserves key n) w h = grind (int_laws, ==_iff)
serve_balance event_id (releases key n) w h = grind (int_laws, ==_iff)

-- Over any row of calls of any clients, whichever of them fail, from a level of tokens that is not
-- negative: the tokens that are left and those that were granted are together the tokens that were
-- there and those that were returned, and the level is not negative afterwards. So no more is
-- granted than there was and than was returned.
pub serve_all_balance :
    (event_id : Uuid) (cs : List TokenCall) (w : World)
    → pos 0 ≤ℤ level w event_id
    → let (w', out, back) = serve_all event_id cs w in
      (level w' event_id +ℤ pos out ≡ level w event_id +ℤ pos back) × (pos 0 ≤ℤ level w' event_id)
unfolding serve_all
serve_all_balance event_id [] w h = (refl, h)
serve_all_balance event_id (c ∷ cs) w h =
    let step = serve_balance event_id c w h in
    let rest = serve_all_balance event_id cs (serve c w).1 step.1 in
    (omega (int_laws, parts_eq step.0, parts_eq rest.0), rest.1)

-- If a reservation is granted and the release of as many tokens afterwards succeeds, the event has
-- as many tokens as before.
pub release-reserve :
    (event_id : Uuid) (n : ℕ) (w : World)
    → (reserve event_id n w).0 ≡ ok true
    → (release event_id n (reserve event_id n w).1).0 ≡ ok tt
    → level (release event_id n (reserve event_id n w).1).1 event_id ≡ level w event_id
unfolding reserve release call
release-reserve event_id n w granted_ok released_ok = grind (int_laws, ==_iff)
