-- ===== src/PowerSensor/Stopping.antt =====
-- The simulator thread ends behind the turn at which it is asked to.
use psc_mock_server.Prelude.{
  ℕ, zero, suc, ◌+◌, ◌<◌, ◌≡◌, refl, Bool, true, false, some, List, [], ◌∷◌, arith,
}
use psc_mock_server.Prelude.Int.{ℤ}
use psc_mock_server.PowerSensor.{Doubles, Generator, Simulation, run_tick, run_simulator}
use psc_mock_server.PowerSensor.Walks.{run_ticks}

-- The times of some turns, from the n-th on.
abbrev pub times_from : (ℕ → ℤ) → ℕ → ℕ → List ℤ
times_from times n zero = []
times_from times n (suc count) = times n ∷ times_from times (suc n) count

module _ (f : Doubles) {R : Type 0} (g : Generator R) (times : ℕ → ℤ) (stops : ℕ → Bool) where
  stops_at :
      (more fuel n last : ℕ) (s : Simulation f g)
      → n + more ≡ last
      → ((m : ℕ) → m < last → stops m ≡ false)
      → stops last ≡ true
      → more < fuel
      → run_simulator f g times stops fuel n s
        ≡ some (run_ticks f g (times_from times n (suc more)) s)
  unfolding run_simulator
  stops_at more zero n last s e before now h = absurd (omega (arith, h))
  stops_at zero (suc fuel) n last s e before now h =
      let at : n ≡ last = omega (arith, e) in rw (at, now) refl
  stops_at (suc more) (suc fuel) n last s e before now h = rw (before n (omega (arith, e))) (
      stops_at more fuel (suc n) last (run_tick f g (times n) s) (omega (arith, e)) before now
        (omega (arith, h)))

  -- If the stop is first answered by the wait behind turn `last`, counted from 0, then with more
  -- fuel than that the simulator ends, and it has run exactly the turns from 0 to `last`, so one
  -- at least.
  pub run_simulator_lem :
      (last fuel : ℕ) (s : Simulation f g)
      → ((m : ℕ) → m < last → stops m ≡ false)
      → stops last ≡ true
      → last < fuel
      → run_simulator f g times stops fuel 0 s
        ≡ some (run_ticks f g (times_from times 0 (suc last)) s)
  run_simulator_lem last fuel s before now h =
      stops_at last fuel 0 last s (omega arith) before now h
