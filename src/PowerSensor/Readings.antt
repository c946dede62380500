-- ===== src/PowerSensor/Readings.antt =====
-- What the simulator writes: for each path of a walk a double between the bounds of that walk.
use psc_mock_server.Prelude.{
  ℕ, ◌≡◌, ◌∙◌, refl, sym, ap, false, List, [], ◌∷◌, map, All, Member, All-Member, arith,
}
use mathlib.Core.Path.{subst}
use psc_mock_server.Prelude.Texts.{Text}
use psc_mock_server.Prelude.Int.{ℤ}
use psc_mock_server.Gnmi.{TypedValue}
use psc_mock_server.Utils.{strip_path_quotes}
use psc_mock_server.DataProvider.{WriteBatch, double, typed_value, set_op}
use psc_mock_server.StoreBacked.Keys.{
  LeavesIn, WritesIn, DeclaresIn, LeavesIn-commit_stamped, LeavesIn-init_leaves,
}
use psc_mock_server.PowerSensor.{
  Doubles, Generator, Walk, move, advance, tick_walks, Simulation, run_tick, declare_walks,
  build_walks, new_power_sensor,
}
use psc_mock_server.PowerSensor.Walks.{InRange, report, tick_walks_lem, tick_walks-InRange}

module _ (f : Doubles) where
  -- The walk is one that was built, with another value.
  pub record IsBuilt (w : Walk) : Type 0 where
    pub origin : Walk
    pub built : Member origin (build_walks f)
    pub same_path : w.path ≡ origin.path
    pub same_lo : w.lo ≡ origin.lo
    pub same_hi : w.hi ≡ origin.hi

  -- The value at the key is a double between the bounds of the walk that was built for it.
  pub record IsReading (k : Text) (v : TypedValue) : Type 0 where
    pub walk : Walk
    pub built : Member walk (build_walks f)
    pub key : strip_path_quotes walk.path ≡ k
    pub reading : ℕ
    pub is_double : v ≡ typed_value (double reading)
    pub not_below : f.less reading walk.lo ≡ false
    pub not_above : f.less walk.hi reading ≡ false

  IsReading-walk :
      (w : Walk)
      → InRange f w
      → IsBuilt w
      → IsReading (strip_path_quotes w.path) (typed_value (double w.value))
  IsReading-walk w r b = record {
    walk = b.origin;
    built = b.built;
    key = ap strip_path_quotes (sym b.same_path);
    reading = w.value;
    is_double = refl;
    not_below = rw (← b.same_lo) r.not_below;
    not_above = rw (← b.same_hi) r.not_above;
  }

  module _ {R : Type 0} (g : Generator R) where
    advance_same :
        (w : Walk) (rng : R)
        → ((advance f g w rng).0.path ≡ w.path)
          × ((advance f g w rng).0.lo ≡ w.lo)
          × ((advance f g w rng).0.hi ≡ w.hi)
    unfolding advance move
    advance_same w rng = ground arith

    advance-IsBuilt : (w : Walk) (rng : R) → IsBuilt w → IsBuilt (advance f g w rng).0
    advance-IsBuilt w rng b =
        let (path, lo, hi) = advance_same w rng in
        record {
          origin = b.origin;
          built = b.built;
          same_path = path ∙ b.same_path;
          same_lo = lo ∙ b.same_lo;
          same_hi = hi ∙ b.same_hi;
        }

    tick_walks-IsBuilt :
        (now : ℤ) (walks : List Walk) (rng : R) (tick : WriteBatch)
        → All IsBuilt walks
        → All IsBuilt (tick_walks f g now walks rng tick).0
    unfolding tick_walks
    tick_walks-IsBuilt now [] rng tick h = tt
    tick_walks-IsBuilt now (w ∷ walks) rng tick h =
        (advance-IsBuilt w rng h.0, tick_walks-IsBuilt now walks _ _ h.1)

    reports_in :
        (now : ℤ) (walks : List Walk)
        → All (InRange f) walks
        → All IsBuilt walks
        → All (WritesIn IsReading) (map (report now) walks)
    unfolding set_op
    reports_in now [] r b = tt
    reports_in now (w ∷ walks) r b = (λ e. IsReading-walk w r.0 b.0, reports_in now walks r.1 b.1)

    -- The thread's walks are built ones between their bounds, and the leaves of its provider are
    -- readings.
    pub record IsSimulated (s : Simulation f g) : Type 0 where
      pub in_range : All (InRange f) s.walks
      pub built : All IsBuilt s.walks
      pub readings : LeavesIn IsReading s.provider.store.leaves

    -- A turn of the thread keeps that.
    pub IsSimulated-run_tick :
        (irrefl : (x : ℕ) → f.less x x ≡ false) (now : ℤ) (s : Simulation f g)
        → IsSimulated s
        → IsSimulated (run_tick f g now s)
    unfolding run_tick
    IsSimulated-run_tick irrefl now s h =
        let range = tick_walks-InRange f irrefl g now s.walks s.rng [] h.in_range in
        let built = tick_walks-IsBuilt now s.walks s.rng [] h.built in
        record {
          in_range = range;
          built = built;
          readings =
              LeavesIn-commit_stamped IsReading s.provider (tick_walks f g now s.walks s.rng []).2
                h.readings
                (rw (tick_walks_lem f g now s.walks s.rng [])
                  (reports_in now (tick_walks f g now s.walks s.rng []).0 range built));
        }

  declares_in :
      (now : ℤ) (walks : List Walk)
      → All (InRange f) walks
      → All IsBuilt walks
      → All (DeclaresIn IsReading) (declare_walks now walks)
  unfolding declare_walks
  declares_in now [] r b = tt
  declares_in now (w ∷ walks) r b = (
    λ v e. subst (IsReading (strip_path_quotes w.path)) (cc e) (IsReading-walk w r.0 b.0),
    declares_in now walks r.1 b.1,
  )

  pub start-IsBuilt : All IsBuilt (build_walks f)
  start-IsBuilt =
      All-Member IsBuilt (build_walks f)
        (λ w m. record { origin = w; built = m; same_path = refl; same_lo = refl; same_hi = refl })

  pub new_power_sensor_readings :
      (now : ℤ)
      → All (InRange f) (build_walks f)
      → LeavesIn IsReading (new_power_sensor f now).store.leaves
  unfolding new_power_sensor
  new_power_sensor_readings now r =
      LeavesIn-init_leaves IsReading (declare_walks now (build_walks f))
        (declares_in now (build_walks f) r start-IsBuilt)
