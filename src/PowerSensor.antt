-- ===== src/PowerSensor.antt =====
-- src/backend/psc_power_sensor_provider.hpp and psc_power_sensor_provider.cpp: the sensors and the
-- thread that drives them. A double is its 64-bit pattern; its arithmetic and the random generator
-- are parameters.
pub mod Walks
pub mod ReadOnly
pub mod Readings
pub mod Stopping
use psc_mock_server.Prelude.{
  ℕ, zero, suc, Bool, true, false, Option, none, some, List, [], ◌∷◌, ◌++◌, if◌then◌else◌,
}
use psc_mock_server.Prelude.Texts.{Text, codes}
use psc_mock_server.Prelude.Int.{ℤ}
use psc_mock_server.DataProvider.{operational, WriteBatch, double, typed_value, batch_set_scalar}
use psc_mock_server.StoreBacked.{
  StoreBackedProvider, DeclaredLeaf, new_provider, init_leaves, commit_stamped,
}

-- The operations of IEEE 754 doubles that the source uses, on bit patterns.
pub record Doubles : Type 0 where
  pub plus : ℕ → ℕ → ℕ
  pub minus : ℕ → ℕ → ℕ
  pub times : ℕ → ℕ → ℕ
  pub negate : ℕ → ℕ
  pub less : ℕ → ℕ → Bool

-- `stepNow(rng)` and `stepUp(rng)`: a draw and the state of the generator behind it.
pub record Generator (R : Type 0) : Type 0 where
  pub step_now : R → Bool × R
  pub step_up : R → Bool × R

abbrev pub psc_units : List Text
psc_units = codes "PSC-0" ∷ codes "PSC-1" ∷ []

pub record SensorDef : Type 0 where
  pub suffix : Text
  pub nominal : ℕ
  pub step : ℕ
  pub max_dev : ℕ

abbrev sensor : Text → ℕ → ℕ → ℕ → SensorDef
sensor suffix nominal step max_dev = record {
  suffix = suffix;
  nominal = nominal;
  step = step;
  max_dev = max_dev;
}

-- 45.0, 54.0, 10.0, 12.0, 20.0, 240.0 and 300.0; the steps 0.5, 0.1, 1.0 and 0.0; the deviations
-- 0.05, 0.02, 0.01 and 0.0
abbrev pub sensors : List SensorDef
sensors =
    sensor (codes "/state/temperature/instant") 0x4046800000000000 0x3fe0000000000000
      0x3fa999999999999a
    ∷ sensor (codes "/power-supply/state/input-voltage") 0x404b000000000000 0x3fb999999999999a
        0x3f947ae147ae147b
    ∷ sensor (codes "/power-supply/state/input-current") 0x4024000000000000 0x3fb999999999999a
        0x3fa999999999999a
    ∷ sensor (codes "/power-supply/state/output-voltage") 0x4028000000000000 0x3fb999999999999a
        0x3f847ae147ae147b
    ∷ sensor (codes "/power-supply/state/output-current") 0x4034000000000000 0x3fb999999999999a
        0x3fa999999999999a
    ∷ sensor (codes "/power-supply/state/output-power") 0x406e000000000000 0x3ff0000000000000
        0x3fa999999999999a
    ∷ sensor (codes "/power-supply/state/capacity") 0x4072c00000000000 0x0 0x0
    ∷ []

abbrev pub zero_double : ℕ
zero_double = 0

abbrev pub one_double : ℕ
one_double = 0x3ff0000000000000

pub record Walk : Type 0 where
  pub path : Text
  pub value : ℕ
  pub step : ℕ
  pub lo : ℕ
  pub hi : ℕ

unfoldable pub leaf_path : Text → Text → Text
leaf_path unit suffix = codes "/components/component[name=" ++ unit ++ codes "]" ++ suffix

-- `declareLeaves`: one Operational leaf for each walk, at its nominal value
unfoldable pub declare_walks : ℤ → List Walk → List DeclaredLeaf
unfolding typed_value
declare_walks now [] = []
declare_walks now (w ∷ walks) =
    record {
      path = w.path;
      leaf_type = operational;
      value = some (typed_value (double w.value));
      collected_ns = now;
    }
    ∷ declare_walks now walks

module _ (f : Doubles) where
  unfoldable pub unit_walks : Text → List SensorDef → List Walk
  unfolding leaf_path
  unit_walks unit [] = []
  unit_walks unit (s ∷ defs) =
      record {
        path = leaf_path unit s.suffix;
        value = s.nominal;
        step = s.step;
        lo = f.times s.nominal (f.minus one_double s.max_dev);
        hi = f.times s.nominal (f.plus one_double s.max_dev);
      }
      ∷ unit_walks unit defs

  unfoldable pub build_walks_for : List Text → List Walk
  unfolding unit_walks
  build_walks_for [] = []
  build_walks_for (unit ∷ units) = unit_walks unit sensors ++ build_walks_for units

  unfoldable pub build_walks : List Walk
  unfolding build_walks_for
  build_walks = build_walks_for psc_units

  -- the constructor, up to the start of the thread
  unfoldable pub new_power_sensor : ℤ → StoreBackedProvider
  unfolding declare_walks build_walks init_leaves
  new_power_sensor now = init_leaves (declare_walks now build_walks) new_provider

  -- `std::clamp(v, lo, hi)`
  unfoldable pub clamp : ℕ → ℕ → ℕ → ℕ
  clamp v lo hi = if f.less v lo then lo else if f.less hi v then hi else v

  -- The body of the test in the loop over the walks.
  unfoldable pub move : Bool → Walk → Walk
  unfolding clamp
  move up w = record w {
    value = clamp (f.plus w.value (if up then w.step else f.negate w.step)) w.lo w.hi;
  }

  module _ {R : Type 0} (g : Generator R) where
    -- `if (w.step > 0.0 && stepNow(rng)) { … }`; the generator is drawn from only where the step
    -- is positive
    unfoldable pub advance : Walk → R → Walk × R
    unfolding move
    advance w rng =
        if f.less zero_double w.step
        then (let (now, rng') = g.step_now rng in
            let (up, rng'') = g.step_up rng' in if now then (move up w, rng'') else (w, rng'))
        else (w, rng)

    -- The loop over the walks: the walks moved, the generator, and the batch.
    unfoldable pub tick_walks : ℤ → List Walk → R → WriteBatch → List Walk × R × WriteBatch
    unfolding advance batch_set_scalar
    tick_walks now [] rng tick = ([], rng, tick)
    tick_walks now (w ∷ walks) rng tick =
        let (w', rng') = advance w rng in
        let (walks', rng'', tick') =
          tick_walks now walks rng' (batch_set_scalar tick w'.path (double w'.value) now) in
        (w' ∷ walks', rng'', tick')

    -- The thread's variables with the provider whose `commitStamped` it calls.
    pub record Simulation : Type 0 where
      pub provider : StoreBackedProvider
      pub walks : List Walk
      pub rng : R

    -- one turn of the loop, at the time that `get_time_nanosec` returns
    unfoldable pub run_tick : ℤ → Simulation → Simulation
    unfolding tick_walks commit_stamped
    run_tick now s =
        let (walks', rng', tick) = tick_walks now s.walks s.rng [] in
        record { provider = commit_stamped s.provider tick; walks = walks'; rng = rng' }

    -- `runSimulator` from its n-th turn on: `times` gives the times of the turns, `stops` what the
    -- wait behind a turn answers, which is whether a stop has been requested.
    unfoldable pub run_simulator : (ℕ → ℤ) → (ℕ → Bool) → ℕ → ℕ → Simulation → Option Simulation
    unfolding run_tick
    run_simulator times stops zero n s = none
    run_simulator times stops (suc fuel) n s =
        let ticked = run_tick (times n) s in
        let rest = run_simulator times stops fuel (suc n) ticked in
        if stops n then some ticked else rest
