-- ===== src/PowerSensor/Walks.antt =====
-- The random walks stay between their bounds, and a tick reports all of them at one time.
use psc_mock_server.Prelude.{
  ℕ, ◌≡◌, ◌∙◌, Bool, false, List, [], ◌∷◌, ◌++◌, arith, All, map, append-nil, append_assoc,
}
use psc_mock_server.Prelude.Int.{ℤ}
use psc_mock_server.DataProvider.{
  double, typed_value, WriteOp, WriteBatch, set_op, batch_set_scalar,
}
use psc_mock_server.PowerSensor.{
  Doubles, Generator, Walk, move, advance, tick_walks, Simulation, run_tick,
}

module _ (f : Doubles) where
  -- The value lies between the bounds, and the bounds are in order.
  pub record InRange (w : Walk) : Type 0 where
    pub not_below : f.less w.value w.lo ≡ false
    pub not_above : f.less w.hi w.value ≡ false
    pub ordered : f.less w.hi w.lo ≡ false

module _ (f : Doubles) {R : Type 0} (g : Generator R) where
  -- The turns of the loop, one for each time.
  abbrev pub run_ticks : List ℤ → Simulation f g → Simulation f g
  run_ticks [] s = s
  run_ticks (now ∷ times) s = run_ticks times (run_tick f g now s)

-- The operation that reports a walk.
abbrev pub report : ℤ → Walk → WriteOp
report now w = set_op w.path (typed_value (double w.value)) now

module _ (f : Doubles) (irrefl : (x : ℕ) → f.less x x ≡ false) where
  move-InRange : (up : Bool) (w : Walk) → InRange f w → InRange f (move f up w)
  unfolding move
  move-InRange up w h = ground (arith, irrefl w.lo, irrefl w.hi)

  module _ {R : Type 0} (g : Generator R) where
    advance-InRange : (w : Walk) (rng : R) → InRange f w → InRange f (advance f g w rng).0
    unfolding advance
    advance-InRange w rng h = ground (arith, move-InRange (g.step_up (g.step_now rng).1).0 w h)

    pub tick_walks-InRange :
        (now : ℤ) (walks : List Walk) (rng : R) (tick : WriteBatch)
        → All (InRange f) walks
        → All (InRange f) (tick_walks f g now walks rng tick).0
    unfolding tick_walks
    tick_walks-InRange now [] rng tick h = tt
    tick_walks-InRange now (w ∷ walks) rng tick h =
        (advance-InRange w rng h.0, tick_walks-InRange now walks _ _ h.1)

    -- However the generator draws and however long the thread runs, every walk that starts between
    -- its bounds stays between them, if no double is less than itself.
    pub run_ticks-InRange :
        (times : List ℤ) (s : Simulation f g)
        → All (InRange f) s.walks
        → All (InRange f) (run_ticks f g times s).walks
    unfolding run_tick
    run_ticks-InRange [] s h = h
    run_ticks-InRange (now ∷ times) s h =
        run_ticks-InRange times (run_tick f g now s) (tick_walks-InRange now s.walks s.rng [] h)

module _ (f : Doubles) {R : Type 0} (g : Generator R) where
  -- A tick adds to its batch one report for each walk, in order: the value to which it has moved,
  -- and the one time of the tick.
  pub tick_walks_lem :
      (now : ℤ) (walks : List Walk) (rng : R) (tick : WriteBatch)
      → (tick_walks f g now walks rng tick).2
        ≡ tick ++ map (report now) (tick_walks f g now walks rng tick).0
  unfolding tick_walks batch_set_scalar
  tick_walks_lem now [] rng tick = simp append-nil
  tick_walks_lem now (w ∷ walks) rng tick =
      tick_walks_lem now walks _ _
      ∙ append_assoc tick (report now (advance f g w rng).0 ∷ [])
          (map (report now) (tick_walks f g now walks (advance f g w rng).1 _).0)
