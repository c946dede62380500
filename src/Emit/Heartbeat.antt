-- ===== src/Emit/Heartbeat.antt =====
-- `heartbeatDue` of src/gnmi/subscribe_emit.cpp. A time point is its count of nanoseconds.
use psc_mock_server.Prelude.{
  ℕ, ◌+◌, ◌-◌, ◌^◌, ◌≤◌, ◌<◌, ◌≡◌, ◌↔◌, Bool, true, false, if◌then◌else◌, ◌==◌, ltb, leb, arith,
}
use psc_mock_server.Prelude.Int.{ℤ, pos, negsuc, leb_ℤ, pos_part, neg_part}

-- `now - last` of two time points
unfoldable pub elapsed : ℤ → ℤ → ℤ
elapsed now last =
    let a = pos_part now + neg_part last in
    let b = pos_part last + neg_part now in if leb b a then pos (a - b) else negsuc (b - a - 1)

-- `static_cast<long long>` of a 64-bit unsigned number
unfoldable pub to_long_long : ℕ → ℤ
to_long_long n = if ltb n (2 ^ 63) then pos n else negsuc (2 ^ 64 - n - 1)

unfoldable pub heartbeat_due : ℕ → ℤ → ℤ → Bool
unfolding elapsed to_long_long
heartbeat_due interval_ns last now =
    if interval_ns == 0 then false else leb_ℤ (to_long_long interval_ns) (elapsed now last)

-- For an interval of at most the largest `int64_t`, a heartbeat is due exactly when the interval is
-- not zero and has passed since the last one.
pub heartbeat_due_iff :
    (interval last now : ℕ)
    → interval < 2 ^ 63
    → (heartbeat_due interval (pos last) (pos now) ≡ true)
      ↔ ((0 < interval) × (last + interval ≤ now))
unfolding heartbeat_due
heartbeat_due_iff interval last now h = (λ e. ground arith, λ e. ground arith)

-- A larger interval turns negative in the cast: a heartbeat is due at every poll, however soon.
pub heartbeat_due_large :
    (interval last now : ℕ)
    → 2 ^ 63 ≤ interval
    → interval < 2 ^ 64
    → last ≤ now
    → heartbeat_due interval (pos last) (pos now) ≡ true
unfolding heartbeat_due
heartbeat_due_large interval last now h k le = ground arith
