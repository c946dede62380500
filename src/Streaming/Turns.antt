-- ===== src/Streaming/Turns.antt =====
-- One turn of the STREAM loop for a subscription on change.
use psc_mock_server.Prelude.{
  ◌≡◌, ◌≢◌, ◌↔◌, refl, ℕ, suc, Option, false, [], ◌∷◌, inl, inr, Bool, Bool-cases,
}
use psc_mock_server.Prelude.Texts.{Text}
use psc_mock_server.Prelude.Int.{ℤ}
use psc_mock_server.OrderedMap.{OrderedMap}
use psc_mock_server.Gnmi.{TypedValue}
use psc_mock_server.DataProvider.{DataProvider, Snapshot}
use psc_mock_server.LeafStore.Diff.{SameValues}
use psc_mock_server.Registry
use psc_mock_server.Registry.{Registry}
use psc_mock_server.Emit.{Parts, full_notifications, build_full_notifications, partition}
use psc_mock_server.Emit.Changes.{change_silent_iff}
use psc_mock_server.Emit.Heartbeat.{heartbeat_due}
use psc_mock_server.Subscribe.{World}
use psc_mock_server.Streaming.{OnChangeSub, turn_notifications, turned}

not_empty :
    (clock : Option Text → ℤ) (rest : Snapshot) (groups : OrderedMap Snapshot)
    → full_notifications clock (record { non_atomic = rest; groups = groups }) ≢ []
unfolding full_notifications
not_empty clock [] [] h = cc
not_empty clock [] ((c, group) ∷ groups) h = cc
not_empty clock (leaf ∷ rest) groups h = cc

full_not_empty : (clock : Option Text → ℤ) (parts : Parts) → full_notifications clock parts ≢ []
unfolding full_notifications
full_not_empty clock parts h = not_empty clock parts.non_atomic parts.groups h

module _ {P : Type 0} ⦃i : DataProvider P⦄ (w : World P) (serialize : TypedValue → Text) where
  -- What a turn at a moment reads of the registry.
  abbrev pub seen : OnChangeSub → ℕ → Snapshot
  seen oc m = (Registry.snapshot (w.registry m) oc.query).snap

  -- Whether the heartbeat of a subscription is due in the turn.
  abbrev pub beats : OnChangeSub → ℕ → Bool
  beats oc m = heartbeat_due oc.sub.heartbeat_interval oc.last_heartbeat (w.time (suc m))

  -- A turn sends nothing exactly when no heartbeat is due and the snapshot that it reads holds the
  -- values that the turn before it kept; what it reads is kept for the next turn.
  pub turn_silent_iff :
      (oc : OnChangeSub) (m : ℕ)
      → ((turn_notifications w serialize oc m ≡ [])
          ↔ ((beats oc m ≡ false) × SameValues serialize oc.prev (seen oc m)))
        × ((turned w serialize oc m).prev ≡ seen oc m)
  unfolding turn_notifications turned build_full_notifications
  turn_silent_iff oc m =
      let change =
        change_silent_iff (w.registry (suc (suc m))) serialize (w.unix_time (suc (suc m))) oc.prev
          (seen oc m) in
      elim (Bool-cases (beats oc m)) [
        | inl e ↦ rw e (
          (
            λ h. absurd (
                full_not_empty (w.unix_time (suc (suc m)))
                  (partition (w.registry (suc (suc m))) (seen oc m)) h),
            λ h. cc (h.0),
          ),
          refl,
        )
        | inr e ↦ rw e ((λ h. (refl, change.0 h), λ h. change.1 h.1), refl)
      ]
