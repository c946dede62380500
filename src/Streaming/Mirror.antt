-- ===== src/Streaming/Mirror.antt =====
-- What a client of an on-change subscription holds after the turns of the STREAM loop.
use psc_mock_server.Prelude.{
  ◌≡◌, ◌↔◌, refl, ℕ, suc, Option, none, some, Bool, true, false, not, ◌&&◌, inl, inr, Bool-cases,
  if◌then◌else◌,
}
use psc_mock_server.Prelude.Texts.{Text}
use psc_mock_server.OrderedMap.{find}
use psc_mock_server.OrderedMap.Laws.{first}
use psc_mock_server.Gnmi.{TypedValue}
use psc_mock_server.DataProvider.{DataProvider, Leaf}
use psc_mock_server.Utils.Nested.{elems_of}
use psc_mock_server.LeafStore.Diff.{value_at, is_some}
use psc_mock_server.Registry
use psc_mock_server.Registry.{Registry}
use psc_mock_server.Emit.{partition}
use psc_mock_server.Emit.Client.{told}
use psc_mock_server.Emit.Mirror.{value_of}
use psc_mock_server.Emit.Follow.{IsLaidOut, Within}
use psc_mock_server.Emit.Refines.{serial}
use psc_mock_server.Emit.Polls.{change_mirrors}
use psc_mock_server.Emit.Resends.{is_resent, full_told}
use psc_mock_server.Subscribe.{World}
use psc_mock_server.Streaming.{OnChangeSub, turn_notifications, turned}
use psc_mock_server.Streaming.Turns.{seen, beats}

-- A full delivery brings a path up to date unless the leaf is gone and nothing clears it.
resent_iff :
    (serialize : TypedValue → Text) (old now : Option Leaf) (resent : Bool) (v : Option TypedValue)
    → serial serialize v ≡ value_at serialize old
    → (serial serialize (first (value_of now) (if resent then none else v))
        ≡ value_at serialize now)
      ↔ ((is_some old && not (is_some now) && not resent) ≡ false)
resent_iff serialize none none true v h = (λ e. refl, λ e. refl)
resent_iff serialize none none false v h = (λ e. refl, λ e. h)
resent_iff serialize (some o) none true v h = (λ e. refl, λ e. refl)
resent_iff serialize (some o) none false v h = (λ e. cc (h, e), λ e. cc)
resent_iff serialize none (some l) resent v h = (λ e. refl, λ e. refl)
resent_iff serialize (some o) (some l) resent v h = (λ e. refl, λ e. refl)

module _ {P : Type 0} ⦃i : DataProvider P⦄ (w : World P) (serialize : TypedValue → Text) where
  -- A heartbeat is due in the turn in which the leaf is found to be gone, and no notification
  -- clears its container.
  abbrev pub is_missed : OnChangeSub → ℕ → Text → Bool
  is_missed oc m k =
      beats w serialize oc m
      && is_some (find k oc.prev)
      && not (is_some (find k (seen w serialize oc m)))
      && not (
          is_resent (Registry.atomic_prefix (w.registry (suc (suc m))) k)
            (partition (w.registry (suc (suc m))) (seen w serialize oc m)).groups)

  -- Where the known paths are laid out as for a poll, a client that holds at one of them the
  -- serialised value that an on-change subscription kept holds after a turn the one that the turn
  -- keeps, exactly when the leaf is not missed. It is missed if a heartbeat is due in the very
  -- turn that finds it gone and its container, if the registry names one, has no leaf left.
  pub turn_current_iff :
      (oc : OnChangeSub) (m : ℕ) (K : Text → Type 0) (k : Text) (v : Option TypedValue)
      → IsLaidOut K (Registry.atomic_prefix (w.registry (suc (suc m))))
      → Within K oc.prev
      → Within K (seen w serialize oc m)
      → K k
      → serial serialize v ≡ value_at serialize (find k oc.prev)
      → (serial serialize (told (elems_of k) (turn_notifications w serialize oc m) v)
          ≡ value_at serialize (find k (turned w serialize oc m).prev))
        ↔ (is_missed oc m k ≡ false)
  unfolding turn_notifications turned
  turn_current_iff oc m K k v laid wp wc kk h = elim (Bool-cases (beats w serialize oc m)) [
    | inl e ↦
        rw
          (
            e,
            full_told (w.registry (suc (suc m))) K laid serialize (w.unix_time (suc (suc m)))
                (seen w serialize oc m) k v wc kk,
          )
          (resent_iff serialize (find k oc.prev) (find k (seen w serialize oc m))
            (is_resent (Registry.atomic_prefix (w.registry (suc (suc m))) k)
              (partition (w.registry (suc (suc m))) (seen w serialize oc m)).groups)
            v h)
    | inr e ↦ rw e (
      λ x. refl,
      λ x.
          change_mirrors (w.registry (suc (suc m))) K laid (w.unix_time (suc (suc m))) serialize
            oc.prev (seen w serialize oc m) k v wp wc kk h,
    )
  ]
