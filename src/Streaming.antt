-- ===== src/Streaming.antt =====
-- The STREAM handler of src/gnmi/subscribe.cpp. Its loop runs until the client cancels, so it takes
-- fuel: `none` is a call that is still running after so many rounds. The sleep between two rounds
-- lies between two moments of the world, and the readings of the clock that only set its length
-- are left out.
pub mod Turns
pub mod Mirror
pub mod Ends
pub mod Quiet
pub mod Follow
pub mod Handler
use psc_mock_server.Prelude.{
  ℕ, zero, suc, ◌+◌, ◌-◌, ◌^◌, Bool, true, false, not, Option, none, some, List, [], ◌∷◌, ◌++◌,
  if◌then◌else◌, ltb, is_empty,
}
use psc_mock_server.Prelude.Texts.{Text}
use psc_mock_server.Prelude.Int.{ℤ, leb_ℤ}
use psc_mock_server.Gnmi.{
  TypedValue, Notification, SubscriptionMode, target_defined, on_change, sample, unknown_mode,
  Status, ok, error, invalid_argument, sample_interval_too_large,
}
use psc_mock_server.Gnmi.Requests.{Subscription, SubscriptionList, sync_response}
use psc_mock_server.Utils.{gnmi_to_xpath}
use psc_mock_server.DataProvider.{DataProvider, Snapshot}
use psc_mock_server.Registry
use psc_mock_server.Registry.{Registry}
use psc_mock_server.Emit.{resolve_stream_mode, build_full_notifications, build_change_notifications}
use psc_mock_server.Emit.Heartbeat.{elapsed, to_long_long, heartbeat_due}
use psc_mock_server.Subscribe.{World, Call, write, write_all, try_cancel, emit}

pub record OnChangeSub : Type 0 where
  pub sub : Subscription
  pub query : Text
  pub prev : Snapshot
  pub last_heartbeat : ℤ

-- The variables of the handler: the subscriptions sampled, each with the time of its last sample,
-- and those followed on change.
pub record Buckets : Type 0 where
  pub chronomap : List (Subscription × ℤ)
  pub on_change : List OnChangeSub

abbrev pub no_buckets : Buckets
no_buckets = record { chronomap = []; on_change = [] }

-- The largest `long long`.
abbrev pub max_interval : ℕ
max_interval = 2 ^ 63 - 1

unfoldable pub check_intervals : List Subscription → Status
check_intervals [] = ok
check_intervals (sub ∷ subs) =
    let rest = check_intervals subs in
    if ltb max_interval sub.sample_interval
    then error invalid_argument sample_interval_too_large
    else rest

-- `now - last > nanoseconds{sample_interval}`
unfoldable pub sample_due : ℕ → ℤ → ℤ → Bool
unfolding elapsed to_long_long
sample_due interval last now = not (leb_ℤ (elapsed now last) (to_long_long interval))

module _ {P : Type 0} ⦃i : DataProvider P⦄ (w : World P) where
  -- The bucket of a subscription: the clock is read first, at `m`, then the registry for the mode,
  -- then the registry for the baseline.
  unfoldable pub add_stream : SubscriptionMode → Subscription → ℕ → Buckets → Buckets
  add_stream sample sub m b = record b { chronomap = b.chronomap ++ (sub, w.time m) ∷ [] }
  add_stream on_change sub m b =
      let query = gnmi_to_xpath sub.path in
      let oc : OnChangeSub = record {
        sub = sub;
        query = query;
        prev = (Registry.snapshot (w.registry (suc (suc m))) query).snap;
        last_heartbeat = w.time m;
      } in
      record b { on_change = b.on_change ++ oc ∷ [] }
  add_stream target_defined sub m b = b
  add_stream (unknown_mode n) sub m b = b

  unfoldable pub start_streams : List Subscription → ℕ → Buckets → Buckets × ℕ
  unfolding add_stream
  start_streams [] m b = (b, m)
  start_streams (sub ∷ subs) m b =
      start_streams subs (suc (suc (suc m)))
        (add_stream (resolve_stream_mode (w.registry (suc m)) sub) sub m b)

  -- The loop over the sampled: their new times, those that are due, and the moment.
  unfoldable pub due_samples :
      List (Subscription × ℤ) → ℕ → List (Subscription × ℤ) × List Subscription × ℕ
  unfolding sample_due
  due_samples [] m = ([], [], m)
  due_samples ((sub, last) ∷ chronomap) m =
      let (rest, due, m') = due_samples chronomap (suc (suc m)) in
      if sample_due sub.sample_interval last (w.time m)
      then ((sub, w.time (suc m)) ∷ rest, sub ∷ due, m')
      else ((sub, last) ∷ rest, due, m')

  -- The due subscriptions, with the other fields of the request, in one delivery.
  unfoldable pub emit_due : SubscriptionList → List Subscription → Call → Status × Call
  unfolding emit
  emit_due list due call =
      if is_empty due then (ok, call) else emit w (record list { subscription = due }) call

  module _ (serialize : TypedValue → Text) where
    -- The notifications of one turn for a subscription on change: the current snapshot is read at
    -- `m`, the time behind it.
    unfoldable pub turn_notifications : OnChangeSub → ℕ → List Notification
    unfolding heartbeat_due
    turn_notifications oc m =
        let cur = (Registry.snapshot (w.registry m) oc.query).snap in
        let clock = w.unix_time (suc (suc m)) in
        let registry = w.registry (suc (suc m)) in
        if heartbeat_due oc.sub.heartbeat_interval oc.last_heartbeat (w.time (suc m))
        then build_full_notifications clock cur registry
        else build_change_notifications clock serialize oc.prev cur registry

    -- What the turn keeps of the subscription.
    unfoldable pub turned : OnChangeSub → ℕ → OnChangeSub
    unfolding heartbeat_due
    turned oc m = record oc {
      prev = (Registry.snapshot (w.registry m) oc.query).snap;
      last_heartbeat =
          if heartbeat_due oc.sub.heartbeat_interval oc.last_heartbeat (w.time (suc m))
          then w.time (suc m)
          else oc.last_heartbeat;
    }

    unfoldable pub on_change_turns : List OnChangeSub → Call → List OnChangeSub × Call
    unfolding turn_notifications turned write_all
    on_change_turns [] call = ([], call)
    on_change_turns (oc ∷ ocs) call =
        let m = call.moment in
        let (ocs', call') =
          on_change_turns ocs
            (write_all (turn_notifications oc m) (record call { moment = suc (suc (suc m)) })) in
        (turned oc m ∷ ocs', call')

    -- The second half of a round, if the samples were delivered.
    unfoldable pub finish_round :
        List (Subscription × ℤ) → List OnChangeSub → Status × Call → Status × Buckets × Call
    unfolding on_change_turns
    finish_round chronomap ocs (error c e, call) =
        (error c e, record { chronomap = chronomap; on_change = ocs }, call)
    finish_round chronomap ocs (ok, call) =
        let (ocs', call') = on_change_turns ocs call in
        (ok, record { chronomap = chronomap; on_change = ocs' }, call')

    unfoldable pub stream_round : SubscriptionList → Buckets → Call → Status × Buckets × Call
    unfolding due_samples emit_due finish_round
    stream_round list b call =
        let (chronomap, due, m) = due_samples b.chronomap call.moment in
        finish_round chronomap b.on_change (emit_due list due (record call { moment = m }))

    -- `while (!context->IsCancelled())`
    unfoldable pub stream_loop : ℕ → SubscriptionList → Buckets → Call → Option (Status × Call)
    unfolding stream_round
    stream_loop zero list b call = none
    stream_loop (suc fuel) list b call =
        let passed : Call = record call { moment = suc call.moment } in
        let (status, b', call') = stream_round list b passed in
        let rest = stream_loop fuel list b' call' in
        if w.is_cancelled call.moment
        then some (ok, passed)
        else elim status [ ok ↦ rest | error c e ↦ some (error c e, call') ]

    -- The synchronisation, the buckets and the loop, behind the initial delivery.
    unfoldable pub start_loop : ℕ → SubscriptionList → Status × Call → Option (Status × Call)
    unfolding write start_streams stream_loop
    start_loop fuel list (error c e, call) = some (error c e, call)
    start_loop fuel list (ok, call) =
        let (b, m) = start_streams list.subscription call.moment no_buckets in
        stream_loop fuel list b (record (write sync_response call) { moment = m })

    unfoldable pub handle_stream : ℕ → SubscriptionList → Call → Option (Status × Call)
    unfolding check_intervals emit start_loop try_cancel
    handle_stream fuel list call = elim (check_intervals list.subscription) [
      | error c e ↦ some (error c e, try_cancel call)
      | ok ↦ start_loop fuel list (if list.updates_only then (ok, call) else emit w list call)
    ]
