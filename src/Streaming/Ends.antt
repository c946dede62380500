-- ===== src/Streaming/Ends.antt =====
-- The STREAM handler ends once its client has cancelled.
use psc_mock_server.Prelude.{
  ℕ, zero, suc, ◌+◌, ◌≤◌, ◌<◌, ◌≡◌, refl, ap, true, some, Option, List, [], ◌∷◌, arith,
  if◌then◌else◌, Bool-cases, inl, inr,
}
use native.Mathlib.Decide.{dec_lt}
use psc_mock_server.Prelude.Texts.{Text}
use psc_mock_server.Prelude.Int.{ℤ}
use psc_mock_server.Gnmi.{TypedValue, Notification, Status, ok, error}
use psc_mock_server.Gnmi.Requests.{Subscription, SubscriptionList, sync_response}
use psc_mock_server.OrderedMap.{merge}
use psc_mock_server.Utils.{gnmi_to_xpath}
use psc_mock_server.Registry
use psc_mock_server.DataProvider.{DataProvider, Snapshot}
use psc_mock_server.Subscribe.{
  World, Call, write_all, merge_subscriptions, finish_build, build_subscribe_notifications, deliver,
  emit, try_cancel, write,
}
use psc_mock_server.Subscribe.Answers.{write_all_lem}
use psc_mock_server.Streaming.{
  Buckets, OnChangeSub, due_samples, emit_due, turn_notifications, on_change_turns, finish_round,
  stream_round, stream_loop, start_streams, start_loop, handle_stream, check_intervals, no_buckets,
}

le_trans : {a b c : ℕ} → a ≤ b → b ≤ c → a ≤ c
le_trans h k = omega arith

moment-write_all :
    (notes : List Notification) (call : Call) → (write_all notes call).moment ≡ call.moment
moment-write_all notes call = ap (λ (c : Call). c.moment) (write_all_lem notes call)

module _ {P : Type 0} ⦃i : DataProvider P⦄ (w : World P) where
  le-due_samples : (chronomap : List (Subscription × ℤ)) (m : ℕ) → m ≤ (due_samples w chronomap m).2
  unfolding due_samples
  le-due_samples [] m = omega arith
  le-due_samples ((sub, last) ∷ chronomap) m =
      ground (arith, le-due_samples chronomap (suc (suc m)))

  le-merge_subscriptions :
      (subs : List Subscription) (merged : Snapshot) (m : ℕ)
      → m ≤ (merge_subscriptions w subs merged m).2
  unfolding merge_subscriptions
  le-merge_subscriptions [] merged m = omega arith
  le-merge_subscriptions (sub ∷ subs) merged m =
      let snap = (Registry.snapshot (w.registry m) (gnmi_to_xpath sub.path)).snap in
      ground (arith, le-merge_subscriptions subs (merge merged snap) (suc m))

  le-finish_build :
      (list : SubscriptionList) (merged : Snapshot) (s : Status) (m : ℕ)
      → m ≤ (finish_build w list merged s m).2
  unfolding finish_build
  le-finish_build list merged ok m = omega arith
  le-finish_build list merged (error c e) m = omega arith

  le-build : (list : SubscriptionList) (m : ℕ) → m ≤ (build_subscribe_notifications w list m).2
  unfolding build_subscribe_notifications
  le-build list m =
      let (merged, s, m') = merge_subscriptions w list.subscription [] m in
      ground
        (arith, le-merge_subscriptions list.subscription [] m, le-finish_build list merged s m')

  pub moment-deliver :
      (notes : List Notification) (s : Status) (call : Call)
      → (deliver w notes s call).1.moment ≡ call.moment
  unfolding deliver
  moment-deliver notes ok call = moment-write_all notes call
  moment-deliver notes (error c e) call = refl

  le-emit : (list : SubscriptionList) (call : Call) → call.moment ≤ (emit w list call).1.moment
  unfolding emit
  le-emit list call =
      let (notes, s, m) = build_subscribe_notifications w list call.moment in
      omega (arith, le-build list call.moment, moment-deliver notes s (record call { moment = m }))

  le-emit_due :
      (list : SubscriptionList) (due : List Subscription) (call : Call)
      → call.moment ≤ (emit_due w list due call).1.moment
  unfolding emit_due
  le-emit_due list [] call = omega arith
  le-emit_due list (sub ∷ due) call = le-emit (record list { subscription = sub ∷ due }) call

  module _ (serialize : TypedValue → Text) where
    le-on_change_turns :
        (ocs : List OnChangeSub) (call : Call)
        → call.moment ≤ (on_change_turns w serialize ocs call).1.moment
    unfolding on_change_turns
    le-on_change_turns [] call = omega arith
    le-on_change_turns (oc ∷ ocs) call =
        let m = call.moment in
        let notes = turn_notifications w serialize oc m in
        let moved : Call = record call { moment = suc (suc (suc m)) } in
        omega (arith, moment-write_all notes moved, le-on_change_turns ocs (write_all notes moved))

    le-finish_round :
        (chronomap : List (Subscription × ℤ)) (ocs : List OnChangeSub) (s : Status) (call : Call)
        → call.moment ≤ (finish_round w serialize chronomap ocs (s, call)).2.moment
    unfolding finish_round
    le-finish_round chronomap ocs ok call = le-on_change_turns ocs call
    le-finish_round chronomap ocs (error c e) call = omega arith

    le-stream_round :
        (list : SubscriptionList) (b : Buckets) (call : Call)
        → call.moment ≤ (stream_round w serialize list b call).2.moment
    unfolding stream_round
    le-stream_round list b call =
        let (chronomap, due, m) = due_samples w b.chronomap call.moment in
        let moved : Call = record call { moment = m } in
        let (s, after) = emit_due w list due moved in
        le_trans (le-due_samples b.chronomap call.moment)
          (le_trans (le-emit_due list due moved) (le-finish_round chronomap b.on_change s after))

    -- The handler has ended.
    abbrev pub Ends : Option (Status × Call) → Type 0
    Ends o = (r : Status × Call) × (o ≡ some r)

    Ends-status :
        (s : Status) (call : Call) (rest : Option (Status × Call))
        → Ends rest
        → let result : Option (Status × Call) = elim s [
          | ok ↦ rest
          | error c e ↦ some (error c e, call)
        ] in
          Ends result
    Ends-status ok call rest h = h
    Ends-status (error c e) call rest h = ((error c e, call), refl)

    Ends-check :
        (s : Status) (call : Call) (rest : Option (Status × Call))
        → Ends rest
        → let result : Option (Status × Call) = elim s [
          | error c e ↦ some (error c e, call)
          | ok ↦ rest
        ] in
          Ends result
    Ends-check ok call rest h = h
    Ends-check (error c e) call rest h = ((error c e, call), refl)

    pub Ends-stream_loop :
        (last fuel : ℕ) (list : SubscriptionList) (b : Buckets) (call : Call)
        → ((m : ℕ) → last ≤ m → w.is_cancelled m ≡ true)
        → last < call.moment + fuel
        → 0 < fuel
        → Ends (stream_loop w serialize fuel list b call)
    unfolding stream_loop
    Ends-stream_loop last zero list b call c h k = absurd (omega arith)
    Ends-stream_loop last (suc fuel) list b call c h k =
        let passed : Call = record call { moment = suc call.moment } in
        let (s, b', call') = stream_round w serialize list b passed in
        let later = le-stream_round list b passed in
        elim (Bool-cases (w.is_cancelled call.moment)) [
          | inl e ↦ rw e ((ok, passed), refl)
          | inr e ↦
              let early : call.moment < last = elim (dec_lt call.moment last) [
                | yes p ↦ p
                | no p ↦ cc (c call.moment (omega arith), e)
              ] in
              rw e (
                Ends-status s call' (stream_loop w serialize fuel list b' call') (
                  Ends-stream_loop last fuel list b' call' c (omega (arith, later, early, h))
                    (omega (arith, early, h))))
        ]

    Ends-start_loop :
        (last fuel : ℕ) (list : SubscriptionList) (s : Status) (call : Call)
        → ((m : ℕ) → last ≤ m → w.is_cancelled m ≡ true)
        → last < fuel
        → Ends (start_loop w serialize fuel list (s, call))
    unfolding start_loop
    Ends-start_loop last fuel list (error c e) call g h = ((error c e, call), refl)
    Ends-start_loop last fuel list ok call g h =
        let (b, m) = start_streams w list.subscription call.moment no_buckets in
        Ends-stream_loop last fuel list b (record (write sync_response call) { moment = m }) g
          (omega arith) (omega arith)

    -- The STREAM handler returns once its client has cancelled: if the context is cancelled from
    -- some moment on, more rounds of fuel than that moment are enough.
    pub Ends-handle_stream :
        (last fuel : ℕ) (list : SubscriptionList) (call : Call)
        → ((m : ℕ) → last ≤ m → w.is_cancelled m ≡ true)
        → last < fuel
        → Ends (handle_stream w serialize fuel list call)
    unfolding handle_stream
    Ends-handle_stream last fuel list call c h =
        let ready : Status × Call = if list.updates_only then (ok, call) else emit w list call in
        Ends-check (check_intervals list.subscription) (try_cancel call)
          (start_loop w serialize fuel list ready)
          (Ends-start_loop last fuel list ready.0 ready.1 c h)
