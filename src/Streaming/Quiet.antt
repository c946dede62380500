-- ===== src/Streaming/Quiet.antt =====
-- A stream of subscriptions on change over a registry whose values stay.
use psc_mock_server.Prelude.{
  ℕ, zero, suc, ◌≤◌, ◌<◌, ◌≡◌, ◌∙◌, refl, sym, ap, true, false, some, Option, List, [], ◌∷◌, ◌++◌,
  All, arith, if◌then◌else◌, Bool-cases, inl, inr,
}
use psc_mock_server.Prelude.Texts.{Text}
use psc_mock_server.Prelude.Int.{ℤ}
use psc_mock_server.Gnmi.{TypedValue, on_change, Status, ok, error}
use psc_mock_server.Gnmi.Requests.{Subscription, SubscriptionList, sync_response}
use psc_mock_server.Utils.{gnmi_to_xpath}
use psc_mock_server.DataProvider.{DataProvider, Snapshot}
use psc_mock_server.LeafStore.Diff.{SameValues}
use psc_mock_server.Registry
use psc_mock_server.Registry.{Registry}
use psc_mock_server.Emit.{resolve_stream_mode}
use psc_mock_server.Emit.Heartbeat.{heartbeat_due}
use psc_mock_server.Subscribe.{World, Call, write, write_all, emit}
use psc_mock_server.Streaming.{
  OnChangeSub, check_intervals, add_stream, turn_notifications, turned, on_change_turns,
  stream_loop, start_streams, start_loop, handle_stream,
}
use psc_mock_server.Streaming.Turns.{turn_silent_iff}
use psc_mock_server.Streaming.Ends.{Ends-handle_stream}

pub no_heartbeat :
    (interval : ℕ) (last now : ℤ) → interval ≡ 0 → heartbeat_due interval last now ≡ false
unfolding heartbeat_due
no_heartbeat interval last now h = rw h refl

-- The subscription is on change and asks for no heartbeat.
abbrev pub IsOnChange : Subscription → Type 0
IsOnChange sub = (sub.mode ≡ on_change) × (sub.heartbeat_interval ≡ 0)

pub mode_on_change :
    {P : Type 0} ⦃i : DataProvider P⦄ (registry : Registry P) (sub : Subscription)
    → sub.mode ≡ on_change
    → resolve_stream_mode registry sub ≡ on_change
unfolding resolve_stream_mode
mode_on_change registry sub h = ground arith

pub stopped :
    (call : Call) (s : Status) (after : Call)
    → ◌≡◌ {A = Option (Status × Call)} (some (ok, call)) (some (s, after))
    → (s ≡ ok) × (after ≡ call)
stopped call s after h =
    let r : Status × Call = (ok, call) in
    let r' : Status × Call = (s, after) in
    let pair : r ≡ r' = cc h in
    (sym (ap (λ (r : Status × Call). r.0) pair), sym (ap (λ (r : Status × Call). r.1) pair))

module _ {P : Type 0} ⦃i : DataProvider P⦄ (w : World P) (serialize : TypedValue → Text) where
  -- The snapshot of a query at a moment.
  abbrev pub read : Text → ℕ → Snapshot
  read query m = (Registry.snapshot (w.registry m) query).snap

  -- From a moment on, every query reads the values that it reads at that moment.
  abbrev pub IsStill : ℕ → Type 0
  IsStill start =
      (query : Text) (m : ℕ) → start ≤ m → SameValues serialize (read query start) (read query m)

  -- The subscription has no heartbeat and holds the values of the still registry.
  abbrev IsCaughtUp : ℕ → OnChangeSub → Type 0
  IsCaughtUp start oc =
      (oc.sub.heartbeat_interval ≡ 0) × SameValues serialize oc.prev (read oc.query start)

  module _ (start : ℕ) (still : IsStill start) where
    quiet_turn :
        (oc : OnChangeSub) (m : ℕ)
        → start ≤ m
        → IsCaughtUp start oc
        → (turn_notifications w serialize oc m ≡ []) × IsCaughtUp start (turned w serialize oc m)
    quiet_turn oc m h c =
        let beat = no_heartbeat oc.sub.heartbeat_interval oc.last_heartbeat (w.time (suc m)) c.0 in
        let same : SameValues serialize oc.prev (read oc.query m) =
          λ k. c.1 k ∙ still oc.query m h k in
        (
          (turn_silent_iff w serialize oc m).0.1 (beat, same),
          unfold turned in (c.0, λ k. sym (still oc.query m h k)),
        )

    quiet_turns :
        (ocs : List OnChangeSub) (call : Call)
        → start ≤ call.moment
        → All (IsCaughtUp start) ocs
        → ((on_change_turns w serialize ocs call).1.sent ≡ call.sent)
          × (start ≤ (on_change_turns w serialize ocs call).1.moment)
          × All (IsCaughtUp start) (on_change_turns w serialize ocs call).0
    unfolding on_change_turns
    quiet_turns [] call h a = (refl, h, tt)
    quiet_turns (oc ∷ ocs) call h a =
        let m = call.moment in
        let one = quiet_turn oc m h a.0 in
        let moved : Call = record call { moment = suc (suc (suc m)) } in
        let same : write_all (turn_notifications w serialize oc m) moved ≡ moved = rw one.0 refl in
        let rest = quiet_turns ocs moved (omega (arith, h)) a.1 in
        rw same (rest.0, rest.1, (one.1, rest.2))

    quiet_loop :
        (fuel : ℕ) (list : SubscriptionList) (ocs : List OnChangeSub) (call : Call) (s : Status)
        (after : Call)
        → start ≤ call.moment
        → All (IsCaughtUp start) ocs
        → stream_loop w serialize fuel list (record { chronomap = []; on_change = ocs }) call
          ≡ some (s, after)
        → (s ≡ ok) × (after.sent ≡ call.sent)
    unfolding stream_loop
    quiet_loop zero list ocs call s after h a e = cc
    quiet_loop (suc fuel) list ocs call s after h a e =
        let passed : Call = record call { moment = suc call.moment } in
        let turns = quiet_turns ocs passed (omega (arith, h)) a in
        let (ocs', call') = on_change_turns w serialize ocs passed in
        elim (Bool-cases (w.is_cancelled call.moment)) [
          | inl c ↦
              let end = stopped passed s after (rw (c, stream_loop) at e) in
              (end.0, ap (λ (a : Call). a.sent) end.1)
          | inr c ↦
              let rest =
                quiet_loop fuel list ocs' call' s after turns.1 turns.2
                  (rw (c, stream_loop) at e) in
              (rest.0, rest.1 ∙ turns.0)
        ]

    All-snoc :
        (ocs : List OnChangeSub) (oc : OnChangeSub)
        → All (IsCaughtUp start) ocs
        → IsCaughtUp start oc
        → All (IsCaughtUp start) (ocs ++ oc ∷ [])
    All-snoc [] oc a c = (c, tt)
    All-snoc (x ∷ ocs) oc a c = (a.0, All-snoc ocs oc a.1 c)

    -- The buckets that such a list starts with.
    started :
        (subs : List Subscription) (m : ℕ) (ocs : List OnChangeSub)
        → start ≤ m
        → All IsOnChange subs
        → All (IsCaughtUp start) ocs
        → (ocs' : List OnChangeSub) × (m' : ℕ) × (start_streams w subs m
              (record { chronomap = []; on_change = ocs })
            ≡ (record { chronomap = []; on_change = ocs' }, m'))
          × (start ≤ m')
          × All (IsCaughtUp start) ocs'
    unfolding start_streams add_stream
    started [] m ocs h q a = (ocs, m, refl, h, a)
    started (sub ∷ subs) m ocs h q a =
        let query = gnmi_to_xpath sub.path in
        let oc : OnChangeSub = record {
          sub = sub;
          query = query;
          prev = read query (suc (suc m));
          last_heartbeat = w.time m;
        } in
        let caught : IsCaughtUp start oc =
          (q.0.1, λ k. sym (still query (suc (suc m)) (omega (arith, h)) k)) in
        rw (mode_on_change (w.registry (suc m)) sub q.0.0) (
          started subs (suc (suc (suc m))) (ocs ++ oc ∷ []) (omega (arith, h)) q.1
            (All-snoc ocs oc a caught))

    -- Behind the initial delivery, the stream of such a list writes the synchronisation and no more.
    quiet_start :
        (fuel : ℕ) (list : SubscriptionList) (first : Status × Call) (s : Status) (after : Call)
        → first.0 ≡ ok
        → start ≤ first.1.moment
        → All IsOnChange list.subscription
        → start_loop w serialize fuel list first ≡ some (s, after)
        → (s ≡ ok) × (after.sent ≡ first.1.sent ++ sync_response ∷ [])
    unfolding start_loop write
    quiet_start fuel list (error c e, call) s after g h q r = cc
    quiet_start fuel list (ok, call) s after g h q r =
        let (ocs, m, e, above, caught) = started list.subscription call.moment [] h q tt in
        quiet_loop fuel list ocs (record (write sync_response call) { moment = m }) s after above
          caught (rw (start_loop, e) at r)

module _ {P : Type 0} ⦃i : DataProvider P⦄ (w : World P) (serialize : TypedValue → Text) where
  -- The delivery with which a stream begins.
  abbrev pub first_delivery : SubscriptionList → Call → Status × Call
  first_delivery list call = if list.updates_only then (ok, call) else emit w list call

  -- A stream of subscriptions on change with no heartbeat over a registry whose values stay as they
  -- are from the end of the initial delivery on, whose sample intervals are accepted, whose initial
  -- delivery succeeds and whose context is cancelled from some moment on returns with more rounds
  -- of fuel than that moment. It ends well and has written, behind that delivery, one
  -- synchronisation and no more, whatever values the initial delivery said.
  pub quiet_stream :
      (last fuel : ℕ) (list : SubscriptionList) (call : Call)
      → IsStill w serialize (first_delivery list call).1.moment
      → All IsOnChange list.subscription
      → check_intervals list.subscription ≡ ok
      → (first_delivery list call).0 ≡ ok
      → ((m : ℕ) → last ≤ m → w.is_cancelled m ≡ true)
      → last < fuel
      → (after : Call) × (handle_stream w serialize fuel list call ≡ some (ok, after))
        × (after.sent ≡ (first_delivery list call).1.sent ++ sync_response ∷ [])
  unfolding handle_stream
  quiet_stream last fuel list call still q c g cancelled enough =
      let first = first_delivery list call in
      let ((s, after), r) = Ends-handle_stream w serialize last fuel list call cancelled enough in
      let quiet =
        quiet_start w serialize first.1.moment still fuel list first s after g (omega arith) q
          (rw (handle_stream, c) at r) in
      (after, r ∙ ap (λ (t : Status). some (t, after)) quiet.0, quiet.1)
