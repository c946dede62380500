-- ===== src/Streaming/Follow.antt =====
-- The STREAM loop for one on-change subscription with no heartbeat, as a client at one path follows
-- it.
use psc_mock_server.Prelude.{
  ◌≡◌, ◌∙◌, refl, sym, ap, ℕ, zero, suc, ◌+◌, ◌≤◌, ◌<◌, Option, none, some, true, List, [], ◌∷◌,
  ◌++◌, map, inl, inr, Bool-cases, arith,
}
use mathlib.Core.Path.{subst}
use psc_mock_server.Prelude.Texts.{Text}
use psc_mock_server.OrderedMap.{find}
use psc_mock_server.Gnmi.{TypedValue, Notification, PathElem, Status, ok}
use psc_mock_server.Gnmi.Requests.{SubscriptionList, SubscribeResponse, sync_response}
use psc_mock_server.DataProvider.{DataProvider, Snapshot}
use psc_mock_server.Utils.Nested.{elems_of}
use psc_mock_server.LeafStore.Diff.{value_at}
use psc_mock_server.Registry
use psc_mock_server.Registry.{Registry}
use psc_mock_server.Emit.Client.{told, told_one}
use psc_mock_server.Emit.Follow.{IsLaidOut, Within}
use psc_mock_server.Emit.Refines.{serial}
use psc_mock_server.Subscribe.{World, Call, write_all}
use psc_mock_server.Subscribe.Answers.{write_all_lem}
use psc_mock_server.Streaming.{Buckets, OnChangeSub, turn_notifications, turned, stream_loop}
use psc_mock_server.Streaming.Ends.{Ends-stream_loop}
use psc_mock_server.Streaming.Quiet.{read, no_heartbeat, stopped}
use psc_mock_server.Streaming.Mirror.{turn_current_iff}

-- What the client holds at a path after some responses.
abbrev pub heard : List PathElem → List SubscribeResponse → Option TypedValue → Option TypedValue
heard e [] v = v
heard e (SubscribeResponse.update n ∷ responses) v = heard e responses (told_one e n v)
heard e (sync_response ∷ responses) v = heard e responses v

pub heard-append :
    (e : List PathElem) (a b : List SubscribeResponse) (v : Option TypedValue)
    → heard e (a ++ b) v ≡ heard e b (heard e a v)
heard-append e [] b v = refl
heard-append e (SubscribeResponse.update n ∷ a) b v = heard-append e a b (told_one e n v)
heard-append e (sync_response ∷ a) b v = heard-append e a b v

pub heard_updates :
    (e : List PathElem) (notes : List Notification) (v : Option TypedValue)
    → heard e (map SubscribeResponse.update notes) v ≡ told e notes v
heard_updates e [] v = refl
heard_updates e (n ∷ notes) v = heard_updates e notes (told_one e n v)

heard-write_all :
    (e : List PathElem) (notes : List Notification) (call : Call)
    → heard e (write_all notes call).sent none ≡ told e notes (heard e call.sent none)
heard-write_all e notes call =
    ap (λ (c : Call). heard e c.sent none) (write_all_lem notes call)
    ∙ heard-append e call.sent (map SubscribeResponse.update notes) none
    ∙ heard_updates e notes (heard e call.sent none)

module _ {P : Type 0} ⦃i : DataProvider P⦄ (w : World P) (serialize : TypedValue → Text) where
  -- The client holds at the path what a query reads at a moment.
  abbrev pub HoldsRead : Text → Text → ℕ → Call → Type 0
  HoldsRead k query r call =
      serial serialize (heard (elems_of k) call.sent none)
      ≡ value_at serialize (find k (read w serialize query r))

  -- The subscription has no heartbeat and keeps what it read less than four moments ago, and this
  -- is what the client holds at the path.
  pub record IsInStep (k : Text) (oc : OnChangeSub) (call : Call) : Type 0 where
    pub quiet : oc.sub.heartbeat_interval ≡ 0
    pub since : ℕ
    pub kept : oc.prev ≡ read w serialize oc.query since
    pub before : since < call.moment
    pub recent : call.moment ≤ since + 3
    pub held : HoldsRead k oc.query since call

  -- The client holds at the path what the query read less than five moments ago.
  pub record IsFresh (k query : Text) (call : Call) : Type 0 where
    pub since : ℕ
    pub before : since < call.moment
    pub recent : call.moment ≤ since + 4
    pub held : HoldsRead k query since call

  module _ (K : Text → Type 0) (k : Text) (kk : K k)
      (laid : (m : ℕ) → IsLaidOut K (Registry.atomic_prefix (w.registry m)))
      (within : (query : Text) (m : ℕ) → Within K (read w serialize query m)) where
    turn-IsInStep :
        (oc : OnChangeSub) (call : Call) (since : ℕ)
        → oc.sub.heartbeat_interval ≡ 0
        → oc.prev ≡ read w serialize oc.query since
        → HoldsRead k oc.query since call
        → IsInStep k (turned w serialize oc call.moment) (
            write_all
              (turn_notifications w serialize oc call.moment)
              (record call { moment = suc (suc (suc call.moment)) }))
    unfolding turned
    turn-IsInStep oc call since q kept held =
        let m = call.moment in
        let notes = turn_notifications w serialize oc m in
        let beat = no_heartbeat oc.sub.heartbeat_interval oc.last_heartbeat (w.time (suc m)) q in
        let told_all =
          heard-write_all (elems_of k) notes (record call { moment = suc (suc (suc m)) }) in
        let at =
          ap (λ (c : Call). c.moment)
            (write_all_lem notes (record call { moment = suc (suc (suc m)) })) in
        record {
          quiet = q;
          since = m;
          kept = refl;
          before = rw at (omega arith);
          recent = rw at (omega arith);
          held =
              ap (serial serialize) told_all
              ∙ (turn_current_iff w serialize oc m K k (heard (elems_of k) call.sent none)
                    (laid (suc (suc m))) (subst (Within K) (sym kept) (within oc.query since))
                    (within oc.query m) kk
                    (held ∙ ap (λ (s : Snapshot). value_at serialize (find k s)) (sym kept))).1
                  (rw beat refl);
        }

    loop-IsFresh :
        (fuel : ℕ) (list : SubscriptionList) (oc : OnChangeSub) (call : Call) (s : Status)
        (after : Call)
        → IsInStep k oc call
        → stream_loop w serialize fuel list (record { chronomap = []; on_change = oc ∷ [] }) call
          ≡ some (s, after)
        → (s ≡ ok) × IsFresh k oc.query after
    unfolding stream_loop
    loop-IsFresh zero list oc call s after h e = cc
    loop-IsFresh (suc fuel) list oc call s after h e =
        let passed : Call = record call { moment = suc call.moment } in
        let next = turn-IsInStep oc passed h.since h.quiet h.kept h.held in
        elim (Bool-cases (w.is_cancelled call.moment)) [
          | inl c ↦
              let end = stopped passed s after (rw (c, stream_loop) at e) in
              let fresh : IsFresh k oc.query passed = record {
                since = h.since;
                before = omega (arith, h.before);
                recent = omega (arith, h.recent);
                held = h.held;
              } in
              (end.0, subst (IsFresh k oc.query) (sym end.1) fresh)
          | inr c ↦
              loop-IsFresh fuel list (turned w serialize oc passed.moment)
                (write_all (turn_notifications w serialize oc passed.moment)
                  (record passed { moment = suc (suc (suc passed.moment)) }))
                s after next (rw (c, stream_loop) at e)
        ]

    -- Where at every moment the known paths are laid out as for a poll and all that the registry
    -- holds is known, the STREAM loop for one on-change subscription with no heartbeat, entered
    -- with a client in step, and with enough fuel for the moment from which the call is cancelled,
    -- returns well. The client then holds at the path the serialised value that the query read
    -- less than five moments before.
    pub stream_loop-IsFresh :
        (last fuel : ℕ) (list : SubscriptionList) (oc : OnChangeSub) (call : Call)
        → ((m : ℕ) → last ≤ m → w.is_cancelled m ≡ true)
        → last < call.moment + fuel
        → 0 < fuel
        → IsInStep k oc call
        → (after : Call) × (stream_loop w serialize fuel list
              (record { chronomap = []; on_change = oc ∷ [] })
              call
            ≡ some (ok, after))
          × IsFresh k oc.query after
    stream_loop-IsFresh last fuel list oc call c h f step =
        let b : Buckets = record { chronomap = []; on_change = oc ∷ [] } in
        let ((s, after), e) = Ends-stream_loop w serialize last fuel list b call c h f in
        let (well, fresh) = loop-IsFresh fuel list oc call s after step e in
        (
          after,
          subst (λ x. stream_loop w serialize fuel list b call ≡ some (x, after)) well e,
          fresh,
        )
