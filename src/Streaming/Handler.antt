-- ===== src/Streaming/Handler.antt =====
-- The STREAM handler, from the call on, for one on-change subscription with no heartbeat.
use psc_mock_server.Prelude.{
  ◌≡◌, ◌∙◌, refl, sym, ap, ℕ, suc, ◌≤◌, ◌<◌, Option, none, some, Bool, true, false, List, [], ◌∷◌,
  arith, if◌then◌else◌,
}
use psc_mock_server.Prelude.Texts.{Text}
use psc_mock_server.OrderedMap.{find}
use psc_mock_server.OrderedMap.Laws.{first}
use psc_mock_server.Gnmi.{TypedValue, GnmiPath, Notification, Status, ok, error}
use psc_mock_server.Gnmi.Requests.{Subscription, SubscriptionList, SubscribeResponse, sync_response}
use psc_mock_server.DataProvider.{DataProvider, Leaf, Snapshot}
use psc_mock_server.Utils.{gnmi_to_xpath}
use psc_mock_server.Utils.Nested.{elems_of}
use psc_mock_server.LeafStore.Diff.{value_at}
use psc_mock_server.Registry
use psc_mock_server.Registry.{Registry}
use psc_mock_server.Registry.Routing.{first_leaf, snapshot_lem}
use psc_mock_server.Emit.{partition, build_full_notifications}
use psc_mock_server.Emit.Client.{told}
use psc_mock_server.Emit.Mirror.{value_of}
use psc_mock_server.Emit.Follow.{IsLaidOut, Within}
use psc_mock_server.Emit.Refines.{serial}
use psc_mock_server.Emit.Resends.{is_resent, full_told}
use psc_mock_server.Subscribe.{
  World, Call, new_call, write, emit, put_prefixes, merge_subscriptions,
}
use psc_mock_server.Subscribe.Answers.{
  IsAnswerable, leaf_read, notes_of, notes_of_lem, put_prefixes-none, merge_subscriptions_iff,
  find-merge_subscriptions, emit_iff, sent-emit,
}
use psc_mock_server.Streaming.{
  Buckets, OnChangeSub, start_streams, add_stream, start_loop, stream_loop, handle_stream,
  check_intervals, no_buckets,
}
use psc_mock_server.Streaming.Quiet.{read, IsOnChange, mode_on_change}
use psc_mock_server.Streaming.Follow.{
  heard, heard-append, heard_updates, IsFresh, stream_loop-IsFresh,
}

first_alone : (o : Option Leaf) → first o none ≡ o
first_alone none = refl
first_alone (some leaf) = refl

all_or_nothing :
    (serialize : TypedValue → Text) (o : Option Leaf) (b : Bool)
    → serial serialize (first (value_of o) (if b then none else none)) ≡ value_at serialize o
all_or_nothing serialize none true = refl
all_or_nothing serialize none false = refl
all_or_nothing serialize (some leaf) b = refl

module _ {P : Type 0} ⦃i : DataProvider P⦄ (w : World P) (serialize : TypedValue → Text) where
  module _ (K : Text → Type 0) (k : Text) (kk : K k)
      (laid : (m : ℕ) → IsLaidOut K (Registry.atomic_prefix (w.registry m)))
      (within : (query : Text) (m : ℕ) → Within K (read w serialize query m))
      (list : SubscriptionList) (sub : Subscription) (alone : list.subscription ≡ sub ∷ [])
      (plain : list.prefix ≡ none) (answerable : IsAnswerable w list 0) where
    abbrev query : Text
    query = gnmi_to_xpath sub.path

    abbrev merged : Snapshot
    merged = (merge_subscriptions w list.subscription [] 0).0

    abbrev behind : ℕ
    behind = (merge_subscriptions w list.subscription [] 0).2

    find-merged : (j : Text) → find j merged ≡ find j (read w serialize query 0)
    unfolding find
    find-merged j =
        find-merge_subscriptions w list.subscription [] 0 j
          ((merge_subscriptions_iff w list.subscription [] 0).1 answerable.1)
        ∙ ap (λ (subs : List Subscription). leaf_read w subs 0 j) alone
        ∙ first_alone (first_leaf (w.registry 0) query j)
        ∙ sym (snapshot_lem (w.registry 0) query j).1

    merged-Within : Within K merged
    merged-Within j leaf h = within query 0 j leaf (sym (find-merged j) ∙ h)

    notes_plain :
        notes_of w list 0 ≡ build_full_notifications (w.unix_time behind) merged (w.registry behind)
    notes_plain =
        notes_of_lem w list 0 answerable
        ∙ ap
            (λ (o : Option GnmiPath).
              put_prefixes o
                (build_full_notifications (w.unix_time behind) merged (w.registry behind)))
            plain
        ∙ put_prefixes-none
            (build_full_notifications (w.unix_time behind) merged (w.registry behind))

    -- The initial delivery gives the client what it read.
    delivered :
        serial serialize (heard (elems_of k) (emit w list new_call).1.sent none)
        ≡ value_at serialize (find k (read w serialize query 0))
    delivered =
        ap (λ (s : List SubscribeResponse). serial serialize (heard (elems_of k) s none))
          (sent-emit w list new_call answerable)
        ∙ ap (serial serialize) (heard_updates (elems_of k) (notes_of w list 0) none)
        ∙ ap (λ (n : List Notification). serial serialize (told (elems_of k) n none)) notes_plain
        ∙ ap (serial serialize) (
            full_told (w.registry behind) K (laid behind) serialize (w.unix_time behind) merged k
              none merged-Within kk)
        ∙ all_or_nothing serialize (find k merged) (
            is_resent (Registry.atomic_prefix (w.registry behind) k)
              (partition (w.registry behind) merged).groups)
        ∙ ap (value_at serialize) (find-merged k)

    module _ (on : IsOnChange sub) (last fuel : ℕ)
        (cancelled : (m : ℕ) → last ≤ m → w.is_cancelled m ≡ true) (enough : last < fuel) where
      -- The subscription as the handler keeps it.
      abbrev kept_at : ℕ → OnChangeSub
      kept_at m = record {
        sub = sub;
        query = query;
        prev = read w serialize query (suc (suc m));
        last_heartbeat = w.time m;
      }

      started_with :
          (m : ℕ)
          → start_streams w list.subscription m no_buckets
            ≡ (record { chronomap = []; on_change = kept_at m ∷ [] }, suc (suc (suc m)))
      unfolding start_streams add_stream
      started_with m =
          ap (λ (subs : List Subscription). start_streams w subs m no_buckets) alone
          ∙ rw (mode_on_change (w.registry (suc m)) sub on.0) refl

      -- Behind a delivery after which the client holds what the baseline reads.
      follows :
          (first : Status × Call)
          → first.0 ≡ ok
          → serial serialize (heard (elems_of k) first.1.sent none)
            ≡ value_at serialize (find k (read w serialize query (suc (suc first.1.moment))))
          → (after : Call) × (start_loop w serialize fuel list first ≡ some (ok, after))
            × IsFresh w serialize k query after
      unfolding start_loop write
      follows (error c e, call) g h = cc
      follows (ok, call) g h =
          let m = call.moment in
          let begun : Call = record (write sync_response call) { moment = suc (suc (suc m)) } in
          let (after, ends, fresh) =
            stream_loop-IsFresh w serialize K k kk laid within last fuel list (kept_at m) begun
              cancelled (omega (arith, enough)) (omega (arith, enough))
              (record {
                quiet = on.1;
                since = suc (suc m);
                kept = refl;
                before = omega arith;
                recent = omega arith;
                held =
                    ap (serial serialize)
                      (heard-append (elems_of k) call.sent (sync_response ∷ []) none)
                    ∙ h;
              }) in
          (
            after,
            ap
                  (λ (b : Buckets × ℕ).
                    stream_loop w serialize fuel list b.0
                      (record (write sync_response call) { moment = b.1 }))
                  (started_with m)
                ∙ ends,
            fresh,
          )

      handled :
          check_intervals list.subscription ≡ ok
          → list.updates_only ≡ false
          → handle_stream w serialize fuel list new_call
            ≡ start_loop w serialize fuel list (emit w list new_call)
      unfolding handle_stream
      handled intervals updates = rw (handle_stream, intervals, updates) refl

      -- Where at every moment the known paths are laid out as for a poll and all that the registry
      -- holds is known, the STREAM handler on an answerable list of one on-change subscription
      -- with no heartbeat, no prefix and an initial delivery, whose context is cancelled from some
      -- moment on, returns well with more fuel than that moment. At a known path that has the same
      -- serialised value in the initial delivery and in the baseline that the handler reads behind
      -- it, or none in both, a client that starts with nothing then holds the one that the query
      -- read less than five moments before the end.
      pub handle_stream-IsFresh :
          check_intervals list.subscription ≡ ok
          → list.updates_only ≡ false
          → value_at serialize (find k (read w serialize query 0))
            ≡ value_at serialize
                (find k (read w serialize query (suc (suc (emit w list new_call).1.moment))))
          → (after : Call) × (handle_stream w serialize fuel list new_call ≡ some (ok, after))
            × IsFresh w serialize k query after
      handle_stream-IsFresh intervals updates same =
          let (after, ends, fresh) =
            follows (emit w list new_call) ((emit_iff w list new_call).1 answerable)
              (delivered ∙ same) in
          (after, handled intervals updates ∙ ends, fresh)
