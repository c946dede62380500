-- ===== src/Subscribe/Answers.antt =====
-- What one delivery sends: all leaves of the subscribed paths, or nothing at all.
use psc_mock_server.Prelude.{
  ℕ, suc, ◌≡◌, ◌≢◌, ◌↔◌, ◌∙◌, refl, ap, true, Option, none, some, List, [], ◌∷◌, ◌++◌, map,
  append-nil, append_assoc, arith,
}
use psc_mock_server.Prelude.Texts.{Text}
use psc_mock_server.OrderedMap.{find, merge}
use psc_mock_server.OrderedMap.Laws.{first, find-merge}
use psc_mock_server.Gnmi.{
  GnmiPath, Notification, Encoding, json, bytes, proto, ascii, json_ietf, unknown_encoding, Status,
  ok, error,
}
use psc_mock_server.Gnmi.Requests.{Subscription, SubscriptionList, SubscribeResponse}
use psc_mock_server.Utils.{gnmi_to_xpath, validate_gnmi_path}
use psc_mock_server.Utils.Nested.{elems_of}
use psc_mock_server.DataProvider.{DataProvider, Leaf, Snapshot}
use psc_mock_server.Registry
use psc_mock_server.Registry.{Registry}
use psc_mock_server.Registry.Routing.{is_routed, first_leaf, snapshot_lem}
use psc_mock_server.Emit.{build_full_notifications}
use psc_mock_server.Emit.Full.{Says, Located, full_covers}
use psc_mock_server.GetRpc.{is_json}
use psc_mock_server.Subscribe.{
  World, Call, write, write_all, encoding_status, put_prefixes, merge_subscriptions, finish_build,
  build_subscribe_notifications, deliver, emit,
}

pub write_all_lem :
    (notes : List Notification) (call : Call)
    → write_all notes call ≡ record call { sent = call.sent ++ map SubscribeResponse.update notes }
unfolding write_all
write_all_lem [] call = rw append-nil refl
write_all_lem (n ∷ notes) call =
    write_all_lem notes (write (SubscribeResponse.update n) call)
    ∙ ap (λ (s : List SubscribeResponse). record call { sent = s })
        (append_assoc call.sent (SubscribeResponse.update n ∷ [])
          (map SubscribeResponse.update notes))

encoding_status_iff : (e : Encoding) → (encoding_status e ≡ ok) ↔ (is_json e ≡ true)
unfolding encoding_status
encoding_status_iff json = (λ h. refl, λ h. refl)
encoding_status_iff json_ietf = (λ h. refl, λ h. refl)
encoding_status_iff proto = (λ h. cc, λ h. cc)
encoding_status_iff bytes = (λ h. cc, λ h. cc)
encoding_status_iff ascii = (λ h. cc, λ h. cc)
encoding_status_iff (unknown_encoding n) = (λ h. cc, λ h. cc)

pub put_prefixes-none : (notes : List Notification) → put_prefixes none notes ≡ notes
unfolding put_prefixes
put_prefixes-none [] = refl
put_prefixes-none (n ∷ notes) = ap (λ (l : List Notification). n ∷ l) (put_prefixes-none notes)

past_test :
    (s : Status) (m : ℕ) (built : List Notification × Status × ℕ)
    → s ≡ ok
    → (let result : List Notification × Status × ℕ = elim s [
      | error c e ↦ ([], error c e, m)
      | ok ↦ built
    ] in
        result.0)
      ≡ built.0
past_test ok m built h = refl
past_test (error c e) m built h = cc

module _ {P : Type 0} ⦃i : DataProvider P⦄ (w : World P) where
  -- Every path is well formed and owned by a provider when the call comes to it.
  abbrev pub AllRouted : List Subscription → ℕ → Type 0
  AllRouted [] m = Unit
  AllRouted (sub ∷ subs) m =
      (validate_gnmi_path sub.path ≡ ok)
      × (is_routed (w.registry m) (gnmi_to_xpath sub.path) ≡ true)
      × AllRouted subs (suc m)

  -- The leaf at a path that the first subscription with one reads.
  abbrev pub leaf_read : List Subscription → ℕ → Text → Option Leaf
  leaf_read [] m k = none
  leaf_read (sub ∷ subs) m k =
      first (first_leaf (w.registry m) (gnmi_to_xpath sub.path) k) (leaf_read subs (suc m) k)

  pub merge_subscriptions_iff :
      (subs : List Subscription) (merged : Snapshot) (m : ℕ)
      → ((merge_subscriptions w subs merged m).1 ≡ ok) ↔ AllRouted subs m
  unfolding merge_subscriptions
  merge_subscriptions_iff [] merged m = (λ h. tt, λ h. refl)
  merge_subscriptions_iff (sub ∷ subs) merged m =
      let res = Registry.snapshot (w.registry m) (gnmi_to_xpath sub.path) in
      let ih = merge_subscriptions_iff subs (merge merged res.snap) (suc m) in
      let routed = (snapshot_lem (w.registry m) (gnmi_to_xpath sub.path) []).0 in
      (λ h. ground (arith, ih.0, routed), λ h. ground (arith, ih.1, routed))

  pub find-merge_subscriptions :
      (subs : List Subscription) (merged : Snapshot) (m : ℕ) (k : Text)
      → (merge_subscriptions w subs merged m).1 ≡ ok
      → find k (merge_subscriptions w subs merged m).0 ≡ first (find k merged) (leaf_read subs m k)
  unfolding merge_subscriptions
  find-merge_subscriptions [] merged m k h = ground arith
  find-merge_subscriptions (sub ∷ subs) merged m k h =
      let res = Registry.snapshot (w.registry m) (gnmi_to_xpath sub.path) in
      ground (
        arith,
        find-merge_subscriptions subs (merge merged res.snap) (suc m) k,
        find-merge k merged res.snap,
        (snapshot_lem (w.registry m) (gnmi_to_xpath sub.path) k).1,
      )

  -- A list of subscriptions that is answered: JSON, and all of its paths routed.
  abbrev pub IsAnswerable : SubscriptionList → ℕ → Type 0
  IsAnswerable list m = (is_json list.encoding ≡ true) × AllRouted list.subscription m

  status-finish_build :
      (list : SubscriptionList) (merged : Snapshot) (s : Status) (m : ℕ)
      → (finish_build w list merged s m).1 ≡ s
  unfolding finish_build
  status-finish_build list merged ok m = refl
  status-finish_build list merged (error c e) m = refl

  build_iff :
      (list : SubscriptionList) (m : ℕ)
      → ((build_subscribe_notifications w list m).1 ≡ ok) ↔ IsAnswerable list m
  unfolding build_subscribe_notifications
  build_iff list m =
      let (merged, status, m') = merge_subscriptions w list.subscription [] m in
      let same = status-finish_build list merged status m' in
      let iff = merge_subscriptions_iff list.subscription [] m in
      let enc = encoding_status_iff list.encoding in
      (λ h. ground (arith, same, iff.0, enc.0), λ h. ground (arith, same, iff.1 h.1, enc.1 h.0))

  status-deliver :
      (notes : List Notification) (s : Status) (call : Call) → (deliver w notes s call).0 ≡ s
  unfolding deliver
  status-deliver notes ok call = refl
  status-deliver notes (error c e) call = refl

  pub emit_iff :
      (list : SubscriptionList) (call : Call)
      → ((emit w list call).0 ≡ ok) ↔ IsAnswerable list call.moment
  unfolding emit
  emit_iff list call =
      let (notes, s, m) = build_subscribe_notifications w list call.moment in
      rw (status-deliver notes s (record call { moment = m })) (build_iff list call.moment)

  -- The notifications of a delivery.
  abbrev pub notes_of : SubscriptionList → ℕ → List Notification
  notes_of list m = (build_subscribe_notifications w list m).0

  sent-deliver :
      (notes : List Notification) (s : Status) (call : Call)
      → s ≡ ok
      → (deliver w notes s call).1.sent ≡ call.sent ++ map SubscribeResponse.update notes
  unfolding deliver
  sent-deliver notes ok call h = ap (λ (c : Call). c.sent) (write_all_lem notes call)
  sent-deliver notes (error c e) call h = cc

  kept-deliver :
      (notes : List Notification) (s : Status) (call : Call)
      → s ≢ ok
      → ((deliver w notes s call).1.sent ≡ call.sent)
        × ((deliver w notes s call).1.try_cancelled ≡ true)
  unfolding deliver
  kept-deliver notes ok call h = absurd (h refl)
  kept-deliver notes (error c e) call h = (refl, refl)

  pub sent-emit :
      (list : SubscriptionList) (call : Call)
      → IsAnswerable list call.moment
      → (emit w list call).1.sent
        ≡ call.sent ++ map SubscribeResponse.update (notes_of list call.moment)
  unfolding emit
  sent-emit list call h =
      let (notes, s, m) = build_subscribe_notifications w list call.moment in
      sent-deliver notes s (record call { moment = m }) ((build_iff list call.moment).1 h)

  notes-finish_build :
      (list : SubscriptionList) (merged : Snapshot) (s : Status) (m : ℕ)
      → s ≡ ok
      → (finish_build w list merged s m).0
        ≡ put_prefixes list.prefix (build_full_notifications (w.unix_time m) merged (w.registry m))
  unfolding finish_build
  notes-finish_build list merged ok m h = refl
  notes-finish_build list merged (error c e) m h = cc

  pub notes_of_lem :
      (list : SubscriptionList) (m : ℕ)
      → IsAnswerable list m
      → let (merged, s, m') = merge_subscriptions w list.subscription [] m in
        notes_of list m
        ≡ put_prefixes list.prefix
            (build_full_notifications (w.unix_time m') merged (w.registry m'))
  unfolding build_subscribe_notifications
  notes_of_lem list m h =
      let (merged, s, m') = merge_subscriptions w list.subscription [] m in
      let good = (merge_subscriptions_iff list.subscription [] m).1 h.1 in
      let enc = (encoding_status_iff list.encoding).1 h.0 in
      past_test (encoding_status list.encoding) m (finish_build w list merged s m') enc
      ∙ notes-finish_build list merged s m' good

  pub kept-emit :
      (list : SubscriptionList) (call : Call)
      → (emit w list call).0 ≢ ok
      → ((emit w list call).1.sent ≡ call.sent) × ((emit w list call).1.try_cancelled ≡ true)
  unfolding emit
  kept-emit list call h =
      let (notes, s, m) = build_subscribe_notifications w list call.moment in
      let moved : Call = record call { moment = m } in
      kept-deliver notes s moved (rw (status-deliver notes s moved) at h)

  -- The notifications of an answered list say every leaf that it reads.
  pub Says-notes_of :
      (list : SubscriptionList) (m : ℕ) (k : Text) (leaf : Leaf)
      → IsAnswerable list m
      → list.prefix ≡ none
      → ((n : ℕ) → Located (Registry.atomic_prefix (w.registry n) k) k)
      → leaf_read list.subscription m k ≡ some leaf
      → Says (notes_of list m) (elems_of k) leaf.val
  unfolding find
  Says-notes_of list m k leaf h p l e =
      let (merged, s, m') = merge_subscriptions w list.subscription [] m in
      let good = (merge_subscriptions_iff list.subscription [] m).1 h.1 in
      let full = build_full_notifications (w.unix_time m') merged (w.registry m') in
      let all : notes_of list m ≡ full =
        notes_of_lem list m h
        ∙ ap (λ (o : Option GnmiPath). put_prefixes o full) p
        ∙ put_prefixes-none full in
      rw all (
        full_covers (w.unix_time m') (w.registry m') merged k leaf (l m')
          (find-merge_subscriptions list.subscription [] m k good ∙ e))
