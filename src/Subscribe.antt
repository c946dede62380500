-- ===== src/Subscribe.antt =====
-- src/gnmi/subscribe.h and subscribe.cpp: what a Subscribe call reads and writes, the notifications
-- for a list of subscriptions, and the ONCE and POLL handlers. STREAM is in Streaming.
pub mod Answers
pub mod Polling
use psc_mock_server.Prelude.{
  ℕ, suc, Bool, true, false, not, Option, none, some, List, [], ◌∷◌, ◌++◌, if◌then◌else◌,
}
use psc_mock_server.Prelude.Texts.{Text}
use psc_mock_server.Prelude.Int.{ℤ}
use psc_mock_server.OrderedMap.{merge}
use psc_mock_server.Gnmi.{
  GnmiPath, Notification, Encoding, json, bytes, proto, ascii, json_ietf, unknown_encoding, Status,
  ok, error, unimplemented, invalid_argument, encoding_name, path_not_implemented,
  list_already_received, unknown_request_content,
}
use psc_mock_server.Gnmi.Requests.{
  Subscription, SubscriptionList, RequestCase, subscribe, poll_trigger, not_set, SubscribeRequest,
  SubscribeResponse, sync_response,
}
use psc_mock_server.Gnmi.Requests
use psc_mock_server.Utils.{gnmi_to_xpath, validate_gnmi_path}
use psc_mock_server.DataProvider.{DataProvider, Snapshot}
use psc_mock_server.Registry
use psc_mock_server.Registry.{Registry}
use psc_mock_server.Emit.{build_full_notifications}

-- What the threads beside a call and its client do to it: what the call finds at each of the
-- moments at which it looks at the registry, at a clock or at the cancellation of its context. Any
-- number of writes may lie between two moments.
pub record World (P : Type 0) : Type 0 where
  pub registry : ℕ → Registry P
  pub time : ℕ → ℤ
  pub unix_time : ℕ → Option Text → ℤ
  pub is_cancelled : ℕ → Bool

-- What a call has done: the responses written, whether it has called `TryCancel`, and how many
-- moments have passed.
pub record Call : Type 0 where
  pub sent : List SubscribeResponse
  pub try_cancelled : Bool
  pub moment : ℕ

abbrev pub new_call : Call
new_call = record { sent = []; try_cancelled = false; moment = 0 }

-- `stream->Write(response)`
unfoldable pub write : SubscribeResponse → Call → Call
write response call = record call { sent = call.sent ++ response ∷ [] }

-- `context->TryCancel()`
unfoldable pub try_cancel : Call → Call
try_cancel call = record call { try_cancelled = true }

unfoldable pub write_all : List Notification → Call → Call
unfolding write
write_all [] call = call
write_all (n ∷ notes) call = write_all notes (write (SubscribeResponse.update n) call)

-- The test of the encoding.
unfoldable pub encoding_status : Encoding → Status
encoding_status json = ok
encoding_status json_ietf = ok
encoding_status proto = error unimplemented (encoding_name proto)
encoding_status bytes = error unimplemented (encoding_name bytes)
encoding_status ascii = error unimplemented (encoding_name ascii)
encoding_status (unknown_encoding n) = error unimplemented (encoding_name (unknown_encoding n))

-- The prefix of the request on a notification that is not atomic.
unfoldable pub put_prefix : Option GnmiPath → Notification → Notification
put_prefix none n = n
put_prefix (some prefix) n = if not n.atomic then record n { prefix = some prefix } else n

unfoldable pub put_prefixes : Option GnmiPath → List Notification → List Notification
unfolding put_prefix
put_prefixes prefix [] = []
put_prefixes prefix (n ∷ notes) = put_prefix prefix n ∷ put_prefixes prefix notes

module _ {P : Type 0} ⦃i : DataProvider P⦄ (w : World P) where
  -- The loop over the subscriptions: the merged snapshot, the status and the moment.
  unfoldable pub merge_subscriptions : List Subscription → Snapshot → ℕ → Snapshot × Status × ℕ
  merge_subscriptions [] merged m = (merged, ok, m)
  merge_subscriptions (sub ∷ subs) merged m =
      let xpath = gnmi_to_xpath sub.path in
      let res = Registry.snapshot (w.registry m) xpath in
      let rest = merge_subscriptions subs (merge merged res.snap) (suc m) in
      elim (validate_gnmi_path sub.path) [
        | error c e ↦ (merged, error c e, m)
        | ok ↦
            if not res.routed
            then (merged, error unimplemented (path_not_implemented xpath), suc m)
            else rest
      ]

  -- What follows the loop.
  unfoldable pub finish_build :
      SubscriptionList → Snapshot → Status → ℕ → List Notification × Status × ℕ
  unfolding put_prefixes
  finish_build request merged (error c e) m = ([], error c e, m)
  finish_build request merged ok m = (
    put_prefixes request.prefix (build_full_notifications (w.unix_time m) merged (w.registry m)),
    ok,
    suc m,
  )

  -- `buildSubscribeNotifications`: the notifications, the status and the moment
  unfoldable pub build_subscribe_notifications :
      SubscriptionList → ℕ → List Notification × Status × ℕ
  unfolding encoding_status merge_subscriptions finish_build
  build_subscribe_notifications request m =
      let (merged, status, m') = merge_subscriptions request.subscription [] m in
      elim (encoding_status request.encoding) [
        | error c e ↦ ([], error c e, m)
        | ok ↦ finish_build request merged status m'
      ]

  -- What every caller does with the result: `TryCancel` on an error, `writeAll` else.
  unfoldable pub deliver : List Notification → Status → Call → Status × Call
  unfolding write_all try_cancel
  deliver notes (error c e) call = (error c e, try_cancel call)
  deliver notes ok call = (ok, write_all notes call)

  unfoldable pub emit : SubscriptionList → Call → Status × Call
  unfolding build_subscribe_notifications deliver
  emit list call =
      let (notes, status, m) = build_subscribe_notifications list call.moment in
      deliver notes status (record call { moment = m })

  -- The synchronisation behind a delivery that succeeded.
  unfoldable pub sync : Status × Call → Status × Call
  unfolding write
  sync (error c e, call) = (error c e, call)
  sync (ok, call) = (ok, write sync_response call)

  unfoldable pub handle_once : SubscriptionList → Call → Status × Call
  unfolding emit sync
  handle_once list call = sync (emit list call)

  -- The loop over the requests that the client sends until it closes its side.
  unfoldable pub poll_reads :
      SubscriptionList → List SubscribeRequest → Status × Call → Status × Call
  unfolding emit sync
  poll_reads list requests (error c e, call) = (error c e, call)
  poll_reads list [] (ok, call) = (ok, call)
  poll_reads list (r ∷ requests) (ok, call) =
      let rest = poll_reads list requests (sync (emit list call)) in
      elim (r.request) [
        | poll_trigger ↦ rest
        | subscribe l ↦ (error invalid_argument list_already_received, call)
        | not_set ↦ (error invalid_argument unknown_request_content, call)
      ]

  unfoldable pub handle_poll : SubscriptionList → List SubscribeRequest → Call → Status × Call
  unfolding poll_reads
  handle_poll list requests call = poll_reads list requests (sync (emit list call))
