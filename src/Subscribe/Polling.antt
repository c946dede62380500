-- ===== src/Subscribe/Polling.antt =====
-- The ONCE and POLL handlers, from the first request to the status.
use psc_mock_server.Prelude.{
  ℕ, suc, ◌+◌, ◌≡◌, ◌≢◌, ◌↔◌, ◌∙◌, refl, ap, true, none, some, List, [], ◌∷◌, ◌++◌, map,
  append_assoc, arith,
}
use psc_mock_server.Prelude.Texts.{Text}
use psc_mock_server.Gnmi.{
  Notification, Status, ok, error, invalid_argument, list_already_received, unknown_request_content,
}
use psc_mock_server.Gnmi.Requests.{
  SubscriptionList, subscribe, poll_trigger, not_set, SubscribeRequest, SubscribeResponse,
  sync_response,
}
use psc_mock_server.Utils.Nested.{elems_of}
use psc_mock_server.DataProvider.{DataProvider, Leaf}
use psc_mock_server.Registry
use psc_mock_server.Emit.Full.{Says, Located}
use psc_mock_server.Subscribe.{World, Call, emit, sync, handle_once, poll_reads, handle_poll}
use psc_mock_server.Subscribe.Answers.{
  IsAnswerable, leaf_read, emit_iff, notes_of, sent-emit, kept-emit, Says-notes_of,
}

-- The synchronisations among some responses.
abbrev pub syncs : List SubscribeResponse → ℕ
syncs [] = 0
syncs (SubscribeResponse.update n ∷ responses) = syncs responses
syncs (sync_response ∷ responses) = suc (syncs responses)

pub syncs-append : (a b : List SubscribeResponse) → syncs (a ++ b) ≡ syncs a + syncs b
syncs-append [] b = omega arith
syncs-append (SubscribeResponse.update n ∷ a) b = syncs-append a b
syncs-append (sync_response ∷ a) b = omega (arith, syncs-append a b)

pub syncs-updates : (notes : List Notification) → syncs (map SubscribeResponse.update notes) ≡ 0
syncs-updates [] = refl
syncs-updates (n ∷ notes) = syncs-updates notes

module _ {P : Type 0} ⦃i : DataProvider P⦄ (w : World P) where
  status-sync : (s : Status) (call : Call) → (sync w (s, call)).0 ≡ s
  unfolding sync
  status-sync ok call = refl
  status-sync (error c e) call = refl

  sent-sync :
      (s : Status) (call : Call)
      → s ≡ ok
      → (sync w (s, call)).1.sent ≡ call.sent ++ sync_response ∷ []
  unfolding sync
  sent-sync ok call h = refl
  sent-sync (error c e) call h = cc

  kept-sync : (s : Status) (call : Call) → s ≢ ok → (sync w (s, call)).1 ≡ call
  unfolding sync
  kept-sync ok call h = absurd (h refl)
  kept-sync (error c e) call h = refl

  -- A ONCE call succeeds exactly when its list is answerable; a call that fails has written nothing
  -- and is cancelled.
  pub once_lem :
      (list : SubscriptionList) (call : Call)
      → (((handle_once w list call).0 ≡ ok) ↔ IsAnswerable w list call.moment)
        × ((handle_once w list call).0 ≢ ok
            → ((handle_once w list call).1.sent ≡ call.sent)
              × ((handle_once w list call).1.try_cancelled ≡ true))
  unfolding handle_once
  once_lem list call =
      let (s, after) = emit w list call in
      (
        rw (status-sync s after) (emit_iff w list call),
        λ h.
            let failed : s ≢ ok = rw (status-sync s after) at h in
            rw (kept-sync s after failed) (kept-emit w list call failed),
      )

  -- A ONCE call on an answerable list with no prefix writes its notifications and then one
  -- synchronisation, and the notifications say each leaf that the first subscription with one at
  -- its path reads, if a container that the registry names for the path ends at a segment of it.
  pub once-Says :
      (list : SubscriptionList) (call : Call) (k : Text) (leaf : Leaf)
      → IsAnswerable w list call.moment
      → list.prefix ≡ none
      → ((n : ℕ) → Located (Registry.atomic_prefix (w.registry n) k) k)
      → leaf_read w list.subscription call.moment k ≡ some leaf
      → ((handle_once w list call).1.sent
          ≡ call.sent
            ++ (map SubscribeResponse.update (notes_of w list call.moment) ++ sync_response ∷ []))
        × Says (notes_of w list call.moment) (elems_of k) leaf.val
  unfolding handle_once
  once-Says list call k leaf h p l e =
      let (s, after) = emit w list call in
      (
        sent-sync s after ((emit_iff w list call).1 h)
            ∙ ap (λ (r : List SubscribeResponse). r ++ sync_response ∷ []) (sent-emit w list call h)
            ∙ append_assoc call.sent (map SubscribeResponse.update (notes_of w list call.moment))
                (sync_response ∷ []),
        Says-notes_of w list call.moment k leaf h p l e,
      )

  -- An answered delivery and its synchronisation.
  answered :
      (list : SubscriptionList) (call : Call)
      → IsAnswerable w list call.moment
      → ((sync w (emit w list call)).0 ≡ ok)
        × (syncs (sync w (emit w list call)).1.sent ≡ suc (syncs call.sent))
  answered list call h =
      let (s, after) = emit w list call in
      let good = (emit_iff w list call).1 h in
      let notes = map SubscribeResponse.update (notes_of w list call.moment) in
      (
        status-sync s after ∙ good,
        ap syncs (sent-sync s after good)
            ∙ omega (
              arith,
              syncs-append after.sent (sync_response ∷ []),
              ap syncs (sent-emit w list call h),
              syncs-append call.sent notes,
              syncs-updates (notes_of w list call.moment),
            ),
      )

-- How a POLL call ends, by its requests: with the first that is no poll.
abbrev pub poll_status : List SubscribeRequest → Status
poll_status [] = ok
poll_status (r ∷ requests) =
    let rest = poll_status requests in
    elim (r.request) [
      | poll_trigger ↦ rest
      | subscribe l ↦ error invalid_argument list_already_received
      | not_set ↦ error invalid_argument unknown_request_content
    ]

abbrev pub leading_polls : List SubscribeRequest → ℕ
leading_polls [] = 0
leading_polls (r ∷ requests) =
    let rest = leading_polls requests in
    elim (r.request) [ poll_trigger ↦ suc rest | subscribe l ↦ 0 | not_set ↦ 0 ]

module _ {P : Type 0} ⦃i : DataProvider P⦄ (w : World P) where
  poll_reads_lem :
      (list : SubscriptionList) (requests : List SubscribeRequest) (s : Status) (call : Call)
      → ((m : ℕ) → IsAnswerable w list m)
      → s ≡ ok
      → ((poll_reads w list requests (s, call)).0 ≡ poll_status requests)
        × (syncs (poll_reads w list requests (s, call)).1.sent
            ≡ syncs call.sent + leading_polls requests)
  unfolding poll_reads
  poll_reads_lem list requests (error c e) call h g = cc
  poll_reads_lem list [] ok call h g = (refl, omega arith)
  poll_reads_lem list (r ∷ requests) ok call h g =
      let (s, after) = sync w (emit w list call) in
      let done = answered w list call (h call.moment) in
      let ih = poll_reads_lem list requests s after h done.0 in ground (arith, ih, done)

  -- On a list that is answerable throughout, a POLL call ends with the first request that is not a
  -- poll, or well when the client closes its side, and has written one synchronisation at the start
  -- and one for each poll until then.
  pub poll_lem :
      (list : SubscriptionList) (requests : List SubscribeRequest) (call : Call)
      → ((m : ℕ) → IsAnswerable w list m)
      → ((handle_poll w list requests call).0 ≡ poll_status requests)
        × (syncs (handle_poll w list requests call).1.sent
            ≡ syncs call.sent + 1 + leading_polls requests)
  unfolding handle_poll
  poll_lem list requests call h =
      let (s, after) = sync w (emit w list call) in
      let done = answered w list call (h call.moment) in
      let all = poll_reads_lem list requests s after h done.0 in
      (all.0, omega (arith, all.1, done.1))
