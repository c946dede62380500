-- ===== src/Tests/MirrorTests.antt =====
-- A client that follows the server's notifications, at two paths of the configuration.
use psc_mock_server.Prelude.{◌≡◌, inl, inr, refl, true, false, none, some, inl, inr, sym, [], ◌∷◌}
use psc_mock_server.Prelude.Texts.{Text, codes, eq_text, lt_text}
use psc_mock_server.Prelude.Int.{pos}
use psc_mock_server.OrderedMap.{find}
use psc_mock_server.Gnmi.{uint_val}
use psc_mock_server.Utils.Nested.{elems_of}
use psc_mock_server.DataProvider.{Snapshot, default_atomic_prefix}
use psc_mock_server.LeafStore.Diff.{value_at}
use psc_mock_server.Registry
use psc_mock_server.Registry.{Registry, matches}
use psc_mock_server.Server
use psc_mock_server.SystemConfig
use psc_mock_server.SystemConfig.{starts_with, container_of, find_text, ends_with}
use psc_mock_server.Utils.{
  is_path_prefix, strip_path_quotes, strip_prefix, at_boundary, xpath_to_gnmi_path, skip_slash,
  split_on, parse_parts, parse_elem, parse_keys, find_byte, predicate_value, unquote, assign_key,
}
use psc_mock_server.Server.{Provider, server_provider}
use psc_mock_server.Server.Clients.{registry_in}
use psc_mock_server.Server.Commits.{server_registry}
use psc_mock_server.Emit.{build_change_notifications}
use psc_mock_server.Emit.Client.{told}
use psc_mock_server.Emit.Follow.{IsLaidOut, Within}
use psc_mock_server.Emit.Refines.{serial}
use psc_mock_server.Emit.Polls.{change_mirrors}
use psc_mock_server.Emit.{partition}
use psc_mock_server.Emit.Heartbeat.{heartbeat_due}
use psc_mock_server.Prelude.{arith, ℕ, Bool, leb, ltb, if◌then◌else◌, ◌≤◌, ◌↔◌}
use psc_mock_server.OrderedMap.{merge, emplace, assign}
use psc_mock_server.Gnmi.{ok, json, on_change, new_notification}
use psc_mock_server.Gnmi.Requests.{SubscriptionList, SubscribeResponse, sync_response, stream}
use psc_mock_server.DataProvider.{leaf_update}
use psc_mock_server.LeafStore
use psc_mock_server.LeafStore.{selects}
use psc_mock_server.StoreBacked
use psc_mock_server.StoreBacked.{StoreBackedProvider}
use psc_mock_server.Subscribe.{World, Call, new_call}
use psc_mock_server.Streaming.{OnChangeSub, turn_notifications, turned, stream_loop}
use psc_mock_server.Streaming.Quiet.{read}
use psc_mock_server.Streaming.Mirror.{is_missed, turn_current_iff}
use psc_mock_server.Streaming.Follow.{HoldsRead, IsInStep, IsFresh, stream_loop-IsFresh}
use psc_mock_server.Tests.Data.{elem, path_of}
use psc_mock_server.Tests.Data.{sensor, serialize, leaf_at}
use psc_mock_server.Tests.Layout.{
  server, hostname, port, IsKnown, plain, inside, IsKnown-IsLaidOut, Within-cons, Within-nil,
}

abbrev old : Snapshot
old = (hostname, leaf_at 7 1) ∷ (port, leaf_at 1 1) ∷ []

abbrev new : Snapshot
new = (port, leaf_at 2 2) ∷ []

new-Within : Within IsKnown new
new-Within = Within-cons port (leaf_at 2 2) [] inside Within-nil

old-Within : Within IsKnown old
old-Within =
    Within-cons hostname (leaf_at 7 1) ((port, leaf_at 1 1) ∷ []) plain
      (Within-cons port (leaf_at 1 1) [] inside Within-nil)

old-port : value_at serialize (find port old) ≡ some (3 ∷ 1 ∷ [])
unfolding find eq_text
old-port = refl

change_mirrors_example :
    serial serialize (
      told
        (elems_of port)
        (build_change_notifications (λ o. pos 1) serialize old new server)
        (some (uint_val 1)))
    ≡ value_at serialize (find port new)
change_mirrors_example =
    change_mirrors server IsKnown IsKnown-IsLaidOut (λ o. pos 1) serialize old new port
      (some (uint_val 1)) old-Within new-Within inside (sym old-port)

-- The server with the two paths, and with no sensor.
abbrev bare : StoreBackedProvider
bare = record { store = record { leaves = [] }; schema = [] }

abbrev full : StoreBackedProvider
full = record {
  store = record { leaves = (hostname, leaf_at 3 2) ∷ (port, leaf_at 3 2) ∷ [] };
  schema = [];
}

abbrev less : StoreBackedProvider
less = record { store = record { leaves = (port, leaf_at 4 3) ∷ [] }; schema = [] }

-- A write takes the host name after the third moment; the client cancels at the ninth.
abbrev world : World Provider
world = record {
  registry = λ m. server_registry bare (if ltb 2 m then less else full);
  time = λ m. pos m;
  unix_time = λ m o. pos m;
  is_cancelled = λ m. leb 9 m;
}

world-IsLaidOut : (m : ℕ) → IsLaidOut IsKnown (Registry.atomic_prefix (world.registry m))
unfolding Registry.atomic_prefix Server.atomic_prefix SystemConfig.atomic_prefix
    default_atomic_prefix
world-IsLaidOut m = IsKnown-IsLaidOut

registry_Within :
    (sensor config : StoreBackedProvider) (query : Text)
    → Within IsKnown sensor.store.leaves
    → Within IsKnown config.store.leaves
    → Within IsKnown (Registry.snapshot (server_registry sensor config) query).snap
registry_Within sensor config query ws wc k leaf h =
    elim (registry_in (λ j v. IsKnown j) (λ j v. IsKnown j) sensor config query k leaf ws wc h) [
      | inl e ↦ e
      | inr e ↦ e
    ]

full-Within : Within IsKnown full.store.leaves
full-Within =
    Within-cons hostname (leaf_at 3 2) ((port, leaf_at 3 2) ∷ []) plain
      (Within-cons port (leaf_at 3 2) [] inside Within-nil)

choice_Within :
    (b : Bool) (query : Text)
    → Within IsKnown
        (Registry.snapshot (server_registry bare (if b then less else full)) query).snap
choice_Within true query =
    registry_Within bare less query Within-nil (Within-cons port (leaf_at 4 3) [] inside Within-nil)
choice_Within false query = registry_Within bare full query Within-nil full-Within

world-Within : (query : Text) (m : ℕ) → Within IsKnown (read world serialize query m)
world-Within query m = choice_Within (ltb 2 m) query

abbrev followed : OnChangeSub
followed = record {
  sub = record {
    path = path_of (elem (codes "system") ∷ []);
    mode = on_change;
    sample_interval = 0;
    heartbeat_interval = 0;
  };
  query = codes "/system";
  prev = read world serialize (codes "/system") 0;
  last_heartbeat = pos 0;
}

-- A call that has delivered what was read at the start.
abbrev begun : Call
begun = record new_call {
  sent =
      SubscribeResponse.update
        (record new_notification { update = leaf_update hostname (uint_val 3) ∷ [] })
      ∷ sync_response
      ∷ [];
  moment = 1;
}

begun_holds : HoldsRead world serialize hostname (codes "/system") 0 begun
unfolding Registry.snapshot merge Server.snapshot StoreBacked.snapshot LeafStore.snapshot selects
    emplace find assign matches is_path_prefix strip_path_quotes strip_prefix at_boundary eq_text
    xpath_to_gnmi_path skip_slash split_on parse_parts parse_elem parse_keys find_byte
    predicate_value unquote assign_key leaf_update lt_text
begun_holds = refl

begun-IsInStep : IsInStep world serialize hostname followed begun
begun-IsInStep = record {
  quiet = refl;
  since = 0;
  kept = refl;
  before = omega arith;
  recent = omega arith;
  held = begun_holds;
}

abbrev list : SubscriptionList
list = record {
  prefix = none;
  subscription = followed.sub ∷ [];
  mode = stream;
  encoding = json;
  updates_only = false;
}

cancelled : (m : ℕ) → 9 ≤ m → world.is_cancelled m ≡ true
cancelled m h = ground arith

stream_loop-IsFresh_example :
    (after : Call) × (stream_loop world serialize 20 list
        (record { chronomap = []; on_change = followed ∷ [] })
        begun
      ≡ some (ok, after))
    × IsFresh world serialize hostname (codes "/system") after
stream_loop-IsFresh_example =
    stream_loop-IsFresh world serialize IsKnown hostname plain world-IsLaidOut world-Within 9 20
      list followed begun cancelled (omega arith) (omega arith) begun-IsInStep

-- A heartbeat that is due when the host name is found to be gone.
abbrev beating : OnChangeSub
beating = record followed { sub = record followed.sub { heartbeat_interval = 1 } }

beating_held :
    serial serialize (some (uint_val 3)) ≡ value_at serialize (find hostname beating.prev)
unfolding Registry.snapshot merge Server.snapshot StoreBacked.snapshot LeafStore.snapshot selects
    emplace find assign matches is_path_prefix strip_path_quotes strip_prefix at_boundary eq_text
    xpath_to_gnmi_path skip_slash split_on parse_parts parse_elem parse_keys find_byte
    predicate_value unquote assign_key leaf_update lt_text
beating_held = refl

turn_current_iff_example :
    (serial serialize (
        told (elems_of hostname) (turn_notifications world serialize beating 5) (some (uint_val 3)))
      ≡ value_at serialize (find hostname (turned world serialize beating 5).prev))
    ↔ (is_missed world serialize beating 5 hostname ≡ false)
turn_current_iff_example =
    turn_current_iff world serialize beating 5 IsKnown hostname (some (uint_val 3))
      (world-IsLaidOut 7) (world-Within (codes "/system") 0) (world-Within (codes "/system") 5)
      plain beating_held

-- That heartbeat is due, and the host name is missed.
is_missed_lem : is_missed world serialize beating 5 hostname ≡ true
unfolding heartbeat_due Registry.atomic_prefix Server.atomic_prefix SystemConfig.atomic_prefix
    default_atomic_prefix partition starts_with container_of find_text ends_with Registry.snapshot
    merge Server.snapshot StoreBacked.snapshot LeafStore.snapshot selects emplace find assign
    matches is_path_prefix strip_path_quotes strip_prefix at_boundary eq_text xpath_to_gnmi_path
    skip_slash split_on parse_parts parse_elem parse_keys find_byte predicate_value unquote
    assign_key leaf_update lt_text
is_missed_lem = refl
