-- ===== src/Tests/SystemTests.antt =====
-- The running server through a Set and a turn of the sensors' thread.
use psc_mock_server.Prelude.{ap, ◌∙◌}
use psc_mock_server.Prelude.{
  ℕ, ◌≡◌, ◌⊎◌, ◌∙◌, refl, sym, true, false, none, some, List, [], ◌∷◌, All, All-append, arith, ltb,
  leb, ◌≤◌, ◌<◌, if◌then◌else◌, Bool, here,
}
use psc_mock_server.Prelude.Texts.{Text, codes, eq_text, lt_text}
use psc_mock_server.Prelude.Int.{pos}
use psc_mock_server.OrderedMap.{find, assign, merge, emplace}
use psc_mock_server.Gnmi.{ok, json, on_change, string_val}
use psc_mock_server.Gnmi.Requests.{SubscriptionList, stream}
use psc_mock_server.DataProvider.{Leaf, operational, double, typed_value}
use psc_mock_server.Utils.{
  is_path_prefix, strip_path_quotes, strip_prefix, at_boundary, find_byte, gnmi_to_xpath,
}
use psc_mock_server.Utils.Nested.{elems_of}
use psc_mock_server.LeafStore
use psc_mock_server.LeafStore.{selects}
use psc_mock_server.LeafStore.Diff.{value_at}
use psc_mock_server.StoreBacked
use psc_mock_server.StoreBacked.{commit_stamped}
use psc_mock_server.SystemConfig.{new_system_config}
use psc_mock_server.PowerSensor.{
  Generator, SensorDef, sensors, unit_walks, build_walks, build_walks_for, psc_units,
  new_power_sensor, run_tick, run_simulator, leaf_path,
}
use psc_mock_server.PowerSensor.ReadOnly.{new_power_sensor-NoConfig}
use psc_mock_server.PowerSensor.Walks.{InRange, run_ticks}
use psc_mock_server.PowerSensor.Stopping.{run_simulator_lem}
use psc_mock_server.PowerSensor.Readings.{IsReading}
use psc_mock_server.Registry
use psc_mock_server.Registry.{Registry, matches}
use psc_mock_server.Emit.{build_change_notifications}
use psc_mock_server.Emit.Client.{told}
use psc_mock_server.Emit.Refines.{serial}
use psc_mock_server.SetRpc.{run}
use psc_mock_server.SetRpc.Transaction.{batch_of}
use psc_mock_server.Server
use psc_mock_server.Server.{Provider, server_provider}
use psc_mock_server.Server.Commits.{run-server_registry}
use psc_mock_server.Server.Layout.{IsKnown, IsSetting, IsSetting-IsKnown}
use psc_mock_server.Server.System.{Running, registry_of, started, Event, set_rpc, tick, Runs}
use psc_mock_server.Server.Clients.{runs_lem, polls_mirror, stream_mirrors}
use psc_mock_server.Subscribe.{World, Call, new_call}
use psc_mock_server.Streaming.{check_intervals, handle_stream}
use psc_mock_server.Streaming.Ends.{moment-deliver}
use psc_mock_server.Subscribe.{
  emit, build_subscribe_notifications, merge_subscriptions, finish_build, encoding_status,
}
use psc_mock_server.Subscribe.Answers.{IsAnswerable}
use psc_mock_server.Gnmi.Requests.{Subscription}
use psc_mock_server.Utils.{validate_gnmi_path}
use psc_mock_server.Prelude.{suc}
use psc_mock_server.Streaming.Quiet.{read}
use psc_mock_server.Streaming.Follow.{IsFresh}
use psc_mock_server.Tests.Data.{
  whole_numbers, sensor, settings, serialize, hostname_request, hostname_path,
}

abbrev always : Generator ℕ
always = record { step_now = λ r. (true, r); step_up = λ r. (true, r) }

irreflexive : (x : ℕ) → ltb x x ≡ false
irreflexive x = ground arith

unit_range :
    (unit : Text) (defs : List SensorDef)
    → All (InRange whole_numbers) (unit_walks whole_numbers unit defs)
unfolding unit_walks
unit_range unit [] = tt
unit_range unit (d ∷ defs) = (
  record {
    not_below = irreflexive d.nominal;
    not_above = irreflexive d.nominal;
    ordered = irreflexive d.nominal;
  },
  unit_range unit defs,
)

range_for : (units : List Text) → All (InRange whole_numbers) (build_walks_for whole_numbers units)
unfolding build_walks_for
range_for [] = tt
range_for (unit ∷ units) =
    All-append (InRange whole_numbers) (unit_walks whole_numbers unit sensors)
      (build_walks_for whole_numbers units) (unit_range unit sensors) (range_for units)

range : All (InRange whole_numbers) (build_walks whole_numbers)
unfolding build_walks
range = range_for psc_units

abbrev begin : Running whole_numbers always
begin = started whole_numbers always (pos 1) (pos 1) 0

-- The Set renames the host.
abbrev renamed : Running whole_numbers always
renamed = record begin { config = commit_stamped settings (batch_of (pos 7) [] hostname_request) }

abbrev ticked : Running whole_numbers always
ticked = record renamed { simulation = run_tick whole_numbers always (pos 8) renamed.simulation }

accepted : (run (registry_of whole_numbers always begin) (pos 7) hostname_request).2 ≡ ok
unfolding run Registry.writable matches is_path_prefix strip_path_quotes gnmi_to_xpath
    Server.writable StoreBacked.writable find assign eq_text lt_text new_system_config
    new_power_sensor
accepted = refl

begin-renamed : Event whole_numbers always begin renamed
begin-renamed = set_rpc (pos 7) hostname_request refl (
    sym (
      run-server_registry sensor settings (pos 7) hostname_request
        (new_power_sensor-NoConfig whole_numbers (pos 1)) accepted))

Runs-ticked : Runs whole_numbers always begin ticked
Runs-ticked = Runs.next (Runs.next Runs.here begin-renamed) (tick (pos 8) refl)

abbrev hostname : Text
hostname = codes "/system/config/hostname"

abbrev temperature : Text
temperature = codes "/components/component[name=PSC-0]/state/temperature/instant"

abbrev reading : Leaf
reading = record {
  val = typed_value (double 0x4046800000000000);
  collected_ns = pos 8;
  leaf_type = operational;
}

read_temperature :
    find temperature (Registry.snapshot (registry_of whole_numbers always ticked) temperature).snap
    ≡ some reading
unfolding Registry.snapshot merge Server.snapshot StoreBacked.snapshot LeafStore.snapshot selects
    emplace find assign matches is_path_prefix strip_path_quotes strip_prefix at_boundary eq_text
    lt_text new_power_sensor new_system_config run_tick leaf_path commit_stamped LeafStore.commit
    find_byte LeafStore.strip_keys
read_temperature = refl

runs_lem_example : IsReading whole_numbers temperature reading.val ⊎ IsSetting temperature
runs_lem_example =
    runs_lem whole_numbers always irreflexive range (pos 1) (pos 1) 0 ticked temperature temperature
      reading Runs-ticked read_temperature

hostname-IsKnown : IsKnown hostname
hostname-IsKnown = IsSetting-IsKnown hostname here

read_hostname :
    value_at serialize
      (find hostname (Registry.snapshot (registry_of whole_numbers always begin) hostname).snap)
    ≡ some (serialize (string_val (codes "psc-mock")))
unfolding Registry.snapshot merge Server.snapshot StoreBacked.snapshot LeafStore.snapshot selects
    emplace find assign matches is_path_prefix strip_path_quotes strip_prefix at_boundary eq_text
    lt_text new_power_sensor new_system_config run_tick leaf_path commit_stamped LeafStore.commit
    find_byte LeafStore.strip_keys
read_hostname = refl

polls_mirror_example :
    serial serialize (
      told
        (elems_of hostname)
        (build_change_notifications
          (λ o. pos 9)
          serialize
          (Registry.snapshot (registry_of whole_numbers always begin) hostname).snap
          (Registry.snapshot (registry_of whole_numbers always ticked) hostname).snap
          (registry_of whole_numbers always ticked))
        (some (string_val (codes "psc-mock"))))
    ≡ value_at serialize
        (find hostname (Registry.snapshot (registry_of whole_numbers always ticked) hostname).snap)
polls_mirror_example =
    polls_mirror whole_numbers always irreflexive range (pos 1) (pos 1) 0 begin ticked hostname
      (λ o. pos 9) serialize hostname (some (string_val (codes "psc-mock"))) Runs.here Runs-ticked
      hostname-IsKnown (sym read_hostname)

-- The Set and the turn land behind the fifth moment; the client cancels at the ninth.
abbrev state : ℕ → Running whole_numbers always
state m = if ltb 5 m then ticked else begin

abbrev world : World Provider
world = record {
  registry = λ m. registry_of whole_numbers always (state m);
  time = λ m. pos m;
  unix_time = λ m o. pos m;
  is_cancelled = λ m. leb 9 m;
}

choice_Runs : (b : Bool) → Runs whole_numbers always begin (if b then ticked else begin)
choice_Runs true = Runs-ticked
choice_Runs false = Runs.here

cancelled : (m : ℕ) → 9 ≤ m → world.is_cancelled m ≡ true
cancelled m h = ground arith

abbrev hostname_sub : Subscription
hostname_sub = record {
  path = hostname_path;
  mode = on_change;
  sample_interval = 0;
  heartbeat_interval = 0;
}

abbrev list : SubscriptionList
list = record {
  prefix = none;
  subscription = hostname_sub ∷ [];
  mode = stream;
  encoding = json;
  updates_only = false;
}

answered : IsAnswerable world list 0
unfolding gnmi_to_xpath is_path_prefix matches strip_path_quotes validate_gnmi_path
answered = (refl, (refl, refl, tt))

build_moment : (build_subscribe_notifications world list 0).2 ≡ 2
unfolding build_subscribe_notifications merge_subscriptions finish_build encoding_status
    gnmi_to_xpath is_path_prefix matches strip_path_quotes validate_gnmi_path Registry.snapshot
build_moment = refl

emit_moment : (emit world list new_call).1.moment ≡ 2
unfolding emit
emit_moment =
    moment-deliver world (build_subscribe_notifications world list 0).0
      (build_subscribe_notifications world list 0).1
      (record new_call { moment = (build_subscribe_notifications world list 0).2 })
    ∙ build_moment

-- The baseline is read before the Set.
same_baseline :
    value_at serialize (find hostname (read world serialize (gnmi_to_xpath hostname_path) 0))
    ≡ value_at serialize (
        find hostname (
          read world serialize
            (gnmi_to_xpath hostname_path)
            (suc (suc (emit world list new_call).1.moment))))
same_baseline =
    ap
      (λ (m : ℕ).
        value_at serialize
          (find hostname (read world serialize (gnmi_to_xpath hostname_path) (suc (suc m)))))
      (sym emit_moment)

stream_mirrors_example :
    (after : Call) × (handle_stream world serialize 20 list new_call ≡ some (ok, after))
    × IsFresh world serialize hostname (gnmi_to_xpath hostname_path) after
unfolding check_intervals
stream_mirrors_example =
    stream_mirrors whole_numbers always irreflexive range (pos 1) (pos 1) 0 world state serialize
      list hostname_sub 9 20 hostname (λ m. refl) (λ m. choice_Runs (ltb 5 m)) refl refl answered
      (refl, refl) cancelled (omega arith) refl refl hostname-IsKnown same_baseline

-- A stop that is asked for while the thread waits behind its third turn.
abbrev stops : ℕ → Bool
stops n = leb 2 n

goes_on : (m : ℕ) → m < 2 → stops m ≡ false
goes_on m h = ground arith

run_simulator_lem_example :
    run_simulator whole_numbers always pos stops 10 0 begin.simulation
    ≡ some (run_ticks whole_numbers always (pos 0 ∷ pos 1 ∷ pos 2 ∷ []) begin.simulation)
run_simulator_lem_example =
    run_simulator_lem whole_numbers always pos stops 2 10 begin.simulation goes_on refl
      (omega arith)
