-- ===== src/Server/Clients.antt =====
-- What a client of the running server reads and hears.
use psc_mock_server.Streaming.Quiet.{read, IsOnChange}
use psc_mock_server.Streaming.Handler.{handle_stream-IsFresh}
use psc_mock_server.Subscribe.{new_call, emit}
use psc_mock_server.Subscribe.Answers.{IsAnswerable}
use psc_mock_server.Streaming.{check_intervals, handle_stream}
use psc_mock_server.Utils.{gnmi_to_xpath}
use psc_mock_server.Gnmi.Requests.{Subscription}
use psc_mock_server.Prelude.{suc}
use psc_mock_server.Prelude.{
  ◌≡◌, ◌∙◌, sym, ℕ, ◌≤◌, ◌<◌, Bool, true, false, Option, none, some, [], ◌∷◌, All, arith, inl, inr,
  ◌⊎◌, Bool-cases, if◌then◌else◌,
}
use mathlib.Core.Path.{subst}
use psc_mock_server.Prelude.Texts.{Text}
use psc_mock_server.Prelude.Int.{ℤ}
use psc_mock_server.OrderedMap.{find}
use psc_mock_server.OrderedMap.Laws.{first}
use psc_mock_server.Utils.{strip_path_quotes}
use psc_mock_server.Utils.Nested.{elems_of}
use psc_mock_server.Gnmi.{TypedValue, ok}
use psc_mock_server.Gnmi.Requests.{SubscriptionList}
use psc_mock_server.DataProvider.{Leaf}
use psc_mock_server.LeafStore.{selects}
use psc_mock_server.LeafStore.Select.{find-snapshot}
use psc_mock_server.LeafStore.Diff.{value_at}
use psc_mock_server.StoreBacked
use psc_mock_server.StoreBacked.{StoreBackedProvider}
use psc_mock_server.StoreBacked.Keys.{LeavesIn}
use psc_mock_server.PowerSensor.{Doubles, Generator, build_walks}
use psc_mock_server.PowerSensor.Walks.{InRange}
use psc_mock_server.PowerSensor.Readings.{IsReading}
use psc_mock_server.Registry
use psc_mock_server.Registry.{Registry, matches}
use psc_mock_server.Registry.Routing.{snapshot_lem}
use psc_mock_server.Emit.{build_change_notifications}
use psc_mock_server.Emit.Client.{told}
use psc_mock_server.Emit.Follow.{IsLaidOut, Within}
use psc_mock_server.Emit.Refines.{serial}
use psc_mock_server.Emit.Polls.{change_mirrors}
use psc_mock_server.Subscribe.{World, Call}
use psc_mock_server.Streaming.Follow.{IsFresh}
use psc_mock_server.Server
use psc_mock_server.Server.{Provider, server_provider}
use psc_mock_server.Server.Commits.{server_registry, sensor_prefix, config_prefix}
use psc_mock_server.Server.Layout.{
  IsKnown, IsSensor, IsSetting, IsSensor-IsKnown, IsSetting-IsKnown, IsKnown-IsLaidOut,
}
use psc_mock_server.Server.System.{Running, registry_of, started, Runs}
use psc_mock_server.Server.Soundness.{IsSound-started, Runs-IsSound, walk-IsSensor}

-- What a snapshot of a provider holds, its store holds.
snapshot_in :
    (Q : Text → TypedValue → Type 0) (p : StoreBackedProvider) (query : Text)
    → LeavesIn Q p.store.leaves
    → LeavesIn Q (StoreBacked.snapshot p query)
unfolding StoreBacked.snapshot
snapshot_in Q p query w k leaf h = elim (Bool-cases (selects (strip_path_quotes query) k)) [
  | inl e ↦ w k leaf (rw e at (sym (find-snapshot p.store query k) ∙ h))
  | inr e ↦ cc (rw e at (sym (find-snapshot p.store query k) ∙ h))
]

one_of :
    (a b : Bool) (x y : Option Leaf) (leaf : Leaf)
    → (if a then first x (if b then first y none else none) else if b then first y none else none)
      ≡ some leaf
    → (x ≡ some leaf) ⊎ (y ≡ some leaf)
one_of a b x y leaf h = ground arith

-- What a snapshot of the server's registry holds, one of its two stores holds.
pub registry_in :
    (Q Q' : Text → TypedValue → Type 0) (sensor config : StoreBackedProvider) (query k : Text)
    (leaf : Leaf)
    → LeavesIn Q sensor.store.leaves
    → LeavesIn Q' config.store.leaves
    → find k (Registry.snapshot (server_registry sensor config) query).snap ≡ some leaf
    → Q k leaf.val ⊎ Q' k leaf.val
unfolding Server.snapshot
registry_in Q Q' sensor config query k leaf ws wc h =
    elim (one_of (matches query sensor_prefix) (matches query config_prefix)
      (find k (StoreBacked.snapshot sensor query)) (find k (StoreBacked.snapshot config query)) leaf
      (sym (snapshot_lem (server_registry sensor config) query k).1 ∙ h)) [
        | inl e ↦ inl (snapshot_in Q sensor query ws k leaf e)
        | inr e ↦ inr (snapshot_in Q' config query wc k leaf e)
      ]

module _ (f : Doubles) {R : Type 0} (g : Generator R) (irrefl : (x : ℕ) → f.less x x ≡ false)
    (range : All (InRange f) (build_walks f)) (s c : ℤ) (rng : R) where
  -- If no double is less than itself and every nominal value lies between the bounds of its walk,
  -- then whatever Sets and turns of the sensors' thread have happened since the start of the
  -- server, a leaf in a snapshot of its registry either stands at a path that the configuration
  -- declares, or it stands at the path of a walk that the thread was given and holds a double
  -- between the bounds of that walk.
  pub runs_lem :
      (r : Running f g) (query k : Text) (leaf : Leaf)
      → Runs f g (started f g s c rng) r
      → find k (Registry.snapshot (registry_of f g r) query).snap ≡ some leaf
      → IsReading f k leaf.val ⊎ IsSetting k
  runs_lem r query k leaf path h =
      let v = Runs-IsSound f g irrefl (IsSound-started f g s c rng range) path in
      registry_in (IsReading f) (λ j x. IsSetting j) r.simulation.provider r.config query k leaf
        v.simulated.readings v.known_leaves h

  Runs-Within :
      (r : Running f g) (query : Text)
      → Runs f g (started f g s c rng) r
      → Within IsKnown (Registry.snapshot (registry_of f g r) query).snap
  Runs-Within r query path k leaf h = elim (runs_lem r query k leaf path h) [
    | inl reading ↦
        IsSensor-IsKnown k (subst IsSensor reading.key (walk-IsSensor f reading.walk reading.built))
    | inr setting ↦ IsSetting-IsKnown k setting
  ]

  -- If no double is less than itself and every nominal value lies between the bounds of its walk,
  -- then between any two states that the running server can reach, a poll brings a client up to
  -- date: for every query and every path that a provider declares, if the client holds the
  -- serialised value that the query reads in the first state, and nothing where it reads nothing,
  -- then after the change notifications it holds what the query reads in the second state.
  pub polls_mirror :
      (before after : Running f g) (query : Text) (clock : Option Text → ℤ)
      (serialize : TypedValue → Text) (k : Text) (v : Option TypedValue)
      → Runs f g (started f g s c rng) before
      → Runs f g (started f g s c rng) after
      → IsKnown k
      → serial serialize v
        ≡ value_at serialize (find k (Registry.snapshot (registry_of f g before) query).snap)
      → serial serialize (
          told
            (elems_of k)
            (build_change_notifications clock serialize
              (Registry.snapshot (registry_of f g before) query).snap
              (Registry.snapshot (registry_of f g after) query).snap
              (registry_of f g after))
            v)
        ≡ value_at serialize (find k (Registry.snapshot (registry_of f g after) query).snap)
  polls_mirror before after query clock serialize k v b a kk h =
      change_mirrors (registry_of f g after) IsKnown
        (IsKnown-IsLaidOut after.simulation.provider after.config) clock serialize
        (Registry.snapshot (registry_of f g before) query).snap
        (Registry.snapshot (registry_of f g after) query).snap k v (Runs-Within before query b)
        (Runs-Within after query a) kk h

  -- If no double is less than itself and every nominal value lies between the bounds of its walk,
  -- then in every world whose registries are ones that the running server can reach, the STREAM
  -- handler on an answerable list of one on-change subscription with no heartbeat, no prefix and
  -- an initial delivery, whose context is cancelled from some moment on, returns well with more
  -- fuel than that moment. At every declared path that has the same serialised value in the
  -- initial delivery and in the baseline that the handler reads behind it, or none in both, a
  -- client that starts with nothing then holds the one that the query read less than five moments
  -- before the end.
  pub stream_mirrors :
      (w : World Provider) (state : ℕ → Running f g) (serialize : TypedValue → Text)
      (list : SubscriptionList) (sub : Subscription) (last fuel : ℕ) (k : Text)
      → ((m : ℕ) → w.registry m ≡ registry_of f g (state m))
      → ((m : ℕ) → Runs f g (started f g s c rng) (state m))
      → list.subscription ≡ sub ∷ []
      → list.prefix ≡ none
      → IsAnswerable w list 0
      → IsOnChange sub
      → ((m : ℕ) → last ≤ m → w.is_cancelled m ≡ true)
      → last < fuel
      → check_intervals list.subscription ≡ ok
      → list.updates_only ≡ false
      → IsKnown k
      → value_at serialize (find k (read w serialize (gnmi_to_xpath sub.path) 0))
        ≡ value_at serialize (
            find k (
              read w serialize
                (gnmi_to_xpath sub.path)
                (suc (suc (emit w list new_call).1.moment))))
      → (after : Call) × (handle_stream w serialize fuel list new_call ≡ some (ok, after))
        × IsFresh w serialize k (gnmi_to_xpath sub.path) after
  stream_mirrors w state serialize list sub last fuel k at runs alone plain answerable on cancelled
        enough intervals updates kk same =
      handle_stream-IsFresh w serialize IsKnown k kk
        (λ m.
          subst (λ (r : Registry Provider). IsLaidOut IsKnown (Registry.atomic_prefix r))
            (sym (at m)) (IsKnown-IsLaidOut (state m).simulation.provider (state m).config))
        (λ query m.
          subst (λ (r : Registry Provider). Within IsKnown (Registry.snapshot r query).snap)
            (sym (at m)) (Runs-Within (state m) query (runs m)))
        list sub alone plain answerable on last fuel cancelled enough intervals updates same
