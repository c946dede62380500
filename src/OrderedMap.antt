-- ===== src/OrderedMap.antt =====
-- `std::map<std::string, V>`: an association list that the operations keep sorted by key.
pub mod Laws
pub mod Sorted
use psc_mock_server.Prelude.{Bool, Option, none, some, List, [], ◌∷◌, if◌then◌else◌}
use psc_mock_server.Prelude.Texts.{Text, eq_text, lt_text}

abbrev pub OrderedMap {ℓ} : Type ℓ → Type ℓ
OrderedMap V = List (Text × V)

module _ {ℓ} {V : Type ℓ} where
  -- `m.find(k)`; `none` is `m.end()`
  unfoldable pub find : Text → OrderedMap V → Option V
  find k [] = none
  find k ((j, v) ∷ m) = if eq_text j k then some v else find k m

  -- `m[k] = v`
  unfoldable pub assign : Text → V → OrderedMap V → OrderedMap V
  assign k v [] = (k, v) ∷ []
  assign k v ((j, w) ∷ m) =
      let rest = assign k v m in
      if eq_text j k then (k, v) ∷ m else if lt_text k j then (k, v) ∷ (j, w) ∷ m else (j, w) ∷ rest

  -- `m.erase(k)`
  unfoldable pub erase : Text → OrderedMap V → OrderedMap V
  erase k [] = []
  erase k ((j, v) ∷ m) = let rest = erase k m in if eq_text j k then rest else (j, v) ∷ rest

  -- `m.emplace(k, v)`: an entry that is there stays as it is
  unfoldable pub emplace : Text → V → OrderedMap V → OrderedMap V
  emplace k v m = elim (find k m) [ none ↦ assign k v m | some w ↦ m ]

  -- `m.merge(other)`: the entries of `other` whose keys `m` lacks
  unfoldable pub merge : OrderedMap V → OrderedMap V → OrderedMap V
  merge m [] = m
  merge m ((k, v) ∷ other) = merge (emplace k v m) other
