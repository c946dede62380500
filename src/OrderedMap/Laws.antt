-- ===== src/OrderedMap/Laws.antt =====
-- Lookup after each operation of the ordered map, with no assumption on the map.
use psc_mock_server.Prelude.{◌≡◌, refl, Option, none, some, [], ◌∷◌, arith, if◌then◌else◌}
use psc_mock_server.Prelude.Texts.{Text, eq_text, eq_text_iff}
use psc_mock_server.OrderedMap.{OrderedMap, find, assign, erase, emplace, merge}

-- The first of two options that holds a value.
abbrev pub first {ℓ} : {V : Type ℓ} → Option V → Option V → Option V
first (some v) o = some v
first none o = o

module _ {ℓ} {V : Type ℓ} where
  pub find-assign :
      (k j : Text) (v : V) (m : OrderedMap V)
      → find j (assign k v m) ≡ (if eq_text k j then some v else find j m)
  unfolding find assign
  find-assign k j v [] = refl
  find-assign k j v ((i, w) ∷ m) =
      ground (arith, eq_text_iff k j, eq_text_iff i k, eq_text_iff i j, find-assign k j v m)

  pub find-erase :
      (k j : Text) (m : OrderedMap V)
      → find j (erase k m) ≡ (if eq_text k j then none else find j m)
  unfolding find erase
  find-erase k j [] = ground arith
  find-erase k j ((i, w) ∷ m) =
      ground (arith, eq_text_iff k j, eq_text_iff i k, eq_text_iff i j, find-erase k j m)

  pub find-emplace :
      (k j : Text) (v : V) (m : OrderedMap V)
      → find j (emplace k v m) ≡ first (find j m) (if eq_text k j then some v else none)
  unfolding emplace
  find-emplace k j v m = ground (arith, find-assign k j v m, eq_text_iff k j)

  pub find-merge :
      (j : Text) (m other : OrderedMap V) → find j (merge m other) ≡ first (find j m) (find j other)
  unfolding merge find
  find-merge j m [] = ground arith
  find-merge j m ((k, v) ∷ other) =
      ground (arith, find-merge j (emplace k v m) other, find-emplace k j v m)

pub ruleset map_laws = (find-assign, find-erase)
