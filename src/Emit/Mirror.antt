-- ===== src/Emit/Mirror.antt =====
-- A client that applies the notifications of a poll holds what the server holds.
use psc_mock_server.Prelude.{
  ℕ, ◌≡◌, ◌∙◌, inl, inr, refl, sym, ap, true, ◌&&◌, Option, none, some, List, [], ◌∷◌, ◌++◌, All,
  drop, arith, if◌then◌else◌, Bool-cases,
}
use mathlib.Core.Path.{subst}
use psc_mock_server.Prelude.Texts.{Text, eq_text, eq_text_iff, eq_text_sound}
use psc_mock_server.OrderedMap.{OrderedMap, find}
use psc_mock_server.OrderedMap.Laws.{first}
use psc_mock_server.OrderedMap.Sorted.{IsSorted, Above, find-Above, find_head}
use psc_mock_server.Gnmi.{TypedValue, GnmiPath, PathElem, empty_path}
use psc_mock_server.Utils.{xpath_to_gnmi_path}
use psc_mock_server.Utils.Nested.{elems_of}
use psc_mock_server.DataProvider.{Leaf, leaf_update}
use psc_mock_server.LeafStore.Diff.{contains}
use psc_mock_server.Emit.Full.{updates_of}
use psc_mock_server.Emit.Client.{under, eq_elems, said, deleted, under_refl}

abbrev pub value_of : Option Leaf → Option TypedValue
value_of none = none
value_of (some leaf) = some leaf.val

-- The paths that are deleted for some keys.
abbrev pub paths_of : List Text → List GnmiPath
paths_of [] = []
paths_of (k ∷ ks) = xpath_to_gnmi_path k empty_path ∷ paths_of ks

-- A fact about the keys of a map is one about the paths that it holds.
pub All-keys :
    (Q : Text → Type 0) (m : OrderedMap Leaf)
    → ((k : Text) (leaf : Leaf) → find k m ≡ some leaf → Q k)
    → All (λ (x : Text × Leaf). Q x.0) m
unfolding find
All-keys Q [] h = tt
All-keys Q ((p, l) ∷ m) h = (
  h p l (find_head p l m),
  All-keys Q m (λ k leaf e. elim (Bool-cases (eq_text p k)) [
    | inl same ↦ subst Q (eq_text_sound p k same) (h p l (find_head p l m))
    | inr other ↦ h k leaf (rw (find, other) e)
  ]),
)

both_ways : (j k : Text) → (eq_text j k && eq_text k j) ≡ eq_text j k
both_ways j k = ground (arith, eq_text_iff j k, eq_text_iff k j)

one_said :
    (p k : Text) (l : Leaf) (m : OrderedMap Leaf)
    → Above p m
    → first (value_of (find k m)) (if eq_text p k then (leaf_update p l.val).val else none)
      ≡ value_of (find k ((p, l) ∷ m))
unfolding find leaf_update
one_said p k l m a = ground (arith, eq_text_iff p k, find-Above p m a)

-- No key's path lies at or under another's.
abbrev pub AreApart : (Text → Type 0) → Type 0
AreApart K = (j k : Text) → K j → K k → under (elems_of j) (elems_of k) ≡ true → j ≡ k

module _ (K : Text → Type 0) (apart : AreApart K) where
  under_test : (j k : Text) → K j → K k → under (elems_of j) (elems_of k) ≡ eq_text j k
  under_test j k kj kk = elim (Bool-cases (under (elems_of j) (elems_of k))) [
    | inl e ↦ e ∙ sym ((eq_text_iff j k).1 (apart j k kj kk e))
    | inr e ↦ elim (Bool-cases (eq_text j k)) [
      | inl same ↦
          let twin : under (elems_of j) (elems_of j) ≡ under (elems_of j) (elems_of k) =
            ap (λ (x : Text). under (elems_of j) (elems_of x)) (eq_text_sound j k same) in
          cc (twin, under_refl (elems_of j))
      | inr other ↦ e ∙ sym other
    ]
  ]

  elems_test : (j k : Text) → K j → K k → eq_elems (elems_of j) (elems_of k) ≡ eq_text j k
  elems_test j k kj kk = rw (under_test j k kj kk, under_test k j kk kj) (both_ways j k)

  -- The updates of a sorted map, each with the rest of its path behind the prefix, give a key the
  -- value that the map holds.
  pub said_lem :
      (prefix : List PathElem) (size : ℕ) (m : OrderedMap Leaf) (k : Text)
      → All (λ (x : Text × Leaf). K x.0) m
      → All (λ (x : Text × Leaf). prefix ++ elems_of (drop size x.0) ≡ elems_of x.0) m
      → IsSorted m
      → K k
      → said (elems_of k) prefix (updates_of size m) ≡ value_of (find k m)
  unfolding find leaf_update xpath_to_gnmi_path eq_text
  said_lem prefix size [] k a n s kk = refl
  said_lem prefix size ((p, l) ∷ m) k a n s kk =
      rw (said_lem prefix size m k a.1 n.1 s.1 kk, n.0, elems_test p k a.0 kk)
        (one_said p k l m s.0)

  -- The paths of some keys cover a key exactly when it is one of them.
  pub deleted_lem :
      (ks : List Text) (k : Text)
      → All K ks
      → K k
      → deleted (elems_of k) [] (paths_of ks) ≡ contains k ks
  deleted_lem [] k a kk = refl
  deleted_lem (j ∷ ks) k a kk = rw (under_test j k a.0 kk, deleted_lem ks k a.1 kk) refl
