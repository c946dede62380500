-- ===== src/Emit/Refines.antt =====
-- The notifications of a poll carry a client from the values of the previous snapshot to those of
-- the current one.
use psc_mock_server.Prelude.{
  ◌≡◌, ◌≢◌, ◌∙◌, ◌⊎◌, inl, inr, refl, sym, ap, Bool, true, false, not, ◌&&◌, Option, none, some,
  List, [], ◌∷◌, arith, if◌then◌else◌, Bool-cases, Option-cases,
}
use mathlib.Core.Path.{subst}
use psc_mock_server.Prelude.Texts.{Text, eq_text, eq_text_iff, eq_text_sound}
use psc_mock_server.Prelude.Int.{ℤ}
use psc_mock_server.OrderedMap.{OrderedMap, find}
use psc_mock_server.OrderedMap.Laws.{first}
use psc_mock_server.OrderedMap.Sorted.{IsSorted, find_head}
use psc_mock_server.Gnmi.{TypedValue, Notification, PathElem}
use psc_mock_server.Utils.Nested.{elems_of, elems_of-append}
use psc_mock_server.DataProvider.{Leaf, Snapshot}
use psc_mock_server.LeafStore.{diff, is_change}
use psc_mock_server.LeafStore.Diff.{value_at, is_silent, is_some, updated_at, diff_silent_iff}
use psc_mock_server.Emit.{
  or_empty, container_changes, change_containers, insert_keys, container_notification,
  gone_notification,
}
use psc_mock_server.Emit.Changes.{find-insert_keys}
use psc_mock_server.Emit.Full.{Located}
use psc_mock_server.Emit.Client.{under, told, told-append, under-append}
use psc_mock_server.Emit.Mirror.{value_of}
use psc_mock_server.Emit.Follow.{IsLaidOut, Within, told-container, told-gone}

pick_told :
    (e : List PathElem) (b : Bool) (notes : List Notification) (v : Option TypedValue)
    → told e (if b then [] else notes) v ≡ (if b then v else told e notes v)
pick_told e true notes v = refl
pick_told e false notes v = refl

module _ (serialize : TypedValue → Text) where
  -- The serialised value that a client holds.
  abbrev pub serial : Option TypedValue → Option Text
  serial none = none
  serial (some v) = some (serialize v)

  pub serial-value_of : (o : Option Leaf) → serial (value_of o) ≡ value_at serialize o
  serial-value_of none = refl
  serial-value_of (some leaf) = refl

  pub settled_value :
      (old now : Option Leaf) (v : Option TypedValue)
      → serial v ≡ value_at serialize old
      → serial (
          first
            (value_of (updated_at serialize old now))
            (if is_some old && not (is_some now) then none else v))
        ≡ value_at serialize now
  unfolding is_change
  settled_value none none v h = h
  settled_value none (some leaf) v h = refl
  settled_value (some old) none v h = refl
  settled_value (some old) (some leaf) v h =
      ground (arith, eq_text_iff (serialize old.val) (serialize leaf.val))

  full_value : (o : Option Leaf) → serial (first (value_of o) none) ≡ value_at serialize o
  full_value none = refl
  full_value (some leaf) = refl

  module _ (clock : Option Text → ℤ) (K : Text → Type 0) (container : Text → Option Text)
      (laid : IsLaidOut K container) where
    -- The paths of a container.
    abbrev pub Inside : Text → Text → Type 0
    Inside c j = K j × (container j ≡ some c)

    told-container_changes :
        (c : Text) (pg cg : Snapshot) (k : Text) (v : Option TypedValue)
        → Within (Inside c) cg
        → IsSorted cg
        → K k
        → told (elems_of k) (container_changes clock serialize c pg cg) v ≡ (
            if is_silent serialize (diff serialize pg cg)
            then v
            else first (value_of (find k cg)) (if under (elems_of c) (elems_of k) then none else v))
    unfolding container_changes find
    told-container_changes c pg [] k v w s kk =
        pick_told (elems_of k) (is_silent serialize (diff serialize pg []))
          (gone_notification (clock (some c)) c ∷ []) v
        ∙ ap
            (λ (x : Option TypedValue). if is_silent serialize (diff serialize pg []) then v else x)
            (told-gone K container laid (clock (some c)) c k v)
    told-container_changes c pg (x ∷ cg) k v w s kk =
        pick_told (elems_of k) (is_silent serialize (diff serialize pg (x ∷ cg)))
          (container_notification (clock (some c)) c (x ∷ cg) ∷ []) v
        ∙ ap
            (λ (y : Option TypedValue).
              if is_silent serialize (diff serialize pg (x ∷ cg)) then v else y)
            (told-container K container laid (clock (some c)) c (x ∷ cg) k v w s kk)

    pub under_own :
        (k c : Text) → K k → container k ≡ some c → under (elems_of c) (elems_of k) ≡ true
    under_own k c kk e =
        let (rest, cut, opens) = subst (λ o. Located o k) e (laid.located k kk) in
        rw (cut, elems_of-append c rest opens) (under-append (elems_of c) (elems_of rest))

    -- A poll brings a path of the container up to date, and leaves it so.
    own_changes :
        (c : Text) (pg cg : Snapshot) (k : Text) (v : Option TypedValue)
        → Within (Inside c) cg
        → IsSorted cg
        → K k
        → container k ≡ some c
        → (serial v ≡ value_at serialize (find k pg)) ⊎ (serial v ≡ value_at serialize (find k cg))
        → serial (told (elems_of k) (container_changes clock serialize c pg cg) v)
          ≡ value_at serialize (find k cg)
    own_changes c pg cg k v w s kk e h =
        rw (told-container_changes c pg cg k v w s kk, under_own k c kk e)
          (elim (Bool-cases (is_silent serialize (diff serialize pg cg))) [
            | inl q ↦
                let same = (diff_silent_iff serialize pg cg s).0 q k in
                rw q (elim h [ inl a ↦ a ∙ same | inr a ↦ a ])
            | inr q ↦ rw q (full_value (find k cg))
          ])

    pub not_under :
        (k c j : Text)
        → K k
        → container k ≢ some c
        → Inside c j
        → under (elems_of c) (elems_of k) ≡ false
    not_under k c j kk ne i = elim (Bool-cases (under (elems_of c) (elems_of k))) [
      | inl e ↦ absurd (ne (laid.closed j k c i.0 kk i.1 e))
      | inr e ↦ e
    ]

    pub absent_elsewhere :
        (k c : Text) (g : Snapshot) → container k ≢ some c → Within (Inside c) g → find k g ≡ none
    absent_elsewhere k c g ne w = elim (Option-cases (find k g)) [
      | inl e ↦ e
      | inr (leaf, e) ↦ absurd (ne (w k leaf e).1)
    ]

    untouched :
        (b u : Bool) (o : Option Leaf) (v : Option TypedValue)
        → o ≡ none
        → u ≡ false
        → (if b then v else first (value_of o) (if u then none else v)) ≡ v
    untouched true u o v h e = refl
    untouched false u o v h e = rw (h, e) refl

    -- The poll of another container does not touch the path.
    other_changes :
        (c : Text) (pg cg : Snapshot) (k : Text) (v : Option TypedValue)
        → Within (Inside c) pg
        → Within (Inside c) cg
        → IsSorted cg
        → K k
        → container k ≢ some c
        → told (elems_of k) (container_changes clock serialize c pg cg) v ≡ v
    unfolding container_changes diff
    other_changes c [] [] k v wp wc s kk ne = refl
    other_changes c pg ((j, l) ∷ cg) k v wp wc s kk ne =
        told-container_changes c pg ((j, l) ∷ cg) k v wc s kk
        ∙ untouched (is_silent serialize (diff serialize pg ((j, l) ∷ cg)))
            (under (elems_of c) (elems_of k)) (find k ((j, l) ∷ cg)) v
            (absent_elsewhere k c ((j, l) ∷ cg) ne wc)
            (not_under k c j kk ne (wc j l (find_head j l cg)))
    other_changes c ((j, l) ∷ pg) [] k v wp wc s kk ne =
        told-container_changes c ((j, l) ∷ pg) [] k v wc s kk
        ∙ untouched (is_silent serialize (diff serialize ((j, l) ∷ pg) []))
            (under (elems_of c) (elems_of k)) (find k []) v (absent_elsewhere k c [] ne wc)
            (not_under k c j kk ne (wp j l (find_head j l pg)))

    -- Each group holds paths of its container, in order.
    abbrev pub IsGrouped : OrderedMap Snapshot → Type 0
    IsGrouped groups =
        (c : Text)
        → Within (Inside c) (or_empty (find c groups)) × IsSorted (or_empty (find c groups))

    module _ (prev cur : OrderedMap Snapshot) (gp : IsGrouped prev) (gc : IsGrouped cur) (k : Text)
        (kk : K k) where
      turn_of : Text → Option TypedValue → Option TypedValue
      turn_of c v =
          told (elems_of k)
            (container_changes clock serialize c (or_empty (find c prev)) (or_empty (find c cur))) v

      told-cons :
          (c : Text) (prefixes : OrderedMap (Unit {0})) (v : Option TypedValue)
          → told (elems_of k) (change_containers clock serialize ((c, tt) ∷ prefixes) prev cur) v
            ≡ told (elems_of k) (change_containers clock serialize prefixes prev cur) (turn_of c v)
      unfolding change_containers turn_of
      told-cons c prefixes v =
          told-append (elems_of k)
            (container_changes clock serialize c (or_empty (find c prev)) (or_empty (find c cur)))
            (change_containers clock serialize prefixes prev cur) v

      other_turn : (c : Text) (v : Option TypedValue) → container k ≢ some c → turn_of c v ≡ v
      unfolding turn_of
      other_turn c v ne =
          other_changes c (or_empty (find c prev)) (or_empty (find c cur)) k v (gp c).0 (gc c).0
            (gc c).1 kk ne

      -- No container's poll touches a path outside of containers.
      pub free_of_containers :
          (prefixes : OrderedMap (Unit {0})) (v : Option TypedValue)
          → container k ≡ none
          → told (elems_of k) (change_containers clock serialize prefixes prev cur) v ≡ v
      unfolding change_containers
      free_of_containers [] v e = refl
      free_of_containers ((c, u) ∷ prefixes) v e =
          told-cons c prefixes v
          ∙ rw (other_turn c v (λ h. cc (h, e))) (free_of_containers prefixes v e)

      module _ (c : Text) (own : container k ≡ some c) where
        abbrev before : Option Text
        before = value_at serialize (find k (or_empty (find c prev)))

        abbrev after : Option Text
        after = value_at serialize (find k (or_empty (find c cur)))

        own_turn :
            (v : Option TypedValue)
            → (serial v ≡ before) ⊎ (serial v ≡ after)
            → serial (turn_of c v) ≡ after
        unfolding turn_of
        own_turn v h =
            own_changes c (or_empty (find c prev)) (or_empty (find c cur)) k v (gc c).0 (gc c).1 kk
              own h

        elsewhere : (p : Text) → eq_text p c ≡ false → container k ≢ some p
        elsewhere p e h = let same : p ≡ c = cc (h, own) in cc ((eq_text_iff p c).1 same, e)

        still_current :
            (p : Text) (v : Option TypedValue) → serial v ≡ after → serial (turn_of p v) ≡ after
        still_current p v h = elim (Bool-cases (eq_text p c)) [
          | inl e ↦
              subst (λ (x : Text). serial (turn_of x v) ≡ after) (sym (eq_text_sound p c e))
                (own_turn v (inr h))
          | inr e ↦ ap serial (other_turn p v (elsewhere p e)) ∙ h
        ]

        pub stays_current :
            (prefixes : OrderedMap (Unit {0})) (v : Option TypedValue)
            → serial v ≡ after
            → serial (told (elems_of k) (change_containers clock serialize prefixes prev cur) v)
              ≡ after
        unfolding change_containers
        stays_current [] v h = h
        stays_current ((p, u) ∷ prefixes) v h =
            ap serial (told-cons p prefixes v)
            ∙ stays_current prefixes (turn_of p v) (still_current p v h)

        pub becomes_current :
            (prefixes : OrderedMap (Unit {0})) (v : Option TypedValue)
            → find c prefixes ≡ some tt
            → serial v ≡ before
            → serial (told (elems_of k) (change_containers clock serialize prefixes prev cur) v)
              ≡ after
        unfolding change_containers find
        becomes_current [] v f h = cc
        becomes_current ((p, u) ∷ prefixes) v f h =
            ap serial (told-cons p prefixes v) ∙ elim (Bool-cases (eq_text p c)) [
              | inl e ↦ stays_current prefixes (turn_of p v) (
                  subst (λ (x : Text). serial (turn_of x v) ≡ after) (sym (eq_text_sound p c e))
                    (own_turn v (inl h)))
              | inr e ↦
                  becomes_current prefixes (turn_of p v) (rw (find, e) at f)
                    (ap serial (other_turn p v (elsewhere p e)) ∙ h)
            ]

        -- The polls of all containers of both snapshots bring the path up to date.
        pub polled_current :
            (v : Option TypedValue)
            → serial v ≡ before
            → serial (
                told
                  (elems_of k)
                  (change_containers clock serialize
                    (insert_keys cur (insert_keys prev []))
                    prev
                    cur)
                  v)
              ≡ after
        unfolding find
        polled_current v h =
            let keys = insert_keys cur (insert_keys prev []) in
            let found = find-insert_keys c cur (insert_keys prev []) in
            let found' = find-insert_keys c prev [] in
            elim (Option-cases (find c cur)) [
              | inr (g, e) ↦ becomes_current keys v (found ∙ rw e refl) h
              | inl e ↦ elim (Option-cases (find c prev)) [
                | inr (g, e') ↦ becomes_current keys v (found ∙ rw (e, found', e') refl) h
                | inl e' ↦ stays_current keys v (h ∙ rw (e, e') refl)
              ]
            ]
