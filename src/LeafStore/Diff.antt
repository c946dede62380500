-- ===== src/LeafStore/Diff.antt =====
-- The difference of two snapshots: what it lists, and that it carries one to the other.
use psc_mock_server.Prelude.{
  ◌≡◌, ◌≢◌, ◌↔◌, refl, ◌∙◌, ap, Bool, true, false, Option, none, some, List, [], ◌∷◌, arith,
  if◌then◌else◌, is_empty, not, ◌&&◌, ◌||◌,
}
use psc_mock_server.Prelude.Texts.{Text, eq_text, eq_text_refl, eq_text_iff}
use psc_mock_server.OrderedMap.{OrderedMap, find, assign, erase}
use psc_mock_server.OrderedMap.Laws.{first, find-assign, find-erase}
use psc_mock_server.OrderedMap.Sorted.{IsSorted, Above, find-Above, find_head}
use psc_mock_server.Gnmi.{TypedValue}
use psc_mock_server.DataProvider.{Leaf, Snapshot}
use psc_mock_server.LeafStore.{Difference, is_change, updated_in, removed_in, diff}

abbrev pub contains : Text → List Text → Bool
contains k [] = false
contains k (x ∷ xs) = eq_text x k || contains k xs

abbrev pub is_some {ℓ} : {A : Type ℓ} → Option A → Bool
is_some none = false
is_some (some a) = true

-- What a client does with a difference: it deletes the removed paths and sets the updated ones.
abbrev pub set_all : List (Text × Leaf) → Snapshot → Snapshot
set_all [] view = view
set_all ((path, leaf) ∷ updated) view = set_all updated (assign path leaf view)

abbrev pub delete_all : List Text → Snapshot → Snapshot
delete_all [] view = view
delete_all (path ∷ removed) view = delete_all removed (erase path view)

abbrev pub patch : Difference → Snapshot → Snapshot
patch d view = set_all d.updated (delete_all d.removed view)

find-delete_all :
    (k : Text) (removed : List Text) (view : Snapshot)
    → find k (delete_all removed view) ≡ (if contains k removed then none else find k view)
find-delete_all k [] view = refl
find-delete_all k (path ∷ removed) view =
    ground (arith, find-delete_all k removed (erase path view), find-erase path k view)

find-set_all :
    (k : Text) (updated : List (Text × Leaf)) (view : Snapshot)
    → IsSorted updated
    → find k (set_all updated view) ≡ first (find k updated) (find k view)
unfolding find
find-set_all k [] view s = refl
find-set_all k ((path, leaf) ∷ updated) view s = ground (
  arith,
  find-set_all k updated (assign path leaf view),
  find-assign path k leaf view,
  eq_text_iff path k,
  find-Above path updated s.0,
  find-Above k updated,
)

lists_silent :
    (updated : List (Text × Leaf)) (removed : List Text) (view : Snapshot)
    → (is_empty updated && is_empty removed) ≡ true
    → set_all updated (delete_all removed view) ≡ view
lists_silent [] [] view h = refl
lists_silent [] (path ∷ removed) view h = cc
lists_silent (entry ∷ updated) removed view h = cc

module _ (serialize : TypedValue → Text) where
  Above-updated_in :
      (k : Text) (prev cur : Snapshot) → Above k cur → Above k (updated_in serialize prev cur)
  unfolding updated_in
  Above-updated_in k prev [] a = tt
  Above-updated_in k prev ((path, leaf) ∷ cur) a = ground (arith, Above-updated_in k prev cur)

  pub IsSorted-updated_in :
      (prev cur : Snapshot) → IsSorted cur → IsSorted (updated_in serialize prev cur)
  unfolding updated_in
  IsSorted-updated_in prev [] s = tt
  IsSorted-updated_in prev ((path, leaf) ∷ cur) s =
      ground (arith, Above-updated_in path prev cur, IsSorted-updated_in prev cur)

  -- What `diff` lists as updated at a path: the current leaf, if it is new or its value changed.
  abbrev pub updated_at : Option Leaf → Option Leaf → Option Leaf
  updated_at old none = none
  updated_at old (some leaf) = if is_change serialize old leaf then some leaf else none

  find-updated_in :
      (k : Text) (prev cur : Snapshot)
      → IsSorted cur
      → find k (updated_in serialize prev cur) ≡ updated_at (find k prev) (find k cur)
  unfolding updated_in find
  find-updated_in k prev [] s = refl
  find-updated_in k prev ((path, leaf) ∷ cur) s =
      ground (arith, eq_text_iff path k, find-updated_in k prev cur, find-Above k cur)

  contains-removed_in :
      (k : Text) (prev cur : Snapshot)
      → contains k (removed_in serialize prev cur)
        ≡ (is_some (find k prev) && not (is_some (find k cur)))
  unfolding removed_in find
  contains-removed_in k [] cur = refl
  contains-removed_in k ((path, leaf) ∷ prev) cur =
      ground (arith, eq_text_iff path k, contains-removed_in k prev cur)

  -- Both lists at a path, by the test of the code.
  pub find-diff :
      (prev cur : Snapshot) (k : Text)
      → IsSorted cur
      → (find k (diff serialize prev cur).updated ≡ updated_at (find k prev) (find k cur))
        × (contains k (diff serialize prev cur).removed
            ≡ (is_some (find k prev) && not (is_some (find k cur))))
  unfolding diff
  find-diff prev cur k s = (find-updated_in k prev cur s, contains-removed_in k prev cur)

  -- The serialised value that a snapshot holds at a path.
  abbrev pub value_at : Option Leaf → Option Text
  value_at none = none
  value_at (some leaf) = some (serialize leaf.val)

  abbrev pub SameValues : Snapshot → Snapshot → Type 0
  SameValues a b = (k : Text) → value_at (find k a) ≡ value_at (find k b)

  changed_iff :
      (old now : Option Leaf) (leaf : Leaf)
      → (updated_at old now ≡ some leaf)
        ↔ ((now ≡ some leaf) × (value_at old ≢ some (serialize leaf.val)))
  unfolding is_change
  changed_iff old none leaf = (λ h. cc, λ h. cc (h.0))
  changed_iff none (some now) leaf = (λ h. (h, λ e. cc), λ h. h.0)
  changed_iff (some old) (some now) leaf = (
    λ h. ground (arith, eq_text_iff (serialize old.val) (serialize now.val)),
    λ h. ground (arith, eq_text_iff (serialize old.val) (serialize now.val)),
  )

  gone_iff :
      (old now : Option Leaf)
      → ((is_some old && not (is_some now)) ≡ true) ↔ ((old ≢ none) × (now ≡ none))
  gone_iff none none = (λ h. cc, λ h. absurd (h.0 refl))
  gone_iff none (some now) = (λ h. cc, λ h. cc (h.1))
  gone_iff (some old) none = (λ h. (λ e. cc, refl), λ h. refl)
  gone_iff (some old) (some now) = (λ h. cc, λ h. cc (h.1))

  -- For a sorted current snapshot, `diff` lists a leaf as updated at a path exactly when it is the
  -- leaf of the current snapshot there and the previous one has no leaf with the same serialised
  -- value at that path, and it lists a path as removed exactly when the previous snapshot has a
  -- leaf there and the current one has none.
  pub diff_exact :
      (prev cur : Snapshot) (k : Text)
      → IsSorted cur
      → ((leaf : Leaf)
          → (find k (diff serialize prev cur).updated ≡ some leaf)
            ↔ ((find k cur ≡ some leaf) × (value_at (find k prev) ≢ some (serialize leaf.val))))
        × ((contains k (diff serialize prev cur).removed ≡ true)
            ↔ ((find k prev ≢ none) × (find k cur ≡ none)))
  diff_exact prev cur k s =
      let found = find-diff prev cur k s in
      (
        λ leaf. rw found.0 (changed_iff (find k prev) (find k cur) leaf),
        rw found.1 (gone_iff (find k prev) (find k cur)),
      )

  settled :
      (old now : Option Leaf)
      → value_at
          (first (updated_at old now) (if is_some old && not (is_some now) then none else old))
        ≡ value_at now
  unfolding is_change
  settled none none = refl
  settled none (some leaf) = refl
  settled (some old) none = refl
  settled (some old) (some leaf) =
      ground (arith, eq_text_iff (serialize old.val) (serialize leaf.val))

  -- A client that holds the previous snapshot and applies the difference holds at every path the
  -- value of the current snapshot.
  pub patch-diff :
      (prev cur : Snapshot) (k : Text)
      → IsSorted cur
      → value_at (find k (patch (diff serialize prev cur) prev)) ≡ value_at (find k cur)
  patch-diff prev cur k s =
      let exact = find-diff prev cur k s in
      let u = (diff serialize prev cur).updated in
      let r = (diff serialize prev cur).removed in
      ap value_at
        (find-set_all k u (delete_all r prev) (unfold diff in IsSorted-updated_in prev cur s))
      ∙ rw (exact.0, find-delete_all k r prev, exact.1) (settled (find k prev) (find k cur))

  -- Nothing is listed.
  abbrev pub is_silent : Difference → Bool
  is_silent d = is_empty d.updated && is_empty d.removed

  patch_silent : (d : Difference) (view : Snapshot) → is_silent d ≡ true → patch d view ≡ view
  patch_silent d view h = lists_silent d.updated d.removed view h

  nothing_found : (m : OrderedMap Leaf) → ((k : Text) → find k m ≡ none) → is_empty m ≡ true
  nothing_found [] h = refl
  nothing_found ((k, v) ∷ m) h = cc (h k, find_head k v m)

  nothing_contained : (l : List Text) → ((k : Text) → contains k l ≡ false) → is_empty l ≡ true
  nothing_contained [] h = refl
  nothing_contained (k ∷ l) h = ground (arith, h k, eq_text_refl k)

  unchanged :
      (old now : Option Leaf)
      → value_at old ≡ value_at now
      → (updated_at old now ≡ none) × ((is_some old && not (is_some now)) ≡ false)
  unfolding is_change
  unchanged none none h = (refl, refl)
  unchanged none (some leaf) h = cc
  unchanged (some old) none h = cc
  unchanged (some old) (some leaf) h =
      ground (arith, eq_text_iff (serialize old.val) (serialize leaf.val))

  -- The difference lists nothing exactly when the two snapshots hold the same values.
  pub diff_silent_iff :
      (prev cur : Snapshot)
      → IsSorted cur
      → (is_silent (diff serialize prev cur) ≡ true) ↔ SameValues prev cur
  diff_silent_iff prev cur s =
      let d = diff serialize prev cur in
      (
        λ h k. rw (patch_silent d prev h) at (patch-diff prev cur k s),
        λ h. ground (
          arith,
          nothing_found d.updated
              (λ k. (find-diff prev cur k s).0 ∙ (unchanged (find k prev) (find k cur) (h k)).0),
          nothing_contained d.removed
              (λ k. (find-diff prev cur k s).1 ∙ (unchanged (find k prev) (find k cur) (h k)).1),
        ),
      )
