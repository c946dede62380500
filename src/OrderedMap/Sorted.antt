-- ===== src/OrderedMap/Sorted.antt =====
-- The order of the keys: every operation keeps it, and a sorted map is determined by its lookups.
use psc_mock_server.Prelude.{
  ◌≡◌, refl, sym, ◌∙◌, ap, true, false, none, some, [], ◌∷◌, arith, inl, inr, Bool-cases,
}
use psc_mock_server.Prelude.Texts.{
  Text, eq_text, lt_text, eq_text_iff, eq_text_refl, eq_text_sound, lt_text_irrefl, lt_text_trans,
  lt_text_total,
}
use psc_mock_server.OrderedMap.{OrderedMap, find, assign, erase, emplace, merge}

module _ {ℓ} {V : Type ℓ} where
  -- Every key of the map lies after `k`.
  abbrev pub Above : Text → OrderedMap V → Type 0
  Above k [] = Unit
  Above k ((j, v) ∷ m) = (lt_text k j ≡ true) × Above k m

  abbrev pub IsSorted : OrderedMap V → Type 0
  IsSorted [] = Unit
  IsSorted ((k, v) ∷ m) = Above k m × IsSorted m

  pub Above-trans : (i k : Text) (m : OrderedMap V) → lt_text i k ≡ true → Above k m → Above i m
  Above-trans i k [] h a = tt
  Above-trans i k ((j, v) ∷ m) h a = (lt_text_trans i k j h a.0, Above-trans i k m h a.1)

  Above-assign :
      (i k : Text) (v : V) (m : OrderedMap V)
      → lt_text i k ≡ true
      → Above i m
      → Above i (assign k v m)
  unfolding assign
  Above-assign i k v [] h a = (h, tt)
  Above-assign i k v ((j, w) ∷ m) h a = ground (arith, Above-assign i k v m)

  pub IsSorted-assign : (k : Text) (v : V) (m : OrderedMap V) → IsSorted m → IsSorted (assign k v m)
  unfolding assign
  IsSorted-assign k v [] s = (tt, tt)
  IsSorted-assign k v ((j, w) ∷ m) s = ground (
    arith,
    eq_text_iff j k,
    Above-trans k j m,
    Above-assign j k v m,
    IsSorted-assign k v m,
    lt_text_total k j,
    eq_text_iff k j,
  )

  Above-erase : (i k : Text) (m : OrderedMap V) → Above i m → Above i (erase k m)
  unfolding erase
  Above-erase i k [] a = tt
  Above-erase i k ((j, w) ∷ m) a = ground (arith, Above-erase i k m)

  pub IsSorted-erase : (k : Text) (m : OrderedMap V) → IsSorted m → IsSorted (erase k m)
  unfolding erase
  IsSorted-erase k [] s = tt
  IsSorted-erase k ((j, w) ∷ m) s = ground (arith, Above-erase j k m, IsSorted-erase k m)

  pub IsSorted-emplace :
      (k : Text) (v : V) (m : OrderedMap V) → IsSorted m → IsSorted (emplace k v m)
  unfolding emplace
  IsSorted-emplace k v m s = ground (arith, IsSorted-assign k v m s)

  pub IsSorted-merge : (m other : OrderedMap V) → IsSorted m → IsSorted (merge m other)
  unfolding merge
  IsSorted-merge m [] s = s
  IsSorted-merge m ((k, v) ∷ other) s =
      IsSorted-merge (emplace k v m) other (IsSorted-emplace k v m s)

  pub find-Above : (k : Text) (m : OrderedMap V) → Above k m → find k m ≡ none
  unfolding find
  find-Above k [] a = refl
  find-Above k ((j, v) ∷ m) a = ground (arith, eq_text_iff j k, find-Above k m, lt_text_irrefl k)

  find_tail :
      (k : Text) (v w : V) (m n : OrderedMap V)
      → Above k m
      → Above k n
      → ((j : Text) → find j ((k, v) ∷ m) ≡ find j ((k, w) ∷ n))
      → (j : Text) → find j m ≡ find j n
  unfolding find
  find_tail k v w m n a b h j = elim (Bool-cases (eq_text k j)) [
    | inl e ↦ ground (arith, eq_text_iff k j, find-Above k m a, find-Above k n b)
    | inr e ↦ ground (arith, h j)
  ]

  pub find_head : (k : Text) (v : V) (m : OrderedMap V) → find k ((k, v) ∷ m) ≡ some v
  unfolding find
  find_head k v m = rw eq_text_refl

  -- The first keys of two sorted maps with the same lookups are not in order.
  first_keys :
      (k j : Text) (v w : V) (m n : OrderedMap V)
      → Above j n
      → ((i : Text) → find i ((k, v) ∷ m) ≡ find i ((j, w) ∷ n))
      → lt_text k j ≡ false
  first_keys k j v w m n b h = elim (Bool-cases (lt_text k j)) [
    | inl e ↦
        cc (sym (find_head k v m) ∙ h k ∙ find-Above k ((j, w) ∷ n) (e, Above-trans k j n e b))
    | inr e ↦ e
  ]

  -- Two sorted maps with the same lookups are equal.
  pub ext :
      (m n : OrderedMap V) → IsSorted m → IsSorted n → ((j : Text) → find j m ≡ find j n) → m ≡ n
  unfolding find
  ext [] [] s t h = refl
  ext [] ((j, w) ∷ n) s t h = cc (h j, find_head j w n)
  ext ((k, v) ∷ m) [] s t h = cc (h k, find_head k v m)
  ext ((k, v) ∷ m) ((j, w) ∷ n) s t h = elim (Bool-cases (eq_text k j)) [
    | inl e ↦
        let same : k ≡ j = eq_text_sound k j e in
        let h' : ((i : Text) → find i ((k, v) ∷ m) ≡ find i ((k, w) ∷ n)) =
          λ i. h i ∙ ap (λ (x : Text). find i ((x, w) ∷ n)) (sym same) in
        cc (
          same,
          ext m n s.1 t.1 (find_tail k v w m n s.0 (rw same t.0) h'),
          sym (find_head k v m) ∙ h' k ∙ find_head k w n,
        )
    | inr e ↦ cc (
      lt_text_total k j e (first_keys k j v w m n t.0 h),
      first_keys j k w v n m s.0 (λ i. sym (h i)),
    )
  ]
