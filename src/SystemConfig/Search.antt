-- ===== src/SystemConfig/Search.antt =====
-- The searches in a text that `atomicPrefix` of the system configuration is made of.
use psc_mock_server.Prelude.{
  ℕ, ◌+◌, ◌-◌, ◌≤◌, ◌≡◌, ◌↔◌, ◌⊎◌, refl, ap, ◌∙◌, true, some, [], ◌∷◌, ◌++◌, inl, inr, arith,
  Option-cases, append_assoc, take, drop, length, take-append, zero, suc, Bool-cases, length-append,
  drop-append,
}
use mathlib.Core.Path.{subst, sym}
use psc_mock_server.Prelude.Texts.{Text, eq_text_refl}
use psc_mock_server.Utils.{strip_prefix}
use psc_mock_server.Utils.PathPrefix.{strip_prefix-append, strip_prefix_sound}
use psc_mock_server.SystemConfig.{starts_with, find_text, ends_with}

-- The text split behind the place where `m ++ t` was found.
pub record Found (m t p : Text) (i : ℕ) : Type 0 where
  pub rest : Text
  pub splits : p ≡ take i p ++ m ++ t ++ rest
  pub cut : take (i + length m) p ≡ take i p ++ m

add_zero : (n : ℕ) → 0 + n ≡ n
add_zero n = omega arith

add_suc : (i n : ℕ) → suc i + n ≡ suc (i + n)
add_suc i n = omega arith

starts_with_sound : (m t p : Text) → starts_with p (m ++ t) ≡ true → Found m t p 0
unfolding starts_with
starts_with_sound m t p h = elim (Option-cases (strip_prefix (m ++ t) p)) [
  | inl e ↦ cc (rw (starts_with, e) at h)
  | inr (rest, e) ↦
      let q = strip_prefix_sound (m ++ t) p rest e in
      record {
        rest = rest;
        splits = q;
        cut =
            ap (λ (n : ℕ). take n p) (add_zero (length m))
            ∙ ap (λ (s : Text). take (length m) s) (q ∙ append_assoc m t rest)
            ∙ take-append m (t ++ rest);
      }
]

-- The same, one byte further on.
Found-later : (m t p : Text) (c i : ℕ) → Found m t p i → Found m t (c ∷ p) (suc i)
Found-later m t p c i f = record {
  rest = f.rest;
  splits = ap (λ (s : Text). c ∷ s) f.splits;
  cut = ap (λ (n : ℕ). take n (c ∷ p)) (add_suc i (length m)) ∙ ap (λ (s : Text). c ∷ s) f.cut;
}

at_zero : (m t p : Text) (i : ℕ) → Found m t p 0 → 0 ≡ i → Found m t p i
at_zero m t p i f e = subst (λ (n : ℕ). Found m t p n) e f

pub find_text_sound : (m t p : Text) (i : ℕ) → find_text (m ++ t) p ≡ some i → Found m t p i
unfolding find_text
find_text_sound m t [] i h = elim (Bool-cases (starts_with [] (m ++ t))) [
  | inl e ↦ at_zero m t [] i (starts_with_sound m t [] e) (cc (rw (e, find_text) at h))
  | inr e ↦ cc (rw (e, find_text) at h)
]
find_text_sound m t (c ∷ p) i h = elim (Bool-cases (starts_with (c ∷ p) (m ++ t))) [
  | inl e ↦ at_zero m t (c ∷ p) i (starts_with_sound m t (c ∷ p) e) (cc (rw (e, find_text) at h))
  | inr e ↦ elim (Option-cases (find_text (m ++ t) p)) [
    | inl n ↦ cc (rw (e, find_text, n) at h)
    | inr (j, n) ↦
        subst (λ (k : ℕ). Found m t (c ∷ p) k) (cc (rw (e, find_text, n) at h))
          (Found-later m t p c j (find_text_sound m t p j n))
  ]
]

pub take-drop : (n : ℕ) (p : Text) → p ≡ take n p ++ drop n p
take-drop zero p = refl
take-drop (suc n) [] = refl
take-drop (suc n) (c ∷ p) = ap (λ (s : Text). c ∷ s) (take-drop n p)

-- `find` answers the first place.
find_text_here : (s p : Text) → starts_with p s ≡ true → find_text s p ≡ some 0
unfolding find_text
find_text_here s [] h = rw h
find_text_here s (c ∷ p) h = rw h

starts_with-append : (s r : Text) → starts_with (s ++ r) s ≡ true
unfolding starts_with
starts_with-append s r = rw (strip_prefix-append s r, starts_with)

pub find_text_first :
    (s a r : Text) → (i : ℕ) × (find_text s (a ++ s ++ r) ≡ some i) × (i ≤ length a)
unfolding find_text
find_text_first s [] r = (0, find_text_here s (s ++ r) (starts_with-append s r), omega arith)
find_text_first s (c ∷ a) r =
    let (i, e, le) = find_text_first s a r in
    elim (Bool-cases (starts_with (c ∷ (a ++ s ++ r)) s)) [
      | inl h ↦ (0, rw h, omega arith)
      | inr h ↦ (suc i, rw (h, e), omega (arith, le))
    ]

pub length-take : (n : ℕ) (p : Text) → (length (take n p) ≤ n) × (length (take n p) ≤ length p)
length-take zero p = (omega arith, omega arith)
length-take (suc n) [] = (omega arith, omega arith)
length-take (suc n) (c ∷ p) = omega (arith, length-take n p)

pub List-cases : (s : Text) → (s ≡ []) ⊎ ((x : ℕ) × (r : Text) × (s ≡ x ∷ r))
List-cases [] = inl refl
List-cases (x ∷ r) = inr (x, r, refl)

pub ends_with-append : (a s : Text) → ends_with (a ++ s) s ≡ true
unfolding ends_with
ends_with-append a s =
    let size = length-append a s in
    let cut : length (a ++ s) - length s ≡ length a = omega (arith, size) in
    rw (cut, drop-append a s, eq_text_refl s) (ground (arith, size))

-- Two prefixes of one path that are as long are equal.
pub eq_of_length : (a b r s : Text) → a ++ r ≡ b ++ s → length a ≡ length b → a ≡ b
eq_of_length a b r s e h =
    sym (take-append a r)
    ∙ ap (λ (t : Text). take (length a) t) e
    ∙ ap (λ (n : ℕ). take n (b ++ s)) h
    ∙ take-append b s

pub starts_with_iff :
    (p root : Text) → (starts_with p root ≡ true) ↔ ((rest : Text) × (p ≡ root ++ rest))
unfolding starts_with
starts_with_iff p root = (
  λ h. elim (Option-cases (strip_prefix root p)) [
    | inl e ↦ cc (rw (starts_with, e) at h)
    | inr (rest, e) ↦ (rest, strip_prefix_sound root p rest e)
  ],
  λ h. rw h.1 (starts_with-append root h.0),
)
