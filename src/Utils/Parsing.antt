-- ===== src/Utils/Parsing.antt =====
-- One step of `xpath_to_gnmi_path`: searches, cuts and predicates over text of a known shape.
use psc_mock_server.Prelude.{
  ℕ, suc, ◌+◌, ◌-◌, ◌≡◌, ◌≢◌, refl, ap, sym, ◌∙◌, none, some, List, [], ◌∷◌, ◌++◌, arith, length,
  take, drop, length-append, take-append, append_assoc,
}
use psc_mock_server.Prelude.Texts.{Text}
use psc_mock_server.Utils.{find_byte, split_on, unquote, assign_key, predicate_value, parse_keys}

-- The byte does not occur in the text.
abbrev pub Free : ℕ → Text → Type 0
Free c [] = Unit
Free c (x ∷ s) = (x ≢ c) × Free c s

pub Free-append : (c : ℕ) (a b : Text) → Free c a → Free c b → Free c (a ++ b)
Free-append c [] b h k = k
Free-append c (x ∷ a) b h k = (h.0, Free-append c a b h.1 k)

pub find_byte-Free : (c : ℕ) (a : Text) → Free c a → find_byte c a ≡ none
unfolding find_byte
find_byte-Free c [] h = refl
find_byte-Free c (x ∷ a) h = ground (arith, find_byte-Free c a)

pub find_byte-append : (c : ℕ) (a s : Text) → Free c a → find_byte c (a ++ c ∷ s) ≡ some (length a)
unfolding find_byte
find_byte-append c [] s h = ground arith
find_byte-append c (x ∷ a) s h = ground (arith, find_byte-append c a s)

pub split_on-Free : (c : ℕ) (a : Text) → Free c a → split_on c a ≡ a ∷ []
unfolding split_on
split_on-Free c [] h = refl
split_on-Free c (x ∷ a) h = ground (arith, split_on-Free c a)

pub split_on-append : (c : ℕ) (a s : Text) → Free c a → split_on c (a ++ c ∷ s) ≡ a ∷ split_on c s
unfolding split_on
split_on-append c [] s h = ground arith
split_on-append c (x ∷ a) s h = ground (arith, split_on-append c a s)

-- Behind the bracket: a key, the sign, the written value, the closing bracket, and what follows.
abbrev pub predicate : Text → Text → Text → Text
predicate k w s = k ++ b'=' ∷ (w ++ b']' ∷ s)

predicate-eq : (k w s : Text) → predicate k w s ≡ (k ++ b'=' ∷ w) ++ b']' ∷ s
predicate-eq k w s = sym (append_assoc k (b'=' ∷ w) (b']' ∷ s))

predicate_end :
    (k w s : Text)
    → Free b']' k
    → Free b']' w
    → find_byte b']' (predicate k w s) ≡ some (length k + suc (length w))
predicate_end k w s h g = rw predicate-eq (
    find_byte-append b']' (k ++ b'=' ∷ w) s
      (Free-append b']' k (b'=' ∷ w) h ((λ e. absurd (omega arith)), g))
    ∙ ap some (length-append k (b'=' ∷ w)))

pub drop_past : (c : ℕ) (a r : Text) → drop (suc (length a)) (a ++ c ∷ r) ≡ r
drop_past c [] r = refl
drop_past c (x ∷ a) r = drop_past c a r

drop-predicate : (k w s : Text) → drop (suc (length k + suc (length w))) (predicate k w s) ≡ s
drop-predicate k w s =
    rw (predicate-eq, ← length-append k (b'=' ∷ w)) (drop_past b']' (k ++ b'=' ∷ w) s)

predicate_value_lem :
    (k w s : Text) → predicate_value (predicate k w s) (length k) (length k + suc (length w)) ≡ w
unfolding predicate_value
predicate_value_lem k w s =
    let len : length k + suc (length w) - length k - 1 ≡ length w = omega arith in
    ground (
      arith,
      len,
      drop_past b'=' k (w ++ b']' ∷ s),
      take-append w (b']' ∷ s),
      ap (λ (n : ℕ). take n (w ++ b']' ∷ s)) len,
    )

-- One turn of the predicate loop.
pub parse_keys-predicate :
    (fuel : ℕ) (k w s : Text) (keys : List (Text × Text))
    → Free b'=' k
    → Free b']' k
    → Free b']' w
    → parse_keys (suc fuel) (b'[' ∷ predicate k w s) keys
      ≡ parse_keys fuel s (assign_key k (unquote w) keys)
unfolding parse_keys
parse_keys-predicate fuel k w s keys eq_free end_free value_free = rw (
  parse_keys,
  find_byte-append b'=' k (w ++ b']' ∷ s) eq_free,
  predicate_end k w s end_free value_free,
  drop-predicate k w s,
  predicate_value_lem k w s,
  take-append k (b'=' ∷ (w ++ b']' ∷ s)),
)
