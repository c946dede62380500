-- ===== src/Utils/Nested.antt =====
-- `xpath_to_gnmi_path` of a path that is cut at a slash.
use psc_mock_server.Prelude.{
  ◌≡◌, ◌∙◌, refl, ap, sym, true, [], ◌∷◌, ◌++◌, List, arith, append-nil, ◌==◌, inl, inr, Bool-cases,
  ==_iff, ℕ, Bool,
}
use psc_mock_server.Prelude.Texts.{Text}
use psc_mock_server.Gnmi.{PathElem, empty_path}
use psc_mock_server.Utils.{xpath_to_gnmi_path, parse_parts, split_on, skip_slash}

-- The elements of a text that is read as a path.
abbrev pub elems_of : Text → List PathElem
elems_of xpath = (xpath_to_gnmi_path xpath empty_path).elem

-- The text is empty or begins with a slash.
abbrev pub opens_segment : Text → Bool
opens_segment [] = true
opens_segment (c ∷ s) = c == b'/'

split_on-nonempty : (s : Text) → (p : Text) × (ps : List Text) × (split_on b'/' s ≡ p ∷ ps)
unfolding split_on
split_on-nonempty [] = ([], [], refl)
split_on-nonempty (x ∷ s) =
    let (p, ps, e) = split_on-nonempty s in
    elim (Bool-cases (x == b'/')) [
      | inl h ↦ ([], p ∷ ps, ground (arith, e))
      | inr h ↦ (x ∷ p, ps, ground (arith, e))
    ]

split_on-cons : (a b : Text) → split_on b'/' (a ++ b'/' ∷ b) ≡ split_on b'/' a ++ split_on b'/' b
unfolding split_on
split_on-cons [] b = refl
split_on-cons (x ∷ a) b =
    let (p, ps, e) = split_on-nonempty a in ground (arith, e, split_on-cons a b)

parse_parts-append : (xs ys : List Text) → parse_parts (xs ++ ys) ≡ parse_parts xs ++ parse_parts ys
unfolding parse_parts
parse_parts-append [] ys = refl
parse_parts-append (x ∷ xs) ys = ground (arith, parse_parts-append xs ys)

-- The elements of a text that may be empty.
parts : Text → List PathElem
parts s = parse_parts (split_on b'/' (skip_slash s))

elems_of-eq : (s : Text) → elems_of s ≡ parts s
unfolding xpath_to_gnmi_path parts
elems_of-eq [] = refl
elems_of-eq (c ∷ s) = refl

skip_slash-append : (c : ℕ) (a b : Text) → skip_slash (c ∷ (a ++ b)) ≡ skip_slash (c ∷ a) ++ b
unfolding skip_slash
skip_slash-append c a b = ground arith

parts-slash :
    (s b : Text)
    → parse_parts (split_on b'/' (s ++ b'/' ∷ b))
      ≡ parse_parts (split_on b'/' s) ++ parse_parts (split_on b'/' b)
parts-slash s b =
    ap parse_parts (split_on-cons s b) ∙ parse_parts-append (split_on b'/' s) (split_on b'/' b)

parts-append :
    (c : ℕ) (a b : Text) → opens_segment b ≡ true → parts (c ∷ (a ++ b)) ≡ parts (c ∷ a) ++ parts b
unfolding parts skip_slash parse_parts split_on
parts-append c a [] h =
    ap (λ (s : Text). parts (c ∷ s)) (append-nil a) ∙ sym (append-nil (parts (c ∷ a)))
parts-append c a (d ∷ b) h =
    ap (λ (s : Text). parse_parts (split_on b'/' s)) (skip_slash-append c a (d ∷ b))
    ∙ ground (arith, (==_iff d b'/').0 h, parts-slash (skip_slash (c ∷ a)) b)

-- A text that is cut in front of a slash gives the elements of both pieces.
pub elems_of-append :
    (a b : Text) → opens_segment b ≡ true → elems_of (a ++ b) ≡ elems_of a ++ elems_of b
unfolding xpath_to_gnmi_path parts
elems_of-append [] b h = refl
elems_of-append (c ∷ a) b h =
    elems_of-eq (c ∷ (a ++ b))
    ∙ parts-append c a b h
    ∙ ap (λ (x : List PathElem). parts (c ∷ a) ++ x) (sym (elems_of-eq b))
