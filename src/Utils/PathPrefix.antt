-- ===== src/Utils/PathPrefix.antt =====
-- What `isPathPrefix` and `stripPathQuotes` decide.
use psc_mock_server.Prelude.{
  ◌≡◌, refl, ap, ◌∙◌, ◌↔◌, true, some, [], ◌∷◌, ◌++◌, ◌≢◌, arith, Option-cases, append-nil,
  append_assoc, inl, inr, Bool-cases, ◌==◌,
}
use psc_mock_server.Prelude.Texts.{Text}
use psc_mock_server.Utils.{is_path_prefix, strip_prefix, at_boundary, strip_path_quotes}

pub strip_prefix-append : (p rest : Text) → strip_prefix p (p ++ rest) ≡ some rest
unfolding strip_prefix
strip_prefix-append [] rest = refl
strip_prefix-append (c ∷ p) rest = ground (arith, strip_prefix-append p rest)

pub strip_prefix_sound : (p s rest : Text) → strip_prefix p s ≡ some rest → s ≡ p ++ rest
unfolding strip_prefix
strip_prefix_sound [] s rest h = cc
strip_prefix_sound (c ∷ p) [] rest h = cc
strip_prefix_sound (c ∷ p) (d ∷ s) rest h = ground (arith, strip_prefix_sound p s rest)

-- The path is the prefix itself, or it goes on behind it with a slash or an opening bracket.
pub data Extends (prefix path : Text) : Type 0 where
  same : path ≡ prefix → Extends prefix path
  child : (rest : Text) → path ≡ prefix ++ b'/' ∷ rest → Extends prefix path
  keyed : (rest : Text) → path ≡ prefix ++ b'[' ∷ rest → Extends prefix path

-- The path is the prefix and a rest that the test accepts.
record Goes (prefix path : Text) : Type 0 where
  rest : Text
  splits : path ≡ prefix ++ rest
  boundary : at_boundary rest ≡ true

is_path_prefix_sound : (prefix path : Text) → is_path_prefix prefix path ≡ true → Goes prefix path
unfolding is_path_prefix
is_path_prefix_sound prefix path h = elim (Option-cases (strip_prefix prefix path)) [
  | inl e ↦ cc (rw (e, is_path_prefix) at h)
  | inr (rest, e) ↦ record {
    rest = rest;
    splits = strip_prefix_sound prefix path rest e;
    boundary = rw (e, is_path_prefix) at h;
  }
]

pub is_path_prefix_complete :
    (prefix rest : Text) → at_boundary rest ≡ true → is_path_prefix prefix (prefix ++ rest) ≡ true
unfolding is_path_prefix
is_path_prefix_complete prefix rest h = rw (strip_prefix-append prefix rest, is_path_prefix) h

pub is_path_prefix_refl : (path : Text) → is_path_prefix path path ≡ true
unfolding at_boundary
is_path_prefix_refl path = rw append-nil at (is_path_prefix_complete path [] refl)

Goes-Extends :
    (prefix path rest : Text)
    → path ≡ prefix ++ rest
    → at_boundary rest ≡ true
    → Extends prefix path
unfolding at_boundary
Goes-Extends prefix path [] e h = same (e ∙ append-nil prefix)
Goes-Extends prefix path (c ∷ rest) e h = elim (Bool-cases (c == b'/')) [
  | inl s ↦ child rest (ground (arith, e, s))
  | inr s ↦ keyed rest (ground (arith, e, s, h))
]

Extends-is_path_prefix :
    (prefix path : Text) → Extends prefix path → is_path_prefix prefix path ≡ true
unfolding at_boundary
Extends-is_path_prefix prefix path (same e) = rw e (is_path_prefix_refl prefix)
Extends-is_path_prefix prefix path (child rest e) =
    rw e (is_path_prefix_complete prefix (b'/' ∷ rest) refl)
Extends-is_path_prefix prefix path (keyed rest e) =
    rw e (is_path_prefix_complete prefix (b'[' ∷ rest) refl)

-- `isPathPrefix` answers true exactly for the path that is the prefix and for those that go on
-- behind it with a slash or an opening bracket.
pub is_path_prefix_iff :
    (prefix path : Text) → (is_path_prefix prefix path ≡ true) ↔ Extends prefix path
is_path_prefix_iff prefix path = (
  λ h.
      let g = is_path_prefix_sound prefix path h in
      Goes-Extends prefix path g.rest g.splits g.boundary,
  Extends-is_path_prefix prefix path,
)

at_boundary-append :
    (a b : Text) → at_boundary a ≡ true → at_boundary b ≡ true → at_boundary (a ++ b) ≡ true
unfolding at_boundary
at_boundary-append [] b h k = k
at_boundary-append (c ∷ a) b h k = h

-- Subtrees nest: a path under a path under a prefix is under the prefix.
pub is_path_prefix_trans :
    (a b c : Text)
    → is_path_prefix a b ≡ true
    → is_path_prefix b c ≡ true
    → is_path_prefix a c ≡ true
is_path_prefix_trans a b c h k =
    let p = is_path_prefix_sound a b h in
    let q = is_path_prefix_sound b c k in
    let rest = p.rest ++ q.rest in
    let splits : c ≡ a ++ rest =
      q.splits ∙ ap (λ (t : Text). t ++ q.rest) p.splits ∙ append_assoc a p.rest q.rest in
    rw splits
      (is_path_prefix_complete a rest (at_boundary-append p.rest q.rest p.boundary q.boundary))

-- No double quote is left in a normalised path.
abbrev pub IsQuoteFree : Text → Type 0
IsQuoteFree [] = Unit
IsQuoteFree (c ∷ s) = (c ≢ b'"') × IsQuoteFree s

pub strip_path_quotes-IsQuoteFree : (s : Text) → IsQuoteFree (strip_path_quotes s)
unfolding strip_path_quotes
strip_path_quotes-IsQuoteFree [] = tt
strip_path_quotes-IsQuoteFree (c ∷ s) = ground (arith, strip_path_quotes-IsQuoteFree s)

pub strip_path_quotes-eq_self : (s : Text) → IsQuoteFree s → strip_path_quotes s ≡ s
unfolding strip_path_quotes
strip_path_quotes-eq_self [] h = refl
strip_path_quotes-eq_self (c ∷ s) h = ground (arith, strip_path_quotes-eq_self s)

pub strip_path_quotes_idem :
    (s : Text) → strip_path_quotes (strip_path_quotes s) ≡ strip_path_quotes s
strip_path_quotes_idem s =
    strip_path_quotes-eq_self (strip_path_quotes s) (strip_path_quotes-IsQuoteFree s)

pub strip_path_quotes-append :
    (a b : Text) → strip_path_quotes (a ++ b) ≡ strip_path_quotes a ++ strip_path_quotes b
unfolding strip_path_quotes
strip_path_quotes-append [] b = refl
strip_path_quotes-append (c ∷ a) b = ground (arith, strip_path_quotes-append a b)
