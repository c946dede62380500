-- ===== src/Utils/Printing.antt =====
-- The printed form of a path, with the values between quotes or bare, and what normalising does
-- to it.
use psc_mock_server.Prelude.{◌≡◌, refl, List, [], ◌∷◌, ◌++◌, All, append_assoc, append-nil}
use psc_mock_server.Prelude.Texts.{Text}
use psc_mock_server.Gnmi.{GnmiPath, PathElem}
use psc_mock_server.Utils.{print_keys, print_elems, gnmi_to_xpath, strip_path_quotes}
use psc_mock_server.Utils.PathPrefix.{
  IsQuoteFree, strip_path_quotes-append, strip_path_quotes-eq_self,
}
use psc_mock_server.Utils.Parsing.{predicate}

-- The keys with `q` on both sides of each value.
abbrev pub keys_text : Text → List (Text × Text) → Text
keys_text q [] = []
keys_text q ((k, v) ∷ keys) = b'[' ∷ predicate k (q ++ v ++ q) (keys_text q keys)

abbrev pub part_text : Text → PathElem → Text
part_text q node = node.name ++ keys_text q node.key

abbrev pub elems_text : Text → List PathElem → Text
elems_text q [] = []
elems_text q (node ∷ elems) = b'/' ∷ (part_text q node ++ elems_text q elems)

abbrev pub quote : Text
quote = b'"' ∷ []

print_keys_lem : (keys : List (Text × Text)) → print_keys keys ≡ keys_text quote keys
unfolding print_keys
print_keys_lem [] = refl
print_keys_lem ((k, v) ∷ keys) = simp (append_assoc, print_keys_lem keys)

print_elems_lem : (elems : List PathElem) → print_elems [] elems ≡ elems_text quote elems
unfolding print_elems
print_elems_lem [] = refl
print_elems_lem (node ∷ elems) = simp (append_assoc, print_elems_lem elems, print_keys_lem node.key)

-- Without an origin the xpath is the printed form with quotes.
pub gnmi_to_xpath_lem :
    (path : GnmiPath) → path.origin ≡ [] → gnmi_to_xpath path ≡ elems_text quote path.elem
unfolding gnmi_to_xpath
gnmi_to_xpath_lem path h = rw h (print_elems_lem path.elem)

-- No quote stands in a name or key, nor inside a value.
pub record QuoteFreeElem (node : PathElem) : Type 0 where
  pub name_free : IsQuoteFree node.name
  pub keys_free : All (λ (kv : Text × Text). IsQuoteFree kv.0 × IsQuoteFree kv.1) node.key

strip-keys_text :
    (keys : List (Text × Text))
    → All (λ (kv : Text × Text). IsQuoteFree kv.0 × IsQuoteFree kv.1) keys
    → strip_path_quotes (keys_text quote keys) ≡ keys_text [] keys
unfolding strip_path_quotes
strip-keys_text [] h = refl
strip-keys_text ((k, v) ∷ keys) h = simp (
  strip_path_quotes-append,
  append_assoc,
  append-nil,
  strip_path_quotes-eq_self k h.0.0,
  strip_path_quotes-eq_self v h.0.1,
  strip-keys_text keys h.1,
)

-- Normalising the printed form takes the quotes off the values, and nothing else.
pub strip-elems_text :
    (elems : List PathElem)
    → All QuoteFreeElem elems
    → strip_path_quotes (elems_text quote elems) ≡ elems_text [] elems
unfolding strip_path_quotes
strip-elems_text [] h = refl
strip-elems_text (node ∷ elems) h = simp (
  strip_path_quotes-append,
  strip_path_quotes-eq_self node.name h.0.name_free,
  strip-keys_text node.key h.0.keys_free,
  strip-elems_text elems h.1,
)
