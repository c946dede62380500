-- ===== src/Utils.antt =====
-- src/utils/utils.h: xpaths, gNMI paths, and the path tests that the stores and the registry share.
pub mod PathPrefix
pub mod Printing
pub mod Parsing
pub mod KeyParsing
pub mod RoundTrip
pub mod Nested
use psc_mock_server.Prelude.{
  ℕ, zero, suc, ◌+◌, ◌-◌, Bool, true, false, not, ◌&&◌, ◌||◌, Option, none, some, List, [], ◌∷◌,
  ◌++◌, if◌then◌else◌, ◌==◌, ltb, leb, length, take, drop, select, is_empty,
}
use psc_mock_server.Prelude.Texts.{Text, eq_text}
use psc_mock_server.Gnmi.{
  GnmiPath, PathElem, Status, ok, error, invalid_argument, empty_element_name, empty_key_name,
}

-- The keys of one element, each as `[name="value"]`.
unfoldable pub print_keys : List (Text × Text) → Text
print_keys [] = []
print_keys ((k, v) ∷ keys) = (b'[' ∷ k) ++ (b'=' ∷ b'"' ∷ v) ++ (b'"' ∷ b']' ∷ print_keys keys)

-- The loop over the elements; `label` is the origin with its colon, on the first element only.
unfoldable pub print_elems : Text → List PathElem → Text
print_elems label [] = []
print_elems label (node ∷ elems) =
    b'/' ∷ (label ++ node.name ++ print_keys node.key ++ print_elems [] elems)

unfoldable pub origin_label : Text → Text
origin_label origin = if is_empty origin then [] else origin ++ b':' ∷ []

unfoldable pub gnmi_to_xpath : GnmiPath → Text
unfolding print_elems print_keys origin_label
gnmi_to_xpath path = print_elems (origin_label path.origin) path.elem

-- `s.find(c)`; `none` is `npos`
unfoldable pub find_byte : ℕ → Text → Option ℕ
find_byte c [] = none
find_byte c (x ∷ s) =
    let rest = find_byte c s in
    if x == c then some 0 else elim rest [ none ↦ none | some i ↦ some (suc i) ]

-- The pieces between the separators. The loop of the source cuts them one by one.
unfoldable pub split_on : ℕ → Text → List Text
split_on c [] = [] ∷ []
split_on c (x ∷ s) =
    let rest = split_on c s in
    if x == c then [] ∷ rest else elim rest [ [] ↦ (x ∷ []) ∷ [] | p ∷ ps ↦ (x ∷ p) ∷ ps ]

-- Strips the quotes around a value of two bytes or more that begins with one.
unfoldable pub unquote : Text → Text
unquote [] = []
unquote (c ∷ s) =
    if leb 2 (length (c ∷ s)) && (c == b'"' || c == 39) then take (length s - 1) s else c ∷ s

-- `(*elem->mutable_key())[key] = val`; a new key is visited last
unfoldable pub assign_key : Text → Text → List (Text × Text) → List (Text × Text)
assign_key k v [] = (k, v) ∷ []
assign_key k v ((j, w) ∷ keys) =
    let rest = assign_key k v keys in if eq_text j k then (k, v) ∷ keys else (j, w) ∷ rest

-- `val` of one predicate, behind its `[`. For `end < eq` the length in the source wraps around and
-- `substr` stops at the end of the text.
unfoldable pub predicate_value : Text → ℕ → ℕ → Text
predicate_value t eq end =
    if ltb eq end then take (end - eq - 1) (drop (suc eq) t) else drop (suc eq) t

-- The loop over the `[key=value]` predicates; the text is `part` from `k` on.
unfoldable pub parse_keys : ℕ → Text → List (Text × Text) → List (Text × Text)
unfolding find_byte unquote assign_key predicate_value
parse_keys zero s keys = keys
parse_keys (suc fuel) [] keys = keys
parse_keys (suc fuel) (c ∷ t) keys =
    if c == b'['
    then elim (find_byte b'=' t) [
      | none ↦ keys
      | some eq ↦ elim (find_byte b']' t) [
        | none ↦ keys
        | some end ↦
            parse_keys fuel (drop (suc end) t)
              (assign_key (take eq t) (unquote (predicate_value t eq end)) keys)
      ]
    ]
    else keys

-- One non-empty part: a name, and the predicates from its first bracket on.
unfoldable pub parse_elem : Text → PathElem
unfolding parse_keys
parse_elem part = elim (find_byte b'[' part) [
  | none ↦ record { name = part; key = [] }
  | some bracket ↦ record {
    name = take bracket part;
    key = parse_keys (length part) (drop bracket part) [];
  }
]

unfoldable pub parse_parts : List Text → List PathElem
unfolding parse_elem
parse_parts [] = []
parse_parts (part ∷ parts) =
    let rest = parse_parts parts in if is_empty part then rest else parse_elem part ∷ rest

unfoldable pub skip_slash : Text → Text
skip_slash [] = []
skip_slash (c ∷ s) = if c == b'/' then s else c ∷ s

-- Fills an existing path: the elements come behind those that it has.
unfoldable pub xpath_to_gnmi_path : Text → GnmiPath → GnmiPath
unfolding parse_parts split_on skip_slash
xpath_to_gnmi_path xpath path =
    if is_empty xpath
    then path
    else record path { elem = path.elem ++ parse_parts (split_on b'/' (skip_slash xpath)) }

unfoldable pub strip_path_quotes : Text → Text
strip_path_quotes [] = []
strip_path_quotes (c ∷ s) =
    let out = strip_path_quotes s in if not (c == b'"') then c ∷ out else out

-- What `path.starts_with(prefix)` leaves of the path.
unfoldable pub strip_prefix : Text → Text → Option Text
strip_prefix [] path = some path
strip_prefix (p ∷ prefix) [] = none
strip_prefix (p ∷ prefix) (c ∷ path) =
    let rest = strip_prefix prefix path in if p == c then rest else none

-- The test on the byte behind the prefix.
unfoldable pub at_boundary : Text → Bool
at_boundary [] = true
at_boundary (next ∷ s) = next == b'/' || next == b'['

unfoldable pub is_path_prefix : Text → Text → Bool
unfolding strip_prefix at_boundary
is_path_prefix prefix path = elim (strip_prefix prefix path) [
  | none ↦ false
  | some rest ↦ at_boundary rest
]

unfoldable pub validate_keys : List (Text × Text) → Status
validate_keys [] = ok
validate_keys ((k, v) ∷ keys) =
    let rest = validate_keys keys in
    if is_empty k then error invalid_argument empty_key_name else rest

unfoldable pub validate_elems : List PathElem → Status
unfolding validate_keys
validate_elems [] = ok
validate_elems (node ∷ elems) =
    let rest = validate_elems elems in
    if is_empty node.name
    then error invalid_argument empty_element_name
    else elim (validate_keys node.key) [ ok ↦ rest | error c m ↦ error c m ]

unfoldable pub validate_gnmi_path : GnmiPath → Status
unfolding validate_elems
validate_gnmi_path path = validate_elems path.elem
