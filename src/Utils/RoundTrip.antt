-- ===== src/Utils/RoundTrip.antt =====
-- `xpath_to_gnmi_path` reads back what `gnmi_to_xpath` prints, and what a store keeps of it.
use psc_mock_server.Prelude.{
  ℕ, ◌-◌, ◌≤◌, ◌≡◌, ◌≢◌, refl, ap, ◌∙◌, false, List, [], ◌∷◌, ◌++◌, arith, All, append-nil,
  is_empty, length, take, length-append, take-append, drop-append, map,
}
use psc_mock_server.Prelude.Texts.{Text}
use psc_mock_server.Gnmi.{GnmiPath, PathElem, empty_path}
use psc_mock_server.Utils.{
  gnmi_to_xpath, xpath_to_gnmi_path, parse_parts, parse_elem, split_on, unquote, strip_path_quotes,
}
use psc_mock_server.Utils.Parsing.{
  Free, Free-append, find_byte-Free, find_byte-append, split_on-Free, split_on-append, predicate,
}
use psc_mock_server.Utils.Printing.{
  keys_text, part_text, elems_text, quote, gnmi_to_xpath_lem, QuoteFreeElem, strip-elems_text,
}
use psc_mock_server.Utils.KeyParsing.{
  IsPlainKey, IsPlainElem, Reads, Disjoint-nil, written_slash, parse-keys_text,
}

is_empty-append : (a b : Text) → a ≢ [] → is_empty (a ++ b) ≡ false
is_empty-append [] b h = absurd (h refl)
is_empty-append (c ∷ a) b h = refl

module _ (q : Text) (q_bracket : Free b']' q) (q_slash : Free b'/' q) where
  keys_slash : (keys : List (Text × Text)) → All IsPlainKey keys → Free b'/' (keys_text q keys)
  keys_slash [] h = tt
  keys_slash ((k, v) ∷ keys) h = (
    λ e. absurd (omega arith),
    Free-append b'/' k _ h.0.key_slash (
      λ e. absurd (omega arith),
      Free-append b'/' (q ++ v ++ q) _ (written_slash q q_bracket q_slash v h.0.value_slash)
          (λ e. absurd (omega arith), keys_slash keys h.1),
    ),
  )

  part_slash : (node : PathElem) → IsPlainElem node → Free b'/' (part_text q node)
  part_slash node h =
      Free-append b'/' node.name (keys_text q node.key) h.name_slash
        (keys_slash node.key h.keys_plain)

  length-keys_text : (keys : List (Text × Text)) → length keys ≤ length (keys_text q keys)
  length-keys_text [] = omega arith
  length-keys_text ((k, v) ∷ keys) = omega (
    arith,
    length-keys_text keys,
    length-append k (b'=' ∷ ((q ++ v ++ q) ++ b']' ∷ keys_text q keys)),
    length-append (q ++ v ++ q) (b']' ∷ keys_text q keys),
  )

  parse-part :
      (name : Text) (keys : List (Text × Text))
      → IsPlainElem (record { name = name; key = keys })
      → All (Reads q) keys
      → parse_elem (name ++ keys_text q keys) ≡ record { name = name; key = keys }
  unfolding parse_elem
  parse-part name [] h r = rw append-nil (rw (parse_elem, find_byte-Free b'[' name h.name_bracket))
  parse-part name ((k, v) ∷ keys) h r =
      let t = keys_text q ((k, v) ∷ keys) in
      let inner = predicate k (q ++ v ++ q) (keys_text q keys) in
      rw (
        parse_elem,
        find_byte-append b'[' name inner h.name_bracket,
        take-append name t,
        drop-append name t,
        parse-keys_text q q_bracket q_slash ((k, v) ∷ keys) [] (length (name ++ t))
            (omega (arith, length-append name t, length-keys_text ((k, v) ∷ keys))) h.keys_plain r
            h.keys_distinct (Disjoint-nil ((k, v) ∷ keys)),
      )

  split-elems_text :
      (node : PathElem) (elems : List PathElem)
      → All IsPlainElem (node ∷ elems)
      → split_on b'/' (part_text q node ++ elems_text q elems) ≡ map (part_text q) (node ∷ elems)
  split-elems_text node [] h =
      rw append-nil (split_on-Free b'/' (part_text q node) (part_slash node h.0))
  split-elems_text node (next ∷ elems) h =
      split_on-append b'/' (part_text q node) (part_text q next ++ elems_text q elems)
        (part_slash node h.0)
      ∙ ap (λ (ps : List Text). part_text q node ∷ ps) (split-elems_text next elems h.1)

  parse_parts-map :
      (elems : List PathElem)
      → All IsPlainElem elems
      → All (λ (node : PathElem). All (Reads q) node.key) elems
      → parse_parts (map (part_text q) elems) ≡ elems
  unfolding parse_parts
  parse_parts-map [] h r = refl
  parse_parts-map (node ∷ elems) h r = rw (
    is_empty-append node.name (keys_text q node.key) h.0.name_ne_nil,
    parse-part node.name node.key h.0 r.0,
    parse_parts-map elems h.1 r.1,
  )

  -- Reading the printed form, with the values between `q`, gives the elements back.
  pub parse-elems_text :
      (elems : List PathElem)
      → All IsPlainElem elems
      → All (λ (node : PathElem). All (Reads q) node.key) elems
      → (xpath_to_gnmi_path (elems_text q elems) empty_path).elem ≡ elems
  unfolding xpath_to_gnmi_path
  parse-elems_text [] h r = refl
  parse-elems_text (node ∷ elems) h r =
      ap parse_parts (split-elems_text node elems h) ∙ parse_parts-map (node ∷ elems) h r

-- A quoted value of any bytes is read back whole.
unquote-quote : (v : Text) → unquote (quote ++ v ++ quote) ≡ v
unfolding unquote
unquote-quote v =
    let len : length (v ++ quote) - 1 ≡ length v = omega (arith, length-append v quote) in
    ground (
      arith,
      len,
      length-append v quote,
      take-append v quote,
      ap (λ (n : ℕ). take n (v ++ quote)) len,
    )

quoted_keys : (keys : List (Text × Text)) → All (Reads quote) keys
quoted_keys [] = tt
quoted_keys ((k, v) ∷ keys) = (unquote-quote v, quoted_keys keys)

quoted_elems : (elems : List PathElem) → All (λ (node : PathElem). All (Reads quote) node.key) elems
quoted_elems [] = tt
quoted_elems (node ∷ elems) = (quoted_keys node.key, quoted_elems elems)

-- A path with no origin whose elements xpaths can carry: names are not empty and hold no `/` or
-- `[`, keys are pairwise different and hold no `=`, `]` or `/`, values hold no `]` or `/`.
pub record IsPlain (path : GnmiPath) : Type 0 where
  pub no_origin : path.origin ≡ []
  pub elems : All IsPlainElem path.elem

-- Reading the xpath that `gnmi_to_xpath` prints of a plain path gives back all its elements, with
-- their keys, whatever quotes the values hold.
pub xpath_to_gnmi_path-gnmi_to_xpath :
    (path : GnmiPath)
    → IsPlain path
    → (xpath_to_gnmi_path (gnmi_to_xpath path) empty_path).elem ≡ path.elem
xpath_to_gnmi_path-gnmi_to_xpath path h = rw (gnmi_to_xpath_lem path h.no_origin) (
    parse-elems_text quote (λ e. absurd (omega arith), tt) (λ e. absurd (omega arith), tt) path.elem
      h.elems (quoted_elems path.elem))

-- A value that can stand bare in a store's key: it would not be taken for a quoted one.
abbrev pub IsBare : Text × Text → Type 0
IsBare kv = unquote kv.1 ≡ kv.1

bare_keys : (keys : List (Text × Text)) → All IsBare keys → All (Reads []) keys
bare_keys [] h = tt
bare_keys ((k, v) ∷ keys) h = (rw append-nil h.0, bare_keys keys h.1)

bare_elems :
    (elems : List PathElem)
    → All (λ (node : PathElem). All IsBare node.key) elems
    → All (λ (node : PathElem). All (Reads []) node.key) elems
bare_elems [] h = tt
bare_elems (node ∷ elems) h = (bare_keys node.key h.0, bare_elems elems h.1)

-- The key under which a store keeps a leaf is the printed path without its quotes. For a plain path
-- with no quote in it, whose values do not begin with a single quote if they have two bytes or
-- more, the path that is emitted for that key has the elements of the path that was written.
pub xpath_to_gnmi_path-strip_path_quotes :
    (path : GnmiPath)
    → IsPlain path
    → All QuoteFreeElem path.elem
    → All (λ (node : PathElem). All IsBare node.key) path.elem
    → (xpath_to_gnmi_path (strip_path_quotes (gnmi_to_xpath path)) empty_path).elem ≡ path.elem
xpath_to_gnmi_path-strip_path_quotes path h free bare =
    rw (gnmi_to_xpath_lem path h.no_origin, strip-elems_text path.elem free)
      (parse-elems_text [] tt tt path.elem h.elems (bare_elems path.elem bare))
