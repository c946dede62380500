-- ===== src/Tests/PathTests.antt =====
-- Paths and their printed form.
use psc_mock_server.Prelude.{
  ◌≡◌, ◌↔◌, refl, Bool, true, false, Option, none, some, List, [], ◌∷◌, ◌++◌, All, arith,
}
use psc_mock_server.Prelude.Texts.{Text, codes}
use psc_mock_server.Gnmi.{GnmiPath, PathElem, empty_path}
use psc_mock_server.Utils.{
  gnmi_to_xpath, xpath_to_gnmi_path, strip_path_quotes, is_path_prefix, unquote,
}
use psc_mock_server.Utils.PathPrefix.{Extends, is_path_prefix_iff}
use psc_mock_server.Utils.Printing.{QuoteFreeElem}
use psc_mock_server.Utils.RoundTrip.{
  IsPlain, IsBare, xpath_to_gnmi_path-gnmi_to_xpath, xpath_to_gnmi_path-strip_path_quotes,
}
use psc_mock_server.Tests.Data.{elem, path_of}

abbrev unit_elem : PathElem
unit_elem = record { name = codes "c"; key = (codes "n", codes "P0") ∷ [] }

abbrev unit_path : GnmiPath
unit_path = path_of (elem (codes "s") ∷ unit_elem ∷ [])

printed : gnmi_to_xpath unit_path ≡ codes "/s/c[n=\"P0\"]"
unfolding gnmi_to_xpath
printed = refl

-- A single quote in front is taken for a quote, and the last byte with it.
single_quoted : (xpath_to_gnmi_path (codes "/c[n='P0']") empty_path).elem ≡ unit_elem ∷ []
unfolding xpath_to_gnmi_path psc_mock_server.Prelude.Texts.eq_text
single_quoted = refl

unit_IsPlain : IsPlain unit_path
unit_IsPlain = record {
  no_origin = refl;
  elems = (
    record {
      name_ne_nil = λ e. cc;
      name_slash = omega arith;
      name_bracket = omega arith;
      keys_plain = tt;
      keys_distinct = tt;
    },
    (
      record {
        name_ne_nil = λ e. cc;
        name_slash = omega arith;
        name_bracket = omega arith;
        keys_plain = (
          record {
            key_eq = omega arith;
            key_bracket = omega arith;
            key_slash = omega arith;
            value_bracket = omega arith;
            value_slash = omega arith;
          },
          tt,
        );
        keys_distinct = (tt, tt);
      },
      tt,
    ),
  );
}

unit_quote_free : All QuoteFreeElem unit_path.elem
unit_quote_free = (
  record { name_free = omega arith; keys_free = tt },
  (record { name_free = omega arith; keys_free = ((omega arith, omega arith), tt) }, tt),
)

unit-IsBare : All (λ (node : PathElem). All IsBare node.key) unit_path.elem
unfolding unquote
unit-IsBare = (tt, ((refl, tt), tt))

xpath_to_gnmi_path-gnmi_to_xpath_example :
    (xpath_to_gnmi_path (gnmi_to_xpath unit_path) empty_path).elem ≡ unit_path.elem
xpath_to_gnmi_path-gnmi_to_xpath_example = xpath_to_gnmi_path-gnmi_to_xpath unit_path unit_IsPlain

xpath_to_gnmi_path-strip_path_quotes_example :
    (xpath_to_gnmi_path (strip_path_quotes (gnmi_to_xpath unit_path)) empty_path).elem
    ≡ unit_path.elem
xpath_to_gnmi_path-strip_path_quotes_example =
    xpath_to_gnmi_path-strip_path_quotes unit_path unit_IsPlain unit_quote_free unit-IsBare

is_path_prefix_iff_example :
    (is_path_prefix (codes "/a") (codes "/ab") ≡ true) ↔ Extends (codes "/a") (codes "/ab")
is_path_prefix_iff_example = is_path_prefix_iff (codes "/a") (codes "/ab")
