-- ===== src/Utils/KeyParsing.antt =====
-- The predicate loop reads back the printed keys of an element.
use psc_mock_server.Prelude.{
  ℕ, zero, suc, ◌≤◌, ◌≡◌, ◌≢◌, refl, ap, sym, ◌∙◌, List, [], ◌∷◌, ◌++◌, arith, All, append_assoc,
  append-nil, length,
}
use psc_mock_server.Prelude.Texts.{Text, eq_text_iff}
use psc_mock_server.Gnmi.{PathElem}
use psc_mock_server.Utils.{parse_keys, unquote, assign_key}
use psc_mock_server.Utils.Parsing.{Free, Free-append, parse_keys-predicate}
use psc_mock_server.Utils.Printing.{keys_text}

-- A key that the syntax of xpaths can carry.
pub record IsPlainKey (kv : Text × Text) : Type 0 where
  pub key_eq : Free b'=' kv.0
  pub key_bracket : Free b']' kv.0
  pub key_slash : Free b'/' kv.0
  pub value_bracket : Free b']' kv.1
  pub value_slash : Free b'/' kv.1

-- The keys are pairwise different, as in a protobuf map.
abbrev pub Absent : Text → List (Text × Text) → Type 0
Absent k [] = Unit
Absent k ((j, v) ∷ keys) = (j ≢ k) × Absent k keys

abbrev pub Distinct : List (Text × Text) → Type 0
Distinct [] = Unit
Distinct ((k, v) ∷ keys) = Absent k keys × Distinct keys

-- An element that the syntax of xpaths can carry.
pub record IsPlainElem (node : PathElem) : Type 0 where
  pub name_ne_nil : node.name ≢ []
  pub name_slash : Free b'/' node.name
  pub name_bracket : Free b'[' node.name
  pub keys_plain : All IsPlainKey node.key
  pub keys_distinct : Distinct node.key

-- What writing a value between `q` and reading it back leaves of it.
abbrev pub Reads : Text → Text × Text → Type 0
Reads q kv = unquote (q ++ kv.1 ++ q) ≡ kv.1

assign_key-append :
    (k v : Text) (keys : List (Text × Text))
    → Absent k keys
    → assign_key k v keys ≡ keys ++ (k, v) ∷ []
unfolding assign_key
assign_key-append k v [] h = refl
assign_key-append k v ((j, w) ∷ keys) h =
    ground (arith, eq_text_iff j k, assign_key-append k v keys)

Absent-append :
    (k : Text) (xs ys : List (Text × Text)) → Absent k xs → Absent k ys → Absent k (xs ++ ys)
Absent-append k [] ys h g = g
Absent-append k ((j, v) ∷ xs) ys h g = (h.0, Absent-append k xs ys h.1 g)

-- Every key of the second list is absent from the first.
abbrev pub Disjoint : List (Text × Text) → List (Text × Text) → Type 0
Disjoint seen [] = Unit
Disjoint seen ((k, v) ∷ keys) = Absent k seen × Disjoint seen keys

Disjoint-append :
    (seen : List (Text × Text)) (k v : Text) (keys : List (Text × Text))
    → Disjoint seen keys
    → Absent k keys
    → Disjoint (seen ++ (k, v) ∷ []) keys
Disjoint-append seen k v [] h a = tt
Disjoint-append seen k v ((j, w) ∷ keys) h a = (
  Absent-append j seen ((k, v) ∷ []) h.0 (λ e. a.0 (sym e), tt),
  Disjoint-append seen k v keys h.1 a.1,
)

pub Disjoint-nil : (keys : List (Text × Text)) → Disjoint [] keys
Disjoint-nil [] = tt
Disjoint-nil ((k, v) ∷ keys) = (tt, Disjoint-nil keys)

-- The bytes of a written value: those of the value and of the quotes.
module _ (q : Text) (q_bracket : Free b']' q) (q_slash : Free b'/' q) where
  written_bracket : (v : Text) → Free b']' v → Free b']' (q ++ v ++ q)
  written_bracket v h = Free-append b']' (q ++ v) q (Free-append b']' q v q_bracket h) q_bracket

  pub written_slash : (v : Text) → Free b'/' v → Free b'/' (q ++ v ++ q)
  written_slash v h = Free-append b'/' (q ++ v) q (Free-append b'/' q v q_slash h) q_slash

  pub parse-keys_text :
      (keys seen : List (Text × Text)) (fuel : ℕ)
      → length keys ≤ fuel
      → All IsPlainKey keys
      → All (Reads q) keys
      → Distinct keys
      → Disjoint seen keys
      → parse_keys fuel (keys_text q keys) seen ≡ seen ++ keys
  parse-keys_text [] seen zero le plain reads distinct disjoint = unfold parse_keys in rw append-nil
  parse-keys_text [] seen (suc fuel) le plain reads distinct disjoint =
      unfold parse_keys in rw append-nil
  parse-keys_text ((k, v) ∷ keys) seen zero le plain reads distinct disjoint = absurd (omega arith)
  parse-keys_text ((k, v) ∷ keys) seen (suc fuel) le plain reads distinct disjoint =
      parse_keys-predicate fuel k (q ++ v ++ q) (keys_text q keys) seen plain.0.key_eq
        plain.0.key_bracket (written_bracket v plain.0.value_bracket)
      ∙ ap (parse_keys fuel (keys_text q keys))
          (ap (λ (t : Text). assign_key k t seen) reads.0 ∙ assign_key-append k v seen disjoint.0)
      ∙ parse-keys_text keys (seen ++ (k, v) ∷ []) fuel (omega arith) plain.1 reads.1 distinct.1
          (Disjoint-append seen k v keys disjoint.1 distinct.0)
      ∙ append_assoc seen ((k, v) ∷ []) keys
