-- ===== src/Emit/Client.antt =====
-- What a client that follows the gNMI specification holds after notifications: an atomic
-- notification replaces all that lies under its prefix, a deleted path takes its subtree with it,
-- and deletions come before updates, of which the last for a path counts.
use psc_mock_server.Prelude.{
  ◌≡◌, refl, Bool, true, false, ◌&&◌, ◌||◌, Option, none, List, [], ◌∷◌, ◌++◌, arith, if◌then◌else◌,
}
use psc_mock_server.Prelude.Texts.{Text, eq_text, eq_text_refl}
use psc_mock_server.OrderedMap.Laws.{first}
use psc_mock_server.Gnmi.{TypedValue, Notification, Update, GnmiPath, PathElem}
use psc_mock_server.Emit.Full.{elems_or_none}

abbrev eq_keys : List (Text × Text) → List (Text × Text) → Bool
eq_keys [] [] = true
eq_keys [] (k ∷ ks) = false
eq_keys (k ∷ ks) [] = false
eq_keys ((k, v) ∷ ks) ((j, w) ∷ js) = (eq_text k j && eq_text v w) && eq_keys ks js

abbrev eq_elem : PathElem → PathElem → Bool
eq_elem a b = eq_text a.name b.name && eq_keys a.key b.key

-- The path is the prefix or lies under it.
abbrev pub under : List PathElem → List PathElem → Bool
under [] e = true
under (p ∷ ps) [] = false
under (p ∷ ps) (x ∷ e) = eq_elem p x && under ps e

abbrev pub eq_elems : List PathElem → List PathElem → Bool
eq_elems a b = under a b && under b a

-- The value that some updates behind a prefix give a path.
abbrev pub said : List PathElem → List PathElem → List Update → Option TypedValue
said e prefix [] = none
said e prefix (u ∷ us) =
    first (said e prefix us) (if eq_elems (prefix ++ elems_or_none u.path) e then u.val else none)

-- Some deleted path behind the prefix covers the path.
abbrev pub deleted : List PathElem → List PathElem → List GnmiPath → Bool
deleted e prefix [] = false
deleted e prefix (d ∷ ds) = under (prefix ++ d.elem) e || deleted e prefix ds

abbrev pub cleared : List PathElem → Notification → Bool
cleared e n =
    (n.atomic && under (elems_or_none n.prefix) e) || deleted e (elems_or_none n.prefix) n.delete

-- What the client holds at a path after one notification, and after several.
abbrev pub told_one : List PathElem → Notification → Option TypedValue → Option TypedValue
told_one e n v = first (said e (elems_or_none n.prefix) n.update) (if cleared e n then none else v)

abbrev pub told : List PathElem → List Notification → Option TypedValue → Option TypedValue
told e [] v = v
told e (n ∷ notes) v = told e notes (told_one e n v)

pub told-append :
    (e : List PathElem) (a b : List Notification) (v : Option TypedValue)
    → told e (a ++ b) v ≡ told e b (told e a v)
told-append e [] b v = refl
told-append e (n ∷ a) b v = told-append e a b (told_one e n v)

eq_keys_refl : (ks : List (Text × Text)) → eq_keys ks ks ≡ true
eq_keys_refl [] = refl
eq_keys_refl ((k, v) ∷ ks) = ground (arith, eq_text_refl k, eq_text_refl v, eq_keys_refl ks)

eq_elem_refl : (a : PathElem) → eq_elem a a ≡ true
eq_elem_refl a = ground (arith, eq_text_refl a.name, eq_keys_refl a.key)

pub under-append : (p r : List PathElem) → under p (p ++ r) ≡ true
under-append [] r = refl
under-append (x ∷ p) r = ground (arith, eq_elem_refl x, under-append p r)

pub under_refl : (p : List PathElem) → under p p ≡ true
under_refl [] = refl
under_refl (x ∷ p) = ground (arith, eq_elem_refl x, under_refl p)
