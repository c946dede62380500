-- ===== src/SystemConfig/Container.antt =====
-- The containers that `atomicPrefix` of the system configuration names.
use psc_mock_server.Prelude.{
  ℕ, ◌+◌, ◌-◌, ◌≤◌, ◌≡◌, ◌↔◌, refl, ap, ◌∙◌, true, some, none, [], ◌∷◌, ◌++◌, inl, inr, arith,
  Option-cases, append-nil, append_assoc, take, drop, length, Bool-cases, ==_iff, length-append,
}
use mathlib.Core.Path.{sym}
use psc_mock_server.Prelude.Texts.{Text, codes, eq_text_sound}
use psc_mock_server.Utils.{strip_path_quotes}
use psc_mock_server.Utils.Nested.{opens_segment}
use psc_mock_server.StoreBacked.{StoreBackedProvider}
use psc_mock_server.SystemConfig.{
  starts_with, find_text, marker, server_root, ends_with, container_of, atomic_prefix,
}
use psc_mock_server.SystemConfig.Search.{
  Found, find_text_sound, find_text_first, length-take, List-cases, ends_with-append, eq_of_length,
  starts_with_iff, take-drop,
}

-- A prefix of a path that ends in `/config`, with nothing or a slash behind it.
pub record EndsConfig (p c : Text) : Type 0 where
  pub stem : Text
  pub rest : Text
  pub names : c ≡ stem ++ codes "/config"
  pub splits : p ≡ c ++ rest
  pub boundary : opens_segment rest ≡ true

-- The container of a path: the path begins with the root of the NTP servers, and the container is
-- the shortest prefix of it that ends in `/config`, with nothing or a slash behind it.
pub record IsContainer (p c : Text) : Type 0 where
  pub inner : Text
  pub under : p ≡ codes "/system/ntp/servers/server[" ++ inner
  pub ends : EndsConfig p c
  pub shortest : (other : Text) → EndsConfig p other → length c ≤ length other

EndsConfig-inside :
    (p c : Text) (i : ℕ)
    → Found marker (codes "/") p i
    → take (i + length marker) p ≡ c
    → EndsConfig p c
EndsConfig-inside p c i f e = record {
  stem = take i p;
  rest = codes "/" ++ f.rest;
  names = sym e ∙ f.cut;
  splits =
      f.splits
      ∙ append_assoc (take i p ++ marker) (codes "/") f.rest
      ∙ ap (λ (s : Text). s ++ (codes "/" ++ f.rest)) (sym f.cut ∙ e);
  boundary = refl;
}

EndsConfig-end : (p c : Text) → ends_with p marker ≡ true → p ≡ c → EndsConfig p c
unfolding ends_with
EndsConfig-end p c h e =
    let n = length p - length marker in
    record {
      stem = take n p;
      rest = [];
      names =
          sym e
          ∙ take-drop n p
          ∙ ap (λ (s : Text). take n p ++ s) (eq_text_sound (drop n p) marker (ground (arith, h)));
      splits = e ∙ sym (append-nil c);
      boundary = refl;
    }

container_of_sound : (p c : Text) → container_of p ≡ some c → EndsConfig p c
unfolding container_of
container_of_sound p c h = elim (Option-cases (find_text (marker ++ codes "/") p)) [
  | inr (i, e) ↦
      EndsConfig-inside p c i (find_text_sound marker (codes "/") p i e)
        (cc (rw (container_of, e) at h))
  | inl e ↦ elim (Bool-cases (ends_with p marker)) [
    | inl b ↦ EndsConfig-end p c b (cc (rw (container_of, e, b) at h))
    | inr b ↦ cc (rw (container_of, e, b) at h)
  ]
]

-- A prefix that a slash follows is found, and what is found begins no later.
EndsConfig-find_text :
    (p c : Text) (x : ℕ) (r : Text) (o : EndsConfig p c)
    → o.rest ≡ x ∷ r
    → (i : ℕ) × (find_text (marker ++ codes "/") p ≡ some i) × (i ≤ length o.stem)
EndsConfig-find_text p c x r o e =
    let slash : x ≡ b'/' = (==_iff x b'/').0 (rw e at o.boundary) in
    let split : p ≡ o.stem ++ (marker ++ codes "/") ++ r =
      o.splits
      ∙ ap (λ (s : Text). s ++ o.rest) o.names
      ∙ ap (λ (s : Text). (o.stem ++ marker) ++ s) (e ∙ ap (λ (n : ℕ). n ∷ r) slash)
      ∙ append_assoc o.stem marker (b'/' ∷ r)
      ∙ sym (append_assoc o.stem (marker ++ codes "/") r) in
    rw split (find_text_first (marker ++ codes "/") o.stem r)

whole : (p c : Text) (o : EndsConfig p c) → o.rest ≡ [] → p ≡ c
whole p c o e = o.splits ∙ ap (λ (s : Text). c ++ s) e ∙ append-nil c

length-EndsConfig : (p c : Text) (o : EndsConfig p c) → length c ≡ length o.stem + length marker
length-EndsConfig p c o = ap length o.names ∙ length-append o.stem marker

-- The container is no longer than any prefix that ends in `/config`.
found_shortest :
    (p : Text) (i : ℕ) (other : Text)
    → find_text (marker ++ codes "/") p ≡ some i
    → EndsConfig p other
    → length (take (i + length marker) p) ≤ length other
found_shortest p i other e o = elim (List-cases o.rest) [
  | inl n ↦ omega (arith, length-take (i + length marker) p, ap length (whole p other o n))
  | inr (x, r, n) ↦
      let (j, found, le) = EndsConfig-find_text p other x r o n in
      let same : i ≡ j = cc in
      omega (arith, length-take (i + length marker) p, length-EndsConfig p other o, same, le)
]

end_shortest :
    (p other : Text) → find_text (marker ++ codes "/") p ≡ none → EndsConfig p other → p ≡ other
end_shortest p other e o = elim (List-cases o.rest) [
  | inl n ↦ whole p other o n
  | inr (x, r, n) ↦ let (j, found, le) = EndsConfig-find_text p other x r o n in cc
]

container_of-shortest :
    (p c other : Text) → container_of p ≡ some c → EndsConfig p other → length c ≤ length other
unfolding container_of
container_of-shortest p c other h o = elim (Option-cases (find_text (marker ++ codes "/") p)) [
  | inr (i, e) ↦
      let same : take (i + length marker) p ≡ c = cc (rw (container_of, e) at h) in
      rw (← same) (found_shortest p i other e o)
  | inl e ↦ elim (Bool-cases (ends_with p marker)) [
    | inl b ↦
        let same : p ≡ c = cc (rw (container_of, e, b) at h) in
        omega (arith, ap length same, ap length (end_shortest p other e o))
    | inr b ↦ cc (rw (container_of, e, b) at h)
  ]
]

-- Where some prefix ends in `/config`, a container is named.
container_of_total : (p other : Text) → EndsConfig p other → (c : Text) × (container_of p ≡ some c)
unfolding container_of
container_of_total p other o = elim (Option-cases (find_text (marker ++ codes "/") p)) [
  | inr (i, e) ↦ (take (i + length marker) p, rw (container_of, e) refl)
  | inl e ↦
      let split : p ≡ o.stem ++ marker = end_shortest p other e o ∙ o.names in
      let ends : ends_with p marker ≡ true = rw split (ends_with-append o.stem marker) in
      (p, rw (container_of, e, ends) refl)
]

atomic_prefix_sound :
    (provider : StoreBackedProvider) (xpath c : Text)
    → atomic_prefix provider xpath ≡ some c
    → IsContainer (strip_path_quotes xpath) c
unfolding atomic_prefix
atomic_prefix_sound provider xpath c h =
    let p = strip_path_quotes xpath in
    elim (Bool-cases (starts_with p server_root)) [
      | inl e ↦
          let named : container_of p ≡ some c = rw (atomic_prefix, e) at h in
          let under = (starts_with_iff p server_root).0 e in
          record {
            inner = under.0;
            under = under.1;
            ends = container_of_sound p c named;
            shortest = λ other o. container_of-shortest p c other named o;
          }
      | inr e ↦ cc (rw (atomic_prefix, e) at h)
    ]

-- A path has one container at most.
IsContainer-unique : (p a b : Text) → IsContainer p a → IsContainer p b → a ≡ b
IsContainer-unique p a b x y =
    eq_of_length a b x.ends.rest y.ends.rest (sym x.ends.splits ∙ y.ends.splits)
      (omega (arith, x.shortest b y.ends, y.shortest a x.ends))

atomic_prefix_complete :
    (provider : StoreBackedProvider) (xpath c : Text)
    → IsContainer (strip_path_quotes xpath) c
    → atomic_prefix provider xpath ≡ some c
unfolding atomic_prefix
atomic_prefix_complete provider xpath c k =
    let p = strip_path_quotes xpath in
    let under = (starts_with_iff p server_root).1 (k.inner, k.under) in
    let (named, e) = container_of_total p c k.ends in
    let found : atomic_prefix provider xpath ≡ some named = rw (atomic_prefix, under) e in
    let same = IsContainer-unique p named c (atomic_prefix_sound provider xpath named found) k in
    found ∙ ap (λ (t : Text). some t) same

-- The provider names a container for a path exactly when the path, without its quotes, begins with
-- the text `/system/ntp/servers/server[` and has a prefix that ends in `/config`, with nothing or
-- a slash behind it; the container is the shortest such prefix.
pub atomic_prefix_lem :
    (provider : StoreBackedProvider) (xpath c : Text)
    → (atomic_prefix provider xpath ≡ some c) ↔ IsContainer (strip_path_quotes xpath) c
atomic_prefix_lem provider xpath c =
    (atomic_prefix_sound provider xpath c, atomic_prefix_complete provider xpath c)
