-- ===== src/Security/Process.antt =====
-- Whom the authenticator lets in.
use psc_mock_server.Prelude.{
  ◌≡◌, ◌≢◌, ◌↔◌, refl, sym, ap, ◌∙◌, Option, none, some, List, [], ◌∷◌, ◌++◌, arith, All, length,
  length-append, ℕ,
}
use psc_mock_server.Prelude.Texts.{Text, codes, eq_text_iff}
use psc_mock_server.OrderedMap.{find}
use psc_mock_server.Gnmi.{ok}
use psc_mock_server.Security.{StringRef, c_string, judge, process}

-- The entry of the metadata under a name, up to its first zero byte, as the comparison reads it.
abbrev pub entered : Option StringRef → Option Text
entered none = none
entered (some ref) = some (c_string (ref.chars ++ ref.behind))

judge-ok_iff :
    (username password : Text) (user pass : Option StringRef)
    → ((judge username password user pass).0 ≡ ok)
      ↔ ((entered user ≡ some username) × (entered pass ≡ some password))
unfolding judge
judge-ok_iff username password none pass = (λ h. cc, λ h. cc h.0)
judge-ok_iff username password (some user) none = (λ h. cc, λ h. cc h.1)
judge-ok_iff username password (some user) (some pass) =
    let u = eq_text_iff username (c_string (user.chars ++ user.behind)) in
    let p = eq_text_iff password (c_string (pass.chars ++ pass.behind)) in
    (λ h. ground (arith, u, p), λ h. ground (arith, u, p))

-- A call is let in exactly when its metadata has a user name and a password, and each, read from
-- memory up to the first zero byte, is the configured one.
pub process-ok_iff :
    (username password : Text) (metadata : List (Text × StringRef))
    → ((process username password metadata).0 ≡ ok) ↔ (
        (entered (find (codes "username") metadata) ≡ some username)
        × (entered (find (codes "password") metadata) ≡ some password))
unfolding process
process-ok_iff username password metadata =
    judge-ok_iff username password (find (codes "username") metadata)
      (find (codes "password") metadata)

c_string-append : (a b : Text) → All (λ (c : ℕ). c ≢ 0) a → c_string (a ++ b) ≡ a ++ c_string b
unfolding c_string
c_string-append [] b h = refl
c_string-append (c ∷ a) b h = ground (arith, c_string-append a b h.1)

append-ne_self : (a : Text) (c : ℕ) (b : Text) → a ++ c ∷ b ≢ a
append-ne_self a c b e = omega (arith, ap length e, length-append a (c ∷ b))

tail_at : (a : Text) (c : ℕ) (b : Text) → c ≢ 0 → a ++ c_string (c ∷ b) ≡ a ++ c ∷ c_string b
unfolding c_string
tail_at a c b ne = ground arith

-- A client that sends the configured password is refused when a byte other than zero stands in
-- memory behind it.
pub process_overread :
    (username password : Text) (metadata : List (Text × StringRef)) (c : ℕ) (behind : Text)
    → All (λ (x : ℕ). x ≢ 0) password
    → c ≢ 0
    → find (codes "password") metadata ≡ some (record { chars = password; behind = c ∷ behind })
    → (process username password metadata).0 ≢ ok
process_overread username password metadata c behind zero_free ne found let_in =
    let read : entered (find (codes "password") metadata) ≡ some password =
      ((process-ok_iff username password metadata).0 let_in).1 in
    let same : c_string (password ++ c ∷ behind) ≡ password = cc (read, found) in
    append-ne_self password c (c_string behind)
      (sym (c_string-append password (c ∷ behind) zero_free ∙ tail_at password c behind ne) ∙ same)
