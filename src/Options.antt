-- ===== src/Options.antt =====
-- The command line of src/main.cpp: what `getopt_long` gives, one flag after the other, sets the
-- credentials, the log level and the address to bind, or ends the process.
use psc_mock_server.Prelude.{
  ◌≡◌, ◌∙◌, ◌⊎◌, inl, inr, refl, sym, ap, ℕ, Bool, true, Option, none, some, List, [], ◌∷◌,
}
use psc_mock_server.Prelude.Texts.{Text, codes}
use psc_mock_server.Prelude.Int.{ℤ}
use psc_mock_server.Log.{Severity, info, level_severity}
use psc_mock_server.Security.{
  AuthBuilder, new_builder, Credentials, build, set_key_path, set_cert_path, set_root_cert_path,
  set_username, set_password, set_insecure,
}

-- The values of `c` in the loop, with `optarg`; `help` is also the value of an unknown option.
pub data Flag : Type 0 where
  help force_insecure : Flag
  username password private_key cert ca log_level bind : Text → Flag
  other : ℕ → Flag

pub record Settings : Type 0 where
  pub bind_addr : Text
  pub auth : AuthBuilder
  pub severity : Severity

-- Before the loop; `Log()` has set its default level.
abbrev pub first_settings : Settings
first_settings = record { bind_addr = codes "localhost:50051"; auth = new_builder; severity = info }

-- The process ends with a code, or goes on.
pub data Outcome : Type 0 where
  exits : ℕ → Outcome
  goes_on : Settings → Outcome

Outcome-cases : (o : Outcome) → ((n : ℕ) × (o ≡ exits n)) ⊎ ((s : Settings) × (o ≡ goes_on s))
Outcome-cases (exits n) = inl (n, refl)
Outcome-cases (goes_on s) = inr (s, refl)

-- `Log::setLevel`, which ends the process on a level that it does not know.
unfoldable pub set_level : Option Severity → Settings → Outcome
set_level none s = exits 1
set_level (some l) s = goes_on (record s { severity = l })

-- `atoi` of the C library is a parameter.
module _ (atoi : Text → ℤ) where
  -- One turn of the switch.
  unfoldable pub apply_flag : Flag → Settings → Outcome
  unfolding set_level level_severity
  apply_flag help s = exits 0
  apply_flag (username v) s = goes_on (record s { auth = set_username v s.auth })
  apply_flag (password v) s = goes_on (record s { auth = set_password v s.auth })
  apply_flag (private_key v) s = goes_on (record s { auth = set_key_path v s.auth })
  apply_flag (cert v) s = goes_on (record s { auth = set_cert_path v s.auth })
  apply_flag (ca v) s = goes_on (record s { auth = set_root_cert_path v s.auth })
  apply_flag (log_level v) s = set_level (level_severity (atoi v)) s
  apply_flag (bind v) s = goes_on (record s { bind_addr = v })
  apply_flag force_insecure s = goes_on (record s { auth = set_insecure true s.auth })
  apply_flag (other c) s = exits 1

  -- The loop.
  unfoldable pub parse_options : List Flag → Settings → Outcome
  unfolding apply_flag
  parse_options [] s = goes_on s
  parse_options (f ∷ flags) s = elim (apply_flag f s) [
    | exits n ↦ exits n
    | goes_on s' ↦ parse_options flags s'
  ]

  -- `main`: what `RunServer` is given, the address and the result of `build`, or the exit code.
  unfoldable pub run_arguments : (Text → Option Text) → List Flag → Option (Text × Credentials)
  unfolding parse_options
  run_arguments file flags = elim (parse_options flags first_settings) [
    | exits n ↦ none
    | goes_on s ↦ some (s.bind_addr, build file s.auth)
  ]

-- The value of the last flag that gives one.
abbrev pub last_given {ℓ} : {A : Type ℓ} → (Flag → Option A) → List Flag → A → A
last_given given [] a = a
last_given given (f ∷ flags) a = last_given given flags (elim (given f) [ none ↦ a | some b ↦ b ])

abbrev pub user_of : Flag → Option Text
user_of (username v) = some v
user_of _ = none

abbrev pub password_of : Flag → Option Text
password_of (password v) = some v
password_of _ = none

abbrev pub force_of : Flag → Option Bool
force_of force_insecure = some true
force_of _ = none

-- What the credentials are built from besides the files.
abbrev pub Gives : List Flag → Settings → Settings → Type 0
Gives flags s s' =
    (s'.auth.username ≡ last_given user_of flags s.auth.username)
    × (s'.auth.password ≡ last_given password_of flags s.auth.password)
    × (s'.auth.insecure ≡ last_given force_of flags s.auth.insecure)

Gives-nil : (s s' : Settings) → goes_on s ≡ goes_on s' → Gives [] s s'
Gives-nil s s' h =
    let same : s ≡ s' = cc h in
    (
      sym (ap (λ (x : Settings). x.auth.username) same),
      sym (ap (λ (x : Settings). x.auth.password) same),
      sym (ap (λ (x : Settings). x.auth.insecure) same),
    )

module _ (atoi : Text → ℤ) where
  Gives-set_level :
      (o : Option Severity) (s s' : Settings) → set_level o s ≡ goes_on s' → Gives [] s s'
  unfolding set_level
  Gives-set_level none s s' h = cc
  Gives-set_level (some l) s s' h = Gives-nil (record s { severity = l }) s' h

  -- Each turn sets the field of its flag.
  Gives-apply_flag :
      (f : Flag) (s s' : Settings) → apply_flag atoi f s ≡ goes_on s' → Gives (f ∷ []) s s'
  unfolding apply_flag
  Gives-apply_flag help s s' h = cc
  Gives-apply_flag (other c) s s' h = cc
  Gives-apply_flag (log_level v) s s' h = Gives-set_level (level_severity (atoi v)) s s' h
  Gives-apply_flag (username v) s s' h =
      Gives-nil (record s { auth = record s.auth { username = v } }) s' h
  Gives-apply_flag (password v) s s' h =
      Gives-nil (record s { auth = record s.auth { password = v } }) s' h
  Gives-apply_flag (private_key v) s s' h =
      Gives-nil (record s { auth = record s.auth { private_key_path = v } }) s' h
  Gives-apply_flag (cert v) s s' h =
      Gives-nil (record s { auth = record s.auth { cert_path = v } }) s' h
  Gives-apply_flag (ca v) s s' h =
      Gives-nil (record s { auth = record s.auth { root_cert_path = v } }) s' h
  Gives-apply_flag (bind v) s s' h = Gives-nil (record s { bind_addr = v }) s' h
  Gives-apply_flag force_insecure s s' h =
      Gives-nil (record s { auth = record s.auth { insecure = true } }) s' h

  -- A command line that does not end the process leaves as user name and as password what the last
  -- of its flags for each gives, and as the mark of an insecure server true if a flag forces it;
  -- where no flag gives a value, the one from before stays.
  pub Gives-parse_options :
      (flags : List Flag) (s s' : Settings)
      → parse_options atoi flags s ≡ goes_on s'
      → Gives flags s s'
  unfolding parse_options
  Gives-parse_options [] s s' h = Gives-nil s s' h
  Gives-parse_options (f ∷ flags) s s' h = elim (Outcome-cases (apply_flag atoi f s)) [
    | inl (n, e) ↦ cc (rw (parse_options, e) at h)
    | inr (t, e) ↦
        let one = Gives-apply_flag f s t e in
        let rest = Gives-parse_options flags t s' (rw (parse_options, e) at h) in
        (
          rest.0 ∙ ap (last_given user_of flags) one.0,
          rest.1 ∙ ap (last_given password_of flags) one.1,
          rest.2 ∙ ap (last_given force_of flags) one.2,
        )
  ]
