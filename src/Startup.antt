-- ===== src/Startup.antt =====
-- What src/main.cpp prints: the usage, and the lines of `RunServer` around the start of the gRPC
-- server, which is a parameter, as is gRPC's version.
use psc_mock_server.Prelude.{Bool, true, false, none, some, List, [], ◌∷◌, ◌++◌, if◌then◌else◌}
use psc_mock_server.Prelude.Texts.{Text, codes}
use psc_mock_server.Utils.{find_byte}

-- A line on `cout` or on `cerr`.
pub data Line : Type 0 where
  out err : Text → Line

-- The characters `\t` and `\n`.
abbrev tab : Text
tab = 9 ∷ []

abbrev newline : Text
newline = 10 ∷ []

-- An option and its explanation, `tabs` apart.
abbrev option_line : Text → Text → Text → Text
option_line option tabs says = tab ++ option ++ tabs ++ says ++ newline

abbrev detail_line : Text → Text
detail_line says = tab ++ tab ++ says ++ newline

unfoldable pub show_usage : Text → Line
show_usage name = err (
    codes "Usage: "
    ++ name
    ++ codes " <option(s)>"
    ++ newline
    ++ codes "Options:"
    ++ newline
    ++ option_line (codes "-h,--help") (tab ++ tab ++ tab) (codes "Show this help message")
    ++ option_line (codes "-u,--username USERNAME") (tab ++ tab)
        (codes "Define connection username")
    ++ option_line (codes "-p,--password PASSWORD") (tab ++ tab)
        (codes "Define connection password")
    ++ option_line (codes "-f,--force-insecure") (tab ++ tab)
        (codes "No TLS connection, no password authentication")
    ++ option_line (codes "-k,--private-key PRIVATE_KEY") tab
        (codes "path to server TLS private key")
    ++ option_line (codes "-c,--cert CERTIFICATE") tab (codes "path to server TLS certificate")
    ++ option_line (codes "-r,--ca CERTIFICATE") tab
        (codes "path to root certificate/CA certificate")
    ++ option_line (codes "-l,--log-level LOG_LEVEL") tab (codes "Log level")
    ++ detail_line (codes " 0 = all logging turned off")
    ++ detail_line (codes " 1 = log only error messages")
    ++ detail_line (codes " 2 = (default) log error and warning messages")
    ++ detail_line (codes " 3 = log error, warning and informational messages")
    ++ detail_line (codes " 4 = log everything, including development debug messages")
    ++ option_line (codes "-b,--bind URI") (tab ++ tab ++ tab) (codes "Bind to an URI")
    ++ detail_line (codes " URI = PREFIX://IP:PORT")
    ++ detail_line (codes " URI = IP:PORT, default to dns:// prefix")
    ++ detail_line (codes " URI = IP, default to dns:// prefix and port 443")
    ++ newline)

-- `bind_addr.find(":")` decides whether the default port is named.
unfoldable pub listening : Text → Text
unfolding find_byte
listening bind_addr = elim (find_byte b':' bind_addr) [
  | none ↦ codes "Server listening on " ++ bind_addr ++ codes ":443"
  | some i ↦ codes "Server listening on " ++ bind_addr
]

-- What `RunServer` prints, and whether it waits for the server; `starts` is whether
-- `BuildAndStart` gives a server.
unfoldable pub run_server : Text → (Text → Bool) → Text → List Line × Bool
unfolding listening
run_server version starts bind_addr =
    if starts bind_addr
    then (out (codes "Using grpc " ++ version) ∷ out (listening bind_addr) ∷ [], true)
    else (
      out (codes "Using grpc " ++ version)
          ∷ err (codes "Failed to start server on " ++ bind_addr)
          ∷ [],
      false,
    )
