-- ===== src/Tests/Options.antt =====
-- The settings of the two programs at concrete options and entries.
use psnet.Prelude.{ℕ, ◌≡◌, refl, arith, none, some, List, [], ◌∷◌, pos, negate, if◌then◌else◌, true}
use psnet.Libc.{Bytes, text, decimal, strtol}
use psnet.Settings.{Opt, takes_threads, takes_port}
use psnet.TrackerSettings
use psnet.TrackerSettings.Options as TrackerOptions
use psnet.TrackerSettings.Options.{parse_opts-chosen}
use psnet.TrackerSettings.Ini.{max_threads_entry, configure-negative}
use psnet.RouterSettings
use psnet.Server.Sockets.{bound}
use psnet.Startup.{System}

abbrev option : ℕ → Bytes → Opt
option c a = record { c = c; optarg = a }

abbrev two_limits : List Opt
two_limits = option b't' (text "8") ∷ option b'l' (text "7000") ∷ option b't' (text "16") ∷ []

parse_opts-chosen_example : TrackerSettings.parse_opts two_limits TrackerSettings.settings ≡ (
    if TrackerOptions.all_accepted two_limits
    then some (TrackerOptions.chosen two_limits TrackerSettings.settings)
    else none)
parse_opts-chosen_example = parse_opts-chosen two_limits TrackerSettings.settings

two_limits_runs :
    TrackerSettings.parse_opts two_limits TrackerSettings.settings
    ≡ some (record { max_threads = pos 16; port = text "7000" })
unfolding TrackerSettings.parse_opts TrackerSettings.parse_opt takes_threads takes_port strtol
two_limits_runs = refl

configure-negative_example :
    (TrackerSettings.configure (max_threads_entry (b'-' ∷ decimal 5) ∷ []) []
      ≡ some (record { max_threads = negate 5; port = text "6666" }))
    × (TrackerSettings.configure [] (option b't' (b'-' ∷ decimal 5) ∷ []) ≡ none)
configure-negative_example = configure-negative 5 (omega arith) (omega arith)

router_runs :
    RouterSettings.parse_opts (option b'a' (text "localhost") ∷ two_limits) RouterSettings.settings
    ≡ some (record {
      max_threads = pos 16;
      dir_addr = text "localhost";
      dir_port = text "6666";
      listen_port = text "7000";
    })
unfolding RouterSettings.parse_opts RouterSettings.parse_opt takes_threads takes_port strtol
router_runs = refl

-- The name of the tracker does not resolve, and a socket listens.
abbrev no_tracker : System
no_tracker = record {
  created = λ thread. true;
  getaddrinfo = λ host port. none;
  addresses = λ port. some (bound 4 ∷ []);
  listens = true;
}
