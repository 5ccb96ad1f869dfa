-- ===== src/TrackerSettings.antt =====
-- tracker/service.c: the settings, from the configuration file and the options.
--
-- The messages that ini_handler prints are left out; it returns 1 in any case.
pub mod Ini
pub mod Options
use psnet.Prelude.{ℕ, Option, none, some, List, [], ◌∷◌, ◌==◌, ◌>>=◌, if◌then◌else◌, ℤ, pos}
use psnet.Libc.{Bytes, text, bytes_eq, atoi}
use psnet.Settings.{Opt, IniEntry, takes_threads, takes_port, threads_of, is_zero_number}

pub record Settings : Type 0 where
  pub max_threads : ℤ
  pub port : Bytes

abbrev pub settings : Settings
settings = record { max_threads = pos 1000; port = text "6666" }

unfoldable pub ini_handler : IniEntry → Settings → Settings
unfolding bytes_eq is_zero_number
ini_handler e s =
    if bytes_eq e.section (text "Tracker")
    then if bytes_eq e.name (text "listen-port")
      then if is_zero_number e.value
        then s
        else record { max_threads = s.max_threads; port = e.value }
      else if bytes_eq e.name (text "max-threads")
      then if is_zero_number e.value
        then s
        else record { max_threads = atoi e.value; port = s.port }
      else s
    else s

-- The switch of `parse_opts`; `none` is the end of the program in `usage`.
unfoldable pub parse_opt : Opt → (dst : Settings) → Option Settings
unfolding takes_threads takes_port
parse_opt o dst =
    if o.c == b't'
    then if takes_threads o.optarg
      then some (record { max_threads = threads_of o.optarg; port = dst.port })
      else none
    else if o.c == b'l'
    then if takes_port o.optarg
      then some (record { max_threads = dst.max_threads; port = o.optarg })
      else none
    else if o.c == b'?'
    then some dst
    else none

unfoldable pub parse_opts : List Opt → (dst : Settings) → Option Settings
unfolding parse_opt
parse_opts [] dst = some dst
parse_opts (o ∷ opts) dst = parse_opt o dst >>= parse_opts opts

-- `ini_parse` with its handler.
unfoldable pub read_ini : List IniEntry → Settings → Settings
unfolding ini_handler
read_ini [] s = s
read_ini (e ∷ entries) s = read_ini entries (ini_handler e s)

-- The settings with which `main` starts the servers.
unfoldable pub configure : List IniEntry → List Opt → Option Settings
unfolding read_ini parse_opts
configure entries opts = parse_opts opts (read_ini entries settings)
