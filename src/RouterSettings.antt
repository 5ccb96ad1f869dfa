-- ===== src/RouterSettings.antt =====
-- router/service.c: the settings, from the configuration file and the options.
--
-- The messages that ini_handler prints are left out; it returns 1 in any case.
pub mod Options
use psnet.Prelude.{ℕ, Option, none, some, List, [], ◌∷◌, ◌==◌, ◌>>=◌, if◌then◌else◌, ℤ, pos}
use psnet.Libc.{Bytes, text, bytes_eq, atoi}
use psnet.Settings.{Opt, IniEntry, takes_threads, takes_port, threads_of, is_zero_number}

pub record Settings : Type 0 where
  pub max_threads : ℤ
  pub dir_addr : Bytes
  pub dir_port : Bytes
  pub listen_port : Bytes

abbrev pub settings : Settings
settings = record {
  max_threads = pos 1000;
  dir_addr = text "psnet.no-ip.biz";
  dir_port = text "6666";
  listen_port = text "5555";
}

abbrev pub with_threads : ℤ → Settings → Settings
with_threads v s = record {
  max_threads = v;
  dir_addr = s.dir_addr;
  dir_port = s.dir_port;
  listen_port = s.listen_port;
}

abbrev pub with_dir_addr : Bytes → Settings → Settings
with_dir_addr a s = record {
  max_threads = s.max_threads;
  dir_addr = a;
  dir_port = s.dir_port;
  listen_port = s.listen_port;
}

abbrev pub with_dir_port : Bytes → Settings → Settings
with_dir_port p s = record {
  max_threads = s.max_threads;
  dir_addr = s.dir_addr;
  dir_port = p;
  listen_port = s.listen_port;
}

abbrev pub with_listen_port : Bytes → Settings → Settings
with_listen_port p s = record {
  max_threads = s.max_threads;
  dir_addr = s.dir_addr;
  dir_port = s.dir_port;
  listen_port = p;
}

unfoldable pub ini_handler : IniEntry → Settings → Settings
unfolding bytes_eq is_zero_number
ini_handler e s =
    if bytes_eq e.section (text "Router")
    then if bytes_eq e.name (text "directory-address")
      then with_dir_addr e.value s
      else if bytes_eq e.name (text "directory-port")
      then if is_zero_number e.value then s else with_dir_port e.value s
      else if bytes_eq e.name (text "listen-port")
      then if is_zero_number e.value then s else with_listen_port e.value s
      else if bytes_eq e.name (text "max-threads")
      then if is_zero_number e.value then s else with_threads (atoi e.value) s
      else s
    else s

-- The switch of `parse_opts`; `none` is the end of the program in `usage`.
unfoldable pub parse_opt : Opt → (dst : Settings) → Option Settings
unfolding takes_threads takes_port
parse_opt o dst =
    if o.c == b't'
    then if takes_threads o.optarg then some (with_threads (threads_of o.optarg) dst) else none
    else if o.c == b'l'
    then if takes_port o.optarg then some (with_listen_port o.optarg dst) else none
    else if o.c == b'a'
    then some (with_dir_addr o.optarg dst)
    else if o.c == b'p'
    then if takes_port o.optarg then some (with_dir_port o.optarg dst) else none
    else if o.c == b'?'
    then some dst
    else none

unfoldable pub parse_opts : List Opt → (dst : Settings) → Option Settings
unfolding parse_opt
parse_opts [] dst = some dst
parse_opts (o ∷ opts) dst = parse_opt o dst >>= parse_opts opts

-- `ini_parse` with its handler.
unfoldable pub read_ini : List IniEntry → Settings → Settings
unfolding ini_handler
read_ini [] s = s
read_ini (e ∷ entries) s = read_ini entries (ini_handler e s)

-- The settings with which `main` starts the servers.
unfoldable pub configure : List IniEntry → List Opt → Option Settings
unfolding read_ini parse_opts
configure entries opts = parse_opts opts (read_ini entries settings)
