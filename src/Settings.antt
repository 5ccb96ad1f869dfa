-- ===== src/Settings.antt =====
-- What tracker/service.c and router/service.c share in the reading of their settings.
--
-- `getopt_long` is not modelled: an option is what it returns, the character `c` with `optarg`. The
-- entries of the configuration file are what `ini_parse` calls its handler with.
use psnet.Prelude.{
  ℕ, Bool, false, ◌&&◌, Option, none, some, List, [], ◌∷◌, ltb, ◌==◌, if◌then◌else◌, ◌≡◌, refl, ℤ,
  pos, negsuc, to_int32,
}
use psnet.Libc.{Bytes, strtol, atoi}
use psnet.Client.{is_empty}

pub record Opt : Type 0 where
  pub c : ℕ
  pub optarg : Bytes

pub record IniEntry : Type 0 where
  pub section : Bytes
  pub name : Bytes
  pub value : Bytes

-- `!(v < 1)`.
abbrev pub is_positive : ℤ → Bool
is_positive (pos n) = ltb 0 n
is_positive (negsuc n) = false

-- The test of the argument of `--max-threads`, as an int.
unfoldable pub takes_threads : (optarg : Bytes) → Bool
takes_threads optarg = is_positive (to_int32 (strtol optarg).0) && is_empty (strtol optarg).1

-- The test of the argument of `--listen-port` and `--directory-port`, as a long.
unfoldable pub takes_port : (optarg : Bytes) → Bool
takes_port optarg = is_positive (strtol optarg).0 && is_empty (strtol optarg).1

-- `(int) strtol(optarg, &endptr, 10)`.
abbrev pub threads_of : (optarg : Bytes) → ℤ
threads_of optarg = to_int32 (strtol optarg).0

-- `!(val = atoi(value))`.
unfoldable pub is_zero_number : (value : Bytes) → Bool
is_zero_number value = elim (atoi value) [ pos n ↦ n == 0 | negsuc n ↦ false ]

-- The argument of the last option with the character.
abbrev pub latest : (later now : Option Bytes) → Option Bytes
latest (some a) now = some a
latest none now = now

unfoldable pub last_of : (c : ℕ) → List Opt → Option Bytes
last_of c [] = none
last_of c (o ∷ opts) = latest (last_of c opts) (if o.c == c then some o.optarg else none)

-- The value of a setting that an option gives, or the one that it has.
abbrev pub given : {A : Type 0} → (old : A) (read : Bytes → A) → Option Bytes → A
given old read none = old
given old read (some a) = read a

pub given-some :
    {A : Type 0} (old : A) (read : Bytes → A) (later : Option Bytes) (a : Bytes)
    → given (read a) read later ≡ given old read (latest later (some a))
given-some old read none a = refl
given-some old read (some b) a = refl

pub given-none :
    {A : Type 0} (old : A) (read : Bytes → A) (later : Option Bytes)
    → given old read later ≡ given old read (latest later none)
given-none old read none = refl
given-none old read (some b) = refl
