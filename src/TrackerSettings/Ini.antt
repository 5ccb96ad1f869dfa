-- ===== src/TrackerSettings/Ini.antt =====
-- What the configuration file can make of the settings of the tracker (ini_handler of
-- tracker/service.c), where the options would not.
use psnet.Prelude.{
  ℕ, ◌-◌, ◌^◌, ◌<◌, ◌≤◌, ◌≡◌, refl, ◌∙◌, ap, arith, true, false, none, some, [], ◌∷◌, ltb, negsuc,
  negate, to_int32,
}
use psnet.Libc.{Bytes, text, decimal, bytes_eq, atoi}
use psnet.Libc.Digits.{strtol-decimal_negative, to_int32-negate}
use psnet.Settings.{IniEntry, is_zero_number, takes_threads}
use psnet.TrackerSettings.{ini_handler, read_ini, parse_opt, parse_opts, configure}

abbrev pub max_threads_entry : Bytes → IniEntry
max_threads_entry v = record { section = text "Tracker"; name = text "max-threads"; value = v }

atoi-negative : (n : ℕ) → 0 < n → n ≤ 2 ^ 31 → atoi (b'-' ∷ decimal n) ≡ negate n
atoi-negative n h k =
    ap (λ r. to_int32 r.0) (strtol-decimal_negative n (omega arith)) ∙ to_int32-negate n h k

negate-negsuc : (n : ℕ) → 0 < n → negate n ≡ negsuc (n - 1)
negate-negsuc n h = let b : ltb 0 n ≡ true = ground arith in rw b refl

is_zero_number-negative : (n : ℕ) → 0 < n → n ≤ 2 ^ 31 → is_zero_number (b'-' ∷ decimal n) ≡ false
unfolding is_zero_number
is_zero_number-negative n h k = rw (is_zero_number, atoi-negative n h k ∙ negate-negsuc n h) refl

-- The tracker takes a negative number of threads from its configuration file, which it would not
-- take as an option.
pub configure-negative :
    (n : ℕ)
    → 0 < n
    → n ≤ 2 ^ 31
    → (configure (max_threads_entry (b'-' ∷ decimal n) ∷ []) []
        ≡ some (record { max_threads = negate n; port = text "6666" }))
      × (configure [] (record { c = b't'; optarg = b'-' ∷ decimal n } ∷ []) ≡ none)
unfolding configure read_ini parse_opts parse_opt ini_handler bytes_eq takes_threads
configure-negative n h k = (
  rw (is_zero_number-negative n h k)
      (ap (λ v. some (record { max_threads = v; port = text "6666" })) (atoi-negative n h k)),
  rw (atoi-negative n h k ∙ negate-negsuc n h) refl,
)
