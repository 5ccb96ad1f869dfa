-- ===== src/TrackerSettings/Options.antt =====
-- What the options of tracker/service.c mean: `parse_opts` against the last option of each kind.
use psnet.Prelude.{
  ℕ, ◌≡◌, refl, ◌∙◌, ap, ap₂, subst, inl, inr, Bool, true, false, ◌&&◌, Bool-cases, arith, Option,
  none, some, List, [], ◌∷◌, ◌==◌, if◌then◌else◌, ℤ, to_int32, sym,
}
use psnet.Libc.{Bytes, strtol}
use psnet.Client.{is_empty}
use psnet.Settings.{
  Opt, takes_threads, takes_port, threads_of, last_of, given, given-some, given-none, is_positive,
}
use psnet.TrackerSettings.{Settings, parse_opt, parse_opts}

-- Whether the tracker takes an option.
unfoldable is_valid : Opt → Bool
is_valid o =
    if o.c == b't'
    then takes_threads o.optarg
    else if o.c == b'l'
    then takes_port o.optarg
    else o.c == b'?'

unfoldable all_valid : List Opt → Bool
unfolding is_valid
all_valid [] = true
all_valid (o ∷ opts) = is_valid o && all_valid opts

-- The settings with the last argument of each option.
unfoldable pub chosen : List Opt → Settings → Settings
unfolding last_of
chosen opts dst = record {
  max_threads = given dst.max_threads threads_of (last_of b't' opts);
  port = given dst.port (λ a. a) (last_of b'l' opts);
}

abbrev answer : List Opt → Settings → Option Settings
answer opts s = if all_valid opts then some s else none

abbrev opt : ℕ → Bytes → Opt
opt c a = record { c = c; optarg = a }

Follows : List Opt → Type 0
Follows opts = (dst : Settings) → parse_opts opts dst ≡ answer opts (chosen opts dst)

parse_opts-threads : (a : Bytes) (opts : List Opt) → Follows opts → Follows (opt b't' a ∷ opts)
unfolding Follows parse_opts parse_opt all_valid is_valid chosen last_of
parse_opts-threads a opts ih dst = elim (Bool-cases (takes_threads a)) [
  | inr n ↦ rw n refl
  | inl y ↦ rw y (
      ih _
      ∙ ap (answer opts) (
          ap₂ (λ m p. record { max_threads = m; port = p })
            (given-some dst.max_threads threads_of (last_of b't' opts) a)
            (given-none dst.port (λ b. b) (last_of b'l' opts))))
]

parse_opts-port : (a : Bytes) (opts : List Opt) → Follows opts → Follows (opt b'l' a ∷ opts)
unfolding Follows parse_opts parse_opt all_valid is_valid chosen last_of
parse_opts-port a opts ih dst = elim (Bool-cases (takes_port a)) [
  | inr n ↦ rw n refl
  | inl y ↦ rw y (
      ih _
      ∙ ap (answer opts) (
          ap₂ (λ m p. record { max_threads = m; port = p })
            (given-none dst.max_threads threads_of (last_of b't' opts))
            (given-some dst.port (λ b. b) (last_of b'l' opts) a)))
]

parse_opts-unknown : (a : Bytes) (opts : List Opt) → Follows opts → Follows (opt b'?' a ∷ opts)
unfolding Follows parse_opts parse_opt all_valid is_valid chosen last_of
parse_opts-unknown a opts ih dst =
    ih dst
    ∙ ap (answer opts) (
        ap₂ (λ m p. record { max_threads = m; port = p })
          (given-none dst.max_threads threads_of (last_of b't' opts))
          (given-none dst.port (λ b. b) (last_of b'l' opts)))

parse_opts-other :
    (c : ℕ) (a : Bytes) (opts : List Opt)
    → (c == b't') ≡ false
    → (c == b'l') ≡ false
    → (c == b'?') ≡ false
    → Follows (opt c a ∷ opts)
unfolding Follows parse_opts parse_opt all_valid is_valid
parse_opts-other c a opts t l u dst = rw (t, l, u) refl

parse_opts-first : (o : Opt) (opts : List Opt) → Follows opts → Follows (o ∷ opts)
parse_opts-first o opts ih = elim (Bool-cases (o.c == b't')) [
  | inl y ↦
      let e : b't' ≡ o.c = ground arith in
      subst (λ k. Follows (opt k o.optarg ∷ opts)) e (parse_opts-threads o.optarg opts ih)
  | inr t ↦ elim (Bool-cases (o.c == b'l')) [
    | inl y ↦
        let e : b'l' ≡ o.c = ground arith in
        subst (λ k. Follows (opt k o.optarg ∷ opts)) e (parse_opts-port o.optarg opts ih)
    | inr l ↦ elim (Bool-cases (o.c == b'?')) [
      | inl y ↦
          let e : b'?' ≡ o.c = ground arith in
          subst (λ k. Follows (opt k o.optarg ∷ opts)) e (parse_opts-unknown o.optarg opts ih)
      | inr u ↦ parse_opts-other o.c o.optarg opts t l u
    ]
  ]
]

parse_opts-Follows : (opts : List Opt) → Follows opts
unfolding Follows parse_opts all_valid chosen last_of
parse_opts-Follows [] dst = refl
parse_opts-Follows (o ∷ opts) dst = parse_opts-first o opts (parse_opts-Follows opts) dst

-- The number that strtol reads, if it reads the whole argument.
abbrev whole : Bytes → Option ℤ
whole a = if is_empty (strtol a).1 then some (strtol a).0 else none

abbrev is_positive_as : (ℤ → ℤ) → Option ℤ → Bool
is_positive_as convert none = false
is_positive_as convert (some v) = is_positive (convert v)

-- Whether an option is to be accepted: `t` with a number of threads, positive as an int, `l` with a
-- positive number, and `?`, an option that getopt_long does not know.
unfoldable pub is_accepted : Opt → Bool
is_accepted o =
    if o.c == b't'
    then is_positive_as to_int32 (whole o.optarg)
    else if o.c == b'l'
    then is_positive_as (λ v. v) (whole o.optarg)
    else o.c == b'?'

unfoldable pub all_accepted : List Opt → Bool
unfolding is_accepted
all_accepted [] = true
all_accepted (o ∷ opts) = is_accepted o && all_accepted opts

positive-whole :
    (convert : ℤ → ℤ) (a : Bytes)
    → (is_positive (convert (strtol a).0) && is_empty (strtol a).1)
      ≡ is_positive_as convert (whole a)
positive-whole convert a = go (is_empty (strtol a).1) (is_positive (convert (strtol a).0)) refl
  where
    go :
        (e b : Bool)
        → is_positive (convert (strtol a).0) ≡ b
        → (b && e) ≡ is_positive_as convert (if e then some (strtol a).0 else none)
    go true true h = sym h
    go true false h = sym h
    go false true h = refl
    go false false h = refl

is_valid-is_accepted : (o : Opt) → is_valid o ≡ is_accepted o
unfolding is_valid is_accepted takes_threads takes_port
is_valid-is_accepted o =
    ap₂ (λ t l. if o.c == b't' then t else if o.c == b'l' then l else o.c == b'?')
      (positive-whole to_int32 o.optarg) (positive-whole (λ v. v) o.optarg)

all_valid-accepted : (opts : List Opt) → all_valid opts ≡ all_accepted opts
unfolding all_valid all_accepted
all_valid-accepted [] = refl
all_valid-accepted (o ∷ opts) =
    ap₂ (λ b c. b && c) (is_valid-is_accepted o) (all_valid-accepted opts)

-- `parse_opts` of the tracker ends the program if one of the characters that getopt_long returns is
-- none of `t`, `l` and `?`, or if the argument of a `t` or an `l` is not taken: strtol is to read all
-- of it, and get a positive number, for `t` after its conversion to an int. An unknown option, `?`, is
-- passed over. Else each setting is as the last option for it says, or as it was if there is none.
pub parse_opts-chosen :
    (opts : List Opt) (dst : Settings)
    → parse_opts opts dst ≡ (if all_accepted opts then some (chosen opts dst) else none)
unfolding Follows
parse_opts-chosen opts dst =
    parse_opts-Follows opts dst
    ∙ ap (λ b. if b then some (chosen opts dst) else none) (all_valid-accepted opts)
