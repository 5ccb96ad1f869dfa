-- ===== src/RouterSettings/Options.antt =====
-- What the options of router/service.c mean: `parse_opts` against the last option of each kind.
use psnet.Prelude.{
  ℕ, ◌≡◌, refl, ◌∙◌, subst, inl, inr, Bool, true, false, ◌&&◌, Bool-cases, arith, Option, none,
  some, List, [], ◌∷◌, ◌==◌, if◌then◌else◌,
}
use psnet.Libc.{Bytes}
use psnet.Settings.{
  Opt, takes_threads, takes_port, threads_of, last_of, given, given-some, given-none,
}
use psnet.RouterSettings.{Settings, parse_opt, parse_opts}

-- Whether the router takes an option.
unfoldable pub is_valid : Opt → Bool
is_valid o =
    if o.c == b't'
    then takes_threads o.optarg
    else if o.c == b'l'
    then takes_port o.optarg
    else if o.c == b'a'
    then true
    else if o.c == b'p'
    then takes_port o.optarg
    else o.c == b'?'

unfoldable pub all_valid : List Opt → Bool
unfolding is_valid
all_valid [] = true
all_valid (o ∷ opts) = is_valid o && all_valid opts

-- The settings with the last argument of each option.
unfoldable pub chosen : List Opt → Settings → Settings
unfolding last_of
chosen opts dst = record {
  max_threads = given dst.max_threads threads_of (last_of b't' opts);
  dir_addr = given dst.dir_addr (λ a. a) (last_of b'a' opts);
  dir_port = given dst.dir_port (λ a. a) (last_of b'p' opts);
  listen_port = given dst.listen_port (λ a. a) (last_of b'l' opts);
}

abbrev answer : List Opt → Settings → Option Settings
answer opts s = if all_valid opts then some s else none

abbrev opt : ℕ → Bytes → Opt
opt c a = record { c = c; optarg = a }

Follows : List Opt → Type 0
Follows opts = (dst : Settings) → parse_opts opts dst ≡ answer opts (chosen opts dst)

parse_opts-threads : (a : Bytes) (opts : List Opt) → Follows opts → Follows (opt b't' a ∷ opts)
unfolding Follows parse_opts parse_opt all_valid is_valid chosen last_of
parse_opts-threads a opts ih dst = elim (Bool-cases (takes_threads a)) [
  | inr n ↦ rw n refl
  | inl y ↦ rw y (
      ih _ ∙ (λ i. answer opts (record {
        max_threads = given-some dst.max_threads threads_of (last_of b't' opts) a i;
        dir_addr = given-none dst.dir_addr (λ b. b) (last_of b'a' opts) i;
        dir_port = given-none dst.dir_port (λ b. b) (last_of b'p' opts) i;
        listen_port = given-none dst.listen_port (λ b. b) (last_of b'l' opts) i;
      })))
]

parse_opts-listen_port : (a : Bytes) (opts : List Opt) → Follows opts → Follows (opt b'l' a ∷ opts)
unfolding Follows parse_opts parse_opt all_valid is_valid chosen last_of
parse_opts-listen_port a opts ih dst = elim (Bool-cases (takes_port a)) [
  | inr n ↦ rw n refl
  | inl y ↦ rw y (
      ih _ ∙ (λ i. answer opts (record {
        max_threads = given-none dst.max_threads threads_of (last_of b't' opts) i;
        dir_addr = given-none dst.dir_addr (λ b. b) (last_of b'a' opts) i;
        dir_port = given-none dst.dir_port (λ b. b) (last_of b'p' opts) i;
        listen_port = given-some dst.listen_port (λ b. b) (last_of b'l' opts) a i;
      })))
]

parse_opts-dir_addr : (a : Bytes) (opts : List Opt) → Follows opts → Follows (opt b'a' a ∷ opts)
unfolding Follows parse_opts parse_opt all_valid is_valid chosen last_of
parse_opts-dir_addr a opts ih dst = ih _ ∙ (λ i. answer opts (record {
  max_threads = given-none dst.max_threads threads_of (last_of b't' opts) i;
  dir_addr = given-some dst.dir_addr (λ b. b) (last_of b'a' opts) a i;
  dir_port = given-none dst.dir_port (λ b. b) (last_of b'p' opts) i;
  listen_port = given-none dst.listen_port (λ b. b) (last_of b'l' opts) i;
}))

parse_opts-dir_port : (a : Bytes) (opts : List Opt) → Follows opts → Follows (opt b'p' a ∷ opts)
unfolding Follows parse_opts parse_opt all_valid is_valid chosen last_of
parse_opts-dir_port a opts ih dst = elim (Bool-cases (takes_port a)) [
  | inr n ↦ rw n refl
  | inl y ↦ rw y (
      ih _ ∙ (λ i. answer opts (record {
        max_threads = given-none dst.max_threads threads_of (last_of b't' opts) i;
        dir_addr = given-none dst.dir_addr (λ b. b) (last_of b'a' opts) i;
        dir_port = given-some dst.dir_port (λ b. b) (last_of b'p' opts) a i;
        listen_port = given-none dst.listen_port (λ b. b) (last_of b'l' opts) i;
      })))
]

parse_opts-unknown : (a : Bytes) (opts : List Opt) → Follows opts → Follows (opt b'?' a ∷ opts)
unfolding Follows parse_opts parse_opt all_valid is_valid chosen last_of
parse_opts-unknown a opts ih dst = ih _ ∙ (λ i. answer opts (record {
  max_threads = given-none dst.max_threads threads_of (last_of b't' opts) i;
  dir_addr = given-none dst.dir_addr (λ b. b) (last_of b'a' opts) i;
  dir_port = given-none dst.dir_port (λ b. b) (last_of b'p' opts) i;
  listen_port = given-none dst.listen_port (λ b. b) (last_of b'l' opts) i;
}))

parse_opts-other :
    (c : ℕ) (a : Bytes) (opts : List Opt)
    → (c == b't') ≡ false
    → (c == b'l') ≡ false
    → (c == b'a') ≡ false
    → (c == b'p') ≡ false
    → (c == b'?') ≡ false
    → Follows (opt c a ∷ opts)
unfolding Follows parse_opts parse_opt all_valid is_valid
parse_opts-other c a opts t l d p u dst = rw (t, l, d, p, u) refl

parse_opts-first : (o : Opt) (opts : List Opt) → Follows opts → Follows (o ∷ opts)
parse_opts-first o opts ih = elim (Bool-cases (o.c == b't')) [
  | inl y ↦
      let e : b't' ≡ o.c = ground arith in
      subst (λ k. Follows (opt k o.optarg ∷ opts)) e (parse_opts-threads o.optarg opts ih)
  | inr t ↦ elim (Bool-cases (o.c == b'l')) [
    | inl y ↦
        let e : b'l' ≡ o.c = ground arith in
        subst (λ k. Follows (opt k o.optarg ∷ opts)) e (parse_opts-listen_port o.optarg opts ih)
    | inr l ↦ elim (Bool-cases (o.c == b'a')) [
      | inl y ↦
          let e : b'a' ≡ o.c = ground arith in
          subst (λ k. Follows (opt k o.optarg ∷ opts)) e (parse_opts-dir_addr o.optarg opts ih)
      | inr d ↦ elim (Bool-cases (o.c == b'p')) [
        | inl y ↦
            let e : b'p' ≡ o.c = ground arith in
            subst (λ k. Follows (opt k o.optarg ∷ opts)) e (parse_opts-dir_port o.optarg opts ih)
        | inr p ↦ elim (Bool-cases (o.c == b'?')) [
          | inl y ↦
              let e : b'?' ≡ o.c = ground arith in
              subst (λ k. Follows (opt k o.optarg ∷ opts)) e (parse_opts-unknown o.optarg opts ih)
          | inr u ↦ parse_opts-other o.c o.optarg opts t l d p u
        ]
      ]
    ]
  ]
]

parse_opts-Follows : (opts : List Opt) → Follows opts
unfolding Follows parse_opts all_valid chosen last_of
parse_opts-Follows [] dst = refl
parse_opts-Follows (o ∷ opts) dst = parse_opts-first o opts (parse_opts-Follows opts) dst

-- `parse_opts` of the router ends the program if one of the options is unknown or has an argument
-- that is to be a whole positive number and is not; and else each setting is as the last option for
-- it says, or as it was if there is none.
pub parse_opts-last :
    (opts : List Opt) (dst : Settings)
    → parse_opts opts dst ≡ (if all_valid opts then some (chosen opts dst) else none)
unfolding Follows
parse_opts-last opts dst = parse_opts-Follows opts dst
