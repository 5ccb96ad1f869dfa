-- ===== src/Jsmn/Lookup.antt =====
-- `jsmn_get_value` of common/jsmn.c on the tokens of a document, and a look-up in the document itself.
use psnet.Prelude.{
  ℕ, zero, suc, ◌+◌, ◌<◌, ◌≤◌, ◌≡◌, refl, ◌∙◌, ap, arith, Bool, true, false, Option, none, some,
  List, [], ◌∷◌, ltb, ◌>>=◌, if◌then◌else◌, length,
}
use psnet.Libc.{Bytes}
use psnet.Jsmn.{
  JsmnTok, is_string, from, starts_with, next_key, get_value_loop, jsmn_get_value, tok_at,
}
use psnet.Jsmn.Tree.{
  Value, primitive, string, array, object, Values, nil, cons, count, root, tokens, all_tokens,
  inside, all_inside, skip_value-tokens, count-all_tokens, tokens-root,
}

-- The value of the first key that begins with `key`, among keys and values in turn, with its index
-- when the first key has the index `i`. A key that is no string ends the search.
unfoldable pub field : (msg key : Bytes) (i : ℕ) → Values → Option (ℕ × Value)
field msg key i (cons k (cons v vs)) =
    if is_string (root k).kind
    then if starts_with (from (root k).start msg) key
      then some (i + 1, v)
      else field msg key (i + 2 + inside v) vs
    else none
field msg key i _ = none

abbrev pub index : Option (ℕ × Value) → Option ℕ
index none = none
index (some r) = some (r.0)

next_key-tokens :
    (v : Value) (more : List JsmnTok) (i n : ℕ)
    → next_key (tokens v more) i n ≡ some (i + suc (inside v), n + inside v, more)
unfolding next_key tokens inside
next_key-tokens (primitive s e) more i n =
    let h : n ≡ n + 0 = omega arith in ap (λ m. some (i + 1, m, more)) h
next_key-tokens (string s e) more i n =
    let h : n ≡ n + 0 = omega arith in ap (λ m. some (i + 1, m, more)) h
next_key-tokens (array s e vs) more i n = skip_value-tokens (array s e vs) more i n
next_key-tokens (object s e vs) more i n = skip_value-tokens (object s e vs) more i n

get_value_loop-end :
    (fuel : ℕ) (msg key : Bytes) (rest : List JsmnTok) (i n : ℕ)
    → n ≤ i + 1
    → get_value_loop (suc fuel) msg rest i n key ≡ some none
unfolding get_value_loop
get_value_loop-end fuel msg key [] i n h = let b : ltb (i + 1) n ≡ false = ground arith in rw b refl
get_value_loop-end fuel msg key (t ∷ rest) i n h =
    let b : ltb (i + 1) n ≡ false = ground arith in rw b refl

index-if :
    (b : Bool) (again : Option (Option ℕ)) (x y : Option (ℕ × Value))
    → again ≡ some (index y)
    → (if b then some (index x) else again) ≡ some (index (if b then x else y))
index-if true again x y h = refl
index-if false again x y h = h

get_value_loop-field :
    (vs : Values) (fuel : ℕ) (msg key : Bytes) (more : List JsmnTok) (i n : ℕ)
    → count vs < fuel
    → n ≡ i + count vs
    → get_value_loop fuel msg (all_tokens vs more) i n key ≡ some (index (field msg key i vs))
unfolding get_value_loop field tokens
get_value_loop-field vs zero msg key more i n f h = absurd (omega arith)
get_value_loop-field nil (suc fuel) msg key more i n f h =
    get_value_loop-end fuel msg key more i n (omega arith)
get_value_loop-field (cons k nil) (suc fuel) msg key more i n f h =
    get_value_loop-end fuel msg key (tokens k more) i n (omega arith)
get_value_loop-field (cons (string s e) (cons v vs)) (suc fuel) msg key more i n f h =
    let b : ltb (i + 1) n ≡ true = ground arith in
    let again : (next_key (tokens v (all_tokens vs more)) (i + 1) n >>= λ r.
    get_value_loop fuel msg r.2 r.0 r.1 key)
        ≡ some (index (field msg key (i + 2 + inside v) vs)) =
      rw next_key-tokens (
        get_value_loop-field vs fuel msg key more _ _ (omega arith) (omega arith)
        ∙ ap (λ j. some (index (field msg key j vs))) (omega arith)) in
    rw b (index-if _ _ _ _ again)
get_value_loop-field (cons (primitive s e) (cons v vs)) (suc fuel) msg key more i n f h =
    let b : ltb (i + 1) n ≡ true = ground arith in rw b refl
get_value_loop-field (cons (array s e ws) (cons v vs)) (suc fuel) msg key more i n f h =
    let b : ltb (i + 1) n ≡ true = ground arith in rw b refl
get_value_loop-field (cons (object s e ws) (cons v vs)) (suc fuel) msg key more i n f h =
    let b : ltb (i + 1) n ≡ true = ground arith in rw b refl

-- The tokens from the index `i` on.
abbrev pub tokens_from : ℕ → List JsmnTok → List JsmnTok
tokens_from zero l = l
tokens_from (suc i) [] = []
tokens_from (suc i) (t ∷ l) = tokens_from i l

abbrev behind_first : List JsmnTok → List JsmnTok
behind_first [] = []
behind_first (t ∷ l) = l

tokens_from-suc :
    (i : ℕ) (l : List JsmnTok) → tokens_from (suc i) l ≡ behind_first (tokens_from i l)
tokens_from-suc zero [] = refl
tokens_from-suc zero (t ∷ l) = refl
tokens_from-suc (suc i) [] = refl
tokens_from-suc (suc i) (t ∷ l) = tokens_from-suc i l

tokens_from-next :
    (i : ℕ) (l rest : List JsmnTok) (t : JsmnTok)
    → tokens_from i l ≡ t ∷ rest
    → tokens_from (i + 1) l ≡ rest
tokens_from-next i l rest t h =
    let e : i + 1 ≡ suc i = omega arith in
    ap (λ j. tokens_from j l) e ∙ tokens_from-suc i l ∙ ap behind_first h

-- What is found in the document stands at its index among the tokens.
abbrev pub IsPlace : List JsmnTok → Option (ℕ × Value) → Type 0
IsPlace l none = Unit
IsPlace l (some (i, v)) = (more : List JsmnTok) × (tokens_from i l ≡ tokens v more)

mutual
  unfolding tokens inside

  tokens_from-one :
      (v : Value) (i : ℕ) (l more : List JsmnTok)
      → tokens_from i l ≡ tokens v more
      → tokens_from (i + suc (inside v)) l ≡ more
  tokens_from-one (primitive s e) i l more h = tokens_from-next i l more _ h
  tokens_from-one (string s e) i l more h = tokens_from-next i l more _ h
  tokens_from-one (array s e vs) i l more h =
      ap (λ j. tokens_from j l) (omega arith)
      ∙ tokens_from-all vs (i + 1) l more (tokens_from-next i l _ _ h)
  tokens_from-one (object s e vs) i l more h =
      ap (λ j. tokens_from j l) (omega arith)
      ∙ tokens_from-all vs (i + 1) l more (tokens_from-next i l _ _ h)

  tokens_from-all :
      (vs : Values) (i : ℕ) (l more : List JsmnTok)
      → tokens_from i l ≡ all_tokens vs more
      → tokens_from (i + (count vs + all_inside vs)) l ≡ more
  tokens_from-all nil i l more h =
      let e : i + (0 + 0) ≡ i = omega arith in ap (λ j. tokens_from j l) e ∙ h
  tokens_from-all (cons v vs) i l more h =
      ap (λ j. tokens_from j l) (omega arith)
      ∙ tokens_from-all vs (i + suc (inside v)) l more
          (tokens_from-one v i l (all_tokens vs more) h)

IsPlace-if :
    (l : List JsmnTok) (b : Bool) (x y : Option (ℕ × Value))
    → IsPlace l x
    → IsPlace l y
    → IsPlace l (if b then x else y)
IsPlace-if l true x y p q = p
IsPlace-if l false x y p q = q

field-IsPlace :
    (vs : Values) (msg key : Bytes) (i : ℕ) (l more : List JsmnTok)
    → tokens_from i l ≡ all_tokens vs more
    → IsPlace l (field msg key i vs)
unfolding field tokens
field-IsPlace nil msg key i l more h = tt
field-IsPlace (cons k nil) msg key i l more h = tt
field-IsPlace (cons (string s e) (cons v vs)) msg key i l more h =
    let at_value = tokens_from-next i l _ _ h in
    let at_rest = tokens_from-one v (i + 1) l (all_tokens vs more) at_value in
    IsPlace-if l _ (some (i + 1, v)) _ (all_tokens vs more, at_value)
      (field-IsPlace vs msg key (i + 2 + inside v) l more
        (ap (λ j. tokens_from j l) (omega arith) ∙ at_rest))
field-IsPlace (cons (primitive s e) (cons v vs)) msg key i l more h = tt
field-IsPlace (cons (array s e ws) (cons v vs)) msg key i l more h = tt
field-IsPlace (cons (object s e ws) (cons v vs)) msg key i l more h = tt

-- On the tokens of an object with the values `vs`, whatever stands behind them, `jsmn_get_value`
-- never reads beyond the tokens: it returns the index of the value of the first key that begins
-- with `key`, where the tokens of this value stand, or -1 if no key does, if a key in front of it
-- is no string, or if the last key has no value.
pub jsmn_get_value-field :
    (msg key : Bytes) (start end : ℕ) (vs : Values) (more : List JsmnTok)
    → (jsmn_get_value msg (tokens (object start end vs) more) key
        ≡ some (index (field msg key 1 vs)))
      × IsPlace (tokens (object start end vs) more) (field msg key 1 vs)
unfolding jsmn_get_value tokens
jsmn_get_value-field msg key start end vs more = (
  get_value_loop-field vs (suc (length (all_tokens vs more))) msg key more 1 (count vs + 1)
      (omega (arith, count-all_tokens vs more)) (omega arith),
  field-IsPlace vs msg key 1 (tokens (object start end vs) more) more refl,
)

abbrev first_of : List JsmnTok → Option JsmnTok
first_of [] = none
first_of (t ∷ l) = some t

tok_at-first_of : (i : ℕ) (l : List JsmnTok) → tok_at l i ≡ first_of (tokens_from i l)
unfolding tok_at
tok_at-first_of zero [] = refl
tok_at-first_of zero (t ∷ l) = refl
tok_at-first_of (suc i) [] = refl
tok_at-first_of (suc i) (t ∷ l) = tok_at-first_of i l

-- The token at the index of a value is the value's own.
pub tok_at-root :
    (i : ℕ) (v : Value) (l more : List JsmnTok)
    → tokens_from i l ≡ tokens v more
    → tok_at l i ≡ some (root v)
tok_at-root i v l more h = tok_at-first_of i l ∙ ap first_of h ∙ ap first_of (tokens-root v more).1
