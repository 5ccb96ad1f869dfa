-- ===== src/Jsmn/Tree.antt =====
-- JSON documents as trees, and the tokens that the parser documents for them: each value in front of
-- those inside it, with the number of these as its size. An object holds its keys and values in turn.
--
-- `skip_value`, the loop of common/jsmn.c that jumps over a value, on the tokens of a tree.
use psnet.Prelude.{ℕ, suc, ◌+◌, ◌≤◌, ◌<◌, ◌≡◌, refl, ◌∙◌, arith, some, List, ◌∷◌, length}
use psnet.Jsmn.{JsmnType, jsmn_primitive, jsmn_object, jsmn_array, jsmn_string, JsmnTok, skip_value}

mutual
  pub data Value : Type 0 where
    primitive : (start end : ℕ) → Value
    string : (start end : ℕ) → Value
    array : (start end : ℕ) → Values → Value
    object : (start end : ℕ) → Values → Value

  pub data Values : Type 0 where
    nil : Values
    cons : Value → Values → Values

abbrev pub count : Values → ℕ
count nil = 0
count (cons v vs) = suc (count vs)

abbrev token : JsmnType → (start end size : ℕ) → JsmnTok
token kind start end size = record { kind = kind; start = start; end = end; size = size }

-- The token of the value itself.
abbrev pub root : Value → JsmnTok
root (primitive s e) = token jsmn_primitive s e 0
root (string s e) = token jsmn_string s e 0
root (array s e vs) = token jsmn_array s e (count vs)
root (object s e vs) = token jsmn_object s e (count vs)

-- The tokens of a value, and of some values, in front of `more`.
unfoldable mutual
  pub tokens : Value → List JsmnTok → List JsmnTok
  tokens (primitive s e) more = root (primitive s e) ∷ more
  tokens (string s e) more = root (string s e) ∷ more
  tokens (array s e vs) more = root (array s e vs) ∷ all_tokens vs more
  tokens (object s e vs) more = root (object s e vs) ∷ all_tokens vs more

  pub all_tokens : Values → List JsmnTok → List JsmnTok
  all_tokens nil more = more
  all_tokens (cons v vs) more = tokens v (all_tokens vs more)

-- How many values are inside a value, and inside some values.
unfoldable mutual
  pub inside : Value → ℕ
  inside (primitive s e) = 0
  inside (string s e) = 0
  inside (array s e vs) = count vs + all_inside vs
  inside (object s e vs) = count vs + all_inside vs

  pub all_inside : Values → ℕ
  all_inside nil = 0
  all_inside (cons v vs) = inside v + all_inside vs

skip_value-ap :
    {end end' i i' n n' : ℕ} (rest : List JsmnTok)
    → end ≡ end'
    → i ≡ i'
    → n ≡ n'
    → skip_value rest end i n ≡ skip_value rest end' i' n'
skip_value-ap rest h k m = cc (h, k, m)

mutual
  unfolding tokens inside skip_value

  skip_value-one :
      (v : Value) (more : List JsmnTok) (end i n : ℕ)
      → skip_value (tokens v more) (suc end) i n
        ≡ skip_value more end (i + suc (inside v)) (n + inside v)
  skip_value-one (primitive s e) more end i n =
      skip_value-ap more (omega arith) (omega arith) (omega arith)
  skip_value-one (string s e) more end i n =
      skip_value-ap more (omega arith) (omega arith) (omega arith)
  skip_value-one (array s e vs) more end i n =
      skip_value-all vs more end (i + 1) (n + count vs)
      ∙ skip_value-ap more refl (omega arith) (omega arith)
  skip_value-one (object s e vs) more end i n =
      skip_value-all vs more end (i + 1) (n + count vs)
      ∙ skip_value-ap more refl (omega arith) (omega arith)

  skip_value-all :
      (vs : Values) (more : List JsmnTok) (end i n : ℕ)
      → skip_value (all_tokens vs more) (end + count vs) i n
        ≡ skip_value more end (i + (count vs + all_inside vs)) (n + all_inside vs)
  skip_value-all nil more end i n = skip_value-ap more (omega arith) (omega arith) (omega arith)
  skip_value-all (cons v vs) more end i n =
      skip_value-ap {end' = suc (end + count vs)} (tokens v (all_tokens vs more)) (omega arith) refl
        refl
      ∙ skip_value-one v (all_tokens vs more) (end + count vs) i n
      ∙ skip_value-all vs more end (i + suc (inside v)) (n + inside v)
      ∙ skip_value-ap more refl (omega arith) (omega arith)

-- The loop over a value ends behind its tokens, and has counted what is inside it.
pub skip_value-tokens :
    (v : Value) (more : List JsmnTok) (i n : ℕ)
    → skip_value (tokens v more) 1 i n ≡ some (i + suc (inside v), n + inside v, more)
unfolding skip_value
skip_value-tokens v more i n = skip_value-one v more 0 i n

mutual
  unfolding tokens

  length-tokens : (v : Value) (more : List JsmnTok) → length more < length (tokens v more)
  length-tokens (primitive s e) more = omega arith
  length-tokens (string s e) more = omega arith
  length-tokens (array s e vs) more = omega (arith, length-all_tokens vs more)
  length-tokens (object s e vs) more = omega (arith, length-all_tokens vs more)

  length-all_tokens :
      (vs : Values) (more : List JsmnTok) → count vs + length more ≤ length (all_tokens vs more)
  length-all_tokens nil more = omega arith
  length-all_tokens (cons v vs) more =
      omega (arith, length-all_tokens vs more, length-tokens v (all_tokens vs more))

pub count-all_tokens : (vs : Values) (more : List JsmnTok) → count vs ≤ length (all_tokens vs more)
count-all_tokens vs more = omega (arith, length-all_tokens vs more)

-- The first of the tokens of a value is its own.
pub tokens-root :
    (v : Value) (more : List JsmnTok) → (l : List JsmnTok) × (tokens v more ≡ root v ∷ l)
unfolding tokens
tokens-root (primitive s e) more = (more, refl)
tokens-root (string s e) more = (more, refl)
tokens-root (array s e vs) more = (all_tokens vs more, refl)
tokens-root (object s e vs) more = (all_tokens vs more, refl)
