-- ===== src/Parse/Nodes.antt =====
-- A list of nodes as common/client.c writes it, read by `parse_node_list` of common/parse.c: one
-- entry.
use psnet.Prelude.{
  ℕ, zero, suc, ◌+◌, ◌≡◌, refl, ◌∙◌, sym, ap, arith, some, List, [], ◌∷◌, ◌++◌, length,
}
use psnet.Libc.{Bytes, text, char_at}
use psnet.Client.{Host}
use psnet.Jsmn.{
  JsmnTok, jsmn_object, jsmn_string, jsmn_primitive, jsmn_get_value, jsmn_get_values,
  get_value_loop, next_key, tok_at, from,
}
use psnet.Parse.{InetPton, node_checked, node_at, parse_node}

-- Offsets.
from_none : (j : ℕ) → from j [] ≡ []
from_none zero = refl
from_none (suc j) = refl

from_add : (k j : ℕ) (s : Bytes) → from (k + j) s ≡ from j (from k s)
from_add zero j s = let e : 0 + j ≡ j = omega arith in ap (λ n. from n s) e
from_add (suc k) j [] =
    let e : suc k + j ≡ suc (k + j) = omega arith in ap (λ n. from n []) e ∙ sym (from_none j)
from_add (suc k) j (c ∷ s) =
    let e : suc k + j ≡ suc (k + j) = omega arith in ap (λ n. from n (c ∷ s)) e ∙ from_add k j s

from-append : (a b : Bytes) → from (length a) (a ++ b) ≡ b
from-append [] b = refl
from-append (c ∷ a) b = from-append a b

pub from_past : (k : ℕ) (msg a b : Bytes) → from k msg ≡ a ++ b → from (k + length a) msg ≡ b
from_past k msg a b h = from_add k (length a) msg ∙ ap (from (length a)) h ∙ from-append a b

pub char_at-from : (k : ℕ) (msg : Bytes) → char_at k msg ≡ char_at 0 (from k msg)
char_at-from zero [] = refl
char_at-from zero (c ∷ s) = refl
char_at-from (suc k) [] = refl
char_at-from (suc k) (c ∷ s) = char_at-from k s

abbrev pub str : (start end : ℕ) → JsmnTok
str start end = record { kind = jsmn_string; start = start; end = end; size = 0 }

abbrev pub prim : (start end : ℕ) → JsmnTok
prim start end = record { kind = jsmn_primitive; start = start; end = end; size = 0 }

-- The tokens of an entry: its object, and three keys at `k` with their values from `s` to `e`.
abbrev pub entry_tokens : (o f k₁ s₁ e₁ k₂ s₂ e₂ k₃ s₃ : ℕ) → List JsmnTok → List JsmnTok
entry_tokens o f k₁ s₁ e₁ k₂ s₂ e₂ k₃ s₃ more =
    record { kind = jsmn_object; start = o; end = f; size = 6 }
    ∷ str k₁ (k₁ + 2)
    ∷ str s₁ e₁
    ∷ str k₂ (k₂ + 4)
    ∷ prim s₂ e₂
    ∷ str k₃ (k₃ + 3)
    ∷ prim s₃ (s₃ + 1)
    ∷ more

module _ (msg : Bytes) (o f k₁ s₁ e₁ k₂ s₂ e₂ k₃ s₃ : ℕ) (more : List JsmnTok) (t₁ t₂ t₃ : Bytes)
    (h₁ : from k₁ msg ≡ text "ip\"" ++ t₁) (h₂ : from k₂ msg ≡ text "port\"" ++ t₂)
    (h₃ : from k₃ msg ≡ text "ipv\"" ++ t₃) where
  abbrev tokens : List JsmnTok
  tokens = entry_tokens o f k₁ s₁ e₁ k₂ s₂ e₂ k₃ s₃ more

  ip_found : jsmn_get_value msg tokens (text "ip") ≡ some (some 2)
  unfolding jsmn_get_value get_value_loop next_key
  ip_found = rw h₁ refl

  port_found : jsmn_get_value msg tokens (text "port") ≡ some (some 4)
  unfolding jsmn_get_value get_value_loop next_key
  port_found = rw (h₁, h₂) refl

  ipv_found : jsmn_get_value msg tokens (text "ipv") ≡ some (some 6)
  unfolding jsmn_get_value get_value_loop next_key
  ipv_found = rw (h₁, h₂, h₃) refl

  values_found :
      jsmn_get_values msg tokens (text "ip" ∷ text "port" ∷ text "ipv" ∷ [])
      ≡ some (some (2 ∷ 4 ∷ 6 ∷ []))
  unfolding jsmn_get_values
  values_found = rw (ip_found, port_found, ipv_found) refl

  pub parse_node-checked :
      (host : Host) (inet_pton : InetPton)
      → parse_node host inet_pton msg tokens
        ≡ node_checked host inet_pton msg (str s₁ e₁) (prim s₂ e₂) (prim s₃ (s₃ + 1))
  unfolding parse_node node_at tok_at
  parse_node-checked host inet_pton = rw values_found refl
