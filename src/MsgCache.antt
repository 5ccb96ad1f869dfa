-- ===== src/MsgCache.antt =====
-- router/msgcache.c: the identifiers of the messages that a router has seen lately.
pub mod Seen
use psnet.Prelude.{ℕ, ◌+◌, ◌-◌, ◌*◌, ◌%◌, ◌^◌, Bool, Option, List, [], ◌∷◌, ltb, if◌then◌else◌}
use psnet.Libc.{Bytes, bytes_eq}
use psnet.DeltaList.{Ops, DeltaList, new}
use psnet.DeltaList.Operations.{delta_update, delta_size}

-- A char as an unsigned long: chars are signed.
abbrev pub extend : ℕ → ℕ
extend c = if ltb c 128 then c else 2 ^ 64 - 256 + c

-- The loop of `delta_hash`: `hash * 33 + c` for each char.
unfoldable pub hash_loop : ℕ → Bytes → ℕ
hash_loop hash [] = hash
hash_loop hash (c ∷ s) = hash_loop ((hash * 33 + extend c) % 2 ^ 64) s

unfoldable pub delta_hash : Bytes → ℕ
delta_hash msg = hash_loop 5381 msg

-- `!strcmp(s0, s1)`.
unfoldable pub delta_equals : Bytes → Bytes → Bool
delta_equals a b = bytes_eq a b

abbrev pub cache_ops : Ops Bytes
cache_ops = record { hash = delta_hash; equals = delta_equals }

abbrev pub msg_cache : DeltaList Bytes
msg_cache = new 1 10

unfoldable pub cache_msg : DeltaList Bytes → Bytes → Option (ℕ × DeltaList Bytes)
cache_msg t id = delta_update cache_ops t id

unfoldable pub msg_cache_size : DeltaList Bytes → ℕ
msg_cache_size t = delta_size t
