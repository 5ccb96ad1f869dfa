-- ===== src/MsgCache/Seen.antt =====
-- What `cache_msg` of router/msgcache.c tells its caller: whether a message has been seen lately.
use psnet.Prelude.{
  suc, ◌^◌, ◌<◌, ◌≡◌, sym, ap, subst, true, false, some, List, length, if◌then◌else◌,
}
use psnet.Libc.{Bytes}
use psnet.Ipv6.Equality.{bytes_eq-eq, bytes_eq_refl, bytes_eq_symm}
use psnet.DeltaList.{DeltaList}
use psnet.DeltaList.Queue.{Entry}
use psnet.DeltaList.Append.{IsTail}
use psnet.DeltaList.Hash.{IsKey}
use psnet.DeltaList.Delete.{Represents}
use psnet.DeltaList.Spec.{member}
use psnet.DeltaList.Answer.{delta_update-member, delta_update-twice}
use psnet.MsgCache.{cache_ops, cache_msg, delta_equals, delta_hash}

pub cache_ops-IsKey : IsKey cache_ops
unfolding delta_equals
cache_ops-IsKey = record {
  equals_symm = λ a b. bytes_eq_symm a b;
  equals_trans = λ a b c h k. subst (λ z. delta_equals z c ≡ true) (sym (bytes_eq-eq a b h)) k;
  hash-equals = λ a b h. ap delta_hash (bytes_eq-eq a b h);
}

-- `cache_msg` on a table in good order, with room for one more, does not fault; it returns 1 if the
-- identifier is in the table and 0 if it is not.
pub cache_msg-member :
    (t : DeltaList Bytes) (es : List (Entry Bytes)) (id : Bytes)
    → Represents cache_ops t es
    → IsTail t es
    → suc (length es) < 2 ^ 32
    → (t' : DeltaList Bytes) × (cache_msg t id
        ≡ some ((if member cache_ops id es then 1 else 0), t'))
unfolding cache_msg
cache_msg-member t es id x tail room =
    delta_update-member cache_ops id cache_ops-IsKey t es x tail room

-- Of two calls of `cache_msg` for an identifier that is not in a table in good order, with room for
-- two more, the first returns 0 and the second 1.
pub cache_msg-twice :
    (t : DeltaList Bytes) (es : List (Entry Bytes)) (id : Bytes)
    → Represents cache_ops t es
    → IsTail t es
    → suc (suc (length es)) < 2 ^ 32
    → member cache_ops id es ≡ false
    → (t₁ : DeltaList Bytes) × (t₂ : DeltaList Bytes) × (cache_msg t id ≡ some (0, t₁))
      × (cache_msg t₁ id ≡ some (1, t₂))
unfolding cache_msg delta_equals
cache_msg-twice t es id x tail room absent =
    delta_update-twice cache_ops id cache_ops-IsKey t es x tail room absent (bytes_eq_refl id)
