-- ===== src/Router/Updates.antt =====
-- What the turns of `router_update_thread` of router/router.c come to, with the requests that
-- common/protocol.c makes for it.
use psnet.Prelude.{
  ℕ, ◌<◌, ◌^◌, ◌≡◌, refl, arith, ◌∙◌, ap, Bool, true, false, ◌&&◌, Option, none, some, List, [],
  ◌∷◌, if◌then◌else◌, ℤ, pos, negsuc, is_neg, to_int32,
}
use psnet.Libc.{Bytes}
use psnet.Ipv6.{SockAddr}
use psnet.Client.{Host}
use psnet.Jsmn.{JsmnTok}
use psnet.Parse.{InetPton}
use psnet.Protocol.Request.{Calls, psnet_request, psnet_request_discover-answer}
use psnet.Router.{Update, faulted, retrying, after_attempt, outdegree, update_routers}

-- What `psnet_request` returns, as an int.
abbrev pub answer : Calls → ℤ
answer c = to_int32 (psnet_request c []).rv

-- `psnet_request` returns less than 0 for each.
abbrev pub all_fail : List Calls → Bool
all_fail [] = true
all_fail (c ∷ attempts) = is_neg (answer c) && all_fail attempts

module _ (host : Host) (inet_pton : InetPton)
    (jsmn_parse : Bytes → ℕ → Option (List JsmnTok × ℕ)) where
  -- An attempt that fails is followed by the next; any other is a fault.
  after_attempt-answer :
      (routers tmp : List SockAddr) (again : List SockAddr → Update) (v : ℤ)
      → after_attempt routers again (if is_neg v then some (v, tmp) else none)
        ≡ (if is_neg v then again tmp else faulted)
  unfolding after_attempt
  after_attempt-answer routers tmp again (pos n) = refl
  after_attempt-answer routers tmp again (negsuc n) = refl

  -- `router_update_thread` never comes to replace the routers: as long as `psnet_request` returns
  -- less than 0, it goes on with its attempts, with the list `tmp` as it was; and the first time that
  -- it does not, there is a fault of memory.
  pub update_routers-never :
      (attempts : List Calls) (port : ℕ) (routers tmp : List SockAddr)
      → port < 2 ^ 16
      → update_routers host inet_pton jsmn_parse attempts port routers tmp
        ≡ (if all_fail attempts then retrying tmp else faulted)
  unfolding update_routers
  update_routers-never [] port routers tmp h = refl
  update_routers-never (c ∷ attempts) port routers tmp h =
      rw
        (psnet_request_discover-answer host inet_pton jsmn_parse c tmp outdegree port (omega arith)
          h)
        (after_attempt-answer routers tmp
            (λ tmp'. update_routers host inet_pton jsmn_parse attempts port routers tmp') (answer c)
          ∙ ap (λ u. if is_neg (answer c) then u else faulted)
              (update_routers-never attempts port routers tmp h)
          ∙ both (is_neg (answer c)) (all_fail attempts))
    where
      both :
          (b d : Bool)
          → (if b then (if d then retrying tmp else faulted) else faulted)
            ≡ (if b && d then retrying tmp else faulted)
      both true d = refl
      both false d = refl
