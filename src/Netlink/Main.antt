-- ===== src/Netlink/Main.antt =====
-- `main` of netlink_scripts/nexthop/main.c and of netlink_scripts/route/main.c.
pub mod Ends
use routerd.Prelude.{
  ℕ, List, [], ◌∷◌, ◌++◌, map, Option, some, ◌>>=◌, Bool, true, false, ℤ, pos, negsuc, is_negative,
  if◌then◌else◌,
}
use routerd.Netlink.Scripts.{
  Uapi, Answers, Call, dump, send, recv, exit, adddel_in6_route, adddel_nexthop,
}

-- What `main` does; `script` is a call of the function that sends the request.
pub data MainCall : Type 0 where
  open_socket exit_main : MainCall
  set_ext_ack close : ℕ → MainCall
  script : Call → MainCall

-- Whether the process ended in these calls.
abbrev pub ended : List Call → Bool
ended [] = false
ended (exit ∷ cs) = true
ended (_ ∷ cs) = ended cs

-- The rest of `main` after the request: where the process goes on, the socket is closed.
abbrev pub and_close : ℕ → List Call → List MainCall
and_close fd cs = map script cs ++ (if ended cs then [] else close fd ∷ [])

-- `socket` and `one_set` are what `socket` and `setsockopt` answer.
unfoldable pub nexthop_main : Uapi → Answers → List ℕ → ℤ → ℤ → Option (List MainCall)
nexthop_main u k rest (negsuc n) one_set = some (open_socket ∷ exit_main ∷ [])
nexthop_main u k rest (pos fd) one_set =
    let run = adddel_nexthop u k rest fd 4 22 true in
    if is_negative one_set
    then some (open_socket ∷ set_ext_ack fd ∷ exit_main ∷ [])
    else (run >>= λ cs. some (open_socket ∷ set_ext_ack fd ∷ and_close fd cs))

-- `pref` and `nh6` are the bytes that `inet_pton` gives of "20::" and "2001::2".
unfoldable pub route_main : Uapi → Answers → List ℕ → List ℕ → ℤ → Option (List MainCall)
route_main u k pref nh6 (negsuc n) = some (open_socket ∷ exit_main ∷ [])
route_main u k pref nh6 (pos fd) =
    adddel_in6_route u k fd pref 128 nh6 true >>= λ cs. some (open_socket ∷ and_close fd cs)
