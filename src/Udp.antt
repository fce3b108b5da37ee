-- ===== src/Udp.antt =====
-- udp/udp_client.h and udp/udp_server.h: a client that sends messages of one type and remembers the
-- addresses of their receivers, and a server that receives them. A string is the list of its bytes,
-- a pointer to an `addrinfo` a number. What `getaddrinfo` and `sendto` return is part of a call.
pub mod Cache
pub mod Server
use systemish.Base.{ℕ, Bool, true, false, if◌then◌else◌, List, [], ◌∷◌, ◌++◌, Option, some, none}
use systemish.Content.{to_string}
use Prim.Native.Nat.{compare, Ordering}

-- The names are resolved in the same way each time: what `getaddrinfo` gives is a function of the
-- host and the port.

-- ':'
abbrev pub colon : ℕ
colon = 58

-- `rem_hostname + ":" + std::to_string(rem_port)`
unfoldable pub uri_of : List ℕ → ℕ → List ℕ
uri_of rem_hostname rem_port = rem_hostname ++ colon ∷ to_string rem_port

abbrev pub same_uri : List ℕ → List ℕ → Bool
same_uri [] [] = true
same_uri [] (d ∷ t) = false
same_uri (c ∷ s) [] = false
same_uri (c ∷ s) (d ∷ t) =
    let rest = same_uri s t in elim (compare c d) [ Ordering.eq ↦ rest | _ ↦ false ]

-- A member of `addrinfo_map`
pub record Cached : Type 0 where
  pub uri : List ℕ
  pub rem_addrinfo : ℕ

-- `addrinfo_map.count` and `addrinfo_map.at`
unfoldable pub cached_at : List ℕ → List Cached → Option ℕ
cached_at uri [] = none
cached_at uri (e ∷ es) =
    let rest = cached_at uri es in if same_uri uri e.uri then some e.rem_addrinfo else rest

-- How `send` ends: the two exceptions, the latter with the address that was used, or a message sent
-- to an address.
pub data Outcome : Type 0 where
  unresolved : Outcome
  refused : ℕ → Outcome
  sent_to : ℕ → Outcome

module _ (T : Type 0) where
  -- `UDPClient` with its open socket
  pub record Client : Type 0 where
    pub addrinfo_map : List Cached
    pub sent_vec : List T
    pub enable_recording_flag : Bool

  -- The call of a member function; `complete` says whether `sendto` takes the whole message.
  pub data Call : Type 0 where
    send : (rem_hostname : List ℕ) → (rem_port : ℕ) → (msg : T) → (complete : Bool) → Call
    enable_recording : Call

module _ {T : Type 0} where
  unfoldable pub construct : Client T
  construct = record { addrinfo_map = []; sent_vec = []; enable_recording_flag = false }

  -- The end of `send`, with the address.
  unfoldable pub transmit : ℕ → T → Bool → Client T → Outcome × Client T
  transmit rem_addrinfo msg complete s =
      if complete
      then (
        sent_to rem_addrinfo,
        record s {
          sent_vec = if s.enable_recording_flag then s.sent_vec ++ msg ∷ [] else s.sent_vec;
        },
      )
      else (refused rem_addrinfo, s)

  -- `send`, where `resolve` is the address that `getaddrinfo` gives for a host and a port.
  unfoldable pub send_msg :
      (List ℕ → ℕ → Option ℕ) → List ℕ → ℕ → T → Bool → Client T → Outcome × Client T
  unfolding uri_of cached_at transmit
  send_msg resolve rem_hostname rem_port msg complete s =
      elim (cached_at (uri_of rem_hostname rem_port) s.addrinfo_map) [
        | some rem_addrinfo ↦ transmit rem_addrinfo msg complete s
        | none ↦ elim (resolve rem_hostname rem_port) [
          | none ↦ (unresolved, s)
          | some rem_addrinfo ↦ transmit rem_addrinfo msg complete (record s {
            addrinfo_map =
                record { uri = uri_of rem_hostname rem_port; rem_addrinfo = rem_addrinfo }
                ∷ s.addrinfo_map;
          })
        ]
      ]

  -- The calls of a user, with what the sends do.
  unfoldable pub run : (List ℕ → ℕ → Option ℕ) → List (Call T) → Client T → List Outcome × Client T
  unfolding send_msg
  run resolve [] s = ([], s)
  run resolve (enable_recording ∷ calls) s =
      run resolve calls (record s { enable_recording_flag = true })
  run resolve (send rem_hostname rem_port msg complete ∷ calls) s =
      let (outcome, s') = send_msg resolve rem_hostname rem_port msg complete s in
      let (outcomes, s'') = run resolve calls s' in (outcome ∷ outcomes, s'')
