-- ===== src/Udp/Server.antt =====
-- The constructor of udp/udp_server.h, and the client's destructor.
use systemish.Base.{
  ℕ, ◌*◌, ◌<◌, ◌≡◌, refl, ap, sym, ◌∙◌, ◌==◌, leb, not, ◌&&◌, ◌⊎◌, Bool, true, false, if◌then◌else◌,
  Bool-cases, inl, inr, List, [], ◌∷◌, Option, some, none, arith,
}
use systemish.Udp.{Cached}

-- The destructor of a client: the addresses that `freeaddrinfo` gets.
unfoldable pub freed : List Cached → List ℕ
freed [] = []
freed (e ∷ es) = e.rem_addrinfo ∷ freed es

-- What the calls of the constructor of a server give: the descriptor, and whether the others
-- succeed.
pub record Calls : Type 0 where
  pub sock_fd : Option ℕ
  pub timeout_set : Bool
  pub buffer_set : Bool
  pub bound : Bool

-- How it ends: the exceptions, and the server with its descriptor and `tv_usec`.
pub data Made : Type 0 where
  no_socket : Made
  too_high : Made
  no_timeout : Made
  no_buffer : Made
  not_bound : Made
  server : ℕ → ℕ → Made

unfoldable pub set_buffer : ℕ → Calls → ℕ → ℕ → Made
set_buffer rx_buffer_size c fd tv_usec =
    if not (rx_buffer_size == 0) && not c.buffer_set
    then no_buffer
    else (if c.bound then server fd tv_usec else not_bound)

unfoldable pub with_socket : ℕ → ℕ → Calls → ℕ → Made
unfolding set_buffer
with_socket timeout_ms rx_buffer_size c fd =
    if leb 1000 timeout_ms
    then too_high
    else (if c.timeout_set then set_buffer rx_buffer_size c fd (timeout_ms * 1000) else no_timeout)

-- The constructor.
unfoldable pub make_server : ℕ → ℕ → Calls → Made
unfolding with_socket
make_server timeout_ms rx_buffer_size c = elim c.sock_fd [
  | none ↦ no_socket
  | some fd ↦ with_socket timeout_ms rx_buffer_size c fd
]

-- The conditions under which a server is made.
abbrev pub IsServer : ℕ → ℕ → Calls → ℕ → ℕ → Type 0
IsServer timeout_ms rx_buffer_size c fd tv_usec =
    (c.sock_fd ≡ some fd)
    × (timeout_ms < 1000)
    × (c.timeout_set ≡ true)
    × ((rx_buffer_size ≡ 0) ⊎ (c.buffer_set ≡ true))
    × (c.bound ≡ true)
    × (tv_usec ≡ timeout_ms * 1000)

server-fd : {a b c d : ℕ} → server a b ≡ server c d → (a ≡ c) × (b ≡ d)
server-fd e = (cc, cc)

-- The conditions of the last two calls.
set_buffer-server :
    (rx_buffer_size : ℕ) (c : Calls) (a b fd tv_usec : ℕ)
    → set_buffer rx_buffer_size c a b ≡ server fd tv_usec
    → ((rx_buffer_size ≡ 0) ⊎ (c.buffer_set ≡ true)) × (c.bound ≡ true) × (a ≡ fd) × (b ≡ tv_usec)
unfolding set_buffer
set_buffer-server rx_buffer_size c a b fd tv_usec e = elim (Bool-cases c.bound) [
  | inr unbound ↦ elim (Bool-cases (not (rx_buffer_size == 0) && not c.buffer_set)) [
    | inl bad ↦ absurd (no_buffer-server (rw (set_buffer, bad) at e))
    | inr good ↦ absurd (not_bound-server (rw (set_buffer, good, unbound) at e))
  ]
  | inl bound ↦ elim (Bool-cases (not (rx_buffer_size == 0) && not c.buffer_set)) [
    | inl bad ↦ absurd (no_buffer-server (rw (set_buffer, bad) at e))
    | inr good ↦
        let (x, y) = server-fd (rw (set_buffer, good, bound) at e) in
        (set_or_zero good, bound, x, y)
  ]
]
  where
    no_buffer-server : no_buffer ≡ server fd tv_usec → ⊥
    no_buffer-server e = cc

    not_bound-server : not_bound ≡ server fd tv_usec → ⊥
    not_bound-server e = cc

    set_or_zero :
        (not (rx_buffer_size == 0) && not c.buffer_set) ≡ false
        → (rx_buffer_size ≡ 0) ⊎ (c.buffer_set ≡ true)
    set_or_zero h = elim (Bool-cases c.buffer_set) [
      | inl set ↦ inr set
      | inr unset ↦ inl (ground (arith, h, unset))
    ]

with_socket-server :
    (timeout_ms rx_buffer_size : ℕ) (c : Calls) (a fd tv_usec : ℕ)
    → with_socket timeout_ms rx_buffer_size c a ≡ server fd tv_usec
    → (timeout_ms < 1000)
      × (c.timeout_set ≡ true)
      × (set_buffer rx_buffer_size c a (timeout_ms * 1000) ≡ server fd tv_usec)
unfolding with_socket
with_socket-server timeout_ms rx_buffer_size c a fd tv_usec e =
    elim (Bool-cases (leb 1000 timeout_ms)) [
      | inl high ↦ absurd (too_high-server (rw (with_socket, high) at e))
      | inr low ↦ elim (Bool-cases c.timeout_set) [
        | inr unset ↦ absurd (no_timeout-server (rw (with_socket, low, unset) at e))
        | inl set ↦ (ground (arith, low), set, rw (with_socket, low, set) at e)
      ]
    ]
  where
    too_high-server : too_high ≡ server fd tv_usec → ⊥
    too_high-server e = cc

    no_timeout-server : no_timeout ≡ server fd tv_usec → ⊥
    no_timeout-server e = cc

-- If a server is made, then each call that was made has succeeded, the timeout is below a second,
-- and `tv_usec` is its number of microseconds, below a million, as a `timeval` requires.
pub make_server-IsServer :
    (timeout_ms rx_buffer_size : ℕ) (c : Calls) (fd tv_usec : ℕ)
    → make_server timeout_ms rx_buffer_size c ≡ server fd tv_usec
    → IsServer timeout_ms rx_buffer_size c fd tv_usec × (tv_usec < 1000000)
unfolding make_server
make_server-IsServer timeout_ms rx_buffer_size c fd tv_usec e = go c.sock_fd refl
  where
    no_socket-server : no_socket ≡ server fd tv_usec → ⊥
    no_socket-server e = cc

    go :
        (s : Option ℕ)
        → c.sock_fd ≡ s
        → IsServer timeout_ms rx_buffer_size c fd tv_usec × (tv_usec < 1000000)
    go none f = absurd (no_socket-server (rw (make_server, f) at e))
    go (some a) f =
        let (low, set, rest) =
          with_socket-server timeout_ms rx_buffer_size c a fd tv_usec (rw (make_server, f) at e) in
        let (buffer, bound, x, y) =
          set_buffer-server rx_buffer_size c a (timeout_ms * 1000) fd tv_usec rest in
        ((f ∙ ap some x, low, set, buffer, bound, sym y), omega (arith, low, y))
