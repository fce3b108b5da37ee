-- ===== src/Udp/Cache.antt =====
-- The cache of udp/udp_client.h against a client that asks for the address each time.
use systemish.Base.{
  ℕ, ◌^◌, ◌<◌, ◌≡◌, refl, ap, sym, ◌∙◌, ◌&&◌, Bool, true, false, if◌then◌else◌, Bool-cases, inl,
  inr, List, [], ◌∷◌, ◌++◌, Option, some, none, All, All-after, arith,
}
use mathlib.Core.Path.{subst}
use mathlib.Core.List.{head-eq_of_cons-eq, tail-eq_of_cons-eq, append_assoc, append-nil}
use Prim.Native.Nat.{compare, Ordering}
use systemish.Content.{to_string, is_hex_number, stoull}
use systemish.Content.Decimal.{to_string-IsWord, stoull-to_string}
use systemish.Udp.{
  colon, uri_of, same_uri, Cached, cached_at, Outcome, unresolved, refused, sent_to, Client, Call,
  send, enable_recording, construct, transmit, send_msg, run,
}

abbrev IsDigits : List ℕ → Type 0
IsDigits t = All (λ c. is_hex_number c ≡ true) t

colon-IsDigits : (s t : List ℕ) → IsDigits (s ++ colon ∷ t) → ⊥
unfolding is_hex_number
colon-IsDigits s t p =
    let (h, q) = All-after (λ c. is_hex_number c ≡ true) s (colon ∷ t) p in ground (arith, h)

-- The last colon is the one before the port.
colon-split :
    (s s' t t' : List ℕ)
    → IsDigits t
    → IsDigits t'
    → (s ++ colon ∷ t) ≡ (s' ++ colon ∷ t')
    → (s ≡ s') × (t ≡ t')
colon-split [] [] t t' p p' e = (refl, tail-eq_of_cons-eq e)
colon-split [] (c ∷ s') t t' p p' e =
    absurd (colon-IsDigits s' t' (subst IsDigits (tail-eq_of_cons-eq e) p))
colon-split (c ∷ s) [] t t' p p' e =
    absurd (colon-IsDigits s t (subst IsDigits (sym (tail-eq_of_cons-eq e)) p'))
colon-split (c ∷ s) (d ∷ s') t t' p p' e =
    let (a, b) = colon-split s s' t t' p p' (tail-eq_of_cons-eq e) in
    (λ i. head-eq_of_cons-eq e i ∷ a i, b)

some-inj : {a b : ℕ} → some a ≡ some b → a ≡ b
some-inj e = cc

-- A URI names one host and one port.
uri_of-injective :
    (h h' : List ℕ) (p p' : ℕ)
    → p < 2 ^ 16
    → p' < 2 ^ 16
    → uri_of h p ≡ uri_of h' p'
    → (h ≡ h') × (p ≡ p')
unfolding uri_of
uri_of-injective h h' p p' low low' e =
    let (a, b) =
      colon-split h h' (to_string p) (to_string p') (to_string-IsWord p).1 (to_string-IsWord p').1
        e in
    (
      a,
      some-inj (
          sym (stoull-to_string p (omega (arith, low)))
          ∙ ap stoull b
          ∙ stoull-to_string p' (omega (arith, low'))),
    )

same_uri-eq : (s t : List ℕ) → same_uri s t ≡ true → s ≡ t
same_uri-eq [] [] e = refl
same_uri-eq [] (d ∷ t) e = cc
same_uri-eq (c ∷ s) [] e = cc
same_uri-eq (c ∷ s) (d ∷ t) e =
    let (a, b) = both c d (same_uri s t) e in λ i. a i ∷ same_uri-eq s t b i
  where
    both :
        (c d : ℕ) (rest : Bool)
        → elim (compare c d) as (λ _. Bool) [ Ordering.eq ↦ rest | _ ↦ false ] ≡ true
        → (c ≡ d) × (rest ≡ true)
    both c d rest e = ground (arith, e)

abbrev pub delivered : Outcome → Bool
delivered unresolved = false
delivered (refused a) = false
delivered (sent_to a) = true

module _ {T : Type 0} where
  -- The ports are 16 bits wide.
  abbrev pub InPorts : List (Call T) → Type 0
  InPorts [] = Unit {0}
  InPorts (enable_recording ∷ calls) = InPorts calls
  InPorts (send h p msg complete ∷ calls) = (p < 2 ^ 16) × InPorts calls

if_sent : {A : Type 0} (b : Bool) (x y : A) → (if b then x else y) ≡ (if b && true then x else y)
if_sent true x y = refl
if_sent false x y = refl

if_not_sent : {A : Type 0} (b : Bool) (x y : A) → y ≡ (if b && false then x else y)
if_not_sent true x y = refl
if_not_sent false x y = refl

module _ (resolve : List ℕ → ℕ → Option ℕ) where
  -- A send without a cache.
  abbrev pub plain_send : List ℕ → ℕ → Bool → Outcome
  plain_send h p complete = elim (resolve h p) [
    | none ↦ unresolved
    | some a ↦ if complete then sent_to a else refused a
  ]

  -- An entry is what `getaddrinfo` gives for its URI.
  abbrev IsResolved : Cached → Type 0
  IsResolved e =
      (h : List ℕ) (p : ℕ) → p < 2 ^ 16 → uri_of h p ≡ e.uri → resolve h p ≡ some e.rem_addrinfo

  -- What a lookup gives.
  abbrev Found : List ℕ → ℕ → Option ℕ → Type 0
  Found h p none = Unit {0}
  Found h p (some a) = resolve h p ≡ some a

  cached_at-Found :
      (h : List ℕ) (p : ℕ) (es : List Cached)
      → p < 2 ^ 16
      → All IsResolved es
      → Found h p (cached_at (uri_of h p) es)
  unfolding cached_at
  cached_at-Found h p [] low all = tt
  cached_at-Found h p (e ∷ es) low (first, all) = elim (Bool-cases (same_uri (uri_of h p) e.uri)) [
    | inl same ↦ rw same (first h p low (same_uri-eq (uri_of h p) e.uri same))
    | inr other ↦ rw other (cached_at-Found h p es low all)
  ]

  module _ {T : Type 0} where
    -- A send does what it does without a cache, and records a message that is sent.
    record Sends (h : List ℕ) (p : ℕ) (msg : T) (complete : Bool) (s : Client T) (o : Outcome)
        (t : Client T) : Type 0 where
      outcome : o ≡ plain_send h p complete
      flag : t.enable_recording_flag ≡ s.enable_recording_flag
      recorded : t.sent_vec ≡ (
          if s.enable_recording_flag && delivered (plain_send h p complete)
          then s.sent_vec ++ msg ∷ []
          else s.sent_vec)
      resolved : All IsResolved t.addrinfo_map

    transmit-Sends :
        (h : List ℕ) (p : ℕ) (msg : T) (complete : Bool) (s u : Client T) (a : ℕ)
        → resolve h p ≡ some a
        → u.enable_recording_flag ≡ s.enable_recording_flag
        → u.sent_vec ≡ s.sent_vec
        → All IsResolved u.addrinfo_map
        → Sends h p msg complete s (transmit a msg complete u).0 (transmit a msg complete u).1
    unfolding transmit
    transmit-Sends h p msg true s u a e f v all = record {
      outcome = rw (plain_send, e) refl;
      flag = f;
      recorded =
          rw (plain_send, e, f, v)
            (if_sent s.enable_recording_flag (s.sent_vec ++ msg ∷ []) s.sent_vec);
      resolved = all;
    }
    transmit-Sends h p msg false s u a e f v all = record {
      outcome = rw (plain_send, e) refl;
      flag = f;
      recorded =
          rw (plain_send, e, v)
            (if_not_sent s.enable_recording_flag (s.sent_vec ++ msg ∷ []) s.sent_vec);
      resolved = all;
    }

    send_msg-Sends :
        (h : List ℕ) (p : ℕ) (msg : T) (complete : Bool) (s : Client T)
        → p < 2 ^ 16
        → All IsResolved s.addrinfo_map
        → Sends h p msg complete s
            (send_msg resolve h p msg complete s).0
            (send_msg resolve h p msg complete s).1
    unfolding send_msg
    send_msg-Sends h p msg complete s low all =
        go (cached_at (uri_of h p) s.addrinfo_map) (cached_at-Found h p s.addrinfo_map low all)
          (resolve h p) refl
      where
        new :
            (a : ℕ)
            → resolve h p ≡ some a
            → IsResolved (record { uri = uri_of h p; rem_addrinfo = a })
        new a e h' p' low' same =
            let (x, y) = uri_of-injective h' h p' p low' low same in (λ i. resolve (x i) (y i)) ∙ e

        go :
            (c : Option ℕ)
            → Found h p c
            → (r : Option ℕ) → resolve h p ≡ r
            → let out = elim c as (λ _. Outcome × Client T) [
              | some a ↦ transmit a msg complete s
              | none ↦ elim r as (λ _. Outcome × Client T) [
                | none ↦ (unresolved, s)
                | some a ↦ transmit a msg complete (record s {
                  addrinfo_map = record { uri = uri_of h p; rem_addrinfo = a } ∷ s.addrinfo_map;
                })
              ]
            ] in
              Sends h p msg complete s out.0 out.1
        go (some a) f r e = transmit-Sends h p msg complete s s a f refl refl all
        go none f none e = record {
          outcome = rw (plain_send, e) refl;
          flag = refl;
          recorded =
              rw (plain_send, e)
                (if_not_sent s.enable_recording_flag (s.sent_vec ++ msg ∷ []) s.sent_vec);
          resolved = all;
        }
        go none f (some a) e = transmit-Sends h p msg complete s _ a e refl refl (new a e, all)

    -- The sends of a user without a cache, and the messages that are to be recorded.
    abbrev pub plain : List (Call T) → List Outcome
    plain [] = []
    plain (enable_recording ∷ calls) = plain calls
    plain (send h p msg complete ∷ calls) = plain_send h p complete ∷ plain calls

    abbrev pub to_record : Bool → List (Call T) → List T
    to_record flag [] = []
    to_record flag (enable_recording ∷ calls) = to_record true calls
    to_record flag (send h p msg complete ∷ calls) =
        let rest = to_record flag calls in
        if flag && delivered (plain_send h p complete) then msg ∷ rest else rest

    run-from :
        (calls : List (Call T)) (s : Client T)
        → InPorts calls
        → All IsResolved s.addrinfo_map
        → ((run resolve calls s).0 ≡ plain calls)
          × ((run resolve calls s).1.sent_vec
              ≡ s.sent_vec ++ to_record s.enable_recording_flag calls)
    unfolding run
    run-from [] s ports all = (refl, sym (append-nil s.sent_vec))
    run-from (enable_recording ∷ calls) s ports all =
        run-from calls (record s { enable_recording_flag = true }) ports all
    run-from (send h p msg complete ∷ calls) s (low, ports) all =
        let t = (send_msg resolve h p msg complete s).1 in
        let (a, b) = run-from calls t ports resolved in
        (
          (λ i. outcome i ∷ a i),
          b
              ∙ (λ i. recorded i ++ to_record (flag i) calls)
              ∙ join s.enable_recording_flag (delivered (plain_send h p complete)),
        )
      where
        open (send_msg-Sends h p msg complete s low all) use {outcome, flag, recorded, resolved}

        join :
            (f d : Bool)
            → (if f && d then s.sent_vec ++ msg ∷ [] else s.sent_vec) ++ to_record f calls
              ≡ s.sent_vec ++ (if f && d then msg ∷ to_record f calls else to_record f calls)
        join true true = append_assoc s.sent_vec (msg ∷ []) (to_record true calls)
        join true false = refl
        join false d = refl

    -- While `getaddrinfo` gives the same address for the same host and port, a client that caches
    -- addresses by `host:port` does for any sequence of calls exactly the sends and throws the
    -- exceptions of one that asks each time; and it records the messages that were sent in full
    -- since the recording was enabled, in order.
    pub run-plain :
        (calls : List (Call T))
        → InPorts calls
        → ((run resolve calls construct).0 ≡ plain calls)
          × ((run resolve calls construct).1.sent_vec ≡ to_record false calls)
    unfolding construct
    run-plain calls ports = run-from calls construct ports tt
