-- ===== src/Socket/Members/Laws.antt =====
-- Who the members of a hub are.
use nng_core.Prelude.{
  ℕ, zero, suc, ◌<◌, ◌≤◌, ◌≡◌, subst, arith, List, [], ◌∷◌, All, All-append, length, length-append,
  ltb_of_le, lt→ltb, dec_lt, Result, ok, err,
}
use nng_core.Codec.Protocol.{ProtocolId, bus0}
use nng_core.Socket.Error.{NngError}
use nng_core.Socket.Call.{Ended, returned, cancelled, runs_on, Call}
use nng_core.Socket.Call.Laws.{IsGood, Gives, >>=-Gives, give-Gives, weaken-Gives}
use nng_core.Socket.Peers.{admit}
use nng_core.Socket.Any.{Links, AnyTransport}
use nng_core.Socket.Any.Os.{Os, Features, AnyListener}
use nng_core.Socket.Any.Listen.{accept_as_transport}
use nng_core.Socket.Any.Agree.{IsFor}
use nng_core.Socket.Any.Agree.Accepted.{
  IsListenerFor, scheme_of, accept_as_transport-Gives, bind_listener-Gives,
}
use nng_core.Socket.Members.{caught, attempt, no_fuel, Bus0, accept_until, listen_and_accept}
use Prim.Native.String.{String}

pub caught-IsGood :
    {A : Type 0} (P : A → Type 0) (e : Ended A)
    → IsGood P e
    → IsGood (λ (r : Result A NngError). IsGood P (returned r)) (caught e)
caught-IsGood P (returned (ok a)) h = h
caught-IsGood P (returned (err e)) h = tt
caught-IsGood P cancelled h = tt
caught-IsGood P runs_on h = tt

pub attempt-Gives :
    {N A : Type 0} (P : A → Type 0) (c : Call N A)
    → Gives c P
    → Gives (attempt c) (λ r. IsGood P (returned r))
attempt-Gives P c g = record { good = λ n. caught-IsGood P (c.run n).0 (g.good n) }

pub no_fuel-Gives : {N A : Type 0} (P : A → Type 0) → Gives {N = N} {A = A} no_fuel P
no_fuel-Gives P = record { good = λ n. tt }

-- So many members, all for the URL.
abbrev pub IsFull : {k : Links} → String → ℕ → List (AnyTransport k) → Type 0
IsFull addr n peers = (length peers ≡ n) × All (IsFor addr) peers

module _ {k : Links} (os : Os k) (debug : String → String) (features : Features) (addr : String)
    (l : AnyListener k os) (from : IsListenerFor addr l) (proto : ProtocolId) where
  accept-Gives : Gives (accept_as_transport os debug l proto) (IsFor addr)
  accept-Gives =
      weaken-Gives _ (IsFor addr) _ (accept_as_transport-Gives os debug l proto)
        (λ t i. (scheme_of l, from, i))

  pub admit-All :
      (peers : List (AnyTransport k)) (r : Result (AnyTransport k) NngError)
      → All (IsFor addr) peers
      → IsGood (IsFor addr) (returned r)
      → All (IsFor addr) (admit peers r)
  unfolding admit
  admit-All peers (ok t) h g = All-append (IsFor addr) peers (t ∷ []) h (g, tt)
  admit-All peers (err e) h g = h

  admit-length :
      (n : ℕ) (peers : List (AnyTransport k)) (r : Result (AnyTransport k) NngError)
      → length peers < n
      → length (admit peers r) ≤ n
  unfolding admit
  admit-length n peers (ok t) h = omega (arith, length-append peers (t ∷ []))
  admit-length n peers (err e) h = omega arith

  accept_until-Gives :
      (fuel n : ℕ) (peers : List (AnyTransport k))
      → length peers ≤ n
      → All (IsFor addr) peers
      → Gives (accept_until os debug features fuel n l proto peers) (IsFull addr n)
  unfolding accept_until
  accept_until-Gives zero n peers h a = elim (dec_lt (length peers) n) [
    | yes more ↦ rw (lt→ltb (length peers) n more) (no_fuel-Gives (IsFull addr n))
    | no enough ↦
        rw (ltb_of_le (length peers) n (omega arith))
          (give-Gives (IsFull addr n) peers (omega arith, a))
  ]
  accept_until-Gives (suc fuel) n peers h a = elim (dec_lt (length peers) n) [
    | yes more ↦ rw (lt→ltb (length peers) n more) (
        >>=-Gives (λ r. IsGood (IsFor addr) (returned r)) (IsFull addr n) _ _
          (attempt-Gives (IsFor addr) _ accept-Gives)
          (λ r g.
            accept_until-Gives fuel n (admit peers r) (admit-length n peers r more)
              (admit-All peers r a g)))
    | no enough ↦
        rw (ltb_of_le (length peers) n (omega arith))
          (give-Gives (IsFull addr n) peers (omega arith, a))
  ]

module _ {k : Links} (os : Os k) (debug : String → String) (features : Features) where
  members-Gives :
      (fuel : ℕ) (addr : String) (n : ℕ)
      → Gives (listen_and_accept os debug features fuel addr n) (λ hub. IsFull addr n hub.peers)
  unfolding listen_and_accept
  members-Gives fuel addr n =
      >>=-Gives (IsListenerFor addr) (λ (hub : Bus0 k os). IsFull addr n hub.peers) _ _
        (bind_listener-Gives os debug features addr)
        (λ l from.
          >>=-Gives (IsFull addr n) (λ (hub : Bus0 k os). IsFull addr n hub.peers) _ _
            (accept_until-Gives os debug features addr l from bus0 fuel n [] (omega arith) tt)
            (λ peers full. give-Gives (λ (hub : Bus0 k os). IsFull addr n hub.peers) _ full))

  -- When Bus0::listen_and_accept returns a hub, on any system and whatever connections failed
  -- meanwhile, it has exactly the number of peers asked for, and each has a transport of the kind
  -- and the frame format that the scheme of the URL stands for.
  pub listen_and_accept-IsFull :
      (fuel : ℕ) (addr : String) (n : ℕ) (net : os.Net) (hub : Bus0 k os)
      → ((listen_and_accept os debug features fuel addr n).run net).0 ≡ returned (ok hub)
      → IsFull addr n hub.peers
  listen_and_accept-IsFull fuel addr n net hub e =
      subst (IsGood (λ h. IsFull addr n h.peers)) e ((members-Gives fuel addr n).good net)
