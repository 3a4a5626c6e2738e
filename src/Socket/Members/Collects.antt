-- ===== src/Socket/Members/Collects.antt =====
-- What the accepting loop collects.
use nng_core.Prelude.{
  ℕ, zero, suc, ◌+◌, ◌<◌, ◌≤◌, ◌≡◌, refl, ap, ◌∙◌, arith, List, [], ◌∷◌, ◌++◌, append_assoc, length,
  length-append, lt→ltb, ltb_of_le, some, ok, err,
}
use nng_core.Codec.Protocol.{ProtocolId, bus0}
use nng_core.Socket.Error.{NngError}
use nng_core.Socket.Call.{returned, Call, ◌>>=◌}
use nng_core.Socket.Peers.{admit}
use nng_core.Socket.Any.{Links, AnyTransport}
use nng_core.Socket.Any.Os.{Os, Features, AnyListener}
use nng_core.Socket.Any.Listen.{accept_as_transport}
use nng_core.Socket.Any.Bind.{bind_listener}
use nng_core.Socket.Members.{accept_until, listen_and_accept}
use Prim.Native.String.{String}

-- After so many runs of a call one after the other, these succeeded, the last run among them.
pub data Arrives {N A : Type 0} (c : Call N A) : N → List A → ℕ → N → Type 0 where
  last : {from to : N} {a : A} → c.run from ≡ (returned (ok a), to) → Arrives c from (a ∷ []) 1 to
  refused :
      {from via to : N} {ts : List A} {m : ℕ} {e : NngError}
      → c.run from ≡ (returned (err e), via)
      → Arrives c via ts m to
      → Arrives c from ts (suc m) to
  joined :
      {from via to : N} {a : A} {ts : List A} {m : ℕ}
      → c.run from ≡ (returned (ok a), via)
      → Arrives c via ts m to
      → Arrives c from (a ∷ ts) (suc m) to

Arrives-some :
    {N A : Type 0} {c : Call N A} {from to : N} {ts : List A} {m : ℕ}
    → Arrives c from ts m to
    → 0 < length ts
Arrives-some (last e) = omega arith
Arrives-some (refused e x) = Arrives-some x
Arrives-some (joined e x) = omega arith

module _ {k : Links} (os : Os k) (debug : String → String) (features : Features)
    (l : AnyListener k os) (proto : ProtocolId) where
  accept_until-full :
      (fuel n : ℕ) (peers : List (AnyTransport k)) (net : os.Net)
      → n ≤ length peers
      → (accept_until os debug features fuel n l proto peers).run net ≡ (returned (ok peers), net)
  unfolding accept_until
  accept_until-full zero n peers net h = rw (ltb_of_le (length peers) n h) refl
  accept_until-full (suc fuel) n peers net h = rw (ltb_of_le (length peers) n h) refl

  accept_until-collects :
      (fuel n : ℕ) (peers : List (AnyTransport k)) {net net' : os.Net} {ts : List (AnyTransport k)}
      {m : ℕ}
      → Arrives (accept_as_transport os debug l proto) net ts m net'
      → length peers + length ts ≡ n
      → m ≤ fuel
      → (accept_until os debug features fuel n l proto peers).run net
        ≡ (returned (ok (peers ++ ts)), net')
  unfolding accept_until ◌>>=◌ admit
  accept_until-collects zero n peers (last e) h f = absurd (omega arith)
  accept_until-collects zero n peers (refused e x) h f = absurd (omega arith)
  accept_until-collects zero n peers (joined e x) h f = absurd (omega arith)
  accept_until-collects (suc fuel) n peers {net' = net'} (last {a = a} e) h f =
      rw (lt→ltb (length peers) n (omega arith), e)
        (accept_until-full fuel n (peers ++ (a ∷ [])) net'
          (omega (arith, length-append peers (a ∷ []))))
  accept_until-collects (suc fuel) n peers (refused e x) h f =
      rw (lt→ltb (length peers) n (omega (arith, Arrives-some x)), e)
        (accept_until-collects fuel n peers x h (omega arith))
  accept_until-collects (suc fuel) n peers {net' = net'} (joined {a = a} {ts = ts} e x) h f =
      rw (lt→ltb (length peers) n (omega arith), e)
        (accept_until-collects fuel n (peers ++ (a ∷ [])) x
            (omega (arith, length-append peers (a ∷ []))) (omega arith)
          ∙ ap (λ ps. (returned (ok ps), net')) (append_assoc peers (a ∷ []) ts))

module _ {k : Links} (os : Os k) (debug : String → String) (features : Features) where
  -- If the URL binds, and of m connections accepted then, each with its handshake, n succeed, the
  -- last among them, Bus0::listen_and_accept with fuel for m connections returns a hub whose peers
  -- are those n, in the order of their arrival, that keeps its listener, and accepts no more.
  pub listen_and_accept-collects :
      (fuel n : ℕ) (addr : String) (l : AnyListener k os) (peers : List (AnyTransport k)) (m : ℕ)
      (net bound net' : os.Net)
      → (bind_listener os debug features addr).run net ≡ (returned (ok l), bound)
      → Arrives (accept_as_transport os debug l bus0) bound peers m net'
      → length peers ≡ n
      → m ≤ fuel
      → (listen_and_accept os debug features fuel addr n).run net
        ≡ (returned (ok (record { listener = some l; peers = peers })), net')
  unfolding listen_and_accept ◌>>=◌
  listen_and_accept-collects fuel n addr l peers m net bound net' b x h f =
      rw (b, accept_until-collects os debug features l bus0 fuel n [] x (omega (arith, h)) f) refl
