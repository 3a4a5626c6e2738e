-- ===== src/Socket/Any/Schemes.antt =====
-- The URL schemes (src/socket.rs), and that no URL has two of them.
use nng_core.Prelude.{
  ℕ, ◌≡◌, refl, ap, List, [], ◌∷◌, All, all, all-All, get_or, ◌||◌, ==_iff, sym, ◌∙◌, subst, Option,
  none, some, Bool, true, false, ◌==◌, if◌then◌else◌, inl, inr, ◌⊎◌, arith,
}
use nng_core.Transport.Framed.{FrameFormat}
use nng_core.Socket.Any.Address.{strip_prefix}
use Prim.Native.Char.{code}
use Prim.Native.String.{String}

pub data Scheme : Type 0 where
  tcp ipc ipc2 ws wss tls_tcp udp quic vsock kcp : Scheme

abbrev pub prefix_of : Scheme → String
prefix_of tcp = "tcp://"
prefix_of ipc = "ipc://"
prefix_of ipc2 = "ipc2://"
prefix_of ws = "ws://"
prefix_of wss = "wss://"
prefix_of tls_tcp = "tls+tcp://"
prefix_of udp = "udp://"
prefix_of quic = "quic://"
prefix_of vsock = "vsock://"
prefix_of kcp = "kcp://"

abbrev pub HasScheme : String → Scheme → Type 0
HasScheme addr s = (rest : String) × (strip_prefix addr (prefix_of s) ≡ some rest)

-- The two texts differ before the end of both.
unfoldable diverges : String → String → Bool
diverges String.[] q = false
diverges (String.◌∷◌ c p) String.[] = false
diverges (String.◌∷◌ c p) (String.◌∷◌ d q) = if code c == code d then diverges p q else true

none_ne : {A : Type 0} (a : A) → none ≡ some a → ⊥
none_ne a e = subst (λ o. elim o [ none ↦ Unit {0} | some _ ↦ ⊥ ]) e tt

if_some :
    {A : Type 0} (b : Bool) (x : Option A) (a : A)
    → (if b then x else none) ≡ some a
    → (b ≡ true) × (x ≡ some a)
if_some true x a e = (refl, e)
if_some false x a e = absurd (none_ne a e)

if_true : {A : Type 0} (b : Bool) (x y z : A) → b ≡ true → (if b then x else y) ≡ z → x ≡ z
if_true true x y z h e = e
if_true false x y z h e = absurd (ground (arith, h))

same_code : (a b c : ℕ) → (c == a) ≡ true → (c == b) ≡ true → (a == b) ≡ true
same_code a b c h k = ground arith

strip_prefix-diverges :
    (s p q rest other : String)
    → diverges p q ≡ true
    → strip_prefix s p ≡ some rest
    → strip_prefix s q ≡ some other
    → ⊥
unfolding diverges strip_prefix
strip_prefix-diverges s String.[] q rest other d e f = ground arith
strip_prefix-diverges s (String.◌∷◌ a p) String.[] rest other d e f = ground arith
strip_prefix-diverges String.[] (String.◌∷◌ a p) (String.◌∷◌ b q) rest other d e f = none_ne _ e
strip_prefix-diverges (String.◌∷◌ c s) (String.◌∷◌ a p) (String.◌∷◌ b q) rest other d e f =
    let (ca, e') = if_some (code c == code a) (strip_prefix s p) rest e in
    let (cb, f') = if_some (code c == code b) (strip_prefix s q) other f in
    let d' =
      if_true (code a == code b) (diverges p q) true true
        (same_code (code a) (code b) (code c) ca cb) d in
    strip_prefix-diverges s p q rest other d' e' f'

abbrev schemes : List Scheme
schemes = tcp ∷ ipc ∷ ipc2 ∷ ws ∷ wss ∷ tls_tcp ∷ udp ∷ quic ∷ vsock ∷ kcp ∷ []

abbrev index : Scheme → ℕ
index tcp = 0
index ipc = 1
index ipc2 = 2
index ws = 3
index wss = 4
index tls_tcp = 5
index udp = 6
index quic = 7
index vsock = 8
index kcp = 9

scheme_at : (s : Scheme) → get_or schemes (index s) tcp ≡ s
scheme_at tcp = refl
scheme_at ipc = refl
scheme_at ipc2 = refl
scheme_at ws = refl
scheme_at wss = refl
scheme_at tls_tcp = refl
scheme_at udp = refl
scheme_at quic = refl
scheme_at vsock = refl
scheme_at kcp = refl

at : (P : Scheme → Type 0) → All P schemes → (s : Scheme) → P s
at P h tcp = h.0
at P h ipc = h.1.0
at P h ipc2 = h.1.1.0
at P h ws = h.1.1.1.0
at P h wss = h.1.1.1.1.0
at P h tls_tcp = h.1.1.1.1.1.0
at P h udp = h.1.1.1.1.1.1.0
at P h quic = h.1.1.1.1.1.1.1.0
at P h vsock = h.1.1.1.1.1.1.1.1.0
at P h kcp = h.1.1.1.1.1.1.1.1.1.0

abbrev apart : Scheme → Scheme → Bool
apart s t = index s == index t || diverges (prefix_of s) (prefix_of t)

apart_table : all (λ s. all (apart s) schemes) schemes ≡ true
unfolding diverges
apart_table = refl

apart_all : (s t : Scheme) → apart s t ≡ true
apart_all s t =
    at (λ u. apart s u ≡ true)
      (all-All (apart s) schemes (
        at (λ u. all (apart u) schemes ≡ true)
          (all-All (λ u. all (apart u) schemes) schemes apart_table) s))
      t

or_true : (a b : Bool) → (a || b) ≡ true → (a ≡ true) ⊎ (b ≡ true)
or_true true b e = inl refl
or_true false b e = inr e

pub HasScheme-unique : (addr : String) (s t : Scheme) → HasScheme addr s → HasScheme addr t → s ≡ t
HasScheme-unique addr s t (r, e) (q, f) = elim (or_true _ _ (apart_all s t)) [
  | inl same ↦
      sym (scheme_at s)
      ∙ ap (λ i. get_or schemes i tcp) ((==_iff (index s) (index t)).0 same)
      ∙ scheme_at t
  | inr differ ↦ absurd (strip_prefix-diverges addr (prefix_of s) (prefix_of t) r q differ e f)
]

-- What the two ends of a connection have to agree on.
pub data Kind : Type 0 where
  over_tcp over_ipc over_tls over_quic over_vsock over_kcp over_ws over_udp : Kind

abbrev pub kind_for : Scheme → Kind
kind_for tcp = over_tcp
kind_for ipc = over_ipc
kind_for ipc2 = over_ipc
kind_for ws = over_ws
kind_for wss = over_ws
kind_for tls_tcp = over_tls
kind_for udp = over_udp
kind_for quic = over_quic
kind_for vsock = over_vsock
kind_for kcp = over_kcp

abbrev pub format_for : Scheme → Option FrameFormat
format_for tcp = some FrameFormat.tcp
format_for ipc = some FrameFormat.ipc
format_for ipc2 = some FrameFormat.tcp
format_for ws = none
format_for wss = none
format_for tls_tcp = some FrameFormat.tcp
format_for udp = none
format_for quic = some FrameFormat.tcp
format_for vsock = some FrameFormat.tcp
format_for kcp = some FrameFormat.tcp
