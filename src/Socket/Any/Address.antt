-- ===== src/Socket/Any/Address.antt =====
-- The text functions of Rust that take URLs apart (src/socket.rs), and `parse_vsock_addr`
-- (src/transport/vsock.rs).
use nng_core.Prelude.{
  ℕ, ◌≡◌, refl, ◌+◌, ◌-◌, ◌*◌, ◌^◌, Option, none, some, ◌==◌, ◌&&◌, leb, ltb, if◌then◌else◌, Result,
  ok, err,
}
use Prim.Native.Char.{Char, code}
use Prim.Native.String.{String, ◌++◌}
use text.Mathlib.Text.{◌==◌ as ◌is◌}

-- `str::strip_prefix`
unfoldable pub strip_prefix : String → String → Option String
strip_prefix s String.[] = some s
strip_prefix String.[] (String.◌∷◌ d p) = none
strip_prefix (String.◌∷◌ c s) (String.◌∷◌ d p) = if code c == code d then strip_prefix s p else none

-- `if let Some(rest) = addr.strip_prefix(prefix) { … } else { … }`
unfoldable pub on_prefix {ℓ} : {A : Type ℓ} → String → String → (String → A) → A → A
on_prefix addr prefix f other = elim (strip_prefix addr prefix) [
  | some rest ↦ f rest
  | none ↦ other
]

-- `split('/').next()`
unfoldable pub before_slash : String → String
before_slash String.[] = ""
before_slash (String.◌∷◌ c s) =
    let rest = before_slash s in if code c == b'/' then "" else String.◌∷◌ c rest

after_tail : Char → String → Option (String × String) → Option (String × String)
after_tail c s (some (a, b)) = some (String.◌∷◌ c a, b)
after_tail c s none = if code c == b':' then some ("", s) else none

-- `rsplit_once(':')`
unfoldable pub rsplit_once : String → Option (String × String)
unfolding after_tail
rsplit_once String.[] = none
rsplit_once (String.◌∷◌ c s) = after_tail c s (rsplit_once s)

-- `rsplit_once(':').map(|(h, _)| h).unwrap_or(addr)`
unfoldable pub host_of : String → String
host_of addr = elim (rsplit_once addr) [ some (host, _) ↦ host | none ↦ addr ]

-- The digits of a number, in front of which `acc` was read; `none` beyond a `u32`.
unfoldable pub digits_from : ℕ → String → Option ℕ
digits_from acc String.[] = some acc
digits_from acc (String.◌∷◌ c s) =
    if leb b'0' (code c) && leb (code c) b'9' && ltb (acc * 10 + (code c - b'0')) (2 ^ 32)
    then digits_from (acc * 10 + (code c - b'0')) s
    else none

-- A number's digits, at least one.
unfoldable pub some_digits : String → Option ℕ
some_digits String.[] = none
some_digits (String.◌∷◌ c s) = digits_from 0 (String.◌∷◌ c s)

-- `str::parse::<u32>`, which takes one plus sign in front.
unfoldable pub parse_u32 : String → Option ℕ
parse_u32 String.[] = none
parse_u32 (String.◌∷◌ c s) = if code c == b'+' then some_digits s else some_digits (String.◌∷◌ c s)

unfoldable pub parse_cid : String → Option ℕ
parse_cid s =
    if s is "any"
    then some (2 ^ 32 - 1)
    else if s is "host"
    then some 2
    else if s is "local"
    then some 1
    else parse_u32 s

after_cid : String → Option ℕ → String → Result (ℕ × ℕ) String
after_cid cid_str none port_str = err ("invalid vsock CID: " ++ cid_str)
after_cid cid_str (some cid) port_str = elim (parse_u32 port_str) [
  | some port ↦ ok (cid, port)
  | none ↦ err ("invalid vsock port: " ++ port_str)
]

-- The pair is `VsockAddr::new(cid, port)`.
unfoldable pub parse_vsock_addr : String → Result (ℕ × ℕ) String
unfolding after_cid
parse_vsock_addr s = elim (rsplit_once s) [
  | some (cid_str, port_str) ↦ after_cid cid_str (parse_cid cid_str) port_str
  | none ↦ err ("invalid vsock address (expected CID:port): " ++ s)
]

vsock_host : parse_vsock_addr "host:5555" ≡ ok (2, 5555)
unfolding parse_vsock_addr rsplit_once parse_cid parse_u32 some_digits digits_from
vsock_host = refl
