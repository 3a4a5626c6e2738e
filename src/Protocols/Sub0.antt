-- ===== src/Protocols/Sub0.antt =====
-- `Sub0State` (src/protocols/pubsub.rs): the subscriber's set of topic prefixes.
pub mod Order
pub mod Topics
pub mod Laws
use nng_core.Prelude.{List, [], ◌∷◌, ℕ, Bool, true, false}
use nng_core.Message.Buf.{MessageBuf}
use nng_core.Protocols.Sub0.Topics.{insert, remove, range_to, any, starts_with}

-- `BTreeSet<Vec<u8>>`, as the list of its elements in ascending order.
pub record Sub0State : Type 0 where
  pub subscriptions : List (List ℕ)

abbrev pub new : Sub0State
new = record { subscriptions = [] }

unfoldable pub subscribe : Sub0State → List ℕ → Sub0State
subscribe s prefix = record { subscriptions = insert prefix s.subscriptions }

unfoldable pub unsubscribe : Sub0State → List ℕ → Sub0State
unsubscribe s prefix = record { subscriptions = remove prefix s.subscriptions }

unfoldable pub is_empty : Sub0State → Bool
is_empty s = elim s.subscriptions [ [] ↦ true | _ ∷ _ ↦ false ]

module _ {M : Type 0} ⦃b : MessageBuf M⦄ where
  unfoldable pub matches : Sub0State → M → Bool
  matches s msg = any (starts_with (b.body msg)) (range_to (b.body msg) s.subscriptions)
