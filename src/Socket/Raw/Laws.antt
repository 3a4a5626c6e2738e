-- ===== src/Socket/Raw/Laws.antt =====
-- What a failure of the transport becomes.
use nng_core.Prelude.{ℕ, suc, ◌^◌, ◌<◌, ◌≡◌, max, ap, Option, some, err}
use nng_core.Message.Heap.{Message}
use nng_core.Socket.Error.{NngError}
use nng_core.Socket.Reconnect.{ReconnectOptions}
use nng_core.Socket.Reconnect.Laws.{
  Fails, after, Allows, reconnect_transport-connects, reconnect_transport-exhausts,
}
use nng_core.Socket.Raw.{
  Link, new_reconnecting, returned, after_reconnect, do_reconnect, after_redial, retry,
  after_attempt, send_raw, recv_raw,
}

module _ {T W : Type 0} ⦃link : Link T⦄ (connect_transport : W → Option T × W)
    (opts : ReconnectOptions) where
  -- A send that fails on a socket with reconnect, after which k attempts fail and the next, which
  -- the u32 limit allows, gives a transport, sends the message once more on it and returns what
  -- that send gives.
  pub send_raw-resends :
      (k fuel : ℕ) (old t : T) (msg : Message) (w : W) (e : NngError)
      → (link.send old msg).0 ≡ err e
      → Fails connect_transport k w
      → (connect_transport (after connect_transport k w)).0 ≡ some t
      → k < fuel
      → Allows opts.max_attempts k
      → send_raw connect_transport fuel (new_reconnecting old opts) msg w ≡ (
        returned (link.send t msg).0,
        new_reconnecting (link.send t msg).1 opts,
        after connect_transport (suc k) w,
      )
  unfolding send_raw after_redial after_attempt retry do_reconnect after_reconnect
  send_raw-resends k fuel old t msg w e failed f c lt h = rw (failed) (
      ap (λ r. after_redial connect_transport fuel (λ t'. link.send t' msg) e r.0 r.1 r.2)
        (ap
          (λ r.
            after_reconnect connect_transport fuel r.0 (new_reconnecting (link.send old msg).1 opts)
              r.2)
          (reconnect_transport-connects connect_transport opts k fuel w t f c lt h)))

  -- A receive that fails on a socket with reconnect, where all attempts up to the u32 limit fail
  -- too, of which 0 counts as 1, returns the first error, whatever it is, and keeps the old
  -- transport.
  pub recv_raw-keeps_error :
      (k fuel most : ℕ) (old : T) (w : W) (e : NngError)
      → (link.recv old).0 ≡ err e
      → opts.max_attempts ≡ some most
      → most < 2 ^ 32
      → suc k ≡ max 1 most
      → Fails connect_transport (suc k) w
      → k < fuel
      → recv_raw connect_transport fuel (new_reconnecting old opts) w ≡ (
        returned (err e),
        new_reconnecting (link.recv old).1 opts,
        after connect_transport (suc k) w,
      )
  unfolding recv_raw after_redial after_attempt retry do_reconnect after_reconnect
  recv_raw-keeps_error k fuel most old w e failed m u h f lt = rw (failed) (
      ap (λ r. after_redial connect_transport fuel link.recv e r.0 r.1 r.2)
        (ap
          (λ r.
            after_reconnect connect_transport fuel r.0 (new_reconnecting (link.recv old).1 opts)
              r.2)
          (reconnect_transport-exhausts connect_transport opts k fuel most w m u h f lt)))
