-- ===== src/Device/Packets/Steps.antt =====
-- The handling of a packet of usb_device_tiny/usb_device.c that is done at once.
use pico_bootrom_crashdump.Prelude.{
  ℕ, suc, ◌-◌, ◌^◌, ◌<◌, ◌≡◌, ◌⊎◌, inl, inr, ◌∙◌, ap, false, none, some, arith, Bool-cases,
}
use pico_bootrom_crashdump.Device.{
  hs_none, OnComplete, no_completion, Endpoint, give_buffer, reset_transfer,
}
use pico_bootrom_crashdump.Device.Packets.{
  packet_done, handle_transfer, check_for_transfer_completion, call_on_packet, usb_packet_done,
  give_as_many_buffers, usb_handle_transfer, run, count_packet,
}
use pico_bootrom_crashdump.Device.Packets.Given.{
  running, enough, sync, taken, gave, give_buffer-owned, asked, packet_len-in, next_given, with_len,
}
use pico_bootrom_crashdump.Device.Packets.Give.{give_stops, done_out, done_in, call_in, give-one}

module _ (len : Endpoint → ℕ) where
  pub last-packet :
      (c : OnComplete) (which : ℕ) (ep : Endpoint)
      → run (sync len) enough (handle_transfer which) (running c 0 1 ep)
        ≡ some (record (taken which ep) { current_transfer = none; halt_state = hs_none }, c)
  unfolding run usb_handle_transfer call_on_packet usb_packet_done give_as_many_buffers
      check_for_transfer_completion give_buffer
  last-packet c which ep = ground arith

  pub later-packet :
      (c : OnComplete) (which h : ℕ) (ep : Endpoint)
      → 1 < h
      → h < 2 ^ 32
      → run (sync len) enough (handle_transfer which) (running c 0 h ep)
        ≡ some (running c 0 (h - 1) (taken which ep), no_completion)
  unfolding run usb_handle_transfer call_on_packet usb_packet_done give_as_many_buffers
      check_for_transfer_completion give_buffer
  later-packet c which h ep p q = ground arith

  -- The end of `_usb_handle_transfer` where the calls end.
  handle_in :
      (f : ℕ) (c : OnComplete) (which s h : ℕ) (ep ep' : Endpoint)
      → (ep.is_in ≡ false) ⊎ (0 < s)
      → run
          (sync len)
          f
          (packet_done (len (asked c s h (taken which ep))))
          (asked c s h (taken which ep))
        ≡ some (ep', no_completion)
      → run (sync len) (suc f) (handle_transfer which) (running c s h ep)
        ≡ some (count_packet (ep', no_completion))
  unfolding run usb_handle_transfer
  handle_in f c which s h ep ep' p e = ground (arith, p, e, call_in len f c s h (taken which ep))

  count_more :
      (c : OnComplete) (s h : ℕ) (ep : Endpoint)
      → 1 < h
      → h < 2 ^ 32
      → count_packet (running c s h ep, no_completion) ≡ (running c s (h - 1) ep, no_completion)
  unfolding check_for_transfer_completion
  count_more c s h ep p q = ground arith

  -- The packet of an event, where the endpoint owned no buffer.
  done_packet :
      (c : OnComplete) (s h which : ℕ) (ep : Endpoint)
      → 0 < s
      → s < 2 ^ 32
      → 0 < h
      → ep.owned_buffer_count ≡ 0
      → run
          (sync len)
          7
          (packet_done (len (asked c s h (taken which ep))))
          (asked c s h (taken which ep))
        ≡ some (next_given len c s h (taken which ep), no_completion)
  done_packet c s h which ep p q r o = elim (Bool-cases ep.is_in) [
    | inl i ↦
        let n = len (asked c s h mine) in
        let given : (give_buffer n (reset_transfer 0 c) mine).owned_buffer_count ≡ 0 =
          omega (arith, give_buffer-owned n (reset_transfer 0 c) mine) in
        done_in len 6 c n s h mine r p q i
        ∙ give_stops len 5 c (s - 1) h (give_buffer n (reset_transfer 0 c) mine) (inr given)
        ∙ ap (λ (e : Endpoint). some (e, no_completion))
            (with_len len c n s h mine (packet_len-in len c s h mine i))
    | inr i ↦
        done_out len 6 c (len (asked c s h mine)) s h mine r i
        ∙ give-one len 3 c s h mine p q r (inr (omega arith)) (omega arith)
  ]
    where
      mine : Endpoint
      mine = taken which ep

  pub middle-packet :
      (c : OnComplete) (which s h : ℕ) (ep : Endpoint)
      → 0 < s
      → s < 2 ^ 32
      → 1 < h
      → h < 2 ^ 32
      → ep.owned_buffer_count ≡ 0
      → run (sync len) enough (handle_transfer which) (running c s h ep)
        ≡ some (running c (s - 1) (h - 1) (gave len c s h (taken which ep)), no_completion)
  middle-packet c which s h ep p q r w o =
      handle_in 7 c which s h ep (next_given len c s h (taken which ep)) (inr p)
        (done_packet c s h which ep p q (omega arith) o)
      ∙ ap some (count_more c (s - 1) h (gave len c s h (taken which ep)) r w)
