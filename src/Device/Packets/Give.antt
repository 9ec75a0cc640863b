-- ===== src/Device/Packets/Give.antt =====
-- The loop `_usb_give_as_many_buffers_as_possible` of usb_device_tiny/usb_device.c where packets are
-- done at once.
use pico_bootrom_crashdump.Prelude.{
  ℕ, suc, ◌-◌, ◌^◌, ◌<◌, ◌≡◌, ◌⊎◌, inl, inr, refl, ◌∙◌, ap, true, false, not, ◌&&◌, some, arith,
  ◌==◌, Bool-cases,
}
use pico_bootrom_crashdump.Device.{OnComplete, no_completion, Endpoint, give_buffer, reset_transfer}
use pico_bootrom_crashdump.Device.Packets.{
  packet_done, give_buffers, check_for_transfer_completion, call_on_packet, usb_packet_done,
  give_as_many_buffers, run,
}
use pico_bootrom_crashdump.Device.Packets.Given.{
  running, sync, packet_len, gave, give_buffer-running, give_buffer-owned, asked, packet_len-in,
  packet_len-out, next_given, with_len,
}

module _ (len : Endpoint → ℕ) where
  -- Nothing is given without a packet to submit or without a buffer.
  pub give_stops :
      (f : ℕ) (c : OnComplete) (s h : ℕ) (ep : Endpoint)
      → (s ≡ 0) ⊎ (ep.owned_buffer_count ≡ 0)
      → run (sync len) (suc f) give_buffers (running c s h ep)
        ≡ some (running c s h ep, no_completion)
  unfolding run give_as_many_buffers
  give_stops f c s h ep p = ground (arith, p)

  may_give :
      (s : ℕ) (ep : Endpoint)
      → 0 < s
      → 0 < ep.owned_buffer_count
      → (not (s == 0) && (not (ep.owned_buffer_count == 0) && true)) ≡ true
  may_give s ep p o = ground arith

  give_out :
      (f : ℕ) (c : OnComplete) (s h : ℕ) (ep : Endpoint)
      → 0 < s
      → s < 2 ^ 32
      → 0 < ep.owned_buffer_count
      → ep.is_in ≡ false
      → run (sync len) (suc f) give_buffers (running c s h ep)
        ≡ run
            (sync len)
            f
            give_buffers
            (running c (s - 1) h (give_buffer ep.buffer_size (reset_transfer 0 c) ep))
  unfolding run give_as_many_buffers
  give_out f c s h ep p q o i =
      ground (arith, i, give_buffer-running c ep.buffer_size s h ep _ p q refl)

  pub done_out :
      (f : ℕ) (c : OnComplete) (n s h : ℕ) (ep : Endpoint)
      → 0 < h
      → ep.is_in ≡ false
      → run (sync len) (suc f) (packet_done n) (asked c s h ep)
        ≡ run (sync len) f give_buffers (running c s h ep)
  unfolding run usb_packet_done check_for_transfer_completion
  done_out f c n s h ep p i = ground (arith, i)

  pub done_in :
      (f : ℕ) (c : OnComplete) (n s h : ℕ) (ep : Endpoint)
      → 0 < h
      → 0 < s
      → s < 2 ^ 32
      → ep.is_in ≡ true
      → run (sync len) (suc f) (packet_done n) (asked c s h ep)
        ≡ run
            (sync len)
            f
            give_buffers
            (running c (s - 1) h (give_buffer n (reset_transfer 0 c) ep))
  unfolding run usb_packet_done check_for_transfer_completion
  done_in f c n s h ep p q w i = ground (arith, i, give_buffer-running c n s h ep _ q w refl)

  pub call_in :
      (f : ℕ) (c : OnComplete) (s h : ℕ) (ep : Endpoint)
      → call_on_packet (sync len) (run (sync len) f) (running c s h ep)
        ≡ run (sync len) f (packet_done (len (asked c s h ep))) (asked c s h ep)
  unfolding call_on_packet
  call_in f c s h ep = refl

  -- A round of the loop that puts a packet into a buffer, where the calls within it end.
  give_in :
      (f : ℕ) (c : OnComplete) (s h s' : ℕ) (ep ep' : Endpoint)
      → 0 < s
      → 0 < ep.owned_buffer_count
      → ep.is_in ≡ true
      → run (sync len) f (packet_done (len (asked c s h ep))) (asked c s h ep)
        ≡ some (running c s' h ep', no_completion)
      → ep'.owned_buffer_count < ep.owned_buffer_count
      → run (sync len) (suc f) give_buffers (running c s h ep)
        ≡ run (sync len) f give_buffers (running c s' h ep')
  unfolding run give_as_many_buffers
  give_in f c s h s' ep ep' p o i e l = ground (arith, i, e, call_in f c s h ep)

  -- Where the loop ends after another packet, it ends.
  give_step :
      (f : ℕ) (c : OnComplete) (s h s' : ℕ) (ep ep' : Endpoint)
      → 0 < s
      → s < 2 ^ 32
      → 0 < h
      → (s' ≡ 0) ⊎ (ep'.owned_buffer_count ≡ 0)
      → ep'.owned_buffer_count < ep.owned_buffer_count
      → run (sync len) (suc f) give_buffers (next_given len c s h ep)
        ≡ some (running c s' h ep', no_completion)
      → run (sync len) (suc (suc f)) give_buffers (next_given len c s h ep)
        ≡ some (running c s' h ep', no_completion)
      → run (sync len) (suc (suc (suc f))) give_buffers (running c s h ep)
        ≡ some (running c s' h ep', no_completion)
  give_step f c s h s' ep ep' p q r end less e e' = elim (Bool-cases ep.is_in) [
    | inl i ↦
        let n = len (asked c s h ep) in
        give_in (suc (suc f)) c s h s' ep ep' p (omega arith) i
          (done_in (suc f) c n s h ep r p q i
            ∙ ap (run (sync len) (suc f) give_buffers)
                (with_len len c n s h ep (packet_len-in len c s h ep i))
            ∙ e)
          less
        ∙ give_stops (suc f) c s' h ep' end
    | inr i ↦
        give_out (suc (suc f)) c s h ep p q (omega arith) i
        ∙ ap (run (sync len) (suc (suc f)) give_buffers)
            (with_len len c ep.buffer_size s h ep (packet_len-out len c s h ep i))
        ∙ e'
  ]

  pub give-one :
      (f : ℕ) (c : OnComplete) (s h : ℕ) (ep : Endpoint)
      → 0 < s
      → s < 2 ^ 32
      → 0 < h
      → (s ≡ 1) ⊎ (ep.owned_buffer_count ≡ 1)
      → 0 < ep.owned_buffer_count
      → run (sync len) (suc (suc (suc f))) give_buffers (running c s h ep)
        ≡ some (next_given len c s h ep, no_completion)
  give-one f c s h ep p q r o pos =
      let owned = give_buffer-owned (packet_len len c s h ep) (reset_transfer 0 c) ep in
      let end : (s - 1 ≡ 0) ⊎ ((gave len c s h ep).owned_buffer_count ≡ 0) = over o in
      give_step f c s h (s - 1) ep (gave len c s h ep) p q r end (omega (arith, owned))
        (give_stops f c (s - 1) h (gave len c s h ep) end)
        (give_stops (suc f) c (s - 1) h (gave len c s h ep) end)
    where
      over :
          (s ≡ 1) ⊎ (ep.owned_buffer_count ≡ 1)
          → (s - 1 ≡ 0) ⊎ ((gave len c s h ep).owned_buffer_count ≡ 0)
      over (inl e) = inl (omega arith)
      over (inr e) =
          inr
            (omega (arith, e, give_buffer-owned (packet_len len c s h ep) (reset_transfer 0 c) ep))

  pub give-two :
      (f : ℕ) (c : OnComplete) (s h : ℕ) (ep : Endpoint)
      → 1 < s
      → s < 2 ^ 32
      → 0 < h
      → ep.owned_buffer_count ≡ 2
      → run (sync len) (suc (suc (suc (suc (suc f))))) give_buffers (running c s h ep)
        ≡ some (next_given len c (s - 1) h (gave len c s h ep), no_completion)
  give-two f c s h ep p q r o =
      let one = gave len c s h ep in
      let two = gave len c (s - 1) h one in
      let owned = give_buffer-owned (packet_len len c s h ep) (reset_transfer 0 c) ep in
      let owned' = give_buffer-owned (packet_len len c (s - 1) h one) (reset_transfer 0 c) one in
      let left : one.owned_buffer_count ≡ 1 = omega (arith, owned) in
      let none_left : two.owned_buffer_count ≡ 0 = omega (arith, owned', left) in
      give_step (suc (suc f)) c s h (s - 1 - 1) ep two (omega arith) q r (inr none_left)
        (omega arith)
        (give-one f c (s - 1) h one (omega arith) (omega arith) r (inr left) (omega arith))
        (give-one (suc f) c (s - 1) h one (omega arith) (omega arith) r (inr left) (omega arith))
