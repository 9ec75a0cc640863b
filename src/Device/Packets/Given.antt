-- ===== src/Device/Packets/Given.antt =====
-- Endpoints of usb_device_tiny/usb_device.c with a transfer in progress, before and after a packet.
use pico_bootrom_crashdump.Prelude.{
  ℕ, ◌+◌, ◌-◌, ◌^◌, ◌<◌, ◌≡◌, refl, ap, true, false, some, arith, if◌then◌else◌,
}
use pico_bootrom_crashdump.Device.{
  hs_none, OnComplete, Transfer, Endpoint, give_buffer, reset_transfer,
}
use pico_bootrom_crashdump.Device.Packets.{Handling, done, update_transfer}

-- An endpoint with a transfer that has packets to submit and to handle, and none outstanding.
abbrev pub running : OnComplete → ℕ → ℕ → Endpoint → Endpoint
running c submit handle ep = record ep {
  current_transfer = some (record {
    on_complete = c;
    remaining_packets_to_submit = submit;
    remaining_packets_to_handle = handle;
    outstanding_packet = false;
    packet_queued = false;
  });
  halt_state = hs_none;
}

-- The rounds of calls within one another that are enough.
abbrev pub enough : ℕ
enough = 8

abbrev pub taken : ℕ → Endpoint → Endpoint
taken which ep = record ep {
  owned_buffer_count = ep.owned_buffer_count + 1;
  current_take_buffer = which;
}

-- The endpoint while `on_packet` runs.
abbrev pub asked : OnComplete → ℕ → ℕ → Endpoint → Endpoint
asked c s h ep = update_transfer (λ t. record t { outstanding_packet = true }) (running c s h ep)

pub give_buffer-running :
    (c : OnComplete) (n s h : ℕ) (ep : Endpoint) (t : Transfer)
    → 0 < s
    → s < 2 ^ 32
    → (running c s h ep).current_transfer ≡ some t
    → give_buffer n t (running c s h ep)
      ≡ running c (s - 1) h (give_buffer n (reset_transfer 0 c) ep)
unfolding give_buffer
give_buffer-running c n s h ep t p q e = ground (arith, e)

pub give_buffer-owned :
    (n : ℕ) (t : Transfer) (ep : Endpoint)
    → (give_buffer n t ep).owned_buffer_count ≡ ep.owned_buffer_count - 1
unfolding give_buffer
give_buffer-owned n t ep = refl

module _ (len : Endpoint → ℕ) where
  abbrev pub sync : Endpoint → Handling
  sync ep = done (len ep)

  -- The length of a packet that is submitted by an endpoint with such a transfer.
  abbrev pub packet_len : OnComplete → ℕ → ℕ → Endpoint → ℕ
  packet_len c s h ep =
      if ep.is_in
      then len (update_transfer (λ t. record t { outstanding_packet = true }) (running c s h ep))
      else ep.buffer_size

  -- An endpoint that has given a buffer.
  abbrev pub gave : OnComplete → ℕ → ℕ → Endpoint → Endpoint
  gave c s h ep = give_buffer (packet_len c s h ep) (reset_transfer 0 c) ep

  pub packet_len-in :
      (c : OnComplete) (s h : ℕ) (ep : Endpoint)
      → ep.is_in ≡ true
      → len (asked c s h ep) ≡ packet_len c s h ep
  packet_len-in c s h ep i = ground (arith, i)

  pub packet_len-out :
      (c : OnComplete) (s h : ℕ) (ep : Endpoint)
      → ep.is_in ≡ false
      → ep.buffer_size ≡ packet_len c s h ep
  packet_len-out c s h ep i = ground (arith, i)

  -- The endpoint with another packet of its transfer given.
  abbrev pub next_given : OnComplete → ℕ → ℕ → Endpoint → Endpoint
  next_given c s h ep = running c (s - 1) h (gave c s h ep)

  pub with_len :
      (c : OnComplete) (n s h : ℕ) (ep : Endpoint)
      → n ≡ packet_len c s h ep
      → running c (s - 1) h (give_buffer n (reset_transfer 0 c) ep) ≡ next_given c s h ep
  with_len c n s h ep e =
      ap (λ (m : ℕ). running c (s - 1) h (give_buffer m (reset_transfer 0 c) ep)) e
