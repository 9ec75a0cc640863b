-- ===== src/Device/Packets/OnePacket.antt =====
-- The transfers of one packet of Device and Device/Control are what the functions of Device/Packets
-- make of the type `usb_current_packet_only_transfer_type`, whose packet is done at once.
use pico_bootrom_crashdump.Prelude.{
  ℕ, ◌<◌, ◌≡◌, inl, inr, refl, sym, ◌∙◌, ap, false, not, ◌&&◌, some, arith, ◌==◌, if◌then◌else◌,
  Bool-cases,
}
use mathlib.Core.Path.{subst}
use pico_bootrom_crashdump.Device.{
  HaltState, hs_none, rank, OnComplete, no_completion, Endpoint, start_one_packet, give_buffer,
  one_packet,
}
use pico_bootrom_crashdump.Device.Packets.{run, start_transfer, give_as_many_buffers}
use pico_bootrom_crashdump.Device.Packets.Given.{enough, sync}
use pico_bootrom_crashdump.Device.Packets.Give.{give-one}

module _ (n : ℕ) where
  idle-start :
      (c : OnComplete) (ep : Endpoint)
      → (not (ep.owned_buffer_count == 0) && rank ep.halt_state == 0) ≡ false
      → start_transfer (sync (λ e. n)) enough 1 c ep ≡ some (start_one_packet n c ep, no_completion)
  unfolding start_transfer run give_as_many_buffers start_one_packet
  idle-start c ep h = ground (arith, h)

  start_one_packet-given :
      (c : OnComplete) (ep : Endpoint)
      → 0 < ep.owned_buffer_count
      → start_one_packet n c (record ep { halt_state = hs_none })
        ≡ give_buffer
            (if ep.is_in then n else ep.buffer_size)
            (one_packet c)
            (record ep { halt_state = hs_none })
  unfolding start_one_packet
  start_one_packet-given c ep o = ground (arith, o)

  given-start :
      (c : OnComplete) (ep : Endpoint)
      → 0 < ep.owned_buffer_count
      → start_transfer (sync (λ e. n)) enough 1 c (record ep { halt_state = hs_none })
        ≡ some (start_one_packet n c (record ep { halt_state = hs_none }), no_completion)
  unfolding start_transfer give_buffer
  given-start c ep o =
      give-one (λ e. n) 5 c 1 1 ep (omega arith) (omega arith) (omega arith) (inl refl) o
      ∙ ap (λ (e : Endpoint). some (e, no_completion)) (sym (start_one_packet-given c ep o))

  started :
      (c : OnComplete) (ep : Endpoint)
      → start_transfer (sync (λ e. n)) enough 1 c ep ≡ some (start_one_packet n c ep, no_completion)
  started c ep = elim (Bool-cases (not (ep.owned_buffer_count == 0) && rank ep.halt_state == 0)) [
    | inr p ↦ idle-start c ep p
    | inl p ↦
        let h : ep.halt_state ≡ hs_none = ground (arith, p) in
        subst
          (λ (hs : HaltState).
            start_transfer (sync (λ e. n)) enough 1 c (record ep { halt_state = hs })
            ≡ some (start_one_packet n c (record ep { halt_state = hs }), no_completion))
          (sym h) (given-start c ep (ground (arith, p)))
  ]
