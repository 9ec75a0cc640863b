-- ===== src/Device/Handlers/Reset.antt =====
-- The mass storage reset among the setup packets to the boot device, usb_device_tiny/usb_msc.c.
use pico_bootrom_crashdump.Prelude.{
  ℕ, ◌≡◌, ◌≢◌, refl, ◌∙◌, Bool, false, not, List, ◌∷◌, arith, ◌==◌,
}
use pico_bootrom_crashdump.Device.{
  hs_none, Endpoint, reset_endpoint, clear_halt_condition, reset_buffers, start_one_packet,
  give_buffer,
}
use pico_bootrom_crashdump.Device.Control.{start_empty_control_in}
use pico_bootrom_crashdump.Device.Requests.{update_endpoint}
use pico_bootrom_crashdump.Device.Halt.{reset-halt_state}
use pico_bootrom_crashdump.Device.Handlers.{
  Boot, soft_reset, clear_condition, msc_in, msc_out, msc_reset, msc_reset_request,
}

-- The first endpoint has the address, or the second.
update-first :
    (num : ℕ) (f : Endpoint → Endpoint) (i o : Endpoint) (eps : List Endpoint)
    → i.address ≡ num
    → update_endpoint num f (i ∷ o ∷ eps) ≡ f i ∷ o ∷ eps
update-first num f i o eps h = ground (arith, h)

update-second :
    (num : ℕ) (f : Endpoint → Endpoint) (i o : Endpoint) (eps : List Endpoint)
    → i.address ≢ num
    → o.address ≡ num
    → update_endpoint num f (i ∷ o ∷ eps) ≡ i ∷ f o ∷ eps
update-second num f i o eps h h' = ground (arith, h, h')

clear-address : (ep : Endpoint) → (clear_halt_condition ep).address ≡ ep.address
unfolding clear_halt_condition
clear-address ep = ground arith

reset-address :
    (configured hard : Bool) (ep : Endpoint)
    → (reset_endpoint configured hard ep).address ≡ ep.address
unfolding reset_endpoint reset_buffers start_one_packet give_buffer
reset-address configured hard ep = ground arith

-- The mass storage reset ends the halt of both its endpoints at once, also a halt on a condition:
-- the host need not clear it.
pub msc_reset-unhalts :
    (b : Boot) (i o : Endpoint) (eps : List Endpoint)
    → b.device.endpoints ≡ (i ∷ o ∷ eps)
    → i.address ≡ msc_in
    → o.address ≡ msc_out
    → (i' : Endpoint) × (o' : Endpoint) × ((msc_reset_request b).device.endpoints ≡ (i' ∷ o' ∷ eps))
      × (i'.halt_state ≡ hs_none)
      × (o'.halt_state ≡ hs_none)
unfolding msc_reset_request msc_reset clear_condition soft_reset start_empty_control_in
msc_reset-unhalts b i o eps e a a' =
    let reset = reset_endpoint (not (b.device.current_config_num == 0)) false in
    let i1 = clear_halt_condition i in
    let o1 = clear_halt_condition o in
    let ai : i1.address ≡ msc_in = clear-address i ∙ a in
    let ao : o1.address ≡ msc_out = clear-address o ∙ a' in
    let ar : (reset i1).address ≡ msc_in =
      reset-address (not (b.device.current_config_num == 0)) false i1 ∙ ai in
    (
      reset i1,
      reset o1,
      rw
          (
            e,
            update-first msc_in clear_halt_condition i o eps a,
            update-second msc_out clear_halt_condition i1 o eps (omega (arith, ai)) a',
            update-first msc_in reset i1 o1 eps ai,
            update-second msc_out reset (reset i1) o1 eps (omega (arith, ar)) ao,
          )
          refl,
      reset-halt_state (not (b.device.current_config_num == 0)) false i1,
      reset-halt_state (not (b.device.current_config_num == 0)) false o1,
    )
