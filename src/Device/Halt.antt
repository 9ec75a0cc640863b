-- ===== src/Device/Halt.antt =====
-- Halted endpoints of usb_device_tiny/usb_device.c.
use pico_bootrom_crashdump.Prelude.{◌≡◌, Bool, true, List, [], ◌∷◌, arith}
use pico_bootrom_crashdump.Device.{
  HaltState, hs_none, hs_halted, hs_halted_on_condition, Endpoint, reset_buffers, stall_endpoint,
  start_one_packet, give_buffer, reset_endpoint, clear_halt_condition,
}
use pico_bootrom_crashdump.Device.Requests.{unhalt}

-- What happens to an endpoint that is halted, but for the end of the condition and the resets of the
-- endpoint: the host asks to clear the halt or to set it, or the code stalls the endpoint.
pub data HaltEvent : Type 0 where
  host_unhalts : Bool → HaltEvent
  stalls : HaltState → HaltEvent

unfoldable pub on_event : HaltEvent → Endpoint → Endpoint
on_event (host_unhalts configured) ep = unhalt configured ep
on_event (stalls hs) ep = stall_endpoint ep hs

unfoldable pub on_events : List HaltEvent → Endpoint → Endpoint
on_events [] ep = ep
on_events (e ∷ es) ep = on_events es (on_event e ep)

on_event-condition :
    (e : HaltEvent) (ep : Endpoint)
    → ep.halt_state ≡ hs_halted_on_condition
    → (on_event e ep).halt_state ≡ hs_halted_on_condition
unfolding on_event unhalt stall_endpoint
on_event-condition (host_unhalts configured) ep h = ground (arith, h)
on_event-condition (stalls hs) ep h = ground (arith, h)

pub reset-halt_state :
    (configured hard : Bool) (ep : Endpoint)
    → (reset_endpoint configured hard ep).halt_state ≡ hs_none
unfolding reset_endpoint reset_buffers start_one_packet give_buffer
reset-halt_state configured hard ep = ground arith

-- An endpoint that is halted on a condition stays so whatever requests to clear or to set its halt,
-- and stalls, follow. It ends once the condition is cleared and the host asks to clear the halt, or by
-- a reset of the endpoint, as the selection of a configuration, a bus reset and the resets of the two
-- classes make.
pub condition-halt_state :
    (es : List HaltEvent) (configured : Bool) (ep : Endpoint)
    → ep.halt_state ≡ hs_halted_on_condition
    → ((on_events es ep).halt_state ≡ hs_halted_on_condition)
      × ((unhalt configured (clear_halt_condition (on_events es ep))).halt_state ≡ hs_none)
      × ((on hard : Bool) → (reset_endpoint on hard (on_events es ep)).halt_state ≡ hs_none)
unfolding on_events unhalt clear_halt_condition
condition-halt_state [] configured ep h = (
  h,
  rw h (reset-halt_state configured true (record ep { halt_state = hs_halted })),
  λ on hard. reset-halt_state on hard ep,
)
condition-halt_state (e ∷ es) configured ep h =
    condition-halt_state es configured (on_event e ep) (on_event-condition e ep h)
