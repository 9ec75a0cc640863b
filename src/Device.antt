-- ===== src/Device.antt =====
-- The USB device, usb_device_tiny/usb_device.c: its endpoints with the two buffers that the controller
-- and the code own in turn, and the transfers on them. What the code writes into a buffer control
-- register is a record of the fields of the register.
pub mod Packets
pub mod Control
pub mod Requests
pub mod Halt
pub mod Address
pub mod Status
pub mod Handlers
pub mod Read
pub mod Memory
pub mod Events
use pico_bootrom_crashdump.Prelude.{
  ℕ, zero, suc, ◌+◌, ◌-◌, ◌*◌, Bool, true, false, not, ◌&&◌, ◌||◌, Option, none, some, List, [],
  ◌∷◌, ltb, ◌==◌, if◌then◌else◌,
}
use pico_bootrom_crashdump.Task.Execute.{sub32}

-- `enum usb_halt_state`, whose values are compared.
pub data HaltState : Type 0 where
  hs_none hs_non_halt_stall hs_halted hs_halted_on_condition : HaltState

abbrev pub rank : HaltState → ℕ
rank hs_none = 0
rank hs_non_halt_stall = 1
rank hs_halted = 2
rank hs_halted_on_condition = 3

-- What `on_complete` of a transfer points to, of the functions of this file.
pub data OnComplete : Type 0 where
  no_completion send_in_ack send_out_ack set_address_now : OnComplete

-- `struct usb_transfer`; a transfer is completed when no endpoint has it.
pub record Transfer : Type 0 where
  pub on_complete : OnComplete
  pub remaining_packets_to_submit : ℕ
  pub remaining_packets_to_handle : ℕ
  pub outstanding_packet : Bool
  pub packet_queued : Bool

-- The fields of a buffer control register, one for each of the two buffers.
pub record BufCtrl : Type 0 where
  pub len : ℕ
  pub avail : Bool
  pub full : Bool
  pub sel : Bool
  pub data1 : Bool
  pub stall : Bool

-- `struct usb_endpoint`, with its buffer control registers, `has_default` for a `default_transfer`,
-- and how often `on_stall_change` was called; without the packet buffer at hand and chained transfers.
pub record Endpoint : Type 0 where
  pub address : ℕ
  pub is_in : Bool
  pub buffer_size : ℕ
  pub double_buffered : Bool
  pub has_default : Bool
  pub current_transfer : Option Transfer
  pub next_pid : ℕ
  pub owned_buffer_count : ℕ
  pub current_give_buffer : ℕ
  pub current_take_buffer : ℕ
  pub halt_state : HaltState
  pub first_buffer_after_reset : Bool
  pub ctrl0 : BufCtrl
  pub ctrl1 : BufCtrl
  pub stall_changes : ℕ

abbrev pub no_ctrl : BufCtrl
no_ctrl = record { len = 0; avail = false; full = false; sel = false; data1 = false; stall = false }

-- `x ^ 1u` of a number that is 0 or 1
abbrev pub toggle : ℕ → ℕ
toggle zero = 1
toggle (suc n) = 0

unfoldable pub ep_buffer_count : Endpoint → ℕ
ep_buffer_count ep = if ep.double_buffered then 2 else 1

-- `_usb_endpoint_init_internal` of an endpoint whose other fields are 0
abbrev pub endpoint_init : ℕ → Bool → ℕ → Bool → Bool → Endpoint
endpoint_init address is_in max_buffer_size double_buffered has_default = record {
  address = address;
  is_in = is_in;
  buffer_size = max_buffer_size;
  double_buffered = double_buffered;
  has_default = has_default;
  current_transfer = none;
  next_pid = 0;
  owned_buffer_count = 0;
  current_give_buffer = 0;
  current_take_buffer = 0;
  halt_state = hs_none;
  first_buffer_after_reset = false;
  ctrl0 = no_ctrl;
  ctrl1 = no_ctrl;
  stall_changes = 0;
}

-- `_usb_reset_buffers`. The controller stops using the buffers, which the code waits for.
unfoldable pub reset_buffers : Endpoint → Endpoint
reset_buffers ep = record ep {
  next_pid =
      if (ep.ctrl0.avail || ep.ctrl1.avail)
        && (not ep.double_buffered || ep.owned_buffer_count == 1)
      then toggle ep.next_pid
      else ep.next_pid;
  ctrl0 = no_ctrl;
  ctrl1 = no_ctrl;
  owned_buffer_count = ep_buffer_count ep;
  current_give_buffer = 0;
  current_take_buffer = 0;
  first_buffer_after_reset = true;
}

-- `_usb_stall_endpoint`; the bit for a stall stands in the register of the first buffer.
unfoldable pub stall_endpoint : Endpoint → HaltState → Endpoint
stall_endpoint ep hs =
    if rank ep.halt_state == 0
    then record ep {
      ctrl0 = record (ep.ctrl0) { stall = true };
      halt_state = hs;
      stall_changes = ep.stall_changes + 1;
    }
    else if ltb (rank ep.halt_state) (rank hs)
    then record ep { halt_state = hs }
    else ep

-- `_usb_give_buffer` with the transfer that runs
unfoldable pub give_buffer : ℕ → Transfer → Endpoint → Endpoint
give_buffer len transfer ep =
    let val : BufCtrl = record {
      len = len;
      avail = true;
      full = ep.is_in;
      sel = ep.first_buffer_after_reset;
      data1 = not (ep.next_pid == 0);
      stall = false;
    } in
    record ep {
      halt_state = hs_none;
      first_buffer_after_reset = false;
      next_pid = toggle ep.next_pid;
      ctrl0 = if ep.current_give_buffer == 0 then val else ep.ctrl0;
      ctrl1 = if ep.current_give_buffer == 0 then ep.ctrl1 else val;
      owned_buffer_count = ep.owned_buffer_count - 1;
      current_transfer = some (record transfer {
        remaining_packets_to_submit = sub32 transfer.remaining_packets_to_submit 1;
      });
      current_give_buffer =
          if ep.double_buffered then toggle ep.current_give_buffer else ep.current_give_buffer;
    }

-- `usb_reset_transfer` to a type with a number of packets
abbrev pub reset_transfer : ℕ → OnComplete → Transfer
reset_transfer count on_complete = record {
  on_complete = on_complete;
  remaining_packets_to_submit = count;
  remaining_packets_to_handle = count;
  outstanding_packet = false;
  packet_queued = false;
}

abbrev pub one_packet : OnComplete → Transfer
one_packet = reset_transfer 1

-- `usb_start_transfer` of one packet with `len` bytes, or to receive one. The loop of
-- `_usb_give_as_many_buffers_as_possible` has one round at most: the packet is done at once.
unfoldable pub start_one_packet : ℕ → OnComplete → Endpoint → Endpoint
start_one_packet len on_complete ep =
    if not (ep.owned_buffer_count == 0) && rank ep.halt_state == 0
    then give_buffer (if ep.is_in then len else ep.buffer_size) (one_packet on_complete) ep
    else record ep { current_transfer = some (one_packet on_complete) }

-- `_usb_reset_endpoint`, soft or hard, of a device that is configured or not. The default transfer
-- receives one packet.
unfoldable pub reset_endpoint : Bool → Bool → Endpoint → Endpoint
reset_endpoint configured hard ep =
    let buffers = reset_buffers (record ep { current_transfer = none }) in
    let idle = record buffers {
      next_pid = if hard then 0 else buffers.next_pid;
      halt_state = hs_none;
      stall_changes =
          if rank buffers.halt_state == 0 then buffers.stall_changes else buffers.stall_changes + 1;
    } in
    if configured && ep.has_default then start_one_packet 0 no_completion idle else idle

-- `usb_halt_endpoint`, `usb_halt_endpoint_on_condition` and `usb_clear_halt_condition`
unfoldable pub halt_endpoint : Endpoint → Endpoint
halt_endpoint ep = stall_endpoint ep hs_halted

unfoldable pub halt_endpoint_on_condition : Endpoint → Endpoint
halt_endpoint_on_condition ep = stall_endpoint ep hs_halted_on_condition

unfoldable pub clear_halt_condition : Endpoint → Endpoint
clear_halt_condition ep =
    if rank ep.halt_state == 3 then record ep { halt_state = hs_halted } else ep
