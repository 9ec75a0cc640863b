-- ===== src/Device/Packets.antt =====
-- The transfers of usb_device_tiny/usb_device.c with any number of packets. The functions of the file
-- call one another through `on_packet` of the transfer's type, whose answer is a parameter: the packet
-- is done, or will be later, or the endpoint is halted before the packet is done. A call that
-- `on_complete` points to is given back, since it is the last thing that is done.
pub mod Given
pub mod Give
pub mod Steps
pub mod Runs
pub mod Whole
pub mod OnePacket
use pico_bootrom_crashdump.Prelude.{
  ℕ, zero, suc, ◌+◌, ◌-◌, Bool, true, false, not, ◌&&◌, ◌||◌, Option, none, some, List, [], ◌∷◌,
  ◌==◌, if◌then◌else◌,
}
use pico_bootrom_crashdump.Task.Execute.{sub32}
use pico_bootrom_crashdump.Device.{
  HaltState, rank, OnComplete, no_completion, Transfer, Endpoint, toggle, stall_endpoint,
  halt_endpoint, give_buffer, reset_transfer,
}

-- What `on_packet` does with a packet, with the length of the data that it put into the buffer.
pub data Handling : Type 0 where
  done : ℕ → Handling
  later : Handling
  halts : HaltState → Handling

-- The functions that call one another.
pub data Call : Type 0 where
  packet_done : ℕ → Call
  give_buffers : Call
  handle_transfer : ℕ → Call

-- `none` when the fuel is used up.
abbrev pub Result : Type 0
Result = Option (Endpoint × OnComplete)

abbrev pub update_transfer : (Transfer → Transfer) → Endpoint → Endpoint
update_transfer f ep = elim ep.current_transfer [
  | none ↦ ep
  | some transfer ↦ record ep { current_transfer = some (f transfer) }
]

-- `_usb_check_for_transfer_completion`
unfoldable pub check_for_transfer_completion : Endpoint → Endpoint × OnComplete
check_for_transfer_completion ep = elim ep.current_transfer [
  | none ↦ (ep, no_completion)
  | some transfer ↦
      if not (rank ep.halt_state == 0)
      then (record ep { current_transfer = none }, no_completion)
      else if transfer.remaining_packets_to_handle == 0 && not transfer.outstanding_packet
      then (record ep { current_transfer = none }, transfer.on_complete)
      else (ep, no_completion)
]

-- The end of `_usb_handle_transfer`
abbrev pub count_packet : Endpoint × OnComplete → Endpoint × OnComplete
count_packet (ep, finish) = elim ep.current_transfer [
  | none ↦ (ep, finish)
  | some transfer ↦ check_for_transfer_completion (record ep {
    current_transfer = some (record transfer {
      remaining_packets_to_handle = sub32 transfer.remaining_packets_to_handle 1;
    });
  })
]

module _ (on_packet : Endpoint → Handling) (call : Call → Endpoint → Result) where
  -- `_usb_call_on_packet`
  unfoldable pub call_on_packet : Endpoint → Result
  call_on_packet ep =
      let asked = update_transfer (λ t. record t { outstanding_packet = true }) ep in
      elim (on_packet asked) [
        | done len ↦ call (packet_done len) asked
        | later ↦ some (asked, no_completion)
        | halts hs ↦ call (packet_done 0) (stall_endpoint asked hs)
      ]

  -- `usb_packet_done`, with the length of the data in the buffer
  unfoldable pub usb_packet_done : ℕ → Endpoint → Result
  usb_packet_done len ep =
      let (ep1, finish) =
        check_for_transfer_completion
          (update_transfer (λ t. record t { outstanding_packet = false }) ep) in
      elim ep1.current_transfer [
        | none ↦ some (ep1, finish)
        | some transfer ↦
            let ep2 = if ep1.is_in then give_buffer len transfer ep1 else ep1 in
            if transfer.packet_queued
            then call (handle_transfer (toggle ep2.current_take_buffer)) (
                update_transfer (λ t. record t { packet_queued = false })
                  (record ep2 { owned_buffer_count = ep2.owned_buffer_count - 1 }))
            else call give_buffers ep2
      ]

  -- A round of the loop of `_usb_give_as_many_buffers_as_possible`, and those behind it.
  unfoldable pub give_as_many_buffers : Endpoint → Result
  give_as_many_buffers ep = elim ep.current_transfer [
    | none ↦ some (ep, no_completion)
    | some transfer ↦
        if not (transfer.remaining_packets_to_submit == 0)
          && (not (ep.owned_buffer_count == 0) && rank ep.halt_state == 0)
        then if ep.is_in
          then elim (call_on_packet ep) [
            | none ↦ none
            | some (ep', finish) ↦
                if ep.owned_buffer_count == ep'.owned_buffer_count
                then some (ep', finish)
                else elim ep'.current_transfer [
                  | none ↦ some (ep', finish)
                  | some next ↦ call give_buffers ep'
                ]
          ]
          else call give_buffers (give_buffer ep.buffer_size transfer ep)
        else some (ep, no_completion)
  ]

  -- `_usb_handle_transfer` of an endpoint
  unfoldable pub usb_handle_transfer : ℕ → Endpoint → Result
  usb_handle_transfer which ep =
      let mine = record ep { owned_buffer_count = ep.owned_buffer_count + 1 } in
      elim ep.current_transfer [
        | none ↦ some (halt_endpoint mine, no_completion)
        | some transfer ↦
            if transfer.outstanding_packet
            then some (update_transfer (λ t. record t { packet_queued = true }) mine, no_completion)
            else let taken = record mine { current_take_buffer = which } in
              if not ep.is_in || not (transfer.remaining_packets_to_submit == 0)
              then elim (call_on_packet taken) [ none ↦ none | some r ↦ some (count_packet r) ]
              else some (count_packet (taken, no_completion))
      ]

module _ (on_packet : Endpoint → Handling) where
  unfoldable pub run : ℕ → Call → Endpoint → Result
  run zero c ep = none
  run (suc fuel) (packet_done len) ep = usb_packet_done on_packet (run fuel) len ep
  run (suc fuel) give_buffers ep = give_as_many_buffers on_packet (run fuel) ep
  run (suc fuel) (handle_transfer which) ep = usb_handle_transfer on_packet (run fuel) which ep

  -- `usb_reset_and_start_transfer`
  unfoldable pub start_transfer : ℕ → ℕ → OnComplete → Endpoint → Result
  start_transfer fuel count on_complete ep =
      run fuel give_buffers
        (record ep { current_transfer = some (reset_transfer count on_complete) })
