-- ===== src/Device/Status.antt =====
-- The answers of the device of usb_device_tiny/usb_device.c on its control pipe.
use pico_bootrom_crashdump.Prelude.{
  ℕ, ◌/◌, ◌%◌, ◌≡◌, ◌≢◌, ◌⊎◌, inl, inr, Bool, true, false, not, ◌&&◌, ◌||◌, Option, none, some,
  List, [], ◌∷◌, arith, ltb, leb, ◌==◌, if◌then◌else◌, Bool-cases, Option-cases, length, take,
}
use pico_bootrom_crashdump.Device.{
  hs_none, hs_halted, rank, OnComplete, Endpoint, reset_buffers, stall_endpoint, start_one_packet,
  give_buffer, reset_endpoint, set_address_now, no_completion, ep_buffer_count,
}
use pico_bootrom_crashdump.Device.Control.{
  Device, handle_set_config, stall_control_pipe, start_control_in, start_empty_control_in,
}
use pico_bootrom_crashdump.Device.Requests.{
  Setup, is_standard, to_host, Descriptors, Handler, set_address_request, set_configuration_request,
  device_setup_request, device_data, interface_setup_request, endpoint_setup_request, at_endpoint,
  unhalt, usb_find_endpoint, accept_setup, dispatch_setup, handle_setup_packet,
}

-- An endpoint of the control pipe has one buffer and no default transfer.
abbrev pub IsControl : Bool → Endpoint → Type 0
IsControl is_in ep = (ep.is_in ≡ is_in) × (ep.double_buffered ≡ false) × (ep.has_default ≡ false)

-- It owns its buffer, and the next packet is DATA1.
abbrev pub IsIdle : Endpoint → Type 0
IsIdle ep =
    (ep.owned_buffer_count ≡ 1)
    × (ep.halt_state ≡ hs_none)
    × (ep.next_pid ≡ 1)
    × (ep.current_give_buffer ≡ 0)

abbrev pub IsReady : Device → Type 0
IsReady d = IsControl true d.control_in × IsIdle d.control_in

-- The host is answered: with a packet that is DATA1 and the bytes of the buffer, or with a stall.
abbrev pub IsAnswered : Device → Type 0
IsAnswered d =
    ((d.control_in.halt_state ≡ hs_none)
      × (d.control_in.ctrl0.avail ≡ true)
      × (d.control_in.ctrl0.full ≡ true)
      × (d.control_in.ctrl0.data1 ≡ true)
      × (d.control_in.ctrl0.len ≡ length d.data_in))
    ⊎ ((d.control_in.halt_state ≢ hs_none) × (d.control_in.ctrl0.stall ≡ true))

-- What a handler has handled is answered.
abbrev pub IsAnsweredIf : Option Device → Type 0
IsAnsweredIf none = Unit {0}
IsAnsweredIf (some d) = IsAnswered d

IsAnswered-some : (d : Device) (o : Option Device) → o ≡ some d → IsAnsweredIf o → IsAnswered d
IsAnswered-some d none e h = absurd (ground (arith, e))
IsAnswered-some d (some x) e h = rw⁻¹ some_eq h
  where
    some_eq : x ≡ d
    some_eq = cc

accept-IsReady : (d : Device) → IsControl true d.control_in → IsReady (accept_setup d)
unfolding accept_setup reset_endpoint reset_buffers start_one_packet ep_buffer_count
accept-IsReady d (i, n, e) = ground (arith, i, n, e)

pub start-IsAnswered :
    (bytes : List ℕ) (d : Device) → IsReady d → IsAnswered (start_control_in bytes d)
unfolding start_control_in start_one_packet give_buffer
start-IsAnswered bytes d h = ground arith

pub empty-IsAnswered :
    (c : OnComplete) (d : Device) → IsReady d → IsAnswered (start_empty_control_in c d)
unfolding start_empty_control_in start_one_packet give_buffer
empty-IsAnswered c d h = ground arith

stall-IsAnswered : (d : Device) → IsReady d → IsAnswered (stall_control_pipe d)
unfolding stall_control_pipe stall_endpoint reset_buffers
stall-IsAnswered d h = ground arith

config-IsReady : (n : ℕ) (d : Device) → IsReady d → IsReady (handle_set_config n d)
unfolding handle_set_config
config-IsReady n d h = h

at_endpoint-IsReady :
    (num : ℕ) (f : Endpoint → Endpoint) (d : Device)
    → num ≢ 128
    → IsReady d
    → IsReady (at_endpoint num f d)
unfolding at_endpoint
at_endpoint-IsReady num f d h ready = ground (arith, h, ready)

module _ (setup : Setup) (d : Device) (ready : IsReady d) where
  set_address-IsAnswered : (addr : ℕ) → IsAnswered (set_address_request addr d)
  unfolding set_address_request
  set_address-IsAnswered addr = elim (Bool-cases (not (addr == 0) && leb addr 127)) [
    | inl p ↦ rw p (empty-IsAnswered set_address_now (record d { pending_address = addr }) ready)
    | inr p ↦ rw p (stall-IsAnswered d ready)
  ]

  set_configuration-IsAnswered :
      (descriptors : Descriptors) (n : ℕ) → IsAnswered (set_configuration_request descriptors n d)
  unfolding set_configuration_request
  set_configuration-IsAnswered descriptors n =
      elim (Bool-cases (n == 0 || n == descriptors.config_value)) [
        | inl p ↦
            rw p (empty-IsAnswered no_completion (handle_set_config n d) (config-IsReady n d ready))
        | inr p ↦ rw p (stall-IsAnswered d ready)
      ]

  device-IsAnswered :
      (descriptors : Descriptors) → IsAnswered (device_setup_request descriptors setup d)
  unfolding device_setup_request
  device-IsAnswered descriptors = elim (Bool-cases (is_standard setup)) [
    | inr st ↦ rw st (stall-IsAnswered d ready)
    | inl st ↦ elim (Bool-cases (to_host setup)) [
      | inl dir ↦ elim (Option-cases (device_data descriptors setup d)) [
        | inl e ↦ rw (st, dir, e) (stall-IsAnswered d ready)
        | inr (bytes, e) ↦ rw (st, dir, e) (start-IsAnswered (take setup.length bytes) d ready)
      ]
      | inr dir ↦ elim (Bool-cases (setup.request == 5)) [
        | inl p ↦ rw (st, dir, p) (set_address-IsAnswered (setup.value % 256))
        | inr p ↦ elim (Bool-cases (setup.request == 9)) [
          | inl q ↦
              rw (st, dir, p, q) (set_configuration-IsAnswered descriptors (setup.value % 256))
          | inr q ↦ rw (st, dir, p, q) (stall-IsAnswered d ready)
        ]
      ]
    ]
  ]

  interface-IsAnswered : IsAnswered (interface_setup_request setup d)
  unfolding interface_setup_request
  interface-IsAnswered =
      elim (Bool-cases
        (is_standard setup && setup.index / 256 == 0 && to_host setup && setup.request == 0)) [
          | inl p ↦ rw p (start-IsAnswered (0 ∷ 0 ∷ []) d ready)
          | inr p ↦ rw p (stall-IsAnswered d ready)
        ]

  endpoint-IsAnswered :
      (ep : Endpoint) → setup.index ≢ 128 → IsAnswered (endpoint_setup_request setup ep d)
  unfolding endpoint_setup_request
  endpoint-IsAnswered ep other = elim (Bool-cases (is_standard setup)) [
    | inr st ↦ rw st (stall-IsAnswered d ready)
    | inl st ↦ elim (Bool-cases (to_host setup)) [
      | inl dir ↦ elim (Bool-cases (setup.request == 0 && setup.value == 0 && setup.length == 2)) [
        | inl p ↦
            rw (st, dir, p)
              (start-IsAnswered ((if ltb 1 (rank ep.halt_state) then 1 else 0) ∷ 0 ∷ []) d ready)
        | inr p ↦ rw (st, dir, p) (stall-IsAnswered d ready)
      ]
      | inr dir ↦ elim (Bool-cases (setup.request == 1 && setup.value == 0)) [
        | inl p ↦
            let clear = unhalt (not (d.current_config_num == 0)) in
            rw (st, dir, p)
              (empty-IsAnswered no_completion (at_endpoint setup.index clear d)
                (at_endpoint-IsReady setup.index clear d other ready))
        | inr p ↦ elim (Bool-cases (setup.request == 3 && setup.value == 0)) [
          | inl q ↦
              let halt : Endpoint → Endpoint = λ ep. stall_endpoint ep hs_halted in
              rw (st, dir, p, q)
                (empty-IsAnswered no_completion (at_endpoint setup.index halt d)
                  (at_endpoint-IsReady setup.index halt d other ready))
          | inr q ↦ rw (st, dir, p, q) (stall-IsAnswered d ready)
        ]
      ]
    ]
  ]

module _ (descriptors : Descriptors) (handler : ℕ → Handler) where
  -- The handlers of the interfaces answer what they handle.
  abbrev pub Answer : Type 0
  Answer = (num : ℕ) (setup : Setup) (d : Device) → IsReady d → IsAnsweredIf (handler num setup d)

  interface_packet-IsAnswered :
      (setup : Setup) (d : Device)
      → Answer
      → IsReady d
      → IsAnswered (elim (handler (setup.index % 256) setup d) [
        | some d' ↦ d'
        | none ↦ interface_setup_request setup d
      ])
  interface_packet-IsAnswered setup d answers ready =
      elim (Option-cases (handler (setup.index % 256) setup d)) [
        | inl e ↦ rw e (interface-IsAnswered setup d ready)
        | inr (d', e) ↦ rw e (
            IsAnswered-some d' (handler (setup.index % 256) setup d) e
              (answers (setup.index % 256) setup d ready))
      ]

  endpoint_packet-IsAnswered :
      (setup : Setup) (d : Device)
      → setup.index ≢ 128
      → IsReady d
      → IsAnswered (elim (usb_find_endpoint setup.index d) [
        | some ep ↦ endpoint_setup_request setup ep d
        | none ↦ stall_control_pipe d
      ])
  endpoint_packet-IsAnswered setup d other ready =
      elim (Option-cases (usb_find_endpoint setup.index d)) [
        | inl e ↦ rw e (stall-IsAnswered d ready)
        | inr (ep, e) ↦ rw e (endpoint-IsAnswered setup d ready ep other)
      ]

  -- Whatever was in progress on the control pipe, a setup packet is answered at once, with a DATA1
  -- packet or a stall, if the handlers of the interfaces answer what they handle, and unless it is a
  -- request to the IN endpoint of the control pipe itself.
  pub setup-IsAnswered :
      (setup : Setup) (d : Device)
      → Answer
      → IsControl true d.control_in
      → (setup.request_type % 32 ≡ 2 → setup.index ≢ 128)
      → IsAnswered (handle_setup_packet descriptors handler setup d)
  unfolding handle_setup_packet dispatch_setup
  setup-IsAnswered setup d answers control other =
      let a = accept_setup d in
      let ready : IsReady a = accept-IsReady d control in
      elim (Bool-cases (setup.request_type % 32 == 0)) [
        | inl p ↦ rw p (device-IsAnswered setup a ready descriptors)
        | inr p ↦ elim (Bool-cases (setup.request_type % 32 == 1)) [
          | inl q ↦
              elim (Bool-cases (
                not (a.current_config_num == 0)
                && ltb (setup.index % 256) descriptors.interface_count)) [
                  | inl c ↦ rw (p, q, c) (interface_packet-IsAnswered setup a answers ready)
                  | inr c ↦ rw (p, q, c) (stall-IsAnswered a ready)
                ]
          | inr q ↦ elim (Bool-cases (setup.request_type % 32 == 2)) [
            | inl w ↦
                rw (p, q, w) (endpoint_packet-IsAnswered setup a (other (ground (arith, w))) ready)
            | inr w ↦ rw (p, q, w) (stall-IsAnswered a ready)
          ]
        ]
      ]

-- The host is not answered rightly when it clears the halt of the IN endpoint of the control pipe:
-- the packet of the status stage is DATA0.
pub clear_halt-data0 :
    (descriptors : Descriptors) (handler : ℕ → Handler) (setup : Setup) (d : Device)
    → IsControl true d.control_in
    → setup.request_type ≡ 2
    → setup.request ≡ 1
    → setup.value ≡ 0
    → setup.index ≡ 128
    → ((handle_setup_packet descriptors handler setup d).control_in.ctrl0.avail ≡ true)
      × ((handle_setup_packet descriptors handler setup d).control_in.ctrl0.data1 ≡ false)
unfolding handle_setup_packet dispatch_setup accept_setup usb_find_endpoint endpoint_setup_request
    unhalt at_endpoint reset_endpoint reset_buffers start_empty_control_in start_one_packet
    give_buffer ep_buffer_count
clear_halt-data0 descriptors handler setup d (i, n, e) t r v x =
    rw (t, x) (ground (arith, i, n, e, r, v))
