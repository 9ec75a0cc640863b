-- ===== src/Device/Packets/Whole.antt =====
-- A transfer of usb_device_tiny/usb_device.c whose packets are done at once, as a whole.
use pico_bootrom_crashdump.Prelude.{
  ℕ, ◌-◌, ◌^◌, ◌<◌, ◌≡◌, ◌⊎◌, inl, inr, refl, ◌∙◌, ap, Option, some, List, [], ◌∷◌, arith, length,
}
use pico_bootrom_crashdump.Device.{
  HaltState, hs_none, OnComplete, no_completion, Endpoint, toggle, ep_buffer_count, reset_transfer,
}
use pico_bootrom_crashdump.Device.Packets.{give_buffers, run, start_transfer}
use pico_bootrom_crashdump.Device.Packets.Given.{
  running, enough, sync, packet_len, gave, give_buffer-owned,
}
use pico_bootrom_crashdump.Device.Packets.Give.{give-one, give-two}
use pico_bootrom_crashdump.Device.Packets.Runs.{
  after, last_completes, toggles, IsFree, Completes, gave-next_pid, gave-count, rest-Completes,
}

module _ (len : Endpoint → ℕ) where
  shift-Completes :
      (events : List ℕ) (c : OnComplete) (n n' : ℕ) (ep ep1 : Endpoint)
      (result : Option (Endpoint × List OnComplete))
      → ep_buffer_count ep1 ≡ ep_buffer_count ep
      → toggles n ep1.next_pid ≡ toggles n' ep.next_pid
      → Completes len c events n ep1 result
      → Completes len c events n' ep result
  shift-Completes events c n n' ep ep1 result same pid (ep', e, free) =
      (ep', e, (free.0, free.1, free.2 ∙ same, free.3 ∙ pid))

  -- The transfer starts without completing, and completes with the events.
  Starts : OnComplete → List ℕ → Endpoint → Type 0
  Starts c events ep =
      (ep1 : Endpoint) × (start_transfer (sync len) enough (length events) c ep
        ≡ some (ep1, no_completion))
      × Completes len c events (length events) ep (after (sync len) events ep1)

  start-running :
      (c : OnComplete) (n : ℕ) (ep : Endpoint)
      → ep.halt_state ≡ hs_none
      → start_transfer (sync len) enough n c ep
        ≡ run (sync len) enough give_buffers (running c n n ep)
  unfolding start_transfer
  start-running c n ep h =
      ap
        (λ (hs : HaltState).
          run (sync len) enough give_buffers
            (record ep { current_transfer = some (reset_transfer n c); halt_state = hs }))
        h

  start_single :
      (events : List ℕ) (c : OnComplete) (which : ℕ) (ep : Endpoint)
      → length (which ∷ events) < 2 ^ 32
      → ep.halt_state ≡ hs_none
      → ep.owned_buffer_count ≡ 1
      → ep_buffer_count ep ≡ 1
      → Starts c (which ∷ events) ep
  unfolding Starts
  start_single events c which ep small h o one =
      let n = length (which ∷ events) in
      let given = gave len c n n ep in
      let owned = give_buffer-owned (packet_len len c n n ep) (reset_transfer 0 c) ep in
      (
        running c (length events) n given,
        start-running c n ep h
            ∙ give-one len 5 c n n ep (omega arith) small (omega arith) (inr o) (omega arith)
            ∙ ap (λ (m : ℕ). some (running c m n given, no_completion)) (omega arith),
        shift-Completes (which ∷ events) c (length events) n ep given
            (after (sync len) (which ∷ events) (running c (length events) n given))
            (gave-count len c n n ep) (ap (toggles (length events)) (gave-next_pid len c n n ep))
            (rest-Completes len (which ∷ events) c (length events) given (omega arith)
              (small, inr (omega (arith, owned)), omega (arith, owned, gave-count len c n n ep))),
      )

  start_last :
      (c : OnComplete) (which : ℕ) (ep : Endpoint)
      → ep.halt_state ≡ hs_none
      → ep.owned_buffer_count ≡ 2
      → ep_buffer_count ep ≡ 2
      → Starts c (which ∷ []) ep
  unfolding Starts
  start_last c which ep h o two =
      let given = gave len c 1 1 ep in
      let owned = give_buffer-owned (packet_len len c 1 1 ep) (reset_transfer 0 c) ep in
      (
        running c 0 1 given,
        start-running c 1 ep h
            ∙ give-one len 5 c 1 1 ep (omega arith) (omega arith) (omega arith) (inl refl)
                (omega arith),
        shift-Completes (which ∷ []) c 0 1 ep given
            (after (sync len) (which ∷ []) (running c 0 1 given)) (gave-count len c 1 1 ep)
            (gave-next_pid len c 1 1 ep)
            (rest-Completes len (which ∷ []) c 0 given (omega arith)
              (omega arith, inl refl, omega (arith, owned, gave-count len c 1 1 ep))),
      )

  start_double :
      (events : List ℕ) (c : OnComplete) (which w : ℕ) (ep : Endpoint)
      → length (which ∷ w ∷ events) < 2 ^ 32
      → ep.halt_state ≡ hs_none
      → ep.owned_buffer_count ≡ 2
      → ep_buffer_count ep ≡ 2
      → Starts c (which ∷ w ∷ events) ep
  unfolding Starts
  start_double events c which w ep small h o two =
      let n = length (which ∷ w ∷ events) in
      let one = gave len c n n ep in
      let given = gave len c (n - 1) n one in
      let owned = give_buffer-owned (packet_len len c n n ep) (reset_transfer 0 c) ep in
      let owned' = give_buffer-owned (packet_len len c (n - 1) n one) (reset_transfer 0 c) one in
      let none_left : given.owned_buffer_count ≡ 0 = omega (arith, owned', owned) in
      let count : ep_buffer_count given ≡ ep_buffer_count ep =
        gave-count len c (n - 1) n one ∙ gave-count len c n n ep in
      (
        running c (length events) n given,
        start-running c n ep h
            ∙ give-two len 3 c n n ep (omega arith) small (omega arith) o
            ∙ ap (λ (m : ℕ). some (running c m n given, no_completion)) (omega arith),
        shift-Completes (which ∷ w ∷ events) c (length events) n ep given
            (after (sync len) (which ∷ w ∷ events) (running c (length events) n given)) count
            (ap (toggles (length events))
              (gave-next_pid len c (n - 1) n one ∙ ap toggle (gave-next_pid len c n n ep)))
            (rest-Completes len (which ∷ w ∷ events) c (length events) given (omega arith)
              (small, inr none_left, omega (arith, none_left, count))),
      )

  count_buffers : (ep : Endpoint) → (ep_buffer_count ep ≡ 1) ⊎ (ep_buffer_count ep ≡ 2)
  unfolding ep_buffer_count
  count_buffers ep = ground arith

  started :
      (events : List ℕ) (c : OnComplete) (ep : Endpoint)
      → 0 < length events
      → length events < 2 ^ 32
      → ep.halt_state ≡ hs_none
      → ep.owned_buffer_count ≡ ep_buffer_count ep
      → (ep_buffer_count ep ≡ 1) ⊎ (ep_buffer_count ep ≡ 2)
      → Starts c events ep
  started [] c ep p small h o n = absurd (omega arith)
  started (which ∷ events) c ep p small h o (inl n) =
      start_single events c which ep small h (o ∙ n) n
  started (which ∷ []) c ep p small h o (inr n) = start_last c which ep h (o ∙ n) n
  started (which ∷ w ∷ events) c ep p small h o (inr n) =
      start_double events c which w ep small h (o ∙ n) n

  -- A transfer whose packets are done at once, started on an endpoint that is not halted and owns its
  -- one or two buffers, for as many packets as events of the controller follow, completes with the
  -- last event and with no earlier one. The calls within one another end. Then the endpoint has no
  -- transfer and owns its buffers again, and has toggled its packet identifier for each packet.
  pub transfer-completes :
      (events : List ℕ) (c : OnComplete) (ep : Endpoint)
      → 0 < length events
      → length events < 2 ^ 32
      → ep.halt_state ≡ hs_none
      → ep.owned_buffer_count ≡ ep_buffer_count ep
      → (ep1 : Endpoint) × (start_transfer (sync len) enough (length events) c ep
          ≡ some (ep1, no_completion))
        × ((ep2 : Endpoint) × (after (sync len) events ep1 ≡ some (ep2, last_completes c events))
            × IsFree (length events) ep ep2)
  unfolding Starts
  transfer-completes events c ep p small h o = started events c ep p small h o (count_buffers ep)
