-- ===== src/Device/Packets/Runs.antt =====
-- Transfers of usb_device_tiny/usb_device.c whose packets are done at once, from the start to the
-- completion.
use pico_bootrom_crashdump.Prelude.{
  ℕ, zero, suc, ◌+◌, ◌-◌, ◌^◌, ◌<◌, ◌≡◌, ◌⊎◌, inl, inr, refl, ◌∙◌, ap, Option, none, some, List, [],
  ◌∷◌, arith, length,
}
use pico_bootrom_crashdump.Device.{
  hs_none, OnComplete, no_completion, Endpoint, toggle, ep_buffer_count, give_buffer,
  reset_transfer,
}
use pico_bootrom_crashdump.Device.Packets.{Handling, handle_transfer, Result, run}
use pico_bootrom_crashdump.Device.Packets.Given.{
  running, enough, sync, taken, packet_len, gave, give_buffer-owned,
}
use pico_bootrom_crashdump.Device.Packets.Steps.{last-packet, later-packet, middle-packet}

abbrev pub prepend :
    OnComplete → Option (Endpoint × List OnComplete) → Option (Endpoint × List OnComplete)
prepend c none = none
prepend c (some (ep, cs)) = some (ep, c ∷ cs)

abbrev pub go_on :
    (Endpoint → Option (Endpoint × List OnComplete)) → Result → Option (Endpoint × List OnComplete)
go_on k none = none
go_on k (some (ep, c)) = prepend c (k ep)

-- The host takes or sends a packet at each event; what completes is given for each.
abbrev pub after : (Endpoint → Handling) → List ℕ → Endpoint → Option (Endpoint × List OnComplete)
after on_packet [] ep = some (ep, [])
after on_packet (which ∷ events) ep =
    go_on (after on_packet events) (run on_packet enough (handle_transfer which) ep)

-- Only the last event completes.
abbrev pub last_completes : OnComplete → List ℕ → List OnComplete
last_completes c [] = []
last_completes c (which ∷ []) = c ∷ []
last_completes c (which ∷ next ∷ events) = no_completion ∷ last_completes c (next ∷ events)

abbrev pub toggles : ℕ → ℕ → ℕ
toggles zero pid = pid
toggles (suc n) pid = toggles n (toggle pid)

-- The endpoint has no transfer, owns all its buffers, and has toggled its packet identifier for each
-- of `n` packets.
abbrev pub IsFree : ℕ → Endpoint → Endpoint → Type 0
IsFree n ep ep' =
    (ep'.current_transfer ≡ none)
    × (ep'.halt_state ≡ hs_none)
    × (ep'.owned_buffer_count ≡ ep_buffer_count ep)
    × (ep'.next_pid ≡ toggles n ep.next_pid)

module _ (len : Endpoint → ℕ) where
  abbrev pub Completes :
      OnComplete → List ℕ → ℕ → Endpoint → Option (Endpoint × List OnComplete) → Type 0
  Completes c events n ep result =
      (ep' : Endpoint) × (result ≡ some (ep', last_completes c events)) × IsFree n ep ep'

  pub gave-next_pid :
      (c : OnComplete) (s h : ℕ) (ep : Endpoint) → (gave len c s h ep).next_pid ≡ toggle ep.next_pid
  unfolding give_buffer
  gave-next_pid c s h ep = refl

  pub gave-count :
      (c : OnComplete) (s h : ℕ) (ep : Endpoint)
      → ep_buffer_count (gave len c s h ep) ≡ ep_buffer_count ep
  unfolding give_buffer ep_buffer_count
  gave-count c s h ep = refl

  taken-count : (which : ℕ) (ep : Endpoint) → ep_buffer_count (taken which ep) ≡ ep_buffer_count ep
  unfolding ep_buffer_count
  taken-count which ep = refl

  -- Buffers are given while there are packets to submit, and each packet to handle is in a buffer that
  -- was given or is to be submitted.
  abbrev pub IsFull : ℕ → ℕ → Endpoint → Type 0
  IsFull s h ep =
      (h < 2 ^ 32)
      × ((s ≡ 0) ⊎ (ep.owned_buffer_count ≡ 0))
      × (h + ep.owned_buffer_count ≡ s + ep_buffer_count ep)

  one-Completes :
      (c : OnComplete) (which : ℕ) (ep : Endpoint)
      → ep.owned_buffer_count + 1 ≡ ep_buffer_count ep
      → Completes c (which ∷ []) 0 ep (after (sync len) (which ∷ []) (running c 0 1 ep))
  one-Completes c which ep o = (
    record (taken which ep) { current_transfer = none; halt_state = hs_none },
    ap (go_on (after (sync len) [])) (last-packet len c which ep),
    (refl, refl, o, refl),
  )

  -- An event that does not complete.
  step-Completes :
      (events : List ℕ) (c : OnComplete) (which w n n' : ℕ) (start ep ep0 ep1 : Endpoint)
      → run (sync len) enough (handle_transfer which) start ≡ some (ep0, no_completion)
      → Completes c (w ∷ events) n ep1 (after (sync len) (w ∷ events) ep0)
      → ep_buffer_count ep1 ≡ ep_buffer_count ep
      → toggles n ep1.next_pid ≡ toggles n' ep.next_pid
      → Completes c (which ∷ w ∷ events) n' ep (after (sync len) (which ∷ w ∷ events) start)
  step-Completes events c which w n n' start ep ep0 ep1 r (ep', e, free) same pid =
      (ep', over, (free.0, free.1, free.2 ∙ same, free.3 ∙ pid))
    where
      over :
          after (sync len) (which ∷ w ∷ events) start
          ≡ some (ep', last_completes c (which ∷ w ∷ events))
      over = ap (go_on (after (sync len) (w ∷ events))) r ∙ ap (prepend no_completion) e

  count_pos : (ep : Endpoint) → 0 < ep_buffer_count ep
  unfolding ep_buffer_count
  count_pos ep = ground arith

  pub rest-Completes :
      (events : List ℕ) (c : OnComplete) (s : ℕ) (ep : Endpoint)
      → 0 < length events
      → IsFull s (length events) ep
      → Completes c events s ep (after (sync len) events (running c s (length events) ep))
  rest-Completes [] c s ep p full = absurd (omega arith)
  rest-Completes (which ∷ []) c zero ep p full = one-Completes c which ep (omega arith)
  rest-Completes (which ∷ []) c (suc s) ep p (small, inl e, full) = absurd (omega arith)
  rest-Completes (which ∷ []) c (suc s) ep p (small, inr e, full) =
      absurd (omega (arith, count_pos ep))
  rest-Completes (which ∷ w ∷ events) c zero ep p (small, o, full) =
      let mine = taken which ep in
      step-Completes events c which w 0 0 (running c 0 (length (which ∷ w ∷ events)) ep) ep
        (running c 0 (length (w ∷ events)) mine) mine
        (later-packet len c which (length (which ∷ w ∷ events)) ep (omega arith) small
          ∙ ap (λ (n : ℕ). some (running c 0 n mine, no_completion)) (omega arith))
        (rest-Completes (w ∷ events) c 0 mine (omega arith)
          (omega arith, inl refl, omega (arith, taken-count which ep)))
        (taken-count which ep) refl
  rest-Completes (which ∷ w ∷ events) c (suc s) ep p (small, inl e, full) = absurd (omega arith)
  rest-Completes (which ∷ w ∷ events) c (suc s) ep p (small, inr e, full) =
      let h = length (which ∷ w ∷ events) in
      let mine = taken which ep in
      let given = gave len c (suc s) h mine in
      let owned : given.owned_buffer_count ≡ 0 =
        omega
          (arith, give_buffer-owned (packet_len len c (suc s) h mine) (reset_transfer 0 c) mine) in
      let count : ep_buffer_count given ≡ ep_buffer_count ep =
        gave-count c (suc s) h mine ∙ taken-count which ep in
      step-Completes events c which w s (suc s) (running c (suc s) h ep) ep
        (running c s (length (w ∷ events)) given) given
        (middle-packet len c which (suc s) h ep (omega arith) (omega arith) (omega arith) small e
          ∙ ap (λ (n : ℕ). some (running c n (h - 1) given, no_completion)) (omega arith)
          ∙ ap (λ (n : ℕ). some (running c s n given, no_completion)) (omega arith))
        (rest-Completes (w ∷ events) c s given (omega arith)
          (omega arith, inr owned, omega (arith, count)))
        count (ap (toggles s) (gave-next_pid c (suc s) h mine))
