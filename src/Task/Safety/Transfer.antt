-- ===== src/Task/Safety/Transfer.antt =====
-- The transfer of a task, and the whole of `_execute_task`.
use pico_bootrom_crashdump.Prelude.{
  ℕ, ◌+◌, ◌%◌, ◌≤◌, ◌<◌, ◌≡◌, ◌⊎◌, inl, inr, true, false, ◌&&◌, ◌||◌, arith, ltb, leb, ◌==◌,
  if◌then◌else◌, Bool-cases,
}
use pico_bootrom_crashdump.Prelude.Bits.{test_bit}
use pico_bootrom_crashdump.Platform.{IsValid, is_address_flash}
use pico_bootrom_crashdump.Task.At
use pico_bootrom_crashdump.Task.{
  Task, Machine, flash_page_program, flash_read_data, do_flash_page_program, do_flash_page_read,
  Env,
}
use pico_bootrom_crashdump.Task.Execute.{
  add32, sub32, bytes, copy, Exec, go, stop, ◌>>=◌, default_call, vectorize, exclusive, exit_xip,
  exec, mutation, erase, direct_access, overlaps_vectors, write, read, enter_cmd_xip,
  check_transfer, transfer, finish, execute,
}
use pico_bootrom_crashdump.Task.Safety.Rules.{
  flash_range, length-bytes, Ensures, Ensures-bind, IsBounded, ram_range, patched,
}
use pico_bootrom_crashdump.Task.Safety.Steps.{
  IsSafe, sent, call_default, vectorize-IsSafe, exclusive-IsSafe, exec-IsSafe, mutation-IsSafe,
  erase-IsSafe, exit_xip-IsSafe, enter_cmd_xip-IsSafe,
}

module _ (env : Env) (task : Task) (old : ℕ → ℕ) (valid : IsValid env.sdk)
    (bounded : IsBounded task) where
  open env use {sdk}

  abbrev Safe : Machine → Type 0
  Safe = IsSafe env task old

  -- What `check_transfer` lets pass.
  IsChecked : Type 0
  IsChecked =
      (direct_access env task ≡ true)
      ⊎ ((is_address_flash sdk task.transfer_addr ≡ true)
          × (is_address_flash sdk (add32 task.transfer_addr task.data_length) ≡ true)
          × (task.transfer_addr % 256 ≡ 0))

  copied :
      (m : Machine) (funcs : ℕ)
      → Safe m
      → funcs ≡ env.default_flash_funcs
      → test_bit task.kind At.write ≡ true
      → direct_access env task ≡ true
      → Safe (record m {
        flash_funcs = funcs;
        ram = copy m.ram task.transfer_addr task.buffer task.data_length;
      })
  unfolding direct_access
  copied m funcs s f w d = record {
    commands = s.commands;
    default_funcs = f;
    kept = λ a.
        elim (Bool-cases
          (leb task.transfer_addr a && ltb a (task.transfer_addr + task.data_length))) [
            | inl p ↦ inr (
                inl (
                  w,
                  ram_range sdk task.transfer_addr task.data_length a valid bounded.page
                      (ground arith) (ground arith) (ground arith) (ground arith),
                ))
            | inr p ↦ rw p (s.kept a)
          ];
  }

  page_offset : ℕ
  page_offset = sub32 task.transfer_addr sdk.xip_main_base

  -- A page that is not accessed directly lies within flash.
  page_fits :
      IsChecked
      → direct_access env task ≡ false
      → (page_offset % 256 ≡ 0) × (sdk.xip_main_base + page_offset + 256 ≤ sdk.sram_base)
  unfolding IsChecked page_offset
  page_fits (inl d) n = cc
  page_fits (inr (p, q, aligned)) n = omega (
    arith,
    flash_range sdk task.transfer_addr p,
    flash_range sdk (add32 task.transfer_addr task.data_length) q,
    bounded.some_data,
    bounded.page,
  )

  write-IsSafe : (m : Machine) → IsChecked → Safe m → Ensures Safe (write env task m)
  unfolding write default_call page_offset
  write-IsSafe m c s = elim (Bool-cases (test_bit task.kind At.write)) [
    | inl p ↦ elim (Bool-cases (direct_access env task)) [
      | inl d ↦
          rw (p, d)
            (copied m
              (if overlaps_vectors env task m.flash_funcs
                then env.default_flash_funcs
                else m.flash_funcs)
              s (ground (arith, s.default_funcs)) p d)
      | inr d ↦
          rw
            (
              p,
              d,
              call_default env task old valid bounded
                  (do_flash_page_program task.transfer_addr task.buffer) m s,
            )
            (sent env task old valid bounded
              (flash_page_program page_offset (bytes m.ram task.buffer 256)) m
              ((page_fits c d).0, (page_fits c d).1, length-bytes 256 m.ram task.buffer) s)
    ]
    | inr p ↦ rw p s
  ]

  -- A read leaves the transferred bytes in the buffer of the task.
  filled :
      (m : Machine) (ram : ℕ → ℕ)
      → Safe m
      → test_bit task.kind At.read ≡ true
      → ((a : ℕ) → (ram a ≡ m.ram a) ⊎ ((task.buffer ≤ a) × (a < task.buffer + 256)))
      → Safe (record m { ram = ram })
  filled m ram s r h = record {
    commands = s.commands;
    default_funcs = s.default_funcs;
    kept = λ a. elim (h a) [ inl e ↦ rw e (s.kept a) | inr b ↦ inr (inr (r, b.0, b.1)) ];
  }

  read-IsSafe : (m : Machine) → IsChecked → Safe m → Ensures Safe (read env task m)
  unfolding read default_call page_offset
  read-IsSafe m c s = elim (Bool-cases (test_bit task.kind At.read)) [
    | inl p ↦ elim (Bool-cases (direct_access env task)) [
      | inl d ↦
          rw (p, d)
            (filled m (copy m.ram task.buffer task.transfer_addr task.data_length) s p
              (λ a. patched task.buffer task.data_length a _ _ bounded.page))
      | inr d ↦
          rw
            (
              p,
              d,
              call_default env task old valid bounded
                  (do_flash_page_read task.transfer_addr task.buffer) m s,
            )
            (sent env task old valid bounded (flash_read_data page_offset 256) _ (page_fits c d).1
              (filled m _ s p (λ a. patched task.buffer 256 a _ _ (omega arith))))
    ]
    | inr p ↦ rw p s
  ]

  check_transfer-cases :
      (m : Machine)
      → ((ret : ℕ) × (check_transfer env task m ≡ stop ret m))
        ⊎ ((check_transfer env task m ≡ go m) × IsChecked)
  unfolding check_transfer IsChecked
  check_transfer-cases m = elim (Bool-cases (direct_access env task)) [
    | inl d ↦ inr (rw d, inl d)
    | inr d ↦
        elim (Bool-cases (
          is_address_flash sdk task.transfer_addr
          && is_address_flash sdk (add32 task.transfer_addr task.data_length))) [
            | inl p ↦ elim (Bool-cases (task.transfer_addr % 256 == 0)) [
              | inl q ↦ inr (rw (d, p, q), inr (ground arith, ground arith, ground arith))
              | inr q ↦ inl (sdk.picoboot_bad_alignment, rw (d, p, q))
            ]
            | inr p ↦ inl (sdk.picoboot_invalid_address, rw (d, p))
          ]
  ]

  transfer-IsSafe : (m : Machine) → Safe m → Ensures Safe (transfer env task m)
  unfolding transfer
  transfer-IsSafe m s =
      elim (Bool-cases (test_bit task.kind At.write || test_bit task.kind At.read)) [
        | inl p ↦ rw p (elim (check_transfer-cases m) [
          | inl (ret, e) ↦ rw e s
          | inr (e, c) ↦ rw e (
              Ensures-bind Safe (write env task m >>= read env task) (enter_cmd_xip env task)
                (Ensures-bind Safe (write env task m) (read env task) (write-IsSafe m c s)
                  (λ t q. read-IsSafe t c q))
                (enter_cmd_xip-IsSafe env task old valid bounded))
        ])
        | inr p ↦ rw p s
      ]

  finish-IsSafe : (e : Exec) → Ensures Safe e → Safe (finish env task e).1
  unfolding finish
  finish-IsSafe (go m) s = s
  finish-IsSafe (stop ret m) s = s

  pub execute-IsSafe : (m : Machine) → Safe m → Safe (execute env task m).1
  unfolding execute
  execute-IsSafe m s = elim (Bool-cases m.rebooting) [
    | inl p ↦ simp p s
    | inr p ↦ simp p (
        finish-IsSafe (upto_erase >>= transfer env task)
          (Ensures-bind Safe upto_erase (transfer env task) s_erase transfer-IsSafe))
  ]
    where
      upto_exclusive : Exec
      upto_exclusive = vectorize env task m >>= exclusive env task

      upto_exec : Exec
      upto_exec = upto_exclusive >>= exit_xip env task >>= exec env task

      upto_erase : Exec
      upto_erase = upto_exec >>= mutation env task >>= erase env task

      s_exclusive : Ensures Safe upto_exclusive
      s_exclusive =
          Ensures-bind Safe (vectorize env task m) (exclusive env task)
            (vectorize-IsSafe env task old valid bounded m s)
            (exclusive-IsSafe env task old valid bounded)

      s_exec : Ensures Safe upto_exec
      s_exec =
          Ensures-bind Safe (upto_exclusive >>= exit_xip env task) (exec env task)
            (Ensures-bind Safe upto_exclusive (exit_xip env task) s_exclusive
              (exit_xip-IsSafe env task old valid bounded))
            (exec-IsSafe env task old valid bounded)

      s_erase : Ensures Safe upto_erase
      s_erase =
          Ensures-bind Safe (upto_exec >>= mutation env task) (erase env task)
            (Ensures-bind Safe upto_exec (mutation env task) s_exec
              (mutation-IsSafe env task old valid bounded))
            (erase-IsSafe env task old valid bounded)
