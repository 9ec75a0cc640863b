-- ===== src/Task/Safety/Steps.antt =====
-- The steps of a task before the transfer, one lemma each.
use pico_bootrom_crashdump.Prelude.{
  ℕ, ◌+◌, ◌-◌, ◌*◌, ◌/◌, ◌%◌, ◌^◌, ◌≤◌, ◌<◌, ◌≡◌, ◌⊎◌, inl, inr, refl, ap, ◌∙◌, true, not, ◌&&◌,
  ◌||◌, [], ◌∷◌, ◌++◌, arith, ◌==◌, Bool-cases, dec_lt,
}
use pico_bootrom_crashdump.Prelude.Bits.{test_bit}
use pico_bootrom_crashdump.Platform.{IsValid, is_address_flash}
use pico_bootrom_crashdump.Task.At
use pico_bootrom_crashdump.Task.{
  Task, Machine, FlashCommand, flash_enter_cmd_xip, flash_exit_xip, FlashCall,
  do_flash_enter_cmd_xip, do_flash_exit_xip, do_flash_erase_range, Env,
}
use pico_bootrom_crashdump.Task.EraseRange.{sectors, erase_range_lem, erase_range_wrapped}
use pico_bootrom_crashdump.Task.Execute.{
  add32, send, checked, default_call, call, vectorize, exclusive, exit_xip, exec, mutation, erase,
  enter_cmd_xip,
}
use pico_bootrom_crashdump.Task.Safety.Rules.{
  Allowed, AllAllowed, AllAllowed-append, AllAllowed-sectors, InRam, flash_range, Ensures,
  IsBounded,
}

module _ (env : Env) (task : Task) (old : ℕ → ℕ) where
  open env use {sdk}

  -- What has been done since memory was `old`.
  pub record IsSafe (m : Machine) : Type 0 where
    pub commands : AllAllowed sdk m.commands
    pub default_funcs : m.flash_funcs ≡ env.default_flash_funcs
    pub kept :
        (a : ℕ)
        → (m.ram a ≡ old a)
          ⊎ ((test_bit task.kind At.write ≡ true) × InRam sdk a)
          ⊎ ((test_bit task.kind At.read ≡ true) × (task.buffer ≤ a) × (a < task.buffer + 256))

  module _ (valid : IsValid sdk) (bounded : IsBounded task) where
    -- Fields that safety does not read may change.
    pub moved :
        (m m' : Machine)
        → m'.commands ≡ m.commands
        → m'.flash_funcs ≡ m.flash_funcs
        → m'.ram ≡ m.ram
        → IsSafe m
        → IsSafe m'
    moved m m' c f r s = record {
      commands = rw c s.commands;
      default_funcs = f ∙ s.default_funcs;
      kept = rw r s.kept;
    }

    pub mutation-IsSafe : (m : Machine) → IsSafe m → Ensures IsSafe (mutation env task m)
    unfolding mutation
    mutation-IsSafe m s =
        elim (Bool-cases (test_bit task.kind At.write || test_bit task.kind At.flash_erase)) [
          | inl p ↦
              elim (Bool-cases
                (task.check_last_mutation_source && not (m.last_mutation_source == task.source))) [
                  | inl q ↦ rw (p, q) s
                  | inr q ↦
                      rw (p, q)
                        (moved m (record m { last_mutation_source = task.source }) refl refl refl s)
                ]
          | inr p ↦ rw p s
        ]

    pub vectorize-IsSafe : (m : Machine) → IsSafe m → Ensures IsSafe (vectorize env task m)
    unfolding vectorize
    vectorize-IsSafe m s = rw bounded.no_vectorize s

    pub exec-IsSafe : (m : Machine) → IsSafe m → Ensures IsSafe (exec env task m)
    unfolding exec
    exec-IsSafe m s = rw bounded.no_exec s

    pub exclusive-IsSafe : (m : Machine) → IsSafe m → Ensures IsSafe (exclusive env task m)
    unfolding exclusive
    exclusive-IsSafe m s = elim (Bool-cases (test_bit task.kind At.exclusive)) [
      | inl p ↦ rw p (
          moved m
            (record m {
              disk_disable = not (task.exclusive_param == 0);
              ejected = m.ejected || task.exclusive_param == sdk.exclusive_and_eject;
            })
            refl refl refl s)
      | inr p ↦ rw p s
    ]

    pub sent : (c : FlashCommand) (m : Machine) → Allowed sdk c → IsSafe m → IsSafe (send c m)
    sent c m a s = record {
      commands = AllAllowed-append sdk m.commands (c ∷ []) s.commands (a, tt);
      default_funcs = s.default_funcs;
      kept = s.kept;
    }

    pub call_default :
        (c : FlashCall) (m : Machine) → IsSafe m → call env c m ≡ default_call env c m
    unfolding call
    call_default c m s = ground (arith, s.default_funcs)

    pub exit_xip-IsSafe : (m : Machine) → IsSafe m → Ensures IsSafe (exit_xip env task m)
    unfolding exit_xip default_call
    exit_xip-IsSafe m s = elim (Bool-cases (test_bit task.kind At.exit_xip)) [
      | inl p ↦ rw (p, call_default do_flash_exit_xip m s) (sent flash_exit_xip m tt s)
      | inr p ↦ rw p s
    ]

    pub enter_cmd_xip-IsSafe : (m : Machine) → IsSafe m → Ensures IsSafe (enter_cmd_xip env task m)
    unfolding enter_cmd_xip default_call
    enter_cmd_xip-IsSafe m s = elim (Bool-cases (test_bit task.kind At.enter_cmd_xip)) [
      | inl p ↦ rw (p, call_default do_flash_enter_cmd_xip m s) (sent flash_enter_cmd_xip m tt s)
      | inr p ↦ rw p s
    ]

    erased :
        (m : Machine)
        → IsSafe m
        → task.erase_addr % 4096 ≡ 0
        → task.erase_size % 4096 ≡ 0
        → is_address_flash sdk task.erase_addr ≡ true
        → is_address_flash sdk (add32 task.erase_addr task.erase_size) ≡ true
        → Ensures IsSafe
            (checked (default_call env (do_flash_erase_range task.erase_addr task.erase_size) m))
    erased m s a b p q = elim (dec_lt (task.erase_addr + task.erase_size) (2 ^ 32)) [
      | yes fits ↦ rw (done fits) (record {
        commands =
            AllAllowed-append sdk m.commands (sectors (task.erase_addr - sdk.xip_main_base) n)
              s.commands
              (AllAllowed-sectors sdk n (task.erase_addr - sdk.xip_main_base) (omega (arith, lo))
                (omega (arith, lo, hi)));
        default_funcs = s.default_funcs;
        kept = s.kept;
      })
      | no wraps ↦
          rw
            (erase_range_wrapped env task.erase_addr task.erase_size m
              (omega (arith, bounded.size)))
            s
    ]
      where
        n : ℕ
        n = task.erase_size / 4096

        lo : (sdk.xip_main_base ≤ task.erase_addr) × (task.erase_addr ≤ sdk.sram_base)
        lo = flash_range sdk task.erase_addr p

        hi :
            (sdk.xip_main_base ≤ add32 task.erase_addr task.erase_size)
            × (add32 task.erase_addr task.erase_size ≤ sdk.sram_base)
        hi = flash_range sdk (add32 task.erase_addr task.erase_size) q

        whole : task.erase_size ≡ 4096 * n
        whole = omega arith

        done :
            task.erase_addr + task.erase_size < 2 ^ 32
            → default_call env (do_flash_erase_range task.erase_addr task.erase_size) m ≡ (
              0,
              record m { commands = m.commands ++ sectors (task.erase_addr - sdk.xip_main_base) n },
            )
        done fits =
            ap (λ (len : ℕ). default_call env (do_flash_erase_range task.erase_addr len) m) whole
            ∙ erase_range_lem env n task.erase_addr m valid s.default_funcs lo.0
                (omega (arith, hi.1))

    pub erase-IsSafe : (m : Machine) → IsSafe m → Ensures IsSafe (erase env task m)
    unfolding erase
    erase-IsSafe m s =
        ground (
          arith,
          call_default (do_flash_erase_range task.erase_addr task.erase_size) m s,
          erased m s,
        )
