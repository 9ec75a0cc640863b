-- ===== src/Msc/Eject.antt =====
-- Ejecting the disk.
use pico_bootrom_crashdump.Prelude.{ℕ, ◌%◌, ◌≡◌, true, arith, List}
use pico_bootrom_crashdump.Msc.{
  MscState, Cbw, msc_send_csw, data_phase_complete, set_csw_failed, init_for_dn, scsi_fail_cmd,
}
use pico_bootrom_crashdump.Msc.Command.{
  msc_eject, is_valid_cbw, begin_command, test_unit_ready, start_stop_unit, run_command,
  msc_cmd_packet,
}

-- After the command that ejects the disk, the test whether the unit is ready fails: its status is
-- failed, and the sense data say that there is no medium.
pub eject-not_ready :
    (inquiry : List ℕ) (stop test : Cbw) (len len' : ℕ) (s : MscState)
    → is_valid_cbw inquiry stop len ≡ true
    → stop.opcode ≡ 0x1b
    → stop.start_stop % 4 ≡ 2
    → is_valid_cbw inquiry test len' ≡ true
    → test.opcode ≡ 0
    → let ejected = (msc_cmd_packet inquiry stop len s).1 in
      let s' = (msc_cmd_packet inquiry test len' ejected).1 in
      (s'.csw.status ≡ 1)
      × (s'.csw.tag ≡ test.tag)
      × (s'.request_sense.key ≡ 2)
      × (s'.request_sense.asc ≡ 0x3a)
unfolding msc_cmd_packet run_command begin_command test_unit_ready start_stop_unit scsi_fail_cmd
    init_for_dn set_csw_failed msc_eject data_phase_complete msc_send_csw
eject-not_ready inquiry stop test len len' s v op e v' op' = ground arith
