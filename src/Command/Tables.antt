-- ===== src/Command/Tables.antt =====
-- The tables of commands of src/command.c, as they are with WIFI_SUPPORT and TLS_SUPPORT.
pub mod Network
use lcdpico_34401a.Common.{ℕ, List, [], ◌∷◌, Option, none, some, codes}
use lcdpico_34401a.Command.Tree.{Handler, Level, sentinel, entry, Subcommands, null, level}
use lcdpico_34401a.Command.Rows.{row, table}
use lcdpico_34401a.Command.Handlers.{
  Name, cmd_lfs_copy, cmd_lfs_del, cmd_lfs_dir, cmd_lfs_format, cmd_lfs_ren, cmd_i2c_scan,
  cmd_i2c_speed, cmd_board, cmd_echo, cmd_err, cmd_flash, cmd_i2c, cmd_led, cmd_backlight, cmd_lfs,
  cmd_log_level, cmd_memtest, cmd_memory, cmd_name, cmd_syslog_level, cmd_timezone, cmd_time,
  cmd_usb_boot, cmd_uptime, cmd_version, cmd_adc_vref, cmd_vsensors, cmd_wifi, cmd_wifi_info,
  cmd_vsensor_name, cmd_vsensor_source, cmd_vsensors_sources, cmd_delete_config, cmd_print_config,
  cmd_save_config, cmd_upload_config, cmd_vsensor_humidity, cmd_vsensor_pressure, cmd_vsensor_temp,
  cmd_read, cmd_main, cmd_annunciators, cmd_vsensors_read, cmd_vsensor_write, cmd_null, cmd_zero,
  cmd_idn, cmd_one, cmd_reset, cmd_debug, cmd_exit, cmd_who,
}
use lcdpico_34401a.Command.Tables.Network.{
  wifi_commands, http_mask_commands, http_commands, ssh_pkey_commands, ssh_pubkey_commands,
  ssh_commands, telnet_commands, tls_commands,
}

module _ {S : Type 0} (on : Name → Handler S) where
  unfoldable pub lfs_commands : Level S
  lfs_commands = table (
      row "COPY" 4 null (some (on cmd_lfs_copy))
      ∷ row "DELete" 3 null (some (on cmd_lfs_del))
      ∷ row "DIRectory" 3 null (some (on cmd_lfs_dir))
      ∷ row "FORMAT" 6 null (some (on cmd_lfs_format))
      ∷ row "REName" 3 null (some (on cmd_lfs_ren))
      ∷ [])

  unfoldable pub i2c_commands : Level S
  i2c_commands = table (
      row "SCAN" 4 null (some (on cmd_i2c_scan))
      ∷ row "SPEED" 5 null (some (on cmd_i2c_speed))
      ∷ [])

  unfoldable pub system_commands : Level S
  system_commands = table (
      row "BOARD" 5 null (some (on cmd_board))
      ∷ row "ECHO" 4 null (some (on cmd_echo))
      ∷ row "ERRor" 3 null (some (on cmd_err))
      ∷ row "FLASH" 5 null (some (on cmd_flash))
      ∷ row "I2C" 3 (level i2c_commands) (some (on cmd_i2c))
      ∷ row "LED" 3 null (some (on cmd_led))
      ∷ row "BACKLight" 5 null (some (on cmd_backlight))
      ∷ row "LFS" 3 (level lfs_commands) (some (on cmd_lfs))
      ∷ row "LOG" 3 null (some (on cmd_log_level))
      ∷ row "MEMTEST" 7 null (some (on cmd_memtest))
      ∷ row "MEMory" 3 null (some (on cmd_memory))
      ∷ row "NAME" 4 null (some (on cmd_name))
      ∷ row "SYSLOG" 6 null (some (on cmd_syslog_level))
      ∷ row "TIMEZONE" 8 null (some (on cmd_timezone))
      ∷ row "TIME" 4 null (some (on cmd_time))
      ∷ row "UPGRADE" 7 null (some (on cmd_usb_boot))
      ∷ row "UPTIme" 4 null (some (on cmd_uptime))
      ∷ row "VERsion" 3 null (some (on cmd_version))
      ∷ row "VREFadc" 4 null (some (on cmd_adc_vref))
      ∷ row "VSENSORS" 8 null (some (on cmd_vsensors))
      ∷ row "WIFI" 4 (level (wifi_commands on)) (some (on cmd_wifi))
      ∷ row "IFCONFIG" 8 null (some (on cmd_wifi_info))
      ∷ row "HTTP" 4 (level (http_commands on)) none
      ∷ row "TELNET" 6 (level (telnet_commands on)) none
      ∷ row "SSH" 3 (level (ssh_commands on)) none
      ∷ row "TLS" 3 (level (tls_commands on)) none
      ∷ [])

  unfoldable pub vsensor_c_commands : Level S
  vsensor_c_commands = table (
      row "NAME" 4 null (some (on cmd_vsensor_name))
      ∷ row "SOUrce" 3 null (some (on cmd_vsensor_source))
      ∷ [])

  unfoldable pub vsensors_c_commands : Level S
  vsensors_c_commands = table (row "SOUrce" 3 null (some (on cmd_vsensors_sources)) ∷ [])

  unfoldable pub config_commands : Level S
  config_commands = table (
      row "DELete" 3 null (some (on cmd_delete_config))
      ∷ row "Read" 1 null (some (on cmd_print_config))
      ∷ row "SAVe" 3 null (some (on cmd_save_config))
      ∷ row "UPLOAD" 6 null (some (on cmd_upload_config))
      ∷ row "VSENSORS" 8 (level vsensors_c_commands) (some (on cmd_vsensors_sources))
      ∷ row "VSENSOR" 7 (level vsensor_c_commands) none
      ∷ [])

  unfoldable pub vsensor_commands : Level S
  vsensor_commands = table (
      row "HUMidity" 3 null (some (on cmd_vsensor_humidity))
      ∷ row "PREssure" 3 null (some (on cmd_vsensor_pressure))
      ∷ row "Read" 1 null (some (on cmd_vsensor_temp))
      ∷ row "TEMP" 4 null (some (on cmd_vsensor_temp))
      ∷ [])

  unfoldable pub measure_commands : Level S
  measure_commands = table (
      row "Read" 1 null (some (on cmd_read))
      ∷ row "Main" 1 null (some (on cmd_main))
      ∷ row "ANNunciators" 3 null (some (on cmd_annunciators))
      ∷ row "VSENSORS" 8 null (some (on cmd_vsensors_read))
      ∷ row "VSENSOR" 7 (level vsensor_commands) (some (on cmd_vsensor_temp))
      ∷ [])

  unfoldable pub write_commands : Level S
  write_commands = table (row "VSENSOR" 7 null (some (on cmd_vsensor_write)) ∷ [])

  unfoldable pub commands : Level S
  commands = table (
      row "*CLS" 4 null (some (on cmd_null))
      ∷ row "*ESE" 4 null (some (on cmd_null))
      ∷ row "*ESR" 4 null (some (on cmd_zero))
      ∷ row "*IDN" 4 null (some (on cmd_idn))
      ∷ row "*OPC" 4 null (some (on cmd_one))
      ∷ row "*RST" 4 null (some (on cmd_reset))
      ∷ row "*SRE" 4 null (some (on cmd_zero))
      ∷ row "*STB" 4 null (some (on cmd_zero))
      ∷ row "*TST" 4 null (some (on cmd_zero))
      ∷ row "*WAI" 4 null (some (on cmd_null))
      ∷ row "CONFigure" 4 (level config_commands) (some (on cmd_print_config))
      ∷ row "Debug" 1 null (some (on cmd_debug))
      ∷ row "EXIT" 4 null (some (on cmd_exit))
      ∷ row "MEAsure" 3 (level measure_commands) none
      ∷ row "SYStem" 3 (level system_commands) none
      ∷ row "Read" 1 null (some (on cmd_read))
      ∷ row "WHO" 3 null (some (on cmd_who))
      ∷ row "WRIte" 3 (level write_commands) none
      ∷ [])
