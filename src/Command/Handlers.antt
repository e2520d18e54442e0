-- ===== src/Command/Handlers.antt =====
-- The names of the handlers that the command tables of src/command.c hold.

pub data Name : Type 0 where
  cmd_lfs_copy : Name
  cmd_lfs_del : Name
  cmd_lfs_dir : Name
  cmd_lfs_format : Name
  cmd_lfs_ren : Name
  cmd_wifi_auth_mode : Name
  cmd_wifi_country : Name
  cmd_wifi_gateway : Name
  cmd_wifi_hostname : Name
  cmd_wifi_ip : Name
  cmd_wifi_mac : Name
  cmd_wifi_netmask : Name
  cmd_wifi_dns : Name
  cmd_wifi_ntp_client : Name
  cmd_wifi_ntp : Name
  cmd_wifi_mode : Name
  cmd_wifi_password : Name
  cmd_wifi_rejoin : Name
  cmd_wifi_ssid : Name
  cmd_wifi_stats : Name
  cmd_wifi_status : Name
  cmd_wifi_info : Name
  cmd_wifi_syslog_client : Name
  cmd_wifi_syslog : Name
  cmd_http_mask_vsensor : Name
  cmd_http_port : Name
  cmd_http_tlsport : Name
  cmd_http_server : Name
  cmd_ssh_pkey_create : Name
  cmd_ssh_pkey_del : Name
  cmd_ssh_pkey : Name
  cmd_ssh_pubkey_add : Name
  cmd_ssh_pubkey_del : Name
  cmd_ssh_pubkey : Name
  cmd_ssh_acls : Name
  cmd_ssh_auth : Name
  cmd_ssh_port : Name
  cmd_ssh_server : Name
  cmd_ssh_pass : Name
  cmd_ssh_user : Name
  cmd_telnet_acls : Name
  cmd_telnet_auth : Name
  cmd_telnet_port : Name
  cmd_telnet_rawmode : Name
  cmd_telnet_server : Name
  cmd_telnet_pass : Name
  cmd_telnet_user : Name
  cmd_tls_cert : Name
  cmd_tls_pkey : Name
  cmd_i2c_scan : Name
  cmd_i2c_speed : Name
  cmd_board : Name
  cmd_echo : Name
  cmd_err : Name
  cmd_flash : Name
  cmd_i2c : Name
  cmd_led : Name
  cmd_backlight : Name
  cmd_lfs : Name
  cmd_log_level : Name
  cmd_memtest : Name
  cmd_memory : Name
  cmd_name : Name
  cmd_syslog_level : Name
  cmd_timezone : Name
  cmd_time : Name
  cmd_usb_boot : Name
  cmd_uptime : Name
  cmd_version : Name
  cmd_adc_vref : Name
  cmd_vsensors : Name
  cmd_wifi : Name
  cmd_vsensor_name : Name
  cmd_vsensor_source : Name
  cmd_vsensors_sources : Name
  cmd_delete_config : Name
  cmd_print_config : Name
  cmd_save_config : Name
  cmd_upload_config : Name
  cmd_vsensor_humidity : Name
  cmd_vsensor_pressure : Name
  cmd_vsensor_temp : Name
  cmd_read : Name
  cmd_main : Name
  cmd_annunciators : Name
  cmd_vsensors_read : Name
  cmd_vsensor_write : Name
  cmd_null : Name
  cmd_zero : Name
  cmd_idn : Name
  cmd_one : Name
  cmd_reset : Name
  cmd_debug : Name
  cmd_exit : Name
  cmd_who : Name
