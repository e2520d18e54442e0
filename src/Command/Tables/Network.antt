-- ===== src/Command/Tables/Network.antt =====
-- The tables of commands of src/command.c that concern the network, as they are with WIFI_SUPPORT
-- and TLS_SUPPORT.
use lcdpico_34401a.Common.{[], ◌∷◌, none, some}
use lcdpico_34401a.Command.Tree.{Handler, Level, null, level}
use lcdpico_34401a.Command.Rows.{row, table}
use lcdpico_34401a.Command.Handlers.{
  Name, cmd_wifi_auth_mode, cmd_wifi_country, cmd_wifi_gateway, cmd_wifi_hostname, cmd_wifi_ip,
  cmd_wifi_mac, cmd_wifi_netmask, cmd_wifi_dns, cmd_wifi_ntp_client, cmd_wifi_ntp, cmd_wifi_mode,
  cmd_wifi_password, cmd_wifi_rejoin, cmd_wifi_ssid, cmd_wifi_stats, cmd_wifi_status, cmd_wifi_info,
  cmd_wifi_syslog_client, cmd_wifi_syslog, cmd_http_mask_vsensor, cmd_http_port, cmd_http_tlsport,
  cmd_http_server, cmd_ssh_pkey_create, cmd_ssh_pkey_del, cmd_ssh_pkey, cmd_ssh_pubkey_add,
  cmd_ssh_pubkey_del, cmd_ssh_pubkey, cmd_ssh_acls, cmd_ssh_auth, cmd_ssh_port, cmd_ssh_server,
  cmd_ssh_pass, cmd_ssh_user, cmd_telnet_acls, cmd_telnet_auth, cmd_telnet_port, cmd_telnet_rawmode,
  cmd_telnet_server, cmd_telnet_pass, cmd_telnet_user, cmd_tls_cert, cmd_tls_pkey,
}

module _ {S : Type 0} (on : Name → Handler S) where
  unfoldable pub wifi_commands : Level S
  wifi_commands = table (
      row "AUTHmode" 4 null (some (on cmd_wifi_auth_mode))
      ∷ row "COUntry" 3 null (some (on cmd_wifi_country))
      ∷ row "GATEway" 4 null (some (on cmd_wifi_gateway))
      ∷ row "HOSTname" 4 null (some (on cmd_wifi_hostname))
      ∷ row "IPaddress" 2 null (some (on cmd_wifi_ip))
      ∷ row "MAC" 3 null (some (on cmd_wifi_mac))
      ∷ row "NETMask" 4 null (some (on cmd_wifi_netmask))
      ∷ row "DNS" 3 null (some (on cmd_wifi_dns))
      ∷ row "NTPClient" 4 null (some (on cmd_wifi_ntp_client))
      ∷ row "NTP" 3 null (some (on cmd_wifi_ntp))
      ∷ row "MODE" 4 null (some (on cmd_wifi_mode))
      ∷ row "PASSword" 4 null (some (on cmd_wifi_password))
      ∷ row "REJOIN" 6 null (some (on cmd_wifi_rejoin))
      ∷ row "SSID" 4 null (some (on cmd_wifi_ssid))
      ∷ row "STATS" 5 null (some (on cmd_wifi_stats))
      ∷ row "STATus" 4 null (some (on cmd_wifi_status))
      ∷ row "INFO" 4 null (some (on cmd_wifi_info))
      ∷ row "SYSLOGClient" 7 null (some (on cmd_wifi_syslog_client))
      ∷ row "SYSLOG" 6 null (some (on cmd_wifi_syslog))
      ∷ [])

  unfoldable pub http_mask_commands : Level S
  http_mask_commands = table (row "VSENSOR" 7 null (some (on cmd_http_mask_vsensor)) ∷ [])

  unfoldable pub http_commands : Level S
  http_commands = table (
      row "MASK" 4 (level http_mask_commands) none
      ∷ row "PORT" 4 null (some (on cmd_http_port))
      ∷ row "TLSPORT" 7 null (some (on cmd_http_tlsport))
      ∷ row "SERVer" 4 null (some (on cmd_http_server))
      ∷ [])

  unfoldable pub ssh_pkey_commands : Level S
  ssh_pkey_commands = table (
      row "CREate" 3 null (some (on cmd_ssh_pkey_create))
      ∷ row "DELete" 3 null (some (on cmd_ssh_pkey_del))
      ∷ row "LIST" 4 null (some (on cmd_ssh_pkey))
      ∷ [])

  unfoldable pub ssh_pubkey_commands : Level S
  ssh_pubkey_commands = table (
      row "ADD" 3 null (some (on cmd_ssh_pubkey_add))
      ∷ row "DELete" 3 null (some (on cmd_ssh_pubkey_del))
      ∷ row "LIST" 4 null (some (on cmd_ssh_pubkey))
      ∷ [])

  unfoldable pub ssh_commands : Level S
  ssh_commands = table (
      row "ACLs" 3 null (some (on cmd_ssh_acls))
      ∷ row "AUTH" 4 null (some (on cmd_ssh_auth))
      ∷ row "PORT" 4 null (some (on cmd_ssh_port))
      ∷ row "SERVer" 4 null (some (on cmd_ssh_server))
      ∷ row "PASSword" 4 null (some (on cmd_ssh_pass))
      ∷ row "USER" 4 null (some (on cmd_ssh_user))
      ∷ row "KEY" 3 (level ssh_pkey_commands) (some (on cmd_ssh_pkey))
      ∷ row "PUBKEY" 6 (level ssh_pubkey_commands) (some (on cmd_ssh_pubkey))
      ∷ [])

  unfoldable pub telnet_commands : Level S
  telnet_commands = table (
      row "ACLs" 3 null (some (on cmd_telnet_acls))
      ∷ row "AUTH" 4 null (some (on cmd_telnet_auth))
      ∷ row "PORT" 4 null (some (on cmd_telnet_port))
      ∷ row "RAWmode" 3 null (some (on cmd_telnet_rawmode))
      ∷ row "SERVer" 4 null (some (on cmd_telnet_server))
      ∷ row "PASSword" 4 null (some (on cmd_telnet_pass))
      ∷ row "USER" 4 null (some (on cmd_telnet_user))
      ∷ [])

  unfoldable pub tls_commands : Level S
  tls_commands =
      table (
        row "CERT" 4 null (some (on cmd_tls_cert))
        ∷ row "PKEY" 4 null (some (on cmd_tls_pkey))
        ∷ [])
