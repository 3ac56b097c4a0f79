-- ===== src/Descr/Tag.antt =====
-- internal/descr/descr.go: the tags of the interface record and of the peer record.
use encedo_wg_hsm.Common.{ℕ}

abbrev pub end : ℕ
end = 0x00

abbrev pub addr4 : ℕ
addr4 = 0x01

abbrev pub addr6 : ℕ
addr6 = 0x02

abbrev pub mtu : ℕ
mtu = 0x03

abbrev pub dns4 : ℕ
dns4 = 0x04

abbrev pub dns6 : ℕ
dns6 = 0x05

abbrev pub peer_ref : ℕ
peer_ref = 0x06

abbrev pub listen_port : ℕ
listen_port = 0x07

abbrev pub mac : ℕ
mac = 0x7f

abbrev pub endpoint4 : ℕ
endpoint4 = 0x10

abbrev pub endpoint6 : ℕ
endpoint6 = 0x11

abbrev pub endpoint_host : ℕ
endpoint_host = 0x12

abbrev pub aip4 : ℕ
aip4 = 0x13

abbrev pub aip6 : ℕ
aip6 = 0x14

abbrev pub keepalive : ℕ
keepalive = 0x15

abbrev pub psk_wrapped : ℕ
psk_wrapped = 0x16
