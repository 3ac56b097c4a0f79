-- ===== src/Tests/Records.antt =====
-- The configurations, records and devices of the tests.
use encedo_wg_hsm.Common.{
  codes, ◌%◌, true, false, List, [], ◌∷◌, ◌++◌, Bytes, length, replicate, bytes_eq, if◌then◌else◌,
  ok, err,
}
use encedo_wg_hsm.Netip.{Addr, invalid, v4, v6}
use encedo_wg_hsm.Descr.Records.{Interface, Peer, mac_len}
use encedo_wg_hsm.Mac.Message.{PeerRecord, Hmac}

abbrev pub six : Addr
six = v6 (32 ∷ replicate 15 1) []

-- 10.0.0.7/24 and an IPv6 address in front of it, an MTU, two servers and two peers.
abbrev pub unsigned_config : Interface
unsigned_config = record {
  addrs =
      record { addr = six; bits = 64 } ∷ record { addr = v4 (10 ∷ 0 ∷ 0 ∷ 7 ∷ []); bits = 24 } ∷ [];
  mtu = 1420;
  dns = v4 (1 ∷ 1 ∷ 1 ∷ 1 ∷ []) ∷ [];
  peer_refs = replicate 4 5 ∷ replicate 4 3 ∷ [];
  listen_port = 0;
  mac = replicate mac_len 0;
  has_mac = true;
}

abbrev pub signed_config : Bytes → Interface
signed_config mac = record unsigned_config { mac = mac }

abbrev pub untagged_config : Interface
untagged_config = record unsigned_config { has_mac = false }

-- The bytes in front of the MAC tag, with the IPv4 address first.
abbrev pub config_front : Bytes
config_front =
    codes "WG:if:"
    ++ (2 ∷ 1 ∷ 5 ∷ 10 ∷ 0 ∷ 0 ∷ 7 ∷ 24 ∷ 2 ∷ 17 ∷ 32 ∷ replicate 15 1)
    ++ (64 ∷ 3 ∷ 2 ∷ 5 ∷ 140 ∷ 4 ∷ 4 ∷ 1 ∷ 1 ∷ 1 ∷ 1 ∷ 6 ∷ 4 ∷ replicate 4 5)
    ++ (6 ∷ 4 ∷ replicate 4 3)

abbrev pub signed_record : Bytes → Bytes
signed_record mac = (config_front ++ (127 ∷ 32 ∷ mac)) ++ replicate 39 0

abbrev pub untagged_record : Bytes
untagged_record = config_front ++ replicate 73 0

abbrev pub interface_key : Bytes
interface_key = replicate 32 200

abbrev pub peers : List PeerRecord
peers =
    record { pub_key = replicate 32 5; descr = replicate 128 11 }
    ∷ record { pub_key = replicate 32 3; descr = replicate 128 12 }
    ∷ []

-- A digest that stands in for SHA-1: the key itself.
abbrev pub digest : Bytes → Bytes
digest key = key

-- A device that stands in for the HMAC: the length of the message, 32 times.
abbrev pub toy_hmac : Hmac
toy_hmac = record {
  hash = λ msg. ok (replicate 32 (length msg % 256));
  verify = λ msg mac. if bytes_eq mac (replicate 32 (length msg % 256)) then ok tt else err 1;
}

abbrev pub message : Bytes
message =
    codes "ENC-WG-MAC-v2"
    ++ (interface_key
        ++ (signed_record (replicate 32 0)
            ++ (replicate 32 3 ++ (replicate 128 12 ++ (replicate 32 5 ++ replicate 128 11)))))

abbrev pub host_peer : Peer
host_peer = record {
  endpoint = record { ip = invalid; host = codes "vpn.example"; port = 51820 };
  allowed_ips = record { addr = v4 (10 ∷ 0 ∷ 0 ∷ 0 ∷ []); bits = 8 } ∷ [];
  keepalive = 25;
  psk_wrapped = replicate 40 9;
}

abbrev pub host_peer_record : Bytes
host_peer_record =
    (codes "WG:pr:" ++ (2 ∷ 18 ∷ 13 ∷ 202 ∷ 108 ∷ codes "vpn.example"))
    ++ (19 ∷ 5 ∷ 10 ∷ 0 ∷ 0 ∷ 0 ∷ 8 ∷ 21 ∷ 1 ∷ 25 ∷ 22 ∷ 40 ∷ replicate 40 9)
    ++ replicate 54 0
