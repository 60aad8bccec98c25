-- ===== src/Dns.antt =====
-- packages/lifeline/dns.c: a query for the A records of one name, and the reading of its reply.
--
-- A 16-bit or 32-bit field of a packet stands as the number that its bytes mean in network order;
-- `htons` and `ntohs` then disappear. A pointer into the payload is the list of the bytes from it
-- to the end, or an index; a read or a write past the end of an array is `faults`. What the socket
-- does is an argument.
pub mod Request
pub mod Receive
pub mod Fields
pub mod Replied
pub mod Client
use safewrt.Common.{ℕ, List, Bytes}

pub record DnsPacket : Type 0 where
  pub id : ℕ
  pub flags : ℕ
  pub queries : ℕ
  pub answers : ℕ
  pub authorities : ℕ
  pub additionals : ℕ
  pub payload : Bytes

pub record DnsRecord : Type 0 where
  pub ttl : ℕ
  pub address : ℕ

-- `dns_t`; the socket itself is not a part of the model.
pub record Dns : Type 0 where
  pub id : ℕ
  pub packet : DnsPacket
  pub dns_address : ℕ
  pub records : List DnsRecord

abbrev pub payload_buffer_size : ℕ
payload_buffer_size = 512

abbrev pub dns_error_socket_failed : ℕ
dns_error_socket_failed = 1

abbrev pub dns_error_name_too_long : ℕ
dns_error_name_too_long = 2

abbrev pub dns_error_sendto_failed : ℕ
dns_error_sendto_failed = 3

abbrev pub dns_error_recvfrom_failed : ℕ
dns_error_recvfrom_failed = 4

abbrev pub dns_error_udp_injected : ℕ
dns_error_udp_injected = 5

abbrev pub dns_error_answer_too_large : ℕ
dns_error_answer_too_large = 6

abbrev pub dns_error_nxdomain : ℕ
dns_error_nxdomain = 7
