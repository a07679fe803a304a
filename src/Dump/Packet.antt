-- ===== src/Dump/Packet.antt =====
-- What the analyser reads of a packet that the crate etherparse has sliced: the network layer's
-- addresses and the TCP header with its payload.
use pqcscan.Base.{ℕ, Option, Bytes}
use pqcscan.Base.Addr.{IpAddr}

-- `NetSlice`: an IPv4 or IPv6 header, or another protocol such as ARP
pub data NetSlice : Type 0 where
  ip : IpAddr → IpAddr → NetSlice
  arp : NetSlice

pub record TcpSlice : Type 0 where
  pub source_port : ℕ
  pub destination_port : ℕ
  pub sequence_number : ℕ
  pub payload : Bytes

-- `TransportSlice`: TCP, or another protocol such as UDP
pub data TransportSlice : Type 0 where
  tcp : TcpSlice → TransportSlice
  udp : TransportSlice

pub record SlicedPacket : Type 0 where
  pub net : Option NetSlice
  pub transport : Option TransportSlice
