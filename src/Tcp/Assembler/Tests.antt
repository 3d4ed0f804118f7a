-- ===== src/Tcp/Assembler/Tests.antt =====
-- Runs of the assembler at concrete packets.
use httpdump.Base.{◌≡◌, refl, true, false, none, some, List, [], ◌∷◌, Bytes, codes, Returns}
use httpdump.Tcp.Packet.{Tcp}
use httpdump.Tcp.Stream.{Endpoint, new_network_stream}
use httpdump.Tcp.Connection.{TcpConnection, new_tcp_connection, on_receive}
use httpdump.Tcp.Connection.Stamp.{on_receive_stamps}
use httpdump.Tcp.Assembler.{
  TcpAssembler, new_tcp_assembler, lookup, entries, assemble, older, flush_older_than, finish_all,
}
use httpdump.Tcp.Assembler.Live.{
  IsValid, new_network_stream-StreamOpen, new_tcp_connection-IsLive, AllDone,
}
use httpdump.Tcp.Assembler.Safe.{assemble-IsValid}
use httpdump.Tcp.Assembler.Flush.{
  recent, Action, packet, other_packet, tick, capture, flush_older_than-recent, finish_all-AllDone,
  capture-returns,
}

abbrev client : Endpoint
client = record { ip = codes "10.0.0.1"; port = 40000 }

abbrev server : Endpoint
server = record { ip = codes "10.0.0.2"; port = 80 }

abbrev syn_packet : Tcp
syn_packet = record {
  seq = 100;
  ack_no = 0;
  syn = true;
  ack = false;
  fin = false;
  rst = false;
  payload = [];
}

abbrev get_packet : Tcp
get_packet = record {
  seq = 101;
  ack_no = 1;
  syn = false;
  ack = true;
  fin = true;
  rst = false;
  payload = codes "GET / HTTP/1.1";
}

abbrev fin_packet : Tcp
fin_packet = record {
  seq = 1;
  ack_no = 115;
  syn = false;
  ack = true;
  fin = true;
  rst = false;
  payload = [];
}

abbrev actions : List Action
actions =
    packet client server syn_packet 1
    ∷ other_packet
    ∷ packet client server get_packet 2
    ∷ packet server client fin_packet 3
    ∷ tick 2
    ∷ []

capture-returns_example :
    Returns
      (capture (new_tcp_assembler 1) actions)
      (λ r'. (r'.connections ≡ none) × (r'.handler_finished ≡ true))
capture-returns_example = capture-returns 1 actions

abbrev one_connection : TcpAssembler
one_connection = record {
  connections = some (new_tcp_connection (codes "k") client server 1 ∷ []);
  process_resp = 1;
  handled = [];
  handler_finished = false;
}

abbrev one_connection-IsValid : IsValid one_connection
one_connection-IsValid = record {
  table = new_tcp_connection (codes "k") client server 1 ∷ [];
  present = refl;
  live = (new_tcp_connection-IsLive (codes "k") client server 1, tt);
  distinct = (tt, tt);
}

assemble-IsValid_example : Returns (assemble one_connection client server get_packet 7) IsValid
assemble-IsValid_example =
    assemble-IsValid one_connection client server get_packet 7 one_connection-IsValid

abbrev plain_packet : Tcp
plain_packet = record {
  seq = 9;
  ack_no = 1;
  syn = false;
  ack = true;
  fin = false;
  rst = false;
  payload = codes "x";
}

flush_older_than-recent_example : Returns (flush_older_than one_connection 5) (λ p.
    IsValid p.0
    × AllDone (older 5 (new_tcp_connection (codes "k") client server 1 ∷ [])) p.1
    × ((k : Bytes)
        → lookup k (entries p.0.connections)
          ≡ recent 5 (lookup k (entries one_connection.connections))))
flush_older_than-recent_example = flush_older_than-recent one_connection 5 one_connection-IsValid

finish_all-AllDone_example : Returns (finish_all one_connection) (λ p.
    (p.0.connections ≡ none)
    × (p.0.handler_finished ≡ true)
    × AllDone (new_tcp_connection (codes "k") client server 1 ∷ []) p.1)
finish_all-AllDone_example = finish_all-AllDone one_connection one_connection-IsValid

abbrev http_connection : TcpConnection
http_connection = record {
  key = codes "k";
  request_stream = new_network_stream client server true;
  response_stream = new_network_stream client server false;
  client_id = client;
  last_timestamp = 2;
  last_req_timestamp = 2;
  last_rsp_timestamp = 0;
  is_http = true;
}

on_receive_stamps_example :
    Returns
      (on_receive http_connection client get_packet 7)
      (λ c'. (c'.last_req_timestamp ≡ 2) × (c'.last_rsp_timestamp ≡ 7))
on_receive_stamps_example =
    on_receive_stamps http_connection client get_packet 7
      (record {
        request = new_network_stream-StreamOpen client server true;
        response = new_network_stream-StreamOpen client server false;
      })
      refl
