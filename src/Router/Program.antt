-- ===== src/Router/Program.antt =====
-- All functions of the router under one name, for runs on concrete inputs.
use cmput.Base.{htons, htonl, slice, splice, strncmp_eq, bytes_eq}
use cmput.Checksum.{sum_words, fold_carries, finish, cksum}
use cmput.Packet.{stores}
use cmput.Iface.{get_interface, get_interface_by_ip}
use cmput.Route.{covers, match_from, longest_prefix_matching}
use cmput.ArpCache.{
  lookup_from, arpcache_lookup, find_request, request_at, update_request, ensure_request,
  arpcache_queuereq, unlink_first, fill_entry, arpcache_insert, arpreq_destroy, expire_entries,
}
use cmput.Router.{monad, alloc_from, malloc}
use cmput.Router.Send.{interface_name, packet_message, ether_addrs_match_interface, send_packet}
use cmput.Router.Frames.{
  swap_addresses, icmp_header, error_ip_header, error_icmp_header, error_packet, arp_header_init,
  arp_request_frame,
}
use cmput.Router.Icmp.{
  send_or_queue, echo_reply, error_source, icmp_error, icmp_msg_with, send_arp_request, give_up,
  handle_arpreq_with, send_icmp_msg, handle_arpreq,
}
use cmput.Router.Handle.{
  next_hop_frame, forward_ip_packet, arp_reply_frame, answer_arp_request, flush_packets,
  take_arp_reply, interface_by_ip, handle_arp, handle_local, handle_ip, handle_packet, next_request,
  sweep_from, sweepreqs, timer_round,
}

unfoldable pub program : Unit {0}
unfolding monad alloc_from malloc htons htonl slice splice strncmp_eq bytes_eq stores sum_words
    fold_carries finish cksum get_interface get_interface_by_ip covers match_from
    longest_prefix_matching lookup_from arpcache_lookup find_request request_at update_request
    ensure_request arpcache_queuereq unlink_first fill_entry arpcache_insert arpreq_destroy
    expire_entries interface_name packet_message ether_addrs_match_interface send_packet
    swap_addresses icmp_header error_ip_header error_icmp_header error_packet arp_header_init
    arp_request_frame send_or_queue echo_reply error_source icmp_error icmp_msg_with
    send_arp_request give_up handle_arpreq_with send_icmp_msg handle_arpreq next_hop_frame
    forward_ip_packet arp_reply_frame answer_arp_request flush_packets take_arp_reply
    interface_by_ip handle_arp handle_local handle_ip handle_packet next_request sweep_from
    sweepreqs timer_round
program = tt
