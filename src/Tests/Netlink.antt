-- ===== src/Tests/Netlink.antt =====
-- The client program at a fresh module.
use kernel_programming.Base.{
  ℕ, read_at, ◌≡◌, refl, true, [], ◌∷◌, codes, map, replicate, length-replicate, some, none,
}
use kernel_programming.Netlink.{Answers, netlink_recv_msg}
use kernel_programming.Netlink.Client.{Printed, main}
use kernel_programming.Netlink.Session.{seen, main-three_replies}

abbrev delivering : Answers
delivering = record {
  nlmsg_new = true;
  nlmsg_put = true;
  netlink_unicast = true;
  skb_text = replicate 64 9;
}

main-three_replies_example :
    (p : Printed) × (main delivering 0 ≡ some p)
    × (p.message_counter ≡ 1)
    × (map seen p.replies
        ≡ (1, (1, codes "Hello from kernel!"))
          ∷ (2, (1, codes "Current counter value"))
          ∷ (3, (0, codes "Kernel module is running"))
          ∷ [])
main-three_replies_example =
    main-three_replies delivering 0
      (record { new = refl; put = refl; unicast = refl; sized = length-replicate {A = ℕ} 64 9 })

-- A message with a payload of three bytes: the module reads behind its end.
short_payload : netlink_recv_msg delivering (1 ∷ 0 ∷ 0 ∷ []) 0 ≡ none
unfolding netlink_recv_msg read_at
short_payload = refl
