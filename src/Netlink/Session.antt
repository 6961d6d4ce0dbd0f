-- ===== src/Netlink/Session.antt =====
-- The client and the module together.
use kernel_programming.Base.{
  copied_text, ℕ, true, ◌+◌, ◌%◌, ◌^◌, ◌≤◌, ◌≡◌, refl, ap, ◌∙◌, List, [], ◌∷◌, ◌++◌, codes, map,
  replicate, length, length-replicate, take, until_nul, IsString-append, until_nul-append,
  strcpy_lem, strncpy_bytes, length-strncpy_bytes, splice, length-splice, read_at, read_at-within,
  slice, write_at-within, Access, some, length-until_nul, arith,
}
use kernel_programming.Netlink.{
  CourseMessage, Answers, Reply, int_bytes, int_of, send_message_to_user, switch_type,
  netlink_recv_msg, text_size,
}
use kernel_programming.Netlink.Client.{Printed, payload, ask, main}

-- The kernel makes and delivers every message.
pub record Delivers (k : Answers) : Type 0 where
  pub new : k.nlmsg_new ≡ true
  pub put : k.nlmsg_put ≡ true
  pub unicast : k.netlink_unicast ≡ true
  pub sized : length k.skb_text ≡ text_size

module _ (k : Answers) (d : Delivers k) where
  send_lem :
      (t value : ℕ) (text : List ℕ)
      → (sent : List ℕ) × (send_message_to_user k t value text
          ≡ some (record { msg_type = t; value = value; text = sent } ∷ []))
        × (length sent ≡ text_size)
        × (until_nul sent ≡ take 63 (until_nul text))
  unfolding send_message_to_user splice
  send_lem t value text =
      let copied : List ℕ = strncpy_bytes 63 text in
      let size : length copied ≡ 63 = length-strncpy_bytes 63 text in
      let s1 : List ℕ = splice 0 copied k.skb_text in
      let same : length s1 ≡ length k.skb_text = length-splice 0 copied k.skb_text in
      (
        splice 63 (0 ∷ []) s1,
        rw
            (
              d.new,
              d.put,
              write_at-within k.skb_text 0 copied (omega (arith, size, d.sized)),
              write_at-within s1 63 (0 ∷ []) (omega (arith, same, d.sized)),
              d.unicast,
            )
            refl,
        length-splice 63 (0 ∷ []) s1 ∙ same ∙ d.sized,
        copied_text 63 text k.skb_text (omega (arith, d.sized)),
      )

  -- One question, where the module's reply is known.
  ask_lem :
      (t value : ℕ) (text buffer : List ℕ) (counter : ℕ)
      (next : Reply → CourseMessage → Access Printed) (c : ℕ) (m : CourseMessage)
      → length buffer ≡ text_size
      → length text ≤ 63
      → int_of (int_bytes t) ≡ t
      → switch_type k t counter ≡ some (record { message_counter = c; sent = m ∷ [] })
      → ask k t value text buffer counter next
        ≡ next (record { message_counter = c; sent = m ∷ [] }) m
  unfolding ask netlink_recv_msg slice
  ask_lem t value text buffer counter next c m sized fits type e =
      let short : length (until_nul (text ++ 0 ∷ [])) ≤ length text =
        omega (arith, ap length (until_nul-append text []), length-until_nul text) in
      let (written, w, _, _, _) =
        strcpy_lem buffer (text ++ 0 ∷ []) (IsString-append text [])
          (omega (arith, short, sized)) in
      let got : read_at (payload t value written) 0 4 ≡ some (int_bytes t) =
        read_at-within (payload t value written) 0 4 (omega arith) in
      rw (w, got, type, e) refl

-- What a user sees of a message: the type, the number and the text.
abbrev pub seen : CourseMessage → ℕ × (ℕ × List ℕ)
seen m = (m.msg_type, (m.value, until_nul m.text))

-- Where the kernel makes and delivers every message: the client program, run at any value of the
-- module's counter, gets to its end and has printed three replies, the greeting and the counter both
-- with the counter one higher (modulo 2 ^ 32), and the status with 0, each with its text; and the
-- module has counted one greeting.
pub main-three_replies :
    (k : Answers) (counter : ℕ)
    → Delivers k
    → (p : Printed) × (main k counter ≡ some p)
      × (p.message_counter ≡ (counter + 1) % 2 ^ 32)
      × (map seen p.replies
          ≡ (1, ((counter + 1) % 2 ^ 32, codes "Hello from kernel!"))
            ∷ (2, ((counter + 1) % 2 ^ 32, codes "Current counter value"))
            ∷ (3, (0, codes "Kernel module is running"))
            ∷ [])
unfolding main switch_type until_nul
main-three_replies k counter d =
    let c : ℕ = (counter + 1) % 2 ^ 32 in
    let (s1, e1, n1, t1) = send_lem k d 1 c (codes "Hello from kernel!") in
    let (s2, e2, n2, t2) = send_lem k d 2 c (codes "Current counter value") in
    let (s3, e3, n3, t3) = send_lem k d 3 0 (codes "Kernel module is running") in
    let m1 : CourseMessage = record { msg_type = 1; value = c; text = s1 } in
    let m2 : CourseMessage = record { msg_type = 2; value = c; text = s2 } in
    let m3 : CourseMessage = record { msg_type = 3; value = 0; text = s3 } in
    let a1 : switch_type k 1 counter ≡ some (record { message_counter = c; sent = m1 ∷ [] }) =
      rw e1 refl in
    let a2 : switch_type k 2 c ≡ some (record { message_counter = c; sent = m2 ∷ [] }) =
      rw e2 refl in
    let a3 : switch_type k 3 c ≡ some (record { message_counter = c; sent = m3 ∷ [] }) =
      rw e3 refl in
    let q1 =
      ask_lem k d 1 123 (codes "Hello from user space!") (replicate text_size 0) counter _ c m1
        (length-replicate {A = ℕ} text_size 0) (omega arith) refl a1 in
    let q2 = ask_lem k d 2 0 (codes "Get counter") s1 c _ c m2 n1 (omega arith) refl a2 in
    let q3 = ask_lem k d 3 0 (codes "Status request") s2 c _ c m3 n2 (omega arith) refl a3 in
    (
      record { message_counter = c; replies = m1 ∷ m2 ∷ m3 ∷ [] },
      q1 ∙ q2 ∙ q3,
      refl,
      rw (t1, t2, t3) refl,
    )
