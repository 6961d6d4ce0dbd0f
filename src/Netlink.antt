-- ===== src/Netlink.antt =====
-- examples/class_3/05_netlink_interface/netlink_example.c: replies to messages of a user over a
-- netlink socket, with a count of the greetings. The payload of a message is what follows its header.
use kernel_programming.Base.{
  ℕ, ◌+◌, ◌*◌, ◌-◌, ◌/◌, ◌%◌, ◌^◌, List, [], ◌∷◌, codes, strncpy_bytes, read_at, write_at, ◌==◌,
  if◌then◌else◌, Bool, not, Access, some, none, ◌>>=◌, Result, ok, err, enomem,
}
pub mod Client
pub mod Session

abbrev pub msg_type_hello : ℕ
msg_type_hello = 1

abbrev pub msg_type_counter : ℕ
msg_type_counter = 2

abbrev pub msg_type_status : ℕ
msg_type_status = 3

abbrev pub text_size : ℕ
text_size = 64

-- The two ints are their 32 bits.
pub record CourseMessage : Type 0 where
  pub msg_type : ℕ
  pub value : ℕ
  pub text : List ℕ

-- The four bytes of an int.
abbrev pub int_bytes : ℕ → List ℕ
int_bytes n = n % 256 ∷ (n / 256) % 256 ∷ (n / 65536) % 256 ∷ (n / 16777216) % 256 ∷ []

abbrev pub int_of : List ℕ → ℕ
int_of [] = 0
int_of (b ∷ bs) = b + 256 * int_of bs

-- What the kernel answers to the calls of one reply, and the bytes of the new message's text before
-- they are written.
pub record Answers : Type 0 where
  pub nlmsg_new : Bool
  pub nlmsg_put : Bool
  pub netlink_unicast : Bool
  pub skb_text : List ℕ

-- What reaches the user: at most one message.
unfoldable pub send_message_to_user :
    Answers → (msg_type value : ℕ) (text : List ℕ) → Access (List CourseMessage)
send_message_to_user k msg_type value text =
    if not k.nlmsg_new then some [] else if not k.nlmsg_put then some [] else do
      sent ← write_at k.skb_text 0 (strncpy_bytes (text_size - 1) text)
      sent ← write_at sent (text_size - 1) (0 ∷ [])
      some (
          if k.netlink_unicast
          then record { msg_type = msg_type; value = value; text = sent } ∷ []
          else [])

-- `message_counter`, and what is sent.
pub record Reply : Type 0 where
  pub message_counter : ℕ
  pub sent : List CourseMessage

abbrev pub reply : (counter : ℕ) → Access (List CourseMessage) → Access Reply
reply counter sent = sent >>= λ s. some (record { message_counter = counter; sent = s })

-- The switch on the type; -1 is 2 ^ 32 - 1.
unfoldable pub switch_type : Answers → (msg_type counter : ℕ) → Access Reply
switch_type k msg_type counter =
    if msg_type == msg_type_hello
    then reply ((counter + 1) % 2 ^ 32) (
        send_message_to_user k msg_type_hello ((counter + 1) % 2 ^ 32) (codes "Hello from kernel!"))
    else if msg_type == msg_type_counter
    then reply counter
        (send_message_to_user k msg_type_counter counter (codes "Current counter value"))
    else if msg_type == msg_type_status
    then reply counter (send_message_to_user k msg_type_status 0 (codes "Kernel module is running"))
    else reply counter (send_message_to_user k 0 (2 ^ 32 - 1) (codes "Unknown command"))

-- The type is read with no look at the length of the payload.
unfoldable pub netlink_recv_msg : Answers → (payload : List ℕ) (counter : ℕ) → Access Reply
netlink_recv_msg k payload counter = do
  bytes ← read_at payload 0 4
  switch_type k (int_of bytes) counter

-- The counter at loading, and whether the socket can be made.
unfoldable pub netlink_example_init : (netlink_kernel_create : Bool) → ℕ × Result ℕ
netlink_example_init netlink_kernel_create =
    (0, if not netlink_kernel_create then err enomem else ok 0)
