-- ===== src/Netlink/Client.antt =====
-- examples/class_3/05_netlink_interface/netlink_test.c: a program that greets the module, asks for the
-- counter and for the status, and prints the three replies. The socket, and the memory for the
-- message, are there; `recvmsg` waits until there is a reply.
use kernel_programming.Base.{
  ℕ, List, [], ◌∷◌, ◌++◌, codes, replicate, strcpy, some, none, Access, ◌>>=◌,
}
use kernel_programming.Netlink.{
  CourseMessage, Answers, Reply, int_bytes, netlink_recv_msg, text_size, msg_type_hello,
  msg_type_counter, msg_type_status,
}

-- What was printed, and the module's counter after it.
pub record Printed : Type 0 where
  pub message_counter : ℕ
  pub replies : List CourseMessage

abbrev pub first : List CourseMessage → Access CourseMessage
first [] = none
first (m ∷ ms) = some m

-- The bytes of the structure that is sent.
abbrev pub payload : (msg_type value : ℕ) (text : List ℕ) → List ℕ
payload msg_type value text = int_bytes msg_type ++ (int_bytes value ++ text)

-- One text is copied over what the buffer holds, the message is sent, and the reply, which the
-- cleared buffer then takes, goes to `next`. With no reply the program waits for ever, as `none`.
unfoldable pub ask :
    Answers
    → (msg_type value : ℕ) (text buffer : List ℕ) (counter : ℕ)
    → (Reply → CourseMessage → Access Printed)
    → Access Printed
ask k msg_type value text buffer counter next = do
  written ← strcpy buffer (text ++ 0 ∷ [])
  answer ← netlink_recv_msg k (payload msg_type value written) counter
  received ← first answer.sent
  next answer received

unfoldable pub main : Answers → (counter : ℕ) → Access Printed
unfolding ask
main k counter =
    ask k msg_type_hello 123 (codes "Hello from user space!") (replicate text_size 0) counter
      (λ a1 r1. ask k msg_type_counter 0 (codes "Get counter") r1.text a1.message_counter (λ a2 r2.
        ask k msg_type_status 0 (codes "Status request") r2.text a2.message_counter (λ a3 r3.
          some (record { message_counter = a3.message_counter; replies = r1 ∷ r2 ∷ r3 ∷ [] }))))
