-- ===== src/Shared/Client.antt =====
-- examples/class_6/02_dma_buffer_demo/shared_mem_test.c: a program that maps the shared buffer, writes
-- messages to its first half and prints the answers in its second. The device is open and mapped.
use kernel_programming.Base.{
  ℕ, ◌-◌, List, [], ◌∷◌, codes, ◌==◌, ◌||◌, if◌then◌else◌, replicate, take, drop, until_nul,
  strncpy_bytes, strcmp_equal, write_at, Access, some, ◌>>=◌, Result, ok, err,
}
use kernel_programming.Shared.{SharedMemDevice, msg_size, shared_mem_send_msg, shared_mem_ioctl}

-- The response that is printed, if the call succeeded, and the device.
pub record Exchange : Type 0 where
  pub device : SharedMemDevice
  pub response : Result (List ℕ)

abbrev pub answered : SharedMemDevice × Result ℕ → Exchange
answered (dev, err e) = record { device = dev; response = err e }
answered (dev, ok n) = record {
  device = dev;
  response = ok (until_nul (drop msg_size dev.shared_buffer));
}

-- One message: the response area is cleared, the message written with a NUL at the end of its half,
-- and the module called. The program leaves the buffer alone during the call.
unfoldable pub exchange :
    (print_lu : ℕ → List ℕ) (message : List ℕ) → SharedMemDevice → Access Exchange
exchange print_lu message dev = do
  buf ← write_at dev.shared_buffer msg_size (replicate msg_size 0)
  buf ← write_at buf 0 (strncpy_bytes (msg_size - 1) message)
  buf ← write_at buf (msg_size - 1) (0 ∷ [])
  result ←
      shared_mem_ioctl print_lu (λ buf. buf) (record dev { shared_buffer = buf })
        shared_mem_send_msg
  some (answered result)

-- message[strcspn(message, "\n")] = '\0'
unfoldable pub cut_line : List ℕ → List ℕ
cut_line [] = []
cut_line (c ∷ cs) = let rest : List ℕ = cut_line cs in if c == 0 || c == b'\n' then [] else c ∷ rest

-- The interactive mode: `lines` are what fgets gives, one after the other; the responses are what is
-- printed. The program stops at the end, at the line quit, and where a call fails.
abbrev pub continue : Exchange → (SharedMemDevice → Access (List (List ℕ))) → Access (List (List ℕ))
continue x rest = elim x.response [
  | err e ↦ some []
  | ok text ↦ (rest x.device >>= λ more. some (text ∷ more))
]

unfoldable pub interactive :
    (print_lu : ℕ → List ℕ) (lines : List (List ℕ)) → SharedMemDevice → Access (List (List ℕ))
interactive print_lu [] dev = some []
interactive print_lu (line ∷ lines) dev =
    let rest : SharedMemDevice → Access (List (List ℕ)) = interactive print_lu lines in
    if strcmp_equal (cut_line line) (codes "quit")
    then some []
    else exchange print_lu (cut_line line) dev >>= λ x. continue x rest

-- The single message mode: the argument is cut to 511 bytes.
unfoldable pub single :
    (print_lu : ℕ → List ℕ) (argument : List ℕ) → SharedMemDevice → Access Exchange
unfolding exchange
single print_lu argument dev = exchange print_lu (take 511 (until_nul argument)) dev
