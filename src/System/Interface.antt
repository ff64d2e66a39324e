-- ===== src/System/Interface.antt =====
-- What the crate calls and does not implement. Each function gives the answer to a call from the
-- calls that came before it. A handle or an address is a number, and null is 0.
use wintun_bindings.Base.{
  ℕ, zero, suc, ◌+◌, ◌-◌, ◌≡◌, refl, Bool, List, [], ◌∷◌, arith, length, leb, get_elem?, Option,
  none, some, if◌then◌else◌,
}
use wintun_bindings.System.Calls.{copy_to, Trace}

-- The features of Cargo.toml that change what the modelled code does, and `debug_assertions`.
pub record Build : Type 0 where
  pub panic_on_unsent_packets : Bool
  pub enable_inner_logging : Bool
  pub debug_assertions : Bool
  pub verify_binary_signature : Bool
  pub winreg : Bool

-- The address that `WintunReceivePacket` returns, and the size that it writes.
pub record Received : Type 0 where
  pub address : ℕ
  pub size : ℕ

pub record Platform : Type 0 where
  pub build : Build
  pub open build use *
  -- `GetLastError` after the calls of the trace.
  pub last_error : Trace → ℕ
  -- A byte of memory, as the driver has left it after the calls of the trace.
  pub memory : Trace → ℕ → ℕ
  -- wintun.dll
  pub start_session : Trace → ℕ → ℕ → ℕ
  pub get_read_wait_event : Trace → ℕ → ℕ
  pub receive_packet : Trace → ℕ → Received
  pub allocate_send_packet : Trace → ℕ → ℕ → ℕ
  pub get_running_driver_version : Trace → ℕ
  -- Events of the kernel. A Windows `BOOL` is a number, and false is 0.
  pub create_event : Trace → ℕ
  pub set_event : Trace → ℕ → ℕ
  pub close_handle : Trace → ℕ → ℕ
  pub wait_for_multiple_objects : Trace → List ℕ → ℕ

or_byte : Option ℕ → ℕ → ℕ
or_byte none d = d
or_byte (some b) d = b

-- A byte after the calls of the trace: what the crate has just written there, or what is in memory.
unfoldable pub byte_at : Platform → Trace → ℕ → ℕ
unfolding or_byte
byte_at p [] x = p.memory [] x
byte_at p (copy_to a bs ∷ t) x =
    let old = byte_at p t x in if leb a x then or_byte (get_elem? bs (x - a)) old else old
byte_at p (c ∷ t) x = p.memory (c ∷ t) x

-- `slice::from_raw_parts`
unfoldable pub slice : Platform → Trace → ℕ → ℕ → List ℕ
slice p t a zero = []
slice p t a (suc n) = byte_at p t a ∷ slice p t (a + 1) n

pub length-slice : (p : Platform) (t : Trace) (a n : ℕ) → length (slice p t a n) ≡ n
unfolding slice
length-slice p t a zero = refl
length-slice p t a (suc n) = omega (arith, length-slice p t (a + 1) n)
