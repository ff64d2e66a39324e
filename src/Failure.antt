-- ===== src/Failure.antt =====
-- src/error.rs, with the `std::io::Error` that it wraps.
use wintun_bindings.Base.{ℕ, Bool, true, false, Text, ◌==◌}

-- `OutOfRangeData<u32>`
pub record OutOfRangeData : Type 0 where
  pub start : ℕ
  pub end : ℕ
  pub value : ℕ

-- The kinds of `std::io::ErrorKind` that the crate names.
pub data ErrorKind : Type 0 where
  other would_block invalid_input invalid_data not_found : ErrorKind

mutual
  -- An `i32` error code is its bit pattern. What a foreign error holds is its text.
  pub data IoError : Type 0 where
    from_raw_os_error : ℕ → IoError
    from_kind : ErrorKind → IoError
    message : ErrorKind → Text → IoError
    boxed : ErrorKind → Error → IoError

  pub data Error : Type 0 where
    io : IoError → Error
    capacity_not_power_of_two : ℕ → Error
    capacity_out_of_range : OutOfRangeData → Error
    string : Text → Error
    lib_loading : Text → Error
    from_utf16_error : Text → Error
    utf8_error : Text → Error
    from_utf8_error : Text → Error
    addr_parse_error : Text → Error
    system_time_error : Text → Error
    try_from_slice_error : Text → Error
    infallible : ⊥ → Error
    shutting_down : Error

-- `impl From<Error> for std::io::Error`
unfoldable pub into_io : Error → IoError
into_io (io e) = e
into_io e = boxed other e

-- WSAEWOULDBLOCK is the one code that the standard library gives the kind `WouldBlock`.
unfoldable pub is_would_block : IoError → Bool
is_would_block (from_raw_os_error e) = e == 10035
is_would_block (from_kind would_block) = true
is_would_block (message would_block t) = true
is_would_block (boxed would_block e) = true
is_would_block e = false
