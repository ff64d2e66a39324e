-- ===== src/Examples/Libraries.antt =====
-- Runs of src/lib.rs, src/verify_binary_signature.rs, src/wintun_raw.rs and src/fn_holder.rs.
use wintun_bindings.Base.{
  ℕ, ◌≡◌, ◌⊎◌, ◌∷◌, [], Option, none, some, inl, inr, ok, err, List, Text, text, length, get_elem?,
  refl, arith, false, if◌then◌else◌, ltb,
}
use wintun_bindings.Bindings.{Libraries, Wintun, from_library, Method, callee}
use wintun_bindings.Bindings.Methods.{method_name, from_library-methods}
use wintun_bindings.Examples.Machine.{busy}
use wintun_bindings.FnHolder.Once.{load_fn_once, LoadsOnce}
use wintun_bindings.Loading.{Dlls}
use wintun_bindings.Programs.Finding.{Files}
use wintun_bindings.Signature.Path.{Loader}
use wintun_bindings.Signature.Path.Located.{Located, get_dll_absolute_path-buffer}
use wintun_bindings.Signature.Signer.{CryptApi}
use wintun_bindings.Signature.Signer.Handles.{get_signer_name-handles, LeavesHandles}
use wintun_bindings.Signature.Trust.{TrustApi}
use wintun_bindings.System.{empty_world, close_library}
use wintun_bindings.Util.Utf16.{to_wide}

abbrev or_null : Option ℕ → ℕ
or_null none = 0
or_null (some u) = u

-- A file that is signed by the provider.
abbrev trusted : TrustApi
trusted = record { verify_status = λ t file. 0 }

abbrev signer : List ℕ
signer = to_wide (text "WireGuard LLC")

abbrev crypt : CryptApi
crypt = record {
  query_object = λ t file. some (record { encoding = 1; store = 7; msg = 8 });
  signer_info_len = λ t msg. some 64;
  signer_info = λ t msg. some (record { issuer = 5; serial_number = 6 });
  size_of_signer_info = 16;
  certificate = λ t s e i n. 9;
  name_len = λ t c. length signer;
  name_written = λ t c. 1;
  name_unit = λ t c i. or_null (get_elem? signer i);
}

-- The name is not written.
abbrev nameless : CryptApi
nameless = record crypt { name_written = λ t c. 0 }

abbrev loader : Loader
loader = record {
  library = λ t path. 40;
  module_name_len = λ t lib size. if ltb size 4 then size else 4;
  module_name_unit = λ t lib i. 97;
}

abbrev libraries : Libraries
libraries = record { open_result = λ t path. inr 50; symbol = λ t library name. inr (length name) }

-- A library without functions.
abbrev empty_library : Libraries
empty_library = record libraries { symbol = λ t library name. inl (text "missing") }

abbrev dlls : Dlls
dlls = record {
  platform = busy;
  trust = trusted;
  crypt = crypt;
  loader = loader;
  libraries = libraries;
}

get_signer_name-handles_example :
    LeavesHandles busy nameless (97 ∷ []) (record { encoding = 1; store = 7; msg = 8 }) empty_world
get_signer_name-handles_example =
    get_signer_name-handles busy nameless (97 ∷ []) (record { encoding = 1; store = 7; msg = 8 })
      empty_world refl

get_dll_absolute_path-buffer_example : Located busy loader (97 ∷ []) empty_world
get_dll_absolute_path-buffer_example =
    get_dll_absolute_path-buffer busy loader (97 ∷ []) empty_world (λ lib size. ground arith)
      (λ lib i. omega arith)

-- Nothing of the repository is there.
abbrev no_files : Files
no_files = record { exists = λ t path. inr false }

from_library-methods_example :
    ((wintun : Wintun) × (from_library empty_library 50 empty_world ≡ (ok wintun, empty_world))
      × (wintun.library ≡ 50)
      × ((m : Method) → empty_library.symbol [] 50 (method_name m) ≡ inr (callee wintun m)))
    ⊎ ((e : Text) × (m : Method) × (empty_library.symbol [] 50 (method_name m) ≡ inl e)
        × (from_library empty_library 50 empty_world
            ≡ (err e, record empty_world { trace = close_library 50 ∷ [] })))
from_library-methods_example = from_library-methods empty_library 50 empty_world

load_fn_once_example :
    LoadsOnce libraries (text "bcryptprimitives.dll") (text "ProcessPrng") empty_world empty_world
load_fn_once_example =
    load_fn_once libraries (text "bcryptprimitives.dll") (text "ProcessPrng") empty_world
      empty_world
