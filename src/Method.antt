-- ===== src/Method.antt =====
-- The compression methods of Source/include/lh.h and their signatures in Source/src/lh_error.c,
-- and the status codes that every operation returns.
pub mod Signatures
use lhassa.Base.{
  ℕ, zero, suc, ◌≡◌, Bool, true, false, List, [], ◌∷◌, Option, none, some, ◌==◌, if◌then◌else◌,
}

-- `lh_status`, in its order.
pub data Status : Type 0 where
  ok err_io err_truncated err_invalid_archive err_crc_mismatch err_bad_header : Status
  err_filename_too_long err_no_memory err_invalid_arg err_unsupported err_password : Status
  err_not_found err_aborted : Status

-- `lh_method`, in its order.
pub data Method : Type 0 where
  lh0 lh1 lh2 lh3 lh4 lh5 lh6 lh7 lzs lz5 lz4 lhd lh8 lh9 : Method
  lha lhb lhc lhe pc1 pm0 pm1 pm2 pms lz2 lz3 lz7 lz8 lhx : Method

-- `lh_level`: the levels by name, and any other value that the integer type holds.
pub data Level : Type 0 where
  store level_lh1 level_lh5 level_lh6 level_lh7 level_lhd : Level
  other : ℕ → Level

-- A C string is the list of its characters before the terminating 0. `strncmp(a, b, n) == 0`.
pub strncmp_eq : ℕ → List ℕ → List ℕ → Bool
strncmp_eq zero a b = true
strncmp_eq (suc n) [] [] = true
strncmp_eq (suc n) [] (y ∷ b) = 0 == y
strncmp_eq (suc n) (x ∷ a) [] = x == 0
strncmp_eq (suc n) (x ∷ a) (y ∷ b) =
    let rest = strncmp_eq n a b in if x == y then (if x == 0 then true else rest) else false

-- `LH_SIG_LEN`
abbrev pub sig_len : ℕ
sig_len = 5

-- "-xyz-"
abbrev pub signature : ℕ → ℕ → ℕ → List ℕ
signature a b c = b'-' ∷ a ∷ b ∷ c ∷ b'-' ∷ []

-- `lh_method_to_string`: the methods with no signature of their own are written as "-lh5-".
unfoldable pub method_to_string : Method → List ℕ
method_to_string Method.lh0 = signature b'l' b'h' b'0'
method_to_string Method.lh1 = signature b'l' b'h' b'1'
method_to_string Method.lh2 = signature b'l' b'h' b'2'
method_to_string Method.lh3 = signature b'l' b'h' b'3'
method_to_string Method.lh4 = signature b'l' b'h' b'4'
method_to_string Method.lh5 = signature b'l' b'h' b'5'
method_to_string Method.lh6 = signature b'l' b'h' b'6'
method_to_string Method.lh7 = signature b'l' b'h' b'7'
method_to_string Method.lhx = signature b'l' b'h' b'x'
method_to_string Method.lzs = signature b'l' b'z' b's'
method_to_string Method.lz5 = signature b'l' b'z' b'5'
method_to_string Method.lz4 = signature b'l' b'z' b'4'
method_to_string Method.lhd = signature b'l' b'h' b'd'
method_to_string Method.pm0 = signature b'p' b'm' b'0'
method_to_string Method.pm1 = signature b'p' b'm' b'1'
method_to_string Method.pm2 = signature b'p' b'm' b'2'
method_to_string Method.pms = signature b'p' b'm' b's'
method_to_string Method.pc1 = signature b'p' b'c' b'1'
method_to_string _ = signature b'l' b'h' b'5'

-- One line of `lh_method_from_string`, and the lines below it.
abbrev pub try_method : List ℕ → Method → Method → Method
unfolding strncmp_eq method_to_string
try_method sig m rest = if strncmp_eq sig_len sig (method_to_string m) then m else rest

-- `lh_method_from_string`: `none` is the null pointer. The methods are tried in the source's
-- order, and an unknown signature is `pms`, which the codec refuses.
unfoldable pub method_from_string : Option (List ℕ) → Method
unfolding try_method
method_from_string none = Method.lh5
method_from_string (some sig) = try_method sig Method.lh0 (
    try_method sig Method.lh1 (
      try_method sig Method.lh2 (
        try_method sig Method.lh3 (
          try_method sig Method.lh4 (
            try_method sig Method.lh5 (
              try_method sig Method.lh6 (
                try_method sig Method.lh7 (
                  try_method sig Method.lhx (
                    try_method sig Method.lzs (
                      try_method sig Method.lz5 (
                        try_method sig Method.lz4 (
                          try_method sig Method.lhd (
                            try_method sig Method.pm0 (
                              try_method sig Method.pm1 (
                                try_method sig Method.pm2 (
                                  try_method sig Method.pms
                                    (try_method sig Method.pc1 Method.pms)))))))))))))))))

-- `lh_level_default`
abbrev pub level_default : Level
level_default = level_lh5
